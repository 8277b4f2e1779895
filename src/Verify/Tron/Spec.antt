-- ===== src/Verify/Tron/Spec.antt =====
-- What a TRON transaction that passes a gate does, and that the gates decide it.
use cryptoswap_wallet.Common.{
  ℤ, pos, Str, [], ◌≡◌, ◌↔◌, ◌<ℤ◌, text, str_ne_iff, int_ne_iff, leb_ℤ-false, is_empty,
  is_empty_iff, not, false, arith,
}
use cryptoswap_wallet.Verify.Types.{
  TronSwapPlan, TronTokenSwapPlan, TronSendPlan, TronTokenSendPlan, run_checks-eq-nil,
  not-false_iff,
}
use cryptoswap_wallet.Verify.Memo.{memo_pays_destination_iff, Pays}
use cryptoswap_wallet.Verify.Tron.{
  TronTx, TronTokenTx, swap_checks, token_swap_checks, send_checks, token_send_checks,
  verify_tron_swap, verify_tron_token_swap, verify_tron_send, verify_tron_token_send,
}

pub record IsSafeSwap (tx : TronTx) (plan : TronSwapPlan) (now : ℤ) : Type 0 where
  pub in_time : now <ℤ plan.expiry
  pub contract_type : tx.contract_type ≡ text "TransferContract"
  pub pays : tx.to_address ≡ plan.inbound_address
  pub amount : tx.amount_sun ≡ plan.amount_sun
  pub memo : tx.memo ≡ plan.memo
  pub destination : Pays plan.destination plan.memo

pub record IsSafeTokenSwap (tx : TronTokenTx) (plan : TronTokenSwapPlan) (now : ℤ) : Type 0 where
  pub in_time : now <ℤ plan.expiry
  pub contract_type : tx.contract_type ≡ text "TriggerSmartContract"
  pub token : tx.trigger_to ≡ plan.token
  pub pays : tx.recipient ≡ plan.inbound_address
  pub amount : tx.transfer_amount ≡ plan.amount
  pub no_trx : tx.trx_value ≡ pos 0
  pub memo : tx.memo ≡ plan.memo
  pub destination : Pays plan.destination plan.memo

pub record IsSafeSend (tx : TronTx) (plan : TronSendPlan) : Type 0 where
  pub contract_type : tx.contract_type ≡ text "TransferContract"
  pub pays : tx.to_address ≡ plan.recipient
  pub amount : tx.amount_sun ≡ plan.amount_sun
  pub no_memo : tx.memo ≡ []

pub record IsSafeTokenSend (tx : TronTokenTx) (plan : TronTokenSendPlan) : Type 0 where
  pub contract_type : tx.contract_type ≡ text "TriggerSmartContract"
  pub token : tx.trigger_to ≡ plan.token
  pub pays : tx.recipient ≡ plan.recipient
  pub amount : tx.transfer_amount ≡ plan.amount
  pub no_trx : tx.trx_value ≡ pos 0
  pub no_memo : tx.memo ≡ []

no_memo_iff : (m : Str) → (not (is_empty m) ≡ false) ↔ (m ≡ [])
no_memo_iff m = ground (arith, is_empty_iff m)

-- The gate of a native deposit reports no problem exactly when it is before the expiry, the
-- contract is a transfer of the amount to the vault, the memo is the quoted one, and that memo
-- pays the destination.
pub verify_tron_swap_iff :
    (tx : TronTx) (plan : TronSwapPlan) (now : ℤ)
    → (verify_tron_swap tx plan now ≡ []) ↔ IsSafeSwap tx plan now
unfolding verify_tron_swap
verify_tron_swap_iff tx plan now = (
  λ h.
      let c = (run_checks-eq-nil (swap_checks tx plan now)).0 h in
      record {
        in_time = (leb_ℤ-false plan.expiry now).0 c.0;
        contract_type = (str_ne_iff _ _).0 c.1.0;
        pays = (str_ne_iff _ _).0 c.1.1.0;
        amount = (int_ne_iff _ _).0 c.1.1.1.0;
        memo = (str_ne_iff _ _).0 c.1.1.1.1.0;
        destination = (memo_pays_destination_iff _ _).0 ((not-false_iff _).0 c.1.1.1.1.1.0);
      },
  λ s. (run_checks-eq-nil (swap_checks tx plan now)).1 (
    (leb_ℤ-false plan.expiry now).1 s.in_time,
    (
      (str_ne_iff _ _).1 s.contract_type,
      (
        (str_ne_iff _ _).1 s.pays,
        (
          (int_ne_iff _ _).1 s.amount,
          (
            (str_ne_iff _ _).1 s.memo,
            ((not-false_iff _).1 ((memo_pays_destination_iff _ _).1 s.destination), tt),
          ),
        ),
      ),
    ),
  ),
)

-- The gate of a TRC-20 deposit reports no problem exactly when it is before the expiry, the contract
-- is a call of the token that transfers the amount to the vault and sends no TRX, the memo is the
-- quoted one, and that memo pays the destination.
pub verify_tron_token_swap_iff :
    (tx : TronTokenTx) (plan : TronTokenSwapPlan) (now : ℤ)
    → (verify_tron_token_swap tx plan now ≡ []) ↔ IsSafeTokenSwap tx plan now
unfolding verify_tron_token_swap
verify_tron_token_swap_iff tx plan now = (
  λ h.
      let c = (run_checks-eq-nil (token_swap_checks tx plan now)).0 h in
      record {
        in_time = (leb_ℤ-false plan.expiry now).0 c.0;
        contract_type = (str_ne_iff _ _).0 c.1.0;
        token = (str_ne_iff _ _).0 c.1.1.0;
        pays = (str_ne_iff _ _).0 c.1.1.1.0;
        amount = (int_ne_iff _ _).0 c.1.1.1.1.0;
        no_trx = (int_ne_iff _ _).0 c.1.1.1.1.1.0;
        memo = (str_ne_iff _ _).0 c.1.1.1.1.1.1.0;
        destination = (memo_pays_destination_iff _ _).0 ((not-false_iff _).0 c.1.1.1.1.1.1.1.0);
      },
  λ s. (run_checks-eq-nil (token_swap_checks tx plan now)).1 (
    (leb_ℤ-false plan.expiry now).1 s.in_time,
    (
      (str_ne_iff _ _).1 s.contract_type,
      (
        (str_ne_iff _ _).1 s.token,
        (
          (str_ne_iff _ _).1 s.pays,
          (
            (int_ne_iff _ _).1 s.amount,
            (
              (int_ne_iff _ _).1 s.no_trx,
              (
                (str_ne_iff _ _).1 s.memo,
                ((not-false_iff _).1 ((memo_pays_destination_iff _ _).1 s.destination), tt),
              ),
            ),
          ),
        ),
      ),
    ),
  ),
)

-- The gate of a native send reports no problem exactly when the contract is a transfer of the amount
-- to the recipient that carries no memo.
pub verify_tron_send_iff :
    (tx : TronTx) (plan : TronSendPlan) → (verify_tron_send tx plan ≡ []) ↔ IsSafeSend tx plan
unfolding verify_tron_send
verify_tron_send_iff tx plan = (
  λ h.
      let c = (run_checks-eq-nil (send_checks tx plan)).0 h in
      record {
        contract_type = (str_ne_iff _ _).0 c.0;
        pays = (str_ne_iff _ _).0 c.1.0;
        amount = (int_ne_iff _ _).0 c.1.1.0;
        no_memo = (no_memo_iff _).0 c.1.1.1.0;
      },
  λ s. (run_checks-eq-nil (send_checks tx plan)).1 (
    (str_ne_iff _ _).1 s.contract_type,
    ((str_ne_iff _ _).1 s.pays, ((int_ne_iff _ _).1 s.amount, ((no_memo_iff _).1 s.no_memo, tt))),
  ),
)

-- The gate of a TRC-20 send reports no problem exactly when the contract is a call of the token that
-- transfers the amount to the recipient, sends no TRX and carries no memo.
pub verify_tron_token_send_iff :
    (tx : TronTokenTx) (plan : TronTokenSendPlan)
    → (verify_tron_token_send tx plan ≡ []) ↔ IsSafeTokenSend tx plan
unfolding verify_tron_token_send
verify_tron_token_send_iff tx plan = (
  λ h.
      let c = (run_checks-eq-nil (token_send_checks tx plan)).0 h in
      record {
        contract_type = (str_ne_iff _ _).0 c.0;
        token = (str_ne_iff _ _).0 c.1.0;
        pays = (str_ne_iff _ _).0 c.1.1.0;
        amount = (int_ne_iff _ _).0 c.1.1.1.0;
        no_trx = (int_ne_iff _ _).0 c.1.1.1.1.0;
        no_memo = (no_memo_iff _).0 c.1.1.1.1.1.0;
      },
  λ s. (run_checks-eq-nil (token_send_checks tx plan)).1 (
    (str_ne_iff _ _).1 s.contract_type,
    (
      (str_ne_iff _ _).1 s.token,
      (
        (str_ne_iff _ _).1 s.pays,
        (
          (int_ne_iff _ _).1 s.amount,
          ((int_ne_iff _ _).1 s.no_trx, ((no_memo_iff _).1 s.no_memo, tt)),
        ),
      ),
    ),
  ),
)
