-- ===== src/Verify/Eth/Spec.antt =====
-- What an Ethereum transaction that passes a gate does, and that the gates decide it.
use cryptoswap_wallet.Common.{
  ℤ, pos, ◌*ℤ◌, Str, Bytes, false, List, [], some, ◌≡◌, ◌↔◌, ◌⊎◌, inl, inr, refl, ◌<ℤ◌, ◌≤ℤ◌, text,
  lower, encode_utf8, str_ne_iff, int_ne_iff, leb_ℤ-false, ltb_ℤ-false, is_empty_iff, str_eq_iff,
  Option-cases, some_inj, arith, sym, ap, ◌∙◌,
}
use cryptoswap_wallet.Result.{ok, ok_inj}
use cryptoswap_wallet.Verify.Types.{
  EthSwapPlan, EthSendPlan, EthTokenSendPlan, Problem, run_checks, run_checks-eq-nil, not-false_iff,
}
use cryptoswap_wallet.Verify.Memo.{memo_pays_destination_iff, Pays}
use cryptoswap_wallet.Verify.Eth.{
  EthTx, Transfer, hex_data, has_calldata, swap_checks, send_checks, token_send_checks,
  verify_eth_swap, verify_eth_send, verify_eth_token_send,
}

-- Equal up to the case of letters, as hex addresses are.
abbrev pub SameHex : Str → Str → Type 0
SameHex a b = lower a ≡ lower b

-- The calldata is the memo in UTF-8 as hex.
abbrev pub Encodes : Str → Str → Type 0
Encodes calldata memo = (b : Bytes) × (encode_utf8 memo ≡ some b) × SameHex calldata (hex_data b)

pub record IsSafeSwap (tx : EthTx) (plan : EthSwapPlan) (now max_fee_wei : ℤ) : Type 0 where
  pub in_time : now <ℤ plan.expiry
  pub pays : SameHex tx.to plan.inbound_address
  pub amount : tx.value ≡ plan.amount_wei
  pub memo : Encodes tx.calldata plan.memo
  pub chain : tx.chain_id ≡ plan.chain_id
  pub destination : Pays plan.destination plan.memo
  pub fee : tx.gas *ℤ tx.max_fee_per_gas ≤ℤ max_fee_wei

pub record IsSafeSend (tx : EthTx) (plan : EthSendPlan) (max_fee_wei : ℤ) : Type 0 where
  pub pays : SameHex tx.to plan.recipient
  pub amount : tx.value ≡ plan.amount_wei
  pub no_data : (tx.calldata ≡ []) ⊎ (tx.calldata ≡ text "0x")
  pub chain : tx.chain_id ≡ plan.chain_id
  pub fee : tx.gas *ℤ tx.max_fee_per_gas ≤ℤ max_fee_wei

pub record IsSafeTokenSend (tx : EthTx) (call : Transfer) (plan : EthTokenSendPlan)
    (max_fee_wei : ℤ) : Type 0 where
  pub token : SameHex tx.to plan.token
  pub no_value : tx.value ≡ pos 0
  pub pays : SameHex call.recipient plan.recipient
  pub amount : call.amount ≡ plan.amount
  pub chain : tx.chain_id ≡ plan.chain_id
  pub fee : tx.gas *ℤ tx.max_fee_per_gas ≤ℤ max_fee_wei

no_calldata_iff : (d : Str) → (has_calldata d ≡ false) ↔ ((d ≡ []) ⊎ (d ≡ text "0x"))
no_calldata_iff d = ground (arith, is_empty_iff d, str_eq_iff d (text "0x"))

-- The gate of a native send reports no problem exactly when the transaction pays the recipient the
-- amount with empty calldata on the planned chain, at a fee within the limit.
pub verify_eth_send_iff :
    (tx : EthTx) (plan : EthSendPlan) (max_fee_wei : ℤ)
    → (verify_eth_send tx plan max_fee_wei ≡ []) ↔ IsSafeSend tx plan max_fee_wei
unfolding verify_eth_send
verify_eth_send_iff tx plan max_fee_wei = (
  λ h.
      let c = (run_checks-eq-nil (send_checks tx plan max_fee_wei)).0 h in
      record {
        pays = (str_ne_iff _ _).0 c.0;
        amount = (int_ne_iff _ _).0 c.1.0;
        no_data = (no_calldata_iff _).0 c.1.1.0;
        chain = (int_ne_iff _ _).0 c.1.1.1.0;
        fee = (ltb_ℤ-false max_fee_wei (tx.gas *ℤ tx.max_fee_per_gas)).0 c.1.1.1.1.0;
      },
  λ s. (run_checks-eq-nil (send_checks tx plan max_fee_wei)).1 (
    (str_ne_iff _ _).1 s.pays,
    (
      (int_ne_iff _ _).1 s.amount,
      (
        (no_calldata_iff _).1 s.no_data,
        (
          (int_ne_iff _ _).1 s.chain,
          ((ltb_ℤ-false max_fee_wei (tx.gas *ℤ tx.max_fee_per_gas)).1 s.fee, tt),
        ),
      ),
    ),
  ),
)

-- The gate of an ERC-20 send reports no problem exactly when the transaction calls the token, sends
-- no ETH, transfers the amount to the recipient on the planned chain, at a fee within the limit.
pub verify_eth_token_send_iff :
    (tx : EthTx) (call : Transfer) (plan : EthTokenSendPlan) (max_fee_wei : ℤ)
    → (verify_eth_token_send tx call plan max_fee_wei ≡ [])
      ↔ IsSafeTokenSend tx call plan max_fee_wei
unfolding verify_eth_token_send
verify_eth_token_send_iff tx call plan max_fee_wei = (
  λ h.
      let c = (run_checks-eq-nil (token_send_checks tx call plan max_fee_wei)).0 h in
      record {
        token = (str_ne_iff _ _).0 c.0;
        no_value = (int_ne_iff _ _).0 c.1.0;
        pays = (str_ne_iff _ _).0 c.1.1.0;
        amount = (int_ne_iff _ _).0 c.1.1.1.0;
        chain = (int_ne_iff _ _).0 c.1.1.1.1.0;
        fee = (ltb_ℤ-false max_fee_wei (tx.gas *ℤ tx.max_fee_per_gas)).0 c.1.1.1.1.1.0;
      },
  λ s. (run_checks-eq-nil (token_send_checks tx call plan max_fee_wei)).1 (
    (str_ne_iff _ _).1 s.token,
    (
      (int_ne_iff _ _).1 s.no_value,
      (
        (str_ne_iff _ _).1 s.pays,
        (
          (int_ne_iff _ _).1 s.amount,
          (
            (int_ne_iff _ _).1 s.chain,
            ((ltb_ℤ-false max_fee_wei (tx.gas *ℤ tx.max_fee_per_gas)).1 s.fee, tt),
          ),
        ),
      ),
    ),
  ),
)

-- The checks of a native deposit, for a memo that has been encoded.
swap_checks_iff :
    (tx : EthTx) (b : Bytes) (plan : EthSwapPlan) (now max_fee_wei : ℤ)
    → encode_utf8 plan.memo ≡ some b
    → (run_checks (swap_checks tx (hex_data b) plan now max_fee_wei) ≡ [])
      ↔ IsSafeSwap tx plan now max_fee_wei
unfolding swap_checks
swap_checks_iff tx b plan now max_fee_wei e = (
  λ h.
      let c = (run_checks-eq-nil (swap_checks tx (hex_data b) plan now max_fee_wei)).0 h in
      record {
        in_time = (leb_ℤ-false plan.expiry now).0 c.0;
        pays = (str_ne_iff _ _).0 c.1.0;
        amount = (int_ne_iff _ _).0 c.1.1.0;
        memo = (b, e, (str_ne_iff _ _).0 c.1.1.1.0);
        chain = (int_ne_iff _ _).0 c.1.1.1.1.0;
        destination = (memo_pays_destination_iff _ _).0 ((not-false_iff _).0 c.1.1.1.1.1.0);
        fee = (ltb_ℤ-false max_fee_wei (tx.gas *ℤ tx.max_fee_per_gas)).0 c.1.1.1.1.1.1.0;
      },
  λ s. (run_checks-eq-nil (swap_checks tx (hex_data b) plan now max_fee_wei)).1 (
    (leb_ℤ-false plan.expiry now).1 s.in_time,
    (
      (str_ne_iff _ _).1 s.pays,
      (
        (int_ne_iff _ _).1 s.amount,
        (
          (str_ne_iff _ _).1 (rw (some_inj (sym e ∙ s.memo.1)) s.memo.2),
          (
            (int_ne_iff _ _).1 s.chain,
            (
              (not-false_iff _).1 ((memo_pays_destination_iff _ _).1 s.destination),
              ((ltb_ℤ-false max_fee_wei (tx.gas *ℤ tx.max_fee_per_gas)).1 s.fee, tt),
            ),
          ),
        ),
      ),
    ),
  ),
)

-- The gate of a native deposit returns, and reports no problem, exactly when it is before the
-- expiry, the transaction pays the vault the amount, its calldata is the memo, the memo pays the
-- destination, the chain is the planned one and the fee lies within the limit.
pub verify_eth_swap_iff :
    (tx : EthTx) (plan : EthSwapPlan) (now max_fee_wei : ℤ)
    → (verify_eth_swap tx plan now max_fee_wei ≡ ok []) ↔ IsSafeSwap tx plan now max_fee_wei
unfolding verify_eth_swap
verify_eth_swap_iff tx plan now max_fee_wei = elim (Option-cases (encode_utf8 plan.memo)) [
  | inl failed ↦ rw failed (λ h. cc h, λ s. cc (failed, s.memo.1))
  | inr (b, e) ↦ rw e (
    λ h. (swap_checks_iff tx b plan now max_fee_wei e).0 (ok_inj h),
    λ s. ap ok ((swap_checks_iff tx b plan now max_fee_wei e).1 s),
  )
]

-- For a memo that can be encoded, the gate of a native deposit returns its verdict.
pub verify_eth_swap-encoded :
    (tx : EthTx) (b : Bytes) (plan : EthSwapPlan) (now max_fee_wei : ℤ)
    → encode_utf8 plan.memo ≡ some b
    → (ps : List Problem) × (verify_eth_swap tx plan now max_fee_wei ≡ ok ps)
      × ((ps ≡ []) ↔ IsSafeSwap tx plan now max_fee_wei)
unfolding verify_eth_swap
verify_eth_swap-encoded tx b plan now max_fee_wei e = (
  run_checks (swap_checks tx (hex_data b) plan now max_fee_wei),
  rw e refl,
  swap_checks_iff tx b plan now max_fee_wei e,
)
