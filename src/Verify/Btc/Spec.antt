-- ===== src/Verify/Btc/Spec.antt =====
-- What a Bitcoin transaction that passes a gate does, and that the gates decide it.
use cryptoswap_wallet.Common.{ℤ, Str, List, [], join-eq-nil, ◌≡◌, ◌↔◌, leb_ℤ-false}
use cryptoswap_wallet.Verify.Types.{TxOutput, SwapPlan, SendPlan, passes_one, passes_not}
use cryptoswap_wallet.Verify.Memo.{memo_pays_destination_iff}
use cryptoswap_wallet.Verify.Btc.{swap_groups, send_groups, verify_btc_swap, verify_btc_send}
use cryptoswap_wallet.Verify.Btc.Safe.{IsSafeSwap, IsSafeSend}
use cryptoswap_wallet.Verify.Btc.Groups.{
  change_problems-eq-nil, fee_problems-eq-nil, no_data_iff, op_return_problems-eq-nil,
  payment_problems-eq-nil,
}

-- The swap gate reports no problem exactly for the safe transactions: before the expiry, one
-- output pays the vault and pays the amount, one output carries data and it is the memo in at most
-- 80 bytes, all else goes to owned addresses, the memo pays the destination, and the fee lies
-- between 0 and the limit.
pub verify_btc_swap_iff :
    (outputs : List TxOutput) (fee : ℤ) (plan : SwapPlan) (owned : List Str) (now max_fee : ℤ)
    → (verify_btc_swap outputs fee plan owned now max_fee ≡ [])
      ↔ IsSafeSwap outputs fee plan owned now max_fee
unfolding verify_btc_swap
verify_btc_swap_iff outputs fee plan owned now max_fee = (
  λ h.
      let parts = (join-eq-nil (swap_groups outputs fee plan owned now max_fee)).0 h in
      let fees = (fee_problems-eq-nil fee max_fee).0 parts.1.1.1.1.1.0 in
      record {
        in_time = (leb_ℤ-false plan.expiry now).0 ((passes_not _ _).0 parts.0);
        payment = (payment_problems-eq-nil _ _ outputs).0 parts.1.0;
        memo = (op_return_problems-eq-nil _ outputs).0 parts.1.1.0;
        change = (change_problems-eq-nil _ owned outputs).0 parts.1.1.1.0;
        destination = (memo_pays_destination_iff _ _).0 ((passes_one _ _).0 parts.1.1.1.1.0);
        fee_lower = fees.0;
        fee_upper = fees.1;
      },
  λ s. (join-eq-nil (swap_groups outputs fee plan owned now max_fee)).1 (
    (passes_not _ _).1 ((leb_ℤ-false plan.expiry now).1 s.in_time),
    (
      (payment_problems-eq-nil _ _ outputs).1 s.payment,
      (
        (op_return_problems-eq-nil _ outputs).1 s.memo,
        (
          (change_problems-eq-nil _ owned outputs).1 s.change,
          (
            (passes_one _ _).1 ((memo_pays_destination_iff _ _).1 s.destination),
            ((fee_problems-eq-nil fee max_fee).1 (s.fee_lower, s.fee_upper), tt),
          ),
        ),
      ),
    ),
  ),
)

-- The send gate reports no problem exactly for the safe transactions: one output pays the
-- recipient and pays the amount, no output carries data, all else goes to owned addresses, and the
-- fee lies between 0 and the limit.
pub verify_btc_send_iff :
    (outputs : List TxOutput) (fee : ℤ) (plan : SendPlan) (owned : List Str) (max_fee : ℤ)
    → (verify_btc_send outputs fee plan owned max_fee ≡ [])
      ↔ IsSafeSend outputs fee plan owned max_fee
unfolding verify_btc_send
verify_btc_send_iff outputs fee plan owned max_fee = (
  λ h.
      let parts = (join-eq-nil (send_groups outputs fee plan owned max_fee)).0 h in
      let fees = (fee_problems-eq-nil fee max_fee).0 parts.1.1.1.0 in
      record {
        payment = (payment_problems-eq-nil _ _ outputs).0 parts.0;
        no_data = (no_data_iff outputs).0 ((passes_not _ _).0 parts.1.0);
        change = (change_problems-eq-nil _ owned outputs).0 parts.1.1.0;
        fee_lower = fees.0;
        fee_upper = fees.1;
      },
  λ s. (join-eq-nil (send_groups outputs fee plan owned max_fee)).1 (
    (payment_problems-eq-nil _ _ outputs).1 s.payment,
    (
      (passes_not _ _).1 ((no_data_iff outputs).1 s.no_data),
      (
        (change_problems-eq-nil _ owned outputs).1 s.change,
        ((fee_problems-eq-nil fee max_fee).1 (s.fee_lower, s.fee_upper), tt),
      ),
    ),
  ),
)
