-- ===== src/Chains/Coins/Sweep.antt =====
-- The amounts that sweeps send: `sweep_amount` and `token_sweep_amount`.
use native.Mathlib.Nat.{le-div_iff_mul-le, div-lt_iff_lt-mul, one-le-pow}
use cryptoswap_wallet.Common.{
  ℕ, ◌+◌, ◌*◌, ◌/◌, ◌^◌, ◌≤◌, ◌<◌, ℤ, ◌+ℤ◌, ◌-ℤ◌, ◌≤ℤ◌, ◌<ℤ◌, int_laws, ◌≡◌, refl, Bool-cases, inl,
  inr, ltb_ℤ, ltb_ℤ_iff, ltb_ℤ-false, leb, arith, if◌then◌else◌,
}
use cryptoswap_wallet.Result.{Result, ok, err, insufficient_funds}
use cryptoswap_wallet.Chains.Coins.{FeeRate, estimate_vsize, sweep_amount, token_sweep_amount}

-- A sweep either fails, and then less than the dust limit is left after the fee, or returns an
-- amount of at least that limit and the fee of a transaction with one output, which together are
-- the balance.
pub data Sweeps (total : ℤ) (n_inputs : ℕ) (rate : FeeRate) (memo_len : ℕ) (dust : ℤ)
    : Result (ℤ × ℤ) → Type 0 where
  poor :
      total <ℤ rate (estimate_vsize n_inputs 1 memo_len) +ℤ dust
      → Sweeps total n_inputs rate memo_len dust (err insufficient_funds)
  swept :
      (send fee : ℤ)
      → fee ≡ rate (estimate_vsize n_inputs 1 memo_len)
      → send +ℤ fee ≡ total
      → dust ≤ℤ send
      → Sweeps total n_inputs rate memo_len dust (ok (send, fee))

-- Every sweep does one of two things. It fails, and then the balance is less than the dust limit and
-- the fee of a transaction with one output; or it returns an amount of at least that limit and this
-- fee, which together are the balance.
pub sweep_amount-Sweeps :
    (total : ℤ) (n_inputs : ℕ) (rate : FeeRate) (memo_len : ℕ) (dust : ℤ)
    → Sweeps total n_inputs rate memo_len dust (sweep_amount total n_inputs rate memo_len dust)
unfolding sweep_amount
sweep_amount-Sweeps total n rate memo_len dust =
    let fee : ℤ = rate (estimate_vsize n 1 memo_len) in
    elim (Bool-cases (ltb_ℤ (total -ℤ fee) dust)) [
      | inl e ↦ let less = (ltb_ℤ_iff (total -ℤ fee) dust).0 e in rw e (poor (omega int_laws))
      | inr e ↦
          let enough = (ltb_ℤ-false (total -ℤ fee) dust).0 e in
          rw e (swept _ _ refl (omega int_laws) enough)
    ]

swept_quotient :
    (q amount : ℕ) → (if leb q 0 then err insufficient_funds else ok q) ≡ ok amount → q ≡ amount
swept_quotient q amount h = ground arith

-- A token sweep names the largest amount in units of 1e-8 that the balance covers: the balance
-- covers the amount, and does not cover one unit more.
pub token_sweep_amount-largest :
    (balance decimals amount : ℕ)
    → token_sweep_amount balance decimals ≡ ok amount
    → (amount * 10 ^ decimals ≤ balance * 10 ^ 8)
      × (balance * 10 ^ 8 < (amount + 1) * 10 ^ decimals)
unfolding token_sweep_amount
token_sweep_amount-largest balance decimals amount h =
    let e : balance * 10 ^ 8 / 10 ^ decimals ≡ amount = swept_quotient _ amount h in
    (
      (le-div_iff_mul-le (one-le-pow decimals 10 (omega arith))).0 (omega arith),
      (div-lt_iff_lt-mul (one-le-pow decimals 10 (omega arith))).0 (omega arith),
    )
