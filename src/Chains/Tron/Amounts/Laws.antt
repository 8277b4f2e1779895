-- ===== src/Chains/Tron/Amounts/Laws.antt =====
-- When `to_sun` and `to_token_native` convert an amount, and to what.
use cryptoswap_wallet.Common.{
  ◌/◌, ℤ, pos, negsuc, ◌*ℤ◌, ◌-ℤ◌, *ℤ-pos_parts, floor_div, floor_mod, ◌≡◌, ◌↔◌, ap, ◌∙◌, ◌==◌,
  ==_iff, Bool-cases, inl, inr, eq_of_parts, arith,
}
use cryptoswap_wallet.Result.{ok, ok_inj}
use cryptoswap_wallet.Chains.Tron.Amounts.{exact_div, to_sun, to_token_native}

-- A division by 100 without a remainder.
floor_div-exact : (a : ℤ) → floor_mod a 100 ≡ 0 → a ≡ floor_div a 100 *ℤ pos 100
unfolding floor_div floor_mod
floor_div-exact (pos n) h =
    let product = *ℤ-pos_parts (pos (n / 100)) 100 in eq_of_parts _ _ (omega arith)
floor_div-exact (negsuc n) h =
    let product = *ℤ-pos_parts (negsuc (n / 100)) 100 in eq_of_parts _ _ (omega arith)

floor_div-multiple :
    (q : ℤ) → (floor_mod (q *ℤ pos 100) 100 ≡ 0) × (floor_div (q *ℤ pos 100) 100 ≡ q)
unfolding floor_div floor_mod ◌*ℤ◌
floor_div-multiple (pos n) = (ground arith, ground arith)
floor_div-multiple (negsuc n) = (ground arith, ground arith)

exact_div_iff : (a q : ℤ) → (exact_div a 100 ≡ ok q) ↔ (a ≡ q *ℤ pos 100)
exact_div_iff a q = elim (Bool-cases (floor_mod a 100 == 0)) [
  | inl e ↦ rw e (
    λ h. floor_div-exact a ((==_iff _ _).0 e) ∙ ap (λ x. x *ℤ pos 100) (ok_inj h),
    λ h. ap ok (ap (λ x. floor_div x 100) h ∙ (floor_div-multiple q).1),
  )
  | inr e ↦ rw e (
    λ h. cc h,
    λ h. cc (e, (==_iff _ _).1 (ap (λ x. floor_mod x 100) h ∙ (floor_div-multiple q).0)),
  )
]

-- An amount in units of 1e-8 is converted to sun, and to the unit of a token with six decimals,
-- exactly when it is a whole number of them, and to that number.
pub to_sun_iff :
    (amount units : ℤ)
    → ((to_sun amount ≡ ok units) ↔ (amount ≡ units *ℤ pos 100))
      × ((to_token_native amount (pos 6) ≡ ok units) ↔ (amount ≡ units *ℤ pos 100))
unfolding to_sun to_token_native ◌-ℤ◌
to_sun_iff amount units = (exact_div_iff amount units, exact_div_iff amount units)
