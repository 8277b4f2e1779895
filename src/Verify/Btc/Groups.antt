-- ===== src/Verify/Btc/Groups.antt =====
-- When each group of checks of the Bitcoin gates reports nothing.
use cryptoswap_wallet.Common.{
  ℕ, ℤ, pos, Str, Bytes, Bool, true, false, List, [], ◌∷◌, Option, none, some, if◌then◌else◌,
  length, filter, any, join-eq-nil, str_eq_iff, contains, decode_utf8, ltb, ◌≡◌, refl, ◌↔◌, inl,
  inr, ◌≤ℤ◌, ◌≤◌, arith, All, Option-cases, filter-eq-Sole, eqb_ℤ_iff, cons_inj, some_inj,
  Sole-holds, ||_false, false_of_not, ap, ◌∙◌,
}
use cryptoswap_wallet.Verify.Types.{TxOutput, Problem, passes_one, passes_not}
use cryptoswap_wallet.Verify.Btc.{
  is_address, is_some, is_member, pays, has_data, is_owned, op_return_max_bytes, payment_problems,
  decoded_problems, memo_groups, memo_problems, data_problems, op_return_problems, change_problems,
  fee_problems,
}
use cryptoswap_wallet.Verify.Btc.Safe.{PaysTo, HasData, ReturnsChange, PaysOnce, CarriesMemo}

is_address_iff : (to : Str) (a : Option Str) → (is_address to a ≡ true) ↔ (a ≡ some to)
is_address_iff to none = (λ h. cc h, λ h. cc h)
is_address_iff to (some a) = (λ h. ap some ((str_eq_iff a to).0 h), λ h. (str_eq_iff a to).1 (cc h))

is_some_iff : (o : Option Bytes) → (is_some o ≡ true) ↔ ((d : Bytes) × (o ≡ some d))
is_some_iff none = (λ h. cc h, λ h. cc (h.1))
is_some_iff (some d) = (λ _. (d, refl), λ _. refl)

is_member_iff :
    (owned : List Str) (a : Option Str)
    → (is_member owned a ≡ true) ↔ ((s : Str) × (a ≡ some s) × (contains owned s ≡ true))
is_member_iff owned none = (λ h. cc h, λ h. cc (h.1))
is_member_iff owned (some s) = (λ h. (s, refl, h), λ h. cc (h.1, h.2))

pays_iff : (to : Str) (o : TxOutput) → (pays to o ≡ true) ↔ PaysTo to o
pays_iff to o = is_address_iff to o.address

has_data_iff : (o : TxOutput) → (has_data o ≡ true) ↔ HasData o
has_data_iff o = is_some_iff o.op_return_data

one_payment :
    (to : Str) (amount : ℤ) (outs : List TxOutput)
    → (payment_problems to amount outs ≡ [])
      ↔ ((o : TxOutput) × (outs ≡ o ∷ []) × (o.value ≡ amount))
unfolding payment_problems
one_payment to amount [] = (λ h. cc h, λ h. cc (h.1))
one_payment to amount (o ∷ []) = (
  λ h. (o, refl, (eqb_ℤ_iff o.value amount).0 ((passes_one _ _).0 h)),
  λ h.
      (passes_one _ _).1
        ((eqb_ℤ_iff o.value amount).1 (ap (λ (t : TxOutput). t.value) (cons_inj (h.1)).0 ∙ h.2)),
)
one_payment to amount (o ∷ o' ∷ outs) = (λ h. cc h, λ h. cc (h.1))

pub payment_problems-eq-nil :
    (to : Str) (amount : ℤ) (outs : List TxOutput)
    → (payment_problems to amount (filter (pays to) outs) ≡ []) ↔ PaysOnce to amount outs
payment_problems-eq-nil to amount outs = (
  λ h.
      let found = (one_payment to amount _).0 h in
      (found.0, (filter-eq-Sole (PaysTo to) (pays to) (pays_iff to) _ outs).0 found.1, found.2),
  λ h.
      (one_payment to amount _).1
        (h.0, (filter-eq-Sole (PaysTo to) (pays to) (pays_iff to) _ outs).1 h.1, h.2),
)

pub fee_problems-eq-nil :
    (fee max_fee : ℤ) → (fee_problems fee max_fee ≡ []) ↔ ((pos 0 ≤ℤ fee) × (fee ≤ℤ max_fee))
unfolding fee_problems
fee_problems-eq-nil fee max_fee = ground arith

-- An output is passed over by a test, or reported.
passed_over :
    (a b c : Bool) (p : Problem) (rest : List Problem)
    → ((if a then rest else if b then rest else if c then rest else p ∷ rest) ≡ [])
      ↔ ((a ≡ false → b ≡ false → c ≡ true) × (rest ≡ []))
passed_over a b c p rest = ground arith

returns_iff :
    (to : Str) (owned : List Str) (o : TxOutput)
    → (has_data o ≡ false → pays to o ≡ false → is_owned owned o ≡ true) ↔ ReturnsChange to owned o
returns_iff to owned o = (
  λ h no_data not_paid. (is_member_iff owned o.address).0 (
      h (false_of_not (λ t. cc (no_data, ((has_data_iff o).0 t).1)))
        (false_of_not (λ t. not_paid ((pays_iff to o).0 t)))),
  λ h a b.
      (is_member_iff owned o.address).1 (h (none_of_false a) (λ t. cc (b, (pays_iff to o).1 t))),
)
  where
    none_of_false : has_data o ≡ false → o.op_return_data ≡ none
    none_of_false e = elim (Option-cases o.op_return_data) [
      | inl absent ↦ absent
      | inr present ↦ cc (e, (has_data_iff o).1 present)
    ]

pub change_problems-eq-nil :
    (to : Str) (owned : List Str) (outs : List TxOutput)
    → (change_problems to owned outs ≡ []) ↔ All (ReturnsChange to owned) outs
unfolding change_problems
change_problems-eq-nil to owned [] = (λ _. tt, λ _. refl)
change_problems-eq-nil to owned (o ∷ outs) = (
  λ h.
      let parts = (passed_over _ _ _ _ _).0 h in
      ((returns_iff to owned o).0 parts.0, (change_problems-eq-nil to owned outs).0 parts.1),
  λ h.
      (passed_over _ _ _ _ _).1
        ((returns_iff to owned o).1 h.0, (change_problems-eq-nil to owned outs).1 h.1),
)

decoded_problems-eq-nil :
    (o : Option Str) (memo : Str) → (decoded_problems o memo ≡ []) ↔ (o ≡ some memo)
unfolding decoded_problems
decoded_problems-eq-nil none memo = (λ h. cc h, λ h. cc h)
decoded_problems-eq-nil (some s) memo = (
  λ h. ap some ((str_eq_iff s memo).0 ((passes_one _ _).0 h)),
  λ h. (passes_one _ _).1 ((str_eq_iff s memo).1 (cc h)),
)

too_long_iff : (n : ℕ) → (ltb op_return_max_bytes n ≡ false) ↔ (n ≤ 80)
too_long_iff n = ground arith

memo_problems-eq-nil :
    (d : Bytes) (memo : Str)
    → (memo_problems d memo ≡ []) ↔ ((length d ≤ 80) × (decode_utf8 d ≡ some memo))
unfolding memo_problems
memo_problems-eq-nil d memo = (
  λ h.
      let parts = (join-eq-nil (memo_groups d memo)).0 h in
      (
        (too_long_iff (length d)).0 ((passes_not _ _).0 parts.0),
        (decoded_problems-eq-nil _ memo).0 parts.1.0,
      ),
  λ h. (join-eq-nil (memo_groups d memo)).1 (
    (passes_not _ _).1 ((too_long_iff (length d)).1 h.0),
    ((decoded_problems-eq-nil _ memo).1 h.1, tt),
  ),
)

data_problems-eq-nil :
    (o : TxOutput) (memo : Str)
    → HasData o
    → (data_problems o.op_return_data memo ≡ [])
      ↔ ((d : Bytes) × (o.op_return_data ≡ some d) × (length d ≤ 80) × (decode_utf8 d ≡ some memo))
unfolding data_problems
data_problems-eq-nil o memo (d, e) =
    rw (e, data_problems)
      (
        λ h. let both = (memo_problems-eq-nil d memo).0 h in (d, refl, both.0, both.1),
        λ h. (memo_problems-eq-nil d memo).1 (rw (some_inj h.1) (h.2, h.3)),
      )

one_data :
    (memo : Str) (outs : List TxOutput)
    → op_return_problems memo outs ≡ []
    → (o : TxOutput) × (outs ≡ o ∷ []) × (data_problems o.op_return_data memo ≡ [])
unfolding op_return_problems
one_data memo [] h = cc h
one_data memo (o ∷ []) h = (o, refl, h)
one_data memo (o ∷ o' ∷ outs) h = cc h

pub op_return_problems-eq-nil :
    (memo : Str) (outs : List TxOutput)
    → (op_return_problems memo (filter has_data outs) ≡ []) ↔ CarriesMemo memo outs
unfolding op_return_problems
op_return_problems-eq-nil memo outs = (
  λ h.
      let found = one_data memo _ h in
      let sole = (filter-eq-Sole HasData has_data has_data_iff _ outs).0 found.1 in
      let data' =
        (data_problems-eq-nil found.0 memo (Sole-holds HasData found.0 outs sole)).0 found.2 in
      (found.0, sole, data'.0, data'.1, data'.2, data'.3),
  λ h.
      rw ((filter-eq-Sole HasData has_data has_data_iff _ outs).1 h.1)
        ((data_problems-eq-nil h.0 memo (h.2, h.3)).1 (h.2, h.3, h.4, h.5)),
)

pub no_data_iff : (outs : List TxOutput) → (any has_data outs ≡ false) ↔ All (λ o. ¬ HasData o) outs
no_data_iff [] = (λ _. tt, λ _. refl)
no_data_iff (o ∷ outs) = (
  λ h.
      let both = (||_false (has_data o) (any has_data outs)).0 h in
      (λ d. cc (both.0, (has_data_iff o).1 d), (no_data_iff outs).0 both.1),
  λ h. (||_false _ _).1 (false_of_not (λ t. h.0 ((has_data_iff o).0 t)), (no_data_iff outs).1 h.1),
)
