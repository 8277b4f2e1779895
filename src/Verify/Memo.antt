-- ===== src/Verify/Memo.antt =====
-- `memo_pays_destination` (src/cryptoswap_wallet/verify.py).
use cryptoswap_wallet.Common.{
  Str, Bool, true, false, [], ◌≡◌, refl, ◌↔◌, ◌⊎◌, inl, inr, Bool-cases, if◌then◌else◌, is_empty,
  is_in, is_in_iff, starts_with, starts_with_iff, lower, text, Begins, Occurs, is_empty_iff,
}

unfoldable pub memo_pays_destination : Str → Str → Bool
memo_pays_destination destination memo =
    if is_empty destination
    then true
    else if is_in destination memo
    then true
    else if starts_with (lower destination) (text "0x")
    then is_in (lower destination) (lower memo)
    else false

-- The memo pays the destination: there is none, or the memo has it letter by letter, or it is an
-- EVM hex address and the memo has it up to the case of letters.
abbrev pub Pays : Str → Str → Type 0
Pays destination memo =
    (destination ≡ [])
    ⊎ (Occurs destination memo
        ⊎ (Begins (text "0x") (lower destination) × Occurs (lower destination) (lower memo)))

-- The test finds that a memo pays a destination exactly when the destination is empty, stands in
-- the memo letter by letter, or begins with "0x" up to case and stands in the memo up to case.
pub memo_pays_destination_iff :
    (destination memo : Str)
    → (memo_pays_destination destination memo ≡ true) ↔ Pays destination memo
unfolding memo_pays_destination
memo_pays_destination_iff d m = elim (Bool-cases (is_empty d)) [
  | inl e ↦ rw e (λ _. inl ((is_empty_iff d).0 e), λ _. refl)
  | inr e ↦ rw e (elim (Bool-cases (is_in d m)) [
    | inl f ↦ rw f (λ _. inr (inl ((is_in_iff d m).0 f)), λ _. refl)
    | inr f ↦ rw f (elim (Bool-cases (starts_with (lower d) (text "0x"))) [
      | inl g ↦ rw g (
        λ h. inr (inr ((starts_with_iff _ _).0 g, (is_in_iff _ _).0 h)),
        elim [
          | inl empty ↦ cc (e, (is_empty_iff d).1 empty)
          | inr (inl found) ↦ cc (f, (is_in_iff d m).1 found)
          | inr (inr folded) ↦ (is_in_iff _ _).1 folded.1
        ],
      )
      | inr g ↦ rw g (
        λ h. cc h,
        elim [
          | inl empty ↦ cc (e, (is_empty_iff d).1 empty)
          | inr (inl found) ↦ cc (f, (is_in_iff d m).1 found)
          | inr (inr folded) ↦ cc (g, (starts_with_iff _ _).1 folded.0)
        ],
      )
    ])
  ])
]
