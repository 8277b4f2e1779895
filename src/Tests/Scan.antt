-- ===== src/Tests/Scan.antt =====
-- A branch of an account whose second address was used.
use cryptoswap_wallet.Common.{
  ℕ, ◌≤◌, drop, true, pos, Str, Bool, false, ◌++◌, ◌≡◌, refl, ap, sym, ◌∙◌, text, str_eq,
  str_eq_iff, decimal, Bool-cases, inl, inr, arith,
}
use cryptoswap_wallet.Result.{ok_inj}
use cryptoswap_wallet.Thorchain.Json.{str, to_int}
use cryptoswap_wallet.Thorchain.Json.Laws.{to_int-show_int}
use cryptoswap_wallet.Chains.Scan.Laws.{used_at, Ends, scan_branch-Ends}

abbrev same : Str → Str
same path = path

abbrev account : Str
account = text "m/84'/0'/0'"

-- The address at index 1 was used.
abbrev seen : Str → Bool
seen address = str_eq address (account ++ (text "/" ++ (decimal 0 ++ (text "/" ++ decimal 1))))

abbrev history : Bool → Bool
history b = b

decimal-injective : (m n : ℕ) → decimal m ≡ decimal n → pos m ≡ pos n
unfolding cryptoswap_wallet.Thorchain.Json.Laws.show_int
decimal-injective m n e =
    ok_inj (sym (to_int-show_int (pos m)) ∙ ap (λ s. to_int (str s)) e ∙ to_int-show_int (pos n))

nought : decimal 0 ≡ text "0"
unfolding decimal
nought = refl

last_part :
    (i j : ℕ)
    → account ++ (text "/" ++ (decimal 0 ++ (text "/" ++ decimal i)))
      ≡ account ++ (text "/" ++ (decimal 0 ++ (text "/" ++ decimal j)))
    → decimal i ≡ decimal j
last_part i j e = ap (drop 14) (rw nought at e)

later_unused : (i : ℕ) → 2 ≤ i → used_at same seen history account 0 i ≡ false
later_unused i h = elim (Bool-cases (used_at same seen history account 0 i)) [
  | inr unused ↦ unused
  | inl used ↦
      let one : pos i ≡ pos 1 = decimal-injective i 1 (last_part i 1 ((str_eq_iff _ _).0 used)) in
      absurd (ground (arith, one, h))
]

first_used : used_at same seen history account 0 1 ≡ true
first_used = (str_eq_iff _ _).1 refl

scan_branch-Ends_example : Ends same seen history account 0 2 3 4 0 0
scan_branch-Ends_example =
    scan_branch-Ends same seen history account 0 2 3 2 later_unused (omega arith) 4 (omega arith)
