-- ===== src/Common/Text.antt =====
-- Python's `str` as a list of code points and `bytes` as a list of numbers below 256, with the
-- methods that the program calls. `lower` is `str.lower` on ASCII characters; it leaves the other
-- characters alone. (No other character lowers to a hex digit or to `x`, so a comparison with a
-- hex address comes out as in Python.)
use Prim.Native.Nat.{ℕ, ◌+◌, ◌-◌, ◌/◌, ◌%◌}
use Prim.Native.Char.{code}
use Prim.Native.String.{String}
use mathlib.Core.Path.{◌≡◌, refl, ap}
use mathlib.Core.Logic.{◌↔◌, inl, inr}
use mathlib.Core.Bool.{Bool, true, false, not, ◌&&◌, ◌||◌}
use mathlib.Core.List.{List, [], ◌∷◌, ◌++◌, map}
use native.Mathlib.Omega.{arith}
use cryptoswap_wallet.Common.Bools.{
  ltb, leb, ◌==◌, ==_iff, &&_iff, ||_cases, ||_right, if◌then◌else◌,
}

abbrev pub Str : Type 0
Str = List ℕ

abbrev pub Bytes : Type 0
Bytes = List ℕ

-- A text literal.
abbrev pub text : String → Str
text String.[] = []
text (String.◌∷◌ c s) = code c ∷ text s

unfoldable pub str_eq : Str → Str → Bool
str_eq [] [] = true
str_eq [] (d ∷ t) = false
str_eq (c ∷ s) [] = false
str_eq (c ∷ s) (d ∷ t) = c == d && str_eq s t

pub str_eq_iff : (s t : Str) → (str_eq s t ≡ true) ↔ (s ≡ t)
unfolding str_eq
str_eq_iff [] [] = (λ _. refl, λ _. refl)
str_eq_iff [] (d ∷ t) = (λ h. cc h, λ h. cc h)
str_eq_iff (c ∷ s) [] = (λ h. cc h, λ h. cc h)
str_eq_iff (c ∷ s) (d ∷ t) = ground (arith, str_eq_iff s t)

pub str_eq_refl : (s : Str) → str_eq s s ≡ true
str_eq_refl s = (str_eq_iff s s).1 refl

-- `not s`
abbrev pub is_empty : Str → Bool
is_empty [] = true
is_empty (c ∷ s) = false

unfoldable pub lower_char : ℕ → ℕ
lower_char c = if leb b'A' c && leb c b'Z' then c + 32 else c

unfoldable pub lower : Str → Str
unfolding lower_char
lower = map lower_char

-- `s.startswith(p)`
unfoldable pub starts_with : Str → Str → Bool
starts_with s [] = true
starts_with [] (d ∷ p) = false
starts_with (c ∷ s) (d ∷ p) = c == d && starts_with s p

-- `n in s`
unfoldable pub is_in : Str → Str → Bool
unfolding starts_with
is_in n [] = is_empty n
is_in n (c ∷ s) = starts_with (c ∷ s) n || is_in n s

-- `s in xs` for a set or a list of texts.
unfoldable pub contains : List Str → Str → Bool
contains [] s = false
contains (x ∷ xs) s = str_eq x s || contains xs s

-- `s` ends a text that begins with `p`: the rest.
abbrev pub Begins : Str → Str → Type 0
Begins p s = (rest : Str) × (s ≡ p ++ rest)

-- `n` stands somewhere in `s`.
abbrev pub Occurs : Str → Str → Type 0
Occurs n s = (before : Str) × (after : Str) × (s ≡ before ++ (n ++ after))

pub starts_with_iff : (s p : Str) → (starts_with s p ≡ true) ↔ Begins p s
unfolding starts_with
starts_with_iff s [] = (λ _. (s, refl), λ _. refl)
starts_with_iff [] (d ∷ p) = (λ h. cc h, λ h. cc (h.1))
starts_with_iff (c ∷ s) (d ∷ p) = (
  λ h.
      let both = (&&_iff (c == d) (starts_with s p)).0 h in
      let rest = (starts_with_iff s p).0 both.1 in (rest.0, cc ((==_iff c d).0 both.0, rest.1)),
  λ h.
      (&&_iff (c == d) (starts_with s p)).1
        ((==_iff c d).1 (cc (h.1)), (starts_with_iff s p).1 (h.0, cc (h.1))),
)

is_in_nil : (n : Str) → (is_empty n ≡ true) ↔ Occurs n []
is_in_nil [] = (λ _. ([], [], refl), λ _. refl)
is_in_nil (d ∷ n) = (λ h. cc h, λ h. absurd (no_room h.0 h.1 h.2))
  where
    no_room : (before after : Str) → ¬ ([] ≡ before ++ ((d ∷ n) ++ after))
    no_room [] after e = cc e
    no_room (b ∷ before) after e = cc e

is_in_at :
    (n : Str) (c : ℕ) (s : Str)
    → (Occurs n s → is_in n s ≡ true)
    → (before after : Str) → c ∷ s ≡ before ++ (n ++ after)
    → (starts_with (c ∷ s) n || is_in n s) ≡ true
is_in_at n c s later [] after e = rw ((starts_with_iff (c ∷ s) n).1 (after, e))
is_in_at n c s later (b ∷ before) after e = ||_right _ _ (later (before, after, cc))

pub is_in_iff : (n s : Str) → (is_in n s ≡ true) ↔ Occurs n s
unfolding is_in
is_in_iff n [] = is_in_nil n
is_in_iff n (c ∷ s) = (
  λ h. elim (||_cases (starts_with (c ∷ s) n) (is_in n s) h) [
    | inl here ↦ let rest = (starts_with_iff (c ∷ s) n).0 here in ([], rest.0, rest.1)
    | inr there ↦
        let place = (is_in_iff n s).0 there in (c ∷ place.0, place.1, ap (λ l. c ∷ l) place.2)
  ],
  λ h. is_in_at n c s (is_in_iff n s).1 h.0 h.1 h.2,
)

pub is_empty_iff : (s : Str) → (is_empty s ≡ true) ↔ (s ≡ [])
is_empty_iff [] = (λ _. refl, λ _. refl)
is_empty_iff (c ∷ s) = (λ h. cc h, λ h. cc h)

-- A test that two texts differ.
pub str_ne_iff : (s t : Str) → (not (str_eq s t) ≡ false) ↔ (s ≡ t)
str_ne_iff s t = ground (arith, str_eq_iff s t)

unfoldable pub hex_digit : ℕ → ℕ
hex_digit d = if ltb d 10 then b'0' + d else b'a' + (d - 10)

-- `bytes.hex()`
unfoldable pub hex : Bytes → Str
unfolding hex_digit
hex [] = []
hex (b ∷ bs) = hex_digit (b / 16) ∷ hex_digit (b % 16) ∷ hex bs
