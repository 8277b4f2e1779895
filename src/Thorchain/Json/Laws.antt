-- ===== src/Thorchain/Json/Laws.antt =====
-- `int` of the text of a number.
use mathlib.Core.List.{reverse, reverse-cons, reverse-reverse}
use cryptoswap_wallet.Common.{
  ℕ, zero, suc, ◌+◌, ◌*◌, ◌/◌, ◌%◌, ◌-◌, ◌≤◌, ◌<◌, ℤ, pos, negsuc, Str, Bool, true, false, [], ◌∷◌,
  ◌++◌, some, ◌≡◌, refl, ◌∙◌, ap, All, All-map, Bool-cases, inl, inr, decimal, decimal_digits,
  decimal-IsDigit, IsDigit, ◌==◌, arith,
}
use cryptoswap_wallet.Result.{ok}
use cryptoswap_wallet.Thorchain.Json.{
  str, to_int, parse_int, strip, strip_left, is_blank, read_signed, read_digits, read_digit, negate,
}

-- `str(n)`
unfoldable pub show_int : ℤ → Str
show_int (pos n) = decimal n
show_int (negsuc n) = b'-' ∷ decimal (suc n)

read_digit-digit :
    (acc d : ℕ) (after : Bool) → d < 10 → read_digit acc after (48 + d) ≡ some (acc * 10 + d, true)
unfolding read_digit
read_digit-digit acc d after h = ground arith

read_digits-digit :
    (acc d : ℕ) (after : Bool) (rest : Str)
    → d < 10
    → read_digits acc after ((48 + d) ∷ rest) ≡ read_digits (acc * 10 + d) true rest
unfolding read_digits
read_digits-digit acc d after rest h = rw (read_digits, read_digit-digit acc d after h) refl

read_digits-decimal_digits :
    (fuel n : ℕ) (after : Bool) (rest : Str)
    → n ≤ fuel
    → read_digits 0 after (decimal_digits (suc fuel) n rest) ≡ read_digits n true rest
unfolding decimal_digits
read_digits-decimal_digits zero n after rest h =
    let whole : 0 * 10 + n % 10 ≡ n = omega arith in
    let last : (n / 10 == 0) ≡ true = ground arith in
    rw last (
      read_digits-digit 0 (n % 10) after rest (omega arith)
      ∙ ap (λ x. read_digits x true rest) whole)
read_digits-decimal_digits (suc fuel) n after rest h = elim (Bool-cases (n / 10 == 0)) [
  | inl e ↦
      let whole : 0 * 10 + n % 10 ≡ n = ground arith in
      rw e (
        read_digits-digit 0 (n % 10) after rest (omega arith)
        ∙ ap (λ x. read_digits x true rest) whole)
  | inr e ↦
      let whole : n / 10 * 10 + n % 10 ≡ n = omega arith in
      let smaller : n / 10 ≤ fuel = ground arith in
      rw e (
        read_digits-decimal_digits fuel (n / 10) after ((48 + n % 10) ∷ rest) smaller
        ∙ read_digits-digit (n / 10) (n % 10) true rest (omega arith)
        ∙ ap (λ x. read_digits x true rest) whole)
]

read_digits-decimal : (n : ℕ) → read_digits 0 false (decimal n) ≡ some n
unfolding decimal read_digits
read_digits-decimal n = read_digits-decimal_digits n n false [] (omega arith)

abbrev IsSolid : ℕ → Type 0
IsSolid c = is_blank c ≡ false

strip_left-solid : (s : Str) → All IsSolid s → strip_left s ≡ s
unfolding strip_left
strip_left-solid [] h = refl
strip_left-solid (c ∷ s) h = rw (h.0)

All-snoc : (s : Str) (c : ℕ) → All IsSolid s → IsSolid c → All IsSolid (s ++ (c ∷ []))
All-snoc [] c h here = (here, tt)
All-snoc (d ∷ s) c h here = (h.0, All-snoc s c h.1 here)

All-reverse : (s : Str) → All IsSolid s → All IsSolid (reverse s)
All-reverse [] h = tt
All-reverse (c ∷ s) h = rw (reverse-cons c s) (All-snoc (reverse s) c (All-reverse s h.1) h.0)

strip-solid : (s : Str) → All IsSolid s → strip s ≡ s
unfolding strip
strip-solid s h =
    rw (strip_left-solid s h, strip_left-solid (reverse s) (All-reverse s h)) (reverse-reverse s)

digit-IsSolid : (c : ℕ) → IsDigit c → IsSolid c
digit-IsSolid c h = ground arith

read_signed-digits :
    (s : Str) (n : ℕ)
    → All IsDigit s
    → read_digits 0 false s ≡ some n
    → read_signed s ≡ some (pos n)
unfolding read_signed read_digits
read_signed-digits [] n h read = cc read
read_signed-digits (c ∷ s) n h read =
    let plain : (c == b'-') ≡ false = ground (arith, h.0.0) in
    let unsigned : (c == b'+') ≡ false = ground (arith, h.0.0) in rw (plain, unsigned, read)

negate-suc : (n : ℕ) → ok (negate (suc n)) ≡ ok (negsuc n)
unfolding negate
negate-suc n = let back : suc n - 1 ≡ n = omega arith in ground arith

-- `int` of the text of a number is the number.
pub to_int-show_int : (n : ℤ) → to_int (str (show_int n)) ≡ ok n
unfolding to_int parse_int show_int read_signed negate
to_int-show_int (pos n) =
    let solid = All-map digit-IsSolid (decimal n) (decimal-IsDigit n) in
    rw
      (
        strip-solid (decimal n) solid,
        read_signed-digits (decimal n) n (decimal-IsDigit n) (read_digits-decimal n),
      )
      refl
to_int-show_int (negsuc n) =
    let solid = All-map digit-IsSolid (decimal (suc n)) (decimal-IsDigit (suc n)) in
    rw (strip-solid (45 ∷ decimal (suc n)) (refl, solid), read_digits-decimal (suc n))
      (negate-suc n)
