-- ===== src/Common/Hex.antt =====
-- `bytes.fromhex`, and hexadecimal texts back and forth.
use Prim.Native.Nat.{ℕ, ◌+◌, ◌-◌, ◌*◌, ◌/◌, ◌%◌, ◌≤◌, ◌<◌}
use mathlib.Core.Path.{◌≡◌, refl}
use mathlib.Core.Logic.{◌⊎◌, inl, inr}
use mathlib.Core.Bool.{Bool, false, ◌&&◌, ◌||◌}
use mathlib.Core.Option.{Option, none, some}
use mathlib.Core.List.{[], ◌∷◌, ◌++◌}
use native.Mathlib.Omega.{arith}
use cryptoswap_wallet.Common.Bools.{leb, ◌==◌, if◌then◌else◌}
use cryptoswap_wallet.Common.Lists.{All, length}
use cryptoswap_wallet.Common.Text.{Str, Bytes, hex, hex_digit, lower, lower_char}

-- The value of a hexadecimal digit of either case.
unfoldable pub hex_value : ℕ → Option ℕ
hex_value c =
    if leb b'0' c && leb c b'9'
    then some (c - b'0')
    else if leb b'A' c && leb c b'F'
    then some (c - b'A' + 10)
    else if leb b'a' c && leb c b'f'
    then some (c - b'a' + 10)
    else none

-- The ASCII blanks that `bytes.fromhex` passes over between two bytes.
abbrev is_space : ℕ → Bool
is_space c = (leb 9 c && leb c 13) || c == 32

join_byte : Option ℕ → Option ℕ → Option Bytes → Option Bytes
join_byte none low rest = none
join_byte (some h) none rest = none
join_byte (some h) (some l) none = none
join_byte (some h) (some l) (some bs) = some ((h * 16 + l) ∷ bs)

-- `bytes.fromhex(s)`, where `none` is a `ValueError`.
unfoldable pub from_hex : Str → Option Bytes
unfolding hex_value join_byte
from_hex [] = some []
from_hex (c ∷ []) = if is_space c then some [] else none
from_hex (c ∷ d ∷ s) =
    let skipped = from_hex (d ∷ s) in
    let rest = from_hex s in
    if is_space c then skipped else join_byte (hex_value c) (hex_value d) rest

abbrev pub IsByte : ℕ → Type 0
IsByte b = b < 256

abbrev pub IsHexDigit : ℕ → Type 0
IsHexDigit c = ((48 ≤ c) × (c ≤ 57)) ⊎ (((65 ≤ c) × (c ≤ 70)) ⊎ ((97 ≤ c) × (c ≤ 102)))

pub value_of_digit : (d : ℕ) → d < 16 → hex_value (hex_digit d) ≡ some d
unfolding hex_value hex_digit
value_of_digit d h = ground arith

digit_not_space : (d : ℕ) → d < 16 → is_space (hex_digit d) ≡ false
unfolding hex_digit
digit_not_space d h = ground arith

pub from_hex-hex : (bs : Bytes) → All IsByte bs → from_hex (hex bs) ≡ some bs
unfolding from_hex hex join_byte
from_hex-hex [] h = refl
from_hex-hex (b ∷ bs) h =
    let high : b / 16 < 16 = omega arith in
    let low : b % 16 < 16 = omega arith in
    let whole : b / 16 * 16 + b % 16 ≡ b = omega arith in
    rw
      (
        digit_not_space (b / 16) high,
        value_of_digit (b / 16) high,
        value_of_digit (b % 16) low,
        from_hex-hex bs h.1,
        whole,
      )
      refl

pub hex-append : (xs ys : Bytes) → hex (xs ++ ys) ≡ hex xs ++ hex ys
unfolding hex
hex-append [] ys = refl
hex-append (x ∷ xs) ys = rw (hex-append xs ys) refl

-- A digit has a value, below 16, and the value's digit is the digit in lower case.
digit-value :
    (c : ℕ)
    → IsHexDigit c
    → (is_space c ≡ false)
      × ((v : ℕ) × (hex_value c ≡ some v) × (v < 16) × (hex_digit v ≡ lower_char c))
unfolding hex_value hex_digit lower_char
digit-value c (inl h) = (ground arith, (c - 48, ground arith, omega arith, ground arith))
digit-value c (inr (inl h)) = (ground arith, (c - 65 + 10, ground arith, omega arith, ground arith))
digit-value c (inr (inr h)) = (ground arith, (c - 97 + 10, ground arith, omega arith, ground arith))

byte_digits :
    (v w c d : ℕ)
    → v < 16
    → w < 16
    → hex_digit v ≡ lower_char c
    → hex_digit w ≡ lower_char d
    → (s : Str) (bs : Bytes) → hex bs ≡ lower s
    → hex ((v * 16 + w) ∷ bs) ≡ lower (c ∷ d ∷ s)
unfolding hex lower
byte_digits v w c d small_v small_w is_c is_d s bs rest =
    let high : (v * 16 + w) / 16 ≡ v = omega arith in
    let low : (v * 16 + w) % 16 ≡ w = omega arith in rw (high, low, is_c, is_d, rest) refl

joined :
    (c d : ℕ) (s : Str) (v w : ℕ) (bs : Bytes)
    → is_space c ≡ false
    → hex_value c ≡ some v
    → hex_value d ≡ some w
    → from_hex s ≡ some bs
    → from_hex (c ∷ d ∷ s) ≡ some ((v * 16 + w) ∷ bs)
unfolding from_hex join_byte
joined c d s v w bs plain is_v is_w read = rw (plain, is_v, is_w, read) refl

-- An even number of hexadecimal digits stands for half as many bytes, and these are written as the
-- digits in lower case.
pub from_hex-digits :
    (s : Str) (n : ℕ)
    → All IsHexDigit s
    → length s ≡ n + n
    → (bs : Bytes) × (from_hex s ≡ some bs) × (hex bs ≡ lower s) × (length bs ≡ n)
unfolding from_hex hex lower
from_hex-digits [] n h even = ([], refl, refl, omega arith)
from_hex-digits (c ∷ []) n h even = absurd (omega arith)
from_hex-digits (c ∷ d ∷ s) n h even =
    let (plain, (v, is_v, small_v, back_v)) = digit-value c h.0 in
    let (_, (w, is_w, small_w, back_w)) = digit-value d h.1.0 in
    let (bs, read, again, size) = from_hex-digits s (n - 1) h.1.1 (omega arith) in
    (
      (v * 16 + w) ∷ bs,
      joined c d s v w bs plain is_v is_w read,
      byte_digits v w c d small_v small_w back_v back_w s bs again,
      omega arith,
    )
