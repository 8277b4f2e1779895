-- ===== src/Chains/Tron/Base58/Laws.antt =====
-- The text that `base58check_encode` returns.
use cryptoswap_wallet.Common.{
  ℕ, zero, suc, ◌+◌, ◌*◌, ◌/◌, ◌%◌, ◌^◌, ◌<◌, Bytes, List, [], ◌∷◌, ◌++◌, some, ◌≡◌, refl, sym, ap,
  ◌∙◌, subst, Str, text, take, length, All, IsByte, ◌==◌, ==_iff, Bool-cases, inl, inr, arith,
}
use cryptoswap_wallet.Chains.Tron.Types.{TronLibs}
use cryptoswap_wallet.Chains.Tron.Base58.{
  from_bytes, base58_digits, leading_zeros, b58_char, b58_text, char_at, b58_alphabet, encode_data,
  with_checksum, base58check_encode, ones,
}

-- The value of digits in a base, from the value of those before.
abbrev pub value_in : ℕ → ℕ → List ℕ → ℕ
value_in base acc [] = acc
value_in base acc (d ∷ ds) = value_in base (acc * base + d) ds

abbrev pub IsDigit58 : ℕ → Type 0
IsDigit58 d = d < 58

-- Digits that do not begin with a zero.
abbrev pub Starts : List ℕ → Type 0
Starts [] = Unit
Starts (d ∷ ds) = 0 < d

-- Digits that are not empty keep their first one.
abbrev Fits : ℕ → List ℕ → Type 0
Fits n out = (n ≡ 0) → Starts out

base58_digits-enough :
    (fuel n : ℕ) (out : List ℕ)
    → n < 58 ^ fuel
    → All IsDigit58 out
    → Fits n out
    → (ds : List ℕ) × (base58_digits fuel n out ≡ some ds)
      × (value_in 58 0 ds ≡ value_in 58 n out)
      × All IsDigit58 ds
      × Starts ds
unfolding base58_digits
base58_digits-enough zero n out h small starts = elim (Bool-cases (n == 0)) [
  | inl e ↦
      let none_left = (==_iff n 0).0 e in
      rw e (out, refl, ap (λ x. value_in 58 x out) (sym none_left), small, starts none_left)
  | inr e ↦ absurd (ground (arith, e, h))
]
base58_digits-enough (suc fuel) n out h small starts = elim (Bool-cases (n == 0)) [
  | inl e ↦
      let none_left = (==_iff n 0).0 e in
      rw e (out, refl, ap (λ x. value_in 58 x out) (sym none_left), small, starts none_left)
  | inr e ↦
      let smaller : n / 58 < 58 ^ fuel = omega arith in
      let digit : n % 58 < 58 = omega arith in
      let first : n / 58 ≡ 0 → 0 < n % 58 = λ z. ground (arith, e, z) in
      let (ds, returned, value, digits, starts') =
        base58_digits-enough fuel (n / 58) ((n % 58) ∷ out) smaller (digit, small) first in
      let whole : n / 58 * 58 + n % 58 ≡ n = omega arith in
      rw e (ds, returned, value ∙ ap (λ x. value_in 58 x out) whole, digits, starts')
]

from_bytes-value_in : (bs : Bytes) (acc : ℕ) → from_bytes acc bs ≡ value_in 256 acc bs
unfolding from_bytes
from_bytes-value_in [] acc = refl
from_bytes-value_in (b ∷ bs) acc = from_bytes-value_in bs (acc * 256 + b)

-- The character of the Bitcoin alphabet at an index.
abbrev pub IsChar58 : ℕ → ℕ → Type 0
IsChar58 i c =
    (before : Str) × (after : Str) × (text
        "123456789ABCDEFGHJKLMNPQRSTUVWXYZabcdefghijkmnopqrstuvwxyz"
      ≡ before ++ (c ∷ after))
    × (length before ≡ i)

-- The characters of digits, in order.
pub data IsText58 : List ℕ → Str → Type 0 where
  no_digits : IsText58 [] []
  next_digit :
      (d c : ℕ) (ds : List ℕ) (s : Str) → IsChar58 d c → IsText58 ds s → IsText58 (d ∷ ds) (c ∷ s)

char_at-split :
    (s : Str) (i : ℕ)
    → i < length s
    → (c : ℕ) × (char_at s i ≡ some c)
      × ((before : Str) × (after : Str) × (s ≡ before ++ (c ∷ after)) × (length before ≡ i))
unfolding char_at
char_at-split [] i h = absurd (omega arith)
char_at-split (c ∷ s) zero h = (c, refl, ([], s, refl, refl))
char_at-split (d ∷ s) (suc i) h =
    let (c, found, (before, after, whole, size)) = char_at-split s i (omega arith) in
    (c, found, (d ∷ before, after, ap (λ l. d ∷ l) whole, omega arith))

b58_text-IsText58 :
    (ds : List ℕ) → All IsDigit58 ds → (s : Str) × (b58_text ds ≡ some s) × IsText58 ds s
unfolding b58_text b58_char
b58_text-IsText58 [] h = ([], refl, no_digits)
b58_text-IsText58 (d ∷ ds) h =
    let (c, found, place) = char_at-split b58_alphabet d h.0 in
    let (s, read, is_text) = b58_text-IsText58 ds h.1 in
    (c ∷ s, rw (found, read) refl, next_digit d c ds s place is_text)

abbrev pub copies : ℕ → ℕ → List ℕ
copies zero x = []
copies (suc n) x = x ∷ copies n x

ones-copies : (n : ℕ) → ones n ≡ copies n b'1'
ones-copies zero = refl
ones-copies (suc n) = ap (λ l. b'1' ∷ l) (ones-copies n)

-- As many zero bytes as "1"s, and then no zero byte.
abbrev pub ZerosFirst : ℕ → Bytes → Bytes → Type 0
ZerosFirst n bytes rest = (bytes ≡ copies n 0 ++ rest) × Starts rest

leading_zeros-ZerosFirst : (bs : Bytes) → (rest : Bytes) × ZerosFirst (leading_zeros bs) bs rest
unfolding leading_zeros
leading_zeros-ZerosFirst [] = ([], (refl, tt))
leading_zeros-ZerosFirst (b ∷ bs) = elim (Bool-cases (b == 0)) [
  | inl e ↦
      let (rest, (whole, starts)) = leading_zeros-ZerosFirst bs in
      let zero_byte = (==_iff b 0).0 e in rw e (rest, (cc (zero_byte, whole), starts))
  | inr e ↦ rw e (b ∷ bs, (refl, ground (arith, e)))
]

from_bytes-bound :
    (bs : Bytes) (acc k m : ℕ)
    → m ≡ length bs + length bs + k
    → All IsByte bs
    → acc < 58 ^ k
    → from_bytes acc bs < 58 ^ m
unfolding from_bytes
from_bytes-bound [] acc k m same h small =
    let same' : k ≡ m = omega arith in subst (λ x. acc < 58 ^ x) same' small
from_bytes-bound (b ∷ bs) acc k m same (byte, rest) small =
    let next : acc * 256 + b < 58 ^ suc (suc k) = omega arith in
    from_bytes-bound bs (acc * 256 + b) (suc (suc k)) m (omega arith) rest next

-- What a text in base 58 says of bytes: a "1" for each zero byte that they begin with, and then the
-- digits of their value as a big-endian number, the first of them not zero.
pub record Encodes (bytes : Bytes) (s : Str) : Type 0 where
  pub count : ℕ
  pub others : Bytes
  pub zeros_first : ZerosFirst count bytes others
  pub digits : List ℕ
  pub small : All IsDigit58 digits
  pub starts : Starts digits
  pub value : value_in 58 0 digits ≡ value_in 256 0 bytes
  pub body : Str
  pub is_text : IsText58 digits body
  pub whole : s ≡ copies count b'1' ++ body

-- The loop ends, within twice as many turns as there are bytes, and the text is that of the payload
-- with the first four bytes of its double digest: a "1" for each zero byte at the start, and then the
-- characters of the digits, below 58 and without a zero in front, whose value is the bytes' as a
-- big-endian number.
pub base58check_encode-value :
    (libs : TronLibs) (payload : Bytes)
    → All IsByte (payload ++ take 4 (libs.sha256 (libs.sha256 payload)))
    → (s : Str) × (base58check_encode libs payload ≡ some s)
      × Encodes (payload ++ take 4 (libs.sha256 (libs.sha256 payload))) s
unfolding base58check_encode encode_data with_checksum
base58check_encode-value libs payload h =
    let bytes = payload ++ take 4 (libs.sha256 (libs.sha256 payload)) in
    let bound =
      from_bytes-bound bytes 0 0 (length bytes + length bytes) (omega arith) h (omega arith) in
    let (digits, returned, value, small, starts) =
      base58_digits-enough (length bytes + length bytes) (from_bytes 0 bytes) [] bound tt
        (λ _. tt) in
    let (body, read, is_text) = b58_text-IsText58 digits small in
    let (others, zeros_first) = leading_zeros-ZerosFirst bytes in
    (
      ones (leading_zeros bytes) ++ body,
      rw (returned, read) refl,
      record {
        count = leading_zeros bytes;
        others = others;
        zeros_first = zeros_first;
        digits = digits;
        small = small;
        starts = starts;
        value = value ∙ from_bytes-value_in bytes 0;
        body = body;
        is_text = is_text;
        whole = ap (λ l. l ++ body) (ones-copies (leading_zeros bytes));
      },
    )
