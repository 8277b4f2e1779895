-- ===== src/Chains/Tron/Base58.antt =====
-- `base58check_encode` (src/cryptoswap_wallet/chains/tron.py). The loop runs on fuel, twice the number
-- of bytes.
pub mod Laws
use cryptoswap_wallet.Common.{
  ℕ, zero, suc, ◌+◌, ◌-◌, ◌*◌, ◌/◌, ◌%◌, Str, Bytes, List, [], ◌∷◌, ◌++◌, Option, none, some, text,
  take, length, ◌==◌, if◌then◌else◌,
}
use mathlib.Core.Option
use cryptoswap_wallet.Chains.Tron.Types.{TronLibs}

abbrev pub b58_alphabet : Str
b58_alphabet = text "123456789ABCDEFGHJKLMNPQRSTUVWXYZabcdefghijkmnopqrstuvwxyz"

-- `s[i]`, where `none` is an `IndexError`.
unfoldable pub char_at : Str → ℕ → Option ℕ
char_at [] i = none
char_at (c ∷ s) zero = some c
char_at (c ∷ s) (suc i) = char_at s i

unfoldable pub b58_char : ℕ → Option ℕ
unfolding char_at
b58_char i = char_at b58_alphabet i

cons_char : Option ℕ → Option Str → Option Str
cons_char none rest = none
cons_char (some c) none = none
cons_char (some c) (some s) = some (c ∷ s)

unfoldable pub b58_text : List ℕ → Option Str
unfolding cons_char
b58_text [] = some []
b58_text (d ∷ ds) = cons_char (b58_char d) (b58_text ds)

-- `int.from_bytes(data, "big")`, from the value of the bytes before.
unfoldable pub from_bytes : ℕ → Bytes → ℕ
from_bytes acc [] = acc
from_bytes acc (b ∷ bs) = from_bytes (acc * 256 + b) bs

-- The loop, with the digits in place of their characters; `none` is out of fuel.
unfoldable pub base58_digits : ℕ → ℕ → List ℕ → Option (List ℕ)
base58_digits zero n out = if n == 0 then some out else none
base58_digits (suc fuel) n out =
    let next = base58_digits fuel (n / 58) ((n % 58) ∷ out) in if n == 0 then some out else next

-- `len(data) - len(data.lstrip(b"\x00"))`
unfoldable pub leading_zeros : Bytes → ℕ
leading_zeros [] = 0
leading_zeros (b ∷ bs) = let rest = leading_zeros bs in if b == 0 then suc rest else 0

abbrev pub ones : ℕ → Str
ones zero = []
ones (suc n) = b'1' ∷ ones n

text_of : ℕ → Option (List ℕ) → Option Str
text_of count none = none
text_of count (some digits) = Option.map (λ s. ones count ++ s) (b58_text digits)

unfoldable pub encode_data : Bytes → Option Str
unfolding text_of
encode_data bytes =
    text_of (leading_zeros bytes)
      (base58_digits (length bytes + length bytes) (from_bytes 0 bytes) [])

-- The payload with the first four bytes of its double digest.
unfoldable pub with_checksum : TronLibs → Bytes → Bytes
with_checksum libs payload = payload ++ take 4 (libs.sha256 (libs.sha256 payload))

unfoldable pub base58check_encode : TronLibs → Bytes → Option Str
base58check_encode libs payload = encode_data (with_checksum libs payload)
