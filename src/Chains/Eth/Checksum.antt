-- ===== src/Chains/Eth/Checksum.antt =====
-- `to_checksum_address`: the EIP-55 form of an address.
pub mod Laws
use cryptoswap_wallet.Common.{
  ℕ, ◌+◌, ◌-◌, ◌≤◌, Str, Bytes, Bool, true, false, ◌&&◌, ◌||◌, List, [], ◌∷◌, ◌++◌, Option, none,
  some, ◌≡◌, refl, sym, ap, ◌∙◌, ◌⊎◌, inl, inr, All, length, text, hex, lower, lower_char, leb,
  if◌then◌else◌, from_hex, from_hex-digits, IsHexDigit, str_eq, hex_digit, ◌==◌, take, drop,
  hex_value, Bool-cases, arith,
}
use cryptoswap_wallet.Result.{Result, ok, err, ◌>>=◌, or_raise, value_error}
use cryptoswap_wallet.Chains.Eth.Types.{EthLibs, Documented}

-- `c.upper()` and `c.isalpha()`, of a character of `bytes.hex()`.
upper_char : ℕ → ℕ
upper_char c = if leb b'a' c && leb c b'z' then c - 32 else c

is_alpha : ℕ → Bool
is_alpha c = (leb b'a' c && leb c b'z') || (leb b'A' c && leb c b'Z')

-- `int(d, 16) >= 8`
is_high : ℕ → Bool
unfolding hex_value
is_high d = elim (hex_value d) [ none ↦ false | some v ↦ leb 8 v ]

-- The characters of the digest say which letters become capitals.
unfoldable pub apply_case : Str → Str → Str
unfolding upper_char is_alpha is_high
apply_case [] ds = []
apply_case (c ∷ cs) [] = []
apply_case (c ∷ cs) (d ∷ ds) =
    (if is_alpha c && is_high d then upper_char c else c) ∷ apply_case cs ds

-- `addr[2:] if addr[:2].lower() == "0x" else addr`
unfoldable pub strip_0x : Str → Str
strip_0x addr = if str_eq (lower (take 2 addr)) (text "0x") then drop 2 addr else addr

module _ (libs : EthLibs) where
  unfoldable pub to_checksum_address : Str → Result Str
  unfolding strip_0x
  to_checksum_address addr = do
    bs ← or_raise (from_hex (strip_0x addr)) value_error
    ok (text "0x" ++ apply_case (hex bs) (hex (libs.keccak256 (hex bs))))
