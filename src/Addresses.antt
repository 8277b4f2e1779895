-- ===== src/Addresses.antt =====
-- The checks of destination addresses (src/cryptoswap_wallet/addresses.py). A pattern is a set of
-- texts, as a test: each starts with one of its prefixes, then has so many characters of a class. As
-- in the code, `$` also stands before a line feed that ends the text.
pub mod Laws
use cryptoswap_wallet.Common.{
  ℕ, zero, suc, ◌-◌, Str, Bool, true, false, ◌&&◌, ◌||◌, not, [], ◌∷◌, Option, none, some, text,
  str_eq, is_empty, is_in, leb, ◌==◌, if◌then◌else◌,
}

pub data Problem : Type 0 where
  empty_address : Problem
  -- chain, address
  implausible : Str → Str → Problem

abbrev between : ℕ → ℕ → ℕ → Bool
between low high c = leb low c && leb c high

-- `_B58`
unfoldable pub is_base58 : ℕ → Bool
is_base58 c =
    between b'1' b'9' c
    || (between b'A' b'Z' c && not (c == b'I' || c == b'O'))
    || (between b'a' b'z' c && not (c == b'l'))

-- `_B32`
unfoldable pub is_bech32 : ℕ → Bool
is_bech32 c = between b'a' b'z' c || between b'0' b'9' c

unfoldable pub is_hex : ℕ → Bool
is_hex c = between b'0' b'9' c || between b'a' b'f' c || between b'A' b'F' c

-- `$`
unfoldable pub at_end : Str → Bool
at_end [] = true
at_end (c ∷ []) = c == 10
at_end (c ∷ d ∷ s) = false

-- `C{low,high}$`, where the class `C` has no line feed.
unfoldable pub run : (ℕ → Bool) → ℕ → ℕ → Str → Bool
unfolding at_end
run cls low zero s = low == 0 && at_end s
run cls low (suc high) [] = low == 0
run cls low (suc high) (c ∷ s) =
    let more = run cls (low - 1) high s in if cls c then more else low == 0 && at_end (c ∷ s)

-- `[chars]` and what follows it.
one_of : Str → (Str → Bool) → Str → Bool
one_of chars next [] = false
one_of chars next (c ∷ s) = is_in (c ∷ []) chars && next s

-- A text and what follows it.
unfoldable pub prefix : Str → (Str → Bool) → Str → Bool
prefix [] next s = next s
prefix (p ∷ ps) next [] = false
prefix (p ∷ ps) next (c ∷ s) = p == c && prefix ps next s

-- An old address with one of these first characters.
abbrev legacy : Str → Str → Bool
legacy chars = one_of chars (run is_base58 24 34)

bch_body : Str → Bool
unfolding one_of
bch_body s = one_of (text "qp") (run is_bech32 40 60) s || legacy (text "13") s

-- `_RULES.get(chain)`
unfoldable pub rule_of : Str → Option (Str → Bool)
unfolding prefix one_of bch_body
rule_of chain =
    if str_eq chain (text "BTC")
    then some (λ s. prefix (text "bc1") (run is_bech32 11 71) s || legacy (text "13") s)
    else if str_eq chain (text "LTC")
    then some (λ s. prefix (text "ltc1") (run is_bech32 11 71) s || legacy (text "LM3") s)
    else if str_eq chain (text "DOGE")
    then some (legacy (text "DA9"))
    else if str_eq chain (text "BCH")
    then some (λ s. prefix (text "bitcoincash:") bch_body s || bch_body s)
    else if str_eq chain (text "DASH")
    then some (legacy (text "X7"))
    else if str_eq chain (text "ETH")
    then some (prefix (text "0x") (run is_hex 40 40))
    else if str_eq chain (text "TRON")
    then some (prefix (text "T") (run is_base58 33 33))
    else none

unfoldable pub judge : Str → Str → Option (Str → Bool) → Option Problem
judge chain address none = none
judge chain address (some rule) = if rule address then none else some (implausible chain address)

unfoldable pub validate_destination_address : Str → Str → Option Problem
unfolding rule_of judge
validate_destination_address chain address =
    if is_empty address then some empty_address else judge chain address (rule_of chain)
