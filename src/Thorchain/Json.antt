-- ===== src/Thorchain/Json.antt =====
-- JSON values as the THORChain client reads them, and `_int` (src/cryptoswap_wallet/thorchain.py).
-- Numbers are whole: the API sends its amounts as decimal texts. `int` of a text is modelled for
-- ASCII digits, with a sign, single underscores between digits, and blanks around.
pub mod Laws
use cryptoswap_wallet.Common.{
  ℕ, ◌+◌, ◌-◌, ◌*◌, ℤ, pos, negsuc, Str, Bool, true, false, not, ◌&&◌, ◌||◌, [], ◌∷◌, Option, none,
  some, str_eq, is_empty, leb, ◌==◌, eqb_ℤ, if◌then◌else◌,
}
use mathlib.Core.List.{reverse}
use mathlib.Core.Option
use cryptoswap_wallet.Result.{Result, ok, err, value_error, type_error, or_raise}

mutual
  pub data Json : Type 0 where
    null : Json
    boolean : Bool → Json
    num : ℤ → Json
    str : Str → Json
    array : Items → Json
    dict : Fields → Json

  pub data Items : Type 0 where
    nil : Items
    item : Json → Items → Items

  pub data Fields : Type 0 where
    end : Fields
    field : Str → Json → Fields → Fields

-- `payload.get(key)`, where `none` is a missing key.
abbrev pub get : Str → Fields → Option Json
get key end = none
get key (field k v fields) = if str_eq k key then some v else get key fields

-- `key in payload`
abbrev pub has_key : Str → Fields → Bool
has_key key end = false
has_key key (field k v fields) = str_eq k key || has_key key fields

-- `payload.get(key, default)`
abbrev pub get_or : Str → Json → Fields → Json
get_or key default end = default
get_or key default (field k v fields) = if str_eq k key then v else get_or key default fields

-- `bool(value)`
abbrev pub truthy : Json → Bool
truthy null = false
truthy (boolean b) = b
truthy (num n) = not (eqb_ℤ n (pos 0))
truthy (str s) = not (is_empty s)
truthy (array nil) = false
truthy (array (item v vs)) = true
truthy (dict end) = false
truthy (dict (field k v fields)) = true

abbrev is_digit : ℕ → Bool
is_digit c = leb b'0' c && leb c b'9'

-- One character of a number: the value so far, and whether the last character was a digit.
read_digit : ℕ → Bool → ℕ → Option (ℕ × Bool)
read_digit acc after_digit c =
    if is_digit c
    then some (acc * 10 + (c - b'0'), true)
    else if c == b'_' && after_digit
    then some (acc, false)
    else none

read_digits : ℕ → Bool → Str → Option ℕ
unfolding read_digit
read_digits acc after_digit [] = if after_digit then some acc else none
read_digits acc after_digit (c ∷ s) = elim (read_digit acc after_digit c) [
  | none ↦ none
  | some (acc', after_digit') ↦ read_digits acc' after_digit' s
]

unfoldable pub negate : ℕ → ℤ
negate n = if n == 0 then pos 0 else negsuc (n - 1)

read_signed : Str → Option ℤ
unfolding read_digits negate
read_signed [] = none
read_signed (c ∷ s) =
    if c == b'-'
    then Option.map negate (read_digits 0 false s)
    else Option.map pos (if c == b'+' then read_digits 0 false s else read_digits 0 false (c ∷ s))

-- The blanks that `int` strips.
abbrev is_blank : ℕ → Bool
is_blank c = (leb 9 c && leb c 13) || (leb 28 c && leb c 32)

strip_left : Str → Str
strip_left [] = []
strip_left (c ∷ s) = let rest = strip_left s in if is_blank c then rest else c ∷ s

-- `s.strip()`
unfoldable pub strip : Str → Str
unfolding strip_left
strip s = reverse (strip_left (reverse (strip_left s)))

-- `int(s)`, where `none` is a `ValueError`.
unfoldable pub parse_int : Str → Option ℤ
unfolding read_signed strip
parse_int s = read_signed (strip s)

-- `_int(value)`
unfoldable pub to_int : Json → Result ℤ
unfolding parse_int
to_int (num n) = ok n
to_int (boolean b) = ok (if b then pos 1 else pos 0)
to_int (str s) = or_raise (parse_int s) value_error
to_int null = err type_error
to_int (array vs) = err type_error
to_int (dict fields) = err type_error

-- A value that the code keeps as a text. (Python would keep any other value, too.)
abbrev pub to_text : Json → Result Str
to_text (str s) = ok s
to_text null = err type_error
to_text (boolean b) = err type_error
to_text (num n) = err type_error
to_text (array vs) = err type_error
to_text (dict fields) = err type_error

-- A value that is a text or `None`.
abbrev pub to_text? : Option Json → Result (Option Str)
to_text? none = ok none
to_text? (some null) = ok none
to_text? (some (str s)) = ok (some s)
to_text? (some (boolean b)) = err type_error
to_text? (some (num n)) = err type_error
to_text? (some (array vs)) = err type_error
to_text? (some (dict fields)) = err type_error
