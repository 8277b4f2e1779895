-- ===== src/Common/Utf8.antt =====
-- `str.encode()` and `bytes.decode("utf-8")`, strict as in Python: no surrogates, no overlong forms,
-- nothing above 0x10FFFF.
use mathlib.Core.Option
use mathlib.Core.Option.{Option, none, some}
use mathlib.Core.Path.{◌≡◌, refl, ◌∙◌}
use mathlib.Core.Logic.{inl, inr}
use mathlib.Core.Bool.{Bool, true, false, ◌&&◌, ◌||◌}
use mathlib.Core.List.{[], ◌∷◌, ◌++◌}
use Prim.Native.Nat.{ℕ, ◌+◌, ◌-◌, ◌*◌, ◌/◌, ◌%◌, ◌<◌, ◌≤◌}
use native.Mathlib.Omega.{arith}
use cryptoswap_wallet.Common.Bools.{ltb, leb, ◌==◌, if◌then◌else◌, Bool-cases}
use cryptoswap_wallet.Common.Text.{Str, Bytes}

-- A code point that has an encoding.
abbrev pub is_scalar : ℕ → Bool
is_scalar c = ltb c 0xD800 || (leb 0xE000 c && ltb c 0x110000)

unfoldable pub encode_char : ℕ → Bytes
encode_char c =
    if ltb c 0x80
    then c ∷ []
    else if ltb c 0x800
    then (0xC0 + c / 64) ∷ (0x80 + c % 64) ∷ []
    else if ltb c 0x10000
    then (0xE0 + c / 4096) ∷ (0x80 + c / 64 % 64) ∷ (0x80 + c % 64) ∷ []
    else (0xF0 + c / 262144) ∷ (0x80 + c / 4096 % 64) ∷ (0x80 + c / 64 % 64) ∷ (0x80 + c % 64) ∷ []

-- `none` is a `UnicodeEncodeError`.
unfoldable pub encode_utf8 : Str → Option Bytes
unfolding encode_char
encode_utf8 [] = some []
encode_utf8 (c ∷ s) =
    let rest = encode_utf8 s in
    if is_scalar c then Option.map (λ r. encode_char c ++ r) rest else none

-- Bytes still expected, the bits read so far, and the least code point of this length.
abbrev Pending : Type 0
Pending = ℕ × ℕ × ℕ

abbrev idle : Pending
idle = (0, 0, 0)

-- The first byte of a character: the next state, and the character if it is ASCII.
first_byte : ℕ → Option (Pending × Str)
first_byte b =
    if ltb b 0x80
    then some (idle, b ∷ [])
    else if ltb b 0xC2
    then none
    else if ltb b 0xE0
    then some ((1, b - 0xC0, 0x80), [])
    else if ltb b 0xF0
    then some ((2, b - 0xE0, 0x800), [])
    else if ltb b 0xF5
    then some ((3, b - 0xF0, 0x10000), [])
    else none

-- A continuation byte.
next_byte : Pending → ℕ → Option (Pending × Str)
next_byte (k, acc, least) b =
    let c = acc * 64 + (b - 0x80) in
    if leb 0x80 b && ltb b 0xC0
    then (if k == 1
        then (if leb least c && is_scalar c then some (idle, c ∷ []) else none)
        else some ((k - 1, c, least), []))
    else none

read_byte : Pending → ℕ → Option (Pending × Str)
unfolding first_byte next_byte
read_byte (k, acc, least) b = if k == 0 then first_byte b else next_byte (k, acc, least) b

decode_from : Pending → Bytes → Option Str
unfolding read_byte
decode_from p [] = if p.0 == 0 then some [] else none
decode_from p (b ∷ bs) = elim (read_byte p b) [
  | none ↦ none
  | some (p', out) ↦ Option.map (λ r. out ++ r) (decode_from p' bs)
]

-- `none` is a `UnicodeDecodeError`.
unfoldable pub decode_utf8 : Bytes → Option Str
unfolding decode_from
decode_utf8 = decode_from idle

-- One byte that is read gives the rest of the bytes to the next state.
decode_step :
    (p p' : Pending) (b : ℕ) (out : Str) (bs : Bytes)
    → read_byte p b ≡ some (p', out)
    → decode_from p (b ∷ bs) ≡ Option.map (λ r. out ++ r) (decode_from p' bs)
unfolding decode_from
decode_step p p' b out bs h = rw (h, decode_from)

map_nil : (o : Option Str) → Option.map (λ (r : Str). [] ++ r) o ≡ o
map_nil none = refl
map_nil (some r) = refl

-- A byte that ends no character.
decode_on :
    (p p' : Pending) (b : ℕ) (bs : Bytes)
    → read_byte p b ≡ some (p', [])
    → decode_from p (b ∷ bs) ≡ decode_from p' bs
decode_on p p' b bs h = decode_step p p' b [] bs h ∙ map_nil _

module _ (c : ℕ) (r : Bytes) (h : is_scalar c ≡ true) where
  decode_two :
      0x80 ≤ c
      → c < 0x800
      → decode_from idle ((0xC0 + c / 64) ∷ (0x80 + c % 64) ∷ r)
        ≡ Option.map (λ s. c ∷ s) (decode_from idle r)
  unfolding read_byte
  decode_two low high =
      decode_on idle (1, c / 64, 0x80) _ _ (ground arith)
      ∙ decode_step (1, c / 64, 0x80) idle _ (c ∷ []) r (ground arith)

  decode_three :
      0x800 ≤ c
      → c < 0x10000
      → decode_from idle ((0xE0 + c / 4096) ∷ (0x80 + c / 64 % 64) ∷ (0x80 + c % 64) ∷ r)
        ≡ Option.map (λ s. c ∷ s) (decode_from idle r)
  unfolding read_byte
  decode_three low high =
      decode_on idle (2, c / 4096, 0x800) _ _ (ground arith)
      ∙ decode_on (2, c / 4096, 0x800) (1, c / 64, 0x800) _ _ (ground arith)
      ∙ decode_step (1, c / 64, 0x800) idle _ (c ∷ []) r (ground arith)

  decode_four :
      0x10000 ≤ c
      → decode_from idle (
          (0xF0 + c / 262144) ∷ (0x80 + c / 4096 % 64) ∷ (0x80 + c / 64 % 64) ∷ (0x80 + c % 64) ∷ r)
        ≡ Option.map (λ s. c ∷ s) (decode_from idle r)
  unfolding read_byte
  decode_four low =
      decode_on idle (3, c / 262144, 0x10000) _ _ (ground arith)
      ∙ decode_on (3, c / 262144, 0x10000) (2, c / 4096, 0x10000) _ _ (ground arith)
      ∙ decode_on (2, c / 4096, 0x10000) (1, c / 64, 0x10000) _ _ (ground arith)
      ∙ decode_step (1, c / 64, 0x10000) idle _ (c ∷ []) r (ground arith)

  decode_one : c < 0x80 → decode_from idle (c ∷ r) ≡ Option.map (λ s. c ∷ s) (decode_from idle r)
  unfolding read_byte
  decode_one high = decode_step idle idle c (c ∷ []) r (ground arith)

  decode_char : decode_from idle (encode_char c ++ r) ≡ Option.map (λ s. c ∷ s) (decode_from idle r)
  unfolding encode_char
  decode_char = elim (Bool-cases (ltb c 0x80)) [
    | inl e ↦ rw e (decode_one (ground arith))
    | inr e ↦ rw e (elim (Bool-cases (ltb c 0x800)) [
      | inl f ↦ rw f (decode_two (ground arith) (ground arith))
      | inr f ↦ rw f (elim (Bool-cases (ltb c 0x10000)) [
        | inl g ↦ rw g (decode_three (ground arith) (ground arith))
        | inr g ↦ rw g (decode_four (ground arith))
      ])
    ])
  ]

map_inv :
    (g : Bytes → Bytes) (t : Bool) (o : Option Bytes) {b : Bytes}
    → (if t then Option.map g o else none) ≡ some b
    → (t ≡ true) × (r : Bytes) × (o ≡ some r) × (b ≡ g r)
map_inv g true none h = cc h
map_inv g true (some r) h = (refl, r, refl, cc)
map_inv g false o h = cc h

pub decode-encode : (s : Str) {b : Bytes} → encode_utf8 s ≡ some b → decode_utf8 b ≡ some s
unfolding encode_utf8 decode_utf8
decode-encode [] {b} h = let e : b ≡ [] = cc in rw e
decode-encode (c ∷ s) {b} h =
    let parts = map_inv (λ r. encode_char c ++ r) (is_scalar c) (encode_utf8 s) h in
    rw (parts.3, decode_char c parts.1 parts.0) (cc (decode-encode s parts.2))
