-- ===== src/Chains/Eth/Checksum/Laws.antt =====
-- The text that `to_checksum_address` returns.
use cryptoswap_wallet.Common.{
  ◌/◌, ◌%◌, ◌-◌, ◌<◌, ◌&&◌, leb, IsByte, hex_digit, value_of_digit, Bool-cases, if◌then◌else◌, ◌⊎◌,
  inl, inr, ℕ, ◌+◌, ◌≤◌, Str, Bytes, [], ◌∷◌, ◌++◌, ◌≡◌, refl, sym, ap, ◌∙◌, All, length, text, hex,
  lower, lower_char, drop, from_hex, from_hex-digits, IsHexDigit, str_eq_refl, Begins, arith,
}
use cryptoswap_wallet.Result.{ok, ok_inj, >>=-eq-ok, or_raise, value_error}
use cryptoswap_wallet.Verify.Eth.Spec.{SameHex}
use cryptoswap_wallet.Chains.Eth.Types.{EthLibs, Documented}
use cryptoswap_wallet.Chains.Eth.Checksum.{
  is_alpha, is_high, upper_char, apply_case, strip_0x, to_checksum_address,
}

-- "0x" or "0X" and forty hexadecimal digits.
abbrev pub IsAddress : Str → Type 0
IsAddress a =
    (z : ℕ) × (x : ℕ) × (digits : Str) × (a ≡ z ∷ x ∷ digits)
    × (lower (z ∷ x ∷ []) ≡ text "0x")
    × All IsHexDigit digits
    × (length digits ≡ 40)

lower_char-lower_char : (c : ℕ) → lower_char (lower_char c) ≡ lower_char c
unfolding lower_char
lower_char-lower_char c = ground arith

pub lower-lower : (s : Str) → lower (lower s) ≡ lower s
unfolding lower
lower-lower [] = refl
lower-lower (c ∷ s) = cc (lower_char-lower_char c, lower-lower s)

lower_char-upper_char : (c : ℕ) → lower_char (upper_char c) ≡ lower_char c
unfolding lower_char upper_char
lower_char-upper_char c = ground arith

pub length-lower : (s : Str) → length (lower s) ≡ length s
unfolding lower
length-lower [] = refl
length-lower (c ∷ s) = rw (length-lower s) refl

pub length-hex : (bs : Bytes) → length (hex bs) ≡ length bs + length bs
unfolding hex
length-hex [] = refl
length-hex (b ∷ bs) = let rest = length-hex bs in omega arith

-- Capitals are the same text up to case.
lower-apply_case : (cs ds : Str) → length cs ≤ length ds → lower (apply_case cs ds) ≡ lower cs
unfolding apply_case lower
lower-apply_case [] ds h = refl
lower-apply_case (c ∷ cs) [] h = absurd (omega arith)
lower-apply_case (c ∷ cs) (d ∷ ds) h =
    let rest = lower-apply_case cs ds (omega arith) in
    let same = lower_char-upper_char c in ground (arith, rest, same)

strip_0x-prefixed :
    (z x : ℕ) (digits : Str) → lower (z ∷ x ∷ []) ≡ text "0x" → strip_0x (z ∷ x ∷ digits) ≡ digits
unfolding strip_0x
strip_0x-prefixed z x digits h = rw (h, str_eq_refl (text "0x")) refl

lower-prefixed :
    (z x : ℕ) (digits : Str)
    → lower (z ∷ x ∷ []) ≡ text "0x"
    → lower (z ∷ x ∷ digits) ≡ text "0x" ++ lower digits
unfolding lower
lower-prefixed z x digits h = cc h

lower-cased :
    (cs ds : Str)
    → length cs ≤ length ds
    → lower (text "0x" ++ apply_case cs ds) ≡ text "0x" ++ lower cs
unfolding lower
lower-cased cs ds h = ap (λ t. text "0x" ++ t) (lower-apply_case cs ds h)

-- The EIP-55 rule for one character `c` and the digest's hexadecimal digit there, of value `v`: a
-- letter from a to f becomes a capital if the value is 8 or more, and all else stays.
abbrev pub IsCased : ℕ → ℕ → ℕ → Type 0
IsCased c v r = ((97 ≤ c) × (8 ≤ v) × (r + 32 ≡ c)) ⊎ (((c < 97) ⊎ (v < 8)) × (r ≡ c))

-- The rule for a text of lower-case digits, two characters for each byte of the digest; the digest
-- may be longer.
abbrev pub IsEip55 : Str → Bytes → Str → Type 0
IsEip55 [] bs r = r ≡ []
IsEip55 (c ∷ []) bs r = ⊥
IsEip55 (c ∷ d ∷ cs) [] r = ⊥
IsEip55 (c ∷ d ∷ cs) (b ∷ bs) r =
    (x : ℕ) × (y : ℕ) × (rest : Str) × (r ≡ x ∷ y ∷ rest)
    × IsCased c (b / 16) x
    × IsCased d (b % 16) y
    × IsEip55 cs bs rest

IsLowerDigit : ℕ → Type 0
IsLowerDigit c = ((48 ≤ c) × (c ≤ 57)) ⊎ ((97 ≤ c) × (c ≤ 102))

lower_char-IsLowerDigit : (c : ℕ) → IsHexDigit c → IsLowerDigit (lower_char c)
unfolding lower_char IsLowerDigit
lower_char-IsLowerDigit c (inl h) = inl (ground arith, ground arith)
lower_char-IsLowerDigit c (inr (inl h)) = inr (ground arith, ground arith)
lower_char-IsLowerDigit c (inr (inr h)) = inr (ground arith, ground arith)

lower-IsLowerDigit : (s : Str) → All IsHexDigit s → All IsLowerDigit (lower s)
unfolding lower
lower-IsLowerDigit [] h = tt
lower-IsLowerDigit (c ∷ s) h = (lower_char-IsLowerDigit c h.0, lower-IsLowerDigit s h.1)

cased : ℕ → ℕ → ℕ
cased c d = if is_alpha c && is_high d then upper_char c else c

is_high-hex_digit : (v : ℕ) → v < 16 → is_high (hex_digit v) ≡ leb 8 v
unfolding is_high
is_high-hex_digit v h = rw (is_high, value_of_digit v h) refl

cased-IsCased : (c v : ℕ) → IsLowerDigit c → v < 16 → IsCased c v (cased c (hex_digit v))
unfolding cased is_alpha upper_char IsLowerDigit
cased-IsCased c v (inl h) small =
    rw (is_high-hex_digit v small) (inr (inl (omega arith), ground arith))
cased-IsCased c v (inr h) small = elim (Bool-cases (leb 8 v)) [
  | inl e ↦ rw (is_high-hex_digit v small, e) (inl (omega arith, ground (arith, e), ground arith))
  | inr e ↦ rw (is_high-hex_digit v small, e) (inr (inr (ground (arith, e)), ground arith))
]

apply_case-IsEip55 :
    (s : Str) (digest : Bytes) (n : ℕ)
    → All IsLowerDigit s
    → All IsByte digest
    → length s ≡ n + n
    → n ≤ length digest
    → IsEip55 s digest (apply_case s (hex digest))
unfolding apply_case hex cased
apply_case-IsEip55 [] digest n h k even l = refl
apply_case-IsEip55 (c ∷ []) digest n h k even l = absurd (omega arith)
apply_case-IsEip55 (c ∷ d ∷ s) [] n h k even l = absurd (omega arith)
apply_case-IsEip55 (c ∷ d ∷ s) (b ∷ bs) n h k even l = (
  cased c (hex_digit (b / 16)),
  cased d (hex_digit (b % 16)),
  apply_case s (hex bs),
  refl,
  cased-IsCased c (b / 16) h.0 (omega arith),
  cased-IsCased d (b % 16) h.1.0 (omega arith),
  apply_case-IsEip55 s bs (n - 1) h.1.1 k.1 (omega arith) (omega arith),
)

module _ (libs : EthLibs) where
  -- The EIP-55 form, as a function of the address in lower case.
  abbrev checksum_of : Str → Str
  checksum_of s = text "0x" ++ apply_case (drop 2 s) (hex (libs.keccak256 (drop 2 s)))

  to_checksum_address-eq :
      (a : Str) → IsAddress a → to_checksum_address libs a ≡ ok (checksum_of (lower a))
  unfolding to_checksum_address lower
  to_checksum_address-eq a (z, x, digits, whole, prefixed, hexed, forty) =
      let (bs, read, again, size) = from_hex-digits digits 20 hexed forty in
      rw (whole, strip_0x-prefixed z x digits prefixed, read, again) refl

  pub to_checksum_address-Begins :
      (a r : Str) → to_checksum_address libs a ≡ ok r → Begins (text "0x") r
  unfolding to_checksum_address
  to_checksum_address-Begins a r h =
      let (bs, read, written) = >>=-eq-ok (or_raise (from_hex (strip_0x a)) value_error) _ h in
      (_, sym (ok_inj written))

  -- Two spellings of an address have one EIP-55 form.
  pub to_checksum_address-canonical :
      (a b : Str)
      → IsAddress a
      → IsAddress b
      → SameHex a b
      → to_checksum_address libs a ≡ to_checksum_address libs b
  to_checksum_address-canonical a b is_a is_b same =
      to_checksum_address-eq a is_a
      ∙ ap (λ s. ok (checksum_of s)) same
      ∙ sym (to_checksum_address-eq b is_b)

  -- The EIP-55 form of an address, "0x" or "0X" and forty hexadecimal digits, exists, begins with
  -- "0x" and is the same address up to the case of letters, if the digest has 32 bytes.
  pub to_checksum_address-SameHex :
      Documented libs
      → (a : Str) → IsAddress a
      → (r : Str) × (to_checksum_address libs a ≡ ok r) × SameHex r a × Begins (text "0x") r
  to_checksum_address-SameHex laws a is_a =
      (checksum_of (lower a), to_checksum_address-eq a is_a, same is_a, (_, refl))
    where
      same : IsAddress a → lower (checksum_of (lower a)) ≡ lower a
      same (z, x, digits, whole, prefixed, hexed, forty) =
          let lowered = ap lower whole ∙ lower-prefixed z x digits prefixed in
          let digest = libs.keccak256 (lower digits) in
          let long_enough : length (lower digits) ≤ length (hex digest) =
            let forty' = length-lower digits in
            let double = length-hex digest in
            let digest' = laws.digest_length (lower digits) in omega arith in
          rw lowered (
            lower-cased (lower digits) (hex digest) long_enough
            ∙ ap (λ t. text "0x" ++ t) (lower-lower digits))

  -- The EIP-55 form of an address, "0x" or "0X" and forty hexadecimal digits, exists: it is "0x" and
  -- the digits in lower case, where a letter is a capital exactly if the hexadecimal digit at its place
  -- in the digest of these lower-case digits is 8 or more.
  pub to_checksum_address-IsEip55 :
      Documented libs
      → (z x : ℕ) (digits : Str) → lower (z ∷ x ∷ []) ≡ text "0x"
      → All IsHexDigit digits
      → length digits ≡ 40
      → (r : Str) × (to_checksum_address libs (z ∷ x ∷ digits) ≡ ok (text "0x" ++ r))
        × IsEip55 (lower digits) (libs.keccak256 (lower digits)) r
  to_checksum_address-IsEip55 laws z x digits prefixed hexed forty =
      let digest = libs.keccak256 (lower digits) in
      let forty' : length (lower digits) ≡ 20 + 20 = length-lower digits ∙ forty in
      let enough : 20 ≤ length digest = rw (laws.digest_length (lower digits)) (omega arith) in
      (
        apply_case (lower digits) (hex digest),
        to_checksum_address-eq (z ∷ x ∷ digits) (z, x, digits, refl, prefixed, hexed, forty)
            ∙ ap (λ t. ok (text "0x" ++ apply_case (drop 2 t) (hex (libs.keccak256 (drop 2 t)))))
                (lower-prefixed z x digits prefixed),
        apply_case-IsEip55 (lower digits) digest 20 (lower-IsLowerDigit digits hexed)
            (laws.digest_bytes (lower digits)) forty' enough,
      )
