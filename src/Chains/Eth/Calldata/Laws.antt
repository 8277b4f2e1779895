-- ===== src/Chains/Eth/Calldata/Laws.antt =====
-- What the adapter reads back from the calldata that it wrote, and what a sweep leaves for gas.
use cryptoswap_wallet.Common.{
  ℕ, zero, suc, leb_ℤ_iff, leb_ℤ-false, ℤ, pos, negsuc, ◌-ℤ◌, ◌*ℤ◌, ◌+ℤ◌, ◌≤ℤ◌, ◌<ℤ◌, ◌↔◌,
  floor_div, *ℤ-pos_parts, +ℤ_parts, -ℤ_parts, pos_part, neg_part, ◌/◌, inl, inr, arith, leb_ℤ,
  true, false, ◌⊎◌, ◌≤◌, Str, Bytes, List, [], ◌∷◌, ◌++◌, some, ◌≡◌, refl, sym, ap, ◌∙◌, text, hex,
  from_hex-hex, hex-append, str_eq_refl, starts_with, drop, take-append, length, All,
  All-append_iff, IsByte,
}
use cryptoswap_wallet.Result.{ok, ok_inj, >>=-eq-ok}
use cryptoswap_wallet.Chains.Eth.Types.{EthLibs, Documented, AbiType, AbiValue, AllReadAs}
use cryptoswap_wallet.Chains.Eth.Calldata.{encode_call, decode_call, remove_0x, eth_sweep_amount}

drop-append : {A : Type 0} (xs ys : List A) → drop (length xs) (xs ++ ys) ≡ ys
drop-append [] ys = refl
drop-append (x ∷ xs) ys = drop-append xs ys

module _ (libs : EthLibs) (laws : Documented libs) where
  decode_call-selector :
      (selector args : Bytes) (types : List AbiType)
      → length selector ≡ 4
      → All IsByte selector
      → All IsByte args
      → decode_call libs (text "0x" ++ (hex selector ++ hex args)) (hex selector) types
        ≡ libs.abi_decode types args
  unfolding decode_call remove_0x starts_with
  decode_call-selector selector args types four ok_selector ok_args =
      let read =
        from_hex-hex (selector ++ args)
          ((All-append_iff IsByte selector args).1 (ok_selector, ok_args)) in
      let four' = sym four in
      rw
        (
          ← hex-append selector args,
          read,
          four',
          take-append selector args,
          drop-append selector args,
          str_eq_refl (hex selector),
        )
        refl

  -- The call that was encoded for a selector of four bytes is decoded to the values that it was
  -- given, addresses up to the case of letters.
  pub decode_call-encode_call :
      (selector : Bytes) (types : List AbiType) (values : List AbiValue) (calldata : Str)
      → length selector ≡ 4
      → All IsByte selector
      → encode_call libs (hex selector) types values ≡ ok calldata
      → (read : List AbiValue) × (decode_call libs calldata (hex selector) types ≡ some read)
        × AllReadAs values read
  unfolding encode_call
  decode_call-encode_call selector types values calldata four bytes h =
      let (args, encoded, written) = >>=-eq-ok (libs.abi_encode types values) _ h in
      let (read, decoded, same) = laws.decode_encode types values args encoded in
      (
        read,
        ap (λ c. decode_call libs c (hex selector) types) (sym (ok_inj written))
            ∙ decode_call-selector selector args types four bytes
                (laws.abi_bytes types values args encoded)
            ∙ decoded,
        same,
      )

-- The quotient of a number by the wei in a unit is the one with a remainder below a unit.
floor_div-to_wei :
    (n : ℕ) (q : ℤ)
    → (floor_div (pos n) 10000000000 ≡ q)
      ↔ ((q *ℤ pos 10000000000 ≤ℤ pos n) × (pos n <ℤ q *ℤ pos 10000000000 +ℤ pos 10000000000))
unfolding floor_div
floor_div-to_wei n (pos m) =
    let product = *ℤ-pos_parts (pos m) 10000000000 in
    let sum = +ℤ_parts (pos m *ℤ pos 10000000000) (pos 10000000000) in
    (
      λ h. let quotient : n / 10000000000 ≡ m = cc h in (omega arith, omega arith),
      λ h. let quotient : n / 10000000000 ≡ m = omega arith in ap pos quotient,
    )
floor_div-to_wei n (negsuc m) =
    let product = *ℤ-pos_parts (negsuc m) 10000000000 in
    let sum = +ℤ_parts (negsuc m *ℤ pos 10000000000) (pos 10000000000) in
    (λ h. cc h, λ h. absurd (omega arith))

-- An integer is not positive, or it is a positive number.
nonneg_cases :
    (a : ℤ)
    → ((leb_ℤ a (pos 0) ≡ true) × (pos_part a ≤ neg_part a))
      ⊎ ((leb_ℤ a (pos 0) ≡ false) × ((n : ℕ) × (a ≡ pos n) × (1 ≤ n)))
nonneg_cases (pos zero) = inl (refl, omega arith)
nonneg_cases (pos (suc n)) =
    inr ((leb_ℤ-false (pos (suc n)) (pos 0)).1 (omega arith), (suc n, refl, omega arith))
nonneg_cases (negsuc n) = inl ((leb_ℤ_iff (negsuc n) (pos 0)).1 (omega arith), omega arith)

-- The sweep of a balance is an amount exactly when the balance exceeds the gas reserve, and the
-- amount and the reserve do not exceed the balance, of which less than one unit of 1e-8 ETH is left.
pub eth_sweep_amount_iff :
    (balance_wei gas max_fee_per_gas amount : ℤ)
    → (eth_sweep_amount balance_wei gas max_fee_per_gas ≡ ok amount) ↔ (
        (gas *ℤ max_fee_per_gas <ℤ balance_wei)
        × (amount *ℤ pos 10000000000 +ℤ gas *ℤ max_fee_per_gas ≤ℤ balance_wei)
        × (balance_wei <ℤ amount *ℤ pos 10000000000 +ℤ gas *ℤ max_fee_per_gas +ℤ pos 10000000000))
unfolding eth_sweep_amount
eth_sweep_amount_iff balance gas fee amount =
    let reserve = gas *ℤ fee in
    let scaled = amount *ℤ pos 10000000000 in
    let rest = -ℤ_parts balance reserve in
    let used = +ℤ_parts scaled reserve in
    let over = +ℤ_parts (scaled +ℤ reserve) (pos 10000000000) in
    let above = +ℤ_parts scaled (pos 10000000000) in
    elim (nonneg_cases (balance -ℤ reserve)) [
      | inl (none_left, below) ↦ rw none_left (λ h. cc h, λ h. absurd (omega arith))
      | inr (some_left, (n, is_n, positive)) ↦
          let is_rest = ap pos_part is_n in
          let no_debt = ap neg_part is_n in
          rw (some_left, is_n)
            (
              λ h.
                  let bounds = (floor_div-to_wei n amount).0 (ok_inj h) in
                  (omega arith, omega arith, omega arith),
              λ h. ap ok ((floor_div-to_wei n amount).1 (omega arith, omega arith)),
            )
    ]
