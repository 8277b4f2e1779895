-- ===== src/Chains/Tron/Amounts.antt =====
-- The amounts and tokens of TRON (src/cryptoswap_wallet/chains/tron.py).
pub mod Laws
use cryptoswap_wallet.Common.{
  ℕ, ◌^◌, ℤ, pos, ◌-ℤ◌, pos_part, floor_div, floor_mod, ltb_ℤ, Str, List, [], ◌∷◌, ◌++◌, text,
  str_eq, ◌==◌, if◌then◌else◌,
}
use cryptoswap_wallet.Result.{Result, ok, err, value_error}

-- `divmod(amount, factor)`, of which a remainder is refused.
abbrev pub exact_div : ℤ → ℕ → Result ℤ
exact_div amount factor =
    if floor_mod amount factor == 0 then ok (floor_div amount factor) else err value_error

-- `TronAdapter.to_sun`
unfoldable pub to_sun : ℤ → Result ℤ
to_sun amount_thorchain = exact_div amount_thorchain 100

-- `TronAdapter.to_token_native`
unfoldable pub to_token_native : ℤ → ℤ → Result ℤ
to_token_native amount_thorchain decimals =
    if ltb_ℤ (pos 8) decimals
    then err value_error
    else exact_div amount_thorchain (10 ^ pos_part (pos 8 -ℤ decimals))

-- The contract and the decimals of a token, by the asset's name, which has the contract in capitals.
abbrev pub tron_tokens : List (Str × Str × ℤ)
tron_tokens =
    (
      text "TRON.USDT-TR7NHQJEKQXGTCI8Q8ZY4PL8OTSZGJLJ6T",
      text "TR7NHqjeKQxGTCi8q8ZY4pL8otSzgjLj6t",
      pos 6,
    )
    ∷ []

unfoldable pub find_token : Str → List (Str × Str × ℤ) → Result (Str × ℤ)
find_token from_asset [] = err value_error
find_token from_asset ((asset, contract, decimals) ∷ tokens) =
    let rest = find_token from_asset tokens in
    if str_eq asset from_asset then ok (contract, decimals) else rest

-- `TronAdapter.token_contract_and_decimals`
unfoldable pub token_contract_and_decimals : Str → Result (Str × ℤ)
unfolding find_token
token_contract_and_decimals from_asset = find_token from_asset tron_tokens
