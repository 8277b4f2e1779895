-- ===== src/Chains/Eth/Calldata.antt =====
-- The calldata that the adapter writes and reads back.
pub mod Laws
pub mod Reads
use cryptoswap_wallet.Common.{
  ℤ, pos, ◌-ℤ◌, ◌*ℤ◌, floor_div, leb_ℤ, Str, Bytes, Bool, true, false, not, List, [], ◌∷◌, ◌++◌,
  Option, none, some, text, hex, from_hex, str_eq, starts_with, take, drop, if◌then◌else◌,
}
use cryptoswap_wallet.Result.{Result, ok, err, ◌>>=◌, ◌>>◌, raise_if, insufficient_funds}
use cryptoswap_wallet.Chains.Eth.Types.{
  EthLibs, AbiType, address_type, uint256_type, string_type, AbiValue, abi_address, abi_uint,
  abi_string,
}

abbrev pub approve_selector : Str
approve_selector = text "095ea7b3"

abbrev pub deposit_selector : Str
deposit_selector = text "44bc937b"

abbrev pub transfer_selector : Str
transfer_selector = text "a9059cbb"

abbrev pub amount_types : List AbiType
amount_types = address_type ∷ uint256_type ∷ []

abbrev pub deposit_types : List AbiType
deposit_types = address_type ∷ address_type ∷ uint256_type ∷ string_type ∷ uint256_type ∷ []

-- `data.removeprefix("0x")`
unfoldable pub remove_0x : Str → Str
remove_0x s = if starts_with s (text "0x") then drop 2 s else s

module _ (libs : EthLibs) where
  unfoldable pub encode_call : Str → List AbiType → List AbiValue → Result Str
  encode_call selector types values = do
    args ← libs.abi_encode types values
    ok (text "0x" ++ (selector ++ hex args))

  unfoldable pub encode_approve : Str → ℤ → Result Str
  unfolding encode_call
  encode_approve router amount =
      encode_call approve_selector amount_types (abi_address router ∷ abi_uint amount ∷ [])

  unfoldable pub encode_transfer : Str → ℤ → Result Str
  unfolding encode_call
  encode_transfer to amount =
      encode_call transfer_selector amount_types (abi_address to ∷ abi_uint amount ∷ [])

  unfoldable pub encode_deposit : Str → Str → ℤ → Str → ℤ → Result Str
  unfolding encode_call
  encode_deposit vault token amount memo expiry = encode_call deposit_selector deposit_types (
      abi_address vault
      ∷ abi_address token
      ∷ abi_uint amount
      ∷ abi_string memo
      ∷ abi_uint expiry
      ∷ [])

  -- The arguments, if the selector is the one expected.
  decode_args : Str → List AbiType → Option Bytes → Option (List AbiValue)
  decode_args selector types none = none
  decode_args selector types (some raw) =
      if str_eq (hex (take 4 raw)) selector then libs.abi_decode types (drop 4 raw) else none

  -- `_decode_call`, where `none` is any exception: both callers reject all of them alike.
  unfoldable pub decode_call : Str → Str → List AbiType → Option (List AbiValue)
  unfolding decode_args
  decode_call calldata selector types = decode_args selector types (from_hex (remove_0x calldata))

-- `eth_sweep_amount`
unfoldable pub eth_sweep_amount : ℤ → ℤ → ℤ → Result ℤ
eth_sweep_amount balance_wei gas max_fee_per_gas = do
  raise_if (leb_ℤ (balance_wei -ℤ gas *ℤ max_fee_per_gas) (pos 0)) insufficient_funds
  ok (floor_div (balance_wei -ℤ gas *ℤ max_fee_per_gas) 10000000000)
