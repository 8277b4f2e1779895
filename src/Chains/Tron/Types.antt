-- ===== src/Chains/Tron/Types.antt =====
-- What the TRON adapter reads and writes (src/cryptoswap_wallet/chains/tron.py), and the libraries
-- that it calls.
use cryptoswap_wallet.Common.{
  ℤ, pos, Str, Bytes, [], Option, none, some, ◌≡◌, ◌≢◌, ◌⊎◌, text, hex, take, drop, from_hex,
  decode_utf8, is_empty, if◌then◌else◌,
}
use cryptoswap_wallet.Result.{Result, ok, Error}
use cryptoswap_wallet.Verify.Types.{
  TronSwapPlan, TronTokenSwapPlan, TronSendPlan, TronTokenSendPlan,
}
use cryptoswap_wallet.Chains.Eth.Calldata.{remove_0x}

abbrev pub default_tron_derivation : Str
default_tron_derivation = text "m/44'/195'/0'/0/0"

abbrev pub trc20_transfer_selector : Str
trc20_transfer_selector = text "a9059cbb"

abbrev pub default_trc20_fee_limit_sun : ℤ
default_trc20_fee_limit_sun = pos 15000000

-- What becomes of a transaction that tronpy broadcasts: it is sent, tronpy raises one of its six
-- errors with a message, or it raises another exception.
pub data Sending : Type 0 where
  sent : Sending
  refused : Str → Sending
  raised : Error → Sending

-- eth-account, tronpy and hashlib. `transfer` takes the owner, the recipient and the amount,
-- `trc20_transfer` the token, the recipient, the amount, the owner and the fee limit; `build` takes
-- the address of the node. `paid_to`, `paid_amount`, `called`, `call_data` and `memo_data` are fields
-- of the raw data of a transaction. `decode_transfer` decodes an address and a number.
pub record TronLibs : Type 1 where
  pub Key : Type 0
  pub PrivateKey : Type 0
  pub Builder : Type 0
  pub Tx : Type 0
  pub from_mnemonic : Str → Str → Str → Result (Key × Str)
  pub private_key : Key → Result PrivateKey
  pub owner_address : PrivateKey → Str
  pub transfer : Str → Str → ℤ → Result Builder
  pub trc20_transfer : Str → Str → ℤ → Str → ℤ → Result Builder
  pub add_memo : Builder → Str → Result Builder
  pub build : Str → Builder → Result Tx
  pub contract_type : Tx → Str
  pub paid_to : Tx → Str
  pub paid_amount : Tx → ℤ
  pub called : Tx → Str
  pub call_data : Tx → Str
  pub memo_data : Tx → Option Str
  pub to_base58check_address : Str → Result Str
  pub to_hex_address : Str → Result Str
  pub decode_transfer : Bytes → Result (Str × ℤ)
  pub sign : Tx → PrivateKey → Result Tx
  pub broadcast : Tx → Sending
  pub txid : Tx → Str
  pub sha256 : Bytes → Bytes

-- `if memo: builder = builder.memo(memo)`
abbrev pub with_memo : (libs : TronLibs) → libs.Builder → Str → Result libs.Builder
with_memo libs builder memo = if is_empty memo then ok builder else libs.add_memo builder memo

-- The data of a transaction is the memo in UTF-8 as hex, or there is neither.
abbrev pub HoldsMemo : Str → Option Str → Type 0
HoldsMemo memo data_hex =
    ((memo ≡ []) × (data_hex ≡ none))
    ⊎ ((s : Str) × (bytes : Bytes) × (data_hex ≡ some s)
        × (s ≢ [])
        × (from_hex s ≡ some bytes)
        × (decode_utf8 bytes ≡ some memo))

-- The calldata is a call of `transfer` with the address and the amount.
abbrev pub CallsTransfer : TronLibs → Str → Str → ℤ → Type 0
CallsTransfer libs calldata to amount =
    (raw : Bytes) × (from_hex (remove_0x calldata) ≡ some raw)
    × (hex (take 4 raw) ≡ trc20_transfer_selector)
    × (libs.decode_transfer (drop 4 raw) ≡ ok (to, amount))

-- The address is in the form in which tronpy writes addresses.
abbrev pub IsBase58 : TronLibs → Str → Type 0
IsBase58 libs address = libs.to_base58check_address address ≡ ok address

-- What tronpy documents of the transactions that it builds, for addresses in base58.
pub record Documented (libs : TronLibs) : Type 0 where
  pub transfer_built :
      (owner to : Str) (amount : ℤ) (memo api_url : Str) (b b' : libs.Builder) (tx : libs.Tx)
      → libs.transfer owner to amount ≡ ok b
      → with_memo libs b memo ≡ ok b'
      → libs.build api_url b' ≡ ok tx
      → IsBase58 libs to
      → (libs.contract_type tx ≡ text "TransferContract")
        × (libs.to_base58check_address (libs.paid_to tx) ≡ ok to)
        × (libs.paid_amount tx ≡ amount)
        × HoldsMemo memo (libs.memo_data tx)
  pub trc20_transfer_built :
      (token to : Str) (amount : ℤ) (owner : Str) (fee_limit : ℤ) (memo api_url : Str)
      (b b' : libs.Builder) (tx : libs.Tx)
      → libs.trc20_transfer token to amount owner fee_limit ≡ ok b
      → with_memo libs b memo ≡ ok b'
      → libs.build api_url b' ≡ ok tx
      → IsBase58 libs token
      → IsBase58 libs to
      → (libs.contract_type tx ≡ text "TriggerSmartContract")
        × (libs.to_base58check_address (libs.called tx) ≡ ok token)
        × CallsTransfer libs (libs.call_data tx) to amount
        × HoldsMemo memo (libs.memo_data tx)

pub record BuiltTronTx (PrivateKey Tx : Type 0) : Type 0 where
  pub tx : Tx
  pub priv : PrivateKey
  pub contract_type : Str
  pub to_address : Str
  pub amount_sun : ℤ
  pub memo : Str
  pub call_data : Str

-- The plans of the adapter's `Prepared` values.
pub data TronPlan : Type 0 where
  tron_swap : TronSwapPlan → TronPlan
  tron_token_swap : TronTokenSwapPlan → TronPlan
  tron_send : TronSendPlan → TronPlan
  tron_token_send : TronTokenSendPlan → TronPlan

-- The fields of the adapter that it builds transactions with.
pub record TronAdapter : Type 0 where
  pub api_url : Str
  pub bip39_passphrase : Str
