-- ===== src/Chains/Btc/Types.antt =====
-- What the Bitcoin adapter reads and writes (src/cryptoswap_wallet/chains/btc.py), and the library of
-- keys and transactions that it calls.
use cryptoswap_wallet.Common.{ℕ, ℤ, Str, Bytes, Bool, List, [], ◌∷◌, ◌++◌, Option, ◌≡◌, text}
use cryptoswap_wallet.Result.{Result, ok}
use cryptoswap_wallet.Verify.Types.{TxOutput}
use cryptoswap_wallet.Chains.Coins.{Utxo, FeeRate, op_return_opcode}

-- An output of a transaction as the adapter reads it: `script_type` is "nulldata", or it is not.
pub data LibOutput : Type 0 where
  -- value, `lock_script`
  nulldata : ℤ → Bytes → LibOutput
  -- value, `address`
  payment : ℤ → Str → LibOutput

-- The calls of bitcoinlib. `to_seed` takes the mnemonic and its passphrase, `from_seed` the network,
-- `signatures` says of each input whether it has signatures.
pub record Bitcoinlib : Type 1 where
  pub Seed : Type 0
  pub HdKey : Type 0
  pub Tx : Type 0
  pub to_seed : Str → Str → Result Seed
  pub from_seed : Seed → Str → Result HdKey
  pub key_for_path : HdKey → Str → Result HdKey
  pub p2wpkh_address : HdKey → Result Str
  pub new_tx : Str → Tx
  pub add_input : Tx → Str → ℕ → ℤ → HdKey → Result Tx
  pub add_output : Tx → ℤ → Str → Result Tx
  pub add_script_output : Tx → ℤ → Bytes → Result Tx
  pub outputs : Tx → List LibOutput
  pub sign : Tx → List HdKey → Result Tx
  pub signatures : Tx → List Bool
  pub verify : Tx → Bool
  pub raw_hex : Tx → Str

-- What the library documents of outputs: a new transaction has none, an input adds none, and an
-- output that is added comes last, as it was given.
pub record KeepsOutputs (lib : Bitcoinlib) : Type 0 where
  pub at_start : (network : Str) → lib.outputs (lib.new_tx network) ≡ []
  pub with_input :
      (tx tx' : lib.Tx) (txid : Str) (vout : ℕ) (value : ℤ) (key : lib.HdKey)
      → lib.add_input tx txid vout value key ≡ ok tx'
      → lib.outputs tx' ≡ lib.outputs tx
  pub with_output :
      (tx tx' : lib.Tx) (value : ℤ) (address : Str)
      → lib.add_output tx value address ≡ ok tx'
      → lib.outputs tx' ≡ lib.outputs tx ++ (payment value address ∷ [])
  pub with_script :
      (tx tx' : lib.Tx) (value : ℤ) (push : Bytes)
      → lib.add_script_output tx value (op_return_opcode ∷ push) ≡ ok tx'
      → lib.outputs tx' ≡ lib.outputs tx ++ (nulldata value (op_return_opcode ∷ push) ∷ [])

pub record BuiltSwap (HdKey Tx : Type 0) : Type 0 where
  pub tx : Tx
  pub outputs : List TxOutput
  pub fee : ℤ
  pub change_address : Str
  pub keys : List HdKey

-- The fields of the adapter that it builds transactions with.
pub record BtcAdapter : Type 0 where
  pub bip39_passphrase : Str
  pub network : Str

abbrev pub default_derivation : Str
default_derivation = text "m/84'/0'/0'/0/0"

-- The keyword arguments of `build_unsigned_swap` besides the vault, the amount and the memo.
pub record BuildArgs : Type 0 where
  pub mnemonic : Str
  pub utxos : List Utxo
  pub fee_rate : FeeRate
  pub change_address : Option Str
  pub default_path : Str
  pub sweep : Bool

-- The keyword arguments that the three `build_and_verify` methods share.
pub record BtcArgs : Type 0 where
  pub mnemonic : Str
  pub scanned_utxos : List Utxo
  pub fee_rate : FeeRate
  pub change_address : Str
  pub max_fee : ℤ
  pub sweep : Bool
