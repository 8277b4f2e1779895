-- ===== src/Chains/Eth/Types.antt =====
-- What the Ethereum adapter reads and writes (src/cryptoswap_wallet/chains/eth.py), and the libraries
-- that it calls.
use cryptoswap_wallet.Common.{
  ℤ, pos, Str, Bytes, List, [], ◌∷◌, Option, some, ◌≡◌, ◌+ℤ◌, ◌*ℤ◌, All, IsByte, length, Begins,
  text, lower,
}
use cryptoswap_wallet.Result.{Result, ok}
use cryptoswap_wallet.Verify.Types.{EthSwapPlan, EthSendPlan, EthTokenSendPlan}

-- The dictionary of a transaction.
pub record TxDict : Type 0 where
  pub tx_type : ℤ
  pub chain_id : ℤ
  pub nonce : ℤ
  pub to : Str
  pub value : ℤ
  pub gas : ℤ
  pub max_fee_per_gas : ℤ
  pub max_priority_fee_per_gas : ℤ
  pub calldata : Str

pub record EthBuiltSwap (Key : Type 0) : Type 0 where
  pub tx : TxDict
  pub private_key : Key
  pub to : Str
  pub value : ℤ
  pub calldata : Str
  pub chain_id : ℤ
  pub gas : ℤ
  pub max_fee_per_gas : ℤ

pub record EthTokenBuiltSwap (Key : Type 0) : Type 0 where
  pub approve_tx : TxDict
  pub deposit_tx : TxDict
  pub private_key : Key
  pub token : Str
  pub router : Str
  pub vault : Str
  pub native_amount : ℤ
  pub memo : Str
  pub expiry : ℤ

-- `EthBuiltSwap.fee`
unfoldable pub native_fee : {Key : Type 0} → EthBuiltSwap Key → ℤ
native_fee built = built.gas *ℤ built.max_fee_per_gas

-- `EthTokenBuiltSwap.fee`
unfoldable pub token_fee : {Key : Type 0} → EthTokenBuiltSwap Key → ℤ
token_fee built =
    built.approve_tx.gas *ℤ built.approve_tx.max_fee_per_gas
    +ℤ built.deposit_tx.gas *ℤ built.deposit_tx.max_fee_per_gas

-- `EthBuiltSwap | EthTokenBuiltSwap`
pub data EthBuilt (Key : Type 0) : Type 0 where
  native_built : EthBuiltSwap Key → EthBuilt Key
  token_built : EthTokenBuiltSwap Key → EthBuilt Key

-- `built.txs`
unfoldable pub txs : {Key : Type 0} → EthBuilt Key → List TxDict
txs (native_built built) = built.tx ∷ []
txs (token_built built) = built.approve_tx ∷ built.deposit_tx ∷ []

-- `built.private_key`
unfoldable pub key_of : {Key : Type 0} → EthBuilt Key → Key
key_of (native_built built) = built.private_key
key_of (token_built built) = built.private_key

-- The plans of the adapter's `Prepared` values.
pub data EthPlan (Key : Type 0) : Type 0 where
  swap_plan : EthSwapPlan → EthPlan Key
  token_swap_plan : EthTokenBuiltSwap Key → EthPlan Key
  send_plan : EthSendPlan → EthPlan Key
  token_send_plan : EthTokenSendPlan → EthPlan Key

-- The Solidity types and values that the adapter puts into calldata.
pub data AbiType : Type 0 where
  address_type : AbiType
  uint256_type : AbiType
  string_type : AbiType

pub data AbiValue : Type 0 where
  abi_address : Str → AbiValue
  abi_uint : ℤ → AbiValue
  abi_string : Str → AbiValue

-- eth-account, eth-abi and pycryptodome. `abi_decode` is `none` where it raises. `sign_transaction`
-- gives the bytes of the signed transaction.
pub record EthLibs : Type 1 where
  pub Key : Type 0
  pub from_mnemonic : Str → Str → Str → Result (Key × Str)
  pub sign_transaction : TxDict → Key → Result Bytes
  pub keccak256 : Bytes → Bytes
  pub abi_encode : List AbiType → List AbiValue → Result Bytes
  pub abi_decode : List AbiType → Bytes → Option (List AbiValue)

-- The value is read as it was written, an address with the prefix "0x" up to the case of letters.
abbrev pub ReadsAs : AbiValue → AbiValue → Type 0
ReadsAs (abi_address a) (abi_address b) = Begins (text "0x") a → lower a ≡ lower b
ReadsAs (abi_uint m) (abi_uint n) = m ≡ n
ReadsAs (abi_string s) (abi_string t) = s ≡ t
ReadsAs v w = v ≡ w

abbrev pub AllReadAs : List AbiValue → List AbiValue → Type 0
AllReadAs [] [] = Unit
AllReadAs (v ∷ vs) (w ∷ ws) = ReadsAs v w × AllReadAs vs ws
AllReadAs vs ws = vs ≡ ws

-- What the libraries document: the digest has 32 bytes, and what is encoded are bytes, from which
-- the values are decoded.
pub record Documented (libs : EthLibs) : Type 0 where
  pub digest_length : (bs : Bytes) → length (libs.keccak256 bs) ≡ 32
  pub digest_bytes : (bs : Bytes) → All IsByte (libs.keccak256 bs)
  pub abi_bytes :
      (types : List AbiType) (values : List AbiValue) (bs : Bytes)
      → libs.abi_encode types values ≡ ok bs
      → All IsByte bs
  pub decode_encode :
      (types : List AbiType) (values : List AbiValue) (bs : Bytes)
      → libs.abi_encode types values ≡ ok bs
      → (read : List AbiValue) × (libs.abi_decode types bs ≡ some read) × AllReadAs values read

-- A row of a table of tracked tokens.
pub record Token : Type 0 where
  pub symbol : Str
  pub contract : Str
  pub decimals : ℤ

-- The fields of an adapter of an EVM chain, and its class attributes.
pub record EthAdapter : Type 0 where
  pub chain : Str
  pub asset : Str
  pub native_symbol : Str
  pub token_suffix : Str
  pub tracked_tokens : List Token
  pub known_token_decimals : List (Str × ℤ)
  pub rpc_url : Str
  pub bip39_passphrase : Str
  pub chain_id : ℤ

-- The keyword arguments that the `build_and_verify` methods share.
pub record EthArgs : Type 0 where
  pub mnemonic : Str
  pub nonce : ℤ
  pub gas : ℤ
  pub max_fee_per_gas : ℤ
  pub max_priority_fee_per_gas : ℤ
  pub max_fee_wei : ℤ

abbrev pub default_eth_derivation : Str
default_eth_derivation = text "m/44'/60'/0'/0/0"

abbrev pub mainnet : ℤ
mainnet = pos 1

abbrev pub approve_gas : ℤ
approve_gas = pos 70000

abbrev pub token_deposit_gas : ℤ
token_deposit_gas = pos 200000

abbrev pub native_send_gas : ℤ
native_send_gas = pos 21000

abbrev pub token_transfer_gas : ℤ
token_transfer_gas = pos 65000

abbrev pub tracked_tokens : List Token
tracked_tokens =
    record {
      symbol = text "USDT";
      contract = text "0xdac17f958d2ee523a2206206994597c13d831ec7";
      decimals = pos 6;
    }
    ∷ record {
      symbol = text "USDC";
      contract = text "0xa0b86991c6218b36c1d19d4a2e9eb0ce3606eb48";
      decimals = pos 6;
    }
    ∷ []

-- `{contract: decimals for _, contract, decimals in tokens}`, for tokens with different contracts.
abbrev pub known_decimals : List Token → List (Str × ℤ)
known_decimals [] = []
known_decimals (token ∷ tokens) = (token.contract, token.decimals) ∷ known_decimals tokens

-- `EthAdapter.__init__`, of the address of the node, the passphrase and the chain.
unfoldable pub new_eth_adapter : Str → Str → ℤ → EthAdapter
new_eth_adapter rpc_url bip39_passphrase chain_id = record {
  chain = text "ETH";
  asset = text "ETH.ETH";
  native_symbol = text "ETH";
  token_suffix = text "ETH";
  tracked_tokens = tracked_tokens;
  known_token_decimals = known_decimals tracked_tokens;
  rpc_url = rpc_url;
  bip39_passphrase = bip39_passphrase;
  chain_id = chain_id;
}
