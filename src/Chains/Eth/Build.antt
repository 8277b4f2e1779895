-- ===== src/Chains/Eth/Build.antt =====
-- What the Ethereum adapter builds, checks and signs.
use cryptoswap_wallet.Common.{
  ◌^◌, ℤ, pos, negsuc, ◌+ℤ◌, ◌*ℤ◌, floor_div, Str, Bytes, List, [], ◌∷◌, ◌++◌, Option, none, some,
  text, hex, encode_utf8, ◌==◌, if◌then◌else◌,
}
use cryptoswap_wallet.Result.{
  Result, ok, err, ◌>>=◌, or_raise, unicode_encode_error, type_error, index_error,
}
use cryptoswap_wallet.Thorchain.Types.{Quote}
use cryptoswap_wallet.Swap.Types.{SwapRequest}
use cryptoswap_wallet.Verify.Eth.{EthTx, hex_data}
use cryptoswap_wallet.Chains.Btc.{memo_or_empty}
use cryptoswap_wallet.Chains.Eth.Types.{
  EthLibs, EthAdapter, EthArgs, TxDict, EthBuiltSwap, EthTokenBuiltSwap, EthBuilt, txs, key_of,
  default_eth_derivation, mainnet, approve_gas, token_deposit_gas,
}
use cryptoswap_wallet.Chains.Eth.Checksum.{to_checksum_address}
use cryptoswap_wallet.Chains.Eth.Calldata.{encode_approve, encode_deposit}
use cryptoswap_wallet.Chains.Eth.Rpc.{account_of}

-- `amount * WEI_PER_THORCHAIN_UNIT`
abbrev pub to_wei : ℤ → ℤ
to_wei amount = amount *ℤ pos 10000000000

-- `amount * 10**decimals // 10**8`. For negative decimals it is a float, which eth-abi refuses.
unfoldable pub token_native : ℤ → ℤ → Result ℤ
token_native amount (pos decimals) = ok (floor_div (amount *ℤ pos (10 ^ decimals)) 100000000)
token_native amount (negsuc n) = err type_error

-- `s.split("-", 1)[1]`
abbrev pub after_dash : Str → Option Str
after_dash [] = none
after_dash (c ∷ s) = let rest = after_dash s in if c == b'-' then some s else rest

abbrev pub token_of : Str → Result Str
token_of asset = or_raise (after_dash asset) index_error

-- The fields of a built transaction that the gates read.
abbrev pub gate_fields : {Key : Type 0} → EthBuiltSwap Key → EthTx
gate_fields built = record {
  to = built.to;
  value = built.value;
  calldata = built.calldata;
  chain_id = built.chain_id;
  gas = built.gas;
  max_fee_per_gas = built.max_fee_per_gas;
}

-- A transaction of a token swap: to a contract, without ETH, on chain 1.
abbrev pub token_tx : EthArgs → ℤ → Str → ℤ → Str → TxDict
token_tx args nonce to gas calldata = record {
  tx_type = pos 2;
  chain_id = mainnet;
  nonce = nonce;
  to = to;
  value = pos 0;
  gas = gas;
  max_fee_per_gas = args.max_fee_per_gas;
  max_priority_fee_per_gas = args.max_priority_fee_per_gas;
  calldata = calldata;
}

module _ (libs : EthLibs) (self : EthAdapter) where
  open libs use {Key}

  -- The built transaction, of the key, the address that is paid, the amount, the memo and the gas.
  abbrev pub unsigned_swap : EthArgs → Key → Str → ℤ → Bytes → ℤ → EthBuiltSwap Key
  unsigned_swap args private_key to amount memo_bytes gas = record {
    tx = record {
      tx_type = pos 2;
      chain_id = self.chain_id;
      nonce = args.nonce;
      to = to;
      value = to_wei amount;
      gas = gas;
      max_fee_per_gas = args.max_fee_per_gas;
      max_priority_fee_per_gas = args.max_priority_fee_per_gas;
      calldata = hex_data memo_bytes;
    };
    private_key = private_key;
    to = to;
    value = to_wei amount;
    calldata = hex_data memo_bytes;
    chain_id = self.chain_id;
    gas = gas;
    max_fee_per_gas = args.max_fee_per_gas;
  }

  -- The path, the address that is paid, the amount, the memo and the gas.
  unfoldable pub build_unsigned_swap : EthArgs → Str → Str → ℤ → Str → ℤ → Result (EthBuiltSwap Key)
  build_unsigned_swap args path vault_address amount memo gas = do
    account ← account_of libs self args.mnemonic path
    to ← to_checksum_address libs vault_address
    memo_bytes ← or_raise (encode_utf8 memo) unicode_encode_error
    ok (unsigned_swap args account.0 to amount memo_bytes gas)

  unfoldable pub build_token_swap :
      EthArgs → SwapRequest → Quote → ℤ → Result (EthTokenBuiltSwap Key)
  build_token_swap args request quote decimals = do
    account ← account_of libs self args.mnemonic default_eth_derivation
    token ← (token_of request.from_asset >>= to_checksum_address libs)
    router ← to_checksum_address libs (memo_or_empty quote.router)
    vault ← to_checksum_address libs quote.inbound_address
    native ← token_native request.amount decimals
    approve ← encode_approve libs router native
    deposit ← encode_deposit libs vault token native (memo_or_empty quote.memo) quote.expiry
    ok (record {
      approve_tx = token_tx args args.nonce token approve_gas approve;
      deposit_tx = token_tx args (args.nonce +ℤ pos 1) router token_deposit_gas deposit;
      private_key = account.0;
      token = token;
      router = router;
      vault = vault;
      native_amount = native;
      memo = memo_or_empty quote.memo;
      expiry = quote.expiry;
    })

  -- Signing one transaction, and those of a built swap in their order.
  unfoldable pub sign_tx : TxDict → Key → Result Str
  sign_tx tx private_key = do raw ← libs.sign_transaction tx private_key; ok (text "0x" ++ hex raw)

  sign_all : List TxDict → Key → Result (List Str)
  sign_all [] private_key = ok []
  sign_all (tx ∷ rest) private_key = do
    raw ← sign_tx tx private_key
    raws ← sign_all rest private_key
    ok (raw ∷ raws)

  unfoldable pub sign : EthBuilt Key → Result (List Str)
  unfolding sign_all
  sign built = sign_all (txs built) (key_of built)
