-- ===== src/Chains/Eth/Prepare.antt =====
-- What the Ethereum adapter prepares: a swap, a deposit and a send, built and checked by their gates.
pub mod Laws
pub mod Token
pub mod Send
use cryptoswap_wallet.Common.{
  ℕ, ◌^◌, ℤ, pos, negsuc, ◌+ℤ◌, ◌*ℤ◌, floor_div, Str, Bytes, Bool, List, [], ◌∷◌, ◌++◌, Option,
  none, some, text, hex, is_in, is_empty, encode_utf8, ◌==◌, if◌then◌else◌,
}
use cryptoswap_wallet.Result.{
  Result, ok, err, ◌>>=◌, or_raise, unicode_encode_error, type_error, index_error,
}
use cryptoswap_wallet.Net.{Post}
use cryptoswap_wallet.Thorchain.Json.{Json}
use cryptoswap_wallet.Thorchain.Types.{Quote}
use cryptoswap_wallet.Swap.Types.{SwapRequest, Prepared}
use cryptoswap_wallet.Verify.Types.{
  Problem, EthSwapPlan, EthSendPlan, EthTokenSendPlan, undecodable,
}
use cryptoswap_wallet.Verify.Eth.{
  EthTx, Transfer, hex_data, verify_eth_swap, verify_eth_send, verify_eth_token_send,
}
use cryptoswap_wallet.Chains.Btc.{memo_or_empty}
use cryptoswap_wallet.Chains.Eth.Types.{
  EthLibs, EthAdapter, EthArgs, TxDict, EthBuiltSwap, EthTokenBuiltSwap, EthBuilt, native_built,
  token_built, EthPlan, swap_plan, token_swap_plan, send_plan, token_send_plan, AbiValue,
  abi_address, abi_uint, txs, key_of, default_eth_derivation, mainnet, approve_gas,
  token_deposit_gas, native_send_gas, token_transfer_gas,
}
use cryptoswap_wallet.Chains.Eth.Checksum.{to_checksum_address}
use cryptoswap_wallet.Chains.Eth.Calldata.{
  encode_approve, encode_deposit, encode_transfer, decode_call, transfer_selector, amount_types,
}
use cryptoswap_wallet.Chains.Eth.Gate.{verify_eth_token_swap}
use cryptoswap_wallet.Chains.Eth.Rpc.{account_of, token_decimals}
use cryptoswap_wallet.Chains.Eth.Build.{
  to_wei, token_of, token_native, gate_fields, build_unsigned_swap, build_token_swap,
}

-- `EthSwapPlan(...)`, whose chain is 1 by default.
abbrev pub deposit_plan : Str → ℤ → Str → ℤ → Str → EthSwapPlan
deposit_plan inbound_address amount memo expiry destination = record {
  inbound_address = inbound_address;
  amount_wei = to_wei amount;
  memo = memo;
  expiry = expiry;
  chain_id = mainnet;
  destination = destination;
}

module _ (libs : EthLibs) (self : EthAdapter) where
  open libs use {Key}

  abbrev verified :
      EthBuiltSwap Key
      → EthSwapPlan
      → Option Quote
      → ℤ
      → ℤ
      → Result (Prepared (EthBuilt Key) (EthPlan Key))
  verified built plan quote now max_fee_wei = do
    problems ← verify_eth_swap (gate_fields built) plan now max_fee_wei
    ok (record {
      quote = quote;
      built = native_built built;
      plan = swap_plan plan;
      problems = problems;
    })

  unfoldable pub build_and_verify_deposit :
      Str → Str → ℤ → ℤ → EthArgs → Result (Prepared (EthBuilt Key) (EthPlan Key))
  build_and_verify_deposit vault memo amount now args = do
    built ← build_unsigned_swap libs self args default_eth_derivation vault amount memo args.gas
    verified built (deposit_plan vault amount memo (now +ℤ pos 3600) []) none now args.max_fee_wei

  -- The native send of a built transaction, of the amount, within the cap.
  abbrev pub native_send : EthBuiltSwap Key → ℤ → ℤ → Prepared (EthBuilt Key) (EthPlan Key)
  native_send built amount max_fee_wei =
      let plan : EthSendPlan = record {
        recipient = built.to;
        amount_wei = to_wei amount;
        chain_id = self.chain_id;
      } in
      record {
        quote = none;
        built = native_built built;
        plan = send_plan plan;
        problems = verify_eth_send (gate_fields built) plan max_fee_wei;
      }

  -- The problems of a token send, from what its calldata decodes to.
  abbrev pub token_send_problems :
      EthBuiltSwap Key → EthTokenSendPlan → ℤ → Option (List AbiValue) → List Problem
  token_send_problems built plan max_fee_wei (some (abi_address recipient ∷ abi_uint amount ∷ [])) =
      verify_eth_token_send (gate_fields built) (record { recipient = recipient; amount = amount })
        plan max_fee_wei
  token_send_problems built plan max_fee_wei other = undecodable ∷ []

  -- The transaction of a token send, of the key, the token and the calldata.
  abbrev pub token_call : EthArgs → Key → Str → Str → EthBuiltSwap Key
  token_call args private_key token calldata = record {
    tx = record {
      tx_type = pos 2;
      chain_id = self.chain_id;
      nonce = args.nonce;
      to = token;
      value = pos 0;
      gas = token_transfer_gas;
      max_fee_per_gas = args.max_fee_per_gas;
      max_priority_fee_per_gas = args.max_priority_fee_per_gas;
      calldata = calldata;
    };
    private_key = private_key;
    to = token;
    value = pos 0;
    calldata = calldata;
    chain_id = self.chain_id;
    gas = token_transfer_gas;
    max_fee_per_gas = args.max_fee_per_gas;
  }

  -- The token send of a built transaction, of the amount in the token's own unit to a recipient.
  abbrev pub token_send : EthBuiltSwap Key → Str → ℤ → ℤ → Prepared (EthBuilt Key) (EthPlan Key)
  token_send built to native max_fee_wei =
      let plan : EthTokenSendPlan = record {
        token = built.to;
        recipient = to;
        amount = native;
        chain_id = self.chain_id;
      } in
      record {
        quote = none;
        built = native_built built;
        plan = token_send_plan plan;
        problems =
            token_send_problems built plan max_fee_wei
              (decode_call libs built.calldata transfer_selector amount_types);
      }

  module _ (post : Post) (py_str : Json → Str) where
    unfoldable pub build_and_verify_native :
        Quote → SwapRequest → ℤ → EthArgs → Result (Prepared (EthBuilt Key) (EthPlan Key))
    build_and_verify_native quote request now args = do
      built ←
          build_unsigned_swap libs self args default_eth_derivation quote.inbound_address
            request.amount (memo_or_empty quote.memo) args.gas
      verified built
          (deposit_plan quote.inbound_address request.amount (memo_or_empty quote.memo) quote.expiry
            request.destination)
          (some quote) now args.max_fee_wei

    unfoldable pub build_and_verify_token :
        Quote → SwapRequest → ℤ → EthArgs → Result (Prepared (EthBuilt Key) (EthPlan Key))
    build_and_verify_token quote request now args = do
      decimals ← (token_of request.from_asset >>= token_decimals post py_str self)
      built ← build_token_swap libs self args request quote decimals
      ok (record {
        quote = some quote;
        built = token_built built;
        plan = token_swap_plan built;
        problems = verify_eth_token_swap libs built request.destination now args.max_fee_wei;
      })

    unfoldable pub build_and_verify :
        Quote → SwapRequest → ℤ → EthArgs → Result (Prepared (EthBuilt Key) (EthPlan Key))
    unfolding build_and_verify_native build_and_verify_token
    build_and_verify quote request now args =
        if is_in (text "-") request.from_asset
        then build_and_verify_token quote request now args
        else build_and_verify_native quote request now args

    unfoldable pub build_and_verify_native_send :
        Str → ℤ → EthArgs → Str → Result (Prepared (EthBuilt Key) (EthPlan Key))
    build_and_verify_native_send recipient amount args path = do
      built ← build_unsigned_swap libs self args path recipient amount [] native_send_gas
      ok (native_send built amount args.max_fee_wei)

    unfoldable pub build_and_verify_token_send :
        Str → ℤ → Str → EthArgs → Str → Result (Prepared (EthBuilt Key) (EthPlan Key))
    build_and_verify_token_send recipient amount asset args path = do
      account ← account_of libs self args.mnemonic path
      contract ← token_of asset
      token ← to_checksum_address libs contract
      to ← to_checksum_address libs recipient
      decimals ← token_decimals post py_str self contract
      native ← token_native amount decimals
      calldata ← encode_transfer libs to native
      ok (token_send (token_call args account.0 token calldata) to native args.max_fee_wei)

    unfoldable pub build_and_verify_send :
        Str → ℤ → Str → EthArgs → Str → Result (Prepared (EthBuilt Key) (EthPlan Key))
    unfolding build_and_verify_native_send build_and_verify_token_send
    build_and_verify_send recipient amount asset args path =
        if is_in (text "-") asset
        then build_and_verify_token_send recipient amount asset args path
        else build_and_verify_native_send recipient amount args path
