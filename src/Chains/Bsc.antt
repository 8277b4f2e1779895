-- ===== src/Chains/Bsc.antt =====
-- The adapter of the BNB Smart Chain (src/cryptoswap_wallet/chains/bsc.py): the Ethereum adapter with
-- tables and names of its own, whose swaps raise.
use cryptoswap_wallet.Common.{ℤ, pos, Str, List, [], ◌∷◌, ◌++◌, text, lower}
use cryptoswap_wallet.Result.{Result, err, not_implemented_error}
use cryptoswap_wallet.Thorchain.Types.{Quote}
use cryptoswap_wallet.Swap.Types.{SwapRequest, Prepared}
use cryptoswap_wallet.Chains.Eth.Types.{
  EthLibs, EthAdapter, EthArgs, EthBuilt, EthPlan, Token, mainnet,
}
use cryptoswap_wallet.Chains.Eth.Calldata.{remove_0x}

abbrev pub bsc_tracked_tokens : List Token
bsc_tracked_tokens =
    record {
      symbol = text "USDT";
      contract = text "0x55d398326f99059ff775485246999027b3197955";
      decimals = pos 18;
    }
    ∷ record {
      symbol = text "USDC";
      contract = text "0x8ac76a51cc950d9822d68b83fe1ad97b32cd580d";
      decimals = pos 18;
    }
    ∷ []

abbrev known_bsc_decimals : List Token → List (Str × ℤ)
known_bsc_decimals [] = []
known_bsc_decimals (token ∷ tokens) =
    (text "0x" ++ remove_0x (lower token.contract), token.decimals) ∷ known_bsc_decimals tokens

-- `BscAdapter.__init__`: the chain id is left at the default of the Ethereum adapter.
unfoldable pub new_bsc_adapter : Str → Str → EthAdapter
new_bsc_adapter rpc_url bip39_passphrase = record {
  chain = text "BSC";
  asset = text "BSC.BNB";
  native_symbol = text "BNB";
  token_suffix = text "BSC";
  tracked_tokens = bsc_tracked_tokens;
  known_token_decimals = known_bsc_decimals bsc_tracked_tokens;
  rpc_url = rpc_url;
  bip39_passphrase = bip39_passphrase;
  chain_id = mainnet;
}

-- `BscAdapter.build_and_verify`
unfoldable pub bsc_build_and_verify :
    (libs : EthLibs)
    → Quote
    → SwapRequest
    → ℤ
    → EthArgs
    → Result (Prepared (EthBuilt libs.Key) (EthPlan libs.Key))
bsc_build_and_verify libs quote request now args = err not_implemented_error
