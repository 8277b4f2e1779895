-- ===== src/Tests/Data.antt =====
-- A wallet with one coin, a quoted swap, and the transaction for it.
use cryptoswap_wallet.Common.{pos, Str, List, [], ◌∷◌, none, some, text}
use cryptoswap_wallet.Verify.Types.{TxOutput, SwapPlan}
use cryptoswap_wallet.Thorchain.Json.{end}
use cryptoswap_wallet.Thorchain.Types.{Quote, SwapFees}
use cryptoswap_wallet.Chains.Coins.{Utxo, FeeRate}
use cryptoswap_wallet.Swap.Types.{SwapRequest}

abbrev pub vault : Str
vault = text "vault"

abbrev pub change_to : Str
change_to = text "mine"

abbrev pub destination : Str
destination = text "0xAB"

abbrev pub memo : Str
memo = text "=:e:0xab"

-- One satoshi for each virtual byte.
abbrev pub rate : FeeRate
rate n = pos n

abbrev pub coin : Utxo
coin = record { txid = text "aa"; vout = 0; value = pos 1000; address = text "old"; path = none }

abbrev pub small_coin : Utxo
small_coin = record {
  txid = text "bb";
  vout = 1;
  value = pos 300;
  address = text "old";
  path = none;
}

abbrev pub payment_output : TxOutput
payment_output = record { address = some vault; value = pos 400; op_return_data = none }

abbrev pub memo_output : TxOutput
memo_output = record { address = none; value = pos 0; op_return_data = some memo }

abbrev pub change_output : TxOutput
change_output = record { address = some change_to; value = pos 440; op_return_data = none }

abbrev pub outputs : List TxOutput
outputs = payment_output ∷ memo_output ∷ change_output ∷ []

abbrev pub plan : SwapPlan
plan = record {
  inbound_address = vault;
  amount = pos 400;
  memo = memo;
  expiry = pos 90;
  destination = destination;
}

abbrev pub fees : SwapFees
fees = record {
  asset = text "ETH.ETH";
  outbound = pos 3;
  affiliate = pos 0;
  liquidity = pos 2;
  total = pos 5;
  slippage_bps = pos 10;
  total_bps = pos 20;
}

abbrev pub quote : Quote
quote = record {
  inbound_address = vault;
  expected_amount_out = pos 77;
  memo = some memo;
  fees = fees;
  recommended_min_amount_in = pos 100;
  expiry = pos 90;
  dust_threshold = pos 10;
  recommended_gas_rate = pos 1;
  gas_rate_units = text "satsperbyte";
  router = none;
  max_streaming_quantity = pos 0;
  streaming_swap_blocks = pos 0;
  total_swap_seconds = pos 0;
  raw = end;
}

abbrev pub request : SwapRequest
request = record {
  from_asset = text "BTC.BTC";
  to_asset = text "ETH.ETH";
  amount = pos 400;
  destination = destination;
}
