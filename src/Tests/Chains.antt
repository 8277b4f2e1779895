-- ===== src/Tests/Chains.antt =====
-- A network on which Bitcoin is open for trade.
use cryptoswap_wallet.Common.{pos, [], ◌∷◌, none, false, text}
use cryptoswap_wallet.Result.{ok}
use cryptoswap_wallet.Thorchain.Json.{end}
use cryptoswap_wallet.Thorchain.Types.{ChainStatus}
use cryptoswap_wallet.Swap.Types.{ThorchainLike}
use cryptoswap_wallet.Tests.Data.{vault, quote}

abbrev pub status : ChainStatus
status = record {
  chain = text "BTC";
  gas_rate = pos 1;
  gas_rate_units = text "satsperbyte";
  outbound_fee = pos 5;
  dust_threshold = pos 10;
  halted = false;
  global_trading_paused = false;
  chain_trading_paused = false;
  address = vault;
  router = none;
}

abbrev pub thorchain : ThorchainLike
thorchain = record {
  inbound_addresses = ok ((text "BTC", status) ∷ []);
  quote_swap = λ args. ok quote;
  mimir = ok end;
}
