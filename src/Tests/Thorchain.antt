-- ===== src/Tests/Thorchain.antt =====
-- Responses of a node.
use cryptoswap_wallet.Common.{
  pos, [], ◌∷◌, none, some, false, ◌≡◌, ◌≢◌, ◌↔◌, ◌⊎◌, refl, text, str_eq,
}
use cryptoswap_wallet.Result.{ok}
use cryptoswap_wallet.Net.{Response}
use cryptoswap_wallet.Thorchain.Json.{Fields, end, field, str, num, dict, has_key, to_int}
use cryptoswap_wallet.Thorchain.Types.{Quote, LiquidityPosition}
use cryptoswap_wallet.Thorchain.Parse.{
  lookup, read_status, insert, parse_quote, parse_inbound_addresses, parse_liquidity_provider,
}
use cryptoswap_wallet.Thorchain.Parse.Laws.{
  quote_payload, parse_quote-payload, last_status, parse_inbound_addresses-lookup,
}
use cryptoswap_wallet.Thorchain.Parse.Position.{SaysPosition, parse_liquidity_provider_iff}
use cryptoswap_wallet.Thorchain.Client.{Http, ThorchainClient, quote_params, quote_swap}
use cryptoswap_wallet.Thorchain.Client.Laws.{Asks, Quotes, quote_swap_iff}
use cryptoswap_wallet.Swap.Types.{QuoteArgs}
use cryptoswap_wallet.Swap.Backends.{quote_args}
use cryptoswap_wallet.Tests.Data.{quote}
use cryptoswap_wallet.Tests.Chains.{status}

parse_quote-payload_example :
    parse_quote (quote_payload quote) ≡ ok (record quote { raw = quote_payload quote })
parse_quote-payload_example = parse_quote-payload quote

abbrev entry : Fields
entry = field (text "chain") (str (text "BTC")) (
    field (text "gas_rate") (num (pos 1)) (
      field (text "gas_rate_units") (str (text "satsperbyte")) (
        field (text "outbound_fee") (num (pos 5)) (
          field (text "dust_threshold") (num (pos 10))
            (field (text "address") (str (text "vault")) end)))))

entry-parsed : parse_inbound_addresses (entry ∷ []) ≡ ok ((text "BTC", status) ∷ [])
unfolding parse_inbound_addresses str_eq to_int read_status insert
entry-parsed = refl

parse_inbound_addresses-lookup_example :
    lookup (text "BTC") ((text "BTC", status) ∷ []) ≡ last_status (text "BTC") (entry ∷ [])
parse_inbound_addresses-lookup_example =
    parse_inbound_addresses-lookup (entry ∷ []) ((text "BTC", status) ∷ []) (text "BTC")
      entry-parsed

abbrev position : LiquidityPosition
position = record {
  pool = text "TRON.TRX";
  asset_address = text "T1";
  units = pos 5;
  asset_redeem_value = pos 7;
  pending_asset = pos 0;
  protocol_redeem_value = pos 0;
  asset_deposit_value = pos 0;
  protocol_deposit_value = pos 0;
}

abbrev position_payload : Fields
position_payload = field (text "asset") (str (text "TRON.TRX")) (
    field (text "asset_address") (str (text "T1"))
      (field (text "units") (num (pos 5)) (field (text "asset_redeem_value") (num (pos 7)) end)))

parse_liquidity_provider_iff_example :
    (parse_liquidity_provider position_payload ≡ ok (some position)) ↔ (
      (has_key (text "error") position_payload ≡ false)
      × SaysPosition position_payload position
      × ((position.asset_redeem_value ≢ pos 0)
          ⊎ ((position.pending_asset ≢ pos 0) ⊎ (position.protocol_redeem_value ≢ pos 0))))
parse_liquidity_provider_iff_example = parse_liquidity_provider_iff position_payload position

abbrev asked : QuoteArgs
asked = quote_args (text "BTC.BTC") (text "ETH.ETH") (pos 400) none none none none

abbrev client : ThorchainClient
client = record { base_url = text "https://node"; path_prefix = text "thorchain"; headers = [] }

abbrev http : Http
http url params headers =
    ok (record { status_code = pos 200; json = some (dict (quote_payload quote)); body = [] })

abbrev answered : Quote
answered = record quote { raw = quote_payload quote }

quote_swap_iff_example :
    Asks asked (quote_params asked)
    × ((quote_swap http client asked ≡ ok answered) ↔ (
        (resp : Response) × (http (text "https://node/thorchain/quote/swap") (quote_params asked) []
          ≡ ok resp)
        × Quotes resp answered))
quote_swap_iff_example = quote_swap_iff http client asked answered
