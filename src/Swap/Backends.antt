-- ===== src/Swap/Backends.antt =====
-- Quotes of several networks, and the one that gives the most output
-- (src/cryptoswap_wallet/backends.py). A backend's client is its method `quote_swap`.
pub mod Laws
use cryptoswap_wallet.Common.{
  ℤ, pos, Str, Bool, true, false, not, ◌&&◌, List, [], ◌∷◌, Option, none, some, str_eq, is_empty,
  leb_ℤ, ltb_ℤ, if◌then◌else◌,
}
use cryptoswap_wallet.Result.{
  Error, Result, ok, err, ◌>>=◌, value_error, thorchain_error, http_error, swap_aborted,
  broadcast_error, insufficient_funds, keystore_error, unicode_encode_error, key_error, type_error,
  runtime_error, index_error, not_implemented_error,
}
use cryptoswap_wallet.Thorchain.Types.{default_tolerance_bps, Quote}
use cryptoswap_wallet.Swap.Types.{QuoteArgs}
use cryptoswap_wallet.Swap.Prepare.{lacks_memo}

pub record Backend : Type 0 where
  pub name : Str
  pub quote_swap : QuoteArgs → Result Quote

-- `get_backend`, over the list that `default_backends` gives.
unfoldable pub get_backend : List Backend → Str → Result Backend
get_backend [] name = err value_error
get_backend (b ∷ bs) name =
    let rest = get_backend bs name in if str_eq b.name name then ok b else rest

-- The keywords of the call: `extra`, or else the client's defaults.
extra_quantity : Option ℤ → Option ℤ → Option ℤ
extra_quantity none quantity = none
extra_quantity (some interval) quantity = quantity

extra_tolerance : Option ℤ → Option ℤ → Option ℤ
extra_tolerance (some interval) tolerance = none
extra_tolerance none (some tolerance) = some tolerance
extra_tolerance none none = some default_tolerance_bps

unfoldable pub quote_args : Str → Str → ℤ → Option Str → Option ℤ → Option ℤ → Option ℤ → QuoteArgs
unfolding extra_quantity extra_tolerance
quote_args from_asset to_asset amount destination tolerance_bps interval quantity = record {
  from_asset = from_asset;
  to_asset = to_asset;
  amount = amount;
  destination = destination;
  streaming_interval = interval;
  streaming_quantity = extra_quantity interval quantity;
  tolerance_bps = extra_tolerance interval tolerance_bps;
}

-- `except (ThorchainError, *HTTP_ERRORS)`
abbrev pub is_caught : Error → Bool
is_caught (thorchain_error message) = true
is_caught http_error = true
is_caught (swap_aborted reason) = false
is_caught insufficient_funds = false
is_caught (broadcast_error message) = false
is_caught keystore_error = false
is_caught value_error = false
is_caught unicode_encode_error = false
is_caught key_error = false
is_caught type_error = false
is_caught (runtime_error message) = false
is_caught index_error = false
is_caught not_implemented_error = false

-- `quote.memo and amount >= quote.recommended_min_amount_in`
abbrev pub is_served : ℤ → Quote → Bool
is_served amount quote = not (lacks_memo quote.memo) && leb_ℤ quote.recommended_min_amount_in amount

-- One turn of the loop, from the results of the later backends.
take_quote :
    ℤ → Backend → Result Quote → Result (List (Backend × Quote)) → Result (List (Backend × Quote))
take_quote amount backend (err e) later = if is_caught e then later else err e
take_quote amount backend (ok quote) later = do
  rest ← later
  ok (if is_served amount quote then (backend, quote) ∷ rest else rest)

gather : QuoteArgs → List Backend → Result (List (Backend × Quote))
unfolding take_quote
gather args [] = ok []
gather args (b ∷ bs) = take_quote args.amount b (b.quote_swap args) (gather args bs)

unfoldable pub gather_quotes :
    List Backend
    → Str
    → Str
    → ℤ
    → Option Str
    → Option ℤ
    → Option ℤ
    → Option ℤ
    → Result (List (Backend × Quote))
unfolding gather quote_args
gather_quotes backends from_asset to_asset amount destination tolerance_bps interval quantity =
    gather (quote_args from_asset to_asset amount destination tolerance_bps interval quantity)
      backends

-- `max`: the first of the greatest.
max_from : Backend × Quote → List (Backend × Quote) → Backend × Quote
max_from best [] = best
max_from best (r ∷ rs) =
    let kept = max_from best rs in
    let replaced = max_from r rs in
    if ltb_ℤ best.1.expected_amount_out r.1.expected_amount_out then replaced else kept

unfoldable pub best_quote : List (Backend × Quote) → Result (Backend × Quote)
unfolding max_from
best_quote [] = err value_error
best_quote (r ∷ rs) = ok (max_from r rs)
