-- ===== src/Thorchain/Client.antt =====
-- `ThorchainClient` (src/cryptoswap_wallet/thorchain.py). The HTTP session is the parameter `Http`.
pub mod Laws
use mathlib.Core.List.{reverse}
use cryptoswap_wallet.Common.{
  ℤ, pos, Str, Bool, true, false, List, [], ◌∷◌, ◌++◌, Option, none, some, text, is_empty, leb_ℤ,
  eqb_ℤ, if◌then◌else◌, ◌==◌,
}
use cryptoswap_wallet.Result.{
  Result, ok, err, ◌>>=◌, ◌>>◌, raise_if, or_raise, value_error, type_error, http_error,
  thorchain_error,
}
use cryptoswap_wallet.Net.{Response, raise_for_status, read_json}
use cryptoswap_wallet.Thorchain.Json.{Json, Fields, Items, nil, item, array, str, get_or}
use cryptoswap_wallet.Thorchain.Types.{ChainStatus, Quote, PoolDepth, LiquidityPosition}
use cryptoswap_wallet.Thorchain.Parse.{
  Chains, parse_inbound_addresses, parse_liquidity_provider, parse_pool_depth, parse_quote,
  normalize_txid, to_dict, error_text,
}
use cryptoswap_wallet.Swap.Types.{QuoteArgs}

-- A value of a query parameter.
pub data Param : Type 0 where
  word : Str → Param
  number : ℤ → Param

-- `_get`, of the address, the parameters and the headers.
abbrev pub Http : Type 0
Http = Str → List (Str × Param) → List (Str × Str) → Result Response

pub record ThorchainClient : Type 0 where
  pub base_url : Str
  pub path_prefix : Str
  pub headers : List (Str × Str)

drop_slashes : Str → Str
drop_slashes [] = []
drop_slashes (c ∷ s) = let rest = drop_slashes s in if c == b'/' then rest else c ∷ s

client_headers : Option Str → List (Str × Str)
client_headers none = []
client_headers (some id) = if is_empty id then [] else (text "x-client-id", id) ∷ []

-- `ThorchainClient.__init__`
unfoldable pub new_client : Str → Option Str → Str → ThorchainClient
unfolding drop_slashes client_headers
new_client base_url client_id path_prefix = record {
  base_url = reverse (drop_slashes (reverse base_url));
  path_prefix = path_prefix;
  headers = client_headers client_id;
}

abbrev pub endpoint : ThorchainClient → Str → Str
endpoint self path = self.base_url ++ (text "/" ++ (self.path_prefix ++ (text "/" ++ path)))

dicts : Items → Result (List Fields)
dicts nil = ok []
dicts (item v vs) = do d ← to_dict v; ds ← dicts vs; ok (d ∷ ds)

entries_of : Json → Result (List Fields)
unfolding dicts
entries_of (array vs) = dicts vs
entries_of Json.null = err type_error
entries_of (Json.boolean b) = err type_error
entries_of (Json.num n) = err type_error
entries_of (Json.str s) = err type_error
entries_of (Json.dict fields) = err type_error

-- An argument that is left out when it is `None`.
optional_number : Str → Option ℤ → List (Str × Param)
optional_number name none = []
optional_number name (some n) = (name, number n) ∷ []

optional_word : Str → Option Str → List (Str × Param)
optional_word name none = []
optional_word name (some s) = (name, word s) ∷ []

unfoldable pub quote_params : QuoteArgs → List (Str × Param)
unfolding optional_number optional_word
quote_params args =
    ((text "from_asset", word args.from_asset)
      ∷ (text "to_asset", word args.to_asset)
      ∷ (text "amount", number args.amount)
      ∷ [])
    ++ (optional_word (text "destination") args.destination
        ++ (optional_number (text "streaming_interval") args.streaming_interval
            ++ (optional_number (text "streaming_quantity") args.streaming_quantity
                ++ optional_number (text "tolerance_bps") args.tolerance_bps)))

-- What a rejection says: its error field, or else the whole body.
rejection : Option Json → Str → Result Quote
rejection none body = err http_error
rejection (some payload) body = do
  fields ← to_dict payload
  err (thorchain_error (error_text (get_or (text "error") (str body) fields)))

-- The answer to a request for a quote.
unfoldable pub read_quote : Response → Result Quote
unfolding rejection read_json
read_quote resp =
    if leb_ℤ (pos 400) resp.status_code
    then rejection resp.json resp.body
    else (do payload ← read_json resp; fields ← to_dict payload; parse_quote fields)

-- The answer to a request for a position; a pool that is unknown holds none.
read_position_of : Response → Result (Option LiquidityPosition)
unfolding raise_for_status read_json
read_position_of resp = if eqb_ℤ resp.status_code (pos 404) then ok none else (do
  raise_for_status resp
  payload ← read_json resp
  fields ← to_dict payload
  parse_liquidity_provider fields)

module _ (http : Http) (self : ThorchainClient) where
  fetch : Str → Result Json
  unfolding raise_for_status read_json
  fetch path = do
    resp ← http (endpoint self path) [] self.headers
    raise_for_status resp
    read_json resp

  unfoldable pub inbound_addresses : Result Chains
  unfolding fetch entries_of
  inbound_addresses = do
    payload ← fetch (text "inbound_addresses")
    entries ← entries_of payload
    parse_inbound_addresses entries

  unfoldable pub tx_status : Str → Result Json
  unfolding fetch
  tx_status txid = fetch (text "tx/status/" ++ normalize_txid txid)

  unfoldable pub liquidity_provider : Str → Str → Result (Option LiquidityPosition)
  unfolding read_position_of
  liquidity_provider pool address = do
    resp ←
        http (endpoint self (text "pool/" ++ (pool ++ (text "/liquidity_provider/" ++ address)))) []
          self.headers
    read_position_of resp

  unfoldable pub pool : Str → Result PoolDepth
  unfolding fetch
  pool asset = do
    payload ← fetch (text "pool/" ++ asset)
    fields ← to_dict payload
    parse_pool_depth fields

  unfoldable pub mimir : Result Fields
  unfolding fetch
  mimir = do payload ← fetch (text "mimir"); to_dict payload

  unfoldable pub quote_swap : QuoteArgs → Result Quote
  quote_swap args = do
    resp ← http (endpoint self (text "quote/swap")) (quote_params args) self.headers
    read_quote resp
