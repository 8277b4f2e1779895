-- ===== src/Thorchain/Parse.antt =====
-- The parsers of API responses (src/cryptoswap_wallet/thorchain.py).
pub mod Laws
pub mod Position
use cryptoswap_wallet.Common.{
  ℤ, pos, Str, Bool, true, false, not, ◌&&◌, List, [], ◌∷◌, Option, none, some, text, str_eq,
  starts_with, drop, eqb_ℤ, if◌then◌else◌,
}
use cryptoswap_wallet.Result.{
  Result, ok, err, ◌>>=◌, ◌>>◌, raise_if, or_raise, key_error, type_error, thorchain_error,
}
use cryptoswap_wallet.Thorchain.Json.{
  Json, null, boolean, num, str, array, dict, Fields, get, get_or, has_key, truthy, to_int, to_text,
  to_text?,
}
use cryptoswap_wallet.Thorchain.Types.{ChainStatus, SwapFees, Quote, PoolDepth, LiquidityPosition}

-- `payload[key]`
abbrev pub key : Str → Fields → Result Json
key k payload = or_raise (get k payload) key_error

abbrev int_at : Str → Fields → Result ℤ
int_at k payload = key k payload >>= to_int

abbrev text_at : Str → Fields → Result Str
text_at k payload = key k payload >>= to_text

-- `_int(payload.get(key, default))`
abbrev int_or : Str → Json → Fields → Result ℤ
int_or k default payload = to_int (get_or k default payload)

abbrev text_or_empty : Str → Fields → Result Str
text_or_empty k payload = to_text (get_or k (str []) payload)

abbrev zero_text : Json
zero_text = str (text "0")

-- Maya calls `cacao_…` what THORChain calls `rune_…`.
abbrev either_key : Str → Str → Fields → Json
either_key rune cacao payload = get_or rune (get_or cacao zero_text payload) payload

unfoldable pub parse_pool_depth : Fields → Result PoolDepth
parse_pool_depth payload = do
  asset ← text_or_empty (text "asset") payload
  balance_asset ← int_or (text "balance_asset") zero_text payload
  balance_protocol ← to_int (either_key (text "balance_rune") (text "balance_cacao") payload)
  ok (record { asset = asset; balance_asset = balance_asset; balance_protocol = balance_protocol })

-- Something to report: redeemable on either side, or pending.
abbrev pub is_worth : LiquidityPosition → Bool
is_worth p = not (
    eqb_ℤ p.asset_redeem_value (pos 0)
    && eqb_ℤ p.pending_asset (pos 0)
    && eqb_ℤ p.protocol_redeem_value (pos 0))

unfoldable pub read_position : Fields → Result LiquidityPosition
read_position payload = do
  pool ← text_or_empty (text "asset") payload
  asset_address ← text_or_empty (text "asset_address") payload
  units ← int_or (text "units") zero_text payload
  asset_redeem_value ← int_or (text "asset_redeem_value") zero_text payload
  pending_asset ← int_or (text "pending_asset") zero_text payload
  redeem ← to_int (either_key (text "rune_redeem_value") (text "cacao_redeem_value") payload)
  asset_deposit_value ← int_or (text "asset_deposit_value") zero_text payload
  deposit ← to_int (either_key (text "rune_deposit_value") (text "cacao_deposit_value") payload)
  ok (record {
    pool = pool;
    asset_address = asset_address;
    units = units;
    asset_redeem_value = asset_redeem_value;
    pending_asset = pending_asset;
    protocol_redeem_value = redeem;
    asset_deposit_value = asset_deposit_value;
    protocol_deposit_value = deposit;
  })

unfoldable pub parse_liquidity_provider : Fields → Result (Option LiquidityPosition)
parse_liquidity_provider payload = if has_key (text "error") payload then ok none else (do
  position ← read_position payload
  ok (if is_worth position then some position else none))

-- `txid.removeprefix(prefix)`
abbrev remove_prefix : Str → Str → Str
remove_prefix prefix s = if starts_with s prefix then drop 2 s else s

-- Both prefixes have two characters.
unfoldable pub normalize_txid : Str → Str
normalize_txid txid = remove_prefix (text "0X") (remove_prefix (text "0x") txid)

abbrev flag : Str → Fields → Bool
flag k entry = truthy (get_or k (boolean false) entry)

-- One entry of the array, each field with its default.
unfoldable pub read_status : Fields → Result ChainStatus
read_status entry = do
  chain ← text_or_empty (text "chain") entry
  gas_rate ← int_or (text "gas_rate") (num (pos 0)) entry
  gas_rate_units ← text_or_empty (text "gas_rate_units") entry
  outbound_fee ← int_or (text "outbound_fee") (num (pos 0)) entry
  dust_threshold ← int_or (text "dust_threshold") (num (pos 0)) entry
  address ← text_or_empty (text "address") entry
  router ← to_text? (get (text "router") entry)
  ok (record {
    chain = chain;
    gas_rate = gas_rate;
    gas_rate_units = gas_rate_units;
    outbound_fee = outbound_fee;
    dust_threshold = dust_threshold;
    halted = flag (text "halted") entry;
    global_trading_paused = flag (text "global_trading_paused") entry;
    chain_trading_paused = flag (text "chain_trading_paused") entry;
    address = address;
    router = router;
  })

-- The dict by chain, in insertion order.
abbrev pub Chains : Type 0
Chains = List (Str × ChainStatus)

abbrev pub lookup : Str → Chains → Option ChainStatus
lookup k [] = none
lookup k ((j, s) ∷ chains) = if str_eq j k then some s else lookup k chains

-- `chains[chain] = status`
unfoldable pub insert : Str → ChainStatus → Chains → Chains
insert k s [] = (k, s) ∷ []
insert k s ((j, t) ∷ chains) = if str_eq j k then (j, s) ∷ chains else (j, t) ∷ insert k s chains

unfoldable pub parse_entries : Chains → List Fields → Result Chains
parse_entries chains [] = ok chains
parse_entries chains (entry ∷ payload) =
    read_status entry >>= λ status. parse_entries (insert status.chain status chains) payload

unfoldable pub parse_inbound_addresses : List Fields → Result Chains
unfolding parse_entries
parse_inbound_addresses payload = parse_entries [] payload

abbrev pub to_dict : Json → Result Fields
to_dict (dict fields) = ok fields
to_dict null = err type_error
to_dict (boolean b) = err type_error
to_dict (num n) = err type_error
to_dict (str s) = err type_error
to_dict (array vs) = err type_error

read_fees : Fields → Result SwapFees
read_fees fees = do
  asset ← text_at (text "asset") fees
  outbound ← int_at (text "outbound") fees
  affiliate ← int_at (text "affiliate") fees
  liquidity ← int_at (text "liquidity") fees
  total ← int_at (text "total") fees
  slippage_bps ← int_at (text "slippage_bps") fees
  total_bps ← int_at (text "total_bps") fees
  ok (record {
    asset = asset;
    outbound = outbound;
    affiliate = affiliate;
    liquidity = liquidity;
    total = total;
    slippage_bps = slippage_bps;
    total_bps = total_bps;
  })

-- The message of an `error` field.
abbrev pub error_text : Json → Str
error_text (str s) = s
error_text null = []
error_text (boolean b) = []
error_text (num n) = []
error_text (array vs) = []
error_text (dict fields) = []

unfoldable pub parse_quote : Fields → Result Quote
unfolding read_fees
parse_quote payload = do
  raise_if (has_key (text "error") payload)
      (thorchain_error (error_text (get_or (text "error") null payload)))
  fee_fields ← (key (text "fees") payload >>= to_dict)
  inbound_address ← text_at (text "inbound_address") payload
  expected_amount_out ← int_at (text "expected_amount_out") payload
  memo ← to_text? (get (text "memo") payload)
  fees ← read_fees fee_fields
  recommended_min_amount_in ← int_at (text "recommended_min_amount_in") payload
  expiry ← int_at (text "expiry") payload
  dust_threshold ← int_at (text "dust_threshold") payload
  recommended_gas_rate ← int_at (text "recommended_gas_rate") payload
  gas_rate_units ← text_at (text "gas_rate_units") payload
  router ← to_text? (get (text "router") payload)
  max_streaming_quantity ← int_or (text "max_streaming_quantity") (num (pos 0)) payload
  streaming_swap_blocks ← int_or (text "streaming_swap_blocks") (num (pos 0)) payload
  total_swap_seconds ← int_or (text "total_swap_seconds") (num (pos 0)) payload
  ok (record {
    inbound_address = inbound_address;
    expected_amount_out = expected_amount_out;
    memo = memo;
    fees = fees;
    recommended_min_amount_in = recommended_min_amount_in;
    expiry = expiry;
    dust_threshold = dust_threshold;
    recommended_gas_rate = recommended_gas_rate;
    gas_rate_units = gas_rate_units;
    router = router;
    max_streaming_quantity = max_streaming_quantity;
    streaming_swap_blocks = streaming_swap_blocks;
    total_swap_seconds = total_swap_seconds;
    raw = payload;
  })
