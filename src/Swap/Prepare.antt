-- ===== src/Swap/Prepare.antt =====
-- `prepare_swap` and `prepare_liquidity` (src/cryptoswap_wallet/swap.py).
pub mod Laws
pub mod Liquidity
use cryptoswap_wallet.Common.{
  ℕ, ℤ, pos, ◌≤ℤ◌, Str, Bool, true, false, not, List, [], ◌∷◌, ◌++◌, Option, none, some, text,
  is_empty, is_in, starts_with, ltb_ℤ, leb_ℤ, if◌then◌else◌, ◌==◌,
}
use cryptoswap_wallet.Result.{
  Result, ok, err, ◌>>=◌, ◌>>◌, raise_if, Error, Abort, swap_aborted, thorchain_error, not_tradable,
  price_limit, quote_rejected, below_minimum, no_memo, no_vault, deposits_paused,
}
use cryptoswap_wallet.Thorchain.Json.{Json, num, Fields, get_or, truthy, to_int}
use cryptoswap_wallet.Thorchain.Types.{ChainStatus, tradable, Quote}
use cryptoswap_wallet.Thorchain.Parse.{Chains, lookup}
use cryptoswap_wallet.Swap.Types.{SwapRequest, QuoteArgs, ThorchainLike, Prepared, SwapSource}

-- The state of a chain, if it can be traded.
abbrev tradable_status : Str → Option ChainStatus → Result ChainStatus
tradable_status chain none = err (swap_aborted (not_tradable chain))
tradable_status chain (some status) =
    if tradable status then ok status else err (swap_aborted (not_tradable chain))

-- `_explain_quote_error`: the advice depends on whether the price limit was at fault.
explain_quote_error : Str → Abort
explain_quote_error message =
    if is_in (text "price limit") message then price_limit message else quote_rejected message

-- `except ThorchainError`: all other exceptions pass through.
abbrev rejected : Result Quote → Result Quote
rejected (ok q) = ok q
rejected (err (thorchain_error message)) = err (swap_aborted (explain_quote_error message))
rejected (err e) = err e

-- `not quote.memo`
abbrev pub lacks_memo : Option Str → Bool
lacks_memo none = true
lacks_memo (some memo) = is_empty memo

-- Streaming drops the tolerance.
abbrev pub swap_tolerance : Option ℤ → ℤ → Option ℤ
swap_tolerance none tolerance_bps = some tolerance_bps
swap_tolerance (some interval) tolerance_bps = none

-- `s.split(mark)[0]`, for a mark of one character.
abbrev pub upto : ℕ → Str → Str
upto mark [] = []
upto mark (c ∷ s) = let rest = upto mark s in if c == mark then [] else c ∷ rest

-- `pool.split(".", 1)[0]`
abbrev pub before_dot : Str → Str
before_dot pool = upto b'.' pool

-- `pool.replace(".", "-")`
abbrev pub dots_to_dashes : Str → Str
dots_to_dashes [] = []
dots_to_dashes (c ∷ s) = (if c == b'.' then b'-' else c) ∷ dots_to_dashes s

-- `int(mimir.get(key, 0) or 0)`
abbrev pub toggle : Fields → Str → Result ℤ
toggle mimir key =
    let v = get_or key (num (pos 0)) mimir in if truthy v then to_int v else ok (pos 0)

-- The first key of the row that is set.
first_set : Fields → List Str → Result (Option Str)
first_set mimir [] = ok none
first_set mimir (key ∷ keys) = toggle mimir key >>= λ v.
    let rest = first_set mimir keys in if leb_ℤ (pos 1) v then ok (some key) else rest

abbrev pub pause_keys : Str → List Str
pause_keys pool =
    text "PAUSELP"
    ∷ (text "PAUSELP" ++ before_dot pool)
    ∷ (text "PAUSELPDEPOSIT-" ++ dots_to_dashes pool)
    ∷ []

unfoldable pub lp_deposit_pause_reason : Fields → Str → Result (Option Str)
unfolding first_set
lp_deposit_pause_reason mimir pool = first_set mimir (pause_keys pool)

-- `memo.split(":")[1] if ":" in memo else ""`
abbrev pub pool_of_memo : Str → Str
pool_of_memo [] = []
pool_of_memo (c ∷ s) = let rest = pool_of_memo s in if c == b':' then upto b':' s else rest

abbrev refuse_paused : Option Str → Result (Unit {0})
refuse_paused none = ok tt
refuse_paused (some key) = raise_if (not (is_empty key)) (swap_aborted (deposits_paused key))

-- `status.dust_threshold if amount is None else amount`
abbrev pub deposit_amount : Option ℤ → ChainStatus → ℤ
deposit_amount none status = status.dust_threshold
deposit_amount (some amount) status = amount

module _ (thorchain : ThorchainLike) (adapter : SwapSource) where
  open adapter use {Built, Plan, Args, chain, build_and_verify, build_and_verify_deposit}

  unfoldable pub prepare_swap :
      SwapRequest → ℤ → ℤ → Option ℤ → Option ℤ → Args → Result (Prepared Built Plan)
  unfolding explain_quote_error
  prepare_swap request now tolerance_bps streaming_interval streaming_quantity args = do
    chains ← thorchain.inbound_addresses
    status ← tradable_status chain (lookup chain chains)
    quote ← rejected (
        thorchain.quote_swap (record {
          from_asset = request.from_asset;
          to_asset = request.to_asset;
          amount = request.amount;
          destination = some request.destination;
          streaming_interval = streaming_interval;
          streaming_quantity = streaming_quantity;
          tolerance_bps = swap_tolerance streaming_interval tolerance_bps;
        }))
    raise_if (ltb_ℤ request.amount quote.recommended_min_amount_in)
        (swap_aborted (below_minimum request.amount quote.recommended_min_amount_in))
    raise_if (lacks_memo quote.memo) (swap_aborted no_memo)
    build_and_verify quote request now args

  -- Deposits are refused while any of the pool's pause toggles is set.
  check_open : Str → Result (Unit {0})
  check_open memo =
      if starts_with memo (text "+")
      then (do
        mimir ← thorchain.mimir
        reason ← lp_deposit_pause_reason mimir (pool_of_memo memo)
        refuse_paused reason)
      else ok tt

  unfoldable pub prepare_liquidity : Str → Option ℤ → ℤ → Args → Result (Prepared Built Plan)
  unfolding check_open
  prepare_liquidity memo amount now args = do
    chains ← thorchain.inbound_addresses
    status ← tradable_status chain (lookup chain chains)
    raise_if (is_empty status.address) (swap_aborted (no_vault chain))
    check_open memo
    build_and_verify_deposit status.address memo (deposit_amount amount status) now args
