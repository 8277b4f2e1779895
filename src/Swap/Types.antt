-- ===== src/Swap/Types.antt =====
-- Requests, prepared swaps, and the protocols `ThorchainLike` and `SwapSource`
-- (src/cryptoswap_wallet/swap.py). An adapter's own keyword arguments are its type `Args`.
use cryptoswap_wallet.Common.{ℤ, Str, Bool, true, false, List, [], ◌∷◌, Option}
use cryptoswap_wallet.Result.{Result}
use cryptoswap_wallet.Verify.Types.{Problem}
use cryptoswap_wallet.Thorchain.Types.{Quote}
use cryptoswap_wallet.Thorchain.Json.{Fields}
use cryptoswap_wallet.Thorchain.Parse.{Chains}

pub record SwapRequest : Type 0 where
  pub from_asset : Str
  pub to_asset : Str
  pub amount : ℤ
  pub destination : Str

-- The arguments of `quote_swap`.
pub record QuoteArgs : Type 0 where
  pub from_asset : Str
  pub to_asset : Str
  pub amount : ℤ
  pub destination : Option Str
  pub streaming_interval : Option ℤ
  pub streaming_quantity : Option ℤ
  pub tolerance_bps : Option ℤ

pub record ThorchainLike : Type 0 where
  pub inbound_addresses : Result Chains
  pub quote_swap : QuoteArgs → Result Quote
  pub mimir : Result Fields

-- `quote` is `none` for a liquidity deposit and a send.
pub record Prepared (Built Plan : Type 0) : Type 0 where
  pub quote : Option Quote
  pub built : Built
  pub plan : Plan
  pub problems : List Problem

abbrev pub is_nil : List Problem → Bool
is_nil [] = true
is_nil (p ∷ ps) = false

-- `Prepared.safe`
abbrev pub safe : {Built Plan : Type 0} → Prepared Built Plan → Bool
safe p = is_nil p.problems

-- A source-chain adapter. `sign` gives the raw transactions in broadcast order, and `broadcast` the
-- transaction id to track.
pub record SwapSource : Type 1 where
  pub Built : Type 0
  pub Plan : Type 0
  pub Args : Type 0
  pub Raw : Type 0
  pub chain : Str
  pub build_and_verify : Quote → SwapRequest → ℤ → Args → Result (Prepared Built Plan)
  -- the vault, the memo, the amount and the time
  pub build_and_verify_deposit : Str → Str → ℤ → ℤ → Args → Result (Prepared Built Plan)
  pub sign : Built → Result (List Raw)
  pub broadcast : List Raw → Result Str
