-- ===== src/Thorchain/Types.antt =====
-- What the client returns: the state of a chain, a quote, a pool and a liquidity position.
use cryptoswap_wallet.Common.{ℤ, pos, Str, Bool, not, ◌||◌, Option}
use cryptoswap_wallet.Thorchain.Json.{Fields}

abbrev pub default_tolerance_bps : ℤ
default_tolerance_bps = pos 300

pub record ChainStatus : Type 0 where
  pub chain : Str
  pub gas_rate : ℤ
  pub gas_rate_units : Str
  pub outbound_fee : ℤ
  pub dust_threshold : ℤ
  pub halted : Bool
  pub global_trading_paused : Bool
  pub chain_trading_paused : Bool
  pub address : Str
  pub router : Option Str

-- `ChainStatus.tradable`
unfoldable pub tradable : ChainStatus → Bool
tradable s = not (s.halted || s.global_trading_paused || s.chain_trading_paused)

pub record SwapFees : Type 0 where
  pub asset : Str
  pub outbound : ℤ
  pub affiliate : ℤ
  pub liquidity : ℤ
  pub total : ℤ
  pub slippage_bps : ℤ
  pub total_bps : ℤ

pub record Quote : Type 0 where
  pub inbound_address : Str
  pub expected_amount_out : ℤ
  pub memo : Option Str
  pub fees : SwapFees
  pub recommended_min_amount_in : ℤ
  pub expiry : ℤ
  pub dust_threshold : ℤ
  pub recommended_gas_rate : ℤ
  pub gas_rate_units : Str
  pub router : Option Str
  pub max_streaming_quantity : ℤ
  pub streaming_swap_blocks : ℤ
  pub total_swap_seconds : ℤ
  pub raw : Fields

pub record PoolDepth : Type 0 where
  pub asset : Str
  pub balance_asset : ℤ
  pub balance_protocol : ℤ

pub record LiquidityPosition : Type 0 where
  pub pool : Str
  pub asset_address : Str
  pub units : ℤ
  pub asset_redeem_value : ℤ
  pub pending_asset : ℤ
  pub protocol_redeem_value : ℤ
  pub asset_deposit_value : ℤ
  pub protocol_deposit_value : ℤ
