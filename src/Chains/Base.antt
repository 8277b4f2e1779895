-- ===== src/Chains/Base.antt =====
-- The report of a balance (src/cryptoswap_wallet/chains/base.py).
use cryptoswap_wallet.Common.{ℤ, Str, List}

pub record BalanceReport : Type 0 where
  pub symbol : Str
  pub confirmed : ℤ
  pub decimals : ℤ
  pub pending : ℤ
  pub note : Str
  pub addresses : List Str
