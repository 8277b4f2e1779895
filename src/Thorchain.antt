-- ===== src/Thorchain.antt =====
-- The client of the THORChain REST API and of its fork Maya (src/cryptoswap_wallet/thorchain.py).
pub mod Json
pub mod Types
pub mod Parse
pub mod Client
