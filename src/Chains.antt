-- ===== src/Chains.antt =====
-- The chain adapters and what they share (cryptoswap_wallet/chains/).
pub mod Coins
pub mod Base
pub mod Btc
pub mod Eth
pub mod Bsc
pub mod Tron
pub mod Scan
