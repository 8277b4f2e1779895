-- ===== src/Chains/Tron.antt =====
-- The adapter of TRON (src/cryptoswap_wallet/chains/tron.py).
pub mod Types
pub mod Amounts
pub mod Base58
pub mod Build
pub mod Rpc
pub mod Prepare
