-- ===== src/Chains/Eth.antt =====
-- The adapter of Ethereum (src/cryptoswap_wallet/chains/eth.py).
pub mod Types
pub mod Checksum
pub mod Calldata
pub mod Rpc
pub mod Gate
pub mod Build
pub mod Prepare
pub mod Source
