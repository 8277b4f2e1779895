-- ===== src/Verify.antt =====
-- The pre-broadcast safety gates (src/cryptoswap_wallet/verify.py), a module for each chain.
pub mod Types
pub mod Memo
pub mod Btc
pub mod Tron
pub mod Eth
