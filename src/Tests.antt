-- ===== src/Tests.antt =====
-- The theorems at concrete inputs.
mod Data
mod Chains
mod Verify
mod Coins
mod Btc
mod Esplora
mod Swap
mod Thorchain
mod Keystore
mod Scan
mod Memos
mod EthData
mod Eth
mod TronData
mod Tron
mod Addresses
