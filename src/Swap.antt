-- ===== src/Swap.antt =====
-- The chain-agnostic half of a swap (src/cryptoswap_wallet/swap.py): `prepare_swap`,
-- `prepare_liquidity` and `execute_swap`, over the two protocols that they are written against.
pub mod Types
pub mod Execute
pub mod Backends
pub mod Memos
pub mod Prepare
pub mod Safety
