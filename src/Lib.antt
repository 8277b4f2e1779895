-- ===== src/Lib.antt =====
-- cryptoswap-wallet swaps coins between chains through THORChain and its fork Maya, without custody.
-- This library models the part of it that decides what is signed and sent, and proves that it is
-- what was asked for.
--
-- A swap goes through these parts. The client reads the node's JSON (`Thorchain`). `prepare_swap`
-- checks that the chain is open, takes a quote, and lets the adapter of the source chain build a
-- transaction and check it (`Swap`, `Chains`). The check is a gate, a pure function from the
-- built transaction to a list of problems (`Verify`). `execute_swap` refuses a transaction with
-- problems, and otherwise asks the adapter to sign and to broadcast.
--
-- Files and code:
--   Verify/Memo, Verify/Btc, Verify/Tron, Verify/Eth: the gates of src/cryptoswap_wallet/verify.py.
--     A problem is a constructor for its message, with the values that the message shows. The
--     descriptions of a safe transaction are Verify/Btc/Safe, Verify/Tron/Spec and Verify/Eth/Spec.
--   Thorchain/Json, Types, Parse: the responses that src/cryptoswap_wallet/thorchain.py parses.
--     Thorchain/Client: the calls of its client, over the session `Http`.
--   Swap/Types, Prepare, Execute: src/cryptoswap_wallet/swap.py. The protocols `ThorchainLike` and
--     `SwapSource` are records, parameters of the sections that use them; a call of a method is a
--     field, and an exception is an error of `Result`. What `execute_swap` did is a record `Run`.
--     Swap/Safety: the contract of an adapter, a policy that its gate enforces, and what it gives.
--   Swap/Backends: src/cryptoswap_wallet/backends.py. Swap/Memos: src/cryptoswap_wallet/liquidity.py.
--   Chains/Coins: src/cryptoswap_wallet/chains/coins.py.
--   Chains/Scan: src/cryptoswap_wallet/chains/scan.py.
--   Chains/Btc: src/cryptoswap_wallet/chains/btc.py, over bitcoinlib as the record `Bitcoinlib`;
--     what is used of it is the record of laws `KeepsOutputs`. Chains/Btc/Esplora: its calls to a node.
--   Addresses: src/cryptoswap_wallet/addresses.py, each pattern as a test.
--   Chains/Eth: src/cryptoswap_wallet/chains/eth.py, over eth-account, eth-abi and pycryptodome as the
--     record `EthLibs`, with the laws `Documented`. Checksum, Calldata, Gate (of token swaps), Rpc,
--     Build and Prepare are its parts; Source is the adapter as a `SwapSource`. Chains/Bsc:
--     src/cryptoswap_wallet/chains/bsc.py.
--   Chains/Tron: src/cryptoswap_wallet/chains/tron.py, over tronpy, eth-account and hashlib as the
--     record `TronLibs`, with the laws `Documented` of its module. Amounts, Base58, Rpc, Build and
--     Prepare are its parts.
--   Chains/Base: the record of src/cryptoswap_wallet/chains/base.py. Net: the responses of the session
--     of src/cryptoswap_wallet/net.py, whose `post` is the parameter `Post`.
--   Keystore: src/cryptoswap_wallet/keystore.py, over the record `Crypto` with the laws `RoundTrips`.
--   Common, Result: shared helpers, and the exceptions of the program.
--   Tests: each theorem at a concrete input.
--
-- Numbers: an `int` is ℤ (a pair of a sign and a native number), a size or an index is ℕ. Nothing is
-- rounded but a fee: the float `fee_rate` is used only in `math.ceil(size * fee_rate)`, and is
-- modelled as that function of the size. A text is its list of code points, and bytes are a list of
-- numbers; `lower` changes the ASCII letters, which is all that matters for the hexadecimal texts
-- that it is used on. JSON numbers are whole, as the node sends amounts as decimal texts; a value of
-- another type where the code keeps a text is an error here, and would be kept by Python.
--
-- Loops over lists are structural recursion. The scan of addresses ends after a row of unused ones,
-- so it recurses on fuel, the number of windows: the first unused index behind which no address was
-- used, added to the gap limit, is enough. The loop of `base58check_encode` recurses on twice the
-- number of bytes, which is enough as 256 is less than 58 squared.
--
-- Not modelled: files, the command line, the price feed and the formatting of reports, which only
-- read and print; the balance of a whole Bitcoin account and its estimate of fees; the clients that
-- the TRON adapter closes; and the libraries of HTTP, cryptography, keys and
-- transactions, which are parameters.
pub mod Common
pub mod Verify
pub mod Result
pub mod Net
pub mod Addresses
pub mod Thorchain
pub mod Swap
pub mod Keystore
pub mod Tests
pub mod Chains
