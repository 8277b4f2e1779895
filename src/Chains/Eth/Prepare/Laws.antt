-- ===== src/Chains/Eth/Prepare/Laws.antt =====
-- When the gate accepts the swap that the Ethereum adapter builds, and what is then signed.
use cryptoswap_wallet.Common.{
  ℤ, pos, ◌*ℤ◌, ◌+ℤ◌, ◌<ℤ◌, ◌≤ℤ◌, Str, Bytes, false, [], Option, none, some, ◌≡◌, ◌↔◌, arith, inl,
  refl, text, is_in, encode_utf8,
}
use cryptoswap_wallet.Result.{ok, bind_ok}
use cryptoswap_wallet.Net.{Post}
use cryptoswap_wallet.Thorchain.Json.{Json}
use cryptoswap_wallet.Thorchain.Types.{Quote}
use cryptoswap_wallet.Swap.Types.{SwapRequest, Prepared}
use cryptoswap_wallet.Verify.Memo.{Pays}
use cryptoswap_wallet.Verify.Eth.{verify_eth_swap}
use cryptoswap_wallet.Verify.Eth.Spec.{SameHex, verify_eth_swap-encoded}
use cryptoswap_wallet.Chains.Btc.{memo_or_empty}
use cryptoswap_wallet.Chains.Eth.Types.{
  EthLibs, Documented, EthAdapter, EthArgs, EthBuilt, native_built, EthPlan, swap_plan, mainnet,
  default_eth_derivation,
}
use cryptoswap_wallet.Chains.Eth.Checksum.Laws.{IsAddress, to_checksum_address-SameHex}
use cryptoswap_wallet.Chains.Eth.Rpc.{account_of}
use cryptoswap_wallet.Chains.Eth.Build.{build_unsigned_swap, gate_fields, unsigned_swap}
use cryptoswap_wallet.Chains.Eth.Prepare.{
  deposit_plan, build_and_verify_deposit, build_and_verify, verified,
}

-- What is left to check of a native swap that was built for its plan.
abbrev pub Acceptable : ℤ → ℤ → ℤ → Str → Str → ℤ → ℤ → ℤ → Type 0
Acceptable now expiry chain_id destination memo gas max_fee_per_gas max_fee_wei =
    (now <ℤ expiry)
    × (chain_id ≡ mainnet)
    × Pays destination memo
    × (gas *ℤ max_fee_per_gas ≤ℤ max_fee_wei)

before_expiry : (now : ℤ) → now <ℤ now +ℤ pos 3600
unfolding ◌+ℤ◌
before_expiry now = ground arith

module _ (libs : EthLibs) (laws : Documented libs) (self : EthAdapter) where
  open libs use {Key}

  build_unsigned_swap-eq :
      (args : EthArgs) (path vault : Str) (amount : ℤ) (memo : Str) (gas : ℤ) (key : Key)
      (address : Str) (bytes : Bytes)
      → account_of libs self args.mnemonic path ≡ ok (key, address)
      → IsAddress vault
      → encode_utf8 memo ≡ some bytes
      → (to : Str) × SameHex to vault
        × (build_unsigned_swap libs self args path vault amount memo gas
            ≡ ok (unsigned_swap libs self args key to amount bytes gas))
  unfolding build_unsigned_swap
  build_unsigned_swap-eq args path vault amount memo gas key address bytes derived is_address
        encoded =
      let (to, checked, same, _) = to_checksum_address-SameHex libs laws vault is_address in
      (to, same, rw (derived, checked, encoded) refl)

  -- The gate on the transaction that was built for its plan.
  verified-Acceptable :
      (args : EthArgs) (vault : Str) (amount : ℤ) (memo : Str) (expiry now : ℤ) (destination : Str)
      (quote : Option Quote) (key : Key) (bytes : Bytes) (to : Str)
      → encode_utf8 memo ≡ some bytes
      → SameHex to vault
      → (p : Prepared (EthBuilt Key) (EthPlan Key)) × (verified libs self
            (unsigned_swap libs self args key to amount bytes args.gas)
            (deposit_plan vault amount memo expiry destination)
            quote
            now
            args.max_fee_wei
          ≡ ok p)
        × (p.built ≡ native_built (unsigned_swap libs self args key to amount bytes args.gas))
        × ((p.problems ≡ [])
            ↔ Acceptable now expiry self.chain_id destination memo args.gas args.max_fee_per_gas
                args.max_fee_wei)
  verified-Acceptable args vault amount memo expiry now destination quote key bytes to encoded
        same =
      let built = unsigned_swap libs self args key to amount bytes args.gas in
      let plan = deposit_plan vault amount memo expiry destination in
      let (problems, returned, verdict) =
        verify_eth_swap-encoded (gate_fields built) bytes plan now args.max_fee_wei encoded in
      (
        record {
          quote = quote;
          built = native_built built;
          plan = swap_plan plan;
          problems = problems;
        },
        bind_ok (verify_eth_swap (gate_fields built) plan now args.max_fee_wei) _ returned refl,
        refl,
        (
          λ h. let safe = verdict.0 h in (safe.in_time, safe.chain, safe.destination, safe.fee),
          λ a. verdict.1 (record {
            in_time = a.0;
            pays = same;
            amount = refl;
            memo = (bytes, encoded, refl);
            chain = a.1;
            destination = a.2;
            fee = a.3;
          }),
        ),
      )

  -- For a native swap, with keys that can be derived, a memo that can be encoded and a vault with an
  -- Ethereum address: the adapter returns a prepared swap, and reports no problem exactly when the
  -- quote has not expired, the adapter's chain is 1, the memo pays the destination and the maximal
  -- fee lies within its cap.
  pub build_and_verify_native-accepts :
      (post : Post) (py_str : Json → Str) (quote : Quote) (request : SwapRequest) (now : ℤ)
      (args : EthArgs) (key : Key) (address : Str) (bytes : Bytes)
      → is_in (text "-") request.from_asset ≡ false
      → account_of libs self args.mnemonic default_eth_derivation ≡ ok (key, address)
      → IsAddress quote.inbound_address
      → encode_utf8 (memo_or_empty quote.memo) ≡ some bytes
      → (p : Prepared (EthBuilt Key) (EthPlan Key)) × (build_and_verify libs self post py_str quote
            request now args
          ≡ ok p)
        × ((p.problems ≡ [])
            ↔ Acceptable now quote.expiry self.chain_id request.destination
                (memo_or_empty quote.memo)
                args.gas
                args.max_fee_per_gas
                args.max_fee_wei)
  unfolding build_and_verify
  build_and_verify_native-accepts post py_str quote request now args key address bytes native
        derived is_address encoded =
      let memo = memo_or_empty quote.memo in
      let (to, same, built) =
        build_unsigned_swap-eq args default_eth_derivation quote.inbound_address request.amount memo
          args.gas key address bytes derived is_address encoded in
      let (p, returned, _, verdict) =
        verified-Acceptable args quote.inbound_address request.amount memo quote.expiry now
          request.destination (some quote) key bytes to encoded same in
      (p, rw (native, built) returned, verdict)

  -- For a liquidity deposit, with keys that can be derived, a memo that can be encoded and a vault
  -- with an Ethereum address: the adapter returns a prepared deposit, and reports no problem exactly
  -- when its chain is 1 and the maximal fee lies within its cap.
  pub build_and_verify_deposit-accepts :
      (vault memo : Str) (amount now : ℤ) (args : EthArgs) (key : Key) (address : Str)
      (bytes : Bytes)
      → account_of libs self args.mnemonic default_eth_derivation ≡ ok (key, address)
      → IsAddress vault
      → encode_utf8 memo ≡ some bytes
      → (p : Prepared (EthBuilt Key) (EthPlan Key)) × (build_and_verify_deposit libs self vault memo
            amount now args
          ≡ ok p)
        × ((p.problems ≡ [])
            ↔ ((self.chain_id ≡ mainnet) × (args.gas *ℤ args.max_fee_per_gas ≤ℤ args.max_fee_wei)))
  unfolding build_and_verify_deposit
  build_and_verify_deposit-accepts vault memo amount now args key address bytes derived is_address
        encoded =
      let (to, same, built) =
        build_unsigned_swap-eq args default_eth_derivation vault amount memo args.gas key address
          bytes derived is_address encoded in
      let (p, returned, _, verdict) =
        verified-Acceptable args vault amount memo (now +ℤ pos 3600) now [] none key bytes to
          encoded same in
      (
        p,
        rw built returned,
        (
          λ h. let a = verdict.0 h in (a.1, a.3),
          λ a. verdict.1 (before_expiry now, a.0, inl refl, a.1),
        ),
      )
