-- ===== src/Chains/Eth/Source.antt =====
-- The Ethereum adapter as `prepare_swap` and `execute_swap` take it, and the policy that its gates
-- enforce.
use cryptoswap_wallet.Common.{
  ℤ, Str, [], ◌≡◌, refl, ap, ◌∙◌, subst, text, is_in, Bool-cases, inl, inr, encode_utf8,
}
use cryptoswap_wallet.Result.{ok, ok_inj, >>=-eq-ok, ◌>>=◌, or_raise, unicode_encode_error}
use cryptoswap_wallet.Net.{Post}
use cryptoswap_wallet.Thorchain.Json.{Json}
use cryptoswap_wallet.Thorchain.Types.{Quote}
use cryptoswap_wallet.Swap.Types.{SwapRequest, Prepared, SwapSource}
use cryptoswap_wallet.Swap.Safety.{Enforces}
use cryptoswap_wallet.Verify.Eth.{verify_eth_swap}
use cryptoswap_wallet.Verify.Eth.Spec.{IsSafeSwap, verify_eth_swap_iff}
use cryptoswap_wallet.Chains.Btc.{memo_or_empty}
use cryptoswap_wallet.Chains.Eth.Types.{
  EthLibs, EthAdapter, EthArgs, EthBuiltSwap, EthBuilt, native_built, token_built, EthPlan,
  default_eth_derivation,
}
use cryptoswap_wallet.Chains.Eth.Gate.{verify_eth_token_swap}
use cryptoswap_wallet.Chains.Eth.Gate.Spec.{IsSafeTokenSwap, verify_eth_token_swap_iff}
use cryptoswap_wallet.Chains.Eth.Checksum.{to_checksum_address}
use cryptoswap_wallet.Chains.Eth.Rpc.{account_of, broadcast, token_decimals}
use cryptoswap_wallet.Chains.Eth.Build.{
  build_unsigned_swap, build_token_swap, gate_fields, token_of, sign,
}
use cryptoswap_wallet.Chains.Eth.Prepare.{
  deposit_plan, build_and_verify, build_and_verify_native, build_and_verify_token,
  build_and_verify_deposit,
}
use cryptoswap_wallet.Chains.Eth.Prepare.Token.{IsBuiltFor, build_token_swap-fields}

-- The transaction that is signed is the one whose fields the gate reads.
pub record SignsChecked {Key : Type 0} (built : EthBuiltSwap Key) : Type 0 where
  pub to : built.tx.to ≡ built.to
  pub value : built.tx.value ≡ built.value
  pub calldata : built.tx.calldata ≡ built.calldata
  pub chain_id : built.tx.chain_id ≡ built.chain_id
  pub gas : built.tx.gas ≡ built.gas
  pub max_fee_per_gas : built.tx.max_fee_per_gas ≡ built.max_fee_per_gas

module _ (libs : EthLibs) (self : EthAdapter) (post : Post) (py_str : Json → Str) where
  open libs use {Key}

  abbrev pub eth_source : SwapSource
  eth_source = record {
    Built = EthBuilt Key;
    Plan = EthPlan Key;
    Args = EthArgs;
    Raw = Str;
    chain = self.chain;
    build_and_verify = build_and_verify libs self post py_str;
    build_and_verify_deposit = build_and_verify_deposit libs self;
    sign = sign libs self;
    broadcast = broadcast post py_str self;
  }

  -- A native swap that is checked as it is signed and safe for its plan, or a token swap that was
  -- built for the quote and the request and is safe.
  abbrev pub EthPolicy : Quote → SwapRequest → ℤ → EthArgs → EthBuilt Key → Type 0
  EthPolicy quote request now args (native_built built) =
      SignsChecked built
      × IsSafeSwap (gate_fields built)
          (deposit_plan quote.inbound_address request.amount (memo_or_empty quote.memo) quote.expiry
            request.destination)
          now args.max_fee_wei
  EthPolicy quote request now args (token_built built) =
      ((decimals : ℤ) × ((token_of request.from_asset >>= token_decimals post py_str self)
          ≡ ok decimals)
        × IsBuiltFor libs quote request decimals built)
      × IsSafeTokenSwap libs built request.destination now args.max_fee_wei

  build_unsigned_swap-SignsChecked :
      (args : EthArgs) (path vault : Str) (amount : ℤ) (memo : Str) (gas : ℤ)
      (built : EthBuiltSwap Key)
      → build_unsigned_swap libs self args path vault amount memo gas ≡ ok built
      → SignsChecked built
  unfolding build_unsigned_swap
  build_unsigned_swap-SignsChecked args path vault amount memo gas built h =
      let (account, _, h1) = >>=-eq-ok (account_of libs self args.mnemonic path) _ h in
      let (to, _, h2) = >>=-eq-ok (to_checksum_address libs vault) _ h1 in
      let (bytes, _, h3) = >>=-eq-ok (or_raise (encode_utf8 memo) unicode_encode_error) _ h2 in
      subst SignsChecked (ok_inj h3) (record {
        to = refl;
        value = refl;
        calldata = refl;
        chain_id = refl;
        gas = refl;
        max_fee_per_gas = refl;
      })

  native-Enforces :
      (quote : Quote) (request : SwapRequest) (now : ℤ) (args : EthArgs)
      (p : Prepared (EthBuilt Key) (EthPlan Key))
      → build_and_verify_native libs self post py_str quote request now args ≡ ok p
      → p.problems ≡ []
      → EthPolicy quote request now args p.built
  unfolding build_and_verify_native
  native-Enforces quote request now args p h none_found =
      let memo = memo_or_empty quote.memo in
      let plan =
        deposit_plan quote.inbound_address request.amount memo quote.expiry request.destination in
      let (built, was_built, h1) =
        >>=-eq-ok
          (build_unsigned_swap libs self args default_eth_derivation quote.inbound_address
            request.amount memo args.gas)
          _ h in
      let (problems, verdict, h2) =
        >>=-eq-ok (verify_eth_swap (gate_fields built) plan now args.max_fee_wei) _ h1 in
      let nothing : problems ≡ [] = ap (λ x. x.problems) (ok_inj h2) ∙ none_found in
      subst (EthPolicy quote request now args) (ap (λ x. x.built) (ok_inj h2)) (
        build_unsigned_swap-SignsChecked args default_eth_derivation quote.inbound_address
            request.amount memo args.gas built was_built,
        (verify_eth_swap_iff (gate_fields built) plan now args.max_fee_wei).0
            (verdict ∙ ap ok nothing),
      )

  token-Enforces :
      (quote : Quote) (request : SwapRequest) (now : ℤ) (args : EthArgs)
      (p : Prepared (EthBuilt Key) (EthPlan Key))
      → build_and_verify_token libs self post py_str quote request now args ≡ ok p
      → p.problems ≡ []
      → EthPolicy quote request now args p.built
  unfolding build_and_verify_token
  token-Enforces quote request now args p h none_found =
      let (decimals, known, h1) =
        >>=-eq-ok (token_of request.from_asset >>= token_decimals post py_str self) _ h in
      let (built, was_built, h2) =
        >>=-eq-ok (build_token_swap libs self args request quote decimals) _ h1 in
      let (meant, pair) =
        build_token_swap-fields libs self args request quote decimals built was_built in
      let nothing : verify_eth_token_swap libs built request.destination now args.max_fee_wei ≡ [] =
        ap (λ x. x.problems) (ok_inj h2) ∙ none_found in
      subst (EthPolicy quote request now args) (ap (λ x. x.built) (ok_inj h2)) (
        (decimals, known, meant),
        (verify_eth_token_swap_iff libs built request.destination now args.max_fee_wei).0 nothing,
      )

  -- What the Ethereum adapter builds without a problem is safe: a native swap is signed as it was
  -- checked, and pays the quoted vault the amount with the quoted memo; a token swap has the asset's
  -- contract, the quoted router, vault, memo and expiry, and its calldata approves the amount for
  -- the router and deposits it for the vault. Either pays the destination of the request on chain 1,
  -- before the expiry, at a fee within the cap.
  pub eth_source-Enforces : Enforces eth_source EthPolicy
  unfolding build_and_verify
  eth_source-Enforces quote request now args p h none_found =
      elim (Bool-cases (is_in (text "-") request.from_asset)) [
        | inl token ↦ token-Enforces quote request now args p (rw token at h) none_found
        | inr native ↦ native-Enforces quote request now args p (rw native at h) none_found
      ]
