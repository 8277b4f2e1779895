-- ===== src/Chains/Eth/Prepare/Token.antt =====
-- When the gate accepts the token swap that the Ethereum adapter builds.
use cryptoswap_wallet.Common.{
  ℤ, pos, ◌+ℤ◌, ◌<ℤ◌, ◌≤ℤ◌, Str, Bytes, [], ◌∷◌, ◌≡◌, ◌↔◌, refl, sym, ap, ◌∙◌, subst, text, hex,
  Begins, IsByte, All, lower, arith,
}
use cryptoswap_wallet.Result.{ok, ok_inj, ◌>>=◌, >>=-eq-ok}
use cryptoswap_wallet.Thorchain.Types.{Quote}
use cryptoswap_wallet.Swap.Types.{SwapRequest}
use cryptoswap_wallet.Verify.Memo.{Pays}
use cryptoswap_wallet.Chains.Btc.{memo_or_empty}
use cryptoswap_wallet.Chains.Eth.Types.{
  EthLibs, Documented, EthAdapter, EthArgs, EthTokenBuiltSwap, token_fee, default_eth_derivation,
  token_deposit_gas, approve_gas,
}
use cryptoswap_wallet.Chains.Eth.Checksum.{to_checksum_address}
use cryptoswap_wallet.Chains.Eth.Checksum.Laws.{to_checksum_address-Begins}
use cryptoswap_wallet.Chains.Eth.Calldata.{
  encode_approve, encode_deposit, decode_call, approve_selector, deposit_selector, amount_types,
  deposit_types,
}
use cryptoswap_wallet.Chains.Eth.Calldata.Reads.{reads_approval, reads_deposit}
use cryptoswap_wallet.Chains.Eth.Calldata.Laws.{decode_call-encode_call}
use cryptoswap_wallet.Chains.Eth.Gate.{verify_eth_token_swap}
use cryptoswap_wallet.Chains.Eth.Gate.Spec.{Approves, Deposits, verify_eth_token_swap_iff}
use cryptoswap_wallet.Chains.Eth.Rpc.{account_of}
use cryptoswap_wallet.Chains.Eth.Build.{build_token_swap, token_of, token_native, token_tx}

-- The approval and the deposit that are built for a quote and a request: the asset's contract, the
-- quoted router and vault in EIP-55 form, the amount in the token's own unit, and the quoted memo
-- and expiry.
pub record IsBuiltFor (libs : EthLibs) (quote : Quote) (request : SwapRequest) (decimals : ℤ)
    (built : EthTokenBuiltSwap libs.Key) : Type 0 where
  pub contract : Str
  pub named : token_of request.from_asset ≡ ok contract
  pub token : to_checksum_address libs contract ≡ ok built.token
  pub router : to_checksum_address libs (memo_or_empty quote.router) ≡ ok built.router
  pub vault : to_checksum_address libs quote.inbound_address ≡ ok built.vault
  pub amount : token_native request.amount decimals ≡ ok built.native_amount
  pub memo : built.memo ≡ memo_or_empty quote.memo
  pub expiry : built.expiry ≡ quote.expiry

-- The two transactions of a token swap, and their calldata.
pub record IsTokenPair (libs : EthLibs) (args : EthArgs) (built : EthTokenBuiltSwap libs.Key)
    : Type 0 where
  pub approve : Str
  pub deposit : Str
  pub approve_encoded : encode_approve libs built.router built.native_amount ≡ ok approve
  pub deposit_encoded :
      encode_deposit libs built.vault built.token built.native_amount built.memo built.expiry
      ≡ ok deposit
  pub approve_tx :
      (nonce : ℤ) × (built.approve_tx ≡ token_tx args nonce built.token approve_gas approve)
  pub deposit_tx :
      (nonce : ℤ) × (built.deposit_tx ≡ token_tx args nonce built.router token_deposit_gas deposit)

module _ (libs : EthLibs) (self : EthAdapter) where
  open libs use {Key}

  pub build_token_swap-fields :
      (args : EthArgs) (request : SwapRequest) (quote : Quote) (decimals : ℤ)
      (built : EthTokenBuiltSwap Key)
      → build_token_swap libs self args request quote decimals ≡ ok built
      → IsBuiltFor libs quote request decimals built × IsTokenPair libs args built
  unfolding build_token_swap
  build_token_swap-fields args request quote d built h =
      let (account, derived, h1) =
        >>=-eq-ok (account_of libs self args.mnemonic default_eth_derivation) _ h in
      let (token, checked, h2) =
        >>=-eq-ok (token_of request.from_asset >>= to_checksum_address libs) _ h1 in
      let (contract, named, is_token) = >>=-eq-ok (token_of request.from_asset) _ checked in
      let (router, is_router, h3) =
        >>=-eq-ok (to_checksum_address libs (memo_or_empty quote.router)) _ h2 in
      let (vault, is_vault, h4) = >>=-eq-ok (to_checksum_address libs quote.inbound_address) _ h3 in
      let (native, is_native, h5) = >>=-eq-ok (token_native request.amount d) _ h4 in
      let (approve, approved, h6) = >>=-eq-ok (encode_approve libs router native) _ h5 in
      let (deposit, deposited, h7) =
        >>=-eq-ok (encode_deposit libs vault token native (memo_or_empty quote.memo) quote.expiry) _
          h6 in
      let whole = ok_inj h7 in
      subst (λ b. IsBuiltFor libs quote request d b × IsTokenPair libs args b) whole
        (
          record {
            contract = contract;
            named = named;
            token = is_token;
            router = is_router;
            vault = is_vault;
            amount = is_native;
            memo = refl;
            expiry = refl;
          },
          record {
            approve = approve;
            deposit = deposit;
            approve_encoded = approved;
            deposit_encoded = deposited;
            approve_tx = (args.nonce, refl);
            deposit_tx = (args.nonce +ℤ pos 1, refl);
          },
        )

abbrev approve_bytes : Bytes
approve_bytes = 0x09 ∷ 0x5E ∷ 0xA7 ∷ 0xB3 ∷ []

approve_bytes-IsByte : All IsByte approve_bytes
approve_bytes-IsByte = (omega arith, (omega arith, (omega arith, (omega arith, tt))))

abbrev deposit_bytes : Bytes
deposit_bytes = 0x44 ∷ 0xBC ∷ 0x93 ∷ 0x7B ∷ []

deposit_bytes-IsByte : All IsByte deposit_bytes
deposit_bytes-IsByte = (omega arith, (omega arith, (omega arith, (omega arith, tt))))

module _ (libs : EthLibs) (laws : Documented libs) (args : EthArgs)
    (built : EthTokenBuiltSwap libs.Key) (pair : IsTokenPair libs args built) where
  module _ (router_0x : Begins (text "0x") built.router) (vault_0x : Begins (text "0x") built.vault)
      (token_0x : Begins (text "0x") built.token) where
    approval_read :
        Approves built.router built.native_amount
          (decode_call libs built.approve_tx.calldata approve_selector amount_types)
    unfolding encode_approve hex
    approval_read =
        let (read, decoded, same) =
          decode_call-encode_call libs laws approve_bytes amount_types _ pair.approve refl
            approve_bytes-IsByte pair.approve_encoded in
        let calldata : built.approve_tx.calldata ≡ pair.approve =
          ap (λ t. t.calldata) pair.approve_tx.1 in
        subst (Approves built.router built.native_amount)
          (sym decoded ∙ ap (λ c. decode_call libs c approve_selector amount_types) (sym calldata))
          (reads_approval built.router built.native_amount read router_0x same)

    deposit_read :
        Deposits built.vault built.token built.native_amount built.memo built.expiry
          (decode_call libs built.deposit_tx.calldata deposit_selector deposit_types)
    unfolding encode_deposit hex
    deposit_read =
        let (read, decoded, same) =
          decode_call-encode_call libs laws deposit_bytes deposit_types _ pair.deposit refl
            deposit_bytes-IsByte pair.deposit_encoded in
        let calldata : built.deposit_tx.calldata ≡ pair.deposit =
          ap (λ t. t.calldata) pair.deposit_tx.1 in
        subst (Deposits built.vault built.token built.native_amount built.memo built.expiry)
          (sym decoded ∙ ap (λ c. decode_call libs c deposit_selector deposit_types) (sym calldata))
          (reads_deposit built.vault built.token built.native_amount built.memo built.expiry read
            vault_0x token_0x same)

    -- The gate of the pair that was built leaves the time, the memo's destination and the fee to check.
    verify_eth_token_swap-pair :
        (destination : Str) (now max_fee_wei : ℤ)
        → (verify_eth_token_swap libs built destination now max_fee_wei ≡ [])
          ↔ ((now <ℤ built.expiry) × Pays destination built.memo × (token_fee built ≤ℤ max_fee_wei))
    verify_eth_token_swap-pair destination now max_fee_wei =
        let gate = verify_eth_token_swap_iff libs built destination now max_fee_wei in
        (
          λ h. let safe = gate.0 h in (safe.in_time, safe.pays, safe.fee),
          λ a. gate.1 (record {
            in_time = a.0;
            approves_token = ap (λ t. lower t.to) pair.approve_tx.1;
            calls_router = ap (λ t. lower t.to) pair.deposit_tx.1;
            no_value = (ap (λ t. t.value) pair.approve_tx.1, ap (λ t. t.value) pair.deposit_tx.1);
            chain =
                (ap (λ t. t.chain_id) pair.approve_tx.1, ap (λ t. t.chain_id) pair.deposit_tx.1);
            approval = approval_read;
            deposit = deposit_read;
            pays = a.1;
            fee = a.2;
          }),
        )

module _ (libs : EthLibs) (laws : Documented libs) (self : EthAdapter) where
  -- For a token swap that was built: the calldata decodes to what was meant, so that the gate reports
  -- no problem exactly when the quote has not expired, its memo pays the destination, and the maximal
  -- fees of the two transactions lie within the cap.
  pub verify_eth_token_swap-build_token_swap :
      (args : EthArgs) (request : SwapRequest) (quote : Quote) (decimals now : ℤ)
      (built : EthTokenBuiltSwap libs.Key)
      → build_token_swap libs self args request quote decimals ≡ ok built
      → (verify_eth_token_swap libs built request.destination now args.max_fee_wei ≡ []) ↔ (
          (now <ℤ quote.expiry)
          × Pays request.destination (memo_or_empty quote.memo)
          × (token_fee built ≤ℤ args.max_fee_wei))
  verify_eth_token_swap-build_token_swap args request quote decimals now built h =
      let (meant, pair) = build_token_swap-fields libs self args request quote decimals built h in
      let verdict =
        verify_eth_token_swap-pair libs laws args built pair
          (to_checksum_address-Begins libs _ _ meant.router)
          (to_checksum_address-Begins libs _ _ meant.vault)
          (to_checksum_address-Begins libs _ _ meant.token) request.destination now
          args.max_fee_wei in
      rw (← meant.expiry, ← meant.memo) verdict
