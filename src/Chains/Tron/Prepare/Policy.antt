-- ===== src/Chains/Tron/Prepare/Policy.antt =====
-- The policy that the gates of the TRON adapter enforce.
use cryptoswap_wallet.Common.{
  ◌<ℤ◌, ℤ, Str, true, false, [], some, ◌≡◌, ◌⊎◌, inl, inr, ap, ◌∙◌, subst, text, is_in, Bool-cases,
}
use cryptoswap_wallet.Result.{ok, ok_inj, >>=-eq-ok}
use cryptoswap_wallet.Thorchain.Types.{Quote}
use cryptoswap_wallet.Swap.Types.{SwapRequest, Prepared}
use cryptoswap_wallet.Swap.Safety.{Enforces}
use cryptoswap_wallet.Verify.Tron.{verify_tron_swap, verify_tron_token_swap}
use cryptoswap_wallet.Verify.Tron.Spec.{verify_tron_swap_iff, verify_tron_token_swap_iff}
use cryptoswap_wallet.Verify.Memo.{Pays}
use cryptoswap_wallet.Chains.Btc.{memo_or_empty}
use cryptoswap_wallet.Chains.Tron.Types.{
  TronLibs, CallsTransfer, BuiltTronTx, TronAdapter, TronPlan, default_tron_derivation,
  default_trc20_fee_limit_sun,
}
use cryptoswap_wallet.Chains.Tron.Amounts.{to_sun, to_token_native, token_contract_and_decimals}
use cryptoswap_wallet.Chains.Tron.Build.{
  decode_trc20_transfer, build_unsigned_transfer, build_unsigned_trc20_transfer,
}
use cryptoswap_wallet.Chains.Tron.Prepare.{
  native_fields, token_fields, build_and_verify_transfer, build_and_verify_token, build_and_verify,
  tron_source,
}
use cryptoswap_wallet.Chains.Tron.Prepare.Laws.{native_plan, token_plan}
use cryptoswap_wallet.Chains.Tron.Prepare.Reads.{
  Carries, read_memo-Carries, decode_trc20_transfer-calls, call_eq,
  build_unsigned_transfer-ReadsTransfer, build_unsigned_trc20_transfer-ReadsCall,
}

module _ (libs : TronLibs) where
  open libs use {PrivateKey, Tx}

  -- The transaction is a native transfer of exactly the amount, in sun, to the quoted vault, with the
  -- quoted memo, which pays the destination of the request, before the expiry.
  pub record IsNativeSwap (quote : Quote) (request : SwapRequest) (now : ℤ) (tx : Tx) : Type 0 where
    pub sun : ℤ
    pub converted : to_sun request.amount ≡ ok sun
    pub contract_type : libs.contract_type tx ≡ text "TransferContract"
    pub pays : libs.to_base58check_address (libs.paid_to tx) ≡ ok quote.inbound_address
    pub amount : libs.paid_amount tx ≡ sun
    pub memo : Carries (memo_or_empty quote.memo) (libs.memo_data tx)
    pub in_time : now <ℤ quote.expiry
    pub destination : Pays request.destination (memo_or_empty quote.memo)

  -- The transaction is a call of the asset's contract, whose calldata is a transfer of exactly the
  -- amount, in the token's unit, to the quoted vault, with the quoted memo, which pays the
  -- destination of the request, before the expiry.
  pub record IsTokenSwap (quote : Quote) (request : SwapRequest) (now : ℤ) (tx : Tx) : Type 0 where
    pub token : Str × ℤ
    pub named : token_contract_and_decimals request.from_asset ≡ ok token
    pub native : ℤ
    pub converted : to_token_native request.amount token.1 ≡ ok native
    pub contract_type : libs.contract_type tx ≡ text "TriggerSmartContract"
    pub calls : libs.to_base58check_address (libs.called tx) ≡ ok token.0
    pub transfers : CallsTransfer libs (libs.call_data tx) quote.inbound_address native
    pub memo : Carries (memo_or_empty quote.memo) (libs.memo_data tx)
    pub in_time : now <ℤ quote.expiry
    pub destination : Pays request.destination (memo_or_empty quote.memo)

  abbrev pub TronPolicy : Quote → SwapRequest → ℤ → Str → BuiltTronTx PrivateKey Tx → Type 0
  TronPolicy quote request now mnemonic built =
      ((is_in (text "-") request.from_asset ≡ false) × IsNativeSwap quote request now built.tx)
      ⊎ ((is_in (text "-") request.from_asset ≡ true) × IsTokenSwap quote request now built.tx)

module _ (libs : TronLibs) (self : TronAdapter) where
  open libs use {PrivateKey, Tx}

  transfer-IsNativeSwap :
      (quote : Quote) (request : SwapRequest) (now : ℤ) (mnemonic : Str) (sun : ℤ)
      (p : Prepared (BuiltTronTx PrivateKey Tx) TronPlan)
      → to_sun request.amount ≡ ok sun
      → build_and_verify_transfer libs self quote.inbound_address sun
          (memo_or_empty quote.memo)
          quote.expiry
          request.destination
          now
          mnemonic
          (some quote)
        ≡ ok p
      → p.problems ≡ []
      → IsNativeSwap libs quote request now p.built.tx
  unfolding build_and_verify_transfer
  transfer-IsNativeSwap quote request now mnemonic sun p converted h none_found =
      let memo = memo_or_empty quote.memo in
      let (built, was_built, h1) =
        >>=-eq-ok
          (build_unsigned_transfer libs self mnemonic quote.inbound_address sun memo
            default_tron_derivation)
          _ h in
      let plan = native_plan quote.inbound_address sun memo quote.expiry request.destination in
      let nothing : verify_tron_swap (native_fields built) plan now ≡ [] =
        ap (λ x. x.problems) (ok_inj h1) ∙ none_found in
      let safe = (verify_tron_swap_iff (native_fields built) plan now).0 nothing in
      let reads =
        build_unsigned_transfer-ReadsTransfer libs self mnemonic quote.inbound_address sun memo
          default_tron_derivation built was_built in
      subst (IsNativeSwap libs quote request now) (ap (λ x. x.built.tx) (ok_inj h1)) (record {
        sun = sun;
        converted = converted;
        contract_type = reads.kind ∙ safe.contract_type;
        pays = reads.paid ∙ ap ok safe.pays;
        amount = reads.amount ∙ safe.amount;
        memo = read_memo-Carries _ memo (reads.memo ∙ ap ok safe.memo);
        in_time = safe.in_time;
        destination = safe.destination;
      })

  token-IsTokenSwap :
      (quote : Quote) (request : SwapRequest) (now : ℤ) (mnemonic : Str)
      (p : Prepared (BuiltTronTx PrivateKey Tx) TronPlan)
      → build_and_verify_token libs self quote request now mnemonic ≡ ok p
      → p.problems ≡ []
      → IsTokenSwap libs quote request now p.built.tx
  unfolding build_and_verify_token
  token-IsTokenSwap quote request now mnemonic p h none_found =
      let memo = memo_or_empty quote.memo in
      let (token, found, h1) = >>=-eq-ok (token_contract_and_decimals request.from_asset) _ h in
      let (native, converted, h2) = >>=-eq-ok (to_token_native request.amount token.1) _ h1 in
      let (built, was_built, h3) =
        >>=-eq-ok
          (build_unsigned_trc20_transfer libs self mnemonic token.0 quote.inbound_address native
            memo default_trc20_fee_limit_sun default_tron_derivation)
          _ h2 in
      let (call, decoded, h4) = >>=-eq-ok (decode_trc20_transfer libs built.call_data) _ h3 in
      let plan =
        token_plan quote.inbound_address token.0 native memo quote.expiry request.destination in
      let nothing : verify_tron_token_swap (token_fields built call) plan now ≡ [] =
        ap (λ x. x.problems) (ok_inj h4) ∙ none_found in
      let safe = (verify_tron_token_swap_iff (token_fields built call) plan now).0 nothing in
      let reads =
        build_unsigned_trc20_transfer-ReadsCall libs self mnemonic token.0 quote.inbound_address
          native memo default_trc20_fee_limit_sun default_tron_derivation built was_built in
      let transfers = decode_trc20_transfer-calls libs built.call_data call decoded in
      subst (IsTokenSwap libs quote request now) (ap (λ x. x.built.tx) (ok_inj h4)) (record {
        token = token;
        named = found;
        native = native;
        converted = converted;
        contract_type = reads.kind ∙ safe.contract_type;
        calls = reads.called ∙ ap ok safe.token;
        transfers = call_eq libs reads.calldata safe.pays safe.amount transfers;
        memo = read_memo-Carries _ memo (reads.memo ∙ ap ok safe.memo);
        in_time = safe.in_time;
        destination = safe.destination;
      })

  -- When the TRON adapter builds a swap without a problem, the transaction that it built to be signed
  -- is a native transfer of exactly the amount to the quoted vault with the quoted memo, or, for a
  -- token, a call of the asset's contract whose calldata is decoded to such a transfer; the memo pays
  -- the destination of the request, and it is before the expiry.
  pub tron_source-Enforces : Enforces (tron_source libs self) (TronPolicy libs)
  unfolding build_and_verify
  tron_source-Enforces quote request now mnemonic p h none_found =
      elim (Bool-cases (is_in (text "-") request.from_asset)) [
        | inl token ↦
            inr (token, token-IsTokenSwap quote request now mnemonic p (rw token at h) none_found)
        | inr native ↦
            let (sun, converted, built) = >>=-eq-ok (to_sun request.amount) _ (rw native at h) in
            inl (
              native,
              transfer-IsNativeSwap quote request now mnemonic sun p converted built none_found,
            )
      ]
