-- ===== src/Chains/Tron/Prepare/Accepts.antt =====
-- When the gates accept the swap that the TRON adapter builds.
use cryptoswap_wallet.Common.{
  ℤ, pos, ◌<ℤ◌, Str, [], Option, some, ◌≡◌, ◌↔◌, inl, inr, refl, sym, ap, ◌∙◌, subst, text, is_in,
  str_eq, Bool-cases,
}
use cryptoswap_wallet.Result.{ok, ok_inj, >>=-eq-ok}
use cryptoswap_wallet.Thorchain.Types.{Quote}
use cryptoswap_wallet.Swap.Types.{SwapRequest, Prepared}
use cryptoswap_wallet.Verify.Memo.{Pays}
use cryptoswap_wallet.Verify.Tron.{TronTokenTx, verify_tron_swap, verify_tron_token_swap}
use cryptoswap_wallet.Verify.Tron.Spec.{verify_tron_swap_iff, verify_tron_token_swap_iff}
use cryptoswap_wallet.Chains.Btc.{memo_or_empty}
use cryptoswap_wallet.Chains.Tron.Types.{
  TronLibs, Documented, IsBase58, BuiltTronTx, TronAdapter, TronPlan, default_tron_derivation,
  default_trc20_fee_limit_sun,
}
use cryptoswap_wallet.Chains.Tron.Amounts.{to_sun, to_token_native, token_contract_and_decimals}
use cryptoswap_wallet.Chains.Tron.Build.{
  decode_trc20_transfer, build_unsigned_transfer, build_unsigned_trc20_transfer,
}
use cryptoswap_wallet.Chains.Tron.Prepare.{
  native_fields, token_fields, build_and_verify_transfer, build_and_verify_token, build_and_verify,
}
use cryptoswap_wallet.Chains.Tron.Prepare.Laws.{
  transfer_to, native_plan, token_plan, build_unsigned_transfer-fields,
  build_unsigned_trc20_transfer-fields,
}

-- The contract of the one token that the adapter knows.
abbrev pub usdt : Str
usdt = text "TR7NHqjeKQxGTCi8q8ZY4pL8otSzgjLj6t"

token_contract_and_decimals-usdt :
    (from_asset : Str) (t : Str × ℤ)
    → token_contract_and_decimals from_asset ≡ ok t
    → (usdt, pos 6) ≡ t
unfolding token_contract_and_decimals
token_contract_and_decimals-usdt from_asset t h =
    elim (Bool-cases (str_eq (text "TRON.USDT-TR7NHQJEKQXGTCI8Q8ZY4PL8OTSZGJLJ6T") from_asset)) [
      | inl e ↦ ok_inj (rw e at h)
      | inr e ↦ cc (rw e at h)
    ]

abbrev pub call_to : Str → Str → ℤ → Str → TronTokenTx
call_to token to amount memo = record {
  contract_type = text "TriggerSmartContract";
  trigger_to = token;
  recipient = to;
  transfer_amount = amount;
  trx_value = pos 0;
  memo = memo;
}

token_fields_eq :
    {PrivateKey Tx : Type 0} (built : BuiltTronTx PrivateKey Tx) (call : Str × ℤ)
    (token to memo : Str) (amount : ℤ)
    → native_fields built ≡ transfer_to (text "TriggerSmartContract") token (pos 0) memo
    → call ≡ (to, amount)
    → token_fields built call ≡ call_to token to amount memo
token_fields_eq built call token to memo amount fields same = cc (
  ap (λ t. t.contract_type) fields,
  ap (λ t. t.to_address) fields,
  ap (λ t. t.amount_sun) fields,
  ap (λ t. t.memo) fields,
  ap (λ c. c.0) same,
  ap (λ c. c.1) same,
)

module _ (libs : TronLibs) (laws : Documented libs) (self : TronAdapter) where
  open libs use {PrivateKey, Tx}

  -- The gate of a native transfer that was built for its plan.
  build_and_verify_transfer-accepts :
      (to : Str) (amount : ℤ) (memo : Str) (expiry : ℤ) (destination : Str) (now : ℤ)
      (mnemonic : Str) (quote : Option Quote) (p : Prepared (BuiltTronTx PrivateKey Tx) TronPlan)
      → IsBase58 libs to
      → build_and_verify_transfer libs self to amount memo expiry destination now mnemonic quote
        ≡ ok p
      → (p.problems ≡ []) ↔ ((now <ℤ expiry) × Pays destination memo)
  unfolding build_and_verify_transfer
  build_and_verify_transfer-accepts to amount memo expiry destination now mnemonic quote p base58
        h =
      let (built, was_built, h1) =
        >>=-eq-ok
          (build_unsigned_transfer libs self mnemonic to amount memo default_tron_derivation) _ h in
      let fields =
        build_unsigned_transfer-fields libs laws self mnemonic to amount memo
          default_tron_derivation built base58 was_built in
      let gate =
        verify_tron_swap_iff (transfer_to (text "TransferContract") to amount memo)
          (native_plan to amount memo expiry destination) now in
      subst (λ ps. (ps ≡ []) ↔ ((now <ℤ expiry) × Pays destination memo))
        (ap (λ t. verify_tron_swap t (native_plan to amount memo expiry destination) now)
            (sym fields)
          ∙ ap (λ x. x.problems) (ok_inj h1))
        (
          λ none_found. let safe = gate.0 none_found in (safe.in_time, safe.destination),
          λ a. gate.1 (record {
            in_time = a.0;
            contract_type = refl;
            pays = refl;
            amount = refl;
            memo = refl;
            destination = a.1;
          }),
        )

  build_and_verify_token-accepts :
      (quote : Quote) (request : SwapRequest) (now : ℤ) (mnemonic : Str)
      (p : Prepared (BuiltTronTx PrivateKey Tx) TronPlan)
      → IsBase58 libs usdt
      → IsBase58 libs quote.inbound_address
      → build_and_verify_token libs self quote request now mnemonic ≡ ok p
      → (p.problems ≡ [])
        ↔ ((now <ℤ quote.expiry) × Pays request.destination (memo_or_empty quote.memo))
  unfolding build_and_verify_token
  build_and_verify_token-accepts quote request now mnemonic p known base58 h =
      let memo = memo_or_empty quote.memo in
      let (token, found, h1) = >>=-eq-ok (token_contract_and_decimals request.from_asset) _ h in
      let is_usdt = token_contract_and_decimals-usdt request.from_asset token found in
      let (native, converted, h2) = >>=-eq-ok (to_token_native request.amount token.1) _ h1 in
      let (built, was_built, h3) =
        >>=-eq-ok
          (build_unsigned_trc20_transfer libs self mnemonic token.0 quote.inbound_address native
            memo default_trc20_fee_limit_sun default_tron_derivation)
          _ h2 in
      let (call, decoded, h4) = >>=-eq-ok (decode_trc20_transfer libs built.call_data) _ h3 in
      let (fields, calls) =
        build_unsigned_trc20_transfer-fields libs laws self mnemonic token.0 quote.inbound_address
          native memo default_trc20_fee_limit_sun default_tron_derivation built
          (subst (IsBase58 libs) (ap (λ t. t.0) is_usdt) known) base58 was_built in
      let plan =
        token_plan quote.inbound_address token.0 native memo quote.expiry request.destination in
      let same_call : call ≡ (quote.inbound_address, native) = ok_inj (sym decoded ∙ calls) in
      let gate =
        verify_tron_token_swap_iff (call_to token.0 quote.inbound_address native memo) plan now in
      subst (λ ps. (ps ≡ []) ↔ ((now <ℤ quote.expiry) × Pays request.destination memo))
        (ap (λ t. verify_tron_token_swap t plan now)
            (sym (
              token_fields_eq built call token.0 quote.inbound_address memo native fields
                same_call))
          ∙ ap (λ x. x.problems) (ok_inj h4))
        (
          λ none_found. let safe = gate.0 none_found in (safe.in_time, safe.destination),
          λ a. gate.1 (record {
            in_time = a.0;
            contract_type = refl;
            token = refl;
            pays = refl;
            amount = refl;
            no_trx = refl;
            memo = refl;
            destination = a.1;
          }),
        )

  -- For a vault, and the contract of the token, in base58: the gates report no problem in a swap that
  -- was built, native or of the token, exactly when the quote has not expired and its memo pays the
  -- destination.
  pub build_and_verify-Leaves :
      (quote : Quote) (request : SwapRequest) (now : ℤ) (mnemonic : Str)
      (p : Prepared (BuiltTronTx PrivateKey Tx) TronPlan)
      → IsBase58 libs usdt
      → IsBase58 libs quote.inbound_address
      → build_and_verify libs self quote request now mnemonic ≡ ok p
      → (p.problems ≡ [])
        ↔ ((now <ℤ quote.expiry) × Pays request.destination (memo_or_empty quote.memo))
  unfolding build_and_verify
  build_and_verify-Leaves quote request now mnemonic p known base58 h =
      elim (Bool-cases (is_in (text "-") request.from_asset)) [
        | inl token ↦
            build_and_verify_token-accepts quote request now mnemonic p known base58 (rw token at h)
        | inr native ↦
            let (sun, _, built) = >>=-eq-ok (to_sun request.amount) _ (rw native at h) in
            build_and_verify_transfer-accepts quote.inbound_address sun (memo_or_empty quote.memo)
              quote.expiry request.destination now mnemonic (some quote) p base58 built
      ]
