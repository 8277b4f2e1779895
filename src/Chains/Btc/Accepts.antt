-- ===== src/Chains/Btc/Accepts.antt =====
-- When the gate accepts the swap that `build_and_verify` builds.
use cryptoswap_wallet.Common.{
  ℤ, pos, ◌<ℤ◌, ◌≤ℤ◌, ◌≤◌, Str, Bytes, true, List, [], ◌∷◌, Option, none, some, ◌≡◌, ◌≢◌, ◌↔◌, inl,
  inr, refl, sym, ap, ◌∙◌, length, ltb_ℤ, ltb_ℤ_iff, Bool-cases, decode_utf8, encode_utf8,
  decode-encode, contains, All, str_eq_refl,
}
use cryptoswap_wallet.Result.{Result, Error, unicode_encode_error, or_raise, ok, >>=-eq-ok, ok_inj}
use cryptoswap_wallet.Verify.Types.{TxOutput, SwapPlan}
use cryptoswap_wallet.Verify.Memo.{Pays}
use cryptoswap_wallet.Verify.Btc.{verify_btc_swap}
use cryptoswap_wallet.Verify.Btc.Safe.{PaysOnce, CarriesMemo, ReturnsChange}
use cryptoswap_wallet.Verify.Btc.Spec.{verify_btc_swap_iff}
use cryptoswap_wallet.Swap.Types.{SwapRequest, Prepared}
use cryptoswap_wallet.Thorchain.Types.{Quote}
use cryptoswap_wallet.Chains.Coins.{Selection}
use cryptoswap_wallet.Chains.Btc.Types.{Bitcoinlib, KeepsOutputs, BuiltSwap, BtcAdapter, BtcArgs}
use cryptoswap_wallet.Chains.Btc.{
  choose, build_unsigned_swap, build_and_verify, build_args, memo_or_empty, owned_addresses,
  or_else,
}
use cryptoswap_wallet.Chains.Btc.Outputs.{swap_outputs, build_unsigned_swap-outputs}

-- What is left to check of a transaction that was built for a plan.
abbrev pub Acceptable : Str → Str → Str → ℤ → ℤ → ℤ → ℤ → ℤ → Str → Type 0
Acceptable destination memo vault expiry now fee max_fee change address =
    now <ℤ expiry
    × Pays destination memo
    × pos 0 ≤ℤ fee
    × fee ≤ℤ max_fee
    × (pos 0 <ℤ change → address ≢ vault)

module _ (plan : SwapPlan) (owned : List Str) (bytes : Bytes) (change : ℤ) (address : Str)
    (fits : length bytes ≤ 80) (decodes : decode_utf8 bytes ≡ some plan.memo)
    (is_owned : contains owned address ≡ true) where
  abbrev outs : List TxOutput
  outs = swap_outputs plan.amount plan.inbound_address (some plan.memo) bytes change address

  abbrev pay : TxOutput
  pay = record { address = some plan.inbound_address; value = plan.amount; op_return_data = none }

  abbrev note : TxOutput
  note = record { address = none; value = pos 0; op_return_data = some bytes }

  swap_outputs-payment :
      PaysOnce plan.inbound_address plan.amount outs
      ↔ (pos 0 <ℤ change → address ≢ plan.inbound_address)
  swap_outputs-payment = elim (Bool-cases (ltb_ℤ (pos 0) change)) [
    | inl some_change ↦ rw some_change (
      λ h some' same. elim h.1 [ inl sole ↦ sole.2.1.0 (ap some same) | inr other ↦ other.0 refl ],
      λ h. (
        pay,
        inl (
          refl,
          refl,
          (λ e. cc e, (λ e. h ((ltb_ℤ_iff (pos 0) change).0 some_change) (cc e), tt)),
        ),
        refl,
      ),
    )
    | inr no_change ↦ rw no_change (
      λ h positive. cc (no_change, (ltb_ℤ_iff (pos 0) change).1 positive),
      λ h. (pay, inl (refl, refl, (λ e. cc e, tt)), refl),
    )
  ]

  swap_outputs-memo : CarriesMemo plan.memo outs
  swap_outputs-memo = elim (Bool-cases (ltb_ℤ (pos 0) change)) [
    | inl some_change ↦ rw some_change (
      note,
      inr (λ h. cc (h.1), inl (refl, (bytes, refl), (λ h. cc (h.1), tt))),
      bytes,
      refl,
      fits,
      decodes,
    )
    | inr no_change ↦
        rw no_change
          (note, inr (λ h. cc (h.1), inl (refl, (bytes, refl), tt)), bytes, refl, fits, decodes)
  ]

  swap_outputs-change : All (ReturnsChange plan.inbound_address owned) outs
  swap_outputs-change = elim (Bool-cases (ltb_ℤ (pos 0) change)) [
    | inl some_change ↦
        rw some_change
          (λ _ other. absurd (other refl), (λ e. cc e, (λ _ _. (address, refl, is_owned), tt)))
    | inr no_change ↦ rw no_change (λ _ other. absurd (other refl), (λ e. cc e, tt))
  ]

  verify_btc_swap-swap_outputs :
      (fee now max_fee : ℤ)
      → (verify_btc_swap outs fee plan owned now max_fee ≡ [])
        ↔ Acceptable plan.destination plan.memo plan.inbound_address plan.expiry now fee max_fee
            change address
  verify_btc_swap-swap_outputs fee now max_fee = (
    λ h.
        let safe = (verify_btc_swap_iff outs fee plan owned now max_fee).0 h in
        (
          safe.in_time,
          safe.destination,
          safe.fee_lower,
          safe.fee_upper,
          swap_outputs-payment.0 safe.payment,
        ),
    λ h. (verify_btc_swap_iff outs fee plan owned now max_fee).1 (record {
      in_time = h.0;
      payment = swap_outputs-payment.1 h.4;
      memo = swap_outputs-memo;
      change = swap_outputs-change;
      destination = h.1;
      fee_lower = h.2;
      fee_upper = h.3;
    }),
  )

owned_in : (address : Str) (addresses : List Str) → contains (address ∷ addresses) address ≡ true
unfolding contains
owned_in address addresses = rw (str_eq_refl address) refl

same_verdict :
    {outputs outputs' : List TxOutput} {fee fee' : ℤ}
    → outputs ≡ outputs'
    → fee ≡ fee'
    → (plan : SwapPlan) (owned : List Str) (now max_fee : ℤ)
    → verify_btc_swap outputs fee plan owned now max_fee
      ≡ verify_btc_swap outputs' fee' plan owned now max_fee
same_verdict o f plan owned now max_fee = cc (o, f)

or_else-eq-ok :
    (s : Str) (other : Result Str) {t : Str} → s ≢ [] → or_else (some s) other ≡ ok t → s ≡ t
or_else-eq-ok [] other named h = absurd (named refl)
or_else-eq-ok (c ∷ s) other named h = ok_inj h

or_raise-eq-ok : {A : Type 0} (o : Option A) (e : Error) {a : A} → or_raise o e ≡ ok a → o ≡ some a
or_raise-eq-ok none e h = cc h
or_raise-eq-ok (some b) e h = ap some (ok_inj h)

-- The plan of `build_and_verify`.
abbrev pub swap_plan : Quote → SwapRequest → Str → SwapPlan
swap_plan quote request memo = record {
  inbound_address = quote.inbound_address;
  amount = request.amount;
  memo = memo;
  expiry = quote.expiry;
  destination = request.destination;
}

module _ (lib : Bitcoinlib) (laws : KeepsOutputs lib) where
  open lib use {Tx, HdKey}

  -- The gate finds no problem in the swap that is built exactly when the quote has not expired, its
  -- memo pays the destination, the fee of the selection is neither negative nor above the cap, and
  -- the vault is not the change address of a selection with change. This holds whenever the swap is
  -- built, with a change address and a library that keeps the outputs it is given.
  pub build_and_verify-accepts :
      (self : BtcAdapter) (quote : Quote) (request : SwapRequest) (now : ℤ) (args : BtcArgs)
      (p : Prepared (BuiltSwap HdKey Tx) SwapPlan)
      → args.change_address ≢ []
      → build_and_verify lib self quote request now args ≡ ok p
      → (bytes : Bytes) × (sel : Selection) × (encode_utf8 (memo_or_empty quote.memo) ≡ some bytes)
        × (choose args.sweep args.scanned_utxos request.amount args.fee_rate bytes ≡ ok sel)
        × ((p.problems ≡ [])
            ↔ Acceptable request.destination
                (memo_or_empty quote.memo)
                quote.inbound_address
                quote.expiry
                now
                sel.fee
                args.max_fee
                sel.change
                args.change_address)
  unfolding build_and_verify
  build_and_verify-accepts self quote request now args p named h =
      let memo = memo_or_empty quote.memo in
      let built =
        >>=-eq-ok
          (build_unsigned_swap lib self (build_args args) quote.inbound_address request.amount
            (some memo))
          _ h in
      let (bytes, sel, encoded, chosen, fee, outputs, change, room) =
        build_unsigned_swap-outputs lib laws self (build_args args) quote.inbound_address
          request.amount (some memo) built.0 built.1 in
      let text_bytes = or_raise-eq-ok (encode_utf8 memo) unicode_encode_error encoded in
      let to = or_else-eq-ok args.change_address _ named change in
      let plan = swap_plan quote request memo in
      let owned = owned_addresses args.change_address args.scanned_utxos in
      let outputs' =
        outputs
        ∙ ap (λ a. swap_outputs request.amount quote.inbound_address (some memo) bytes sel.change a)
            (sym to) in
      let found =
        ap (λ x. x.problems) (sym (ok_inj built.2))
        ∙ same_verdict outputs' fee plan owned now args.max_fee in
      let verdict =
        verify_btc_swap-swap_outputs plan owned bytes sel.change args.change_address room
          (decode-encode memo text_bytes) (owned_in args.change_address _) sel.fee now
          args.max_fee in
      (
        bytes,
        sel,
        text_bytes,
        chosen,
        (λ none_found. verdict.0 (sym found ∙ none_found), λ ok'. found ∙ verdict.1 ok'),
      )
