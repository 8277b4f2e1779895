-- ===== src/Chains/Btc/Broadcast.antt =====
-- What the Bitcoin adapter signs, and what reaches the network through `execute_swap`.
use cryptoswap_wallet.Common.{
  ℤ, Str, Bool, true, not, List, [], ◌∷◌, Option, some, ◌≡◌, ◌↔◌, refl, sym, ap, ◌∙◌, subst, arith,
  All, text,
}
use cryptoswap_wallet.Result.{Result, ok, >>=-eq-ok, raise_if-eq-ok, bind_ok, ok_inj}
use cryptoswap_wallet.Verify.Types.{SwapPlan, not-false_iff}
use cryptoswap_wallet.Verify.Btc.Safe.{IsSafeSwap}
use cryptoswap_wallet.Verify.Btc.Spec.{verify_btc_swap_iff}
use cryptoswap_wallet.Thorchain.Types.{Quote}
use cryptoswap_wallet.Swap.Types.{SwapRequest, Prepared, SwapSource, ThorchainLike}
use cryptoswap_wallet.Swap.Prepare.{prepare_swap}
use cryptoswap_wallet.Swap.Prepare.Laws.{swap_args}
use cryptoswap_wallet.Swap.Execute.{execute_swap}
use cryptoswap_wallet.Swap.Safety.{Enforces, execute_swap-Safe}
use cryptoswap_wallet.Chains.Btc.Types.{Bitcoinlib, BuiltSwap, BtcAdapter, BtcArgs}
use cryptoswap_wallet.Chains.Btc.{
  sign, all_signed, build_unsigned_swap, build_and_verify, build_and_verify_deposit, build_args,
  memo_or_empty, owned_addresses,
}
use cryptoswap_wallet.Chains.Btc.Accepts.{swap_plan}

all_signed_iff : (signed : List Bool) → (all_signed signed ≡ true) ↔ All (λ b. b ≡ true) signed
unfolding all_signed
all_signed_iff [] = (λ _. tt, λ _. refl)
all_signed_iff (b ∷ bs) = ground (arith, all_signed_iff bs)

module _ (lib : Bitcoinlib) where
  open lib use {Tx, HdKey}

  -- Signing gives transactions exactly when the library signs, every input then has signatures and
  -- the library verifies the transaction; it gives the one raw transaction.
  pub sign_iff :
      (built : BuiltSwap HdKey Tx) (raws : List Str)
      → (sign lib built ≡ ok raws) ↔ (
          (tx : Tx) × (lib.sign built.tx built.keys ≡ ok tx)
          × All (λ b. b ≡ true) (lib.signatures tx)
          × (lib.verify tx ≡ true)
          × (raws ≡ lib.raw_hex tx ∷ []))
  unfolding sign
  sign_iff built raws = (
    λ h.
        let (tx, signed, rest) = >>=-eq-ok (lib.sign built.tx built.keys) _ h in
        let (complete, rest') = raise_if-eq-ok (not (all_signed (lib.signatures tx))) _ _ rest in
        let (valid, done) = raise_if-eq-ok (not (lib.verify tx)) _ _ rest' in
        (
          tx,
          signed,
          (all_signed_iff (lib.signatures tx)).0 ((not-false_iff _).0 complete),
          (not-false_iff (lib.verify tx)).0 valid,
          sym (ok_inj done),
        ),
    λ h.
        let (tx, signed, complete, valid, raw) = h in
        bind_ok (lib.sign built.tx built.keys) _ signed
          (rw ((all_signed_iff (lib.signatures tx)).1 complete, valid, raw) refl),
  )

  -- The adapter as `prepare_swap` and `execute_swap` take it; `broadcast` posts the transactions.
  abbrev pub btc_source : BtcAdapter → (List Str → Result Str) → SwapSource
  btc_source self broadcast = record {
    Built = BuiltSwap HdKey Tx;
    Plan = SwapPlan;
    Args = BtcArgs;
    Raw = Str;
    chain = text "BTC";
    build_and_verify = build_and_verify lib self;
    build_and_verify_deposit = build_and_verify_deposit lib self;
    sign = sign lib;
    broadcast = broadcast;
  }

  -- A swap that pays the quoted vault, as the plan for the quote and the request has it.
  abbrev pub BtcPolicy : Quote → SwapRequest → ℤ → BtcArgs → BuiltSwap HdKey Tx → Type 0
  BtcPolicy quote request now args built =
      IsSafeSwap built.outputs built.fee (swap_plan quote request (memo_or_empty quote.memo))
        (owned_addresses args.change_address args.scanned_utxos) now args.max_fee

  -- What the Bitcoin adapter builds without a problem pays the quoted vault exactly once, carries
  -- the quoted memo, returns change to owned addresses only, pays the destination of the request,
  -- keeps the fee within its cap and comes before the expiry: the gate enforces its policy.
  pub btc_source-Enforces :
      (self : BtcAdapter) (broadcast : List Str → Result Str)
      → Enforces (btc_source self broadcast) BtcPolicy
  unfolding build_and_verify
  btc_source-Enforces self broadcast quote request now args p built none_found =
      let plan = swap_plan quote request (memo_or_empty quote.memo) in
      let owned = owned_addresses args.change_address args.scanned_utxos in
      let made =
        >>=-eq-ok
          (build_unsigned_swap lib self (build_args args) quote.inbound_address request.amount
            (some (memo_or_empty quote.memo)))
          _ built in
      subst (λ b. IsSafeSwap b.outputs b.fee plan owned now args.max_fee)
        (ap (λ x. x.built) (ok_inj made.2))
        ((verify_btc_swap_iff made.0.outputs made.0.fee plan owned now args.max_fee).0
          (ap (λ x. x.problems) (ok_inj made.2) ∙ none_found))

  same_policy :
      (quote : Quote) (request : SwapRequest) (now : ℤ) (args : BtcArgs)
      (built : BuiltSwap HdKey Tx) {memo : Str}
      → quote.memo ≡ some memo
      → BtcPolicy quote request now args built
      → IsSafeSwap built.outputs built.fee
          (swap_plan quote request memo)
          (owned_addresses args.change_address args.scanned_utxos)
          now
          args.max_fee
  same_policy quote request now args built named safe =
      subst
        (λ m.
          IsSafeSwap built.outputs built.fee (swap_plan quote request m)
            (owned_addresses args.change_address args.scanned_utxos) now args.max_fee)
        (ap memo_or_empty named) safe

  -- If a swap of the Bitcoin adapter is prepared, and executing it gives transactions to the
  -- network, then they are the signed transaction that was built, the call was confirmed, and the
  -- built outputs and fee are a safe swap for a quote of the network that was asked for exactly this
  -- request: paid once to the quoted vault, with the quoted memo, change to owned addresses only,
  -- the fee within its cap, and the quote not expired.
  pub execute_swap-IsSafeSwap :
      (thorchain : ThorchainLike) (self : BtcAdapter) (broadcast : List Str → Result Str)
      (request : SwapRequest) (now tolerance_bps : ℤ) (interval quantity : Option ℤ)
      (args : BtcArgs) (p : Prepared (BuiltSwap HdKey Tx) SwapPlan) (confirm : Bool)
      (raws : List Str)
      → prepare_swap thorchain
          (btc_source self broadcast)
          request
          now
          tolerance_bps
          interval
          quantity
          args
        ≡ ok p
      → (execute_swap (btc_source self broadcast) p confirm).sends ≡ some raws
      → (confirm ≡ true)
        × (sign lib p.built ≡ ok raws)
        × ((quote : Quote) × (memo : Str) × (quote.memo ≡ some memo)
            × (thorchain.quote_swap (swap_args request tolerance_bps interval quantity) ≡ ok quote)
            × IsSafeSwap p.built.outputs p.built.fee
                (swap_plan quote request memo)
                (owned_addresses args.change_address args.scanned_utxos)
                now
                args.max_fee)
  execute_swap-IsSafeSwap thorchain self broadcast request now tolerance interval quantity args p
        confirm raws prepared sent =
      let (confirmed, signed, (quote, memo, named, quoted, safe)) =
        execute_swap-Safe (btc_source self broadcast) BtcPolicy (btc_source-Enforces self broadcast)
          thorchain request now tolerance interval quantity args p confirm raws prepared sent in
      (
        confirmed,
        signed,
        (quote, memo, named, quoted, same_policy quote request now args p.built named safe),
      )
