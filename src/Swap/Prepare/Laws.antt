-- ===== src/Swap/Prepare/Laws.antt =====
-- When `prepare_swap` and `prepare_liquidity` return a prepared transaction.
use cryptoswap_wallet.Common.{
  ℤ, ◌≤ℤ◌, Str, Bool, true, false, [], Option, none, some, ◌≡◌, ◌≢◌, ◌↔◌, inl, inr, refl, ap,
  is_empty_iff, false_of_not, ltb_ℤ, ltb_ℤ-false, Bool-cases, arith,
}
use cryptoswap_wallet.Result.{Result, ok, ◌>>◌, raise_if, >>=-eq-ok, bind_ok, ok_inj, Error}
use cryptoswap_wallet.Thorchain.Types.{ChainStatus, tradable, Quote}
use cryptoswap_wallet.Thorchain.Parse.{Chains, lookup}
use cryptoswap_wallet.Swap.Types.{SwapRequest, QuoteArgs, ThorchainLike, Prepared, SwapSource}
use cryptoswap_wallet.Swap.Prepare.{
  tradable_status, rejected, lacks_memo, swap_tolerance, prepare_swap,
}

pub tradable_status_iff :
    (chain : Str) (o : Option ChainStatus) (s : ChainStatus)
    → (tradable_status chain o ≡ ok s) ↔ ((o ≡ some s) × (tradable s ≡ true))
tradable_status_iff chain none s = (λ h. cc h, λ h. cc (h.0))
tradable_status_iff chain (some t) s = elim (Bool-cases (tradable t)) [
  | inl e ↦ rw e (λ h. (ap some (ok_inj h), rw (← ok_inj h) e), λ h. cc (h.0))
  | inr e ↦ rw e (λ h. cc h, λ h. cc (e, h.0, h.1))
]

rejected_iff : (r : Result Quote) (q : Quote) → (rejected r ≡ ok q) ↔ (r ≡ ok q)
rejected_iff r q = ground arith

pub lacks_memo_iff :
    (o : Option Str) → (lacks_memo o ≡ false) ↔ ((m : Str) × (o ≡ some m) × (m ≢ []))
lacks_memo_iff none = (λ h. cc h, λ h. cc (h.1))
lacks_memo_iff (some m) = (
  λ h. (m, refl, λ e. cc (h, (is_empty_iff m).1 e)),
  λ h. false_of_not (λ t. h.2 (cc ((is_empty_iff m).0 t, h.1))),
)

pub guarded :
    {B : Type 0} (bad : Bool) (e : Error) (k : Result B) (b : B)
    → ((raise_if bad e >> k) ≡ ok b) ↔ ((bad ≡ false) × (k ≡ ok b))
guarded true e k b = (λ h. cc h, λ h. cc (h.0))
guarded false e k b = (λ h. (refl, h), λ h. h.1)

-- The arguments with which a swap is quoted: a streaming swap has no tolerance.
abbrev pub swap_args : SwapRequest → ℤ → Option ℤ → Option ℤ → QuoteArgs
swap_args request tolerance_bps streaming_interval streaming_quantity = record {
  from_asset = request.from_asset;
  to_asset = request.to_asset;
  amount = request.amount;
  destination = some request.destination;
  streaming_interval = streaming_interval;
  streaming_quantity = streaming_quantity;
  tolerance_bps = swap_tolerance streaming_interval tolerance_bps;
}

module _ (thorchain : ThorchainLike) (adapter : SwapSource) where
  open adapter use {Built, Plan, Args, chain, build_and_verify, build_and_verify_deposit}

  -- The chain is listed and open for trade.
  pub record IsOpen (status : ChainStatus) : Type 0 where
    pub chains : Chains
    pub fetched : thorchain.inbound_addresses ≡ ok chains
    pub listed : lookup chain chains ≡ some status
    pub open_for_trade : tradable status ≡ true

  -- A quote, for an amount that it recommends, with a memo.
  pub record IsQuoted (request : SwapRequest) (args : QuoteArgs) (quote : Quote) : Type 0 where
    pub quoted : thorchain.quote_swap args ≡ ok quote
    pub enough : quote.recommended_min_amount_in ≤ℤ request.amount
    pub memo : (m : Str) × (quote.memo ≡ some m) × (m ≢ [])

  -- A swap is prepared exactly when the chain is listed and open for trade, the network quotes it
  -- with the tolerance dropped for a streaming swap, the amount is not below the recommended
  -- minimum, the quote has a memo that is not empty, and the adapter builds and verifies it from
  -- that quote; the result is the adapter's.
  pub prepare_swap_iff :
      (request : SwapRequest) (now tolerance_bps : ℤ) (interval quantity : Option ℤ) (args : Args)
      (p : Prepared Built Plan)
      → (prepare_swap thorchain adapter request now tolerance_bps interval quantity args ≡ ok p) ↔ (
          (status : ChainStatus) × (quote : Quote) × IsOpen status
          × IsQuoted request (swap_args request tolerance_bps interval quantity) quote
          × (build_and_verify quote request now args ≡ ok p))
  unfolding prepare_swap
  prepare_swap_iff request now tolerance interval quantity args p = (
    λ h.
        let fetched = >>=-eq-ok thorchain.inbound_addresses _ h in
        let listed = >>=-eq-ok (tradable_status chain (lookup chain fetched.0)) _ fetched.2 in
        let opened = (tradable_status_iff chain (lookup chain fetched.0) listed.0).0 listed.1 in
        let quoted =
          >>=-eq-ok
            (rejected (thorchain.quote_swap (swap_args request tolerance interval quantity))) _
            listed.2 in
        let quote = quoted.0 in
        let enough =
          (guarded (ltb_ℤ request.amount quote.recommended_min_amount_in) _ _ p).0 quoted.2 in
        let memo = (guarded (lacks_memo quote.memo) _ _ p).0 enough.1 in
        (
          listed.0,
          quote,
          record {
            chains = fetched.0;
            fetched = fetched.1;
            listed = opened.0;
            open_for_trade = opened.1;
          },
          record {
            quoted = (rejected_iff _ quote).0 quoted.1;
            enough = (ltb_ℤ-false request.amount quote.recommended_min_amount_in).0 enough.0;
            memo = (lacks_memo_iff quote.memo).0 memo.0;
          },
          memo.1,
        ),
    λ h.
        let (status, quote, opened, quoted, built) = h in
        bind_ok thorchain.inbound_addresses _ opened.fetched (
          bind_ok (tradable_status chain (lookup chain opened.chains)) _
            ((tradable_status_iff chain _ status).1 (opened.listed, opened.open_for_trade))
            (bind_ok (rejected _) _ ((rejected_iff _ quote).1 quoted.quoted) (
              (guarded _ _ _ p).1 (
                (ltb_ℤ-false request.amount quote.recommended_min_amount_in).1 quoted.enough,
                (guarded (lacks_memo quote.memo) _ _ p).1
                    ((lacks_memo_iff quote.memo).1 quoted.memo, built),
              )))),
  )
