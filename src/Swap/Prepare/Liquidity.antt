-- ===== src/Swap/Prepare/Liquidity.antt =====
-- When `prepare_liquidity` returns a prepared deposit: pauses, the vault and the amount.
use cryptoswap_wallet.Common.{
  ◌⊎◌, ◌∙◌, ◌++◌, map, ap, sym, ◌==◌, ℤ, pos, ◌<ℤ◌, Str, true, false, List, [], ◌∷◌, Option, none,
  some, ◌≡◌, ◌≢◌, ◌↔◌, inl, inr, refl, text, is_empty, is_empty_iff, false_of_not, starts_with,
  leb_ℤ, leb_ℤ-false, Bool-cases, All, if◌then◌else◌, arith,
}
use cryptoswap_wallet.Result.{Result, ok, >>=-eq-ok, bind_ok}
use cryptoswap_wallet.Thorchain.Json.{Fields, num, get_or, truthy, to_int}
use cryptoswap_wallet.Thorchain.Types.{ChainStatus}
use cryptoswap_wallet.Thorchain.Parse.{lookup}
use cryptoswap_wallet.Swap.Types.{ThorchainLike, Prepared, SwapSource}
use cryptoswap_wallet.Swap.Prepare.{
  upto, dots_to_dashes, tradable_status, toggle, first_set, pause_keys, lp_deposit_pause_reason,
  pool_of_memo, refuse_paused, deposit_amount, check_open, prepare_liquidity,
}
use cryptoswap_wallet.Swap.Memos.Laws.{
  IsUpto, IsSecond, upto-IsUpto, IsUpto-upto, pool_of_memo-IsSecond, IsSecond-pool_of_memo,
}
use cryptoswap_wallet.Swap.Prepare.Laws.{IsOpen, tradable_status_iff, guarded}

IsOff : Fields → Str → Type 0
IsOff mimir key = (v : ℤ) × (toggle mimir key ≡ ok v) × v <ℤ pos 1

-- A toggle that is missing or empty, or is set to 0 or less.
abbrev pub IsUnset : Fields → Str → Type 0
IsUnset mimir key =
    (truthy (get_or key (num (pos 0)) mimir) ≡ false)
    ⊎ ((v : ℤ) × (to_int (get_or key (num (pos 0)) mimir) ≡ ok v) × v <ℤ pos 1)

zero_off : pos 0 <ℤ pos 1
zero_off = ground arith

toggle_iff : (mimir : Fields) (key : Str) → IsOff mimir key ↔ IsUnset mimir key
unfolding IsOff
toggle_iff mimir key = elim (Bool-cases (truthy (get_or key (num (pos 0)) mimir))) [
  | inl e ↦ rw e (λ h. inr h, λ h. elim h [ inl not_set ↦ cc not_set | inr set ↦ set ])
  | inr e ↦ rw e (λ h. inl refl, λ h. (pos 0, refl, zero_off))
]

first_set-eq-none :
    (mimir : Fields) (keys : List Str) → (first_set mimir keys ≡ ok none) ↔ All (IsOff mimir) keys
unfolding first_set IsOff
first_set-eq-none mimir [] = (λ _. tt, λ _. refl)
first_set-eq-none mimir (key ∷ keys) = (
  λ h.
      let read = >>=-eq-ok (toggle mimir key) _ h in
      let parts = unset_first read.0 key _ read.2 in
      ((read.0, read.1, parts.0), (first_set-eq-none mimir keys).0 parts.1),
  λ h.
      bind_ok (toggle mimir key) _ h.0.1
        (rw ((leb_ℤ-false (pos 1) h.0.0).1 h.0.2) ((first_set-eq-none mimir keys).1 h.1)),
)
  where
    unset_first :
        (v : ℤ) (k : Str) (rest : Result (Option Str))
        → (if leb_ℤ (pos 1) v then ok (some k) else rest) ≡ ok none
        → (v <ℤ pos 1) × (rest ≡ ok none)
    unset_first v k rest h = ground arith

HasName : Str → Type 0
HasName k = is_empty k ≡ false

-- A key that is reported is one of the row.
first_set-HasName :
    (mimir : Fields) (keys : List Str) (k : Str)
    → All HasName keys
    → first_set mimir keys ≡ ok (some k)
    → HasName k
unfolding first_set HasName
first_set-HasName mimir [] k named h = cc h
first_set-HasName mimir (key ∷ keys) k named h =
    let read = >>=-eq-ok (toggle mimir key) _ h in
    ground (arith, read.2, first_set-HasName mimir keys k named.1)

-- The reason is absent exactly when all toggles are unset, and otherwise names a toggle.
not_refused :
    (mimir : Fields) (pool : Str) (reason : Option Str)
    → lp_deposit_pause_reason mimir pool ≡ ok reason
    → refuse_paused reason ≡ ok tt
    → reason ≡ none
unfolding lp_deposit_pause_reason HasName
not_refused mimir pool none h r = refl
not_refused mimir pool (some k) h r =
    let named = first_set-HasName mimir (pause_keys pool) k (refl, (refl, (refl, tt))) h in
    ground arith

-- The amount that is given, or else the dust threshold of the chain.
abbrev pub IsDeposit : Option ℤ → ChainStatus → ℤ → Type 0
IsDeposit amount status deposit =
    (amount ≡ some deposit) ⊎ ((amount ≡ none) × (deposit ≡ status.dust_threshold))

deposit_amount-IsDeposit :
    (amount : Option ℤ) (status : ChainStatus)
    → IsDeposit amount status (deposit_amount amount status)
deposit_amount-IsDeposit none status = inr (refl, refl)
deposit_amount-IsDeposit (some a) status = inl refl

IsDeposit-deposit_amount :
    (amount : Option ℤ) (status : ChainStatus) (deposit : ℤ)
    → IsDeposit amount status deposit
    → deposit_amount amount status ≡ deposit
IsDeposit-deposit_amount amount status deposit (inl e) = rw e refl
IsDeposit-deposit_amount amount status deposit (inr (e, dust)) = rw e (sym dust)

module _ (thorchain : ThorchainLike) (adapter : SwapSource) where
  open adapter use {Built, Plan, Args, chain, build_and_verify_deposit}

  -- None of the three toggles of a pool is set: for all pools, for those of its chain, and its own.
  pub record DepositsOpen (pool : Str) : Type 0 where
    pub mimir : Fields
    pub fetched : thorchain.mimir ≡ ok mimir
    pub all_pools : IsUnset mimir (text "PAUSELP")
    pub pool_chain : Str
    pub is_chain : IsUpto b'.' pool pool_chain
    pub chain_pools : IsUnset mimir (text "PAUSELP" ++ pool_chain)
    pub this_pool :
        IsUnset mimir (text "PAUSELPDEPOSIT-" ++ map (λ c. if c == b'.' then b'-' else c) pool)

  dots_to_dashes-map : (s : Str) → dots_to_dashes s ≡ map (λ c. if c == b'.' then b'-' else c) s
  dots_to_dashes-map [] = refl
  dots_to_dashes-map (c ∷ s) = ap (λ l. (if c == b'.' then b'-' else c) ∷ l) (dots_to_dashes-map s)

  deposits_open :
      (pool : Str)
      → ((mimir : Fields) × (thorchain.mimir ≡ ok mimir) × All (IsOff mimir) (pause_keys pool))
        ↔ DepositsOpen pool
  deposits_open pool = (
    λ (mimir, fetched, (all_pools, (chain_pools, (this_pool, _)))). record {
      mimir = mimir;
      fetched = fetched;
      all_pools = (toggle_iff mimir _).0 all_pools;
      pool_chain = upto b'.' pool;
      is_chain = upto-IsUpto b'.' pool;
      chain_pools = (toggle_iff mimir _).0 chain_pools;
      this_pool = rw (← dots_to_dashes-map pool) ((toggle_iff mimir _).0 this_pool);
    },
    λ o. (
      o.mimir,
      o.fetched,
      (
        (toggle_iff o.mimir _).1 o.all_pools,
        (
          (toggle_iff o.mimir _).1
              (rw (IsUpto-upto b'.' pool o.pool_chain o.is_chain) (o.chain_pools)),
          ((toggle_iff o.mimir _).1 (rw (dots_to_dashes-map pool) (o.this_pool)), tt),
        ),
      ),
    ),
  )

  -- The deposits of the pool that a memo names are open.
  abbrev pub OpenFor : Str → Type 0
  OpenFor memo = (pool : Str) × IsSecond memo pool × DepositsOpen pool

  check_open_iff :
      (memo : Str)
      → (check_open thorchain adapter memo ≡ ok tt)
        ↔ (starts_with memo (text "+") ≡ true → OpenFor memo)
  unfolding check_open lp_deposit_pause_reason
  check_open_iff memo = elim (Bool-cases (starts_with memo (text "+"))) [
    | inl e ↦ rw e (
      λ h _.
          let fetched = >>=-eq-ok thorchain.mimir _ h in
          let read =
            >>=-eq-ok (lp_deposit_pause_reason fetched.0 (pool_of_memo memo)) _ fetched.2 in
          let absent = not_refused fetched.0 (pool_of_memo memo) read.0 read.1 read.2 in
          (
            pool_of_memo memo,
            pool_of_memo-IsSecond memo,
            (deposits_open (pool_of_memo memo)).0 (
              fetched.0,
              fetched.1,
              (first_set-eq-none fetched.0 (pause_keys (pool_of_memo memo))).0
                  (rw absent at (read.1)),
            ),
          ),
      λ h.
          let (pool, second, opened) = h refl in
          let same = IsSecond-pool_of_memo memo pool second in
          let (mimir, fetched, unset) = (deposits_open pool).1 opened in
          bind_ok thorchain.mimir _ fetched (
            bind_ok (first_set mimir (pause_keys (pool_of_memo memo))) refuse_paused
              (ap (λ x. first_set mimir (pause_keys x)) same
                ∙ (first_set-eq-none mimir (pause_keys pool)).1 unset)
              refl),
    )
    | inr e ↦ rw e (λ _ h. cc h, λ _. refl)
  ]

  -- A deposit is prepared exactly when the chain is listed and open for trade, it has a vault
  -- address, for a memo that begins with "+" none of the pause toggles of its pool is set, and the
  -- adapter builds and verifies the deposit to that vault, of the given amount or else of the
  -- chain's dust threshold; the result is the adapter's. The pool of a memo is the second of the
  -- parts that colons divide it into, and empty if there is one part. A toggle is set if it is 1 or
  -- more; there is one for all pools, one for the pools of the chain and one for the pool.
  pub prepare_liquidity_iff :
      (memo : Str) (amount : Option ℤ) (now : ℤ) (args : Args) (p : Prepared Built Plan)
      → (prepare_liquidity thorchain adapter memo amount now args ≡ ok p) ↔ (
          (status : ChainStatus) × IsOpen thorchain adapter status
          × (status.address ≢ [])
          × (starts_with memo (text "+") ≡ true → OpenFor memo)
          × ((deposit : ℤ) × IsDeposit amount status deposit
              × (build_and_verify_deposit status.address memo deposit now args ≡ ok p)))
  unfolding prepare_liquidity
  prepare_liquidity_iff memo amount now args p = (
    λ h.
        let fetched = >>=-eq-ok thorchain.inbound_addresses _ h in
        let listed = >>=-eq-ok (tradable_status chain (lookup chain fetched.0)) _ fetched.2 in
        let opened = (tradable_status_iff chain (lookup chain fetched.0) listed.0).0 listed.1 in
        let vault = (guarded (is_empty listed.0.address) _ _ p).0 listed.2 in
        let checked = >>=-eq-ok (check_open thorchain adapter memo) _ vault.1 in
        (
          listed.0,
          record {
            chains = fetched.0;
            fetched = fetched.1;
            listed = opened.0;
            open_for_trade = opened.1;
          },
          λ e. cc (vault.0, (is_empty_iff _).1 e),
          (check_open_iff memo).0 (checked.1),
          (deposit_amount amount listed.0, deposit_amount-IsDeposit amount listed.0, checked.2),
        ),
    λ h.
        let (status, opened, vault, unpaused, (deposit, is_deposit, built)) = h in
        bind_ok thorchain.inbound_addresses _ opened.fetched (
          bind_ok (tradable_status chain (lookup chain opened.chains)) _
            ((tradable_status_iff chain _ status).1 (opened.listed, opened.open_for_trade))
            ((guarded (is_empty status.address) _ _ p).1 (
              false_of_not (λ t. vault ((is_empty_iff _).0 t)),
              bind_ok (check_open thorchain adapter memo) _ ((check_open_iff memo).1 unpaused)
                  (rw (IsDeposit-deposit_amount amount status deposit is_deposit) built),
            ))),
  )
