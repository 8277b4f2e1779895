-- ===== src/Swap/Execute/Laws.antt =====
-- When `execute_swap` signs, broadcasts and returns.
use cryptoswap_wallet.Common.{
  Str, Bool, true, false, List, [], ◌∷◌, none, some, ◌≡◌, ◌≢◌, ◌↔◌, ◌⊎◌, inl, inr, refl, ap, sym,
  Bool-cases,
}
use cryptoswap_wallet.Result.{Result, ok, err, ok_inj}
use cryptoswap_wallet.Verify.Types.{Problem}
use cryptoswap_wallet.Swap.Types.{Prepared, safe, is_nil, SwapSource}
use cryptoswap_wallet.Swap.Execute.{SwapResult, after_sign, after_broadcast, execute_swap}

nil-cases :
    (ps : List Problem) → ((is_nil ps ≡ true) × (ps ≡ [])) ⊎ ((is_nil ps ≡ false) × (ps ≢ []))
nil-cases [] = inl (refl, refl)
nil-cases (q ∷ qs) = inr (refl, λ h. cc h)

safe-cases :
    {Built Plan : Type 0} (p : Prepared Built Plan)
    → ((safe p ≡ true) × (p.problems ≡ [])) ⊎ ((safe p ≡ false) × (p.problems ≢ []))
safe-cases p = nil-cases p.problems

module _ (adapter : SwapSource) where
  open adapter use {Built, Plan, Raw, sign, broadcast}

  after_broadcast-traces :
      (p : Prepared Built Plan) (raws : List Raw) (r : Result Str)
      → ((after_broadcast adapter p raws r).signs ≡ true)
        × ((after_broadcast adapter p raws r).sends ≡ some raws)
  after_broadcast-traces p raws (err e) = (refl, refl)
  after_broadcast-traces p raws (ok txid) = (refl, refl)

  after_sign-signs :
      (p : Prepared Built Plan) (r : Result (List Raw)) → (after_sign adapter p r).signs ≡ true
  after_sign-signs p (err e) = refl
  after_sign-signs p (ok raws) = (after_broadcast-traces p raws (broadcast raws)).0

  after_sign-sends :
      (p : Prepared Built Plan) (r : Result (List Raw)) (raws : List Raw)
      → ((after_sign adapter p r).sends ≡ some raws) ↔ (r ≡ ok raws)
  after_sign-sends p (err e) raws = (λ h. cc h, λ h. cc h)
  after_sign-sends p (ok signed) raws = (
    λ h. cc (h, (after_broadcast-traces p signed (broadcast signed)).1),
    λ h. rw (ok_inj h) ((after_broadcast-traces p raws (broadcast raws)).1),
  )

  -- The adapter is asked to sign exactly when the verification found no problem and the call is
  -- confirmed; transactions are given to it to broadcast exactly when, besides, signing gave them.
  pub execute_swap-sends :
      (p : Prepared Built Plan) (confirm : Bool) (raws : List Raw)
      → (((execute_swap adapter p confirm).signs ≡ true) ↔ ((p.problems ≡ []) × (confirm ≡ true)))
        × (((execute_swap adapter p confirm).sends ≡ some raws)
            ↔ ((p.problems ≡ []) × (confirm ≡ true) × (sign p.built ≡ ok raws)))
  unfolding execute_swap
  execute_swap-sends p confirm raws = elim (safe-cases p) [
    | inr (e, bad) ↦ rw e ((λ h. cc h, λ h. absurd (bad h.0)), (λ h. cc h, λ h. absurd (bad h.0)))
    | inl (e, good) ↦ rw e (elim (Bool-cases confirm) [
      | inr f ↦ rw f ((λ h. cc h, λ h. cc (h.1)), (λ h. cc h, λ h. cc (h.1)))
      | inl t ↦ rw t (
        (λ h. (good, refl), λ h. after_sign-signs p (sign p.built)),
        (
          λ h. (good, refl, (after_sign-sends p (sign p.built) raws).0 h),
          λ h. (after_sign-sends p (sign p.built) raws).1 h.2,
        ),
      )
    ])
  ]

  -- `execute_swap` returns exactly when the verification found no problem, and either the call is
  -- not confirmed, with a result that has no transaction id and is not broadcast, or it is
  -- confirmed and both signing and broadcasting succeed, with the id that broadcasting gave.
  pub execute_swap_iff :
      (p : Prepared Built Plan) (confirm : Bool) (r : SwapResult Built Plan)
      → ((execute_swap adapter p confirm).result ≡ ok r) ↔ (
          (p.problems ≡ [])
          × (((confirm ≡ false) × (r ≡ record { prepared = p; txid = none; broadcast = false }))
              ⊎ ((confirm ≡ true)
                  × ((raws : List Raw) × (txid : Str) × (sign p.built ≡ ok raws)
                      × (broadcast raws ≡ ok txid)
                      × (r ≡ record { prepared = p; txid = some txid; broadcast = true })))))
  unfolding execute_swap
  execute_swap_iff p confirm r = elim (safe-cases p) [
    | inr (e, bad) ↦ rw e (λ h. cc h, λ h. absurd (bad h.0))
    | inl (e, good) ↦ rw e (elim (Bool-cases confirm) [
      | inr f ↦ rw f (
        λ h. (good, inl (refl, sym (ok_inj h))),
        λ h. elim h.1 [ inl a ↦ ap ok (sym a.1) | inr b ↦ cc (b.0) ],
      )
      | inl t ↦ rw t (
        λ h. (good, inr (refl, (returned (sign p.built)).0 h)),
        λ h. elim h.1 [ inl a ↦ cc (a.0) | inr b ↦ (returned (sign p.built)).1 b.1 ],
      )
    ])
  ]
    where
      after :
          (raws : List Raw) (sent : Result Str)
          → ((after_broadcast adapter p raws sent).result ≡ ok r) ↔ (
              (txid : Str) × (sent ≡ ok txid)
              × (r ≡ record { prepared = p; txid = some txid; broadcast = true }))
      after raws (err e) = (λ h. cc h, λ h. let (t, e', eq) = h in cc e')
      after raws (ok txid) = (
        λ h. (txid, refl, sym (ok_inj h)),
        λ h. let (t, e, eq) = h in rw (ok_inj e) (ap ok (sym eq)),
      )

      returned :
          (signed : Result (List Raw))
          → ((after_sign adapter p signed).result ≡ ok r) ↔ (
              (raws : List Raw) × (txid : Str) × (signed ≡ ok raws)
              × (broadcast raws ≡ ok txid)
              × (r ≡ record { prepared = p; txid = some txid; broadcast = true }))
      returned (err e) = (λ h. cc h, λ h. let (rs, t, e', sent, eq) = h in cc e')
      returned (ok raws) = (
        λ h.
            let (txid, sent, eq) = (after raws (broadcast raws)).0 h in
            (raws, txid, refl, sent, eq),
        λ h.
            let (raws', txid, e, sent, eq) = h in
            (after raws (broadcast raws)).1 (txid, rw (ok_inj e) sent, eq),
      )
