-- ===== src/Chains/Scan/Laws.antt =====
-- The records that a scan of a branch returns, and the windows that it takes.
use cryptoswap_wallet.Common.{
  ℕ, zero, suc, ◌+◌, ◌-◌, ◌≤◌, ◌<◌, Str, Bool, true, false, List, [], ◌∷◌, ◌++◌, Option, some, ◌≡◌,
  inl, inr, refl, ap, ◌∙◌, subst, arith, ltb, Bool-cases, if◌then◌else◌,
}
use cryptoswap_wallet.Chains.Scan.{Record, record_of, is_used, scan_window, scan_branch}

module _ {T : Type 0} (derive_address : Str → Str) (probe : Str → T) (has_history : T → Bool)
    (account : Str) (branch : ℕ) where
  abbrev pub used_at : ℕ → Bool
  used_at i = is_used derive_address probe has_history account branch i

  abbrev window_of : ℕ → ℕ → ℕ → ℕ × List (Record T)
  window_of n index gap = scan_window derive_address probe has_history account branch n index gap

  -- The used ones of `n` addresses from an index.
  abbrev pub used_among : ℕ → ℕ → List (Record T)
  used_among zero index = []
  used_among (suc n) index =
      let rest = used_among n (suc index) in
      if used_at index
      then record_of derive_address probe has_history account branch index ∷ rest
      else rest

  -- The last `gap` addresses before an index are unused.
  abbrev pub IsIdle : ℕ → ℕ → Type 0
  IsIdle index gap = (i : ℕ) → i < index → index ≤ i + gap → used_at i ≡ false

  window-found : (n index gap : ℕ) → (window_of n index gap).1 ≡ used_among n index
  unfolding scan_window
  window-found zero index gap = refl
  window-found (suc n) index gap = elim (Bool-cases (used_at index)) [
    | inl e ↦ rw e (
        ap (λ l. record_of derive_address probe has_history account branch index ∷ l)
          (window-found n (suc index) 0))
    | inr e ↦ rw e (window-found n (suc index) (suc gap))
  ]

  window-room : (n index gap : ℕ) → gap ≤ index → (window_of n index gap).0 ≤ index + n
  unfolding scan_window
  window-room zero index gap h = omega arith
  window-room (suc n) index gap h = elim (Bool-cases (used_at index)) [
    | inl e ↦ rw e (let rest = window-room n (suc index) 0 (omega arith) in omega (arith, rest))
    | inr e ↦
        rw e (let rest = window-room n (suc index) (suc gap) (omega arith) in omega (arith, rest))
  ]

  window-IsIdle :
      (n index gap : ℕ) → IsIdle index gap → IsIdle (index + n) (window_of n index gap).0
  unfolding scan_window
  window-IsIdle zero index gap idle = λ i lo hi. idle i (omega arith) (omega arith)
  window-IsIdle (suc n) index gap idle = elim (Bool-cases (used_at index)) [
    | inl e ↦ rw e (λ i lo hi.
        window-IsIdle n (suc index) 0 (λ j a b. absurd (omega arith)) i (omega arith) (omega arith))
    | inr e ↦ rw e (λ i lo hi.
        window-IsIdle n (suc index) (suc gap) (idle-suc index gap e idle) i (omega arith)
          (omega arith))
  ]
    where
      idle-suc : (k g : ℕ) → used_at k ≡ false → IsIdle k g → IsIdle (suc k) (suc g)
      idle-suc k g e h i lo hi = elim (Bool-cases (ltb i k)) [
        | inl earlier ↦ h i (ground arith) (omega arith)
        | inr here ↦ let same : k ≡ i = ground arith in subst (λ x. used_at x ≡ false) same e
      ]

  used_among-add :
      (n m index : ℕ) → used_among (n + m) index ≡ used_among n index ++ used_among m (index + n)
  used_among-add zero m index =
      let e : index + 0 ≡ index = omega arith in let f : 0 + m ≡ m = omega arith in rw (e, f) refl
  used_among-add (suc n) m index =
      let e : index + suc n ≡ suc index + n = omega arith in
      let f : suc n + m ≡ suc (n + m) = omega arith in
      elim (Bool-cases (used_at index)) [
        | inl used ↦ rw (f, used, e, used_among-add n m (suc index)) refl
        | inr unused ↦ rw (f, unused, e, used_among-add n m (suc index)) refl
      ]

  module _ (gap_limit window : ℕ) where
    abbrev branch_of : ℕ → ℕ → ℕ → Option (List (Record T))
    branch_of fuel index gap =
        scan_branch derive_address probe has_history account gap_limit window branch fuel index gap

    -- What a scan has found from an index on: the used ones of `n` addresses. The last addresses of
    -- these and of those before the index, as many as the gap limit, are all there and unused.
    abbrev pub Finds : ℕ → List (Record T) → Type 0
    Finds index found =
        (n : ℕ) × (found ≡ used_among n index)
        × (gap_limit ≤ index + n)
        × IsIdle (index + n) gap_limit

    stopped : (index gap : ℕ) → gap_limit ≤ gap → gap ≤ index → IsIdle index gap → Finds index []
    stopped index gap h room idle =
        (0, refl, omega arith, λ i lo hi. idle i (omega arith) (omega arith))

    -- The scan ends, and has found this.
    abbrev pub Ends : ℕ → ℕ → ℕ → Type 0
    Ends fuel index gap =
        (found : List (Record T)) × (branch_of fuel index gap ≡ some found) × Finds index found

    at_limit :
        (fuel index gap : ℕ)
        → gap_limit ≤ gap
        → gap ≤ index
        → IsIdle index gap
        → Ends fuel index gap
    unfolding scan_branch
    at_limit zero index gap h room idle =
        let done : ltb gap gap_limit ≡ false = ground arith in
        ([], rw done refl, stopped index gap h room idle)
    at_limit (suc fuel) index gap h room idle =
        let done : ltb gap gap_limit ≡ false = ground arith in
        ([], rw done refl, stopped index gap h room idle)

    one_window :
        (fuel index gap : ℕ)
        → gap < gap_limit
        → Ends fuel (index + window) (window_of window index gap).0
        → Ends (suc fuel) index gap
    unfolding scan_branch
    one_window fuel index gap h (r, scanned, (n, found, reached, idle)) =
        let more : ltb gap gap_limit ≡ true = ground arith in
        let sum : index + window + n ≡ index + (window + n) = omega arith in
        (
          (window_of window index gap).1 ++ r,
          rw (more, scanned) refl,
          (
            window + n,
            rw (window-found window index gap, used_among-add window n index, found) refl,
            omega (arith, reached),
            subst (λ k. IsIdle k gap_limit) sum idle,
          ),
        )

    module _ (bound : ℕ) (unused : (i : ℕ) → bound ≤ i → used_at i ≡ false)
        (steps : 0 < window) where
      window-gap : (n index gap : ℕ) → bound ≤ index → (window_of n index gap).0 ≡ gap + n
      unfolding scan_window
      window-gap zero index gap h = omega arith
      window-gap (suc n) index gap h =
          rw (unused index h) (window-gap n (suc index) (suc gap) (omega arith) ∙ omega arith)

      behind_bound :
          (fuel index gap : ℕ)
          → bound ≤ index
          → gap_limit ≤ fuel + gap
          → gap ≤ index
          → IsIdle index gap
          → Ends fuel index gap
      behind_bound zero index gap h l room idle = at_limit zero index gap (omega arith) room idle
      behind_bound (suc fuel) index gap h l room idle = elim (Bool-cases (ltb gap gap_limit)) [
        | inl more ↦
            let e = window-gap window index gap h in
            one_window fuel index gap (ground arith) (
              behind_bound fuel (index + window) (window_of window index gap).0 (omega arith)
                (omega (arith, e)) (window-room window index gap room)
                (window-IsIdle window index gap idle))
        | inr done ↦ at_limit (suc fuel) index gap (ground arith) room idle
      ]

      within_bound :
          (fuel index gap : ℕ)
          → gap_limit + (bound - index) ≤ fuel
          → gap ≤ index
          → IsIdle index gap
          → Ends fuel index gap
      within_bound zero index gap l room idle = at_limit zero index gap (omega arith) room idle
      within_bound (suc fuel) index gap l room idle = elim (Bool-cases (ltb index bound)) [
        | inr behind ↦ behind_bound (suc fuel) index gap (ground arith) (omega arith) room idle
        | inl before ↦ elim (Bool-cases (ltb gap gap_limit)) [
          | inr done ↦ at_limit (suc fuel) index gap (ground arith) room idle
          | inl more ↦ one_window fuel index gap (ground arith) (
              within_bound fuel (index + window) (window_of window index gap).0 (ground arith)
                (window-room window index gap room) (window-IsIdle window index gap idle))
        ]
      ]

      -- If no address of a branch from some index on was used, and windows are not empty, then the
      -- scan ends within as many windows as that index and the gap limit add up to. It returns the
      -- used ones, in order, of a first part of the branch. This part has at least as many addresses
      -- as the gap limit, and its last ones, as many as the gap limit, are unused.
      pub scan_branch-Ends : (fuel : ℕ) → gap_limit + bound ≤ fuel → Ends fuel 0 0
      scan_branch-Ends fuel l =
          within_bound fuel 0 0 (omega arith) (omega arith) (λ i lo hi. absurd (omega arith))
