-- ===== src/Chains/Coins/Complete.antt =====
-- `select_coins` beside every other choice of coins.
use native.Mathlib.Nat.{zero-add}
use cryptoswap_wallet.Common.{
  ℕ, zero, suc, ◌+◌, ◌≤◌, ◌<◌, ℤ, pos, ◌+ℤ◌, ◌≤ℤ◌, ◌<ℤ◌, int_laws, Bool, true, false, List, [], ◌∷◌,
  ◌++◌, length, length-append, take, ◌≡◌, refl, subst, Bool-cases, inl, inr, leb_ℤ, leb_ℤ-false,
  arith, if◌then◌else◌,
}
use cryptoswap_wallet.Result.{Result, ok, err, Error}
use cryptoswap_wallet.Chains.Coins.{
  Utxo, Selection, FeeRate, estimate_vsize, total_value, insert_by_value, largest_first,
  select_from, select_coins,
}
use cryptoswap_wallet.Chains.Coins.Sort.{Bounds, IsSorted, largest_first-IsSorted}

-- The coins that a choice marks.
abbrev pub pick : List Bool → List Utxo → List Utxo
pick [] us = []
pick (b ∷ bs) [] = []
pick (true ∷ bs) (u ∷ us) = u ∷ pick bs us
pick (false ∷ bs) (u ∷ us) = pick bs us

length-pick : (m : List Bool) (us : List Utxo) → length (pick m us) ≤ length us
length-pick [] us = omega arith
length-pick (b ∷ m) [] = omega arith
length-pick (true ∷ m) (u ∷ us) = omega (arith, length-pick m us)
length-pick (false ∷ m) (u ∷ us) = omega (arith, length-pick m us)

take_bounded :
    (v : ℤ) (j : ℕ) (us : List Utxo)
    → suc j ≤ length us
    → Bounds v us
    → total_value (take (suc j) us) ≤ℤ v +ℤ total_value (take j us)
take_bounded v j [] h b = elim h [ ]
take_bounded v zero (w ∷ us) h b = let le = b.0 in omega int_laws
take_bounded v (suc j) (w ∷ us) h b =
    let ih = take_bounded v j us (omega arith) b.1 in omega int_laws

take_shift :
    (u : Utxo) (k : ℕ) (us : List Utxo)
    → k ≤ length us
    → Bounds u.value us
    → total_value (take k us) ≤ℤ total_value (take k (u ∷ us))
take_shift u zero us h b = omega arith
take_shift u (suc k) us h b = take_bounded u.value k us h b

pick-le-take :
    (m : List Bool) (us : List Utxo)
    → IsSorted us
    → total_value (pick m us) ≤ℤ total_value (take (length (pick m us)) us)
pick-le-take [] us s = omega arith
pick-le-take (b ∷ m) [] s = omega arith
pick-le-take (true ∷ m) (u ∷ us) s = let ih = pick-le-take m us s.1 in omega int_laws
pick-le-take (false ∷ m) (u ∷ us) s =
    let ih = pick-le-take m us s.1 in
    let shift = take_shift u (length (pick m us)) us (length-pick m us) s.0 in omega int_laws

-- Two choices of as many coins and of the same value.
abbrev SamePick : List Bool → List Utxo → List Bool → List Utxo → Type 0
SamePick m us m' us' =
    (total_value (pick m' us') ≡ total_value (pick m us))
    × (length (pick m' us') ≡ length (pick m us))

insert_mask :
    (u : Utxo) (us : List Utxo) (m : List Bool)
    → (m' : List Bool) × SamePick m (u ∷ us) m' (insert_by_value u us)
unfolding insert_by_value
insert_mask u [] m = (m, (refl, refl))
insert_mask u (v ∷ vs) m = elim (Bool-cases (leb_ℤ v.value u.value)) [
  | inl e ↦ rw e (m, (refl, refl))
  | inr e ↦ rw e (later m (insert_mask u vs))
]
  where
    later :
        (m : List Bool)
        → ((k : List Bool) → (k' : List Bool) × SamePick k (u ∷ vs) k' (insert_by_value u vs))
        → (m' : List Bool) × SamePick m (u ∷ v ∷ vs) m' (v ∷ insert_by_value u vs)
    later [] ih = ([], (refl, refl))
    later (true ∷ []) ih = let r = ih (true ∷ []) in (false ∷ r.0, r.1)
    later (false ∷ []) ih = ([], (refl, refl))
    later (true ∷ true ∷ bs) ih =
        let r = ih (true ∷ bs) in (true ∷ r.0, (rw (r.1.0) (omega int_laws), rw (r.1.1) refl))
    later (false ∷ true ∷ bs) ih =
        let r = ih (false ∷ bs) in (true ∷ r.0, (rw (r.1.0) refl, rw (r.1.1) refl))
    later (true ∷ false ∷ bs) ih = let r = ih (true ∷ bs) in (false ∷ r.0, r.1)
    later (false ∷ false ∷ bs) ih = let r = ih (false ∷ bs) in (false ∷ r.0, r.1)

sort_mask :
    (us : List Utxo) (m : List Bool) → (m' : List Bool) × SamePick m us m' (largest_first us)
unfolding largest_first
sort_mask [] m = (m, (refl, refl))
sort_mask (u ∷ us) [] = ([], (refl, refl))
sort_mask (u ∷ us) (true ∷ bs) =
    let r = sort_mask us bs in
    let i = insert_mask u (largest_first us) (true ∷ r.0) in
    (i.0, (rw (i.1.0, r.1.0) refl, rw (i.1.1, r.1.1) refl))
sort_mask (u ∷ us) (false ∷ bs) =
    let r = sort_mask us bs in
    let i = insert_mask u (largest_first us) (false ∷ r.0) in
    (i.0, (rw (i.1.0, r.1.0) refl, rw (i.1.1, r.1.1) refl))

module _ (send : ℤ) (rate : FeeRate) (memo_len : ℕ) (dust : ℤ) where
  -- The fee of a transaction that spends so many coins and has no change.
  abbrev pub lone_fee : ℕ → ℤ
  lone_fee n = rate (estimate_vsize n 1 memo_len)

  both_false :
      (a b : Bool) (x y : Selection) (more : Result Selection) (e : Error)
      → (if a then ok x else if b then ok y else more) ≡ err e
      → (b ≡ false) × (more ≡ err e)
  both_false true b x y more e h = cc h
  both_false false true x y more e h = cc h
  both_false false false x y more e h = (refl, h)

  -- Where the loop fails, no first part of the coins pays for a transaction without change.
  select_from-fails :
      (chosen : List Utxo) (total : ℤ) (rest : List Utxo) (e : Error)
      → select_from send rate memo_len dust chosen total rest ≡ err e
      → (k : ℕ) → k < length rest
      → total +ℤ total_value (take (suc k) rest) <ℤ send +ℤ lone_fee (length chosen + suc k)
  unfolding select_from
  select_from-fails chosen total [] e h k lt = elim lt [ ]
  select_from-fails chosen total (u ∷ rest) e h k lt =
      let failed = both_false _ _ _ _ _ e h in
      step k lt failed.0 (select_from-fails (chosen ++ (u ∷ [])) (total +ℤ u.value) rest e failed.1)
    where
      longer : (j : ℕ) → length (chosen ++ (u ∷ [])) + j ≡ length chosen + suc j
      longer j = omega (arith, length-append chosen (u ∷ []))

      one : length (chosen ++ (u ∷ [])) ≡ length chosen + 1
      one = omega (arith, length-append chosen (u ∷ []))

      step :
          (k : ℕ)
          → k < length (u ∷ rest)
          → leb_ℤ (send +ℤ lone_fee (length (chosen ++ (u ∷ [])))) (total +ℤ u.value) ≡ false
          → ((j : ℕ)
              → j < length rest
              → total +ℤ u.value +ℤ total_value (take (suc j) rest)
                <ℤ send +ℤ lone_fee (length (chosen ++ (u ∷ [])) + suc j))
          → total +ℤ total_value (take (suc k) (u ∷ rest))
            <ℤ send +ℤ lone_fee (length chosen + suc k)
      step zero lt short ih =
          let less : total +ℤ u.value <ℤ send +ℤ lone_fee (length chosen + 1) =
            subst (λ n. total +ℤ u.value <ℤ send +ℤ lone_fee n) one
              ((leb_ℤ-false (send +ℤ lone_fee (length (chosen ++ (u ∷ [])))) (total +ℤ u.value)).0
                short) in
          omega int_laws
      step (suc j) lt short ih =
          let less : total +ℤ u.value +ℤ total_value (take (suc j) rest)
              <ℤ send +ℤ lone_fee (length chosen + suc (suc j)) =
            subst (λ n. total +ℤ u.value +ℤ total_value (take (suc j) rest) <ℤ send +ℤ lone_fee n)
              (longer (suc j)) (ih j (omega arith)) in
          omega int_laws

  short_of :
      (m : List Bool) (us : List Utxo) (n : ℕ)
      → IsSorted us
      → length (pick m us) ≡ n
      → 0 < n
      → ((k : ℕ)
          → k < length us
          → pos 0 +ℤ total_value (take (suc k) us) <ℤ send +ℤ lone_fee (suc k))
      → total_value (pick m us) <ℤ send +ℤ lone_fee n
  short_of m us zero s e h fails = elim h [ ]
  short_of m us (suc k) s e h fails =
      let best : total_value (pick m us) ≤ℤ total_value (take (suc k) us) =
        subst (λ n. total_value (pick m us) ≤ℤ total_value (take n us)) e (pick-le-take m us s) in
      let less = fails k (omega (arith, length-pick m us)) in omega int_laws

-- If any choice of at least one coin covers the amount and the fee of a transaction without change
-- that spends as many coins, then `select_coins` returns a selection.
pub select_coins_complete :
    (utxos : List Utxo) (send : ℤ) (rate : FeeRate) (memo_len : ℕ) (dust : ℤ) (choice : List Bool)
    → 0 < length (pick choice utxos)
    → send +ℤ rate (estimate_vsize (length (pick choice utxos)) 1 memo_len)
      ≤ℤ total_value (pick choice utxos)
    → (s : Selection) × (select_coins utxos send rate memo_len dust ≡ ok s)
unfolding select_coins
select_coins_complete utxos send rate memo_len dust choice some_coin covers =
    cases (select_coins utxos send rate memo_len dust) refl
  where
    sorted : (m' : List Bool) × SamePick choice utxos m' (largest_first utxos)
    sorted = sort_mask utxos choice

    fails :
        (e : Error)
        → select_coins utxos send rate memo_len dust ≡ err e
        → total_value (pick sorted.0 (largest_first utxos))
          <ℤ send +ℤ lone_fee send rate memo_len dust (length (pick choice utxos))
    fails e h =
        short_of send rate memo_len dust sorted.0 (largest_first utxos) _
          (largest_first-IsSorted utxos) sorted.1.1 some_coin
          (λ k lt.
            subst
              (λ n.
                pos 0 +ℤ total_value (take (suc k) (largest_first utxos))
                <ℤ send +ℤ rate (estimate_vsize n 1 memo_len))
              (zero-add (suc k))
              (select_from-fails send rate memo_len dust [] (pos 0) (largest_first utxos) e h k lt))

    cases :
        (r : Result Selection)
        → select_coins utxos send rate memo_len dust ≡ r
        → (s : Selection) × (select_coins utxos send rate memo_len dust ≡ ok s)
    cases (ok s) e = (s, e)
    cases (err e) h = let less = rw (sorted.1.0) at (fails e h) in absurd (omega arith)
