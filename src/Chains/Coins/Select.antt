-- ===== src/Chains/Coins/Select.antt =====
-- What `select_coins` returns.
use mathlib.Core.List.{Perm, append_assoc}
use cryptoswap_wallet.Common.{
  ℕ, ℤ, pos, ◌+ℤ◌, ◌-ℤ◌, ◌≤ℤ◌, int_laws, List, [], ◌∷◌, ◌++◌, length, ◌≡◌, ◌⊎◌, inl, inr, refl, sym,
  subst, Bool-cases, leb_ℤ, leb_ℤ_iff,
}
use cryptoswap_wallet.Result.{ok, ok_inj}
use cryptoswap_wallet.Chains.Coins.{
  Utxo, Selection, FeeRate, estimate_vsize, total_value, select_from, select_coins, largest_first,
}
use cryptoswap_wallet.Chains.Coins.Sort.{largest_first-perm}

pub total_value-append :
    (us vs : List Utxo) → total_value (us ++ vs) ≡ total_value us +ℤ total_value vs
total_value-append [] vs = omega int_laws
total_value-append (u ∷ us) vs = rw (total_value-append us vs) (omega int_laws)

-- The fee pays for the transaction that is built, with a change output above the dust or with none.
abbrev pub IsFunded : FeeRate → ℕ → ℤ → Selection → Type 0
IsFunded rate memo_len dust s =
    (dust ≤ℤ s.change × (s.fee ≡ rate (estimate_vsize (length s.utxos) 2 memo_len)))
    ⊎ ((s.change ≡ pos 0) × rate (estimate_vsize (length s.utxos) 1 memo_len) ≤ℤ s.fee)

fee_within : (fee send total : ℤ) → send +ℤ fee ≤ℤ total → fee ≤ℤ total -ℤ send
fee_within fee send total h = omega int_laws

-- The coins add up to the amount, the fee and the change, the selection is funded, and the coins come
-- first in the list that they were taken from.
abbrev pub Accounts : ℤ → FeeRate → ℕ → ℤ → List Utxo → Selection → Type 0
Accounts send rate memo_len dust coins s =
    (total_value s.utxos ≡ send +ℤ s.fee +ℤ s.change)
    × IsFunded rate memo_len dust s
    × (left : List Utxo) × (coins ≡ s.utxos ++ left)

module _ (send : ℤ) (rate : FeeRate) (memo_len : ℕ) (dust : ℤ) where
  total_value-snoc :
      (chosen : List Utxo) (u : Utxo) (total : ℤ)
      → total ≡ total_value chosen
      → total_value (chosen ++ (u ∷ [])) ≡ total +ℤ u.value
  total_value-snoc chosen u total t = rw (total_value-append chosen (u ∷ []), ← t) (omega int_laws)

  select_from-Accounts :
      (chosen : List Utxo) (total : ℤ) (rest : List Utxo) (s : Selection)
      → total ≡ total_value chosen
      → select_from send rate memo_len dust chosen total rest ≡ ok s
      → Accounts send rate memo_len dust (chosen ++ rest) s
  unfolding select_from
  select_from-Accounts chosen total [] s t h = cc h
  select_from-Accounts chosen total (u ∷ rest) s t h =
      let chosen' : List Utxo = chosen ++ (u ∷ []) in
      let fee2 : ℤ = rate (estimate_vsize (length chosen') 2 memo_len) in
      let fee1 : ℤ = rate (estimate_vsize (length chosen') 1 memo_len) in
      let total' : ℤ = total +ℤ u.value in
      let sum' = total_value-snoc chosen u total t in
      let shape : chosen ++ (u ∷ rest) ≡ chosen' ++ rest =
        sym (append_assoc chosen (u ∷ []) rest) in
      elim (Bool-cases (leb_ℤ dust (total' -ℤ send -ℤ fee2))) [
        | inl e ↦
            subst (Accounts send rate memo_len dust (chosen ++ (u ∷ rest))) (ok_inj (rw e at h)) (
              rw sum' (omega int_laws),
              inl ((leb_ℤ_iff dust (total' -ℤ send -ℤ fee2)).0 e, refl),
              rest,
              shape,
            )
        | inr e ↦ elim (Bool-cases (leb_ℤ (send +ℤ fee1) total')) [
          | inl f ↦
              subst (Accounts send rate memo_len dust (chosen ++ (u ∷ rest)))
                (ok_inj (rw (e, f) at h))
                (
                  rw sum' (omega int_laws),
                  inr (refl, fee_within fee1 send total' ((leb_ℤ_iff (send +ℤ fee1) total').0 f)),
                  rest,
                  shape,
                )
          | inr f ↦
              rw shape (select_from-Accounts chosen' total' rest s (sym sum') (rw (e, f) at h))
        ]
      ]

-- What `select_coins` returns adds up: the coins make the amount, the fee and the change. The change
-- is at least the dust limit and the fee that of a transaction with a change output, or there is no
-- change and the fee is at least that of a transaction without. The coins are coins of the wallet,
-- each taken at most once.
pub select_coins-accounts :
    (utxos : List Utxo) (send : ℤ) (rate : FeeRate) (memo_len : ℕ) (dust : ℤ) (s : Selection)
    → select_coins utxos send rate memo_len dust ≡ ok s
    → (total_value s.utxos ≡ send +ℤ s.fee +ℤ s.change)
      × IsFunded rate memo_len dust s
      × (left : List Utxo) × Perm utxos (s.utxos ++ left)
unfolding select_coins
select_coins-accounts utxos send rate memo_len dust s h =
    let a =
      select_from-Accounts send rate memo_len dust [] (pos 0) (largest_first utxos) s refl h in
    (a.0, a.1, a.2, subst (Perm utxos) a.3 (largest_first-perm utxos))
