-- ===== src/Chains/Coins/Sort.antt =====
-- `largest_first`, as a sort.
use mathlib.Core.List.{Perm}
use mathlib.Core.List.Perm
use cryptoswap_wallet.Common.{
  ℤ, ◌≤ℤ◌, List, [], ◌∷◌, All, leb_ℤ, Bool-cases, inl, inr, leb_ℤ_iff, leb_ℤ-false, arith, All-map,
}
use cryptoswap_wallet.Chains.Coins.{Utxo, insert_by_value, largest_first}

-- No coin of the list is larger than the value.
abbrev pub Bounds : ℤ → List Utxo → Type 0
Bounds v us = All (λ (u : Utxo). u.value ≤ℤ v) us

abbrev pub IsSorted : List Utxo → Type 0
IsSorted [] = Unit
IsSorted (u ∷ us) = Bounds u.value us × IsSorted us

insert_by_value-perm : (u : Utxo) (us : List Utxo) → Perm (u ∷ us) (insert_by_value u us)
unfolding insert_by_value
insert_by_value-perm u [] = Perm.refl _
insert_by_value-perm u (v ∷ vs) = elim (Bool-cases (leb_ℤ v.value u.value)) [
  | inl e ↦ rw e (Perm.refl _)
  | inr e ↦ rw e (Perm.trans (Perm.swap _ _ _) (Perm.cons v (insert_by_value-perm u vs)))
]

pub largest_first-perm : (us : List Utxo) → Perm us (largest_first us)
unfolding largest_first
largest_first-perm [] = Perm.refl _
largest_first-perm (u ∷ us) =
    Perm.trans (Perm.cons u (largest_first-perm us)) (insert_by_value-perm u (largest_first us))

insert_by_value-Bounds :
    (v : ℤ) (u : Utxo) (us : List Utxo)
    → u.value ≤ℤ v
    → Bounds v us
    → Bounds v (insert_by_value u us)
unfolding insert_by_value
insert_by_value-Bounds v u [] h b = (h, tt)
insert_by_value-Bounds v u (w ∷ us) h b = elim (Bool-cases (leb_ℤ w.value u.value)) [
  | inl e ↦ rw e (h, b)
  | inr e ↦ rw e (b.0, insert_by_value-Bounds v u us h b.1)
]

Bounds-mono : (v w : ℤ) (us : List Utxo) → v ≤ℤ w → Bounds v us → Bounds w us
Bounds-mono v w us h = All-map (λ u b. omega arith) us

insert_by_value-IsSorted :
    (u : Utxo) (us : List Utxo) → IsSorted us → IsSorted (insert_by_value u us)
unfolding insert_by_value
insert_by_value-IsSorted u [] s = (tt, tt)
insert_by_value-IsSorted u (w ∷ us) s = elim (Bool-cases (leb_ℤ w.value u.value)) [
  | inl e ↦ let le = (leb_ℤ_iff w.value u.value).0 e in rw e ((le, Bounds-mono _ _ us le s.0), s)
  | inr e ↦
      let lt = (leb_ℤ-false w.value u.value).0 e in
      rw e
        (insert_by_value-Bounds w.value u us (omega arith) s.0, insert_by_value-IsSorted u us s.1)
]

pub largest_first-IsSorted : (us : List Utxo) → IsSorted (largest_first us)
unfolding largest_first
largest_first-IsSorted [] = tt
largest_first-IsSorted (u ∷ us) =
    insert_by_value-IsSorted u (largest_first us) (largest_first-IsSorted us)

-- The coins are tried in an order in which each is worth at least as much as the next, and they are
-- the coins that were given, each as often.
pub largest_first-sorts :
    (us : List Utxo) → Perm us (largest_first us) × IsSorted (largest_first us)
largest_first-sorts us = (largest_first-perm us, largest_first-IsSorted us)
