-- ===== src/Common/Lists.antt =====
-- Lists measured and cut by native numbers, comprehensions, and predicates by recursion.
use Prim.Native.Nat.{ℕ, zero, suc, ◌+◌}
use mathlib.Core.Path.{◌≡◌, refl, ap, subst}
use mathlib.Core.Logic.{◌↔◌, ◌⊎◌, inl, inr}
use mathlib.Core.Bool.{Bool, true, false, ◌||◌}
use mathlib.Core.List.{List, [], ◌∷◌, ◌++◌}
use native.Mathlib.Omega.{arith}
use cryptoswap_wallet.Common.Bools.{if◌then◌else◌, Bool-cases}

module _ {ℓ} {A : Type ℓ} where
  abbrev pub length : List A → ℕ
  length [] = 0
  length (x ∷ xs) = suc (length xs)

  abbrev pub take : ℕ → List A → List A
  take zero xs = []
  take (suc n) [] = []
  take (suc n) (x ∷ xs) = x ∷ take n xs

  abbrev pub drop : ℕ → List A → List A
  drop zero xs = xs
  drop (suc n) [] = []
  drop (suc n) (x ∷ xs) = drop n xs

  -- `[x for x in xs if p(x)]`
  abbrev pub filter : (A → Bool) → List A → List A
  filter p [] = []
  filter p (x ∷ xs) = let rest = filter p xs in if p x then x ∷ rest else rest

  -- `any(p(x) for x in xs)`
  abbrev pub any : (A → Bool) → List A → Bool
  any p [] = false
  any p (x ∷ xs) = p x || any p xs

  abbrev pub All {κ} : (A → Type κ) → List A → Type κ
  All P [] = Unit
  All P (x ∷ xs) = P x × All P xs

-- `o` is the one item of the list with the property.
abbrev pub Sole : {A : Type 0} → (A → Type 0) → A → List A → Type 0
Sole P o [] = ⊥
Sole P o (x ∷ xs) = ((x ≡ o) × P x × All (λ y. ¬ P y) xs) ⊎ ((¬ P x) × Sole P o xs)

module _ {ℓ} {A : Type ℓ} where
  pub length-append : (xs ys : List A) → length (xs ++ ys) ≡ length xs + length ys
  length-append [] ys = omega arith
  length-append (x ∷ xs) ys = omega (arith, length-append xs ys)

  pub append-eq-nil : (xs ys : List A) → (xs ++ ys ≡ []) ↔ ((xs ≡ []) × (ys ≡ []))
  append-eq-nil [] ys = (λ h. (refl, h), λ h. h.1)
  append-eq-nil (x ∷ xs) ys = (λ h. cc, λ h. cc (h.0))

  pub take-append : (xs ys : List A) → take (length xs) (xs ++ ys) ≡ xs
  take-append [] ys = refl
  take-append (x ∷ xs) ys = ap (λ l. x ∷ l) (take-append xs ys)

pub cons_inj : {A : Type 0} {x y : A} {xs ys : List A} → x ∷ xs ≡ y ∷ ys → (x ≡ y) × (xs ≡ ys)
cons_inj h = (cc, cc)

-- A comprehension that keeps what has a property, by a test that decides it.
module _ {A : Type 0} (P : A → Type 0) (p : A → Bool) (decides : (x : A) → (p x ≡ true) ↔ P x) where
  not_of_false : (x : A) → p x ≡ false → ¬ P x
  not_of_false x e h = cc (e, (decides x).1 h)

  pub filter-eq-nil : (xs : List A) → (filter p xs ≡ []) ↔ All (λ y. ¬ P y) xs
  filter-eq-nil [] = (λ _. tt, λ _. refl)
  filter-eq-nil (x ∷ xs) = elim (Bool-cases (p x)) [
    | inl e ↦ (λ h. cc (rw e at h), λ h. absurd (h.0 ((decides x).0 e)))
    | inr e ↦ (
      λ h. (not_of_false x e, (filter-eq-nil xs).0 (rw e at h)),
      λ h. rw e ((filter-eq-nil xs).1 h.1),
    )
  ]

  pub filter-eq-Sole : (o : A) (xs : List A) → (filter p xs ≡ o ∷ []) ↔ Sole P o xs
  filter-eq-Sole o [] = (λ h. cc h, λ h. absurd h)
  filter-eq-Sole o (x ∷ xs) = elim (Bool-cases (p x)) [
    | inl e ↦ (
      λ h.
          let both = cons_inj (rw e at h) in
          inl (both.0, (decides x).0 e, (filter-eq-nil xs).0 both.1),
      elim [
        | inl found ↦ rw (e, found.0, (filter-eq-nil xs).1 found.2)
        | inr later ↦ absurd (later.0 ((decides x).0 e))
      ],
    )
    | inr e ↦ (
      λ h. inr (not_of_false x e, (filter-eq-Sole o xs).0 (rw e at h)),
      elim [
        | inl found ↦ absurd (not_of_false x e found.1)
        | inr later ↦ rw (e, (filter-eq-Sole o xs).1 later.1)
      ],
    )
  ]

-- The lists one after another.
abbrev pub join {ℓ} : {A : Type ℓ} → List (List A) → List A
join [] = []
join (xs ∷ xss) = xs ++ join xss

pub join-eq-nil {ℓ} : {A : Type ℓ} (xss : List (List A)) → (join xss ≡ []) ↔ All (λ xs. xs ≡ []) xss
join-eq-nil [] = (λ _. tt, λ _. refl)
join-eq-nil (xs ∷ xss) = (
  λ h. let both = (append-eq-nil xs (join xss)).0 h in (both.0, (join-eq-nil xss).0 both.1),
  λ h. (append-eq-nil xs (join xss)).1 (h.0, (join-eq-nil xss).1 h.1),
)

pub All-map :
    {A : Type 0} {P Q : A → Type 0} → ((x : A) → P x → Q x) → (xs : List A) → All P xs → All Q xs
All-map f [] h = tt
All-map f (x ∷ xs) h = (f x h.0, All-map f xs h.1)

pub Sole-holds : {A : Type 0} (P : A → Type 0) (o : A) (xs : List A) → Sole P o xs → P o
Sole-holds P o [] h = absurd h
Sole-holds P o (x ∷ xs) (inl found) = subst P found.0 found.1
Sole-holds P o (x ∷ xs) (inr later) = Sole-holds P o xs later.1

pub All-append_iff :
    {A : Type 0} (P : A → Type 0) (xs ys : List A) → All P (xs ++ ys) ↔ (All P xs × All P ys)
All-append_iff P [] ys = (λ h. (tt, h), λ h. h.1)
All-append_iff P (x ∷ xs) ys =
    let rest = All-append_iff P xs ys in
    (λ h. let both = rest.0 h.1 in ((h.0, both.0), both.1), λ h. (h.0.0, rest.1 (h.0.1, h.1)))
