-- ===== src/Swap/Memos/Laws.antt =====
-- The pool that `prepare_liquidity` reads from the memo of a deposit.
use cryptoswap_wallet.Common.{
  ℕ, Str, true, false, [], ◌∷◌, ◌++◌, ◌≡◌, ◌⊎◌, inl, inr, refl, sym, ap, subst, ◌∙◌, text,
  starts_with, All, ◌==◌, ==_iff, Bool-cases,
}
use cryptoswap_wallet.Swap.Prepare.{upto, pool_of_memo}
use cryptoswap_wallet.Swap.Memos.{add_liquidity_memo}

-- A text without a mark.
abbrev pub HasNo : ℕ → Str → Type 0
HasNo mark s = All (λ c. c == mark ≡ false) s

abbrev pub HasNoColon : Str → Type 0
HasNoColon s = HasNo b':' s

-- A text ends, or a mark follows.
abbrev pub StopsAt : ℕ → Str → Type 0
StopsAt mark rest = (rest ≡ []) ⊎ ((after : Str) × (rest ≡ mark ∷ after))

-- The part of a text before its first mark, or the whole text.
abbrev pub IsUpto : ℕ → Str → Str → Type 0
IsUpto mark s part = (rest : Str) × (s ≡ part ++ rest) × HasNo mark part × StopsAt mark rest

-- The second of the parts that colons divide a memo into; empty if there is one part only.
abbrev pub IsSecond : Str → Str → Type 0
IsSecond memo pool =
    (HasNoColon memo × (pool ≡ []))
    ⊎ ((first : Str) × (tail : Str) × (memo ≡ first ++ (b':' ∷ tail))
        × HasNoColon first
        × IsUpto b':' tail pool)

upto-HasNo : (mark : ℕ) (s : Str) → HasNo mark s → upto mark s ≡ s
upto-HasNo mark [] h = refl
upto-HasNo mark (c ∷ s) h = rw (h.0) (ap (λ l. c ∷ l) (upto-HasNo mark s h.1))

pub upto-IsUpto : (mark : ℕ) (s : Str) → IsUpto mark s (upto mark s)
upto-IsUpto mark [] = ([], refl, tt, inl refl)
upto-IsUpto mark (c ∷ s) = elim (Bool-cases (c == mark)) [
  | inl e ↦ rw e (c ∷ s, refl, tt, inr (s, ap (λ x. x ∷ s) ((==_iff c mark).0 e)))
  | inr e ↦
      let (rest, whole, none_before, stops) = upto-IsUpto mark s in
      rw e (rest, ap (λ l. c ∷ l) whole, (e, none_before), stops)
]

stop-upto : (mark : ℕ) (rest : Str) → StopsAt mark rest → upto mark rest ≡ []
stop-upto mark rest (inl e) = rw e refl
stop-upto mark rest (inr (after, e)) = rw (e, (==_iff mark mark).1 refl) refl

upto-append :
    (mark : ℕ) (part rest : Str)
    → HasNo mark part
    → StopsAt mark rest
    → upto mark (part ++ rest) ≡ part
upto-append mark [] rest h stops = stop-upto mark rest stops
upto-append mark (c ∷ part) rest h stops =
    rw (h.0) (ap (λ l. c ∷ l) (upto-append mark part rest h.1 stops))

pub IsUpto-upto : (mark : ℕ) (s part : Str) → IsUpto mark s part → upto mark s ≡ part
IsUpto-upto mark s part (rest, whole, none_before, stops) =
    rw whole (upto-append mark part rest none_before stops)

IsSecond-cons : (c : ℕ) (s pool : Str) → c == b':' ≡ false → IsSecond s pool → IsSecond (c ∷ s) pool
IsSecond-cons c s pool e (inl (none_before, empty)) = inl ((e, none_before), empty)
IsSecond-cons c s pool e (inr (first, tail, whole, none_before, second)) =
    inr (c ∷ first, tail, ap (λ l. c ∷ l) whole, (e, none_before), second)

pub pool_of_memo-IsSecond : (memo : Str) → IsSecond memo (pool_of_memo memo)
pool_of_memo-IsSecond [] = inl (tt, refl)
pool_of_memo-IsSecond (c ∷ s) = elim (Bool-cases (c == b':')) [
  | inl e ↦ rw e (inr ([], s, ap (λ x. x ∷ s) ((==_iff c b':').0 e), tt, upto-IsUpto b':' s))
  | inr e ↦
      let same : pool_of_memo (c ∷ s) ≡ pool_of_memo s = rw e refl in
      subst (IsSecond (c ∷ s)) (sym same)
        (IsSecond-cons c s (pool_of_memo s) e (pool_of_memo-IsSecond s))
]

no_colon : (memo : Str) → HasNoColon memo → pool_of_memo memo ≡ []
no_colon [] h = refl
no_colon (c ∷ s) h = rw (h.0) (no_colon s h.1)

second_of :
    (first tail : Str) → HasNoColon first → pool_of_memo (first ++ (b':' ∷ tail)) ≡ upto b':' tail
second_of [] tail h = refl
second_of (c ∷ first) tail h = rw (h.0) (second_of first tail h.1)

-- A memo has one second part.
pub IsSecond-pool_of_memo : (memo pool : Str) → IsSecond memo pool → pool_of_memo memo ≡ pool
IsSecond-pool_of_memo memo pool (inl (none_before, empty)) = no_colon memo none_before ∙ sym empty
IsSecond-pool_of_memo memo pool (inr (first, tail, whole, none_before, second)) =
    rw whole (second_of first tail none_before ∙ IsUpto-upto b':' tail pool second)

-- The memo of a deposit into a pool is one for which the pauses are looked up, and the pool that
-- they are looked up for is that pool, if its name has no colon.
pub pool_of_memo-add_liquidity_memo :
    (pool : Str)
    → HasNoColon pool
    → (starts_with (add_liquidity_memo pool) (text "+") ≡ true)
      × (pool_of_memo (add_liquidity_memo pool) ≡ pool)
unfolding add_liquidity_memo starts_with
pool_of_memo-add_liquidity_memo pool h = (refl, upto-HasNo b':' pool h)
