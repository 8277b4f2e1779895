-- ===== src/Swap/Backends/Laws.antt =====
-- Which quotes are gathered, and that the best of them is the first with the most output.
use cryptoswap_wallet.Common.{
  ℤ, ◌≤ℤ◌, ◌<ℤ◌, int_laws, Str, true, List, [], ◌∷◌, ◌++◌, Option, some, ◌≡◌, ◌≢◌, ◌↔◌, ◌⊎◌, inl,
  inr, refl, ap, sym, subst, ◌∙◌, All, Bool-cases, arith, ltb_ℤ, ltb_ℤ_iff, ltb_ℤ-false, leb_ℤ_iff,
  if◌then◌else◌,
}
use cryptoswap_wallet.Result.{Error, Result, ok, err, >>=-eq-ok, ok_inj, value_error}
use cryptoswap_wallet.Thorchain.Types.{Quote}
use cryptoswap_wallet.Swap.Types.{QuoteArgs}
use cryptoswap_wallet.Swap.Prepare.Laws.{lacks_memo_iff}
use cryptoswap_wallet.Swap.Backends.{
  Backend, is_served, is_caught, take_quote, gather, gather_quotes, quote_args, max_from,
  best_quote,
}

-- The pair is in the list, those before it give less, and those behind it give no more.
pub record IsBest (best : Backend × Quote) (results : List (Backend × Quote)) : Type 0 where
  pub before : List (Backend × Quote)
  pub after : List (Backend × Quote)
  pub splits : results ≡ before ++ (best ∷ after)
  pub more : All (λ r. r.1.expected_amount_out <ℤ best.1.expected_amount_out) before
  pub most : All (λ r. r.1.expected_amount_out ≤ℤ best.1.expected_amount_out) after

abbrev out : Backend × Quote → ℤ
out r = r.1.expected_amount_out

-- What `max_from` finds: the first pair, or one behind it that gives more.
data Found (r m : Backend × Quote) (rs : List (Backend × Quote)) : Type 0 where
  kept : m ≡ r → All (λ x. out x ≤ℤ out r) rs → Found r m rs
  replaced :
      (before after : List (Backend × Quote))
      → rs ≡ before ++ (m ∷ after)
      → out r <ℤ out m
      → All (λ x. out x <ℤ out m) before
      → All (λ x. out x ≤ℤ out m) after
      → Found r m rs

replace :
    (r s m : Backend × Quote) (rs : List (Backend × Quote))
    → out r <ℤ out s
    → Found s m rs
    → Found r m (s ∷ rs)
replace r s m rs less (kept e all) = replaced [] rs (cc (sym e)) (rw e less) tt (rw e all)
replace r s m rs less (replaced before after e more fewer most) =
    replaced (s ∷ before) after (ap (λ l. s ∷ l) e) (omega int_laws) (more, fewer) most

keep :
    (r s m : Backend × Quote) (rs : List (Backend × Quote))
    → out s ≤ℤ out r
    → Found r m rs
    → Found r m (s ∷ rs)
keep r s m rs less (kept e all) = kept e (less, all)
keep r s m rs less (replaced before after e more fewer most) =
    replaced (s ∷ before) after (ap (λ l. s ∷ l) e) more (omega int_laws, fewer) most

max_from-Found : (r : Backend × Quote) (rs : List (Backend × Quote)) → Found r (max_from r rs) rs
unfolding max_from
max_from-Found r [] = kept refl tt
max_from-Found r (s ∷ rs) = elim (Bool-cases (ltb_ℤ (out r) (out s))) [
  | inl less ↦
      rw less
        (replace r s (max_from s rs) rs ((ltb_ℤ_iff (out r) (out s)).0 less) (max_from-Found s rs))
  | inr no_less ↦
      rw no_less (
        keep r s (max_from r rs) rs ((ltb_ℤ-false (out r) (out s)).0 no_less) (max_from-Found r rs))
]

Found-IsBest :
    {r m : Backend × Quote} {rs : List (Backend × Quote)} → Found r m rs → IsBest m (r ∷ rs)
Found-IsBest {r} {m} {rs} (kept e all) = record {
  before = [];
  after = rs;
  splits = cc (sym e);
  more = tt;
  most = rw e all;
}
Found-IsBest {r} {m} {rs} (replaced before after e more fewer most) = record {
  before = r ∷ before;
  after = after;
  splits = ap (λ l. r ∷ l) e;
  more = (more, fewer);
  most = most;
}

-- Of some results `best_quote` returns one that gives more than every result before it and no less
-- than every result behind it; without results it raises.
pub best_quote-IsBest :
    (results : List (Backend × Quote))
    → ((results ≡ []) × (best_quote results ≡ err value_error))
      ⊎ ((best : Backend × Quote) × (best_quote results ≡ ok best) × IsBest best results)
unfolding best_quote
best_quote-IsBest [] = inl (refl, refl)
best_quote-IsBest (r ∷ rs) = inr (max_from r rs, refl, Found-IsBest (max_from-Found r rs))

-- A backend serves the request with a quote: it answers it, with a memo, for at least its minimum.
pub record Serves (args : QuoteArgs) (b : Backend) (quote : Quote) : Type 0 where
  pub quoted : b.quote_swap args ≡ ok quote
  pub memo : (m : Str) × (quote.memo ≡ some m) × (m ≢ [])
  pub enough : quote.recommended_min_amount_in ≤ℤ args.amount

-- The results are those of the backends that serve the request, in order.
pub data Gathered (args : QuoteArgs) : List Backend → List (Backend × Quote) → Type 0 where
  none_left : Gathered args [] []
  served :
      {b : Backend} {bs : List Backend} {quote : Quote} {rs : List (Backend × Quote)}
      → Serves args b quote
      → Gathered args bs rs
      → Gathered args (b ∷ bs) ((b, quote) ∷ rs)
  skipped :
      {b : Backend} {bs : List Backend} {rs : List (Backend × Quote)}
      → ((quote : Quote) → ¬ Serves args b quote)
      → Gathered args bs rs
      → Gathered args (b ∷ bs) rs

is_served_iff :
    (amount : ℤ) (quote : Quote)
    → (is_served amount quote ≡ true)
      ↔ (((m : Str) × (quote.memo ≡ some m) × (m ≢ [])) × quote.recommended_min_amount_in ≤ℤ amount)
is_served_iff amount quote =
    ground (arith, lacks_memo_iff quote.memo, leb_ℤ_iff quote.recommended_min_amount_in amount)

take_quote-Gathered :
    (args : QuoteArgs) (b : Backend) (bs : List Backend) (answer : Result Quote)
    (later : Result (List (Backend × Quote))) (rs : List (Backend × Quote))
    → b.quote_swap args ≡ answer
    → ((rest : List (Backend × Quote)) → later ≡ ok rest → Gathered args bs rest)
    → take_quote args.amount b answer later ≡ ok rs
    → Gathered args (b ∷ bs) rs
unfolding take_quote
take_quote-Gathered args b bs (err e) later rs asked rest h = elim (Bool-cases (is_caught e)) [
  | inl caught ↦ skipped (λ quote s. cc (asked, s.quoted)) (rest rs (rw caught at h))
  | inr raised ↦ cc (rw raised at h)
]
take_quote-Gathered args b bs (ok quote) later rs asked rest h =
    let (found, e, done) = >>=-eq-ok later _ h in
    elim (Bool-cases (is_served args.amount quote)) [
      | inl good ↦
          let parts = (is_served_iff args.amount quote).0 good in
          subst (Gathered args (b ∷ bs)) (ok_inj (rw good at done))
            (served (record { quoted = asked; memo = parts.0; enough = parts.1 }) (rest found e))
      | inr bad ↦ subst (Gathered args (b ∷ bs)) (ok_inj (rw bad at done)) (
          skipped
            (λ q s. cc (
              bad,
              (is_served_iff args.amount quote).1
                  (rw (ok_inj (sym asked ∙ s.quoted)) (s.memo, s.enough)),
            ))
            (rest found e))
    ]

gather-Gathered :
    (args : QuoteArgs) (bs : List Backend) (rs : List (Backend × Quote))
    → gather args bs ≡ ok rs
    → Gathered args bs rs
unfolding gather
gather-Gathered args [] rs h = subst (Gathered args []) (ok_inj h) none_left
gather-Gathered args (b ∷ bs) rs h =
    take_quote-Gathered args b bs (b.quote_swap args) (gather args bs) rs refl
      (gather-Gathered args bs) h

-- A backend that does not answer raises an error that the loop catches.
abbrev pub IsQuiet : QuoteArgs → Backend → Type 0
IsQuiet args b = (e : Error) → b.quote_swap args ≡ err e → is_caught e ≡ true

take_quote-returns :
    (amount : ℤ) (b : Backend) (answer : Result Quote) (later : List (Backend × Quote))
    → ((e : Error) → answer ≡ err e → is_caught e ≡ true)
    → (rs : List (Backend × Quote)) × (take_quote amount b answer (ok later) ≡ ok rs)
unfolding take_quote
take_quote-returns amount b (err e) later quiet = (later, rw (quiet e refl) refl)
take_quote-returns amount b (ok quote) later quiet =
    (if is_served amount quote then (b, quote) ∷ later else later, refl)

gather-returns :
    (args : QuoteArgs) (bs : List Backend)
    → All (IsQuiet args) bs
    → (rs : List (Backend × Quote)) × (gather args bs ≡ ok rs)
unfolding gather
gather-returns args [] quiet = ([], refl)
gather-returns args (b ∷ bs) quiet =
    let (later, e) = gather-returns args bs quiet.1 in
    rw e (take_quote-returns args.amount b (b.quote_swap args) later quiet.0)

-- If every backend answers or fails with an error of the network or of THORChain, the call returns,
-- and the quotes that it returns are, in the order of the backends, those of each backend that
-- serves the request, and of no other.
pub gather_quotes-Gathered :
    (backends : List Backend) (from_asset to_asset : Str) (amount : ℤ) (destination : Option Str)
    (tolerance_bps interval quantity : Option ℤ)
    → All
        (IsQuiet
          (quote_args from_asset to_asset amount destination tolerance_bps interval quantity))
        backends
    → (results : List (Backend × Quote)) × (gather_quotes backends from_asset to_asset amount
          destination tolerance_bps interval quantity
        ≡ ok results)
      × Gathered
          (quote_args from_asset to_asset amount destination tolerance_bps interval quantity)
          backends
          results
unfolding gather_quotes
gather_quotes-Gathered backends from_asset to_asset amount destination tolerance_bps interval
      quantity quiet =
    let args = quote_args from_asset to_asset amount destination tolerance_bps interval quantity in
    let (results, e) = gather-returns args backends quiet in
    (results, e, gather-Gathered args backends results e)
