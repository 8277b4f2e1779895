-- ===== src/Addresses/Laws.antt =====
-- The texts that the patterns take (src/cryptoswap_wallet/addresses.py).
use cryptoswap_wallet.Common.{
  ◌∙◌, All-map, IsHexDigit, ℕ, zero, suc, ◌≤◌, ◌-◌, Str, Bool, true, false, ◌&&◌, [], ◌∷◌, ◌++◌,
  ◌≡◌, ◌↔◌, ◌⊎◌, inl, inr, refl, ap, sym, length, none, some, text, str_eq, All, Bool-cases, arith,
  ◌==◌, ==_iff, &&_iff,
}
use cryptoswap_wallet.Addresses.{
  run, at_end, prefix, is_hex, judge, rule_of, validate_destination_address,
}

-- The rest of a text at `$`.
abbrev pub IsEnd : Str → Type 0
IsEnd s = (s ≡ []) ⊎ (s ≡ 10 ∷ [])

-- Characters of the class, as many as allowed, and the end.
pub record IsRun (cls : ℕ → Bool) (low high : ℕ) (s : Str) : Type 0 where
  pub body : Str
  pub rest : Str
  pub split : s ≡ body ++ rest
  pub within : All (λ c. cls c ≡ true) body
  pub at_least : low ≤ length body
  pub at_most : length body ≤ high
  pub ended : IsEnd rest

at_end-IsEnd : (s : Str) → at_end s ≡ true → IsEnd s
unfolding at_end
at_end-IsEnd [] h = inl refl
at_end-IsEnd (c ∷ []) h = inr (ap (λ x. x ∷ []) ((==_iff c 10).0 h))
at_end-IsEnd (c ∷ d ∷ s) h = cc h

-- Where the pattern stops at once.
stop-IsRun :
    (cls : ℕ → Bool) (low high : ℕ) (s : Str) → (low == 0 && at_end s) ≡ true → IsRun cls low high s
stop-IsRun cls low high s h = record {
  body = [];
  rest = s;
  split = refl;
  within = tt;
  at_least = ground arith;
  at_most = omega arith;
  ended = at_end-IsEnd s (((&&_iff (low == 0) (at_end s)).0 h).1);
}

extend :
    (cls : ℕ → Bool) (low high c : ℕ) (s : Str)
    → cls c ≡ true
    → IsRun cls (low - 1) high s
    → IsRun cls low (suc high) (c ∷ s)
extend cls low high c s e r = record {
  body = c ∷ r.body;
  rest = r.rest;
  split = ap (λ x. c ∷ x) r.split;
  within = (e, r.within);
  at_least = omega (arith, r.at_least);
  at_most = omega (arith, r.at_most);
  ended = r.ended;
}

-- A text that `C{low,high}$` takes is a run of the class, and at most a line feed after it.
pub run-IsRun :
    (cls : ℕ → Bool) (low high : ℕ) (s : Str) → run cls low high s ≡ true → IsRun cls low high s
unfolding run
run-IsRun cls low zero s h = stop-IsRun cls low zero s h
run-IsRun cls low (suc high) [] h = stop-IsRun cls low (suc high) [] ground arith
run-IsRun cls low (suc high) (c ∷ s) h = elim (Bool-cases (cls c)) [
  | inl e ↦ extend cls low high c s e (run-IsRun cls (low - 1) high s (rw e at h))
  | inr e ↦ stop-IsRun cls low (suc high) (c ∷ s) (rw e at h)
]

-- The class has no line feed.
run-end : (cls : ℕ → Bool) (high : ℕ) (s : Str) → cls 10 ≡ false → IsEnd s → run cls 0 high s ≡ true
unfolding run at_end
run-end cls zero s no_lf (inl e) = rw e
run-end cls zero s no_lf (inr e) = rw e
run-end cls (suc high) s no_lf (inl e) = rw e
run-end cls (suc high) s no_lf (inr e) = rw (e, no_lf)

zero_of : (n : ℕ) → n ≤ 0 → n ≡ 0
zero_of n h = omega (arith, h)

run-append :
    (cls : ℕ → Bool) (low high : ℕ) (body rest : Str)
    → cls 10 ≡ false
    → All (λ c. cls c ≡ true) body
    → low ≤ length body
    → length body ≤ high
    → IsEnd rest
    → run cls low high (body ++ rest) ≡ true
unfolding run
run-append cls low high [] rest no_lf within at_least at_most ended =
    rw (zero_of low at_least) (run-end cls high rest no_lf ended)
run-append cls low zero (c ∷ body) rest no_lf within at_least at_most ended = ground arith
run-append cls low (suc high) (c ∷ body) rest no_lf within at_least at_most ended = rw (within.0) (
    run-append cls (low - 1) high body rest no_lf within.1 (omega (arith, at_least))
      (omega (arith, at_most)) ended)

-- A pattern takes the runs of its class and no other text, if a line feed is not of the class.
pub run_iff :
    (cls : ℕ → Bool) (low high : ℕ) (s : Str)
    → cls 10 ≡ false
    → (run cls low high s ≡ true) ↔ IsRun cls low high s
run_iff cls low high s no_lf = (
  run-IsRun cls low high s,
  λ r.
      rw (r.split)
        (run-append cls low high r.body r.rest no_lf r.within r.at_least r.at_most r.ended),
)

prefix_iff :
    (ps : Str) (next : Str → Bool) (s : Str)
    → (prefix ps next s ≡ true) ↔ ((t : Str) × ((s ≡ ps ++ t) × (next t ≡ true)))
unfolding prefix
prefix_iff [] next s = (λ h. (s, (refl, h)), λ h. rw (sym (h.1.0)) at (h.1.1))
prefix_iff (p ∷ ps) next [] = (λ h. cc h, λ h. cc (h.1.0))
prefix_iff (p ∷ ps) next (c ∷ s) = (
  λ h.
      let both = (&&_iff (p == c) (prefix ps next s)).0 h in
      let more = (prefix_iff ps next s).0 both.1 in
      (more.0, (cc ((==_iff p c).0 both.0, more.1.0), more.1.1)),
  λ h.
      (&&_iff (p == c) (prefix ps next s)).1
        ((==_iff p c).1 (cc (h.1.0)), (prefix_iff ps next s).1 (h.0, (cc (h.1.0), h.1.1))),
)

is_hex_lf : is_hex 10 ≡ false
unfolding is_hex
is_hex_lf = refl

judge_iff :
    (chain address : Str) (rule : Str → Bool)
    → (judge chain address (some rule) ≡ none) ↔ (rule address ≡ true)
unfolding judge
judge_iff chain address rule = elim (Bool-cases (rule address)) [
  | inl t ↦ (λ h. t, λ h. rw t)
  | inr f ↦ (λ h. cc (rw f at h), λ h. cc (rw f at h))
]

is_hex_iff : (c : ℕ) → (is_hex c ≡ true) ↔ IsHexDigit c
unfolding is_hex
is_hex_iff c = ground arith

-- "0x", forty hexadecimal digits, and perhaps a line feed.
abbrev pub IsEthAddress : Str → Type 0
IsEthAddress address =
    (digits : Str) × (rest : Str) × (address ≡ text "0x" ++ (digits ++ rest))
    × All IsHexDigit digits
    × (length digits ≡ 40)
    × IsEnd rest

run-hex_iff :
    (address : Str)
    → ((t : Str) × ((address ≡ text "0x" ++ t) × (run is_hex 40 40 t ≡ true)))
      ↔ IsEthAddress address
run-hex_iff address = (
  λ (t, (whole, taken)).
      let r = run-IsRun is_hex 40 40 t taken in
      (
        r.body,
        r.rest,
        whole ∙ ap (λ l. text "0x" ++ l) r.split,
        All-map (λ c. (is_hex_iff c).0) r.body r.within,
        omega (arith, r.at_least, r.at_most),
        r.ended,
      ),
  λ (digits, rest, whole, hexed, forty, ended). (
    digits ++ rest,
    (
      whole,
      run-append is_hex 40 40 digits rest is_hex_lf (All-map (λ c. (is_hex_iff c).1) digits hexed)
          (omega (arith, forty)) (omega (arith, forty)) ended,
    ),
  ),
)

-- An address is taken as one of Ethereum exactly when it is "0x" and forty hexadecimal digits of
-- either case, or this and a line feed.
pub validate_destination_address-eth :
    (address : Str)
    → (validate_destination_address (text "ETH") address ≡ none) ↔ IsEthAddress address
unfolding validate_destination_address rule_of str_eq
validate_destination_address-eth [] =
    (λ h. cc h, λ (digits, rest, whole, hexed, forty, ended). cc whole)
validate_destination_address-eth (c ∷ s) =
    let judged = judge_iff (text "ETH") (c ∷ s) (prefix (text "0x") (run is_hex 40 40)) in
    let split = prefix_iff (text "0x") (run is_hex 40 40) (c ∷ s) in
    (
      λ h. (run-hex_iff (c ∷ s)).0 (split.0 (judged.0 h)),
      λ a. judged.1 (split.1 ((run-hex_iff (c ∷ s)).1 a)),
    )
