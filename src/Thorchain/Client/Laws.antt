-- ===== src/Thorchain/Client/Laws.antt =====
-- When a quote is taken from an answer, and what a request for one says.
use mathlib.Core.Option
use cryptoswap_wallet.Common.{
  arith, ℕ, ◌+◌, length, pos, ◌<ℤ◌, Str, List, [], ◌∷◌, ◌++◌, refl, str_eq, if◌then◌else◌, Option,
  none, some, ◌≡◌, ◌↔◌, inl, inr, text, leb_ℤ, leb_ℤ-false, Bool-cases,
}
use cryptoswap_wallet.Result.{ok, or_raise, http_error, >>=-eq-ok, bind_ok, ok_inj}
use cryptoswap_wallet.Net.{Response}
use cryptoswap_wallet.Thorchain.Json.{Json, Fields, dict, null, boolean, num, str, array}
use cryptoswap_wallet.Thorchain.Types.{Quote}
use cryptoswap_wallet.Thorchain.Parse.{to_dict, parse_quote}
use cryptoswap_wallet.Swap.Types.{QuoteArgs}
use cryptoswap_wallet.Thorchain.Client.{
  Http, Param, word, number, optional_word, optional_number, ThorchainClient, endpoint,
  quote_params, rejection, read_quote, quote_swap,
}

to_dict_iff : (j : Json) (fields : Fields) → (to_dict j ≡ ok fields) ↔ (j ≡ dict fields)
to_dict_iff (dict fs) fields = (λ h. cc (ok_inj h), λ h. cc h)
to_dict_iff null fields = (λ h. cc h, λ h. cc h)
to_dict_iff (boolean b) fields = (λ h. cc h, λ h. cc h)
to_dict_iff (num n) fields = (λ h. cc h, λ h. cc h)
to_dict_iff (str s) fields = (λ h. cc h, λ h. cc h)
to_dict_iff (array vs) fields = (λ h. cc h, λ h. cc h)

rejection-fails :
    (payload : Option Json) (body : Str) (q : Quote) → ¬ (rejection payload body ≡ ok q)
unfolding rejection
rejection-fails none body q h = cc h
rejection-fails (some payload) body q h =
    let (fields, e, failed) = >>=-eq-ok (to_dict payload) _ h in cc failed

or_raise_iff : (o : Option Json) (j : Json) → (or_raise o http_error ≡ ok j) ↔ (o ≡ some j)
or_raise_iff none j = (λ h. cc h, λ h. cc h)
or_raise_iff (some k) j = (λ h. cc (ok_inj h), λ h. cc h)

abbrev pub given : {A : Type 0} → Option A → ℕ
given none = 0
given (some v) = 1

-- An answer gives a quote exactly when its status is below 400 and its body is a JSON object that
-- parses as that quote.
abbrev pub Quotes : Response → Quote → Type 0
Quotes resp q =
    (resp.status_code <ℤ pos 400)
    × ((fields : Fields) × (resp.json ≡ some (dict fields)) × (parse_quote fields ≡ ok q))

read_quote_iff : (resp : Response) (q : Quote) → (read_quote resp ≡ ok q) ↔ Quotes resp q
unfolding read_quote
read_quote_iff resp q = elim (Bool-cases (leb_ℤ (pos 400) resp.status_code)) [
  | inl e ↦ rw e (
    λ h. absurd (rejection-fails resp.json resp.body q h),
    λ h. cc (e, (leb_ℤ-false (pos 400) resp.status_code).1 h.0),
  )
  | inr e ↦ rw e (
    λ h.
        let (payload, read, rest) = >>=-eq-ok (or_raise resp.json http_error) _ h in
        let (fields, object, parsed) = >>=-eq-ok (to_dict payload) _ rest in
        (
          (leb_ℤ-false (pos 400) resp.status_code).0 e,
          (
            fields,
            rw (← (to_dict_iff payload fields).0 object) ((or_raise_iff resp.json payload).0 read),
            parsed,
          ),
        ),
    λ h.
        let (fields, object, parsed) = h.1 in
        bind_ok (or_raise resp.json http_error) _ ((or_raise_iff resp.json (dict fields)).1 object)
          parsed,
  )
]

-- The value of a parameter of a request.
abbrev pub value_of : Str → List (Str × Param) → Option Param
value_of name [] = none
value_of name ((n, v) ∷ params) = if str_eq n name then some v else value_of name params

-- The parameters of a request for a quote: the assets and the amount, of the other arguments those
-- that are given, and nothing else.
pub record Asks (args : QuoteArgs) (params : List (Str × Param)) : Type 0 where
  pub from_asset : value_of (text "from_asset") params ≡ some (word args.from_asset)
  pub to_asset : value_of (text "to_asset") params ≡ some (word args.to_asset)
  pub amount : value_of (text "amount") params ≡ some (number args.amount)
  pub destination : value_of (text "destination") params ≡ Option.map word args.destination
  pub streaming_interval :
      value_of (text "streaming_interval") params ≡ Option.map number args.streaming_interval
  pub streaming_quantity :
      value_of (text "streaming_quantity") params ≡ Option.map number args.streaming_quantity
  pub tolerance_bps : value_of (text "tolerance_bps") params ≡ Option.map number args.tolerance_bps
  pub no_more :
      length params
      ≡ 3
        + given args.destination
        + given args.streaming_interval
        + given args.streaming_quantity
        + given args.tolerance_bps

quote_params-Asks : (args : QuoteArgs) → Asks args (quote_params args)
unfolding quote_params optional_word optional_number str_eq
quote_params-Asks args = record {
  from_asset = refl;
  to_asset = refl;
  amount = refl;
  destination = ground arith;
  streaming_interval = ground arith;
  streaming_quantity = ground arith;
  tolerance_bps = ground arith;
  no_more = ground arith;
}

-- The parameters of the request for a quote are the assets and the amount, of the other arguments
-- those that are given, and nothing else. The client returns a quote exactly when that request, to the
-- quote address of the network, is answered with a status below 400 by a JSON object that parses as
-- that quote.
pub quote_swap_iff :
    (http : Http) (self : ThorchainClient) (args : QuoteArgs) (q : Quote)
    → Asks args (quote_params args)
      × ((quote_swap http self args ≡ ok q) ↔ (
          (resp : Response) × (http
              (self.base_url ++ (text "/" ++ (self.path_prefix ++ text "/quote/swap")))
              (quote_params args)
              self.headers
            ≡ ok resp)
          × Quotes resp q))
unfolding quote_swap
quote_swap_iff http self args q = (
  quote_params-Asks args,
  (
    λ h.
        let (resp, sent, rest) =
          >>=-eq-ok (http (endpoint self (text "quote/swap")) (quote_params args) self.headers) _
            h in
        (resp, sent, (read_quote_iff resp q).0 rest),
    λ h.
        let (resp, sent, quoted) = h in
        bind_ok (http (endpoint self (text "quote/swap")) (quote_params args) self.headers) _ sent
          ((read_quote_iff resp q).1 quoted),
  ),
)
