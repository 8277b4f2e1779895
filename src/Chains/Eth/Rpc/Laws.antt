-- ===== src/Chains/Eth/Rpc/Laws.antt =====
-- What `broadcast` posts, returns and raises.
use cryptoswap_wallet.Common.{
  pos, Str, true, false, List, [], ◌∷◌, ◌++◌, Option, none, some, ◌≡◌, ◌≢◌, ◌⊎◌, inl, inr, refl, ap,
  text, ◌<ℤ◌, ◌≤ℤ◌, leb_ℤ, leb_ℤ_iff, leb_ℤ-false, Bool-cases, str_eq,
}
use cryptoswap_wallet.Result.{
  Result, ok, err, ◌>>=◌, ◌>>◌, or_raise, Error, runtime_error, broadcast_error, http_error,
  type_error,
}
use cryptoswap_wallet.Net.{Post, Response, raise_for_status, read_json}
use cryptoswap_wallet.Thorchain.Json.{
  Json, null, boolean, num, str, array, dict, nil, item, Fields, end, field, get, get_or, truthy,
  has_key,
}
use cryptoswap_wallet.Chains.Eth.Types.{EthAdapter}
use cryptoswap_wallet.Chains.Eth.Rpc.{
  rpc, read_answer, show, post_all, broadcast, as_broadcast_error,
}

-- An exception of the HTTP library, as `broadcast` passes it on; a `RuntimeError` is wrapped.
abbrev pub PassesOn : Error → Error → Type 0
PassesOn e e' =
    ((message : Str) × (e ≡ runtime_error message) × (e' ≡ broadcast_error message))
    ⊎ (((message : Str) → e ≢ runtime_error message) × (e' ≡ e))

passes_on : (e : Error) → (e' : Error) × (as_broadcast_error (err e) ≡ err e') × PassesOn e e'
passes_on (runtime_error message) = (_, refl, inl (message, refl, refl))
passes_on e = (e, refl, inr (λ m h. cc h, refl))

module _ (post : Post) (py_str : Json → Str) (self : EthAdapter) where
  -- The text of a JSON value: a text is its own.
  abbrev pub written : Json → Str
  written (str s) = s
  written null = py_str null
  written (boolean b) = py_str (boolean b)
  written (num n) = py_str (num n)
  written (array vs) = py_str (array vs)
  written (dict fields) = py_str (dict fields)

  show-written : (v : Json) → show post py_str self v ≡ written v
  unfolding show
  show-written (str s) = refl
  show-written null = refl
  show-written (boolean b) = refl
  show-written (num n) = refl
  show-written (array vs) = refl
  show-written (dict fields) = refl

  -- The request that posts a transaction.
  abbrev pub request : Str → Json
  request raw = dict (
      field (text "jsonrpc") (str (text "2.0")) (
        field (text "id") (num (pos 1)) (
          field (text "method") (str (text "eth_sendRawTransaction"))
            (field (text "params") (array (item (str raw) nil)) end))))

  -- What `broadcast` makes of the node's answer to one transaction.
  pub data Answers (raw : Str) : Result Json → Type 0 where
    -- the request fails, with an exception of the HTTP library
    failed :
        (e e' : Error)
        → post self.rpc_url (request raw) ≡ err e
        → PassesOn e e'
        → Answers raw (err e')
    -- the status is 400 or more
    bad_status :
        (resp : Response)
        → post self.rpc_url (request raw) ≡ ok resp
        → pos 400 ≤ℤ resp.status_code
        → Answers raw (err http_error)
    not_json :
        (resp : Response)
        → post self.rpc_url (request raw) ≡ ok resp
        → resp.status_code <ℤ pos 400
        → resp.json ≡ none
        → Answers raw (err http_error)
    not_object :
        (resp : Response) (v : Json)
        → post self.rpc_url (request raw) ≡ ok resp
        → resp.status_code <ℤ pos 400
        → resp.json ≡ some v
        → ((fields : Fields) → v ≢ dict fields)
        → Answers raw (err type_error)
    -- the node reports an error
    node_error :
        (resp : Response) (fields : Fields)
        → post self.rpc_url (request raw) ≡ ok resp
        → resp.status_code <ℤ pos 400
        → resp.json ≡ some (dict fields)
        → truthy (get_or (text "error") null fields) ≡ true
        → Answers raw (
            err (
              broadcast_error (
                text "RPC eth_sendRawTransaction: "
                ++ written (get_or (text "error") null fields))))
    no_result :
        (resp : Response) (fields : Fields)
        → post self.rpc_url (request raw) ≡ ok resp
        → resp.status_code <ℤ pos 400
        → resp.json ≡ some (dict fields)
        → truthy (get_or (text "error") null fields) ≡ false
        → get (text "result") fields ≡ none
        → Answers raw (
            err (
              broadcast_error (
                text "RPC eth_sendRawTransaction: malformed response (no result): "
                ++ py_str (dict fields))))
    -- the node accepts the transaction, and its result is this value
    accepted :
        (resp : Response) (fields : Fields) (v : Json)
        → post self.rpc_url (request raw) ≡ ok resp
        → resp.status_code <ℤ pos 400
        → resp.json ≡ some (dict fields)
        → truthy (get_or (text "error") null fields) ≡ false
        → get (text "result") fields ≡ some v
        → Answers raw (ok v)

  get-has_key :
      (k : Str) (fields : Fields)
      → ((get k fields ≡ none) × (has_key k fields ≡ false))
        ⊎ ((v : Json) × (get k fields ≡ some v) × (has_key k fields ≡ true))
  get-has_key k end = inl (refl, refl)
  get-has_key k (field j v fields) = elim (Bool-cases (str_eq j k)) [
    | inl e ↦ rw e (inr (v, refl, refl))
    | inr e ↦ rw e (get-has_key k fields)
  ]

  after_object :
      (raw : Str) (resp : Response) (fields : Fields)
      → post self.rpc_url (request raw) ≡ ok resp
      → resp.status_code <ℤ pos 400
      → resp.json ≡ some (dict fields)
      → Answers raw (
          as_broadcast_error
            (read_answer post py_str self (text "eth_sendRawTransaction") (dict fields)))
  unfolding read_answer
  after_object raw resp fields posted good object =
      elim (Bool-cases (truthy (get_or (text "error") null fields))) [
        | inl e ↦
            rw (e, show-written (get_or (text "error") null fields))
              (node_error resp fields posted good object e)
        | inr e ↦ elim (get-has_key (text "result") fields) [
          | inl (absent, missing) ↦
              rw (e, missing, show-written (dict fields))
                (no_result resp fields posted good object e absent)
          | inr (v, present, there) ↦
              rw (e, there, present) (accepted resp fields v posted good object e present)
        ]
      ]

  -- The part of `rpc` that reads a payload.
  read_payload : Json → Result Json
  read_payload payload = read_answer post py_str self (text "eth_sendRawTransaction") payload

  after_json :
      (raw : Str) (resp : Response)
      → post self.rpc_url (request raw) ≡ ok resp
      → resp.status_code <ℤ pos 400
      → (o : Option Json) → resp.json ≡ o
      → Answers raw (as_broadcast_error (or_raise o http_error >>= read_payload))
  unfolding read_payload read_answer
  after_json raw resp posted good none read = not_json resp posted good read
  after_json raw resp posted good (some (dict fields)) read =
      after_object raw resp fields posted good read
  after_json raw resp posted good (some null) read =
      not_object resp null posted good read (λ f h. cc h)
  after_json raw resp posted good (some (boolean b)) read =
      not_object resp (boolean b) posted good read (λ f h. cc h)
  after_json raw resp posted good (some (num n)) read =
      not_object resp (num n) posted good read (λ f h. cc h)
  after_json raw resp posted good (some (str s)) read =
      not_object resp (str s) posted good read (λ f h. cc h)
  after_json raw resp posted good (some (array vs)) read =
      not_object resp (array vs) posted good read (λ f h. cc h)

  after_post :
      (raw : Str) (r : Result Response)
      → post self.rpc_url (request raw) ≡ r
      → Answers raw (
          as_broadcast_error
            (r >>= λ resp. raise_for_status resp >> (read_json resp >>= read_payload)))
  unfolding raise_for_status read_json
  after_post raw (err e) posted =
      let (e', same, passes) = passes_on e in rw same (failed e e' posted passes)
  after_post raw (ok resp) posted = elim (Bool-cases (leb_ℤ (pos 400) resp.status_code)) [
    | inl e ↦ rw e (bad_status resp posted ((leb_ℤ_iff (pos 400) resp.status_code).0 e))
    | inr e ↦
        rw e
          (after_json raw resp posted ((leb_ℤ-false (pos 400) resp.status_code).0 e) resp.json refl)
  ]

  -- The answer to one transaction, as `broadcast` takes it.
  abbrev answer : Str → Result Json
  answer raw =
      as_broadcast_error (rpc post py_str self (text "eth_sendRawTransaction") (str raw ∷ []))

  answers : (raw : Str) → Answers raw (answer raw)
  unfolding rpc read_payload
  answers raw = after_post raw (post self.rpc_url (request raw)) refl

  -- How the loop of `broadcast` ends, from the value of its variable, the transactions, those that
  -- were posted and the result. At the end of the transactions, the value is returned; a transaction
  -- that is refused is the last one posted, and its exception is raised.
  abbrev pub Ends : Json → List Str → List Str → Result Str → Type 0
  Ends txid [] posted result = (posted ≡ []) × (result ≡ ok (written txid))
  Ends txid (raw ∷ raws) posted result =
      ((e : Error) × Answers raw (err e) × (posted ≡ raw ∷ []) × (result ≡ err e))
      ⊎ ((v : Json) × (rest : List Str) × Answers raw (ok v)
          × (posted ≡ raw ∷ rest)
          × Ends v raws rest result)

  post_all-Ends :
      (txid : Json) (raws : List Str)
      → Ends txid raws
          (post_all post py_str self txid raws).0
          (post_all post py_str self txid raws).1
  unfolding post_all
  post_all-Ends txid [] = (refl, ap ok (show-written txid))
  post_all-Ends txid (raw ∷ raws) = go (answer raw) refl (answers raw) (λ v. post_all-Ends v raws)
    where
      go :
          (r : Result Json)
          → answer raw ≡ r
          → Answers raw r
          → ((v : Json)
              → Ends v raws
                  (post_all post py_str self v raws).0
                  (post_all post py_str self v raws).1)
          → Ends txid
              (raw ∷ raws)
              (post_all post py_str self txid (raw ∷ raws)).0
              (post_all post py_str self txid (raw ∷ raws)).1
      go (err e) same a rest = rw (post_all, same) (inl (e, a, refl, refl))
      go (ok v) same a rest = rw (post_all, same) (inr (v, _, a, refl, rest v))

  -- The transactions are posted in order, up to the first one that is refused, whose exception is
  -- raised: a `BroadcastError` with its message if the node reports an error or gives no result, and
  -- otherwise the exception of the request or of an answer that cannot be read, a `RuntimeError` of
  -- the request as a `BroadcastError`. If all are accepted, the text of the node's result for the last
  -- one is returned, and the empty text if there are none.
  pub broadcast-Ends :
      (raws : List Str)
      → Ends
          (str [])
          raws
          (post_all post py_str self (str []) raws).0
          (broadcast post py_str self raws)
  unfolding broadcast
  broadcast-Ends raws = post_all-Ends (str []) raws
