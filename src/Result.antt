-- ===== src/Result.antt =====
-- The exceptions that the program raises and catches, and results that may be one of them.
use cryptoswap_wallet.Common.{ℤ, Str, Bool, true, false, List, Option, none, some, ◌≡◌, refl, ap}
use cryptoswap_wallet.Verify.Types.{Problem}

-- Why a `SwapAborted` was raised (src/cryptoswap_wallet/swap.py and cli.py).
pub data Abort : Type 0 where
  not_tradable : Str → Abort
  -- a quote rejected for its price limit, and for any other reason
  price_limit : Str → Abort
  quote_rejected : Str → Abort
  below_minimum : ℤ → ℤ → Abort
  no_memo : Abort
  no_vault : Str → Abort
  deposits_paused : Str → Abort
  gate_refused : List Problem → Abort
  no_backend : Abort

pub data Error : Type 0 where
  swap_aborted : Abort → Error
  insufficient_funds : Error
  thorchain_error : Str → Error
  http_error : Error
  broadcast_error : Str → Error
  keystore_error : Error
  value_error : Error
  unicode_encode_error : Error
  key_error : Error
  type_error : Error
  runtime_error : Str → Error
  index_error : Error
  not_implemented_error : Error

-- A value, or the exception that was raised in its place.
pub data Result {ℓ} (T : Type ℓ) : Type ℓ where
  err : Error → Result T
  ok : T → Result T

-- `if bad: raise e`
abbrev pub raise_if : Bool → Error → Result (Unit {0})
raise_if true e = err e
raise_if false e = ok tt

-- `raise e` where a value is missing.
abbrev pub or_raise {ℓ} : {T : Type ℓ} → Option T → Error → Result T
or_raise none e = err e
or_raise (some v) e = ok v

-- The next statement runs on the value of the first, unless that raised.
infixl 5 ◌>>=◌
abbrev pub ◌>>=◌ {κ ℓ} : {U : Type κ} {T : Type ℓ} → Result T → (T → Result U) → Result U
err e >>= next = err e
ok v >>= next = next v

infixl 5 ◌>>◌
abbrev pub ◌>>◌ {κ} : {U : Type κ} → Result (Unit {0}) → Result U → Result U
check >> next = check >>= λ _. next

-- If both statements together return, then the first returned a value and the second that result.
pub >>=-eq-ok :
    {T U : Type 0} (step : Result T) (next : T → Result U) {u : U}
    → (step >>= next) ≡ ok u
    → (v : T) × (step ≡ ok v) × (next v ≡ ok u)
>>=-eq-ok (err e) next returned = cc returned
>>=-eq-ok (ok v) next returned = (v, refl, returned)

pub raise_if-eq-ok :
    {B : Type 0} (bad : Bool) (e : Error) (k : Result B) {b : B}
    → (raise_if bad e >> k) ≡ ok b
    → (bad ≡ false) × (k ≡ ok b)
raise_if-eq-ok true e k h = cc h
raise_if-eq-ok false e k h = (refl, h)

pub ok_inj : {A : Type 0} {a b : A} → ok a ≡ ok b → a ≡ b
ok_inj h = cc

pub bind_ok :
    {A B : Type 0} (m : Result A) (f : A → Result B) {a : A} {b : B}
    → m ≡ ok a
    → f a ≡ ok b
    → (m >>= f) ≡ ok b
bind_ok (ok a') f e h = cc (ap f (ok_inj e), h)
bind_ok (err x) f e h = cc e
