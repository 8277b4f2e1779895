-- ===== src/Thorchain/Parse/Position.antt =====
-- What `parse_liquidity_provider` reports (src/cryptoswap_wallet/thorchain.py).
use cryptoswap_wallet.Common.{
  subst, ◌≢◌, ◌⊎◌, ap, some_inj, pos, Str, Bool, true, false, [], none, some, ◌≡◌, refl, text,
  if◌then◌else◌, arith, Bool-cases, inl, inr, ◌↔◌,
}
use cryptoswap_wallet.Result.{Result, ok, err, ◌>>=◌, >>=-eq-ok, ok_inj}
use cryptoswap_wallet.Thorchain.Json.{
  Json, null, num, str, dict, Fields, boolean, array, get_or, to_int, to_text, has_key,
}
use cryptoswap_wallet.Thorchain.Types.{LiquidityPosition}
use cryptoswap_wallet.Thorchain.Parse.{parse_liquidity_provider, read_position, is_worth}

is_worth_iff :
    (p : LiquidityPosition)
    → (is_worth p ≡ true) ↔ (
        (p.asset_redeem_value ≢ pos 0)
        ⊎ ((p.pending_asset ≢ pos 0) ⊎ (p.protocol_redeem_value ≢ pos 0)))
is_worth_iff p = ground arith

worth_reporting :
    (failed : Bool) (read : Result LiquidityPosition) (p : LiquidityPosition)
    → ((if failed then ok none else read >>= λ q. ok (if is_worth q then some q else none))
        ≡ ok (some p))
      ↔ ((failed ≡ false) × (read ≡ ok p) × (is_worth p ≡ true))
worth_reporting true read p = (λ h. cc h, λ h. cc (h.0))
worth_reporting false (err e) p = (λ h. cc h, λ h. cc (h.1))
worth_reporting false (ok q) p = elim (Bool-cases (is_worth q)) [
  | inl e ↦ rw e (
    λ h. let same = some_inj (ok_inj h) in (refl, ap ok same, rw (← same) e),
    λ h. ap (λ (t : LiquidityPosition). ok (some t)) (ok_inj h.1),
  )
  | inr e ↦ rw e (λ h. cc (ok_inj h), λ h. cc (e, h.2, ok_inj h.1))
]

to_text-str : (j : Json) (s : Str) → to_text j ≡ ok s → j ≡ str s
to_text-str (str t) s h = ap str (ok_inj h)
to_text-str null s h = cc h
to_text-str (num n) s h = cc h
to_text-str (dict fields) s h = cc h
to_text-str (boolean b) s h = cc h
to_text-str (array vs) s h = cc h

-- What the fields of a payload say of a position. A missing amount is 0; an amount of the protocol's
-- asset stands under a `rune_` name or else under a `cacao_` name.
pub record SaysPosition (payload : Fields) (p : LiquidityPosition) : Type 0 where
  pub pool : get_or (text "asset") (str []) payload ≡ str p.pool
  pub asset_address : get_or (text "asset_address") (str []) payload ≡ str p.asset_address
  pub units : to_int (get_or (text "units") (str (text "0")) payload) ≡ ok p.units
  pub asset_redeem_value :
      to_int (get_or (text "asset_redeem_value") (str (text "0")) payload) ≡ ok p.asset_redeem_value
  pub pending_asset :
      to_int (get_or (text "pending_asset") (str (text "0")) payload) ≡ ok p.pending_asset
  pub protocol_redeem_value :
      to_int (
        get_or
          (text "rune_redeem_value")
          (get_or (text "cacao_redeem_value") (str (text "0")) payload)
          payload)
      ≡ ok p.protocol_redeem_value
  pub asset_deposit_value :
      to_int (get_or (text "asset_deposit_value") (str (text "0")) payload)
      ≡ ok p.asset_deposit_value
  pub protocol_deposit_value :
      to_int (
        get_or
          (text "rune_deposit_value")
          (get_or (text "cacao_deposit_value") (str (text "0")) payload)
          payload)
      ≡ ok p.protocol_deposit_value

read_position_iff :
    (payload : Fields) (p : LiquidityPosition)
    → (read_position payload ≡ ok p) ↔ SaysPosition payload p
unfolding read_position
read_position_iff payload p = (
  λ h.
      let (pool, e1, h1) = >>=-eq-ok (to_text (get_or (text "asset") (str []) payload)) _ h in
      let (address, e2, h2) =
        >>=-eq-ok (to_text (get_or (text "asset_address") (str []) payload)) _ h1 in
      let (units, e3, h3) = >>=-eq-ok (to_int (get_or (text "units") _ payload)) _ h2 in
      let (redeem, e4, h4) =
        >>=-eq-ok (to_int (get_or (text "asset_redeem_value") _ payload)) _ h3 in
      let (pending, e5, h5) = >>=-eq-ok (to_int (get_or (text "pending_asset") _ payload)) _ h4 in
      let (protocol, e6, h6) =
        >>=-eq-ok (to_int (get_or (text "rune_redeem_value") _ payload)) _ h5 in
      let (deposit, e7, h7) =
        >>=-eq-ok (to_int (get_or (text "asset_deposit_value") _ payload)) _ h6 in
      let (protocol', e8, h8) =
        >>=-eq-ok (to_int (get_or (text "rune_deposit_value") _ payload)) _ h7 in
      subst (SaysPosition payload) (ok_inj h8) (record {
        pool = to_text-str _ pool e1;
        asset_address = to_text-str _ address e2;
        units = e3;
        asset_redeem_value = e4;
        pending_asset = e5;
        protocol_redeem_value = e6;
        asset_deposit_value = e7;
        protocol_deposit_value = e8;
      }),
  λ r.
      rw
        (
          r.pool, r.asset_address, r.units, r.asset_redeem_value, r.pending_asset,
          r.protocol_redeem_value, r.asset_deposit_value, r.protocol_deposit_value,
        )
        refl,
)

-- A pool position is reported exactly if there is no error field, its fields are what the payload
-- says under their names, a missing amount being 0, and something is redeemable or pending.
pub parse_liquidity_provider_iff :
    (payload : Fields) (p : LiquidityPosition)
    → (parse_liquidity_provider payload ≡ ok (some p)) ↔ (
        (has_key (text "error") payload ≡ false)
        × SaysPosition payload p
        × ((p.asset_redeem_value ≢ pos 0)
            ⊎ ((p.pending_asset ≢ pos 0) ⊎ (p.protocol_redeem_value ≢ pos 0))))
unfolding parse_liquidity_provider
parse_liquidity_provider_iff payload p = (
  λ h.
      let parts = (worth_reporting _ (read_position payload) p).0 h in
      (parts.0, (read_position_iff payload p).0 (parts.1), (is_worth_iff p).0 parts.2),
  λ h.
      (worth_reporting _ (read_position payload) p).1
        (h.0, (read_position_iff payload p).1 h.1, (is_worth_iff p).1 h.2),
)
