-- ===== src/Chains/Tron/Prepare/Reads.antt =====
-- What the TRON adapter reads back from the transactions that it built.
use cryptoswap_wallet.Common.{
  none, ◌∷◌, Option, Bytes, refl, sym, from_hex, decode_utf8, hex, take, str_eq, str_eq_iff, ℤ, Str,
  [], some, ◌≡◌, ◌⊎◌, inl, inr, ap, subst, Bool-cases,
}
use cryptoswap_wallet.Result.{Error, or_raise, value_error, ok, ok_inj, >>=-eq-ok}
use cryptoswap_wallet.Chains.Eth.Calldata.{remove_0x}
use cryptoswap_wallet.Chains.Tron.Types.{
  TronLibs, CallsTransfer, with_memo, trc20_transfer_selector, BuiltTronTx, TronAdapter,
}
use cryptoswap_wallet.Chains.Tron.Build.{
  read_memo, account_of, decode_trc20_transfer, build_unsigned_transfer,
  build_unsigned_trc20_transfer,
}

-- The data of a transaction is a memo in UTF-8 as hex; an empty memo may also be no data.
abbrev pub Carries : Str → Option Str → Type 0
Carries memo data_hex =
    ((memo ≡ []) × ((data_hex ≡ none) ⊎ (data_hex ≡ some [])))
    ⊎ ((s : Str) × (bytes : Bytes) × (data_hex ≡ some s)
        × (from_hex s ≡ some bytes)
        × (decode_utf8 bytes ≡ some memo))

or_raise-some : {T : Type 0} (o : Option T) (e : Error) (v : T) → or_raise o e ≡ ok v → o ≡ some v
or_raise-some none e v h = cc h
or_raise-some (some w) e v h = ap some (ok_inj h)

pub read_memo-Carries : (d : Option Str) (memo : Str) → read_memo d ≡ ok memo → Carries memo d
unfolding read_memo
read_memo-Carries none memo h = inl (sym (ok_inj h), inl refl)
read_memo-Carries (some []) memo h = inl (sym (ok_inj h), inr refl)
read_memo-Carries (some (c ∷ s)) memo h =
    let (bytes, read, h1) = >>=-eq-ok (or_raise (from_hex (c ∷ s)) value_error) _ h in
    inr (
      c ∷ s,
      bytes,
      refl,
      or_raise-some (from_hex (c ∷ s)) value_error bytes read,
      or_raise-some (decode_utf8 bytes) value_error memo h1,
    )

module _ (libs : TronLibs) where
  open libs use {PrivateKey, Tx}

  -- The summary of a native transfer is read from the transaction.
  pub record ReadsTransfer (built : BuiltTronTx PrivateKey Tx) : Type 0 where
    pub kind : libs.contract_type built.tx ≡ built.contract_type
    pub paid : libs.to_base58check_address (libs.paid_to built.tx) ≡ ok built.to_address
    pub amount : libs.paid_amount built.tx ≡ built.amount_sun
    pub memo : read_memo (libs.memo_data built.tx) ≡ ok built.memo

  -- The summary of a call of a token is read from the transaction.
  pub record ReadsCall (built : BuiltTronTx PrivateKey Tx) : Type 0 where
    pub kind : libs.contract_type built.tx ≡ built.contract_type
    pub called : libs.to_base58check_address (libs.called built.tx) ≡ ok built.to_address
    pub calldata : libs.call_data built.tx ≡ built.call_data
    pub memo : read_memo (libs.memo_data built.tx) ≡ ok built.memo

  pub decode_trc20_transfer-calls :
      (calldata : Str) (call : Str × ℤ)
      → decode_trc20_transfer libs calldata ≡ ok call
      → CallsTransfer libs calldata call.0 call.1
  unfolding decode_trc20_transfer
  decode_trc20_transfer-calls calldata call h =
      let (raw, read, h1) = >>=-eq-ok (or_raise (from_hex (remove_0x calldata)) value_error) _ h in
      elim (Bool-cases (str_eq (hex (take 4 raw)) trc20_transfer_selector)) [
        | inl e ↦ (
          raw,
          or_raise-some (from_hex (remove_0x calldata)) value_error raw read,
          (str_eq_iff _ _).0 e,
          rw e at h1,
        )
        | inr e ↦ cc (rw e at h1)
      ]

  pub call_eq :
      {d e to to' : Str} {n n' : ℤ}
      → e ≡ d
      → to ≡ to'
      → n ≡ n'
      → CallsTransfer libs d to n
      → CallsTransfer libs e to' n'
  call_eq {d} {e} {to} {to'} {n} {n'} same_data same_to same_amount c =
      subst (λ x. CallsTransfer libs x to' n') (sym same_data)
        (subst (λ t. CallsTransfer libs d t n') same_to
          (subst (λ m. CallsTransfer libs d to m) same_amount c))

module _ (libs : TronLibs) (self : TronAdapter) where
  open libs use {PrivateKey, Tx}

  pub build_unsigned_transfer-ReadsTransfer :
      (mnemonic to : Str) (amount : ℤ) (memo path : Str) (built : BuiltTronTx PrivateKey Tx)
      → build_unsigned_transfer libs self mnemonic to amount memo path ≡ ok built
      → ReadsTransfer libs built
  unfolding build_unsigned_transfer
  build_unsigned_transfer-ReadsTransfer mnemonic to amount memo path built h =
      let (account, _, h1) = >>=-eq-ok (account_of libs self mnemonic path) _ h in
      let (priv, _, h2) = >>=-eq-ok (libs.private_key account.0) _ h1 in
      let (start, _, h3) = >>=-eq-ok (libs.transfer (libs.owner_address priv) to amount) _ h2 in
      let (builder, _, h4) = >>=-eq-ok (with_memo libs start memo) _ h3 in
      let (tx, _, h5) = >>=-eq-ok (libs.build self.api_url builder) _ h4 in
      let (paid, is_paid, h6) = >>=-eq-ok (libs.to_base58check_address (libs.paid_to tx)) _ h5 in
      let (read, is_read, h7) = >>=-eq-ok (read_memo (libs.memo_data tx)) _ h6 in
      subst (ReadsTransfer libs) (ok_inj h7)
        (record { kind = refl; paid = is_paid; amount = refl; memo = is_read })

  pub build_unsigned_trc20_transfer-ReadsCall :
      (mnemonic token to : Str) (amount : ℤ) (memo : Str) (fee_limit : ℤ) (path : Str)
      (built : BuiltTronTx PrivateKey Tx)
      → build_unsigned_trc20_transfer libs self mnemonic token to amount memo fee_limit path
        ≡ ok built
      → ReadsCall libs built
  unfolding build_unsigned_trc20_transfer
  build_unsigned_trc20_transfer-ReadsCall mnemonic token to amount memo fee_limit path built h =
      let (account, _, h1) = >>=-eq-ok (account_of libs self mnemonic path) _ h in
      let (priv, _, h2) = >>=-eq-ok (libs.private_key account.0) _ h1 in
      let (start, _, h3) =
        >>=-eq-ok (libs.trc20_transfer token to amount (libs.owner_address priv) fee_limit) _ h2 in
      let (builder, _, h4) = >>=-eq-ok (with_memo libs start memo) _ h3 in
      let (tx, _, h5) = >>=-eq-ok (libs.build self.api_url builder) _ h4 in
      let (called, is_called, h6) = >>=-eq-ok (libs.to_base58check_address (libs.called tx)) _ h5 in
      let (read, is_read, h7) = >>=-eq-ok (read_memo (libs.memo_data tx)) _ h6 in
      subst (ReadsCall libs) (ok_inj h7)
        (record { kind = refl; called = is_called; calldata = refl; memo = is_read })
