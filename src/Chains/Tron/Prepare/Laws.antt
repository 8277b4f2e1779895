-- ===== src/Chains/Tron/Prepare/Laws.antt =====
-- What the TRON adapter builds, when its gates accept it, and the policy that they enforce.
use cryptoswap_wallet.Common.{
  ℤ, pos, Str, [], ◌∷◌, Option, ◌≡◌, inl, inr, refl, sym, ◌∙◌, subst, text, str_eq_refl,
}
use cryptoswap_wallet.Result.{ok, ok_inj, >>=-eq-ok}
use cryptoswap_wallet.Verify.Types.{TronSwapPlan, TronTokenSwapPlan}
use cryptoswap_wallet.Verify.Tron.{TronTx}
use cryptoswap_wallet.Chains.Tron.Types.{
  TronLibs, Documented, HoldsMemo, CallsTransfer, IsBase58, BuiltTronTx, TronAdapter, with_memo,
  trc20_transfer_selector,
}
use cryptoswap_wallet.Chains.Tron.Build.{
  read_memo, decode_trc20_transfer, account_of, build_unsigned_transfer,
  build_unsigned_trc20_transfer,
}
use cryptoswap_wallet.Chains.Tron.Prepare.{native_fields}

abbrev pub transfer_to : Str → Str → ℤ → Str → TronTx
transfer_to contract_type to amount memo = record {
  contract_type = contract_type;
  to_address = to;
  amount_sun = amount;
  memo = memo;
}

tx_eq :
    {t t' a a' m m' : Str} {n n' : ℤ}
    → t ≡ t'
    → a ≡ a'
    → n ≡ n'
    → m ≡ m'
    → transfer_to t a n m ≡ transfer_to t' a' n' m'
tx_eq e f g h = cc (e, f, g, h)

abbrev pub native_plan : Str → ℤ → Str → ℤ → Str → TronSwapPlan
native_plan to amount memo expiry destination = record {
  inbound_address = to;
  amount_sun = amount;
  memo = memo;
  expiry = expiry;
  destination = destination;
}

abbrev pub token_plan : Str → Str → ℤ → Str → ℤ → Str → TronTokenSwapPlan
token_plan to token amount memo expiry destination = record {
  inbound_address = to;
  token = token;
  amount = amount;
  memo = memo;
  expiry = expiry;
  destination = destination;
}

read_memo-HoldsMemo : (memo : Str) (d : Option Str) → HoldsMemo memo d → read_memo d ≡ ok memo
unfolding read_memo
read_memo-HoldsMemo memo d (inl (empty, absent)) = rw (absent, empty) refl
read_memo-HoldsMemo memo d (inr ([], bytes, is_s, some_data, read, decoded)) =
    absurd (some_data refl)
read_memo-HoldsMemo memo d (inr (c ∷ s, bytes, is_s, some_data, read, decoded)) =
    rw (is_s, read, decoded) refl

module _ (libs : TronLibs) where
  open libs use {PrivateKey, Tx}

  decode_trc20_transfer-CallsTransfer :
      (calldata to : Str) (amount : ℤ)
      → CallsTransfer libs calldata to amount
      → decode_trc20_transfer libs calldata ≡ ok (to, amount)
  unfolding decode_trc20_transfer
  decode_trc20_transfer-CallsTransfer calldata to amount (raw, read, selector, decoded) =
      rw (read, selector, str_eq_refl trc20_transfer_selector, decoded) refl

module _ (libs : TronLibs) (laws : Documented libs) (self : TronAdapter) where
  open libs use {PrivateKey, Tx}

  -- The native transfer that is built has the recipient, the amount and the memo that it was given.
  pub build_unsigned_transfer-fields :
      (mnemonic to : Str) (amount : ℤ) (memo path : Str) (built : BuiltTronTx PrivateKey Tx)
      → IsBase58 libs to
      → build_unsigned_transfer libs self mnemonic to amount memo path ≡ ok built
      → native_fields built ≡ transfer_to (text "TransferContract") to amount memo
  unfolding build_unsigned_transfer
  build_unsigned_transfer-fields mnemonic to amount memo path built base58 h =
      let (account, _, h1) = >>=-eq-ok (account_of libs self mnemonic path) _ h in
      let (priv, _, h2) = >>=-eq-ok (libs.private_key account.0) _ h1 in
      let (start, started, h3) =
        >>=-eq-ok (libs.transfer (libs.owner_address priv) to amount) _ h2 in
      let (builder, noted, h4) = >>=-eq-ok (with_memo libs start memo) _ h3 in
      let (tx, was_built, h5) = >>=-eq-ok (libs.build self.api_url builder) _ h4 in
      let (to', is_to, h6) = >>=-eq-ok (libs.to_base58check_address (libs.paid_to tx)) _ h5 in
      let (memo', is_memo, h7) = >>=-eq-ok (read_memo (libs.memo_data tx)) _ h6 in
      let (type_of, paid, amount_of, held) =
        laws.transfer_built (libs.owner_address priv) to amount memo self.api_url start builder tx
          started noted was_built base58 in
      let same_to : to' ≡ to = ok_inj (sym is_to ∙ paid) in
      let same_memo : memo' ≡ memo =
        ok_inj (sym is_memo ∙ read_memo-HoldsMemo memo (libs.memo_data tx) held) in
      subst (λ b. native_fields b ≡ transfer_to (text "TransferContract") to amount memo)
        (ok_inj h7) (tx_eq type_of same_to amount_of same_memo)

  -- The TRC-20 transfer that is built calls the token, without TRX, with the memo that it was given,
  -- and its calldata is decoded to the recipient and the amount.
  pub build_unsigned_trc20_transfer-fields :
      (mnemonic token to : Str) (amount : ℤ) (memo : Str) (fee_limit : ℤ) (path : Str)
      (built : BuiltTronTx PrivateKey Tx)
      → IsBase58 libs token
      → IsBase58 libs to
      → build_unsigned_trc20_transfer libs self mnemonic token to amount memo fee_limit path
        ≡ ok built
      → (native_fields built ≡ transfer_to (text "TriggerSmartContract") token (pos 0) memo)
        × (decode_trc20_transfer libs built.call_data ≡ ok (to, amount))
  unfolding build_unsigned_trc20_transfer
  build_unsigned_trc20_transfer-fields mnemonic token to amount memo fee_limit path built base58
        base58' h =
      let (account, _, h1) = >>=-eq-ok (account_of libs self mnemonic path) _ h in
      let (priv, _, h2) = >>=-eq-ok (libs.private_key account.0) _ h1 in
      let (start, started, h3) =
        >>=-eq-ok (libs.trc20_transfer token to amount (libs.owner_address priv) fee_limit) _ h2 in
      let (builder, noted, h4) = >>=-eq-ok (with_memo libs start memo) _ h3 in
      let (tx, was_built, h5) = >>=-eq-ok (libs.build self.api_url builder) _ h4 in
      let (called, is_called, h6) = >>=-eq-ok (libs.to_base58check_address (libs.called tx)) _ h5 in
      let (memo', is_memo, h7) = >>=-eq-ok (read_memo (libs.memo_data tx)) _ h6 in
      let (type_of, calls, transfers, held) =
        laws.trc20_transfer_built token to amount (libs.owner_address priv) fee_limit memo
          self.api_url start builder tx started noted was_built base58 base58' in
      let same_token : called ≡ token = ok_inj (sym is_called ∙ calls) in
      let same_memo : memo' ≡ memo =
        ok_inj (sym is_memo ∙ read_memo-HoldsMemo memo (libs.memo_data tx) held) in
      subst
        (λ b.
          (native_fields b ≡ transfer_to (text "TriggerSmartContract") token (pos 0) memo)
          × (decode_trc20_transfer libs b.call_data ≡ ok (to, amount)))
        (ok_inj h7)
        (
          tx_eq type_of same_token refl same_memo,
          decode_trc20_transfer-CallsTransfer libs (libs.call_data tx) to amount transfers,
        )
