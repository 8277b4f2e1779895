-- ===== src/Chains/Tron/Build.antt =====
-- The transactions that the TRON adapter builds, signs and broadcasts.
use cryptoswap_wallet.Common.{
  ℤ, pos, Str, List, [], ◌∷◌, ◌++◌, Option, none, some, text, hex, from_hex, take, drop,
  decode_utf8, str_eq, not, lower, is_in, if◌then◌else◌,
}
use cryptoswap_wallet.Result.{
  Result, ok, err, ◌>>=◌, ◌>>◌, raise_if, or_raise, value_error, broadcast_error,
}
use cryptoswap_wallet.Chains.Eth.Calldata.{remove_0x}
use cryptoswap_wallet.Chains.Tron.Types.{
  TronLibs, BuiltTronTx, TronAdapter, sent, refused, raised, with_memo, trc20_transfer_selector,
}

-- `bytes.fromhex(data).decode() if data else ""`
unfoldable pub read_memo : Option Str → Result Str
read_memo none = ok []
read_memo (some []) = ok []
read_memo (some (c ∷ s)) = do
  bytes ← or_raise (from_hex (c ∷ s)) value_error
  or_raise (decode_utf8 bytes) value_error

-- The message of a rejected transaction, with advice if the balance is too low.
explain_rejection : Str → Str
explain_rejection message =
    if is_in (text "not sufficient") (lower message)
    then message
      ++ text
          " — a TRON transfer also needs spare TRX for the network fee (bandwidth/energy), which is NOT part of the sent amount; leave some TRX headroom below your balance (~1 TRX)."
    else message

module _ (libs : TronLibs) where
  open libs use {PrivateKey, Tx}

  -- `decode_trc20_transfer`
  unfoldable pub decode_trc20_transfer : Str → Result (Str × ℤ)
  decode_trc20_transfer call_data = do
    raw ← or_raise (from_hex (remove_0x call_data)) value_error
    raise_if (not (str_eq (hex (take 4 raw)) trc20_transfer_selector)) value_error
    libs.decode_transfer (drop 4 raw)

  unfoldable pub sign : BuiltTronTx PrivateKey Tx → Result (List Tx)
  sign built = do signed ← libs.sign built.tx built.priv; ok (signed ∷ [])

  -- The loop of `broadcast`; `txid` is the value of the variable so far.
  send_all : Str → List Tx → Result Str
  unfolding explain_rejection
  send_all txid [] = ok txid
  send_all txid (tx ∷ txs) = elim (libs.broadcast tx) [
    | sent ↦ send_all (libs.txid tx) txs
    | refused message ↦ err (broadcast_error (explain_rejection message))
    | raised e ↦ err e
  ]

  unfoldable pub broadcast : List Tx → Result Str
  unfolding send_all
  broadcast raws = send_all [] raws

  module _ (self : TronAdapter) where
    -- `_key`: the key, and the Ethereum address.
    unfoldable pub account_of : Str → Str → Result (libs.Key × Str)
    account_of mnemonic path = libs.from_mnemonic mnemonic self.bip39_passphrase path

    unfoldable pub build_unsigned_transfer :
        Str → Str → ℤ → Str → Str → Result (BuiltTronTx PrivateKey Tx)
    build_unsigned_transfer mnemonic to amount_sun memo path = do
      account ← account_of mnemonic path
      priv ← libs.private_key account.0
      start ← libs.transfer (libs.owner_address priv) to amount_sun
      builder ← with_memo libs start memo
      tx ← libs.build self.api_url builder
      to_address ← libs.to_base58check_address (libs.paid_to tx)
      memo_read ← read_memo (libs.memo_data tx)
      ok (record {
        tx = tx;
        priv = priv;
        contract_type = libs.contract_type tx;
        to_address = to_address;
        amount_sun = libs.paid_amount tx;
        memo = memo_read;
        call_data = [];
      })

    unfoldable pub build_unsigned_trc20_transfer :
        Str → Str → Str → ℤ → Str → ℤ → Str → Result (BuiltTronTx PrivateKey Tx)
    build_unsigned_trc20_transfer mnemonic token to amount memo fee_limit_sun path = do
      account ← account_of mnemonic path
      priv ← libs.private_key account.0
      start ← libs.trc20_transfer token to amount (libs.owner_address priv) fee_limit_sun
      builder ← with_memo libs start memo
      tx ← libs.build self.api_url builder
      to_address ← libs.to_base58check_address (libs.called tx)
      memo_read ← read_memo (libs.memo_data tx)
      ok (record {
        tx = tx;
        priv = priv;
        contract_type = libs.contract_type tx;
        to_address = to_address;
        amount_sun = pos 0;
        memo = memo_read;
        call_data = libs.call_data tx;
      })
