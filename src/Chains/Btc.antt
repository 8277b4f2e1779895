-- ===== src/Chains/Btc.antt =====
-- The Bitcoin adapter (src/cryptoswap_wallet/chains/btc.py): building, checking and signing. The
-- library that derives keys and writes transactions is the parameter `Bitcoinlib`.
pub mod Types
pub mod Outputs
pub mod Accepts
pub mod Broadcast
pub mod Esplora
use cryptoswap_wallet.Common.{
  ℤ, pos, ◌-ℤ◌, ◌+ℤ◌, Str, Bytes, Bool, true, false, List, [], ◌∷◌, Option, none, some, length,
  is_empty, ltb_ℤ, if◌then◌else◌, not, map, encode_utf8, text,
}
use cryptoswap_wallet.Result.{
  Result, ok, err, ◌>>=◌, ◌>>◌, raise_if, or_raise, insufficient_funds, unicode_encode_error, Error,
  runtime_error,
}
use cryptoswap_wallet.Verify.Types.{TxOutput, SwapPlan, SendPlan}
use cryptoswap_wallet.Verify.Btc.{verify_btc_swap, verify_btc_send}
use cryptoswap_wallet.Thorchain.Types.{Quote}
use cryptoswap_wallet.Swap.Types.{SwapRequest, Prepared}
use cryptoswap_wallet.Chains.Coins.{
  Utxo, Selection, FeeRate, dust_p2wpkh, encode_op_return, decode_op_return, select_coins,
  total_value,
}
use cryptoswap_wallet.Chains.Btc.Types.{
  Bitcoinlib, LibOutput, nulldata, payment, BuiltSwap, BtcAdapter, BuildArgs, BtcArgs,
  default_derivation,
}

extract_output : LibOutput → Result TxOutput
extract_output (payment value address) =
    ok (record { address = some address; value = value; op_return_data = none })
extract_output (nulldata value script) = do
  bytes ← decode_op_return script
  ok (record { address = none; value = value; op_return_data = some bytes })

-- `_extract_outputs`
unfoldable pub extract_outputs : List LibOutput → Result (List TxOutput)
unfolding extract_output
extract_outputs [] = ok []
extract_outputs (o ∷ os) = do first ← extract_output o; rest ← extract_outputs os; ok (first ∷ rest)

-- `a or b`, for a text that may be missing
abbrev pub or_else : Option Str → Result Str → Result Str
or_else none other = other
or_else (some s) other = if is_empty s then other else ok s

-- `memo.encode() if memo is not None else b""`
abbrev pub encode_memo : Option Str → Result Bytes
encode_memo none = ok []
encode_memo (some memo) = or_raise (encode_utf8 memo) unicode_encode_error

-- The coins to spend, the fee and the change.
unfoldable pub choose : Bool → List Utxo → ℤ → FeeRate → Bytes → Result Selection
choose true utxos amount fee_rate memo_bytes = do
  raise_if (ltb_ℤ (total_value utxos -ℤ amount) (pos 0)) insufficient_funds
  ok (record { utxos = utxos; fee = total_value utxos -ℤ amount; change = pos 0 })
choose false utxos amount fee_rate memo_bytes =
    select_coins utxos amount fee_rate (length memo_bytes) dust_p2wpkh

-- The messages of the errors that `sign` raises, the first one without its list of inputs.
abbrev inputs_unsigned : Error
inputs_unsigned =
    runtime_error (text "refusing to broadcast: BTC inputs left unsigned (no matching key)")

abbrev signature_invalid : Error
signature_invalid =
    runtime_error (text "refusing to broadcast: BTC tx failed signature verification")

-- Which inputs have signatures, as the transaction is after `tx.sign`.
unfoldable pub all_signed : List Bool → Bool
all_signed [] = true
all_signed (signed ∷ rest) = let others = all_signed rest in if signed then others else false

-- `{change_address} | {u.address for u in scanned_utxos}`
abbrev pub owned_addresses : Str → List Utxo → List Str
owned_addresses change_address utxos = change_address ∷ map (λ u. u.address) utxos

-- The arguments of the call of `build_unsigned_swap`; its path is the default one.
abbrev pub build_args : BtcArgs → BuildArgs
build_args args = record {
  mnemonic = args.mnemonic;
  utxos = args.scanned_utxos;
  fee_rate = args.fee_rate;
  change_address = some args.change_address;
  default_path = default_derivation;
  sweep = args.sweep;
}

-- `quote.memo or ""`
abbrev pub memo_or_empty : Option Str → Str
memo_or_empty none = []
memo_or_empty (some memo) = memo

module _ (lib : Bitcoinlib) where
  open lib use {HdKey, Tx}

  unfoldable pub hdkey : BtcAdapter → Str → Str → Result HdKey
  hdkey self mnemonic path = do
    seed ← lib.to_seed mnemonic self.bip39_passphrase
    root ← lib.from_seed seed self.network
    lib.key_for_path root path

  unfoldable pub derive_address : BtcAdapter → Str → Str → Result Str
  unfolding hdkey
  derive_address self mnemonic path = do key ← hdkey self mnemonic path; lib.p2wpkh_address key

  -- The loop over the chosen coins: the transaction with its inputs, and their keys.
  add_inputs : BtcAdapter → Str → Str → Tx → List Utxo → Result (Tx × List HdKey)
  unfolding hdkey
  add_inputs self mnemonic default_path tx [] = ok (tx, [])
  add_inputs self mnemonic default_path tx (utxo ∷ rest) = do
    path ← or_else utxo.path (ok default_path)
    key ← hdkey self mnemonic path
    tx' ← lib.add_input tx utxo.txid utxo.vout utxo.value key
    done ← add_inputs self mnemonic default_path tx' rest
    ok (done.0, key ∷ done.1)

  -- The OP_RETURN output, unless there is no memo.
  add_memo : Tx → Option Str → Bytes → Result Tx
  add_memo tx none bytes = ok tx
  add_memo tx (some memo) bytes = do
    script ← encode_op_return bytes
    lib.add_script_output tx (pos 0) script

  add_change : Tx → ℤ → Str → Result Tx
  add_change tx change change_address =
      if ltb_ℤ (pos 0) change then lib.add_output tx change change_address else ok tx

  unfoldable pub build_unsigned_swap :
      BtcAdapter → BuildArgs → Str → ℤ → Option Str → Result (BuiltSwap HdKey Tx)
  unfolding add_inputs add_memo add_change derive_address
  build_unsigned_swap self args vault_address amount memo = do
    change_address ←
        or_else args.change_address (derive_address self args.mnemonic args.default_path)
    memo_bytes ← encode_memo memo
    sel ← choose args.sweep args.utxos amount args.fee_rate memo_bytes
    funded ← add_inputs self args.mnemonic args.default_path (lib.new_tx self.network) sel.utxos
    paid ← lib.add_output funded.0 amount vault_address
    noted ← add_memo paid memo memo_bytes
    tx ← add_change noted sel.change change_address
    outputs ← extract_outputs (lib.outputs tx)
    ok (record {
      tx = tx;
      outputs = outputs;
      fee = sel.fee;
      change_address = change_address;
      keys = funded.1;
    })

  unfoldable pub sign : BuiltSwap HdKey Tx → Result (List Str)
  unfolding all_signed
  sign built = do
    signed ← lib.sign built.tx built.keys
    raise_if (not (all_signed (lib.signatures signed))) inputs_unsigned
    raise_if (not (lib.verify signed)) signature_invalid
    ok (lib.raw_hex signed ∷ [])

  unfoldable pub build_and_verify :
      BtcAdapter
      → Quote
      → SwapRequest
      → ℤ
      → BtcArgs
      → Result (Prepared (BuiltSwap HdKey Tx) SwapPlan)
  build_and_verify self quote request now args = do
    let memo = memo_or_empty quote.memo
    built ←
        build_unsigned_swap self (build_args args) quote.inbound_address request.amount (some memo)
    let plan : SwapPlan = record {
      inbound_address = quote.inbound_address;
      amount = request.amount;
      memo = memo;
      expiry = quote.expiry;
      destination = request.destination;
    }
    ok (record {
      quote = some quote;
      built = built;
      plan = plan;
      problems =
          verify_btc_swap built.outputs built.fee plan
            (owned_addresses args.change_address args.scanned_utxos) now args.max_fee;
    })

  unfoldable pub build_and_verify_deposit :
      BtcAdapter → Str → Str → ℤ → ℤ → BtcArgs → Result (Prepared (BuiltSwap HdKey Tx) SwapPlan)
  build_and_verify_deposit self vault memo amount now args = do
    built ← build_unsigned_swap self (build_args args) vault amount (some memo)
    let plan : SwapPlan = record {
      inbound_address = vault;
      amount = amount;
      memo = memo;
      expiry = now +ℤ pos 3600;
      destination = [];
    }
    ok (record {
      quote = none;
      built = built;
      plan = plan;
      problems =
          verify_btc_swap built.outputs built.fee plan
            (owned_addresses args.change_address args.scanned_utxos) now args.max_fee;
    })

  unfoldable pub build_and_verify_send :
      BtcAdapter → Str → ℤ → ℤ → BtcArgs → Result (Prepared (BuiltSwap HdKey Tx) SendPlan)
  build_and_verify_send self recipient amount now args = do
    built ← build_unsigned_swap self (build_args args) recipient amount none
    let plan : SendPlan = record { recipient = recipient; amount = amount }
    ok (record {
      quote = none;
      built = built;
      plan = plan;
      problems =
          verify_btc_send built.outputs built.fee plan
            (owned_addresses args.change_address args.scanned_utxos) args.max_fee;
    })
