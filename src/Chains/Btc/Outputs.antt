-- ===== src/Chains/Btc/Outputs.antt =====
-- The outputs of the transaction that `build_unsigned_swap` builds.
use mathlib.Core.List.{append-nil}
use cryptoswap_wallet.Common.{
  ℤ, pos, ◌≤◌, Str, Bytes, List, [], ◌∷◌, ◌++◌, Option, none, some, ◌≡◌, inl, inr, refl, sym, ap,
  ◌∙◌, length, ltb_ℤ, if◌then◌else◌, Bool-cases, arith, ltb,
}
use cryptoswap_wallet.Result.{ok, >>=-eq-ok, ok_inj}
use cryptoswap_wallet.Verify.Types.{TxOutput}
use cryptoswap_wallet.Chains.Coins.{
  Utxo, Selection, encode_op_return, decode_op_return, op_return_opcode,
}
use cryptoswap_wallet.Chains.Coins.OpReturn.{decode-encode_op_return}
use cryptoswap_wallet.Chains.Btc.Types.{
  Bitcoinlib, KeepsOutputs, LibOutput, nulldata, payment, BuiltSwap, BtcAdapter, BuildArgs,
}
use cryptoswap_wallet.Chains.Btc.{
  extract_output, extract_outputs, choose, add_inputs, hdkey, add_memo, add_change,
  build_unsigned_swap, encode_memo, or_else, derive_address,
}

-- The script of data that is encoded: the opcode, then a push.
encode_op_return-Encodes :
    (d s : Bytes)
    → encode_op_return d ≡ ok s
    → (length d ≤ 80) × ((push : Bytes) × (s ≡ op_return_opcode ∷ push))
unfolding encode_op_return
encode_op_return-Encodes d s h = elim (Bool-cases (ltb 80 (length d))) [
  | inl long ↦ cc (rw long at h)
  | inr fits ↦ (
    ground arith,
    elim (Bool-cases (ltb (length d) 76)) [
      | inl short ↦ (length d ∷ d, sym (ok_inj (rw (fits, short) at h)))
      | inr pushed ↦ (0x4C ∷ length d ∷ d, sym (ok_inj (rw (fits, pushed) at h)))
    ],
  )
]

abbrev pub memo_outputs : Option Str → Bytes → List TxOutput
memo_outputs none bytes = []
memo_outputs (some memo) bytes =
    record { address = none; value = pos 0; op_return_data = some bytes } ∷ []

abbrev pub change_outputs : ℤ → Str → List TxOutput
change_outputs change address =
    if ltb_ℤ (pos 0) change
    then record { address = some address; value = change; op_return_data = none } ∷ []
    else []

-- The bytes of a memo fit in an OP_RETURN.
abbrev pub HasRoom : Option Str → Bytes → Type 0
HasRoom none bytes = Unit
HasRoom (some memo) bytes = length bytes ≤ 80

add_memo-HasRoom :
    (lib : Bitcoinlib) (tx tx' : lib.Tx) (memo : Option Str) (bytes : Bytes)
    → add_memo lib tx memo bytes ≡ ok tx'
    → HasRoom memo bytes
unfolding add_memo
add_memo-HasRoom lib tx tx' none bytes h = tt
add_memo-HasRoom lib tx tx' (some memo) bytes h =
    let (script, encoded, added) = >>=-eq-ok (encode_op_return bytes) _ h in
    (encode_op_return-Encodes bytes script encoded).0

-- The payment, the memo and the change, in this order.
abbrev pub swap_outputs : ℤ → Str → Option Str → Bytes → ℤ → Str → List TxOutput
swap_outputs amount vault memo bytes change address =
    record { address = some vault; value = amount; op_return_data = none } ∷ memo_outputs memo bytes
    ++ change_outputs change address

extract_outputs-append :
    (os : List LibOutput) (o : LibOutput) (outs : List TxOutput) (out : TxOutput)
    → extract_outputs os ≡ ok outs
    → extract_output o ≡ ok out
    → extract_outputs (os ++ (o ∷ [])) ≡ ok (outs ++ (out ∷ []))
unfolding extract_outputs
extract_outputs-append [] o outs out h e = rw (e, ← ok_inj h) refl
extract_outputs-append (x ∷ os) o outs out h e =
    let first = >>=-eq-ok (extract_output x) _ h in
    let rest = >>=-eq-ok (extract_outputs os) _ first.2 in
    rw (first.1, extract_outputs-append os o rest.0 out rest.1 e, ← ok_inj rest.2) refl

module _ (lib : Bitcoinlib) (laws : KeepsOutputs lib) where
  open lib use {Tx, HdKey}

  -- The outputs of a transaction are read as these.
  abbrev pub Reads : Tx → List TxOutput → Type 0
  Reads tx outs = extract_outputs (lib.outputs tx) ≡ ok outs

  add_inputs-outputs :
      (self : BtcAdapter) (mnemonic path : Str) (tx : Tx) (utxos : List Utxo)
      (done : Tx × List HdKey)
      → add_inputs lib self mnemonic path tx utxos ≡ ok done
      → lib.outputs done.0 ≡ lib.outputs tx
  unfolding add_inputs
  add_inputs-outputs self mnemonic path tx [] done h = rw (← ok_inj h) refl
  add_inputs-outputs self mnemonic path tx (u ∷ us) done h =
      let found = >>=-eq-ok (or_else u.path (ok path)) _ h in
      let key = >>=-eq-ok (hdkey lib self mnemonic found.0) _ found.2 in
      let added = >>=-eq-ok (lib.add_input tx u.txid u.vout u.value key.0) _ key.2 in
      let rest = >>=-eq-ok (add_inputs lib self mnemonic path added.0 us) _ added.2 in
      rw (← ok_inj rest.2) (
        add_inputs-outputs self mnemonic path added.0 us rest.0 rest.1
        ∙ laws.with_input tx added.0 u.txid u.vout u.value key.0 added.1)

  add_output-Reads :
      (tx tx' : Tx) (value : ℤ) (address : Str) (outs : List TxOutput)
      → Reads tx outs
      → lib.add_output tx value address ≡ ok tx'
      → Reads tx'
          (outs ++ (record { address = some address; value = value; op_return_data = none } ∷ []))
  unfolding extract_output
  add_output-Reads tx tx' value address outs h e =
      rw (laws.with_output tx tx' value address e)
        (extract_outputs-append (lib.outputs tx) (payment value address) outs _ h refl)

  add_memo-Reads :
      (tx tx' : Tx) (memo : Option Str) (bytes : Bytes) (outs : List TxOutput)
      → Reads tx outs
      → add_memo lib tx memo bytes ≡ ok tx'
      → Reads tx' (outs ++ memo_outputs memo bytes)
  unfolding add_memo extract_output
  add_memo-Reads tx tx' none bytes outs h e = rw (append-nil outs, ← ok_inj e) h
  add_memo-Reads tx tx' (some memo) bytes outs h e =
      let (script, encoded, added) = >>=-eq-ok (encode_op_return bytes) _ e in
      let (fits, (push, eq)) = encode_op_return-Encodes bytes script encoded in
      let decoded : decode_op_return (op_return_opcode ∷ push) ≡ ok bytes =
        rw (← eq) (rw encoded at (decode-encode_op_return bytes fits)) in
      rw (laws.with_script tx tx' (pos 0) push (rw eq at added)) (
        extract_outputs-append (lib.outputs tx) (nulldata (pos 0) (op_return_opcode ∷ push)) outs _
          h (rw decoded refl))

  add_change-Reads :
      (tx tx' : Tx) (change : ℤ) (address : Str) (outs : List TxOutput)
      → Reads tx outs
      → add_change lib tx change address ≡ ok tx'
      → Reads tx' (outs ++ change_outputs change address)
  unfolding add_change
  add_change-Reads tx tx' change address outs h e = elim (Bool-cases (ltb_ℤ (pos 0) change)) [
    | inl some_change ↦
        rw some_change (add_output-Reads tx tx' change address outs h (rw some_change at e))
    | inr no_change ↦ rw (no_change, append-nil outs) (rw (ok_inj (rw no_change at e)) at h)
  ]

  all_outputs :
      (self : BtcAdapter) (args : BuildArgs) (vault : Str) (amount : ℤ) (memo : Option Str)
      (bytes : Bytes) (sel : Selection) (address : Str) (funded : Tx × List HdKey)
      (paid noted tx : Tx)
      → add_inputs lib self args.mnemonic args.default_path (lib.new_tx self.network) sel.utxos
        ≡ ok funded
      → lib.add_output funded.0 amount vault ≡ ok paid
      → add_memo lib paid memo bytes ≡ ok noted
      → add_change lib noted sel.change address ≡ ok tx
      → Reads tx (swap_outputs amount vault memo bytes sel.change address)
  unfolding extract_outputs
  all_outputs self args vault amount memo bytes sel address funded paid noted tx f p n t =
      let empty =
        add_inputs-outputs self args.mnemonic args.default_path (lib.new_tx self.network) sel.utxos
          funded f
        ∙ laws.at_start self.network in
      let start : Reads funded.0 [] = rw empty refl in
      let pay = add_output-Reads funded.0 paid amount vault [] start p in
      let note = add_memo-Reads paid noted memo bytes _ pay n in
      add_change-Reads noted tx sel.change address _ note t

  pub build_unsigned_swap-outputs :
      (self : BtcAdapter) (args : BuildArgs) (vault : Str) (amount : ℤ) (memo : Option Str)
      (built : BuiltSwap HdKey Tx)
      → build_unsigned_swap lib self args vault amount memo ≡ ok built
      → (bytes : Bytes) × (sel : Selection) × (encode_memo memo ≡ ok bytes)
        × (choose args.sweep args.utxos amount args.fee_rate bytes ≡ ok sel)
        × (built.fee ≡ sel.fee)
        × (built.outputs ≡ swap_outputs amount vault memo bytes sel.change built.change_address)
        × (or_else args.change_address (derive_address lib self args.mnemonic args.default_path)
            ≡ ok built.change_address)
        × HasRoom memo bytes
  unfolding build_unsigned_swap
  build_unsigned_swap-outputs self args vault amount memo built h =
      let change =
        >>=-eq-ok
          (or_else args.change_address (derive_address lib self args.mnemonic args.default_path)) _
          h in
      let encoded = >>=-eq-ok (encode_memo memo) _ change.2 in
      let bytes = encoded.0 in
      let sel = >>=-eq-ok (choose args.sweep args.utxos amount args.fee_rate bytes) _ encoded.2 in
      let start = lib.new_tx self.network in
      let funded =
        >>=-eq-ok (add_inputs lib self args.mnemonic args.default_path start sel.0.utxos) _ sel.2 in
      let paid = >>=-eq-ok (lib.add_output funded.0.0 amount vault) _ funded.2 in
      let noted = >>=-eq-ok (add_memo lib paid.0 memo bytes) _ paid.2 in
      let tx = >>=-eq-ok (add_change lib noted.0 sel.0.change change.0) _ noted.2 in
      let outs = >>=-eq-ok (extract_outputs (lib.outputs tx.0)) _ tx.2 in
      let read =
        all_outputs self args vault amount memo bytes sel.0 change.0 funded.0 paid.0 noted.0 tx.0
          funded.1 paid.1 noted.1 tx.1 in
      let b = ok_inj outs.2 in
      let same : built.outputs ≡ outs.0 = ap (λ x. x.outputs) (sym b) in
      let to : built.change_address ≡ change.0 = ap (λ x. x.change_address) (sym b) in
      (
        bytes,
        sel.0,
        encoded.1,
        sel.1,
        ap (λ x. x.fee) (sym b),
        same
            ∙ ok_inj (sym outs.1 ∙ read)
            ∙ ap (λ a. swap_outputs amount vault memo bytes sel.0.change a) (sym to),
        change.1 ∙ ap ok (sym to),
        add_memo-HasRoom lib paid.0 noted.0 memo bytes noted.1,
      )
