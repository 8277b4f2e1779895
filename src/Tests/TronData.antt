-- ===== src/Tests/TronData.antt =====
-- Libraries that the TRON adapter could call: they build the transactions of one swap.
use cryptoswap_wallet.Common.{
  ℤ, pos, Str, ◌&&◌, [], ◌∷◌, Option, none, some, ◌≡◌, refl, sym, ap, ◌∙◌, subst, text, hex,
  from_hex, decode_utf8, starts_with, str_eq, str_eq_iff, eqb_ℤ, eqb_ℤ_iff, &&_iff, Bool-cases, inl,
  inr, if◌then◌else◌,
}
use cryptoswap_wallet.Result.{Result, ok, err, ok_inj, value_error}
use cryptoswap_wallet.Chains.Tron.Types.{
  TronLibs, Documented, HoldsMemo, CallsTransfer, sent, TronAdapter, with_memo,
}

-- A transaction: its type, whom it pays or calls, the amount, the calldata and the memo.
pub record Content : Type 0 where
  pub kind : Str
  pub to : Str
  pub amount : ℤ
  pub call : Str
  pub note : Option Str

abbrev pub vault : Str
vault = text "TVault"

abbrev pub memo : Str
memo = text "=:e:0xab"

abbrev pub memo_hex : Str
memo_hex = text "3d3a653a30786162"

unfoldable pub call_of : Str → ℤ → Result Str
call_of to amount =
    if str_eq to vault && eqb_ℤ amount (pos 5) then ok (text "a9059cbb01") else err value_error

unfoldable pub with_call : Str → Result Str → Result Content
with_call token (err e) = err e
with_call token (ok calldata) = ok (record {
  kind = text "TriggerSmartContract";
  to = token;
  amount = pos 0;
  call = calldata;
  note = none;
})

unfoldable pub noted : Content → Str → Result Content
noted c m =
    if str_eq m memo
    then ok (record {
      kind = c.kind;
      to = c.to;
      amount = c.amount;
      call = c.call;
      note = some memo_hex;
    })
    else err value_error

abbrev pub libs : TronLibs
libs = record {
  Key = Unit;
  PrivateKey = Unit;
  Builder = Content;
  Tx = Content;
  from_mnemonic = λ mnemonic passphrase path. ok (tt, text "0x00");
  private_key = λ key. ok tt;
  owner_address = λ priv. text "TOwner";
  transfer = λ owner to amount.
      ok (record {
        kind = text "TransferContract";
        to = to;
        amount = amount;
        call = [];
        note = none;
      });
  trc20_transfer = λ token to amount owner fee_limit. with_call token (call_of to amount);
  add_memo = noted;
  build = λ url c. ok c;
  contract_type = λ c. c.kind;
  paid_to = λ c. c.to;
  paid_amount = λ c. c.amount;
  called = λ c. c.to;
  call_data = λ c. c.call;
  memo_data = λ c. c.note;
  to_base58check_address = λ a. ok a;
  to_hex_address = λ a. ok a;
  decode_transfer = λ bs. ok (vault, pos 5);
  sign = λ c priv. ok c;
  broadcast = λ c. sent;
  txid = λ c. text "id";
  sha256 = λ bs. 1 ∷ 2 ∷ 3 ∷ 4 ∷ 5 ∷ [];
}

memo_is_read : (from_hex memo_hex ≡ some memo) × (decode_utf8 memo ≡ some memo)
unfolding from_hex decode_utf8
memo_is_read = (refl, refl)

-- Adding a memo changes nothing else.
with_memo-keeps :
    (c c' : Content) (m : Str)
    → c.note ≡ none
    → with_memo libs c m ≡ ok c'
    → (c'.kind ≡ c.kind)
      × (c'.to ≡ c.to)
      × (c'.amount ≡ c.amount)
      × (c'.call ≡ c.call)
      × HoldsMemo m c'.note
unfolding noted
with_memo-keeps c c' [] absent h =
    let same = ok_inj (sym h) in
    (
      ap (λ x. x.kind) same,
      ap (λ x. x.to) same,
      ap (λ x. x.amount) same,
      ap (λ x. x.call) same,
      inl (refl, ap (λ x. x.note) same ∙ absent),
    )
with_memo-keeps c c' (d ∷ m) absent h = elim (Bool-cases (str_eq (d ∷ m) memo)) [
  | inl e ↦
      let same = ok_inj (sym (rw e at h)) in
      let is_memo = (str_eq_iff (d ∷ m) memo).0 e in
      (
        ap (λ x. x.kind) same,
        ap (λ x. x.to) same,
        ap (λ x. x.amount) same,
        ap (λ x. x.call) same,
        inr (
          memo_hex,
          memo,
          ap (λ x. x.note) same,
          (λ none_left. cc none_left),
          memo_is_read.0,
          memo_is_read.1 ∙ ap some (sym is_memo),
        ),
      )
  | inr e ↦ cc (rw e at h)
]

call_of-CallsTransfer :
    (to : Str) (amount : ℤ) (calldata : Str)
    → call_of to amount ≡ ok calldata
    → CallsTransfer libs calldata to amount
unfolding call_of from_hex hex cryptoswap_wallet.Chains.Eth.Calldata.remove_0x starts_with
call_of-CallsTransfer to amount calldata h =
    elim (Bool-cases (str_eq to vault && eqb_ℤ amount (pos 5))) [
      | inl e ↦
          let both = (&&_iff (str_eq to vault) (eqb_ℤ amount (pos 5))).0 e in
          rw
            (
              ← ok_inj (rw e at h),
              (str_eq_iff to vault).0 both.0,
              (eqb_ℤ_iff amount (pos 5)).0 both.1,
            )
            (0xA9 ∷ 0x05 ∷ 0x9C ∷ 0xBB ∷ 1 ∷ [], refl, refl, refl)
      | inr e ↦ cc (rw e at h)
    ]

with_call-eq-ok :
    (token to : Str) (amount : ℤ) (c : Content)
    → with_call token (call_of to amount) ≡ ok c
    → (c.kind ≡ text "TriggerSmartContract")
      × (c.to ≡ token)
      × CallsTransfer libs c.call to amount
      × (c.note ≡ none)
unfolding with_call
with_call-eq-ok token to amount c h = called_cases (call_of to amount) refl h
  where
    called_cases :
        (r : Result Str)
        → call_of to amount ≡ r
        → with_call token r ≡ ok c
        → (c.kind ≡ text "TriggerSmartContract")
          × (c.to ≡ token)
          × CallsTransfer libs c.call to amount
          × (c.note ≡ none)
    called_cases (err e) same h = cc h
    called_cases (ok calldata) same h =
        let whole = ok_inj (sym h) in
        (
          ap (λ x. x.kind) whole,
          ap (λ x. x.to) whole,
          subst (λ s. CallsTransfer libs s to amount) (ap (λ x. x.call) (sym whole))
              (call_of-CallsTransfer to amount calldata same),
          ap (λ x. x.note) whole,
        )

pub libs-Documented : Documented libs
libs-Documented = record {
  transfer_built = λ owner to amount m url b b' tx started noted_ok built base58.
      let start = ok_inj (sym started) in
      let (kind, paid, amount_of, _, held) =
        with_memo-keeps b b' m (ap (λ x. x.note) start) noted_ok in
      let last = ok_inj (sym built) in
      (
        ap (λ x. x.kind) last ∙ kind ∙ ap (λ x. x.kind) start,
        ap ok (ap (λ x. x.to) last ∙ paid ∙ ap (λ x. x.to) start),
        ap (λ x. x.amount) last ∙ amount_of ∙ ap (λ x. x.amount) start,
        subst (λ x. HoldsMemo m x.note) (sym last) held,
      );
  trc20_transfer_built =
      λ token to amount owner fee_limit m url b b' tx started noted_ok built known base58.
        let (kind_of, called_of, calls, absent) = with_call-eq-ok token to amount b started in
        let (kind, paid, _, call_same, held) = with_memo-keeps b b' m absent noted_ok in
        let last = ok_inj (sym built) in
        (
          ap (λ x. x.kind) last ∙ kind ∙ kind_of,
          ap ok (ap (λ x. x.to) last ∙ paid ∙ called_of),
          subst (λ s. CallsTransfer libs s to amount) (sym (ap (λ x. x.call) last ∙ call_same))
              calls,
          subst (λ x. HoldsMemo m x.note) (sym last) held,
        );
}

abbrev pub adapter : TronAdapter
adapter = record { api_url = text "http://node"; bip39_passphrase = [] }
