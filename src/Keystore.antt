-- ===== src/Keystore.antt =====
-- The keystore (src/cryptoswap_wallet/keystore.py): its entries and their JSON form, labels, saving
-- and loading. The cipher, the key derivation, JSON text and base64 are the parameter `Crypto`.
pub mod Entries
pub mod File
use cryptoswap_wallet.Common.{
  ℤ, pos, Str, Bytes, Bool, true, false, List, [], ◌∷◌, ◌++◌, Option, none, some, map, text, str_eq,
  is_empty, contains, ltb_ℤ, if◌then◌else◌,
}
use cryptoswap_wallet.Result.{
  Result, ok, err, ◌>>=◌, ◌>>◌, raise_if, or_raise, keystore_error, key_error,
}
use cryptoswap_wallet.Thorchain.Json.{
  Json, null, str, boolean, num, array, dict, Fields, end, field, get, to_text, truthy,
}

-- A `Secret` is its text. An entry is an `HdKey` or a `RawKey`.
pub data KeyEntry : Type 0 where
  -- label, mnemonic, passphrase
  hd_key : Str → Str → Option Str → KeyEntry
  -- label, chain, secret
  raw_key : Str → Str → Str → KeyEntry

abbrev pub label_of : KeyEntry → Str
label_of (hd_key label mnemonic passphrase) = label
label_of (raw_key label chain secret) = label

-- `Keystore.labels`
abbrev pub labels : List KeyEntry → List Str
labels entries = map label_of entries

secret_to_json : Option Str → Json
secret_to_json none = null
secret_to_json (some s) = str s

-- `_entry_to_dict`
unfoldable pub entry_to_dict : KeyEntry → Fields
unfolding secret_to_json
entry_to_dict (hd_key label mnemonic passphrase) = field (text "kind") (str (text "hd")) (
    field (text "label") (str label) (
      field (text "mnemonic") (str mnemonic)
        (field (text "passphrase") (secret_to_json passphrase) end)))
entry_to_dict (raw_key label chain secret) = field (text "kind") (str (text "raw")) (
    field (text "label") (str label)
      (field (text "chain") (str chain) (field (text "secret") (str secret) end)))

-- `data[key]`, a text
item_text : Str → Fields → Result Str
item_text key fields = do value ← or_raise (get key fields) key_error; to_text value

-- `kind == text`
is_text : Option Json → Str → Bool
is_text none s = false
is_text (some (str t)) s = str_eq t s
is_text (some null) s = false
is_text (some (boolean b)) s = false
is_text (some (num n)) s = false
is_text (some (array vs)) s = false
is_text (some (dict fields)) s = false

-- `Secret(pw) if pw else None`
read_passphrase : Option Json → Result (Option Str)
read_passphrase none = ok none
read_passphrase (some value) = if truthy value then (do s ← to_text value; ok (some s)) else ok none

-- `_entry_from_dict`
unfoldable pub entry_from_dict : Fields → Result KeyEntry
unfolding item_text is_text read_passphrase
entry_from_dict fields =
    if is_text (get (text "kind") fields) (text "hd")
    then (do
      label ← item_text (text "label") fields
      mnemonic ← item_text (text "mnemonic") fields
      passphrase ← read_passphrase (get (text "passphrase") fields)
      ok (hd_key label mnemonic passphrase))
    else if is_text (get (text "kind") fields) (text "raw")
    then (do
      label ← item_text (text "label") fields
      chain ← item_text (text "chain") fields
      secret ← item_text (text "secret") fields
      ok (raw_key label chain secret))
    else err keystore_error

-- `Secret(passphrase) if passphrase else None`
abbrev pub given : Option Str → Option Str
given none = none
given (some s) = if is_empty s then none else some s

-- `Keystore._require_unique`
require_unique : List KeyEntry → Str → Result (Unit {0})
require_unique entries label = raise_if (contains (labels entries) label) keystore_error

-- `Keystore.add_hd`: the entries after it.
unfoldable pub add_hd : List KeyEntry → Str → Str → Option Str → Result (List KeyEntry)
unfolding require_unique
add_hd entries label mnemonic passphrase = do
  require_unique entries label
  ok (entries ++ (hd_key label mnemonic (given passphrase) ∷ []))

unfoldable pub add_raw : List KeyEntry → Str → Str → Str → Result (List KeyEntry)
unfolding require_unique
add_raw entries label chain secret = do
  require_unique entries label
  ok (entries ++ (raw_key label chain secret ∷ []))

abbrev pub envelope_version : ℤ
envelope_version = pos 2

abbrev pub scrypt_r : ℤ
scrypt_r = pos 8

abbrev pub scrypt_p : ℤ
scrypt_p = pos 1

abbrev pub key_len : ℤ
key_len = pos 32

-- The parameters of scrypt.
pub record KdfParams : Type 0 where
  pub n : ℤ
  pub r : ℤ
  pub p : ℤ
  pub length : Option ℤ

pub record Envelope (Ciphertext : Type 0) : Type 0 where
  pub version : Option ℤ
  pub kdf_params : KdfParams
  pub salt : Bytes
  pub nonce : Bytes
  pub ciphertext : Ciphertext

-- scrypt, AES-GCM, and the bytes of the payload, of its encryption and of the file. `decrypt` gives
-- nothing for an invalid tag, and `read_envelope` for a file that cannot be read.
pub record Crypto : Type 1 where
  pub Key : Type 0
  pub Plaintext : Type 0
  pub Ciphertext : Type 0
  pub File : Type 0
  -- passphrase, salt, n, r, p, length
  pub scrypt : Str → Bytes → ℤ → ℤ → ℤ → ℤ → Result Key
  -- key, nonce, text
  pub encrypt : Key → Bytes → Plaintext → Ciphertext
  pub decrypt : Key → Bytes → Ciphertext → Option Plaintext
  pub write_payload : List Fields → Plaintext
  pub read_payload : Plaintext → Result (List Fields)
  pub write_envelope : Envelope Ciphertext → File
  pub read_envelope : File → Option (Envelope Ciphertext)

-- `[_entry_from_dict(d) for d in …]`
read_entries : List Fields → Result (List KeyEntry)
unfolding entry_from_dict
read_entries [] = ok []
read_entries (d ∷ ds) = do entry ← entry_from_dict d; rest ← read_entries ds; ok (entry ∷ rest)

-- The passphrase of an `HdKey` is dropped.
abbrev pub drop_passphrase : KeyEntry → KeyEntry
drop_passphrase (hd_key label mnemonic passphrase) = hd_key label mnemonic none
drop_passphrase (raw_key label chain secret) = raw_key label chain secret

abbrev pub int_or : Option ℤ → ℤ → ℤ
int_or none default = default
int_or (some n) default = n

-- Before version 2 a passphrase was stored, and never used.
migrate : {C : Type 0} → Envelope C → List KeyEntry → List KeyEntry
migrate envelope entries =
    if ltb_ℤ (int_or envelope.version (pos 1)) (pos 2) then map drop_passphrase entries else entries

module _ (crypto : Crypto) where
  -- `Keystore.save`: the bytes that are written, for a random salt and nonce.
  unfoldable pub save : List KeyEntry → Str → ℤ → Bytes → Bytes → Result crypto.File
  unfolding entry_to_dict
  save entries passphrase n salt nonce = do
    let plaintext = crypto.write_payload (map entry_to_dict entries)
    key ← crypto.scrypt passphrase salt n scrypt_r scrypt_p key_len
    ok (
        crypto.write_envelope (record {
          version = some envelope_version;
          kdf_params = record { n = n; r = scrypt_r; p = scrypt_p; length = some key_len };
          salt = salt;
          nonce = nonce;
          ciphertext = crypto.encrypt key nonce plaintext;
        }))

  -- `Keystore.load`, of the bytes of the file.
  unfoldable pub load : crypto.File → Str → Result (List KeyEntry)
  unfolding read_entries migrate
  load file passphrase = do
    envelope ← or_raise (crypto.read_envelope file) keystore_error
    let params = envelope.kdf_params
    key ←
        crypto.scrypt passphrase envelope.salt params.n params.r params.p
          (int_or params.length key_len)
    plaintext ← or_raise (crypto.decrypt key envelope.nonce envelope.ciphertext) keystore_error
    payload ← crypto.read_payload plaintext
    entries ← read_entries payload
    ok (migrate envelope entries)
