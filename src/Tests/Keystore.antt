-- ===== src/Tests/Keystore.antt =====
-- A keystore with two entries, under a cipher that does nothing.
use cryptoswap_wallet.Common.{
  ℤ, pos, int_laws, Str, List, [], ◌∷◌, Option, none, some, ◌≡◌, refl, text, map, All, str_eq,
  contains,
}
use cryptoswap_wallet.Result.{ok}
use cryptoswap_wallet.Thorchain.Json.{Fields}
use cryptoswap_wallet.Keystore.{
  KeyEntry, hd_key, raw_key, labels, entry_to_dict, add_hd, add_raw, Crypto, Envelope, save, load,
}
use cryptoswap_wallet.Keystore.Entries.{
  normalize, IsUnique, hd, raw, add, Reached, created, grown, Reached-IsUnique,
}
use cryptoswap_wallet.Keystore.File.{RoundTrips, HasNoPassphrase, load-save, load-HasNoPassphrase}

abbrev first : KeyEntry
first = hd_key (text "main") (text "words") (some (text "pw"))

abbrev second : KeyEntry
second = raw_key (text "other") (text "BTC") (text "wif")

first-added : add [] (hd (text "main") (text "words") (some (text "pw"))) ≡ ok (first ∷ [])
unfolding add_hd contains
first-added = refl

second-added :
    add (first ∷ []) (raw (text "other") (text "BTC") (text "wif")) ≡ ok (first ∷ second ∷ [])
unfolding add_raw contains str_eq
second-added = refl

filled : Reached (first ∷ second ∷ [])
filled =
    grown (raw (text "other") (text "BTC") (text "wif"))
      (grown (hd (text "main") (text "words") (some (text "pw"))) created first-added) second-added

Reached-IsUnique_example : IsUnique (labels (first ∷ second ∷ []))
Reached-IsUnique_example = Reached-IsUnique filled

abbrev crypto : Crypto
crypto = record {
  Key = Str;
  Plaintext = List Fields;
  Ciphertext = List Fields;
  File = Envelope (List Fields);
  scrypt = λ passphrase salt n r p length. ok passphrase;
  encrypt = λ key nonce plaintext. plaintext;
  decrypt = λ key nonce ciphertext. some ciphertext;
  write_payload = λ ds. ds;
  read_payload = λ ds. ok ds;
  write_envelope = λ e. e;
  read_envelope = λ e. some e;
}

crypto-RoundTrips : RoundTrips crypto
crypto-RoundTrips = record {
  decrypts = λ key nonce plaintext. refl;
  reads_payload = λ ds. refl;
  reads_envelope = λ e. refl;
}

abbrev file : Option ℤ → Envelope (List Fields)
file version = record {
  version = version;
  kdf_params = record { n = pos 4; r = pos 8; p = pos 1; length = some (pos 32) };
  salt = 1 ∷ [];
  nonce = 2 ∷ [];
  ciphertext = map entry_to_dict (first ∷ second ∷ []);
}

file-saved :
    save crypto (first ∷ second ∷ []) (text "pass") (pos 4) (1 ∷ []) (2 ∷ [])
    ≡ ok (file (some (pos 2)))
unfolding save
file-saved = refl

load-save_example :
    load crypto (file (some (pos 2))) (text "pass") ≡ ok (map normalize (first ∷ second ∷ []))
load-save_example =
    load-save crypto crypto-RoundTrips (first ∷ second ∷ []) (text "pass") (pos 4) (1 ∷ []) (2 ∷ [])
      (file (some (pos 2))) file-saved

file-loaded :
    load crypto (file none) (text "pass")
    ≡ ok (hd_key (text "main") (text "words") none ∷ second ∷ [])
unfolding load entry_to_dict str_eq
file-loaded = refl

load-HasNoPassphrase_example :
    All HasNoPassphrase (hd_key (text "main") (text "words") none ∷ second ∷ [])
load-HasNoPassphrase_example =
    load-HasNoPassphrase crypto (file none) (text "pass") (file none)
      (hd_key (text "main") (text "words") none ∷ second ∷ []) refl (omega int_laws) file-loaded
