-- ===== src/Keystore/File.antt =====
-- Saving and loading a keystore.
use cryptoswap_wallet.Common.{
  ℤ, pos, ◌<ℤ◌, Str, Bytes, List, [], ◌∷◌, none, some, ◌≡◌, refl, ap, subst, sym, ◌∙◌, map, All,
  ltb_ℤ_iff,
}
use cryptoswap_wallet.Result.{ok, >>=-eq-ok, ok_inj, or_raise, keystore_error}
use cryptoswap_wallet.Thorchain.Json.{Fields}
use cryptoswap_wallet.Keystore.{
  KeyEntry, hd_key, raw_key, Crypto, Envelope, save, load, read_entries, migrate, drop_passphrase,
  int_or, entry_to_dict, scrypt_r, scrypt_p, key_len,
}
use cryptoswap_wallet.Keystore.Entries.{normalize, entry_from_dict-entry_to_dict}

-- What is written is read back, and what is encrypted under a key is decrypted under it.
pub record RoundTrips (crypto : Crypto) : Type 0 where
  pub decrypts :
      (key : crypto.Key) (nonce : Bytes) (plaintext : crypto.Plaintext)
      → crypto.decrypt key nonce (crypto.encrypt key nonce plaintext) ≡ some plaintext
  pub reads_payload : (ds : List Fields) → crypto.read_payload (crypto.write_payload ds) ≡ ok ds
  pub reads_envelope :
      (e : Envelope crypto.Ciphertext) → crypto.read_envelope (crypto.write_envelope e) ≡ some e

read_entries-entry_to_dict :
    (es : List KeyEntry) → read_entries (map entry_to_dict es) ≡ ok (map normalize es)
unfolding read_entries
read_entries-entry_to_dict [] = refl
read_entries-entry_to_dict (e ∷ es) =
    rw (entry_from_dict-entry_to_dict e, read_entries-entry_to_dict es) refl

abbrev pub HasNoPassphrase : KeyEntry → Type 0
HasNoPassphrase (hd_key label mnemonic passphrase) = passphrase ≡ none
HasNoPassphrase (raw_key label chain secret) = Unit

no_passphrases : (es : List KeyEntry) → All HasNoPassphrase (map drop_passphrase es)
no_passphrases [] = tt
no_passphrases (hd_key label mnemonic passphrase ∷ es) = (refl, no_passphrases es)
no_passphrases (raw_key label chain secret ∷ es) = (tt, no_passphrases es)

module _ (crypto : Crypto) where
  -- With a cipher and writers that can be undone, a file that is saved is loaded with the same
  -- passphrase as the same entries, an empty passphrase of an entry as none.
  pub load-save :
      (trips : RoundTrips crypto) (es : List KeyEntry) (passphrase : Str) (n : ℤ)
      (salt nonce : Bytes) (file : crypto.File)
      → save crypto es passphrase n salt nonce ≡ ok file
      → load crypto file passphrase ≡ ok (map normalize es)
  unfolding save load migrate
  load-save trips es passphrase n salt nonce file h =
      let (key, derived, done) =
        >>=-eq-ok (crypto.scrypt passphrase salt n scrypt_r scrypt_p key_len) _ h in
      rw
        (
          ← ok_inj done,
          trips.reads_envelope,
          derived,
          trips.decrypts,
          trips.reads_payload,
          read_entries-entry_to_dict es,
        )
        refl

  -- From a file of a version before 2, or of none, every entry is loaded without a passphrase.
  pub load-HasNoPassphrase :
      (file : crypto.File) (passphrase : Str) (envelope : Envelope crypto.Ciphertext)
      (es : List KeyEntry)
      → crypto.read_envelope file ≡ some envelope
      → int_or envelope.version (pos 1) <ℤ pos 2
      → load crypto file passphrase ≡ ok es
      → All HasNoPassphrase es
  unfolding load migrate
  load-HasNoPassphrase file passphrase envelope es read old h =
      let (env, found, rest) =
        >>=-eq-ok (or_raise (crypto.read_envelope file) keystore_error) _ h in
      let same : envelope ≡ env = ok_inj (rw read at found) in
      let (key, derived, rest1) =
        >>=-eq-ok
          (crypto.scrypt passphrase env.salt env.kdf_params.n env.kdf_params.r env.kdf_params.p
            (int_or env.kdf_params.length key_len))
          _ rest in
      let (plaintext, decrypted, rest2) =
        >>=-eq-ok (or_raise (crypto.decrypt key env.nonce env.ciphertext) keystore_error) _ rest1 in
      let (payload, parsed, rest3) = >>=-eq-ok (crypto.read_payload plaintext) _ rest2 in
      let (entries, listed, done) = >>=-eq-ok (read_entries payload) _ rest3 in
      let dropped : migrate envelope entries ≡ map drop_passphrase entries =
        rw ((ltb_ℤ_iff (int_or envelope.version (pos 1)) (pos 2)).1 old) refl in
      subst (All HasNoPassphrase) (sym dropped ∙ ap (λ e. migrate e entries) same ∙ ok_inj done)
        (no_passphrases entries)
