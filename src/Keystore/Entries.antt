-- ===== src/Keystore/Entries.antt =====
-- Entries as JSON and back, and the labels of a keystore.
use cryptoswap_wallet.Common.{
  Str, false, List, [], ◌∷◌, ◌++◌, Option, none, some, ◌≡◌, inl, inr, refl, ap, sym, subst,
  false_of_not, contains, str_eq, str_eq_iff, Bool-cases,
}
use cryptoswap_wallet.Result.{Result, ok, raise_if-eq-ok, ok_inj, keystore_error}
use cryptoswap_wallet.Keystore.{
  KeyEntry, hd_key, raw_key, label_of, labels, entry_to_dict, entry_from_dict, add_hd, add_raw,
  given,
}

-- An entry without an empty passphrase.
abbrev pub normalize : KeyEntry → KeyEntry
normalize (hd_key label mnemonic passphrase) = hd_key label mnemonic (given passphrase)
normalize (raw_key label chain secret) = raw_key label chain secret

-- An entry that is written as JSON is read as itself, an empty passphrase as none.
pub entry_from_dict-entry_to_dict :
    (e : KeyEntry) → entry_from_dict (entry_to_dict e) ≡ ok (normalize e)
unfolding entry_to_dict entry_from_dict str_eq
entry_from_dict-entry_to_dict (hd_key label mnemonic none) = refl
entry_from_dict-entry_to_dict (hd_key label mnemonic (some [])) = refl
entry_from_dict-entry_to_dict (hd_key label mnemonic (some (c ∷ s))) = refl
entry_from_dict-entry_to_dict (raw_key label chain secret) = refl

abbrev pub IsUnique : List Str → Type 0
IsUnique [] = Unit
IsUnique (s ∷ ss) = (contains ss s ≡ false) × IsUnique ss

contains-snoc :
    (ss : List Str) (l s : Str)
    → contains ss s ≡ false
    → str_eq l s ≡ false
    → contains (ss ++ (l ∷ [])) s ≡ false
unfolding contains
contains-snoc [] l s h d = rw d refl
contains-snoc (x ∷ ss) l s h d = elim (Bool-cases (str_eq x s)) [
  | inl e ↦ cc (rw e at h)
  | inr e ↦ rw e (contains-snoc ss l s (rw e at h) d)
]

str_eq_sym : (s t : Str) → str_eq s t ≡ false → str_eq t s ≡ false
str_eq_sym s t h = false_of_not (λ e. cc (h, (str_eq_iff s t).1 (sym ((str_eq_iff t s).0 e))))

IsUnique-snoc :
    (ss : List Str) (l : Str) → IsUnique ss → contains ss l ≡ false → IsUnique (ss ++ (l ∷ []))
unfolding contains
IsUnique-snoc [] l u h = (refl, tt)
IsUnique-snoc (s ∷ ss) l u h = elim (Bool-cases (str_eq s l)) [
  | inl e ↦ cc (rw e at h)
  | inr e ↦ (contains-snoc ss l s u.0 (str_eq_sym s l e), IsUnique-snoc ss l u.1 (rw e at h))
]

labels-snoc :
    (es : List KeyEntry) (e : KeyEntry) → labels (es ++ (e ∷ [])) ≡ labels es ++ (label_of e ∷ [])
labels-snoc [] e = refl
labels-snoc (x ∷ es) e = ap (λ l. label_of x ∷ l) (labels-snoc es e)

-- One call that adds an entry.
pub data Addition : Type 0 where
  hd : Str → Str → Option Str → Addition
  raw : Str → Str → Str → Addition

abbrev pub add : List KeyEntry → Addition → Result (List KeyEntry)
add es (hd label mnemonic passphrase) = add_hd es label mnemonic passphrase
add es (raw label chain secret) = add_raw es label chain secret

added : Addition → KeyEntry
added (hd label mnemonic passphrase) = hd_key label mnemonic (given passphrase)
added (raw label chain secret) = raw_key label chain secret

add-eq-ok :
    (es es' : List KeyEntry) (a : Addition)
    → add es a ≡ ok es'
    → (contains (labels es) (label_of (added a)) ≡ false) × (es ++ (added a ∷ []) ≡ es')
unfolding add_hd add_raw added
add-eq-ok es es' (hd label mnemonic passphrase) h =
    let (fresh, done) = raise_if-eq-ok (contains (labels es) label) keystore_error _ h in
    (fresh, ok_inj done)
add-eq-ok es es' (raw label chain secret) h =
    let (fresh, done) = raise_if-eq-ok (contains (labels es) label) keystore_error _ h in
    (fresh, ok_inj done)

-- The keystores that calls of `add_hd` and `add_raw` reach from an empty one.
pub data Reached : List KeyEntry → Type 0 where
  created : Reached []
  grown : {es es' : List KeyEntry} (a : Addition) → Reached es → add es a ≡ ok es' → Reached es'

-- The labels of a keystore that was filled by `add_hd` and `add_raw` are different from one another.
pub Reached-IsUnique : {es : List KeyEntry} → Reached es → IsUnique (labels es)
Reached-IsUnique created = tt
Reached-IsUnique (grown {es} {es'} a r h) =
    let (fresh, eq) = add-eq-ok es es' a h in
    subst (λ x. IsUnique (labels x)) eq
      (rw (labels-snoc es (added a))
        (IsUnique-snoc (labels es) (label_of (added a)) (Reached-IsUnique r) fresh))
