-- ===== src/Chains/Eth/Calldata/Reads.antt =====
-- What the values that are read from calldata say of those that were written.
use cryptoswap_wallet.Common.{ℤ, Str, List, [], ◌∷◌, some, ◌≡◌, refl, sym, text, Begins}
use cryptoswap_wallet.Verify.Eth.Spec.{SameHex}
use cryptoswap_wallet.Chains.Eth.Types.{
  AbiValue, abi_address, abi_uint, abi_string, ReadsAs, AllReadAs,
}
use cryptoswap_wallet.Chains.Eth.Gate.Spec.{Approves, Deposits}

-- A value that is read as an address, a number or a text is one, and the same.
reads_address :
    (a : Str) (w : AbiValue)
    → Begins (text "0x") a
    → ReadsAs (abi_address a) w
    → (s : Str) × (w ≡ abi_address s) × SameHex s a
reads_address a (abi_address s) prefixed h = (s, refl, sym (h prefixed))
reads_address a (abi_uint n) prefixed h = cc h
reads_address a (abi_string s) prefixed h = cc h

reads_uint : (n : ℤ) (w : AbiValue) → ReadsAs (abi_uint n) w → w ≡ abi_uint n
reads_uint n (abi_address s) h = cc h
reads_uint n (abi_uint m) h = cc h
reads_uint n (abi_string s) h = cc h

reads_string : (t : Str) (w : AbiValue) → ReadsAs (abi_string t) w → w ≡ abi_string t
reads_string t (abi_address s) h = cc h
reads_string t (abi_uint m) h = cc h
reads_string t (abi_string s) h = cc h

reads_cons :
    (v : AbiValue) (vs ws : List AbiValue)
    → AllReadAs (v ∷ vs) ws
    → (w : AbiValue) × (rest : List AbiValue) × (ws ≡ w ∷ rest) × ReadsAs v w × AllReadAs vs rest
reads_cons v vs [] h = cc h
reads_cons v vs (w ∷ ws) h = (w, ws, refl, h.0, h.1)

reads_nil : (ws : List AbiValue) → AllReadAs [] ws → ws ≡ []
reads_nil [] h = refl
reads_nil (w ∷ ws) h = cc h

-- The arguments that are read of an approval and of a deposit.
pub reads_approval :
    (a : Str) (n : ℤ) (ws : List AbiValue)
    → Begins (text "0x") a
    → AllReadAs (abi_address a ∷ abi_uint n ∷ []) ws
    → Approves a n (some ws)
reads_approval a n ws prefixed h =
    let (w0, ws1, e0, h0, t0) = reads_cons _ _ ws h in
    let (w1, ws2, e1, h1, t1) = reads_cons _ _ ws1 t0 in
    let (s, is_s, same) = reads_address a w0 prefixed h0 in
    let is_n = reads_uint n w1 h1 in
    let done = reads_nil ws2 t1 in (s, cc (e0, e1, is_s, is_n, done), same)

pub reads_deposit :
    (v t : Str) (n : ℤ) (m : Str) (x : ℤ) (ws : List AbiValue)
    → Begins (text "0x") v
    → Begins (text "0x") t
    → AllReadAs (abi_address v ∷ abi_address t ∷ abi_uint n ∷ abi_string m ∷ abi_uint x ∷ []) ws
    → Deposits v t n m x (some ws)
reads_deposit v t n m x ws prefixed prefixed' h =
    let (w0, ws1, e0, h0, t0) = reads_cons _ _ ws h in
    let (w1, ws2, e1, h1, t1) = reads_cons _ _ ws1 t0 in
    let (w2, ws3, e2, h2, t2) = reads_cons _ _ ws2 t1 in
    let (w3, ws4, e3, h3, t3) = reads_cons _ _ ws3 t2 in
    let (w4, ws5, e4, h4, t4) = reads_cons _ _ ws4 t3 in
    let (v', is_v, same_v) = reads_address v w0 prefixed h0 in
    let (t', is_t, same_t) = reads_address t w1 prefixed' h1 in
    let is_n = reads_uint n w2 h2 in
    let is_m = reads_string m w3 h3 in
    let is_x = reads_uint x w4 h4 in
    let done = reads_nil ws5 t4 in
    (v', t', cc (e0, e1, e2, e3, e4, is_v, is_t, is_n, is_m, is_x, done), same_v, same_t)
