-- ===== src/Tests/EthData.antt =====
-- Libraries that the Ethereum adapter could call: they encode the arguments of one swap.
use cryptoswap_wallet.Common.{
  ltb, ltb→lt, ℕ, IsHexDigit, leb, ◌||◌, lower, pos, Str, Bytes, Bool, true, false, ◌&&◌, List, [],
  ◌∷◌, Option, none, some, ◌≡◌, refl, ap, text, str_eq, str_eq_iff, eqb_ℤ, eqb_ℤ_iff, &&_iff,
  Bool-cases, inl, inr, All, IsByte, if◌then◌else◌, ◌==◌, arith,
}
use cryptoswap_wallet.Result.{Result, ok, err, ok_inj, value_error}
use cryptoswap_wallet.Thorchain.Json.{end}
use cryptoswap_wallet.Thorchain.Types.{Quote}
use cryptoswap_wallet.Swap.Types.{SwapRequest}
use cryptoswap_wallet.Chains.Eth.Types.{
  EthLibs, Documented, AbiType, AbiValue, abi_address, abi_uint, abi_string, AllReadAs, EthAdapter,
  EthArgs, new_eth_adapter, mainnet,
}
use cryptoswap_wallet.Chains.Eth.Checksum.Laws.{IsAddress}
use cryptoswap_wallet.Tests.Data.{fees}

abbrev pub token : Str
token = text "0xdAc17F958D2Ee523a2206206994597c13D831Ec7"

abbrev pub router : Str
router = text "0xaBaBaBaBaBaBaBaBaBaBaBaBaBaBaBaBaBaBaBaB"

abbrev pub vault : Str
vault = text "0xc0fFeEc0fFeEc0fFeEc0fFeEc0fFeEc0fFeEaBcD"

abbrev pub memo : Str
memo = text "=:e:0xab"

abbrev pub approve_values : List AbiValue
approve_values = abi_address router ∷ abi_uint (pos 1000000) ∷ []

abbrev pub deposit_values : List AbiValue
deposit_values =
    abi_address vault
    ∷ abi_address token
    ∷ abi_uint (pos 1000000)
    ∷ abi_string memo
    ∷ abi_uint (pos 90)
    ∷ []

same_value : AbiValue → AbiValue → Bool
same_value (abi_address a) (abi_address b) = str_eq a b
same_value (abi_uint m) (abi_uint n) = eqb_ℤ m n
same_value (abi_string s) (abi_string t) = str_eq s t
same_value v w = false

same_values : List AbiValue → List AbiValue → Bool
unfolding same_value
same_values [] [] = true
same_values (v ∷ vs) (w ∷ ws) = same_value v w && same_values vs ws
same_values vs ws = false

same_value_eq : (v w : AbiValue) → same_value v w ≡ true → v ≡ w
unfolding same_value
same_value_eq (abi_address a) (abi_address b) h = ap abi_address ((str_eq_iff a b).0 h)
same_value_eq (abi_uint m) (abi_uint n) h = ap abi_uint ((eqb_ℤ_iff m n).0 h)
same_value_eq (abi_string s) (abi_string t) h = ap abi_string ((str_eq_iff s t).0 h)
same_value_eq v w h = cc h

same_values_eq : (vs ws : List AbiValue) → same_values vs ws ≡ true → vs ≡ ws
unfolding same_values
same_values_eq [] [] h = refl
same_values_eq (v ∷ vs) (w ∷ ws) h =
    let both = (&&_iff (same_value v w) (same_values vs ws)).0 h in
    cc (same_value_eq v w both.0, same_values_eq vs ws both.1)
same_values_eq [] (w ∷ ws) h = cc h
same_values_eq (v ∷ vs) [] h = cc h

reads_itself : (vs : List AbiValue) → AllReadAs vs vs
reads_itself [] = tt
reads_itself (abi_address a ∷ vs) = (λ _. refl, reads_itself vs)
reads_itself (abi_uint n ∷ vs) = (refl, reads_itself vs)
reads_itself (abi_string s ∷ vs) = (refl, reads_itself vs)

unfoldable pub encode : List AbiType → List AbiValue → Result Bytes
unfolding same_values
encode types values =
    if same_values values approve_values
    then ok (1 ∷ [])
    else if same_values values deposit_values
    then ok (2 ∷ [])
    else err value_error

unfoldable pub decode : List AbiType → Bytes → Option (List AbiValue)
decode types [] = none
decode types (b ∷ bs) = if b == 1 then some approve_values else some deposit_values

encoded_cases :
    (types : List AbiType) (values : List AbiValue) (bs : Bytes)
    → encode types values ≡ ok bs
    → All IsByte bs
      × ((read : List AbiValue) × (decode types bs ≡ some read) × AllReadAs values read)
unfolding encode decode
encoded_cases types values bs h = elim (Bool-cases (same_values values approve_values)) [
  | inl e ↦
      rw (← ok_inj (rw e at h), same_values_eq values approve_values e)
        ((omega arith, tt), (approve_values, refl, reads_itself approve_values))
  | inr e ↦ elim (Bool-cases (same_values values deposit_values)) [
    | inl f ↦
        rw (← ok_inj (rw (e, f) at h), same_values_eq values deposit_values f)
          ((omega arith, tt), (deposit_values, refl, reads_itself deposit_values))
    | inr f ↦ cc (rw (e, f) at h)
  ]
]

abbrev digest : Bytes
digest = text "................................"

are_bytes : Bytes → Bool
are_bytes [] = true
are_bytes (b ∷ bs) = let rest = are_bytes bs in ltb b 256 && rest

checked_bytes : (bs : Bytes) → are_bytes bs ≡ true → All IsByte bs
unfolding are_bytes
checked_bytes [] h = tt
checked_bytes (b ∷ bs) h =
    let both = (&&_iff (ltb b 256) (are_bytes bs)).0 h in
    (ltb→lt b 256 both.0, checked_bytes bs both.1)

digest-IsByte : All IsByte digest
unfolding are_bytes
digest-IsByte = checked_bytes digest refl

abbrev pub libs : EthLibs
libs = record {
  Key = Unit;
  from_mnemonic = λ mnemonic passphrase path. ok (tt, router);
  sign_transaction = λ tx key. ok (1 ∷ 2 ∷ []);
  keccak256 = λ bs. digest;
  abi_encode = encode;
  abi_decode = decode;
}

pub libs-Documented : Documented libs
libs-Documented = record {
  digest_length = λ bs. refl;
  digest_bytes = λ bs. digest-IsByte;
  abi_bytes = λ types values bs h. (encoded_cases types values bs h).0;
  decode_encode = λ types values bs h. (encoded_cases types values bs h).1;
}

abbrev pub adapter : EthAdapter
adapter = new_eth_adapter (text "http://node") [] mainnet

abbrev pub args : EthArgs
args = record {
  mnemonic = text "words";
  nonce = pos 7;
  gas = pos 60000;
  max_fee_per_gas = pos 10;
  max_priority_fee_per_gas = pos 1;
  max_fee_wei = pos 3000000;
}

abbrev pub quote : Quote
quote = record {
  inbound_address = vault;
  expected_amount_out = pos 5;
  memo = some memo;
  fees = fees;
  recommended_min_amount_in = pos 1;
  expiry = pos 90;
  dust_threshold = pos 0;
  recommended_gas_rate = pos 1;
  gas_rate_units = text "gwei";
  router = some router;
  max_streaming_quantity = pos 0;
  streaming_swap_blocks = pos 0;
  total_swap_seconds = pos 0;
  raw = end;
}

abbrev pub token_request : SwapRequest
token_request = record {
  from_asset = text "ETH.USDT-0XDAC17F958D2EE523A2206206994597C13D831EC7";
  to_asset = text "BTC.BTC";
  amount = pos 100000000;
  destination = text "0xAB";
}

abbrev pub native_request : SwapRequest
native_request = record {
  from_asset = text "ETH.ETH";
  to_asset = text "BTC.BTC";
  amount = pos 3;
  destination = text "0xAB";
}

is_hex_digit : ℕ → Bool
is_hex_digit c = (leb 48 c && leb c 57) || (leb 97 c && leb c 102)

all_hex_digits : Str → Bool
all_hex_digits [] = true
all_hex_digits (c ∷ s) = is_hex_digit c && all_hex_digits s

is_hex_digit_lem : (c : ℕ) → is_hex_digit c ≡ true → IsHexDigit c
unfolding is_hex_digit
is_hex_digit_lem c h = ground arith

all_hex_digits-All : (s : Str) → all_hex_digits s ≡ true → All IsHexDigit s
unfolding all_hex_digits is_hex_digit
all_hex_digits-All [] h = tt
all_hex_digits-All (c ∷ s) h =
    let both = (&&_iff (is_hex_digit c) (all_hex_digits s)).0 h in
    (is_hex_digit_lem c both.0, all_hex_digits-All s both.1)

abbrev pub vault_lower : Str
vault_lower = text "0xc0ffeec0ffeec0ffeec0ffeec0ffeec0ffeeabcd"

abbrev pub vault_digits : Str
vault_digits = text "c0ffeec0ffeec0ffeec0ffeec0ffeec0ffeeabcd"

pub vault_digits-IsHexDigit : All IsHexDigit vault_digits
unfolding all_hex_digits is_hex_digit
vault_digits-IsHexDigit = all_hex_digits-All vault_digits refl

pub vault-IsAddress : IsAddress vault_lower
unfolding all_hex_digits is_hex_digit lower
vault-IsAddress = (
  b'0',
  b'x',
  text "c0ffeec0ffeec0ffeec0ffeec0ffeec0ffeeabcd",
  refl,
  refl,
  all_hex_digits-All (text "c0ffeec0ffeec0ffeec0ffeec0ffeec0ffeeabcd") refl,
  refl,
)

abbrev pub native_quote : Quote
native_quote = record {
  inbound_address = vault_lower;
  expected_amount_out = pos 5;
  memo = some memo;
  fees = fees;
  recommended_min_amount_in = pos 1;
  expiry = pos 90;
  dust_threshold = pos 0;
  recommended_gas_rate = pos 1;
  gas_rate_units = text "gwei";
  router = none;
  max_streaming_quantity = pos 0;
  streaming_swap_blocks = pos 0;
  total_swap_seconds = pos 0;
  raw = end;
}
