-- ===== src/Chains/Eth/Rpc.antt =====
-- The JSON-RPC calls of the Ethereum adapter.
pub mod Laws
use cryptoswap_wallet.Common.{
  ℕ, zero, suc, ◌+◌, ◌-◌, ◌*◌, ℤ, pos, ◌+ℤ◌, ◌*ℤ◌, Str, Bool, true, false, not, ◌&&◌, ◌||◌, List,
  [], ◌∷◌, ◌++◌, Option, none, some, text, str_eq, lower, drop, length, ◌==◌, if◌then◌else◌,
  hex_value,
}
use mathlib.Core.Option
use cryptoswap_wallet.Result.{
  Result, ok, err, ◌>>=◌, ◌>>◌, raise_if, or_raise, Error, runtime_error, broadcast_error,
  value_error, type_error, key_error,
}
use cryptoswap_wallet.Net.{Response, Post, raise_for_status, read_json}
use cryptoswap_wallet.Thorchain.Json.{
  Json, null, boolean, num, str, array, dict, Items, nil, item, Fields, end, field, get, get_or,
  has_key, truthy, strip, negate,
}
use cryptoswap_wallet.Thorchain.Parse.{to_dict}
use cryptoswap_wallet.Chains.Base.{BalanceReport}
use cryptoswap_wallet.Chains.Eth.Types.{EthLibs, EthAdapter, Token, default_eth_derivation}
use cryptoswap_wallet.Chains.Eth.Calldata.{remove_0x}
use cryptoswap_wallet.Chains.Eth.Checksum.{to_checksum_address}

-- One character of a number in base 16: the value so far, and whether the last one was a digit.
read_digit_16 : ℕ → Bool → ℕ → Option (ℕ × Bool)
read_digit_16 acc after_digit c = elim (hex_value c) [
  | some v ↦ some (acc * 16 + v, true)
  | none ↦ if c == b'_' && after_digit then some (acc, false) else none
]

read_digits_16 : ℕ → Bool → Str → Option ℕ
unfolding read_digit_16
read_digits_16 acc after_digit [] = if after_digit then some acc else none
read_digits_16 acc after_digit (c ∷ s) = elim (read_digit_16 acc after_digit c) [
  | none ↦ none
  | some (acc', after_digit') ↦ read_digits_16 acc' after_digit' s
]

-- After the sign: an underscore may follow a prefix "0x".
read_unsigned_16 : Str → Option ℕ
unfolding read_digits_16
read_unsigned_16 (z ∷ x ∷ s) =
    if z == b'0' && (x == b'x' || x == b'X')
    then read_prefixed s
    else read_digits_16 0 false (z ∷ x ∷ s)
  where
    read_prefixed : Str → Option ℕ
    read_prefixed [] = none
    read_prefixed (c ∷ t) = read_digits_16 0 (c == b'_') (c ∷ t)
read_unsigned_16 s = read_digits_16 0 false s

read_signed_16 : Str → Option ℤ
unfolding read_unsigned_16
read_signed_16 [] = none
read_signed_16 (c ∷ s) =
    if c == b'-'
    then Option.map negate (read_unsigned_16 s)
    else Option.map pos (if c == b'+' then read_unsigned_16 s else read_unsigned_16 (c ∷ s))

-- `int(value, 16)`
unfoldable pub int_16 : Json → Result ℤ
unfolding read_signed_16
int_16 (str s) = or_raise (read_signed_16 (strip s)) value_error
int_16 null = err type_error
int_16 (boolean b) = err type_error
int_16 (num n) = err type_error
int_16 (array vs) = err type_error
int_16 (dict fields) = err type_error

abbrev pub items : List Json → Json
items vs = array (all vs)
  where
    all : List Json → Items
    all [] = nil
    all (w ∷ ws) = item w (all ws)

-- `s.rjust(64, "0")`
unfoldable pub rjust_64 : Str → Str
rjust_64 s = zeros (64 - length s) ++ s
  where
    zeros : ℕ → Str
    zeros zero = []
    zeros (suc n) = b'0' ∷ zeros n

-- The known decimals of a token.
unfoldable pub decimals_of : Str → List (Str × ℤ) → Option ℤ
decimals_of key [] = none
decimals_of key ((contract, decimals) ∷ known) =
    if str_eq contract key then some decimals else decimals_of key known

module _ (libs : EthLibs) (self : EthAdapter) where
  -- `_key`: the private key, and the address.
  unfoldable pub account_of : Str → Str → Result (libs.Key × Str)
  account_of mnemonic path = libs.from_mnemonic mnemonic self.bip39_passphrase path

  unfoldable pub derive_address : Str → Str → Result Str
  derive_address mnemonic path = do account ← account_of mnemonic path; ok account.1

-- An error that the node answers is raised as a `BroadcastError` with its message.
abbrev pub as_broadcast_error : Result Json → Result Json
as_broadcast_error (err (runtime_error message)) = err (broadcast_error message)
as_broadcast_error r = r

-- `post` is the HTTP session, and `py_str` is `str` of a JSON value that is not a text.
module _ (post : Post) (py_str : Json → Str) (self : EthAdapter) where
  show : Json → Str
  show (str s) = s
  show v = py_str v

  abbrev body : Str → List Json → Json
  body method params = dict (
      field (text "jsonrpc") (str (text "2.0")) (
        field (text "id") (num (pos 1))
          (field (text "method") (str method) (field (text "params") (items params) end))))

  -- The result in an answer of the node.
  unfoldable pub read_answer : Str → Json → Result Json
  unfolding show
  read_answer method payload = do
    fields ← to_dict payload
    raise_if (truthy (get_or (text "error") null fields)) (
        runtime_error
          (text "RPC " ++ (method ++ (text ": " ++ show (get_or (text "error") null fields)))))
    raise_if (not (has_key (text "result") fields)) (
        runtime_error
          (text "RPC " ++ (method ++ (text ": malformed response (no result): " ++ show payload))))
    or_raise (get (text "result") fields) key_error

  unfoldable pub rpc : Str → List Json → Result Json
  rpc method params = do
    resp ← post self.rpc_url (body method params)
    raise_for_status resp
    payload ← read_json resp
    read_answer method payload

  unfoldable pub get_nonce : Str → Result ℤ
  get_nonce address =
      rpc (text "eth_getTransactionCount") (str address ∷ str (text "pending") ∷ []) >>= int_16

  unfoldable pub fetch_balance : Str → Result ℤ
  fetch_balance address =
      rpc (text "eth_getBalance") (str address ∷ str (text "latest") ∷ []) >>= int_16

  eth_call : Str → Str → Result ℤ
  eth_call token calldata =
      rpc (text "eth_call") (
        dict (field (text "to") (str token) (field (text "data") (str calldata) end))
        ∷ str (text "latest")
        ∷ [])
      >>= int_16

  unfoldable pub fetch_token_decimals : Str → Result ℤ
  unfolding eth_call
  fetch_token_decimals token = eth_call token (text "0x313ce567")

  -- The decimals of a known token are not asked of the node.
  unfoldable pub token_decimals : Str → Result ℤ
  token_decimals token =
      known_or (decimals_of (text "0x" ++ remove_0x (lower token)) self.known_token_decimals)
    where
      known_or : Option ℤ → Result ℤ
      known_or (some decimals) = ok decimals
      known_or none = fetch_token_decimals token

  -- The maximal fee and the priority fee, in wei for each unit of gas.
  unfoldable pub fetch_fees : Result (ℤ × ℤ)
  fetch_fees = do
    tip ← (rpc (text "eth_maxPriorityFeePerGas") [] >>= int_16)
    block ← rpc (text "eth_getBlockByNumber") (str (text "latest") ∷ boolean false ∷ [])
    fields ← to_dict block
    base_fee ← or_raise (get (text "baseFeePerGas") fields) key_error
    base ← int_16 base_fee
    ok (base *ℤ pos 2 +ℤ tip, tip)

  -- The transactions that are posted, in order, and what the loop ends with; `txid` is the value of
  -- the variable so far.
  unfoldable pub post_all : Json → List Str → List Str × Result Str
  unfolding show
  post_all txid [] = ([], ok (show txid))
  post_all txid (raw ∷ raws) =
      elim (as_broadcast_error (rpc (text "eth_sendRawTransaction") (str raw ∷ []))) [
        | err e ↦ (raw ∷ [], err e)
        | ok v ↦ let rest = post_all v raws in (raw ∷ rest.0, rest.1)
      ]

  unfoldable pub broadcast : List Str → Result Str
  broadcast raws = let (posted, result) = post_all (str []) raws in result

  module _ (libs : EthLibs) where
    unfoldable pub fetch_token_balance : Str → Str → Result ℤ
    unfolding eth_call
    fetch_token_balance token address = do
      owner ← to_checksum_address libs address
      eth_call token (text "0x70a08231" ++ rjust_64 (lower (drop 2 owner)))

    unfoldable pub wallet_balance : Str → Result BalanceReport
    wallet_balance mnemonic = do
      address ← derive_address libs self mnemonic default_eth_derivation
      confirmed ← fetch_balance address
      ok (record {
        symbol = self.native_symbol;
        confirmed = confirmed;
        decimals = pos 18;
        pending = pos 0;
        note = text "(" ++ (address ++ text ")");
        addresses = address ∷ [];
      })

    report_tokens : Str → List Token → Result (List BalanceReport)
    report_tokens address [] = ok []
    report_tokens address (token ∷ tokens) = do
      confirmed ← fetch_token_balance token.contract address
      rest ← report_tokens address tokens
      ok (
          record {
            symbol = token.symbol ++ (text "-" ++ self.token_suffix);
            confirmed = confirmed;
            decimals = token.decimals;
            pending = pos 0;
            note = [];
            addresses = address ∷ [];
          }
          ∷ rest)

    unfoldable pub token_balances : Str → Result (List BalanceReport)
    unfolding report_tokens
    token_balances mnemonic = do
      address ← derive_address libs self mnemonic default_eth_derivation
      report_tokens address self.tracked_tokens
