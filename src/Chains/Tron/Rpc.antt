-- ===== src/Chains/Tron/Rpc.antt =====
-- The HTTP calls of the TRON adapter, and its addresses.
use mathlib.Core.List.{reverse}
use cryptoswap_wallet.Common.{
  ℤ, pos, Str, true, List, [], ◌∷◌, ◌++◌, text, drop, from_hex, eqb_ℤ, ◌==◌, if◌then◌else◌,
}
use cryptoswap_wallet.Result.{
  Result, ok, err, ◌>>=◌, ◌>>◌, or_raise, value_error, type_error, key_error,
}
use cryptoswap_wallet.Net.{Post, raise_for_status, read_json}
use cryptoswap_wallet.Thorchain.Json.{
  Json, null, boolean, num, str, array, dict, nil, item, Fields, end, field, get_or, to_int,
}
use cryptoswap_wallet.Thorchain.Parse.{to_dict}
use cryptoswap_wallet.Chains.Base.{BalanceReport}
use cryptoswap_wallet.Chains.Eth.Rpc.{int_16, rjust_64}
use cryptoswap_wallet.Chains.Eth.Types.{Token}
use cryptoswap_wallet.Chains.Tron.Types.{TronLibs, TronAdapter, default_tron_derivation}
use cryptoswap_wallet.Chains.Tron.Base58.{base58check_encode}
use cryptoswap_wallet.Chains.Tron.Build.{account_of}

strip_slashes : Str → Str
strip_slashes [] = []
strip_slashes (c ∷ s) = let rest = strip_slashes s in if c == b'/' then rest else c ∷ s

-- `TronAdapter.__init__`
unfoldable pub new_tron_adapter : Str → Str → TronAdapter
unfolding strip_slashes
new_tron_adapter api_url bip39_passphrase = record {
  api_url = reverse (strip_slashes (reverse api_url));
  bip39_passphrase = bip39_passphrase;
}

abbrev pub tron_tracked_tokens : List Token
tron_tracked_tokens =
    record {
      symbol = text "USDT";
      contract = text "TR7NHqjeKQxGTCi8q8ZY4pL8otSzgjLj6t";
      decimals = pos 6;
    }
    ∷ []

-- `int(results[0], 16) if results else 0`, where `results` is an empty list for `null`.
first_result : Json → Result ℤ
first_result null = ok (pos 0)
first_result (array nil) = ok (pos 0)
first_result (array (item v vs)) = int_16 v
first_result (str []) = ok (pos 0)
first_result (str (c ∷ s)) = int_16 (str (c ∷ []))
first_result (dict end) = ok (pos 0)
first_result (dict (field key v fields)) = err key_error
first_result (boolean b) = if b then err type_error else ok (pos 0)
first_result (num n) = if eqb_ℤ n (pos 0) then ok (pos 0) else err type_error

module _ (libs : TronLibs) (self : TronAdapter) (post : Post) where
  unfoldable pub derive_address : Str → Str → Result Str
  derive_address mnemonic path = do
    account ← account_of libs self mnemonic path
    addr20 ← or_raise (from_hex (drop 2 account.1)) value_error
    or_raise (base58check_encode libs (0x41 ∷ addr20)) value_error

  ask : Str → Fields → Result Json
  ask path body = do
    resp ← post (self.api_url ++ path) (dict body)
    raise_for_status resp
    read_json resp

  unfoldable pub fetch_balance : Str → Result ℤ
  unfolding ask
  fetch_balance address = do
    payload ←
        ask (text "/wallet/getaccount")
          (field (text "address") (str address) (field (text "visible") (boolean true) end))
    fields ← to_dict payload
    to_int (get_or (text "balance") (num (pos 0)) fields)

  unfoldable pub wallet_balance : Str → Result BalanceReport
  wallet_balance mnemonic = do
    address ← derive_address mnemonic default_tron_derivation
    confirmed ← fetch_balance address
    ok (record {
      symbol = text "TRX";
      confirmed = confirmed;
      decimals = pos 6;
      pending = pos 0;
      note = text "(" ++ (address ++ text ")");
      addresses = address ∷ [];
    })

  unfoldable pub fetch_token_balance : Str → Str → Result ℤ
  unfolding ask first_result
  fetch_token_balance contract address = do
    owner ← libs.to_hex_address address
    payload ← ask (text "/wallet/triggerconstantcontract") (
        field (text "owner_address") (str address) (
          field (text "contract_address") (str contract) (
            field (text "function_selector") (str (text "balanceOf(address)")) (
              field (text "parameter") (str (rjust_64 (drop 2 owner)))
                (field (text "visible") (boolean true) end)))))
    fields ← to_dict payload
    first_result (get_or (text "constant_result") null fields)

  unfoldable pub get_transaction_info : Str → Result Json
  unfolding ask
  get_transaction_info txid =
      ask (text "/wallet/gettransactioninfobyid") (field (text "value") (str txid) end)

  report_tokens : Str → List Token → Result (List BalanceReport)
  report_tokens address [] = ok []
  report_tokens address (token ∷ tokens) = do
    confirmed ← fetch_token_balance token.contract address
    rest ← report_tokens address tokens
    ok (
        record {
          symbol = token.symbol ++ text "-TRON";
          confirmed = confirmed;
          decimals = token.decimals;
          pending = pos 0;
          note = [];
          addresses = address ∷ [];
        }
        ∷ rest)

  unfoldable pub token_balances : Str → Result (List BalanceReport)
  unfolding report_tokens
  token_balances mnemonic = do
    address ← derive_address mnemonic default_tron_derivation
    report_tokens address tron_tracked_tokens
