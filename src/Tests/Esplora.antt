-- ===== src/Tests/Esplora.antt =====
-- The answers of an Esplora node, read.
use cryptoswap_wallet.Common.{
  pos, negsuc, Str, Bool, true, false, List, [], ◌∷◌, ◌++◌, none, some, ◌≡◌, refl, text, str_eq,
  if◌then◌else◌,
}
use cryptoswap_wallet.Result.{Result, ok, err, http_error, key_error}
use cryptoswap_wallet.Net.{Response}
use cryptoswap_wallet.Thorchain.Json.{
  Json, boolean, num, str, array, dict, nil, item, Fields, end, field,
}
use cryptoswap_wallet.Thorchain.Client.{Http}
use cryptoswap_wallet.Chains.Btc.Esplora.{
  AddressInfo, parse_address_info, read_utxos, fetch_utxos, fetch_balance, broadcast,
}

abbrev mempool : Fields
mempool =
    field (text "funded_txo_sum") (num (pos 10))
      (field (text "spent_txo_sum") (num (pos 25)) (field (text "tx_count") (num (pos 1)) end))

abbrev stats : Fields
stats =
    field (text "chain_stats") (dict (field (text "funded_txo_sum") (num (pos 700)) end))
      (field (text "mempool_stats") (dict mempool) end)

parse_address_info_pending :
    parse_address_info stats
    ≡ ok (record { has_history = true; confirmed = pos 700; pending = negsuc 14 })
unfolding parse_address_info str_eq cryptoswap_wallet.Chains.Btc.Esplora.net_value
    cryptoswap_wallet.Chains.Btc.Esplora.any_history cryptoswap_wallet.Common.◌-ℤ◌
parse_address_info_pending = refl

parse_address_info_empty :
    parse_address_info end ≡ ok (record { has_history = false; confirmed = pos 0; pending = pos 0 })
unfolding parse_address_info cryptoswap_wallet.Chains.Btc.Esplora.net_value
    cryptoswap_wallet.Chains.Btc.Esplora.any_history cryptoswap_wallet.Common.◌-ℤ◌
parse_address_info_empty = refl

abbrev coin : Str → Json → Json
coin txid status = dict (
    field (text "txid") (str txid) (
      field (text "vout") (num (pos 2))
        (field (text "value") (num (pos 900)) (field (text "status") status end))))

abbrev settled : Bool → Json
settled b = dict (field (text "confirmed") (boolean b) end)

-- A coin whose status is not confirmed, or is silent, is left out, even where it lacks a field.
read_utxos_confirmed :
    read_utxos (text "a") (
      array (
        item (coin (text "x") (settled false)) (
          item
            (coin (text "y") (settled true))
            (item (coin (text "z") (dict end)) (item (dict end) nil)))))
    ≡ ok (
        record { txid = text "y"; vout = 2; value = pos 900; address = text "a"; path = none } ∷ [])
unfolding read_utxos str_eq
read_utxos_confirmed = refl

read_utxos_lacking :
    read_utxos (text "a") (array (item (dict (field (text "status") (settled true) end)) nil))
    ≡ err key_error
unfolding read_utxos str_eq
read_utxos_lacking = refl

abbrev answer : Json → Str → Response
answer payload body = record { status_code = pos 200; json = some payload; body = body }

abbrev refusal : Response
refusal = record { status_code = pos 400; json = none; body = [] }

abbrev node : Http
node url params headers =
    ok (if str_eq url (text "http://n/address/a") then answer (dict stats) [] else refusal)

fetch_balance_confirmed : fetch_balance node (text "http://n") (text "a") ≡ ok (pos 700)
unfolding fetch_balance cryptoswap_wallet.Chains.Btc.Esplora.address_info
    cryptoswap_wallet.Net.raise_for_status str_eq cryptoswap_wallet.Net.read_json parse_address_info
    cryptoswap_wallet.Chains.Btc.Esplora.net_value cryptoswap_wallet.Chains.Btc.Esplora.any_history
    cryptoswap_wallet.Common.◌-ℤ◌
fetch_balance_confirmed = refl

fetch_utxos_refused : fetch_utxos node (text "http://n") (text "a") ≡ err http_error
unfolding fetch_utxos cryptoswap_wallet.Net.raise_for_status str_eq
fetch_utxos_refused = refl

abbrev accept : Str → Str → Result Response
accept url raw =
    ok (if str_eq raw (text "bad") then refusal else answer (dict end) (raw ++ text "-id\n"))

-- The last transaction's id is returned, without its line end; the first refusal stops the loop.
broadcast_last : broadcast accept (text "http://n") (text "p" ∷ text "q" ∷ []) ≡ ok (text "q-id")
unfolding broadcast cryptoswap_wallet.Net.raise_for_status str_eq
    cryptoswap_wallet.Thorchain.Json.strip
broadcast_last = refl

broadcast_refused : broadcast accept (text "http://n") (text "bad" ∷ text "q" ∷ []) ≡ err http_error
unfolding broadcast cryptoswap_wallet.Net.raise_for_status str_eq
broadcast_refused = refl
