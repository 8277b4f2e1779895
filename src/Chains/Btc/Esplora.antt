-- ===== src/Chains/Btc/Esplora.antt =====
-- The calls of the Bitcoin adapter to an Esplora node (src/cryptoswap_wallet/chains/btc.py). The
-- HTTP session is a parameter, and numbers are whole. `strip` strips the blanks of ASCII, which are all
-- that a node's answer to a transaction has around its id.
use cryptoswap_wallet.Common.{
  ℕ, ℤ, pos, negsuc, ◌-ℤ◌, Str, Bool, true, false, List, [], ◌∷◌, ◌++◌, none, text, ltb_ℤ,
  if◌then◌else◌,
}
use cryptoswap_wallet.Result.{Result, ok, err, ◌>>=◌, ◌>>◌, type_error}
use cryptoswap_wallet.Net.{Response, raise_for_status, read_json}
use cryptoswap_wallet.Thorchain.Json.{
  Json, null, boolean, num, str, array, dict, Items, nil, item, Fields, end, field, get_or, truthy,
  to_text, strip,
}
use cryptoswap_wallet.Thorchain.Parse.{to_dict, key}
use cryptoswap_wallet.Thorchain.Client.{Http}
use cryptoswap_wallet.Chains.Coins.{Utxo}

pub record AddressInfo : Type 0 where
  pub has_history : Bool
  pub confirmed : ℤ
  pub pending : ℤ

-- A value that the code computes with.
number : Json → Result ℤ
number (num n) = ok n
number (boolean b) = ok (if b then pos 1 else pos 0)
number null = err type_error
number (str s) = err type_error
number (array vs) = err type_error
number (dict fields) = err type_error

-- `stats.get(key, 0)` as a number.
count : Str → Fields → Result ℤ
unfolding number
count k stats = number (get_or k (num (pos 0)) stats)

-- `stats.get("funded_txo_sum", 0) - stats.get("spent_txo_sum", 0)`
unfoldable pub net_value : Fields → Result ℤ
unfolding count
net_value stats = do
  funded ← count (text "funded_txo_sum") stats
  spent ← count (text "spent_txo_sum") stats
  ok (funded -ℤ spent)

unfoldable pub any_history : Fields → Fields → Result Bool
unfolding count
any_history chain mem = do
  confirmed ← count (text "tx_count") chain
  if ltb_ℤ (pos 0) confirmed
      then ok true
      else (do waiting ← count (text "tx_count") mem; ok (ltb_ℤ (pos 0) waiting))

unfoldable pub parse_address_info : Fields → Result AddressInfo
parse_address_info stats = do
  chain ← to_dict (get_or (text "chain_stats") (dict end) stats)
  mem ← to_dict (get_or (text "mempool_stats") (dict end) stats)
  confirmed ← net_value chain
  pending ← net_value mem
  has_history ← any_history chain mem
  ok (record { has_history = has_history; confirmed = confirmed; pending = pending })

-- An index of an output, which is not negative. (Python would keep any other value, too.)
index_of : Json → Result ℕ
index_of (num (pos n)) = ok n
index_of (num (negsuc n)) = err type_error
index_of (boolean b) = err type_error
index_of null = err type_error
index_of (str s) = err type_error
index_of (array vs) = err type_error
index_of (dict fields) = err type_error

-- `x.get("status", {}).get("confirmed", False)`
unfoldable pub is_confirmed : Fields → Result Bool
is_confirmed x = do
  status ← to_dict (get_or (text "status") (dict end) x)
  ok (truthy (get_or (text "confirmed") (boolean false) status))

unfoldable pub read_utxo : Str → Fields → Result Utxo
unfolding index_of number
read_utxo address x = do
  txid ← key (text "txid") x >>= to_text
  vout ← key (text "vout") x >>= index_of
  value ← key (text "value") x >>= number
  ok (record { txid = txid; vout = vout; value = value; address = address; path = none })

utxos_of : Str → Items → Result (List Utxo)
unfolding is_confirmed read_utxo
utxos_of address nil = ok []
utxos_of address (item v vs) =
    let rest = utxos_of address vs in
    (do
      x ← to_dict v
      kept ← is_confirmed x
      if kept then (do utxo ← read_utxo address x; utxos ← rest; ok (utxo ∷ utxos)) else rest)

-- The comprehension over a payload. One that is empty has no elements, whatever it is.
unfoldable pub read_utxos : Str → Json → Result (List Utxo)
unfolding utxos_of
read_utxos address (array vs) = utxos_of address vs
read_utxos address (dict end) = ok []
read_utxos address (dict (field k v fields)) = err type_error
read_utxos address (str []) = ok []
read_utxos address (str (c ∷ s)) = err type_error
read_utxos address null = err type_error
read_utxos address (boolean b) = err type_error
read_utxos address (num n) = err type_error

module _ (http : Http) (esplora_url : Str) where
  ask : Str → Result Json
  ask path = do
    resp ← http (esplora_url ++ (text "/address/" ++ path)) [] []
    raise_for_status resp
    read_json resp

  unfoldable pub address_info : Str → Result AddressInfo
  unfolding ask
  address_info address = do payload ← ask address; stats ← to_dict payload; parse_address_info stats

  unfoldable pub fetch_utxos : Str → Result (List Utxo)
  unfolding ask
  fetch_utxos address = do payload ← ask (address ++ text "/utxo"); read_utxos address payload

  unfoldable pub fetch_balance : Str → Result ℤ
  fetch_balance address = do info ← address_info address; ok (info.confirmed)

-- `post` is `_post`, of the address and the text of the body. `txid` is the variable so far.
module _ (post : Str → Str → Result Response) (esplora_url : Str) where
  post_raws : Str → List Str → Result Str
  post_raws txid [] = ok txid
  post_raws txid (raw ∷ raws) = do
    resp ← post (esplora_url ++ text "/tx") raw
    raise_for_status resp
    post_raws (strip resp.body) raws

  unfoldable pub broadcast : List Str → Result Str
  unfolding post_raws
  broadcast raws = post_raws [] raws
