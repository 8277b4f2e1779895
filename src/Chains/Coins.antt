-- ===== src/Chains/Coins.antt =====
-- Coin selection, sweeps and the OP_RETURN script (src/cryptoswap_wallet/chains/coins.py).
-- A fee rate is a float that is only used in `math.ceil(n * fee_rate)` for a size `n`: it is modelled
-- as the function from sizes to that fee.
pub mod OpReturn
pub mod Sort
pub mod Select
pub mod Complete
pub mod Sweep
use cryptoswap_wallet.Common.{
  ℕ, ◌+◌, ◌*◌, ◌/◌, ◌^◌, ℤ, pos, ◌+ℤ◌, ◌-ℤ◌, Str, Bytes, List, [], ◌∷◌, ◌++◌, Option, length, take,
  drop, ltb, leb, ◌==◌, ltb_ℤ, leb_ℤ, if◌then◌else◌, not,
}
use cryptoswap_wallet.Result.{
  Result, ok, err, ◌>>=◌, ◌>>◌, raise_if, value_error, insufficient_funds,
}

abbrev pub op_return_max_bytes : ℕ
op_return_max_bytes = 80

abbrev pub op_pushdata1 : ℕ
op_pushdata1 = 0x4C

abbrev pub op_return_opcode : ℕ
op_return_opcode = 0x6A

abbrev pub tx_overhead_vb : ℕ
tx_overhead_vb = 11

abbrev pub p2wpkh_input_vb : ℕ
p2wpkh_input_vb = 68

abbrev pub p2wpkh_output_vb : ℕ
p2wpkh_output_vb = 31

abbrev pub dust_p2wpkh : ℤ
dust_p2wpkh = pos 294

abbrev pub FeeRate : Type 0
FeeRate = ℕ → ℤ

pub record Utxo : Type 0 where
  pub txid : Str
  pub vout : ℕ
  pub value : ℤ
  pub address : Str
  pub path : Option Str

pub record Selection : Type 0 where
  pub utxos : List Utxo
  pub fee : ℤ
  pub change : ℤ

unfoldable pub encode_op_return : Bytes → Result Bytes
encode_op_return bytes =
    if ltb op_return_max_bytes (length bytes)
    then err value_error
    else if ltb (length bytes) op_pushdata1
    then ok (op_return_opcode ∷ length bytes ∷ bytes)
    else ok (op_return_opcode ∷ op_pushdata1 ∷ length bytes ∷ bytes)

-- The script behind its opcode.
decode_push : Bytes → Result Bytes
decode_push [] = err value_error
decode_push (n ∷ []) = if n == op_pushdata1 then err value_error else ok []
decode_push (n ∷ m ∷ rest) = if n == op_pushdata1 then ok (take m rest) else ok (take n (m ∷ rest))

unfoldable pub decode_op_return : Bytes → Result Bytes
unfolding decode_push
decode_op_return [] = err value_error
decode_op_return (op ∷ rest) =
    if not (op == op_return_opcode) then err value_error else decode_push rest

unfoldable pub op_return_vb : ℕ → ℕ
op_return_vb data_len = 8 + 1 + 2 + data_len

unfoldable pub estimate_vsize : ℕ → ℕ → ℕ → ℕ
unfolding op_return_vb
estimate_vsize n_inputs n_p2wpkh_outputs op_return_len =
    let vsize = tx_overhead_vb + n_inputs * p2wpkh_input_vb + n_p2wpkh_outputs * p2wpkh_output_vb in
    if op_return_len == 0 then vsize else vsize + op_return_vb op_return_len

-- The amount sent and the fee.
unfoldable pub sweep_amount : ℤ → ℕ → FeeRate → ℕ → ℤ → Result (ℤ × ℤ)
sweep_amount total n_inputs fee_rate memo_len dust =
    let fee = fee_rate (estimate_vsize n_inputs 1 memo_len) in
    let send = total -ℤ fee in if ltb_ℤ send dust then err insufficient_funds else ok (send, fee)

-- Balances are read as unsigned words, so they are natural numbers.
unfoldable pub token_sweep_amount : ℕ → ℕ → Result ℕ
token_sweep_amount balance decimals =
    let amount = balance * 10 ^ 8 / 10 ^ decimals in
    if leb amount 0 then err insufficient_funds else ok amount

-- `sorted(utxos, key=lambda x: x.value, reverse=True)`: by falling value, equal ones in order.
insert_by_value : Utxo → List Utxo → List Utxo
insert_by_value u [] = u ∷ []
insert_by_value u (v ∷ vs) = if leb_ℤ v.value u.value then u ∷ v ∷ vs else v ∷ insert_by_value u vs

unfoldable pub largest_first : List Utxo → List Utxo
unfolding insert_by_value
largest_first [] = []
largest_first (u ∷ us) = insert_by_value u (largest_first us)

-- The loop of `select_coins`, from the coins chosen so far and their total.
select_from : ℤ → FeeRate → ℕ → ℤ → List Utxo → ℤ → List Utxo → Result Selection
select_from send_amount fee_rate memo_len dust chosen total [] = err insufficient_funds
select_from send_amount fee_rate memo_len dust chosen total (utxo ∷ rest) =
    let chosen' = chosen ++ (utxo ∷ []) in
    let total' = total +ℤ utxo.value in
    let fee_with_change = fee_rate (estimate_vsize (length chosen') 2 memo_len) in
    let change = total' -ℤ send_amount -ℤ fee_with_change in
    let fee_no_change = fee_rate (estimate_vsize (length chosen') 1 memo_len) in
    let more = select_from send_amount fee_rate memo_len dust chosen' total' rest in
    if leb_ℤ dust change
    then ok (record { utxos = chosen'; fee = fee_with_change; change = change })
    else if leb_ℤ (send_amount +ℤ fee_no_change) total'
    then ok (record { utxos = chosen'; fee = total' -ℤ send_amount; change = pos 0 })
    else more

unfoldable pub select_coins : List Utxo → ℤ → FeeRate → ℕ → ℤ → Result Selection
unfolding select_from largest_first
select_coins utxos send_amount fee_rate memo_len dust =
    select_from send_amount fee_rate memo_len dust [] (pos 0) (largest_first utxos)

-- `sum(u.value for u in utxos)`
abbrev pub total_value : List Utxo → ℤ
total_value [] = pos 0
total_value (u ∷ us) = u.value +ℤ total_value us
