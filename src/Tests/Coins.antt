-- ===== src/Tests/Coins.antt =====
-- Coin selection, sweeps and the OP_RETURN script at concrete inputs.
use mathlib.Core.List.{Perm}
use cryptoswap_wallet.Common.{
  pos, ◌+ℤ◌, ◌-ℤ◌, ◌≤ℤ◌, ◌+◌, ◌*◌, ◌^◌, ◌≤◌, ◌<◌, Bytes, List, [], ◌∷◌, ◌++◌, true, Bool, length,
  ◌≡◌, refl, arith, int_laws,
}
use cryptoswap_wallet.Result.{ok, ◌>>=◌}
use cryptoswap_wallet.Chains.Coins.{
  Utxo, Selection, encode_op_return, decode_op_return, op_return_vb, select_coins, total_value,
  sweep_amount, token_sweep_amount, dust_p2wpkh, estimate_vsize,
}
use cryptoswap_wallet.Chains.Coins.OpReturn.{decode-encode_op_return, op_return_vb-encode}
use cryptoswap_wallet.Chains.Coins.Select.{IsFunded, select_coins-accounts}
use cryptoswap_wallet.Chains.Coins.Complete.{pick, select_coins_complete}
use cryptoswap_wallet.Chains.Coins.Sweep.{Sweeps, sweep_amount-Sweeps, token_sweep_amount-largest}
use cryptoswap_wallet.Tests.Data.{rate, coin, small_coin}

abbrev bytes : Bytes
bytes = 61 ∷ 58 ∷ 98 ∷ []

decode-encode_op_return_example : (encode_op_return bytes >>= decode_op_return) ≡ ok bytes
decode-encode_op_return_example = decode-encode_op_return bytes (omega arith)

abbrev script : Bytes
script = 0x6A ∷ 3 ∷ bytes

bytes-script : encode_op_return bytes ≡ ok script
unfolding encode_op_return
bytes-script = refl

op_return_vb-encode_example :
    (length bytes < 76 → op_return_vb (length bytes) ≡ 9 + length script)
    × (76 ≤ length bytes → op_return_vb (length bytes) + 1 ≡ 9 + length script)
op_return_vb-encode_example = op_return_vb-encode bytes script bytes-script

abbrev wallet : List Utxo
wallet = small_coin ∷ coin ∷ []

abbrev selection : Selection
selection = record { utxos = coin ∷ []; fee = pos 160; change = pos 440 }

wallet-selection : select_coins wallet (pos 400) rate 8 dust_p2wpkh ≡ ok selection
unfolding select_coins estimate_vsize ◌+ℤ◌ ◌-ℤ◌
wallet-selection = refl

select_coins-accounts_example :
    (total_value selection.utxos ≡ pos 400 +ℤ selection.fee +ℤ selection.change)
    × IsFunded rate 8 dust_p2wpkh selection
    × (left : List Utxo) × Perm wallet (selection.utxos ++ left)
select_coins-accounts_example =
    select_coins-accounts wallet (pos 400) rate 8 dust_p2wpkh selection wallet-selection

abbrev choice : List Bool
choice = true ∷ true ∷ []

wallet-covers :
    pos 400 +ℤ rate (estimate_vsize (length (pick choice wallet)) 1 8)
    ≤ℤ total_value (pick choice wallet)
unfolding estimate_vsize
wallet-covers = omega int_laws

select_coins_complete_example :
    (s : Selection) × (select_coins wallet (pos 400) rate 8 dust_p2wpkh ≡ ok s)
select_coins_complete_example =
    select_coins_complete wallet (pos 400) rate 8 dust_p2wpkh choice (omega arith) wallet-covers

sweep_amount-Sweeps_example :
    Sweeps (pos 1300) 2 rate 8 dust_p2wpkh (sweep_amount (pos 1300) 2 rate 8 dust_p2wpkh)
sweep_amount-Sweeps_example = sweep_amount-Sweeps (pos 1300) 2 rate 8 dust_p2wpkh

swept_token : token_sweep_amount 1234567 6 ≡ ok 123456700
unfolding token_sweep_amount
swept_token = refl

token_sweep_amount-largest_example :
    (123456700 * 10 ^ 6 ≤ 1234567 * 10 ^ 8) × (1234567 * 10 ^ 8 < (123456700 + 1) * 10 ^ 6)
token_sweep_amount-largest_example = token_sweep_amount-largest 1234567 6 123456700 swept_token
