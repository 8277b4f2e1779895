-- ===== src/Verify/Btc.antt =====
-- The gates of Bitcoin transactions: `verify_btc_swap` and `verify_btc_send`
-- (src/cryptoswap_wallet/verify.py). A list of problems is put together in the order of the code.
pub mod Safe
pub mod Groups
pub mod Spec
use cryptoswap_wallet.Common.{
  ℕ, ℤ, pos, Str, Bytes, Bool, true, false, not, List, [], ◌∷◌, Option, none, some, if◌then◌else◌,
  length, filter, any, join, str_eq, contains, decode_utf8, leb_ℤ, ltb_ℤ, eqb_ℤ, ltb,
}
use cryptoswap_wallet.Verify.Types.{
  TxOutput, SwapPlan, SendPlan, Problem, quote_expired, output_count, amount_differs,
  op_return_count, memo_too_long, memo_not_utf8, memo_differs, unexpected_op_return,
  change_not_owned, destination_unpaid, negative_fee, fee_exceeds, run_checks,
}
use cryptoswap_wallet.Verify.Memo.{memo_pays_destination}

abbrev pub op_return_max_bytes : ℕ
op_return_max_bytes = 80

abbrev is_address : Str → Option Str → Bool
is_address to none = false
is_address to (some a) = str_eq a to

abbrev is_some : Option Bytes → Bool
is_some none = false
is_some (some d) = true

abbrev is_member : List Str → Option Str → Bool
is_member owned none = false
is_member owned (some a) = contains owned a

-- `o.address == to`
abbrev pub pays : Str → TxOutput → Bool
pays to o = is_address to o.address

-- `o.op_return_data is not None`
abbrev pub has_data : TxOutput → Bool
has_data o = is_some o.op_return_data

-- `o.address in owned_addresses`
abbrev pub is_owned : List Str → TxOutput → Bool
is_owned owned o = is_member owned o.address

-- Exactly one output to the vault or recipient, for the exact amount.
pub payment_problems : Str → ℤ → List TxOutput → List Problem
payment_problems to amount (o ∷ []) =
    run_checks ((not (eqb_ℤ o.value amount), amount_differs o.value amount) ∷ [])
payment_problems to amount outs = output_count to (length outs) ∷ []

-- The memo that the data decodes to, if it decodes.
decoded_problems : Option Str → Str → List Problem
decoded_problems none memo = memo_not_utf8 ∷ []
decoded_problems (some decoded) memo =
    run_checks ((not (str_eq decoded memo), memo_differs decoded memo) ∷ [])

abbrev memo_groups : Bytes → Str → List (List Problem)
memo_groups bytes memo =
    run_checks ((ltb op_return_max_bytes (length bytes), memo_too_long (length bytes)) ∷ [])
    ∷ decoded_problems (decode_utf8 bytes) memo
    ∷ []

memo_problems : Bytes → Str → List Problem
unfolding decoded_problems
memo_problems bytes memo = join (memo_groups bytes memo)

-- The code asserts that there is data here: the outputs are filtered by it.
data_problems : Option Bytes → Str → List Problem
unfolding memo_problems
data_problems none memo = []
data_problems (some bytes) memo = memo_problems bytes memo

-- Exactly one OP_RETURN, which decodes to the quoted memo. The outputs are those with data.
pub op_return_problems : Str → List TxOutput → List Problem
unfolding data_problems
op_return_problems memo (o ∷ []) = data_problems o.op_return_data memo
op_return_problems memo outs = op_return_count (length outs) ∷ []

-- Every other output must return to the wallet.
pub change_problems : Str → List Str → List TxOutput → List Problem
change_problems to owned [] = []
change_problems to owned (o ∷ outs) =
    let rest = change_problems to owned outs in
    if has_data o
    then rest
    else if pays to o
    then rest
    else if is_owned owned o
    then rest
    else change_not_owned o.address ∷ rest

pub fee_problems : ℤ → ℤ → List Problem
fee_problems fee max_fee =
    if ltb_ℤ fee (pos 0)
    then negative_fee fee ∷ []
    else if ltb_ℤ max_fee fee
    then fee_exceeds fee max_fee ∷ []
    else []

-- The groups of problems of `verify_btc_swap`, in order.
abbrev swap_groups : List TxOutput → ℤ → SwapPlan → List Str → ℤ → ℤ → List (List Problem)
swap_groups outputs fee plan owned_addresses now max_fee =
    run_checks ((leb_ℤ plan.expiry now, quote_expired now plan.expiry) ∷ [])
    ∷ payment_problems plan.inbound_address plan.amount (filter (pays plan.inbound_address) outputs)
    ∷ op_return_problems plan.memo (filter has_data outputs)
    ∷ change_problems plan.inbound_address owned_addresses outputs
    ∷ run_checks (
        (
          not (memo_pays_destination plan.destination plan.memo),
          destination_unpaid plan.memo plan.destination,
        )
        ∷ [])
    ∷ fee_problems fee max_fee
    ∷ []

unfoldable pub verify_btc_swap : List TxOutput → ℤ → SwapPlan → List Str → ℤ → ℤ → List Problem
unfolding payment_problems op_return_problems change_problems fee_problems
verify_btc_swap outputs fee plan owned_addresses now max_fee =
    join (swap_groups outputs fee plan owned_addresses now max_fee)

abbrev send_groups : List TxOutput → ℤ → SendPlan → List Str → ℤ → List (List Problem)
send_groups outputs fee plan owned_addresses max_fee =
    payment_problems plan.recipient plan.amount (filter (pays plan.recipient) outputs)
    ∷ run_checks ((any has_data outputs, unexpected_op_return) ∷ [])
    ∷ change_problems plan.recipient owned_addresses outputs
    ∷ fee_problems fee max_fee
    ∷ []

unfoldable pub verify_btc_send : List TxOutput → ℤ → SendPlan → List Str → ℤ → List Problem
unfolding payment_problems change_problems fee_problems
verify_btc_send outputs fee plan owned_addresses max_fee =
    join (send_groups outputs fee plan owned_addresses max_fee)
