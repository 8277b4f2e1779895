-- ===== src/Verify/Eth.antt =====
-- The gates of Ethereum transactions (src/cryptoswap_wallet/verify.py): a native deposit, a native send
-- and an ERC-20 send. An absent `to`, `data` or `recipient` is the empty text, as `to or ""` reads it.
pub mod Spec
use cryptoswap_wallet.Common.{
  ℤ, pos, ◌*ℤ◌, Str, Bytes, Bool, true, false, not, ◌||◌, List, [], ◌∷◌, ◌++◌, text, str_eq, lower,
  hex, encode_utf8, is_empty, leb_ℤ, ltb_ℤ, eqb_ℤ, if◌then◌else◌,
}
use cryptoswap_wallet.Result.{Result, ok, err, ◌>>=◌, or_raise, unicode_encode_error}
use cryptoswap_wallet.Verify.Types.{
  EthSwapPlan, EthSendPlan, EthTokenSendPlan, Problem, Check, quote_expired, pays_other,
  amount_differs, data_differs, unexpected_data, chain_id_differs, target_differs, value_sent,
  destination_unpaid, fee_exceeds, run_checks,
}
use cryptoswap_wallet.Verify.Memo.{memo_pays_destination}

-- The fields that a gate reads from a built transaction.
pub record EthTx : Type 0 where
  pub to : Str
  pub value : ℤ
  pub calldata : Str
  pub chain_id : ℤ
  pub gas : ℤ
  pub max_fee_per_gas : ℤ

-- The arguments of an ERC-20 `transfer`, decoded from the calldata.
pub record Transfer : Type 0 where
  pub recipient : Str
  pub amount : ℤ

-- `a.lower() != b.lower()`
abbrev pub differs : Str → Str → Bool
differs a b = not (str_eq (lower a) (lower b))

-- `"0x" + bytes.hex()`
unfoldable pub hex_data : Bytes → Str
hex_data memo = text "0x" ++ hex memo

swap_checks : EthTx → Str → EthSwapPlan → ℤ → ℤ → List Check
swap_checks tx expected_data plan now max_fee_wei =
    (leb_ℤ plan.expiry now, quote_expired now plan.expiry)
    ∷ (differs tx.to plan.inbound_address, pays_other tx.to plan.inbound_address)
    ∷ (not (eqb_ℤ tx.value plan.amount_wei), amount_differs tx.value plan.amount_wei)
    ∷ (differs tx.calldata expected_data, data_differs tx.calldata expected_data)
    ∷ (not (eqb_ℤ tx.chain_id plan.chain_id), chain_id_differs tx.chain_id plan.chain_id)
    ∷ (
      not (memo_pays_destination plan.destination plan.memo),
      destination_unpaid plan.memo plan.destination,
    )
    ∷ (
      ltb_ℤ max_fee_wei (tx.gas *ℤ tx.max_fee_per_gas),
      fee_exceeds (tx.gas *ℤ tx.max_fee_per_gas) max_fee_wei,
    )
    ∷ []

-- `plan.memo.encode()` raises on a memo with a lone surrogate.
pub verify_eth_swap : EthTx → EthSwapPlan → ℤ → ℤ → Result (List Problem)
unfolding swap_checks
verify_eth_swap tx plan now max_fee_wei = do
  memo ← or_raise (encode_utf8 plan.memo) unicode_encode_error
  ok (run_checks (swap_checks tx (hex_data memo) plan now max_fee_wei))

-- `(data or "0x") not in ("0x", "")`
abbrev has_calldata : Str → Bool
has_calldata d = not (is_empty d || str_eq d (text "0x"))

send_checks : EthTx → EthSendPlan → ℤ → List Check
send_checks tx plan max_fee_wei =
    (differs tx.to plan.recipient, pays_other tx.to plan.recipient)
    ∷ (not (eqb_ℤ tx.value plan.amount_wei), amount_differs tx.value plan.amount_wei)
    ∷ (has_calldata tx.calldata, unexpected_data tx.calldata)
    ∷ (not (eqb_ℤ tx.chain_id plan.chain_id), chain_id_differs tx.chain_id plan.chain_id)
    ∷ (
      ltb_ℤ max_fee_wei (tx.gas *ℤ tx.max_fee_per_gas),
      fee_exceeds (tx.gas *ℤ tx.max_fee_per_gas) max_fee_wei,
    )
    ∷ []

pub verify_eth_send : EthTx → EthSendPlan → ℤ → List Problem
unfolding send_checks
verify_eth_send tx plan max_fee_wei = run_checks (send_checks tx plan max_fee_wei)

token_send_checks : EthTx → Transfer → EthTokenSendPlan → ℤ → List Check
token_send_checks tx call plan max_fee_wei =
    (differs tx.to plan.token, target_differs tx.to plan.token)
    ∷ (not (eqb_ℤ tx.value (pos 0)), value_sent tx.value)
    ∷ (differs call.recipient plan.recipient, pays_other call.recipient plan.recipient)
    ∷ (not (eqb_ℤ call.amount plan.amount), amount_differs call.amount plan.amount)
    ∷ (not (eqb_ℤ tx.chain_id plan.chain_id), chain_id_differs tx.chain_id plan.chain_id)
    ∷ (
      ltb_ℤ max_fee_wei (tx.gas *ℤ tx.max_fee_per_gas),
      fee_exceeds (tx.gas *ℤ tx.max_fee_per_gas) max_fee_wei,
    )
    ∷ []

pub verify_eth_token_send : EthTx → Transfer → EthTokenSendPlan → ℤ → List Problem
unfolding token_send_checks
verify_eth_token_send tx call plan max_fee_wei =
    run_checks (token_send_checks tx call plan max_fee_wei)
