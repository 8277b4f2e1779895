-- ===== src/Verify/Tron.antt =====
-- The gates of TRON transactions (src/cryptoswap_wallet/verify.py): a native or TRC-20 deposit, and a
-- native or TRC-20 send.
pub mod Spec
use cryptoswap_wallet.Common.{ℤ, pos, Str, not, List, [], ◌∷◌, text, str_eq, is_empty, leb_ℤ, eqb_ℤ}
use cryptoswap_wallet.Verify.Types.{
  TronSwapPlan, TronTokenSwapPlan, TronSendPlan, TronTokenSendPlan, Problem, Check, quote_expired,
  contract_type_differs, pays_other, amount_differs, memo_differs, target_differs, value_sent,
  destination_unpaid, unexpected_memo, run_checks,
}
use cryptoswap_wallet.Verify.Memo.{memo_pays_destination}

abbrev pub transfer_contract : Str
transfer_contract = text "TransferContract"

abbrev pub trigger_smart_contract : Str
trigger_smart_contract = text "TriggerSmartContract"

-- The fields that a gate reads from a built native transaction.
pub record TronTx : Type 0 where
  pub contract_type : Str
  pub to_address : Str
  pub amount_sun : ℤ
  pub memo : Str

-- The fields that a gate reads from a built TRC-20 transaction, with the decoded transfer.
pub record TronTokenTx : Type 0 where
  pub contract_type : Str
  pub trigger_to : Str
  pub recipient : Str
  pub transfer_amount : ℤ
  pub trx_value : ℤ
  pub memo : Str

abbrev swap_checks : TronTx → TronSwapPlan → ℤ → List Check
swap_checks tx plan now =
    (leb_ℤ plan.expiry now, quote_expired now plan.expiry)
    ∷ (
      not (str_eq tx.contract_type transfer_contract),
      contract_type_differs tx.contract_type transfer_contract,
    )
    ∷ (
      not (str_eq tx.to_address plan.inbound_address),
      pays_other tx.to_address plan.inbound_address,
    )
    ∷ (not (eqb_ℤ tx.amount_sun plan.amount_sun), amount_differs tx.amount_sun plan.amount_sun)
    ∷ (not (str_eq tx.memo plan.memo), memo_differs tx.memo plan.memo)
    ∷ (
      not (memo_pays_destination plan.destination plan.memo),
      destination_unpaid plan.memo plan.destination,
    )
    ∷ []

unfoldable pub verify_tron_swap : TronTx → TronSwapPlan → ℤ → List Problem
verify_tron_swap tx plan now = run_checks (swap_checks tx plan now)

abbrev token_swap_checks : TronTokenTx → TronTokenSwapPlan → ℤ → List Check
token_swap_checks tx plan now =
    (leb_ℤ plan.expiry now, quote_expired now plan.expiry)
    ∷ (
      not (str_eq tx.contract_type trigger_smart_contract),
      contract_type_differs tx.contract_type trigger_smart_contract,
    )
    ∷ (not (str_eq tx.trigger_to plan.token), target_differs tx.trigger_to plan.token)
    ∷ (not (str_eq tx.recipient plan.inbound_address), pays_other tx.recipient plan.inbound_address)
    ∷ (not (eqb_ℤ tx.transfer_amount plan.amount), amount_differs tx.transfer_amount plan.amount)
    ∷ (not (eqb_ℤ tx.trx_value (pos 0)), value_sent tx.trx_value)
    ∷ (not (str_eq tx.memo plan.memo), memo_differs tx.memo plan.memo)
    ∷ (
      not (memo_pays_destination plan.destination plan.memo),
      destination_unpaid plan.memo plan.destination,
    )
    ∷ []

unfoldable pub verify_tron_token_swap : TronTokenTx → TronTokenSwapPlan → ℤ → List Problem
verify_tron_token_swap tx plan now = run_checks (token_swap_checks tx plan now)

abbrev send_checks : TronTx → TronSendPlan → List Check
send_checks tx plan =
    (
      not (str_eq tx.contract_type transfer_contract),
      contract_type_differs tx.contract_type transfer_contract,
    )
    ∷ (not (str_eq tx.to_address plan.recipient), pays_other tx.to_address plan.recipient)
    ∷ (not (eqb_ℤ tx.amount_sun plan.amount_sun), amount_differs tx.amount_sun plan.amount_sun)
    ∷ (not (is_empty tx.memo), unexpected_memo tx.memo)
    ∷ []

pub verify_tron_send : TronTx → TronSendPlan → List Problem
verify_tron_send tx plan = run_checks (send_checks tx plan)

abbrev token_send_checks : TronTokenTx → TronTokenSendPlan → List Check
token_send_checks tx plan =
    (
      not (str_eq tx.contract_type trigger_smart_contract),
      contract_type_differs tx.contract_type trigger_smart_contract,
    )
    ∷ (not (str_eq tx.trigger_to plan.token), target_differs tx.trigger_to plan.token)
    ∷ (not (str_eq tx.recipient plan.recipient), pays_other tx.recipient plan.recipient)
    ∷ (not (eqb_ℤ tx.transfer_amount plan.amount), amount_differs tx.transfer_amount plan.amount)
    ∷ (not (eqb_ℤ tx.trx_value (pos 0)), value_sent tx.trx_value)
    ∷ (not (is_empty tx.memo), unexpected_memo tx.memo)
    ∷ []

pub verify_tron_token_send : TronTokenTx → TronTokenSendPlan → List Problem
verify_tron_token_send tx plan = run_checks (token_send_checks tx plan)
