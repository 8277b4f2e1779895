-- ===== src/Verify/Types.antt =====
-- What the pre-broadcast gates read and report: `TxOutput`, the plans, and the problems
-- (src/cryptoswap_wallet/verify.py). A problem is the message's text as a constructor, with the
-- values that the message shows.
use cryptoswap_wallet.Common.{
  ℕ, ℤ, Str, Bytes, Bool, true, false, not, List, [], ◌∷◌, Option, ◌≡◌, refl, ◌↔◌, if◌then◌else◌,
  All,
}

-- One output of a Bitcoin transaction. `address` is `none` for a data output.
pub record TxOutput : Type 0 where
  pub address : Option Str
  pub value : ℤ
  pub op_return_data : Option Bytes

pub record SwapPlan : Type 0 where
  pub inbound_address : Str
  pub amount : ℤ
  pub memo : Str
  pub expiry : ℤ
  pub destination : Str

pub record SendPlan : Type 0 where
  pub recipient : Str
  pub amount : ℤ

pub record TronSwapPlan : Type 0 where
  pub inbound_address : Str
  pub amount_sun : ℤ
  pub memo : Str
  pub expiry : ℤ
  pub destination : Str

pub record TronTokenSwapPlan : Type 0 where
  pub inbound_address : Str
  pub token : Str
  pub amount : ℤ
  pub memo : Str
  pub expiry : ℤ
  pub destination : Str

pub record EthSwapPlan : Type 0 where
  pub inbound_address : Str
  pub amount_wei : ℤ
  pub memo : Str
  pub expiry : ℤ
  pub chain_id : ℤ
  pub destination : Str

pub record EthSendPlan : Type 0 where
  pub recipient : Str
  pub amount_wei : ℤ
  pub chain_id : ℤ

pub record EthTokenSendPlan : Type 0 where
  pub token : Str
  pub recipient : Str
  pub amount : ℤ
  pub chain_id : ℤ

pub record TronSendPlan : Type 0 where
  pub recipient : Str
  pub amount_sun : ℤ

pub record TronTokenSendPlan : Type 0 where
  pub token : Str
  pub recipient : Str
  pub amount : ℤ

pub data Problem : Type 0 where
  -- `now`, `expiry`
  quote_expired : ℤ → ℤ → Problem
  -- the vault or recipient, and the number of outputs that pay it
  output_count : Str → ℕ → Problem
  -- found, intended
  amount_differs : ℤ → ℤ → Problem
  op_return_count : ℕ → Problem
  memo_too_long : ℕ → Problem
  memo_not_utf8 : Problem
  memo_differs : Str → Str → Problem
  unexpected_op_return : Problem
  change_not_owned : Option Str → Problem
  destination_unpaid : Str → Str → Problem
  negative_fee : ℤ → Problem
  fee_exceeds : ℤ → ℤ → Problem
  contract_type_differs : Str → Str → Problem
  pays_other : Str → Str → Problem
  target_differs : Str → Str → Problem
  value_sent : ℤ → Problem
  data_differs : Str → Str → Problem
  unexpected_data : Str → Problem
  unexpected_memo : Str → Problem
  chain_id_differs : ℤ → ℤ → Problem
  wrong_chain_id : Problem
  token_value_sent : Problem
  expiry_differs : ℤ → ℤ → Problem
  undecodable : Problem

-- `if bad: problems.append(p)`
abbrev pub Check : Type 0
Check = Bool × Problem

-- The problems of a row of such statements, in order.
unfoldable pub run_checks : List Check → List Problem
run_checks [] = []
run_checks ((bad, p) ∷ checks) = let rest = run_checks checks in if bad then p ∷ rest else rest

abbrev pub Passes : Check → Type 0
Passes c = c.0 ≡ false

-- A row of checks reports nothing exactly when none of them fires.
pub run_checks-eq-nil : (checks : List Check) → (run_checks checks ≡ []) ↔ All Passes checks
unfolding run_checks
run_checks-eq-nil [] = (λ _. tt, λ _. refl)
run_checks-eq-nil ((true, p) ∷ checks) = (λ h. cc h, λ h. cc (h.0))
run_checks-eq-nil ((false, p) ∷ checks) =
    (λ h. (refl, (run_checks-eq-nil checks).0 h), λ h. (run_checks-eq-nil checks).1 h.1)

-- One check of the form "unless `ok`, report `p`".
pub passes_one : (ok : Bool) (p : Problem) → (run_checks ((not ok, p) ∷ []) ≡ []) ↔ (ok ≡ true)
unfolding run_checks
passes_one true p = (λ _. refl, λ _. refl)
passes_one false p = (λ h. cc h, λ h. cc h)

-- One check of the form "if `bad`, report `p`".
pub passes_not : (bad : Bool) (p : Problem) → (run_checks ((bad, p) ∷ []) ≡ []) ↔ (bad ≡ false)
unfolding run_checks
passes_not true p = (λ h. cc h, λ h. cc h)
passes_not false p = (λ _. refl, λ _. refl)

pub not-false_iff : (b : Bool) → (not b ≡ false) ↔ (b ≡ true)
not-false_iff true = (λ _. refl, λ _. refl)
not-false_iff false = (λ h. cc h, λ h. cc h)
