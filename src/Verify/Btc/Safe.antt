-- ===== src/Verify/Btc/Safe.antt =====
-- What a safe Bitcoin swap and a safe Bitcoin send are, apart from the code.
use cryptoswap_wallet.Common.{
  ℤ, pos, Str, Bytes, true, List, none, some, length, contains, decode_utf8, ◌≡◌, ◌≤ℤ◌, ◌<ℤ◌, ◌≤◌,
  All, Sole,
}
use cryptoswap_wallet.Verify.Types.{TxOutput, SwapPlan, SendPlan}
use cryptoswap_wallet.Verify.Memo.{Pays}

abbrev pub PaysTo : Str → TxOutput → Type 0
PaysTo address o = o.address ≡ some address

abbrev pub HasData : TxOutput → Type 0
HasData o = (d : Bytes) × (o.op_return_data ≡ some d)

-- An output that is neither the payment nor data goes to an owned address.
abbrev pub ReturnsChange : Str → List Str → TxOutput → Type 0
ReturnsChange to owned o =
    o.op_return_data ≡ none
    → ¬ PaysTo to o
    → (a : Str) × (o.address ≡ some a) × (contains owned a ≡ true)

-- One output pays the address, and it pays the amount.
abbrev pub PaysOnce : Str → ℤ → List TxOutput → Type 0
PaysOnce to amount outputs = (o : TxOutput) × Sole (PaysTo to) o outputs × (o.value ≡ amount)

-- One output carries data, at most 80 bytes that decode to the memo.
abbrev pub CarriesMemo : Str → List TxOutput → Type 0
CarriesMemo memo outputs =
    (o : TxOutput) × Sole HasData o outputs
    × (d : Bytes) × (o.op_return_data ≡ some d)
    × (length d ≤ 80)
    × (decode_utf8 d ≡ some memo)

pub record IsSafeSwap (outputs : List TxOutput) (fee : ℤ) (plan : SwapPlan) (owned : List Str)
    (now max_fee : ℤ) : Type 0 where
  pub in_time : now <ℤ plan.expiry
  pub payment : PaysOnce plan.inbound_address plan.amount outputs
  pub memo : CarriesMemo plan.memo outputs
  pub change : All (ReturnsChange plan.inbound_address owned) outputs
  pub destination : Pays plan.destination plan.memo
  pub fee_lower : pos 0 ≤ℤ fee
  pub fee_upper : fee ≤ℤ max_fee

pub record IsSafeSend (outputs : List TxOutput) (fee : ℤ) (plan : SendPlan) (owned : List Str)
    (max_fee : ℤ) : Type 0 where
  pub payment : PaysOnce plan.recipient plan.amount outputs
  pub no_data : All (λ o. ¬ HasData o) outputs
  pub change : All (ReturnsChange plan.recipient owned) outputs
  pub fee_lower : pos 0 ≤ℤ fee
  pub fee_upper : fee ≤ℤ max_fee
