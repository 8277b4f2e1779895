-- ===== src/Chains/Eth/Gate.antt =====
-- `verify_eth_token_swap`: the gate of a token swap, an approval of the router and a deposit
-- through it. Problems on the calls are those that the decoded arguments show.
pub mod Spec
use cryptoswap_wallet.Common.{
  ℤ, pos, Str, Bool, true, not, ◌||◌, List, [], ◌∷◌, ◌++◌, Option, none, some, str_eq, leb_ℤ, ltb_ℤ,
  eqb_ℤ,
}
use cryptoswap_wallet.Verify.Types.{
  Problem, Check, quote_expired, target_differs, value_sent, wrong_chain_id, undecodable,
  pays_other, token_value_sent, amount_differs, memo_differs, destination_unpaid, fee_exceeds,
  run_checks, expiry_differs,
}
use cryptoswap_wallet.Verify.Eth.{differs}
use cryptoswap_wallet.Verify.Memo.{memo_pays_destination}
use cryptoswap_wallet.Chains.Eth.Types.{
  EthLibs, EthTokenBuiltSwap, AbiValue, abi_address, abi_uint, abi_string, token_fee, mainnet,
}
use cryptoswap_wallet.Chains.Eth.Calldata.{
  decode_call, approve_selector, deposit_selector, amount_types, deposit_types,
}

module _ {Key : Type 0} (built : EthTokenBuiltSwap Key) where
  target_checks : ℤ → List Check
  target_checks now =
      (leb_ℤ built.expiry now, quote_expired now built.expiry)
      ∷ (differs built.approve_tx.to built.token, target_differs built.approve_tx.to built.token)
      ∷ (differs built.deposit_tx.to built.router, target_differs built.deposit_tx.to built.router)
      ∷ (
        not (eqb_ℤ built.approve_tx.value (pos 0)) || not (eqb_ℤ built.deposit_tx.value (pos 0)),
        token_value_sent,
      )
      ∷ (
        not (eqb_ℤ built.approve_tx.chain_id mainnet)
            || not (eqb_ℤ built.deposit_tx.chain_id mainnet),
        wrong_chain_id,
      )
      ∷ []

  -- The arguments of `approve`, or a call that could not be decoded.
  approve_checks : Option (List AbiValue) → List Check
  approve_checks (some (abi_address spender ∷ abi_uint allowance ∷ [])) =
      (differs spender built.router, pays_other spender built.router)
      ∷ (not (eqb_ℤ allowance built.native_amount), amount_differs allowance built.native_amount)
      ∷ []
  approve_checks other = (true, undecodable) ∷ []

  -- The arguments of `depositWithExpiry`, or a call that could not be decoded.
  deposit_checks : Str → Option (List AbiValue) → List Check
  deposit_checks destination
        (some (
          abi_address vault
          ∷ abi_address token
          ∷ abi_uint amount
          ∷ abi_string memo
          ∷ abi_uint expiry
          ∷ [])) =
      (differs vault built.vault, pays_other vault built.vault)
      ∷ (differs token built.token, target_differs token built.token)
      ∷ (not (eqb_ℤ amount built.native_amount), amount_differs amount built.native_amount)
      ∷ (not (str_eq memo built.memo), memo_differs memo built.memo)
      ∷ (not (eqb_ℤ expiry built.expiry), expiry_differs expiry built.expiry)
      ∷ (not (memo_pays_destination destination memo), destination_unpaid memo destination)
      ∷ []
  deposit_checks destination other = (true, undecodable) ∷ []

  fee_checks : ℤ → List Check
  fee_checks max_fee_wei =
      (ltb_ℤ max_fee_wei (token_fee built), fee_exceeds (token_fee built) max_fee_wei) ∷ []

unfoldable pub verify_eth_token_swap :
    (libs : EthLibs) → EthTokenBuiltSwap libs.Key → Str → ℤ → ℤ → List Problem
unfolding target_checks approve_checks deposit_checks fee_checks
verify_eth_token_swap libs built destination now max_fee_wei = run_checks (
    target_checks built now
    ++ (approve_checks built
          (decode_call libs built.approve_tx.calldata approve_selector amount_types)
        ++ (deposit_checks built destination
              (decode_call libs built.deposit_tx.calldata deposit_selector deposit_types)
            ++ fee_checks built max_fee_wei)))
