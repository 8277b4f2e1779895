-- ===== src/Chains/Eth/Gate/Spec.antt =====
-- What a token swap that passes the gate does, and that the gate decides it.
use cryptoswap_wallet.Common.{
  ℤ, pos, ◌<ℤ◌, ◌≤ℤ◌, Str, false, not, ◌||◌, List, [], ◌∷◌, Option, some, ◌≡◌, ◌↔◌, ap, subst, All,
  All-append_iff, str_ne_iff, int_ne_iff, leb_ℤ-false, ltb_ℤ, ltb_ℤ-false, eqb_ℤ, eqb_ℤ_iff, arith,
}
use cryptoswap_wallet.Verify.Types.{Check, run_checks-eq-nil, not-false_iff, Passes}
use cryptoswap_wallet.Verify.Memo.{Pays, memo_pays_destination_iff}
use cryptoswap_wallet.Verify.Eth.Spec.{SameHex}
use cryptoswap_wallet.Chains.Eth.Types.{
  EthLibs, EthTokenBuiltSwap, AbiValue, abi_address, abi_uint, abi_string, token_fee, mainnet,
}
use cryptoswap_wallet.Chains.Eth.Calldata.{
  decode_call, approve_selector, deposit_selector, amount_types, deposit_types,
}
use cryptoswap_wallet.Chains.Eth.Gate.{
  target_checks, approve_checks, deposit_checks, verify_eth_token_swap,
}

-- The decoded call approves the amount for the router.
abbrev pub Approves : Str → ℤ → Option (List AbiValue) → Type 0
Approves router amount call =
    (spender : Str) × (call ≡ some (abi_address spender ∷ abi_uint amount ∷ []))
    × SameHex spender router

-- The decoded call deposits the amount of the token for the vault, with the memo and the expiry.
abbrev pub Deposits : Str → Str → ℤ → Str → ℤ → Option (List AbiValue) → Type 0
Deposits vault token amount memo expiry call =
    (v : Str) × (t : Str) × (call
      ≡ some (
          abi_address v ∷ abi_address t ∷ abi_uint amount ∷ abi_string memo ∷ abi_uint expiry ∷ []))
    × SameHex v vault
    × SameHex t token

pub record IsSafeTokenSwap (libs : EthLibs) (built : EthTokenBuiltSwap libs.Key) (destination : Str)
    (now max_fee_wei : ℤ) : Type 0 where
  pub in_time : now <ℤ built.expiry
  pub approves_token : SameHex built.approve_tx.to built.token
  pub calls_router : SameHex built.deposit_tx.to built.router
  pub no_value : (built.approve_tx.value ≡ pos 0) × (built.deposit_tx.value ≡ pos 0)
  pub chain : (built.approve_tx.chain_id ≡ mainnet) × (built.deposit_tx.chain_id ≡ mainnet)
  pub approval :
      Approves built.router built.native_amount
        (decode_call libs built.approve_tx.calldata approve_selector amount_types)
  pub deposit :
      Deposits built.vault built.token built.native_amount built.memo built.expiry
        (decode_call libs built.deposit_tx.calldata deposit_selector deposit_types)
  pub pays : Pays destination built.memo
  pub fee : token_fee built ≤ℤ max_fee_wei

both_eq_iff : (a b c : ℤ) → ((not (eqb_ℤ a c) || not (eqb_ℤ b c)) ≡ false) ↔ ((a ≡ c) × (b ≡ c))
both_eq_iff a b c = ground (arith, eqb_ℤ_iff a c, eqb_ℤ_iff b c)

module _ {Key : Type 0} (built : EthTokenBuiltSwap Key) where
  approve_checks_iff :
      (call : Option (List AbiValue))
      → All Passes (approve_checks built call) ↔ Approves built.router built.native_amount call
  unfolding approve_checks
  approve_checks_iff (some (abi_address spender ∷ abi_uint allowance ∷ [])) = (
    λ c. (
      spender,
      ap (λ n. some (abi_address spender ∷ abi_uint n ∷ [])) ((int_ne_iff _ _).0 c.1.0),
      (str_ne_iff _ _).0 c.0,
    ),
    λ (s, e, same).
        let is_s : spender ≡ s = cc e in
        let is_amount : allowance ≡ built.native_amount = cc e in
        ((str_ne_iff _ _).1 (rw is_s same), ((int_ne_iff _ _).1 is_amount, tt)),
  )
  approve_checks_iff other = (λ c. cc (c.0), λ h. cc (h.1))

  deposit_checks_iff :
      (destination : Str) (call : Option (List AbiValue))
      → All Passes (deposit_checks built destination call) ↔ (
          Deposits built.vault built.token built.native_amount built.memo built.expiry call
          × Pays destination built.memo)
  unfolding deposit_checks
  deposit_checks_iff destination
        (some (
          abi_address v
          ∷ abi_address t
          ∷ abi_uint amount
          ∷ abi_string memo
          ∷ abi_uint expiry
          ∷ [])) =
      (
        λ c.
            let is_amount : amount ≡ built.native_amount = (int_ne_iff _ _).0 c.1.1.0 in
            let is_memo : memo ≡ built.memo = (str_ne_iff _ _).0 c.1.1.1.0 in
            let is_expiry : expiry ≡ built.expiry = (int_ne_iff _ _).0 c.1.1.1.1.0 in
            let paid = (memo_pays_destination_iff _ _).0 ((not-false_iff _).0 c.1.1.1.1.1.0) in
            (
              (
                v,
                t,
                cc (is_amount, is_memo, is_expiry),
                (str_ne_iff _ _).0 c.0,
                (str_ne_iff _ _).0 c.1.0,
              ),
              subst (λ m. Pays destination m) is_memo paid,
            ),
        λ ((v', t', e, same_v, same_t), paid).
            let is_v : v ≡ v' = cc e in
            let is_t : t ≡ t' = cc e in
            let is_amount : amount ≡ built.native_amount = cc e in
            let is_memo : memo ≡ built.memo = cc e in
            let is_expiry : expiry ≡ built.expiry = cc e in
            (
              (str_ne_iff _ _).1 (rw is_v same_v),
              (
                (str_ne_iff _ _).1 (rw is_t same_t),
                (
                  (int_ne_iff _ _).1 is_amount,
                  (
                    (str_ne_iff _ _).1 is_memo,
                    (
                      (int_ne_iff _ _).1 is_expiry,
                      (
                        (not-false_iff _).1 ((memo_pays_destination_iff _ _).1 (rw is_memo paid)),
                        tt,
                      ),
                    ),
                  ),
                ),
              ),
            ),
      )
  deposit_checks_iff destination other = (λ c. cc (c.0), λ h. cc (h.0.2))

  target_checks_iff :
      (now : ℤ)
      → All Passes (target_checks built now) ↔ (
          (now <ℤ built.expiry)
          × SameHex built.approve_tx.to built.token
          × SameHex built.deposit_tx.to built.router
          × ((built.approve_tx.value ≡ pos 0) × (built.deposit_tx.value ≡ pos 0))
          × ((built.approve_tx.chain_id ≡ mainnet) × (built.deposit_tx.chain_id ≡ mainnet)))
  unfolding target_checks
  target_checks_iff now = (
    λ c. (
      (leb_ℤ-false built.expiry now).0 c.0,
      (str_ne_iff _ _).0 c.1.0,
      (str_ne_iff _ _).0 c.1.1.0,
      (both_eq_iff _ _ _).0 c.1.1.1.0,
      (both_eq_iff _ _ _).0 c.1.1.1.1.0,
    ),
    λ h. (
      (leb_ℤ-false built.expiry now).1 h.0,
      (
        (str_ne_iff _ _).1 h.1,
        ((str_ne_iff _ _).1 h.2, ((both_eq_iff _ _ _).1 h.3, ((both_eq_iff _ _ _).1 h.4, tt))),
      ),
    ),
  )

module _ (libs : EthLibs) (built : EthTokenBuiltSwap libs.Key) (destination : Str)
    (now max_fee_wei : ℤ) where
  abbrev approve_part : List Check
  approve_part =
      approve_checks built
        (decode_call libs built.approve_tx.calldata approve_selector amount_types)

  abbrev deposit_part : List Check
  deposit_part =
      deposit_checks built destination
        (decode_call libs built.deposit_tx.calldata deposit_selector deposit_types)

  token_swap_parts_iff : (verify_eth_token_swap libs built destination now max_fee_wei ≡ []) ↔ (
      All Passes (target_checks built now)
      × All Passes approve_part
      × All Passes deposit_part
      × (ltb_ℤ max_fee_wei (token_fee built) ≡ false))
  unfolding verify_eth_token_swap
  token_swap_parts_iff = (
    λ h.
        let (targets, rest) =
          (All-append_iff Passes (target_checks built now) _).0 ((run_checks-eq-nil _).0 h) in
        let (approval, rest') = (All-append_iff Passes approve_part _).0 rest in
        let (deposit, fee) = (All-append_iff Passes deposit_part _).0 rest' in
        (targets, approval, deposit, fee.0),
    λ (targets, approval, deposit, fee). (run_checks-eq-nil _).1 (
        (All-append_iff Passes (target_checks built now) _).1 (
          targets,
          (All-append_iff Passes approve_part _).1
              (approval, (All-append_iff Passes deposit_part _).1 (deposit, (fee, tt))),
        )),
  )

  -- The gate of a token swap reports no problem exactly when it is before the expiry, the two
  -- transactions go to the token and to the router on chain 1 without ETH, the calls that are decoded
  -- approve the amount for the router and deposit that amount of the token for the vault with the
  -- memo and the expiry, the memo pays the destination and the fee lies within the limit.
  pub verify_eth_token_swap_iff :
      (verify_eth_token_swap libs built destination now max_fee_wei ≡ [])
      ↔ IsSafeTokenSwap libs built destination now max_fee_wei
  verify_eth_token_swap_iff = (
    λ h.
        let (targets, approval, deposit, fee) = token_swap_parts_iff.0 h in
        let target = (target_checks_iff built now).0 targets in
        let (deposits, paid) = (deposit_checks_iff built destination _).0 deposit in
        record {
          in_time = target.0;
          approves_token = target.1;
          calls_router = target.2;
          no_value = target.3;
          chain = target.4;
          approval = (approve_checks_iff built _).0 approval;
          deposit = deposits;
          pays = paid;
          fee = (ltb_ℤ-false max_fee_wei (token_fee built)).0 fee;
        },
    λ s. token_swap_parts_iff.1 (
      (target_checks_iff built now).1
          (s.in_time, s.approves_token, s.calls_router, s.no_value, s.chain),
      (approve_checks_iff built _).1 s.approval,
      (deposit_checks_iff built destination _).1 (s.deposit, s.pays),
      (ltb_ℤ-false max_fee_wei (token_fee built)).1 s.fee,
    ),
  )
