-- ===== src/Chains/Eth/Prepare/Send.antt =====
-- What the Ethereum adapter sends, and when the gate accepts it.
use cryptoswap_wallet.Common.{
  ℤ, ◌*ℤ◌, ◌≤ℤ◌, Str, Bytes, true, false, [], ◌∷◌, ◌≡◌, ◌↔◌, inr, refl, sym, subst, text, hex,
  is_in, encode_utf8, Begins, All, IsByte, arith,
}
use cryptoswap_wallet.Result.{ok}
use cryptoswap_wallet.Net.{Post}
use cryptoswap_wallet.Thorchain.Json.{Json}
use cryptoswap_wallet.Swap.Types.{Prepared}
use cryptoswap_wallet.Verify.Eth.{hex_data}
use cryptoswap_wallet.Verify.Eth.Spec.{verify_eth_send_iff, verify_eth_token_send_iff}
use cryptoswap_wallet.Chains.Eth.Types.{
  EthLibs, Documented, EthAdapter, EthArgs, EthBuilt, native_built, EthPlan, native_send_gas,
  token_transfer_gas,
}
use cryptoswap_wallet.Chains.Eth.Checksum.{to_checksum_address}
use cryptoswap_wallet.Chains.Eth.Checksum.Laws.{to_checksum_address-Begins}
use cryptoswap_wallet.Chains.Eth.Calldata.{
  encode_transfer, decode_call, transfer_selector, amount_types,
}
use cryptoswap_wallet.Chains.Eth.Calldata.Laws.{decode_call-encode_call}
use cryptoswap_wallet.Chains.Eth.Calldata.Reads.{reads_approval}
use cryptoswap_wallet.Chains.Eth.Gate.Spec.{Approves}
use cryptoswap_wallet.Chains.Eth.Rpc.{account_of, token_decimals}
use cryptoswap_wallet.Chains.Eth.Build.{
  to_wei, token_of, token_native, build_unsigned_swap, unsigned_swap, gate_fields,
}
use cryptoswap_wallet.Chains.Eth.Prepare.{
  build_and_verify_send, native_send, token_send, token_call,
}

abbrev transfer_bytes : Bytes
transfer_bytes = 0xA9 ∷ 0x05 ∷ 0x9C ∷ 0xBB ∷ []

transfer_bytes-IsByte : All IsByte transfer_bytes
transfer_bytes-IsByte = (omega arith, (omega arith, (omega arith, (omega arith, tt))))

transfer_read :
    (libs : EthLibs) (laws : Documented libs) (to : Str) (native : ℤ) (calldata : Str)
    → Begins (text "0x") to
    → encode_transfer libs to native ≡ ok calldata
    → Approves to native (decode_call libs calldata transfer_selector amount_types)
unfolding encode_transfer hex
transfer_read libs laws to native calldata prefixed encoded =
    let (read, decoded, same) =
      decode_call-encode_call libs laws transfer_bytes amount_types _ calldata refl
        transfer_bytes-IsByte encoded in
    subst (Approves to native) (sym decoded) (reads_approval to native read prefixed same)

module _ (libs : EthLibs) (self : EthAdapter) where
  open libs use {Key}

  native_send-accepts :
      (args : EthArgs) (key : Key) (to : Str) (amount : ℤ)
      → ((native_send libs self
            (unsigned_swap libs self args key to amount [] native_send_gas)
            amount
            args.max_fee_wei).problems
          ≡ [])
        ↔ (native_send_gas *ℤ args.max_fee_per_gas ≤ℤ args.max_fee_wei)
  unfolding hex hex_data
  native_send-accepts args key to amount =
      let gate =
        verify_eth_send_iff
          (gate_fields (unsigned_swap libs self args key to amount [] native_send_gas))
          (record { recipient = to; amount_wei = to_wei amount; chain_id = self.chain_id })
          args.max_fee_wei in
      (
        λ h. (gate.0 h).fee,
        λ fee.
            gate.1
              (record { pays = refl; amount = refl; no_data = inr refl; chain = refl; fee = fee }),
      )

  token_send-accepts :
      (args : EthArgs) (key : Key) (token calldata to : Str) (native : ℤ)
      → Approves to native (decode_call libs calldata transfer_selector amount_types)
      → ((token_send libs self
            (token_call libs self args key token calldata)
            to
            native
            args.max_fee_wei).problems
          ≡ [])
        ↔ (token_transfer_gas *ℤ args.max_fee_per_gas ≤ℤ args.max_fee_wei)
  token_send-accepts args key token calldata to native (recipient, decoded, same) =
      let gate =
        verify_eth_token_send_iff (gate_fields (token_call libs self args key token calldata))
          (record { recipient = recipient; amount = native })
          (record { token = token; recipient = to; amount = native; chain_id = self.chain_id })
          args.max_fee_wei in
      rw decoded (
        λ h. (gate.0 h).fee,
        λ fee. gate.1 (record {
          token = refl;
          no_value = refl;
          pays = same;
          amount = refl;
          chain = refl;
          fee = fee;
        }),
      )

module _ (libs : EthLibs) (self : EthAdapter) (post : Post) (py_str : Json → Str) where
  open libs use {Key}

  -- A native send returns, for keys that can be derived and a recipient that has an EIP-55 form: it
  -- pays that form the amount, without calldata, and it has no problem exactly when the fee for
  -- 21,000 units of gas lies within the cap.
  pub build_and_verify_send-native :
      (recipient asset : Str) (amount : ℤ) (args : EthArgs) (path : Str) (key : Key)
      (address to : Str)
      → is_in (text "-") asset ≡ false
      → account_of libs self args.mnemonic path ≡ ok (key, address)
      → to_checksum_address libs recipient ≡ ok to
      → (p : Prepared (EthBuilt Key) (EthPlan Key)) × (build_and_verify_send libs self post py_str
            recipient amount asset args path
          ≡ ok p)
        × (p.built ≡ native_built (unsigned_swap libs self args key to amount [] native_send_gas))
        × ((p.problems ≡ []) ↔ (native_send_gas *ℤ args.max_fee_per_gas ≤ℤ args.max_fee_wei))
  unfolding build_and_verify_send build_unsigned_swap encode_utf8
  build_and_verify_send-native recipient asset amount args path key address to native derived
        checked =
      (
        native_send libs self (unsigned_swap libs self args key to amount [] native_send_gas) amount
            args.max_fee_wei,
        rw (native, derived, checked) refl,
        refl,
        native_send-accepts libs self args key to amount,
      )

  -- A token send returns, for keys that can be derived, a token and a recipient that have EIP-55
  -- forms, decimals that are known or fetched, and an amount that can be encoded: it calls the token,
  -- its calldata is decoded to a transfer of the amount to the recipient, and it has no problem
  -- exactly when the fee for 65,000 units of gas lies within the cap.
  pub build_and_verify_send-token :
      (laws : Documented libs) (recipient asset : Str) (amount : ℤ) (args : EthArgs) (path : Str)
      (key : Key) (address contract token to : Str) (decimals native : ℤ) (calldata : Str)
      → is_in (text "-") asset ≡ true
      → account_of libs self args.mnemonic path ≡ ok (key, address)
      → token_of asset ≡ ok contract
      → to_checksum_address libs contract ≡ ok token
      → to_checksum_address libs recipient ≡ ok to
      → token_decimals post py_str self contract ≡ ok decimals
      → token_native amount decimals ≡ ok native
      → encode_transfer libs to native ≡ ok calldata
      → (p : Prepared (EthBuilt Key) (EthPlan Key)) × (build_and_verify_send libs self post py_str
            recipient amount asset args path
          ≡ ok p)
        × (p.built ≡ native_built (token_call libs self args key token calldata))
        × Approves to native (decode_call libs calldata transfer_selector amount_types)
        × ((p.problems ≡ []) ↔ (token_transfer_gas *ℤ args.max_fee_per_gas ≤ℤ args.max_fee_wei))
  unfolding build_and_verify_send
  build_and_verify_send-token laws recipient asset amount args path key address contract token to
        decimals native calldata is_token derived named checked checked' known converted encoded =
      let read =
        transfer_read libs laws to native calldata (to_checksum_address-Begins libs _ _ checked')
          encoded in
      (
        token_send libs self (token_call libs self args key token calldata) to native
            args.max_fee_wei,
        rw (is_token, derived, named, checked, checked', known, converted, encoded) refl,
        refl,
        read,
        token_send-accepts libs self args key token calldata to native read,
      )
