-- ===== src/Tests/Eth.antt =====
-- The Ethereum adapter, for a native swap, a swap of a token, sends and a rejected transaction.
use cryptoswap_wallet.Common.{
  pos, ◌*ℤ◌, ◌+ℤ◌, ◌-ℤ◌, floor_div, Str, false, List, [], ◌∷◌, ◌++◌, some, ◌≡◌, ◌↔◌, ◌<ℤ◌, ◌≤ℤ◌,
  refl, text, is_in, starts_with, str_eq, lower, hex, from_hex, encode_utf8, arith,
}
use cryptoswap_wallet.Result.{ok, err, broadcast_error}
use cryptoswap_wallet.Net.{Post, Response}
use cryptoswap_wallet.Thorchain.Json.{Json, dict, field, end, str}
use cryptoswap_wallet.Swap.Types.{Prepared}
use cryptoswap_wallet.Verify.Memo.{Pays}
use cryptoswap_wallet.Chains.Eth.Types.{
  EthTokenBuiltSwap, AbiValue, AllReadAs, EthBuilt, token_built, EthPlan, token_swap_plan,
  token_fee, approve_gas, token_deposit_gas, new_eth_adapter, default_eth_derivation,
}
use cryptoswap_wallet.Chains.Eth.Checksum.{to_checksum_address}
use cryptoswap_wallet.Chains.Eth.Checksum.Laws.{IsEip55, to_checksum_address-IsEip55}
use cryptoswap_wallet.Chains.Eth.Calldata.{eth_sweep_amount, encode_call, decode_call, amount_types}
use cryptoswap_wallet.Chains.Eth.Calldata.Laws.{decode_call-encode_call, eth_sweep_amount_iff}
use cryptoswap_wallet.Chains.Eth.Gate.{verify_eth_token_swap}
use cryptoswap_wallet.Chains.Eth.Gate.Spec.{IsSafeTokenSwap, verify_eth_token_swap_iff}
use cryptoswap_wallet.Chains.Eth.Rpc.{account_of, broadcast, post_all, token_decimals}
use cryptoswap_wallet.Chains.Eth.Rpc.Laws.{Ends, broadcast-Ends}
use cryptoswap_wallet.Chains.Eth.Build.{build_token_swap, token_tx}
use cryptoswap_wallet.Chains.Eth.Prepare.{build_and_verify}
use cryptoswap_wallet.Chains.Eth.Prepare.Laws.{Acceptable, build_and_verify_native-accepts}
use cryptoswap_wallet.Chains.Eth.Prepare.Token.{verify_eth_token_swap-build_token_swap}
use cryptoswap_wallet.Chains.Eth.Source.{EthPolicy, eth_source-Enforces}
use cryptoswap_wallet.Tests.EthData.{
  token, router, vault, memo, approve_values, vault_digits, vault_digits-IsHexDigit, libs,
  libs-Documented, encode, decode, adapter, args, quote, token_request, native_request,
  native_quote, vault-IsAddress,
}

abbrev built_token : EthTokenBuiltSwap Unit
built_token = record {
  approve_tx = token_tx args (pos 7) token approve_gas (text "0x095ea7b301");
  deposit_tx = token_tx args (pos 8) router token_deposit_gas (text "0x44bc937b02");
  private_key = tt;
  token = token;
  router = router;
  vault = vault;
  native_amount = pos 1000000;
  memo = memo;
  expiry = pos 90;
}

-- A node that rejects every transaction.
abbrev node : Post
node url body = ok (record {
  status_code = pos 200;
  json = some (dict (field (text "error") (str (text "nonce too low")) end));
  body = [];
})

abbrev shown : Json → Str
shown v = text "?"

token_is_built : build_token_swap libs adapter args token_request quote (pos 6) ≡ ok built_token
unfolding build_token_swap account_of to_checksum_address from_hex str_eq lower
    cryptoswap_wallet.Chains.Eth.Build.token_native
    cryptoswap_wallet.Chains.Eth.Calldata.encode_approve encode
    cryptoswap_wallet.Chains.Eth.Checksum.apply_case hex floor_div ◌*ℤ◌
    cryptoswap_wallet.Chains.Eth.Calldata.encode_deposit ◌+ℤ◌
token_is_built = refl

abbrev prepared_token : Prepared (EthBuilt Unit) (EthPlan Unit)
prepared_token = record {
  quote = some quote;
  built = token_built built_token;
  plan = token_swap_plan built_token;
  problems = [];
}

token_gate : verify_eth_token_swap libs built_token (text "0xAB") (pos 10) (pos 3000000) ≡ []
unfolding verify_eth_token_swap cryptoswap_wallet.Verify.Types.run_checks str_eq lower decode_call
    from_hex cryptoswap_wallet.Chains.Eth.Calldata.remove_0x starts_with hex decode
    cryptoswap_wallet.Verify.Memo.memo_pays_destination is_in token_fee ◌+ℤ◌ ◌*ℤ◌
token_gate = refl

decimals_are_known :
    token_decimals node shown adapter (text "0XDAC17F958D2EE523A2206206994597C13D831EC7")
    ≡ ok (pos 6)
unfolding token_decimals cryptoswap_wallet.Chains.Eth.Rpc.decimals_of new_eth_adapter str_eq
    cryptoswap_wallet.Chains.Eth.Calldata.remove_0x starts_with lower
decimals_are_known = refl

token_is_prepared :
    build_and_verify libs adapter node shown quote token_request (pos 10) args ≡ ok prepared_token
unfolding build_and_verify is_in starts_with
token_is_prepared = rw (decimals_are_known, token_is_built, token_gate) refl

eth_source-Enforces_example :
    EthPolicy libs adapter node shown quote token_request (pos 10) args (token_built built_token)
eth_source-Enforces_example =
    eth_source-Enforces libs adapter node shown quote token_request (pos 10) args prepared_token
      token_is_prepared refl

verify_eth_token_swap-build_token_swap_example :
    (verify_eth_token_swap libs built_token (text "0xAB") (pos 10) (pos 3000000) ≡ [])
    ↔ ((pos 10 <ℤ pos 90) × Pays (text "0xAB") memo × (token_fee built_token ≤ℤ pos 3000000))
verify_eth_token_swap-build_token_swap_example =
    verify_eth_token_swap-build_token_swap libs libs-Documented adapter args token_request quote
      (pos 6) (pos 10) built_token token_is_built

verify_eth_token_swap_iff_example :
    (verify_eth_token_swap libs built_token (text "0xAB") (pos 10) (pos 3000000) ≡ [])
    ↔ IsSafeTokenSwap libs built_token (text "0xAB") (pos 10) (pos 3000000)
verify_eth_token_swap_iff_example =
    verify_eth_token_swap_iff libs built_token (text "0xAB") (pos 10) (pos 3000000)

approve_is_encoded :
    encode_call libs (hex (0x09 ∷ 0x5E ∷ 0xA7 ∷ 0xB3 ∷ [])) amount_types approve_values
    ≡ ok (text "0x095ea7b301")
unfolding encode_call encode str_eq hex
approve_is_encoded = refl

decode_call-encode_call_example :
    (read : List AbiValue) × (decode_call libs
        (text "0x095ea7b301")
        (hex (0x09 ∷ 0x5E ∷ 0xA7 ∷ 0xB3 ∷ []))
        amount_types
      ≡ some read)
    × AllReadAs approve_values read
decode_call-encode_call_example =
    decode_call-encode_call libs libs-Documented (0x09 ∷ 0x5E ∷ 0xA7 ∷ 0xB3 ∷ []) amount_types
      approve_values (text "0x095ea7b301") refl
      (omega arith, (omega arith, (omega arith, (omega arith, tt)))) approve_is_encoded

vault_prefix : lower (b'0' ∷ b'x' ∷ []) ≡ text "0x"
unfolding lower
vault_prefix = refl

to_checksum_address-IsEip55_example :
    (r : Str) × (to_checksum_address libs (b'0' ∷ b'x' ∷ vault_digits) ≡ ok (text "0x" ++ r))
    × IsEip55 (lower vault_digits) (libs.keccak256 (lower vault_digits)) r
to_checksum_address-IsEip55_example =
    to_checksum_address-IsEip55 libs libs-Documented b'0' b'x' vault_digits vault_prefix
      vault_digits-IsHexDigit refl

eth_sweep_amount_iff_example :
    (eth_sweep_amount (pos 30000000005) (pos 60000) (pos 10) ≡ ok (pos 2)) ↔ (
      (pos 60000 *ℤ pos 10 <ℤ pos 30000000005)
      × (pos 2 *ℤ pos 10000000000 +ℤ pos 60000 *ℤ pos 10 ≤ℤ pos 30000000005)
      × (pos 30000000005 <ℤ pos 2 *ℤ pos 10000000000 +ℤ pos 60000 *ℤ pos 10 +ℤ pos 10000000000))
eth_sweep_amount_iff_example = eth_sweep_amount_iff (pos 30000000005) (pos 60000) (pos 10) (pos 2)

-- The sweep leaves the gas reserve and less than a unit.
swept : eth_sweep_amount (pos 30000000005) (pos 60000) (pos 10) ≡ ok (pos 2)
unfolding eth_sweep_amount ◌-ℤ◌ ◌*ℤ◌ floor_div
swept = refl

broadcast_is_refused :
    broadcast node shown adapter (text "0x01" ∷ text "0x02" ∷ [])
    ≡ err (broadcast_error (text "RPC eth_sendRawTransaction: nonce too low"))
unfolding broadcast post_all cryptoswap_wallet.Chains.Eth.Rpc.rpc
    cryptoswap_wallet.Net.raise_for_status cryptoswap_wallet.Net.read_json
    cryptoswap_wallet.Chains.Eth.Rpc.read_answer str_eq
broadcast_is_refused = refl

broadcast-Ends_example :
    Ends node shown adapter
      (str [])
      (text "0x01" ∷ text "0x02" ∷ [])
      (post_all node shown adapter (str []) (text "0x01" ∷ text "0x02" ∷ [])).0
      (broadcast node shown adapter (text "0x01" ∷ text "0x02" ∷ []))
broadcast-Ends_example = broadcast-Ends node shown adapter (text "0x01" ∷ text "0x02" ∷ [])

native_is_native : is_in (text "-") (text "ETH.ETH") ≡ false
unfolding is_in
native_is_native = refl

memo_is_utf8 : encode_utf8 memo ≡ some memo
unfolding encode_utf8
memo_is_utf8 = refl

account_is_derived : account_of libs adapter (text "words") default_eth_derivation ≡ ok (tt, router)
unfolding account_of
account_is_derived = refl

build_and_verify_native-accepts_example :
    (p : Prepared (EthBuilt Unit) (EthPlan Unit)) × (build_and_verify libs adapter node shown
        native_quote native_request
        (pos 10)
        args
      ≡ ok p)
    × ((p.problems ≡ [])
        ↔ Acceptable
            (pos 10)
            (pos 90)
            (pos 1)
            (text "0xAB")
            memo
            (pos 60000)
            (pos 10)
            (pos 3000000))
unfolding new_eth_adapter
build_and_verify_native-accepts_example =
    build_and_verify_native-accepts libs libs-Documented adapter node shown native_quote
      native_request (pos 10) args tt router memo native_is_native account_is_derived
      vault-IsAddress memo_is_utf8
