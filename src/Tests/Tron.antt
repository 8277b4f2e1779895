-- ===== src/Tests/Tron.antt =====
-- The TRON adapter, for a swap of its token.
use cryptoswap_wallet.Common.{
  ℕ, ℤ, pos, ◌*ℤ◌, ◌<ℤ◌, Str, Bytes, Bool, true, false, ◌&&◌, List, [], ◌∷◌, ◌++◌, Option, none,
  some, ◌≡◌, ◌↔◌, refl, sym, ap, ◌∙◌, subst, text, hex, from_hex, decode_utf8, starts_with, is_in,
  str_eq, str_eq_iff, eqb_ℤ, eqb_ℤ_iff, &&_iff, Bool-cases, inl, inr, All, IsByte, map,
  if◌then◌else◌, arith,
}
use cryptoswap_wallet.Result.{ok}
use cryptoswap_wallet.Thorchain.Json.{end}
use cryptoswap_wallet.Tests.Data.{fees}
use cryptoswap_wallet.Thorchain.Types.{Quote}
use cryptoswap_wallet.Swap.Types.{SwapRequest, Prepared}
use cryptoswap_wallet.Verify.Memo.{Pays}
use cryptoswap_wallet.Chains.Tron.Types.{BuiltTronTx, TronPlan, tron_token_swap}
use cryptoswap_wallet.Chains.Tron.Amounts.{to_sun, to_token_native}
use cryptoswap_wallet.Chains.Tron.Amounts.Laws.{to_sun_iff}
use cryptoswap_wallet.Chains.Tron.Base58.{
  base58check_encode, with_checksum, leading_zeros, ones, b58_char, from_bytes,
}
use cryptoswap_wallet.Chains.Tron.Base58.Laws.{Encodes, base58check_encode-value}
use cryptoswap_wallet.Chains.Tron.Build.{read_memo, decode_trc20_transfer}
use cryptoswap_wallet.Chains.Tron.Prepare.{build_and_verify}
use cryptoswap_wallet.Chains.Tron.Prepare.Laws.{token_plan}
use cryptoswap_wallet.Chains.Tron.Prepare.Accepts.{usdt, build_and_verify-Leaves}
use cryptoswap_wallet.Chains.Tron.Prepare.Policy.{TronPolicy, tron_source-Enforces}
use cryptoswap_wallet.Tests.TronData.{
  Content, vault, memo, memo_hex, libs, libs-Documented, adapter, call_of, with_call, noted,
}

abbrev quote : Quote
quote = record {
  inbound_address = vault;
  expected_amount_out = pos 5;
  memo = some memo;
  fees = fees;
  recommended_min_amount_in = pos 1;
  expiry = pos 90;
  dust_threshold = pos 0;
  recommended_gas_rate = pos 1;
  gas_rate_units = text "sun";
  router = none;
  max_streaming_quantity = pos 0;
  streaming_swap_blocks = pos 0;
  total_swap_seconds = pos 0;
  raw = end;
}

abbrev request : SwapRequest
request = record {
  from_asset = text "TRON.USDT-TR7NHQJEKQXGTCI8Q8ZY4PL8OTSZGJLJ6T";
  to_asset = text "BTC.BTC";
  amount = pos 500;
  destination = text "0xAB";
}

abbrev built : BuiltTronTx Unit Content
built = record {
  tx = record {
    kind = text "TriggerSmartContract";
    to = usdt;
    amount = pos 0;
    call = text "a9059cbb01";
    note = some memo_hex;
  };
  priv = tt;
  contract_type = text "TriggerSmartContract";
  to_address = usdt;
  amount_sun = pos 0;
  memo = memo;
  call_data = text "a9059cbb01";
}

abbrev prepared : Prepared (BuiltTronTx Unit Content) TronPlan
prepared = record {
  quote = some quote;
  built = built;
  plan = tron_token_swap (token_plan vault usdt (pos 5) memo (pos 90) (text "0xAB"));
  problems = [];
}

swap_is_prepared : build_and_verify libs adapter quote request (pos 10) (text "words") ≡ ok prepared
unfolding build_and_verify call_of with_call noted is_in
    cryptoswap_wallet.Chains.Tron.Prepare.build_and_verify_token
    cryptoswap_wallet.Chains.Tron.Amounts.token_contract_and_decimals str_eq to_token_native
    cryptoswap_wallet.Common.floor_mod cryptoswap_wallet.Common.◌-ℤ◌
    cryptoswap_wallet.Chains.Tron.Build.build_unsigned_trc20_transfer
    cryptoswap_wallet.Chains.Tron.Build.account_of cryptoswap_wallet.Common.floor_div read_memo
    from_hex decode_utf8 decode_trc20_transfer cryptoswap_wallet.Chains.Eth.Calldata.remove_0x hex
    cryptoswap_wallet.Verify.Tron.verify_tron_token_swap cryptoswap_wallet.Verify.Types.run_checks
    cryptoswap_wallet.Verify.Memo.memo_pays_destination starts_with cryptoswap_wallet.Common.lower
swap_is_prepared = refl

tron_source-Enforces_example : TronPolicy libs quote request (pos 10) (text "words") built
tron_source-Enforces_example =
    tron_source-Enforces libs adapter quote request (pos 10) (text "words") prepared
      swap_is_prepared refl

build_and_verify-Leaves_example :
    (prepared.problems ≡ []) ↔ ((pos 10 <ℤ pos 90) × Pays (text "0xAB") memo)
build_and_verify-Leaves_example =
    build_and_verify-Leaves libs libs-Documented adapter quote request (pos 10) (text "words")
      prepared refl refl swap_is_prepared

to_sun_iff_example :
    ((to_sun (pos 500) ≡ ok (pos 5)) ↔ (pos 500 ≡ pos 5 *ℤ pos 100))
    × ((to_token_native (pos 500) (pos 6) ≡ ok (pos 5)) ↔ (pos 500 ≡ pos 5 *ℤ pos 100))
to_sun_iff_example = to_sun_iff (pos 500) (pos 5)

five_is_kept : to_sun (pos 500) ≡ ok (pos 5)
unfolding to_sun cryptoswap_wallet.Common.floor_mod cryptoswap_wallet.Common.floor_div
five_is_kept = refl

checksummed : All IsByte ((0 ∷ 9 ∷ []) ++ (1 ∷ 2 ∷ 3 ∷ 4 ∷ []))
checksummed =
    (omega arith, (omega arith, (omega arith, (omega arith, (omega arith, (omega arith, tt))))))

base58check_encode-value_example :
    (s : Str) × (base58check_encode libs (0 ∷ 9 ∷ []) ≡ some s)
    × Encodes (0 ∷ 9 ∷ 1 ∷ 2 ∷ 3 ∷ 4 ∷ []) s
base58check_encode-value_example = base58check_encode-value libs (0 ∷ 9 ∷ []) checksummed

encoded : base58check_encode libs (0 ∷ 9 ∷ []) ≡ some (text "121vH8m1")
unfolding base58check_encode cryptoswap_wallet.Chains.Tron.Base58.encode_data
    cryptoswap_wallet.Chains.Tron.Base58.base58_digits
    cryptoswap_wallet.Chains.Tron.Base58.with_checksum
    cryptoswap_wallet.Chains.Tron.Base58.from_bytes
    cryptoswap_wallet.Chains.Tron.Base58.leading_zeros cryptoswap_wallet.Chains.Tron.Base58.b58_char
    cryptoswap_wallet.Chains.Tron.Base58.b58_text
encoded = refl
