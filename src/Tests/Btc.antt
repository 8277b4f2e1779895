-- ===== src/Tests/Btc.antt =====
-- The Bitcoin adapter over a library that records the outputs it is given, for one swap.
use cryptoswap_wallet.Common.{
  pos, ◌+ℤ◌, ◌-ℤ◌, Str, Bytes, true, false, List, [], ◌∷◌, ◌++◌, none, some, ◌≡◌, ◌↔◌, refl, sym,
  text, encode_utf8, decode_utf8, contains, is_in, str_eq, lower,
}
use cryptoswap_wallet.Result.{ok, ok_inj}
use cryptoswap_wallet.Verify.Types.{SwapPlan, run_checks}
use cryptoswap_wallet.Verify.Memo.{memo_pays_destination}
use cryptoswap_wallet.Verify.Btc.Safe.{IsSafeSwap}
use cryptoswap_wallet.Verify.Btc.{verify_btc_swap}
use cryptoswap_wallet.Thorchain.Types.{Quote, tradable}
use cryptoswap_wallet.Swap.Types.{Prepared}
use cryptoswap_wallet.Swap.Prepare.{prepare_swap}
use cryptoswap_wallet.Swap.Prepare.Laws.{swap_args}
use cryptoswap_wallet.Swap.Execute.{execute_swap}
use cryptoswap_wallet.Chains.Coins.{
  Selection, select_coins, estimate_vsize, encode_op_return, decode_op_return,
}
use cryptoswap_wallet.Chains.Btc.Types.{
  Bitcoinlib, KeepsOutputs, LibOutput, nulldata, payment, BuiltSwap, BtcAdapter, BtcArgs,
}
use cryptoswap_wallet.Chains.Btc.{
  sign, choose, build_unsigned_swap, build_and_verify, build_args, owned_addresses, extract_outputs,
}
use cryptoswap_wallet.Chains.Btc.Accepts.{Acceptable, swap_plan, build_and_verify-accepts}
use cryptoswap_wallet.Chains.Btc.Broadcast.{
  btc_source, BtcPolicy, btc_source-Enforces, execute_swap-IsSafeSwap,
}
use cryptoswap_wallet.Swap.Safety.{execute_swap-Safe}
use cryptoswap_wallet.Tests.Data.{
  vault, change_to, memo, outputs, plan, quote, request, rate, coin, small_coin,
}
use cryptoswap_wallet.Tests.Chains.{thorchain}

abbrev lib : Bitcoinlib
lib = record {
  Seed = Unit;
  HdKey = Unit;
  Tx = List LibOutput;
  to_seed = λ mnemonic passphrase. ok tt;
  from_seed = λ seed network. ok tt;
  key_for_path = λ key path. ok tt;
  p2wpkh_address = λ key. ok (text "derived");
  new_tx = λ network. [];
  add_input = λ tx txid vout value key. ok tx;
  add_output = λ tx value address. ok (tx ++ (payment value address ∷ []));
  add_script_output = λ tx value script. ok (tx ++ (nulldata value script ∷ []));
  outputs = λ tx. tx;
  sign = λ tx keys. ok tx;
  signatures = λ tx. true ∷ [];
  verify = λ tx. true;
  raw_hex = λ tx. text "00";
}

lib-KeepsOutputs : KeepsOutputs lib
lib-KeepsOutputs = record {
  at_start = λ network. refl;
  with_input = λ tx tx' txid vout value key e. sym (ok_inj e);
  with_output = λ tx tx' value address e. sym (ok_inj e);
  with_script = λ tx tx' value push e. sym (ok_inj e);
}

abbrev self : BtcAdapter
self = record { bip39_passphrase = []; network = text "bitcoin" }

abbrev args : BtcArgs
args = record {
  mnemonic = text "words";
  scanned_utxos = small_coin ∷ coin ∷ [];
  fee_rate = rate;
  change_address = change_to;
  max_fee = pos 1000;
  sweep = false;
}

abbrev built : BuiltSwap Unit (List LibOutput)
built = record {
  tx =
      payment (pos 400) vault
      ∷ nulldata (pos 0) (0x6A ∷ 8 ∷ memo)
      ∷ payment (pos 440) change_to
      ∷ [];
  outputs = outputs;
  fee = pos 160;
  change_address = change_to;
  keys = tt ∷ [];
}

swap-built : build_unsigned_swap lib self (build_args args) vault (pos 400) (some memo) ≡ ok built
unfolding build_unsigned_swap choose extract_outputs select_coins estimate_vsize ◌+ℤ◌ ◌-ℤ◌
    encode_utf8 encode_op_return decode_op_return
swap-built = refl

abbrev prepared : Prepared (BuiltSwap Unit (List LibOutput)) SwapPlan
prepared = record { quote = some quote; built = built; plan = plan; problems = [] }

gate-passed :
    verify_btc_swap outputs
      (pos 160)
      plan
      (owned_addresses change_to args.scanned_utxos)
      (pos 50)
      (pos 1000)
    ≡ []
unfolding verify_btc_swap run_checks str_eq decode_utf8 contains memo_pays_destination is_in lower
gate-passed = refl

swap-verified : build_and_verify lib self quote request (pos 50) args ≡ ok prepared
unfolding build_and_verify
swap-verified = rw (swap-built, gate-passed) refl

build_and_verify-accepts_example :
    (bytes : Bytes) × (sel : Selection) × (encode_utf8 memo ≡ some bytes)
    × (choose false args.scanned_utxos (pos 400) rate bytes ≡ ok sel)
    × ((prepared.problems ≡ [])
        ↔ Acceptable request.destination memo vault
            (pos 90)
            (pos 50)
            sel.fee
            (pos 1000)
            sel.change
            change_to)
build_and_verify-accepts_example =
    build_and_verify-accepts lib lib-KeepsOutputs self quote request (pos 50) args prepared
      (λ e. cc e) swap-verified

swap-prepared :
    prepare_swap thorchain
      (btc_source lib self (λ raws. ok (text "txid")))
      request
      (pos 50)
      (pos 300)
      none
      none
      args
    ≡ ok prepared
unfolding prepare_swap tradable str_eq
swap-prepared = swap-verified

swap-sent :
    (execute_swap (btc_source lib self (λ raws. ok (text "txid"))) prepared true).sends
    ≡ some (text "00" ∷ [])
unfolding execute_swap sign
swap-sent = refl

execute_swap-IsSafeSwap_example :
    (true ≡ true)
    × (sign lib prepared.built ≡ ok (text "00" ∷ []))
    × ((q : Quote) × (m : Str) × (q.memo ≡ some m)
        × (thorchain.quote_swap (swap_args request (pos 300) none none) ≡ ok q)
        × IsSafeSwap outputs
            (pos 160)
            (swap_plan q request m)
            (owned_addresses change_to args.scanned_utxos)
            (pos 50)
            (pos 1000))
execute_swap-IsSafeSwap_example =
    execute_swap-IsSafeSwap lib thorchain self (λ raws. ok (text "txid")) request (pos 50) (pos 300)
      none none args prepared true (text "00" ∷ []) swap-prepared swap-sent

execute_swap-Safe_example :
    (true ≡ true)
    × (sign lib prepared.built ≡ ok (text "00" ∷ []))
    × ((q : Quote) × (m : Str) × (q.memo ≡ some m)
        × (thorchain.quote_swap (swap_args request (pos 300) none none) ≡ ok q)
        × BtcPolicy lib q request (pos 50) args prepared.built)
execute_swap-Safe_example =
    execute_swap-Safe (btc_source lib self (λ raws. ok (text "txid"))) (BtcPolicy lib)
      (btc_source-Enforces lib self (λ raws. ok (text "txid"))) thorchain request (pos 50) (pos 300)
      none none args prepared true (text "00" ∷ []) swap-prepared swap-sent
