-- ===== src/Chains/Tron/Prepare.antt =====
-- What the TRON adapter prepares: swaps, deposits and sends, built and checked by their gates.
pub mod Laws
pub mod Accepts
pub mod Reads
pub mod Policy
use cryptoswap_wallet.Common.{
  ℤ, pos, ◌+ℤ◌, Str, Bool, List, [], Option, none, some, text, is_in, if◌then◌else◌,
}
use cryptoswap_wallet.Result.{Result, ok, err, ◌>>=◌}
use cryptoswap_wallet.Thorchain.Types.{Quote}
use cryptoswap_wallet.Swap.Types.{SwapRequest, Prepared, SwapSource}
use cryptoswap_wallet.Verify.Types.{
  TronSwapPlan, TronTokenSwapPlan, TronSendPlan, TronTokenSendPlan,
}
use cryptoswap_wallet.Verify.Tron.{
  TronTx, TronTokenTx, verify_tron_swap, verify_tron_token_swap, verify_tron_send,
  verify_tron_token_send,
}
use cryptoswap_wallet.Chains.Btc.{memo_or_empty}
use cryptoswap_wallet.Chains.Tron.Types.{
  TronLibs, BuiltTronTx, TronAdapter, TronPlan, tron_swap, tron_token_swap, tron_send,
  tron_token_send, default_tron_derivation, default_trc20_fee_limit_sun,
}
use cryptoswap_wallet.Chains.Tron.Amounts.{to_sun, to_token_native, token_contract_and_decimals}
use cryptoswap_wallet.Chains.Tron.Build.{
  build_unsigned_transfer, build_unsigned_trc20_transfer, decode_trc20_transfer, sign, broadcast,
}

-- The fields of a built transaction that the gates of native transfers read.
abbrev pub native_fields : {PrivateKey Tx : Type 0} → BuiltTronTx PrivateKey Tx → TronTx
native_fields built = record {
  contract_type = built.contract_type;
  to_address = built.to_address;
  amount_sun = built.amount_sun;
  memo = built.memo;
}

-- Those that the gates of TRC-20 transfers read, with the decoded recipient and amount.
abbrev pub token_fields :
    {PrivateKey Tx : Type 0} → BuiltTronTx PrivateKey Tx → Str × ℤ → TronTokenTx
token_fields built call = record {
  contract_type = built.contract_type;
  trigger_to = built.to_address;
  recipient = call.0;
  transfer_amount = call.1;
  trx_value = built.amount_sun;
  memo = built.memo;
}

module _ (libs : TronLibs) (self : TronAdapter) where
  open libs use {PrivateKey, Tx}

  -- `_build_and_verify`, of the vault, the amount, the memo, the expiry, the destination, the time,
  -- the mnemonic and the quote.
  unfoldable pub build_and_verify_transfer :
      Str
      → ℤ
      → Str
      → ℤ
      → Str
      → ℤ
      → Str
      → Option Quote
      → Result (Prepared (BuiltTronTx PrivateKey Tx) TronPlan)
  build_and_verify_transfer to amount_sun memo expiry destination now mnemonic quote = do
    built ← build_unsigned_transfer libs self mnemonic to amount_sun memo default_tron_derivation
    let plan : TronSwapPlan = record {
      inbound_address = to;
      amount_sun = amount_sun;
      memo = memo;
      expiry = expiry;
      destination = destination;
    }
    ok (record {
      quote = quote;
      built = built;
      plan = tron_swap plan;
      problems = verify_tron_swap (native_fields built) plan now;
    })

  unfoldable pub build_and_verify_token :
      Quote → SwapRequest → ℤ → Str → Result (Prepared (BuiltTronTx PrivateKey Tx) TronPlan)
  build_and_verify_token quote request now mnemonic = do
    token ← token_contract_and_decimals request.from_asset
    native ← to_token_native request.amount token.1
    built ←
        build_unsigned_trc20_transfer libs self mnemonic token.0 quote.inbound_address native
          (memo_or_empty quote.memo) default_trc20_fee_limit_sun default_tron_derivation
    call ← decode_trc20_transfer libs built.call_data
    let plan : TronTokenSwapPlan = record {
      inbound_address = quote.inbound_address;
      token = token.0;
      amount = native;
      memo = memo_or_empty quote.memo;
      expiry = quote.expiry;
      destination = request.destination;
    }
    ok (record {
      quote = some quote;
      built = built;
      plan = tron_token_swap plan;
      problems = verify_tron_token_swap (token_fields built call) plan now;
    })

  unfoldable pub build_and_verify :
      Quote → SwapRequest → ℤ → Str → Result (Prepared (BuiltTronTx PrivateKey Tx) TronPlan)
  build_and_verify quote request now mnemonic =
      if is_in (text "-") request.from_asset
      then build_and_verify_token quote request now mnemonic
      else to_sun request.amount >>= λ amount_sun.
          build_and_verify_transfer quote.inbound_address amount_sun (memo_or_empty quote.memo)
            quote.expiry request.destination now mnemonic (some quote)

  unfoldable pub build_and_verify_token_send :
      Str → ℤ → Str → Str → Result (Prepared (BuiltTronTx PrivateKey Tx) TronPlan)
  build_and_verify_token_send recipient amount asset mnemonic = do
    token ← token_contract_and_decimals asset
    native ← to_token_native amount token.1
    built ←
        build_unsigned_trc20_transfer libs self mnemonic token.0 recipient native []
          default_trc20_fee_limit_sun default_tron_derivation
    call ← decode_trc20_transfer libs built.call_data
    let plan : TronTokenSendPlan = record {
      token = token.0;
      recipient = recipient;
      amount = native;
    }
    ok (record {
      quote = none;
      built = built;
      plan = tron_token_send plan;
      problems = verify_tron_token_send (token_fields built call) plan;
    })

  unfoldable pub build_and_verify_native_send :
      Str → ℤ → Str → Result (Prepared (BuiltTronTx PrivateKey Tx) TronPlan)
  build_and_verify_native_send recipient amount mnemonic = do
    amount_sun ← to_sun amount
    built ←
        build_unsigned_transfer libs self mnemonic recipient amount_sun [] default_tron_derivation
    let plan : TronSendPlan = record { recipient = recipient; amount_sun = amount_sun }
    ok (record {
      quote = none;
      built = built;
      plan = tron_send plan;
      problems = verify_tron_send (native_fields built) plan;
    })

  unfoldable pub build_and_verify_send :
      Str → ℤ → Str → Str → Result (Prepared (BuiltTronTx PrivateKey Tx) TronPlan)
  build_and_verify_send recipient amount asset mnemonic =
      if is_in (text "-") asset
      then build_and_verify_token_send recipient amount asset mnemonic
      else build_and_verify_native_send recipient amount mnemonic

  unfoldable pub build_and_verify_deposit :
      Str → Str → ℤ → ℤ → Str → Result (Prepared (BuiltTronTx PrivateKey Tx) TronPlan)
  build_and_verify_deposit vault memo amount now mnemonic = to_sun amount >>= λ amount_sun.
      build_and_verify_transfer vault amount_sun memo (now +ℤ pos 3600) [] now mnemonic none

  -- The adapter as `prepare_swap` and `execute_swap` take it.
  abbrev pub tron_source : SwapSource
  tron_source = record {
    Built = BuiltTronTx PrivateKey Tx;
    Plan = TronPlan;
    Args = Str;
    Raw = Tx;
    chain = text "TRON";
    build_and_verify = build_and_verify;
    build_and_verify_deposit = build_and_verify_deposit;
    sign = sign libs;
    broadcast = broadcast libs;
  }
