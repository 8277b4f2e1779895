-- ===== src/Tests/Swap.antt =====
-- Preparing and executing over an adapter that always builds, and backends.
use cryptoswap_wallet.Common.{
  ℤ, pos, Str, true, false, List, [], ◌∷◌, none, some, ◌≡◌, ◌≢◌, ◌↔◌, ◌⊎◌, refl, text, starts_with,
}
use cryptoswap_wallet.Result.{ok, err, thorchain_error, value_error}
use cryptoswap_wallet.Thorchain.Types.{ChainStatus, Quote}
use cryptoswap_wallet.Swap.Types.{Prepared, SwapSource, QuoteArgs}
use cryptoswap_wallet.Swap.Prepare.{prepare_swap, prepare_liquidity}
use cryptoswap_wallet.Swap.Prepare.Laws.{IsOpen, IsQuoted, swap_args, prepare_swap_iff}
use cryptoswap_wallet.Swap.Prepare.Liquidity.{OpenFor, IsDeposit, prepare_liquidity_iff}
use cryptoswap_wallet.Swap.Execute.{SwapResult, execute_swap}
use cryptoswap_wallet.Swap.Execute.Laws.{execute_swap-sends, execute_swap_iff}
use cryptoswap_wallet.Swap.Backends.{Backend, quote_args, gather_quotes, best_quote}
use cryptoswap_wallet.Swap.Backends.Laws.{
  IsQuiet, IsBest, Gathered, best_quote-IsBest, gather_quotes-Gathered,
}
use cryptoswap_wallet.Tests.Data.{quote, request}
use cryptoswap_wallet.Tests.Chains.{thorchain}

abbrev prepared : Prepared Unit Unit
prepared = record { quote = some quote; built = tt; plan = tt; problems = [] }

abbrev source : SwapSource
source = record {
  Built = Unit;
  Plan = Unit;
  Args = Unit;
  Raw = Unit;
  chain = text "BTC";
  build_and_verify = λ quote request now args. ok prepared;
  build_and_verify_deposit = λ vault memo amount now args. ok prepared;
  sign = λ built. ok (tt ∷ []);
  broadcast = λ raws. ok (text "txid");
}

prepare_swap_iff_example :
    (prepare_swap thorchain source request (pos 50) (pos 300) none none tt ≡ ok prepared) ↔ (
      (s : ChainStatus) × (q : Quote) × IsOpen thorchain source s
      × IsQuoted thorchain source request (swap_args request (pos 300) none none) q
      × (ok prepared ≡ ok prepared))
prepare_swap_iff_example =
    prepare_swap_iff thorchain source request (pos 50) (pos 300) none none tt prepared

prepare_liquidity_iff_example :
    (prepare_liquidity thorchain source (text "+:BTC.BTC") none (pos 50) tt ≡ ok prepared) ↔ (
      (s : ChainStatus) × IsOpen thorchain source s
      × (s.address ≢ [])
      × (starts_with (text "+:BTC.BTC") (text "+") ≡ true
          → OpenFor thorchain source (text "+:BTC.BTC"))
      × ((deposit : ℤ) × IsDeposit none s deposit × (ok prepared ≡ ok prepared)))
prepare_liquidity_iff_example =
    prepare_liquidity_iff thorchain source (text "+:BTC.BTC") none (pos 50) tt prepared

abbrev signed : List (Unit {0})
signed = tt ∷ []

execute_swap-sends_example :
    (((execute_swap source prepared true).signs ≡ true)
      ↔ ((prepared.problems ≡ []) × (true ≡ true)))
    × (((execute_swap source prepared true).sends ≡ some signed)
        ↔ ((prepared.problems ≡ []) × (true ≡ true) × (ok signed ≡ ok signed)))
execute_swap-sends_example = execute_swap-sends source prepared true signed

abbrev result : SwapResult Unit Unit
result = record { prepared = prepared; txid = some (text "txid"); broadcast = true }

execute_swap_iff_example : ((execute_swap source prepared true).result ≡ ok result) ↔ (
    (prepared.problems ≡ [])
    × (((true ≡ false) × (result ≡ record { prepared = prepared; txid = none; broadcast = false }))
        ⊎ ((true ≡ true)
            × ((raws : List Unit) × (txid : Str) × (ok signed ≡ ok raws)
                × (ok (text "txid") ≡ ok txid)
                × (result ≡ record { prepared = prepared; txid = some txid; broadcast = true })))))
execute_swap_iff_example = execute_swap_iff source prepared true result

abbrev good : Backend
good = record { name = text "thorchain"; quote_swap = λ args. ok quote }

abbrev failing : Backend
failing = record { name = text "maya"; quote_swap = λ args. err (thorchain_error (text "no pool")) }

abbrev asked : QuoteArgs
asked = quote_args (text "BTC.BTC") (text "ETH.ETH") (pos 400) none none none none

failing-IsQuiet : IsQuiet asked failing
failing-IsQuiet e h = let raised : thorchain_error (text "no pool") ≡ e = cc in rw (← raised) refl

gather_quotes-Gathered_example :
    (results : List (Backend × Quote)) × (gather_quotes
        (failing ∷ good ∷ [])
        (text "BTC.BTC")
        (text "ETH.ETH")
        (pos 400)
        none
        none
        none
        none
      ≡ ok results)
    × Gathered asked (failing ∷ good ∷ []) results
gather_quotes-Gathered_example =
    gather_quotes-Gathered (failing ∷ good ∷ []) (text "BTC.BTC") (text "ETH.ETH") (pos 400) none
      none none none (failing-IsQuiet, (λ e h. cc h, tt))

abbrev answers : List (Backend × Quote)
answers = (good, quote) ∷ (failing, quote) ∷ []

best_quote-IsBest_example :
    ((answers ≡ []) × (best_quote answers ≡ err value_error))
    ⊎ ((best : Backend × Quote) × (best_quote answers ≡ ok best) × IsBest best answers)
best_quote-IsBest_example = best_quote-IsBest answers
