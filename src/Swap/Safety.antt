-- ===== src/Swap/Safety.antt =====
-- What the gate of an adapter must promise, and what then reaches the network through `prepare_swap`
-- and `execute_swap`, whichever adapter is plugged in.
use cryptoswap_wallet.Common.{ℤ, Str, Bool, true, List, [], Option, some, ◌≡◌}
use cryptoswap_wallet.Result.{ok}
use cryptoswap_wallet.Thorchain.Types.{Quote}
use cryptoswap_wallet.Swap.Types.{SwapRequest, Prepared, SwapSource, ThorchainLike}
use cryptoswap_wallet.Swap.Prepare.{prepare_swap}
use cryptoswap_wallet.Swap.Prepare.Laws.{swap_args, prepare_swap_iff}
use cryptoswap_wallet.Swap.Execute.{execute_swap}
use cryptoswap_wallet.Swap.Execute.Laws.{execute_swap-sends}

module _ (adapter : SwapSource) where
  open adapter use {Built, Plan, Args, Raw, build_and_verify, sign}

  -- What an adapter takes to be a safe transaction for a quote and a request, at a time.
  abbrev pub Policy : Type 1
  Policy = Quote → SwapRequest → ℤ → Args → Built → Type 0

  -- The contract of an adapter: what it builds without a problem is safe.
  abbrev pub Enforces : Policy → Type 0
  Enforces Safe =
      (quote : Quote) (request : SwapRequest) (now : ℤ) (args : Args) (p : Prepared Built Plan)
      → build_and_verify quote request now args ≡ ok p
      → p.problems ≡ []
      → Safe quote request now args p.built

  -- For an adapter whose gate enforces a policy: when a swap was prepared, and executing it gives
  -- transactions to the network, then the call was confirmed, they are what the adapter signs for
  -- the transaction that was built, and that is safe, by the policy, for a quote with a memo that
  -- the network gave for exactly this request.
  pub execute_swap-Safe :
      (Safe : Policy)
      → Enforces Safe
      → (thorchain : ThorchainLike) (request : SwapRequest) (now tolerance_bps : ℤ)
        (interval quantity : Option ℤ) (args : Args) (p : Prepared Built Plan) (confirm : Bool)
        (raws : List Raw)
      → prepare_swap thorchain adapter request now tolerance_bps interval quantity args ≡ ok p
      → (execute_swap adapter p confirm).sends ≡ some raws
      → (confirm ≡ true)
        × (sign p.built ≡ ok raws)
        × ((quote : Quote) × (memo : Str) × (quote.memo ≡ some memo)
            × (thorchain.quote_swap (swap_args request tolerance_bps interval quantity) ≡ ok quote)
            × Safe quote request now args p.built)
  execute_swap-Safe Safe enforces thorchain request now tolerance interval quantity args p confirm
        raws prepared sent =
      let (none_found, confirmed, signed) = (execute_swap-sends adapter p confirm raws).1.0 sent in
      let (status, quote, opened, quoted, built) =
        (prepare_swap_iff thorchain adapter request now tolerance interval quantity args p).0
          prepared in
      let (memo, named, filled) = quoted.memo in
      (
        confirmed,
        signed,
        (quote, memo, named, quoted.quoted, enforces quote request now args p built none_found),
      )
