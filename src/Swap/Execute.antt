-- ===== src/Swap/Execute.antt =====
-- `execute_swap` (src/cryptoswap_wallet/swap.py), with the calls of the adapter that it makes.
pub mod Laws
use cryptoswap_wallet.Common.{
  Str, Bool, true, false, not, List, [], Option, none, some, ◌≡◌, ◌↔◌, ◌⊎◌, inl, inr, refl,
  if◌then◌else◌, Bool-cases, arith,
}
use cryptoswap_wallet.Result.{Result, ok, err, swap_aborted, gate_refused, ok_inj}
use cryptoswap_wallet.Swap.Types.{Prepared, safe, SwapSource}

pub record SwapResult (Built Plan : Type 0) : Type 0 where
  pub prepared : Prepared Built Plan
  pub txid : Option Str
  pub broadcast : Bool

-- What a call of `execute_swap` did: whether it asked the adapter to sign, the transactions that it
-- gave the adapter to broadcast, and what it returned or raised.
pub record Run (Built Plan Raw : Type 0) : Type 0 where
  pub signs : Bool
  pub sends : Option (List Raw)
  pub result : Result (SwapResult Built Plan)

module _ (adapter : SwapSource) where
  open adapter use {Built, Plan, Raw, sign, broadcast}

  -- `txid = adapter.broadcast(raws)` and the return
  abbrev after_broadcast : Prepared Built Plan → List Raw → Result Str → Run Built Plan Raw
  after_broadcast prepared raws (err e) = record { signs = true; sends = some raws; result = err e }
  after_broadcast prepared raws (ok txid) = record {
    signs = true;
    sends = some raws;
    result = ok (record { prepared = prepared; txid = some txid; broadcast = true });
  }

  -- `raws = adapter.sign(prepared.built)` and what follows
  abbrev after_sign : Prepared Built Plan → Result (List Raw) → Run Built Plan Raw
  after_sign prepared (err e) = record { signs = true; sends = none; result = err e }
  after_sign prepared (ok raws) = after_broadcast prepared raws (broadcast raws)

  unfoldable pub execute_swap : Prepared Built Plan → Bool → Run Built Plan Raw
  execute_swap prepared confirm =
      if not (safe prepared)
      then record {
        signs = false;
        sends = none;
        result = err (swap_aborted (gate_refused prepared.problems));
      }
      else if not confirm
      then record {
        signs = false;
        sends = none;
        result = ok (record { prepared = prepared; txid = none; broadcast = false });
      }
      else after_sign prepared (sign prepared.built)
