-- ===== src/Chains/Scan.antt =====
-- The scan of an account with a gap limit (src/cryptoswap_wallet/chains/scan.py). `derive_address`
-- and `probe` are parameters. A window's addresses are probed one after another here: the code runs
-- those calls on a pool of threads, and takes the answers in the order of the addresses. The `while`
-- loop recurses on fuel, the number of windows.
pub mod Laws
use mathlib.Core.Option
use cryptoswap_wallet.Common.{
  ℕ, zero, suc, ◌+◌, decimal, Str, Bool, List, [], ◌∷◌, ◌++◌, ltb, if◌then◌else◌, Option, none,
  some, text,
}

both : {A : Type 0} → Option (List A) → Option (List A) → Option (List A)
both none rest = none
both (some found) none = none
both (some found) (some rest) = some (found ++ rest)

-- The path and the address of an index, and what was probed there.
pub record Record (T : Type 0) : Type 0 where
  pub path : Str
  pub address : Str
  pub info : T

module _ {T : Type 0} (derive_address : Str → Str) (probe : Str → T) (has_history : T → Bool)
    (account : Str) where
  -- `f"{account}/{branch}/{index}"`
  abbrev pub path_of : ℕ → ℕ → Str
  path_of branch index = account ++ (text "/" ++ (decimal branch ++ (text "/" ++ decimal index)))

  abbrev pub record_of : ℕ → ℕ → Record T
  record_of branch index = record {
    path = path_of branch index;
    address = derive_address (path_of branch index);
    info = probe (derive_address (path_of branch index));
  }

  abbrev pub is_used : ℕ → ℕ → Bool
  is_used branch index = has_history (record_of branch index).info

  -- The loop over a window of `n` addresses from an index: the gap after it, and what it found.
  unfoldable pub scan_window : ℕ → ℕ → ℕ → ℕ → ℕ × List (Record T)
  scan_window branch zero index gap = (gap, [])
  scan_window branch (suc n) index gap =
      let used = scan_window branch n (suc index) 0 in
      let unused = scan_window branch n (suc index) (suc gap) in
      if is_used branch index then (used.0, record_of branch index ∷ used.1) else unused

  -- `while gap < gap_limit`; none when the fuel is used up.
  unfoldable pub scan_branch : ℕ → ℕ → ℕ → ℕ → ℕ → ℕ → Option (List (Record T))
  unfolding scan_window
  scan_branch gap_limit window branch zero index gap = if ltb gap gap_limit then none else some []
  scan_branch gap_limit window branch (suc fuel) index gap =
      let w = scan_window branch window index gap in
      let rest = scan_branch gap_limit window branch fuel (index + window) w.0 in
      if ltb gap gap_limit then Option.map (λ r. w.1 ++ r) rest else some []

  unfoldable pub scan_account : ℕ → ℕ → ℕ → List ℕ → Option (List (Record T))
  unfolding scan_branch both
  scan_account gap_limit window fuel [] = some []
  scan_account gap_limit window fuel (branch ∷ branches) =
      both (scan_branch gap_limit window branch fuel 0 0)
        (scan_account gap_limit window fuel branches)
