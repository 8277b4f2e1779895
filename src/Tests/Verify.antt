-- ===== src/Tests/Verify.antt =====
-- The gates at concrete transactions.
use cryptoswap_wallet.Common.{pos, Str, List, [], ◌∷◌, ◌≡◌, ◌↔◌, true}
use cryptoswap_wallet.Verify.Memo.{memo_pays_destination, Pays, memo_pays_destination_iff}
use cryptoswap_wallet.Verify.Btc.{verify_btc_swap}
use cryptoswap_wallet.Verify.Btc.Safe.{IsSafeSwap}
use cryptoswap_wallet.Verify.Btc.Spec.{verify_btc_swap_iff}
use cryptoswap_wallet.Tests.Data.{change_to, destination, memo, outputs, plan}

abbrev owned : List Str
owned = change_to ∷ []

verify_btc_swap_iff_example :
    (verify_btc_swap outputs (pos 160) plan owned (pos 50) (pos 1000) ≡ [])
    ↔ IsSafeSwap outputs (pos 160) plan owned (pos 50) (pos 1000)
verify_btc_swap_iff_example = verify_btc_swap_iff outputs (pos 160) plan owned (pos 50) (pos 1000)

memo_pays_destination_iff_example :
    (memo_pays_destination destination memo ≡ true) ↔ Pays destination memo
memo_pays_destination_iff_example = memo_pays_destination_iff destination memo
