-- ===== src/Tests/Memos.antt =====
-- The memo of a deposit.
use cryptoswap_wallet.Common.{◌≡◌, true, refl, text, starts_with}
use cryptoswap_wallet.Swap.Prepare.{pool_of_memo}
use cryptoswap_wallet.Swap.Memos.{add_liquidity_memo}
use cryptoswap_wallet.Swap.Memos.Laws.{HasNoColon, pool_of_memo-add_liquidity_memo}

no_colon : HasNoColon (text "TRON.TRX")
no_colon = (refl, (refl, (refl, (refl, (refl, (refl, (refl, (refl, tt))))))))

pool_of_memo-add_liquidity_memo_example :
    (starts_with (add_liquidity_memo (text "TRON.TRX")) (text "+") ≡ true)
    × (pool_of_memo (add_liquidity_memo (text "TRON.TRX")) ≡ text "TRON.TRX")
pool_of_memo-add_liquidity_memo_example = pool_of_memo-add_liquidity_memo (text "TRON.TRX") no_colon
