-- ===== src/Swap/Memos.antt =====
-- The memos of liquidity deposits (src/cryptoswap_wallet/liquidity.py).
pub mod Laws
use cryptoswap_wallet.Common.{
  decimal, ℤ, pos, pos_part, Str, ◌∷◌, [], ◌++◌, text, leb_ℤ, not, ◌&&◌, if◌then◌else◌,
}
use cryptoswap_wallet.Result.{Result, ok, err, value_error}

abbrev pub max_basis_points : ℤ
max_basis_points = pos 10000

unfoldable pub add_liquidity_memo : Str → Str
add_liquidity_memo pool = text "+:" ++ pool

unfoldable pub withdraw_liquidity_memo : Str → ℤ → Result Str
withdraw_liquidity_memo pool basis_points =
    if not (leb_ℤ (pos 1) basis_points && leb_ℤ basis_points max_basis_points)
    then err value_error
    else ok (text "-:" ++ (pool ++ (text ":" ++ decimal (pos_part basis_points))))
