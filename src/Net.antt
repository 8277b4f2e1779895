-- ===== src/Net.antt =====
-- Responses of the HTTP library (src/cryptoswap_wallet/net.py passes the requests on to it).
use cryptoswap_wallet.Common.{ℤ, pos, Str, Option, leb_ℤ}
use cryptoswap_wallet.Result.{Result, raise_if, or_raise, http_error}
use cryptoswap_wallet.Thorchain.Json.{Json}

-- `json` is `none` where the body is not JSON.
pub record Response : Type 0 where
  pub status_code : ℤ
  pub json : Option Json
  pub body : Str

-- `_post`, of the address and the JSON body.
abbrev pub Post : Type 0
Post = Str → Json → Result Response

unfoldable pub raise_for_status : Response → Result (Unit {0})
raise_for_status resp = raise_if (leb_ℤ (pos 400) resp.status_code) http_error

-- `resp.json()`. Its error on a body that is not JSON is one of the HTTP library's, too.
unfoldable pub read_json : Response → Result Json
read_json resp = or_raise resp.json http_error
