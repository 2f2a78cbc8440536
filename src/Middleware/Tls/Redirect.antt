-- ===== src/Middleware/Tls/Redirect.antt =====
-- middleware/tls.go: the redirect of plain requests to https.
use Prim.Native.String.{◌++◌}
use poly_balance.Base.{String, str_eq, if◌then◌else◌}
use poly_balance.Http.{Request, Writer, header_get, redirect}

-- `HTTPSRedirectMiddleware` around `next`.
unfoldable pub https_redirect :
    {S : Type 0}
    → (String → String)
    → (Request → S × Writer → S × Writer)
    → Request
    → S × Writer
    → S × Writer
https_redirect page next r (s, w) =
    if str_eq (header_get "X-Forwarded-Proto" r.header) "http"
    then (s, redirect page r ("https://" ++ (r.host ++ r.uri)) 301 w)
    else next r (s, w)
