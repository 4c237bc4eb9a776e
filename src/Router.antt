-- ===== src/Router.antt =====
-- cmd/server/main.go, `buildRouter`: the middleware around the request handlers, the first that is
-- used the outermost.
pub mod Routes
pub mod Effects
use gometrics.Prelude.{String, Option, ◌==◌, if◌then◌else◌, Bytes}
use gometrics.Crypto.{Primitives}
use gometrics.Middleware.{
  HttpHandler, GzipLib, hash_middleware, decrypt_middleware, gzip_middleware, logging_middleware,
}

unfoldable pub router :
    {Public Private W : Type 0}
    → Primitives Public Private
    → GzipLib
    → (Bytes → Bytes → Bytes)
    → String
    → Option Private
    → HttpHandler W
    → HttpHandler W
router p lib hmac key priv next =
    let inner = decrypt_middleware p priv (gzip_middleware lib (logging_middleware next)) in
    if key == "" then inner else hash_middleware hmac key inner
