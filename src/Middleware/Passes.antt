-- ===== src/Middleware/Passes.antt =====
-- What the middleware hands to the next handler when nothing stops a request.
use gometrics.Prelude.{
  ℕ, ◌≤◌, true, false, Option, none, some, get_or, List, [], ◌∷◌, ◌≡◌, ◌≢◌, refl, sym, ap, ◌∙◌,
  subst, arith, Bytes, length, ltb, if◌then◌else◌,
}
use gometrics.Http.{Request, Body, whole, header, Call}
use gometrics.Crypto
use gometrics.Crypto.{Primitives}
use gometrics.Middleware.{
  HttpHandler, GzipLib, max_request_body, limited, read_limited_body, read_bytes, read_stream,
  with_content, logging_middleware, gzip_middleware, decrypt_middleware, decrypt_by, on_bytes,
  decrypted, plain_headers, unpack, unpack_by, contains, with_body,
}

-- `gunzip` undoes `gzip`, whose stream is never empty
pub record IsGzip (lib : GzipLib) : Type 0 where
  pub not_empty : (b : Bytes) → lib.gzip b ≢ []
  pub opens : (b : Bytes) → lib.open_reader (whole (lib.gzip b)) ≡ none
  pub unpacks : (b : Bytes) → lib.gunzip (whole (lib.gzip b)) ≡ whole b

not_over : (n : ℕ) → n ≤ max_request_body → ltb max_request_body n ≡ false
not_over n h = ground arith

pub read_whole :
    (r : Request) (b : Bytes)
    → r.body ≡ some (whole b)
    → length b ≤ max_request_body
    → read_limited_body r ≡ read_bytes b
unfolding read_limited_body read_stream
read_whole r b e h =
    subst (λ o. read_stream (get_or o (whole [])) ≡ read_bytes b) (sym e)
      (rw (not_over (length b) h) refl)

module _ {W : Type 0} (next : HttpHandler W) (r : Request) (b : Bytes) (w : W) where
  pub logging-passes :
      r.body ≡ some (whole b)
      → length b ≤ max_request_body
      → logging_middleware next r w ≡ next (with_content r b) w
  unfolding logging_middleware
  logging-passes e h =
      ap
        (λ o. elim o [
          | none ↦ next r w
          | some x ↦ with_body (read_limited_body r) (λ c. next (with_content r c) w) w
        ])
        e
      ∙ ap (λ x. with_body x (λ c. next (with_content r c) w) w) (read_whole r b e h)

  pub decrypt-passes :
      {Public Private : Type 0}
      → (p : Primitives Public Private) (priv : Private) (text : Bytes) → b ≢ []
      → r.body ≡ some (whole b)
      → length b ≤ max_request_body
      → Crypto.decrypt p (some priv) b ≡ some (Crypto.ok text)
      → decrypt_middleware p (some priv) next r w
        ≡ next (record r { headers = plain_headers p r.headers; body = some (whole text) }) w
  unfolding decrypt_middleware decrypt_by on_bytes decrypted
  decrypt-passes p priv text full e h d =
      ap (λ o. decrypt_by p (some priv) o next r w) e
      ∙ ap (λ x. with_body x (on_bytes p priv next r w) w) (read_whole r b e h)
      ∙ on_full b full d
    where
      on_full :
          (c : Bytes)
          → c ≢ []
          → Crypto.decrypt p (some priv) c ≡ some (Crypto.ok text)
          → on_bytes p priv next r w c
            ≡ next (record r { headers = plain_headers p r.headers; body = some (whole text) }) w
      on_full [] n d = absurd (n refl)
      on_full (x ∷ xs) n d = ap (λ o. decrypted p o next r w) d

  pub gzip-passes :
      (lib : GzipLib)
      → IsGzip lib
      → r.body ≡ some (whole (lib.gzip b))
      → contains (header "Content-Encoding" r.headers) "gzip" ≡ true
      → length b ≤ max_request_body
      → (gzip_middleware lib next r w).0 ≡ (next (with_content r b) w).0
  unfolding gzip_middleware unpack unpack_by limited
  gzip-passes lib law e h fits =
      ap (λ c. (if c then unpacked r.body else next r w).0) h
      ∙ ap (λ o. (unpacked o).0) e
      ∙ ap (λ o. (unpack_by lib o (whole (lib.gzip b)) next r w).0) (law.opens b)
      ∙ ap (λ x. (next (record r { body = some (limited x) }) w).0) (law.unpacks b)
      ∙ ap (λ x. (next (record r { body = some x }) w).0) within
    where
      unpacked : Option Body → W × List Call
      unpacked o =
          unpack_by lib (lib.open_reader (get_or o (whole []))) (get_or o (whole [])) next r w

      within : limited (whole b) ≡ whole b
      within = rw (not_over (length b) fits) refl
