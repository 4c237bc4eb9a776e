-- ===== src/Middleware/Limit.antt =====
-- The limit of a body that is unpacked.
use gometrics.Prelude.{
  inl, inr, Bool-cases, Bool, true, false, none, some, ◌≡◌, refl, length, get_or, ltb,
  if◌then◌else◌, [],
}
use gometrics.Prelude.Dict
use gometrics.Http.{whole, Request, Body, header, code_of, respond_all, respond}
use gometrics.Middleware.{
  HttpHandler, GzipLib, too_large, max_request_body, limited, contains, read_limited_body,
  logging_middleware, gzip_middleware, too_large_reply, compressed, read_stream, gzip_writes,
  gzip_write, is_packed_type, unpack, unpack_by, failed_unpack, [],
}

same : (c : Bool) → (if c then too_large else too_large) ≡ too_large
same true = refl
same false = refl

-- a body over the limit reads as too large, though it is cut there
limited-too_large :
    (b : Body) (r : Request)
    → ltb max_request_body (length b.content) ≡ true
    → read_limited_body (record r { body = some (limited b) }) ≡ too_large
unfolding read_limited_body read_stream limited
limited-too_large b r over = rw over (same _)

-- the status of the refusal goes out first, whatever the type of its text counts as
refused-413 :
    (supports : Bool) (lib : GzipLib) → code_of (compressed lib supports too_large_reply) ≡ some 413
unfolding compressed gzip_writes gzip_write respond_all respond header Dict.insert Dict.lookup
refused-413 true lib = elim (Bool-cases (is_packed_type "text/plain; charset=utf-8")) [
  | inl e ↦ simp (e)
  | inr e ↦ simp (e)
]
refused-413 false lib = elim (Bool-cases (is_packed_type "text/plain; charset=utf-8")) [
  | inl e ↦ simp (e)
  | inr e ↦ simp (e)
]

-- A body that says it is gzip, and that is over the limit after it is unpacked, is answered with 413,
-- whatever handler is behind: the handler does not run, and the world stays as it is.
pub gzip_middleware-too_large :
    {W : Type 0} (lib : GzipLib) (next : HttpHandler W) (r : Request) (w : W)
    → contains (header "Content-Encoding" r.headers) "gzip" ≡ true
    → lib.open_reader (get_or r.body (whole [])) ≡ none
    → ltb max_request_body (length (lib.gunzip (get_or r.body (whole []))).content) ≡ true
    → let (w', calls) = gzip_middleware lib (logging_middleware next) r w in
      (w' ≡ w) × (code_of calls ≡ some 413)
unfolding gzip_middleware unpack unpack_by failed_unpack logging_middleware
gzip_middleware-too_large lib next r w packed opens over =
    let e = limited-too_large (lib.gunzip (get_or r.body (whole []))) r over in
    (rw (packed, opens, e) refl, rw (packed, opens, e) (refused-413 _ lib))
