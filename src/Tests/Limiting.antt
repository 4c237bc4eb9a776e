-- ===== src/Tests/Limiting.antt =====
-- A request whose body is small as gzip and over the limit when it is unpacked.
use gometrics.Prelude.Dict
use gometrics.Prelude.{
  ℕ, zero, suc, Bytes, [], ◌∷◌, ◌≡◌, refl, some, none, length, ltb, arith, true,
}
use gometrics.Http.{Request, code_of, write_header, whole, header}
use gometrics.Middleware.{GzipLib, max_request_body, gzip_middleware, logging_middleware, contains}
use gometrics.Middleware.Limit.{gzip_middleware-too_large}
use gometrics.Tests.{post}

zeros : ℕ → Bytes
zeros zero = []
zeros (suc n) = 0 ∷ zeros n

length-zeros : (n : ℕ) → length (zeros n) ≡ n
unfolding zeros
length-zeros zero = refl
length-zeros (suc n) = omega (arith, length-zeros n)

abbrev bomb : GzipLib
bomb = record {
  gzip = λ b. b;
  open_reader = λ b. none;
  gunzip = λ b. whole (zeros (suc max_request_body));
}

abbrev packed : Request
packed = record post { headers = ("Content-Encoding", "gzip") ∷ [] }

over : ltb max_request_body (length (zeros (suc max_request_body))) ≡ true
over = rw (length-zeros (suc max_request_body)) refl

says_gzip : contains (header "Content-Encoding" packed.headers) "gzip" ≡ true
unfolding contains header Dict.lookup
says_gzip = refl

gzip_middleware-too_large_example :
    let (w', calls) =
      gzip_middleware bomb (logging_middleware (λ r w. (suc w, write_header 200 ∷ []))) packed 4 in
    (w' ≡ 4) × (code_of calls ≡ some 413)
gzip_middleware-too_large_example =
    gzip_middleware-too_large bomb (λ r w. (suc w, write_header 200 ∷ [])) packed 4 says_gzip refl
      over
