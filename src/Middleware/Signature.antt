-- ===== src/Middleware/Signature.antt =====
-- What `HashMiddleware` lets through, and how it signs a response.
use gometrics.Prelude.{
  ℕ, ◌≡◌, ◌≢◌, ◌⊎◌, refl, String, none, some, List, [], ◌∷◌, ◌++◌, Bytes, append-nil, ◌∙◌,
  append_assoc, subst, ne→eq_false, sym, Bool-cases, ◌==◌, inl, eq_iff, inr,
}
use gometrics.Prelude.Dict
use gometrics.Http.{
  Request, Response, Call, set_header, write_header, write, respond_all, empty, header, error_reply,
}
use gometrics.Hash.{compute}
use gometrics.Middleware.{
  HttpHandler, HashWriter, hash_writes, signed, finalize, hash_middleware, read_limited_body,
  read_bytes, with_content,
}

-- the bytes that a handler writes, and the last status that it writes
abbrev pub written : List Call → Bytes
written [] = []
written (write b ∷ cs) = b ++ written cs
written (set_header k v ∷ cs) = written cs
written (write_header code ∷ cs) = written cs

abbrev pub last_status : ℕ → List Call → ℕ
last_status code [] = code
last_status code (write_header c ∷ cs) = last_status c cs
last_status code (write b ∷ cs) = last_status code cs
last_status code (set_header k v ∷ cs) = last_status code cs

hash_writes-buffer :
    (cs : List Call) (s : HashWriter)
    → (hash_writes cs s).1
      ≡ record { status = last_status s.status cs; body = s.body ++ written cs }
unfolding hash_writes
hash_writes-buffer [] s = rw append-nil refl
hash_writes-buffer (set_header k v ∷ cs) s = hash_writes-buffer cs s
hash_writes-buffer (write_header code ∷ cs) s = hash_writes-buffer cs (record s { status = code })
hash_writes-buffer (write b ∷ cs) s =
    hash_writes-buffer cs (record s { body = s.body ++ b }) ∙ rw append_assoc refl

-- what has gone through before `finalize` is header calls: nothing is sent yet
hash_writes-unsent :
    (cs : List Call) (s : HashWriter) (rest : List Call) (h : Dict.Dict String)
    → (h' : Dict.Dict String) × (respond_all
          ((hash_writes cs s).0 ++ rest)
          (record { status = none; headers = h; sent = []; body = [] })
        ≡ respond_all rest (record { status = none; headers = h'; sent = []; body = [] }))
unfolding hash_writes respond_all
hash_writes-unsent [] s rest h = (h, refl)
hash_writes-unsent (set_header k v ∷ cs) s rest h = hash_writes-unsent cs s rest (Dict.insert k v h)
hash_writes-unsent (write_header code ∷ cs) s rest h =
    hash_writes-unsent cs (record s { status = code }) rest h
hash_writes-unsent (write b ∷ cs) s rest h =
    hash_writes-unsent cs (record s { body = s.body ++ b }) rest h

module _ (hmac : Bytes → Bytes → Bytes) (key : String) where
  -- the reply that the client should get
  abbrev pub IsSigned : ℕ → Bytes → Response → Type 0
  IsSigned status body r =
      (r.status ≡ some status)
      × (r.body ≡ body)
      × (body ≢ [] → Dict.lookup "Hashsha256" r.sent ≡ some (compute hmac body key))

  finalize-IsSigned :
      (status : ℕ) (body : Bytes) (h : Dict.Dict String)
      → IsSigned status body (
          respond_all
            (finalize hmac key (record { status = status; body = body }))
            (record { status = none; headers = h; sent = []; body = [] }))
  unfolding finalize respond_all
  finalize-IsSigned status [] h = (refl, refl, λ n. absurd (n refl))
  finalize-IsSigned status (b ∷ bs) h = (refl, refl, λ n. rw Dict.lookup-insert refl)

  -- Through the signing writer a client gets all the bytes that the handler wrote, under the last
  -- status that it wrote (200 if none), and, unless that body is empty, with the signature of exactly
  -- that body in the header.
  pub signed-IsSigned :
      (calls : List Call)
      → IsSigned (last_status 200 calls) (written calls) (respond_all (signed hmac key calls) empty)
  unfolding signed
  signed-IsSigned calls =
      let s : HashWriter = record { status = 200; body = [] } in
      let (h, e) = hash_writes-unsent calls s (finalize hmac key (hash_writes calls s).1) [] in
      let status = last_status 200 calls in
      let body = written calls in
      subst (IsSigned status body) (sym e) (
        subst
          (λ b. IsSigned status body (
            respond_all (finalize hmac key b)
              (record { status = none; headers = h; sent = []; body = [] })))
          (sym (hash_writes-buffer calls s)) (finalize-IsSigned status body h))

  -- With a key, a request whose body can be read reaches the next handler exactly if it carries no
  -- signature or the right one; then the reply is signed. Else the answer is 400, and the world is as
  -- it was.
  pub hash_middleware-gate :
      {W : Type 0} (next : HttpHandler W) (r : Request) (body : Bytes) (w : W)
      → key ≢ ""
      → read_limited_body r ≡ read_bytes body
      → let incoming = header "Hashsha256" r.headers in
        let (w', calls) = next (with_content r body) w in
        (((incoming ≡ "") ⊎ (incoming ≡ compute hmac body key))
          × (hash_middleware hmac key next r w ≡ (w', signed hmac key calls)))
        ⊎ ((incoming ≢ "")
            × (incoming ≢ compute hmac body key)
            × (hash_middleware hmac key next r w ≡ (w, error_reply "invalid hash" 400)))
  unfolding hash_middleware
  hash_middleware-gate next r body w k e = rw (ne→eq_false key "" k) (
      rw e (elim (Bool-cases (incoming == "")) [
        | inl absent ↦ inl (inl ((eq_iff incoming "").0 absent), rw absent refl)
        | inr given ↦ elim (Bool-cases (incoming == expected)) [
          | inl same ↦ inl (inr ((eq_iff incoming expected).0 same), rw (given, same) refl)
          | inr other ↦ inr (
            (λ p. cc (given, (eq_iff incoming "").1 p)),
            (λ p. cc (other, (eq_iff incoming expected).1 p)),
            rw (given, other) refl,
          )
        ]
      ]))
    where
      incoming : String
      incoming = header "Hashsha256" r.headers

      expected : String
      expected = compute hmac body key
