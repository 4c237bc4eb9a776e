-- ===== src/Agent/Send/Reaches.antt =====
-- What a sent batch is when it has passed the middleware of the server.
use gometrics.Prelude.{
  ◌≤◌, String, Bool, true, false, Option, none, some, [], ◌∷◌, ◌==◌, ◌≡◌, ◌≢◌, refl, ap, ◌∙◌,
  Bool-cases, inl, inr, arith, eq_iff, eq_refl, Bytes, length, if◌then◌else◌,
}
use gometrics.Prelude.Dict
use gometrics.Prelude.Dict.{Dict}
use gometrics.Http.{Request, whole, header}
use gometrics.Hash.{compute}
use gometrics.Crypto
use gometrics.Crypto.{Primitives, Result, gcm_nonce_size}
use gometrics.Crypto.Trip.{IsPair}
use gometrics.Middleware.{
  HttpHandler, GzipLib, max_request_body, with_content, decrypt_middleware, gzip_middleware,
  logging_middleware, contains, plain_headers,
}
use gometrics.Middleware.Signature.{hash_middleware-gate}
use gometrics.Middleware.Passes.{IsGzip, read_whole, logging-passes, decrypt-passes, gzip-passes}
use gometrics.Router.{router}
use gometrics.Agent.Send.{Payload, body_of, new_request, payload_headers}

-- the headers of a request, by whether the agent has no key
sent_headers : Bool → String → String → Dict String
sent_headers true sum encoding = payload_headers encoding
sent_headers false sum encoding = Dict.insert "Hashsha256" sum (payload_headers encoding)

sent_type :
    (b : Bool) (sum encoding : String)
    → header "Content-Type" (sent_headers b sum encoding) ≡ "application/json"
unfolding sent_headers header Dict.insert Dict.lookup
sent_type true sum encoding = refl
sent_type false sum encoding = refl

sent_plain :
    (b : Bool) (sum : String)
    → contains (header "Content-Encoding" (sent_headers b sum "Content-Encoding")) "gzip" ≡ true
unfolding sent_headers header contains Dict.insert Dict.lookup
sent_plain true sum = refl
sent_plain false sum = refl

header-insert : (k v : String) (m : Dict String) → header k (Dict.insert k v m) ≡ v
unfolding header
header-insert k v m =
    ap (λ o. elim o [ none ↦ "" | some x ↦ x ])
      (Dict.lookup-insert k k v m ∙ ap (λ b. if b then some v else Dict.lookup k m) (eq_refl k))

sent_signed : (sum encoding : String) → header "Hashsha256" (sent_headers false sum encoding) ≡ sum
unfolding sent_headers
sent_signed sum encoding = header-insert "Hashsha256" sum (payload_headers encoding)

module _ {Public Private : Type 0} (p : Primitives Public Private) where
  sent_sealed :
      (b : Bool) (sum : String)
      → contains
          (header "Content-Encoding" (plain_headers p (sent_headers b sum "X-Payload-Encoding")))
          "gzip"
        ≡ true
  unfolding sent_headers plain_headers header contains Dict.insert Dict.lookup Dict.erase
  sent_sealed true sum = refl
  sent_sealed false sum = refl

  sealed_type :
      (b : Bool) (sum : String)
      → header "Content-Type" (plain_headers p (sent_headers b sum "X-Payload-Encoding"))
        ≡ "application/json"
  unfolding sent_headers plain_headers header Dict.insert Dict.lookup Dict.erase
  sealed_type true sum = refl
  sealed_type false sum = refl

  -- the agent and the server have no keys, or the two of a pair
  abbrev pub IsMatch : Option Public → Option Private → Type 0
  IsMatch none none = Unit
  IsMatch (some k) (some s) = IsPair p k s
  IsMatch _ _ = ⊥

body_full : (c : Bytes) → c ≢ [] → body_of c ≡ some (whole c)
unfolding body_of
body_full [] n = absurd (n refl)
body_full (b ∷ bs) n = refl

request_full :
    (hmac : Bytes → Bytes → Bytes) (key : String) (payload : Payload)
    → payload.content ≢ []
    → new_request hmac key payload ≡ with_content (new_request hmac key payload) payload.content
unfolding new_request
request_full hmac key payload n =
    ap (λ o. record (new_request hmac key payload) { body = o }) (body_full payload.content n)

request_headers :
    (hmac : Bytes → Bytes → Bytes) (key encoding : String) (c : Bytes)
    → (new_request hmac key (record { content = c; headers = payload_headers encoding })).headers
      ≡ sent_headers (key == "") (compute hmac c key) encoding
unfolding new_request sent_headers
request_headers hmac key encoding c = ground arith

module _ {Public Private W : Type 0} (p : Primitives Public Private) (lib : GzipLib)
    (law : IsGzip lib) (hmac : Bytes → Bytes → Bytes) (key : String) (next : HttpHandler W) where
  -- the world after the middleware is that after `next` on a request with this body
  abbrev pub Reaches : Bytes → Request → W → W → Type 0
  Reaches body original w w' =
      (r : Request) × (r.method ≡ original.method)
      × (r.body ≡ some (whole body))
      × (header "Content-Type" r.headers ≡ "application/json")
      × (w' ≡ (next r w).0)

  unpacked-Reaches :
      (r : Request) (body : Bytes) (w : W)
      → r.body ≡ some (whole (lib.gzip body))
      → contains (header "Content-Encoding" r.headers) "gzip" ≡ true
      → header "Content-Type" r.headers ≡ "application/json"
      → length body ≤ max_request_body
      → Reaches body r w (gzip_middleware lib (logging_middleware next) r w).0
  unpacked-Reaches r body w e enc typed fits = (
    with_content (with_content r body) body,
    refl,
    refl,
    typed,
    gzip-passes (logging_middleware next) r body w lib law e enc fits
        ∙ ap (λ t. t.0) (logging-passes next (with_content r body) body w refl fits),
  )

  inner : Option Private → HttpHandler W
  inner priv = decrypt_middleware p priv (gzip_middleware lib (logging_middleware next))

  -- the signature passes, if there is a key
  signature_passes :
      (priv : Option Private) (encoding : String) (c : Bytes) (w : W)
      → c ≢ []
      → length c ≤ max_request_body
      → let r = new_request hmac key (record { content = c; headers = payload_headers encoding }) in
        (router p lib hmac key priv next r w).0 ≡ (inner priv (with_content r c) w).0
  unfolding router inner
  signature_passes priv encoding c w full fits = elim (Bool-cases (key == "")) [
    | inl e ↦ rw e (ap (λ x. (inner priv x w).0) (request_full hmac key payload full))
    | inr e ↦
        rw e
          (elim (hash_middleware-gate hmac key (inner priv) r c w (λ k. cc (e, (eq_iff key "").1 k))
            (read_whole r c readable fits)) [
              | inl (_, q) ↦ ap (λ t. t.0) q
              | inr (_, wrong, q) ↦ absurd (wrong (right e))
            ])
  ]
    where
      payload : Payload
      payload = record { content = c; headers = payload_headers encoding }

      r : Request
      r = new_request hmac key payload

      readable : r.body ≡ some (whole c)
      readable = ap (λ x. x.body) (request_full hmac key payload full)

      right : (key == "") ≡ false → header "Hashsha256" r.headers ≡ compute hmac c key
      right e =
          ap (header "Hashsha256") (request_headers hmac key encoding c)
          ∙ (ap (λ b. header "Hashsha256" (sent_headers b (compute hmac c key) encoding)) e
              ∙ sent_signed (compute hmac c key) encoding)

  pub plain-Reaches :
      (body : Bytes) (w : W)
      → length (lib.gzip body) ≤ max_request_body
      → length body ≤ max_request_body
      → let r =
          new_request hmac key
            (record { content = lib.gzip body; headers = payload_headers "Content-Encoding" }) in
        Reaches body r w (router p lib hmac key none next r w).0
  unfolding inner decrypt_middleware
  plain-Reaches body w sent fits =
      let c = lib.gzip body in
      let r =
        new_request hmac key
          (record { content = c; headers = payload_headers "Content-Encoding" }) in
      let h = request_headers hmac key "Content-Encoding" c in
      let sum = compute hmac c key in
      let (r', m, b, t, e) =
        unpacked-Reaches (with_content r c) body w refl
          (ap (λ x. contains (header "Content-Encoding" x) "gzip") h ∙ sent_plain (key == "") sum)
          (ap (header "Content-Type") h ∙ sent_type (key == "") sum "Content-Encoding") fits in
      (r', m, b, t, signature_passes none "Content-Encoding" c w (law.not_empty body) sent ∙ e)

  pub sealed-Reaches :
      (priv : Private) (env body : Bytes) (w : W)
      → env ≢ []
      → length env ≤ max_request_body
      → length body ≤ max_request_body
      → Crypto.decrypt p (some priv) env ≡ some (Crypto.ok (lib.gzip body))
      → let r =
          new_request hmac key
            (record { content = env; headers = payload_headers "X-Payload-Encoding" }) in
        Reaches body r w (router p lib hmac key (some priv) next r w).0
  unfolding inner
  sealed-Reaches priv env body w full sent fits opens =
      let r =
        new_request hmac key
          (record { content = env; headers = payload_headers "X-Payload-Encoding" }) in
      let h = request_headers hmac key "X-Payload-Encoding" env in
      let sum = compute hmac env key in
      let plain = record r {
        headers = plain_headers p r.headers;
        body = some (whole (lib.gzip body));
      } in
      let (r', m, b, t, e) =
        unpacked-Reaches plain body w refl
          (ap (λ x. contains (header "Content-Encoding" (plain_headers p x)) "gzip") h
            ∙ sent_sealed p (key == "") sum)
          (ap (λ x. header "Content-Type" (plain_headers p x)) h ∙ sealed_type p (key == "") sum)
          fits in
      (
        r',
        m,
        b,
        t,
        signature_passes (some priv) "X-Payload-Encoding" env w full sent
            ∙ (ap (λ t. t.0)
                  (decrypt-passes (gzip_middleware lib (logging_middleware next))
                    (with_content r env) env w p priv (lib.gzip body) full refl sent opens)
                ∙ e),
      )
