-- ===== src/Agent/Send/EndToEnd.antt =====
-- From the body that the agent marshals to the body that the server's handler reads.
use mathlib.Core.Option.{none-ne-some, some-injective}
use gometrics.Prelude.{◌≤◌, String, Option, none, some, [], ◌≡◌, ◌≢◌, refl, subst, Bytes, length}
use gometrics.Crypto
use gometrics.Crypto.{Primitives, Result, gcm_nonce_size, not_envelope}
use gometrics.Crypto.Trip.{IsPair, decrypt-encrypt}
use gometrics.Middleware.{HttpHandler, GzipLib, max_request_body}
use gometrics.Middleware.Passes.{IsGzip}
use gometrics.Router.{router}
use gometrics.Agent.Send.{
  Payload, new_request, payload_headers, encrypt_payload, prepare_payload, envelope_bytes,
}
use gometrics.Agent.Send.Reaches.{IsMatch, Reaches, plain-Reaches, sealed-Reaches}

module _ {Public Private W : Type 0} (p : Primitives Public Private) (lib : GzipLib)
    (law : IsGzip lib) (hmac : Bytes → Bytes → Bytes) (key : String) (next : HttpHandler W) where
  not_nil :
      (priv : Private) (text env : Bytes)
      → Crypto.decrypt p (some priv) env ≡ some (Crypto.ok text)
      → env ≢ []
  unfolding Crypto.decrypt Crypto.is_envelope
  not_nil priv text env d e =
      absurd (cc (subst (λ x. Crypto.decrypt p (some priv) x ≡ some (Crypto.ok text)) e d))

  opened_envelope : (r : Result) (b : Bytes) → envelope_bytes r ≡ some b → r ≡ Crypto.ok b
  opened_envelope (Crypto.ok x) b e = cc
  opened_envelope Crypto.not_envelope b e = cc
  opened_envelope (Crypto.failed m) b e = cc

  Arrives : Bytes → Option Private → W → Payload → Type 0
  Arrives body priv w payload =
      length payload.content ≤ max_request_body
      → length body ≤ max_request_body
      → Reaches p lib law hmac key next body (new_request hmac key payload) w
          (router p lib hmac key priv next (new_request hmac key payload) w).0

  sealed-Arrives :
      (cek nonce body : Bytes) (k : Public) (s : Private) (payload : Payload) (w : W)
      (o : Option Bytes)
      → IsPair p k s
      → length nonce ≡ gcm_nonce_size
      → envelope_bytes (Crypto.encrypt p cek nonce (some k) (lib.gzip body)) ≡ o
      → elim o [
        | none ↦ none
        | some b ↦ some (record { content = b; headers = payload_headers "X-Payload-Encoding" })
      ]
        ≡ some payload
      → Arrives body (some s) w payload
  unfolding Arrives
  sealed-Arrives cek nonce body k s payload w none pair twelve e q = absurd (none-ne-some payload q)
  sealed-Arrives cek nonce body k s payload w (some env) pair twelve e q =
      subst (Arrives body (some s) w) (some-injective _ _ q) (λ sent fits.
        sealed-Reaches p lib law hmac key next s env body w (not_nil s _ env opens) sent fits opens)
    where
      opens : Crypto.decrypt p (some s) env ≡ some (Crypto.ok (lib.gzip body))
      opens =
          decrypt-encrypt p k s pair cek nonce (lib.gzip body) env twelve (opened_envelope _ env e)

  -- Between an agent and a server with the same signing key, and with no encryption on either side or
  -- the two keys of a pair: a payload that the agent prepares from a body passes the server's
  -- signature check, decryption and decompression, if neither it nor the body is longer than the
  -- server's limit, and what the next handler is given is a POST request of the JSON type with exactly
  -- that body.
  pub router-prepare_payload :
      (cek nonce body : Bytes) (pub_key : Option Public) (priv : Option Private) (payload : Payload)
      (w : W)
      → IsMatch p pub_key priv
      → length nonce ≡ gcm_nonce_size
      → prepare_payload p lib cek nonce pub_key body ≡ some payload
      → length payload.content ≤ max_request_body
      → length body ≤ max_request_body
      → let r = new_request hmac key payload in
        Reaches p lib law hmac key next body r w (router p lib hmac key priv next r w).0
  unfolding prepare_payload encrypt_payload Arrives
  router-prepare_payload cek nonce body none none payload w match twelve e sent fits =
      subst (Arrives body none w) (some-injective _ _ e)
        (plain-Reaches p lib law hmac key next body w) sent fits
  router-prepare_payload cek nonce body (some k) (some s) payload w match twelve e sent fits =
      sealed-Arrives cek nonce body k s payload w _ match twelve refl e sent fits
  router-prepare_payload cek nonce body none (some s) payload w match twelve e sent fits =
      absurd match
  router-prepare_payload cek nonce body (some k) none payload w match twelve e sent fits =
      absurd match
