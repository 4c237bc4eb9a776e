-- ===== src/Agent/Send.antt =====
-- internal/agent/agent.go and retry.go: a batch becomes a request, is sent, and the answer is judged.
-- `json.Marshal`, the HTTP client, gzip and the ciphers are parameters; a failed marshalling or
-- encryption, after which nothing is sent, is `none`.
pub mod Answers
pub mod Reaches
pub mod EndToEnd
pub mod Repeats
use Prim.Native.String.{◌++◌ as str_append}
use gometrics.Prelude.{
  ℕ, String, Bool, true, false, Option, none, some, List, [], ◌∷◌, ◌||◌, ◌==◌, leb, ltb,
  if◌then◌else◌, Bytes,
}
use gometrics.Prelude.Dict
use gometrics.Prelude.Dict.{Dict}
use gometrics.Models.{Metrics}
use gometrics.Http.{Request, Body, whole}
use gometrics.Hash.{compute}
use gometrics.Crypto
use gometrics.Crypto.{Primitives, Result}
use gometrics.Middleware.{GzipLib}
use gometrics.Retry.{Context, Run, Outcome, intervals, do_context}

-- What the checks of `isRetriableHTTPError` say of an error of the client: the `Timeout` of the first
-- `net.Error` in its chain, a `net.OpError` in it, one of the three error numbers.
pub record NetError : Type 0 where
  pub timeout : Bool
  pub op_error : Bool
  pub errno : Bool

-- the errors of one attempt
pub data SendError : Type 0 where
  bad_url : SendError
  network : NetError → SendError
  retriable_status : ℕ → SendError
  rejected : ℕ → SendError

-- the answer of `client.Do`: an error or a status
pub data Answer : Type 0 where
  no_answer : NetError → Answer
  answered : ℕ → Answer

-- `http.NewRequest` accepts the URL; `client.Do`
pub record Client (S : Type 0) : Type 0 where
  pub accepts_url : String → Bool
  pub do_request : String → Request → S → Answer × S

unfoldable pub is_retriable_http_error : SendError → Bool
is_retriable_http_error (network e) = e.timeout || (e.op_error || e.errno)
is_retriable_http_error _ = false

abbrev pub is_retriable_status : ℕ → Bool
is_retriable_status status = leb 500 status

unfoldable pub check_response : ℕ → Option SendError
check_response status =
    if is_retriable_status status
    then some (retriable_status status)
    else if ltb status 200 || leb 300 status
    then some (rejected status)
    else none

-- `preparePayload` returns a body and the headers that describe it
pub record Payload : Type 0 where
  pub content : Bytes
  pub headers : Dict String

-- a request's empty body is `http.NoBody`
unfoldable pub body_of : Bytes → Option Body
body_of [] = none
body_of (b ∷ bs) = some (whole (b ∷ bs))

-- `newRequest`, for a URL that parses
unfoldable pub new_request : (Bytes → Bytes → Bytes) → String → Payload → Request
unfolding body_of
new_request hmac key payload = record {
  method = "POST";
  headers =
      if key == ""
      then payload.headers
      else Dict.insert "Hashsha256" (compute hmac payload.content key) payload.headers;
  body = body_of payload.content;
  remote_addr = "";
  url_type = "";
  url_name = "";
  url_value = "";
}

abbrev pub payload_headers : String → Dict String
payload_headers encoding_name =
    ("Content-Type", "application/json")
    ∷ ("Accept-Encoding", "gzip")
    ∷ (encoding_name, "gzip")
    ∷ []

abbrev pub envelope_bytes : Result → Option Bytes
envelope_bytes (Crypto.ok b) = some b
envelope_bytes _ = none

module _ {Public Private : Type 0} (p : Primitives Public Private) (lib : GzipLib) where
  -- `encryptPayload`, by the session key and the nonce that `rand.Read` gives
  unfoldable pub encrypt_payload : Bytes → Bytes → Option Public → Bytes → Option Bytes
  encrypt_payload cek nonce none payload = some payload
  encrypt_payload cek nonce (some pub_key) payload =
      envelope_bytes (Crypto.encrypt p cek nonce (some pub_key) payload)

  abbrev pub encoding_header : Option Public → String
  encoding_header none = "Content-Encoding"
  encoding_header (some pub_key) = "X-Payload-Encoding"

  -- `compressGzip`, which does not fail on a buffer, then the encryption
  unfoldable pub prepare_payload : Bytes → Bytes → Option Public → Bytes → Option Payload
  unfolding encrypt_payload
  prepare_payload cek nonce pub_key body =
      elim (encrypt_payload cek nonce pub_key (lib.gzip body)) [
        | none ↦ none
        | some b ↦
            some (record { content = b; headers = payload_headers (encoding_header pub_key) })
      ]

module _ {S : Type 0} (client : Client S) (hmac : Bytes → Bytes → Bytes) (key : String) where
  judge : Answer × S → Option SendError × S
  judge (no_answer e, s) = (some (network e), s)
  judge (answered status, s) = (check_response status, s)

  -- the closure `sendOnce`
  unfoldable pub send_once : String → Payload → S → Option SendError × S
  unfolding judge
  send_once url payload s =
      if client.accepts_url url
      then judge (client.do_request url (new_request hmac key payload) s)
      else (some bad_url, s)

  unfoldable pub send_payload : Context → String → Payload → S → Run SendError S
  unfolding send_once
  send_payload ctx url payload s =
      do_context ctx (send_once url payload) is_retriable_http_error intervals s

  -- `sendMetricsBatch`, to the server at `addr`; `none`: nothing could be sent
  unfoldable pub send_metrics_batch :
      {Public Private : Type 0}
      → Primitives Public Private
      → GzipLib
      → (List Metrics → Option Bytes)
      → Bytes
      → Bytes
      → Option Public
      → Context
      → String
      → List Metrics
      → S
      → Option (Run SendError S)
  unfolding send_payload
  send_metrics_batch p lib marshal cek nonce pub_key ctx addr metrics s = elim (marshal metrics) [
    | none ↦ none
    | some body ↦ elim (prepare_payload p lib cek nonce pub_key body) [
      | none ↦ none
      | some payload ↦ some (send_payload ctx (str_append addr "/updates/") payload s)
    ]
  ]
