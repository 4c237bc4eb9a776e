-- ===== src/Http.antt =====
-- What the handlers and middleware use of `net/http`: requests, and responses as the calls that are
-- made on a `ResponseWriter`.
use gometrics.Prelude.{ℕ, String, Option, none, some, List, [], ◌∷◌, ◌++◌, Bytes, bytes}
use gometrics.Prelude.Dict
use gometrics.Prelude.Dict.{Dict}

-- how the reading of a stream fails: by the `http.MaxBytesError` of `http.MaxBytesReader`, or not
pub data ReadError : Type 0 where
  max_bytes : ReadError
  other_error : String → ReadError

-- A body stream: its bytes, and the error that ends it, if it does not end by EOF.
pub record Body : Type 0 where
  pub content : Bytes
  pub broken : Option ReadError

abbrev pub whole : Bytes → Body
whole b = record { content = b; broken = none }

-- Header names are in canonical form; `none` as the body is nil or `http.NoBody`. The last three are
-- the URL parameters of chi.
pub record Request : Type 0 where
  pub method : String
  pub headers : Dict String
  pub body : Option Body
  pub remote_addr : String
  pub url_type : String
  pub url_name : String
  pub url_value : String

-- `Header.Get`: a header that is not there reads as the empty text
unfoldable pub header : String → Dict String → String
header k h = elim (Dict.lookup k h) [ none ↦ "" | some v ↦ v ]

-- a call on a `ResponseWriter`; `set_header` is `w.Header().Set`
pub data Call : Type 0 where
  set_header : String → String → Call
  write_header : ℕ → Call
  write : Bytes → Call

-- the server's `ResponseWriter`: what went out, and the header map
pub record Response : Type 0 where
  pub status : Option ℕ
  pub headers : Dict String
  pub sent : Dict String
  pub body : Bytes

abbrev pub empty : Response
empty = record { status = none; headers = []; sent = []; body = [] }

-- the first status that is written goes out with the headers of that moment; later ones are ignored
send_status : Option ℕ → ℕ → Response → Response
send_status none code r = record r { status = some code; sent = r.headers }
send_status (some _) code r = r

unfoldable pub respond : Call → Response → Response
unfolding send_status
respond (set_header k v) r = record r { headers = Dict.insert k v r.headers }
respond (write_header code) r = send_status r.status code r
respond (write b) r = let r' = send_status r.status 200 r in record r' { body = r'.body ++ b }

unfoldable pub respond_all : List Call → Response → Response
unfolding respond
respond_all [] r = r
respond_all (c ∷ cs) r = respond_all cs (respond c r)

-- `http.Error`; `Fprintln` ends the text with a line feed
abbrev pub error_reply : String → ℕ → List Call
error_reply msg code =
    set_header "Content-Type" "text/plain; charset=utf-8"
    ∷ set_header "X-Content-Type-Options" "nosniff"
    ∷ write_header code
    ∷ write (bytes msg ++ 10 ∷ [])
    ∷ []

abbrev pub code_of : List Call → Option ℕ
code_of calls = (respond_all calls empty).status
