-- ===== src/Middleware.antt =====
-- internal/handler/handler.go: the middleware. Each takes the next handler to a handler; what it does
-- to the response is a translation of the calls that the next handler makes.

pub mod Once
pub mod Reader
pub mod Signature
pub mod Passes
pub mod Gzip
pub mod Limit
use text.Mathlib.Text.{find?}
use gometrics.Prelude.{
  ℕ, ◌+◌, ◌*◌, ◌^◌, String, Bool, true, false, Option, none, some, get_or, List, [], ◌∷◌, ◌++◌,
  ◌&&◌, ◌||◌, ◌==◌, ltb, not, if◌then◌else◌, Bytes, bytes, length, take,
}
use gometrics.Prelude.Dict
use gometrics.Prelude.Dict.{Dict}
use gometrics.Http.{
  Body, max_bytes, other_error, Request, Call, set_header, write_header, write, header, error_reply,
  whole,
}
use gometrics.Hash.{compute}
use gometrics.Crypto
use gometrics.Crypto.{Primitives}

-- a handler over the world `W`
abbrev pub HttpHandler : Type 0 → Type 0
HttpHandler W = Request → W → W × List Call

abbrev pub max_request_body : ℕ
max_request_body = 10 * 2 ^ 20

-- what `readLimitedBody` returns
pub data Read : Type 0 where
  read_bytes : Bytes → Read
  too_large : Read
  read_error : String → Read

-- A `MaxBytesError` inside the error of another reader, as that of gzip, is found by `errors.As` too.
read_stream : Body → Read
read_stream b = if ltb max_request_body (length b.content) then too_large else elim b.broken [
  | none ↦ read_bytes b.content
  | some max_bytes ↦ too_large
  | some (other_error e) ↦ read_error e
]

unfoldable pub read_limited_body : Request → Read
unfolding read_stream
read_limited_body r = read_stream (get_or r.body (whole []))

-- `http.MaxBytesReader`: the stream breaks off after the limit
unfoldable pub limited : Body → Body
limited b =
    if ltb max_request_body (length b.content)
    then record { content = take max_request_body b.content; broken = some max_bytes }
    else b

-- `writeBodyError`
abbrev pub too_large_reply : List Call
too_large_reply = error_reply "request body too large" 413

abbrev pub unreadable_reply : List Call
unreadable_reply = error_reply "failed to read body" 500

-- `readLimitedBody`, `writeBodyError` on an error, and the bytes on success
abbrev pub with_body : {W : Type 0} → Read → (Bytes → W × List Call) → W → W × List Call
with_body (read_bytes b) next w = next b
with_body too_large next w = (w, too_large_reply)
with_body (read_error e) next w = (w, unreadable_reply)

abbrev pub with_content : Request → Bytes → Request
with_content r b = record r { body = some (whole b) }

-- what `loggingResponseWriter` has recorded: `status` and `size`
pub record Log : Type 0 where
  pub status : ℕ
  pub size : ℕ

log_call : Call → Log → Log
log_call (set_header k v) l = l
log_call (write_header code) l = record l { status = code }
log_call (write b) l = record l { size = l.size + length b }

unfoldable pub logged : List Call → Log → Log
unfolding log_call
logged [] l = l
logged (c ∷ cs) l = logged cs (log_call c l)

module _ {W : Type 0} where
  -- `LoggingMiddleware`; the writer passes every call on
  unfoldable pub logging_middleware : HttpHandler W → HttpHandler W
  logging_middleware next r w = elim r.body [
    | none ↦ next r w
    | some b ↦ with_body (read_limited_body r) (λ b. next (with_content r b) w) w
  ]

-- the buffer of `hashResponseWriter`
pub record HashWriter : Type 0 where
  pub status : ℕ
  pub body : Bytes

-- Header calls go through at once; the status and the body wait for `finalize`.
unfoldable pub hash_write : Call → HashWriter → List Call × HashWriter
hash_write (set_header k v) s = (set_header k v ∷ [], s)
hash_write (write_header code) s = ([], record s { status = code })
hash_write (write b) s = ([], record s { body = s.body ++ b })

unfoldable pub hash_writes : List Call → HashWriter → List Call × HashWriter
unfolding hash_write
hash_writes [] s = ([], s)
hash_writes (c ∷ cs) s =
    let (out, s') = hash_write c s in let (rest, s'') = hash_writes cs s' in (out ++ rest, s'')

module _ (hmac : Bytes → Bytes → Bytes) (key : String) where
  finalize_with : ℕ → Bytes → List Call
  finalize_with status [] = write_header status ∷ []
  finalize_with status (b ∷ bs) =
      set_header "Hashsha256" (compute hmac (b ∷ bs) key)
      ∷ write_header status
      ∷ write (b ∷ bs)
      ∷ []

  -- `finalize`; the key is not empty where the writer is used
  unfoldable pub finalize : HashWriter → List Call
  unfolding finalize_with
  finalize s = finalize_with s.status s.body

  unfoldable pub signed : List Call → List Call
  unfolding hash_writes finalize
  signed calls =
      let (out, s) = hash_writes calls (record { status = 200; body = [] }) in out ++ finalize s

  -- the check of the incoming signature, on the body that was read
  check_signature : {W : Type 0} → HttpHandler W → Request → W → Bytes → W × List Call
  unfolding signed
  check_signature next r w body =
      let incoming = header "Hashsha256" r.headers in
      if not (incoming == "") && not (incoming == compute hmac body key)
      then (w, error_reply "invalid hash" 400)
      else let (w', calls) = next (with_content r body) w in (w', signed calls)

  unfoldable pub hash_middleware : {W : Type 0} → HttpHandler W → HttpHandler W
  unfolding check_signature
  hash_middleware next r w =
      if key == "" then next r w else with_body (read_limited_body r) (check_signature next r w) w

-- `encoding/gzip`: the whole stream of a writer, and a reader's stream, after the error of its header
pub record GzipLib : Type 0 where
  pub gzip : Bytes → Bytes
  pub open_reader : Body → Option String
  pub gunzip : Body → Body

-- `strings.Contains`
unfoldable pub contains : String → String → Bool
contains s t = elim (find? s t) [ none ↦ false | some i ↦ true ]

-- The state of the writers of `GzipMiddleware`: the header map, and what went into the gzip writer.
pub record GzipWriter : Type 0 where
  pub headers : Dict String
  pub packed : Bytes

abbrev is_error : Option String → Bool
is_error none = false
is_error (some e) = true

-- the types of content that are compressed
unfoldable pub is_packed_type : String → Bool
is_packed_type t = contains t "application/json" || contains t "text/html"

abbrev pub is_typed : Dict String → Bool
is_typed headers = is_packed_type (header "Content-Type" headers)

-- `contentTypeCheckWriter` over `compressWriter`; what it writes on the server's writer
unfoldable pub gzip_write : Bool → Call → GzipWriter → List Call × GzipWriter
gzip_write supports (set_header k v) s =
    (set_header k v ∷ [], record s { headers = Dict.insert k v s.headers })
gzip_write supports (write_header code) s =
    if is_typed s.headers
    then (set_header "Content-Encoding" "gzip" ∷ write_header code ∷ [], s)
    else (write_header code ∷ [], s)
gzip_write supports (write b) s =
    if is_typed s.headers
    then if supports
      then (set_header "Content-Encoding" "gzip" ∷ [], record s { packed = s.packed ++ b })
      else (set_header "Content-Encoding" "gzip" ∷ write b ∷ [], s)
    else (write b ∷ [], s)

unfoldable pub gzip_writes : Bool → List Call → GzipWriter → List Call × GzipWriter
unfolding gzip_write
gzip_writes supports [] s = ([], s)
gzip_writes supports (c ∷ cs) s =
    let (out, s') = gzip_write supports c s in
    let (rest, s'') = gzip_writes supports cs s' in (out ++ rest, s'')

module _ (lib : GzipLib) where
  -- The deferred `gz.Close()` writes the stream to the server's writer. A small body is written by it
  -- alone; a large one in part before, and by typed replies only, which write nothing else.
  unfoldable pub compressed : Bool → List Call → List Call
  unfolding gzip_writes
  compressed supports calls =
      let (out, s) = gzip_writes supports calls (record { headers = []; packed = [] }) in
      if supports then out ++ write (lib.gzip s.packed) ∷ [] else out

  accepts : Request → Bool
  accepts r = contains (header "Accept-Encoding" r.headers) "gzip"

  -- a body that says it is gzip is unpacked, and limited after that
  unpack_by : {W : Type 0} → Option String → Body → HttpHandler W → HttpHandler W
  unpack_by none b next r w = next (record r { body = some (limited (lib.gunzip b)) }) w
  unpack_by (some e) b next r w = (w, error_reply e 500)

  unpack : {W : Type 0} → HttpHandler W → HttpHandler W
  unfolding unpack_by
  unpack next r w =
      let b = get_or r.body (whole []) in
      if contains (header "Content-Encoding" r.headers) "gzip"
      then unpack_by (lib.open_reader b) b next r w
      else next r w

  failed_unpack : Request → Bool
  failed_unpack r =
      contains (header "Content-Encoding" r.headers) "gzip"
      && is_error (lib.open_reader (get_or r.body (whole [])))

  -- the error reply of a failed unpacking bypasses the writers, but not the deferred close
  unfoldable pub gzip_middleware : {W : Type 0} → HttpHandler W → HttpHandler W
  unfolding unpack accepts failed_unpack compressed
  gzip_middleware next r w =
      let (w', calls) = unpack next r w in
      let supports = accepts r in
      (
        w',
        if failed_unpack r
            then if supports then calls ++ write (lib.gzip []) ∷ [] else calls
            else compressed supports calls,
      )

module _ {Public Private : Type 0} (p : Primitives Public Private) where
  -- the headers after decryption: the encoding of the plaintext takes its standard name
  unfoldable pub plain_headers : Dict String → Dict String
  plain_headers headers =
      let enc = header "X-Payload-Encoding" headers in
      if enc == ""
      then headers
      else Dict.erase "X-Payload-Encoding" (Dict.insert "Content-Encoding" enc headers)

  -- by what `crypto.Decrypt` returns; a panic would be answered by `net/http`
  decrypted : {W : Type 0} → Option Crypto.Result → HttpHandler W → HttpHandler W
  unfolding plain_headers
  decrypted (some (Crypto.ok plain)) next r w =
      next (record r { headers = plain_headers r.headers; body = some (whole plain) }) w
  decrypted _ next r w = (w, error_reply "failed to decrypt body" 400)

  on_bytes : {W : Type 0} → Private → HttpHandler W → Request → W → Bytes → W × List Call
  unfolding decrypted
  on_bytes priv next r w [] = next (record r { body = none }) w
  on_bytes priv next r w (b ∷ bs) = decrypted (Crypto.decrypt p (some priv) (b ∷ bs)) next r w

  decrypt_by : {W : Type 0} → Option Private → Option Body → HttpHandler W → HttpHandler W
  unfolding on_bytes
  decrypt_by (some priv) (some b) next r w =
      with_body (read_limited_body r) (on_bytes priv next r w) w
  decrypt_by _ _ next r w = next r w

  unfoldable pub decrypt_middleware : {W : Type 0} → Option Private → HttpHandler W → HttpHandler W
  unfolding decrypt_by
  decrypt_middleware key next r w = decrypt_by key r.body next r w
