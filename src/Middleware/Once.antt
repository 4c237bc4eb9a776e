-- ===== src/Middleware/Once.antt =====
-- The middleware runs the handler behind it once or not at all, on the request with its body read,
-- unpacked or decrypted.
use gometrics.Prelude.{
  String, Bool, true, false, Option, none, some, List, [], ◌∷◌, ◌==◌, ◌≡◌, refl, Bytes, get_or,
  if◌then◌else◌,
}
use gometrics.Http.{whole, Request, Body, Call, header}
use gometrics.Crypto
use gometrics.Crypto.{Primitives, Result}
use gometrics.Middleware.{
  HttpHandler, GzipLib, Read, read_bytes, too_large, read_error, with_body, with_content,
  read_limited_body, logging_middleware, hash_middleware, check_signature, gzip_middleware, unpack,
  unpack_by, decrypt_middleware, decrypt_by, on_bytes, decrypted, limited, contains, plain_headers,
}

-- What one middleware hands on of a request, where that is not the request as it is: with the body that
-- was read, with the unpacked or the decrypted body, or without a body where it is empty.
pub data Step {Public Private : Type 0} (p : Primitives Public Private) (lib : GzipLib)
    (priv : Option Private) : Request → Request → Type 0 where
  body_read :
      (r : Request) (b : Bytes)
      → read_limited_body r ≡ read_bytes b
      → Step p lib priv r (with_content r b)
  unpacked :
      (r : Request)
      → contains (header "Content-Encoding" r.headers) "gzip" ≡ true
      → lib.open_reader (get_or r.body (whole [])) ≡ none
      → Step p lib priv r
          (record r { body = some (limited (lib.gunzip (get_or r.body (whole [])))) })
  opened :
      (r : Request) (k : Private) (b plain : Bytes)
      → priv ≡ some k
      → read_limited_body r ≡ read_bytes b
      → Crypto.decrypt p (some k) b ≡ some (Crypto.ok plain)
      → Step p lib priv r
          (record r { headers = plain_headers p r.headers; body = some (whole plain) })
  emptied :
      (r : Request)
      → read_limited_body r ≡ read_bytes []
      → Step p lib priv r (record r { body = none })

pub Step-method :
    {Public Private : Type 0} {p : Primitives Public Private} {lib : GzipLib}
    {priv : Option Private} {r r' : Request}
    → Step p lib priv r r'
    → r'.method ≡ r.method
Step-method (body_read r b e) = refl
Step-method (unpacked r c e) = refl
Step-method (opened r k b plain key e d) = refl
Step-method (emptied r e) = refl

-- The second request is the first one after such steps.
pub data Handed {Public Private : Type 0} (p : Primitives Public Private) (lib : GzipLib)
    (priv : Option Private) : Request → Request → Type 0 where
  as_it_is : (r : Request) → Handed p lib priv r r
  after :
      (r r' r'' : Request)
      → Step p lib priv r r'
      → Handed p lib priv r' r''
      → Handed p lib priv r r''

-- A relation between the worlds before and after a request, in which nothing that is done is allowed,
-- and which holds of a request if it holds of what is handed on of it.
module _ {Public Private W : Type 0} (p : Primitives Public Private) (lib : GzipLib)
    (priv : Option Private) (R : Request → W → W → Type 0) (stays : (r : Request) (w : W) → R r w w)
    (before : (r r' : Request) (w w' : W) → Step p lib priv r r' → R r' w w' → R r w w') where
  abbrev pub Holds : HttpHandler W → Type 0
  Holds next = (r : Request) (w : W) → R r w (next r w).0

  either :
      (r : Request) (w : W) (b : Bool) (x y : W × List Call)
      → (b ≡ true → R r w x.0)
      → (b ≡ false → R r w y.0)
      → R r w (if b then x else y).0
  either r w true x y p q = p refl
  either r w false x y p q = q refl

  with_body-Holds :
      (x : Read) (r : Request) (w : W) (next : Bytes → W × List Call)
      → ((b : Bytes) → x ≡ read_bytes b → R r w (next b).0)
      → R r w (with_body x next w).0
  with_body-Holds (read_bytes b) r w next h = h b refl
  with_body-Holds too_large r w next h = stays r w
  with_body-Holds (read_error e) r w next h = stays r w

  -- the next handler on the body that was read
  next-read :
      (next : HttpHandler W) (r : Request) (w : W) (b : Bytes)
      → Holds next
      → read_limited_body r ≡ read_bytes b
      → R r w (next (with_content r b) w).0
  next-read next r w b h e = before r _ w _ (body_read r b e) (h (with_content r b) w)

  pub logging_middleware-Holds :
      (next : HttpHandler W) → Holds next → Holds (logging_middleware next)
  unfolding logging_middleware
  logging_middleware-Holds next h r w = go r.body
    where
      go :
          (o : Option Body)
          → R r w
              (elim o as (λ x. W × List Call) [
                | none ↦ next r w
                | some b ↦ with_body (read_limited_body r) (λ b. next (with_content r b) w) w
              ]).0
      go none = h r w
      go (some b) = with_body-Holds (read_limited_body r) r w _ (λ b e. next-read next r w b h e)

  pub hash_middleware-Holds :
      (hmac : Bytes → Bytes → Bytes) (key : String) (next : HttpHandler W)
      → Holds next
      → Holds (hash_middleware hmac key next)
  unfolding hash_middleware check_signature
  hash_middleware-Holds hmac key next h r w =
      either r w (key == "") _ _ (λ _. h r w)
        (λ _.
          with_body-Holds (read_limited_body r) r w _
            (λ b e. either r w _ _ _ (λ _. stays r w) (λ _. next-read next r w b h e)))

  pub gzip_middleware-Holds : (next : HttpHandler W) → Holds next → Holds (gzip_middleware lib next)
  unfolding gzip_middleware unpack
  gzip_middleware-Holds next h r w =
      either r w _ _ _ (λ c. go c (lib.open_reader (get_or r.body (whole []))) refl) (λ _. h r w)
    where
      go :
          contains (header "Content-Encoding" r.headers) "gzip" ≡ true
          → (o : Option String) → lib.open_reader (get_or r.body (whole [])) ≡ o
          → R r w (unpack_by lib o (get_or r.body (whole [])) next r w).0
      go c none e = before r _ w _ (unpacked r c e) (h _ w)
      go c (some x) e = stays r w

  decrypted-Holds :
      (k : Private) (b : Bytes) (o : Option Result) (next : HttpHandler W) (r : Request) (w : W)
      → Holds next
      → priv ≡ some k
      → read_limited_body r ≡ read_bytes b
      → Crypto.decrypt p (some k) b ≡ o
      → R r w (decrypted p o next r w).0
  unfolding decrypted
  decrypted-Holds k b (some (Crypto.ok plain)) next r w h key e d =
      before r _ w _ (opened r k b plain key e d) (h _ w)
  decrypted-Holds k b (some Crypto.not_envelope) next r w h key e d = stays r w
  decrypted-Holds k b (some (Crypto.failed x)) next r w h key e d = stays r w
  decrypted-Holds k b none next r w h key e d = stays r w

  on_bytes-Holds :
      (k : Private) (next : HttpHandler W) (b : Bytes) (r : Request) (w : W)
      → Holds next
      → priv ≡ some k
      → read_limited_body r ≡ read_bytes b
      → R r w (on_bytes p k next r w b).0
  unfolding on_bytes
  on_bytes-Holds k next [] r w h key e = before r _ w _ (emptied r e) (h _ w)
  on_bytes-Holds k next (b ∷ bs) r w h key e =
      decrypted-Holds k (b ∷ bs) (Crypto.decrypt p (some k) (b ∷ bs)) next r w h key e refl

  decrypt_by-Holds :
      (o : Option Private) (body : Option Body) (next : HttpHandler W)
      → Holds next
      → priv ≡ o
      → Holds (decrypt_by p o body next)
  unfolding decrypt_by
  decrypt_by-Holds none body next h key r w = h r w
  decrypt_by-Holds (some k) none next h key r w = h r w
  decrypt_by-Holds (some k) (some b) next h key r w =
      with_body-Holds (read_limited_body r) r w _ (λ c e. on_bytes-Holds k next c r w h key e)

  pub decrypt_middleware-Holds :
      (next : HttpHandler W) → Holds next → Holds (decrypt_middleware p priv next)
  unfolding decrypt_middleware
  decrypt_middleware-Holds next h r w = decrypt_by-Holds priv r.body next h refl r w
