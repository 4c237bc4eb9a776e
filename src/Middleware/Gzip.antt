-- ===== src/Middleware/Gzip.antt =====
-- What a client gets through `GzipMiddleware`.
use gometrics.Prelude.{
  ℕ, ◌≡◌, refl, String, Bool, true, false, none, some, [], ◌∷◌, ◌++◌, Bytes, if◌then◌else◌,
  Bool-cases, inl, inr,
}
use gometrics.Prelude.Dict
use gometrics.Http.{Response, set_header, write_header, write, respond_all, empty, header}
use gometrics.Middleware.{GzipLib, is_packed_type, compressed}

abbrev pub Got : Response → ℕ → Bytes → Bool → Type 0
Got r code body labelled =
    (r.status ≡ some code)
    × (r.body ≡ body)
    × (Dict.lookup "Content-Encoding" r.sent ≡ (if labelled then some "gzip" else none))

-- A reply with a content type, a status and a body: it is labelled as gzip exactly if its type is JSON
-- or HTML, whether or not the client accepts gzip. If the client accepts it, a labelled body is packed,
-- and any other body is followed by the packing of no bytes; if not, every body is sent as it is.
pub compressed-reply :
    (lib : GzipLib) (supports : Bool) (t : String) (code : ℕ) (body : Bytes)
    → let r =
        respond_all
          (compressed lib supports
            (set_header "Content-Type" t ∷ write_header code ∷ write body ∷ []))
          empty in
      let packed = is_packed_type t in
      Got r code
        (if supports then (if packed then lib.gzip body else body ++ lib.gzip []) else body)
        packed
unfolding compressed respond_all header Dict.lookup Dict.insert
compressed-reply lib true t code body = elim (Bool-cases (is_packed_type t)) [
  | inl e ↦ rw e (rw e (refl, refl, refl))
  | inr e ↦ rw e (rw e (refl, refl, refl))
]
compressed-reply lib false t code body = elim (Bool-cases (is_packed_type t)) [
  | inl e ↦ rw e (rw e (refl, refl, refl))
  | inr e ↦ rw e (rw e (refl, refl, refl))
]
