-- ===== src/Crypto/Trip.antt =====
-- Decryption with the private key undoes encryption with the public key.
use gometrics.Prelude.{
  ℕ, ◌+◌, ◌-◌, ◌≡◌, ◌≤◌, ◌<◌, refl, Option, none, some, arith, Bytes, length, [], ◌++◌, take, drop,
  take-append, drop-append, length-append, append_assoc, ap, ◌∙◌, sym, append-nil, true, le→leb,
  subst,
}
use gometrics.Crypto.{
  new_aead, Primitives, ok, slice, is_envelope, encrypt, decrypt, gcm_tag_size, envelope_magic,
  envelope_header_of, uint16_bytes, max_wrapped_key, true, gcm_nonce_size, same_bytes, decrypt_body,
  decrypt_with, encrypt_with,
}
use gometrics.Crypto.Envelope.{slice-some, uint16-uint16_bytes, decrypt_body-slices}

-- What RSA-OAEP and AES-GCM promise for a pair of keys.
pub record IsPair {Public Private : Type 0} (p : Primitives Public Private) (pub_key : Public)
    (priv : Private) : Type 0 where
  pub unwraps :
      (cek w : Bytes) → p.encrypt_oaep pub_key cek ≡ some w → p.decrypt_oaep priv w ≡ some cek
  pub wrapped : (cek w : Bytes) → p.encrypt_oaep pub_key cek ≡ some w → 0 < length w
  pub opens :
      (cek nonce text ad : Bytes)
      → p.open_sealed cek nonce (p.seal cek nonce text ad) ad ≡ some text
  pub tagged : (cek nonce text ad : Bytes) → gcm_tag_size ≤ length (p.seal cek nonce text ad)

take_eq : (k : ℕ) (l : Bytes) (xs ys : Bytes) → l ≡ xs ++ ys → k ≡ length xs → take k l ≡ xs
take_eq k l xs ys e h = rw (e, h) (take-append xs ys)

drop_eq : (k : ℕ) (l : Bytes) (xs ys : Bytes) → l ≡ xs ++ ys → k ≡ length xs → drop k l ≡ ys
drop_eq k l xs ys e h = rw (e, h) (drop-append xs ys)

module _ (w nonce ct : Bytes) (n : ℕ) (len : n ≡ length w) (twelve : length nonce ≡ 12) where
  abbrev env : Bytes
  env = (envelope_magic ++ (uint16_bytes (length w) ++ (w ++ nonce))) ++ ct

  abbrev start : Bytes
  start = envelope_magic ++ uint16_bytes (length w)

  length-env : length env ≡ 18 + n + length ct
  length-env = omega (arith, length-append (w ++ nonce) ct, length-append w nonce)

  header_part : take (6 + n + 12 - 0) env ≡ envelope_header_of w nonce
  header_part =
      take_eq _ env (envelope_header_of w nonce) ct refl (omega (arith, length-append w nonce))

  key_part : take (6 + n - 6) (drop 6 env) ≡ w
  key_part = take_eq _ (drop 6 env) w (nonce ++ ct) (append_assoc w nonce ct) (omega arith)

  nonce_part : take (6 + n + 12 - (6 + n)) (drop (6 + n) env) ≡ nonce
  nonce_part =
      take_eq _ _ nonce ct
        (drop_eq _ env (start ++ w) (nonce ++ ct) (ap (λ l. start ++ l) (append_assoc w nonce ct))
          (omega arith))
        (omega arith)

  text_part : take (length env - (6 + n + 12)) (drop (6 + n + 12) env) ≡ ct
  text_part =
      take_eq _ _ ct []
        (drop_eq _ env (envelope_header_of w nonce) ct refl (omega (arith, length-append w nonce))
          ∙ sym (append-nil ct))
        (omega (arith, length-env))

  env-is_envelope : gcm_tag_size ≤ length ct → is_envelope env ≡ true
  unfolding is_envelope same_bytes
  env-is_envelope tag = rw (le→leb 34 (length env) (omega (arith, length-env))) refl

  length_field : gcm_tag_size ≤ length ct → slice 4 6 env ≡ some (uint16_bytes (length w))
  length_field tag = slice-some 4 6 env (omega arith) (omega (arith, length-env))

  decrypt_body-env :
      {Public Private : Type 0} (p : Primitives Public Private) (priv : Private)
      → 0 < n
      → gcm_tag_size ≤ length ct
      → decrypt_body p priv env n
        ≡ some (decrypt_with p (envelope_header_of w nonce) nonce ct (p.decrypt_oaep priv w))
  decrypt_body-env p priv pos tag =
      decrypt_body-slices p priv env n (ground (arith, length-env))
      ∙ rw (header_part, nonce_part, text_part, key_part) refl

module _ {Public Private : Type 0} (p : Primitives Public Private) (pub_key : Public)
    (priv : Private) (pair : IsPair p pub_key priv) where
  decrypt-env :
      (cek nonce text w : Bytes)
      → p.encrypt_oaep pub_key cek ≡ some w
      → length w ≤ max_wrapped_key
      → new_aead p cek ≡ none
      → length nonce ≡ gcm_nonce_size
      → let header = envelope_header_of w nonce in
        decrypt p (some priv) (header ++ p.seal cek nonce text header) ≡ some (ok text)
  unfolding decrypt
  decrypt-env cek nonce text w wraps fits gcm twelve =
      let header = envelope_header_of w nonce in
      let ct = p.seal cek nonce text header in
      let tag = pair.tagged cek nonce text header in
      rw (env-is_envelope w nonce ct (length w) refl twelve tag) (
        rw (length_field w nonce ct (length w) refl twelve tag) (
          rw (uint16-uint16_bytes (length w) fits) (
            rw
              (decrypt_body-env w nonce ct (length w) refl twelve p priv (pair.wrapped cek w wraps)
                tag)
              (ap some (
                unfold decrypt_with in
                rw (pair.unwraps cek w wraps) (rw gcm (rw pair.opens refl)))))))

  encrypt_with-ok :
      (cek nonce text w env : Bytes)
      → encrypt_with p cek nonce text (some w) ≡ ok env
      → let header = envelope_header_of w nonce in
        (length w ≤ max_wrapped_key)
        × (new_aead p cek ≡ none)
        × (env ≡ header ++ p.seal cek nonce text header)
  unfolding encrypt_with
  encrypt_with-ok cek nonce text w env h = ground arith

  -- For a pair of keys of which RSA-OAEP and AES-GCM keep their promises, and a nonce of 12 bytes:
  -- whatever envelope encryption returns with the public key, decryption with the private key returns
  -- the text that was encrypted.
  pub decrypt-encrypt :
      (cek nonce text env : Bytes)
      → length nonce ≡ gcm_nonce_size
      → encrypt p cek nonce (some pub_key) text ≡ ok env
      → decrypt p (some priv) env ≡ some (ok text)
  unfolding encrypt
  decrypt-encrypt cek nonce text env twelve h = go (p.encrypt_oaep pub_key cek) refl h
    where
      go :
          (o : Option Bytes)
          → p.encrypt_oaep pub_key cek ≡ o
          → encrypt_with p cek nonce text o ≡ ok env
          → decrypt p (some priv) env ≡ some (ok text)
      go none e h = cc
      go (some w) e h =
          let (fits, gcm, eq) = encrypt_with-ok cek nonce text w env h in
          subst (λ d. decrypt p (some priv) d ≡ some (ok text)) (sym eq)
            (decrypt-env cek nonce text w e fits gcm twelve)
