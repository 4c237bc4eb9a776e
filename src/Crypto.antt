-- ===== src/Crypto.antt =====
-- internal/crypto/crypto.go: the envelope of an encrypted request body. RSA-OAEP and AES-GCM are
-- parameters; the random session key and nonce are arguments. A slice out of range panics in Go, and is
-- `none` here, apart from the errors that the functions return.
pub mod Envelope
pub mod Trip
pub mod Keys
use gometrics.Prelude.{
  ℕ, ◌+◌, ◌-◌, ◌*◌, ◌/◌, ◌%◌, String, Bool, true, false, Option, none, some, List, [], ◌∷◌, ◌++◌,
  ◌&&◌, ◌||◌, eqb, leb, ltb, not, if◌then◌else◌, Bytes, length, take, drop,
}

-- `new_cipher` and `new_gcm`: does the key make a block cipher, and that an AEAD?
pub record Primitives (Public Private : Type 0) : Type 0 where
  pub encrypt_oaep : Public → Bytes → Option Bytes
  pub decrypt_oaep : Private → Bytes → Option Bytes
  pub new_cipher : Bytes → Bool
  pub new_gcm : Bytes → Bool
  pub seal : Bytes → Bytes → Bytes → Bytes → Bytes
  pub open_sealed : Bytes → Bytes → Bytes → Bytes → Option Bytes

-- what `Encrypt` and `Decrypt` return; `not_envelope` is the error `ErrNotEnvelope`
pub data Result : Type 0 where
  ok : Bytes → Result
  not_envelope : Result
  failed : String → Result

-- "GMK1"
abbrev pub envelope_magic : Bytes
envelope_magic = 0x47 ∷ 0x4D ∷ 0x4B ∷ 0x31 ∷ []

abbrev pub aes_key_size : ℕ
aes_key_size = 32

abbrev pub gcm_nonce_size : ℕ
gcm_nonce_size = 12

abbrev pub gcm_tag_size : ℕ
gcm_tag_size = 16

abbrev pub header_fixed : ℕ
header_fixed = 6

abbrev pub min_envelope_size : ℕ
min_envelope_size = header_fixed + gcm_nonce_size + gcm_tag_size

abbrev pub max_wrapped_key : ℕ
max_wrapped_key = 65535

-- `binary.BigEndian.AppendUint16`, and `Uint16` on two bytes
abbrev pub uint16_bytes : ℕ → Bytes
uint16_bytes n = n / 256 % 256 ∷ n % 256 ∷ []

unfoldable pub uint16 : Bytes → Option ℕ
uint16 (hi ∷ lo ∷ rest) = some (hi * 256 + lo)
uint16 _ = none

-- `l[lo:hi]`
unfoldable pub slice : ℕ → ℕ → Bytes → Option Bytes
slice lo hi l = if leb lo hi && leb hi (length l) then some (take (hi - lo) (drop lo l)) else none

unfoldable pub same_bytes : Bytes → Bytes → Bool
same_bytes [] [] = true
same_bytes (x ∷ xs) (y ∷ ys) = eqb x y && same_bytes xs ys
same_bytes _ _ = false

-- `isEnvelope`; `&&` does not slice what is too short
unfoldable pub is_envelope : Bytes → Bool
is_envelope d = leb min_envelope_size (length d) && same_bytes (take 4 d) envelope_magic

-- the header that is also the associated data
abbrev pub envelope_header_of : Bytes → Bytes → Bytes
envelope_header_of wrapped nonce =
    envelope_magic ++ (uint16_bytes (length wrapped) ++ (wrapped ++ nonce))

infixl 5 ◌>>=◌
abbrev pub ◌>>=◌ : {A B : Type 0} → Option A → (A → Option B) → Option B
none >>= f = none
some a >>= f = f a

module _ {Public Private : Type 0} (p : Primitives Public Private) where
  -- the error of `newAEAD`
  abbrev pub new_aead : Bytes → Option String
  new_aead cek =
      if not (p.new_cipher cek)
      then some "crypto: no AES cipher"
      else if not (p.new_gcm cek)
      then some "crypto: no GCM"
      else none

  sealed_envelope : Option String → Bytes → Bytes → Bytes → Bytes → Result
  sealed_envelope (some e) cek nonce plaintext wrapped = failed e
  sealed_envelope none cek nonce plaintext wrapped =
      let header = envelope_header_of wrapped nonce in
      ok (header ++ p.seal cek nonce plaintext header)

  unfoldable pub encrypt_with : Bytes → Bytes → Bytes → Option Bytes → Result
  unfolding sealed_envelope
  encrypt_with cek nonce plaintext none = failed "crypto: session key not wrapped"
  encrypt_with cek nonce plaintext (some wrapped) =
      if ltb max_wrapped_key (length wrapped)
      then failed "crypto: wrapped key too large"
      else sealed_envelope (new_aead cek) cek nonce plaintext wrapped

  -- `Encrypt`, by the session key and the nonce that `rand.Read` gave
  unfoldable pub encrypt : Bytes → Bytes → Option Public → Bytes → Result
  unfolding encrypt_with
  encrypt cek nonce none plaintext = failed "crypto: public key not set"
  encrypt cek nonce (some pub_key) plaintext =
      encrypt_with cek nonce plaintext (p.encrypt_oaep pub_key cek)

  opened : Option Bytes → Result
  opened none = failed "crypto: message not decrypted"
  opened (some plaintext) = ok plaintext

  opened_by : Option String → Bytes → Bytes → Bytes → Bytes → Result
  unfolding opened
  opened_by (some e) cek nonce ciphertext header = failed e
  opened_by none cek nonce ciphertext header = opened (p.open_sealed cek nonce ciphertext header)

  unfoldable pub decrypt_with : Bytes → Bytes → Bytes → Option Bytes → Result
  unfolding opened_by
  decrypt_with header nonce ciphertext none = failed "crypto: session key not unwrapped"
  decrypt_with header nonce ciphertext (some cek) =
      opened_by (new_aead cek) cek nonce ciphertext header

  -- `Decrypt` from the wrapped key's length on
  unfoldable pub decrypt_body : Private → Bytes → ℕ → Option Result
  unfolding decrypt_with
  decrypt_body priv envelope wrapped_len =
      let header_len = header_fixed + wrapped_len + gcm_nonce_size in
      if eqb wrapped_len 0 || ltb (length envelope) (header_len + gcm_tag_size)
      then some (failed "crypto: damaged envelope")
      else do
        header ← slice 0 header_len envelope
        wrapped ← slice header_fixed (header_fixed + wrapped_len) envelope
        nonce ← slice (header_fixed + wrapped_len) header_len envelope
        ciphertext ← slice header_len (length envelope) envelope
        some (decrypt_with header nonce ciphertext (p.decrypt_oaep priv wrapped))

  -- `none` is a panic
  unfoldable pub decrypt : Option Private → Bytes → Option Result
  unfolding decrypt_body
  decrypt none envelope = some (failed "crypto: private key not set")
  decrypt (some priv) envelope = if not (is_envelope envelope) then some not_envelope else do
    field ← slice 4 header_fixed envelope
    wrapped_len ← uint16 field
    decrypt_body priv envelope wrapped_len
