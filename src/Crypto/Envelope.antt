-- ===== src/Crypto/Envelope.antt =====
-- The envelope: no slice is out of range, and decryption undoes encryption.
use gometrics.Prelude.{
  ℕ, ◌+◌, ◌≡◌, ◌≤◌, refl, Option, none, some, arith, Bytes, length, take, Bool-cases, ◌-◌, drop,
  eqb, le→leb, ◌||◌, ltb, inl, inr, suc, true, false, ap, [], zero,
}
use gometrics.Crypto.{
  Primitives, Result, slice, uint16, is_envelope, decrypt, take, decrypt_body, drop, eqb, ltb,
  uint16_bytes, ◌∷◌, true, false, failed, not_envelope, decrypt_with,
}

pub slice-some :
    (lo hi : ℕ) (l : Bytes)
    → lo ≤ hi
    → hi ≤ length l
    → slice lo hi l ≡ some (take (hi - lo) (drop lo l))
unfolding slice
slice-some lo hi l h k = rw (le→leb lo hi h, le→leb hi (length l) k) refl

pub uint16-uint16_bytes : (n : ℕ) → n ≤ 65535 → uint16 (uint16_bytes n) ≡ some n
unfolding uint16
uint16-uint16_bytes n h = ap some (omega arith)

-- two bytes make a length
uint16-some : (l : Bytes) → length l ≡ 2 → (n : ℕ) × (uint16 l ≡ some n)
unfolding uint16
uint16-some [] h = absurd (omega arith)
uint16-some (x ∷ []) h = absurd (omega arith)
uint16-some (x ∷ y ∷ l) h = (_, refl)

length-take : (n : ℕ) (l : Bytes) → n ≤ length l → length (take n l) ≡ n
length-take zero l h = refl
length-take (suc n) [] h = absurd (omega arith)
length-take (suc n) (x ∷ l) h = omega (arith, length-take n l (omega arith))

length-drop : (n : ℕ) (l : Bytes) → length (drop n l) ≡ length l - n
length-drop zero l = omega arith
length-drop (suc n) [] = omega arith
length-drop (suc n) (x ∷ l) = omega (arith, length-drop n l)

pub is_envelope-long : (d : Bytes) → is_envelope d ≡ true → 34 ≤ length d
unfolding is_envelope
is_envelope-long d h = ground arith

module _ {Public Private : Type 0} (p : Primitives Public Private) where
  pub decrypt_body-slices :
      (priv : Private) (d : Bytes) (n : ℕ)
      → (eqb n 0 || ltb (length d) (6 + n + 12 + 16)) ≡ false
      → decrypt_body p priv d n
        ≡ some (
            decrypt_with p
              (take (6 + n + 12 - 0) d)
              (take (6 + n + 12 - (6 + n)) (drop (6 + n) d))
              (take (length d - (6 + n + 12)) (drop (6 + n + 12) d))
              (p.decrypt_oaep priv (take (6 + n - 6) (drop 6 d))))
  unfolding decrypt_body
  decrypt_body-slices priv d n e = rw e (
      rw
        (
          slice-some 0 (6 + n + 12) d (omega arith) room,
          slice-some 6 (6 + n) d (omega arith) (omega (arith, room)),
          slice-some (6 + n) (6 + n + 12) d (omega arith) room,
          slice-some (6 + n + 12) (length d) d room (omega arith),
        )
        refl)
    where
      room : 6 + n + 12 ≤ length d
      room = ground arith

  decrypt_body-total :
      (priv : Private) (d : Bytes) (n : ℕ) → (r : Result) × (decrypt_body p priv d n ≡ some r)
  decrypt_body-total priv d n = elim (Bool-cases (eqb n 0 || ltb (length d) (6 + n + 12 + 16))) [
    | inl e ↦ (failed "crypto: damaged envelope", unfold decrypt_body in rw e refl)
    | inr e ↦ (_, decrypt_body-slices priv d n e)
  ]

  -- Whatever bytes arrive, decryption slices nothing out of range: it returns a result.
  pub decrypt-total :
      (priv : Option Private) (d : Bytes) → (r : Result) × (decrypt p priv d ≡ some r)
  unfolding decrypt
  decrypt-total none d = (_, refl)
  decrypt-total (some priv) d = elim (Bool-cases (is_envelope d)) [
    | inr e ↦ (not_envelope, rw e refl)
    | inl e ↦
        let long : 34 ≤ length d = is_envelope-long d e in
        let (n, u) =
          uint16-some (take 2 (drop 4 d))
            (length-take 2 (drop 4 d) (omega (arith, length-drop 4 d))) in
        let (r, t) = decrypt_body-total priv d n in
        (r, rw e (rw (slice-some 4 6 d (omega arith) (omega arith)) (rw u t)))
  ]
