-- ===== src/Hash.antt =====
-- internal/hash/hash.go: the signature of a body, in hexadecimal. HMAC-SHA256 is a parameter.
use Prim.Native.Char.{Char}
use gometrics.Prelude.{ℕ, ◌/◌, ◌%◌, String, [], ◌∷◌, Bytes, bytes, eqb, if◌then◌else◌, ◌-◌}

digit_from : String → ℕ → Char
digit_from String.[] n = "0"
digit_from (String.◌∷◌ c s) n = let rest = digit_from s in if eqb n 0 then c else rest (n - 1)

hex_digit : ℕ → Char
unfolding digit_from
hex_digit = digit_from "0123456789abcdef"

-- `hex.EncodeToString`
unfoldable pub hex : Bytes → String
unfolding hex_digit
hex [] = ""
hex (b ∷ bs) = String.◌∷◌ (hex_digit (b / 16)) (String.◌∷◌ (hex_digit (b % 16)) (hex bs))

-- `Compute`, over the function that takes a key and a body to their HMAC-SHA256
unfoldable pub compute : (Bytes → Bytes → Bytes) → Bytes → String → String
compute hmac body key = hex (hmac (bytes key) body)
