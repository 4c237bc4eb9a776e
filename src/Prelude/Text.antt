-- ===== src/Prelude/Text.antt =====
-- Go's `[]byte(s)`: the UTF-8 bytes of a text.
use Prim.Native.Nat.{ℕ, ◌+◌, ◌/◌, ◌%◌}
use Prim.Native.Char.{code}
use Prim.Native.String.{String}
use mathlib.Core.List.{List, [], ◌∷◌, ◌++◌}
use mathlib.Core.Path.{◌≡◌}
use mathlib.Core.Logic.{◌≢◌}
use mathlib.Core.Bool.{false}
use native.Mathlib.Omega.{arith}
use text.Mathlib.Text.{◌==◌}
use text.Mathlib.TextEquality.{eq_iff}
use gometrics.Prelude.Tests.{ltb, if◌then◌else◌}

abbrev pub Bytes : Type 0
Bytes = List ℕ

-- a byte of an encoding that is not its first: the low six bits
abbrev following : ℕ → ℕ
following bits = 128 + bits % 64

-- a code point by the size of its encoding
abbrev rune2 : ℕ → Bytes
rune2 r = (192 + r / 64) ∷ following r ∷ []

abbrev rune3 : ℕ → Bytes
rune3 r = (224 + r / 64 / 64) ∷ following (r / 64) ∷ following r ∷ []

abbrev rune4 : ℕ → Bytes
rune4 r = (240 + r / 64 / 64 / 64) ∷ following (r / 64 / 64) ∷ following (r / 64) ∷ following r ∷ []

abbrev encode_rune : ℕ → Bytes
encode_rune r =
    let long = if ltb r 0x10000 then rune3 r else rune4 r in
    let wide = if ltb r 0x800 then rune2 r else long in if ltb r 0x80 then r ∷ [] else wide

unfoldable pub bytes : String → Bytes
bytes String.[] = []
bytes (String.◌∷◌ c s) = encode_rune (code c) ++ bytes s

pub ne→eq_false : (s t : String) → s ≢ t → (s == t) ≡ false
ne→eq_false s t h = ground (arith, eq_iff s t)
