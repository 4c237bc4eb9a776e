-- ===== src/Models.antt =====
-- internal/models/metrics.go: the metric as it travels.
use gometrics.Prelude.{ℕ, ◌+◌, ◌%◌, ◌^◌, String, Option, ◌==◌, ◌≡◌, true, false, eq_iff}

-- the 64 bits of an `int64` in two's complement; addition wraps
abbrev pub Int64 : Type 0
Int64 = ℕ

abbrev pub add64 : Int64 → Int64 → Int64
add64 a b = (a + b) % 2 ^ 64

-- the 64 bits of a `float64`: the program only copies, prints and parses these
abbrev pub Float64 : Type 0
Float64 = ℕ

abbrev pub counter : String
counter = "counter"

abbrev pub gauge : String
gauge = "gauge"

-- no text is the name of both types
pub not_counter : (t : String) → (t == gauge) ≡ true → (t == counter) ≡ false
not_counter t h = rw ((eq_iff t gauge).0 h)

-- `Delta` and `Value` are pointers: `none` is nil
pub record Metrics : Type 0 where
  pub id : String
  pub mtype : String
  pub delta : Option Int64
  pub value : Option Float64
  pub hash : String
