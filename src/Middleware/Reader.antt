-- ===== src/Middleware/Reader.antt =====
-- internal/handler/handler.go: `compressReader`, the reader of a packed body, which borrows a
-- `gzip.Reader` from a pool.
use gometrics.Prelude.{
  ℕ, ◌+◌, ◌≤◌, Bool, true, false, String, Option, none, some, List, [], ◌∷◌, arith,
}

-- whether the field `zr` is set, and how many readers the pool has had back
pub record CompressReader : Type 0 where
  pub holds_reader : Bool
  pub given_back : ℕ

pub data Opened : Type 0 where
  opened : CompressReader → Opened
  not_gzip : String → Opened

abbrev pub fresh_reader : CompressReader
fresh_reader = record { holds_reader = true; given_back = 0 }

-- `newCompressReader`, by the error of `zr.Reset`; where it fails the reader goes back to the pool
unfoldable pub new_compress_reader : Option String → Opened
new_compress_reader none = opened fresh_reader
new_compress_reader (some e) = not_gzip e

abbrev first_error : Option String → Option String → Option String
first_error none e = e
first_error (some e) e' = some e

-- `Close`, by the errors of the two that are closed
close_by : Bool → Option String → Option String → CompressReader → Option String × CompressReader
close_by false err_read err_gzip cr = (err_read, cr)
close_by true err_read err_gzip cr =
    (first_error err_read err_gzip, record { holds_reader = false; given_back = cr.given_back + 1 })

unfoldable pub close :
    Option String → Option String → CompressReader → Option String × CompressReader
unfolding close_by
close err_read err_gzip cr = close_by cr.holds_reader err_read err_gzip cr

-- `Close` called so often, with the errors of each call
unfoldable pub close_all : List (Option String × Option String) → CompressReader → CompressReader
unfolding close
close_all [] cr = cr
close_all ((err_read, err_gzip) ∷ calls) cr = close_all calls (close err_read err_gzip cr).1

closed_stays :
    (calls : List (Option String × Option String)) (n : ℕ)
    → (close_all calls (record { holds_reader = false; given_back = n })).given_back ≤ n
unfolding close_all
closed_stays [] n = omega arith
closed_stays ((err_read, err_gzip) ∷ calls) n = closed_stays calls n

-- However often an opened reader is closed, and with whatever errors, the pool has the `gzip.Reader`
-- back at most once, so that it is never lent to two requests.
pub close_all-once :
    (calls : List (Option String × Option String)) → (close_all calls fresh_reader).given_back ≤ 1
unfolding close_all
close_all-once [] = omega arith
close_all-once ((err_read, err_gzip) ∷ calls) = closed_stays calls 1
