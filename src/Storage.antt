-- ===== src/Storage.antt =====
-- internal/storage/storage.go: the interface `Storage` that the handlers use. Its implementations
-- and their proofs are in the modules below.
pub mod Mem
pub mod File
pub mod Db
use gometrics.Prelude.{String, Option, List}
use gometrics.Prelude.Dict.{Dict}
use gometrics.Models.{Metrics, Int64, Float64}

-- An error is the text that its `Error()` returns.
abbrev pub Error : Type 0
Error = String

-- Over the state `S` of the implementation. Reads return the state too: one that goes over a network
-- leaves its environment changed. `(value, ok)` is an option.
pub record Storage (S : Type 0) : Type 0 where
  pub set_gauge : String → Float64 → S → Option Error × S
  pub update_counter : String → Int64 → S → Option Error × S
  pub get_counter : String → S → Option Int64 × S
  pub get_gauge : String → S → Option Float64 × S
  pub get_all_metrics : S → (Dict Float64 × Dict Int64) × S
  pub update_batch : List Metrics → S → Option Error × S
