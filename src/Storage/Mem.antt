-- ===== src/Storage/Mem.antt =====
-- internal/storage/storage.go: `MemStorage`. Each method is one critical section of the mutex, so a
-- run of the server is a sequence of these calls.
pub mod Batch
pub mod Invariant
use mathlib.Core.Option.{get_or}
use gometrics.Prelude.{
  String, Option, none, some, List, [], ◌∷◌, ◌==◌, if◌then◌else◌, Bool-cases, inl, inr, ◌≡◌,
  eq_refl, refl,
}
use gometrics.Prelude.Dict
use gometrics.Prelude.Dict.{Dict}
use gometrics.Storage.{Storage}
use gometrics.Models.{Metrics, Int64, Float64, add64, gauge, counter}

pub record MemStorage : Type 0 where
  pub gauges : Dict Float64
  pub counters : Dict Int64

unfoldable pub new_mem_storage : MemStorage
new_mem_storage = record { gauges = []; counters = [] }

unfoldable pub set_gauge : String → Float64 → MemStorage → MemStorage
set_gauge name value m = record m { gauges = Dict.insert name value m.gauges }

-- a missing counter reads as 0
abbrev pub current : String → MemStorage → Int64
current name m = get_or (Dict.lookup name m.counters) 0

unfoldable pub update_counter : String → Int64 → MemStorage → MemStorage
update_counter name value m = record m {
  counters = Dict.insert name (add64 (current name m) value) m.counters;
}

unfoldable pub get_counter : String → MemStorage → Option Int64
get_counter name m = Dict.lookup name m.counters

unfoldable pub get_gauge : String → MemStorage → Option Float64
get_gauge name m = Dict.lookup name m.gauges

unfoldable pub get_all_metrics : MemStorage → Dict Float64 × Dict Int64
get_all_metrics m = (m.gauges, m.counters)

-- the writes under `if mt.Value != nil` and `if mt.Delta != nil`
unfoldable pub set_if_given : String → Option Float64 → MemStorage → MemStorage
unfolding set_gauge
set_if_given name none m = m
set_if_given name (some v) m = set_gauge name v m

unfoldable pub add_if_given : String → Option Int64 → MemStorage → MemStorage
unfolding update_counter
add_if_given name none m = m
add_if_given name (some d) m = update_counter name d m

-- the `switch` in the loop of `UpdateBatch`; the loop of `LoadFromFile` makes the same calls
unfoldable pub apply_metric : Metrics → MemStorage → MemStorage
unfolding set_if_given add_if_given
apply_metric mt m =
    if mt.mtype == gauge
    then set_if_given mt.id mt.value m
    else if mt.mtype == counter
    then add_if_given mt.id mt.delta m
    else m

unfoldable pub update_batch : List Metrics → MemStorage → MemStorage
unfolding apply_metric
update_batch [] m = m
update_batch (mt ∷ metrics) m = update_batch metrics (apply_metric mt m)

-- a read after a write of the same name
pub get_gauge-set_gauge :
    (name : String) (v : Float64) (m : MemStorage) → get_gauge name (set_gauge name v m) ≡ some v
unfolding get_gauge set_gauge
get_gauge-set_gauge name v m = rw (Dict.lookup-insert, eq_refl name) refl

pub get_counter-update_counter :
    (name : String) (d : Int64) (m : MemStorage)
    → get_counter name (update_counter name d m) ≡ some (add64 (current name m) d)
unfolding get_counter update_counter
get_counter-update_counter name d m = rw (Dict.lookup-insert, eq_refl name) refl

-- `MemStorage` as a `Storage`: no method of it fails
abbrev pub mem_storage : Storage MemStorage
mem_storage = record {
  set_gauge = λ name value m. (none, set_gauge name value m);
  update_counter = λ name value m. (none, update_counter name value m);
  get_counter = λ name m. (get_counter name m, m);
  get_gauge = λ name m. (get_gauge name m, m);
  get_all_metrics = λ m. (get_all_metrics m, m);
  update_batch = λ metrics m. (none, update_batch metrics m);
}

-- A metric is skipped, or it is one `set_gauge`, or one `update_counter`.
pub apply_metric-cases {ℓ} :
    (P : MemStorage → Type ℓ) (mt : Metrics) (m : MemStorage)
    → P m
    → ((v : Float64) → P (set_gauge mt.id v m))
    → ((d : Int64) → P (update_counter mt.id d m))
    → P (apply_metric mt m)
unfolding apply_metric
apply_metric-cases P mt m skip set add = elim (Bool-cases (mt.mtype == gauge)) [
  | inl e ↦ rw e (on_value mt.value)
  | inr n ↦ rw n (elim (Bool-cases (mt.mtype == counter)) [
    | inl e ↦ rw e (on_delta mt.delta)
    | inr n ↦ rw n skip
  ])
]
  where
    on_value : (v : Option Float64) → P (set_if_given mt.id v m)
    on_value none = skip
    on_value (some v) = set v

    on_delta : (d : Option Int64) → P (add_if_given mt.id d m)
    on_delta none = skip
    on_delta (some d) = add d
