-- ===== src/Storage/File.antt =====
-- internal/storage/file.go: the metrics saved to a file and restored from it. What is not under
-- internal/ is a parameter: `encoding/json` (a codec into contents `C`), the order in which a map is
-- iterated, and the answers of the operating system in one call.

pub mod Atomic
pub mod Trip
use Prim.Native.String.{◌++◌ as str_append}
use gometrics.Prelude.{String, Option, none, some, List, [], ◌∷◌, ◌++◌, ◌==◌, if◌then◌else◌, map}
use gometrics.Prelude.Dict
use gometrics.Prelude.Dict.{Dict}
use gometrics.Models.{Metrics, Int64, Float64, gauge, counter}
use gometrics.Storage.{Storage, Error}

-- `none`: the metrics cannot be encoded, the bytes cannot be decoded
pub record Json (C : Type 0) : Type 0 where
  pub marshal_indent : List Metrics → Option C
  pub unmarshal : C → Option (List Metrics)

-- the entries of a map in the order in which `range` visits them
pub record MapOrder : Type 0 where
  pub gauge_range : Dict Float64 → List (String × Float64)
  pub counter_range : Dict Int64 → List (String × Int64)

-- The errors that the calls of one save or load meet; `write` also has what a failed write leaves in
-- the temporary file.
pub record Faults (C : Type 0) : Type 0 where
  pub mkdir : Option Error
  pub write : Option (Error × Option C)
  pub rename : Option Error
  pub read : Option Error

abbrev pub no_faults : {C : Type 0} → Faults C
no_faults = record { mkdir = none; write = none; rename = none; read = none }

-- the files by their paths
abbrev pub Disk : Type 0 → Type 0
Disk C = Dict C

-- the metrics of the two loops of `SaveToFile`
unfoldable pub gauge_record : String × Float64 → Metrics
gauge_record (name, value) = record {
  id = name;
  mtype = gauge;
  delta = none;
  value = some value;
  hash = "";
}

unfoldable pub counter_record : String × Int64 → Metrics
counter_record (name, delta) = record {
  id = name;
  mtype = counter;
  delta = some delta;
  value = none;
  hash = "";
}

unfoldable pub snapshot : MapOrder → Dict Float64 → Dict Int64 → List Metrics
snapshot order gauges counters =
    map gauge_record (order.gauge_range gauges) ++ map counter_record (order.counter_range counters)

abbrev pub tmp : String → String
tmp path = str_append path ".tmp"

module _ {C : Type 0} where
  unfoldable pub left_in_tmp : String → Option C → Disk C → Disk C
  left_in_tmp path none disk = disk
  left_in_tmp path (some c) disk = Dict.insert (tmp path) c disk

  -- `os.WriteFile` to the temporary file, then `os.Rename`, by the answers of the two
  write_then_rename :
      Option (Error × Option C) → Option Error → String → C → Disk C → Option Error × Disk C
  unfolding left_in_tmp
  write_then_rename (some (e, left)) _ path content disk = (some e, left_in_tmp path left disk)
  write_then_rename none (some e) path content disk = (some e, Dict.insert (tmp path) content disk)
  write_then_rename none none path content disk =
      (none, Dict.erase (tmp path) (Dict.insert path content disk))

  -- by the answer of `os.MkdirAll`
  make_dir_then_write : Option Error → Faults C → String → C → Disk C → Option Error × Disk C
  unfolding write_then_rename
  make_dir_then_write (some e) faults path content disk = (some e, disk)
  make_dir_then_write none faults path content disk =
      write_then_rename faults.write faults.rename path content disk

  write_content : (String → String) → Faults C → String → Option C → Disk C → Option Error × Disk C
  unfolding make_dir_then_write
  write_content dir faults path none disk = (some "json: unsupported value", disk)
  write_content dir faults path (some content) disk =
      make_dir_then_write (if dir path == "." then none else faults.mkdir) faults path content disk

  module _ (json : Json C) (dir : String → String) where
    -- `SaveToFile` from the metrics on; `dir` is `filepath.Dir`
    unfoldable pub write_metrics : Faults C → String → List Metrics → Disk C → Option Error × Disk C
    unfolding write_content
    write_metrics faults path metrics disk =
        write_content dir faults path (json.marshal_indent metrics) disk

module _ {S : Type 0} (st : Storage S) where
  set_if_given : String → Option Float64 → S → S
  set_if_given name none s = s
  set_if_given name (some v) s = (st.set_gauge name v s).1

  add_if_given : String → Option Int64 → S → S
  add_if_given name none s = s
  add_if_given name (some d) s = (st.update_counter name d s).1

  -- one round of the loop of `LoadFromFile`: an error of the storage is logged and passed over
  restore_metric : Metrics → S → S
  unfolding set_if_given add_if_given
  restore_metric mt s =
      if mt.mtype == gauge
      then set_if_given mt.id mt.value s
      else if mt.mtype == counter
      then add_if_given mt.id mt.delta s
      else s

  unfoldable pub restore : List Metrics → S → S
  unfolding restore_metric
  restore [] s = s
  restore (mt ∷ metrics) s = restore metrics (restore_metric mt s)

module _ {S C : Type 0} (st : Storage S) (json : Json C) where
  unfoldable pub save_to_file :
      (String → String) → MapOrder → Faults C → String → S × Disk C → Option Error × S × Disk C
  save_to_file dir order faults path (s, disk) =
      let ((gauges, counters), s') = st.get_all_metrics s in
      let (err, disk') = write_metrics json dir faults path (snapshot order gauges counters) disk in
      (err, s', disk')

  -- a file that is not there is no error
  unfoldable pub load_from_file : Faults C → String → Disk C → S → Option Error × S
  load_from_file faults path disk s = elim (Dict.lookup path disk) [
    | none ↦ (none, s)
    | some content ↦ elim faults.read [
      | some e ↦ (some e, s)
      | none ↦ elim (json.unmarshal content) [
        | none ↦ (some "json: cannot unmarshal", s)
        | some metrics ↦ (none, restore st metrics s)
      ]
    ]
  ]
