-- ===== src/Serve/Saving.antt =====
-- internal/storage/file.go: `SaveToFile` after the copy of the maps, in the two steps that another save
-- to the same path can come between.
use gometrics.Prelude.{String, Option, none, some, List}
use gometrics.Prelude.Dict
use gometrics.Models.{Metrics}
use gometrics.Storage.{Error}
use gometrics.Storage.File.{Json, Disk, tmp, left_in_tmp}

-- how far a call of `SaveToFile` is
pub data Save : Type 0 where
  copied : List Metrics → Save
  in_tmp : Save

pub data SaveStep : Type 0 where
  going : Save → SaveStep
  saved : SaveStep
  save_failed : Error → SaveStep

-- what the operating system answers to one of the steps: for a write, also what a failed one leaves
-- (nothing, if it is `os.MkdirAll` before it that fails)
pub record Answer (C : Type 0) : Type 0 where
  pub write : Option (Error × Option C)
  pub rename : Option Error

module _ {C : Type 0} (json : Json C) (path : String) where
  -- `os.WriteFile` of what `MarshalIndent` gave
  unfoldable pub write_tmp : Option C → Option (Error × Option C) → Disk C → SaveStep × Disk C
  write_tmp none answer disk = (save_failed "json: unsupported value", disk)
  write_tmp (some content) none disk = (going in_tmp, Dict.insert (tmp path) content disk)
  write_tmp (some content) (some (e, left)) disk = (save_failed e, left_in_tmp path left disk)

  -- `os.Rename`, which fails where the temporary file is gone
  unfoldable pub rename_tmp : Option C → Option Error → Disk C → SaveStep × Disk C
  rename_tmp content (some e) disk = (save_failed e, disk)
  rename_tmp none none disk = (save_failed "no such file or directory", disk)
  rename_tmp (some content) none disk =
      (saved, Dict.erase (tmp path) (Dict.insert path content disk))

  unfoldable pub step_save : Save → Answer C → Disk C → SaveStep × Disk C
  unfolding write_tmp rename_tmp
  step_save (copied metrics) answer disk = write_tmp (json.marshal_indent metrics) answer.write disk
  step_save in_tmp answer disk = rename_tmp (Dict.lookup (tmp path) disk) answer.rename disk
