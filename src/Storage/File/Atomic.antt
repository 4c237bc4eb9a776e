-- ===== src/Storage/File/Atomic.antt =====
-- What a save leaves in the file, whatever goes wrong.
use text.Mathlib.TextPositions.{len-append}
use Prim.Native.String.{len}
use gometrics.Prelude.{
  ◌≡◌, refl, String, Option, none, some, arith, ◌==◌, eq_iff, false, Bool-cases, inl, ap, inr, ◌≢◌,
  eq_refl,
}
use gometrics.Prelude.Dict
use gometrics.Prelude.Dict.{lookup-insert, lookup-erase}
use gometrics.Storage.{Error, Storage}
use gometrics.Storage.File.{
  Json, Faults, Disk, tmp, write_metrics, left_in_tmp, write_then_rename, make_dir_then_write,
  write_content, save_to_file, MapOrder, snapshot,
}

pub tmp_ne : (path : String) → (tmp path == path) ≡ false
tmp_ne path = elim (Bool-cases (tmp path == path)) [
  | inl e ↦ absurd (omega (arith, len-append path ".tmp", ap len ((eq_iff (tmp path) path).0 e)))
  | inr n ↦ n
]

module _ {C : Type 0} where
  -- What the file at `path` holds after a save: with no error, the whole encoding; with an error, what
  -- it held.
  abbrev pub Saved : String → Option C → Disk C → Option Error × Disk C → Type 0
  Saved path enc disk (none, disk') = (Dict.lookup path disk' ≡ enc) × (enc ≢ none)
  Saved path enc disk (some e, disk') = Dict.lookup path disk' ≡ Dict.lookup path disk

  left_in_tmp-path :
      (path : String) (left : Option C) (disk : Disk C)
      → Dict.lookup path (left_in_tmp path left disk) ≡ Dict.lookup path disk
  unfolding left_in_tmp
  left_in_tmp-path path none disk = refl
  left_in_tmp-path path (some c) disk = rw (lookup-insert, tmp_ne path) refl

  write_then_rename-Saved :
      (w : Option (Error × Option C)) (r : Option Error) (path : String) (new : C) (disk : Disk C)
      → Saved path (some new) disk (write_then_rename w r path new disk)
  unfolding write_then_rename
  write_then_rename-Saved (some (e, left)) r path new disk = left_in_tmp-path path left disk
  write_then_rename-Saved none (some e) path new disk = rw (lookup-insert, tmp_ne path) refl
  write_then_rename-Saved none none path new disk =
      (rw (lookup-erase, tmp_ne path, lookup-insert, eq_refl path) refl, λ e. cc)

  make_dir-Saved :
      (d : Option Error) (faults : Faults C) (path : String) (new : C) (disk : Disk C)
      → Saved path (some new) disk (make_dir_then_write d faults path new disk)
  unfolding make_dir_then_write
  make_dir-Saved (some e) faults path new disk = refl
  make_dir-Saved none faults path new disk =
      write_then_rename-Saved faults.write faults.rename path new disk

  write_content-Saved :
      (dir : String → String) (faults : Faults C) (path : String) (enc : Option C) (disk : Disk C)
      → Saved path enc disk (write_content dir faults path enc disk)
  unfolding write_content
  write_content-Saved dir faults path none disk = refl
  write_content-Saved dir faults path (some new) disk = make_dir-Saved _ faults path new disk

-- Whatever the operating system answers to a save, a failing write that leaves half a temporary file
-- included: if the save reports no error, the file holds the whole encoding of the metrics, which
-- exists; if it reports an error, the file is as it was.
pub save_to_file-Saved :
    {S C : Type 0} (st : Storage S) (json : Json C) (dir : String → String) (order : MapOrder)
    (faults : Faults C) (path : String) (s : S) (disk : Disk C)
    → let (gauges, counters) = (st.get_all_metrics s).0 in
      let (err, s', disk') = save_to_file st json dir order faults path (s, disk) in
      Saved path (json.marshal_indent (snapshot order gauges counters)) disk (err, disk')
unfolding save_to_file write_metrics
save_to_file-Saved st json dir order faults path s disk = write_content-Saved dir faults path _ disk

-- the case of no error, as an equation
pub Saved-none :
    {C : Type 0} (path : String) (enc : Option C) (disk : Disk C) (r : Option Error × Disk C)
    → Saved path enc disk r
    → r.0 ≡ none
    → (Dict.lookup path r.1 ≡ enc) × (enc ≢ none)
Saved-none path enc disk (none, disk') h e = h
Saved-none path enc disk (some x, disk') h e = cc
