-- ===== src/Serve/Returns.antt =====
-- The shutdown comes to an end.
use gometrics.Prelude.{
  Bool, true, false, Option, none, some, List, [], ◌∷◌, ◌≡◌, refl, if◌then◌else◌,
}
use gometrics.Prelude.Dict
use gometrics.Storage.{Error}
use gometrics.Storage.Mem.{MemStorage}
use gometrics.Storage.File.{Json, MapOrder, Disk, tmp, snapshot}
use gometrics.Config.Server.{Config}
use gometrics.Serve.Saving.{Save, copied, in_tmp, Answer, step_save, write_tmp, rename_tmp}
use gometrics.Serve.{
  Saver, selecting, writing, exited, shutting_down, stopping_saver, last_copy, last_save, returned,
  System, Action, saver_does, main_does, drained, tick_goes_on, saver_stops, copy_all, last_goes_on,
  saves_to_file, phase_after, saver_after, on_main, on_saver, has_returned, step, act, run,
}
use gometrics.Serve.Phases.{at}

module _ {C : Type 0} (json : Json C) (cfg : Config) (order : MapOrder) (a b c d : Answer C) where
  -- the steps that lead from the one phase or the other to the end
  abbrev Ends : List (Action C) → System C → Type 0
  Ends schedule s = has_returned json cfg (run json cfg schedule s).phase ≡ true

  abbrev last_steps : List (Action C)
  last_steps = main_does (last_goes_on c) ∷ main_does (last_goes_on d) ∷ []

  abbrev end_steps : List (Action C)
  end_steps = main_does saver_stops ∷ main_does (copy_all order) ∷ last_steps

  -- The steps of `serve` and of the periodic saver from the time when no request is left. A step that is
  -- not possible makes no difference.
  abbrev pub closing_steps : List (Action C)
  closing_steps =
      main_does drained ∷ saver_does (tick_goes_on a) ∷ saver_does (tick_goes_on b) ∷ end_steps

  module _ (m : MemStorage) where
    renamed-Ends :
        (disk : Disk C) (o : Option C) (r : Option Error)
        → let (x, disk') = rename_tmp json cfg.file_path o r disk in
          Ends [] (at json cfg m disk' [] exited (phase_after json cfg x))
    unfolding run rename_tmp
    renamed-Ends disk none none = refl
    renamed-Ends disk (some x) none = refl
    renamed-Ends disk o (some e) = refl

    renamed_before-Ends :
        (disk : Disk C) (o : Option C) (r : Option Error)
        → let (x, disk') = rename_tmp json cfg.file_path o r disk in
          Ends
            (main_does (last_goes_on d) ∷ [])
            (at json cfg m disk' [] exited (phase_after json cfg x))
    unfolding run act rename_tmp
    renamed_before-Ends disk none none = refl
    renamed_before-Ends disk (some x) none = refl
    renamed_before-Ends disk o (some e) = refl

    written-Ends :
        (disk : Disk C) (o : Option C) (w : Option (Error × Option C))
        → let (x, disk') = write_tmp json cfg.file_path o w disk in
          Ends
            (main_does (last_goes_on d) ∷ [])
            (at json cfg m disk' [] exited (phase_after json cfg x))
    unfolding run act step on_main step_save write_tmp
    written-Ends disk none w = refl
    written-Ends disk (some x) none = renamed-Ends _ _ d.rename
    written-Ends disk (some x) (some (e, left)) = refl

    last_save-Ends :
        (disk : Disk C) (save : Save)
        → Ends last_steps (at json cfg m disk [] exited (last_save save))
    unfolding run act step on_main step_save
    last_save-Ends disk (copied ms) = written-Ends disk (json.marshal_indent ms) c.write
    last_save-Ends disk in_tmp =
        renamed_before-Ends disk (Dict.lookup (tmp cfg.file_path) disk) c.rename

    gone-Ends :
        (disk : Disk C) (to_file : Bool)
        → Ends
            (main_does (copy_all order) ∷ last_steps)
            (at json cfg m disk [] exited (if to_file then last_copy else returned none))
    unfolding run act step on_main
    gone-Ends disk true = last_save-Ends disk (copied (snapshot order m.gauges m.counters))
    gone-Ends disk false = refl

    selecting-Ends :
        (disk : Disk C) → Ends end_steps (at json cfg m disk [] selecting stopping_saver)
    unfolding run act step on_main
    selecting-Ends disk = gone-Ends disk (saves_to_file cfg)

    -- a tick's save: the renaming, and before it the writing
    tick_renamed-Ends :
        (disk : Disk C) (o : Option C) (r : Option Error)
        → let (x, disk') = rename_tmp json cfg.file_path o r disk in
          Ends end_steps (at json cfg m disk' [] (saver_after json cfg x) stopping_saver)
    unfolding rename_tmp
    tick_renamed-Ends disk none none = selecting-Ends disk
    tick_renamed-Ends disk (some x) none = selecting-Ends _
    tick_renamed-Ends disk none (some e) = selecting-Ends disk
    tick_renamed-Ends disk (some x) (some e) = selecting-Ends disk

    tick_renamed_before-Ends :
        (disk : Disk C) (o : Option C) (r : Option Error)
        → let (x, disk') = rename_tmp json cfg.file_path o r disk in
          Ends
            (saver_does (tick_goes_on b) ∷ end_steps)
            (at json cfg m disk' [] (saver_after json cfg x) stopping_saver)
    unfolding run act step on_saver rename_tmp
    tick_renamed_before-Ends disk none none = selecting-Ends disk
    tick_renamed_before-Ends disk (some x) none = selecting-Ends _
    tick_renamed_before-Ends disk none (some e) = selecting-Ends disk
    tick_renamed_before-Ends disk (some x) (some e) = selecting-Ends disk

    tick_written-Ends :
        (disk : Disk C) (o : Option C) (w : Option (Error × Option C))
        → let (x, disk') = write_tmp json cfg.file_path o w disk in
          Ends
            (saver_does (tick_goes_on b) ∷ end_steps)
            (at json cfg m disk' [] (saver_after json cfg x) stopping_saver)
    unfolding run act step on_saver step_save write_tmp
    tick_written-Ends disk none w = selecting-Ends disk
    tick_written-Ends disk (some x) none = tick_renamed-Ends _ _ b.rename
    tick_written-Ends disk (some x) (some (e, left)) = selecting-Ends _

    -- When a signal has come and no request is left, `serve` returns after at most these seven steps,
    -- wherever the periodic saver is and whatever the operating system answers.
    pub closing_steps-returned :
        (disk : Disk C) (v : Saver)
        → has_returned json cfg
            (run json cfg closing_steps (at json cfg m disk [] v shutting_down)).phase
          ≡ true
    unfolding run act step on_main on_saver step_save
    closing_steps-returned disk selecting = selecting-Ends disk
    closing_steps-returned disk exited = gone-Ends disk (saves_to_file cfg)
    closing_steps-returned disk (writing (copied ms)) =
        tick_written-Ends disk (json.marshal_indent ms) a.write
    closing_steps-returned disk (writing in_tmp) =
        tick_renamed_before-Ends disk (Dict.lookup (tmp cfg.file_path) disk) a.rename
