-- ===== src/Serve/Restart.antt =====
-- What a restart finds after a shutdown that has waited for the requests.
use gometrics.Prelude.{
  true, false, Option, none, some, List, [], ◌∷◌, ◌≡◌, ◌≢◌, refl, sym, ap, ◌∙◌, subst, arith, All,
  if◌then◌else◌, Option-cases, inl, inr, ◌&&◌,
}
use gometrics.Prelude.Dict
use gometrics.Models.{Metrics}
use gometrics.Storage.{Error}
use gometrics.Storage.Mem.{MemStorage, mem_storage, new_mem_storage}
use gometrics.Storage.Mem.Invariant.{IsValid, update_batch-IsValid, new_mem_storage-IsValid}
use gometrics.Storage.File.{
  Json, MapOrder, Faults, Disk, no_faults, snapshot, restore, load_from_file,
}
use gometrics.Storage.File.Trip.{
  IsOrder, ReadsBack, SameReads, load_after, restore-mem, snapshot_rebuilds,
}
use gometrics.Config.Server.{Config}
use gometrics.Serve.Saving.{Save}
use gometrics.Serve.{
  selecting, writing, tick, tick_goes_on, RequestState, Saver, exited, Phase, serving,
  shutting_down, failing, stopping_saver, last_copy, last_save, returned, System, Action, arrive,
  request, saver_does, main_does, saves_to_file, boot, step, act, run, on_arrive, on_request,
  on_saver,
}
use gometrics.Serve.Valid.{run-IsValid}
use gometrics.Serve.Phases.{
  Encodes, Progress, IsOrderly, IsSettled, InPhase, at, Early-step, main_serving,
  main_shutting_down, main_failing, main_stopping, main_last_copy, main_last_save,
}

module _ {C : Type 0} (json : Json C) (cfg : Config) where
  stopping-step :
      (a : Action C) (m : MemStorage) (disk : Disk C) (v : Saver)
      → IsSettled json cfg (step json cfg a (at json cfg m disk [] v stopping_saver))
  unfolding step on_arrive on_request on_saver
  stopping-step arrive m disk v = refl
  stopping-step (request i b) m disk v = refl
  stopping-step (saver_does b) m disk exited = refl
  stopping-step (saver_does (tick order)) m disk selecting = refl
  stopping-step (saver_does (tick_goes_on answer)) m disk selecting = refl
  stopping-step (saver_does (tick order)) m disk (writing save) = refl
  stopping-step (saver_does (tick_goes_on answer)) m disk (writing save) = refl
  stopping-step (main_does x) m disk v = main_stopping json cfg m disk x v

  last_copy-step :
      (a : Action C) (m : MemStorage) (disk : Disk C)
      → IsOrderly a
      → IsSettled json cfg (step json cfg a (at json cfg m disk [] exited last_copy))
  unfolding step on_arrive on_request on_saver
  last_copy-step arrive m disk o = (refl, refl)
  last_copy-step (request i b) m disk o = (refl, refl)
  last_copy-step (saver_does b) m disk o = (refl, refl)
  last_copy-step (main_does x) m disk o = main_last_copy json cfg m disk x o

  last_save-step :
      (a : Action C) (m : MemStorage) (disk : Disk C) (save : Save)
      → Progress json cfg save m disk
      → IsSettled json cfg (step json cfg a (at json cfg m disk [] exited (last_save save)))
  unfolding step on_arrive on_request on_saver
  last_save-step arrive m disk save h = (refl, refl, h)
  last_save-step (request i b) m disk save h = (refl, refl, h)
  last_save-step (saver_does b) m disk save h = (refl, refl, h)
  last_save-step (main_does x) m disk save h = main_last_save json cfg m disk x save h

  -- without requests and without the saver
  alone :
      (a : Action C) (m : MemStorage) (disk : Disk C) (rs : List RequestState) (v : Saver)
      (p : Phase)
      → rs ≡ []
      → v ≡ exited
      → IsSettled json cfg (step json cfg a (at json cfg m disk [] exited p))
      → IsSettled json cfg (step json cfg a (at json cfg m disk rs v p))
  alone a m disk rs v p e f h =
      subst (λ rs'. IsSettled json cfg (step json cfg a (at json cfg m disk rs' v p))) (sym e)
        (subst (λ v'. IsSettled json cfg (step json cfg a (at json cfg m disk [] v' p))) (sym f) h)

  act-IsSettled :
      (a : Action C) (m : MemStorage) (disk : Disk C) (rs : List RequestState) (v : Saver)
      (p : Phase)
      → IsOrderly a
      → InPhase json cfg p (at json cfg m disk rs v p)
      → IsSettled json cfg (act json cfg a (at json cfg m disk rs v p))
  unfolding act
  act-IsSettled a m disk rs v serving o h =
      Early-step json cfg a _ tt o (λ x e. main_serving json cfg m disk x rs v)
  act-IsSettled a m disk rs v shutting_down o h =
      Early-step json cfg a _ tt o
        (λ x e. main_shutting_down json cfg m disk x rs v (subst IsOrderly e o))
  act-IsSettled a m disk rs v (failing e) o h =
      Early-step json cfg a _ tt o (λ x q. main_failing json cfg m disk x e rs v)
  act-IsSettled a m disk rs v stopping_saver o h =
      subst (λ rs'. IsSettled json cfg (step json cfg a (at json cfg m disk rs' v stopping_saver)))
        (sym h) (stopping-step a m disk v)
  act-IsSettled a m disk rs v last_copy o (e, f) =
      alone a m disk rs v last_copy e f (last_copy-step a m disk o)
  act-IsSettled a m disk rs v (last_save save) o (e, f, h) =
      alone a m disk rs v (last_save save) e f (last_save-step a m disk save h)
  act-IsSettled a m disk rs v (returned r) o h = h

  run-IsSettled :
      (schedule : List (Action C)) (s : System C)
      → All IsOrderly schedule
      → IsSettled json cfg s
      → IsSettled json cfg (run json cfg schedule s)
  unfolding run
  run-IsSettled [] s o h = h
  run-IsSettled (a ∷ schedule) s (o, os) h =
      run-IsSettled schedule (act json cfg a s) os
        (act-IsSettled a s.store s.disk s.requests s.saver s.phase o h)

  boot-IsSettled :
      (faults : Faults C) (disk : Disk C) → IsSettled json cfg (boot json cfg faults disk)
  unfolding boot
  boot-IsSettled faults disk = tt

  restored-IsValid : (ms : List Metrics) → IsValid (restore mem_storage ms new_mem_storage)
  restored-IsValid ms =
      subst IsValid (sym (restore-mem ms new_mem_storage))
        (update_batch-IsValid ms new_mem_storage new_mem_storage-IsValid)

  load-IsValid :
      (faults : Faults C) (disk : Disk C)
      → IsValid (load_from_file mem_storage json faults cfg.file_path disk new_mem_storage).1
  unfolding load_from_file
  load-IsValid faults disk = go (Dict.lookup cfg.file_path disk) faults.read
    where
      decoded :
          (o : Option (List Metrics))
          → IsValid
              (elim o as (λ x. Option Error × MemStorage) [
                | none ↦ (some "json: cannot unmarshal", new_mem_storage)
                | some ms ↦ (none, restore mem_storage ms new_mem_storage)
              ]).1
      decoded none = new_mem_storage-IsValid
      decoded (some ms) = restored-IsValid ms

      go :
          (o : Option C) (e : Option Error)
          → IsValid
              (elim o as (λ x. Option Error × MemStorage) [
                | none ↦ (none, new_mem_storage)
                | some content ↦ elim e as (λ x. Option Error × MemStorage) [
                  | some x ↦ (some x, new_mem_storage)
                  | none ↦ elim (json.unmarshal content) as (λ x. Option Error × MemStorage) [
                    | none ↦ (some "json: cannot unmarshal", new_mem_storage)
                    | some ms ↦ (none, restore mem_storage ms new_mem_storage)
                  ]
                ]
              ]).1
      go none e = new_mem_storage-IsValid
      go (some content) (some x) = new_mem_storage-IsValid
      go (some content) none = decoded (json.unmarshal content)

  boot-IsValid : (faults : Faults C) (disk : Disk C) → IsValid (boot json cfg faults disk).store
  unfolding boot
  boot-IsValid faults disk =
      elim (saves_to_file cfg && cfg.restore)
        as (λ b. IsValid (
          if b
          then (load_from_file mem_storage json faults cfg.file_path disk new_mem_storage).1
          else new_mem_storage)) [
            | true ↦ load-IsValid faults disk
            | false ↦ new_mem_storage-IsValid
          ]

  boot-restores :
      (disk : Disk C)
      → saves_to_file cfg ≡ true
      → cfg.restore ≡ true
      → (boot json cfg no_faults disk).store
        ≡ (load_from_file mem_storage json no_faults cfg.file_path disk new_mem_storage).1
  unfolding boot
  boot-restores disk f r = ground arith

  -- Whatever requests, saves and ticks come between, and whatever the file held before: when `serve`
  -- returns without an error after a `srv.Shutdown` that did not give up, a start that restores the file
  -- finds every gauge and counter as it was at the return, if the encoding of metrics reads back.
  pub run-restart :
      (reads : ReadsBack json) (faults : Faults C) (disk : Disk C) (schedule : List (Action C))
      → saves_to_file cfg ≡ true
      → cfg.restore ≡ true
      → All IsOrderly schedule
      → let s = run json cfg schedule (boot json cfg faults disk) in
        s.phase ≡ returned none → SameReads (boot json cfg no_faults s.disk).store s.store
  run-restart reads faults disk schedule f r o e = elim (Option-cases (json.marshal_indent ms)) [
    | inl missing ↦ absurd (n (q ∙ missing))
    | inr (c, g) ↦
        let loaded =
          load_after json cfg.file_path s.disk ms new_mem_storage c (q ∙ g) (reads ms c g) in
        subst (λ m. SameReads m s.store) (sym (boot-restores s.disk f r ∙ ap (λ p. p.1) loaded))
          (λ k. snapshot_rebuilds order law k s.store valid)
  ]
    where
      s : System C
      s = run json cfg schedule (boot json cfg faults disk)

      valid : IsValid s.store
      valid = run-IsValid json cfg schedule _ (boot-IsValid faults disk)

      kept : Encodes json cfg (Dict.lookup cfg.file_path s.disk) s.store
      kept =
          subst (λ p. InPhase json cfg p s) e
            (run-IsSettled schedule _ o (boot-IsSettled faults disk)) f

      order : MapOrder
      order = kept.0

      law : IsOrder order
      law = kept.1

      ms : List Metrics
      ms = snapshot order s.store.gauges s.store.counters

      q : Dict.lookup cfg.file_path s.disk ≡ json.marshal_indent ms
      q = kept.2

      n : Dict.lookup cfg.file_path s.disk ≢ none
      n = kept.3
