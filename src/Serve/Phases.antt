-- ===== src/Serve/Phases.antt =====
-- What holds in each phase of a server that waits for its requests before the last save.
use gometrics.Prelude.{
  ℕ, Bool, true, false, Option, none, some, List, [], ◌∷◌, ◌≡◌, ◌≢◌, refl, sym, ap, subst, arith,
  eq_refl, if◌then◌else◌,
}
use gometrics.Prelude.Dict
use gometrics.Prelude.Dict.{lookup-insert, lookup-erase}
use gometrics.Storage.{Error}
use gometrics.Storage.Mem.{MemStorage}
use gometrics.Storage.File.{Json, MapOrder, Disk, snapshot, tmp}
use gometrics.Storage.File.Atomic.{tmp_ne}
use gometrics.Storage.File.Trip.{IsOrder}
use gometrics.Config.Server.{Config}
use gometrics.Serve.Saving.{Save, copied, in_tmp, step_save, write_tmp, rename_tmp}
use gometrics.Serve.{
  RequestState, Saver, selecting, writing, exited, Phase, serving, shutting_down, failing,
  stopping_saver, last_copy, last_save, returned, System, Action, arrive, request, saver_does,
  main_does, RequestAction, SaverAction, MainAction, signal, listen_failed, drained, timed_out,
  saver_stops, copy_all, last_goes_on, saves_to_file, on_request, on_saver, on_main, step,
  on_arrive, phase_after,
}

-- `srv.Shutdown` does not give up, and the last copy visits each entry once
abbrev pub IsOrderly : {C : Type 0} → Action C → Type 0
IsOrderly (main_does timed_out) = ⊥
IsOrderly (main_does (copy_all order)) = IsOrder order
IsOrderly _ = Unit

module _ {C : Type 0} (json : Json C) (cfg : Config) where
  -- contents that are the encoding of the store
  abbrev pub Encodes : Option C → MemStorage → Type 0
  Encodes o m =
      (order : MapOrder) × IsOrder order
      × (o ≡ json.marshal_indent (snapshot order m.gauges m.counters))
      × (o ≢ none)

  abbrev pub Progress : Save → MemStorage → Disk C → Type 0
  Progress (copied ms) m disk =
      (order : MapOrder) × IsOrder order × (ms ≡ snapshot order m.gauges m.counters)
  Progress in_tmp m disk = Encodes (Dict.lookup (tmp cfg.file_path) disk) m

  -- after `srv.Shutdown` no request is left; in the last save the saver is gone too
  abbrev pub InPhase : Phase → System C → Type 0
  InPhase serving s = Unit
  InPhase shutting_down s = Unit
  InPhase (failing e) s = Unit
  InPhase stopping_saver s = s.requests ≡ []
  InPhase last_copy s = (s.requests ≡ []) × (s.saver ≡ exited)
  InPhase (last_save save) s = (s.requests ≡ []) × (s.saver ≡ exited) × Progress save s.store s.disk
  InPhase (returned none) s =
      saves_to_file cfg ≡ true → Encodes (Dict.lookup cfg.file_path s.disk) s.store
  InPhase (returned (some e)) s = Unit

  abbrev pub IsSettled : System C → Type 0
  IsSettled s = InPhase s.phase s

  abbrev pub at : MemStorage → Disk C → List RequestState → Saver → Phase → System C
  at m disk requests saver phase = record {
    store = m;
    disk = disk;
    requests = requests;
    saver = saver;
    phase = phase;
  }

  -- the phases before `srv.Shutdown` has returned
  abbrev pub Early : Phase → Type 0
  Early serving = Unit
  Early shutting_down = Unit
  Early (failing e) = Unit
  Early _ = ⊥

  Early-IsSettled : (s : System C) → Early s.phase → IsSettled s
  Early-IsSettled s e = go s.phase e
    where
      go : (p : Phase) → Early p → InPhase p s
      go serving e = tt
      go shutting_down e = tt
      go (failing x) e = tt
      go stopping_saver e = elim e [ ]
      go last_copy e = elim e [ ]
      go (last_save save) e = elim e [ ]
      go (returned r) e = elim e [ ]

  on_request-phase :
      (o : Option RequestState) (i : ℕ) (a : RequestAction C) (s : System C)
      → (on_request json cfg o i a s).phase ≡ s.phase
  unfolding on_request
  on_request-phase o i a s = ground arith

  on_arrive-phase : (p : Phase) (s : System C) → (on_arrive json cfg p s).phase ≡ s.phase
  unfolding on_arrive
  on_arrive-phase p s = ground arith

  pub on_saver-phase :
      (v : Saver) (a : SaverAction C) (s : System C) → (on_saver json cfg v a s).phase ≡ s.phase
  unfolding on_saver
  on_saver-phase v a s = ground arith

  -- before: whatever a request or the saver does
  pub Early-step :
      (a : Action C) (s : System C)
      → Early s.phase
      → IsOrderly a
      → ((x : MainAction C) → a ≡ main_does x → IsSettled (on_main json cfg x s))
      → IsSettled (step json cfg a s)
  unfolding step
  Early-step arrive s e o h = Early-IsSettled _ (subst Early (sym (on_arrive-phase s.phase s)) e)
  Early-step (request i a) s e o h =
      Early-IsSettled _ (subst Early (sym (on_request-phase _ i a s)) e)
  Early-step (saver_does a) s e o h =
      Early-IsSettled _ (subst Early (sym (on_saver-phase s.saver a s)) e)
  Early-step (main_does x) s e o h = h x refl

  module _ (m : MemStorage) (disk : Disk C) where
    pub main_serving :
        (x : MainAction C) (rs : List RequestState) (v : Saver)
        → IsSettled (on_main json cfg x (at m disk rs v serving))
    unfolding on_main
    main_serving signal rs v = tt
    main_serving (listen_failed e) rs v = tt
    main_serving drained rs v = tt
    main_serving timed_out rs v = tt
    main_serving saver_stops rs v = tt
    main_serving (copy_all order) rs v = tt
    main_serving (last_goes_on answer) rs v = tt

    pub main_shutting_down :
        (x : MainAction C) (rs : List RequestState) (v : Saver)
        → IsOrderly (main_does x)
        → IsSettled (on_main json cfg x (at m disk rs v shutting_down))
    unfolding on_main
    main_shutting_down signal rs v o = tt
    main_shutting_down (listen_failed e) rs v o = tt
    main_shutting_down drained [] v o = refl
    main_shutting_down drained (r ∷ rs) v o = tt
    main_shutting_down timed_out rs v o = elim o [ ]
    main_shutting_down saver_stops rs v o = tt
    main_shutting_down (copy_all order) rs v o = tt
    main_shutting_down (last_goes_on answer) rs v o = tt

    pub main_failing :
        (x : MainAction C) (e : Error) (rs : List RequestState) (v : Saver)
        → IsSettled (on_main json cfg x (at m disk rs v (failing e)))
    unfolding on_main
    main_failing signal e rs v = tt
    main_failing (listen_failed e') e rs v = tt
    main_failing drained e rs v = tt
    main_failing timed_out e rs v = tt
    main_failing saver_stops e rs selecting = tt
    main_failing saver_stops e rs (writing save) = tt
    main_failing saver_stops e rs exited = tt
    main_failing (copy_all order) e rs v = tt
    main_failing (last_goes_on answer) e rs v = tt

    -- `stopPeriodic` has waited
    saver_gone :
        (b : Bool)
        → saves_to_file cfg ≡ b
        → IsSettled (at m disk [] exited (if b then last_copy else returned none))
    saver_gone true e = (refl, refl)
    saver_gone false e = λ f. cc

    pub main_stopping :
        (x : MainAction C) (v : Saver)
        → IsSettled (on_main json cfg x (at m disk [] v stopping_saver))
    unfolding on_main
    main_stopping signal v = refl
    main_stopping (listen_failed e) v = refl
    main_stopping drained v = refl
    main_stopping timed_out v = refl
    main_stopping saver_stops selecting = saver_gone (saves_to_file cfg) refl
    main_stopping saver_stops (writing save) = refl
    main_stopping saver_stops exited = saver_gone (saves_to_file cfg) refl
    main_stopping (copy_all order) v = refl
    main_stopping (last_goes_on answer) v = refl

    pub main_last_copy :
        (x : MainAction C)
        → IsOrderly (main_does x)
        → IsSettled (on_main json cfg x (at m disk [] exited last_copy))
    unfolding on_main
    main_last_copy signal o = (refl, refl)
    main_last_copy (listen_failed e) o = (refl, refl)
    main_last_copy drained o = (refl, refl)
    main_last_copy timed_out o = (refl, refl)
    main_last_copy saver_stops o = (refl, refl)
    main_last_copy (copy_all order) o = (refl, refl, (order, o, refl))
    main_last_copy (last_goes_on answer) o = (refl, refl)

    after_write_tmp :
        (order : MapOrder) (o : Option C) (w : Option (Error × Option C))
        → IsOrder order
        → o ≡ json.marshal_indent (snapshot order m.gauges m.counters)
        → let (r, disk') = write_tmp json cfg.file_path o w disk in
          IsSettled (at m disk' [] exited (phase_after json cfg r))
    unfolding write_tmp
    after_write_tmp order none w law e = tt
    after_write_tmp order (some c) none law e = (
      refl,
      refl,
      (
        order,
        law,
        rw (lookup-insert, eq_refl (tmp cfg.file_path)) e,
        rw (lookup-insert, eq_refl (tmp cfg.file_path)) (λ f. cc),
      ),
    )
    after_write_tmp order (some c) (some (x, left)) law e = tt

    after_rename_tmp :
        (o : Option C) (r : Option Error)
        → Encodes o m
        → let (r', disk') = rename_tmp json cfg.file_path o r disk in
          IsSettled (at m disk' [] exited (phase_after json cfg r'))
    unfolding rename_tmp
    after_rename_tmp none none h = tt
    after_rename_tmp (some c) none (order, law, e, n) = λ f. (
      order,
      law,
      rw (lookup-erase, tmp_ne cfg.file_path, lookup-insert, eq_refl cfg.file_path) e,
      rw (lookup-erase, tmp_ne cfg.file_path, lookup-insert, eq_refl cfg.file_path) (λ f. cc),
    )
    after_rename_tmp o (some x) h = tt

    pub main_last_save :
        (x : MainAction C) (save : Save)
        → Progress save m disk
        → IsSettled (on_main json cfg x (at m disk [] exited (last_save save)))
    unfolding on_main step_save
    main_last_save signal save h = (refl, refl, h)
    main_last_save (listen_failed e) save h = (refl, refl, h)
    main_last_save drained save h = (refl, refl, h)
    main_last_save timed_out save h = (refl, refl, h)
    main_last_save saver_stops save h = (refl, refl, h)
    main_last_save (copy_all order) save h = (refl, refl, h)
    main_last_save (last_goes_on answer) (copied ms) (order, law, e) =
        after_write_tmp order (json.marshal_indent ms) answer.write law (ap json.marshal_indent e)
    main_last_save (last_goes_on answer) in_tmp h =
        after_rename_tmp (Dict.lookup (tmp cfg.file_path) disk) answer.rename h
