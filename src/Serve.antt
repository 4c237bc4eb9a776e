-- ===== src/Serve.antt =====
-- cmd/server/main.go: `serve` without a database, from the restored store to the return, with
-- `RunPeriodicSave` of internal/storage/file.go, in steps that other goroutines can come between. A save
-- is three steps: the copy of the maps, the temporary file, the renaming.
pub mod Start
pub mod Closing
pub mod Saving
pub mod Valid
pub mod Phases
pub mod Returns
pub mod Restart
use gometrics.Prelude.{
  ℕ, zero, suc, String, Bool, true, false, Option, none, some, List, [], ◌∷◌, ◌++◌, ◌==◌, ◌&&◌, not,
  eqb, if◌then◌else◌,
}
use gometrics.Prelude.Dict
use gometrics.Models.{Metrics}
use gometrics.Storage.{Error}
use gometrics.Storage.Mem.{MemStorage, mem_storage, new_mem_storage}
use gometrics.Storage.Mem.Invariant.{Write, write}
use gometrics.Storage.File.{
  Json, MapOrder, Faults, Disk, snapshot, tmp, left_in_tmp, load_from_file,
}
use gometrics.Serve.Saving.{
  Save, copied, in_tmp, SaveStep, going, saved, save_failed, Answer, step_save,
}
use gometrics.Config.Agent.{not_positive}
use gometrics.Config.Server.{Config}

pub data RequestState : Type 0 where
  handling : RequestState
  saving : Save → RequestState

-- the goroutine of `RunPeriodicSave`; `exited` also where there is none
pub data Saver : Type 0 where
  selecting : Saver
  writing : Save → Saver
  exited : Saver

-- Where `serve` is: before a signal, in `srv.Shutdown`, in `stopPeriodic`, in the last save. `failing`
-- is `stopPeriodic` after the listener failed.
pub data Phase : Type 0 where
  serving : Phase
  shutting_down : Phase
  failing : Error → Phase
  stopping_saver : Phase
  last_copy : Phase
  last_save : Save → Phase
  returned : Option Error → Phase

pub record System (C : Type 0) : Type 0 where
  pub store : MemStorage
  pub disk : Disk C
  pub requests : List RequestState
  pub saver : Saver
  pub phase : Phase

-- a step of a handler: its change of the storage, and then, or instead, its synchronous save
pub data RequestAction (C : Type 0) : Type 0 where
  change : Write → RequestAction C
  begin_save : MapOrder → RequestAction C
  go_on : Answer C → RequestAction C
  finish : RequestAction C

pub data SaverAction (C : Type 0) : Type 0 where
  tick : MapOrder → SaverAction C
  tick_goes_on : Answer C → SaverAction C

-- a step of `serve` itself
pub data MainAction (C : Type 0) : Type 0 where
  signal : MainAction C
  listen_failed : Error → MainAction C
  drained : MainAction C
  timed_out : MainAction C
  saver_stops : MainAction C
  copy_all : MapOrder → MainAction C
  last_goes_on : Answer C → MainAction C

-- the number is that of a request among those that are being served
pub data Action (C : Type 0) : Type 0 where
  arrive : Action C
  request : ℕ → RequestAction C → Action C
  saver_does : SaverAction C → Action C
  main_does : MainAction C → Action C

-- `cfg.databaseDSN == "" && cfg.filePath != ""`
unfoldable pub saves_to_file : Config → Bool
saves_to_file cfg = cfg.database_dsn == "" && not (cfg.file_path == "")

unfoldable pub is_synchronous : Config → Bool
unfolding saves_to_file
is_synchronous cfg = saves_to_file cfg && eqb cfg.store_interval 0

-- an interval that is not positive ends `RunPeriodicSave` at once
unfoldable pub saver_of : Config → Saver
unfolding saves_to_file
saver_of cfg =
    if saves_to_file cfg && not (not_positive cfg.store_interval) then selecting else exited

abbrev pub nth : List RequestState → ℕ → Option RequestState
nth [] i = none
nth (r ∷ rs) zero = some r
nth (r ∷ rs) (suc i) = nth rs i

-- the request at a place goes on, or is done
abbrev pub replace : List RequestState → ℕ → List RequestState → List RequestState
replace [] i new = []
replace (r ∷ rs) zero new = new ++ rs
replace (r ∷ rs) (suc i) new = r ∷ replace rs i new

module _ {C : Type 0} (json : Json C) (cfg : Config) where
  -- the start of `serve`: an error of the restoring is logged
  unfoldable pub boot : Faults C → Disk C → System C
  unfolding saver_of saves_to_file
  boot faults disk = record {
    store =
        if saves_to_file cfg && cfg.restore
        then (load_from_file mem_storage json faults cfg.file_path disk new_mem_storage).1
        else new_mem_storage;
    disk = disk;
    requests = [];
    saver = saver_of cfg;
    phase = serving;
  }

  abbrev pub copy_of : MapOrder → System C → Save
  copy_of order s = copied (snapshot order s.store.gauges s.store.counters)

  -- an error of the save is logged, and the handler goes on
  abbrev pub request_after : SaveStep → RequestState
  request_after (going save) = saving save
  request_after saved = handling
  request_after (save_failed e) = handling

  abbrev pub saver_after : SaveStep → Saver
  saver_after (going save) = writing save
  saver_after saved = selecting
  saver_after (save_failed e) = selecting

  abbrev pub phase_after : SaveStep → Phase
  phase_after (going save) = last_save save
  phase_after saved = returned none
  phase_after (save_failed e) = returned (some e)

  on_handling : ℕ → RequestAction C → System C → System C
  on_handling i (change w) s = record s { store = write w s.store }
  on_handling i (begin_save order) s =
      let new = if is_synchronous cfg then saving (copy_of order s) else handling in
      record s { requests = replace s.requests i (new ∷ []) }
  on_handling i (go_on answer) s = s
  on_handling i finish s = record s { requests = replace s.requests i [] }

  on_saving : Save → ℕ → RequestAction C → System C → System C
  unfolding step_save
  on_saving save i (go_on answer) s =
      let (r, disk') = step_save json cfg.file_path save answer s.disk in
      record s { requests = replace s.requests i (request_after r ∷ []); disk = disk' }
  on_saving save i _ s = s

  unfoldable pub on_request : Option RequestState → ℕ → RequestAction C → System C → System C
  unfolding on_handling on_saving
  on_request none i a s = s
  on_request (some handling) i a s = on_handling i a s
  on_request (some (saving save)) i a s = on_saving save i a s

  -- a step of `RunPeriodicSave`: `<-ticker.C`, and the save that follows
  unfoldable pub on_saver : Saver → SaverAction C → System C → System C
  unfolding step_save
  on_saver exited a s = s
  on_saver selecting (tick order) s = record s { saver = writing (copy_of order s) }
  on_saver selecting (tick_goes_on answer) s = s
  on_saver (writing save) (tick order) s = s
  on_saver (writing save) (tick_goes_on answer) s =
      let (r, disk') = step_save json cfg.file_path save answer s.disk in
      record s { saver = saver_after r; disk = disk' }

  abbrev pub is_empty : List RequestState → Bool
  is_empty [] = true
  is_empty (r ∷ rs) = false

  -- `srv.Shutdown` waits for the requests that are being served
  on_drained : Phase → System C → System C
  on_drained shutting_down s =
      if is_empty s.requests then record s { phase = stopping_saver } else s
  on_drained _ s = s

  on_timed_out : Phase → System C → System C
  on_timed_out shutting_down s = record s { phase = stopping_saver }
  on_timed_out _ s = s

  -- `<-stop` in the goroutine, and `<-done` behind it
  unless_writing : Saver → System C → System C → System C
  unless_writing (writing save) s s' = s
  unless_writing selecting s s' = s'
  unless_writing exited s s' = s'

  on_saver_stops : Phase → Saver → System C → System C
  unfolding unless_writing
  on_saver_stops (failing e) saver s =
      unless_writing saver s (record s { saver = exited; phase = returned (some e) })
  on_saver_stops stopping_saver saver s =
      let next = if saves_to_file cfg then last_copy else returned none in
      unless_writing saver s (record s { saver = exited; phase = next })
  on_saver_stops _ saver s = s

  on_copy_all : Phase → MapOrder → System C → System C
  on_copy_all last_copy order s = record s { phase = last_save (copy_of order s) }
  on_copy_all _ order s = s

  on_last : Phase → Answer C → System C → System C
  unfolding step_save
  on_last (last_save save) answer s =
      let (r, disk') = step_save json cfg.file_path save answer s.disk in
      record s { phase = phase_after r; disk = disk' }
  on_last _ answer s = s

  -- new requests come in only before the signal
  on_arrive : Phase → System C → System C
  on_arrive serving s = record s { requests = s.requests ++ handling ∷ [] }
  on_arrive _ s = s

  on_signal : Phase → System C → System C
  on_signal serving s = record s { phase = shutting_down }
  on_signal _ s = s

  on_listen_failed : Phase → Error → System C → System C
  on_listen_failed serving e s = record s { phase = failing e }
  on_listen_failed _ e s = s

  unfoldable pub on_main : MainAction C → System C → System C
  unfolding on_drained on_timed_out on_saver_stops on_copy_all on_last on_signal on_listen_failed
  on_main signal s = on_signal s.phase s
  on_main (listen_failed e) s = on_listen_failed s.phase e s
  on_main drained s = on_drained s.phase s
  on_main timed_out s = on_timed_out s.phase s
  on_main saver_stops s = on_saver_stops s.phase s.saver s
  on_main (copy_all order) s = on_copy_all s.phase order s
  on_main (last_goes_on answer) s = on_last s.phase answer s

  unfoldable pub step : Action C → System C → System C
  unfolding on_request on_saver on_main on_arrive
  step arrive s = on_arrive s.phase s
  step (request i a) s = on_request (nth s.requests i) i a s
  step (saver_does a) s = on_saver s.saver a s
  step (main_does a) s = on_main a s

  abbrev pub has_returned : Phase → Bool
  has_returned (returned e) = true
  has_returned _ = false

  -- the process ends when `serve` has returned
  unfoldable pub act : Action C → System C → System C
  unfolding step
  act a s = let s' = step a s in if has_returned s.phase then s else s'

  unfoldable pub run : List (Action C) → System C → System C
  unfolding act
  run [] s = s
  run (a ∷ schedule) s = run schedule (act a s)
