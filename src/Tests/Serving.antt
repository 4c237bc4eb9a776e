-- ===== src/Tests/Serving.antt =====
-- A run of a server up to its return, and of two synchronous saves that cross.
use gometrics.Storage.Mem.{new_mem_storage}
use gometrics.Prelude.{true, true, none, List, [], ◌∷◌, ◌≡◌, refl, All, sym, some}
use gometrics.Prelude.Dict
use gometrics.Models.{Metrics}
use gometrics.Storage.Mem.Invariant.{counter_write, gauge_write}
use gometrics.Storage.Mem
use gometrics.Storage.File.{load_from_file, gauge_record, snapshot, no_faults}
use gometrics.Storage.File.Trip.{ReadsBack, SameReads}
use gometrics.Config.Server.{Config}
use gometrics.Serve.Saving.{copied, Answer, step_save, write_tmp, rename_tmp}
use gometrics.Serve.{
  has_returned, writing, shutting_down, Action, arrive, request, change, finish, saver_does, tick,
  tick_goes_on, main_does, signal, drained, saver_stops, copy_all, last_goes_on, returned, run,
  boot, act, step, on_request, on_main, on_saver, saver_of, saves_to_file, begin_save,
  is_synchronous, go_on,
}
use gometrics.Serve.Phases.{at, IsOrderly}
use gometrics.Serve.Returns.{closing_steps, closing_steps-returned}
use gometrics.Serve.Restart.{run-restart}
use gometrics.Tests.{json, same_order, same_order-IsOrder}

abbrev config : Config
config = record {
  config_path = "";
  addr = "localhost:8080";
  store_interval = 300;
  file_path = "metrics.json";
  restore = true;
  database_dsn = "";
  key = "";
  crypto_key = "";
  audit_file = "";
  audit_url = "";
  pprof_addr = "";
}

abbrev fine : Answer (List Metrics)
fine = record { write = none; rename = none }

-- a tick that is in the middle of its save when the signal comes, and a request that ends after it
abbrev schedule : List (Action (List Metrics))
schedule =
    arrive
    ∷ request 0 (change (counter_write "Polls" 3))
    ∷ saver_does (tick same_order)
    ∷ main_does signal
    ∷ request 0 (change (gauge_write "Load" 5))
    ∷ saver_does (tick_goes_on fine)
    ∷ request 0 finish
    ∷ main_does drained
    ∷ saver_does (tick_goes_on fine)
    ∷ main_does saver_stops
    ∷ main_does (copy_all same_order)
    ∷ main_does (last_goes_on fine)
    ∷ main_does (last_goes_on fine)
    ∷ []

orderly : All IsOrderly schedule
orderly =
    (tt, (tt, (tt, (tt, (tt, (tt, (tt, (tt, (tt, (tt, (same_order-IsOrder, (tt, (tt, tt)))))))))))))

reads : ReadsBack json
reads ms c e = sym e

ended : (run json config schedule (boot json config no_faults [])).phase ≡ returned none
unfolding run boot act step on_request on_main on_saver step_save saver_of saves_to_file Dict.lookup
    Dict.insert Dict.erase write_tmp rename_tmp
ended = refl

to_file : saves_to_file config ≡ true
unfolding saves_to_file
to_file = refl

run-restart_example :
    let s = run json config schedule (boot json config no_faults []) in
    SameReads (boot json config no_faults s.disk).store s.store
run-restart_example = run-restart json config reads no_faults [] schedule to_file refl orderly ended

abbrev synchronous : Config
synchronous = record config { store_interval = 0 }

-- the second request copies last and renames first, and what it renames is the file of the first
abbrev crossing : List (Action (List Metrics))
crossing =
    arrive
    ∷ arrive
    ∷ request 0 (change (gauge_write "Load" 5))
    ∷ request 0 (begin_save same_order)
    ∷ request 1 (change (counter_write "Polls" 3))
    ∷ request 1 (begin_save same_order)
    ∷ request 1 (go_on fine)
    ∷ request 0 (go_on fine)
    ∷ request 1 (go_on fine)
    ∷ request 1 finish
    ∷ []

crossed :
    Dict.lookup "metrics.json"
      (run json synchronous crossing (boot json synchronous no_faults [])).disk
    ≡ some (record { id = "Load"; mtype = "gauge"; delta = none; value = some 5; hash = "" } ∷ [])
unfolding run boot act step on_request step_save saver_of saves_to_file is_synchronous Dict.lookup
    Dict.insert Dict.erase write_tmp rename_tmp snapshot Mem.set_gauge load_from_file
    Mem.new_mem_storage gauge_record
crossed = refl

-- the saver has copied the maps when the signal comes
closing_steps-returned_example :
    has_returned json config
      (run json config
        (closing_steps json config same_order fine fine fine fine)
        (at json config new_mem_storage [] [] (writing (copied [])) shutting_down)).phase
    ≡ true
closing_steps-returned_example =
    closing_steps-returned json config same_order fine fine fine fine new_mem_storage []
      (writing (copied []))
