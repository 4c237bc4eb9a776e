-- ===== src/Serve/Closing.antt =====
-- cmd/server/main.go: what `serve` has deferred, by how it returns.
use gometrics.Prelude.{Option, none, some, List, [], ◌∷◌, ◌++◌, ◌==◌, if◌then◌else◌}
use gometrics.Config.Server.{Config}
use gometrics.Serve.Start.{StartError, pprof_failed, database_failed, key_failed, Target, audit_of}

-- a deferred call
pub data Closing : Type 0 where
  close_pprof : Closing
  close_database : Closing
  close_audit : Closing
  stop_periodic : Closing
  cancel_shutdown : Closing

-- how `serve` returns: before it listens, on a failure of the listener, or after the shutdown
pub data Return : Type 0 where
  not_started : StartError → Return
  listener_failed : Return
  shut_down : Return

abbrev pub pprof_opened : Config → List Closing
pprof_opened cfg = if cfg.pprof_addr == "" then [] else close_pprof ∷ []

abbrev pub database_opened : Config → List Closing
database_opened cfg = if cfg.database_dsn == "" then [] else close_database ∷ []

abbrev pub audit_opened : Option (List Target) → List Closing
audit_opened none = []
audit_opened (some targets) = close_audit ∷ []

-- the deferred calls in the order in which they are made, the last one deferred first
unfoldable pub deferred : Config → Return → List Closing
unfolding audit_of
deferred cfg (not_started (pprof_failed e)) = []
deferred cfg (not_started database_failed) = pprof_opened cfg
deferred cfg (not_started (key_failed e)) = database_opened cfg ++ pprof_opened cfg
deferred cfg listener_failed =
    stop_periodic ∷ (audit_opened (audit_of cfg) ++ (database_opened cfg ++ pprof_opened cfg))
deferred cfg shut_down =
    cancel_shutdown
    ∷ stop_periodic
    ∷ (audit_opened (audit_of cfg) ++ (database_opened cfg ++ pprof_opened cfg))
