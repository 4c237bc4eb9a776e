-- ===== src/Loadgen/Command.antt =====
-- _tools/loadgen/main.go: the command of the load generator, up to what it prints.
-- `json.MarshalIndent` is a parameter.
use gometrics.Prelude.{String, Option, none, some, List}
use gometrics.Config.{Flags, string_var, int_var}
use gometrics.Loadgen.{Config, Stats, Tools, List}
use gometrics.Loadgen.Workers.{Action, run}

-- the flags with their defaults; a duration is a number of nanoseconds
unfoldable pub config_of : Flags → Config
unfolding string_var int_var
config_of fs = record {
  addr = string_var fs "addr" "http://127.0.0.1:8080";
  workers = int_var fs "workers" 8;
  duration = int_var fs "duration" 30000000000;
  seed_metrics = int_var fs "metrics" 5000;
  batch_size = int_var fs "batch" 100;
  requests = int_var fs "requests" 0;
  key = string_var fs "key" "";
}

-- how the process ends: with what it has printed, or with code 1
pub data Exit : Type 0 where
  printed : String → Exit
  failed : Exit

abbrev printed_stats : Option String → Exit
printed_stats none = failed
printed_stats (some out) = printed out

abbrev exit_of : (Stats → Option String) → Option String → Stats → Exit
exit_of marshal (some e) stats = failed
exit_of marshal none stats = printed_stats (marshal stats)

-- `main`; `none`: the seeding has run out of fuel
unfoldable pub main :
    {S : Type 0} → Tools S → (Stats → Option String) → Flags → List Action → S → Option Exit
unfolding config_of run
main t marshal fs schedule s = elim (run t (config_of fs) schedule s) [
  | none ↦ none
  | some (err, stats, s') ↦ some (exit_of marshal err stats)
]
