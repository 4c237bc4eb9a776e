-- ===== src/Tests/Tools.antt =====
-- Runs of the load generator, the generator of `Reset` methods and the audit of files.
use gometrics.Handler.Batch.{validate}
use gometrics.Prelude.{
  total, ℕ, ◌+◌, ◌≤◌, true, false, Option, some, List, [], ◌∷◌, ◌++◌, ◌≡◌, ◌⊎◌, ◌↔◌, refl, All,
  ltb→lt, leb→le, Bytes, none, ◌<◌,
}
use gometrics.Models.{Metrics}
use gometrics.Audit.{Subject, Event}
use gometrics.Audit.Observers.{FileObserver, FileState, new_file_observer, file_interface}
use gometrics.Audit.Observers.Lines.{in_order, log, run-log}
use gometrics.Audit.Worker.{Action, publish, take_job, start, run}
use gometrics.Agent
use gometrics.Loadgen
use gometrics.Handler.Accepted.Clients.{validate-build_batch}
use gometrics.Loadgen.{Tools, Load, Choice, new_counters}
use gometrics.Loadgen.Phases.{seed}
use gometrics.Loadgen.Workers.{Action as WorkerAction, work, run_workers, start_workers}
use gometrics.Loadgen.Workers.Moves.{due}
use gometrics.Loadgen.Workers.Limit.{run_workers-limit}
use gometrics.Loadgen.Seeding.{IsBatch, posts, concat, seed-posts}
use gometrics.Loadgen.Requests.{kinds}
use gometrics.Reset.{star, selector, PkgInfo, collect_imports, seen}
use gometrics.Reset.Imports.{Distinct, InStructs, collect_imports-exact}
use gometrics.Reset.Scan.{Entry, dir, no_dirs, and_dir, Dir, scan_packages}
use gometrics.Reset.Scan.Visited.{visited, packages_of, scan_packages-visited}
use gometrics.Tests.{event, same_order}

-- a server that answers everything with 200
abbrev tools : Tools ℕ
tools = record {
  show = λ n. "0";
  half_more = λ n. n;
  marshal_list = λ ms. some (1 ∷ []);
  marshal_one = λ m. some (2 ∷ []);
  gzip = λ b. b;
  hmac = λ key b. b;
  url_ok = λ url. true;
  do_request = λ url r n. (record { status = some 200; context_done = false }, n + 1);
}

abbrev config : Loadgen.Config
config = record {
  addr = "http://localhost:8080";
  workers = 1;
  duration = 0;
  seed_metrics = 5;
  batch_size = 2;
  requests = 1;
  key = "";
}

abbrev fresh : Load ℕ
fresh = record { counters = new_counters; cancelled = false; net = 0 }

seed-posts_example :
    (batches : List (List Metrics)) × (seed tools config fresh
      ≡ some (posts tools config batches fresh))
    × (concat tools config batches ≡ Loadgen.build_batch tools 0 5)
    × All (IsBatch tools config) batches
seed-posts_example = seed-posts tools config fresh (ltb→lt _ _ refl)

abbrev limited : Load ℕ
limited = record fresh { counters = record new_counters { limit = 1 } }

abbrev root_choice : Choice
root_choice = record { roll = 90; index = 0 }

-- two workers that both pass the test of the context before the limit is reached
abbrev crossing : List WorkerAction
crossing =
    work 0 root_choice false
    ∷ work 1 root_choice false
    ∷ work 0 root_choice false
    ∷ work 1 root_choice false
    ∷ work 0 root_choice false
    ∷ work 1 root_choice false
    ∷ work 0 root_choice false
    ∷ work 1 root_choice false
    ∷ []

run_workers-limit_example :
    let s = run_workers tools config crossing (start_workers 2 limited) in
    ((s.load.counters.requests < 1 + 2) ⊎ (s.load.counters.requests ≤ 0 + 2))
    × (s.load.counters.requests ≤ kinds s.load.counters + total due s.workers)
run_workers-limit_example =
    run_workers-limit tools config crossing 2 0 limited (ltb→lt _ _ refl) (leb→le _ _ refl)
      (leb→le _ _ refl)

-- the two requests are counted although the limit is 1
run_workers-over :
    (run_workers tools config crossing (start_workers 2 limited)).load.counters.requests ≡ 2
unfolding run_workers
run_workers-over = refl

abbrev pool_package : PkgInfo
pool_package = record {
  dir = "pool";
  name = "pool";
  structs =
      record {
        name = "Job";
        fields =
            record { names = "at" ∷ []; type_expr = star (selector (some "time") "Time") }
            ∷ record { names = "mu" ∷ []; type_expr = selector (some "sync") "Mutex" }
            ∷ [];
      }
      ∷ [];
}

collect_imports-exact_example :
    Distinct (collect_imports pool_package)
    × ((seen "time" (collect_imports pool_package) ≡ true) ↔ InStructs "time" pool_package.structs)
collect_imports-exact_example = collect_imports-exact pool_package "time"

abbrev entries : List Entry
entries =
    record {
      name = "job.go";
      parsed = some (record {
        package_name = "pool";
        decls =
            record {
              is_type = true;
              doc = "// generate:reset" ∷ [];
              specs = record { name = "Job"; struct_fields = some [] } ∷ [];
            }
            ∷ [];
      });
    }
    ∷ []

abbrev tree : Dir
tree = dir "/src" "src" (some []) (and_dir (dir "/src/pool" "pool" (some entries) no_dirs) no_dirs)

scan_packages-visited_example : scan_packages tree ≡ packages_of (visited tree)
scan_packages-visited_example = scan_packages-visited tree

abbrev marshal : Event → Option Bytes
marshal e = some (123 ∷ 125 ∷ [])

abbrev files : Subject FileState
files = record {
  observers = in_order marshal (new_file_observer "audit.log") ∷ [];
  queue_size = 1;
  sync = false;
  jobs = [];
  stop = false;
  done = false;
  dropped = 0;
}

abbrev schedule : List Action
schedule = publish event ∷ take_job ∷ publish event ∷ []

run-log_example :
    let s' = run (file_interface marshal) schedule (start files) in
    (f : FileObserver) × (s'.subject.observers ≡ in_order marshal f ∷ [])
    × (f.written ≡ log marshal s'.handed)
    × (s'.accepted ≡ s'.handed ++ s'.subject.jobs)
run-log_example = run-log marshal schedule "audit.log" files refl refl refl refl refl

validate-build_batch_example :
    (validate (Agent.build_batch same_order Agent.new_collector) ≡ none)
    × (validate (Loadgen.build_batch tools 3 5) ≡ none)
validate-build_batch_example = validate-build_batch same_order Agent.new_collector tools 3 5
