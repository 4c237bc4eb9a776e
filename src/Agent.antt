-- ===== src/Agent.antt =====
-- internal/agent/agent.go: the collector and the snapshot of it that is sent. What `runtime` and
-- gopsutil measure, and the conversion of a `uint64` to a float, are parameters.
pub mod Queue
pub mod Send
pub mod Counting
pub mod Start
pub mod Run
use Prim.Native.String.{◌++◌ as str_append}
use gometrics.Prelude.{
  ℕ, ◌+◌, ◌%◌, ◌^◌, String, Bool, true, false, Option, none, some, get_or, List, [], ◌∷◌, ◌++◌, map,
}
use gometrics.Prelude.Dict
use gometrics.Prelude.Dict.{Dict}
use gometrics.Models.{Metrics, Int64, Float64, add64, gauge, counter}
use gometrics.Storage.File.{MapOrder}

-- `Collector`
pub record Collector : Type 0 where
  pub gauge : Dict Float64
  pub counter : Dict Int64

abbrev pub new_collector : Collector
new_collector = record { gauge = []; counter = [] }

-- the fields of `runtime.MemStats` that are read, but the one that is a float, with their names
abbrev pub stat_names : List String
stat_names =
    "Alloc" ∷ "BuckHashSys" ∷ "Frees" ∷ "GCSys" ∷ "HeapAlloc" ∷ "HeapIdle" ∷ "HeapInuse"
    ∷ "HeapObjects" ∷ "HeapReleased" ∷ "HeapSys" ∷ "LastGC" ∷ "Lookups" ∷ "MCacheInuse"
    ∷ "MCacheSys" ∷ "MSpanInuse" ∷ "MSpanSys" ∷ "Mallocs" ∷ "NextGC" ∷ "NumForcedGC" ∷ "NumGC"
    ∷ "OtherSys" ∷ "PauseTotalNs" ∷ "StackInuse" ∷ "StackSys" ∷ "Sys" ∷ "TotalAlloc" ∷ []

-- One reading: `runtime.MemStats` by the names of its fields, and `rand.Float64()`.
pub record Reading : Type 0 where
  pub stat : String → ℕ
  pub gc_cpu_fraction : Float64
  pub random : Float64

-- One reading of gopsutil; `none` is an error.
pub record PsReading : Type 0 where
  pub memory : Option (ℕ × ℕ)
  pub percentages : Option (List Float64)

set_stats : (ℕ → Float64) → (String → ℕ) → List String → Dict Float64 → Dict Float64
set_stats to_float stat [] m = m
set_stats to_float stat (name ∷ names) m =
    set_stats to_float stat names (Dict.insert name (to_float (stat name)) m)

-- `UpdateMetrics`
unfoldable pub update_metrics : (ℕ → Float64) → Reading → Collector → Collector
unfolding set_stats
update_metrics to_float r c = record {
  gauge = Dict.insert "RandomValue" r.random (
      Dict.insert "GCCPUFraction" r.gc_cpu_fraction (set_stats to_float r.stat stat_names c.gauge));
  counter =
      Dict.insert "PollCount" (add64 (get_or (Dict.lookup "PollCount" c.counter) 0) 1) c.counter;
}

-- the loop over the cores from number `i` on; `show` is `%d`
set_cores : (ℕ → String) → ℕ → List Float64 → Dict Float64 → Dict Float64
set_cores show i [] m = m
set_cores show i (p ∷ ps) m =
    set_cores show (i + 1) ps (Dict.insert (str_append "CPUutilization" (show (i + 1))) p m)

-- `UpdatePSUtilMetrics`: did it succeed, and the collector
unfoldable pub update_ps_util_metrics :
    (ℕ → Float64) → (ℕ → String) → PsReading → Collector → Bool × Collector
unfolding set_cores
update_ps_util_metrics to_float show r c = elim r.memory [
  | none ↦ (false, c)
  | some (total, free) ↦ elim r.percentages [
    | none ↦ (false, c)
    | some ps ↦ (
      true,
      record c {
        gauge = set_cores show 0 ps (
            Dict.insert "FreeMemory" (to_float free)
              (Dict.insert "TotalMemory" (to_float total) c.gauge));
      },
    )
  ]
]

-- `Reset`, of a collector that is not nil
abbrev pub reset : Collector → Collector
reset c = record c { gauge = []; counter = [] }

unfoldable pub gauge_metric : String × Float64 → Metrics
gauge_metric (name, v) = record {
  id = name;
  mtype = gauge;
  delta = none;
  value = some v;
  hash = "";
}

unfoldable pub counter_metric : String × Int64 → Metrics
counter_metric (name, d) = record {
  id = name;
  mtype = counter;
  delta = some d;
  value = none;
  hash = "";
}

-- The two loops of `buildBatch`, each over the copy that `GetGauge` or `GetCounter` returns. The order
-- in which a map is visited is the argument.
unfoldable pub gauge_part : MapOrder → Collector → List Metrics
unfolding gauge_metric
gauge_part order c = map gauge_metric (order.gauge_range c.gauge)

unfoldable pub counter_part : MapOrder → Collector → List Metrics
unfolding counter_metric
counter_part order c = map counter_metric (order.counter_range c.counter)

unfoldable pub build_batch : MapOrder → Collector → List Metrics
unfolding gauge_part counter_part
build_batch order c = gauge_part order c ++ counter_part order c
