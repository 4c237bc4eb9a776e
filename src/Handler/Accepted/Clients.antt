-- ===== src/Handler/Accepted/Clients.antt =====
-- The batches that the repository's own clients send to `/updates`.
use gometrics.Prelude.{
  true, false, ℕ, String, none, List, [], ◌∷◌, ◌++◌, ◌≡◌, refl, arith, map, zero, suc, ◌-◌, eqb,
  ◌%◌, if◌then◌else◌, ◌==◌,
}
use gometrics.Models.{gauge, counter, Metrics, gauge, counter}
use gometrics.Storage.File.{MapOrder}
use gometrics.Agent
use gometrics.Agent.{Collector, gauge_metric, counter_metric, gauge_part, counter_part}
use gometrics.Loadgen
use gometrics.Loadgen.{Tools, metric, metrics_from, metric_type, metric_name}
use gometrics.Handler.Batch.{check, validate}

validate-append :
    (xs ys : List Metrics) → validate xs ≡ none → validate ys ≡ none → validate (xs ++ ys) ≡ none
unfolding validate
validate-append [] ys h k = k
validate-append (m ∷ xs) ys h k = ground (arith, validate-append xs ys _ k)

validate-map :
    {A : Type 0} (f : A → Metrics) (xs : List A)
    → ((x : A) → check (f x) ≡ none)
    → validate (map f xs) ≡ none
unfolding validate
validate-map f [] h = refl
validate-map f (x ∷ xs) h = rw (h x, validate) (validate-map f xs h)

check-gauge_metric : (p : String × ℕ) → check (gauge_metric p) ≡ none
unfolding check gauge_metric
check-gauge_metric (k, v) = refl

check-counter_metric : (p : String × ℕ) → check (counter_metric p) ≡ none
unfolding check counter_metric
check-counter_metric (k, v) = refl

module _ {S : Type 0} (t : Tools S) where
  check-metric : (i : ℕ) → check (metric t i) ≡ none
  unfolding check metric metric_type gauge_metric counter_metric
  check-metric i =
      elim (eqb (i % 2) 0)
        as (λ even.
          let m =
            (if (if even then gauge else counter) == gauge
              then gauge_metric (metric_name t i, t.half_more i)
              else counter_metric (metric_name t i, i % 97)) in
          check m ≡ none) [ true ↦ refl | false ↦ refl ]

  validate-metrics_from : (n i : ℕ) → validate (metrics_from t n i) ≡ none
  unfolding validate metrics_from
  validate-metrics_from zero i = refl
  validate-metrics_from (suc n) i = rw (check-metric i, validate) (validate-metrics_from n (suc i))

-- Every batch that the agent builds of its collector, in whatever order the maps are read, and every
-- batch of the load generator passes the validation of `UpdatesJSONHandler`: each metric has the type
-- gauge and a value, or the type counter and a delta.
pub validate-build_batch :
    {S : Type 0} (order : MapOrder) (c : Collector) (t : Tools S) (from to : ℕ)
    → (validate (Agent.build_batch order c) ≡ none)
      × (validate (Loadgen.build_batch t from to) ≡ none)
unfolding Agent.build_batch Loadgen.build_batch gauge_part counter_part
validate-build_batch order c t from to = (
  validate-append (gauge_part order c) (counter_part order c)
      (validate-map gauge_metric (order.gauge_range c.gauge) check-gauge_metric)
      (validate-map counter_metric (order.counter_range c.counter) check-counter_metric),
  validate-metrics_from t (to - from) from,
)
