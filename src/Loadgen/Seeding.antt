-- ===== src/Loadgen/Seeding.antt =====
-- What the seeding of the load generator posts.
use native.Mathlib.Nat.{zero-add}
use mathlib.Core.Path.{ap₂}
use gometrics.Prelude.{
  ℕ, zero, suc, ◌+◌, ◌-◌, ◌≤◌, ◌<◌, String, Option, none, some, List, [], ◌∷◌, ◌++◌, ◌≡◌, refl, ap,
  ◌∙◌, arith, ltb, length, if◌then◌else◌, All, Bool-cases, inl, inr, ltb→lt, ◌⊎◌, append-nil,
}
use gometrics.Models.{Metrics}
use gometrics.Loadgen.{Config, Load, Tools, metrics_from, build_batch, post_batch, metric}
use gometrics.Loadgen.Phases.{batch_end, seed_from, seed, after_post, seeded}

module _ {S : Type 0} (t : Tools S) (cfg : Config) where
  -- each of these batches is posted and counted, up to the first error
  unfoldable pub posts : List (List Metrics) → Load S → Option String × Load S
  posts [] l = (none, l)
  posts (b ∷ batches) l =
      let (e, l') = post_batch t cfg b l in
      elim e [ some x ↦ (some x, l') | none ↦ posts batches (seeded t l') ]

  abbrev pub concat : List (List Metrics) → List Metrics
  concat [] = []
  concat (b ∷ batches) = b ++ concat batches

  -- a batch that the server's limit of the batch size allows
  abbrev pub IsBatch : List Metrics → Type 0
  IsBatch b = (0 < length b) × (length b ≤ cfg.batch_size)

  batches_from : ℕ → ℕ → List (List Metrics)
  batches_from zero from = []
  batches_from (suc fuel) from =
      let rest = batches_from fuel (from + cfg.batch_size) in
      if ltb from cfg.seed_metrics then build_batch t from (batch_end t cfg from) ∷ rest else []

  length-metrics_from : (n i : ℕ) → length (metrics_from t n i) ≡ n
  unfolding metrics_from
  length-metrics_from zero i = refl
  length-metrics_from (suc n) i = ap suc (length-metrics_from n (suc i))

  metrics_from-append :
      (n k i : ℕ) → metrics_from t n i ++ metrics_from t k (n + i) ≡ metrics_from t (n + k) i
  unfolding metrics_from
  metrics_from-append zero k i = rw (zero-add k, zero-add i) refl
  metrics_from-append (suc n) k i =
      ap (λ l. metric t i ∷ l) (shift ∙ metrics_from-append n k (suc i)) ∙ grow
    where
      shift :
          metrics_from t n (suc i) ++ metrics_from t k (suc n + i)
          ≡ metrics_from t n (suc i) ++ metrics_from t k (n + suc i)
      shift = ap (λ j. metrics_from t n (suc i) ++ metrics_from t k j) (omega arith)

      grow : metric t i ∷ metrics_from t (n + k) (suc i) ≡ metrics_from t (suc n + k) i
      grow = ap (λ j. metrics_from t j i) (let e : suc (n + k) ≡ suc n + k = omega arith in e)

  batch_end_bounds :
      (from : ℕ)
      → from < cfg.seed_metrics
      → 0 < cfg.batch_size
      → (from < batch_end t cfg from)
        × (batch_end t cfg from ≤ from + cfg.batch_size)
        × (batch_end t cfg from ≤ cfg.seed_metrics)
        × ((batch_end t cfg from ≡ cfg.seed_metrics)
            ⊎ (batch_end t cfg from ≡ from + cfg.batch_size))
  batch_end_bounds from h p = ground arith

  seed_from-posts :
      (fuel from : ℕ) (l : Load S)
      → 0 < cfg.batch_size
      → cfg.seed_metrics ≤ fuel + from
      → seed_from t cfg fuel from l ≡ some (posts (batches_from fuel from) l)
  unfolding seed_from batches_from posts
  seed_from-posts zero from l p h = elim (Bool-cases (ltb from cfg.seed_metrics)) [
    | inl e ↦ absurd (omega (arith, ltb→lt _ _ e))
    | inr e ↦ rw e refl
  ]
  seed_from-posts (suc fuel) from l p h = elim (Bool-cases (ltb from cfg.seed_metrics)) [
    | inl e ↦ rw e (
        go (post_batch t cfg (build_batch t from (batch_end t cfg from)) l)
          (λ l'. seed_from-posts fuel (from + cfg.batch_size) l' p (omega arith)))
    | inr e ↦ rw e refl
  ]
    where
      again : Load S → Option (Option String × Load S)
      again l' = seed_from t cfg fuel (from + cfg.batch_size) l'

      later : List (List Metrics)
      later = batches_from fuel (from + cfg.batch_size)

      go :
          (r : Option String × Load S)
          → ((l' : Load S) → again l' ≡ some (posts later l'))
          → after_post t r again
            ≡ some (elim r.0 [ some x ↦ (some x, r.1) | none ↦ posts later (seeded t r.1) ])
      go (some x, l') ih = refl
      go (none, l') ih = ih (seeded t l')

  concat-batches_from :
      (fuel from : ℕ)
      → 0 < cfg.batch_size
      → cfg.seed_metrics ≤ fuel + from
      → concat (batches_from fuel from) ≡ metrics_from t (cfg.seed_metrics - from) from
  unfolding batches_from build_batch metrics_from
  concat-batches_from zero from p h =
      ap (λ n. metrics_from t n from) (let e : 0 ≡ cfg.seed_metrics - from = omega arith in e)
  concat-batches_from (suc fuel) from p h = elim (Bool-cases (ltb from cfg.seed_metrics)) [
    | inl e ↦ rw e (
        step (batch_end t cfg from) (batch_end_bounds from (ltb→lt _ _ e) p)
          (concat-batches_from fuel (from + cfg.batch_size) p (omega arith)))
    | inr e ↦
        rw e (
          ap (λ n. metrics_from t n from) (let q : 0 ≡ cfg.seed_metrics - from = ground arith in q))
  ]
    where
      step :
          (to : ℕ)
          → (from < to)
            × (to ≤ from + cfg.batch_size)
            × (to ≤ cfg.seed_metrics)
            × ((to ≡ cfg.seed_metrics) ⊎ (to ≡ from + cfg.batch_size))
          → concat (batches_from fuel (from + cfg.batch_size))
            ≡ metrics_from t (cfg.seed_metrics - (from + cfg.batch_size)) (from + cfg.batch_size)
          → metrics_from t (to - from) from ++ concat (batches_from fuel (from + cfg.batch_size))
            ≡ metrics_from t (cfg.seed_metrics - from) from
      step to (lo, hi, top, inr full) ih =
          ap (λ l. metrics_from t (to - from) from ++ l) ih
          ∙ ap₂ (λ n j. metrics_from t (to - from) from ++ metrics_from t n j)
              (let e : cfg.seed_metrics - (from + cfg.batch_size) ≡ cfg.seed_metrics - to =
                  omega arith in
                e)
              (let e : from + cfg.batch_size ≡ (to - from) + from = omega arith in e)
          ∙ metrics_from-append (to - from) (cfg.seed_metrics - to) from
          ∙ ap (λ n. metrics_from t n from)
              (let e : (to - from) + (cfg.seed_metrics - to) ≡ cfg.seed_metrics - from =
                  omega arith in
                e)
      step to (lo, hi, top, inl last) ih =
          ap (λ l. metrics_from t (to - from) from ++ l) ih
          ∙ ap (λ n. metrics_from t (to - from) from ++ metrics_from t n (from + cfg.batch_size))
              (let e : cfg.seed_metrics - (from + cfg.batch_size) ≡ 0 = omega arith in e)
          ∙ append-nil (metrics_from t (to - from) from)
          ∙ ap (λ n. metrics_from t (n - from) from) last

  batches_from-IsBatch : (fuel from : ℕ) → 0 < cfg.batch_size → All IsBatch (batches_from fuel from)
  unfolding batches_from build_batch
  batches_from-IsBatch zero from p = tt
  batches_from-IsBatch (suc fuel) from p = elim (Bool-cases (ltb from cfg.seed_metrics)) [
    | inl e ↦ rw e (
      sized (batch_end_bounds from (ltb→lt _ _ e) p),
      batches_from-IsBatch fuel (from + cfg.batch_size) p,
    )
    | inr e ↦ rw e tt
  ]
    where
      sized :
          (from < batch_end t cfg from)
            × (batch_end t cfg from ≤ from + cfg.batch_size)
            × (batch_end t cfg from ≤ cfg.seed_metrics)
            × ((batch_end t cfg from ≡ cfg.seed_metrics)
                ⊎ (batch_end t cfg from ≡ from + cfg.batch_size))
          → IsBatch (metrics_from t (batch_end t cfg from - from) from)
      sized (lo, hi, top, _) =
          let e = length-metrics_from (batch_end t cfg from - from) from in
          (omega (arith, e), omega (arith, e))

  -- With a batch size above 0, as `withDefaults` makes it, the seeding ends: as many rounds as there are
  -- metrics are enough. It posts batches in order, up to the first error; these are not empty, not
  -- longer than the batch size, and together they are the metrics from 0 up to the number to seed, each
  -- once.
  pub seed-posts :
      (l : Load S)
      → 0 < cfg.batch_size
      → (batches : List (List Metrics)) × (seed t cfg l ≡ some (posts batches l))
        × (concat batches ≡ build_batch t 0 cfg.seed_metrics)
        × All IsBatch batches
  unfolding seed build_batch
  seed-posts l p = (
    batches_from cfg.seed_metrics 0,
    seed_from-posts cfg.seed_metrics 0 l p (omega arith),
    concat-batches_from cfg.seed_metrics 0 p (omega arith),
    batches_from-IsBatch cfg.seed_metrics 0 p,
  )
