-- ===== src/Loadgen/Workers/Limit.antt =====
-- How many requests the workers make together, and what their numbers add up to.
use gometrics.Prelude.{
  ℕ, zero, suc, ◌+◌, ◌≤◌, ◌<◌, Bool, true, false, Option, none, some, List, [], ◌∷◌, ◌≡◌, ◌⊎◌, ◌∙◌,
  refl, arith, inl, inr, length, get_elem?, set_at, set_at-length, total, total-set_at, Bool-cases,
  leb, leb→le, ap, ◌-◌,
}
use gometrics.Loadgen.{Config, Load, Tools}
use gometrics.Loadgen.Requests.{kinds}
use gometrics.Loadgen.Workers.{
  Worker, looping, ready, waiting, failed, responded, sizing, judging, at_limit, cancelling,
  returned, left, System, Action, work, stop, act, run_workers, start_workers, workers_of,
  on_worker,
}
use gometrics.Loadgen.Workers.Moves.{owing, pending, due, Moves, next-Moves}

one_each : (w : Worker) → owing w + pending w ≤ 1
one_each looping = omega arith
one_each (ready k url r) = omega arith
one_each (waiting k url r) = omega arith
one_each (failed k) = omega arith
one_each (responded k status size) = omega arith
one_each (sizing k status size) = omega arith
one_each (judging k status) = omega arith
one_each (at_limit k) = omega arith
one_each (cancelling k) = omega arith
one_each (returned k ok) = omega arith
one_each left = omega arith

at_most_all : (ws : List Worker) → total owing ws + total pending ws ≤ length ws
at_most_all [] = omega arith
at_most_all (w ∷ ws) = omega (arith, one_each w, at_most_all ws)

-- how many requests are counted; `most`: where the load is bound to end soon
abbrev Small : (most n requests : ℕ) (cancelled : Bool) (ws : List Worker) → Type 0
Small most n requests cancelled ws =
    ((cancelled ≡ false) × (requests ≤ most + total owing ws))
    ⊎ ((cancelled ≡ true) × (requests + total pending ws ≤ most + n))

record Within {S : Type 0} (most n limit : ℕ) (s : System S) : Type 0 where
  size : length s.workers ≡ n
  same_limit : s.load.counters.limit ≡ limit
  kept_up : s.load.counters.requests ≤ kinds s.load.counters + total due s.workers
  small : Small most n s.load.counters.requests s.load.cancelled s.workers

module _ {S : Type 0} (most n : ℕ) (i : ℕ) (w w' : Worker) (ws : List Worker) (l l' : Load S)
    (e : get_elem? ws i ≡ some w) (size : length ws ≡ n) (near : l.counters.limit ≤ most + 1)
    (m : Moves w l w' l') where
  owed : total owing (set_at ws i w') + owing w ≡ total owing ws + owing w'
  owed = total-set_at owing ws i w w' e

  hanging : total pending (set_at ws i w') + pending w ≡ total pending ws + pending w'
  hanging = total-set_at pending ws i w w' e

  moved-Small :
      Small most n l.counters.requests l.cancelled ws
      → Small most n l'.counters.requests l'.cancelled (set_at ws i w')
  moved-Small h = go m.context h
    where
      go :
          (((l.cancelled ≡ false)
              × (l'.cancelled ≡ false)
              × ((l'.counters.requests + owing w ≤ l.counters.requests + owing w')
                  ⊎ (l'.counters.requests < l.counters.limit)))
            ⊎ (((l.cancelled ≡ false)
                  × (l'.cancelled ≡ true)
                  × (l'.counters.requests ≤ l.counters.requests)
                  × (pending w' ≤ pending w))
                ⊎ ((l.cancelled ≡ true)
                    × (l'.cancelled ≡ true)
                    × (l'.counters.requests + pending w' ≤ l.counters.requests + pending w))))
          → Small most n l.counters.requests l.cancelled ws
          → Small most n l'.counters.requests l'.cancelled (set_at ws i w')
      go (inl (a, b, inl c)) (inl (_, d)) = inl (b, omega (arith, c, d, owed))
      go (inl (a, b, inr c)) (inl (_, d)) = inl (b, omega (arith, c, near))
      go (inl (a, b, c)) (inr (d, _)) = cc (a, d)
      go (inr (inl (a, b, c, p))) (inl (_, d)) =
          inr (b, omega (arith, c, p, d, size, hanging, at_most_all ws))
      go (inr (inl (a, b, c, p))) (inr (d, _)) = cc (a, d)
      go (inr (inr (a, b, c))) (inl (d, _)) = cc (a, d)
      go (inr (inr (a, b, c))) (inr (_, d)) = inr (b, omega (arith, c, d, hanging))

module _ {S : Type 0} (t : Tools S) (cfg : Config) (most n limit : ℕ) (some_limit : 0 < limit)
    (near : limit ≤ most + 1) where
  moved-Within :
      (i : ℕ) (w w' : Worker) (s : System S) (l' : Load S)
      → get_elem? s.workers i ≡ some w
      → Moves w s.load w' l'
      → Within most n limit s
      → Within most n limit (record { load = l'; workers = set_at s.workers i w' })
  moved-Within i w w' s l' e m h = record {
    size = set_at-length s.workers i w' ∙ h.size;
    same_limit = m.same_limit ∙ h.same_limit;
    kept_up = omega (arith, m.kinds_keep_up, h.kept_up, total-set_at due s.workers i w w' e);
    small =
        moved-Small most n i w w' s.workers s.load l' e h.size (omega (arith, near, h.same_limit)) m
          h.small;
  }

  act-Within :
      (a : Action) (s : System S) → Within most n limit s → Within most n limit (act t cfg a s)
  unfolding act on_worker
  act-Within (work i choice breaks) s h = go (get_elem? s.workers i) refl
    where
      go :
          (o : Option Worker)
          → get_elem? s.workers i ≡ o
          → Within most n limit (on_worker t cfg o i choice breaks s)
      go none e = h
      go (some w) e =
          moved-Within i w _ s _ e
            (next-Moves t cfg choice breaks s.load (omega (arith, some_limit, h.same_limit)) w) h
  act-Within stop s h = record {
    size = h.size;
    same_limit = h.same_limit;
    kept_up = h.kept_up;
    small = stopped h.small;
  }
    where
      stopped :
          Small most n s.load.counters.requests s.load.cancelled s.workers
          → Small most n s.load.counters.requests true s.workers
      stopped (inl (e, d)) = inr (refl, omega (arith, d, h.size, at_most_all s.workers))
      stopped (inr (e, d)) = inr (refl, d)

  run-Within :
      (schedule : List Action) (s : System S)
      → Within most n limit s
      → Within most n limit (run_workers t cfg schedule s)
  unfolding run_workers
  run-Within [] s h = h
  run-Within (a ∷ schedule) s h = run-Within schedule (act t cfg a s) (act-Within a s h)

started_size : (n : ℕ) → length (workers_of n) ≡ n
started_size zero = refl
started_size (suc n) = ap suc (started_size n)

started_total : (f : Worker → ℕ) (n : ℕ) → f looping ≡ 0 → total f (workers_of n) ≡ 0
started_total f zero e = refl
started_total f (suc n) e = omega (arith, e, started_total f n e)

le_total : (a b : ℕ) → (a ≤ b) ⊎ (b < a)
le_total a b = elim (Bool-cases (leb a b)) [
  | inl e ↦ inl (leb→le a b e)
  | inr e ↦ inr (ground (arith, e))
]

counted :
    {S : Type 0} (most n limit : ℕ) (s : System S)
    → Within most n limit s
    → s.load.counters.requests ≤ most + n
counted most n limit s h = go h.small
  where
    go :
        Small most n s.load.counters.requests s.load.cancelled s.workers
        → s.load.counters.requests ≤ most + n
    go (inl (e, d)) = omega (arith, d, h.size, at_most_all s.workers)
    go (inr (e, d)) = omega (arith, d)

module _ {S : Type 0} (t : Tools S) (cfg : Config) where
  start-Within :
      (most n : ℕ) (l : Load S)
      → l.counters.requests ≤ most
      → l.counters.requests ≤ kinds l.counters
      → Within most n l.counters.limit (start_workers n l)
  start-Within most n l b k = record {
    size = started_size n;
    same_limit = refl;
    kept_up = omega (arith, k);
    small = elim (Bool-cases l.cancelled) [
      | inl e ↦ inr (e, omega (arith, b, started_total pending n refl))
      | inr e ↦ inl (e, omega (arith, b))
    ];
  }

  -- Any number of workers share the counters, in any order of their atomic steps, whatever the network
  -- answers and whenever the load is stopped; the load begins with at most `before` responses counted,
  -- and at most as many as requests counted by kind, and has a limit above 0. Then at any moment the
  -- responses counted are fewer than the limit and the workers together, or at most those of the
  -- beginning and one for each worker; and they are at most the requests counted by kind and those
  -- that some worker has still to count so (`due`).
  pub run_workers-limit :
      (schedule : List Action) (n before : ℕ) (l : Load S)
      → 0 < l.counters.limit
      → l.counters.requests ≤ before
      → l.counters.requests ≤ kinds l.counters
      → let s = run_workers t cfg schedule (start_workers n l) in
        ((s.load.counters.requests < l.counters.limit + n)
          ⊎ (s.load.counters.requests ≤ before + n))
        × (s.load.counters.requests ≤ kinds s.load.counters + total due s.workers)
  run_workers-limit schedule n before l p b k = elim (le_total l.counters.limit (before + 1)) [
    | inl near ↦
        let h = reached_by before near b in (inr (counted before n l.counters.limit s h), h.kept_up)
    | inr far ↦
        let near : l.counters.limit ≤ (l.counters.limit - 1) + 1 = omega (arith, p) in
        let h = reached_by (l.counters.limit - 1) near (omega (arith, far, b)) in
        let c = counted (l.counters.limit - 1) n l.counters.limit s h in
        (inl (omega (arith, c, p)), h.kept_up)
  ]
    where
      s : System S
      s = run_workers t cfg schedule (start_workers n l)

      reached_by :
          (most : ℕ)
          → l.counters.limit ≤ most + 1
          → l.counters.requests ≤ most
          → Within most n l.counters.limit s
      reached_by most near b =
          run-Within t cfg most n l.counters.limit p near schedule (start_workers n l)
            (start-Within most n l b k)
