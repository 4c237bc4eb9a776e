-- ===== src/Agent/Counting.antt =====
-- The counter PollCount from the agent's collector to the server's store.
use gometrics.Prelude.{
  ℕ, ◌+◌, ◌<◌, ◌^◌, zero, suc, some, get_or, List, [], ◌∷◌, ◌≡◌, refl, sym, ap, ◌∙◌, subst, arith,
  length, ◌≤◌,
}
use gometrics.Prelude.Dict
use gometrics.Prelude.Dict.{NodupKeys, insert-NodupKeys, lookup-insert}
use gometrics.Models.{Int64, Float64, add64}
use gometrics.Storage.File.{MapOrder, snapshot, gauge_record, counter_record}
use gometrics.Storage.File.Trip.{IsOrder, deltas-snapshot, as_list}
use gometrics.Storage.Mem.{MemStorage, new_mem_storage, get_counter, update_batch}
use gometrics.Storage.Mem.Batch.{update_batch-effect, after, sum, deltas}
use gometrics.Agent.{
  Collector, new_collector, Reading, update_metrics, build_batch, gauge_part, counter_part,
  gauge_metric, counter_metric,
}

-- 1 + 2 + … + n
abbrev pub triangle : ℕ → ℕ
triangle zero = 0
triangle (suc n) = triangle n + suc n

le_triangle : (n : ℕ) → n ≤ triangle n
le_triangle zero = omega arith
le_triangle (suc n) = omega arith

triangle_mono : (n k : ℕ) → triangle n ≤ triangle (n + k)
triangle_mono n zero =
    let j : n + 0 ≡ n = omega arith in
    let e : triangle (n + 0) ≡ triangle n = ap triangle j in omega (arith, e)
triangle_mono n (suc k) =
    let j : n + suc k ≡ suc (n + k) = omega arith in
    let e : triangle (n + suc k) ≡ triangle (suc (n + k)) = ap triangle j in
    omega (arith, e, triangle_mono n k)

module _ (to_float : ℕ → Float64) (order : MapOrder) where
  -- a measurement and a report of it in turn, for each of the readings
  abbrev pub reports : List Reading → Collector → MemStorage → Collector × MemStorage
  reports [] c m = (c, m)
  reports (r ∷ readings) c m =
      let c' = update_metrics to_float r c in
      reports readings c' (update_batch (build_batch order c') m)

module _ (to_float : ℕ → Float64) (order : MapOrder) (law : IsOrder order) where
  build_batch-snapshot : (c : Collector) → build_batch order c ≡ snapshot order c.gauge c.counter
  unfolding build_batch gauge_part counter_part snapshot gauge_metric counter_metric gauge_record
      counter_record
  build_batch-snapshot c = refl

  abbrev count_of : Collector → Int64
  count_of c = get_or (Dict.lookup "PollCount" c.counter) 0

  abbrev total_of : MemStorage → Int64
  total_of m = get_or (get_counter "PollCount" m) 0

  polled :
      (r : Reading) (c : Collector)
      → Dict.lookup "PollCount" (update_metrics to_float r c).counter ≡ some (add64 (count_of c) 1)
  unfolding update_metrics
  polled r c = rw lookup-insert refl

  polled-NodupKeys :
      (r : Reading) (c : Collector)
      → NodupKeys c.counter
      → NodupKeys (update_metrics to_float r c).counter
  unfolding update_metrics
  polled-NodupKeys r c h = insert-NodupKeys "PollCount" _ c.counter h

  reported :
      (c : Collector) (m : MemStorage) (n : Int64)
      → NodupKeys c.counter
      → Dict.lookup "PollCount" c.counter ≡ some n
      → get_counter "PollCount" (update_batch (build_batch order c) m) ≡ some (add64 (total_of m) n)
  unfolding sum
  reported c m n h e =
      (update_batch-effect "PollCount" (build_batch order c) m).1
      ∙ ap (after (get_counter "PollCount" m)) (
          ap (deltas "PollCount") (build_batch-snapshot c)
          ∙ deltas-snapshot order law "PollCount" c.gauge c.counter h
          ∙ ap as_list e)
      ∙ ap some (omega arith)

  -- from `n` polls, of which the server has got all
  reports-from :
      (readings : List Reading) (c : Collector) (m : MemStorage) (n : ℕ)
      → NodupKeys c.counter
      → count_of c ≡ n
      → total_of m ≡ triangle n
      → triangle (n + length readings) < 2 ^ 64
      → let (c', m') = reports to_float order readings c m in
        (count_of c' ≡ n + length readings) × (total_of m' ≡ triangle (n + length readings))
  reports-from [] c m n h p q b =
      let e : n ≡ n + length {A = Reading} [] = omega arith in (p ∙ e, q ∙ ap triangle e)
  reports-from (r ∷ readings) c m n h p q b =
      subst (λ k. (count_of end.0 ≡ k) × (total_of end.1 ≡ triangle k)) k
        (reports-from readings c' m' (suc n) (polled-NodupKeys r c h) count total
          (subst (λ j. triangle j < 2 ^ 64) (sym k) b))
    where
      c' : Collector
      c' = update_metrics to_float r c

      m' : MemStorage
      m' = update_batch (build_batch order c') m

      end : Collector × MemStorage
      end = reports to_float order readings c' m'

      k : suc n + length readings ≡ n + length (r ∷ readings)
      k = omega arith

      fits : triangle (suc n) < 2 ^ 64
      fits =
          let e : triangle (suc n + length readings) ≡ triangle (n + length (r ∷ readings)) =
            ap triangle k in
          omega (arith, e, b, triangle_mono (suc n) (length readings))

      seen : Dict.lookup "PollCount" c'.counter ≡ some (suc n)
      seen = polled r c ∙ ap some (omega (arith, p, le_triangle (suc n), fits))

      count : count_of c' ≡ suc n
      count = ap (λ o. get_or o 0) seen

      total : total_of m' ≡ triangle (suc n)
      total =
          ap (λ o. get_or o 0) (reported c' m (suc n) (polled-NodupKeys r c h) seen)
          ∙ omega (arith, q, fits)

  -- An agent that measures and reports in turn to a server that starts empty, `n` times, has counted
  -- `n` polls; the server's counter of them is 1 + 2 + … + n, as long as this fits in 64 bits.
  pub reports-triangle :
      (readings : List Reading)
      → triangle (length readings) < 2 ^ 64
      → let (c, m) = reports to_float order readings new_collector new_mem_storage in
        let n = length readings in
        (get_or (Dict.lookup "PollCount" c.counter) 0 ≡ n)
        × (get_or (get_counter "PollCount" m) 0 ≡ triangle n)
  unfolding get_counter new_mem_storage Dict.lookup
  reports-triangle readings b =
      subst
        (λ j.
          triangle j < 2 ^ 64
          → let (c, m) = reports to_float order readings new_collector new_mem_storage in
            (get_or (Dict.lookup "PollCount" c.counter) 0 ≡ j)
            × (get_or (get_counter "PollCount" m) 0 ≡ triangle j))
        zero_add (λ b'. reports-from readings new_collector new_mem_storage 0 tt refl refl b') b
    where
      zero_add : 0 + length readings ≡ length readings
      zero_add = omega arith
