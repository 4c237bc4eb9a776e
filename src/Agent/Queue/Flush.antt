-- ===== src/Agent/Queue/Flush.antt =====
-- Nothing measured is left behind when the agent stops.
use mathlib.Core.Option.{none-ne-some}
use gometrics.Prelude.Dict
use gometrics.Storage.File.Trip.{IsOrder}
use gometrics.Prelude.{
  ℕ, ◌<◌, Bool, true, false, Option, none, some, List, [], ◌∷◌, ◌++◌, ◌≡◌, refl, ◌⊎◌, inl, inr,
  lt→ltb, if◌then◌else◌, sym, ap, ltb, subst, All, String, ◌∙◌, eq_refl,
}
use gometrics.Storage.File.{MapOrder}
use gometrics.Agent.{Collector, gauge_part, counter_part, build_batch, String}
use gometrics.Agent.Queue.{
  Batch, Reporter, waiting, cleared, gauges_read, built, System, start, Action, measure, raise,
  ps_measure, ps_raise, tick, read_gauges, read_counters, send, give_up, take_batch, cancel, act,
  run, flush_metrics, on_batch, on_tick, on_gauges, on_counters, on_send, on_done, put, ltb,
  flush_batch,
}

abbrev first : List Batch → Option Batch
first [] = none
first (b ∷ bs) = some b

-- the batch queued last is a snapshot of the collector, or the collector holds nothing to send
abbrev pub LastIsCurrent : Collector → List Batch → Type 0
LastIsCurrent c queued =
    (g : MapOrder) × (k : MapOrder) × (IsOrder g × IsOrder k)
    × ((first queued ≡ some (gauge_part g c ++ counter_part k c))
        ⊎ (gauge_part g c ++ counter_part k c ≡ []))

-- A change of the collector after the reading will be noticed: the flag is up or a poller will raise it.
abbrev Noticed : System → Type 0
Noticed s = (s.dirty ≡ true) ⊎ ((s.measured ≡ true) ⊎ (s.ps_measured ≡ true))

-- what the reporter has in hand is current, unless a change is noticed
abbrev InHand : Reporter → Collector → List Batch → Type 0
InHand waiting c queued = LastIsCurrent c queued
InHand cleared c queued = Unit
InHand (gauges_read part) c queued = (g : MapOrder) × IsOrder g × (part ≡ gauge_part g c)
InHand (built b) c queued =
    (g : MapOrder) × (k : MapOrder) × (IsOrder g × IsOrder k)
    × (b ≡ gauge_part g c ++ counter_part k c)

abbrev pub IsCovered : System → Type 0
IsCovered s = Noticed s ⊎ InHand s.reporter s.collector s.queued

-- the maps are visited the way Go does
abbrev pub Ordered : Action → Type 0
Ordered (read_gauges order) = IsOrder order
Ordered (read_counters order) = IsOrder order
Ordered _ = Unit

order_nil : {V : Type 0} → (l : Dict.Dict V) → ((k : String) → Dict.lookup k l ≡ none) → l ≡ []
order_nil [] h = refl
order_nil ((k, v) ∷ l) h =
    absurd (none-ne-some v (sym (h k) ∙ (Dict.lookup-cons k k v l ∙ rw (eq_refl k) refl)))

either : (P : System → Type 0) (b : Bool) (x y : System) → P x → P y → P (if b then x else y)
either P true x y p q = p
either P false x y p q = q

batch-IsCovered :
    (g k : MapOrder) (b : Batch) (s : System)
    → IsOrder g × IsOrder k
    → b ≡ gauge_part g s.collector ++ counter_part k s.collector
    → IsCovered (on_batch b s)
batch-IsCovered g k [] s o e = inr (g, k, o, inr (sym e))
batch-IsCovered g k (m ∷ ms) s o e = inr (g, k, o, e)

still-Noticed : (b : Batch) (s : System) → Noticed s → IsCovered (on_batch b s)
still-Noticed [] s n = inl n
still-Noticed (m ∷ ms) s n = inl n

module _ (rate_limit : ℕ) where
  tick-IsCovered :
      (r : Reporter) (s : System)
      → Noticed s ⊎ InHand r s.collector s.queued
      → s.reporter ≡ r
      → IsCovered (on_tick r s)
  unfolding on_tick
  tick-IsCovered waiting s h e = inr tt
  tick-IsCovered cleared s h e = rw e h
  tick-IsCovered (gauges_read part) s h e = rw e h
  tick-IsCovered (built b) s h e = rw e h

  gauges-IsCovered :
      (order : MapOrder) (r : Reporter) (s : System)
      → IsOrder order
      → Noticed s ⊎ InHand r s.collector s.queued
      → s.reporter ≡ r
      → IsCovered (on_gauges order r s)
  unfolding on_gauges
  gauges-IsCovered order waiting s o h e = rw e h
  gauges-IsCovered order cleared s o h e = inr (order, o, refl)
  gauges-IsCovered order (gauges_read part) s o h e = rw e h
  gauges-IsCovered order (built b) s o h e = rw e h

  counters-IsCovered :
      (order : MapOrder) (r : Reporter) (s : System)
      → IsOrder order
      → Noticed s ⊎ InHand r s.collector s.queued
      → s.reporter ≡ r
      → IsCovered (on_counters order r s)
  unfolding on_counters
  counters-IsCovered order waiting s o h e = rw e h
  counters-IsCovered order cleared s o h e = rw e h
  counters-IsCovered order (gauges_read part) s o (inl n) e = still-Noticed _ s n
  counters-IsCovered order (gauges_read part) s o (inr (g, og, p)) e =
      batch-IsCovered g order _ s (og, o) (ap (λ l. l ++ counter_part order s.collector) p)
  counters-IsCovered order (built b) s o h e = rw e h

  send-IsCovered :
      (r : Reporter) (s : System)
      → Noticed s ⊎ InHand r s.collector s.queued
      → s.reporter ≡ r
      → IsCovered (on_send rate_limit r s)
  unfolding on_send
  send-IsCovered waiting s h e = rw e h
  send-IsCovered cleared s h e = rw e h
  send-IsCovered (gauges_read part) s h e = rw e h
  send-IsCovered (built b) s h e =
      either IsCovered (ltb s.in_queue rate_limit) _ s (sent h) (rw e h)
    where
      sent :
          Noticed s ⊎ InHand (built b) s.collector s.queued
          → IsCovered (put b (record s { reporter = waiting }))
      sent (inl n) = inl n
      sent (inr (g, k, o, p)) = inr (g, k, o, inl (ap some p))

  done-IsCovered :
      (r : Reporter) (s : System)
      → Noticed s ⊎ InHand r s.collector s.queued
      → s.reporter ≡ r
      → IsCovered (on_done rate_limit r s)
  unfolding on_done
  done-IsCovered waiting s h e = rw e h
  done-IsCovered cleared s h e = rw e h
  done-IsCovered (gauges_read part) s h e = rw e h
  done-IsCovered (built b) s h e = either IsCovered s.stopping _ s (inl (inl refl)) (rw e h)

  act-IsCovered :
      (a : Action) (s : System) → Ordered a → IsCovered s → IsCovered (act rate_limit a s)
  unfolding act
  act-IsCovered (measure update) s o h = either IsCovered s.measured s _ h (inl (inr (inl refl)))
  act-IsCovered raise s o h = either IsCovered s.measured _ s (inl (inl refl)) h
  act-IsCovered (ps_measure update) s o h =
      either IsCovered s.ps_measured s _ h (inl (inr (inr refl)))
  act-IsCovered ps_raise s o h = either IsCovered s.ps_measured _ s (inl (inl refl)) h
  act-IsCovered tick s o h = tick-IsCovered s.reporter s h refl
  act-IsCovered (read_gauges order) s o h = gauges-IsCovered order s.reporter s o h refl
  act-IsCovered (read_counters order) s o h = counters-IsCovered order s.reporter s o h refl
  act-IsCovered send s o h = send-IsCovered s.reporter s h refl
  act-IsCovered give_up s o h = done-IsCovered s.reporter s h refl
  act-IsCovered take_batch s o h = h
  act-IsCovered cancel s o h = h

  run-IsCovered :
      (schedule : List Action) (s : System)
      → All Ordered schedule
      → IsCovered s
      → IsCovered (run rate_limit schedule s)
  unfolding run
  run-IsCovered [] s o h = h
  run-IsCovered (a ∷ schedule) s (o, os) h =
      run-IsCovered schedule (act rate_limit a s) os (act-IsCovered a s o h)

  -- `pollersWG.Wait()` has returned: no poller is between its two steps, and the reporter waits
  abbrev pub IsQuiet : System → Type 0
  IsQuiet s = (s.measured ≡ false) × (s.ps_measured ≡ false) × (s.reporter ≡ waiting)

  flushed :
      (order : MapOrder) (s : System) (b : Batch)
      → IsOrder order
      → s.in_queue < rate_limit
      → build_batch order s.collector ≡ b
      → LastIsCurrent s.collector (flush_batch rate_limit b s).queued
  unfolding flush_batch build_batch
  flushed order s [] o room e = (order, order, (o, o), inr e)
  flushed order s (m ∷ ms) o room e =
      rw (lt→ltb _ _ room) (order, order, (o, o), inl (ap some (sym e)))

  flush_covered :
      (order : MapOrder) (s : System) (d : Bool) (r : Reporter)
      → IsOrder order
      → s.dirty ≡ d
      → s.measured ≡ false
      → s.ps_measured ≡ false
      → r ≡ waiting
      → s.in_queue < rate_limit
      → Noticed s ⊎ InHand r s.collector s.queued
      → LastIsCurrent s.collector
          (if d then flush_batch rate_limit (build_batch order s.collector) s else s).queued
  flush_covered order s true r o e p q w room h = flushed order s _ o room refl
  flush_covered order s false r o e p q w room (inl (inl n)) = cc
  flush_covered order s false r o e p q w room (inl (inr (inl n))) = cc
  flush_covered order s false r o e p q w room (inl (inr (inr n))) = cc
  flush_covered order s false r o e p q w room (inr h) =
      subst (λ x. InHand x s.collector s.queued) w h

  -- Whatever the interleaving of the pollers, the reporter and the workers, where maps are visited
  -- entry by entry, each once: when the pollers and the
  -- reporter have stopped and the queue has a free place for the last flush, then after it the batch
  -- that was queued last is a snapshot of the collector as it is, or the collector holds no metrics.
  pub flush_metrics-LastIsCurrent :
      (schedule : List Action) (order : MapOrder)
      → All Ordered schedule
      → IsOrder order
      → let s = run rate_limit schedule start in
        IsQuiet s
        → s.in_queue < rate_limit
        → LastIsCurrent s.collector (flush_metrics rate_limit order s).queued
  unfolding flush_metrics gauge_part counter_part
  flush_metrics-LastIsCurrent schedule order os o (p, q, w) room =
      let s = run rate_limit schedule start in
      flush_covered order s s.dirty s.reporter o refl p q w room (
        run-IsCovered schedule start os
          (inr (order, order, (o, o), inr (rw (nothing.0, nothing.1) refl))))
    where
      nothing : (order.gauge_range [] ≡ []) × (order.counter_range [] ≡ [])
      nothing = (
        order_nil (order.gauge_range []) (λ k. o.gauges_same k [] ∙ Dict.lookup-nil k),
        order_nil (order.counter_range []) (λ k. o.counters_same k [] ∙ Dict.lookup-nil k),
      )
