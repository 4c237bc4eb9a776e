-- ===== src/Agent/Queue.antt =====
-- internal/agent/agent.go: the goroutines of `Run` between the collector and the queue of batches, in
-- steps that other goroutines can come between: a poller's update and its `dirty.Store(true)`, and in
-- `enqueueMetrics` the reset of the flag, the two copies of `buildBatch` and the `select`.
pub mod Flush
pub mod Puts
use gometrics.Prelude.{
  ℕ, ◌+◌, ◌-◌, Bool, true, false, Option, none, some, List, [], ◌∷◌, ◌++◌, ltb, if◌then◌else◌, ◌&&◌,
}
use gometrics.Models.{Metrics}
use gometrics.Storage.File.{MapOrder}
use gometrics.Agent.{Collector, new_collector, gauge_part, counter_part, build_batch}

abbrev pub Batch : Type 0
Batch = List Metrics

-- how far the reporter is with `enqueueMetrics`
pub data Reporter : Type 0 where
  waiting : Reporter
  cleared : Reporter
  gauges_read : List Metrics → Reporter
  built : Batch → Reporter

-- `queued` holds every batch that was put into the queue, the last one first; the first `in_queue` of
-- them are still in it. `measured` and `ps_measured`: the poller has written, but not raised `dirty`.
pub record System : Type 0 where
  pub collector : Collector
  pub dirty : Bool
  pub measured : Bool
  pub ps_measured : Bool
  pub reporter : Reporter
  pub stopping : Bool
  pub queued : List Batch
  pub in_queue : ℕ

abbrev pub start : System
start = record {
  collector = new_collector;
  dirty = false;
  measured = false;
  ps_measured = false;
  reporter = waiting;
  stopping = false;
  queued = [];
  in_queue = 0;
}

-- A step of a goroutine. The first two carry the update of the collector; `cancel` is that of `Run`,
-- `take_batch` is a worker's.
pub data Action : Type 0 where
  measure : (Collector → Collector) → Action
  raise : Action
  ps_measure : (Collector → Collector) → Action
  ps_raise : Action
  tick : Action
  read_gauges : MapOrder → Action
  read_counters : MapOrder → Action
  send : Action
  give_up : Action
  take_batch : Action
  cancel : Action

-- the actions that are neither a poller's nor the reporter's
abbrev pub of_others : Action → Bool
of_others take_batch = true
of_others cancel = true
of_others _ = false

abbrev pub put : Batch → System → System
put b s = record s { queued = b ∷ s.queued; in_queue = s.in_queue + 1 }

-- an empty batch is not sent
abbrev on_batch : Batch → System → System
on_batch [] s = record s { reporter = waiting }
on_batch (m ∷ ms) s = record s { reporter = built (m ∷ ms) }

on_tick : Reporter → System → System
on_tick waiting s = record s { dirty = false; reporter = cleared }
on_tick _ s = s

on_gauges : MapOrder → Reporter → System → System
on_gauges order cleared s = record s { reporter = gauges_read (gauge_part order s.collector) }
on_gauges order _ s = s

on_counters : MapOrder → Reporter → System → System
on_counters order (gauges_read g) s = on_batch (g ++ counter_part order s.collector) s
on_counters order _ s = s

module _ (rate_limit : ℕ) where
  -- `case jobs <- metrics`, possible if there is a free place
  on_send : Reporter → System → System
  on_send (built b) s =
      if ltb s.in_queue rate_limit then put b (record s { reporter = waiting }) else s
  on_send _ s = s

  -- `case <-ctx.Done()`
  on_done : Reporter → System → System
  on_done (built b) s = if s.stopping then record s { dirty = true; reporter = waiting } else s
  on_done _ s = s

  unfoldable pub act : Action → System → System
  unfolding on_tick on_gauges on_counters on_send on_done
  act (measure update) s =
      if s.measured then s else record s { collector = update s.collector; measured = true }
  act raise s = if s.measured then record s { dirty = true; measured = false } else s
  act (ps_measure update) s =
      if s.ps_measured then s else record s { collector = update s.collector; ps_measured = true }
  act ps_raise s = if s.ps_measured then record s { dirty = true; ps_measured = false } else s
  act tick s = on_tick s.reporter s
  act (read_gauges order) s = on_gauges order s.reporter s
  act (read_counters order) s = on_counters order s.reporter s
  act send s = on_send s.reporter s
  act give_up s = on_done s.reporter s
  act take_batch s = record s { in_queue = s.in_queue - 1 }
  act cancel s = record s { stopping = true }

  unfoldable pub run : List Action → System → System
  unfolding act
  run [] s = s
  run (a ∷ schedule) s = run schedule (act a s)

  flush_batch : Batch → System → System
  flush_batch [] s = s
  flush_batch (m ∷ ms) s = if ltb s.in_queue rate_limit then put (m ∷ ms) s else s

  -- `flushMetrics`, where the queue gets no free place while it waits; `put` is at the time it gets one
  unfoldable pub flush_metrics : MapOrder → System → System
  unfolding flush_batch
  flush_metrics order s = if s.dirty then flush_batch (build_batch order s.collector) s else s
