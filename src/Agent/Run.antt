-- ===== src/Agent/Run.antt =====
-- internal/agent/agent.go: `Run` from the start of the goroutines to its return, with the workers over
-- the queue of batches and the last flush, in steps that other goroutines can come between.
pub mod Flight
pub mod Sound
pub mod Workers
pub mod Delivers
use gometrics.Prelude.{
  ℕ, zero, suc, ◌-◌, String, Bool, true, false, Option, none, some, List, [], ◌∷◌, ltb, eqb,
  if◌then◌else◌, ◌&&◌, not, Bytes, get_elem?, set_at,
}
use gometrics.Models.{Metrics}
use gometrics.Storage.File.{MapOrder}
use gometrics.Crypto.{Primitives}
use gometrics.Middleware.{GzipLib}
use gometrics.Retry
use gometrics.Retry.{Context}
use gometrics.Agent.{build_batch}
use gometrics.Agent.Queue
use gometrics.Agent.Queue.{Batch, System, Reporter, waiting, put, of_others}
use gometrics.Agent.Send.{Client, SendError, send_metrics_batch}

-- where a worker is: before it receives, in `sendMetricsBatch`, or out of its loop
pub data Worker : Type 0 where
  receiving : Worker
  sending : Batch → Worker
  exited : Worker

-- Where `Run` itself is: before the signal, in `pollersWG.Wait`, in the `select` of the last flush,
-- before `close(jobs)`, and after it.
pub data Phase : Type 0 where
  running : Phase
  stopping : Phase
  offering : Batch → Phase
  flushed : Phase
  closed : Phase

-- `handed` holds the batches that the workers passed to `sendMetricsBatch`, the last one first; `net` is
-- the world of the client.
pub record State (S : Type 0) : Type 0 where
  pub system : System
  pub phase : Phase
  pub workers : List Worker
  pub handed : List Batch
  pub net : S

-- what one call of `sendMetricsBatch` meets: the bytes of `rand.Read`, and what `sendCtx` does
pub record Chance : Type 0 where
  pub cek : Bytes
  pub nonce : Bytes
  pub ctx : Context

-- The number is that of a worker. `poll_or_report` is a step of the pollers or of the reporter.
pub data Action : Type 0 where
  poll_or_report : Queue.Action → Action
  signal : Action
  begin_flush : MapOrder → Action
  flush_sent : Action
  flush_timed_out : Action
  close_jobs : Action
  receive : ℕ → Action
  hand_over : ℕ → Chance → Action
  leave : ℕ → Action

-- the workers started by the loop `for i := 0; i < a.rateLimit; i++`
abbrev pub workers_of : ℕ → List Worker
workers_of zero = []
workers_of (suc n) = receiving ∷ workers_of n

abbrev pub begin : {S : Type 0} → ℕ → S → State S
begin rate_limit net = record {
  system = Queue.start;
  phase = running;
  workers = workers_of rate_limit;
  handed = [];
  net = net;
}

abbrev is_exited : Worker → Bool
is_exited exited = true
is_exited _ = false

abbrev pub all_exited : List Worker → Bool
all_exited [] = true
all_exited (w ∷ ws) = is_exited w && all_exited ws

abbrev is_closed : Phase → Bool
is_closed closed = true
is_closed _ = false

-- `workersWG.Wait()` has returned
abbrev pub has_returned : {S : Type 0} → State S → Bool
has_returned s = is_closed s.phase && all_exited s.workers

-- no poller is between its two steps, and the reporter is not in `enqueueMetrics`
abbrev is_waiting : Reporter → Bool
is_waiting waiting = true
is_waiting _ = false

abbrev is_quiet : System → Bool
is_quiet s = not s.measured && (not s.ps_measured && is_waiting s.reporter)

-- an empty snapshot is not offered
abbrev offer : Batch → Phase
offer [] = flushed
offer (m ∷ ms) = offering (m ∷ ms)

abbrev net_after : {S : Type 0} → Option (Retry.Run SendError S) → S → S
net_after none net = net
net_after (some run) net = run.world

module _ (rate_limit : ℕ) {S : Type 0} where
  -- the pollers and the reporter run until `pollersWG.Wait` returns
  pub on_pollers : Phase → Queue.Action → State S → State S
  on_pollers running a s =
      if of_others a then s else record s { system = Queue.act rate_limit a s.system }
  on_pollers stopping a s =
      if of_others a then s else record s { system = Queue.act rate_limit a s.system }
  on_pollers _ a s = s

  -- `cancel()` after the signal
  pub on_signal : Phase → State S → State S
  on_signal running s = record s {
    phase = stopping;
    system = Queue.act rate_limit Queue.cancel s.system;
  }
  on_signal _ s = s

  -- `pollersWG.Wait()` returns, and `flushMetrics` takes the snapshot
  pub on_begin_flush : Phase → MapOrder → State S → State S
  on_begin_flush stopping order s =
      if is_quiet s.system
      then if s.system.dirty
        then record s { phase = offer (build_batch order s.system.collector) }
        else record s { phase = flushed }
      else s
  on_begin_flush _ order s = s

  pub on_flush_sent : Phase → State S → State S
  on_flush_sent (offering b) s =
      if ltb s.system.in_queue rate_limit
      then record s { phase = flushed; system = put b s.system }
      else s
  on_flush_sent _ s = s

  pub on_flush_timed_out : Phase → State S → State S
  on_flush_timed_out (offering b) s = record s { phase = flushed }
  on_flush_timed_out _ s = s

  pub on_close : Phase → State S → State S
  on_close flushed s = record s { phase = closed }
  on_close _ s = s

  -- a worker receives the oldest batch of the queue
  received : Option Batch → ℕ → State S → State S
  received none i s = s
  received (some b) i s = record s {
    system = record s.system { in_queue = s.system.in_queue - 1 };
    workers = set_at s.workers i (sending b);
  }

  pub on_receive : Option Worker → ℕ → State S → State S
  unfolding received
  on_receive (some receiving) i s =
      if eqb s.system.in_queue 0
      then s
      else received (get_elem? s.system.queued (s.system.in_queue - 1)) i s
  on_receive _ i s = s

  -- the loop over the queue ends when it is closed and empty
  pub on_leave : Option Worker → ℕ → State S → State S
  on_leave (some receiving) i s =
      if is_closed s.phase && eqb s.system.in_queue 0
      then record s { workers = set_at s.workers i exited }
      else s
  on_leave _ i s = s

  module _ {Public Private : Type 0} (p : Primitives Public Private) (lib : GzipLib)
      (marshal : List Metrics → Option Bytes) (client : Client S) (hmac : Bytes → Bytes → Bytes)
      (key : String) (pub_key : Option Public) (addr : String) where
    on_hand_over : Option Worker → ℕ → Chance → State S → State S
    on_hand_over (some (sending b)) i c s = record s {
      workers = set_at s.workers i receiving;
      handed = b ∷ s.handed;
      net =
          net_after
            (send_metrics_batch client hmac key p lib marshal c.cek c.nonce pub_key c.ctx addr b
              s.net)
            s.net;
    }
    on_hand_over _ i c s = s

    unfoldable pub act : Action → State S → State S
    unfolding on_pollers on_signal on_begin_flush on_flush_sent on_flush_timed_out on_close
        on_receive on_leave on_hand_over
    act (poll_or_report a) s = on_pollers s.phase a s
    act signal s = on_signal s.phase s
    act (begin_flush order) s = on_begin_flush s.phase order s
    act flush_sent s = on_flush_sent s.phase s
    act flush_timed_out s = on_flush_timed_out s.phase s
    act close_jobs s = on_close s.phase s
    act (receive i) s = on_receive (get_elem? s.workers i) i s
    act (hand_over i c) s = on_hand_over (get_elem? s.workers i) i c s
    act (leave i) s = on_leave (get_elem? s.workers i) i s

    unfoldable pub run : List Action → State S → State S
    unfolding act
    run [] s = s
    run (a ∷ schedule) s = run schedule (act a s)
