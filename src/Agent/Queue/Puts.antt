-- ===== src/Agent/Queue/Puts.antt =====
-- What a step of the pollers or of the reporter does to the queue of batches.
use gometrics.Prelude.{
  ℕ, ◌+◌, Bool, true, false, [], ◌∷◌, ◌++◌, ◌≡◌, ◌⊎◌, inl, inr, refl, if◌then◌else◌,
}
use gometrics.Storage.File.{MapOrder}
use gometrics.Agent.{counter_part}
use gometrics.Agent.Queue.{
  Batch, Reporter, waiting, cleared, gauges_read, built, System, Action, measure, raise, ps_measure,
  ps_raise, tick, read_gauges, read_counters, send, give_up, take_batch, cancel, act, on_batch,
  on_tick, on_gauges, on_counters, on_send, on_done, ltb, of_others,
}

-- the queue is as it was, or it has one batch more
abbrev pub Puts : System → System → Type 0
Puts s s' =
    ((s'.queued ≡ s.queued) × (s'.in_queue ≡ s.in_queue))
    ⊎ ((b : Batch) × ((s'.queued ≡ b ∷ s.queued) × (s'.in_queue ≡ s.in_queue + 1)))

one_of : (s : System) (b : Bool) (x y : System) → Puts s x → Puts s y → Puts s (if b then x else y)
one_of s true x y p q = p
one_of s false x y p q = q

module _ (rate_limit : ℕ) (s : System) where
  same : Puts s s
  same = inl (refl, refl)

  tick-Puts : (r : Reporter) → Puts s (on_tick r s)
  unfolding on_tick
  tick-Puts waiting = same
  tick-Puts cleared = same
  tick-Puts (gauges_read g) = same
  tick-Puts (built b) = same

  gauges-Puts : (order : MapOrder) (r : Reporter) → Puts s (on_gauges order r s)
  unfolding on_gauges
  gauges-Puts order waiting = same
  gauges-Puts order cleared = same
  gauges-Puts order (gauges_read g) = same
  gauges-Puts order (built b) = same

  batch-Puts : (b : Batch) → Puts s (on_batch b s)
  batch-Puts [] = same
  batch-Puts (m ∷ ms) = same

  counters-Puts : (order : MapOrder) (r : Reporter) → Puts s (on_counters order r s)
  unfolding on_counters
  counters-Puts order waiting = same
  counters-Puts order cleared = same
  counters-Puts order (gauges_read g) = batch-Puts (g ++ counter_part order s.collector)
  counters-Puts order (built b) = same

  send-Puts : (r : Reporter) → Puts s (on_send rate_limit r s)
  unfolding on_send
  send-Puts waiting = same
  send-Puts cleared = same
  send-Puts (gauges_read g) = same
  send-Puts (built b) = one_of s (ltb s.in_queue rate_limit) _ s (inr (b, (refl, refl))) same

  done-Puts : (r : Reporter) → Puts s (on_done rate_limit r s)
  unfolding on_done
  done-Puts waiting = same
  done-Puts cleared = same
  done-Puts (gauges_read g) = same
  done-Puts (built b) = one_of s s.stopping _ s same same

  pub cancel-Puts : Puts s (act rate_limit cancel s)
  unfolding act
  cancel-Puts = same

  pub act-Puts : (a : Action) → of_others a ≡ false → Puts s (act rate_limit a s)
  unfolding act
  act-Puts (measure update) t = one_of s s.measured s _ same same
  act-Puts raise t = one_of s s.measured _ s same same
  act-Puts (ps_measure update) t = one_of s s.ps_measured s _ same same
  act-Puts ps_raise t = one_of s s.ps_measured _ s same same
  act-Puts tick t = tick-Puts s.reporter
  act-Puts (read_gauges order) t = gauges-Puts order s.reporter
  act-Puts (read_counters order) t = counters-Puts order s.reporter
  act-Puts send t = send-Puts s.reporter
  act-Puts give_up t = done-Puts s.reporter
  act-Puts take_batch t = cc t
  act-Puts cancel t = same
