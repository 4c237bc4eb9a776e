-- ===== src/Agent/Run/Sound.antt =====
-- What holds of a run of the agent at every moment of it.
use gometrics.Storage.File.{MapOrder}
use mathlib.Core.List.{Perm}
use gometrics.Prelude.{
  ℕ, suc, ◌+◌, ◌≤◌, Bool, true, false, List, ◌∷◌, ◌++◌, ◌≡◌, ◌⊎◌, inl, inr, refl, arith, length,
  drop, ap, if◌then◌else◌, ltb,
}
use gometrics.Agent.{build_batch}
use gometrics.Agent.Queue
use gometrics.Agent.Queue.{Batch, System, of_others, cancel, put}
use gometrics.Agent.Queue.Puts.{Puts, act-Puts, cancel-Puts}
use gometrics.Agent.Run.{
  Phase, running, stopping, offering, flushed, closed, State, is_closed, is_quiet, offer,
  on_pollers, on_signal, on_begin_flush, on_flush_sent, on_flush_timed_out, on_close, MapOrder, ltb,
}
use gometrics.Agent.Run.Flight.{in_flight, any_exited}

-- Every batch that has left the queue was handed over or is being sent; no worker has left before
-- the queue was closed and empty.
pub record Sound {S : Type 0} (rate_limit : ℕ) (s : State S) : Type 0 where
  pub balance : Perm (in_flight s.workers ++ s.handed) (drop s.system.in_queue s.system.queued)
  pub room : s.system.in_queue ≤ length s.system.queued
  pub left : (any_exited s.workers ≡ false) ⊎ ((is_closed s.phase ≡ true) × (s.system.in_queue ≡ 0))
  pub started : length s.workers ≡ rate_limit

drop-put : (n : ℕ) (b : Batch) (l : List Batch) → drop (n + 1) (b ∷ l) ≡ drop n l
drop-put n b l = let e : n + 1 ≡ suc n = omega arith in ap (λ k. drop k (b ∷ l)) e

module _ {S : Type 0} (rate_limit : ℕ) (s : State S) (h : Sound rate_limit s) where
  -- before the queue is closed no worker has left
  none_left : is_closed s.phase ≡ false → any_exited s.workers ≡ false
  none_left open_ = elim h.left [ inl e ↦ e | inr (e, _) ↦ cc (e, open_) ]

  grown :
      (system : System) (phase : Phase)
      → is_closed s.phase ≡ false
      → Puts s.system system
      → Sound rate_limit (record s { system = system; phase = phase })
  grown system phase o (inl (q, n)) = record {
    balance = rw (q, n) h.balance;
    room = rw (q, n) h.room;
    left = inl (none_left o);
    started = h.started;
  }
  grown system phase o (inr (b, (q, n))) = record {
    balance = rw (q, n, drop-put s.system.in_queue b s.system.queued) h.balance;
    room =
        rw (q, n) (let r : s.system.in_queue ≤ length s.system.queued = h.room in omega (arith, r));
    left = inl (none_left o);
    started = h.started;
  }

  pub choose :
      (b : Bool) (x y : State S)
      → (b ≡ true → Sound rate_limit x)
      → (b ≡ false → Sound rate_limit y)
      → Sound rate_limit (if b then x else y)
  choose true x y p q = p refl
  choose false x y p q = q refl

  polled :
      (a : Queue.Action)
      → is_closed s.phase ≡ false
      → Sound rate_limit
          (if of_others a then s else record s { system = Queue.act rate_limit a s.system })
  polled a o =
      choose (of_others a) _ _ (λ e. h) (λ e. grown _ s.phase o (act-Puts rate_limit s.system a e))

  pub pollers-Sound :
      (ph : Phase) (a : Queue.Action)
      → s.phase ≡ ph
      → Sound rate_limit (on_pollers rate_limit ph a s)
  unfolding on_pollers
  pollers-Sound running a e = polled a (ap is_closed e)
  pollers-Sound stopping a e = polled a (ap is_closed e)
  pollers-Sound (offering b) a e = h
  pollers-Sound flushed a e = h
  pollers-Sound closed a e = h

  pub signal-Sound : (ph : Phase) → s.phase ≡ ph → Sound rate_limit (on_signal rate_limit ph s)
  unfolding on_signal
  signal-Sound running e = grown _ stopping (ap is_closed e) (cancel-Puts rate_limit s.system)
  signal-Sound stopping e = h
  signal-Sound (offering b) e = h
  signal-Sound flushed e = h
  signal-Sound closed e = h

  moved : (ph : Phase) → is_closed s.phase ≡ false → Sound rate_limit (record s { phase = ph })
  moved ph o = grown s.system ph o (inl (refl, refl))

  pub flush-Sound :
      (ph : Phase) (order : MapOrder)
      → s.phase ≡ ph
      → Sound rate_limit (on_begin_flush rate_limit ph order s)
  unfolding on_begin_flush
  flush-Sound stopping order e =
      let o : is_closed s.phase ≡ false = ap is_closed e in
      choose (is_quiet s.system) _ _
        (λ q.
          choose s.system.dirty _ _ (λ d. moved (offer (build_batch order s.system.collector)) o)
            (λ d. moved flushed o))
        (λ q. h)
  flush-Sound running order e = h
  flush-Sound (offering b) order e = h
  flush-Sound flushed order e = h
  flush-Sound closed order e = h

  pub flush_sent-Sound :
      (ph : Phase) → s.phase ≡ ph → Sound rate_limit (on_flush_sent rate_limit ph s)
  unfolding on_flush_sent
  flush_sent-Sound (offering b) e =
      choose (ltb s.system.in_queue rate_limit) _ _
        (λ q. grown (put b s.system) flushed (ap is_closed e) (inr (b, (refl, refl)))) (λ q. h)
  flush_sent-Sound running e = h
  flush_sent-Sound stopping e = h
  flush_sent-Sound flushed e = h
  flush_sent-Sound closed e = h

  pub flush_timed_out-Sound :
      (ph : Phase) → s.phase ≡ ph → Sound rate_limit (on_flush_timed_out rate_limit ph s)
  unfolding on_flush_timed_out
  flush_timed_out-Sound (offering b) e = moved flushed (ap is_closed e)
  flush_timed_out-Sound running e = h
  flush_timed_out-Sound stopping e = h
  flush_timed_out-Sound flushed e = h
  flush_timed_out-Sound closed e = h

  pub close-Sound : (ph : Phase) → s.phase ≡ ph → Sound rate_limit (on_close rate_limit ph s)
  unfolding on_close
  close-Sound flushed e = moved closed (ap is_closed e)
  close-Sound running e = h
  close-Sound stopping e = h
  close-Sound (offering b) e = h
  close-Sound closed e = h
