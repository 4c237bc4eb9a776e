-- ===== src/Agent/Run/Workers.antt =====
-- The workers' steps keep what holds of a run.
use gometrics.Agent.Send.{Client}
use gometrics.Models.{Metrics}
use gometrics.Middleware.{GzipLib}
use gometrics.Crypto.{Primitives}
use mathlib.Core.List.{Perm, perm_middle}
use mathlib.Core.List.Perm
use mathlib.Core.Option.{none-ne-some, some-injective}
use gometrics.Prelude.{
  ℕ, zero, suc, ◌-◌, Bool, true, false, List, [], ◌∷◌, ◌++◌, ◌≡◌, inl, inr, refl, arith, length,
  drop, get_elem?, set_at, set_at-length, Option, some, none, ap, ◌≢◌, eqb, ◌&&◌, ◌∙◌, eqb_iff,
  subst, sym, Bytes, String,
}
use gometrics.Agent.Queue.{Batch}
use gometrics.Agent.Run.{
  Worker, receiving, sending, exited, State, is_closed, received, on_receive, on_leave,
  on_hand_over, Chance, poll_or_report, begin, begin_flush, Action, act, run, workers_of, signal,
  flush_sent, flush_timed_out, close_jobs, receive, hand_over, leave,
}
use gometrics.Agent.Run.Flight.{
  in_flight, any_exited, in_flight-receive, in_flight-hand_over, any_exited-set_at, in_flight-leave,
}
use gometrics.Agent.Run.Sound.{
  Sound, choose, pollers-Sound, signal-Sound, flush-Sound, flush_sent-Sound, flush_timed_out-Sound,
  close-Sound,
}

both : (a b : Bool) → (a && b) ≡ true → (a ≡ true) × (b ≡ true)
both true b e = (refl, e)
both false b e = cc e

drop-get :
    (l : List Batch) (n : ℕ) (b : Batch) → get_elem? l n ≡ some b → drop n l ≡ b ∷ drop (suc n) l
drop-get [] n b e = absurd (none-ne-some b e)
drop-get (x ∷ l) zero b e = ap (λ x. x ∷ l) (some-injective x b e)
drop-get (x ∷ l) (suc n) b e = drop-get l n b e

module _ {S : Type 0} (rate_limit : ℕ) (s : State S) (h : Sound rate_limit s) where
  -- the number that was taken from the queue is that of its oldest batch
  oldest :
      (b : Batch)
      → s.system.in_queue ≢ 0
      → get_elem? s.system.queued (s.system.in_queue - 1) ≡ some b
      → drop (s.system.in_queue - 1) s.system.queued ≡ b ∷ drop s.system.in_queue s.system.queued
  oldest b n q =
      let e : suc (s.system.in_queue - 1) ≡ s.system.in_queue = omega (arith, n) in
      drop-get s.system.queued _ b q ∙ ap (λ k. b ∷ drop k s.system.queued) e

  module _ (i : ℕ) where
    received-Sound :
        (o : Option Batch)
        → get_elem? s.workers i ≡ some receiving
        → s.system.in_queue ≢ 0
        → get_elem? s.system.queued (s.system.in_queue - 1) ≡ o
        → Sound rate_limit (received rate_limit o i s)
    unfolding received
    received-Sound none e n q = h
    received-Sound (some b) e n q = record {
      balance = rw (oldest b n q) (
          Perm.trans (Perm.append_right s.handed (in_flight-receive s.workers i b e))
            (Perm.cons b h.balance));
      room = omega (arith, h.room);
      left = elim h.left [
        | inl x ↦ inl (any_exited-set_at s.workers i receiving (sending b) e refl ∙ x)
        | inr (_, z) ↦ absurd (n z)
      ];
      started = set_at-length s.workers i (sending b) ∙ h.started;
    }

    pub receive-Sound :
        (o : Option Worker)
        → get_elem? s.workers i ≡ o
        → Sound rate_limit (on_receive rate_limit o i s)
    unfolding on_receive
    receive-Sound none e = h
    receive-Sound (some exited) e = h
    receive-Sound (some (sending b)) e = h
    receive-Sound (some receiving) e =
        choose rate_limit s h (eqb s.system.in_queue 0) _ _ (λ q. h)
          (λ q. received-Sound _ e (λ z. cc (q, (eqb_iff s.system.in_queue 0).1 z)) refl)

    pub leave-Sound :
        (o : Option Worker)
        → get_elem? s.workers i ≡ o
        → Sound rate_limit (on_leave rate_limit o i s)
    unfolding on_leave
    leave-Sound none e = h
    leave-Sound (some exited) e = h
    leave-Sound (some (sending b)) e = h
    leave-Sound (some receiving) e =
        choose rate_limit s h (is_closed s.phase && eqb s.system.in_queue 0) _ _
          (λ q. record {
            balance =
                subst (λ l. Perm (l ++ s.handed) (drop s.system.in_queue s.system.queued))
                  (sym (in_flight-leave s.workers i e)) h.balance;
            room = h.room;
            left = inr (let (c, z) = both _ _ q in (c, (eqb_iff s.system.in_queue 0).0 z));
            started = set_at-length s.workers i exited ∙ h.started;
          })
          (λ q. h)

module _ (rate_limit : ℕ) {S Public Private : Type 0} (p : Primitives Public Private)
    (lib : GzipLib) (marshal : List Metrics → Option Bytes) (client : Client S)
    (hmac : Bytes → Bytes → Bytes) (key : String) (pub_key : Option Public) (addr : String) where
  hand_over-Sound :
      (o : Option Worker) (i : ℕ) (c : Chance) (s : State S)
      → Sound rate_limit s
      → get_elem? s.workers i ≡ o
      → Sound rate_limit
          (on_hand_over rate_limit p lib marshal client hmac key pub_key addr o i c s)
  unfolding on_hand_over
  hand_over-Sound none i c s h e = h
  hand_over-Sound (some receiving) i c s h e = h
  hand_over-Sound (some exited) i c s h e = h
  hand_over-Sound (some (sending b)) i c s h e = record {
    balance =
        Perm.trans (perm_middle (in_flight (set_at s.workers i receiving)) s.handed)
          (Perm.trans (Perm.append_right s.handed (in_flight-hand_over s.workers i b e)) h.balance);
    room = h.room;
    left = elim h.left [
      | inl x ↦ inl (any_exited-set_at s.workers i (sending b) receiving e refl ∙ x)
      | inr z ↦ inr z
    ];
    started = set_at-length s.workers i receiving ∙ h.started;
  }

  act-Sound :
      (a : Action) (s : State S)
      → Sound rate_limit s
      → Sound rate_limit (act rate_limit p lib marshal client hmac key pub_key addr a s)
  unfolding act
  act-Sound (poll_or_report a) s h = pollers-Sound rate_limit s h s.phase a refl
  act-Sound signal s h = signal-Sound rate_limit s h s.phase refl
  act-Sound (begin_flush order) s h = flush-Sound rate_limit s h s.phase order refl
  act-Sound flush_sent s h = flush_sent-Sound rate_limit s h s.phase refl
  act-Sound flush_timed_out s h = flush_timed_out-Sound rate_limit s h s.phase refl
  act-Sound close_jobs s h = close-Sound rate_limit s h s.phase refl
  act-Sound (receive i) s h = receive-Sound rate_limit s h i (get_elem? s.workers i) refl
  act-Sound (hand_over i c) s h = hand_over-Sound (get_elem? s.workers i) i c s h refl
  act-Sound (leave i) s h = leave-Sound rate_limit s h i (get_elem? s.workers i) refl

  run-Sound :
      (schedule : List Action) (s : State S)
      → Sound rate_limit s
      → Sound rate_limit (run rate_limit p lib marshal client hmac key pub_key addr schedule s)
  unfolding run
  run-Sound [] s h = h
  run-Sound (a ∷ schedule) s h =
      run-Sound schedule (act rate_limit p lib marshal client hmac key pub_key addr a s)
        (act-Sound a s h)

  none_in_flight : (n : ℕ) → in_flight (workers_of n) ≡ []
  none_in_flight zero = refl
  none_in_flight (suc n) = none_in_flight n

  none_exited : (n : ℕ) → any_exited (workers_of n) ≡ false
  none_exited zero = refl
  none_exited (suc n) = none_exited n

  all_started : (n : ℕ) → length (workers_of n) ≡ n
  all_started zero = refl
  all_started (suc n) = ap suc (all_started n)

  pub reached-Sound :
      (schedule : List Action) (net : S)
      → Sound rate_limit (
          run rate_limit p lib marshal client hmac key pub_key addr schedule (begin rate_limit net))
  reached-Sound schedule net = run-Sound schedule (begin rate_limit net) (record {
    balance = subst (λ l. Perm (l ++ []) []) (sym (none_in_flight rate_limit)) Perm.nil;
    room = omega arith;
    left = inl (none_exited rate_limit);
    started = all_started rate_limit;
  })
