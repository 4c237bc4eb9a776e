-- ===== src/Agent/Run/Delivers.antt =====
-- `Run` returns, and the workers have handed over every batch that was queued.
use mathlib.Core.List.{Perm}
use gometrics.Prelude.{
  ℕ, zero, suc, ◌+◌, ◌-◌, ◌*◌, ◌≤◌, ◌<◌, String, true, false, List, [], ◌∷◌, ◌++◌, ◌≡◌, ◌≢◌, ◌⊎◌,
  inl, inr, refl, sym, subst, ◌∙◌, arith, length, drop, get_elem?, set_at, total-set_at, Option,
  some, none, Bytes, eqb, eqb_iff, Bool-cases,
}
use gometrics.Models.{Metrics}
use gometrics.Middleware.{GzipLib}
use gometrics.Crypto.{Primitives}
use gometrics.Retry.{background}
use gometrics.Agent.Queue.{Batch}
use gometrics.Agent.Send.{Client}
use gometrics.Agent.Run.{
  Worker, receiving, sending, exited, closed, State, Chance, all_exited, has_returned, begin,
  Action, receive, hand_over, leave, act, run, poll_or_report, signal, begin_flush, flush_sent,
  flush_timed_out, close_jobs, on_receive, on_leave, received, on_hand_over, on_pollers, on_signal,
  on_begin_flush, on_flush_sent, on_flush_timed_out, on_close,
}
use gometrics.Agent.Run.Flight.{
  in_flight, load, weight, some-Active, all_exited-in_flight, all_exited-any_exited,
}
use gometrics.Agent.Run.Sound.{Sound}
use gometrics.Agent.Run.Workers.{reached-Sound}

-- the steps that the workers have left until all are out: two for a batch in the queue
abbrev pub work : {S : Type 0} → State S → ℕ
work s = 2 * s.system.in_queue + load s.workers

get-some : (l : List Batch) (n : ℕ) → n < length l → (b : Batch) × (get_elem? l n ≡ some b)
get-some [] n h = absurd (omega (arith, h))
get-some (x ∷ l) zero h = (x, refl)
get-some (x ∷ l) (suc n) h = get-some l n (omega (arith, h))

no_ctx : Chance
no_ctx = record { cek = []; nonce = []; ctx = background }

module _ {S : Type 0} (rate_limit : ℕ) (s : State S) (h : Sound rate_limit s) where
  returned : 0 < rate_limit → all_exited s.workers ≡ true → Perm s.handed s.system.queued
  returned some_workers e = elim h.left [
    | inl n ↦
        cc (n, all_exited-any_exited s.workers (subst (λ n. 0 < n) (sym h.started) some_workers) e)
    | inr (_, z) ↦
        subst (λ l. Perm (l ++ s.handed) s.system.queued) (all_exited-in_flight s.workers e)
          (subst (λ n. Perm (in_flight s.workers ++ s.handed) (drop n s.system.queued)) z h.balance)
  ]

  receive-work :
      (i : ℕ)
      → get_elem? s.workers i ≡ some receiving
      → s.system.in_queue ≢ 0
      → work (on_receive rate_limit (some receiving) i s) + 1 ≡ work s
  unfolding on_receive received
  receive-work i e n =
      let (b, q) = get-some s.system.queued (s.system.in_queue - 1) (omega (arith, n, h.room)) in
      let busy : eqb s.system.in_queue 0 ≡ false = ground (arith, n) in
      let e' : load (set_at s.workers i (sending b)) + 1 ≡ load s.workers + 2 =
        total-set_at weight s.workers i receiving (sending b) e in
      rw (busy, q) (omega (arith, e', n))

  leave-work :
      (i : ℕ)
      → get_elem? s.workers i ≡ some receiving
      → s.phase ≡ closed
      → s.system.in_queue ≡ 0
      → work (on_leave rate_limit (some receiving) i s) + 1 ≡ work s
  unfolding on_leave
  leave-work i e c z =
      let e' : load (set_at s.workers i exited) + 1 ≡ load s.workers + 0 =
        total-set_at weight s.workers i receiving exited e in
      rw (c, z) (omega (arith, e', z))

module _ (rate_limit : ℕ) {S Public Private : Type 0} (p : Primitives Public Private)
    (lib : GzipLib) (marshal : List Metrics → Option Bytes) (client : Client S)
    (hmac : Bytes → Bytes → Bytes) (key : String) (pub_key : Option Public) (addr : String) where
  step : Action → State S → State S
  step a s = act rate_limit p lib marshal client hmac key pub_key addr a s

  module _ (s : State S) (h : Sound rate_limit s) (c : s.phase ≡ closed) where
    idle_steps :
        (i : ℕ)
        → get_elem? s.workers i ≡ some receiving
        → (a : Action) × (work (step a s) + 1 ≡ work s)
    unfolding act step
    idle_steps i e = elim (Bool-cases (eqb s.system.in_queue 0)) [
      | inl z ↦ (leave i, rw e (leave-work rate_limit s h i e c ((eqb_iff _ _).0 z)))
      | inr n ↦ (receive i, rw e (receive-work rate_limit s h i e (λ z. cc (n, (eqb_iff _ _).1 z))))
    ]

    busy_steps :
        (i : ℕ) (b : Batch)
        → get_elem? s.workers i ≡ some (sending b)
        → (a : Action) × (work (step a s) + 1 ≡ work s)
    unfolding act step on_hand_over
    busy_steps i b e =
        let e' : load (set_at s.workers i receiving) + 2 ≡ load s.workers + 1 =
          total-set_at weight s.workers i (sending b) receiving e in
        (hand_over i no_ctx, rw e (omega (arith, e')))

    progress :
        0 < rate_limit
        → ((has_returned s ≡ true) × Perm s.handed s.system.queued)
          ⊎ ((a : Action) × (work (step a s) + 1 ≡ work s))
    progress some_workers = elim (some-Active s.workers) [
      | inl e ↦ inl (rw (c, e) refl, returned rate_limit s h some_workers e)
      | inr (i, inl e) ↦ inr (idle_steps i e)
      | inr (i, inr (b, e)) ↦ inr (busy_steps i b e)
    ]

    -- `s'` is closed too, with the same batches, and has no more work
    abbrev Bounds : State S → Type 0
    Bounds s' = (work s' ≤ work s) × (s'.phase ≡ closed) × (s'.system.queued ≡ s.system.queued)

    same-Bounds : Bounds s
    same-Bounds = (omega arith, c, refl)

    less-Bounds :
        (s' : State S)
        → work s' + 1 ≡ work s
        → s'.phase ≡ s.phase
        → s'.system.queued ≡ s.system.queued
        → Bounds s'
    less-Bounds s' e p q = (omega (arith, e), p ∙ c, q)

    receive_keeps :
        (i : ℕ)
        → ((on_receive rate_limit (some receiving) i s).phase ≡ s.phase)
          × ((on_receive rate_limit (some receiving) i s).system.queued ≡ s.system.queued)
    unfolding on_receive received
    receive_keeps i = ground arith

    receive-Bounds :
        (o : Option Worker) (i : ℕ)
        → get_elem? s.workers i ≡ o
        → Bounds (on_receive rate_limit o i s)
    unfolding on_receive received
    receive-Bounds (some receiving) i e = elim (Bool-cases (eqb s.system.in_queue 0)) [
      | inl z ↦ rw z same-Bounds
      | inr n ↦
          less-Bounds (on_receive rate_limit (some receiving) i s)
            (receive-work rate_limit s h i e (λ z. cc (n, (eqb_iff _ _).1 z))) (receive_keeps i).0
            (receive_keeps i).1
    ]
    receive-Bounds none i e = same-Bounds
    receive-Bounds (some exited) i e = same-Bounds
    receive-Bounds (some (sending b)) i e = same-Bounds

    leave-Bounds :
        (o : Option Worker) (i : ℕ) → get_elem? s.workers i ≡ o → Bounds (on_leave rate_limit o i s)
    unfolding on_leave
    leave-Bounds (some receiving) i e = elim (Bool-cases (eqb s.system.in_queue 0)) [
      | inl z ↦
          less-Bounds (on_leave rate_limit (some receiving) i s)
            (leave-work rate_limit s h i e c ((eqb_iff _ _).0 z)) (rw (c, z) refl) (rw (c, z) refl)
      | inr n ↦ rw (c, n) (omega arith, refl, refl)
    ]
    leave-Bounds none i e = same-Bounds
    leave-Bounds (some exited) i e = same-Bounds
    leave-Bounds (some (sending b)) i e = same-Bounds

    hand_over-Bounds :
        (o : Option Worker) (i : ℕ) (d : Chance)
        → get_elem? s.workers i ≡ o
        → Bounds (on_hand_over rate_limit p lib marshal client hmac key pub_key addr o i d s)
    unfolding on_hand_over
    hand_over-Bounds (some (sending b)) i d e =
        let e' : load (set_at s.workers i receiving) + 2 ≡ load s.workers + 1 =
          total-set_at weight s.workers i (sending b) receiving e in
        (omega (arith, e'), c, refl)
    hand_over-Bounds none i d e = same-Bounds
    hand_over-Bounds (some exited) i d e = same-Bounds
    hand_over-Bounds (some receiving) i d e = same-Bounds

    step-Bounds : (a : Action) → Bounds (step a s)
    unfolding act step on_pollers on_signal on_begin_flush on_flush_sent on_flush_timed_out on_close
    step-Bounds (poll_or_report a) = rw c (omega arith, refl, refl)
    step-Bounds signal = rw c (omega arith, refl, refl)
    step-Bounds (begin_flush order) = rw c (omega arith, refl, refl)
    step-Bounds flush_sent = rw c (omega arith, refl, refl)
    step-Bounds flush_timed_out = rw c (omega arith, refl, refl)
    step-Bounds close_jobs = rw c (omega arith, refl, refl)
    step-Bounds (receive i) = receive-Bounds (get_elem? s.workers i) i refl
    step-Bounds (hand_over i d) = hand_over-Bounds (get_elem? s.workers i) i d refl
    step-Bounds (leave i) = leave-Bounds (get_elem? s.workers i) i refl

  -- Whatever steps the pollers, the reporter, the workers and `Run` itself have taken, from the start
  -- to any moment after the queue was closed, where the rate limit is not 0: either all workers have
  -- left, and the batches that they passed to `sendMetricsBatch` are those that were ever queued, each
  -- once, or some step leaves the workers one step less (`work` counts them). No step adds to that
  -- count, puts a batch into the queue or opens it again.
  pub run-Delivers :
      (schedule : List Action) (net : S)
      → 0 < rate_limit
      → let s =
          run rate_limit p lib marshal client hmac key pub_key addr schedule
            (begin rate_limit net) in
        s.phase ≡ closed
        → (((has_returned s ≡ true) × Perm s.handed s.system.queued)
            ⊎ ((a : Action) × (work (act rate_limit p lib marshal client hmac key pub_key addr a s)
                    + 1
                  ≡ work s)))
          × ((a : Action)
              → let s' = act rate_limit p lib marshal client hmac key pub_key addr a s in
                (work s' ≤ work s) × (s'.phase ≡ closed) × (s'.system.queued ≡ s.system.queued))
  unfolding step
  run-Delivers schedule net some_workers c =
      let s : State S =
        run rate_limit p lib marshal client hmac key pub_key addr schedule (begin rate_limit net) in
      let h : Sound rate_limit s =
        reached-Sound rate_limit p lib marshal client hmac key pub_key addr schedule net in
      (progress s h c some_workers, step-Bounds s h c)
