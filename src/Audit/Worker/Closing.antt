-- ===== src/Audit/Worker/Closing.antt =====
-- What happens to the queue when the subject is closed.
use gometrics.Audit.Worker.Delivery.{notify-enqueue}
use gometrics.Prelude.{
  ℕ, zero, suc, ◌≡◌, refl, true, false, List, [], ◌∷◌, ◌++◌, length, ◌∙◌, sym, append-nil, subst,
  ap, append_assoc, if◌then◌else◌, ◌<◌, lt→ltb,
}
use gometrics.Audit.{Event, Interface, deliver, enqueue}
use gometrics.Audit.Worker.{
  System, selecting, draining, returned, Action, publish, close_stop, take_job, see_stop, act, run,
  on_job, receive_or_return, on_stop, receive, was_accepted,
}

-- `n` rounds of the worker
abbrev pub rounds : ℕ → List Action
rounds zero = []
rounds (suc n) = take_job ∷ rounds n

module _ {O : Type 0} (ops : Interface O) where
  round_draining :
      (js : List Event) (s : System O)
      → s.phase ≡ draining
      → s.subject.jobs ≡ js
      → act ops take_job s ≡ receive_or_return ops js s
  unfolding act on_job
  round_draining js s p e = ap (λ q. on_job ops q s) p ∙ ap (λ l. receive_or_return ops l s) e

  -- the worker has returned, and this was handed out
  abbrev pub Drained : List Event → System O → Type 0
  Drained told s =
      (s.phase ≡ returned) × (s.subject.done ≡ true) × (s.subject.jobs ≡ []) × (s.handed ≡ told)

  drain_all :
      (js : List Event) (s : System O)
      → s.phase ≡ draining
      → s.subject.jobs ≡ js
      → Drained (s.handed ++ js) (run ops (rounds (suc (length js))) s)
  unfolding run receive_or_return receive
  drain_all [] s p e =
      subst (Drained (s.handed ++ [])) (sym (round_draining [] s p e))
        (unfold receive_or_return in (refl, refl, e, sym (append-nil s.handed)))
  drain_all (j ∷ js) s p e =
      subst (λ t. Drained (s.handed ++ j ∷ js) (run ops (rounds (suc (length js))) t))
        (sym (round_draining (j ∷ js) s p e))
        (subst (λ told. Drained told (run ops (rounds (suc (length js))) (receive ops (j ∷ js) s)))
          (unfold receive in append_assoc s.handed (j ∷ []) js)
          (unfold receive_or_return in
            drain_all js (receive ops (j ∷ js) s) (unfold receive in p)
              (unfold receive deliver in refl)))

  act-returned :
      (a : Action) (s : System O)
      → s.phase ≡ returned
      → ((act ops a s).phase ≡ returned) × ((act ops a s).handed ≡ s.handed)
  unfolding act
  act-returned (publish e) s h = (h, refl)
  act-returned close_stop s h = (h, refl)
  act-returned take_job s h =
      subst (λ p. ((on_job ops p s).phase ≡ returned) × ((on_job ops p s).handed ≡ s.handed))
        (sym h) (unfold on_job in (h, refl))
  act-returned see_stop s h =
      subst (λ p. ((on_stop ops p s).phase ≡ returned) × ((on_stop ops p s).handed ≡ s.handed))
        (sym h) (unfold on_stop in (h, refl))

  run-returned :
      (schedule : List Action) (s : System O)
      → s.phase ≡ returned
      → ((run ops schedule s).phase ≡ returned) × ((run ops schedule s).handed ≡ s.handed)
  unfolding run
  run-returned [] s h = (h, refl)
  run-returned (a ∷ later) s h =
      let (p, q) = act-returned a s h in
      let (p', q') = run-returned later (act ops a s) p in (p', q' ∙ q)

  seen :
      (s : System O)
      → s.phase ≡ selecting
      → s.subject.stop ≡ true
      → act ops see_stop s ≡ record s { phase = draining }
  unfolding act on_stop
  seen s p e =
      ap (λ q. on_stop ops q s) p ∙ ap (λ b. if b then record s { phase = draining } else s) e

  -- Once `Close` has closed `stop` and nobody publishes, the worker needs to see the signal and then as
  -- many rounds as there are events in the queue and one more: it has then returned with `done` closed,
  -- and has handed the whole queue to the observers, in order. From then on nothing is handed out any
  -- more, whatever is published.
  pub close_drains :
      (s : System O) (later : List Action)
      → s.phase ≡ selecting
      → s.subject.stop ≡ true
      → let s' = run ops (see_stop ∷ rounds (suc (length s.subject.jobs))) s in
        Drained (s.handed ++ s.subject.jobs) s' × ((run ops later s').handed ≡ s'.handed)
  unfolding run
  close_drains s later p e = (drained, (run-returned later _ drained.0).1)
    where
      drained :
          Drained
            (s.handed ++ s.subject.jobs)
            (run ops (see_stop ∷ rounds (suc (length s.subject.jobs))) s)
      drained =
          subst
            (λ t.
              Drained (s.handed ++ s.subject.jobs)
                (run ops (rounds (suc (length s.subject.jobs))) t))
            (sym (seen s p e)) (drain_all s.subject.jobs (record s { phase = draining }) refl refl)

  -- After the worker has returned, an event that is published while the queue has room is put into the
  -- queue, is not counted as dropped, and is never handed to an observer.
  pub publish_after_return :
      (e : Event) (s : System O) (later : List Action)
      → s.phase ≡ returned
      → s.subject.sync ≡ false
      → length s.subject.jobs < s.subject.queue_size
      → let s' = act ops (publish e) s in
        (s'.accepted ≡ s.accepted ++ e ∷ [])
        × (s'.subject.dropped ≡ s.subject.dropped)
        × ((run ops later s').handed ≡ s.handed)
  publish_after_return e s later p async room = (
    (unfold act was_accepted in rw (lt→ltb _ _ room) refl),
    (unfold act in
        rw (notify-enqueue ops e s.subject async) (unfold enqueue in rw (lt→ltb _ _ room) refl)),
    (run-returned later (act ops (publish e) s) (unfold act in p)).1 ∙ (unfold act in refl),
  )
