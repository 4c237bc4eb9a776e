-- ===== src/Audit/Worker/Delivery.antt =====
-- What a queue with a worker delivers, under every schedule.
use gometrics.Prelude.{
  suc, ◌%◌, ◌^◌, ◌≤◌, ◌≡◌, refl, Bool, true, false, List, [], ◌∷◌, ◌++◌, ltb, length, arith, map,
  ◌-◌, ◌∙◌, sym, append_assoc, ap, if◌then◌else◌, length-append, ltb→lt, append-nil, subst,
}
use mathlib.Core.Path.{ap₂}
use gometrics.Models.{add64}
use gometrics.Audit.{Event, Interface, Subject, deliver, notify, notify_one, deliver_all, enqueue}
use gometrics.Audit.Worker.{
  System, Phase, selecting, draining, returned, Action, publish, close_stop, take_job, see_stop,
  start, act, run, receive, on_job, on_stop, receive_or_return, was_accepted,
}

module _ {O : Type 0} (ops : Interface O) where
  -- an observer after these events, whatever its answers
  unfoldable pub feed : List Event → O → O
  feed [] o = o
  feed (e ∷ es) o = feed es (ops.notify o e).1

  feed-append :
      (es : List Event) (e : Event) (o : O) → feed (es ++ e ∷ []) o ≡ (ops.notify (feed es o) e).1
  unfolding feed
  feed-append [] e o = refl
  feed-append (x ∷ es) e o = feed-append es e (ops.notify o x).1

  -- an error and a panic leave the observer as its method left it
  notify_one-state : (o : O) (e : Event) → (notify_one ops o e).1 ≡ (ops.notify o e).1
  unfolding notify_one
  notify_one-state o e = ground arith

  map-feed_nil : (os : List O) → map (feed []) os ≡ os
  unfolding feed
  map-feed_nil [] = refl
  map-feed_nil (o ∷ os) = ap (λ l. o ∷ l) (map-feed_nil os)

  deliver_all-map :
      (es : List Event) (e : Event) (os : List O)
      → deliver_all ops (map (feed es) os) e ≡ map (feed (es ++ e ∷ [])) os
  unfolding deliver_all
  deliver_all-map es e [] = refl
  deliver_all-map es e (o ∷ os) = ap₂ (λ x l. x ∷ l) (notified o) (deliver_all-map es e os)
    where
      notified : (o : O) → (notify_one ops (feed es o) e).1 ≡ feed (es ++ e ∷ []) o
      notified o = notify_one-state (feed es o) e ∙ sym (feed-append es e o)

  pub notify-enqueue :
      (e : Event) (s : Subject O) → s.sync ≡ false → notify ops e s ≡ enqueue ops e s
  unfolding notify
  notify-enqueue e s h = rw h refl

  module _ (first : List O) where
    pub record IsSound (s : System O) : Type 0 where
      pub asynchronous : s.subject.sync ≡ false
      pub in_order : s.accepted ≡ s.handed ++ s.subject.jobs
      pub bounded : length s.subject.jobs ≤ s.subject.queue_size
      pub counted : s.subject.dropped ≡ (s.calls - length s.accepted) % 2 ^ 64
      pub fewer : length s.accepted ≤ s.calls
      pub all_told : s.subject.observers ≡ map (feed s.handed) first
      pub finished : s.subject.done ≡ true → s.phase ≡ returned

    receive-IsSound :
        (js : List Event) (s : System O)
        → s.subject.jobs ≡ js
        → IsSound s
        → IsSound (receive ops js s)
    unfolding receive deliver
    receive-IsSound [] s e h = h
    receive-IsSound (j ∷ rest) s e h = record {
      asynchronous = h.asynchronous;
      in_order = h.in_order ∙ rw e (sym (append_assoc s.handed (j ∷ []) rest));
      bounded = omega (arith, ap length e, h.bounded);
      counted = h.counted;
      fewer = h.fewer;
      all_told = ap (λ os. deliver_all ops os j) h.all_told ∙ deliver_all-map s.handed j first;
      finished = h.finished;
    }

    on_job-IsSound : (p : Phase) (s : System O) → s.phase ≡ p → IsSound s → IsSound (on_job ops p s)
    unfolding on_job
    on_job-IsSound selecting s e h = receive-IsSound s.subject.jobs s refl h
    on_job-IsSound draining s e h = last_round s.subject.jobs refl
      where
        last_round : (js : List Event) → s.subject.jobs ≡ js → IsSound (receive_or_return ops js s)
        last_round [] q = record {
          asynchronous = h.asynchronous;
          in_order = h.in_order;
          bounded = h.bounded;
          counted = h.counted;
          fewer = h.fewer;
          all_told = h.all_told;
          finished = λ _. refl;
        }
        last_round (j ∷ rest) q = receive-IsSound (j ∷ rest) s q h
    on_job-IsSound returned s e h = h

    on_stop-IsSound :
        (p : Phase) (s : System O) → s.phase ≡ p → IsSound s → IsSound (on_stop ops p s)
    unfolding on_stop
    on_stop-IsSound selecting s e h = go s.subject.stop
      where
        go : (b : Bool) → IsSound (if b then record s { phase = draining } else s)
        go false = h
        go true = record {
          asynchronous = h.asynchronous;
          in_order = h.in_order;
          bounded = h.bounded;
          counted = h.counted;
          fewer = h.fewer;
          all_told = h.all_told;
          finished = λ d. cc (e, h.finished d);
        }
    on_stop-IsSound draining s e h = h
    on_stop-IsSound returned s e h = h

    publish-IsSound : (e : Event) (s : System O) → IsSound s → IsSound (act ops (publish e) s)
    publish-IsSound e s h =
        unfold act in
        subst (λ t. IsSound (published t (was_accepted ops e s.subject)))
          (sym (notify-enqueue e s.subject h.asynchronous))
          (unfold enqueue was_accepted in
            go (ltb (length s.subject.jobs) s.subject.queue_size) refl)
      where
        published : Subject O → List Event → System O
        published t new = record s {
          subject = t;
          accepted = s.accepted ++ new;
          calls = suc s.calls;
        }

        go :
            (b : Bool)
            → ltb (length s.subject.jobs) s.subject.queue_size ≡ b
            → IsSound (
                published
                  (if b
                    then record s.subject { jobs = s.subject.jobs ++ e ∷ [] }
                    else record s.subject { dropped = add64 s.subject.dropped 1 })
                  (if b then e ∷ [] else []))
        go true q = record {
          asynchronous = h.asynchronous;
          in_order =
              ap (λ l. l ++ e ∷ []) h.in_order ∙ append_assoc s.handed s.subject.jobs (e ∷ []);
          bounded = omega (arith, length-append s.subject.jobs (e ∷ []), ltb→lt _ _ q);
          counted = omega (arith, h.counted, h.fewer, length-append s.accepted (e ∷ []));
          fewer = omega (arith, h.fewer, length-append s.accepted (e ∷ []));
          all_told = h.all_told;
          finished = h.finished;
        }
        go false q = record {
          asynchronous = h.asynchronous;
          in_order = append-nil s.accepted ∙ h.in_order;
          bounded = h.bounded;
          counted = omega (arith, h.counted, h.fewer, length-append s.accepted []);
          fewer = omega (arith, h.fewer, length-append s.accepted []);
          all_told = h.all_told;
          finished = h.finished;
        }

    act-IsSound : (a : Action) (s : System O) → IsSound s → IsSound (act ops a s)
    act-IsSound (publish e) s h = publish-IsSound e s h
    act-IsSound close_stop s h =
        unfold act in
        record {
          asynchronous = h.asynchronous;
          in_order = h.in_order;
          bounded = h.bounded;
          counted = h.counted;
          fewer = h.fewer;
          all_told = h.all_told;
          finished = h.finished;
        }
    act-IsSound take_job s h = unfold act in on_job-IsSound s.phase s refl h
    act-IsSound see_stop s h = unfold act in on_stop-IsSound s.phase s refl h

    run-IsSound : (schedule : List Action) (s : System O) → IsSound s → IsSound (run ops schedule s)
    unfolding run
    run-IsSound [] s h = h
    run-IsSound (a ∷ later) s h = run-IsSound later (act ops a s) (act-IsSound a s h)

  -- Under every schedule of a new asynchronous subject with these observers: the events that the queue
  -- accepted are those that were handed to the observers followed by those still in the queue, in the
  -- same order, so that none is lost, repeated or overtaken; the queue is within its size; `dropped`
  -- counts, modulo 2^64, exactly the calls of `Notify` that were not accepted; and every observer has
  -- been told every handed event in order, whatever it and the others answered.
  pub run-IsSound-start :
      (schedule : List Action) (s : Subject O)
      → s.sync ≡ false
      → s.jobs ≡ []
      → s.dropped ≡ 0
      → s.done ≡ false
      → IsSound s.observers (run ops schedule (start s))
  run-IsSound-start schedule s async empty zero_dropped open_done =
      run-IsSound s.observers schedule (start s) (record {
        asynchronous = async;
        in_order = sym empty;
        bounded = omega (arith, ap length empty);
        counted = zero_dropped;
        fewer = omega arith;
        all_told = sym (map-feed_nil s.observers);
        finished = λ d. cc (d, open_done);
      })
