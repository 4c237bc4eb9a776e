-- ===== src/Audit/Worker.antt =====
-- internal/audit/audit.go: the goroutine `worker` beside the callers of `Notify` and `Close`. A
-- schedule is a list of actions, each one atomic step of one goroutine; an action of a goroutine that is
-- blocked or gone changes nothing.
pub mod Delivery
pub mod Closing
use gometrics.Prelude.{
  ℕ, suc, String, Bool, true, false, List, [], ◌∷◌, ◌++◌, ltb, length, if◌then◌else◌,
}
use gometrics.Audit.{Event, Interface, Subject, deliver, notify}

-- Where the worker is: in its `select`, in `drain`, or returned.
pub data Phase : Type 0 where
  selecting draining returned : Phase

-- The last three fields are a record of what happened, for the theorems: the events that `Notify` put
-- into the queue, those that `deliver` was called with, and the calls of `Notify`.
pub record System (O : Type 0) : Type 0 where
  pub subject : Subject O
  pub phase : Phase
  pub accepted : List Event
  pub handed : List Event
  pub calls : ℕ

pub data Action : Type 0 where
  publish : Event → Action
  close_stop : Action
  take_job : Action
  see_stop : Action

abbrev pub start : {O : Type 0} → Subject O → System O
start s = record { subject = s; phase = selecting; accepted = []; handed = []; calls = 0 }

module _ {O : Type 0} (ops : Interface O) where
  -- `event := <-s.jobs`, then `deliver`
  receive : List Event → System O → System O
  receive [] s = s
  receive (e ∷ rest) s = record s {
    subject = deliver ops e (record s.subject { jobs = rest });
    handed = s.handed ++ e ∷ [];
  }

  -- the `default` of `drain`, and the deferred `close(s.done)`
  receive_or_return : List Event → System O → System O
  unfolding receive
  receive_or_return [] s = record s { phase = returned; subject = record s.subject { done = true } }
  receive_or_return (e ∷ rest) s = receive (e ∷ rest) s

  -- the case `<-s.jobs` of the worker's `select`, or a round of `drain`
  on_job : Phase → System O → System O
  unfolding receive receive_or_return
  on_job selecting s = receive s.subject.jobs s
  on_job draining s = receive_or_return s.subject.jobs s
  on_job returned s = s

  -- the case `<-s.stop`
  on_stop : Phase → System O → System O
  on_stop selecting s = if s.subject.stop then record s { phase = draining } else s
  on_stop draining s = s
  on_stop returned s = s

  unfoldable pub was_accepted : Event → Subject O → List Event
  was_accepted e s = if ltb (length s.jobs) s.queue_size then e ∷ [] else []

  unfoldable pub act : Action → System O → System O
  unfolding on_job on_stop was_accepted
  act (publish e) s = record s {
    subject = notify ops e s.subject;
    accepted = s.accepted ++ was_accepted e s.subject;
    calls = suc s.calls;
  }
  act close_stop s = record s { subject = record s.subject { stop = true } }
  act take_job s = on_job s.phase s
  act see_stop s = on_stop s.phase s

  unfoldable pub run : List Action → System O → System O
  run [] s = s
  run (a ∷ later) s = run later (act a s)
