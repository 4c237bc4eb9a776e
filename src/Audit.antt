-- ===== src/Audit.antt =====
-- internal/audit/audit.go: `Subject`, the publisher of audit events. An observer is a state `O` with
-- the methods of `Interface`; the worker goroutine is a step function (`Audit.Worker`).

pub mod Worker
pub mod Observers
use gometrics.Prelude.{
  ℕ, suc, ◌+◌, ◌%◌, ◌^◌, String, Bool, true, false, Option, none, some, List, [], ◌∷◌, ◌++◌, ltb,
  leb, length, if◌then◌else◌,
}
use gometrics.Models.{Int64, add64}

pub record Event : Type 0 where
  pub ts : Int64
  pub metrics : List String
  pub ip_address : String

-- what one call of `Observer.Notify` does
pub data Delivery : Type 0 where
  delivered : Delivery
  refused : String → Delivery
  panicked : Delivery

-- `close` is `none` for an observer that is no `io.Closer`
pub record Interface (O : Type 0) : Type 0 where
  pub notify : O → Event → Delivery × O
  pub close : O → Option (Option String × O)

pub record Subject (O : Type 0) : Type 0 where
  pub observers : List O
  pub queue_size : ℕ
  pub sync : Bool
  pub jobs : List Event
  pub stop : Bool
  pub done : Bool
  pub dropped : Int64

abbrev pub default_queue_size : ℕ
default_queue_size = 256

-- a `SubjectOption`; a size that is not positive is 0 here
pub data SubjectOption : Type 0 where
  with_queue_size : ℕ → SubjectOption
  with_sync_delivery : SubjectOption

module _ {O : Type 0} where
  apply_option : SubjectOption → Subject O → Subject O
  apply_option (with_queue_size size) s = if ltb 0 size then record s { queue_size = size } else s
  apply_option with_sync_delivery s = record s { sync = true }

  -- a nil option is `none`
  apply_options : List (Option SubjectOption) → Subject O → Subject O
  unfolding apply_option
  apply_options [] s = s
  apply_options (none ∷ opts) s = apply_options opts s
  apply_options (some o ∷ opts) s = apply_options opts (apply_option o s)

  -- `queueSize <= 0` becomes the default; a synchronous subject has no worker, so `done` is closed
  started : Subject O → Subject O
  started s = record s {
    queue_size = if leb s.queue_size 0 then default_queue_size else s.queue_size;
    done = s.sync;
  }

  unfoldable pub new_subject : List (Option SubjectOption) → Subject O
  unfolding apply_options started
  new_subject opts = started (
      apply_options opts (record {
        observers = [];
        queue_size = 0;
        sync = false;
        jobs = [];
        stop = false;
        done = false;
        dropped = 0;
      }))

  -- `Register`; nil is `none`
  unfoldable pub register : Option O → Subject O → Subject O
  register none s = s
  register (some o) s = record s { observers = s.observers ++ o ∷ [] }

  module _ (ops : Interface O) where
    -- `notify`: a panic of an observer becomes a nil error, and every error is only logged
    notify_one : O → Event → Option String × O
    notify_one o event =
        let (d, o') = ops.notify o event in
        elim d [ delivered ↦ (none, o') | refused e ↦ (some e, o') | panicked ↦ (none, o') ]

    deliver_all : List O → Event → List O
    unfolding notify_one
    deliver_all [] event = []
    deliver_all (o ∷ os) event = (notify_one o event).1 ∷ deliver_all os event

    unfoldable pub deliver : Event → Subject O → Subject O
    unfolding deliver_all
    deliver event s = record s { observers = deliver_all s.observers event }

    -- the `select` of `Notify`: the queue takes an event while it has room
    unfoldable pub enqueue : Event → Subject O → Subject O
    enqueue event s =
        if ltb (length s.jobs) s.queue_size
        then record s { jobs = s.jobs ++ event ∷ [] }
        else record s { dropped = add64 s.dropped 1 }

    -- `Subject.Notify`
    unfoldable pub notify : Event → Subject O → Subject O
    unfolding deliver enqueue
    notify event s = if s.sync then deliver event s else enqueue event s

    close_all : List O → List String × List O
    close_all [] = ([], [])
    close_all (o ∷ os) =
        let (errs, os') = close_all os in
        elim (ops.close o) [
          | none ↦ (errs, o ∷ os')
          | some (none, o') ↦ (errs, o' ∷ os')
          | some (some e, o') ↦ (e ∷ errs, o' ∷ os')
        ]

    -- `closeObservers`, with the errors that `errors.Join` joins
    unfoldable pub close_observers : Subject O → List String × Subject O
    unfolding close_all
    close_observers s =
        let (errs, os) = close_all s.observers in (errs, record s { observers = os })

-- `NewEvent`, and `WithNames`, whose copy of the names is the same list
abbrev pub new_event : Int64 → List String → String → Event
new_event now metrics ip = record { ts = now; metrics = metrics; ip_address = ip }
