-- ===== src/Tests/Delivery.antt =====
-- A run of the agent with one worker, from the first poll to the closed queue.
use mathlib.Core.List.{Perm}
use gometrics.Prelude.{ℕ, ◌+◌, ◌≤◌, true, none, some, List, [], ◌∷◌, ◌≡◌, ◌⊎◌, refl, arith}
use gometrics.Retry.{background}
use gometrics.Agent.{build_batch, update_metrics, Reading, gauge_part, counter_part}
use gometrics.Agent.Queue
use gometrics.Agent.Send.{Client, answered}
use gometrics.Agent.Run.{
  Action, State, Chance, poll_or_report, signal, begin_flush, flush_sent, close_jobs, receive,
  hand_over, closed, begin, act, run, has_returned,
}
use gometrics.Agent.Run.Delivers.{work, run-Delivers}
use gometrics.Tests.{same_order, ciphers, gzip, hmac}
use gometrics.Prelude.Dict

abbrev reading : Reading
reading = record { stat = λ name. 4; gc_cpu_fraction = 0; random = 1 }

abbrev client : Client ℕ
client = record { accepts_url = λ url. true; do_request = λ url r n. (answered 200, n + 1) }

abbrev chance : Chance
chance = record { cek = []; nonce = []; ctx = background }

abbrev poll : List Action → List Action
poll rest =
    poll_or_report (Queue.measure (update_metrics (λ n. n) reading))
    ∷ poll_or_report Queue.raise
    ∷ rest

-- a report, a poll after it, and the signal; the last flush finds a free place
abbrev schedule : List Action
schedule = poll (
    poll_or_report Queue.tick
    ∷ poll_or_report (Queue.read_gauges same_order)
    ∷ poll_or_report (Queue.read_counters same_order)
    ∷ poll_or_report Queue.send
    ∷ receive 0
    ∷ poll (signal ∷ begin_flush same_order ∷ flush_sent ∷ close_jobs ∷ hand_over 0 chance ∷ []))

abbrev act_on : Action → State ℕ → State ℕ
act_on a s = act 1 ciphers gzip (λ metrics. some []) client hmac "" none "http://server" a s

abbrev stopped : State ℕ
stopped =
    run 1 ciphers gzip (λ metrics. some []) client hmac "" none "http://server" schedule (begin 1 0)

stopped-closed : stopped.phase ≡ closed
unfolding run update_metrics gauge_part counter_part Dict.insert Queue.act build_batch
stopped-closed = refl

run-Delivers_example :
    (((has_returned stopped ≡ true) × Perm stopped.handed stopped.system.queued)
      ⊎ ((a : Action) × (work (act_on a stopped) + 1 ≡ work stopped)))
    × ((a : Action)
        → (work (act_on a stopped) ≤ work stopped)
          × ((act_on a stopped).phase ≡ closed)
          × ((act_on a stopped).system.queued ≡ stopped.system.queued))
run-Delivers_example =
    run-Delivers 1 ciphers gzip (λ metrics. some []) client hmac "" none "http://server" schedule 0
      (omega arith) stopped-closed
