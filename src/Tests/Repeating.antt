-- ===== src/Tests/Repeating.antt =====
-- A batch whose first answer is lost on the way.
use gometrics.Prelude.{ℕ, ◌≤◌, true, false, some, List, [], ◌∷◌, ◌≡◌, refl}
use gometrics.Prelude.Dict
use gometrics.Retry.{background, do_context}
use gometrics.Http.{Request}
use gometrics.Storage.Mem
use gometrics.Storage.Mem.{MemStorage}
use gometrics.Handler.{World}
use gometrics.Handler.Batch.{updates_json_handler, validate, check}
use gometrics.Agent.Send.{
  NetError, Payload, new_request, send_payload, is_retriable_http_error, check_response,
}
use gometrics.Agent.Send.Repeats.{
  Fate, answer_lost, over, times, arrivals, AtLeastOnce, send_payload-arrivals,
}
use gometrics.Tests.{handler, std, world, hmac}

abbrev serve : Request → World MemStorage ℕ ℕ → ℕ × World MemStorage ℕ ℕ
serve r w = (200, (updates_json_handler handler std 1 r w).0)

abbrev payload : Payload
payload = record { content = 1 ∷ 2 ∷ []; headers = [] }

abbrev timed_out : NetError
timed_out = record { timeout = true; op_error = false; errno = false }

abbrev fates : List Fate
fates = answer_lost timed_out ∷ []

send_payload-arrivals_example :
    let r =
      send_payload
        (over serve (λ url. true))
        hmac
        ""
        background
        "http://server/updates/"
        payload
        (record { server = world; fates = fates }) in
    let k = arrivals r.attempts fates in
    (r.world.server ≡ times serve k (new_request hmac "" payload) world)
    × (k ≤ 4)
    × AtLeastOnce r.outcome k
send_payload-arrivals_example =
    send_payload-arrivals serve hmac "" (λ url. true) "http://server/updates/" refl payload
      background world fates

-- the counter, which the batch raises by 3, is raised twice
counted_twice :
    Mem.get_counter "Polls"
      (send_payload
        (over serve (λ url. true))
        hmac
        ""
        background
        "http://server/updates/"
        payload
        (record { server = world; fates = fates })).world.server.store
    ≡ some 6
unfolding send_payload updates_json_handler Mem.get_counter Dict.lookup do_context
    is_retriable_http_error check_response validate check Mem.update_batch Dict.insert
    Mem.new_mem_storage
counted_twice = refl
