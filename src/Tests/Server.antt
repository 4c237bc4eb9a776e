-- ===== src/Tests/Server.antt =====
-- Runs of the handlers, the middleware and the audit.
use gometrics.Prelude.{
  ℕ, ◌+◌, true, some, List, [], ◌∷◌, ◌++◌, ◌≡◌, ◌≢◌, ◌⊎◌, refl, bytes, All, if◌then◌else◌, leb→le,
  ltb→lt,
}
use gometrics.Tests.{
  keeps, handler, std, post, world, load, polls, hmac, gzip, counting, subject, event,
}
use gometrics.Storage.Mem
use gometrics.Models.{add64}
use gometrics.Http.{
  Call, set_header, write_header, write, code_of, respond_all, empty, error_reply, header, Request,
}
use gometrics.Hash.{compute}
use gometrics.Handler.Plain.{update_handler, value_handler}
use gometrics.Handler.Json.{update_json_handler}
use gometrics.Handler.Batch.{updates_json_handler}
use gometrics.Handler.Accepted.{IsComplete, batch_world, updates-whole_or_nothing}
use gometrics.Handler.Refused.{refused_unchanged}
use gometrics.Handler.Reading.{
  value_handler-update_handler_gauge, value_handler-update_handler_counter,
}
use gometrics.Middleware.{
  HttpHandler, hash_middleware, signed, compressed, is_packed_type, with_content,
}
use gometrics.Middleware.Passes.{read_whole}
use gometrics.Middleware.Signature.{
  IsSigned, last_status, written, signed-IsSigned, hash_middleware-gate,
}
use gometrics.Middleware.Gzip.{Got, compressed-reply}
use gometrics.Audit.Worker.{
  System, Action, publish, close_stop, take_job, see_stop, start, run, act, returned, selecting,
}
use gometrics.Audit.Worker.Delivery.{IsSound, run-IsSound-start}
use gometrics.Audit.Worker.Closing.{rounds, Drained, close_drains, publish_after_return}

updates-whole_or_nothing_example :
    let (w', calls) = updates_json_handler handler std 1 post world in
    ((code_of calls ≡ some 200)
      × All IsComplete (load ∷ polls ∷ [])
      × (w' ≡ batch_world handler refl std 1 post (load ∷ polls ∷ []) world))
    ⊎ ((code_of calls ≡ some 400) × ¬ All IsComplete (load ∷ polls ∷ []) × (w' ≡ world))
updates-whole_or_nothing_example =
    updates-whole_or_nothing handler refl std 1 post load (polls ∷ []) world refl

refused_unchanged_example :
    let (plain, plain_calls) = update_handler handler std 1 post world in
    let (json, json_calls) = update_json_handler handler std 1 post world in
    let (batch, batch_calls) = updates_json_handler handler std 1 post world in
    ((code_of plain_calls ≡ some 200) ⊎ (plain ≡ world))
    × ((code_of json_calls ≡ some 200) ⊎ (json ≡ world))
    × ((code_of batch_calls ≡ some 200) ⊎ (batch ≡ world))
refused_unchanged_example = refused_unchanged handler refl std 1 post world

value_handler-update_handler_gauge_example :
    (value_handler handler std post (update_handler handler std 1 post world).0).1
    ≡ write_header 200 ∷ write (bytes "7") ∷ []
value_handler-update_handler_gauge_example =
    value_handler-update_handler_gauge handler refl std keeps 1 post post 7 world (refl, λ e. cc e)
      refl refl refl refl

abbrev counted : Request
counted = record post { url_type = "counter"; url_name = "Polls"; url_value = "3" }

value_handler-update_handler_counter_example :
    (value_handler handler std counted (update_handler handler std 1 counted world).0).1
    ≡ write_header 200
      ∷ write (bytes (std.format_int (add64 (Mem.current "Polls" world.store) 3)))
      ∷ []
value_handler-update_handler_counter_example =
    value_handler-update_handler_counter handler refl std keeps 1 counted counted 3 world
      (refl, λ e. cc e) refl refl refl refl

abbrev calls : List Call
calls = write_header 201 ∷ write (1 ∷ []) ∷ write (2 ∷ []) ∷ []

signed-IsSigned_example :
    IsSigned hmac "k"
      (last_status 200 calls)
      (written calls)
      (respond_all (signed hmac "k" calls) empty)
signed-IsSigned_example = signed-IsSigned hmac "k" calls

abbrev next : HttpHandler ℕ
next r w = (w + 1, calls)

hash_middleware-gate_example :
    let incoming = header "Hashsha256" post.headers in
    let (w', out) = next (with_content post (1 ∷ 2 ∷ [])) 0 in
    (((incoming ≡ "") ⊎ (incoming ≡ compute hmac (1 ∷ 2 ∷ []) "k"))
      × (hash_middleware hmac "k" next post 0 ≡ (w', signed hmac "k" out)))
    ⊎ ((incoming ≢ "")
        × (incoming ≢ compute hmac (1 ∷ 2 ∷ []) "k")
        × (hash_middleware hmac "k" next post 0 ≡ (0, error_reply "invalid hash" 400)))
hash_middleware-gate_example =
    hash_middleware-gate hmac "k" next post (1 ∷ 2 ∷ []) 0 (λ e. cc e)
      (read_whole post (1 ∷ 2 ∷ []) refl (leb→le _ _ refl))

compressed-reply_example :
    let r =
      respond_all
        (compressed gzip true
          (set_header "Content-Type" "text/plain" ∷ write_header 200 ∷ write (1 ∷ []) ∷ []))
        empty in
    let packed = is_packed_type "text/plain" in
    Got r 200
      (if true then (if packed then gzip.gzip (1 ∷ []) else 1 ∷ [] ++ gzip.gzip []) else 1 ∷ [])
      packed
compressed-reply_example = compressed-reply gzip true "text/plain" 200 (1 ∷ [])

abbrev schedule : List Action
schedule = publish event ∷ publish event ∷ take_job ∷ close_stop ∷ see_stop ∷ take_job ∷ []

run-IsSound-start_example :
    IsSound counting subject.observers (run counting schedule (start subject))
run-IsSound-start_example = run-IsSound-start counting schedule subject refl refl refl refl

-- closed with one event in the queue
abbrev closing : System ℕ
closing = record {
  subject = record subject { jobs = event ∷ []; stop = true };
  phase = selecting;
  accepted = event ∷ [];
  handed = [];
  calls = 1;
}

close_drains_example :
    let s' = run counting (see_stop ∷ rounds 2) closing in
    Drained counting (event ∷ []) s' × ((run counting (publish event ∷ []) s').handed ≡ s'.handed)
close_drains_example = close_drains counting closing (publish event ∷ []) refl refl

abbrev over : System ℕ
over = record {
  subject = record subject { stop = true; done = true };
  phase = returned;
  accepted = [];
  handed = [];
  calls = 0;
}

publish_after_return_example :
    let s' = act counting (publish event) over in
    (s'.accepted ≡ event ∷ [])
    × (s'.subject.dropped ≡ 0)
    × ((run counting (take_job ∷ []) s').handed ≡ [])
publish_after_return_example =
    publish_after_return counting event over (take_job ∷ []) refl refl (ltb→lt _ _ refl)
