-- ===== src/Handler/Json.antt =====
-- internal/handler/handler.go: the handlers of one metric in a JSON body, `ValueJSONHandler` and
-- `UpdateJSONHandler`.
pub mod Effects
use gometrics.Prelude.{Option, none, some, get_or, List, [], ◌∷◌, ◌==◌, not, if◌then◌else◌, Bytes}
use gometrics.Models.{Metrics, Int64, Float64, gauge, counter}
use gometrics.Http.{Request, Call, set_header, write_header, write, header, error_reply, whole}
use gometrics.Handler.{Handler, Std, World, after_write}

-- `json.NewEncoder(w).Encode(req)`, whose error is ignored
abbrev written : Option Bytes → List Call
written none = []
written (some b) = write b ∷ []

module _ {S D O : Type 0} (h : Handler S D O) (std : Std) where
  encoded : Metrics → World S D O → World S D O × List Call
  encoded req w = (
    w,
    set_header "Content-Type" "application/json" ∷ write_header 200 ∷ written (std.encode req),
  )

  value_gauge : Metrics → Option Float64 × S → World S D O → World S D O × List Call
  unfolding encoded
  value_gauge req (none, s) w =
      (record w { store = s }, error_reply "{\"error\":\"metric not found\"}" 404)
  value_gauge req (some v, s) w = encoded (record req { value = some v }) (record w { store = s })

  value_counter : Metrics → Option Int64 × S → World S D O → World S D O × List Call
  unfolding encoded
  value_counter req (none, s) w =
      (record w { store = s }, error_reply "{\"error\":\"metric not found\"}" 404)
  value_counter req (some v, s) w = encoded (record req { delta = some v }) (record w { store = s })

  value_json : Option Metrics → World S D O → World S D O × List Call
  unfolding value_gauge value_counter
  value_json none w = (w, error_reply "{\"error\":\"invalid json\"}" 400)
  value_json (some req) w =
      if req.id == ""
      then (w, error_reply "{\"error\":\"metric name is empty\"}" 400)
      else if req.mtype == gauge
      then value_gauge req (h.storage.get_gauge req.id w.store) w
      else if req.mtype == counter
      then value_counter req (h.storage.get_counter req.id w.store) w
      else (w, error_reply "{\"error\":\"invalid metric type\"}" 400)

  update_gauge : Int64 → Request → Metrics → Option Float64 → World S D O → World S D O × List Call
  unfolding encoded after_write
  update_gauge now r req none w = (w, error_reply "{\"error\":\"missing value for gauge\"}" 400)
  update_gauge now r req (some v) w =
      after_write h std now r (req.id ∷ []) (h.storage.set_gauge req.id v w.store) (encoded req) w

  -- the reply to a counter carries the accumulated value, 0 if it cannot be read
  accumulated : Metrics → World S D O → World S D O × List Call
  unfolding encoded
  accumulated req w =
      let (cur, s) = h.storage.get_counter req.id w.store in
      encoded (record req { delta = some (get_or cur 0) }) (record w { store = s })

  update_counter : Int64 → Request → Metrics → Option Int64 → World S D O → World S D O × List Call
  unfolding accumulated after_write
  update_counter now r req none w = (w, error_reply "{\"error\":\"missing delta for counter\"}" 400)
  update_counter now r req (some d) w =
      after_write h std now r (req.id ∷ []) (h.storage.update_counter req.id d w.store)
        (accumulated req) w

  update_json : Int64 → Request → Option Metrics → World S D O → World S D O × List Call
  unfolding update_gauge update_counter
  update_json now r none w = (w, error_reply "{\"error\":\"invalid json\"}" 400)
  update_json now r (some req) w =
      if req.id == ""
      then (w, error_reply "{\"error\":\"metric name is empty\"}" 400)
      else if req.mtype == gauge
      then update_gauge now r req req.value w
      else if req.mtype == counter
      then update_counter now r req req.delta w
      else (w, error_reply "{\"error\":\"invalid metric type\"}" 400)

  -- the first lines of both handlers: the reply's type, then the check of the request's
  json_only :
      Request
      → (Option Metrics → World S D O → World S D O × List Call)
      → World S D O
      → World S D O × List Call
  json_only r next w =
      let typed = set_header "Content-Type" "application/json" in
      if not (header "Content-Type" r.headers == "application/json")
      then (w, typed ∷ error_reply "{\"error\":\"unsupported content type\"}" 415)
      else let (w', calls) = next (std.decode (get_or r.body (whole []))) w in (w', typed ∷ calls)

  unfoldable pub value_json_handler : Request → World S D O → World S D O × List Call
  unfolding value_json json_only
  value_json_handler r w = json_only r value_json w

  unfoldable pub update_json_handler : Int64 → Request → World S D O → World S D O × List Call
  unfolding update_json json_only
  update_json_handler now r w = json_only r (update_json now r) w
