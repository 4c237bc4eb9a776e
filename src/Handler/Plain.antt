-- ===== src/Handler/Plain.antt =====
-- internal/handler/handler.go: the handlers that take their arguments from the path, `UpdateHandler`
-- and `ValueHandler`, and `PingHandler`.
use gometrics.Prelude.{String, Option, none, some, List, [], ◌∷◌, ◌==◌, not, if◌then◌else◌, bytes}
use gometrics.Models.{Int64, Float64}
use gometrics.Http.{Request, Call, write_header, write, error_reply}
use gometrics.Handler.{Handler, Std, World, after_write}

module _ {S D O : Type 0} (h : Handler S D O) (std : Std) where
  unfoldable pub ok_reply : World S D O → World S D O × List Call
  ok_reply w = (w, write_header 200 ∷ [])

  -- the `gauge` case, by what `strconv.ParseFloat` gives
  unfoldable pub update_gauge :
      Int64 → Request → Option Float64 → World S D O → World S D O × List Call
  unfolding ok_reply after_write
  update_gauge now r none w = (w, error_reply "Invalid gauge value" 400)
  update_gauge now r (some value) w =
      after_write h std now r (r.url_name ∷ []) (h.storage.set_gauge r.url_name value w.store)
        ok_reply w

  unfoldable pub update_counter :
      Int64 → Request → Option Int64 → World S D O → World S D O × List Call
  unfolding ok_reply after_write
  update_counter now r none w = (w, error_reply "Invalid counter value" 400)
  update_counter now r (some value) w =
      after_write h std now r (r.url_name ∷ []) (h.storage.update_counter r.url_name value w.store)
        ok_reply w

  unfoldable pub update_handler : Int64 → Request → World S D O → World S D O × List Call
  unfolding update_gauge update_counter
  update_handler now r w =
      if not (r.method == "POST")
      then (w, error_reply "Method not Allowed." 405)
      else if r.url_name == ""
      then (w, error_reply "Metric name is empty" 404)
      else if r.url_type == "gauge"
      then update_gauge now r (std.parse_float r.url_value) w
      else if r.url_type == "counter"
      then update_counter now r (std.parse_int r.url_value) w
      else (w, error_reply "Invalid metric type" 400)

  unfoldable pub found :
      {V : Type 0} → (V → String) → Option V × S → World S D O → World S D O × List Call
  found format (none, s) w = (record w { store = s }, error_reply "Metric not found" 404)
  found format (some v, s) w =
      (record w { store = s }, write_header 200 ∷ write (bytes (format v)) ∷ [])

  unfoldable pub value_handler : Request → World S D O → World S D O × List Call
  unfolding found
  value_handler r w =
      if r.url_type == "gauge"
      then found std.format_float (h.storage.get_gauge r.url_name w.store) w
      else if r.url_type == "counter"
      then found std.format_int (h.storage.get_counter r.url_name w.store) w
      else (w, error_reply "Invalid metric type" 400)

  -- by whether a database is set, and the error of `PingContext`
  unfoldable pub ping_handler : Request → World S D O → World S D O × List Call
  ping_handler r w = elim h.db [
    | none ↦ (w, error_reply "database not configured" 500)
    | some none ↦ (w, write_header 200 ∷ [])
    | some (some e) ↦ (w, error_reply "database ping error" 500)
  ]
