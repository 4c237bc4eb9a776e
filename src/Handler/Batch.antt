-- ===== src/Handler/Batch.antt =====
-- internal/handler/handler.go: `UpdatesJSONHandler`.
use Prim.Native.String.{◌++◌ as str_append}
use gometrics.Prelude.{
  String, Bool, true, false, Option, none, some, get_or, List, [], ◌∷◌, ◌==◌, ◌&&◌, not, map,
  if◌then◌else◌,
}
use gometrics.Models.{Metrics, Int64, gauge, counter}
use gometrics.Http.{Request, Call, write_header, error_reply, whole}
use gometrics.Handler.{Handler, Std, World, after_write}

abbrev pub is_nil {ℓ} : {A : Type ℓ} → Option A → Bool
is_nil none = true
is_nil (some _) = false

-- the three checks of the validation loop on one metric; `none`: it passes
unfoldable pub check : Metrics → Option String
check m =
    if not (m.mtype == gauge) && not (m.mtype == counter)
    then some (str_append "invalid metric type: " m.id)
    else if m.mtype == gauge && is_nil m.value
    then some (str_append "missing value for gauge: " m.id)
    else if m.mtype == counter && is_nil m.delta
    then some (str_append "missing delta for counter: " m.id)
    else none

-- the loop returns at the first metric that does not pass
unfoldable pub validate : List Metrics → Option String
validate [] = none
validate (m ∷ metrics) =
    let rest = validate metrics in elim (check m) [ some e ↦ some e | none ↦ rest ]

module _ {S D O : Type 0} (h : Handler S D O) (std : Std) where
  unfoldable pub ok_reply : World S D O → World S D O × List Call
  ok_reply w = (w, write_header 200 ∷ [])

  -- the reply does not repeat the storage's error
  unfoldable pub hide_error : Option String × S → Option String × S
  hide_error (none, s) = (none, s)
  hide_error (some e, s) = (some "failed to update metrics", s)

  unfoldable pub apply_valid :
      Int64 → Request → Option String → List Metrics → World S D O → World S D O × List Call
  unfolding ok_reply hide_error after_write
  apply_valid now r (some e) metrics w = (w, error_reply e 400)
  apply_valid now r none metrics w =
      after_write h std now r (map (λ m. m.id) metrics)
        (hide_error (h.storage.update_batch metrics w.store)) ok_reply w

  unfoldable pub updates :
      Int64 → Request → Option (List Metrics) → World S D O → World S D O × List Call
  unfolding apply_valid ok_reply
  updates now r none w = (w, error_reply "JSON invalid" 400)
  updates now r (some []) w = ok_reply w
  updates now r (some (m ∷ ms)) w = apply_valid now r (validate (m ∷ ms)) (m ∷ ms) w

  unfoldable pub updates_json_handler : Int64 → Request → World S D O → World S D O × List Call
  unfolding updates
  updates_json_handler now r w = updates now r (std.decode_list (get_or r.body (whole []))) w
