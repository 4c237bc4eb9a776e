-- ===== src/Tests/Storing.antt =====
-- Runs of the storages, the retries and the envelope.
use gometrics.Prelude.{
  ℕ, String, true, false, Option, none, some, List, [], ◌∷◌, ◌≡◌, refl, Bytes, ltb, sym, ◌+◌, ◌++◌,
}
use gometrics.Tests.{
  json, same_order, same_order-IsOrder, load, polls, ciphers, ciphers-IsPair, tag,
}
use gometrics.Models.{Metrics}
use gometrics.Storage.Mem.{
  MemStorage, mem_storage, new_mem_storage, update_batch, get_gauge, get_counter,
}
use gometrics.Storage.Mem.Batch.{update_batch-effect, or_old, after, last_value, deltas}
use gometrics.Storage.Mem.Invariant.{writes-IsValid, writes, batch_write, gauge_write}
use gometrics.Storage.File.{save_to_file, write_metrics, load_from_file, no_faults, snapshot, Disk}
use gometrics.Storage.File.Atomic.{Saved, save_to_file-Saved}
use gometrics.Storage.File.Trip.{ReadsBack, SameReads, save-load}
use gometrics.Retry.{background, do_context, intervals}
use gometrics.Retry.Laws.{IsCorrect, do_context-IsCorrect}
use gometrics.Crypto
use gometrics.Crypto.{Result, envelope_header_of}
use gometrics.Crypto.Envelope.{decrypt-total}
use gometrics.Crypto.Trip.{decrypt-encrypt}

abbrev batch : List Metrics
batch = load ∷ polls ∷ polls ∷ []

update_batch-effect_example :
    (get_gauge "Load" (update_batch batch new_mem_storage)
      ≡ or_old (last_value "Load" batch) (get_gauge "Load" new_mem_storage))
    × (get_counter "Load" (update_batch batch new_mem_storage)
        ≡ after (get_counter "Load" new_mem_storage) (deltas "Load" batch))
update_batch-effect_example = update_batch-effect "Load" batch new_mem_storage

abbrev stored : MemStorage
stored = writes (gauge_write "Load" 5 ∷ batch_write batch ∷ []) new_mem_storage

abbrev dir : String → String
dir path = "."

abbrev saved : Option String × MemStorage × Disk (List Metrics)
saved = save_to_file mem_storage json dir same_order no_faults "metrics.json" (stored, [])

json-ReadsBack : ReadsBack json
json-ReadsBack ms c e = sym e

saved-none : saved.0 ≡ none
unfolding save_to_file write_metrics
saved-none = refl

save-load_example :
    let (err', restored) =
      load_from_file mem_storage json no_faults "metrics.json" saved.2 new_mem_storage in
    (err' ≡ none) × SameReads restored stored
save-load_example =
    save-load json json-ReadsBack same_order same_order-IsOrder dir no_faults "metrics.json" stored
      [] (writes-IsValid (gauge_write "Load" 5 ∷ batch_write batch ∷ [])) saved-none

save_to_file-Saved_example :
    let (gauges, counters) = (mem_storage.get_all_metrics stored).0 in
    Saved "metrics.json"
      (json.marshal_indent (snapshot same_order gauges counters))
      []
      (saved.0, saved.2)
save_to_file-Saved_example =
    save_to_file-Saved mem_storage json dir same_order no_faults "metrics.json" stored []

-- an operation that fails while its world is below 2
abbrev flaky : ℕ → Option String × ℕ
flaky n = (elim (ltb n 2) [ true ↦ some "busy" | false ↦ none ], n + 1)

do_context-IsCorrect_example :
    IsCorrect background flaky
      (λ e. true)
      intervals
      0
      0
      (do_context background flaky (λ e. true) intervals 0)
do_context-IsCorrect_example = do_context-IsCorrect background flaky (λ e. true) intervals 0

abbrev nonce : Bytes
nonce = 1 ∷ 2 ∷ 3 ∷ 4 ∷ 5 ∷ 6 ∷ 7 ∷ 8 ∷ 9 ∷ 10 ∷ 11 ∷ 12 ∷ []

abbrev envelope : Bytes
envelope = envelope_header_of (0 ∷ 9 ∷ []) nonce ++ (tag ++ 5 ∷ 6 ∷ [])

encrypted : Crypto.encrypt ciphers (9 ∷ []) nonce (some tt) (5 ∷ 6 ∷ []) ≡ Crypto.ok envelope
unfolding Crypto.encrypt Crypto.encrypt_with
encrypted = refl

decrypt-encrypt_example : Crypto.decrypt ciphers (some tt) envelope ≡ some (Crypto.ok (5 ∷ 6 ∷ []))
decrypt-encrypt_example =
    decrypt-encrypt ciphers tt tt ciphers-IsPair (9 ∷ []) nonce (5 ∷ 6 ∷ []) envelope refl encrypted

decrypt-total_example : (r : Result) × (Crypto.decrypt ciphers (some tt) (1 ∷ 2 ∷ []) ≡ some r)
decrypt-total_example = decrypt-total ciphers (some tt) (1 ∷ 2 ∷ [])
