-- ===== src/Handler/Accepted.antt =====
-- What an accepted request does.
pub mod Clients
use mathlib.Core.Option.{none-ne-some}
use gometrics.Prelude.{
  String, Option, none, some, List, [], ◌∷◌, ◌≡◌, ◌≢◌, ◌⊎◌, refl, arith, get_or, eq_iff, All, map,
  inl, inr, ap, sym, ◌∙◌, subst,
}
use gometrics.Models.{Int64, Metrics, gauge, counter, not_counter}
use gometrics.Http.{Request, Call, code_of, respond_all, whole}
use gometrics.Storage.Mem.{update_batch, MemStorage, mem_storage, update_batch}
use gometrics.Handler.{
  Handler, Std, World, after_write, notify_audit, map, try_sync_save, write_header,
}
use gometrics.Handler.Batch.{updates_json_handler, validate, check, apply_valid, updates}

-- a metric that the batch endpoint takes: a gauge with a value, or a counter with a delta
abbrev pub IsComplete : Metrics → Type 0
IsComplete m = ((m.mtype ≡ gauge) × (m.value ≢ none)) ⊎ ((m.mtype ≡ counter) × (m.delta ≢ none))

check-IsComplete : (m : Metrics) → check m ≡ none → IsComplete m
unfolding check
check-IsComplete m h = ground (arith, eq_iff m.mtype gauge, eq_iff m.mtype counter)

IsComplete-check : (m : Metrics) → IsComplete m → check m ≡ none
unfolding check
IsComplete-check m h =
    ground (arith, eq_iff m.mtype gauge, eq_iff m.mtype counter, not_counter m.mtype)

validate-All : (ms : List Metrics) → validate ms ≡ none → All IsComplete ms
unfolding validate
validate-All [] h = tt
validate-All (m ∷ ms) h = (check-IsComplete m (ground arith), validate-All ms (ground arith))

All-validate : (ms : List Metrics) → All IsComplete ms → validate ms ≡ none
unfolding validate
All-validate [] h = refl
All-validate (m ∷ ms) (c, h) = ground (arith, IsComplete-check m c, All-validate ms h)

module _ {D O : Type 0} (h : Handler MemStorage D O) (mem : h.storage ≡ mem_storage)
    (std : Std) where
  -- the world after a batch is written: the store, then the save, then the audit event
  abbrev pub batch_world :
      Int64 → Request → List Metrics → World MemStorage D O → World MemStorage D O
  batch_world now r ms w =
      notify_audit h std now r (map (λ m. m.id) ms)
        (try_sync_save h std (record w { store = update_batch ms w.store }))

  apply_valid-none :
      (now : Int64) (r : Request) (ms : List Metrics) (w : World MemStorage D O)
      → apply_valid h std now r none ms w ≡ (batch_world now r ms w, write_header 200 ∷ [])
  unfolding apply_valid
  apply_valid-none now r ms w = rw mem refl

  -- With the metrics kept in memory: a batch of one metric or more is answered by 200 exactly when every metric of it is a gauge with a
  -- value or a counter with a delta; then the store is that of the whole batch, followed by the save
  -- and by one audit event with the names of all the metrics. Else the answer is 400 and the world is
  -- as it was: no part of the batch is applied.
  pub updates-whole_or_nothing :
      (now : Int64) (r : Request) (m : Metrics) (ms : List Metrics) (w : World MemStorage D O)
      → std.decode_list (get_or r.body (whole [])) ≡ some (m ∷ ms)
      → let (w', calls) = updates_json_handler h std now r w in
        ((code_of calls ≡ some 200) × All IsComplete (m ∷ ms) × (w' ≡ batch_world now r (m ∷ ms) w))
        ⊎ ((code_of calls ≡ some 400) × ¬ All IsComplete (m ∷ ms) × (w' ≡ w))
  unfolding updates_json_handler after_write respond_all
  updates-whole_or_nothing now r m ms w e =
      subst (λ o. Answer (updates h std now r o w)) (sym e) (go (validate (m ∷ ms)) refl)
    where
      Answer : World MemStorage D O × List Call → Type 0
      Answer (w', calls) =
          ((code_of calls ≡ some 200)
            × All IsComplete (m ∷ ms)
            × (w' ≡ batch_world now r (m ∷ ms) w))
          ⊎ ((code_of calls ≡ some 400) × ¬ All IsComplete (m ∷ ms) × (w' ≡ w))

      go :
          (v : Option String)
          → validate (m ∷ ms) ≡ v
          → Answer (apply_valid h std now r v (m ∷ ms) w)
      go none v = inl (
        ap (λ p. code_of p.1) (apply_valid-none now r (m ∷ ms) w),
        validate-All (m ∷ ms) v,
        ap (λ p. p.0) (apply_valid-none now r (m ∷ ms) w),
      )
      go (some x) v =
          inr (refl, (λ all. absurd (none-ne-some x (sym (All-validate (m ∷ ms) all) ∙ v))), refl)
