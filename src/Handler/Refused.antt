-- ===== src/Handler/Refused.antt =====
-- A request that is refused changes nothing.
use mathlib.Core.Option.{none-ne-some, some-injective}
use gometrics.Prelude.{
  some, ◌≡◌, ◌≢◌, arith, ◌⊎◌, Option, ℕ, inr, Bool-cases, eqb, inl, ap, eqb_iff, none,
}
use gometrics.Models.{Int64}
use gometrics.Http.{Request, code_of, respond_all}
use gometrics.Storage.Mem.{MemStorage, mem_storage}
use gometrics.Handler.{Handler, Std, World, Option, ℕ, eqb}
use gometrics.Handler.Plain.{update_handler}
use gometrics.Handler.Json.{update_json_handler}
use gometrics.Handler.Batch.{updates_json_handler}

-- what holds of every other status
other_status : (o : Option ℕ) (P : Type 0) → (o ≢ some 200 → P) → (o ≡ some 200) ⊎ P
other_status none P h = inr (h (none-ne-some 200))
other_status (some n) P h = elim (Bool-cases (eqb n 200)) [
  | inl e ↦ inl (ap some ((eqb_iff n 200).0 e))
  | inr e ↦ inr (h (λ q. cc (e, (eqb_iff n 200).1 (some-injective n 200 q))))
]

-- The handler on the store in memory, whose methods do not fail.
module _ {D O : Type 0} (h : Handler MemStorage D O) (mem : h.storage ≡ mem_storage)
    (std : Std) where
  update_handler-refused :
      (now : Int64) (r : Request) (w : World MemStorage D O)
      → code_of (update_handler h std now r w).1 ≢ some 200
      → (update_handler h std now r w).0 ≡ w
  unfolding update_handler respond_all
  update_handler-refused now r w n = ground arith

  update_json_handler-refused :
      (now : Int64) (r : Request) (w : World MemStorage D O)
      → code_of (update_json_handler h std now r w).1 ≢ some 200
      → (update_json_handler h std now r w).0 ≡ w
  unfolding update_json_handler respond_all
  update_json_handler-refused now r w n = ground arith

  updates_json_handler-refused :
      (now : Int64) (r : Request) (w : World MemStorage D O)
      → code_of (updates_json_handler h std now r w).1 ≢ some 200
      → (updates_json_handler h std now r w).0 ≡ w
  unfolding updates_json_handler respond_all
  updates_json_handler-refused now r w n = ground arith

  -- With the store in memory, a request to any of the three writing handlers is answered by status
  -- 200, or it leaves the store, the disk behind the synchronous save and the audit subject as they
  -- were.
  pub refused_unchanged :
      (now : Int64) (r : Request) (w : World MemStorage D O)
      → let (plain, plain_calls) = update_handler h std now r w in
        let (json, json_calls) = update_json_handler h std now r w in
        let (batch, batch_calls) = updates_json_handler h std now r w in
        ((code_of plain_calls ≡ some 200) ⊎ (plain ≡ w))
        × ((code_of json_calls ≡ some 200) ⊎ (json ≡ w))
        × ((code_of batch_calls ≡ some 200) ⊎ (batch ≡ w))
  refused_unchanged now r w = (
    other_status _ _ (update_handler-refused now r w),
    other_status _ _ (update_json_handler-refused now r w),
    other_status _ _ (updates_json_handler-refused now r w),
  )
