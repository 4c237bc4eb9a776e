-- ===== src/Storage/Db/History.antt =====
-- The database storage over a history of writes, against the storage in memory.
use gometrics.Prelude.{
  ℕ, zero, suc, ◌≤◌, Option, none, some, List, [], ◌∷◌, ◌≡◌, refl, ap, ◌∙◌, subst, inl, inr, ◌⊎◌,
  arith,
}
use gometrics.Storage.{Error}
use gometrics.Storage.Mem
use gometrics.Storage.Mem.{MemStorage}
use gometrics.Storage.Mem.Invariant.{Write, gauge_write, counter_write, batch_write, write}
use gometrics.Retry.{
  Outcome, success, failed, stopped, Run, background, do_retry, intervals, do_context,
}
use gometrics.Retry.Laws.{iterate, IsCorrect, do_context-IsCorrect, Ends}
use gometrics.Storage.Db.{
  DbError, put_gauge, add_counter, Driver, db_storage, exec_retried, update_batch, batch_once,
  is_retriable_pg_error, returned,
}
use gometrics.Storage.Db.Refinement.{IsDatabase, Written, batch_once-Written}

-- a write so many times
abbrev pub times : ℕ → Write → MemStorage → MemStorage
times zero w m = m
times (suc n) w m = times n w (write w m)

-- a history of writes, each so many times
abbrev pub writes_times : List Write → List ℕ → MemStorage → MemStorage
writes_times [] counts m = m
writes_times (w ∷ ws) [] m = m
writes_times (w ∷ ws) (n ∷ counts) m = writes_times ws counts (times n w m)

-- how often a write with this result may have taken place
abbrev pub MayTake : Option Error → ℕ → Type 0
MayTake none n = (1 ≤ n) × (n ≤ 4)
MayTake (some e) n = n ≤ 4

abbrev pub AllMayTake : List (Option Error) → List ℕ → Type 0
AllMayTake [] [] = Unit
AllMayTake (e ∷ results) (n ∷ counts) = MayTake e n × AllMayTake results counts
AllMayTake _ _ = ⊥

module _ {S T : Type 0} (db : Driver S T) where
  abbrev pub perform : Write → S → Option Error × S
  perform (gauge_write k v) s = (db_storage db).set_gauge k v s
  perform (counter_write k d) s = (db_storage db).update_counter k d s
  perform (batch_write ms) s = (db_storage db).update_batch ms s

  -- the results of the writes, and the database after all
  abbrev pub perform_all : List Write → S → List (Option Error) × S
  perform_all [] s = ([], s)
  perform_all (w ∷ ws) s =
      let (e, s') = perform w s in let (results, s'') = perform_all ws s' in (e ∷ results, s'')

  module _ (law : IsDatabase db) where
    -- attempts of one write
    module _ (w : Write) (f : S → Option DbError × S)
        (attempt : (s : S)
          → Written (law.view s) (write w (law.view s)) (f s).0 (law.view (f s).1)) where
      abbrev after : ℕ → S → S
      after k s = iterate background f is_retriable_pg_error k s

      either : (s : S) → (law.view (f s).1 ≡ law.view s) ⊎ (law.view (f s).1 ≡ write w (law.view s))
      either s = go (f s).0 (attempt s)
        where
          go :
              (o : Option DbError)
              → Written (law.view s) (write w (law.view s)) o (law.view (f s).1)
              → (law.view (f s).1 ≡ law.view s) ⊎ (law.view (f s).1 ≡ write w (law.view s))
          go none h = inr h
          go (some e) h = h

      -- how the first attempt adds to the others
      first :
          (k n : ℕ) (s : S)
          → n ≤ k
          → law.view (after k (f s).1) ≡ times n w (law.view (f s).1)
          → (n' : ℕ) × (n ≤ n')
            × (n' ≤ suc k)
            × (law.view (after (suc k) s) ≡ times n' w (law.view s))
      first k n s le e = elim (either s) [
        | inl same ↦ (n, omega arith, omega (arith, le), e ∙ ap (times n w) same)
        | inr new ↦ (suc n, omega arith, omega (arith, le), e ∙ ap (times n w) new)
      ]

      attempts-times :
          (k : ℕ) (s : S) → (n : ℕ) × (n ≤ k) × (law.view (after k s) ≡ times n w (law.view s))
      attempts-times zero s = (0, omega arith, refl)
      attempts-times (suc k) s =
          let (n, le, e) = attempts-times k (f s).1 in
          let (n', _, le', e') = first k n s le e in (n', le', e')

      -- the last of them succeeded
      success-times :
          (k : ℕ) (s : S)
          → (f (after k s)).0 ≡ none
          → (n : ℕ) × (1 ≤ n) × (n ≤ suc k) × (law.view (after (suc k) s) ≡ times n w (law.view s))
      success-times zero s h = (
        1,
        omega arith,
        omega arith,
        subst (λ o. Written (law.view s) (write w (law.view s)) o (law.view (f s).1)) h (attempt s),
      )
      success-times (suc k) s h =
          let (n, one, le, e) = success-times k (f s).1 h in
          let (n', more, le', e') = first (suc k) n s le e in
          (n', omega (arith, one, more), le', e')

      ended :
          (s : S) (r : Run DbError S)
          → IsCorrect background f is_retriable_pg_error intervals 0 s r
          → (o : Outcome DbError)
          → Ends background f is_retriable_pg_error intervals 0 s r.attempts o
          → (n : ℕ) × MayTake (returned o) n × (law.view r.world ≡ times n w (law.view s))
      ended s r c success (k, made, done) =
          let (n, one, le, e) = success-times k s done in
          (
            n,
            (one, omega (arith, le, made, c.bounded)),
            ap law.view (c.world ∙ ap (λ i. after i s) made) ∙ e,
          )
      ended s r c (failed x) how =
          let (n, le, e) = attempts-times r.attempts s in
          (n, omega (arith, le, c.bounded), ap law.view c.world ∙ e)
      ended s r c stopped how =
          let (n, le, e) = attempts-times r.attempts s in
          (n, omega (arith, le, c.bounded), ap law.view c.world ∙ e)

      pub do_retry-times :
          (s : S)
          → let r = do_retry f is_retriable_pg_error intervals s in
            (n : ℕ) × MayTake (returned r.outcome) n × (law.view r.world ≡ times n w (law.view s))
      unfolding do_retry
      do_retry-times s =
          go (do_context background f is_retriable_pg_error intervals s)
            (do_context-IsCorrect background f is_retriable_pg_error intervals s)
        where
          go :
              (r : Run DbError S)
              → IsCorrect background f is_retriable_pg_error intervals 0 s r
              → (n : ℕ) × MayTake (returned r.outcome) n
                × (law.view r.world ≡ times n w (law.view s))
          go r c = ended s r c r.outcome c.ends

    perform-times :
        (w : Write) (s : S)
        → let (e, s') = perform w s in
          (n : ℕ) × MayTake e n × (law.view s' ≡ times n w (law.view s))
    unfolding exec_retried update_batch
    perform-times (gauge_write k v) s =
        do_retry-times (gauge_write k v) (db.exec (put_gauge k v)) (law.exec_law (put_gauge k v)) s
    perform-times (counter_write k d) s =
        do_retry-times (counter_write k d) (db.exec (add_counter k d))
          (law.exec_law (add_counter k d)) s
    perform-times (batch_write []) s =
        (1, (omega arith, omega arith), unfold Mem.update_batch in refl)
    perform-times (batch_write (m ∷ ms)) s =
        do_retry-times (batch_write (m ∷ ms)) (batch_once db (m ∷ ms))
          (batch_once-Written db law (m ∷ ms)) s

    -- Whatever the database answers, with retries or without: the tables after a history of writes are
    -- the memory storage after the same writes in their order, each taken whole some number of times:
    -- at most four times, and at least once if it reported no error. A batch, too, is never taken in
    -- part. A statement or a commit that reports an error may have taken place.
    pub perform_all-writes :
        (ws : List Write) (s : S)
        → let (results, s') = perform_all ws s in
          (counts : List ℕ) × AllMayTake results counts
          × (law.view s' ≡ writes_times ws counts (law.view s))
    perform_all-writes [] s = ([], tt, refl)
    perform_all-writes (w ∷ ws) s =
        let (n, may, e) = perform-times w s in
        let (counts, all, e') = perform_all-writes ws (perform w s).1 in
        (n ∷ counts, (may, all), e' ∙ ap (writes_times ws counts) e)
