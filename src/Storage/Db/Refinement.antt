-- ===== src/Storage/Db/Refinement.antt =====
-- What the database promises, and that a transaction of a batch takes place whole or not at all.
use gometrics.Storage.Db.Rows.{IsListing}
use gometrics.Prelude.{
  String, Option, none, some, List, [], ◌∷◌, ◌≡◌, refl, ◌∙◌, subst, arith, ◌⊎◌, inl,
}
use gometrics.Models.{Metrics, Int64, Float64}
use gometrics.Storage.Mem
use gometrics.Storage.Mem.{MemStorage, apply_metric}
use gometrics.Storage.Db.{
  DbError, Statement, put_gauge, add_counter, row, Begun, begun, begin_error, Driver, statement_of,
  then_go, exec_given, exec_all, batch_in, batch_once, RowSet,
}

-- what a statement does to the two tables
abbrev pub apply_statement : Statement → MemStorage → MemStorage
apply_statement (put_gauge k v) m = Mem.set_gauge k v m
apply_statement (add_counter k d) m = Mem.update_counter k d m

-- The tables after a write. One that reported an error may have taken place or not: the connection can
-- be lost before the answer comes.
abbrev pub Written {ℓ} : {E : Type ℓ} → MemStorage → MemStorage → Option E → MemStorage → Type 0
Written old new none m = m ≡ new
Written old new (some e) m = (m ≡ old) ⊎ (m ≡ new)

-- What PostgreSQL and the driver promise of the tables: `view` in the database, `inside` as a
-- transaction sees them, `base` as they are if it is not committed. A statement or a commit that
-- reports an error has taken place whole or not at all.
pub record IsDatabase {S T : Type 0} (db : Driver S T) : Type 0 where
  pub view : S → MemStorage
  pub inside : T → MemStorage
  pub base : T → MemStorage
  pub exec_law :
      (st : Statement) (s : S)
      → Written (view s) (apply_statement st (view s)) (db.exec st s).0 (view (db.exec st s).1)
  pub gauge_law :
      (k : String) (s : S)
      → (view (db.query_gauge k s).1 ≡ view s)
        × ((v : Float64) → (db.query_gauge k s).0 ≡ row v → Mem.get_gauge k (view s) ≡ some v)
  pub counter_law :
      (k : String) (s : S)
      → (view (db.query_counter k s).1 ≡ view s)
        × ((d : Int64) → (db.query_counter k s).0 ≡ row d → Mem.get_counter k (view s) ≡ some d)
  pub all_gauges_law :
      (s : S)
      → (view (db.all_gauges s).1 ≡ view s)
        × ((r : RowSet Float64) → (db.all_gauges s).0 ≡ some r → IsListing (view s).gauges r)
  pub all_counters_law :
      (s : S)
      → (view (db.all_counters s).1 ≡ view s)
        × ((r : RowSet Int64) → (db.all_counters s).0 ≡ some r → IsListing (view s).counters r)
  pub begun_law : (s : S) (t : T) → db.begin s ≡ begun t → (inside t ≡ view s) × (base t ≡ view s)
  pub begin_error_law : (s s' : S) (e : DbError) → db.begin s ≡ begin_error e s' → view s' ≡ view s
  pub prepare_law :
      (t : T) → (inside (db.prepare t).1 ≡ inside t) × (base (db.prepare t).1 ≡ base t)
  pub tx_exec_law :
      (st : Statement) (t : T)
      → ((db.tx_exec st t).0 ≡ none → inside (db.tx_exec st t).1 ≡ apply_statement st (inside t))
        × (base (db.tx_exec st t).1 ≡ base t)
  pub commit_law : (t : T) → Written (base t) (inside t) (db.commit t).0 (view (db.commit t).1)
  pub rollback_law : (t : T) → view (db.rollback t) ≡ base t

-- a metric as a statement does what it does in memory
statement_of-apply_metric :
    (mt : Metrics) (m : MemStorage)
    → elim (statement_of mt) [ none ↦ m | some st ↦ apply_statement st m ] ≡ apply_metric mt m
unfolding statement_of apply_metric Mem.set_if_given Mem.add_if_given
statement_of-apply_metric mt m = ground arith

module _ {S T : Type 0} (db : Driver S T) (law : IsDatabase db) where
  -- a transaction is as it was, or has gone on to `new`
  abbrev Moved : T → MemStorage → Option DbError × T → Type 0
  Moved t new (none, t') = (law.inside t' ≡ new) × (law.base t' ≡ law.base t)
  Moved t new (some e, t') = law.base t' ≡ law.base t

  -- how a transaction ends
  abbrev Ended : MemStorage → MemStorage → Option DbError × S → Type 0
  Ended old new r = Written old new r.0 (law.view r.1)

  then_go-Ended :
      (t : T) (mid new : MemStorage) (r : Option DbError × T) (next : T → Option DbError × S)
      → Moved t mid r
      → ((t' : T) → law.inside t' ≡ mid → Ended (law.base t') new (next t'))
      → Ended (law.base t) new (then_go db r next)
  then_go-Ended t mid new (none, t') next (i, b) h = subst (λ m. Ended m new (next t')) b (h t' i)
  then_go-Ended t mid new (some e, t') next b h = inl (law.rollback_law t' ∙ b)

  prepare-Moved : (t : T) → Moved t (law.inside t) (db.prepare t)
  prepare-Moved t = go (db.prepare t) (law.prepare_law t)
    where
      go :
          (r : Option DbError × T)
          → (law.inside r.1 ≡ law.inside t) × (law.base r.1 ≡ law.base t)
          → Moved t (law.inside t) r
      go (none, t') h = h
      go (some e, t') (i, b) = b

  exec_given-Moved :
      (o : Option Statement) (t : T)
      → Moved t
          (elim o [ none ↦ law.inside t | some st ↦ apply_statement st (law.inside t) ])
          (exec_given db o t)
  unfolding exec_given
  exec_given-Moved none t = (refl, refl)
  exec_given-Moved (some st) t = go (db.tx_exec st t) (law.tx_exec_law st t)
    where
      go :
          (r : Option DbError × T)
          → (r.0 ≡ none → law.inside r.1 ≡ apply_statement st (law.inside t))
            × (law.base r.1 ≡ law.base t)
          → Moved t (apply_statement st (law.inside t)) r
      go (none, t') (i, b) = (i refl, b)
      go (some e, t') (i, b) = b

  exec_all-Ended :
      (ms : List Metrics) (t : T)
      → Ended (law.base t) (Mem.update_batch ms (law.inside t)) (exec_all db ms t)
  unfolding exec_all Mem.update_batch
  exec_all-Ended [] t = law.commit_law t
  exec_all-Ended (mt ∷ ms) t =
      then_go-Ended t (apply_metric mt (law.inside t)) _ (exec_given db (statement_of mt) t)
        (λ t'. exec_all db ms t')
        (subst (λ m. Moved t m (exec_given db (statement_of mt) t))
          (statement_of-apply_metric mt (law.inside t)) (exec_given-Moved (statement_of mt) t))
        (λ t' e.
          subst (λ m. Ended (law.base t') (Mem.update_batch ms m) (exec_all db ms t')) e
            (exec_all-Ended ms t'))

  batch_in-Ended :
      (ms : List Metrics) (s : S) (b : Begun S T)
      → db.begin s ≡ b
      → Ended (law.view s) (Mem.update_batch ms (law.view s)) (batch_in db ms b)
  unfolding batch_in
  batch_in-Ended ms s (begin_error e s') h = inl (law.begin_error_law s s' e h)
  batch_in-Ended ms s (begun t) h =
      let (i, b) = law.begun_law s t h in
      subst (λ m. Ended m (Mem.update_batch ms (law.view s)) (batch_in db ms (begun t))) b
        (then_go-Ended t (law.inside t) _ (db.prepare t)
          (λ t'. then_go db (db.prepare t') (exec_all db ms)) (prepare-Moved t)
          (λ t' e.
            then_go-Ended t' (law.inside t') _ (db.prepare t') (exec_all db ms) (prepare-Moved t')
              (λ t'' e'.
                subst (λ m. Ended (law.base t'') (Mem.update_batch ms m) (exec_all db ms t''))
                  (e' ∙ e ∙ i) (exec_all-Ended ms t''))))

  -- one run of the function that `UpdateBatch` retries
  pub batch_once-Written :
      (ms : List Metrics) (s : S)
      → let (e, s') = batch_once db ms s in
        Written (law.view s) (Mem.update_batch ms (law.view s)) e (law.view s')
  unfolding batch_once
  batch_once-Written ms s = batch_in-Ended ms s (db.begin s) refl
