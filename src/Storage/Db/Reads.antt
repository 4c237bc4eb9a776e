-- ===== src/Storage/Db/Reads.antt =====
-- What `GetGauge` and `GetCounter` return, over a database that may fail.
use gometrics.Prelude.{
  ℕ, zero, suc, ◌≤◌, ◌<◌, String, true, false, Option, none, some, ◌≡◌, refl, sym, ap, ◌∙◌, subst,
  ◌⊎◌, arith, inl, inr,
}
use gometrics.Storage.Mem
use gometrics.Storage.Mem.{MemStorage}
use gometrics.Retry.{
  Outcome, success, failed, stopped, Run, background, do_context, intervals, do_retry,
}
use gometrics.Retry.Laws.{iterate, IsCorrect, Ends, do_context-IsCorrect}
use gometrics.Storage.Db.{
  DbError, Scanned, row, scan_error, Driver, scan_into, query_retried, value_of, db_storage,
  is_retriable_pg_error,
}
use gometrics.Storage.Db.Refinement.{IsDatabase}

-- the database after `n` queries
abbrev pub queried : {S V : Type 0} → (S → Scanned V × S) → ℕ → S → S
queried query zero s = s
queried query (suc n) s = queried query n (query s).1

-- What is returned, by how query number `n`, the last one, ended: the row, which is that of the table;
-- or nothing, where the error is not retriable or the query was the fourth.
abbrev pub Answered : {V : Type 0} → Option V → Scanned V → ℕ → Option V → Type 0
Answered current (row x) n v = (v ≡ some x) × (current ≡ some x)
Answered current (scan_error e) n v = (v ≡ none) × ((is_retriable_pg_error e ≡ false) ⊎ (n ≡ 3))

-- a read of a value of the table, by the queries that it makes
pub record IsRead {S V : Type 0} (query : S → Scanned V × S) (view : S → MemStorage)
    (value : MemStorage → Option V) (s : S) (result : Option V × S) : Type 0 where
  pub last : ℕ
  pub bounded : last ≤ 3
  pub world : result.1 ≡ queried query (suc last) s
  pub answered : Answered (value (view s)) (query (queried query last s)).0 last result.0
  pub retried :
      (i : ℕ)
      → i < last
      → (e : DbError) × ((query (queried query i s)).0 ≡ scan_error e)
        × (is_retriable_pg_error e ≡ true)
  pub unchanged : view result.1 ≡ view s

module _ {S T V : Type 0} (db : Driver S T) (query : S → Scanned V × S) where
  abbrev scan : Option V × S → Option DbError × (Option V × S)
  scan p = scan_into db query p

  abbrev after : ℕ → Option V × S → Option V × S
  after k p = iterate background scan is_retriable_pg_error k p

  scan-world : (p : Option V × S) → (scan p).1.1 ≡ (query p.1).1
  unfolding scan_into
  scan-world (old, s) = go (query s)
    where
      go :
          (q : Scanned V × S)
          → (elim q.0 as (λ x. Option DbError × (Option V × S)) [
            | row v ↦ (none, (some v, q.1))
            | scan_error e ↦ (some e, (old, q.1))
          ]).1.1
            ≡ q.1
      go (row v, s') = refl
      go (scan_error e, s') = refl

  scan-row :
      (p : Option V × S)
      → (scan p).0 ≡ none
      → (x : V) × ((query p.1).0 ≡ row x) × ((scan p).1.0 ≡ some x)
  unfolding scan_into
  scan-row (old, s) = go (query s)
    where
      go :
          (q : Scanned V × S)
          → (elim q.0 as (λ x. Option DbError × (Option V × S)) [
            | row v ↦ (none, (some v, q.1))
            | scan_error e ↦ (some e, (old, q.1))
          ]).0
            ≡ none
          → (x : V) × (q.0 ≡ row x)
            × ((elim q.0 as (λ x. Option DbError × (Option V × S)) [
              | row v ↦ (none, (some v, q.1))
              | scan_error e ↦ (some e, (old, q.1))
            ]).1.0
                ≡ some x)
      go (row v, s') h = (v, refl, refl)
      go (scan_error e, s') h = cc h

  scan-error : (p : Option V × S) (e : DbError) → (scan p).0 ≡ some e → (query p.1).0 ≡ scan_error e
  unfolding scan_into
  scan-error (old, s) e = go (query s)
    where
      go :
          (q : Scanned V × S)
          → (elim q.0 as (λ x. Option DbError × (Option V × S)) [
            | row v ↦ (none, (some v, q.1))
            | scan_error e ↦ (some e, (old, q.1))
          ]).0
            ≡ some e
          → q.0 ≡ scan_error e
      go (row v, s') h = cc h
      go (scan_error x, s') h = cc h

  after-queried : (k : ℕ) (p : Option V × S) → (after k p).1 ≡ queried query k p.1
  after-queried zero p = refl
  after-queried (suc k) p = after-queried k (scan p).1 ∙ ap (queried query k) (scan-world p)

  after-suc : (k : ℕ) (p : Option V × S) → after (suc k) p ≡ (scan (after k p)).1
  after-suc zero p = refl
  after-suc (suc k) p = after-suc k (scan p).1

  module _ (law : IsDatabase db) (value : MemStorage → Option V)
      (current : (s : S)
        → (law.view (query s).1 ≡ law.view s)
          × ((v : V) → (query s).0 ≡ row v → value (law.view s) ≡ some v)) where
    queried-unchanged : (n : ℕ) (s : S) → law.view (queried query n s) ≡ law.view s
    queried-unchanged zero s = refl
    queried-unchanged (suc n) s = queried-unchanged n (query s).1 ∙ (current s).0

    pub query_retried-IsRead : (s : S) → IsRead query law.view value s (query_retried db query s)
    unfolding query_retried do_retry
    query_retried-IsRead s =
        go (do_context background scan is_retriable_pg_error intervals (none, s))
          (do_context-IsCorrect background scan is_retriable_pg_error intervals (none, s))
      where
        start : Option V × S
        start = (none, s)

        same : (k : ℕ) → (query (after k start).1).0 ≡ (query (queried query k s)).0
        same k = ap (λ x. (query x).0) (after-queried k start)

        Out : Outcome DbError → Run DbError (Option V × S) → Option V × S
        Out o r = (elim o [ success ↦ r.world.0 | failed e ↦ none | stopped ↦ none ], r.world.1)

        read :
            (r : Run DbError (Option V × S)) (k : ℕ) (v : Option V)
            → IsCorrect background scan is_retriable_pg_error intervals 0 start r
            → r.attempts ≡ suc k
            → Answered (value (law.view s)) (query (queried query k s)).0 k v
            → IsRead query law.view value s (v, r.world.1)
        read r k v c made answer =
            let world : r.world.1 ≡ queried query (suc k) s =
              ap (λ p. p.1) c.world
              ∙ ap (λ n. (after n start).1) made
              ∙ after-queried (suc k) start in
            record {
              last = k;
              bounded = omega (arith, c.bounded, made);
              world = world;
              answered = answer;
              retried = λ i lt.
                  let (e, h, again) = c.retried i (omega (arith, lt, made)) in
                  (e, sym (same i) ∙ scan-error (after i start) e h, again);
              unchanged = ap law.view world ∙ queried-unchanged (suc k) s;
            }

        ended :
            (r : Run DbError (Option V × S)) (o : Outcome DbError)
            → IsCorrect background scan is_retriable_pg_error intervals 0 start r
            → Ends background scan is_retriable_pg_error intervals 0 start r.attempts o
            → IsRead query law.view value s (Out o r)
        ended r success c (k, made, done) =
            let (x, is_row, stored) = scan-row (after k start) done in
            let e : (query (queried query k s)).0 ≡ row x = sym (same k) ∙ is_row in
            let v : r.world.0 ≡ some x =
              ap (λ p. p.0) (c.world ∙ ap (λ n. after n start) made ∙ after-suc k start) ∙ stored in
            read r k r.world.0 c made (
              subst (λ q. Answered (value (law.view s)) q k r.world.0) (sym e)
                (v, ap value (sym (queried-unchanged k s)) ∙ (current (queried query k s)).1 x e))
        ended r (failed x) c (k, made, h, why) =
            let e : (query (queried query k s)).0 ≡ scan_error x =
              sym (same k) ∙ scan-error (after k start) x h in
            read r k none c made
              (subst (λ q. Answered (value (law.view s)) q k none) (sym e) (refl, why))
        ended r stopped c how = elim how [ inl h ↦ cc h | inr (k, made, h) ↦ cc h ]

        go :
            (r : Run DbError (Option V × S))
            → IsCorrect background scan is_retriable_pg_error intervals 0 start r
            → IsRead query law.view value s (value_of db r, r.world.1)
        go r c = ended r r.outcome c c.ends

module _ {S T : Type 0} (db : Driver S T) (law : IsDatabase db) where
  -- A read of a gauge or of a counter makes one to four queries, and every query before the last
  -- failed with a retriable error. If the last one found a row, its value is returned, and it is the
  -- one in the table; else nothing is returned, and the error of the last query is not retriable or
  -- the query was the fourth. The tables stay as they are.
  pub get-IsRead :
      (k : String) (s : S)
      → IsRead (db.query_gauge k) law.view (Mem.get_gauge k) s ((db_storage db).get_gauge k s)
        × IsRead
            (db.query_counter k)
            law.view
            (Mem.get_counter k)
            s
            ((db_storage db).get_counter k s)
  get-IsRead k s = (
    query_retried-IsRead db (db.query_gauge k) law (Mem.get_gauge k) (law.gauge_law k) s,
    query_retried-IsRead db (db.query_counter k) law (Mem.get_counter k) (law.counter_law k) s,
  )
