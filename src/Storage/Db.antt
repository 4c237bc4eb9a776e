-- ===== src/Storage/Db.antt =====
-- internal/storage/db.go: `DBStorage`. The SQL driver, the server behind it and the migrations are
-- parameters; the statements that the code sends are data.
pub mod Refinement
pub mod Rows
pub mod Listing
pub mod History
pub mod Reads
pub mod Start
use gometrics.Prelude.{
  String, Bool, true, false, Option, none, some, List, [], ◌∷◌, ◌==◌, ◌&&◌, eqb, if◌then◌else◌,
  bytes, Bytes,
}
use gometrics.Prelude.Dict
use gometrics.Prelude.Dict.{Dict}
use gometrics.Models.{Metrics, Int64, Float64, gauge, counter}
use gometrics.Storage.{Storage, Error}
use gometrics.Retry.{Outcome, success, failed, stopped, Run, do_retry, intervals}

-- What `errors.As` finds in an error of the driver: a `pgconn.PgError` with its code, or none. Both
-- come with the text of the error.
pub data DbError : Type 0 where
  pg_error : String → Error → DbError
  other_error : Error → DbError

abbrev pub message : DbError → Error
message (pg_error code text) = text
message (other_error text) = text

-- the codes of class 08, `ConnectionException`
unfoldable pub is_connection_code : Bytes → Bool
is_connection_code (a ∷ b ∷ rest) = eqb a b'0' && eqb b b'8'
is_connection_code _ = false

-- `isRetriablePgError`
unfoldable pub is_retriable_pg_error : DbError → Bool
unfolding is_connection_code
is_retriable_pg_error (pg_error code text) = is_connection_code (bytes code)
is_retriable_pg_error (other_error text) = false

-- `INSERT INTO gauges ... DO UPDATE SET value = EXCLUDED.value`, and
-- `INSERT INTO counters ... DO UPDATE SET delta = counters.delta + EXCLUDED.delta`
pub data Statement : Type 0 where
  put_gauge : String → Float64 → Statement
  add_counter : String → Int64 → Statement

-- how a query of one row ends
pub data Scanned (V : Type 0) : Type 0 where
  row : V → Scanned V
  scan_error : DbError → Scanned V

-- `Begin` gives a transaction or an error
pub data Begun (S T : Type 0) : Type 0 where
  begun : T → Begun S T
  begin_error : DbError → S → Begun S T

-- The rows of a query as far as `rows.Next()` goes, each `none` where `Scan` fails, and `rows.Err()`.
pub record RowSet (V : Type 0) : Type 0 where
  pub rows : List (Option (String × V))
  pub error : Option DbError

-- `database/sql` over connections in the state `S` and transactions in the state `T`. A query of all
-- metrics is `none` where `Query` fails.
pub record Driver (S T : Type 0) : Type 0 where
  pub exec : Statement → S → Option DbError × S
  pub query_gauge : String → S → Scanned Float64 × S
  pub query_counter : String → S → Scanned Int64 × S
  pub all_gauges : S → Option (RowSet Float64) × S
  pub all_counters : S → Option (RowSet Int64) × S
  pub begin : S → Begun S T
  pub prepare : T → Option DbError × T
  pub tx_exec : Statement → T → Option DbError × T
  pub commit : T → Option DbError × S
  pub rollback : T → S

-- the loops over the rows: a row that cannot be read is passed over
unfoldable pub collect : {V : Type 0} → List (Option (String × V)) → Dict V → Dict V
collect [] m = m
collect (none ∷ rows) m = collect rows m
collect (some (id, value) ∷ rows) m = collect rows (Dict.insert id value m)

-- the map after one query; its errors are only logged
abbrev pub collected : {V : Type 0} → Option (RowSet V) → Dict V
collected none = []
collected (some r) = collect r.rows []

-- the statement of a metric in the loop of `UpdateBatch`, or `continue`
unfoldable pub statement_of : Metrics → Option Statement
statement_of mt =
    if mt.mtype == gauge
    then elim mt.value [ none ↦ none | some v ↦ some (put_gauge mt.id v) ]
    else if mt.mtype == counter
    then elim mt.delta [ none ↦ none | some d ↦ some (add_counter mt.id d) ]
    else none

-- the value of `retry.Do`
abbrev pub returned : Outcome DbError → Option Error
returned success = none
returned (failed e) = some (message e)
returned stopped = some "context canceled"

module _ {S T : Type 0} (db : Driver S T) where
  -- one statement over `retry.Do`
  unfoldable pub exec_retried : Statement → S → Option Error × S
  exec_retried statement s =
      let r = do_retry (db.exec statement) is_retriable_pg_error intervals s in
      (returned r.outcome, r.world)

  -- The variable that `Scan` fills lies in the world of the retried function.
  unfoldable pub scan_into :
      {V : Type 0} → (S → Scanned V × S) → Option V × S → Option DbError × (Option V × S)
  scan_into query (old, s) =
      let (r, s') = query s in
      elim r [ row v ↦ (none, (some v, s')) | scan_error e ↦ (some e, (old, s')) ]

  abbrev pub value_of : {V : Type 0} → Run DbError (Option V × S) → Option V
  value_of r = elim r.outcome [ success ↦ r.world.0 | failed e ↦ none | stopped ↦ none ]

  -- `GetGauge` and `GetCounter`
  unfoldable pub query_retried : {V : Type 0} → (S → Scanned V × S) → S → Option V × S
  unfolding scan_into
  query_retried query s =
      let r = do_retry (scan_into query) is_retriable_pg_error intervals (none, s) in
      (value_of r, r.world.1)

  unfoldable pub get_all_metrics : S → (Dict Float64 × Dict Int64) × S
  get_all_metrics s =
      let (gauges, s') = db.all_gauges s in
      let (counters, s'') = db.all_counters s' in ((collected gauges, collected counters), s'')

  -- an early return: the deferred `Rollback`
  abbrev pub then_go : Option DbError × T → (T → Option DbError × S) → Option DbError × S
  then_go (some e, t) next = (some e, db.rollback t)
  then_go (none, t) next = next t

  exec_given : Option Statement → T → Option DbError × T
  exec_given none t = (none, t)
  exec_given (some statement) t = db.tx_exec statement t

  -- the loop, then `Commit`; after it `Rollback` does nothing
  unfoldable pub exec_all : List Metrics → T → Option DbError × S
  unfolding statement_of exec_given
  exec_all [] t = db.commit t
  exec_all (mt ∷ metrics) t = then_go (exec_given (statement_of mt) t) (λ t'. exec_all metrics t')

  unfoldable pub batch_in : List Metrics → Begun S T → Option DbError × S
  unfolding exec_all
  batch_in metrics (begin_error e s) = (some e, s)
  batch_in metrics (begun t) =
      then_go (db.prepare t) (λ t'. then_go (db.prepare t') (exec_all metrics))

  -- the function that `UpdateBatch` retries
  unfoldable pub batch_once : List Metrics → S → Option DbError × S
  unfolding batch_in
  batch_once metrics s = batch_in metrics (db.begin s)

  unfoldable pub update_batch : List Metrics → S → Option Error × S
  unfolding batch_once
  update_batch [] s = (none, s)
  update_batch (m ∷ ms) s =
      let r = do_retry (batch_once (m ∷ ms)) is_retriable_pg_error intervals s in
      (returned r.outcome, r.world)

  abbrev pub db_storage : Storage S
  db_storage = record {
    set_gauge = λ name value s. exec_retried (put_gauge name value) s;
    update_counter = λ name value s. exec_retried (add_counter name value) s;
    get_counter = λ name s. query_retried (db.query_counter name) s;
    get_gauge = λ name s. query_retried (db.query_gauge name) s;
    get_all_metrics = get_all_metrics;
    update_batch = update_batch;
  }
