-- ===== src/Tests/Database.antt =====
-- Runs of the storage in a database, over one that keeps its tables in memory and loses connections.
use gometrics.Retry.{do_retry, do_context, attempts_from}
use gometrics.Prelude.{
  ℕ, String, Option, none, some, List, [], ◌∷◌, ◌≡◌, refl, ◌∙◌, map, ap, inl, inr, subst, sym,
  bytes,
}
use gometrics.Prelude.Dict
use gometrics.Prelude.Dict.{Dict, NodupKeys, insert-NodupKeys, lookup-insert}
use gometrics.Storage.Mem
use gometrics.Storage.Mem.{MemStorage, new_mem_storage}
use gometrics.Storage.Mem.Invariant.{Write, counter_write, batch_write, writes}
use gometrics.Storage.Db.{
  Driver, pg_error, other_error, Scanned, row, scan_error, begun, begin_error, RowSet, db_storage,
  get_all_metrics, DbError, exec_retried, is_retriable_pg_error, is_connection_code,
}
use gometrics.Storage.Db.Rows.{read_rows, IsListing}
use gometrics.Storage.Db.Refinement.{IsDatabase, Written, apply_statement}
use gometrics.Storage.Db.History.{perform_all, perform_all-writes, writes_times, AllMayTake}
use gometrics.Storage.Db.Reads.{IsRead, get-IsRead}
use gometrics.Storage.Db.Listing.{AllOf, get_all_metrics-AllOf}
use gometrics.Tests.{load, polls, some-injective}

abbrev scanned : {V : Type 0} → Option V → Scanned V
scanned none = scan_error (other_error "sql: no rows in result set")
scanned (some v) = row v

scanned-row : {V : Type 0} (o : Option V) (v : V) → scanned o ≡ row v → o ≡ some v
scanned-row none v e = cc e
scanned-row (some w) v e = cc e

-- what becomes of a statement or a query: it is answered, or the connection is lost before it takes
-- place, or after it
data Fate : Type 0 where
  works not_reached not_answered : Fate

record Server : Type 0 where
  tables : MemStorage
  fates : List Fate

record Transaction : Type 0 where
  seen : MemStorage
  began_with : MemStorage
  fates : List Fate

abbrev lost : DbError
lost = pg_error "08007" "connection lost"

abbrev server : MemStorage → List Fate → Server
server m fates = record { tables = m; fates = fates }

-- going over from `old` to `new`
abbrev changed : MemStorage → MemStorage → List Fate → Option DbError × Server
changed old new [] = (none, server new [])
changed old new (works ∷ fates) = (none, server new fates)
changed old new (not_reached ∷ fates) = (some lost, server old fates)
changed old new (not_answered ∷ fates) = (some lost, server new fates)

abbrev asked : {V : Type 0} → Option V → MemStorage → List Fate → Scanned V × Server
asked o m [] = (scanned o, server m [])
asked o m (works ∷ fates) = (scanned o, server m fates)
asked o m (not_reached ∷ fates) = (scan_error lost, server m fates)
asked o m (not_answered ∷ fates) = (scan_error lost, server m fates)

-- the entries of a table, each id once
abbrev canonical : {V : Type 0} → Dict V → Dict V
canonical [] = []
canonical ((k, v) ∷ m) = Dict.insert k v (canonical m)

abbrev listed : {V : Type 0} → Dict V → RowSet V
listed m = record { rows = map some (canonical m); error = none }

abbrev flaky : Driver Server Transaction
flaky = record {
  exec = λ st s. changed s.tables (apply_statement st s.tables) s.fates;
  query_gauge = λ k s. asked (Mem.get_gauge k s.tables) s.tables s.fates;
  query_counter = λ k s. asked (Mem.get_counter k s.tables) s.tables s.fates;
  all_gauges = λ s. (some (listed s.tables.gauges), s);
  all_counters = λ s. (none, s);
  begin = λ s. begun (record { seen = s.tables; began_with = s.tables; fates = s.fates });
  prepare = λ t. (none, t);
  tx_exec = λ st t. (none, record t { seen = apply_statement st t.seen });
  commit = λ t. changed t.began_with t.seen t.fates;
  rollback = λ t. server t.began_with t.fates;
}

changed-Written :
    (old new : MemStorage) (fates : List Fate)
    → Written old new (changed old new fates).0 (changed old new fates).1.tables
changed-Written old new [] = refl
changed-Written old new (works ∷ fates) = refl
changed-Written old new (not_reached ∷ fates) = inl refl
changed-Written old new (not_answered ∷ fates) = inr refl

asked-row :
    {V : Type 0} (o : Option V) (m : MemStorage) (fates : List Fate)
    → ((asked o m fates).1.tables ≡ m) × ((v : V) → (asked o m fates).0 ≡ row v → o ≡ some v)
asked-row o m [] = (refl, scanned-row o)
asked-row o m (works ∷ fates) = (refl, scanned-row o)
asked-row o m (not_reached ∷ fates) = (refl, λ v e. cc e)
asked-row o m (not_answered ∷ fates) = (refl, λ v e. cc e)

canonical-NodupKeys : {V : Type 0} (m : Dict V) → NodupKeys (canonical m)
canonical-NodupKeys [] = tt
canonical-NodupKeys ((k, v) ∷ m) = insert-NodupKeys k v (canonical m) (canonical-NodupKeys m)

lookup-canonical :
    {V : Type 0} (k : String) (m : Dict V) → Dict.lookup k (canonical m) ≡ Dict.lookup k m
lookup-canonical k [] = refl
lookup-canonical k ((j, v) ∷ m) =
    rw (lookup-insert j k v (canonical m), Dict.lookup-cons j k v m, lookup-canonical k m) refl

read_rows-some : {V : Type 0} (m : Dict V) → read_rows (map some m) ≡ m
read_rows-some [] = refl
read_rows-some (r ∷ m) = ap (λ l. r ∷ l) (read_rows-some m)

read_rows-listed :
    {V : Type 0} (k : String) (m : Dict V)
    → Dict.lookup k (read_rows (listed m).rows) ≡ Dict.lookup k m
read_rows-listed k m = ap (Dict.lookup k) (read_rows-some (canonical m)) ∙ lookup-canonical k m

listed-IsListing : {V : Type 0} (m : Dict V) → IsListing m (listed m)
listed-IsListing m = record {
  distinct = subst NodupKeys (sym (read_rows-some (canonical m))) (canonical-NodupKeys m);
  sound = λ k v e. sym (read_rows-listed k m) ∙ e;
  complete = λ k e. read_rows-listed k m;
}

begun-sees :
    (s : Server) (t : Transaction)
    → flaky.begin s ≡ begun t
    → (t.seen ≡ s.tables) × (t.began_with ≡ s.tables)
begun-sees s t e = (cc e, cc e)

no-IsListing : {V : Type 0} (m : Dict V) (r : RowSet V) → none ≡ some r → IsListing m r
no-IsListing m r e = cc e

begun-no_error :
    (s s' : Server) (e : DbError) → flaky.begin s ≡ begin_error e s' → s'.tables ≡ s.tables
begun-no_error s s' e h = cc h

abbrev flaky-IsDatabase : IsDatabase flaky
flaky-IsDatabase = record {
  view = λ s. s.tables;
  inside = λ t. t.seen;
  base = λ t. t.began_with;
  exec_law = λ st s. changed-Written s.tables (apply_statement st s.tables) s.fates;
  gauge_law = λ k s. asked-row (Mem.get_gauge k s.tables) s.tables s.fates;
  counter_law = λ k s. asked-row (Mem.get_counter k s.tables) s.tables s.fates;
  all_gauges_law = λ s. (
    refl,
    λ r e.
        subst (IsListing s.tables.gauges) (some-injective _ _ e) (listed-IsListing s.tables.gauges),
  );
  all_counters_law = λ s. (refl, λ r e. no-IsListing _ r e);
  begun_law = begun-sees;
  begin_error_law = begun-no_error;
  prepare_law = λ t. (refl, refl);
  tx_exec_law = λ st t. (λ e. refl, refl);
  commit_law = λ t. changed-Written t.began_with t.seen t.fates;
  rollback_law = λ t. refl;
}

abbrev calls : List Write
calls = counter_write "Polls" 2 ∷ batch_write (load ∷ polls ∷ []) ∷ []

-- the first statement takes place, and its answer is lost
abbrev start : Server
start = server new_mem_storage (not_answered ∷ works ∷ not_reached ∷ [])

perform_all-writes_example :
    let (results, s') = perform_all flaky calls start in
    (counts : List ℕ) × AllMayTake results counts
    × (s'.tables ≡ writes_times calls counts new_mem_storage)
perform_all-writes_example = perform_all-writes flaky flaky-IsDatabase calls start

-- the counter that was added once is 4, and no error was reported
added_twice :
    let (results, s') = perform_all flaky (counter_write "Polls" 2 ∷ []) start in
    (results ≡ none ∷ []) × (Mem.get_counter "Polls" s'.tables ≡ some 4)
unfolding exec_retried do_retry do_context attempts_from is_retriable_pg_error is_connection_code
    bytes Mem.update_counter Mem.get_counter Dict.insert Dict.lookup new_mem_storage
added_twice = (refl, refl)

abbrev filled : Server
filled = server (writes calls new_mem_storage) (not_reached ∷ [])

get-IsRead_example :
    IsRead
      (flaky.query_gauge "Load")
      (λ s. s.tables)
      (Mem.get_gauge "Load")
      filled
      ((db_storage flaky).get_gauge "Load" filled)
    × IsRead
        (flaky.query_counter "Load")
        (λ s. s.tables)
        (Mem.get_counter "Load")
        filled
        ((db_storage flaky).get_counter "Load" filled)
get-IsRead_example = get-IsRead flaky flaky-IsDatabase "Load" filled

get_all_metrics-AllOf_example :
    let ((gauges, counters), last) = get_all_metrics flaky filled in
    AllOf filled.tables.gauges (flaky.all_gauges filled).0 gauges
    × AllOf filled.tables.counters (flaky.all_counters filled).0 counters
    × (last ≡ filled)
    × (last.tables ≡ filled.tables)
get_all_metrics-AllOf_example = get_all_metrics-AllOf flaky flaky-IsDatabase filled
