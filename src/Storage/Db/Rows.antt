-- ===== src/Storage/Db/Rows.antt =====
-- The rows of a query of all metrics, and what PostgreSQL promises of them.
use gometrics.Prelude.{
  String, Bool, true, false, Option, none, some, List, [], ◌∷◌, ◌≡◌, refl, ◌∙◌, arith, eq_iff,
}
use gometrics.Prelude.Dict
use gometrics.Prelude.Dict.{Dict, NodupKeys}
use gometrics.Storage.Db.{RowSet, collect}

module _ {V : Type 0} where
  -- the rows that could be read
  abbrev pub read_rows : List (Option (String × V)) → Dict V
  read_rows [] = []
  read_rows (none ∷ rows) = read_rows rows
  read_rows (some r ∷ rows) = r ∷ read_rows rows

  -- no row failed, and `rows.Err()` is nil
  abbrev all_read : List (Option (String × V)) → Bool
  all_read [] = true
  all_read (none ∷ rows) = false
  all_read (some r ∷ rows) = all_read rows

  abbrev pub is_complete : RowSet V → Bool
  is_complete r = elim r.error [ none ↦ all_read r.rows | some e ↦ false ]

  -- What `SELECT id, ... FROM` a table gives, whose primary key is the id: rows of the table, no id
  -- twice, and all of them where nothing failed.
  pub record IsListing (table : Dict V) (r : RowSet V) : Type 0 where
    pub distinct : NodupKeys (read_rows r.rows)
    pub sound :
        (k : String) (v : V)
        → Dict.lookup k (read_rows r.rows) ≡ some v
        → Dict.lookup k table ≡ some v
    pub complete :
        (k : String) → is_complete r ≡ true → Dict.lookup k (read_rows r.rows) ≡ Dict.lookup k table

  collect_into :
      (rows : List (Option (String × V))) (m : Dict V) (k : String)
      → NodupKeys (read_rows rows)
      → Dict.lookup k (collect rows m)
        ≡ elim (Dict.lookup k (read_rows rows)) [ none ↦ Dict.lookup k m | some v ↦ some v ]
  unfolding collect Dict.lookup
  collect_into [] m k u = refl
  collect_into (none ∷ rows) m k u = collect_into rows m k u
  collect_into (some (id, v) ∷ rows) m k (fresh, u) =
      ground (
        arith,
        eq_iff id k,
        Dict.lookup-insert id k v m,
        collect_into rows (Dict.insert id v m) k u,
      )

  -- From rows in which no id stands twice, every id that could be read gets its value, and no other
  -- has one; a row that could not be read is left out.
  pub collect-lookup :
      (rows : List (Option (String × V))) (k : String)
      → NodupKeys (read_rows rows)
      → Dict.lookup k (collect rows []) ≡ Dict.lookup k (read_rows rows)
  unfolding Dict.lookup
  collect-lookup rows k u = collect_into rows [] k u ∙ ground arith
