-- ===== src/Storage/Db/Listing.antt =====
-- What `GetAllMetrics` returns, over a database that may fail.
use gometrics.Prelude.{
  String, false, Option, none, some, [], ◌≡◌, refl, sym, ◌∙◌, subst, ◌⊎◌, inl, inr, Bool-cases,
}
use gometrics.Prelude.Dict
use gometrics.Prelude.Dict.{Dict}
use gometrics.Storage.Db.{Driver, RowSet, collected, get_all_metrics}
use gometrics.Storage.Db.Rows.{read_rows, is_complete, IsListing, collect-lookup}
use gometrics.Storage.Db.Refinement.{IsDatabase}

module _ {V : Type 0} where
  -- A map against the answer of its query, key by key: the rows that could be read; no value but the
  -- one in the table; and the whole table, unless a row failed or the rows broke off.
  abbrev pub AllOf : Dict V → Option (RowSet V) → Dict V → Type 0
  AllOf table none m = m ≡ []
  AllOf table (some r) m =
      (k : String)
      → (Dict.lookup k m ≡ Dict.lookup k (read_rows r.rows))
        × ((Dict.lookup k m ≡ none) ⊎ (Dict.lookup k m ≡ Dict.lookup k table))
        × ((is_complete r ≡ false) ⊎ (Dict.lookup k m ≡ Dict.lookup k table))

  none_or_current :
      (o current : Option V)
      → ((v : V) → o ≡ some v → current ≡ some v)
      → (o ≡ none) ⊎ (o ≡ current)
  none_or_current none current h = inl refl
  none_or_current (some v) current h = inr (sym (h v refl))

  collected-AllOf :
      (table : Dict V) (answer : Option (RowSet V))
      → ((r : RowSet V) → answer ≡ some r → IsListing table r)
      → AllOf table answer (collected answer)
  collected-AllOf table none h = refl
  collected-AllOf table (some r) h = λ k.
      let l = h r refl in
      let e = collect-lookup r.rows k l.distinct in
      (
        e,
        none_or_current _ _ (λ v p. l.sound k v (sym e ∙ p)),
        elim (Bool-cases (is_complete r)) [ inl c ↦ inr (e ∙ l.complete k c) | inr c ↦ inl c ],
      )

module _ {S T : Type 0} (db : Driver S T) (law : IsDatabase db) where
  -- The two maps that are returned are those of the gauges and of the counters, in two queries, the
  -- second one after the first, whether that failed or not. A query that fails gives the empty map.
  -- Else the map has just the rows that could be read, and of a key no value but the current one; and
  -- it is the whole table if no row failed and the rows did not break off. No table changes.
  pub get_all_metrics-AllOf :
      (s : S)
      → let ((gauges, counters), last) = get_all_metrics db s in
        let second = (db.all_gauges s).1 in
        AllOf (law.view s).gauges (db.all_gauges s).0 gauges
        × AllOf (law.view s).counters (db.all_counters second).0 counters
        × (last ≡ (db.all_counters second).1)
        × (law.view last ≡ law.view s)
  unfolding get_all_metrics
  get_all_metrics-AllOf s =
      let second = (db.all_gauges s).1 in
      let (same, gauges) = law.all_gauges_law s in
      let (same', counters) = law.all_counters_law second in
      (
        collected-AllOf _ _ gauges,
        subst
            (λ m.
              AllOf m.counters (db.all_counters second).0 (collected (db.all_counters second).0))
            same (collected-AllOf _ _ counters),
        refl,
        same' ∙ same,
      )
