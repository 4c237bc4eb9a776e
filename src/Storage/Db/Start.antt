-- ===== src/Storage/Db/Start.antt =====
-- internal/storage/db.go: `NewDBStorage` with `runMigrations`.
use gometrics.Prelude.{Option, none, some}
use gometrics.Storage.{Error}

-- how `m.Up()` ends
pub data Up : Type 0 where
  applied : Up
  no_change : Up
  up_error : Error → Up

-- The answers of `database/sql` and of the migration library, for one data source and one directory.
pub record Setup (D : Type 0) : Type 0 where
  pub open_db : Option D
  pub ping : D → Option Error
  pub with_instance : D → Option Error
  pub new_migrate : D → Option Error
  pub up : D → Up

module _ {D : Type 0} (setup : Setup D) where
  unfoldable pub run_migrations : D → Option Error
  run_migrations db = elim (setup.with_instance db) [
    | some e ↦ some e
    | none ↦ elim (setup.new_migrate db) [
      | some e ↦ some e
      | none ↦ elim (setup.up db) [ applied ↦ none | no_change ↦ none | up_error e ↦ some e ]
    ]
  ]

  -- `none` is an error; its text is not modelled
  unfoldable pub new_db_storage : Option D
  unfolding run_migrations
  new_db_storage = elim setup.open_db [
    | none ↦ none
    | some db ↦ elim (setup.ping db) [
      | some e ↦ none
      | none ↦ elim (run_migrations db) [ some e ↦ none | none ↦ some db ]
    ]
  ]

-- `Close`, by the `Close` of the pool of connections
abbrev pub close : {D : Type 0} → (D → Option Error × D) → D → Option Error × D
close close_pool db = close_pool db
