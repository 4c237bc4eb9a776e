-- ===== src/Serve/Start.antt =====
-- cmd/server/main.go: what `serve` sets up before it listens. `profiler.Start` and `NewDBStorage` are
-- given by their answers.
use gometrics.Prelude.{
  String, Bool, Option, none, some, List, [], ◌∷◌, ◌++◌, ◌==◌, ◌||◌, not, if◌then◌else◌,
}
use gometrics.Storage.{Error}
use gometrics.Config.Server.{Config}
use gometrics.Crypto.Keys.{KeyFiles, KeyError, Loaded, loaded, key_error, load_private_key}
use gometrics.Serve.{Saver, saver_of, is_synchronous}

-- where the audit goes
pub data Target : Type 0 where
  to_file : String → Target
  to_url : String → Target

pub data StartError : Type 0 where
  pprof_failed : Error → StartError
  database_failed : StartError
  key_failed : KeyError → StartError

-- what is set up: the database, if there is one, and the fields of the handler that come of the settings
pub record Setup (B K : Type 0) : Type 0 where
  pub database : Option B
  pub crypto_key : Option K
  pub key : String
  pub audit : Option (List Target)
  pub saves_at_once : Bool
  pub saver : Saver

pub data Started (B K : Type 0) : Type 0 where
  started : Setup B K → Started B K
  start_failed : StartError → Started B K

abbrev pub registered : (String → Target) → String → List Target
registered target path = if path == "" then [] else target path ∷ []

-- the audit is on if one of the two is given
unfoldable pub audit_of : Config → Option (List Target)
audit_of cfg =
    if not (cfg.audit_file == "") || not (cfg.audit_url == "")
    then some (registered to_file cfg.audit_file ++ registered to_url cfg.audit_url)
    else none

module _ {B K Public : Type 0} (files : KeyFiles Public K) (cfg : Config) where
  set_up : Option B → Option K → Started B K
  unfolding audit_of
  set_up database key = started (record {
    database = database;
    crypto_key = key;
    key = cfg.key;
    audit = audit_of cfg;
    saves_at_once = is_synchronous cfg;
    saver = saver_of cfg;
  })

  with_key : Option B → Loaded K → Started B K
  unfolding set_up
  with_key database (loaded k) = set_up database (some k)
  with_key database (key_error e) = start_failed (key_failed e)

  with_database : Option B → Started B K
  unfolding with_key
  with_database database =
      if cfg.crypto_key == ""
      then set_up database none
      else with_key database (load_private_key files cfg.crypto_key)

  on_database : Option B → Started B K
  unfolding with_database
  on_database none = start_failed database_failed
  on_database (some b) = with_database (some b)

  after_pprof : Option B → Started B K
  unfolding with_database on_database
  after_pprof answer = if cfg.database_dsn == "" then with_database none else on_database answer

  -- by what `profiler.Start` answers, and what `NewDBStorage` gives
  unfoldable pub start : Option Error → Option B → Started B K
  unfolding after_pprof
  start (some e) database =
      if cfg.pprof_addr == "" then after_pprof database else start_failed (pprof_failed e)
  start none database = after_pprof database
