-- ===== src/Config/Server.antt =====
-- cmd/server/config.go and the loading of the configuration in cmd/server/main.go.
use gometrics.Prelude.{String, Bool, true, Option, none, some, Bytes}
use gometrics.Models.{Int64}
use gometrics.Config.{
  Flags, Env, Outside, load_file, explicit_flags, apply_if, apply_value, parse_store_interval,
  string_var, int_var, bool_var, from_env, parsed_env,
}

-- `config`
pub record Config : Type 0 where
  pub config_path : String
  pub addr : String
  pub store_interval : Int64
  pub file_path : String
  pub restore : Bool
  pub database_dsn : String
  pub key : String
  pub crypto_key : String
  pub audit_file : String
  pub audit_url : String
  pub pprof_addr : String

-- `fileConfig`: a field that the file does not hold is nil
pub record FileConfig : Type 0 where
  pub address : Option String
  pub restore : Option Bool
  pub store_interval : Option String
  pub store_file : Option String
  pub database_dsn : Option String
  pub crypto_key : Option String
  pub key : Option String
  pub audit_file : Option String
  pub audit_url : Option String
  pub pprof_addr : Option String

abbrev pub no_file : FileConfig
no_file = record {
  address = none;
  restore = none;
  store_interval = none;
  store_file = none;
  database_dsn = none;
  crypto_key = none;
  key = none;
  audit_file = none;
  audit_url = none;
  pprof_addr = none;
}

-- the settings by the flags and their defaults
unfoldable pub from_flags : Flags → Config
from_flags fs = record {
  config_path = fs.path;
  addr = string_var fs "a" "localhost:8080";
  store_interval = int_var fs "i" 300;
  file_path = string_var fs "f" "metrics-store.json";
  restore = bool_var fs "r" true;
  database_dsn = string_var fs "d" "";
  key = string_var fs "k" "";
  crypto_key = string_var fs "crypto-key" "";
  audit_file = string_var fs "audit-file" "";
  audit_url = string_var fs "audit-url" "";
  pprof_addr = string_var fs "pprof-addr" "";
}

-- the settings after the file, with the interval that was read
unfoldable pub laid : Config → (String → Bool) → FileConfig → Int64 → Config
laid cfg set fc interval = record {
  config_path = cfg.config_path;
  addr = apply_if cfg.addr fc.address set "a";
  store_interval = interval;
  file_path = apply_if cfg.file_path fc.store_file set "f";
  restore = apply_if cfg.restore fc.restore set "r";
  database_dsn = apply_if cfg.database_dsn fc.database_dsn set "d";
  key = apply_if cfg.key fc.key set "k";
  crypto_key = apply_if cfg.crypto_key fc.crypto_key set "crypto-key";
  audit_file = apply_if cfg.audit_file fc.audit_file set "audit-file";
  audit_url = apply_if cfg.audit_url fc.audit_url set "audit-url";
  pprof_addr = apply_if cfg.pprof_addr fc.pprof_addr set "pprof-addr";
}

-- the settings after the environment, with what was parsed of it
unfoldable pub env_set : Env → Config → Int64 → Bool → Config
env_set env cfg interval restore = record {
  config_path = cfg.config_path;
  addr = from_env (env "ADDRESS") cfg.addr;
  store_interval = interval;
  file_path = from_env (env "FILE_STORAGE_PATH") cfg.file_path;
  restore = restore;
  database_dsn = from_env (env "DATABASE_DSN") cfg.database_dsn;
  key = from_env (env "KEY") cfg.key;
  crypto_key = from_env (env "CRYPTO_KEY") cfg.crypto_key;
  audit_file = from_env (env "AUDIT_FILE") cfg.audit_file;
  audit_url = from_env (env "AUDIT_URL") cfg.audit_url;
  pprof_addr = from_env (env "PPROF_ADDR") cfg.pprof_addr;
}

module _ (os : Outside) where
  -- what `applyFileConfig` does with the file that was read
  unfoldable pub lay_over : Config → (String → Bool) → FileConfig → Option Config
  unfolding laid
  lay_over cfg set fc =
      elim (apply_value cfg.store_interval fc.store_interval set "i" (parse_store_interval os)) [
        | none ↦ none
        | some interval ↦ some (laid cfg set fc interval)
      ]

  unfoldable pub apply_file_config :
      (Bytes → Option FileConfig) → Config → String → (String → Bool) → Option Config
  unfolding lay_over
  apply_file_config unmarshal cfg path set = elim (load_file os unmarshal no_file path) [
    | none ↦ none
    | some fc ↦ lay_over cfg set fc
  ]

  -- the environment, over the flags and the file
  unfoldable pub apply_env : Env → Config → Option Config
  unfolding env_set
  apply_env env cfg = elim (parsed_env (env "STORE_INTERVAL") os.atoi cfg.store_interval) [
    | none ↦ none
    | some interval ↦ elim (parsed_env (env "RESTORE") os.parse_bool cfg.restore) [
      | none ↦ none
      | some restore ↦ some (env_set env cfg interval restore)
    ]
  ]

  -- `loadConfigFrom`; a command line that does not parse is an error of `fs.Parse`
  unfoldable pub load_config_from : (Bytes → Option FileConfig) → Option Flags → Env → Option Config
  unfolding apply_file_config apply_env
  load_config_from unmarshal none env = none
  load_config_from unmarshal (some fs) env =
      let flags = from_flags fs in
      let cfg = record flags { config_path = from_env (env "CONFIG") flags.config_path } in
      elim (apply_file_config unmarshal cfg cfg.config_path (explicit_flags fs)) [
        | none ↦ none
        | some c ↦ apply_env env c
      ]
