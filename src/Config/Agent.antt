-- ===== src/Config/Agent.antt =====
-- cmd/agent/config.go and the loading of the configuration in cmd/agent/main.go.
use gometrics.Prelude.{String, Bool, ◌||◌, Option, none, some, Bytes, eqb, if◌then◌else◌}
use gometrics.Models.{Int64}
use gometrics.Config.{
  Flags, Env, Outside, load_file, explicit_flags, apply_if, apply_value, parse_seconds, string_var,
  int_var, from_env, parsed_env, is_negative,
}

-- `config`
pub record Config : Type 0 where
  pub config_path : String
  pub addr : String
  pub poll_interval : Int64
  pub report_interval : Int64
  pub key : String
  pub rate_limit : Int64
  pub crypto_key : String

-- `fileConfig`
pub record FileConfig : Type 0 where
  pub address : Option String
  pub report_interval : Option String
  pub poll_interval : Option String
  pub crypto_key : Option String
  pub key : Option String
  pub rate_limit : Option Int64

abbrev pub no_file : FileConfig
no_file = record {
  address = none;
  report_interval = none;
  poll_interval = none;
  crypto_key = none;
  key = none;
  rate_limit = none;
}

unfoldable pub from_flags : Flags → Config
from_flags fs = record {
  config_path = fs.path;
  addr = string_var fs "a" "localhost:8080";
  poll_interval = int_var fs "p" 2;
  report_interval = int_var fs "r" 10;
  key = string_var fs "k" "";
  rate_limit = int_var fs "l" 1;
  crypto_key = string_var fs "crypto-key" "";
}

-- the comparison `<= 0` on an `int64`
abbrev pub not_positive : Int64 → Bool
not_positive n = eqb n 0 || is_negative n

-- the checks at the end of `loadConfigFrom`
unfoldable pub checked : Config → Option Config
checked cfg =
    if not_positive cfg.poll_interval
    then none
    else if not_positive cfg.report_interval
    then none
    else some cfg

module _ (os : Outside) where
  unfoldable pub lay_over : Config → (String → Bool) → FileConfig → Option Config
  lay_over cfg set fc =
      elim (apply_value cfg.report_interval fc.report_interval set "r" (parse_seconds os)) [
        | none ↦ none
        | some report ↦
            elim (apply_value cfg.poll_interval fc.poll_interval set "p" (parse_seconds os)) [
              | none ↦ none
              | some poll ↦ some (record {
                config_path = cfg.config_path;
                addr = apply_if cfg.addr fc.address set "a";
                poll_interval = poll;
                report_interval = report;
                key = apply_if cfg.key fc.key set "k";
                rate_limit = apply_if cfg.rate_limit fc.rate_limit set "l";
                crypto_key = apply_if cfg.crypto_key fc.crypto_key set "crypto-key";
              })
            ]
      ]

  unfoldable pub apply_file_config :
      (Bytes → Option FileConfig) → Config → String → (String → Bool) → Option Config
  unfolding lay_over
  apply_file_config unmarshal cfg path set = elim (load_file os unmarshal no_file path) [
    | none ↦ none
    | some fc ↦ lay_over cfg set fc
  ]

  unfoldable pub apply_env : Env → Config → Option Config
  apply_env env cfg = elim (parsed_env (env "POLL_INTERVAL") os.atoi cfg.poll_interval) [
    | none ↦ none
    | some poll ↦ elim (parsed_env (env "REPORT_INTERVAL") os.atoi cfg.report_interval) [
      | none ↦ none
      | some report ↦ elim (parsed_env (env "RATE_LIMIT") os.atoi cfg.rate_limit) [
        | none ↦ none
        | some limit ↦ some (record {
          config_path = cfg.config_path;
          addr = from_env (env "ADDRESS") cfg.addr;
          poll_interval = poll;
          report_interval = report;
          key = from_env (env "KEY") cfg.key;
          rate_limit = limit;
          crypto_key = from_env (env "CRYPTO_KEY") cfg.crypto_key;
        })
      ]
    ]
  ]

  -- `loadConfigFrom`
  unfoldable pub load_config_from : (Bytes → Option FileConfig) → Option Flags → Env → Option Config
  unfolding apply_file_config apply_env checked
  load_config_from unmarshal none env = none
  load_config_from unmarshal (some fs) env =
      let flags = from_flags fs in
      let cfg = record flags { config_path = from_env (env "CONFIG") flags.config_path } in
      elim (apply_file_config unmarshal cfg cfg.config_path (explicit_flags fs)) [
        | none ↦ none
        | some c ↦ elim (apply_env env c) [ none ↦ none | some c' ↦ checked c' ]
      ]
