-- ===== src/Tests/AgentStart.antt =====
-- A run of the loading of the agent's settings.
use gometrics.Prelude.{true, leb, leb→le, ◌^◌, none, some, [], ◌∷◌, ◌≡◌, refl}
use gometrics.Prelude.Dict
use gometrics.Config.{
  Flags, Outside, number, load_file, string_var, int_var, explicit_flags, apply_if, apply_value,
  from_env, parsed_env,
}
use gometrics.Config.Agent.{Config, from_flags, checked, load_config_from}
use gometrics.Agent.Start.{Agent, new_agent, start_agent}
use gometrics.Agent.Start.Ready.{period, start_agent-IsReady}
use gometrics.Crypto.Keys.{KeyFiles}
use gometrics.Config.Positive.{IsPositive}

abbrev outside : Outside
outside = record {
  atoi = λ s. none;
  parse_bool = λ s. none;
  parse_duration = λ s. none;
  read_file = λ path. none;
}

abbrev flags : Flags
flags = record { given = ("p", number 5) ∷ []; path = "" }

abbrev config : Config
config = record {
  config_path = "";
  addr = "localhost:8080";
  poll_interval = 5;
  report_interval = 10;
  key = "";
  rate_limit = 1;
  crypto_key = "";
}

loaded : load_config_from outside (λ b. none) (some flags) (λ name. "") ≡ some config
unfolding load_config_from load_file from_flags string_var int_var explicit_flags apply_if
    apply_value from_env parsed_env checked Dict.lookup
loaded = refl

abbrev no_files : KeyFiles Unit Unit
no_files = record {
  read_file = λ path. none;
  pem_decode = λ b. none;
  parse_pkix_public = λ b. none;
  parse_pkcs1_public = λ b. none;
  parse_pkcs1_private = λ b. none;
  parse_pkcs8_private = λ b. none;
}

abbrev agent : Agent Unit
agent = new_agent "http://localhost:8080" 5 10 1 ""

started : start_agent no_files config ≡ some agent
unfolding start_agent
started = refl

start_agent-IsReady_example : IsPositive (period 5) × IsPositive (period 10) × IsPositive 1
unfolding new_agent
start_agent-IsReady_example =
    start_agent-IsReady no_files outside (λ b. none) (some flags) (λ name. "") config agent loaded
      started (leb→le _ _ refl) (leb→le _ _ refl)

-- the first interval whose period is negative
overflows : leb (2 ^ 63) (period 9223372037) ≡ true
overflows = refl
