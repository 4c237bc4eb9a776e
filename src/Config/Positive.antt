-- ===== src/Config/Positive.antt =====
-- The agent never starts with an interval that is not positive.
use mathlib.Core.Option.{none-ne-some}
use gometrics.Prelude.{ℕ, ◌<◌, ◌^◌, ◌≡◌, Option, none, some, arith, Bytes, subst}
use gometrics.Config.{Flags, Env, Outside, explicit_flags, from_env}
use gometrics.Config.Priority.{bound}
use gometrics.Config.Agent.{
  Config, FileConfig, from_flags, apply_file_config, apply_env, checked, load_config_from,
}

-- above 0 as an `int64`
abbrev pub IsPositive : ℕ → Type 0
IsPositive n = (0 < n) × (n < 2 ^ 63)

checked-IsPositive :
    (c cfg : Config)
    → checked c ≡ some cfg
    → (c ≡ cfg) × (IsPositive c.poll_interval × IsPositive c.report_interval)
unfolding checked
checked-IsPositive c cfg e = ground arith

-- Whatever the flags, the environment and the file hold: if the agent's configuration loads, the poll
-- interval and the report interval are positive.
pub load_config_from-IsPositive :
    (os : Outside) (unmarshal : Bytes → Option FileConfig) (flags : Option Flags) (env : Env)
    (cfg : Config)
    → load_config_from os unmarshal flags env ≡ some cfg
    → IsPositive cfg.poll_interval × IsPositive cfg.report_interval
unfolding load_config_from
load_config_from-IsPositive os unmarshal none env cfg e = absurd (none-ne-some cfg e)
load_config_from-IsPositive os unmarshal (some fs) env cfg e =
    let flags = from_flags fs in
    let path = from_env (env "CONFIG") fs.path in
    let start = record flags { config_path = from_env (env "CONFIG") flags.config_path } in
    let (c, e1, e2) =
      bound (apply_file_config os unmarshal start start.config_path (explicit_flags fs))
        (λ c. elim (apply_env os env c) [ none ↦ none | some c' ↦ checked c' ]) cfg e in
    let (c', e3, e4) = bound (apply_env os env c) checked cfg e2 in
    let (same, positive) = checked-IsPositive c' cfg e4 in
    subst (λ x. IsPositive x.poll_interval × IsPositive x.report_interval) same positive
