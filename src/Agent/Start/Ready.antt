-- ===== src/Agent/Start/Ready.antt =====
-- What an agent that has started hands to `make` and to `time.NewTicker`.
use mathlib.Core.Option.{none-ne-some, some-injective}
use gometrics.Prelude.{
  Bool-cases, inl, inr, ◌∙◌, ◌==◌, ◌*◌, ◌%◌, ◌^◌, ◌≤◌, Bool, true, false, Option, none, some, ◌≡◌,
  refl, sym, subst, arith, if◌then◌else◌, Bytes,
}
use gometrics.Models.{Int64}
use gometrics.Config.{Flags, Outside, Env}
use gometrics.Config.Agent.{Config, FileConfig, load_config_from, not_positive}
use gometrics.Config.Positive.{IsPositive, load_config_from-IsPositive}
use gometrics.Crypto.Keys.{KeyFiles, KeyError}
use gometrics.Agent.Start.{Agent, new_agent, set_crypto_key, start_agent, if_no_error}

-- `time.Duration(n) * time.Second`
abbrev pub period : Int64 → Int64
period n = (n * 1000000000) % 2 ^ 64

period-IsPositive : (n : Int64) → IsPositive n → n ≤ 9223372036 → IsPositive (period n)
period-IsPositive n h b = (omega (arith, h.0, b), omega (arith, h.0, b))

if_true : {A : Type 0} {b : Bool} (x y : A) → b ≡ true → (if b then x else y) ≡ x
if_true x y e = rw e refl

if_false : {A : Type 0} {b : Bool} (x y : A) → b ≡ false → (if b then x else y) ≡ y
if_false x y e = rw e refl

rate_limit-IsPositive : (n : Int64) → IsPositive (if not_positive n then 1 else n)
rate_limit-IsPositive n = ground arith

module _ {Public Private : Type 0} (files : KeyFiles Public Private) where
  -- the settings, as the agent has them
  abbrev AsSet : Config → Agent Public → Type 0
  AsSet cfg a =
      (a.poll_interval ≡ cfg.poll_interval)
      × (a.report_interval ≡ cfg.report_interval)
      × IsPositive a.rate_limit

  if_no_error-AsSet :
      (cfg : Config) (r : Option KeyError × Agent Public) (a : Agent Public)
      → AsSet cfg r.1
      → if_no_error files r ≡ some a
      → AsSet cfg a
  if_no_error-AsSet cfg (none, b) a h e = subst (AsSet cfg) (some-injective _ _ e) h
  if_no_error-AsSet cfg (some x, b) a h e = absurd (none-ne-some a e)

  start_agent-AsSet :
      (cfg : Config) (a : Agent Public) → start_agent files cfg ≡ some a → AsSet cfg a
  unfolding start_agent new_agent set_crypto_key
  start_agent-AsSet cfg a e = elim (Bool-cases (cfg.crypto_key == "")) [
    | inl q ↦ subst (AsSet cfg) (some-injective _ _ (sym (if_true _ _ q) ∙ e)) fresh
    | inr q ↦ if_no_error-AsSet cfg _ a fresh (sym (if_false _ _ q) ∙ e)
  ]
    where
      fresh : AsSet cfg (new_agent "" cfg.poll_interval cfg.report_interval cfg.rate_limit cfg.key)
      fresh = (refl, refl, rate_limit-IsPositive cfg.rate_limit)

  -- An agent that has started has room for a job at least in its queue, and its two tickers have periods
  -- above 0, as `make` and `time.NewTicker` demand, if neither interval is above 9223372036 seconds; above
  -- that the product with `time.Second` overflows.
  pub start_agent-IsReady :
      (os : Outside) (unmarshal : Bytes → Option FileConfig) (flags : Option Flags) (env : Env)
      (cfg : Config) (a : Agent Public)
      → load_config_from os unmarshal flags env ≡ some cfg
      → start_agent files cfg ≡ some a
      → cfg.poll_interval ≤ 9223372036
      → cfg.report_interval ≤ 9223372036
      → IsPositive (period a.poll_interval)
        × IsPositive (period a.report_interval)
        × IsPositive a.rate_limit
  start_agent-IsReady os unmarshal flags env cfg a l e p q =
      let (hp, hq) = load_config_from-IsPositive os unmarshal flags env cfg l in
      let (ep, eq, limit) = start_agent-AsSet cfg a e in
      (
        subst (λ n. IsPositive (period n)) (sym ep) (period-IsPositive cfg.poll_interval hp p),
        subst (λ n. IsPositive (period n)) (sym eq) (period-IsPositive cfg.report_interval hq q),
        limit,
      )
