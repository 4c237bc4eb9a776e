-- ===== src/Agent/Start.antt =====
-- internal/agent/agent.go and cmd/agent/main.go: the start of the agent, and the sending of one metric.
pub mod Ready
use gometrics.Prelude.{ℕ, String, Option, none, some, ◌==◌, if◌then◌else◌, Bytes}
use Prim.Native.String.{◌++◌ as str_append}
use gometrics.Models.{Metrics, Int64}
use gometrics.Config.Agent.{Config, not_positive}
use gometrics.Crypto.{Primitives}
use gometrics.Crypto.Keys.{KeyFiles, KeyError, load_public_key, set_key}
use gometrics.Middleware.{GzipLib}
use gometrics.Agent.{Collector, new_collector}
use gometrics.Agent.Send.{Client, prepare_payload, new_request}

-- The fields of `Agent` that do not change while it runs, and its collector; `timeout`s in nanoseconds.
pub record Agent (Public : Type 0) : Type 0 where
  pub collector : Collector
  pub server_addr : String
  pub poll_interval : Int64
  pub report_interval : Int64
  pub rate_limit : Int64
  pub key : String
  pub pub_key : Option Public
  pub flush_timeout : ℕ
  pub shutdown_timeout : ℕ

abbrev pub default_flush_timeout : ℕ
default_flush_timeout = 5000000000

abbrev pub default_shutdown_timeout : ℕ
default_shutdown_timeout = 10000000000

unfoldable pub new_agent :
    {Public : Type 0} → String → Int64 → Int64 → Int64 → String → Agent Public
new_agent server_addr poll_interval report_interval rate_limit key = record {
  collector = new_collector;
  server_addr = server_addr;
  poll_interval = poll_interval;
  report_interval = report_interval;
  rate_limit = if not_positive rate_limit then 1 else rate_limit;
  key = key;
  pub_key = none;
  flush_timeout = default_flush_timeout;
  shutdown_timeout = default_shutdown_timeout;
}

module _ {Public Private : Type 0} (files : KeyFiles Public Private) where
  unfoldable pub set_crypto_key : String → Agent Public → Option KeyError × Agent Public
  set_crypto_key path a =
      let (err, key) = set_key files (load_public_key files) path a.pub_key in
      (err, record a { pub_key = key })

  abbrev if_no_error : Option KeyError × Agent Public → Option (Agent Public)
  if_no_error (none, a) = some a
  if_no_error (some e, a) = none

  -- `run` up to `a.Run()`; `none` where a key cannot be read
  unfoldable pub start_agent : Config → Option (Agent Public)
  unfolding new_agent set_crypto_key
  start_agent cfg =
      let a : Agent Public =
        new_agent (str_append "http://" cfg.addr) cfg.poll_interval cfg.report_interval
          cfg.rate_limit cfg.key in
      if cfg.crypto_key == "" then some a else if_no_error (set_crypto_key cfg.crypto_key a)

-- `sendMetricJSON`: whatever comes of it is only logged
module _ {S Public Private : Type 0} (client : Client S) (p : Primitives Public Private)
    (lib : GzipLib) (hmac : Bytes → Bytes → Bytes) (marshal : Metrics → Option Bytes) where
  unfoldable pub send_metric_json : Bytes → Bytes → Agent Public → Metrics → S → S
  send_metric_json cek nonce a m s = elim (marshal m) [
    | none ↦ s
    | some body ↦ elim (prepare_payload p lib cek nonce a.pub_key body) [
      | none ↦ s
      | some payload ↦
          let url = str_append a.server_addr "/update" in
          if client.accepts_url url
          then (client.do_request url (new_request hmac a.key payload) s).1
          else s
    ]
  ]
