-- ===== src/Tests/Client.antt =====
-- Runs of the agent and of the loading of settings.
use gometrics.Prelude.{
  ℕ, ◌+◌, ◌<◌, ◌≤◌, ◌^◌, true, false, none, some, List, [], ◌∷◌, ◌++◌, ◌≡◌, ◌⊎◌, ◌↔◌, refl, Bytes,
  All, ltb→lt, leb→le, ◌==◌,
}
use gometrics.Tests.{
  same_order, same_order-IsOrder, ciphers, ciphers-IsPair, gzip, gzip-IsGzip, hmac, tag,
}
use gometrics.Retry.{success, failed, background}
use gometrics.Crypto
use gometrics.Crypto.{envelope_header_of}
use gometrics.Middleware.{HttpHandler}
use gometrics.Router.{router}
use gometrics.Agent.{gauge_part, counter_part, update_metrics, Reading}
use gometrics.Agent.Queue.{
  System, Action, measure, raise, tick, read_gauges, read_counters, send, start, run, flush_metrics,
}
use gometrics.Agent.Queue.Flush.{LastIsCurrent, IsQuiet, Ordered, flush_metrics-LastIsCurrent}
use gometrics.Agent.Send.{
  Client, answered, Payload, prepare_payload, payload_headers, new_request, send_payload,
  retriable_status, rejected,
}
use gometrics.Agent.Send.Answers.{EndsWith, send_payload-answered}
use gometrics.Agent.Send.Reaches.{Reaches}
use gometrics.Agent.Send.EndToEnd.{router-prepare_payload}
use gometrics.Prelude.Dict
use gometrics.Config.{
  Flags, Env, Outside, text, number, parse_interval, parse_store_interval, load_file, string_var,
  int_var, bool_var, explicit_flags, apply_if, apply_value, from_env, parsed_env,
}
use gometrics.Config.Interval.{parse_store_interval-sync}
use gometrics.Config.Server.{Config, FileConfig, no_file, from_flags, load_config_from}
use gometrics.Config.Priority.{IsPrioritised, IsParsed, path_of, load_config_from-IsPrioritised}

abbrev reading : Reading
reading = record { stat = λ name. 4; gc_cpu_fraction = 0; random = 1 }

-- a poll that comes between the copies of the two maps
abbrev schedule : List Action
schedule =
    measure (update_metrics (λ n. n) reading)
    ∷ tick
    ∷ read_gauges same_order
    ∷ raise
    ∷ read_counters same_order
    ∷ send
    ∷ []

abbrev stopped : System
stopped = run 2 schedule start

quiet : IsQuiet 2 stopped
unfolding run update_metrics gauge_part counter_part Dict.insert
quiet = (refl, refl, refl)

room : stopped.in_queue < 2
unfolding run update_metrics gauge_part counter_part Dict.insert
room = ltb→lt _ _ refl

ordered : All Ordered schedule
ordered = (tt, (tt, (same_order-IsOrder, (tt, (same_order-IsOrder, (tt, tt))))))

flush_metrics-LastIsCurrent_example :
    LastIsCurrent stopped.collector (flush_metrics 2 same_order stopped).queued
flush_metrics-LastIsCurrent_example =
    flush_metrics-LastIsCurrent 2 schedule same_order ordered same_order-IsOrder quiet room

-- a server that answers everything with 503
abbrev client : Client ℕ
client = record { accepts_url = λ url. true; do_request = λ url r n. (answered 503, n + 1) }

abbrev nonce : Bytes
nonce = 1 ∷ 2 ∷ 3 ∷ 4 ∷ 5 ∷ 6 ∷ 7 ∷ 8 ∷ 9 ∷ 10 ∷ 11 ∷ 12 ∷ []

abbrev payload : Payload
payload = record {
  content = envelope_header_of (0 ∷ 9 ∷ []) nonce ++ (tag ++ 31 ∷ 5 ∷ 6 ∷ []);
  headers = payload_headers "X-Payload-Encoding";
}

send_payload-answered_example :
    let r = send_payload client hmac "k" background "http://localhost/updates/" payload 0 in
    ((200 ≤ 503) × (503 < 300) × EndsWith client hmac "k" success 1 r)
    ⊎ (((503 < 200) ⊎ (300 ≤ 503))
        × (503 < 500)
        × EndsWith client hmac "k" (failed (rejected 503)) 1 r)
    ⊎ ((500 ≤ 503) × EndsWith client hmac "k" (failed (retriable_status 503)) 1 r)
send_payload-answered_example =
    send_payload-answered client hmac "k" background "http://localhost/updates/" payload 0 1 503
      refl refl refl

prepared : prepare_payload ciphers gzip (9 ∷ []) nonce (some tt) (5 ∷ 6 ∷ []) ≡ some payload
unfolding prepare_payload Crypto.encrypt Crypto.encrypt_with
prepared = refl

abbrev next : HttpHandler ℕ
next r w = (w + 1, [])

router-prepare_payload_example :
    Reaches ciphers gzip gzip-IsGzip hmac "k" next
      (5 ∷ 6 ∷ [])
      (new_request hmac "k" payload)
      0
      (router ciphers gzip hmac "k" (some tt) next (new_request hmac "k" payload) 0).0
router-prepare_payload_example =
    router-prepare_payload ciphers gzip gzip-IsGzip hmac "k" next (9 ∷ []) nonce (5 ∷ 6 ∷ [])
      (some tt) (some tt) payload 0 ciphers-IsPair refl prepared (leb→le _ _ refl) (leb→le _ _ refl)

abbrev outside : Outside
outside = record {
  atoi = λ s. some 0;
  parse_bool = λ s. some false;
  parse_duration = λ s. none;
  read_file = λ path. some [];
}

parsed_zero : parse_interval outside "0" ≡ some 0
unfolding parse_interval
parsed_zero = refl

parse_store_interval-sync_example :
    (parse_store_interval outside "0" ≡ some 0) ↔ ((◌≡◌ {A = ℕ} 0 0) ⊎ (2 ^ 64 < 0 + 500000000))
parse_store_interval-sync_example =
    parse_store_interval-sync outside "0" 0 (ltb→lt _ _ refl) parsed_zero

abbrev flags : Flags
flags = record { given = ("a", text "localhost:9090") ∷ ("i", number 60) ∷ []; path = "c.json" }

abbrev env : Env
env name = elim (name == "ADDRESS") [ true ↦ "0.0.0.0:80" | false ↦ "" ]

abbrev file : FileConfig
file = record no_file { store_interval = some "0"; key = some "secret" }

abbrev config : Config
config = record {
  config_path = "c.json";
  addr = "0.0.0.0:80";
  store_interval = 60;
  file_path = "metrics-store.json";
  restore = true;
  database_dsn = "";
  key = "secret";
  crypto_key = "";
  audit_file = "";
  audit_url = "";
  pprof_addr = "";
}

loaded : load_config_from outside (λ b. some file) (some flags) env ≡ some config
unfolding load_config_from load_file from_flags string_var int_var bool_var explicit_flags apply_if
    apply_value from_env parsed_env Dict.lookup
loaded = refl

parsed : IsParsed flags
unfolding Dict.lookup
parsed = ((tt, (tt, (tt, (tt, (tt, (tt, (tt, (tt, tt)))))))), tt, tt)

load_config_from-IsPrioritised_example :
    (fc : FileConfig) × (load_file outside (λ b. some file) no_file (path_of flags env) ≡ some fc)
    × IsPrioritised outside flags env fc config
load_config_from-IsPrioritised_example =
    load_config_from-IsPrioritised outside flags env parsed (λ b. some file) config loaded
