-- ===== src/Loadgen.antt =====
-- internal/loadgen/loadgen.go: the load generator. The HTTP client, JSON, gzip, HMAC, `%d`, the product
-- of a number with 1.5 as a float, and the random choices are parameters. Indices are natural numbers:
-- `from + cfg.BatchSize` is taken not to overflow.
pub mod Phases
pub mod Seeding
pub mod Requests
pub mod Limit
pub mod Workers
pub mod Command
use Prim.Native.String.{◌++◌ as str_append}
use gometrics.Prelude.{
  ℕ, zero, suc, ◌+◌, ◌-◌, ◌%◌, String, Bool, true, false, Option, none, some, List, [], ◌∷◌, ◌++◌,
  ◌==◌, ◌&&◌, ◌||◌, eqb, ltb, leb, not, length, if◌then◌else◌, Bytes,
}
use gometrics.Prelude.Dict
use gometrics.Models.{Metrics, Int64, Float64, gauge, counter, add64}
use gometrics.Http.{Request, Body, whole}
use gometrics.Hash.{compute}
use gometrics.Config.Agent.{not_positive}

-- `Config`; `duration` in nanoseconds
pub record Config : Type 0 where
  pub addr : String
  pub workers : Int64
  pub duration : Int64
  pub seed_metrics : Int64
  pub batch_size : Int64
  pub requests : Int64
  pub key : String

abbrev pub or_default : Int64 → Int64 → Int64
or_default n default = if not_positive n then default else n

-- `withDefaults`
unfoldable pub with_defaults : Config → Config
with_defaults c = record c {
  workers = or_default c.workers 4;
  duration = if not_positive c.duration && not_positive c.requests then 10000000000 else c.duration;
  seed_metrics = or_default c.seed_metrics 1000;
  batch_size = or_default c.batch_size 100;
}

-- `counters`: the numbers, and the limit of the load phase
pub record Counters : Type 0 where
  pub requests : ℕ
  pub errors : ℕ
  pub update_batch : ℕ
  pub value_json : ℕ
  pub value_path : ℕ
  pub root_page : ℕ
  pub bytes_sent : ℕ
  pub seed : ℕ
  pub limit : ℕ

abbrev pub new_counters : Counters
new_counters = record {
  requests = 0;
  errors = 0;
  update_batch = 0;
  value_json = 0;
  value_path = 0;
  root_page = 0;
  bytes_sent = 0;
  seed = 0;
  limit = 0;
}

-- `Stats`, and how `Run` fills it
pub record Stats : Type 0 where
  pub requests : ℕ
  pub errors : ℕ
  pub update_batch : ℕ
  pub value_json : ℕ
  pub value_path : ℕ
  pub root_page : ℕ
  pub bytes_sent : ℕ
  pub seed_requests : ℕ

abbrev pub no_stats : Stats
no_stats = record {
  requests = 0;
  errors = 0;
  update_batch = 0;
  value_json = 0;
  value_path = 0;
  root_page = 0;
  bytes_sent = 0;
  seed_requests = 0;
}

abbrev pub stats_of : Counters → Stats
stats_of c = record {
  requests = c.requests;
  errors = c.errors;
  update_batch = c.update_batch;
  value_json = c.value_json;
  value_path = c.value_path;
  root_page = c.root_page;
  bytes_sent = c.bytes_sent;
  seed_requests = c.seed;
}

-- `c.limit = int64(cfg.Requests)`; a limit that is not positive is none
abbrev pub with_limit : Config → Counters → Counters
with_limit cfg c = record c { limit = if not_positive cfg.requests then 0 else cfg.requests }

-- what `client.Do` gives: a status or an error, and whether the context is done by then
pub record Reply : Type 0 where
  pub status : Option ℕ
  pub context_done : Bool

-- the counters, the context of the load, and the network
pub record Load (S : Type 0) : Type 0 where
  pub counters : Counters
  pub cancelled : Bool
  pub net : S

-- What is used of other packages; `url_ok` is whether `NewRequest` accepts a URL.
pub record Tools (S : Type 0) : Type 0 where
  pub show : ℕ → String
  pub half_more : ℕ → Float64
  pub marshal_list : List Metrics → Option Bytes
  pub marshal_one : Metrics → Option Bytes
  pub gzip : Bytes → Bytes
  pub hmac : Bytes → Bytes → Bytes
  pub url_ok : String → Bool
  pub do_request : String → Request → S → Reply × S

-- what `rnd` gives one request: below 100, and below `SeedMetrics`
pub record Choice : Type 0 where
  pub roll : ℕ
  pub index : ℕ

unfoldable pub metric_type : ℕ → String
metric_type i = if eqb (i % 2) 0 then gauge else counter

module _ {S : Type 0} (t : Tools S) where
  unfoldable pub metric_name : ℕ → String
  metric_name i = str_append "metric_" (t.show i)

  -- the metric of one round of `buildBatch`
  unfoldable pub metric : ℕ → Metrics
  metric i =
      if metric_type i == gauge
      then record {
        id = metric_name i;
        mtype = gauge;
        delta = none;
        value = some (t.half_more i);
        hash = "";
      }
      else record {
        id = metric_name i;
        mtype = counter;
        delta = some (i % 97);
        value = none;
        hash = "";
      }

  -- `n` rounds from the index `i` on
  unfoldable pub metrics_from : ℕ → ℕ → List Metrics
  metrics_from zero i = []
  metrics_from (suc n) i = metric i ∷ metrics_from n (suc i)

  -- `buildBatch`: the indices of `[from, to)`
  unfoldable pub build_batch : ℕ → ℕ → List Metrics
  unfolding metrics_from
  build_batch from to = metrics_from (to - from) from

  abbrev pub is_failure : ℕ → Bool
  is_failure status = ltb status 200 || leb 300 status

  -- `c.limit > 0 && c.requests.Load() >= c.limit`
  abbrev pub reached : Counters → Bool
  reached c = ltb 0 c.limit && leb c.limit c.requests

  -- the counters after a response
  abbrev pub counted : ℕ → ℕ → Counters → Counters
  counted status size c = record c {
    requests = c.requests + 1;
    bytes_sent = c.bytes_sent + size;
    errors = if is_failure status then c.errors + 1 else c.errors;
  }

  abbrev pub failed_once : Counters → Counters
  failed_once c = record c { errors = c.errors + 1 }

  -- by what the client gave
  unfoldable pub after_reply : Option ℕ → Bool → ℕ → Load S → Option String × Load S
  after_reply none true size l = (some "context canceled", record l { cancelled = true })
  after_reply none false size l =
      (some "request failed", record l { counters = failed_once l.counters })
  after_reply (some status) done size l =
      let c = counted status size l.counters in
      (none, record l { counters = c; cancelled = done || reached c })

  -- the request's `ContentLength`
  abbrev pub size_of : Request → ℕ
  size_of r = elim r.body [ none ↦ 0 | some b ↦ length b.content ]

  -- `do`; `cancelled` is `ctx.Err() != nil`
  unfoldable pub do_once : String → Request → Load S → Option String × Load S
  unfolding after_reply
  do_once url r l =
      let (reply, s) = t.do_request url r l.net in
      if l.cancelled
      then (some "context canceled", l)
      else after_reply reply.status reply.context_done (size_of r) (record l { net = s })

  -- `newRequest` failed, or the body could not be made
  unfoldable pub not_sent : Load S → Option String × Load S
  not_sent l = (some "request not built", record l { counters = failed_once l.counters })

  abbrev pub request : String → List (String × String) → Option Body → Request
  request method headers body = record {
    method = method;
    headers = headers;
    body = body;
    remote_addr = "";
    url_type = "";
    url_name = "";
    url_value = "";
  }

  abbrev pub signature : String → Bytes → List (String × String)
  signature key body = if key == "" then [] else ("Hashsha256", compute t.hmac body key) ∷ []

  -- `postBatch`, after the marshalling
  unfoldable pub post_body : Config → Option Bytes → Load S → Option String × Load S
  unfolding not_sent do_once
  post_body cfg none l = not_sent l
  post_body cfg (some json) l =
      let url = str_append cfg.addr "/updates/" in
      let body = t.gzip json in
      let headers =
        ("Content-Type", "application/json")
        ∷ ("Content-Encoding", "gzip")
        ∷ ("Accept-Encoding", "gzip")
        ∷ signature cfg.key body in
      if t.url_ok url
      then do_once url (request "POST" headers (some (whole body))) l
      else not_sent l

  unfoldable pub post_batch : Config → List Metrics → Load S → Option String × Load S
  unfolding post_body
  post_batch cfg metrics l = post_body cfg (t.marshal_list metrics) l
