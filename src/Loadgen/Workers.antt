-- ===== src/Loadgen/Workers.antt =====
-- internal/loadgen/loadgen.go: the workers of `Run`, which share the counters and the context of the
-- load. A step is one atomic operation, so that other workers can come between any two.
pub mod Moves
pub mod Limit
use Prim.Native.String.{◌++◌ as str_append}
use gometrics.Prelude.{
  ℕ, zero, suc, ◌+◌, String, Bool, true, false, Option, none, some, List, [], ◌∷◌, ◌&&◌, ◌==◌, ltb,
  if◌then◌else◌, get_elem?, set_at, Bytes,
}
use gometrics.Http.{Request, whole}
use gometrics.Loadgen.{
  Stats, new_counters, no_stats, stats_of, with_defaults, with_limit, Choice, Config, Counters,
  Load, Tools, build_batch, metric_name, metric_type, request, signature, size_of, is_failure,
  reached, failed_once,
}
use gometrics.Loadgen.Phases.{batch_end, seed}

-- the counter that `doRequest` raises after the request
pub data Kind : Type 0 where
  batch : Kind
  value_json : Kind
  value_path : Kind
  root_page : Kind

-- Where a worker is: at the test of its loop, in `do` before each of its operations, after `do` (without
-- an error or with one), out of the loop.
pub data Worker : Type 0 where
  looping : Worker
  ready : Kind → String → Request → Worker
  waiting : Kind → String → Request → Worker
  failed : Kind → Worker
  responded : Kind → ℕ → ℕ → Worker
  sizing : Kind → ℕ → ℕ → Worker
  judging : Kind → ℕ → Worker
  at_limit : Kind → Worker
  cancelling : Kind → Worker
  returned : Kind → Bool → Worker
  left : Worker

pub record System (S : Type 0) : Type 0 where
  pub load : Load S
  pub workers : List Worker

-- The number is that of a worker; a step comes with the random choice that a worker may make, and with
-- whether a cancelled context breaks off the call of the client. `stop`: the timer, or the caller.
pub data Action : Type 0 where
  work : ℕ → Choice → Bool → Action
  stop : Action

abbrev count : Kind → Counters → Counters
count batch c = record c { update_batch = c.update_batch + 1 }
count value_json c = record c { value_json = c.value_json + 1 }
count value_path c = record c { value_path = c.value_path + 1 }
count root_page c = record c { root_page = c.root_page + 1 }

-- a batch that failed is not counted
abbrev after_do : Kind → Bool → Counters → Counters
after_do batch false c = c
after_do k ok c = count k c

module _ {S : Type 0} (t : Tools S) (cfg : Config) where
  -- the request for a URL that parses
  abbrev to_url : Kind → String → Request → Option (Kind × (String × Request))
  to_url k url r = if t.url_ok url then some (k, (url, r)) else none

  abbrev batch_request : Option Bytes → Option (Kind × (String × Request))
  batch_request none = none
  batch_request (some json) =
      let body = t.gzip json in
      to_url batch (str_append cfg.addr "/updates/") (
        request t "POST"
          (("Content-Type", "application/json")
            ∷ ("Content-Encoding", "gzip")
            ∷ ("Accept-Encoding", "gzip")
            ∷ signature t cfg.key body)
          (some (whole body)))

  abbrev value_request : Option Bytes → Option (Kind × (String × Request))
  value_request none = none
  value_request (some body) =
      to_url value_json (str_append cfg.addr "/value")
        (request t "POST" (("Content-Type", "application/json") ∷ []) (some (whole body)))

  -- `doRequest` up to the call of `do`; `none` where no request can be made
  unfoldable pub request_of : Choice → Option (Kind × (String × Request))
  request_of choice =
      let i = choice.index in
      if ltb choice.roll 55
      then batch_request (t.marshal_list (build_batch t i (batch_end t cfg i)))
      else if ltb choice.roll 75
      then value_request (
          t.marshal_one (record {
            id = metric_name t i;
            mtype = metric_type i;
            delta = none;
            value = none;
            hash = "";
          }))
      else if ltb choice.roll 85
      then to_url value_path
          (str_append cfg.addr
            (str_append "/value/" (str_append (metric_type i) (str_append "/" (metric_name t i)))))
          (request t "GET" [] none)
      else to_url root_page (str_append cfg.addr "/") (request t "GET" [] none)

  begin_request : Option (Kind × (String × Request)) → Load S → Worker × Load S
  begin_request none l = (looping, record l { counters = failed_once t l.counters })
  begin_request (some (k, (url, r))) l = (ready k url r, l)

  -- what `client.Do` gives
  replied : Option ℕ → Kind → ℕ → Load S → Worker × Load S
  replied none k size l = (failed k, l)
  replied (some status) k size l = (responded k status size, l)

  abbrev sent : Bool → Kind → String → Request → Load S → Worker × Load S
  sent breaks k url r l =
      let (reply, net) = t.do_request url r l.net in
      replied (if breaks && l.cancelled then none else reply.status) k (size_of t r)
        (record l { net = net })

  abbrev add_request : Counters → Counters
  add_request c = record c { requests = c.requests + 1 }

  abbrev add_size : ℕ → Counters → Counters
  add_size size c = record c { bytes_sent = c.bytes_sent + size }

  unfoldable pub next : Choice → Bool → Worker → Load S → Worker × Load S
  unfolding request_of begin_request replied
  next choice breaks looping l =
      if l.cancelled then (left, l) else begin_request (request_of choice) l
  next choice breaks (ready k url r) l =
      if l.cancelled then (returned k false, l) else (waiting k url r, l)
  next choice breaks (waiting k url r) l = sent breaks k url r l
  next choice breaks (failed k) l =
      if l.cancelled
      then (returned k false, l)
      else (returned k false, record l { counters = failed_once t l.counters })
  next choice breaks (responded k status size) l =
      (sizing k status size, record l { counters = add_request l.counters })
  next choice breaks (sizing k status size) l =
      (judging k status, record l { counters = add_size size l.counters })
  next choice breaks (judging k status) l =
      if is_failure t status
      then (at_limit k, record l { counters = failed_once t l.counters })
      else (at_limit k, l)
  next choice breaks (at_limit k) l =
      if reached t l.counters then (cancelling k, l) else (returned k true, l)
  next choice breaks (cancelling k) l = (returned k true, record l { cancelled = true })
  next choice breaks (returned k ok) l = (looping, record l { counters = after_do k ok l.counters })
  next choice breaks left l = (left, l)

  on_worker : Option Worker → ℕ → Choice → Bool → System S → System S
  unfolding next
  on_worker none i choice breaks s = s
  on_worker (some w) i choice breaks s =
      let (w', l) = next choice breaks w s.load in
      record { load = l; workers = set_at s.workers i w' }

  unfoldable pub act : Action → System S → System S
  unfolding on_worker
  act (work i choice breaks) s = on_worker (get_elem? s.workers i) i choice breaks s
  act stop s = record s { load = record s.load { cancelled = true } }

  unfoldable pub run_workers : List Action → System S → System S
  unfolding act
  run_workers [] s = s
  run_workers (a ∷ schedule) s = run_workers schedule (act a s)

-- the loop that starts the workers, after the seeding
abbrev pub workers_of : ℕ → List Worker
workers_of zero = []
workers_of (suc n) = looping ∷ workers_of n

abbrev pub start_workers : {S : Type 0} → ℕ → Load S → System S
start_workers n l = record { load = l; workers = workers_of n }

module _ {S : Type 0} (t : Tools S) where
  -- `Run`, up to the steps of `schedule`; an error of the seeding ends it
  unfoldable pub run : Config → List Action → S → Option (Option String × Stats × System S)
  unfolding seed run_workers
  run cfg schedule s =
      let c = with_defaults cfg in
      let idle : Load S = record { counters = new_counters; cancelled = false; net = s } in
      let stopped : System S = record { load = idle; workers = [] } in
      if c.addr == ""
      then some (some "loadgen: no address", no_stats, stopped)
      else elim (seed t c idle) [
        | none ↦ none
        | some (some e, l) ↦ some (some e, no_stats, record { load = l; workers = [] })
        | some (none, l) ↦
            let s' =
              run_workers t c schedule
                (start_workers c.workers (record l { counters = with_limit cfg l.counters })) in
            some (none, stats_of s'.load.counters, s')
      ]
