-- ===== src/Handler.antt =====
-- internal/handler/handler.go: `Handler` and its request handlers. A handler takes the world (the
-- storage, the disk behind the synchronous save, the audit subject) to a new one and to the calls that
-- it makes on the `ResponseWriter`.
pub mod Plain
pub mod Json
pub mod Batch
pub mod Page
pub mod Setup
pub mod Refused
pub mod Reading
pub mod Accepted
pub mod Effects
use Prim.Native.Char.{code}
use gometrics.Prelude.{
  ℕ, String, Bool, true, false, Option, none, some, List, [], ◌∷◌, ◌++◌, ◌&&◌, ◌||◌, ◌==◌, eqb, leb,
  not, map, if◌then◌else◌, Bytes, bytes,
}
use gometrics.Models.{Metrics, Int64, Float64, gauge, counter}
use gometrics.Http.{Body, Request, Call, set_header, write_header, write, header, error_reply}
use gometrics.Storage.{Storage}
use gometrics.Audit
use gometrics.Audit.{Subject, Interface}

-- What the handlers use of Go's library beyond `net/http`: `strconv`, `encoding/json`, `net`.
pub record Std : Type 0 where
  pub parse_float : String → Option Float64
  pub parse_int : String → Option Int64
  pub format_float : Float64 → String
  pub format_int : Int64 → String
  pub decode : Body → Option Metrics
  pub decode_list : Body → Option (List Metrics)
  pub encode : Metrics → Option Bytes
  pub split_host_port : String → Option String

pub record World (S D O : Type 0) : Type 0 where
  pub store : S
  pub disk : D
  pub audit : Option (Subject O)

-- The fields of `Handler` that the request handlers read. `sync_save` is the callback, and `db` is
-- what `PingContext` answers, if a database is set.
pub record Handler (S D O : Type 0) : Type 0 where
  pub storage : Storage S
  pub sync_save : Option (S × D → S × D)
  pub db : Option (Option String)
  pub observers : Interface O

-- `unicode.IsSpace`
abbrev is_space : ℕ → Bool
is_space c =
    (leb 9 c && leb c 13)
    || eqb c 32
    || eqb c 0x85
    || eqb c 0xA0
    || eqb c 0x1680
    || (leb 0x2000 c && leb c 0x200A)
    || eqb c 0x2028
    || eqb c 0x2029
    || eqb c 0x202F
    || eqb c 0x205F
    || eqb c 0x3000

trim_left : String → String
trim_left String.[] = ""
trim_left (String.◌∷◌ c s) =
    let rest = trim_left s in if is_space (code c) then rest else String.◌∷◌ c s

trim_right : String → String
trim_right String.[] = ""
trim_right (String.◌∷◌ c s) =
    let rest = trim_right s in if is_space (code c) && rest == "" then "" else String.◌∷◌ c rest

-- `strings.TrimSpace`
unfoldable pub trim_space : String → String
unfolding trim_left trim_right
trim_space s = trim_right (trim_left s)

-- `xff[:strings.Index(xff, ",")]`, or all of it
unfoldable pub before_comma : String → String
before_comma String.[] = ""
before_comma (String.◌∷◌ c s) =
    let rest = before_comma s in if eqb (code c) b',' then "" else String.◌∷◌ c rest

unfoldable pub client_ip : Std → Request → String
unfolding trim_space before_comma header
client_ip std r =
    let xff = header "X-Forwarded-For" r.headers in
    let xri = header "X-Real-Ip" r.headers in
    if not (xff == "")
    then trim_space (before_comma xff)
    else if not (xri == "")
    then trim_space xri
    else elim (std.split_host_port r.remote_addr) [ none ↦ r.remote_addr | some host ↦ host ]

module _ {S D O : Type 0} (h : Handler S D O) (std : Std) where
  -- `trySyncSave`
  save_by : Option (S × D → S × D) → World S D O → World S D O
  save_by none w = w
  save_by (some save) w = let (s, d) = save (w.store, w.disk) in record w { store = s; disk = d }

  unfoldable pub try_sync_save : World S D O → World S D O
  unfolding save_by
  try_sync_save w = save_by h.sync_save w

  unfoldable pub notify_by : Option (Subject O) → Audit.Event → World S D O → World S D O
  notify_by none event w = w
  notify_by (some subject) event w = record w {
    audit = some (Audit.notify h.observers event subject);
  }

  -- `notifyAudit`, at the time `now`
  unfoldable pub notify_audit : Int64 → Request → List String → World S D O → World S D O
  unfolding notify_by
  notify_audit now r [] w = w
  notify_audit now r (name ∷ names) w =
      notify_by w.audit (Audit.new_event now (name ∷ names) (client_ip std r)) w

  -- What follows a write to the storage: its error with status 500, or the save, the audit event and
  -- the calls of `reply`.
  unfoldable pub after_write :
      Int64
      → Request
      → List String
      → Option String × S
      → (World S D O → World S D O × List Call)
      → World S D O
      → World S D O × List Call
  unfolding try_sync_save notify_audit
  after_write now r names (some e, s) reply w = (record w { store = s }, error_reply e 500)
  after_write now r names (none, s) reply w =
      reply (notify_audit now r names (try_sync_save (record w { store = s })))
