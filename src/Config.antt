-- ===== src/Config.antt =====
-- internal/config/config.go: how a configuration file is laid over the settings of a run. A failure of
-- a loader is `none`; its message is not modelled. `os.ReadFile`, `json.Unmarshal`, `strconv` and
-- `time.ParseDuration` are parameters.
pub mod Server
pub mod Agent
pub mod Priority
pub mod Interval
pub mod Positive
use gometrics.Prelude.{
  ℕ, ◌+◌, ◌-◌, ◌*◌, ◌/◌, ◌%◌, ◌^◌, String, Bool, true, false, Option, none, some, List, ◌==◌, ◌&&◌,
  eqb, ltb, leb, not, if◌then◌else◌, Bytes,
}
use gometrics.Models.{Int64}
use gometrics.Handler.{trim_space}
use gometrics.Prelude.Dict
use gometrics.Prelude.Dict.{Dict}

-- What a flag was given as on the command line.
pub data Value : Type 0 where
  text : String → Value
  number : Int64 → Value
  boolean : Bool → Value

-- The flags that were given, and the path that the last of `-c` and `-config` gave.
pub record Flags : Type 0 where
  pub given : Dict Value
  pub path : String

-- `os.Getenv`: a variable that is not there reads as the empty text
abbrev pub Env : Type 0
Env = String → String

-- `ParseBool` and `Atoi` of strconv, `time.ParseDuration`, and `os.ReadFile`
pub record Outside : Type 0 where
  pub atoi : String → Option Int64
  pub parse_bool : String → Option Bool
  pub parse_duration : String → Option Int64
  pub read_file : String → Option Bytes

-- `LoadFile`; `blank` is the structure before any field of the file is put into it
unfoldable pub load_file : {F : Type 0} → Outside → (Bytes → Option F) → F → String → Option F
load_file os unmarshal blank path =
    if path == ""
    then some blank
    else elim (os.read_file path) [ none ↦ none | some data_read ↦ unmarshal data_read ]

-- `ExplicitFlags`
unfoldable pub explicit_flags : Flags → String → Bool
explicit_flags fs name = elim (Dict.lookup name fs.given) [ none ↦ false | some v ↦ true ]

-- `ApplyIf`: the new value of `*dst`
unfoldable pub apply_if : {T : Type 0} → T → Option T → (String → Bool) → String → T
apply_if dst none set name = dst
apply_if dst (some v) set name = if set name then dst else v

-- `ApplyValue`
unfoldable pub apply_value :
    {S T : Type 0} → T → Option S → (String → Bool) → String → (S → Option T) → Option T
apply_value dst none set name parse = some dst
apply_value dst (some v) set name parse = if set name then some dst else parse v

abbrev pub second : ℕ
second = 1000000000

-- the sign and the size of an `int64`
abbrev pub is_negative : Int64 → Bool
is_negative n = leb (2 ^ 63) n

-- `d.Round(time.Second)` on the size `g` of `d`, for a size of at most `limit`
abbrev pub round_size : ℕ → ℕ → ℕ
round_size limit g =
    let r = g % second in
    if ltb (r + r) second
    then g - r
    else if leb (g + second - r) limit
    then g + second - r
    else limit

-- `int(d.Round(time.Second) / time.Second)`
unfoldable pub rounded_seconds : Int64 → Int64
rounded_seconds d =
    if is_negative d
    then (2 ^ 64 - round_size (2 ^ 63) (2 ^ 64 - d) / second) % 2 ^ 64
    else round_size (2 ^ 63 - 1) d / second

-- what `ParseStoreInterval` makes of a duration
abbrev pub store_seconds : Int64 → Option Int64
store_seconds d = if ltb 0 d && ltb d second then none else some (rounded_seconds d)

module _ (os : Outside) where
  -- the number of seconds wraps like every `int64` product
  unfoldable pub parse_interval : String → Option Int64
  parse_interval s =
      let t = trim_space s in
      elim (os.atoi t) [ some n ↦ some (n * second % 2 ^ 64) | none ↦ os.parse_duration t ]

  unfoldable pub parse_seconds : String → Option Int64
  unfolding parse_interval
  parse_seconds s = elim (parse_interval s) [ none ↦ none | some d ↦ some (rounded_seconds d) ]

  unfoldable pub parse_store_interval : String → Option Int64
  unfolding parse_interval
  parse_store_interval s = elim (parse_interval s) [ none ↦ none | some d ↦ store_seconds d ]

-- `fs.StringVar`, `fs.IntVar` and `fs.BoolVar` after `fs.Parse`
unfoldable pub string_var : Flags → String → String → String
string_var fs name default = elim (Dict.lookup name fs.given) [ some (text v) ↦ v | _ ↦ default ]

unfoldable pub int_var : Flags → String → Int64 → Int64
int_var fs name default = elim (Dict.lookup name fs.given) [ some (number v) ↦ v | _ ↦ default ]

unfoldable pub bool_var : Flags → String → Bool → Bool
bool_var fs name default = elim (Dict.lookup name fs.given) [ some (boolean v) ↦ v | _ ↦ default ]

-- `if v := os.Getenv(...); v != ""`, and the same with a parser
unfoldable pub from_env : String → String → String
from_env v old = if v == "" then old else v

unfoldable pub parsed_env : {T : Type 0} → String → (String → Option T) → T → Option T
parsed_env v parse old = if v == "" then some old else parse v
