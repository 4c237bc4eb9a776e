-- ===== src/Profiler.antt =====
-- internal/profiler/profiler.go: the server of the profiles. `net.Listen` is a parameter.
use gometrics.Prelude.{String, List, [], ◌∷◌}
use gometrics.Storage.{Error}

-- the handlers of net/http/pprof
pub data Profile : Type 0 where
  index : Profile
  cmdline : Profile
  profile : Profile
  symbol : Profile
  trace : Profile

-- `Handler`: what is registered with `http.ServeMux`
abbrev pub handler : List (String × Profile)
handler =
    ("/debug/pprof/", index)
    ∷ ("/debug/pprof/cmdline", cmdline)
    ∷ ("/debug/pprof/profile", profile)
    ∷ ("/debug/pprof/symbol", symbol)
    ∷ ("/debug/pprof/trace", trace)
    ∷ []

-- the server that `Start` returns, which is being served
pub record Server : Type 0 where
  pub addr : String
  pub handlers : List (String × Profile)

pub data Started : Type 0 where
  started : Server → Started
  refused : Error → Started

-- what `net.Listen` gives: the address that is listened on, or an error
pub data Listened : Type 0 where
  listening : String → Listened
  no_port : Error → Listened

unfoldable pub start : (String → Listened) → String → Started
start listen addr = elim (listen addr) [
  | listening bound ↦ started (record { addr = bound; handlers = handler })
  | no_port e ↦ refused e
]
