-- ===== src/Staticlint.antt =====
-- cmd/staticlint/main.go: the analyzers that are run, by their packages. The lists of the packages of
-- staticcheck are parameters.
use gometrics.Prelude.{String, List, [], ◌∷◌, ◌++◌}

-- the analyzers of golang.org/x/tools/go/analysis/passes
abbrev pub passes : List String
passes =
    "asmdecl" ∷ "assign" ∷ "atomic" ∷ "atomicalign" ∷ "bools" ∷ "buildtag" ∷ "copylock" ∷ "ctrlflow"
    ∷ "deepequalerrors" ∷ "defers" ∷ "directive" ∷ "errorsas" ∷ "findcall" ∷ "framepointer"
    ∷ "httpresponse" ∷ "ifaceassert" ∷ "loopclosure" ∷ "lostcancel" ∷ "nilfunc" ∷ "printf"
    ∷ "reflectvaluecompare" ∷ "shift" ∷ "sigchanyzer" ∷ "slog" ∷ "sortslice" ∷ "stdmethods"
    ∷ "stringintconv" ∷ "structtag" ∷ "testinggoroutine" ∷ "tests" ∷ "timeformat" ∷ "unmarshal"
    ∷ "unreachable" ∷ "unsafeptr" ∷ "unusedresult" ∷ "unusedwrite" ∷ "waitgroup" ∷ []

-- the variables `Analyzers` of the packages
pub record Staticcheck : Type 0 where
  pub staticcheck : List String
  pub stylecheck : List String
  pub quickfix : List String

-- the argument of `multichecker.Main`
unfoldable pub analyzers : Staticcheck → List String
analyzers lists =
    passes
    ++ (lists.staticcheck
        ++ (lists.stylecheck
            ++ (lists.quickfix ++ ("unused" ∷ "gocritic" ∷ "ineffassign" ∷ "noosexit" ∷ []))))
