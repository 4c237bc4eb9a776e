-- ===== src/Tests/Lint.antt =====
-- Runs of the analyzer.
use gometrics.Prelude.{String, false, some, List, [], ◌∷◌, ◌≡◌, ◌≢◌, ◌↔◌, refl, none}
use gometrics.Reset.Scan.{cut_prefix}
use gometrics.Noosexit.{
  Node, ident, selector, call, other, no_nodes, and_node, SourceFile, before_part, module_root,
  inspect, inspect_funcs, inspect_files, is_os_exit, run,
}
use gometrics.Noosexit.Exact.{In, InFiles, run-exact}

-- `func main() { f(os.Exit(1)) }`
abbrev body : Node
body = other (
    and_node
      (call 5 (ident none)
        (and_node (call 7 (selector (ident (some "os")) "Exit") no_nodes) no_nodes))
      no_nodes)

abbrev file : String → SourceFile
file path = record {
  path = path;
  funcs = record { name = "main"; is_method = false; body = body } ∷ [];
}

abbrev files : List SourceFile
files = file "/src/gometrics/main.go" ∷ []

run-exact_example : In 7 (run "main" files) ↔ (
    (◌≡◌ {A = String} "main" "main")
    × (module_root files ≢ "")
    × InFiles 7 (module_root files) files)
run-exact_example = run-exact 7 "main" files

-- a program beside the module is under the root too
beside : run "main" (file "/src/gometrics/main.go" ∷ file "/src/other/main.go" ∷ []) ≡ 7 ∷ 7 ∷ []
unfolding run module_root before_part cut_prefix inspect_files inspect_funcs inspect is_os_exit
beside = refl

-- a path that begins with the name of the module has no root
silent : run "main" (file "gometrics/main.go" ∷ []) ≡ []
unfolding run module_root before_part cut_prefix
silent = refl
