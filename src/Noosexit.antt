-- ===== src/Noosexit.antt =====
-- internal/analysis/noosexit/noosexit.go: the analyzer that looks for calls of `os.Exit` in `main`, over
-- the nodes of `go/ast` as far as it looks into them.
pub mod Exact
use gometrics.Prelude.{
  ℕ, String, Bool, true, false, Option, none, some, List, [], ◌∷◌, ◌++◌, ◌==◌, ◌&&◌, if◌then◌else◌,
}
use gometrics.Reset.Scan.{cut_prefix, has_prefix}

-- A node: an identifier with the path of the package that it stands for, if it stands for one; a selector
-- `X.Name`; a call at a position; any other node. Each with the nodes in it.
mutual
  pub data Node : Type 0 where
    ident : Option String → Node
    selector : Node → String → Node
    call : ℕ → Node → Nodes → Node
    other : Nodes → Node

  pub data Nodes : Type 0 where
    no_nodes : Nodes
    and_node : Node → Nodes → Nodes

abbrev pub is_os : Node → Bool
is_os (ident none) = false
is_os (ident (some path)) = path == "os"
is_os (selector x name) = false
is_os (call pos fun args) = false
is_os (other nodes) = false

-- the conditions on `call.Fun`
unfoldable pub is_os_exit : Node → Bool
is_os_exit (ident path) = false
is_os_exit (selector x name) = name == "Exit" && is_os x
is_os_exit (call pos fun args) = false
is_os_exit (other nodes) = false

-- `inspectFuncBody`: the positions that are reported; `ast.Inspect` goes into every node
unfoldable mutual
  unfolding is_os_exit

  pub inspect : Node → List ℕ
  inspect (ident path) = []
  inspect (selector x name) = inspect x
  inspect (call pos fun args) =
      let inside = inspect fun ++ inspect_all args in
      if is_os_exit fun then pos ∷ inside else inside
  inspect (other nodes) = inspect_all nodes

  pub inspect_all : Nodes → List ℕ
  inspect_all no_nodes = []
  inspect_all (and_node n nodes) = inspect n ++ inspect_all nodes

-- a declaration: a function with its name, whether it is a method, and its body
pub record FuncDecl : Type 0 where
  pub name : String
  pub is_method : Bool
  pub body : Node

pub record SourceFile : Type 0 where
  pub path : String
  pub funcs : List FuncDecl

-- `strings.Index(s, part)` as the text before the part, or `none`
unfoldable pub before_part : String → String → Option String
before_part String.[] part = if part == "" then some "" else none
before_part (String.◌∷◌ c s) part =
    let rest = before_part s part in
    if has_prefix (String.◌∷◌ c s) part
    then some ""
    else elim rest [ none ↦ none | some before ↦ some (String.◌∷◌ c before) ]

abbrev pub module_name : String
module_name = "gometrics"

-- `moduleRoot`
unfoldable pub module_root : List SourceFile → String
unfolding before_part
module_root [] = ""
module_root (f ∷ files) =
    let rest = module_root files in
    elim (before_part f.path module_name) [ some root ↦ root | none ↦ rest ]

unfoldable pub inspect_funcs : List FuncDecl → List ℕ
unfolding inspect
inspect_funcs [] = []
inspect_funcs (fn ∷ funcs) =
    let rest = inspect_funcs funcs in
    if fn.is_method then rest else if fn.name == "main" then inspect fn.body ++ rest else rest

unfoldable pub inspect_files : String → List SourceFile → List ℕ
unfolding inspect_funcs cut_prefix
inspect_files root [] = []
inspect_files root (f ∷ files) =
    let rest = inspect_files root files in
    if has_prefix f.path root then inspect_funcs f.funcs ++ rest else rest

-- `run`
unfoldable pub run : String → List SourceFile → List ℕ
unfolding module_root inspect_files
run package_name files =
    if package_name == "main"
    then (let root = module_root files in if root == "" then [] else inspect_files root files)
    else []
