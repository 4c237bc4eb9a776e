-- ===== src/Reset.antt =====
-- cmd/reset/main.go: the generator of `Reset` methods, over what `go/parser` gives of the sources. A
-- type is an expression of `go/ast` as far as the generator looks into it.
pub mod Scan
pub mod Render
pub mod Generate
pub mod Imports
use Prim.Native.String.{◌++◌ as str_append}
use gometrics.Prelude.{
  String, Bool, true, false, Option, none, some, List, [], ◌∷◌, ◌++◌, ◌==◌, ◌&&◌, ◌||◌, not, map,
  if◌then◌else◌,
}

-- `ast.Expr`: an identifier, `*T`, `[]T` or `[n]T`, `map[K]V`, `pkg.T` with the identifier before the
-- dot if it is one, and every other expression
pub data TypeExpr : Type 0 where
  ident : String → TypeExpr
  star : TypeExpr → TypeExpr
  slice : TypeExpr → TypeExpr
  array : TypeExpr → TypeExpr
  map_type : TypeExpr → TypeExpr → TypeExpr
  selector : Option String → String → TypeExpr
  other_type : TypeExpr

-- `ast.Field`: no names for an embedded field
pub record Field : Type 0 where
  pub names : List String
  pub type_expr : TypeExpr

-- `structInfo`
pub record StructInfo : Type 0 where
  pub name : String
  pub fields : List Field

-- `pkgInfo`
pub record PkgInfo : Type 0 where
  pub dir : String
  pub name : String
  pub structs : List StructInfo

abbrev pub one_of : String → List String → Bool
one_of s [] = false
one_of s (t ∷ ts) = t == s || one_of s ts

-- `skipTypes`
abbrev pub skip_types : List String
skip_types =
    "sync.Mutex" ∷ "sync.RWMutex" ∷ "sync.Once" ∷ "sync.WaitGroup" ∷ "sync.Pool" ∷ "sync.Cond"
    ∷ "sync.Map" ∷ []

-- `isSyncType`
unfoldable pub is_sync_type : TypeExpr → Bool
is_sync_type (selector (some pkg) name) = one_of (str_append pkg (str_append "." name)) skip_types
is_sync_type _ = false

abbrev pub zero_types : List String
zero_types =
    "int" ∷ "int8" ∷ "int16" ∷ "int32" ∷ "int64" ∷ "uint" ∷ "uint8" ∷ "uint16" ∷ "uint32" ∷ "uint64"
    ∷ "uintptr" ∷ "float32" ∷ "float64" ∷ "complex64" ∷ "complex128" ∷ "byte" ∷ "rune" ∷ []

abbrev pub concat : List String → String
concat [] = ""
concat (s ∷ ss) = str_append s (concat ss)

-- a call of the field's own `Reset`, if it has one
abbrev pub call_reset : String → String
call_reset expr = concat (
    "if resetter, ok := any(&" ∷ expr ∷ ").(interface{ Reset() }); ok {\n\t\tresetter.Reset()\n\t}"
    ∷ [])

-- `resetExpr`
unfoldable pub reset_expr : String → TypeExpr → String
reset_expr expr (ident name) =
    if one_of name zero_types
    then str_append expr " = 0"
    else if name == "string"
    then str_append expr " = \"\""
    else if name == "bool"
    then str_append expr " = false"
    else call_reset expr
reset_expr expr (star t) =
    concat ("if " ∷ expr ∷ " != nil {\n\t\t" ∷ reset_expr (str_append "*" expr) t ∷ "\n\t}" ∷ [])
reset_expr expr (slice t) = concat (expr ∷ " = " ∷ expr ∷ "[:0]" ∷ [])
reset_expr expr (array t) = concat (expr ∷ " = " ∷ expr ∷ "{}" ∷ [])
reset_expr expr (map_type k v) = concat ("clear(" ∷ expr ∷ ")" ∷ [])
reset_expr expr (selector pkg name) = call_reset expr
reset_expr expr other_type = concat ("var zero = *new(" ∷ expr ∷ ")\n\t" ∷ expr ∷ " = zero" ∷ [])

-- `stdlibPath`; the empty text for every other package
unfoldable pub stdlib_path : String → String
stdlib_path pkg =
    if one_of pkg ("sync" ∷ "time" ∷ "context" ∷ "io" ∷ [])
    then pkg
    else if pkg == "atomic"
    then "sync/atomic"
    else if pkg == "big"
    then "math/big"
    else if pkg == "url"
    then "net/url"
    else if pkg == "http"
    then "net/http"
    else if pkg == "sql"
    then "database/sql"
    else if pkg == "json"
    then "encoding/json"
    else ""

-- `importInfo`
pub record ImportInfo : Type 0 where
  pub path : String
  pub name : String

-- `seen[path]`: the paths of `out` are exactly those that were seen
abbrev pub seen : String → List ImportInfo → Bool
seen path [] = false
seen path (i ∷ out) = i.path == path || seen path out

-- the case of `walk` for `pkg.T`
unfoldable pub add_import : String → List ImportInfo → List ImportInfo
add_import pkg out =
    let path = stdlib_path pkg in
    if path == "" || seen path out then out else out ++ record { path = path; name = pkg } ∷ []

unfoldable pub walk : TypeExpr → List ImportInfo → List ImportInfo
unfolding add_import
walk (ident name) out = out
walk (star t) out = walk t out
walk (slice t) out = walk t out
walk (array t) out = walk t out
walk (map_type k v) out = walk v (walk k out)
walk (selector none name) out = out
walk (selector (some pkg) name) out = add_import pkg out
walk other_type out = out

unfoldable pub walk_fields : List Field → List ImportInfo → List ImportInfo
unfolding walk
walk_fields [] out = out
walk_fields (f ∷ fields) out =
    walk_fields fields (if is_sync_type f.type_expr then out else walk f.type_expr out)

unfoldable pub walk_structs : List StructInfo → List ImportInfo → List ImportInfo
unfolding walk_fields
walk_structs [] out = out
walk_structs (s ∷ structs) out = walk_structs structs (walk_fields s.fields out)

-- `collectImports`
unfoldable pub collect_imports : PkgInfo → List ImportInfo
unfolding walk_structs
collect_imports pkg = walk_structs pkg.structs []
