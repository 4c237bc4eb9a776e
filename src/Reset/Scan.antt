-- ===== src/Reset/Scan.antt =====
-- cmd/reset/main.go: `scanPackages`, `parseDir` and `hasDirective`, over a tree of directories. What
-- `os.ReadDir` and `go/parser` give of each directory is in the tree; `none` is an error.
pub mod Visited
use gometrics.Prelude.{
  String, Bool, true, false, Option, none, some, List, [], ◌∷◌, ◌++◌, ◌==◌, ◌&&◌, ◌||◌, not,
  if◌then◌else◌, eqb,
}
use Prim.Native.Char.{code}
use gometrics.Handler.{trim_space}
use gometrics.Reset.{Field, StructInfo, PkgInfo}

-- `strings.CutPrefix`: `none` if the text does not begin with the prefix
unfoldable pub cut_prefix : String → String → Option String
cut_prefix s String.[] = some s
cut_prefix String.[] (String.◌∷◌ p ps) = none
cut_prefix (String.◌∷◌ c s) (String.◌∷◌ p ps) =
    let rest = cut_prefix s ps in if eqb (code c) (code p) then rest else none

abbrev pub has_prefix : String → String → Bool
has_prefix s p = elim (cut_prefix s p) [ none ↦ false | some rest ↦ true ]

abbrev pub trim_prefix : String → String → String
trim_prefix s p = elim (cut_prefix s p) [ none ↦ s | some rest ↦ rest ]

unfoldable pub has_suffix : String → String → Bool
has_suffix String.[] suffix = "" == suffix
has_suffix (String.◌∷◌ c s) suffix = String.◌∷◌ c s == suffix || has_suffix s suffix

-- `hasDirective`, on the lines of the comment; no comment is an empty list
unfoldable pub has_directive : List String → Bool
has_directive [] = false
has_directive (line ∷ lines) =
    has_prefix (trim_space (trim_prefix line "//")) "generate:reset" || has_directive lines

-- a `TypeSpec`, with the fields of a struct type
pub record TypeSpec : Type 0 where
  pub name : String
  pub struct_fields : Option (List Field)

-- a declaration: `is_type` for a `GenDecl` of types
pub record Decl : Type 0 where
  pub is_type : Bool
  pub doc : List String
  pub specs : List TypeSpec

pub record SourceFile : Type 0 where
  pub package_name : String
  pub decls : List Decl

-- an entry of a directory that is no directory; `none` where the parser fails
pub record Entry : Type 0 where
  pub name : String
  pub parsed : Option SourceFile

unfoldable pub structs_of : List TypeSpec → List StructInfo
structs_of [] = []
structs_of (s ∷ specs) =
    let rest = structs_of specs in
    elim s.struct_fields [
      | none ↦ rest
      | some fields ↦ record { name = s.name; fields = fields } ∷ rest
    ]

unfoldable pub decl_structs : List Decl → List StructInfo
unfolding structs_of has_directive
decl_structs [] = []
decl_structs (d ∷ decls) =
    let rest = decl_structs decls in
    if d.is_type && has_directive d.doc then structs_of d.specs ++ rest else rest

-- the files that are parsed
unfoldable pub is_source : String → Bool
is_source name = has_suffix name ".go" && not (has_suffix name "_test.go" || name == "reset.gen.go")

-- The loop of `parseDir`, with the name of the package and the structures so far; `none` is an error.
unfoldable pub parse_entries :
    List Entry → String → List StructInfo → Option (String × List StructInfo)
unfolding decl_structs is_source
parse_entries [] name structs = some (name, structs)
parse_entries (e ∷ entries) name structs =
    let skipped = parse_entries entries name structs in
    let taken : Option (String × List StructInfo) = elim e.parsed [
      | none ↦ none
      | some f ↦
          parse_entries entries (if name == "" then f.package_name else name)
            (structs ++ decl_structs f.decls)
    ] in
    if is_source e.name then taken else skipped

-- the package of a directory: none where there is nothing to generate
abbrev pub package_of : String → String × List StructInfo → Option PkgInfo
package_of dir (name, []) = none
package_of dir (name, s ∷ structs) =
    if name == "" then none else some (record { dir = dir; name = name; structs = s ∷ structs })

unfoldable pub parse_dir : String → Option (List Entry) → Option (Option PkgInfo)
unfolding parse_entries
parse_dir dir none = none
parse_dir dir (some entries) = elim (parse_entries entries "" []) [
  | none ↦ none
  | some r ↦ some (package_of dir r)
]

-- A directory: its path and the last part of it, what `os.ReadDir` gives, and the directories in it.
mutual
  pub data Dir : Type 0 where
    dir : String → String → Option (List Entry) → Dirs → Dir

  pub data Dirs : Type 0 where
    no_dirs : Dirs
    and_dir : Dir → Dirs → Dirs

unfoldable pub is_skipped : String → Bool
is_skipped base = base == "vendor" || base == ".git" || base == "testdata" || has_prefix base "."

abbrev pub add_package : Option PkgInfo → List PkgInfo → List PkgInfo
add_package none pkgs = pkgs
add_package (some p) pkgs = pkgs ++ p ∷ []

-- `filepath.WalkDir` with the function of `scanPackages`; an error ends it
unfoldable mutual
  unfolding parse_dir is_skipped

  pub scan : Dir → List PkgInfo → Option (List PkgInfo)
  scan (dir path base entries dirs) pkgs =
      let inside : Option (List PkgInfo) = elim (parse_dir path entries) [
        | none ↦ none
        | some found ↦ scan_dirs dirs (add_package found pkgs)
      ] in
      if is_skipped base then some pkgs else inside

  pub scan_dirs : Dirs → List PkgInfo → Option (List PkgInfo)
  scan_dirs no_dirs pkgs = some pkgs
  scan_dirs (and_dir d dirs) pkgs = elim (scan d pkgs) [
    | none ↦ none
    | some pkgs' ↦ scan_dirs dirs pkgs'
  ]

-- `scanPackages`
unfoldable pub scan_packages : Dir → Option (List PkgInfo)
unfolding scan
scan_packages root = scan root []
