-- ===== src/Reset/Render.antt =====
-- cmd/reset/main.go: `buildTemplateData` and the template. `format.Source`, which lays the text out, and
-- the writing of the file are not modelled.
use Prim.Native.Nat.{Ordering}
use Prim.Native.String.{compare, ◌++◌ as str_append}
use gometrics.Prelude.{String, Bool, true, false, List, [], ◌∷◌, ◌++◌, map, if◌then◌else◌}
use gometrics.Reset.{
  Field, StructInfo, PkgInfo, ImportInfo, TypeExpr, is_sync_type, reset_expr, collect_imports,
  concat,
}

-- `fieldTemplateData`, `structTemplateData` and `templateData`
pub record FieldData : Type 0 where
  pub name : String
  pub expr : String

pub record StructData : Type 0 where
  pub name : String
  pub fields : List FieldData

pub record TemplateData : Type 0 where
  pub package_name : String
  pub imports : List ImportInfo
  pub structs : List StructData

-- `<` on texts
abbrev pub before : String → String → Bool
before s t = elim (compare s t) [ Ordering.lt ↦ true | _ ↦ false ]

-- `sort.Slice` by a text of each element
unfoldable pub insert_by : {A : Type 0} → (A → String) → A → List A → List A
insert_by key x [] = x ∷ []
insert_by key x (y ∷ ys) =
    let rest = insert_by key x ys in if before (key y) (key x) then y ∷ rest else x ∷ y ∷ ys

unfoldable pub sort_by : {A : Type 0} → (A → String) → List A → List A
unfolding insert_by
sort_by key [] = []
sort_by key (x ∷ xs) = insert_by key x (sort_by key xs)

abbrev pub field_data : TypeExpr → String → FieldData
field_data t name = record { name = name; expr = reset_expr (str_append "x." name) t }

-- an embedded field and one of package sync are passed over
unfoldable pub fields_of : List Field → List FieldData
fields_of [] = []
fields_of (f ∷ fields) =
    let rest = fields_of fields in
    if is_sync_type f.type_expr then rest else map (field_data f.type_expr) f.names ++ rest

abbrev pub struct_data : StructInfo → StructData
struct_data s = record { name = s.name; fields = fields_of s.fields }

-- `buildTemplateData`
unfoldable pub build_template_data : PkgInfo → TemplateData
unfolding sort_by fields_of
build_template_data pkg = record {
  package_name = pkg.name;
  imports = sort_by (λ i. i.path) (collect_imports pkg);
  structs = sort_by (λ s. s.name) (map struct_data pkg.structs);
}

-- the template's loops; `quote` is `%q`
module _ (quote : String → String) where
  abbrev pub import_lines : List ImportInfo → String
  import_lines [] = ""
  import_lines (i ∷ imports) = concat ("\n\t" ∷ quote i.path ∷ import_lines imports ∷ [])

  abbrev pub import_block : List ImportInfo → String
  import_block [] = ""
  import_block (i ∷ imports) = concat ("\nimport (" ∷ import_lines (i ∷ imports) ∷ "\n)\n" ∷ [])

  abbrev pub field_lines : List FieldData → String
  field_lines [] = ""
  field_lines (f ∷ fields) =
      concat ("\n\t// " ∷ f.name ∷ "\n\t" ∷ f.expr ∷ "\n" ∷ field_lines fields ∷ [])

  abbrev pub struct_lines : List StructData → String
  struct_lines [] = ""
  struct_lines (s ∷ structs) = concat (
      "\n// Reset сбрасывает "
      ∷ s.name
      ∷ " к начальному состоянию.\nfunc (x *"
      ∷ s.name
      ∷ ") Reset() {\n\tif x == nil {\n\t\treturn\n\t}\n"
      ∷ field_lines s.fields
      ∷ "}\n"
      ∷ struct_lines structs
      ∷ [])

  -- `resetTemplate`
  unfoldable pub render : TemplateData → String
  render d = concat (
      "// Code generated by cmd/reset; DO NOT EDIT.\n\npackage "
      ∷ d.package_name
      ∷ "\n"
      ∷ import_block d.imports
      ∷ "\n"
      ∷ struct_lines d.structs
      ∷ "\n"
      ∷ [])

  unfoldable pub render_package : PkgInfo → String
  unfolding render build_template_data
  render_package pkg = render (build_template_data pkg)
