-- ===== src/Reset/Imports.antt =====
-- Which packages a generated file imports.
use gometrics.Prelude.{
  String, Bool, true, false, none, some, List, [], ◌∷◌, ◌++◌, ◌==◌, ◌||◌, ◌≡◌, ◌≢◌, ◌⊎◌, ◌↔◌, refl,
  arith, eq_iff, Bool-cases, inl, inr, if◌then◌else◌,
}
use gometrics.Reset.{
  TypeExpr, ident, star, slice, array, map_type, selector, other_type, Field, StructInfo, PkgInfo,
  ImportInfo, is_sync_type, stdlib_path, seen, add_import, walk, walk_fields, walk_structs,
  collect_imports,
}

-- a path of the standard library that the expression leads to through pointers, elements, keys and
-- values
abbrev pub Mentions : String → TypeExpr → Type 0
Mentions path (ident name) = ⊥
Mentions path (star t) = Mentions path t
Mentions path (slice t) = Mentions path t
Mentions path (array t) = Mentions path t
Mentions path (map_type k v) = Mentions path k ⊎ Mentions path v
Mentions path (selector none name) = ⊥
Mentions path (selector (some pkg) name) = (stdlib_path pkg ≡ path) × (path ≢ "")
Mentions path other_type = ⊥

abbrev pub InFields : String → List Field → Type 0
InFields path [] = ⊥
InFields path (f ∷ fields) =
    ((is_sync_type f.type_expr ≡ false) × Mentions path f.type_expr) ⊎ InFields path fields

abbrev pub InStructs : String → List StructInfo → Type 0
InStructs path [] = ⊥
InStructs path (s ∷ structs) = InFields path s.fields ⊎ InStructs path structs

-- no path stands twice
abbrev pub Distinct : List ImportInfo → Type 0
Distinct [] = Unit
Distinct (i ∷ out) = (seen i.path out ≡ false) × Distinct out

seen-append :
    (path : String) (out : List ImportInfo) (i : ImportInfo)
    → seen path (out ++ i ∷ []) ≡ (seen path out || i.path == path)
seen-append path [] i = ground arith
seen-append path (j ∷ out) i = ground (arith, seen-append path out i)

Distinct-append :
    (out : List ImportInfo) (i : ImportInfo)
    → Distinct out
    → seen i.path out ≡ false
    → Distinct (out ++ i ∷ [])
Distinct-append [] i d h = (refl, tt)
Distinct-append (j ∷ out) i (s, d) h = (
  ground (arith, seen-append j.path out i, eq_iff j.path i.path, eq_iff i.path j.path),
  Distinct-append out i d (ground arith),
)

-- what a step of the collection makes of the list
abbrev Extends : (String → Type 0) → List ImportInfo → List ImportInfo → Type 0
Extends P out out' =
    (Distinct out → Distinct out')
    × ((path : String) → (seen path out' ≡ true) ↔ ((seen path out ≡ true) ⊎ P path))

Extends-none :
    (P : String → Type 0) (out : List ImportInfo) → ((path : String) → ¬ P path) → Extends P out out
Extends-none P out n =
    (λ d. d, λ path. (inl, λ h. elim h [ inl e ↦ e | inr p ↦ absurd (n path p) ]))

Extends-trans :
    (P Q : String → Type 0) (a b c : List ImportInfo)
    → Extends P a b
    → Extends Q b c
    → Extends (λ path. P path ⊎ Q path) a c
Extends-trans P Q a b c (d, h) (d', h') = (λ x. d' (d x), λ path. (to path, from path))
  where
    to : (path : String) → seen path c ≡ true → (seen path a ≡ true) ⊎ (P path ⊎ Q path)
    to path e = elim ((h' path).0 e) [
      | inl f ↦ elim ((h path).0 f) [ inl g ↦ inl g | inr p ↦ inr (inl p) ]
      | inr q ↦ inr (inr q)
    ]

    from : (path : String) → (seen path a ≡ true) ⊎ (P path ⊎ Q path) → seen path c ≡ true
    from path (inl e) = (h' path).1 (inl ((h path).1 (inl e)))
    from path (inr (inl p)) = (h' path).1 (inl ((h path).1 (inr p)))
    from path (inr (inr q)) = (h' path).1 (inr q)

Extends-if :
    (P : String → Type 0) (out out1 out2 : List ImportInfo) (b : Bool)
    → (b ≡ true → Extends P out out1)
    → (b ≡ false → Extends P out out2)
    → Extends P out (if b then out1 else out2)
Extends-if P out out1 out2 true h k = h refl
Extends-if P out out1 out2 false h k = k refl

-- a condition that holds makes no difference
Extends-under :
    {C : Type 0} (P : String → Type 0) (a b : List ImportInfo)
    → C
    → Extends P a b
    → Extends (λ path. C × P path) a b
Extends-under P a b c (d, h) = (
  d,
  λ path. (
    λ e. elim ((h path).0 e) [ inl f ↦ inl f | inr p ↦ inr (c, p) ],
    λ e. elim e [ inl f ↦ (h path).1 (inl f) | inr (_, p) ↦ (h path).1 (inr p) ],
  ),
)

added-Extends :
    (p name : String) (out : List ImportInfo)
    → Extends
        (λ path. (p ≡ path) × (path ≢ ""))
        out
        (if p == "" || seen p out then out else out ++ record { path = p; name = name } ∷ [])
added-Extends p name out = Extends-if known out _ _ (p == "" || seen p out) kept put
  where
    added : ImportInfo
    added = record { path = p; name = name }

    known : String → Type 0
    known path = (p ≡ path) × (path ≢ "")

    kept : (p == "" || seen p out) ≡ true → Extends known out out
    kept e = (
      λ d. d,
      λ path. (
        inl,
        λ h. elim h [
          | inl g ↦ g
          | inr (q, n) ↦ ground (arith, e, q, n, eq_iff p "", eq_iff p path)
        ],
      ),
    )

    put :
        (p == "" || seen p out) ≡ false
        → Extends known out (out ++ record { path = p; name = name } ∷ [])
    put e = (
      λ d. Distinct-append out _ d (ground (arith, e)),
      λ path. (
        λ h. elim (Bool-cases (seen path out)) [
          | inl g ↦ inl g
          | inr g ↦
              let same : p ≡ path =
                ground (arith, seen-append path out added, h, g, eq_iff p path) in
              inr (same, λ n. ground (arith, same, n, e, eq_iff p ""))
        ],
        λ h. elim h [
          | inl g ↦ ground (arith, seen-append path out added, g)
          | inr (q, n) ↦ ground (arith, seen-append path out added, q, eq_iff p path)
        ],
      ),
    )

add_import-Extends :
    (pkg : String) (out : List ImportInfo)
    → Extends (λ path. (stdlib_path pkg ≡ path) × (path ≢ "")) out (add_import pkg out)
unfolding add_import
add_import-Extends pkg out = added-Extends (stdlib_path pkg) pkg out

walk-Extends :
    (t : TypeExpr) (out : List ImportInfo) → Extends (λ path. Mentions path t) out (walk t out)
unfolding walk
walk-Extends (ident name) out = Extends-none _ out (λ path p. p)
walk-Extends (star t) out = walk-Extends t out
walk-Extends (slice t) out = walk-Extends t out
walk-Extends (array t) out = walk-Extends t out
walk-Extends (map_type k v) out =
    Extends-trans (λ path. Mentions path k) (λ path. Mentions path v) out (walk k out)
      (walk v (walk k out)) (walk-Extends k out) (walk-Extends v (walk k out))
walk-Extends (selector none name) out = Extends-none _ out (λ path p. p)
walk-Extends (selector (some pkg) name) out = add_import-Extends pkg out
walk-Extends other_type out = Extends-none _ out (λ path p. p)

walk_fields-Extends :
    (fields : List Field) (out : List ImportInfo)
    → Extends (λ path. InFields path fields) out (walk_fields fields out)
unfolding walk_fields
walk_fields-Extends [] out = Extends-none _ out (λ path p. p)
walk_fields-Extends (f ∷ fields) out =
    Extends-trans (λ path. (is_sync_type f.type_expr ≡ false) × Mentions path f.type_expr)
      (λ path. InFields path fields) out step _ first (walk_fields-Extends fields step)
  where
    step : List ImportInfo
    step = if is_sync_type f.type_expr then out else walk f.type_expr out

    first :
        Extends (λ path. (is_sync_type f.type_expr ≡ false) × Mentions path f.type_expr) out step
    first =
        Extends-if (λ path. (is_sync_type f.type_expr ≡ false) × Mentions path f.type_expr) out out
          (walk f.type_expr out) (is_sync_type f.type_expr)
          (λ e. Extends-none _ out (λ path (n, m). cc))
          (λ e.
            Extends-under (λ path. Mentions path f.type_expr) out _ e
              (walk-Extends f.type_expr out))

walk_structs-Extends :
    (structs : List StructInfo) (out : List ImportInfo)
    → Extends (λ path. InStructs path structs) out (walk_structs structs out)
unfolding walk_structs
walk_structs-Extends [] out = Extends-none _ out (λ path p. p)
walk_structs-Extends (s ∷ structs) out =
    Extends-trans (λ path. InFields path s.fields) (λ path. InStructs path structs) out
      (walk_fields s.fields out) _ (walk_fields-Extends s.fields out)
      (walk_structs-Extends structs (walk_fields s.fields out))

-- The generated file imports no path twice, and it imports exactly the known paths that the type of
-- some field leads to, fields of types of package sync aside.
pub collect_imports-exact :
    (pkg : PkgInfo) (path : String)
    → Distinct (collect_imports pkg)
      × ((seen path (collect_imports pkg) ≡ true) ↔ InStructs path pkg.structs)
unfolding collect_imports
collect_imports-exact pkg path =
    let (d, h) = walk_structs-Extends pkg.structs [] in
    (d tt, (λ e. elim ((h path).0 e) [ inl f ↦ cc | inr p ↦ p ], λ p. (h path).1 (inr p)))
