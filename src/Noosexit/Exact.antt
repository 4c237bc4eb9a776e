-- ===== src/Noosexit/Exact.antt =====
-- What the analyzer reports.
use gometrics.Prelude.{
  ℕ, String, Bool, true, false, List, [], ◌∷◌, ◌++◌, ◌==◌, ◌≡◌, ◌≢◌, ◌⊎◌, ◌↔◌, inl, inr, refl,
  eq_iff, if◌then◌else◌,
}
use gometrics.Reset.Scan.{has_prefix}
use gometrics.Noosexit.{
  Node, Nodes, ident, selector, call, other, no_nodes, and_node, is_os_exit, inspect, inspect_all,
  FuncDecl, SourceFile, inspect_funcs, inspect_files, module_root, run,
}

abbrev pub In : ℕ → List ℕ → Type 0
In pos [] = ⊥
In pos (p ∷ ps) = (p ≡ pos) ⊎ In pos ps

-- a call of `os.Exit` at this position, anywhere in the node
abbrev mutual
  pub Calls : ℕ → Node → Type 0
  Calls pos (ident path) = ⊥
  Calls pos (selector x name) = Calls pos x
  Calls pos (call p fun args) =
      ((is_os_exit fun ≡ true) × (p ≡ pos)) ⊎ (Calls pos fun ⊎ CallsAny pos args)
  Calls pos (other nodes) = CallsAny pos nodes

  pub CallsAny : ℕ → Nodes → Type 0
  CallsAny pos no_nodes = ⊥
  CallsAny pos (and_node n nodes) = Calls pos n ⊎ CallsAny pos nodes

-- in the body of a function `main` that is no method
abbrev pub InMain : ℕ → List FuncDecl → Type 0
InMain pos [] = ⊥
InMain pos (fn ∷ funcs) =
    ((fn.is_method ≡ false) × (fn.name ≡ "main") × Calls pos fn.body) ⊎ InMain pos funcs

abbrev pub InFiles : ℕ → String → List SourceFile → Type 0
InFiles pos root [] = ⊥
InFiles pos root (f ∷ files) =
    ((has_prefix f.path root ≡ true) × InMain pos f.funcs) ⊎ InFiles pos root files

In-append :
    (pos : ℕ) (xs ys : List ℕ) (P Q : Type 0)
    → In pos xs ↔ P
    → In pos ys ↔ Q
    → In pos (xs ++ ys) ↔ (P ⊎ Q)
In-append pos [] ys P Q h k =
    (λ i. inr (k.0 i), λ e. elim e [ inl p ↦ absurd (h.1 p) | inr q ↦ k.1 q ])
In-append pos (x ∷ xs) ys P Q h k =
    let rest = In-append pos xs ys (In pos xs) Q (λ i. i, λ i. i) k in
    (
      λ e. elim e [
        | inl p ↦ inl (h.0 (inl p))
        | inr i ↦ elim (rest.0 i) [ inl j ↦ inl (h.0 (inr j)) | inr q ↦ inr q ]
      ],
      λ e. elim e [
        | inl p ↦ elim (h.1 p) [ inl q ↦ inl q | inr j ↦ inr (rest.1 (inl j)) ]
        | inr q ↦ inr (rest.1 (inr q))
      ],
    )

-- a list that is there under a condition
In-if :
    (pos : ℕ) (b : Bool) (xs ys : List ℕ) (P Q : Type 0)
    → In pos xs ↔ P
    → In pos ys ↔ Q
    → In pos (if b then xs ++ ys else ys) ↔ (((b ≡ true) × P) ⊎ Q)
In-if pos true xs ys P Q h k =
    let both = In-append pos xs ys P Q h k in
    (
      λ i. elim (both.0 i) [ inl p ↦ inl (refl, p) | inr q ↦ inr q ],
      λ e. elim e [ inl (_, p) ↦ both.1 (inl p) | inr q ↦ both.1 (inr q) ],
    )
In-if pos false xs ys P Q h k = (λ i. inr (k.0 i), λ e. elim e [ inl (f, _) ↦ cc | inr q ↦ k.1 q ])

-- the same under another condition too
In-guard :
    (pos : ℕ) (skip b : Bool) (N : Type 0) (xs ys : List ℕ) (P Q : Type 0)
    → (b ≡ true) ↔ N
    → In pos xs ↔ P
    → In pos ys ↔ Q
    → In pos (if skip then ys else if b then xs ++ ys else ys) ↔ (((skip ≡ false) × N × P) ⊎ Q)
In-guard pos true b N xs ys P Q n h k =
    (λ i. inr (k.0 i), λ e. elim e [ inl (f, _, _) ↦ cc | inr q ↦ k.1 q ])
In-guard pos false b N xs ys P Q n h k =
    let both = In-if pos b xs ys P Q h k in
    (
      λ i. elim (both.0 i) [ inl (e, p) ↦ inl (refl, n.0 e, p) | inr q ↦ inr q ],
      λ e. elim e [ inl (_, m, p) ↦ both.1 (inl (n.1 m, p)) | inr q ↦ both.1 (inr q) ],
    )

apart : false ≡ true → ⊥
apart e = cc e

-- a list that is there under a condition, and not under another
In-both :
    (pos : ℕ) (a b : Bool) (A B : Type 0) (xs : List ℕ) (P : Type 0)
    → (a ≡ true) ↔ A
    → (b ≡ true) ↔ B
    → In pos xs ↔ P
    → In pos (if a then (if b then [] else xs) else []) ↔ (A × (¬ B) × P)
In-both pos true true A B xs P m n h = (λ x. absurd x, λ (_, k, _). absurd (k (n.0 refl)))
In-both pos true false A B xs P m n h =
    (λ i. (m.0 refl, λ x. apart (n.1 x), h.0 i), λ (_, _, p). h.1 p)
In-both pos false b A B xs P m n h = (λ x. absurd x, λ (x, _, _). absurd (apart (m.1 x)))

mutual
  unfolding inspect

  inspect-Calls : (pos : ℕ) (n : Node) → In pos (inspect n) ↔ Calls pos n
  inspect-Calls pos (ident path) = (λ e. e, λ e. e)
  inspect-Calls pos (selector x name) = inspect-Calls pos x
  inspect-Calls pos (call p fun args) =
      In-if pos (is_os_exit fun) (p ∷ []) (inspect fun ++ inspect_all args) (p ≡ pos)
        (Calls pos fun ⊎ CallsAny pos args) (λ e. elim e [ inl q ↦ q | inr x ↦ absurd x ], inl)
        (In-append pos (inspect fun) (inspect_all args) (Calls pos fun) (CallsAny pos args)
          (inspect-Calls pos fun) (inspect_all-CallsAny pos args))
  inspect-Calls pos (other nodes) = inspect_all-CallsAny pos nodes

  inspect_all-CallsAny : (pos : ℕ) (nodes : Nodes) → In pos (inspect_all nodes) ↔ CallsAny pos nodes
  inspect_all-CallsAny pos no_nodes = (λ e. e, λ e. e)
  inspect_all-CallsAny pos (and_node n nodes) =
      In-append pos (inspect n) (inspect_all nodes) (Calls pos n) (CallsAny pos nodes)
        (inspect-Calls pos n) (inspect_all-CallsAny pos nodes)

inspect_funcs-InMain :
    (pos : ℕ) (funcs : List FuncDecl) → In pos (inspect_funcs funcs) ↔ InMain pos funcs
unfolding inspect_funcs
inspect_funcs-InMain pos [] = (λ e. e, λ e. e)
inspect_funcs-InMain pos (fn ∷ funcs) =
    In-guard pos fn.is_method (fn.name == "main") (fn.name ≡ "main") (inspect fn.body)
      (inspect_funcs funcs) (Calls pos fn.body) (InMain pos funcs) (eq_iff fn.name "main")
      (inspect-Calls pos fn.body) (inspect_funcs-InMain pos funcs)

inspect_files-InFiles :
    (pos : ℕ) (root : String) (files : List SourceFile)
    → In pos (inspect_files root files) ↔ InFiles pos root files
unfolding inspect_files
inspect_files-InFiles pos root [] = (λ e. e, λ e. e)
inspect_files-InFiles pos root (f ∷ files) =
    In-if pos (has_prefix f.path root) (inspect_funcs f.funcs) (inspect_files root files)
      (InMain pos f.funcs) (InFiles pos root files) (inspect_funcs-InMain pos f.funcs)
      (inspect_files-InFiles pos root files)

-- A position is reported exactly if the package is named main, a root is found, and a file below the root
-- has a function main, no method, with a call of `os.Exit` of package os at this position, however deep in
-- its body.
pub run-exact :
    (pos : ℕ) (package_name : String) (files : List SourceFile)
    → In pos (run package_name files)
      ↔ ((package_name ≡ "main") × (module_root files ≢ "") × InFiles pos (module_root files) files)
unfolding run
run-exact pos package_name files =
    let root = module_root files in
    In-both pos (package_name == "main") (root == "") (package_name ≡ "main") (root ≡ "")
      (inspect_files root files) (InFiles pos root files) (eq_iff package_name "main")
      (eq_iff root "") (inspect_files-InFiles pos root files)
