-- ===== src/Reset/Scan/Visited.antt =====
-- The directories that a scan looks into, and the scan as one pass over them.
use gometrics.Prelude.{
  String, true, false, Option, none, some, List, [], ◌∷◌, ◌++◌, ◌≡◌, refl, sym, ap, ◌∙◌,
  if◌then◌else◌, append_assoc, append-nil,
}
use gometrics.Reset.{PkgInfo}
use gometrics.Reset.Scan.{
  Entry, Dir, Dirs, dir, no_dirs, and_dir, is_skipped, add_package, parse_dir, scan, scan_dirs,
  scan_packages,
}

-- what is known of a directory: its path and the entries of it
abbrev pub Listing : Type 0
Listing = String × Option (List Entry)

-- the directories that are neither skipped themselves nor inside one that is, each before those in it
abbrev mutual
  pub visited : Dir → List Listing
  visited (dir path base entries dirs) =
      let inside = visited_dirs dirs in if is_skipped base then [] else (path, entries) ∷ inside

  pub visited_dirs : Dirs → List Listing
  visited_dirs no_dirs = []
  visited_dirs (and_dir d dirs) = visited d ++ visited_dirs dirs

abbrev pub with_found : Option PkgInfo → Option (List PkgInfo) → Option (List PkgInfo)
with_found found none = none
with_found none (some pkgs) = some pkgs
with_found (some p) (some pkgs) = some (p ∷ pkgs)

-- the packages of a list of directories, in its order; `none` if one of them cannot be parsed
abbrev pub packages_of : List Listing → Option (List PkgInfo)
packages_of [] = some []
packages_of ((path, entries) ∷ listings) =
    let rest = packages_of listings in
    elim (parse_dir path entries) [ none ↦ none | some found ↦ with_found found rest ]

-- the same, with the packages so far
abbrev collect : List Listing → List PkgInfo → Option (List PkgInfo)
collect [] pkgs = some pkgs
collect ((path, entries) ∷ listings) pkgs = elim (parse_dir path entries) [
  | none ↦ none
  | some found ↦ collect listings (add_package found pkgs)
]

abbrev and_then : Option (List PkgInfo) → List Listing → Option (List PkgInfo)
and_then none listings = none
and_then (some pkgs) listings = collect listings pkgs

collect-append :
    (xs ys : List Listing) (pkgs : List PkgInfo)
    → collect (xs ++ ys) pkgs ≡ and_then (collect xs pkgs) ys
collect-append [] ys pkgs = refl
collect-append ((path, entries) ∷ xs) ys pkgs =
    elim (parse_dir path entries)
      as (λ r.
        elim r [ none ↦ none | some found ↦ collect (xs ++ ys) (add_package found pkgs) ]
        ≡ and_then (elim r [ none ↦ none | some found ↦ collect xs (add_package found pkgs) ]) ys) [
          | none ↦ refl
          | some found ↦ collect-append xs ys (add_package found pkgs)
        ]

abbrev behind : List PkgInfo → Option (List PkgInfo) → Option (List PkgInfo)
behind pkgs none = none
behind pkgs (some more) = some (pkgs ++ more)

behind-with_found :
    (found : Option PkgInfo) (pkgs : List PkgInfo) (rest : Option (List PkgInfo))
    → behind (add_package found pkgs) rest ≡ behind pkgs (with_found found rest)
behind-with_found none pkgs none = refl
behind-with_found none pkgs (some more) = refl
behind-with_found (some p) pkgs none = refl
behind-with_found (some p) pkgs (some more) = ap some (append_assoc pkgs (p ∷ []) more)

collect-packages_of :
    (xs : List Listing) (pkgs : List PkgInfo) → collect xs pkgs ≡ behind pkgs (packages_of xs)
collect-packages_of [] pkgs = ap some (sym (append-nil pkgs))
collect-packages_of ((path, entries) ∷ xs) pkgs =
    elim (parse_dir path entries)
      as (λ r.
        elim r [ none ↦ none | some found ↦ collect xs (add_package found pkgs) ]
        ≡ behind pkgs (elim r [ none ↦ none | some found ↦ with_found found (packages_of xs) ])) [
          | none ↦ refl
          | some found ↦
              collect-packages_of xs (add_package found pkgs)
              ∙ behind-with_found found pkgs (packages_of xs)
        ]

behind-nil : (r : Option (List PkgInfo)) → behind [] r ≡ r
behind-nil none = refl
behind-nil (some pkgs) = refl

mutual
  unfolding scan

  scan-collect : (d : Dir) (pkgs : List PkgInfo) → scan d pkgs ≡ collect (visited d) pkgs
  scan-collect (dir path base entries dirs) pkgs =
      elim (is_skipped base)
        as (λ b.
          (if b then some pkgs else elim (parse_dir path entries) [
            | none ↦ none
            | some found ↦ scan_dirs dirs (add_package found pkgs)
          ])
          ≡ collect (if b then [] else (path, entries) ∷ visited_dirs dirs) pkgs) [
            | true ↦ refl
            | false ↦
                elim (parse_dir path entries)
                  as (λ r.
                    elim r [ none ↦ none | some found ↦ scan_dirs dirs (add_package found pkgs) ]
                    ≡ elim r [
                      | none ↦ none
                      | some found ↦ collect (visited_dirs dirs) (add_package found pkgs)
                    ]) [
                      | none ↦ refl
                      | some found ↦ scan_dirs-collect dirs (add_package found pkgs)
                    ]
          ]

  scan_dirs-collect :
      (ds : Dirs) (pkgs : List PkgInfo) → scan_dirs ds pkgs ≡ collect (visited_dirs ds) pkgs
  scan_dirs-collect no_dirs pkgs = refl
  scan_dirs-collect (and_dir d ds) pkgs =
      (elim (scan d pkgs)
        as (λ r.
          elim r [ none ↦ none | some found ↦ scan_dirs ds found ] ≡ and_then r (visited_dirs ds)) [
            | none ↦ refl
            | some found ↦ scan_dirs-collect ds found
          ])
      ∙ ap (λ r. and_then r (visited_dirs ds)) (scan-collect d pkgs)
      ∙ sym (collect-append (visited d) (visited_dirs ds) pkgs)

-- A scan gives the packages of exactly the directories that are neither skipped nor inside one that is,
-- each before those in it, and fails exactly if one of these cannot be parsed.
pub scan_packages-visited : (root : Dir) → scan_packages root ≡ packages_of (visited root)
unfolding scan_packages
scan_packages-visited root =
    scan-collect root []
    ∙ collect-packages_of (visited root) []
    ∙ behind-nil (packages_of (visited root))
