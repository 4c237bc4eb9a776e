-- ===== src/Reset/Generate.antt =====
-- cmd/reset/main.go: `run`, from the working directory to the files that are written. `format.Source`,
-- `filepath.Join` and `os.WriteFile` are parameters.
use gometrics.Prelude.{String, Option, none, some, List, [], ◌∷◌}
use gometrics.Reset.{PkgInfo, StructInfo}
use gometrics.Reset.Render.{render_package}
use gometrics.Reset.Scan.{Dir, scan_packages}

abbrev generated_file_name : String
generated_file_name = "reset.gen.go"

-- how `run` fails
pub data RunError : Type 0 where
  no_working_dir : RunError
  scan_failed : RunError
  package_failed : String → RunError

-- `format.Source`, an error as `none`; `os.WriteFile`, with its error
pub record Output (W : Type 0) : Type 0 where
  pub join : String → String → String
  pub format_source : String → Option String
  pub write_file : String → String → W → Option String × W

module _ {W : Type 0} (out : Output W) (quote : String → String) where
  write_formatted : PkgInfo → Option String → W → Option String × W
  write_formatted pkg none w = (some "format", w)
  write_formatted pkg (some formatted) w =
      out.write_file (out.join pkg.dir generated_file_name) formatted w

  -- the end of `renderPackage`; the template is a constant that parses, and a buffer takes what it gives
  unfoldable pub write_package : PkgInfo → W → Option String × W
  unfolding write_formatted render_package
  write_package pkg w = write_formatted pkg (out.format_source (render_package quote pkg)) w

  after_package : PkgInfo → Option String × W → (W → Option RunError × W) → Option RunError × W
  after_package pkg (some e, w) rest = (some (package_failed pkg.name), w)
  after_package pkg (none, w) rest = rest w

  -- by the structures of the package
  on_package : List StructInfo → PkgInfo → (W → Option RunError × W) → W → Option RunError × W
  unfolding write_package after_package
  on_package [] pkg rest w = rest w
  on_package (s ∷ structs) pkg rest w = after_package pkg (write_package pkg w) rest

  -- the loop of `run`: the first error ends it
  unfoldable pub write_packages : List PkgInfo → W → Option RunError × W
  unfolding on_package
  write_packages [] w = (none, w)
  write_packages (pkg ∷ pkgs) w = on_package pkg.structs pkg (λ w'. write_packages pkgs w') w

  -- by what `scanPackages` gives
  after_scan : Option (List PkgInfo) → W → Option RunError × W
  unfolding write_packages
  after_scan none w = (some scan_failed, w)
  after_scan (some pkgs) w = write_packages pkgs w

  -- `run`, in the working directory if `os.Getwd` gives one
  unfoldable pub run : Option Dir → W → Option RunError × W
  unfolding after_scan scan_packages
  run none w = (some no_working_dir, w)
  run (some root) w = after_scan (scan_packages root) w
