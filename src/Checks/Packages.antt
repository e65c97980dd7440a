-- ===== src/Checks/Packages.antt =====
-- scripts/check_packages.py: what a distribution may hold, and the report that is written about it.
-- The names in the archives, the sizes and the versions are arguments.
pub mod Contents
use ai_protocol.Base.{ltb, ◌==◌, ℕ, ◌*◌, Bool, true, false, not, ◌&&◌, ◌||◌, some, List, [], ◌∷◌}
use ai_protocol.Base.Int.{pos}
use ai_protocol.Base.Lists.{any, count}
use ai_protocol.Base.Text.{codes}
use ai_protocol.Base.Search.{contains}
use ai_protocol.Result.{
  value_error, assertion_error, runtime_error, system_exit, Result, ok, err, ◌>>=◌, ◌>>◌, raise_if,
  require,
}
use ai_protocol.Json.{int}
use ai_protocol.Release.Name.{Text, eq_text, mem}
use ai_protocol.Release.Bundle.{Entry, Report}

abbrev pub forbidden : List Text
forbidden =
    codes "target"
    ∷ codes "benchmarks"
    ∷ codes "integration"
    ∷ codes ".env"
    ∷ codes ".env.demo"
    ∷ codes ".git"
    ∷ codes ".venv"
    ∷ codes "__pycache__"
    ∷ []

-- `s.endswith(suffix)`
abbrev pub ends_with : Text → Text → Bool
ends_with [] suffix = eq_text [] suffix
ends_with (c ∷ s) suffix = eq_text (c ∷ s) suffix || ends_with s suffix

abbrev pub cover : Text
cover = codes "/docs/assets/readme-cover-v2.png"

-- The parts of a path, `Path(name).parts`, are an argument.
module _ (parts : Text → List Text) where
  -- `forbidden.intersection(Path(name).parts)`
  abbrev pub is_forbidden : Text → Bool
  is_forbidden n = any (λ p. mem p forbidden) (parts n)

  unfoldable pub inspect : List Text → Bool → Result (Unit {0})
  inspect names source = do
    raise_if (any is_forbidden names)
        (runtime_error "Distribution contains development outputs or private files")
    raise_if (source && not (any (λ n. ends_with n cover) names))
        (runtime_error "Source distribution is missing the README cover")

-- `path, = paths`
abbrev pub only : {A : Type 0} → List A → Result A
only (x ∷ []) = ok x
only [] = err (value_error "not enough values to unpack")
only (x ∷ y ∷ xs) = err (value_error "too many values to unpack")

-- An archive: the names in it, and its size in bytes.
pub record Archive : Type 0 where
  pub names : List Text
  pub size : ℕ

-- What the build left behind.
pub record Build : Type 0 where
  pub output_exists : Bool
  pub version : Text
  pub python_version : Text
  pub crate : Archive
  pub wheels : List Archive
  pub sdists : List Archive

abbrev pub is_schema : Text → Bool
is_schema n = ends_with n (codes ".schema.json")

abbrev pub is_large : Archive → Bool
is_large a = ltb (5 * 1024 * 1024) a.size

-- The checks of `main`.
unfoldable pub check_packages : (Text → List Text) → Build → Result (Unit {0})
check_packages parts b = do
  raise_if b.output_exists (system_exit (int (pos 2)))
  raise_if (not (eq_text b.version b.python_version))
      (runtime_error "Release package versions differ")
  inspect parts b.crate.names true
  wheel ← only b.wheels
  sdist ← only b.sdists
  inspect parts wheel.names false
  require (count is_schema wheel.names == 4) (assertion_error "schemas")
  inspect parts sdist.names true
  require (not (any (contains (codes "/tests/")) sdist.names)) (assertion_error "tests")
  raise_if (is_large b.crate || is_large wheel || is_large sdist)
      (runtime_error "Unexpectedly large release artifact")

-- `{path.name: sha256(path) for path in artifacts.iterdir()}`
abbrev pub checksums_of : (List ℕ → Text) → List Entry → List (Text × Text)
checksums_of sha256 [] = []
checksums_of sha256 (e ∷ es) = (e.name, sha256 e.content) ∷ checksums_of sha256 es

-- The entries of `report` that `validate_bundle` reads, from `git rev-parse HEAD` and `git status`.
abbrev pub package_report : (List ℕ → Text) → Text → Text → Text → List Entry → Report
package_report sha256 version head status artifacts = record {
  source_commit = some head;
  version = some version;
  working_tree_dirty = some (not (eq_text status []));
  sha256 = checksums_of sha256 artifacts;
}
