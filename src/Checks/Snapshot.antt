-- ===== src/Checks/Snapshot.antt =====
-- scripts/check_clean.py: the snapshot of the repository, and the steps that are run in it.
pub mod Exported
use ai_protocol.Base.{
  ◌==◌, if◌then◌else◌, ℕ, Bool, true, false, not, ◌&&◌, ◌||◌, List, [], ◌∷◌, ◌++◌,
}
use ai_protocol.Base.Lists.{drop, any, keep}
use ai_protocol.Base.Text.{codes, starts_with}
use ai_protocol.Result.{os_error, runtime_error, Result, ok, err, ◌>>=◌, ◌>>◌, raise_if}
use ai_protocol.Release.Name.{Text, eq_text, mem}
use ai_protocol.Release.Prepare.{sort_texts}

-- `text.split('\0')`
abbrev pub split_zero : Text → Text → List Text
split_zero part [] = part ∷ []
split_zero part (c ∷ s) =
    let rest = split_zero (if c == 0 then [] else part ++ c ∷ []) s in
    if c == 0 then part ∷ rest else rest

-- `set(xs)`, as a list of distinct texts.
abbrev pub distinct : List Text → List Text
distinct [] = []
distinct (x ∷ xs) = let rest = distinct xs in if mem x rest then rest else x ∷ rest

abbrev pub is_nonempty : Text → Bool
is_nonempty [] = false
is_nonempty (c ∷ s) = true

-- The working tree: which paths are files or symbolic links, what they hold, and the parts of a path,
-- with its last.
pub record Tree : Type 0 where
  pub is_file : Text → Bool
  pub is_symlink : Text → Bool
  pub content : Text → List ℕ
  pub parts : Text → List Text
  pub name : Text → Text

-- `sorted(set(path for path in paths if path and (ROOT / path).is_file()))`
unfoldable pub intended : Tree → Text → List Text
intended t listing =
    sort_texts (distinct (keep (λ p. is_nonempty p && t.is_file p) (split_zero [] listing)))

abbrev pub local_parts : List Text
local_parts =
    codes ".git" ∷ codes "target" ∷ codes ".venv" ∷ codes "venv" ∷ codes "__pycache__" ∷ []

-- The test behind "A local-only file is included in the intended snapshot".
unfoldable pub is_local : Tree → Text → Bool
is_local t p =
    any (λ part. mem part local_parts) (t.parts p)
    || starts_with (t.name p) (codes ".env") && not (eq_text (t.name p) (codes ".env.example"))

module _ (sha256 : List ℕ → Text) (t : Tree) where
  -- The loop over the paths: what is copied, with `source_hashes`.
  unfoldable pub copy_paths : List Text → Result (List (Text × Text))
  copy_paths [] = ok []
  copy_paths (p ∷ ps) = do
    raise_if (is_local t p) (runtime_error "A local-only file is included in the intended snapshot")
    raise_if (t.is_symlink p)
        (runtime_error "Review symlinks explicitly before exporting a clean snapshot")
    hashes ← copy_paths ps
    ok ((p, sha256 (t.content p)) ∷ hashes)

  unfoldable pub snapshot : Text → Result (List (Text × Text))
  snapshot listing = copy_paths (intended t listing)

-- `environment`, and the change of `PATH` after each step.
abbrev pub Variables : Type 0
Variables = List (Text × Text)

abbrev pub clean_environment : Text → Text → Text → Variables
clean_environment path base rustup_home =
    (codes "PATH", path)
    ∷ (codes "HOME", base ++ codes "/home")
    ∷ (codes "CARGO_HOME", base ++ codes "/cargo")
    ∷ (codes "RUSTUP_HOME", rustup_home)
    ∷ (codes "PYTHONNOUSERSITE", codes "1")
    ∷ (codes "PIP_DISABLE_PIP_VERSION_CHECK", codes "1")
    ∷ []

abbrev pub with_path : Text → Text → Variables → Variables
with_path project path environment =
    (codes "PATH", project ++ (codes "/.venv/bin" ++ (58 ∷ path))) ∷ drop 1 environment

-- `for command in commands`: a step that fails ends the run. The steps that were run, with their
-- environments, the last first.
unfoldable pub run_steps :
    (Text → Variables → Bool)
    → Text
    → Text
    → List Text
    → Variables
    → List (Text × Variables)
    → Result (Unit {0}) × List (Text × Variables)
run_steps succeeds project path [] environment done_steps = (ok tt, done_steps)
run_steps succeeds project path (step ∷ steps) environment done_steps =
    let rest =
      run_steps succeeds project path steps (with_path project path environment)
        ((step, environment) ∷ done_steps) in
    if succeeds step environment then rest else (err os_error, (step, environment) ∷ done_steps)
