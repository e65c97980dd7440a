-- ===== src/Release/Registry.antt =====
-- `registry_state` (scripts/release.py): what crates.io and PyPI hold of a version.
use ai_protocol.Base.{
  if◌then◌else◌, Option-cases, ◌≡◌, sym, ap, ◌∙◌, inl, inr, Bool, true, false, not, Option, none,
  some, List, [], ◌∷◌, arith,
}
use ai_protocol.Base.Lists.{keep, All}
use ai_protocol.Result.{Exception, value_error, Result, ok, err, ◌>>=◌, ◌>>◌, raise_if, require}
use ai_protocol.Release.Name.{Text, eq_text, eq_text_iff, mem, find, item, keys}
use ai_protocol.Release.Version.{crate_name, sdist_name, wheel_name}

-- The entries of the two answers that the code reads; no answer where the status is 404.
pub record Crate : Type 0 where
  pub num : Text
  pub checksum : Text

pub record Project : Type 0 where
  pub version : Text
  pub files : List (Text × Text)

-- `rust["version"]["num"] != version or rust["version"]["checksum"] != checksums[crate]`
unfoldable pub check_crate : Text → List (Text × Text) → Option Crate → Result Bool
check_crate version checksums none = ok false
check_crate version checksums (some rust) =
    if not (eq_text rust.num version)
    then err (value_error "crates.io already contains different bytes for this version")
    else (do
      expected ← item (crate_name version) checksums
      raise_if (not (eq_text rust.checksum expected))
          (value_error "crates.io already contains different bytes for this version")
      ok true)

-- The test on the published files, one after another.
unfoldable pub check_files : Text → List (Text × Text) → List (Text × Text) → Result (Unit {0})
check_files version checksums [] = ok tt
check_files version checksums ((n, checksum) ∷ rest) =
    let others = check_files version checksums rest in
    (raise_if (not (mem n (sdist_name version ∷ wheel_name version ∷ [])))
        (value_error "PyPI already contains different files for this version")
      >> (item n checksums >>= λ expected.
          (raise_if (not (eq_text checksum expected))
              (value_error "PyPI already contains different files for this version")
            >> others)))

abbrev pub published : Option Project → List (Text × Text)
published none = []
published (some python) = python.files

abbrev pub right_version : Text → Option Project → Bool
right_version version none = true
right_version version (some python) = eq_text python.version version

unfoldable pub registry_state :
    Text → List (Text × Text) → Option Crate → Option Project → Result (Bool × List Text)
registry_state version checksums rust python = do
  exists ← check_crate version checksums rust
  require (right_version version python) (value_error "Unexpected PyPI version")
  check_files version checksums (published python)
  ok (
    exists,
    keep (λ n. not (mem n (keys (published python))))
        (sdist_name version ∷ wheel_name version ∷ []),
  )

-- A checksum is the one that is expected of the name.
abbrev pub IsExpected : List (Text × Text) → Text × Text → Type 0
IsExpected checksums (n, checksum) = find n checksums ≡ some checksum

check_files-IsExpected :
    (version : Text) (checksums files : List (Text × Text))
    → check_files version checksums files ≡ ok tt
    → All (IsExpected checksums) files
unfolding check_files
check_files-IsExpected version checksums [] h = tt
check_files-IsExpected version checksums ((n, c) ∷ rest) h =
    elim (Option-cases (find n checksums)) [
      | inl absent ↦ absurd (missing absent)
      | inr (expected, e) ↦
          let same : eq_text c expected ≡ true = ground arith in
          let others : check_files version checksums rest ≡ ok tt = ground arith in
          (
            e ∙ ap some (sym ((eq_text_iff c expected).0 same)),
            check_files-IsExpected version checksums rest others,
          )
    ]
  where
    missing : find n checksums ≡ none → ⊥
    missing absent = ground arith

check_crate-some :
    (version : Text) (checksums : List (Text × Text)) (c : Crate) (exists : Bool)
    → check_crate version checksums (some c) ≡ ok exists
    → (exists ≡ true) × (c.num ≡ version) × (find (crate_name version) checksums ≡ some c.checksum)
unfolding check_crate
check_crate-some version checksums c exists h =
    elim (Option-cases (find (crate_name version) checksums)) [
      | inl absent ↦ absurd (missing absent)
      | inr (expected, e) ↦
          let number : eq_text c.num version ≡ true = ground arith in
          let same : eq_text c.checksum expected ≡ true = ground arith in
          (
            ground arith,
            (eq_text_iff c.num version).0 number,
            e ∙ ap some (sym ((eq_text_iff c.checksum expected).0 same)),
          )
    ]
  where
    missing : find (crate_name version) checksums ≡ none → ⊥
    missing absent = ground arith

-- What is known of the crate when the check has passed.
abbrev pub CrateAgrees : Text → List (Text × Text) → Option Crate → Bool → Type 0
CrateAgrees version checksums none exists = exists ≡ false
CrateAgrees version checksums (some c) exists =
    (exists ≡ true) × (c.num ≡ version) × (find (crate_name version) checksums ≡ some c.checksum)

check_crate-CrateAgrees :
    (version : Text) (checksums : List (Text × Text)) (rust : Option Crate) (exists : Bool)
    → check_crate version checksums rust ≡ ok exists
    → CrateAgrees version checksums rust exists
check_crate-CrateAgrees version checksums none exists h = unfold check_crate in ground arith
check_crate-CrateAgrees version checksums (some c) exists h =
    check_crate-some version checksums c exists h

two_steps :
    {A : Type 0} (m : Result Bool) (b : Bool) (k : Result (Unit {0})) (e : Exception) (rest : A)
    (x : Bool) (y : A)
    → ◌>>=◌ {C = Bool × A} m (λ v. (require b e >> (k >> ok (v, rest)))) ≡ ok (x, y)
    → (m ≡ ok x) × (k ≡ ok tt) × (rest ≡ y)
two_steps m b k e rest x y h = ground arith

-- Whatever the registries already hold of this version has the expected bytes: a crate is reported
-- to exist only with its version and checksum, every file on PyPI has the checksum of that name;
-- and a distribution is reported missing exactly if it is not on PyPI.
pub registry_state-agrees :
    (version : Text) (checksums : List (Text × Text)) (rust : Option Crate)
    (python : Option Project) (exists : Bool) (missing : List Text)
    → registry_state version checksums rust python ≡ ok (exists, missing)
    → CrateAgrees version checksums rust exists
      × All (IsExpected checksums) (published python)
      × (missing
          ≡ keep
              (λ n. not (mem n (keys (published python))))
              (sdist_name version ∷ wheel_name version ∷ []))
unfolding registry_state
registry_state-agrees version checksums rust python exists missing h =
    let (crate, files, rest) = two_steps _ _ _ _ _ exists missing h in
    (
      check_crate-CrateAgrees version checksums rust exists crate,
      check_files-IsExpected version checksums (published python) files,
      sym rest,
    )
