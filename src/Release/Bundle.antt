-- ===== src/Release/Bundle.antt =====
-- `validate_bundle` (scripts/release.py). What `hashlib.sha256` and `json.loads` compute are
-- arguments.
use ai_protocol.Base.{
  leb, ◌==◌, if◌then◌else◌, ℕ, zero, suc, Bool, false, not, ◌&&◌, ◌||◌, Option, none, some, List,
  [], ◌∷◌, ◌++◌, map,
}
use ai_protocol.Base.Lists.{any, keep, first}
use ai_protocol.Base.Text.{codes, is_digit}
use ai_protocol.Result.{value_error, os_error, Result, ok, err, ◌>>=◌, ◌>>◌, raise_if, require}
use ai_protocol.Regex.{Regex, epsilon, chars, seq, fullmatch}
use ai_protocol.Release.Name.{Text, eq_text, mem, same_set, keys}
use ai_protocol.Release.Version.{names}

-- An entry of a directory.
pub record Entry : Type 0 where
  pub name : Text
  pub is_file : Bool
  pub content : List ℕ

abbrev pub entry_names : List Entry → List Text
entry_names entries = map (λ e. e.name) entries

-- `directory / name`, read as bytes; a file that is not there raises `OSError`.
abbrev pub read_bytes : List Entry → Text → Result (List ℕ)
read_bytes entries n = elim (first (λ e. eq_text e.name n && e.is_file) entries) [
  | none ↦ err os_error
  | some e ↦ ok e.content
]

-- `verification.json`: the entries that the code reads, absent where the key is.
pub record Report : Type 0 where
  pub source_commit : Option Text
  pub version : Option Text
  pub working_tree_dirty : Option Bool
  pub sha256 : List (Text × Text)

abbrev pub is_text : Option Text → Text → Bool
is_text none t = false
is_text (some s) t = eq_text s t

-- `x is not False`, negated
abbrev pub is_false : Option Bool → Bool
is_false (some b) = not b
is_false none = false

abbrev pub report_name : Text
report_name = codes "verification.json"

abbrev pub sums_name : Text
sums_name = codes "SHA256SUMS"

-- `[a-f0-9]{64}`
abbrev pub is_hex : ℕ → Bool
is_hex c = is_digit c || leb b'a' c && leb c b'f'

abbrev pub times : ℕ → Regex → Regex
times zero r = epsilon
times (suc n) r = seq r (times n r)

unfoldable pub checksum_pattern : Regex
checksum_pattern = times 64 (chars is_hex)

-- `line.split("  ", 1)`, which must have two parts.
abbrev pub split_line : Text → Text → Result (Text × Text)
split_line done [] = err (value_error "not enough values to unpack")
split_line done (c ∷ []) = err (value_error "not enough values to unpack")
split_line done (c ∷ d ∷ s) =
    let rest = split_line (done ++ c ∷ []) (d ∷ s) in
    if c == b' ' && d == b' ' then ok (done, s) else rest

-- The three tests on the layout, the report and the sums.
unfoldable pub bad_layout : List Entry → Text → Bool
bad_layout entries version =
    not (
      same_set (entry_names (keep (λ e. e.is_file) entries))
        (report_name ∷ sums_name ∷ names version))
    || any (λ e. not e.is_file) entries

unfoldable pub bad_report : Text → Text → Report → Bool
bad_report version commit report =
    not (is_text report.source_commit commit)
    || not (is_text report.version version)
    || not (is_false report.working_tree_dirty)
    || not (same_set (keys report.sha256) (names version))

unfoldable pub bad_sums : Text → List (Text × Text) → Bool
bad_sums version sums = not (same_set (keys sums) (report_name ∷ names version))

module _ (sha256 : List ℕ → Text) (parse : List ℕ → Result Report)
    (lines : List ℕ → List Text) where
  -- `digest(directory / name)`
  unfoldable pub digest : List Entry → Text → Result Text
  digest entries n = do content ← read_bytes entries n; ok (sha256 content)

  -- The loop over the checksums of the report.
  unfoldable pub check_report : List Entry → List (Text × Text) → Result (Unit {0})
  check_report entries [] = ok tt
  check_report entries ((n, checksum) ∷ rest) =
      let others = check_report entries rest in
      (require (fullmatch checksum_pattern checksum) (value_error "Artifact checksum mismatch")
        >> (digest entries n >>= λ d.
            (raise_if (not (eq_text d checksum)) (value_error "Artifact checksum mismatch")
              >> others)))

  -- The loop over the lines of `SHA256SUMS`, with the sums so far.
  unfoldable pub read_sums : List (Text × Text) → List Text → Result (List (Text × Text))
  read_sums sums [] = ok sums
  read_sums sums (l ∷ rest) = split_line [] l >>= λ parts.
      (raise_if (mem parts.1 (keys sums)) (value_error "Duplicate checksum entry")
        >> read_sums ((parts.1, parts.0) ∷ sums) rest)

  -- `any(digest(directory / name) != checksum for name, checksum in sums.items())`
  unfoldable pub check_sums : List Entry → List (Text × Text) → Result (Unit {0})
  check_sums entries [] = ok tt
  check_sums entries ((n, checksum) ∷ rest) =
      let others = check_sums entries rest in
      (digest entries n >>= λ d.
      (raise_if (not (eq_text d checksum))
          (value_error "Release checksum file does not match the bundle")
        >> others))

  -- `json.loads((directory / "verification.json").read_text())`
  unfoldable pub read_report : List Entry → Result Report
  read_report entries = do raw ← read_bytes entries report_name; parse raw

  -- The sums of the file `SHA256SUMS`.
  unfoldable pub read_sums_file : List Entry → Result (List (Text × Text))
  read_sums_file entries = do text ← read_bytes entries sums_name; read_sums [] (lines text)

  unfoldable pub validate_bundle : List Entry → Text → Text → Result (List (Text × Text))
  validate_bundle entries version commit = do
    raise_if (bad_layout entries version) (
        value_error "Release bundle must contain only the three packages, report and checksum file")
    report ← read_report entries
    raise_if (bad_report version commit report)
        (value_error "Artifact report must match this clean source and package version")
    check_report entries report.sha256
    sums ← read_sums_file entries
    raise_if (bad_sums version sums)
        (value_error "SHA256SUMS must cover exactly the packages and verification report")
    check_sums entries sums
    ok report.sha256
