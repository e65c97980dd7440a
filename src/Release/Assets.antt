-- ===== src/Release/Assets.antt =====
-- `prepare` and `attach_assets` (scripts/release.py): the files of a GitHub release are completed,
-- and never replaced.
use mathlib.Core.Path.{subst}
use ai_protocol.Base.{
  if◌then◌else◌, Bool-cases, ◌≡◌, inl, inr, Bool, true, false, not, List, [], ◌∷◌, ◌++◌, arith,
}
use ai_protocol.Base.Lists.{any, keep, All}
use ai_protocol.Result.{Exception, value_error, Result, ok, err, ◌>>◌, raise_if}
use ai_protocol.Release.Name.{Text, eq_text, eq_text_iff, mem, same_set, keys}
use ai_protocol.Release.Version.{names}
use ai_protocol.Release.Bundle.{report_name, sums_name}

-- The bundle that `prepare` validates is the one of the release, or the one that was built.
pub data Plan : Type 0 where
  download : List Text → Plan
  copy_built : List Text → Plan

abbrev pub wanted : Text → List Text
wanted version = report_name ∷ sums_name ∷ names version

-- `if present: …`
abbrev pub plan_for : Text → List Text → Result Plan
plan_for version [] = ok (copy_built (names version ++ report_name ∷ []))
plan_for version (n ∷ present) =
    if not (same_set (n ∷ present) (wanted version))
    then err (
        value_error "Incomplete release assets: rerun the failed publish job from its original run")
    else ok (download (wanted version))

-- `prepare`, with `present = wanted.intersection(…)`.
unfoldable pub prepare : Text → List Text → Result Plan
prepare version assets = plan_for version (keep (λ n. mem n assets) (wanted version))

-- `any(digest(temporary / name) != digest(directory / name) for name in present)`
abbrev pub differs : (Text → Text) → Text × Text → Bool
differs remote (n, checksum) = not (eq_text (remote n) checksum)

-- `attach_assets`, given the names of the release's assets, the checksum of each, and the files of
-- the directory in order with theirs; the result is what is uploaded.
unfoldable pub attach_assets : List Text → (Text → Text) → List (Text × Text) → Result (List Text)
attach_assets existing remote directory = do
  raise_if (any (differs remote) (keep (λ f. mem f.0 existing) directory))
      (value_error "Existing GitHub assets differ; never overwrite a release bundle")
  ok (keys (keep (λ f. not (mem f.0 existing)) directory))

same_bytes :
    (remote : Text → Text) (files : List (Text × Text))
    → any (differs remote) files ≡ false
    → All (λ f. remote f.0 ≡ f.1) files
same_bytes remote [] h = tt
same_bytes remote ((n, checksum) ∷ rest) h =
    let same : eq_text (remote n) checksum ≡ true = ground arith in
    ((eq_text_iff (remote n) checksum).0 same, same_bytes remote rest (ground arith))

uploads_new :
    (existing : List Text) (directory : List (Text × Text))
    → All (λ n. mem n existing ≡ false) (keys (keep (λ f. not (mem f.0 existing)) directory))
uploads_new existing [] = tt
uploads_new existing ((n, checksum) ∷ rest) = elim (Bool-cases (mem n existing)) [
  | inl old ↦ rw old (uploads_new existing rest)
  | inr new ↦ rw new (new, uploads_new existing rest)
]

-- What is uploaded was not there before, and every file that was there before has the same checksum.
pub attach_assets-keeps :
    (existing : List Text) (remote : Text → Text) (directory : List (Text × Text))
    (uploads : List Text)
    → attach_assets existing remote directory ≡ ok uploads
    → All (λ f. remote f.0 ≡ f.1) (keep (λ f. mem f.0 existing) directory)
      × All (λ n. mem n existing ≡ false) uploads
unfolding attach_assets
attach_assets-keeps existing remote directory uploads h =
    let test = any (differs remote) (keep (λ f. mem f.0 existing) directory) in
    let (no_difference, listed) =
      passed test _ (keys (keep (λ f. not (mem f.0 existing)) directory)) uploads h in
    (
      same_bytes remote (keep (λ f. mem f.0 existing) directory) no_difference,
      subst (All (λ n. mem n existing ≡ false)) listed (uploads_new existing directory),
    )
  where
    passed :
        (b : Bool) (e : Exception) (xs ys : List Text)
        → (raise_if b e >> ok xs) ≡ ok ys
        → (b ≡ false) × (xs ≡ ys)
    passed b e xs ys h = ground arith
