-- ===== src/Release/Source.antt =====
-- `source_info` and `release_info` (scripts/release.py): what git and GitHub answer are arguments.
use ai_protocol.Base.{
  if◌then◌else◌, Bool-cases, ℕ, zero, suc, ◌≡◌, sym, inl, inr, Bool, true, false, not, ◌||◌, List,
  [], arith,
}
use ai_protocol.Result.{Exception, value_error, Result, ok, ◌>>=◌, ◌>>◌, raise_if, require}
use ai_protocol.Release.Name.{Text, eq_text, eq_text_iff}
use ai_protocol.Release.Version.{Package, version_for}

-- The version and the commit of a source whose `git status` and head are given.
unfoldable pub source_info : Text → Package → Package → Text → Text → Result (Text × Text)
source_info tag cargo python status head = do
  version ← version_for tag cargo python
  require (eq_text status []) (value_error "Release source must be clean")
  ok (version, head)

-- What a reference points to.
pub data Kind : Type 0 where
  tag_object : Kind
  commit_object : Kind
  other_object : Kind

pub record Reference : Type 0 where
  pub kind : Kind
  pub sha : Text

abbrev pub is_tag : Kind → Bool
is_tag tag_object = true
is_tag k = false

abbrev pub is_commit : Kind → Bool
is_commit commit_object = true
is_commit k = false

-- The loop `for _ in range(5)`, with the iterations left.
unfoldable pub dereference : (Text → Reference) → ℕ → Reference → Reference
dereference lookup zero ref = ref
dereference lookup (suc left) ref =
    let followed = dereference lookup left (lookup ref.sha) in
    if is_tag ref.kind then followed else ref

pub record PublishedRelease : Type 0 where
  pub tag_name : Text
  pub is_draft : Bool
  pub is_prerelease : Bool
  pub assets : List Text
  pub body : Text

unfoldable pub release_info :
    (Text → Reference) → Reference → PublishedRelease → Text → Text → Result PublishedRelease
release_info lookup ref release tag commit = do
  raise_if (not (eq_text release.tag_name tag) || release.is_draft || release.is_prerelease)
      (value_error "Publication requires a published, non-prerelease GitHub release")
  let final = dereference lookup 5 ref
  raise_if (not (is_commit final.kind) || not (eq_text final.sha commit))
      (value_error "The release tag no longer matches the checked source")
  ok release

-- The reference is a commit, at the end of at most so many tags.
pub data LeadsTo (lookup : Text → Reference) (commit : Text) : ℕ → Reference → Type 0 where
  arrived :
      {n : ℕ} {ref : Reference}
      → is_commit ref.kind ≡ true
      → ref.sha ≡ commit
      → LeadsTo lookup commit n ref
  by_tag :
      {n : ℕ} {ref : Reference}
      → is_tag ref.kind ≡ true
      → LeadsTo lookup commit n (lookup ref.sha)
      → LeadsTo lookup commit (suc n) ref

dereference-LeadsTo :
    (lookup : Text → Reference) (commit : Text) (n : ℕ) (ref : Reference)
    → is_commit (dereference lookup n ref).kind ≡ true
    → (dereference lookup n ref).sha ≡ commit
    → LeadsTo lookup commit n ref
unfolding dereference
dereference-LeadsTo lookup commit zero ref k s = arrived k s
dereference-LeadsTo lookup commit (suc n) ref k s = elim (Bool-cases (is_tag ref.kind)) [
  | inl tag ↦
      by_tag tag (dereference-LeadsTo lookup commit n (lookup ref.sha) (rw tag at k) (rw tag at s))
  | inr end ↦ arrived (rw end at k) (rw end at s)
]

two_guards :
    (a b c d e : Bool) (x y : Exception) (v w : PublishedRelease)
    → (raise_if (not a || b || c) x >> (raise_if (not d || not e) y >> ok v)) ≡ ok w
    → (a ≡ true) × (b ≡ false) × (c ≡ false) × (d ≡ true) × (e ≡ true) × (v ≡ w)
two_guards a b c d e x y v w h = ground arith

-- A release that is accepted is published under this tag, as neither draft nor prerelease, and the
-- tag leads to the checked commit by at most five tag objects.
pub release_info-LeadsTo :
    (lookup : Text → Reference) (ref : Reference) (release accepted : PublishedRelease)
    (tag commit : Text)
    → release_info lookup ref release tag commit ≡ ok accepted
    → (accepted ≡ release)
      × (release.tag_name ≡ tag)
      × (release.is_draft ≡ false)
      × (release.is_prerelease ≡ false)
      × LeadsTo lookup commit 5 ref
unfolding release_info
release_info-LeadsTo lookup ref release accepted tag commit h =
    let final = dereference lookup 5 ref in
    let (named, draft, early, kind, sha, same) =
      two_guards (eq_text release.tag_name tag) release.is_draft release.is_prerelease
        (is_commit final.kind) (eq_text final.sha commit) _ _ release accepted h in
    (
      sym same,
      (eq_text_iff release.tag_name tag).0 named,
      draft,
      early,
      dereference-LeadsTo lookup commit 5 ref kind ((eq_text_iff final.sha commit).0 sha),
    )
