-- ===== src/Release/Version.antt =====
-- `version_for` and `names` (scripts/release.py).
use ai_protocol.Base.{
  leb, ◌≡◌, sym, ◌∙◌, ◌↔◌, Bool, true, not, ◌&&◌, ◌||◌, List, [], ◌∷◌, ◌++◌, arith,
}
use ai_protocol.Base.Lists.{drop}
use ai_protocol.Base.Text.{codes, is_digit}
use ai_protocol.Result.{Exception, value_error, Result, ok, ◌>>◌, raise_if, require}
use ai_protocol.Regex.{Regex, chars, seq, alt, star, char, fullmatch}
use ai_protocol.Regex.Language.{Matches, fullmatch_iff}
use ai_protocol.Release.Name.{Text, eq_text, eq_text_iff}

-- `(0|[1-9][0-9]*)`
abbrev pub number_pattern : Regex
number_pattern =
    alt (char b'0') (seq (chars (λ c. leb b'1' c && leb c b'9')) (star (chars is_digit)))

-- `v(0|[1-9][0-9]*)\.(0|[1-9][0-9]*)\.(0|[1-9][0-9]*)`
abbrev pub tag_pattern : Regex
tag_pattern =
    seq (char b'v')
      (seq number_pattern (seq (char b'.') (seq number_pattern (seq (char b'.') number_pattern))))

-- The name and version of a package, in Cargo.toml or pyproject.toml.
pub record Package : Type 0 where
  pub name : Text
  pub version : Text

-- `tag[1:]`
abbrev pub version_of : Text → Text
version_of tag = drop 1 tag

unfoldable pub version_for : Text → Package → Package → Result Text
version_for tag cargo python = do
  require (fullmatch tag_pattern tag) (value_error "Use a stable release tag vMAJOR.MINOR.PATCH")
  raise_if
      (not (eq_text cargo.name (codes "ai-protocol"))
        || not (eq_text python.name (codes "ai-protocol-client"))
        || not (eq_text cargo.version (version_of tag))
        || not (eq_text python.version (version_of tag)))
      (value_error "Tag and both package names/versions must match")
  ok (version_of tag)

abbrev pub crate_name : Text → Text
crate_name version = codes "ai-protocol-" ++ (version ++ codes ".crate")

abbrev pub sdist_name : Text → Text
sdist_name version = codes "ai_protocol_client-" ++ (version ++ codes ".tar.gz")

abbrev pub wheel_name : Text → Text
wheel_name version = codes "ai_protocol_client-" ++ (version ++ codes "-py3-none-any.whl")

abbrev pub names : Text → List Text
names version = crate_name version ∷ sdist_name version ∷ wheel_name version ∷ []

-- The tag is `v`, the version that both packages carry, and nothing else; the version is three
-- decimal numbers between dots; and the packages are the expected ones.
pub record IsRelease (tag : Text) (cargo python : Package) (version : Text) : Type 0 where
  pub tagged : Matches tag_pattern tag
  pub versioned : version ≡ version_of tag
  pub crate : cargo.name ≡ codes "ai-protocol"
  pub project : python.name ≡ codes "ai-protocol-client"
  pub crate_version : cargo.version ≡ version
  pub project_version : python.version ≡ version

-- The two guards.
guarded :
    (m a b c d : Bool) (e f : Exception) (v w : Text)
    → ((require m e >> (raise_if (not a || not b || not c || not d) f >> ok v)) ≡ ok w)
      ↔ ((m ≡ true) × (a ≡ true) × (b ≡ true) × (c ≡ true) × (d ≡ true) × (v ≡ w))
guarded m a b c d e f v w = (λ h. ground arith, λ h. ground arith)

-- `version_for` returns a version exactly for a stable tag that names the version of both packages.
pub version_for_iff :
    (tag : Text) (cargo python : Package) (version : Text)
    → (version_for tag cargo python ≡ ok version) ↔ IsRelease tag cargo python version
unfolding version_for
version_for_iff tag cargo python version = (accepted, accepts)
  where
    tags : (fullmatch tag_pattern tag ≡ true) ↔ Matches tag_pattern tag
    tags = fullmatch_iff tag_pattern tag

    a : (eq_text cargo.name (codes "ai-protocol") ≡ true) ↔ (cargo.name ≡ codes "ai-protocol")
    a = eq_text_iff cargo.name (codes "ai-protocol")

    b :
        (eq_text python.name (codes "ai-protocol-client") ≡ true)
        ↔ (python.name ≡ codes "ai-protocol-client")
    b = eq_text_iff python.name (codes "ai-protocol-client")

    c : (eq_text cargo.version (version_of tag) ≡ true) ↔ (cargo.version ≡ version_of tag)
    c = eq_text_iff cargo.version (version_of tag)

    d : (eq_text python.version (version_of tag) ≡ true) ↔ (python.version ≡ version_of tag)
    d = eq_text_iff python.version (version_of tag)

    accepted : version_for tag cargo python ≡ ok version → IsRelease tag cargo python version
    accepted h =
        let (m, p, q, r, s, same) = (guarded _ _ _ _ _ _ _ (version_of tag) version).0 h in
        record {
          tagged = tags.0 m;
          versioned = sym same;
          crate = a.0 p;
          project = b.0 q;
          crate_version = c.0 r ∙ same;
          project_version = d.0 s ∙ same;
        }

    accepts : IsRelease tag cargo python version → version_for tag cargo python ≡ ok version
    accepts v = (guarded _ _ _ _ _ _ _ (version_of tag) version).1 (
      tags.1 v.tagged,
      a.1 v.crate,
      b.1 v.project,
      c.1 (v.crate_version ∙ v.versioned),
      d.1 (v.project_version ∙ v.versioned),
      sym v.versioned,
    )
