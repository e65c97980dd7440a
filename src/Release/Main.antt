-- ===== src/Release/Main.antt =====
-- `main` (scripts/release.py): the four actions, with all their paths given.
use ai_protocol.Base.{if◌then◌else◌, ℕ, Bool, List, [], ◌∷◌, ◌++◌}
use ai_protocol.Base.Text.{codes}
use ai_protocol.Result.{Result, ok, err, value_error, require, ◌>>=◌}
use ai_protocol.Regex.{fullmatch}
use ai_protocol.Release.Name.{Text}
use ai_protocol.Release.Version.{tag_pattern}
use ai_protocol.Release.Bundle.{Entry, Report}
use ai_protocol.Release.Source.{PublishedRelease}
use ai_protocol.Release.Prepare.{prepare_bundle}
use ai_protocol.Release.Publish.{Effect, Outside, publish, source_of, release_of}

-- The choices of `action`.
pub data Choice : Type 0 where
  tag_only : Choice
  validate : Choice
  prepare_files : Choice
  publish_all_files : Choice

-- What the actions read: the manifests, git, GitHub and what `publish` meets; and for `prepare` what
-- a download brings, and the directory that was built.
pub record Inputs : Type 0 where
  pub outside : Outside
  pub has_output_file : Bool
  pub fetch : List Text → Result (List Entry)
  pub built : List Entry

-- What they leave: the text that is added to `GITHUB_OUTPUT`, the destination of `prepare`, and the
-- effects of `publish`, the newest first.
pub record Left : Type 0 where
  pub added : Text
  pub destination : List Entry
  pub effects : List Effect

abbrev pub nothing_left : Left
nothing_left = record { added = []; destination = []; effects = [] }

-- `f"version={version}\ncommit={commit}\ntag={args.tag}\n"`
abbrev pub output_lines : Text → Text → Text → Text
output_lines version commit tag =
    codes "version="
    ++ (version
        ++ (10 ∷ (codes "commit=" ++ (commit ++ (10 ∷ (codes "tag=" ++ (tag ++ (10 ∷ []))))))))

module _ (sha256 : List ℕ → Text) (parse : List ℕ → Result Report) (i : Inputs) where
  abbrev pub source : Result (Text × Text)
  source = source_of i.outside

  abbrev pub released : Result PublishedRelease
  released = source >>= λ info. release_of i.outside.before i.outside.tag info.1

  abbrev pub validated : Result Left
  validated = do
    info ← source
    found ← released
    ok (record nothing_left {
      added = if i.has_output_file then output_lines info.0 info.1 i.outside.tag else [];
    })

  abbrev pub prepared : Result Left
  prepared = do
    destination ← prepare_bundle sha256 parse source released i.fetch i.built
    ok (record nothing_left { destination = destination })

  unfoldable pub main : Choice → Result (Unit {0}) × Left
  main tag_only = (
    require (fullmatch tag_pattern i.outside.tag)
        (value_error "Use a stable release tag vMAJOR.MINOR.PATCH"),
    nothing_left,
  )
  main validate = elim validated [ err e ↦ (err e, nothing_left) | ok left ↦ (ok tt, left) ]
  main prepare_files = elim prepared [ err e ↦ (err e, nothing_left) | ok left ↦ (ok tt, left) ]
  main publish_all_files =
      let (r, effects) = publish sha256 parse i.outside [] in
      (r, record nothing_left { effects = effects })
