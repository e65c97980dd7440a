-- ===== src/Release/Publish.antt =====
-- `publish` (scripts/release.py): the uploads of one release, in order. What git, the registries,
-- GitHub and the packaging tools answer are arguments.
use ai_protocol.Base.{
  ◌==◌, if◌then◌else◌, ℕ, zero, suc, ◌+◌, Bool, true, false, not, Option, none, some, List, [], ◌∷◌,
  ◌++◌, map,
}
use ai_protocol.Base.Lines.{split_lines}
use ai_protocol.Result.{Result, ok, err, value_error, key_error, raise_if, require}
use ai_protocol.World.{Action, pure, raise, lift, ◌>>=◌, ◌>>◌}
use ai_protocol.Release.Name.{Text, eq_text, item}
use ai_protocol.Release.Version.{Package, crate_name}
use ai_protocol.Release.Bundle.{Entry, Report, validate_bundle}
use ai_protocol.Release.Source.{source_info, Reference, PublishedRelease, release_info}
use ai_protocol.Base.Text.{codes}
use ai_protocol.Release.Notes.{edit_notes}
use ai_protocol.Release.Assets.{attach_assets}
use ai_protocol.Release.Registry.{Crate, Project, registry_state}

-- What is done to the outside.
pub data Effect : Type 0 where
  asset_uploaded : Text → Effect
  crate_published : Effect
  python_uploaded : List Text → Effect
  slept : ℕ → Effect
  notes_edited : Text → Effect

-- What GitHub answers about the release and its tag at one time.
pub record GitHub : Type 0 where
  pub release : PublishedRelease
  pub ref : Reference
  pub lookup : Text → Reference

-- What `publish` is called with, and the answers from outside: the two manifests and git; GitHub
-- before and after the uploads; the directory of the bundle, in the order of
-- `sorted(directory.iterdir())`; the checksums of the assets that the release holds; both registries
-- at the k-th query; and the checksum of the crate that Cargo packages.
pub record Outside : Type 0 where
  pub tag : Text
  pub cargo : Package
  pub python : Package
  pub status : Text
  pub head : Text
  pub before : GitHub
  pub later : GitHub
  pub directory : List Entry
  pub remote : Text → Text
  pub has_secrets : Bool
  pub crates : ℕ → Option Crate
  pub projects : ℕ → Option Project
  pub packaged : Text
  pub run_id : Option Text

-- `source_info(source, tag)` and `release_info(tag, commit)`
abbrev pub source_of : Outside → Result (Text × Text)
source_of outside = source_info outside.tag outside.cargo outside.python outside.status outside.head

abbrev pub release_of : GitHub → Text → Text → Result PublishedRelease
release_of github tag commit = release_info github.lookup github.ref github.release tag commit

abbrev pub start_mark : Text
start_mark = codes "<!-- ai-protocol-publication:start -->"

abbrev pub end_mark : Text
end_mark = codes "<!-- ai-protocol-publication:end -->"

abbrev pub repository : Text
repository = codes "Xenox-developer/ai-protocol"

-- `block`, with the identifier of the workflow run.
unfoldable pub publication_block : Text → Text → Text → Text
publication_block version commit run_id =
    start_mark
    ++ (codes "\n## Automated registry publication\n\nPublished and verified: [crates.io "
        ++ (version
            ++ (codes "](https://crates.io/crates/ai-protocol/"
                ++ (version
                    ++ (codes ") and [PyPI "
                        ++ (version
                            ++ (codes "](https://pypi.org/project/ai-protocol-client/"
                                ++ (version
                                    ++ (codes
                                          "/).\n\nRegistry checksums match the tested release assets. Source: `"
                                        ++ (commit
                                            ++ (codes "`. [Workflow run](https://github.com/"
                                                ++ (repository
                                                    ++ (codes "/actions/runs/"
                                                        ++ (run_id
                                                            ++ (codes ").\n"
                                                            ++ end_mark)))))))))))))))

-- The effects so far, the newest first.
abbrev pub Publishing : Type 0 → Type 0
Publishing A = Action (List Effect) A

abbrev pub emit : Effect → Publishing (Unit {0})
emit e t = (ok tt, e ∷ t)

unfoldable pub upload_assets : List Text → Publishing (Unit {0})
upload_assets [] t = (ok tt, t)
upload_assets (n ∷ rest) t = upload_assets rest (asset_uploaded n ∷ t)

module _ (outside : Outside) (version commit : Text) where
  abbrev pub query : List (Text × Text) → ℕ → Result (Bool × List Text)
  query checksums k = registry_state version checksums (outside.crates k) (outside.projects k)

  unfoldable pub publish_crate : List (Text × Text) → Bool → Publishing (Unit {0})
  publish_crate checksums true = pure tt
  publish_crate checksums false = do
    expected ← lift (item (crate_name version) checksums)
    lift (
        raise_if (not (eq_text outside.packaged expected))
          (value_error "Cargo would upload a different crate than the tested artifact"))
    emit crate_published

  unfoldable pub upload_python : List Text → Publishing (Unit {0})
  upload_python [] = pure tt
  upload_python (n ∷ missing) = emit (python_uploaded (n ∷ missing))

  -- `rust_exists and not python_missing`
  abbrev pub is_visible : Bool × List Text → Bool
  is_visible (true, []) = true
  is_visible state = false

  -- The loop `for attempt in range(12)`, with the iterations left and the queries made.
  unfoldable pub wait_visible : List (Text × Text) → ℕ → ℕ → Publishing (Unit {0})
  wait_visible checksums k zero = pure tt
  wait_visible checksums k (suc left) = do
    state ← lift (query checksums k)
    (let again = wait_visible checksums (k + 1) left in
        if is_visible state
        then pure tt
        else if left == 0
        then raise (
            value_error
              "Registry visibility timed out; retry this publish job with the same artifacts")
        else (emit (slept 5) >> again))

  -- The end: the release is read again, and its notes get the block on the publication.
  unfoldable pub finish_notes : Publishing (Unit {0})
  finish_notes = do
    found ← lift (release_of outside.later outside.tag commit)
    run ← lift (elim outside.run_id [ none ↦ err key_error | some r ↦ ok r ])
    text ← lift (edit_notes start_mark end_mark (publication_block version commit run) found.body)
    emit (notes_edited text)

  -- `publish`, from the assets on.
  unfoldable pub publish_all :
      List (Text × Text) → Bool × List Text → List Text → Publishing (Unit {0})
  publish_all checksums state uploads = do
    upload_assets uploads
    publish_crate checksums state.0
    upload_python state.1
    wait_visible checksums 1 12
    finish_notes

  -- `publish`, by how its parts end: the uploads to make, and the registries.
  abbrev pub publish_uploads :
      List (Text × Text) → Bool × List Text → Result (List Text) → Publishing (Unit {0})
  publish_uploads checksums state uploads = do publish_all checksums state (← lift uploads)

  abbrev pub publish_state :
      List (Text × Text)
      → List (Text × Text)
      → List Text
      → Result (Bool × List Text)
      → Publishing (Unit {0})
  publish_state files checksums existing state = do
    found ← lift state
    publish_uploads checksums found (attach_assets existing outside.remote files)

  -- `publish`, from the result of `validate_bundle` on.
  abbrev pub publish_from :
      List (Text × Text)
      → Result (List (Text × Text))
      → Result PublishedRelease
      → Bool
      → Publishing (Unit {0})
  publish_from files bundle release secrets = do
    checksums ← lift bundle
    found ← lift release
    lift (require secrets (value_error "Both registry environment secrets must be configured"))
    publish_state files checksums found.assets (query checksums 0)

module _ (sha256 : List ℕ → Text) (parse : List ℕ → Result Report) (outside : Outside) where
  -- The files of the directory, with their checksums.
  abbrev pub files_of : List (Text × Text)
  files_of = map (λ e. (e.name, sha256 e.content)) outside.directory

  abbrev pub validated_of : Text → Text → Result (List (Text × Text))
  validated_of version commit =
      validate_bundle sha256 parse split_lines outside.directory version commit

  -- `publish`, from the result of `source_info` on.
  abbrev pub publish_source : Result (Text × Text) → Publishing (Unit {0})
  publish_source info = do
    source ← lift info
    publish_from outside source.0 source.1 files_of (validated_of source.0 source.1)
        (release_of outside.before outside.tag source.1) outside.has_secrets

  unfoldable pub publish : Publishing (Unit {0})
  publish = publish_source (source_of outside)
