-- ===== src/Release/Order.antt =====
-- The order of the effects of `publish`, and what it uploads.
use ai_protocol.Base.{
  Option-cases, ℕ, zero, suc, ◌+◌, ◌≤◌, ◌<◌, ◌≡◌, refl, ap, ◌∙◌, inl, inr, Bool, true, false,
  Option, none, some, List, [], ◌∷◌, arith,
}
use ai_protocol.Base.Lists.{first, count}
use ai_protocol.Result.{Result, ok, err, Result-cases}
use ai_protocol.Release.Name.{Text, eq_text_iff, find}
use ai_protocol.Release.Version.{crate_name}
use ai_protocol.Release.Bundle.{Report}
use ai_protocol.Release.Source.{PublishedRelease}
use ai_protocol.Release.Notes.{edit_notes}
use ai_protocol.Release.Registry.{Crate, CrateAgrees, registry_state-agrees}
use ai_protocol.Release.Publish.{
  Effect, asset_uploaded, crate_published, python_uploaded, slept, Outside, source_of, release_of,
  start_mark, end_mark, publication_block, upload_assets, query, publish_crate, upload_python,
  wait_visible, finish_notes, publish_all, publish_uploads, publish_state, publish_from, files_of,
  validated_of, publish_source, publish,
}

abbrev pub is_crate : Effect → Bool
is_crate crate_published = true
is_crate e = false

-- An upload to a registry.
abbrev pub is_publication : Effect → Bool
is_publication crate_published = true
is_publication (python_uploaded missing) = true
is_publication e = false

abbrev pub publications : List Effect → ℕ
publications = count is_publication

-- No asset is attached after an upload to a registry.
abbrev pub AssetsFirst : List Effect → Type 0
AssetsFirst [] = Unit
AssetsFirst (asset_uploaded n ∷ t) = (publications t ≡ 0) × AssetsFirst t
AssetsFirst (e ∷ t) = AssetsFirst t

upload_assets-AssetsFirst :
    (uploads : List Text) (t : List Effect)
    → AssetsFirst t
    → publications t ≡ 0
    → count is_crate t ≡ 0
    → (AssetsFirst (upload_assets uploads t).1)
      × (count is_crate (upload_assets uploads t).1 ≡ 0)
      × ((upload_assets uploads t).0 ≡ ok tt)
unfolding upload_assets
upload_assets-AssetsFirst [] t h p c = (h, c, refl)
upload_assets-AssetsFirst (n ∷ rest) t h p c =
    upload_assets-AssetsFirst rest (asset_uploaded n ∷ t) (p, h) p c

module _ (outside : Outside) (version commit : Text) where
  wait_visible-adds :
      (checksums : List (Text × Text)) (k left : ℕ) (t : List Effect)
      → AssetsFirst t
      → let t' = (wait_visible outside version commit checksums k left t).1 in
        AssetsFirst t' × (count is_crate t' ≡ count is_crate t)
  unfolding wait_visible
  wait_visible-adds checksums k zero t h = (h, refl)
  wait_visible-adds checksums k (suc left) t h =
      ground (arith, wait_visible-adds checksums (k + 1) left (slept 5 ∷ t))

  -- The crate is published only where the registry lacks it, and with the expected bytes.
  publish_crate-adds :
      (checksums : List (Text × Text)) (exists : Bool) (t : List Effect)
      → AssetsFirst t
      → let t' = (publish_crate outside version commit checksums exists t).1 in
        AssetsFirst t'
        × (count is_crate t' ≤ count is_crate t + 1)
        × (count is_crate t < count is_crate t'
            → (exists ≡ false) × (find (crate_name version) checksums ≡ some outside.packaged))
  unfolding publish_crate
  publish_crate-adds checksums true t h = (h, omega arith, λ l. absurd (omega arith))
  publish_crate-adds checksums false t h =
      elim (Option-cases (find (crate_name version) checksums)) [
        | inl absent ↦ ground arith
        | inr (expected, e) ↦ ground (arith, eq_text_iff outside.packaged expected)
      ]

  upload_python-adds :
      (missing : List Text) (t : List Effect)
      → AssetsFirst t
      → let t' = (upload_python outside version commit missing t).1 in
        AssetsFirst t' × (count is_crate t' ≡ count is_crate t)
  unfolding upload_python
  upload_python-adds [] t h = (h, refl)
  upload_python-adds (n ∷ missing) t h = (h, refl)

  finish_notes-adds :
      (t : List Effect)
      → AssetsFirst t
      → let t' = (finish_notes outside version commit t).1 in
        AssetsFirst t' × (count is_crate t' ≡ count is_crate t)
  unfolding finish_notes
  finish_notes-adds t h = elim (Result-cases (release_of outside.later outside.tag commit)) [
    | inr (e, q) ↦ rw q (h, refl)
    | inl (found, q) ↦ elim (Option-cases outside.run_id) [
      | inl absent ↦ rw q (rw absent (h, refl))
      | inr (run, present) ↦
          elim (Result-cases
            (edit_notes start_mark end_mark (publication_block version commit run) found.body)) [
              | inr (e, q') ↦ rw q (rw present (rw q' (h, refl)))
              | inl (text, q') ↦ rw q (rw present (rw q' (h, refl)))
            ]
    ]
  ]

  -- What `publish_all` keeps of the order and of the crate.
  abbrev Kept : List (Text × Text) → Bool → List Effect → Type 0
  Kept checksums exists t =
      AssetsFirst t
      × (count is_crate t ≤ 1)
      × (0 < count is_crate t
          → (exists ≡ false) × (find (crate_name version) checksums ≡ some outside.packaged))

  publish_all-Kept :
      (checksums : List (Text × Text)) (state : Bool × List Text) (uploads : List Text)
      → Kept checksums state.0 (publish_all outside version commit checksums state uploads []).1
  unfolding publish_all
  publish_all-Kept checksums state uploads =
      let t₁ = (upload_assets uploads []).1 in
      let t₂ = (publish_crate outside version commit checksums state.0 t₁).1 in
      let t₃ = (upload_python outside version commit state.1 t₂).1 in
      ground (
        arith,
        upload_assets-AssetsFirst uploads [] tt refl refl,
        publish_crate-adds checksums state.0 t₁,
        upload_python-adds state.1 t₂,
        wait_visible-adds checksums 1 12 t₃,
        finish_notes-adds (wait_visible outside version commit checksums 1 12 t₃).1,
      )

-- What `source_info`, `validate_bundle` and the first `release_info` returned.
pub record Accepted (sha256 : List ℕ → Text) (parse : List ℕ → Result Report) (outside : Outside)
    (version commit : Text) (checksums : List (Text × Text)) : Type 0 where
  pub source : source_of outside ≡ ok (version, commit)
  pub bundle : validated_of sha256 parse outside version commit ≡ ok checksums
  pub released :
      (release : PublishedRelease) × (release_of outside.before outside.tag commit ≡ ok release)

module _ (sha256 : List ℕ → Text) (parse : List ℕ → Result Report) (outside : Outside) where
  -- What stands before a crate that is published.
  abbrev pub Permits : Type 0
  Permits =
      (version : Text) × (commit : Text) × (checksums : List (Text × Text)) × Accepted sha256 parse
        outside version commit checksums
      × (outside.crates 0 ≡ none)
      × (find (crate_name version) checksums ≡ some outside.packaged)

  -- What `publish` keeps.
  abbrev pub Respects : List Effect → Type 0
  Respects t = AssetsFirst t × (count is_crate t ≤ 1) × (0 < count is_crate t → Permits)

  Respects-none : Respects []
  Respects-none = (tt, omega arith, λ h. elim h [ ])

  -- No crate, where the first query finds none.
  no_crate :
      (version : Text) (checksums : List (Text × Text)) (c : Option Crate)
      → CrateAgrees version checksums c false
      → c ≡ none
  no_crate version checksums none h = refl
  no_crate version checksums (some c) h = cc

  lacks_crate :
      (version commit : Text) (checksums : List (Text × Text)) (missing : List Text)
      → query outside version commit checksums 0 ≡ ok (false, missing)
      → outside.crates 0 ≡ none
  lacks_crate version commit checksums missing q =
      no_crate version checksums (outside.crates 0)
        (registry_state-agrees version checksums (outside.crates 0) (outside.projects 0) false
          missing q).0

  Kept-Respects :
      (version commit : Text) (checksums : List (Text × Text)) (state : Bool × List Text)
      (t : List Effect)
      → Accepted sha256 parse outside version commit checksums
      → query outside version commit checksums 0 ≡ ok state
      → Kept outside version commit checksums state.0 t
      → Respects t
  Kept-Respects version commit checksums (exists, missing) t c q (first, once, right) = (
    first,
    once,
    λ h.
        let (lacks, bytes) = right h in
        let found : query outside version commit checksums 0 ≡ ok (false, missing) =
          q ∙ ap (λ (b : Bool). ok (b, missing)) lacks in
        (version, commit, checksums, c, lacks_crate version commit checksums missing found, bytes),
  )

  uploads-Respects :
      (version commit : Text) (checksums : List (Text × Text)) (state : Bool × List Text)
      (uploads : Result (List Text))
      → Accepted sha256 parse outside version commit checksums
      → query outside version commit checksums 0 ≡ ok state
      → Respects (publish_uploads outside version commit checksums state uploads []).1
  uploads-Respects version commit checksums state (err e) c q = Respects-none
  uploads-Respects version commit checksums state (ok uploads) c q =
      Kept-Respects version commit checksums state
        (publish_all outside version commit checksums state uploads []).1 c q
        (publish_all-Kept outside version commit checksums state uploads)

  state-Respects :
      (version commit : Text) (checksums : List (Text × Text)) (existing : List Text)
      (state : Result (Bool × List Text))
      → Accepted sha256 parse outside version commit checksums
      → query outside version commit checksums 0 ≡ state
      → Respects
          (publish_state outside version commit
            (files_of sha256 parse outside)
            checksums
            existing
            state
            []).1
  state-Respects version commit checksums existing (err e) c q = Respects-none
  state-Respects version commit checksums existing (ok state) c q =
      uploads-Respects version commit checksums state _ c q

  from-Respects :
      (version commit : Text) (bundle : Result (List (Text × Text)))
      (release : Result PublishedRelease) (secrets : Bool)
      → source_of outside ≡ ok (version, commit)
      → validated_of sha256 parse outside version commit ≡ bundle
      → release_of outside.before outside.tag commit ≡ release
      → Respects
          (publish_from outside version commit
            (files_of sha256 parse outside)
            bundle
            release
            secrets
            []).1
  from-Respects version commit (err e) release secrets s b r = Respects-none
  from-Respects version commit (ok checksums) (err e) secrets s b r = Respects-none
  from-Respects version commit (ok checksums) (ok found) false s b r = Respects-none
  from-Respects version commit (ok checksums) (ok found) true s b r =
      state-Respects version commit checksums found.assets
        (query outside version commit checksums 0)
        (record { source = s; bundle = b; released = (found, r) }) refl

  source-Respects :
      (info : Result (Text × Text))
      → source_of outside ≡ info
      → Respects (publish_source sha256 parse outside info []).1
  source-Respects (err e) s = Respects-none
  source-Respects (ok (version, commit)) s =
      from-Respects version commit _ _ outside.has_secrets s refl refl

  publish-Respects : Respects (publish sha256 parse outside []).1
  unfolding publish
  publish-Respects = source-Respects (source_of outside) refl

  -- However it ends, `publish` attaches no asset after an upload to a registry, and publishes the
  -- crate once at most.
  pub publish-AssetsFirst :
      let t = (publish sha256 parse outside []).1 in AssetsFirst t × (count is_crate t ≤ 1)
  publish-AssetsFirst = let (first, once, right) = publish-Respects in (first, once)

  -- If the crate is published, even if `publish` fails afterwards, then `source_info`,
  -- `validate_bundle` and `release_info` all returned, for the same version and commit; crates.io did
  -- not hold the crate at the first query; and the checksum of what Cargo uploads is the one that
  -- `validate_bundle` returned for the crate.
  pub publish-crate : 0 < count is_crate (publish sha256 parse outside []).1 → Permits
  publish-crate h = let (first, once, right) = publish-Respects in right h
