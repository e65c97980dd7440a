-- ===== src/Checks/Docs/Links.antt =====
-- Which links pass the check of the documentation.
use ai_protocol.Base.{
  Bool-cases, ◌≡◌, refl, sym, ap, ◌∙◌, ◌↔◌, ◌⊎◌, inl, inr, Bool, true, false, List, [], ◌∷◌, ◌++◌,
  map, arith,
}
use ai_protocol.Base.Lists.{keep, All}
use ai_protocol.Result.{ok}
use ai_protocol.Regex.{fullmatch}
use ai_protocol.Regex.Language.{Matches, fullmatch_iff}
use ai_protocol.Release.Name.{Text, mem, mem-IsIn, IsIn-mem}
use ai_protocol.Checks.Docs.{
  Strings, slug_of, anchors, external_pattern, partition_hash, Files, path_of, is_named, verdict,
  with_source, report, fails, failures, main,
}
use ai_protocol.Checks.Docs.Anchors.{IsAnchor, anchors_iff}

keep_nothing :
    (p : Text → Bool) (P : Text → Type 0) (xs : List Text)
    → ((x : Text) → (p x ≡ false) ↔ P x)
    → (keep p xs ≡ []) ↔ All P xs
keep_nothing p P [] iff = (λ h. tt, λ h. refl)
keep_nothing p P (x ∷ xs) iff = elim (Bool-cases (p x)) [
  | inl fails' ↦ (
    λ h. let wrong : x ∷ keep p xs ≡ [] = rw fails' at h in cc,
    λ h. let both : true ≡ false = sym fails' ∙ (iff x).1 h.0 in cc,
  )
  | inr passes ↦
      let (to, from) = keep_nothing p P xs iff in
      (λ h. ((iff x).0 passes, to (rw passes at h)), λ h. rw passes (from h.1))
]

verdict_sound :
    (external exists anchored markdown known : Bool)
    → verdict external exists anchored markdown known ≡ false
    → (external ≡ true)
      ⊎ ((exists ≡ true) × ((anchored ≡ false) ⊎ (markdown ≡ false) ⊎ (known ≡ true)))
verdict_sound true exists anchored markdown known h = inl refl
verdict_sound false false anchored markdown known h = cc
verdict_sound false true false markdown known h = inr (refl, inl refl)
verdict_sound false true true false known h = inr (refl, inr (inl refl))
verdict_sound false true true true true h = inr (refl, inr (inr refl))
verdict_sound false true true true false h = cc

verdict_complete :
    (external exists anchored markdown known : Bool)
    → ((external ≡ true)
        ⊎ ((exists ≡ true) × ((anchored ≡ false) ⊎ (markdown ≡ false) ⊎ (known ≡ true))))
    → verdict external exists anchored markdown known ≡ false
verdict_complete external exists anchored markdown known h = ground arith

both_empty : {A : Type 0} (xs ys : List A) → xs ++ ys ≡ [] → (xs ≡ []) × (ys ≡ [])
both_empty [] ys h = (refl, h)
both_empty (x ∷ xs) ys h = cc

module _ (st : Strings) (files : Files) where
  -- A link that leads out of the repository; or to a file that exists, at no anchor, or not in a page,
  -- or at an anchor of the page.
  abbrev pub IsFine : Text → Text → Type 0
  IsFine source link =
      let (target, anchor) = partition_hash (files.unquote link) in
      let path = path_of files source target in
      Matches external_pattern link
      ⊎ ((files.exists path ≡ true)
          × ((anchor ≡ [])
              ⊎ (files.is_markdown path ≡ false)
              ⊎ IsAnchor st (map (slug_of st) (files.titles path)) anchor))

  is_named_iff : (s : Text) → (is_named s ≡ false) ↔ (s ≡ [])
  is_named_iff [] = (λ h. refl, λ h. refl)
  is_named_iff (c ∷ s) = (λ h. cc, λ h. cc)

  is_known_iff :
      (path anchor : Text)
      → (mem anchor (anchors st (files.titles path)) ≡ true)
        ↔ IsAnchor st (map (slug_of st) (files.titles path)) anchor
  is_known_iff path anchor =
      let (to, from) = anchors_iff st (files.titles path) anchor in
      (λ h. to (mem-IsIn anchor (anchors st (files.titles path)) h), λ a. IsIn-mem anchor (from a))

  fails_iff : (source link : Text) → (fails st files source link ≡ false) ↔ IsFine source link
  unfolding fails
  fails_iff source link =
      let (target, anchor) = partition_hash (files.unquote link) in
      let path = path_of files source target in
      let (outside, from_outside) = fullmatch_iff external_pattern link in
      let (empty, from_empty) = is_named_iff anchor in
      let (known, from_known) = is_known_iff path anchor in
      (
        λ h.
            elim (verdict_sound (fullmatch external_pattern link) (files.exists path)
              (is_named anchor) (files.is_markdown path)
              (mem anchor (anchors st (files.titles path))) h) [
                | inl e ↦ inl (outside e)
                | inr (x, inl a) ↦ inr (x, inl (empty a))
                | inr (x, inr (inl m)) ↦ inr (x, inr (inl m))
                | inr (x, inr (inr k)) ↦ inr (x, inr (inr (known k)))
              ],
        λ h.
            verdict_complete (fullmatch external_pattern link) (files.exists path) (is_named anchor)
              (files.is_markdown path) (mem anchor (anchors st (files.titles path)))
              (elim h [
                | inl e ↦ inl (from_outside e)
                | inr (x, inl a) ↦ inr (x, inl (from_empty a))
                | inr (x, inr (inl m)) ↦ inr (x, inr (inl m))
                | inr (x, inr (inr k)) ↦ inr (x, inr (inr (from_known k)))
              ]),
      )

  source_iff :
      (source : Text) (links : List Text)
      → (with_source source (keep (fails st files source) links) ≡ []) ↔ All (IsFine source) links
  source_iff source links =
      let (to, from) =
        keep_nothing (fails st files source) (IsFine source) links (fails_iff source) in
      (
        λ h. to (nothing_mapped (keep (fails st files source) links) h),
        λ h. ap (with_source source) (from h),
      )
    where
      nothing_mapped : (xs : List Text) → with_source source xs ≡ [] → xs ≡ []
      nothing_mapped [] h = refl
      nothing_mapped (x ∷ xs) h = cc

  failures_iff :
      (documents : List Text)
      → (failures st files documents ≡ [])
        ↔ All (λ source. All (IsFine source) (files.links source)) documents
  unfolding failures
  failures_iff [] = (λ h. tt, λ h. refl)
  failures_iff (source ∷ sources) =
      let here_failed = with_source source (keep (fails st files source) (files.links source)) in
      let (to, from) = source_iff source (files.links source) in
      let (rest, from_rest) = failures_iff sources in
      (
        λ h.
            let (one, others) = both_empty here_failed (failures st files sources) h in
            (to one, rest others),
        λ (one, others). ap (λ xs. xs ++ failures st files sources) (from one) ∙ from_rest others,
      )

  -- The check of the documentation passes exactly if every link of every document leads out of the
  -- repository (it begins with a scheme), or else to a path that exists and, where it names an anchor
  -- of a Markdown page, to one of the page: the slug of a title, or that slug with a number k,
  -- 1 <= k, below the number of titles that have it.
  pub check_docs_iff :
      (documents : List Text)
      → (main st files documents ≡ ok tt)
        ↔ All (λ source. All (IsFine source) (files.links source)) documents
  unfolding main
  check_docs_iff documents =
      let (to, from) = failures_iff documents in
      (λ h. to (none_reported (failures st files documents) h), λ h. ap report (from h))
    where
      none_reported : (fs : List (Text × Text)) → report fs ≡ ok tt → fs ≡ []
      none_reported [] h = refl
      none_reported (f ∷ fs) h = cc
