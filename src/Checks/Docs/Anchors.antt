-- ===== src/Checks/Docs/Anchors.antt =====
-- The anchors of a page: each slug, with a number where it occurs again.
use ai_protocol.Base.{
  ◌==◌, Bool-cases, ℕ, suc, ◌+◌, ◌-◌, ◌<◌, ◌≡◌, refl, sym, ap, ◌∙◌, ◌↔◌, inl, inr, true, false,
  List, [], ◌∷◌, map, arith,
}
use ai_protocol.Base.Lists.{count}
use ai_protocol.Release.Name.{Text, eq_text, eq_text_iff, IsIn, here, there}
use ai_protocol.Checks.Docs.{Strings, seen_before, slug_of, label, anchors_from, anchors}

-- How often a text occurs.
abbrev pub occurrences : Text → List Text → ℕ
occurrences s ss = count (eq_text s) ss

seen_again :
    (s t : Text) (n : ℕ) (seen : List (Text × ℕ))
    → eq_text t s ≡ true
    → seen_before t ((s, n) ∷ seen) ≡ n
seen_again s t n seen e = rw (e, seen_before) refl

seen_other :
    (s t : Text) (n : ℕ) (seen : List (Text × ℕ))
    → eq_text t s ≡ false
    → seen_before t ((s, n) ∷ seen) ≡ seen_before t seen
seen_other s t n seen e = rw (e, seen_before) refl

module _ (st : Strings) where
  -- An anchor: a slug as it stands, or with a number below that of its occurrences.
  abbrev pub IsAnchor : List Text → Text → Type 0
  IsAnchor slugs x = (s : Text) × (k : ℕ) × (k < occurrences s slugs) × (x ≡ label st s k)

  -- The same, where so many occurrences were seen before.
  abbrev IsLater : List (Text × ℕ) → List Text → Text → Type 0
  IsLater seen slugs x =
      (s : Text) × (k : ℕ) × (k < occurrences s slugs) × (x ≡ label st s (seen_before s seen + k))

  anchors_from-IsLater :
      (seen : List (Text × ℕ)) (slugs : List Text) (x : Text)
      → IsIn x (anchors_from st seen slugs)
      → IsLater seen slugs x
  unfolding anchors_from
  anchors_from-IsLater seen [] x i = elim i [ ]
  anchors_from-IsLater seen (s ∷ ss) x (here e) =
      (s, 0, rw ((eq_text_iff s s).1 refl) (omega arith), e ∙ ap (label st s) (omega arith))
  anchors_from-IsLater seen (s ∷ ss) x (there i) =
      let (t, k, below, e) = anchors_from-IsLater ((s, seen_before s seen + 1) ∷ seen) ss x i in
      elim (Bool-cases (eq_text t s)) [
        | inl same ↦
            let equal : t ≡ s = (eq_text_iff t s).0 same in
            let before : seen_before t ((s, seen_before s seen + 1) ∷ seen)
                ≡ seen_before s seen + 1 =
              seen_again s t (seen_before s seen + 1) seen same in
            let again : seen_before t seen ≡ seen_before s seen =
              ap (λ u. seen_before u seen) equal in
            (t, suc k, rw same (omega arith), e ∙ ap (label st t) (omega (arith, before, again)))
        | inr other ↦ (
          t,
          k,
          rw other below,
          e ∙ ap (label st t) (omega (arith, seen_other s t (seen_before s seen + 1) seen other)),
        )
      ]

  IsLater-anchors_from :
      (seen : List (Text × ℕ)) (slugs : List Text) (x s : Text) (k : ℕ)
      → k < occurrences s slugs
      → x ≡ label st s (seen_before s seen + k)
      → IsIn x (anchors_from st seen slugs)
  unfolding anchors_from
  IsLater-anchors_from seen [] x s k below e = absurd (omega arith)
  IsLater-anchors_from seen (t ∷ ts) x s k below e = elim (Bool-cases (eq_text s t)) [
    | inr other ↦ there (
        IsLater-anchors_from ((t, seen_before t seen + 1) ∷ seen) ts x s k (rw other at below)
          (e ∙ ap (label st s) (omega (arith, seen_other t s (seen_before t seen + 1) seen other))))
    | inl same ↦ elim (Bool-cases (k == 0)) [
      | inl now ↦ here (
          e
          ∙ ap (label st s) (ground arith)
          ∙ ap (λ u. label st u (seen_before u seen)) ((eq_text_iff s t).0 same))
      | inr later ↦
          let before : seen_before t seen ≡ seen_before s seen =
            ap (λ u. seen_before u seen) (sym ((eq_text_iff s t).0 same)) in
          let many : k < suc (occurrences s ts) = rw same at below in
          there (
            IsLater-anchors_from ((t, seen_before t seen + 1) ∷ seen) ts x s (k - 1) (ground arith)
              (e
                ∙ ap (label st s)
                    (ground (arith, before, seen_again t s (seen_before t seen + 1) seen same))))
    ]
  ]

  pub anchors_iff :
      (titles : List Text) (x : Text)
      → IsIn x (anchors st titles) ↔ IsAnchor (map (slug_of st) titles) x
  unfolding anchors
  anchors_iff titles x = (
    λ i.
        let (s, k, below, e) = anchors_from-IsLater [] (map (slug_of st) titles) x i in
        (s, k, below, e ∙ ap (label st s) (omega arith)),
    λ (s, k, below, e).
        IsLater-anchors_from [] (map (slug_of st) titles) x s k below
          (e ∙ ap (label st s) (omega arith)),
  )
