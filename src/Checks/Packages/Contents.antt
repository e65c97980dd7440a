-- ===== src/Checks/Packages/Contents.antt =====
-- What passes the check of the packages.
use ai_protocol.Base.{
  ◌==◌, Bool-cases, ◌≤◌, ◌≡◌, refl, sym, ap, ◌∙◌, inl, inr, Bool, true, false, not, List, [], ◌∷◌,
  ◌++◌, arith,
}
use ai_protocol.Base.Lists.{any, count, All}
use ai_protocol.Base.Search.{contains, OccursIn, contains_iff}
use ai_protocol.Base.Text.{codes}
use ai_protocol.Result.{ok, raise_if, require, require-ok, >>=-ok}
use ai_protocol.Release.Name.{Text, eq_text, eq_text_iff, mem, IsIn, here, there, IsIn-mem}
use ai_protocol.Checks.Packages.{
  forbidden, ends_with, cover, is_forbidden, inspect, only, Archive, Build, is_schema,
  check_packages,
}

ends_with_sound :
    (s suffix : Text) → ends_with s suffix ≡ true → (before : Text) × (s ≡ before ++ suffix)
ends_with_sound [] suffix h = ([], (eq_text_iff [] suffix).0 h)
ends_with_sound (c ∷ s) suffix h = elim (Bool-cases (eq_text (c ∷ s) suffix)) [
  | inl whole ↦ ([], (eq_text_iff (c ∷ s) suffix).0 whole)
  | inr part ↦
      let (before, e) = ends_with_sound s suffix (rw part at h) in
      (c ∷ before, ap (λ (x : Text). c ∷ x) e)
]

any-none : (p : Text → Bool) (ns : List Text) → any p ns ≡ false → All (λ n. p n ≡ false) ns
any-none p [] h = tt
any-none p (n ∷ ns) h = (ground arith, any-none p ns (ground arith))

any-one :
    (p : Text → Bool) (ns : List Text) → any p ns ≡ true → (n : Text) × IsIn n ns × (p n ≡ true)
any-one p [] h = cc
any-one p (n ∷ ns) h = elim (Bool-cases (p n)) [
  | inl now ↦ (n, here refl, now)
  | inr later ↦ let (m, i, e) = any-one p ns (rw later at h) in (m, there i, e)
]

module _ (parts : Text → List Text) where
  -- No name has a part that is forbidden.
  abbrev pub IsPublic : List Text → Type 0
  IsPublic names = All (λ n. All (λ p. ¬ IsIn p forbidden) (parts n)) names

  -- A name ends in that of the cover.
  abbrev pub HasCover : List Text → Type 0
  HasCover names = (n : Text) × (before : Text) × IsIn n names × (n ≡ before ++ cover)

  public_parts :
      (ps : List Text) → any (λ p. mem p forbidden) ps ≡ false → All (λ p. ¬ IsIn p forbidden) ps
  public_parts [] h = tt
  public_parts (p ∷ ps) h =
      let fine : mem p forbidden ≡ false = ground arith in
      (λ i. let both : false ≡ true = sym fine ∙ IsIn-mem p i in cc, public_parts ps (ground arith))

  names-IsPublic : (ns : List Text) → any (is_forbidden parts) ns ≡ false → IsPublic ns
  names-IsPublic [] h = tt
  names-IsPublic (n ∷ ns) h =
      (public_parts (parts n) (ground arith), names-IsPublic ns (ground arith))

  inspect-ok :
      (names : List Text) (source : Bool)
      → inspect parts names source ≡ ok tt
      → IsPublic names × (source ≡ true → HasCover names)
  unfolding inspect
  inspect-ok names source h = (
    names-IsPublic names (ground arith),
    λ s.
        let (n, i, e) = any-one (λ n. ends_with n cover) names (ground arith) in
        let (before, same) = ends_with_sound n cover e in (n, before, i, same),
  )

  -- What the three distributions are.
  pub record IsRelease (b : Build) : Type 0 where
    pub wheel : Archive
    pub sdist : Archive
    pub only_wheel : b.wheels ≡ wheel ∷ []
    pub only_sdist : b.sdists ≡ sdist ∷ []
    pub one_version : b.version ≡ b.python_version
    pub is_public : IsPublic b.crate.names × IsPublic wheel.names × IsPublic sdist.names
    pub covers : HasCover b.crate.names × HasCover sdist.names
    pub schemas : count is_schema wheel.names ≡ 4
    pub no_tests : All (λ n. ¬ OccursIn (codes "/tests/") n) sdist.names
    pub small : (b.crate.size ≤ 5242880) × (wheel.size ≤ 5242880) × (sdist.size ≤ 5242880)

  only-ok : {A : Type 0} (xs : List A) (x : A) → only xs ≡ ok x → xs ≡ x ∷ []
  only-ok [] x h = cc
  only-ok (y ∷ []) x h = cc
  only-ok (y ∷ z ∷ xs) x h = cc

  untested :
      (ns : List Text)
      → not (any (contains (codes "/tests/")) ns) ≡ true
      → All (λ n. ¬ OccursIn (codes "/tests/") n) ns
  untested [] h = tt
  untested (n ∷ ns) h =
      let fine : contains (codes "/tests/") n ≡ false = ground arith in
      (
        λ o. let both : false ≡ true = sym fine ∙ (contains_iff (codes "/tests/") n).1 o in cc,
        untested ns (ground arith),
      )

  -- If the check of the packages passes, there are one wheel and one source distribution; the versions
  -- of the crate and of the Python package agree; none of the three archives has a part of a path that
  -- is forbidden; the crate and the source distribution hold the cover; the wheel holds exactly four
  -- schemas; no test is in the source distribution; and no archive is larger than 5 MiB.
  pub check_packages-IsRelease : (b : Build) → check_packages parts b ≡ ok tt → IsRelease b
  unfolding check_packages
  check_packages-IsRelease b h =
      let (u0, new, h0) = >>=-ok (raise_if b.output_exists _) _ h in
      let (u1, same, h1) = >>=-ok (raise_if (not (eq_text b.version b.python_version)) _) _ h0 in
      let (u2, crate, h2) = >>=-ok (inspect parts b.crate.names true) _ h1 in
      let (wheel, one, h3) = >>=-ok (only b.wheels) _ h2 in
      let (sdist, two, h4) = >>=-ok (only b.sdists) _ h3 in
      let (u5, in_wheel, h5) = >>=-ok (inspect parts wheel.names false) _ h4 in
      let (u6, four, h6) = >>=-ok (require (count is_schema wheel.names == 4) _) _ h5 in
      let (u7, in_sdist, h7) = >>=-ok (inspect parts sdist.names true) _ h6 in
      let (u8, none_tested, h8) =
        >>=-ok (require (not (any (contains (codes "/tests/")) sdist.names)) _) _ h7 in
      let (public_crate, crate_cover) = inspect-ok b.crate.names true crate in
      let (public_sdist, sdist_cover) = inspect-ok sdist.names true in_sdist in
      record {
        wheel = wheel;
        sdist = sdist;
        only_wheel = only-ok b.wheels wheel one;
        only_sdist = only-ok b.sdists sdist two;
        one_version = (eq_text_iff b.version b.python_version).0 (ground arith);
        is_public = (public_crate, (inspect-ok wheel.names false in_wheel).0, public_sdist);
        covers = (crate_cover refl, sdist_cover refl);
        schemas = ground arith;
        no_tests = untested sdist.names (require-ok _ _ none_tested);
        small = (ground arith, ground arith, ground arith);
      }
