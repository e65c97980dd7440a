-- ===== src/Release/Sound.antt =====
-- What a validated release bundle promises.
use ai_protocol.Base.{
  Bool-cases, ℕ, ◌≡◌, refl, sym, ap, ◌∙◌, inl, inr, Bool, true, false, not, ◌||◌, some, List, [],
  ◌∷◌, arith,
}
use ai_protocol.Base.Lists.{any}
use ai_protocol.Result.{Exception, Result, ok, err, ◌>>=◌, ◌>>◌, raise_if, >>=-ok}
use ai_protocol.Regex.{fullmatch}
use ai_protocol.Regex.Language.{Matches, fullmatch_iff}
use ai_protocol.Release.Name.{Text, eq_text, eq_text_iff, mem, same_set, find, keys, IsIn, all-IsIn}
use ai_protocol.Release.Version.{names}
use ai_protocol.Release.Bundle.{
  Entry, Report, is_text, is_false, checksum_pattern, bad_layout, bad_report, bad_sums, digest,
  check_report, check_sums, read_report, read_sums_file, validate_bundle,
}

-- The steps of `validate_bundle`, one after another.
staged :
    {R S O : Type 0} (a : Bool) (r : Result R) (bad : R → Bool) (check : R → Result (Unit {0}))
    (s : Result S) (bad' : S → Bool) (agree : S → Result (Unit {0})) (out : R → O) (w : O)
    (e f g : Exception)
    → (raise_if a e
        >> (r >>= λ x.
            (raise_if (bad x) f
              >> (check x >> (s >>= λ y. (raise_if (bad' y) g >> (agree y >> ok (out x))))))))
      ≡ ok w
    → (x : R) × (y : S) × (a ≡ false)
      × (r ≡ ok x)
      × (bad x ≡ false)
      × (check x ≡ ok tt)
      × (s ≡ ok y)
      × (bad' y ≡ false)
      × (agree y ≡ ok tt)
      × (w ≡ out x)
staged true r bad check s bad' agree out w e f g h = cc
staged false (err q) bad check s bad' agree out w e f g h = cc
staged false (ok x) bad check (err q) bad' agree out w e f g h = absurd (ground arith)
staged false (ok x) bad check (ok y) bad' agree out w e f g h =
    (x, y, refl, refl, ground arith, ground arith, refl, ground arith, ground arith, ground arith)

four_or :
    (a b c d : Bool)
    → (not a || not b || not c || not d) ≡ false
    → (a ≡ true) × (b ≡ true) × (c ≡ true) × (d ≡ true)
four_or a b c d h = ground arith

report_covers :
    (version commit : Text) (report : Report)
    → bad_report version commit report ≡ false
    → same_set (keys report.sha256) (names version) ≡ true
unfolding bad_report
report_covers version commit report h =
    (four_or (is_text report.source_commit commit) (is_text report.version version)
      (is_false report.working_tree_dirty) _ h).3

report_matches :
    (version commit : Text) (report : Report)
    → bad_report version commit report ≡ false
    → (is_text report.source_commit commit ≡ true)
      × (is_text report.version version ≡ true)
      × (is_false report.working_tree_dirty ≡ true)
unfolding bad_report
report_matches version commit report h =
    let (a, b, c, d) = four_or _ _ _ (same_set (keys report.sha256) (names version)) h in (a, b, c)

or_right : (a b : Bool) → (not a || b) ≡ false → b ≡ false
or_right a b h = ground arith

layout_files :
    (entries : List Entry) (version : Text)
    → bad_layout entries version ≡ false
    → any (λ e. not e.is_file) entries ≡ false
unfolding bad_layout
layout_files entries version h = or_right _ _ h

module _ (sha256 : List ℕ → Text) (parse : List ℕ → Result Report)
    (lines : List ℕ → List Text) where
  digest-eq :
      (entries : List Entry) (n checksum : Text) (rest : Result (Unit {0})) (e : Exception)
      → (digest sha256 parse lines entries n >>= λ d.
          (raise_if (not (eq_text d checksum)) e >> rest))
        ≡ ok tt
      → (digest sha256 parse lines entries n ≡ ok checksum) × (rest ≡ ok tt)
  digest-eq entries n checksum rest e h =
      let (d, found, after) = >>=-ok (digest sha256 parse lines entries n) _ h in
      let same : eq_text d checksum ≡ true = ground arith in
      (found ∙ ap ok ((eq_text_iff d checksum).0 same), ground arith)

  -- A checksum of the report has the form of one, and is that of the file.
  check_report-find :
      (entries : List Entry) (sums : List (Text × Text)) (n checksum : Text)
      → check_report sha256 parse lines entries sums ≡ ok tt
      → find n sums ≡ some checksum
      → (digest sha256 parse lines entries n ≡ ok checksum) × Matches checksum_pattern checksum
  unfolding check_report
  check_report-find entries [] n checksum h f = cc
  check_report-find entries ((k, c) ∷ rest) n checksum h f =
      let form : fullmatch checksum_pattern c ≡ true = ground arith in
      let (found, others) =
        digest-eq entries k c (check_report sha256 parse lines entries rest) _ (rw form at h) in
      elim (Bool-cases (eq_text n k)) [
        | inl same ↦
            let name : n ≡ k = (eq_text_iff n k).0 same in
            let agree : c ≡ checksum = ground arith in
            (
              ap (digest sha256 parse lines entries) name ∙ found ∙ ap ok agree,
              (fullmatch_iff checksum_pattern checksum).0
                  (ap (fullmatch checksum_pattern) (sym agree) ∙ form),
            )
        | inr other ↦ check_report-find entries rest n checksum others (rw other at f)
      ]

  check_sums-find :
      (entries : List Entry) (sums : List (Text × Text)) (n checksum : Text)
      → check_sums sha256 parse lines entries sums ≡ ok tt
      → find n sums ≡ some checksum
      → digest sha256 parse lines entries n ≡ ok checksum
  unfolding check_sums
  check_sums-find entries [] n checksum h f = cc
  check_sums-find entries ((k, c) ∷ rest) n checksum h f =
      let (found, others) =
        digest-eq entries k c (check_sums sha256 parse lines entries rest) _ h in
      elim (Bool-cases (eq_text n k)) [
        | inl same ↦
            let name : n ≡ k = (eq_text_iff n k).0 same in
            let agree : c ≡ checksum = ground arith in
            ap (digest sha256 parse lines entries) name ∙ found ∙ ap ok agree
        | inr other ↦ check_sums-find entries rest n checksum others (rw other at f)
      ]

  -- What a file's checksum is, if there is the file.
  abbrev pub HasChecksum : List Entry → Text → Text → Type 0
  HasChecksum entries n checksum = digest sha256 parse lines entries n ≡ ok checksum

  covered_find :
      (entries : List Entry) (sums : List (Text × Text)) (n : Text)
      → mem n (keys sums) ≡ true
      → (checksum : Text) × (find n sums ≡ some checksum)
  covered_find entries [] n h = cc
  covered_find entries ((k, c) ∷ rest) n h = elim (Bool-cases (eq_text n k)) [
    | inl same ↦ (c, rw same)
    | inr other ↦ let (x, e) = covered_find entries rest n (ground arith) in (x, rw other e)
  ]

  subset-IsIn : (n : Text) (xs ys : List Text) → same_set xs ys ≡ true → IsIn n ys → mem n xs ≡ true
  subset-IsIn n xs ys h i = all-IsIn (λ x. mem x xs) n i (ground arith)

  -- In a bundle that is accepted every entry is a file; the report is of this clean commit and this
  -- version; and each of the three packages has the checksum that is returned for it, sixty-four
  -- hexadecimal digits.
  pub validate_bundle_sound :
      (entries : List Entry) (version commit n : Text) (checksums : List (Text × Text))
      → validate_bundle sha256 parse lines entries version commit ≡ ok checksums
      → IsIn n (names version)
      → (any (λ e. not e.is_file) entries ≡ false)
        × ((report : Report) × (read_report sha256 parse lines entries ≡ ok report)
            × (is_text report.source_commit commit ≡ true)
            × (is_text report.version version ≡ true)
            × (is_false report.working_tree_dirty ≡ true))
        × ((checksum : Text) × (find n checksums ≡ some checksum)
            × HasChecksum entries n checksum
            × Matches checksum_pattern checksum)
  unfolding validate_bundle
  validate_bundle_sound entries version commit n checksums h i =
      let (report, sums, layout, reported, good, checked, listed, sums_good, agreed, same) =
        staged _ (read_report sha256 parse lines entries) (bad_report version commit)
          (λ r. check_report sha256 parse lines entries r.sha256)
          (read_sums_file sha256 parse lines entries) (bad_sums version)
          (check_sums sha256 parse lines entries) (λ r. r.sha256) checksums _ _ _ h in
      let covers : same_set (keys report.sha256) (names version) ≡ true =
        report_covers version commit report good in
      let (checksum, found) =
        covered_find entries report.sha256 n
          (subset-IsIn n (keys report.sha256) (names version) covers i) in
      let (has, form) = check_report-find entries report.sha256 n checksum checked found in
      let (commit', version', clean) = report_matches version commit report good in
      (
        layout_files entries version layout,
        (report, reported, commit', version', clean),
        (checksum, ap (find n) same ∙ found, has, form),
      )
