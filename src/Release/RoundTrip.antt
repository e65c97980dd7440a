-- ===== src/Release/RoundTrip.antt =====
-- What `prepare` puts together is a bundle that `validate_bundle` accepts.

use ai_protocol.Base.{◌==◌, ℕ, ◌≡◌, refl, true, false, not, List, [], ◌∷◌, ◌++◌, map, arith}
use ai_protocol.Base.Lists.{keep, All}
use ai_protocol.Base.Text.{codes}
use ai_protocol.Base.Lines.{is_boundary, split_lines, unlines, IsOneLine, split_lines-unlines}
use ai_protocol.Result.{Result, ok}
use ai_protocol.Regex.{fullmatch}
use ai_protocol.Release.Name.{Text, mem, subset, here, there}
use ai_protocol.Release.Version.{crate_name, sdist_name, wheel_name, names}
use ai_protocol.Release.Bundle.{
  Entry, read_bytes, Report, report_name, sums_name, is_hex, checksum_pattern, bad_layout,
  bad_report, bad_sums, digest, check_report, check_sums, read_report, read_sums_file,
  validate_bundle,
}
use ai_protocol.Release.Assets.{wanted, prepare}
use ai_protocol.Release.Source.{PublishedRelease}
use ai_protocol.Release.Prepare.{sum_line, sums_of, build_bundle, collect, prepare_bundle}
use ai_protocol.Release.SumLines.{
  has_no_space, all-weaken, checksum_hex, all_append, eq_text_refl, subset-All, onto,
  read_sums-lines, check_sums-All, check_report-All,
}
use ai_protocol.Release.Copied.{
  Contents, IsBuilt, entry_of, copied_entries, sdist-wheel, sort-names, read_crate, read_sdist,
  read_wheel, read_report_file, copied, line_of-IsOneLine,
}
use ai_protocol.Checks.Packages.{package_report}

module _ (sha256 : List ℕ → Text) where
  -- The sums of the four files, in the order of their names.
  abbrev sums : Text → Contents → List (Text × Text)
  sums version b =
      (crate_name version, sha256 b.crate)
      ∷ (wheel_name version, sha256 b.wheel)
      ∷ (sdist_name version, sha256 b.sdist)
      ∷ (report_name, sha256 b.report)
      ∷ []

  abbrev sums_entry : Text → Contents → Entry
  sums_entry version b = entry_of sums_name (unlines (map sum_line (sums version b)))

  -- The bundle that is put together.
  abbrev pub bundle : Text → Contents → List Entry
  bundle version b = copied_entries version b ++ sums_entry version b ∷ []

  -- The report that scripts/check_packages.py writes of the three packages, on a clean tree.
  abbrev pub report_of : Text → Text → Contents → Report
  report_of version commit b = package_report sha256 version commit [] (
      entry_of (crate_name version) b.crate
      ∷ entry_of (sdist_name version) b.sdist
      ∷ entry_of (wheel_name version) b.wheel
      ∷ [])

module _ (sha256 : List ℕ → Text) (parse : List ℕ → Result Report)
    (hex : (content : List ℕ) → fullmatch checksum_pattern (sha256 content) ≡ true) where
  solid : (content : List ℕ) → has_no_space (sha256 content) ≡ true
  solid content =
      all-weaken is_hex (λ c. not (c == 32)) (sha256 content) (λ c e. ground arith)
        (checksum_hex (sha256 content) (hex content))

  one_line : (n : Text) (content : List ℕ) → IsOneLine n → IsOneLine (sum_line (n, sha256 content))
  one_line n content h =
      line_of-IsOneLine n (sha256 content) h (checksum_hex (sha256 content) (hex content))

  built_bundle :
      (version : Text) (built : List Entry) (b : Contents)
      → IsBuilt version built b
      → build_bundle sha256 parse built version (names version ++ report_name ∷ [])
        ≡ ok (bundle sha256 version b)
  unfolding build_bundle sums_of
  built_bundle version built b h = rw (copied version built b h) (
      rw (sort-names version) (
        rw (read_crate version b [])
          (rw (read_wheel version b []) (rw (read_sdist version b []) refl))))

  read_back :
      (version : Text) (b : Contents)
      → IsOneLine version
      → read_sums_file sha256 parse split_lines (bundle sha256 version b)
        ≡ ok (onto (sums sha256 version b) [])
  unfolding read_sums_file
  read_back version b plain =
      let crate = all_append (λ c. not (is_boundary c)) version (codes ".crate") plain refl in
      let sdist = all_append (λ c. not (is_boundary c)) version (codes ".tar.gz") plain refl in
      let wheel =
        all_append (λ c. not (is_boundary c)) version (codes "-py3-none-any.whl") plain refl in
      rw
        (split_lines-unlines (map sum_line (sums sha256 version b)) (
          one_line (crate_name version) b.crate crate,
          (
            one_line (wheel_name version) b.wheel wheel,
            (one_line (sdist_name version) b.sdist sdist, (one_line report_name b.report refl, tt)),
          ),
        ))
        (read_sums-lines sha256 parse split_lines (sums sha256 version b) [] (
          refl,
          solid b.crate,
          (
            refl,
            solid b.wheel,
            (rw (sdist-wheel version) refl, solid b.sdist, (refl, solid b.report, tt)),
          ),
        ))

  digest-ok :
      (lines : List ℕ → List Text) (entries : List Entry) (n content : List ℕ)
      → read_bytes entries n ≡ ok content
      → digest sha256 parse lines entries n ≡ ok (sha256 content)
  unfolding digest
  digest-ok lines entries n content h = rw h refl

  -- The tests of `validate_bundle`, one by one.
  good_layout :
      (version : Text) (b : Contents) → bad_layout (bundle sha256 version b) version ≡ false
  unfolding bad_layout
  good_layout version b =
      let listed = report_name ∷ sums_name ∷ names version in
      let found =
        crate_name version
        ∷ sdist_name version
        ∷ wheel_name version
        ∷ report_name
        ∷ sums_name
        ∷ [] in
      let one : subset found listed ≡ true = subset-All found listed (
        there (there (here refl)),
        (
          there (there (there (here refl))),
          (there (there (there (there (here refl)))), (here refl, (there (here refl), tt))),
        ),
      ) in
      rw one refl

  good_sums :
      (version : Text) (b : Contents) → bad_sums version (onto (sums sha256 version b) []) ≡ false
  unfolding bad_sums
  good_sums version b =
      let found = report_name ∷ sdist_name version ∷ wheel_name version ∷ crate_name version ∷ [] in
      let listed = report_name ∷ names version in
      let one : subset found listed ≡ true = subset-All found listed (
        here refl,
        (there (there (here refl)), (there (there (there (here refl))), (there (here refl), tt))),
      ) in
      let two : subset listed found ≡ true = subset-All listed found (
        here refl,
        (there (there (there (here refl))), (there (here refl), (there (there (here refl)), tt))),
      ) in
      rw one (rw two refl)

  good_report :
      (version commit : Text) (b : Contents)
      → bad_report version commit (report_of sha256 version commit b) ≡ false
  unfolding bad_report
  good_report version commit b =
      let listed = names version in
      let one : subset listed listed ≡ true =
        subset-All listed listed
          (here refl, (there (here refl), (there (there (here refl)), tt))) in
      rw (eq_text_refl commit) (rw (eq_text_refl version) (rw one refl))

  -- A bundle that passes each of the tests passes.
  passes :
      (entries : List Entry) (version commit : Text) (report : Report) (found : List (Text × Text))
      → bad_layout entries version ≡ false
      → read_report sha256 parse split_lines entries ≡ ok report
      → bad_report version commit report ≡ false
      → check_report sha256 parse split_lines entries report.sha256 ≡ ok tt
      → read_sums_file sha256 parse split_lines entries ≡ ok found
      → bad_sums version found ≡ false
      → check_sums sha256 parse split_lines entries found ≡ ok tt
      → validate_bundle sha256 parse split_lines entries version commit ≡ ok report.sha256
  unfolding validate_bundle
  passes entries version commit report found l r h c s b k =
      rw l (rw r (rw h (rw c (rw s (rw b (rw k refl))))))

  -- Each file of the bundle, with what it holds.
  digests :
      (version : Text) (b : Contents)
      → All
          (λ (f : Text × Text).
            digest sha256 parse split_lines (bundle sha256 version b) f.0 ≡ ok f.1)
          ((report_name, sha256 b.report)
            ∷ (sdist_name version, sha256 b.sdist)
            ∷ (wheel_name version, sha256 b.wheel)
            ∷ (crate_name version, sha256 b.crate)
            ∷ [])
  digests version b =
      let extra = sums_entry sha256 version b ∷ [] in
      let entries = bundle sha256 version b in
      (
        digest-ok split_lines entries report_name b.report (read_report_file version b extra),
        (
          digest-ok split_lines entries (sdist_name version) b.sdist (read_sdist version b extra),
          (
            digest-ok split_lines entries (wheel_name version) b.wheel (read_wheel version b extra),
            (
              digest-ok split_lines entries (crate_name version) b.crate
                  (read_crate version b extra),
              tt,
            ),
          ),
        ),
      )

  validated :
      (version commit : Text) (b : Contents)
      → IsOneLine version
      → parse b.report ≡ ok (report_of sha256 version commit b)
      → validate_bundle sha256 parse split_lines (bundle sha256 version b) version commit
        ≡ ok (report_of sha256 version commit b).sha256
  unfolding read_report
  validated version commit b plain p =
      let (r, (s, (w, (c, e)))) = digests version b in
      let entries = bundle sha256 version b in
      let files = (report_of sha256 version commit b).sha256 in
      let found = onto (sums sha256 version b) [] in
      passes entries version commit (report_of sha256 version commit b) found
        (good_layout version b) p (good_report version commit b)
        (check_report-All sha256 parse split_lines entries files (c, (s, (w, tt)))
          (hex b.crate, (hex b.sdist, (hex b.wheel, tt))))
        (read_back version b plain) (good_sums version b)
        (check_sums-All sha256 parse split_lines entries found (r, (s, (w, (c, tt)))))

  -- For an accepted source and release, where the release has none of its files yet, the directory of the build holds the three packages
  -- and the report that check_packages.py writes of them on a clean tree, checksums are 64 hexadecimal
  -- digits and the version is one line: `prepare` returns the four files with the SHA256SUMS that it
  -- wrote itself, all of which its own validation read back and accepted.
  pub prepare_validates :
      (version commit : Text) (release : PublishedRelease) (fetch : List Text → Result (List Entry))
      (built : List Entry) (b : Contents)
      → IsOneLine version
      → keep (λ n. mem n release.assets) (wanted version) ≡ []
      → IsBuilt version built b
      → parse b.report ≡ ok (report_of sha256 version commit b)
      → prepare_bundle sha256 parse (ok (version, commit)) (ok release) fetch built
        ≡ ok (bundle sha256 version b)
  unfolding prepare_bundle prepare collect
  prepare_validates version commit release fetch built b plain none_there h p =
      rw none_there
        (rw (built_bundle version built b h) (rw (validated version commit b plain p) refl))
