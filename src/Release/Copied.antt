-- ===== src/Release/Copied.antt =====
-- The files that `prepare` copies: what is built, and what is read of the copies.

use ai_protocol.Base.{ℕ, ◌≡◌, refl, ◌∙◌, true, false, not, List, [], ◌∷◌, ◌++◌, arith}
use ai_protocol.Base.Lists.{all}
use ai_protocol.Base.Text.{codes}
use ai_protocol.Base.Lines.{is_boundary, IsOneLine}
use ai_protocol.Result.{ok}
use ai_protocol.Release.Name.{Text, eq_text}
use ai_protocol.Release.Version.{crate_name, sdist_name, wheel_name, names}
use ai_protocol.Release.Bundle.{Entry, read_bytes, report_name, is_hex}
use ai_protocol.Release.Prepare.{leq_text, sort_texts, copy_files, sum_line}
use ai_protocol.Release.SumLines.{
  all-weaken, all_append, eq_text-append, leq_text-append, eq_text_refl,
}

-- The contents of the files that were built.
pub record Contents : Type 0 where
  pub crate : List ℕ
  pub sdist : List ℕ
  pub wheel : List ℕ
  pub report : List ℕ

-- The directory of the build holds the four files.
pub record IsBuilt (version : Text) (built : List Entry) (b : Contents) : Type 0 where
  pub crate : read_bytes built (crate_name version) ≡ ok b.crate
  pub sdist : read_bytes built (sdist_name version) ≡ ok b.sdist
  pub wheel : read_bytes built (wheel_name version) ≡ ok b.wheel
  pub report : read_bytes built report_name ≡ ok b.report

abbrev pub entry_of : Text → List ℕ → Entry
entry_of n content = record { name = n; is_file = true; content = content }

abbrev pub copied_entries : Text → Contents → List Entry
copied_entries version b =
    entry_of (crate_name version) b.crate
    ∷ entry_of (sdist_name version) b.sdist
    ∷ entry_of (wheel_name version) b.wheel
    ∷ entry_of report_name b.report
    ∷ []

pub sdist-wheel : (version : Text) → eq_text (sdist_name version) (wheel_name version) ≡ false
sdist-wheel version = eq_text-append version (codes ".tar.gz") (codes "-py3-none-any.whl")

pub sort-names :
    (version : Text)
    → sort_texts (report_name ∷ names version)
      ≡ crate_name version ∷ wheel_name version ∷ sdist_name version ∷ report_name ∷ []
sort-names version =
    let after : leq_text (sdist_name version) (wheel_name version) ≡ false =
      leq_text-append version (codes ".tar.gz") (codes "-py3-none-any.whl") in
    rw after refl

read_here :
    (n m : Text) (content : List ℕ) (es : List Entry)
    → eq_text n m ≡ true
    → read_bytes (entry_of n content ∷ es) m ≡ ok content
read_here n m content es h = ground arith

read_there :
    (n m : Text) (content : List ℕ) (es : List Entry)
    → eq_text n m ≡ false
    → read_bytes (entry_of n content ∷ es) m ≡ read_bytes es m
read_there n m content es h = ground arith

abbrev pub after_sdist : Text → Contents → List Entry → List Entry
after_sdist version b extra =
    entry_of (wheel_name version) b.wheel ∷ entry_of report_name b.report ∷ extra

abbrev pub after_crate : Text → Contents → List Entry → List Entry
after_crate version b extra = entry_of (sdist_name version) b.sdist ∷ after_sdist version b extra

module _ (version : Text) (b : Contents) (extra : List Entry) where
  pub read_crate : read_bytes (copied_entries version b ++ extra) (crate_name version) ≡ ok b.crate
  read_crate =
      read_here (crate_name version) (crate_name version) b.crate (after_crate version b extra)
        (eq_text_refl (crate_name version))

  pub read_sdist : read_bytes (copied_entries version b ++ extra) (sdist_name version) ≡ ok b.sdist
  read_sdist =
      read_here (sdist_name version) (sdist_name version) b.sdist (after_sdist version b extra)
        (eq_text_refl (sdist_name version))

  pub read_wheel : read_bytes (copied_entries version b ++ extra) (wheel_name version) ≡ ok b.wheel
  read_wheel =
      read_there (sdist_name version) (wheel_name version) b.sdist (after_sdist version b extra)
        (sdist-wheel version)
      ∙ read_here (wheel_name version) (wheel_name version) b.wheel
          (entry_of report_name b.report ∷ extra) (eq_text_refl (wheel_name version))

  pub read_report_file : read_bytes (copied_entries version b ++ extra) report_name ≡ ok b.report
  read_report_file = refl

pub copied :
    (version : Text) (built : List Entry) (b : Contents)
    → IsBuilt version built b
    → copy_files built (names version ++ report_name ∷ []) ≡ ok (copied_entries version b)
unfolding copy_files
copied version built b h = rw h.crate (rw h.sdist (rw h.wheel (rw h.report refl)))

pub line_of-IsOneLine :
    (n checksum : Text)
    → IsOneLine n
    → all is_hex checksum ≡ true
    → IsOneLine (sum_line (n, checksum))
line_of-IsOneLine n checksum h k =
    all_append (λ c. not (is_boundary c)) checksum (32 ∷ 32 ∷ n)
      (all-weaken is_hex (λ c. not (is_boundary c)) checksum (λ c e. ground arith) k) h
