-- ===== src/Release/SumLines.antt =====
-- The lines of SHA256SUMS, written and read; and the checks of a bundle whose files agree with it.

use mathlib.Core.List.{append-nil, append_assoc}
use ai_protocol.Base.{
  ◌==◌, ℕ, zero, suc, ◌≡◌, refl, sym, ap, ◌∙◌, Bool, true, false, not, List, [], ◌∷◌, ◌++◌, map,
  arith,
}
use ai_protocol.Base.Lists.{all, All}
use ai_protocol.Result.{Result, ok}
use ai_protocol.Regex.{chars, fullmatch}
use ai_protocol.Regex.Language.{Matches, fullmatch_iff}
use ai_protocol.Release.Name.{Text, eq_text, eq_text_iff, mem, subset, keys, IsIn, IsIn-mem}
use ai_protocol.Release.Bundle.{
  Entry, Report, is_hex, times, checksum_pattern, split_line, digest, check_report, read_sums,
  check_sums,
}
use ai_protocol.Release.Prepare.{leq_text, sum_line}

abbrev pub has_no_space : Text → Bool
has_no_space s = all (λ c. not (c == 32)) s

-- A line is taken apart at its first two spaces.
split_line-line :
    (done checksum n : Text)
    → has_no_space checksum ≡ true
    → split_line done (checksum ++ 32 ∷ 32 ∷ n) ≡ ok (done ++ checksum, n)
split_line-line done [] n h = ap (λ (x : Text). ok (x, n)) (sym (append-nil done))
split_line-line done (c ∷ []) n h = let solid : (c == 32) ≡ false = ground arith in rw solid refl
split_line-line done (c ∷ d ∷ s) n h =
    let solid : (c == 32) ≡ false = ground arith in
    rw solid (
      split_line-line (done ++ c ∷ []) (d ∷ s) n (ground arith)
      ∙ ap (λ (x : Text). ok (x, n)) (append_assoc done (c ∷ []) (d ∷ s)))

times-all : (p : ℕ → Bool) (n : ℕ) (w : Text) → Matches (times n (chars p)) w → all p w ≡ true
times-all p zero w m = rw m refl
times-all p (suc n) w (u, v, e, (c, f, h), m) =
    let rest = times-all p n v m in rw e (rw f (rw h rest))

pub all-weaken :
    (p q : ℕ → Bool) (w : Text)
    → ((c : ℕ) → p c ≡ true → q c ≡ true)
    → all p w ≡ true
    → all q w ≡ true
all-weaken p q [] k h = refl
all-weaken p q (c ∷ w) k h = let ih = all-weaken p q w k (ground arith) in ground (arith, k c)

-- A checksum is solid text.
pub checksum_hex : (w : Text) → fullmatch checksum_pattern w ≡ true → all is_hex w ≡ true
unfolding checksum_pattern
checksum_hex w h = times-all is_hex 64 w ((fullmatch_iff checksum_pattern w).0 h)

pub all_append :
    (p : ℕ → Bool) (u v : Text) → all p u ≡ true → all p v ≡ true → all p (u ++ v) ≡ true
all_append p [] v h k = k
all_append p (c ∷ u) v h k = let ih = all_append p u v (ground arith) k in ground arith

pub eq_text-append : (s t u : Text) → eq_text (s ++ t) (s ++ u) ≡ eq_text t u
eq_text-append [] t u = refl
eq_text-append (c ∷ s) t u = ground (arith, eq_text-append s t u)

pub leq_text-append : (s t u : Text) → leq_text (s ++ t) (s ++ u) ≡ leq_text t u
leq_text-append [] t u = refl
leq_text-append (c ∷ s) t u = ground (arith, leq_text-append s t u)

pub eq_text_refl : (s : Text) → eq_text s s ≡ true
eq_text_refl s = (eq_text_iff s s).1 refl

pub subset-All : (xs ys : List Text) → All (λ x. IsIn x ys) xs → subset xs ys ≡ true
subset-All [] ys h = refl
subset-All (x ∷ xs) ys (i, h) = let ih = subset-All xs ys h in rw (IsIn-mem x i) ih

-- Files whose names are new are read, the last first.
abbrev pub onto : List (Text × Text) → List (Text × Text) → List (Text × Text)
onto [] sums = sums
onto (f ∷ files) sums = onto files (f ∷ sums)

abbrev pub AreNew : List (Text × Text) → List (Text × Text) → Type 0
AreNew sums [] = Unit
AreNew sums (f ∷ files) =
    (mem f.0 (keys sums) ≡ false) × (has_no_space f.1 ≡ true) × AreNew (f ∷ sums) files

module _ (sha256 : List ℕ → Text) (parse : List ℕ → Result Report)
    (lines : List ℕ → List Text) where
  pub read_sums-lines :
      (files sums : List (Text × Text))
      → AreNew sums files
      → read_sums sha256 parse lines sums (map sum_line files) ≡ ok (onto files sums)
  unfolding read_sums
  read_sums-lines [] sums h = refl
  read_sums-lines ((n, checksum) ∷ files) sums (fresh, solid, rest) =
      rw (split_line-line [] checksum n solid)
        (rw fresh (read_sums-lines files ((n, checksum) ∷ sums) rest))

  pub check_sums-All :
      (entries : List Entry) (files : List (Text × Text))
      → All (λ f. digest sha256 parse lines entries f.0 ≡ ok f.1) files
      → check_sums sha256 parse lines entries files ≡ ok tt
  unfolding check_sums
  check_sums-All entries [] h = refl
  check_sums-All entries ((n, checksum) ∷ files) (d, rest) =
      rw d (rw (eq_text_refl checksum) (check_sums-All entries files rest))

  pub check_report-All :
      (entries : List Entry) (files : List (Text × Text))
      → All (λ f. digest sha256 parse lines entries f.0 ≡ ok f.1) files
      → All (λ f. fullmatch checksum_pattern f.1 ≡ true) files
      → check_report sha256 parse lines entries files ≡ ok tt
  unfolding check_report
  check_report-All entries [] h k = refl
  check_report-All entries ((n, checksum) ∷ files) (d, rest) (m, others) =
      rw m (rw d (rw (eq_text_refl checksum) (check_report-All entries files rest others)))
