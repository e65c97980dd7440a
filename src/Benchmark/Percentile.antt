-- ===== src/Benchmark/Percentile.antt =====
-- `percentile` (benchmarks/stage4/analyze.py). The fraction is given in hundredths, as the code uses
-- .50, .95 and .99. What `math.ceil(n * fraction)` is, a product of floats rounded up, is an argument:
-- `rank n percent`.
use mathlib.Core.Path.{subst}
use ai_protocol.Base.{
  if◌then◌else◌, Bool-cases, ℕ, zero, suc, ◌+◌, ◌-◌, ◌*◌, ◌≤◌, ◌<◌, ◌≡◌, refl, ap, ◌∙◌, inl, inr,
  Bool, Option, none, some, List, [], ◌∷◌, arith,
}
use ai_protocol.Base.Int.{ℤ, ◌≤ℤ◌, ltb_ℤ, leb_ℤ}
use ai_protocol.Base.Lists.{length, get_elem?, count, All, weight}

-- `sorted(values)`
abbrev pub insert : ℤ → List ℤ → List ℤ
insert v [] = v ∷ []
insert v (w ∷ ws) = let rest = insert v ws in if leb_ℤ v w then v ∷ w ∷ ws else w ∷ rest

abbrev pub sorted : List ℤ → List ℤ
sorted [] = []
sorted (v ∷ vs) = insert v (sorted vs)

module _ (rank : ℕ → ℕ → ℕ) where
  -- An index of -1 is that of the last value; one beyond the values, which would raise, is `none`.
  abbrev pub at_rank : List ℤ → ℕ → Option ℤ
  at_rank values zero = get_elem? values (length values - 1)
  at_rank values (suc i) = get_elem? values i

  unfoldable pub percentile : List ℤ → ℕ → Option ℤ
  percentile [] percent = none
  percentile (v ∷ vs) percent = at_rank (sorted (v ∷ vs)) (rank (length (v ∷ vs)) percent)

-- The list rises.
abbrev Rises : List ℤ → Type 0
Rises [] = Unit
Rises (v ∷ vs) = All (λ w. v ≤ℤ w) vs × Rises vs

All-insert :
    (v u : ℤ) (ws : List ℤ) → v ≤ℤ u → All (λ w. v ≤ℤ w) ws → All (λ w. v ≤ℤ w) (insert u ws)
All-insert v u [] h hs = (h, tt)
All-insert v u (w ∷ ws) h (k, hs) = elim (Bool-cases (leb_ℤ u w)) [
  | inl low ↦ rw low (h, (k, hs))
  | inr high ↦ rw high (k, All-insert v u ws h hs)
]

All-above : (v u : ℤ) (ws : List ℤ) → v ≤ℤ u → All (λ w. u ≤ℤ w) ws → All (λ w. v ≤ℤ w) ws
All-above v u [] h hs = tt
All-above v u (w ∷ ws) h (k, hs) = (omega arith, All-above v u ws h hs)

insert-Rises : (v : ℤ) (ws : List ℤ) → Rises ws → Rises (insert v ws)
insert-Rises v [] h = (tt, tt)
insert-Rises v (w ∷ ws) (above, rest) = elim (Bool-cases (leb_ℤ v w)) [
  | inl low ↦
      let under : v ≤ℤ w = ground arith in
      rw low ((under, All-above v w ws under above), (above, rest))
  | inr high ↦
      let over : w ≤ℤ v = ground arith in
      rw high (All-insert w v ws over above, insert-Rises v ws rest)
]

sorted-Rises : (vs : List ℤ) → Rises (sorted vs)
sorted-Rises [] = tt
sorted-Rises (v ∷ vs) = insert-Rises v (sorted vs) (sorted-Rises vs)

count-insert :
    (p : ℤ → Bool) (v : ℤ) (ws : List ℤ) → count p (insert v ws) ≡ weight p v + count p ws
count-insert p v [] = ground arith
count-insert p v (w ∷ ws) = ground (arith, count-insert p v ws)

-- Sorting neither adds nor removes a value.
count-sorted : (p : ℤ → Bool) (vs : List ℤ) → count p (sorted vs) ≡ count p vs
count-sorted p [] = refl
count-sorted p (v ∷ vs) =
    let ih = count-sorted p vs in ground (arith, count-insert p v (sorted vs), ih)

none_below : (v : ℤ) (ws : List ℤ) → All (λ w. v ≤ℤ w) ws → count (λ w. ltb_ℤ w v) ws ≡ 0
none_below v [] h = refl
none_below v (w ∷ ws) (k, hs) = ground (arith, none_below v ws hs)

above_at : (v w : ℤ) (ws : List ℤ) (i : ℕ) → All (λ u. v ≤ℤ u) ws → get_elem? ws i ≡ some w → v ≤ℤ w
above_at v w [] i hs e = cc
above_at v w (u ∷ ws) zero (k, hs) e = let same : u ≡ w = cc in subst (λ (x : ℤ). v ≤ℤ x) same k
above_at v w (u ∷ ws) (suc i) (k, hs) e = above_at v w ws i hs e

-- The value at an index of a rising list: more than that many values do not exceed it, and at most
-- that many lie below it.
rising_at :
    (x : ℤ) (ws : List ℤ) (i : ℕ)
    → Rises ws
    → get_elem? ws i ≡ some x
    → (i < count (λ w. leb_ℤ w x) ws) × (count (λ w. ltb_ℤ w x) ws ≤ i)
rising_at x [] i r e = cc
rising_at x (v ∷ ws) zero (above, rest) e =
    let same : v ≡ x = cc in
    let none' = none_below v ws above in
    subst (λ (y : ℤ). (0 < count (λ w. leb_ℤ w y) (v ∷ ws)) × (count (λ w. ltb_ℤ w y) (v ∷ ws) ≤ 0))
      same (ground arith)
rising_at x (v ∷ ws) (suc i) (above, rest) e =
    let low = above_at v x ws i above e in let ih = rising_at x ws i rest e in ground arith

in_range : (ws : List ℤ) (i : ℕ) → i < length ws → (x : ℤ) × (get_elem? ws i ≡ some x)
in_range [] i h = absurd (omega arith)
in_range (w ∷ ws) zero h = (w, refl)
in_range (w ∷ ws) (suc i) h = in_range ws i (omega arith)

length-insert : (v : ℤ) (ws : List ℤ) → length (insert v ws) ≡ suc (length ws)
length-insert v [] = refl
length-insert v (w ∷ ws) = ground (arith, length-insert v ws)

length-sorted : (vs : List ℤ) → length (sorted vs) ≡ length vs
length-sorted [] = refl
length-sorted (v ∷ vs) = let ih = length-sorted vs in omega (arith, length-insert v (sorted vs), ih)

product_range :
    (n percent : ℕ) → 0 < percent → percent ≤ 100 → (n ≤ n * percent) × (n * percent ≤ 100 * n)
product_range zero percent low high = grind arith
product_range (suc n) percent low high = let ih = product_range n percent low high in grind arith

-- What the rank is for.
abbrev pub IsNearestRank : ℕ → List ℤ → ℤ → Type 0
IsNearestRank percent values x =
    (length values * percent ≤ 100 * count (λ v. leb_ℤ v x) values)
    × (100 * count (λ v. ltb_ℤ v x) values < length values * percent)

-- The rank is the exact quotient, rounded up: the least number whose hundredfold reaches the product.
-- With floats this holds where the rounding of the product does not pass over an integer.
abbrev pub RoundsUp : (ℕ → ℕ → ℕ) → ℕ → ℕ → Type 0
RoundsUp rank n percent =
    (n * percent ≤ 100 * rank n percent) × (100 * rank n percent < n * percent + 100)

at_rank-suc :
    (rank : ℕ → ℕ → ℕ) (values : List ℤ) (r : ℕ)
    → 0 < r
    → at_rank rank values r ≡ get_elem? values (r - 1)
at_rank-suc rank values zero h = absurd (omega arith)
at_rank-suc rank values (suc r) h =
    let index : r ≡ suc r - 1 = omega arith in ap (get_elem? values) index

-- Of values that are not empty and a percentage from 1 to 100, where the computed rank is the exact
-- one, there is a percentile: at least that share of the values does not exceed it, and a smaller
-- share lies below it.
pub percentile-IsNearestRank :
    (rank : ℕ → ℕ → ℕ) (v : ℤ) (vs : List ℤ) (percent : ℕ)
    → 0 < percent
    → percent ≤ 100
    → RoundsUp rank (length (v ∷ vs)) percent
    → (x : ℤ) × (percentile rank (v ∷ vs) percent ≡ some x) × IsNearestRank percent (v ∷ vs) x
unfolding percentile
percentile-IsNearestRank rank v vs percent low high (reaches, least) =
    let r = rank (length (v ∷ vs)) percent in
    let range = product_range (length (v ∷ vs)) percent low high in
    let size = length-sorted (v ∷ vs) in
    let positive : 0 < r = omega arith in
    let (x, found) = in_range (sorted (v ∷ vs)) (r - 1) (omega arith) in
    let (over, under) = rising_at x (sorted (v ∷ vs)) (r - 1) (sorted-Rises (v ∷ vs)) found in
    let below = count-sorted (λ w. ltb_ℤ w x) (v ∷ vs) in
    let upto = count-sorted (λ w. leb_ℤ w x) (v ∷ vs) in
    (x, at_rank-suc rank (sorted (v ∷ vs)) r positive ∙ found, (omega arith, omega arith))
