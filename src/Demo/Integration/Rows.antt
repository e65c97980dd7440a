-- ===== src/Demo/Integration/Rows.antt =====
-- Traces that are read while they are written.
use mathlib.Core.List.{append-nil, append_assoc}
use ai_protocol.Base.{
  ◌==◌, ℕ, ◌≡◌, refl, sym, ap, ◌∙◌, true, false, not, some, List, [], ◌∷◌, ◌++◌, arith,
}
use ai_protocol.Base.Lists.{all, All}
use ai_protocol.Base.Lines.{unlines}
use ai_protocol.Result.{Result}
use ai_protocol.Json.{Json}
use ai_protocol.Demo.Integration.{split_from, but_last, load_all, rows}

-- A text without a line feed.
abbrev pub IsUnbroken : List ℕ → Type 0
IsUnbroken l = all (λ c. not (c == 10)) l ≡ true

split_line-feed :
    (part l rest : List ℕ)
    → IsUnbroken l
    → split_from part (l ++ 10 ∷ rest) ≡ (part ++ l) ∷ split_from [] rest
split_line-feed part [] rest h = ap (λ (x : List ℕ). x ∷ split_from [] rest) (sym (append-nil part))
split_line-feed part (c ∷ l) rest h =
    let plain : (c == 10) ≡ false = ground arith in
    rw plain (
      split_line-feed (part ++ c ∷ []) l rest (ground arith)
      ∙ ap (λ (x : List ℕ). x ∷ split_from [] rest) (append_assoc part (c ∷ []) l))

split_rest : (part l : List ℕ) → IsUnbroken l → split_from part l ≡ (part ++ l) ∷ []
split_rest part [] h = ap (λ (x : List ℕ). x ∷ []) (sym (append-nil part))
split_rest part (c ∷ l) h =
    let plain : (c == 10) ≡ false = ground arith in
    rw plain (
      split_rest (part ++ c ∷ []) l (ground arith)
      ∙ ap (λ (x : List ℕ). x ∷ []) (append_assoc part (c ∷ []) l))

split_lines-rest :
    (ls : List (List ℕ)) (l : List ℕ)
    → All IsUnbroken ls
    → IsUnbroken l
    → split_from [] (unlines ls ++ l) ≡ ls ++ l ∷ []
split_lines-rest [] l h k = split_rest [] l k
split_lines-rest (x ∷ ls) l (one, h) k =
    ap (split_from []) (append_assoc x (10 ∷ unlines ls) l)
    ∙ split_line-feed [] x (unlines ls ++ l) one
    ∙ ap (λ (y : List (List ℕ)). x ∷ y) (split_lines-rest ls l h k)

but_last-snoc {ℓ} : {A : Type ℓ} (xs : List A) (x : A) → but_last (xs ++ x ∷ []) ≡ xs
but_last-snoc [] x = refl
but_last-snoc (y ∷ []) x = refl
but_last-snoc (y ∷ z ∷ xs) x = ap (λ ys. y ∷ ys) (but_last-snoc (z ∷ xs) x)

-- A trace whose lines, without line feeds, are written one by one, at whatever moment it is read: what is read are the
-- complete lines, and the beginning of the next one is left out.
pub rows_complete :
    (loads : List ℕ → Result Json) (ls : List (List ℕ)) (l : List ℕ)
    → All IsUnbroken ls
    → IsUnbroken l
    → rows loads (some (unlines ls ++ l)) ≡ load_all loads ls
unfolding rows
rows_complete loads ls l h k =
    rw (split_lines-rest ls l h k) (ap (load_all loads) (but_last-snoc ls l))
