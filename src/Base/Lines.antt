-- ===== src/Base/Lines.antt =====
-- `str.splitlines`, and texts that are written line by line.
use Prim.Native.Nat.{ℕ}
use mathlib.Core.Path.{◌≡◌, refl, sym, ap, ◌∙◌}
use mathlib.Core.Bool.{Bool, true, false, ◌&&◌, ◌||◌, not}
use mathlib.Core.List.{List, [], ◌∷◌, ◌++◌, append-nil, append_assoc}
use native.Mathlib.Omega.{arith}
use ai_protocol.Base.Tests.{leb, ◌==◌, if◌then◌else◌}
use ai_protocol.Base.Lists.{all, All}

-- The characters that end a line: line feed, the two tabulations, carriage return, the separators.
abbrev pub is_boundary : ℕ → Bool
is_boundary c = leb 10 c && leb c 13 || leb 28 c && leb c 30 || c == 133 || c == 8232 || c == 8233

-- What is left over at the end is a line if it is not empty.
abbrev pub last_line : List ℕ → List (List ℕ)
last_line [] = []
last_line (c ∷ s) = (c ∷ s) ∷ []

-- The line so far, and whether the character before was a carriage return, which a line feed joins.
abbrev pub lines_from : Bool → List ℕ → List ℕ → List (List ℕ)
lines_from joins line [] = last_line line
lines_from joins line (c ∷ s) =
    let rest = lines_from (c == 13) (if is_boundary c then [] else line ++ c ∷ []) s in
    if is_boundary c && not (joins && c == 10) then line ∷ rest else rest

unfoldable pub split_lines : List ℕ → List (List ℕ)
split_lines text = lines_from false [] text

-- Each line, with a line feed after it.
abbrev pub unlines : List (List ℕ) → List ℕ
unlines [] = []
unlines (l ∷ ls) = l ++ (10 ∷ unlines ls)

abbrev pub IsOneLine : List ℕ → Type 0
IsOneLine l = all (λ c. not (is_boundary c)) l ≡ true

lines_from-append :
    (joins : Bool) (line l rest : List ℕ)
    → joins ≡ false
    → IsOneLine l
    → lines_from joins line (l ++ 10 ∷ rest) ≡ (line ++ l) ∷ lines_from false [] rest
lines_from-append joins line [] rest j h =
    rw j (ap (λ (x : List ℕ). x ∷ lines_from false [] rest) (sym (append-nil line)))
lines_from-append joins line (c ∷ l) rest j h =
    let plain : is_boundary c ≡ false = ground arith in
    let after : (c == 13) ≡ false = ground arith in
    rw plain (
      lines_from-append (c == 13) (line ++ c ∷ []) l rest after (ground arith)
      ∙ ap (λ (x : List ℕ). x ∷ lines_from false [] rest) (append_assoc line (c ∷ []) l))

-- Lines that are written one by one are read back.
pub split_lines-unlines : (ls : List (List ℕ)) → All IsOneLine ls → split_lines (unlines ls) ≡ ls
unfolding split_lines
split_lines-unlines [] h = refl
split_lines-unlines (l ∷ ls) (one, rest) =
    lines_from-append false [] l (unlines ls) refl one
    ∙ ap (λ (x : List (List ℕ)). l ∷ x) (split_lines-unlines ls rest)
