-- ===== src/Release/Notes.antt =====
-- The end of `publish` (scripts/release.py): the block on the publication in the release notes.
use ai_protocol.Base.{
  ltb, ◌==◌, if◌then◌else◌, ℕ, zero, suc, ◌+◌, ◌-◌, Bool, true, false, not, ◌||◌, Option, none,
  some, [], ◌∷◌, ◌++◌,
}
use ai_protocol.Base.Lists.{length, take, drop}
use ai_protocol.Base.Text.{codes, is_space, rstrip, starts_with}
use ai_protocol.Result.{value_error, Result, ok, ◌>>◌, raise_if}
use ai_protocol.Release.Name.{Text}

-- `body.index(part)`, where `part` is not empty; absent where the code would raise.
abbrev pub index_of : Text → Text → Option ℕ
index_of part [] = none
index_of part (c ∷ s) =
    let rest = index_of part s in
    if starts_with (c ∷ s) part then some 0 else elim rest [ none ↦ none | some i ↦ some (suc i) ]

-- `part in body`
abbrev pub contains : Text → Text → Bool
contains part body = elim (index_of part body) [ none ↦ false | some i ↦ true ]

-- `body.count(part)`: after an occurrence, so many characters are passed over.
abbrev pub occurrences : Text → ℕ → Text → ℕ
occurrences part skip [] = 0
occurrences part (suc skip) (c ∷ s) = occurrences part skip s
occurrences part zero (c ∷ s) =
    let later = occurrences part (length part - 1) s in
    let next = occurrences part 0 s in if starts_with (c ∷ s) part then suc later else next

abbrev pub position : Text → Text → ℕ
position part body = elim (index_of part body) [ none ↦ 0 | some i ↦ i ]

unfoldable pub edit_notes : Text → Text → Text → Text → Result Text
edit_notes first_mark last_mark block body =
    if contains first_mark body || contains last_mark body
    then (do
      raise_if
          (not (occurrences first_mark 0 body == 1)
            || not (occurrences last_mark 0 body == 1)
            || ltb (position last_mark body) (position first_mark body))
          (value_error "Malformed automated publication block")
      ok (
          take (position first_mark body) body
          ++ (block ++ drop (position last_mark body + length last_mark) body)))
    else ok (rstrip is_space body ++ (codes "\n\n" ++ (block ++ codes "\n")))
