-- ===== src/Base/Text.antt =====
-- Texts as the code points of their characters, and the string methods that the program calls.
use Prim.Native.Char.{code}
use Prim.Native.String.{String}
use Prim.Native.Nat.{ℕ}
use mathlib.Core.Bool.{Bool, true, false, ◌&&◌, ◌||◌}
use mathlib.Core.List.{List, [], ◌∷◌, reverse}
use ai_protocol.Base.Tests.{leb, ◌==◌, if◌then◌else◌}

abbrev pub codes : String → List ℕ
codes String.[] = []
codes (String.◌∷◌ c s) = code c ∷ codes s

-- What `str.strip()` removes: the white space of Unicode.
abbrev pub is_space : ℕ → Bool
is_space c =
    leb 9 c && leb c 13
    || leb 28 c && leb c 32
    || c == 133
    || c == 160
    || c == 5760
    || leb 8192 c && leb c 8202
    || c == 8232
    || c == 8233
    || c == 8239
    || c == 8287
    || c == 12288

abbrev pub drop_while : (ℕ → Bool) → List ℕ → List ℕ
drop_while p [] = []
drop_while p (c ∷ s) = let rest = drop_while p s in if p c then rest else c ∷ s

-- `s.rstrip(chars)` and `s.strip()`
unfoldable pub rstrip : (ℕ → Bool) → List ℕ → List ℕ
rstrip p s = reverse (drop_while p (reverse s))

unfoldable pub strip : List ℕ → List ℕ
unfolding rstrip
strip s = rstrip is_space (drop_while is_space s)

-- `s.startswith(prefix)`
abbrev pub starts_with : List ℕ → List ℕ → Bool
starts_with s [] = true
starts_with [] (p ∷ ps) = false
starts_with (c ∷ s) (p ∷ ps) = c == p && starts_with s ps

abbrev pub is_digit : ℕ → Bool
is_digit c = leb 48 c && leb c 57
