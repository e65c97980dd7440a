-- ===== src/Checks/Docs.antt =====
-- scripts/check_docs.py: the links of the documentation. What `re.findall` finds in the texts, and
-- the file system, are arguments.
pub mod Anchors
pub mod Links
use ai_protocol.Base.{
  ◌==◌, if◌then◌else◌, ℕ, zero, suc, ◌+◌, Bool, true, false, not, ◌&&◌, ◌||◌, none, some, List, [],
  ◌∷◌, ◌++◌, map,
}
use ai_protocol.Base.Int.{pos}
use ai_protocol.Base.Lists.{keep}
use ai_protocol.Base.Text.{is_digit}
use ai_protocol.Result.{system_exit, Result, ok, err}
use ai_protocol.Json.{int}
use ai_protocol.Regex.{Regex, chars, seq, star, fullmatch, is_lower}
use ai_protocol.Release.Name.{Text, mem, find}

-- `str.lower`, the characters that `\w` stands for, and `str` of a number.
pub record Strings : Type 0 where
  pub lower : Text → Text
  pub is_word : ℕ → Bool
  pub decimal : ℕ → Text

-- `seen.get(slug, 0)`
abbrev pub seen_before : Text → List (Text × ℕ) → ℕ
seen_before s seen = elim (find s seen) [ none ↦ 0 | some n ↦ n ]

module _ (st : Strings) where
  -- `re.sub(r"[^\w\- ]", "", title.lower()).replace(" ", "-")`
  unfoldable pub slug_of : Text → Text
  slug_of title =
      map (λ c. if c == 32 then 45 else c)
        (keep (λ c. st.is_word c || c == 45 || c == 32) (st.lower title))

  -- `slug if not index else f"{slug}-{index}"`
  abbrev pub label : Text → ℕ → Text
  label s zero = s
  label s (suc n) = s ++ (45 ∷ st.decimal (suc n))

  -- The loop of `anchors`, over the slugs.
  unfoldable pub anchors_from : List (Text × ℕ) → List Text → List Text
  anchors_from seen [] = []
  anchors_from seen (s ∷ ss) =
      let index = seen_before s seen in label s index ∷ anchors_from ((s, index + 1) ∷ seen) ss

  -- `anchors`, of the titles of a file.
  unfoldable pub anchors : List Text → List Text
  anchors titles = anchors_from [] (map slug_of titles)

-- `[a-z][a-z0-9+.-]*:` at the start of a link.
abbrev pub is_scheme : ℕ → Bool
is_scheme c = is_lower c || is_digit c || c == 43 || c == 46 || c == 45

unfoldable pub external_pattern : Regex
external_pattern =
    seq (chars is_lower)
      (seq (star (chars is_scheme)) (seq (chars (λ c. c == 58)) (star (chars (λ c. true)))))

-- `s.partition("#")`, without the separator.
abbrev pub partition_hash : Text → Text × Text
partition_hash [] = ([], [])
partition_hash (c ∷ s) =
    let rest = partition_hash s in if c == 35 then ([], s) else (c ∷ rest.0, rest.1)

-- The files: whether a path exists and ends in `.md`, what `(source.parent / target).resolve()` is, the
-- titles and the links that are found outside of code; and `unquote`.
pub record Files : Type 0 where
  pub exists : Text → Bool
  pub is_markdown : Text → Bool
  pub resolve : Text → Text → Text
  pub titles : Text → List Text
  pub links : Text → List Text
  pub unquote : Text → Text

-- `… if target else source`
abbrev pub path_of : Files → Text → Text → Text
path_of files source [] = source
path_of files source (c ∷ target) = files.resolve source (c ∷ target)

abbrev pub is_named : Text → Bool
is_named [] = false
is_named (c ∷ s) = true

-- Whether a failure is noted, by the tests in their order.
abbrev pub verdict : Bool → Bool → Bool → Bool → Bool → Bool
verdict external exists anchored markdown known =
    if external then false else if not exists then true else anchored && markdown && not known

abbrev pub with_source : Text → List Text → List (Text × Text)
with_source source [] = []
with_source source (link ∷ links) = (source, link) ∷ with_source source links

-- A failure ends the program with status 1.
abbrev pub report : List (Text × Text) → Result (Unit {0})
report [] = ok tt
report (f ∷ fs) = err (system_exit (int (pos 1)))

module _ (st : Strings) (files : Files) where
  -- Whether a failure is noted for a link.
  unfoldable pub fails : Text → Text → Bool
  fails source link =
      let (target, anchor) = partition_hash (files.unquote link) in
      let path = path_of files source target in
      verdict (fullmatch external_pattern link) (files.exists path) (is_named anchor)
        (files.is_markdown path) (mem anchor (anchors st (files.titles path)))

  -- The failures, each a source with a link.
  unfoldable pub failures : List Text → List (Text × Text)
  failures [] = []
  failures (source ∷ sources) =
      with_source source (keep (fails source) (files.links source)) ++ failures sources

  -- `main`
  unfoldable pub main : List Text → Result (Unit {0})
  main documents = report (failures documents)
