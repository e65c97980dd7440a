-- ===== src/Release/Prepare.antt =====
-- `prepare` (scripts/release.py): the release bundle, downloaded or put together, and validated.
use ai_protocol.Base.{
  ltb, ◌==◌, if◌then◌else◌, ℕ, Bool, true, false, ◌&&◌, ◌||◌, List, [], ◌∷◌, ◌++◌, map,
}
use ai_protocol.Base.Text.{codes}
use ai_protocol.Base.Lines.{split_lines, unlines}
use ai_protocol.Result.{Result, ok, ◌>>=◌}
use ai_protocol.Release.Name.{Text}
use ai_protocol.Release.Version.{names}
use ai_protocol.Release.Bundle.{Entry, read_bytes, Report, report_name, sums_name, validate_bundle}
use ai_protocol.Release.Assets.{Plan, download, copy_built, prepare}
use ai_protocol.Release.Source.{PublishedRelease}

-- The order of texts by their characters, and `sorted(names)`.
abbrev pub leq_text : Text → Text → Bool
leq_text [] t = true
leq_text (c ∷ s) [] = false
leq_text (c ∷ s) (d ∷ t) = ltb c d || c == d && leq_text s t

abbrev pub insert_text : Text → List Text → List Text
insert_text n [] = n ∷ []
insert_text n (m ∷ ms) =
    let rest = insert_text n ms in if leq_text n m then n ∷ m ∷ ms else m ∷ rest

abbrev pub sort_texts : List Text → List Text
sort_texts [] = []
sort_texts (n ∷ ns) = insert_text n (sort_texts ns)

-- `shutil.copy2(built / name, destination / name)`, name by name.
unfoldable pub copy_files : List Entry → List Text → Result (List Entry)
copy_files built [] = ok []
copy_files built (n ∷ ns) = do
  content ← read_bytes built n
  copied ← copy_files built ns
  ok (record { name = n; is_file = true; content = content } ∷ copied)

-- `f"{checksum}  {name}"`
abbrev pub sum_line : Text × Text → Text
sum_line (n, checksum) = checksum ++ (codes "  " ++ n)

module _ (sha256 : List ℕ → Text) (parse : List ℕ → Result Report) where
  -- The names with their checksums, in order.
  unfoldable pub sums_of : List Entry → List Text → Result (List (Text × Text))
  sums_of entries [] = ok []
  sums_of entries (n ∷ ns) = do
    content ← read_bytes entries n
    others ← sums_of entries ns
    ok ((n, sha256 content) ∷ others)

  -- The files that were copied, and `SHA256SUMS`.
  unfoldable pub build_bundle : List Entry → Text → List Text → Result (List Entry)
  build_bundle built version copied_names = do
    copied ← copy_files built copied_names
    sums ← sums_of copied (sort_texts (report_name ∷ names version))
    ok (
        copied
        ++ record { name = sums_name; is_file = true; content = unlines (map sum_line sums) } ∷ [])

  -- What ends up in the destination; `fetch` is the result of `gh release download` for some names.
  unfoldable pub collect :
      (List Text → Result (List Entry)) → List Entry → Text → Plan → Result (List Entry)
  collect fetch built version (download wanted_names) = fetch (sort_texts wanted_names)
  collect fetch built version (copy_built copied_names) = build_bundle built version copied_names

  -- `prepare`, given what `source_info` and `release_info` end in; the result is the destination.
  unfoldable pub prepare_bundle :
      Result (Text × Text)
      → Result PublishedRelease
      → (List Text → Result (List Entry))
      → List Entry
      → Result (List Entry)
  prepare_bundle info release fetch built = do
    source ← info
    found ← release
    plan ← prepare source.0 found.assets
    destination ← collect fetch built source.0 plan
    checksums ← validate_bundle sha256 parse split_lines destination source.0 source.1
    ok destination
