-- ===== src/Examples/Secrets.antt =====
-- Credentials and documents at work.
use ai_protocol.Base.{
  leb, ℕ, zero, suc, ◌+◌, ◌≡◌, refl, ◌↔◌, true, false, ◌&&◌, Option, none, some, List, [], ◌∷◌,
  ◌++◌,
}
use ai_protocol.Base.Int.{pos}
use ai_protocol.Base.Lists.{length, All}
use ai_protocol.Base.Text.{codes}
use ai_protocol.Result.{Result, ok, err, os_error}
use ai_protocol.Json.{Json, int, str, obj, end, field}
use ai_protocol.Http.{lost}
use ai_protocol.Regex.{fullmatch}
use ai_protocol.Release.Name.{Text, mem}
use ai_protocol.Release.Version.{crate_name, sdist_name, wheel_name}
use ai_protocol.Release.Bundle.{Entry, Report, report_name, checksum_pattern}
use ai_protocol.Release.Source.{PublishedRelease}
use ai_protocol.Release.Prepare.{prepare_bundle}
use ai_protocol.Release.Copied.{Contents}
use ai_protocol.Release.RoundTrip.{bundle, report_of, prepare_validates}
use ai_protocol.Demo.Credentials.{Environment}
use ai_protocol.Demo.Transitions.{
  read_output, wait_from, wait_event, answered, admin_update, is_reduced, shows_reduction,
  is_second_policy, is_drained,
}
use ai_protocol.Demo.Transitions.Script.{Others, change, script, reader}
use ai_protocol.Demo.Transitions.Leaks.{IsReported, script-IsClean}
use ai_protocol.Examples.Data.{with_body}
use ai_protocol.Checks.Docs.{Strings, Files, main}
use ai_protocol.Checks.Docs.Links.{IsFine, check_docs_iff}
use ai_protocol.Checks.Snapshot.{
  Tree, snapshot, intended, copy_paths, split_zero, is_nonempty, is_local,
}
use ai_protocol.Checks.Snapshot.Exported.{IsPublished, snapshot-IsPublished}

-- Secrets that begin with a character of their own.
abbrev marked : Text → Text
marked n = 0 ∷ n

abbrev home : Environment
home = (codes "HOME", codes "/root") ∷ []

-- A load client that reports the second policy and then writes its token, and a gateway that answers.
abbrev reduced_policy : Json
reduced_policy = obj (
    field "policy_revision" (int (pos 2)) (
      field "outstanding" (int (pos 5))
        (field "limits" (obj (field "max_outstanding" (int (pos 2)) end)) end)))

abbrev second_policy : Json
second_policy = obj (
    field "event" (str "policy") (
      field "policy_revision" (int (pos 2))
        (field "client_active" (int (pos 5)) (field "limit" (int (pos 2)) end))))

abbrev answering_others : Others
answering_others = record {
  patched = λ maximum. with_body 200 reduced_policy;
  final_policy = lost;
  load_status = none;
}

abbrev reads_policy : Text → Option Json
reads_policy l = some second_policy

abbrev two_lines : List Text
two_lines = codes "policy" ∷ codes "a secret" ∷ []

abbrev shown : List Json
shown =
    (script answering_others
      (reader reads_policy (codes "secret" ∷ []) (λ n. n) 0 two_lines)).1.printed

-- The update and the policy are printed.
two_shown : length shown ≡ 2
unfolding script change answered admin_update is_reduced wait_event wait_from read_output
    is_second_policy shows_reduction is_drained
two_shown = refl

script-IsClean_example :
    All (IsReported reads_policy (codes "secret" ∷ []) two_lines answering_others) shown
script-IsClean_example =
    script-IsClean reads_policy (codes "secret" ∷ []) two_lines (λ n. n) 0 answering_others

-- A page with two titles of the same name, and a link to the second.
abbrev lower_case : Strings
lower_case = record { lower = λ s. s; is_word = λ c. leb 97 c; decimal = λ n. (n + 48) ∷ [] }

abbrev one_page : Files
one_page = record {
  exists = λ p. true;
  is_markdown = λ p. true;
  resolve = λ source target. target;
  titles = λ p. codes "the end" ∷ codes "the end" ∷ [];
  links = λ p. codes "#the-end-1" ∷ [];
  unquote = λ link. link;
}

check_docs_iff_example :
    (main lower_case one_page (codes "README.md" ∷ []) ≡ ok tt)
    ↔ All
        (λ source. All (IsFine lower_case one_page source) (one_page.links source))
        (codes "README.md" ∷ [])
check_docs_iff_example = check_docs_iff lower_case one_page (codes "README.md" ∷ [])

-- A tree of one file.
abbrev one_file : Tree
one_file = record {
  is_file = λ p. true;
  is_symlink = λ p. false;
  content = λ p. p;
  parts = λ p. p ∷ [];
  name = λ p. p;
}

abbrev copy_of : List ℕ → Text
copy_of content = content

abbrev listing : Text
listing = codes "README.md" ++ (0 ∷ [])

snapshot_made : snapshot copy_of one_file listing ≡ ok ((codes "README.md", codes "README.md") ∷ [])
unfolding snapshot intended copy_paths is_local
snapshot_made = refl

snapshot-IsPublished_example :
    ((p : Text)
      → mem p (codes "README.md" ∷ [])
        ≡ ((is_nonempty p && one_file.is_file p) && mem p (split_zero [] listing)))
    × All
        (λ (f : Text × Text).
          IsPublished copy_of one_file f.0 × (f.1 ≡ copy_of (one_file.content f.0)))
        ((codes "README.md", codes "README.md") ∷ [])
snapshot-IsPublished_example = snapshot-IsPublished copy_of one_file listing _ snapshot_made

-- A release of small files.
abbrev hex_text : ℕ → Text
hex_text zero = []
hex_text (suc n) = 97 ∷ hex_text n

abbrev same_sum : List ℕ → Text
same_sum content = hex_text 64

same_sum_hex : (content : List ℕ) → fullmatch checksum_pattern (same_sum content) ≡ true
unfolding fullmatch checksum_pattern
same_sum_hex content = refl

abbrev number : Text
number = codes "1.2.3"

abbrev small : Contents
small = record { crate = 1 ∷ []; sdist = 2 ∷ []; wheel = 3 ∷ []; report = 4 ∷ [] }

abbrev build_entry : Text → List ℕ → Entry
build_entry n content = record { name = n; is_file = true; content = content }

abbrev dist : List Entry
dist =
    build_entry report_name (4 ∷ [])
    ∷ build_entry (wheel_name number) (3 ∷ [])
    ∷ build_entry (sdist_name number) (2 ∷ [])
    ∷ build_entry (crate_name number) (1 ∷ [])
    ∷ []

abbrev reads_report : List ℕ → Result Report
reads_report raw = ok (report_of same_sum number (codes "c0ffee") small)

abbrev new_release : PublishedRelease
new_release = record {
  tag_name = codes "v1.2.3";
  is_draft = false;
  is_prerelease = false;
  assets = [];
  body = [];
}

abbrev nothing_there : List Text → Result (List Entry)
nothing_there names' = err os_error

prepare_validates_example :
    prepare_bundle same_sum reads_report
      (ok (number, codes "c0ffee"))
      (ok new_release)
      nothing_there
      dist
    ≡ ok (bundle same_sum number small)
prepare_validates_example =
    prepare_validates same_sum reads_report same_sum_hex number (codes "c0ffee") new_release
      nothing_there dist small refl refl
      (record { crate = refl; sdist = refl; wheel = refl; report = refl }) refl
