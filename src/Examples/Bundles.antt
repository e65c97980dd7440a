-- ===== src/Examples/Bundles.antt =====
-- A release at work: version 1.2.3, which no registry holds yet.
use ai_protocol.Base.{
  ◌==◌, if◌then◌else◌, ℕ, zero, suc, ◌≤◌, ◌<◌, ◌≡◌, refl, ◌↔◌, true, false, not, Option, none, some,
  List, [], ◌∷◌, ◌++◌, map, arith,
}
use ai_protocol.Base.Lists.{any, keep, count, All}
use ai_protocol.Base.Text.{codes}
use ai_protocol.Base.Lines.{split_lines, unlines}
use ai_protocol.Result.{Result, ok}
use ai_protocol.Regex.{fullmatch}
use ai_protocol.Regex.Language.{Matches}
use ai_protocol.Release.Name.{Text, mem, find, keys, here}
use ai_protocol.Release.Version.{
  Package, version_for, crate_name, sdist_name, wheel_name, IsRelease, version_for_iff,
}
use ai_protocol.Release.Bundle.{
  Entry, Report, is_text, is_false, report_name, sums_name, checksum_pattern, bad_layout,
  bad_report, bad_sums, digest, check_report, read_sums, check_sums, read_report, read_sums_file,
  validate_bundle,
}
use ai_protocol.Release.Sound.{HasChecksum, validate_bundle_sound}
use ai_protocol.Release.Registry.{
  Crate, Project, check_crate, check_files, published, registry_state, IsExpected, CrateAgrees,
  registry_state-agrees,
}
use ai_protocol.Release.Assets.{attach_assets, attach_assets-keeps}
use ai_protocol.Release.Notes.{edit_notes}
use ai_protocol.Release.Source.{
  source_info, commit_object, tag_object, Reference, PublishedRelease, release_info, dereference,
  LeadsTo, release_info-LeadsTo,
}
use ai_protocol.Release.Publish.{
  GitHub, Outside, publication_block, upload_assets, publish_crate, upload_python, wait_visible,
  finish_notes, publish_all, publish,
}
use ai_protocol.Release.Order.{is_crate, AssetsFirst, Permits, publish-AssetsFirst, publish-crate}

abbrev number : Text
number = codes "1.2.3"

abbrev cargo : Package
cargo = record { name = codes "ai-protocol"; version = number }

abbrev python : Package
python = record { name = codes "ai-protocol-client"; version = number }

version_for_iff_example :
    (version_for (codes "v1.2.3") cargo python ≡ ok number)
    ↔ IsRelease (codes "v1.2.3") cargo python number
version_for_iff_example = version_for_iff (codes "v1.2.3") cargo python number

-- A checksum for every content: its first character, sixty-four times.
abbrev repeated : ℕ → ℕ → Text
repeated zero c = []
repeated (suc n) c = c ∷ repeated n c

abbrev sum_of : List ℕ → Text
sum_of [] = repeated 64 b'0'
sum_of (c ∷ content) = repeated 64 c

abbrev checksums : List (Text × Text)
checksums =
    (crate_name number, repeated 64 b'a')
    ∷ (sdist_name number, repeated 64 b'b')
    ∷ (wheel_name number, repeated 64 b'c')
    ∷ []

abbrev commit : Text
commit = codes "abc"

abbrev parsed : List ℕ → Result Report
parsed raw = ok (record {
  source_commit = some commit;
  version = some number;
  working_tree_dirty = some false;
  sha256 = checksums;
})

abbrev line_of : Text × Text → Text
line_of (n, checksum) = checksum ++ (codes "  " ++ n)

abbrev sum_lines : List ℕ → List Text
sum_lines raw = map line_of ((report_name, repeated 64 b'd') ∷ checksums)

abbrev file_of : Text → ℕ → Entry
file_of n c = record { name = n; is_file = true; content = c ∷ [] }

abbrev built : List Entry
built =
    file_of report_name b'd'
    ∷ file_of sums_name b'e'
    ∷ file_of (crate_name number) b'a'
    ∷ file_of (sdist_name number) b'b'
    ∷ file_of (wheel_name number) b'c'
    ∷ []

bundle_accepted : validate_bundle sum_of parsed sum_lines built number commit ≡ ok checksums
unfolding fullmatch validate_bundle bad_layout bad_report bad_sums check_report check_sums
    read_report read_sums_file read_sums digest checksum_pattern
bundle_accepted = refl

validate_bundle_sound_example :
    (any (λ e. not e.is_file) built ≡ false)
    × ((accepted : Report) × (read_report sum_of parsed sum_lines built ≡ ok accepted)
        × (is_text accepted.source_commit commit ≡ true)
        × (is_text accepted.version number ≡ true)
        × (is_false accepted.working_tree_dirty ≡ true))
    × ((checksum : Text) × (find (crate_name number) checksums ≡ some checksum)
        × HasChecksum sum_of parsed sum_lines built (crate_name number) checksum
        × Matches checksum_pattern checksum)
validate_bundle_sound_example =
    validate_bundle_sound sum_of parsed sum_lines built number commit (crate_name number) checksums
      bundle_accepted (here refl)

-- The crate is there, and one of the distributions.
abbrev crate_there : Option Crate
crate_there = some (record { num = number; checksum = repeated 64 b'a' })

abbrev wheel_there : Option Project
wheel_there = some (record { version = number; files = (wheel_name number, repeated 64 b'c') ∷ [] })

abbrev both_there : Option Project
both_there = some (record {
  version = number;
  files = (wheel_name number, repeated 64 b'c') ∷ (sdist_name number, repeated 64 b'b') ∷ [];
})

half_published :
    registry_state number checksums crate_there wheel_there ≡ ok (true, sdist_name number ∷ [])
unfolding registry_state check_crate check_files
half_published = refl

registry_state-agrees_example :
    CrateAgrees number checksums crate_there true
    × All (IsExpected checksums) (published wheel_there)
    × (sdist_name number ∷ []
        ≡ keep
            (λ n. not (mem n (keys (published wheel_there))))
            (sdist_name number ∷ wheel_name number ∷ []))
registry_state-agrees_example =
    registry_state-agrees number checksums crate_there wheel_there true (sdist_name number ∷ [])
      half_published

abbrev remote_sum : Text → Text
remote_sum n = repeated 64 b'a'

attached :
    attach_assets (crate_name number ∷ []) remote_sum checksums
    ≡ ok (sdist_name number ∷ wheel_name number ∷ [])
unfolding attach_assets
attached = refl

attach_assets-keeps_example :
    All (λ f. remote_sum f.0 ≡ f.1) (keep (λ f. mem f.0 (crate_name number ∷ [])) checksums)
    × All (λ n. mem n (crate_name number ∷ []) ≡ false) (sdist_name number ∷ wheel_name number ∷ [])
attach_assets-keeps_example =
    attach_assets-keeps (crate_name number ∷ []) remote_sum checksums
      (sdist_name number ∷ wheel_name number ∷ []) attached

-- An annotated tag: an object of its own, which points to the commit.
abbrev annotated : Reference
annotated = record { kind = tag_object; sha = codes "t" }

abbrev pointing : Text → Reference
pointing sha = record { kind = commit_object; sha = commit }

abbrev out_now : PublishedRelease
out_now = record {
  tag_name = codes "v1.2.3";
  is_draft = false;
  is_prerelease = false;
  assets = [];
  body = codes "First release";
}

-- Nothing is published at the first query, and everything at the second. The directory is sorted, and
-- its file of sums is the one that belongs to it.
abbrev sums_text : List ℕ
sums_text = unlines (sum_lines [])

abbrev sorted_bundle : List Entry
sorted_bundle =
    record { name = sums_name; is_file = true; content = sums_text }
    ∷ file_of (crate_name number) b'a'
    ∷ file_of (wheel_name number) b'c'
    ∷ file_of (sdist_name number) b'b'
    ∷ file_of report_name b'd'
    ∷ []

abbrev released_now : GitHub
released_now = record { release = out_now; ref = annotated; lookup = pointing }

abbrev empty_registries : Outside
empty_registries = record {
  tag = codes "v1.2.3";
  cargo = cargo;
  python = python;
  status = [];
  head = commit;
  before = released_now;
  later = released_now;
  directory = sorted_bundle;
  remote = remote_sum;
  has_secrets = true;
  crates = λ k. if k == 0 then none else crate_there;
  projects = λ k. if k == 0 then none else both_there;
  packaged = repeated 64 b'a';
  run_id = some (codes "1");
}

crate_once : count is_crate (publish sum_of parsed empty_registries []).1 ≡ 1
unfolding fullmatch version_for source_info release_info dereference validate_bundle bad_layout
    bad_report bad_sums check_report check_sums read_report read_sums_file read_sums digest
    checksum_pattern finish_notes edit_notes publication_block publish publish_all publish_crate
    upload_assets upload_python wait_visible attach_assets registry_state check_crate check_files
    split_lines
crate_once = refl

publish-AssetsFirst_example :
    AssetsFirst (publish sum_of parsed empty_registries []).1
    × (count is_crate (publish sum_of parsed empty_registries []).1 ≤ 1)
publish-AssetsFirst_example = publish-AssetsFirst sum_of parsed empty_registries

crate_out : 0 < count is_crate (publish sum_of parsed empty_registries []).1
crate_out = omega (arith, crate_once)

publish-crate_example : Permits sum_of parsed empty_registries
publish-crate_example = publish-crate sum_of parsed empty_registries crate_out

release_accepted : release_info pointing annotated out_now (codes "v1.2.3") commit ≡ ok out_now
unfolding release_info dereference
release_accepted = refl

release_info-LeadsTo_example :
    (out_now ≡ out_now)
    × (out_now.tag_name ≡ codes "v1.2.3")
    × (out_now.is_draft ≡ false)
    × (out_now.is_prerelease ≡ false)
    × LeadsTo pointing commit 5 annotated
release_info-LeadsTo_example =
    release_info-LeadsTo pointing annotated out_now out_now (codes "v1.2.3") commit release_accepted
