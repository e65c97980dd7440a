-- ===== src/Release/Visible.antt =====
-- What `publish` has seen in the registries when it succeeds.

use ai_protocol.Base.{ℕ, ◌+◌, ◌≤◌, ◌≡◌, Bool, true, false, Option, none, some, List, []}
use ai_protocol.Base.Lists.{count, All}
use ai_protocol.Result.{Result, ok}
use ai_protocol.Release.Name.{Text, mem, find, keys}
use ai_protocol.Release.Version.{crate_name, sdist_name, wheel_name}
use ai_protocol.Release.Bundle.{Report}
use ai_protocol.Release.Registry.{Crate, Project, published, IsExpected}
use ai_protocol.Release.Publish.{Effect, slept, Outside, query}
use ai_protocol.Release.Order.{Accepted}

abbrev pub is_sleep : Effect → Bool
is_sleep (slept n) = true
is_sleep e = false

abbrev pub sleeps : List Effect → ℕ
sleeps = count is_sleep

-- The crate of this version is on crates.io, with the expected checksum.
abbrev pub HasCrate : Text → List (Text × Text) → Option Crate → Type 0
HasCrate version checksums none = ⊥
HasCrate version checksums (some c) =
    (c.num ≡ version) × (find (crate_name version) checksums ≡ some c.checksum)

-- Both distributions are on PyPI, and all that is there has the expected checksum.
abbrev pub HasProject : Text → List (Text × Text) → Option Project → Type 0
HasProject version checksums python =
    (mem (sdist_name version) (keys (published python)) ≡ true)
    × (mem (wheel_name version) (keys (published python)) ≡ true)
    × All (IsExpected checksums) (published python)

module _ (outside : Outside) (version commit : Text) where
  -- The wait ended with a query that found everything, and slept once before each query but its first.
  abbrev Seen : List (Text × Text) → ℕ → ℕ → ℕ → ℕ → Type 0
  Seen checksums k left before after =
      (j : ℕ) × (k ≤ j)
      × (j ≤ k + left)
      × (after + k ≡ before + j)
      × (query outside version commit checksums j ≡ ok (true, []))

  -- The wait after the uploads, whose first query is the one with number 1.
  abbrev pub SeenAfter : List (Text × Text) → List Effect → Type 0
  SeenAfter checksums t =
      (j : ℕ) × (1 ≤ j)
      × (j ≤ 12)
      × (j ≡ sleeps t + 1)
      × HasCrate version checksums (outside.crates j)
      × HasProject version checksums (outside.projects j)

module _ (sha256 : List ℕ → Text) (parse : List ℕ → Result Report) (outside : Outside) where
  -- The bundle was accepted, and a query of the wait after the uploads found what it holds.
  abbrev pub IsVisible : List Effect → Type 0
  IsVisible t =
      (version : Text) × (commit : Text) × (checksums : List (Text × Text)) × Accepted sha256 parse
        outside version commit checksums
      × SeenAfter outside version commit checksums t

  abbrev Succeeds : Result (Unit {0}) × List Effect → Type 0
  Succeeds x = x.0 ≡ ok tt → IsVisible x.1
