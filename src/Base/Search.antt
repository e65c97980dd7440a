-- ===== src/Base/Search.antt =====
-- `needle in text`, and the elements of a list that have a property.
use Prim.Native.Nat.{ℕ}
use mathlib.Core.Path.{◌≡◌, refl, sym, ap, ◌∙◌}
use mathlib.Core.Logic.{◌↔◌, inl, inr}
use mathlib.Core.Bool.{Bool, true, false, ◌||◌}
use mathlib.Core.List.{List, [], ◌∷◌, ◌++◌}
use native.Mathlib.Omega.{arith}
use ai_protocol.Base.Tests.{Bool-cases}
use ai_protocol.Base.Lists.{keep}
use ai_protocol.Base.Text.{starts_with}

abbrev pub contains : List ℕ → List ℕ → Bool
contains needle [] = starts_with [] needle
contains needle (c ∷ s) = starts_with (c ∷ s) needle || contains needle s

abbrev pub OccursIn : List ℕ → List ℕ → Type 0
OccursIn needle s = (before : List ℕ) × (after : List ℕ) × (s ≡ before ++ (needle ++ after))

starts_with-prefix : (s p : List ℕ) → starts_with s p ≡ true → (rest : List ℕ) × (s ≡ p ++ rest)
starts_with-prefix s [] h = (s, refl)
starts_with-prefix [] (c ∷ p) h = cc
starts_with-prefix (d ∷ s) (c ∷ p) h =
    let (rest, e) = starts_with-prefix s p (ground arith) in (rest, ground arith)

starts_with_append : (p rest : List ℕ) → starts_with (p ++ rest) p ≡ true
starts_with_append [] rest = refl
starts_with_append (c ∷ p) rest = ground (arith, starts_with_append p rest)

contains_head : (p s : List ℕ) → starts_with s p ≡ true → contains p s ≡ true
contains_head p [] h = h
contains_head p (c ∷ s) h = rw h refl

contains_sound : (needle s : List ℕ) → contains needle s ≡ true → OccursIn needle s
contains_sound needle [] h = let (rest, e) = starts_with-prefix [] needle h in ([], rest, e)
contains_sound needle (c ∷ s) h = elim (Bool-cases (starts_with (c ∷ s) needle)) [
  | inl now ↦ let (rest, e) = starts_with-prefix (c ∷ s) needle now in ([], rest, e)
  | inr later ↦
      let (before, after, e) = contains_sound needle s (rw later at h) in
      (c ∷ before, after, ap (λ (x : List ℕ). c ∷ x) e)
]

contains_complete :
    (needle before after : List ℕ) → contains needle (before ++ (needle ++ after)) ≡ true
contains_complete needle [] after =
    contains_head needle (needle ++ after) (starts_with_append needle after)
contains_complete needle (c ∷ before) after = ground (arith, contains_complete needle before after)

pub contains_iff : (needle s : List ℕ) → (contains needle s ≡ true) ↔ OccursIn needle s
contains_iff needle s = (
  contains_sound needle s,
  λ (before, after, e). ap (contains needle) e ∙ contains_complete needle before after,
)

-- The elements that have a property, in their order.
pub data Picks {ℓ κ} {A : Type ℓ} (P : A → Type κ) : List A → List A → Type (ℓ ⊔ κ) where
  none_left : Picks P [] []
  taken : {x : A} {xs ys : List A} → P x → Picks P xs ys → Picks P (x ∷ xs) (x ∷ ys)
  passed : {x : A} {xs ys : List A} → ¬ P x → Picks P xs ys → Picks P (x ∷ xs) ys

pub keep-Picks :
    {A : Type 0} (p : A → Bool) (P : A → Type 0) (xs : List A)
    → ((x : A) → (p x ≡ true) ↔ P x)
    → Picks P xs (keep p xs)
keep-Picks p P [] iff = none_left
keep-Picks p P (x ∷ xs) iff = elim (Bool-cases (p x)) [
  | inl keeps ↦ rw keeps (taken ((iff x).0 keeps) (keep-Picks p P xs iff))
  | inr drops ↦ rw drops (
      passed (λ h. let both : false ≡ true = sym drops ∙ (iff x).1 h in cc) (keep-Picks p P xs iff))
]
