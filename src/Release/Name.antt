-- ===== src/Release/Name.antt =====
-- Texts as names: equality, membership, and dictionaries keyed by them.
use ai_protocol.Base.{
  ◌==◌, if◌then◌else◌, Bool-cases, ℕ, ◌≡◌, refl, ap, ◌∙◌, ◌↔◌, inl, inr, Bool, true, false, ◌&&◌,
  Option, none, some, List, [], ◌∷◌, arith,
}
use ai_protocol.Base.Lists.{all, any}
use ai_protocol.Result.{key_error, Result, ok, err}

abbrev pub Text : Type 0
Text = List ℕ

abbrev pub eq_text : Text → Text → Bool
eq_text [] [] = true
eq_text [] (d ∷ t) = false
eq_text (c ∷ s) [] = false
eq_text (c ∷ s) (d ∷ t) = c == d && eq_text s t

pub eq_text_iff : (s t : Text) → (eq_text s t ≡ true) ↔ (s ≡ t)
eq_text_iff [] [] = (λ h. refl, λ h. refl)
eq_text_iff [] (d ∷ t) = (λ h. cc, λ h. cc)
eq_text_iff (c ∷ s) [] = (λ h. cc, λ h. cc)
eq_text_iff (c ∷ s) (d ∷ t) =
    let ih = eq_text_iff s t in (λ h. ground (arith, ih), λ h. ground (arith, ih))

-- `name in names`
abbrev pub mem : Text → List Text → Bool
mem x names = any (eq_text x) names

abbrev pub subset : List Text → List Text → Bool
subset xs ys = all (λ x. mem x ys) xs

-- `set(xs) == set(ys)`
abbrev pub same_set : List Text → List Text → Bool
same_set xs ys = subset xs ys && subset ys xs

abbrev pub find {ℓ} : {V : Type ℓ} → Text → List (Text × V) → Option V
find k [] = none
find k ((j, v) ∷ d) = let rest = find k d in if eq_text k j then some v else rest

-- `d[k]`
abbrev pub item {ℓ} : {V : Type ℓ} → Text → List (Text × V) → Result V
item k d = elim (find k d) [ none ↦ err key_error | some v ↦ ok v ]

abbrev pub keys {ℓ} : {V : Type ℓ} → List (Text × V) → List Text
keys [] = []
keys ((k, v) ∷ d) = k ∷ keys d

-- The tests of membership as statements about positions in the list.
pub data IsIn (x : Text) : List Text → Type 0 where
  here : {y : Text} {ys : List Text} → x ≡ y → IsIn x (y ∷ ys)
  there : {y : Text} {ys : List Text} → IsIn x ys → IsIn x (y ∷ ys)

pub mem-IsIn : (x : Text) (names : List Text) → mem x names ≡ true → IsIn x names
mem-IsIn x [] h = cc
mem-IsIn x (y ∷ ys) h = elim (Bool-cases (eq_text x y)) [
  | inl same ↦ here ((eq_text_iff x y).0 same)
  | inr other ↦ there (mem-IsIn x ys (rw other at h))
]

pub IsIn-mem : (x : Text) {names : List Text} → IsIn x names → mem x names ≡ true
IsIn-mem x (here {y = y} e) = rw ((eq_text_iff x y).1 e)
IsIn-mem x (there {y = y} i) = let ih = IsIn-mem x i in ground arith

pub all-IsIn :
    (p : Text → Bool) (x : Text) {names : List Text}
    → IsIn x names
    → all p names ≡ true
    → p x ≡ true
all-IsIn p x (here {y = y} {ys = ys} e) h = let head : p y ≡ true = ground arith in ap p e ∙ head
all-IsIn p x (there {y = y} {ys = ys} i) h = all-IsIn p x i (ground arith)
