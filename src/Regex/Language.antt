-- ===== src/Regex/Language.antt =====
-- The language of a regular expression, and `fullmatch` as its decision procedure.
use ai_protocol.Base.{
  Bool-cases, ℕ, ◌≡◌, refl, sym, ap, ◌∙◌, ◌↔◌, ◌⊎◌, inl, inr, true, List, [], ◌∷◌, ◌++◌, arith,
}
use mathlib.Core.Path.{subst}
use ai_protocol.Regex.{Regex, void, epsilon, chars, seq, alt, star, nullable, derive, fullmatch}

-- Finitely many words of a language in a row.
pub data Repeat (P : List ℕ → Type 0) : List ℕ → Type 0 where
  done : Repeat P []
  more : {u v w : List ℕ} → P u → Repeat P v → w ≡ u ++ v → Repeat P w

abbrev pub Matches : Regex → List ℕ → Type 0
Matches void w = ⊥
Matches epsilon w = w ≡ []
Matches (chars p) w = (c : ℕ) × (w ≡ c ∷ []) × (p c ≡ true)
Matches (seq r s) w = (u v : List ℕ) × (w ≡ u ++ v) × Matches r u × Matches s v
Matches (alt r s) w = Matches r w ⊎ Matches s w
Matches (star r) w = Repeat (Matches r) w

nullable_sound : (r : Regex) → nullable r ≡ true → Matches r []
unfolding nullable
nullable_sound void h = cc
nullable_sound epsilon h = refl
nullable_sound (chars p) h = cc
nullable_sound (seq r s) h =
    ([], [], refl, nullable_sound r (ground arith), nullable_sound s (ground arith))
nullable_sound (alt r s) h = elim (Bool-cases (nullable r)) [
  | inl yes_r ↦ inl (nullable_sound r yes_r)
  | inr no_r ↦ inr (nullable_sound s (ground arith))
]
nullable_sound (star r) h = done

append-nil_split : (u v : List ℕ) → [] ≡ u ++ v → (u ≡ []) × (v ≡ [])
append-nil_split [] v h = (refl, sym h)
append-nil_split (x ∷ u) v h = cc

nullable_complete : (r : Regex) {w : List ℕ} → w ≡ [] → Matches r w → nullable r ≡ true
unfolding nullable
nullable_complete void e m = elim m [ ]
nullable_complete epsilon e m = refl
nullable_complete (chars p) e (c, q, h) = cc
nullable_complete (seq r s) e (u, v, q, mu, mv) =
    let parts = append-nil_split u v (sym e ∙ q) in
    rw (nullable_complete r parts.0 mu, nullable_complete s parts.1 mv)
nullable_complete (alt r s) e (inl m) = rw (nullable_complete r e m)
nullable_complete (alt r s) e (inr m) = let right = nullable_complete s e m in ground arith
nullable_complete (star r) e m = refl

-- A word of `derive c (seq r s)` goes on in `r`, or, where `r` is done, begins `s`.
seq_first :
    (c : ℕ) (r s : Regex) (w : List ℕ)
    → ((u : List ℕ) → Matches (derive c r) u → Matches r (c ∷ u))
    → Matches (seq (derive c r) s) w
    → Matches (seq r s) (c ∷ w)
seq_first c r s w ih (u, v, q, mu, mv) = (c ∷ u, v, ap (λ (t : List ℕ). c ∷ t) q, ih u mu, mv)

derive_sound : (c : ℕ) (r : Regex) (w : List ℕ) → Matches (derive c r) w → Matches r (c ∷ w)
unfolding derive
derive_sound c void w m = elim m [ ]
derive_sound c epsilon w m = elim m [ ]
derive_sound c (chars p) w m = elim (Bool-cases (p c)) [
  | inl fits ↦ (c, ap (λ (t : List ℕ). c ∷ t) (rw fits at m), fits)
  | inr fails ↦ absurd (rw fails at m)
]
derive_sound c (seq r s) w m = elim (Bool-cases (nullable r)) [
  | inl skips ↦
      let k : Matches (seq (derive c r) s) w ⊎ Matches (derive c s) w = rw skips at m in
      elim k [
        | inl k ↦ seq_first c r s w (derive_sound c r) k
        | inr k ↦ ([], c ∷ w, refl, nullable_sound r skips, derive_sound c s w k)
      ]
  | inr stays ↦ seq_first c r s w (derive_sound c r) (rw stays at m)
]
derive_sound c (alt r s) w (inl m) = inl (derive_sound c r w m)
derive_sound c (alt r s) w (inr m) = inr (derive_sound c s w m)
derive_sound c (star r) w (u, v, q, mu, mv) =
    more (derive_sound c r u mu) mv (ap (λ (t : List ℕ). c ∷ t) q)

-- Both ways on are words of `derive c (seq r s)`.
derive-seq_first :
    (c : ℕ) (r s : Regex) (w : List ℕ)
    → Matches (seq (derive c r) s) w
    → Matches (derive c (seq r s)) w
unfolding derive
derive-seq_first c r s w m = elim (Bool-cases (nullable r)) [
  | inl skips ↦ rw skips (inl m)
  | inr stays ↦ rw stays m
]

-- The first word of a row that is not empty takes the first character.
star_first :
    (c : ℕ) (r : Regex) {x : List ℕ} (w : List ℕ)
    → ((u : List ℕ) → Matches r (c ∷ u) → Matches (derive c r) u)
    → Repeat (Matches r) x
    → x ≡ c ∷ w
    → Matches (seq (derive c r) (star r)) w
star_first c r w ih done e = cc
star_first c r w ih (more {u = []} m k q) e = star_first c r w ih k (sym q ∙ e)
star_first c r w ih (more {u = d ∷ u} {v = v} m k q) e =
    let p : d ∷ u ++ v ≡ c ∷ w = sym q ∙ e in
    let head : d ≡ c = cc in
    let rest : w ≡ u ++ v = cc in
    (u, v, rest, ih u (subst (λ (t : ℕ). Matches r (t ∷ u)) head m), k)

derive_complete : (c : ℕ) (r : Regex) (w : List ℕ) → Matches r (c ∷ w) → Matches (derive c r) w
unfolding derive
derive_complete c void w m = elim m [ ]
derive_complete c epsilon w m = cc
derive_complete c (chars p) w (d, q, h) =
    let same : c ≡ d = cc in let rest : w ≡ [] = cc in rw (same, h) rest
derive_complete c (seq r s) w ([], v, q, mu, mv) =
    rw (nullable_complete r refl mu) (inr (derive_complete c s w (subst (Matches s) (sym q) mv)))
derive_complete c (seq r s) w (d ∷ u, v, q, mu, mv) =
    let same : d ≡ c = cc in
    let rest : w ≡ u ++ v = cc in
    derive-seq_first c r s w
      (u, v, rest, derive_complete c r u (subst (λ (t : ℕ). Matches r (t ∷ u)) same mu), mv)
derive_complete c (alt r s) w (inl m) = inl (derive_complete c r w m)
derive_complete c (alt r s) w (inr m) = inr (derive_complete c s w m)
derive_complete c (star r) w m = star_first c r w (derive_complete c r) m refl

-- `fullmatch` accepts exactly the words of the language.
pub fullmatch_iff : (r : Regex) (w : List ℕ) → (fullmatch r w ≡ true) ↔ Matches r w
unfolding fullmatch
fullmatch_iff r [] = (nullable_sound r, nullable_complete r refl)
fullmatch_iff r (c ∷ w) =
    let ih = fullmatch_iff (derive c r) w in
    (λ h. derive_sound c r w (ih.0 h), λ m. ih.1 (derive_complete c r w m))
