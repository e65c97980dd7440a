-- ===== src/World.antt =====
-- Effects by explicit state passing; what a computation wrote stays written after a raise. A `World`
-- is the time, in milliseconds, and the events so far, the newest first.
use ai_protocol.Base.{ℕ, List}
use ai_protocol.Result.{Exception, Result, ok, err}

pub record World (E : Type 0) : Type 0 where
  pub now : ℕ
  pub trace : List E

abbrev pub Action : Type 0 → Type 0 → Type 0
Action S A = S → Result A × S

module _ {S A : Type 0} where
  abbrev pub pure : A → Action S A
  pure a w = (ok a, w)

  abbrev pub raise : Exception → Action S A
  raise e w = (err e, w)

  -- A computation without effects that may raise.
  abbrev pub lift : Result A → Action S A
  lift r w = (r, w)

-- The rest of a `do` block, by how its first part ended.
abbrev pub resume : {S A B : Type 0} → (A → Action S B) → Result A × S → Result B × S
resume f (ok a, w) = f a w
resume f (err e, w) = (err e, w)

infixl 5 ◌>>=◌ ◌>>◌
abbrev pub ◌>>=◌ : {S A B : Type 0} → Action S A → (A → Action S B) → Action S B
◌>>=◌ m f w = resume f (m w)

abbrev pub ◌>>◌ : {S B : Type 0} → Action S (Unit {0}) → Action S B → Action S B
m >> k = m >>= λ _. k

-- `try: m; finally: f`
abbrev pub finally : {S A : Type 0} → Action S A → (S → S) → Action S A
finally m f s = let (r, s') = m s in (r, f s')

abbrev pub gets : {S A : Type 0} → (S → A) → Action S A
gets f s = (ok (f s), s)

abbrev pub modify : {S : Type 0} → (S → S) → Action S (Unit {0})
modify f s = (ok tt, f s)
