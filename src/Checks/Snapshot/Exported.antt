-- ===== src/Checks/Snapshot/Exported.antt =====
-- What the clean snapshot holds.
use ai_protocol.Base.{
  Bool-cases, ℕ, ◌≡◌, refl, sym, ap, ◌∙◌, ◌⊎◌, inl, inr, Bool, true, false, ◌&&◌, ◌||◌, List, [],
  ◌∷◌, arith,
}
use ai_protocol.Base.Lists.{any, keep, All}
use ai_protocol.Base.Text.{codes, starts_with}
use ai_protocol.Result.{ok, raise_if, >>=-ok}
use ai_protocol.Release.Name.{Text, eq_text, eq_text_iff, mem, keys, IsIn, IsIn-mem}
use ai_protocol.Release.Prepare.{insert_text, sort_texts}
use ai_protocol.Checks.Snapshot.{
  split_zero, distinct, is_nonempty, Tree, intended, local_parts, is_local, copy_paths, snapshot,
}

mem-insert_text :
    (x n : Text) (ns : List Text) → mem x (insert_text n ns) ≡ (eq_text x n || mem x ns)
mem-insert_text x n [] = refl
mem-insert_text x n (m ∷ ms) = ground (arith, mem-insert_text x n ms)

mem-sort_texts : (x : Text) (ns : List Text) → mem x (sort_texts ns) ≡ mem x ns
mem-sort_texts x [] = refl
mem-sort_texts x (n ∷ ns) =
    mem-insert_text x n (sort_texts ns) ∙ ap (λ b. eq_text x n || b) (mem-sort_texts x ns)

mem-distinct : (x : Text) (ns : List Text) → mem x (distinct ns) ≡ mem x ns
mem-distinct x [] = refl
mem-distinct x (n ∷ ns) = elim (Bool-cases (mem n (distinct ns))) [
  | inr new ↦ rw new (ap (λ b. eq_text x n || b) (mem-distinct x ns))
  | inl old ↦ elim (Bool-cases (eq_text x n)) [
    | inr other ↦ rw old (rw other (mem-distinct x ns))
    | inl same ↦ rw old (rw same (ap (λ u. mem u (distinct ns)) ((eq_text_iff x n).0 same) ∙ old))
  ]
]

mem-keep : (p : Text → Bool) (x : Text) (ns : List Text) → mem x (keep p ns) ≡ (p x && mem x ns)
mem-keep p x [] = ground arith
mem-keep p x (n ∷ ns) = elim (Bool-cases (eq_text x n)) [
  | inl same ↦
      let alike : p x ≡ p n = ap p ((eq_text_iff x n).0 same) in ground (arith, mem-keep p x ns)
  | inr other ↦ ground (arith, mem-keep p x ns)
]

module _ (sha256 : List ℕ → Text) (t : Tree) where
  -- A path that may be copied: no part of it is that of a local directory, its name does not begin
  -- with `.env`, unless it is `.env.example`, and it is no symbolic link.
  pub record IsPublished (p : Text) : Type 0 where
    pub parts : All (λ part. ¬ IsIn part local_parts) (t.parts p)
    pub name : (starts_with (t.name p) (codes ".env") ≡ false) ⊎ (t.name p ≡ codes ".env.example")
    pub solid : t.is_symlink p ≡ false

  no_local_part :
      (ps : List Text)
      → any (λ part. mem part local_parts) ps ≡ false
      → All (λ part. ¬ IsIn part local_parts) ps
  no_local_part [] h = tt
  no_local_part (p ∷ ps) h =
      let fine : mem p local_parts ≡ false = ground arith in
      (
        λ i. let both : false ≡ true = sym fine ∙ IsIn-mem p i in cc,
        no_local_part ps (ground arith),
      )

  not_local-IsPublished : (p : Text) → is_local t p ≡ false → t.is_symlink p ≡ false → IsPublished p
  unfolding is_local
  not_local-IsPublished p h k = record {
    parts = no_local_part (t.parts p) (ground arith);
    name = elim (Bool-cases (starts_with (t.name p) (codes ".env"))) [
      | inr plain ↦ inl plain
      | inl dotted ↦ inr ((eq_text_iff (t.name p) (codes ".env.example")).0 (ground arith))
    ];
    solid = k;
  }

  copied_paths :
      (ps : List Text) (hashes : List (Text × Text))
      → copy_paths sha256 t ps ≡ ok hashes
      → (keys hashes ≡ ps) × All (λ f. IsPublished f.0 × (f.1 ≡ sha256 (t.content f.0))) hashes
  unfolding copy_paths
  copied_paths [] hashes h = let none_copied : [] ≡ hashes = cc in rw (← none_copied) (refl, tt)
  copied_paths (p ∷ ps) hashes h =
      let (u, shared, h1) = >>=-ok (raise_if (is_local t p) _) _ h in
      let (v, solid, h2) = >>=-ok (raise_if (t.is_symlink p) _) _ h1 in
      let (others, rest, h3) = >>=-ok (copy_paths sha256 t ps) _ h2 in
      let (named, good) = copied_paths ps others rest in
      let same : (p, sha256 (t.content p)) ∷ others ≡ hashes = cc in
      rw (← same) (
        ap (λ (x : List Text). p ∷ x) named,
        ((not_local-IsPublished p (ground arith) (ground arith), refl), good),
      )

  -- If the snapshot is made, a path is in it exactly if git lists it, it is not empty and it is a
  -- file; no path in it is local (by a directory, or as a file `.env…` but `.env.example`) or a
  -- symbolic link; and the checksum that is noted for it is that of what the file holds.
  pub snapshot-IsPublished :
      (listing : Text) (hashes : List (Text × Text))
      → snapshot sha256 t listing ≡ ok hashes
      → ((p : Text)
          → mem p (keys hashes) ≡ ((is_nonempty p && t.is_file p) && mem p (split_zero [] listing)))
        × All (λ f. IsPublished f.0 × (f.1 ≡ sha256 (t.content f.0))) hashes
  unfolding snapshot intended
  snapshot-IsPublished listing hashes h =
      let (named, good) = copied_paths (intended t listing) hashes h in
      let wanted = keep (λ p. is_nonempty p && t.is_file p) (split_zero [] listing) in
      (
        λ p.
            ap (mem p) named
            ∙ mem-sort_texts p (distinct wanted)
            ∙ mem-distinct p wanted
            ∙ mem-keep (λ p. is_nonempty p && t.is_file p) p (split_zero [] listing),
        good,
      )
