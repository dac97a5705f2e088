-- ===== src/Merkle/Marks.antt =====
-- The marks that the walk of a Merkle tree leaves: src/merkle_tree.cpp, `walk` and
-- `markNonDuplicateNodes`.
use c_dedup.Base.{
  ℕ, ◌<◌, ◌≡◌, ◌⊎◌, refl, ◌∙◌, true, false, Bool, Option, none, some, arith, ◌==◌, if◌then◌else◌,
  Bytes, Bool-cases, Option-cases, inl, inr, ◌>>=◌, subst,
}
use c_dedup.Merkle.{
  Node, leaf, parent, Nodes, nil, cons, size, Meta, lookup_l0, lookup_lp, insert_lp, walk,
  walk_children,
}
use c_dedup.Merkle.Fresh.{IsFresh, AreFresh}

-- A leaf is marked as found just where the index has its hash; below a parent that is found nothing is
-- marked otherwise.
mutual
  pub IsMarked : Meta → Node → Type 0
  IsMarked files (leaf file_offset chunk_length found hash) = found ≡ lookup_l0 hash files
  IsMarked files (parent level found hash children) =
      ((found ≡ true) × AreFresh children) ⊎ ((found ≡ false) × AreMarked files children)

  pub AreMarked : Meta → Nodes → Type 0
  AreMarked files nil = Unit
  AreMarked files (cons n nodes) = IsMarked files n × AreMarked files nodes

-- A parent that is found just where the file of its level has its hash.
pub IsRoot : Meta → Node → Type 0
IsRoot files (leaf file_offset chunk_length found hash) = ⊥
IsRoot files (parent level found hash children) = found ≡ lookup_lp hash level files

same_index :
    (hash : Bytes) (files start : Meta)
    → files 0 ≡ start 0
    → lookup_l0 hash files ≡ lookup_l0 hash start
unfolding lookup_l0
same_index hash files start same = rw same refl

inserted :
    (hash : Bytes) (level : ℕ) (files start : Meta)
    → 0 < level
    → files 0 ≡ start 0
    → insert_lp hash level files 0 ≡ start 0
unfolding insert_lp
inserted hash level files start pos same =
    let other : (0 == level) ≡ false = ground (arith, pos) in rw other same

Walked : Meta → Option (Node × Meta) → Type 0
Walked start none = Unit
Walked start (some r) = IsMarked start r.0 × (r.1 0 ≡ start 0)

AllWalked : Meta → Option (Nodes × Meta) → Type 0
AllWalked start none = Unit
AllWalked start (some r) = AreMarked start r.0 × (r.1 0 ≡ start 0)

then_children :
    (start : Meta) (nodes : Nodes)
    → ((files : Meta) → files 0 ≡ start 0 → AllWalked start (walk_children nodes files))
    → (o : Option (Node × Meta)) → Walked start o
    → AllWalked start
        (o >>= λ r. walk_children nodes r.1 >>= λ rest. some (cons r.0 rest.0, rest.1))
unfolding Walked AllWalked IsMarked AreMarked
then_children start nodes rest none h = tt
then_children start nodes rest (some (n', files')) h =
    elim (Option-cases (walk_children nodes files')) [
      | inl e ↦ rw e tt
      | inr (r, e) ↦
          let more = subst (AllWalked start) e (rest files' h.1) in rw e ((h.0, more.0), more.1)
    ]

above :
    (start : Meta) (level : ℕ) (hash : Bytes) (o : Option (Nodes × Meta))
    → AllWalked start o
    → Walked start (o >>= λ r. some (parent level false hash r.0, r.1))
unfolding Walked AllWalked IsMarked AreMarked
above start level hash none h = tt
above start level hash (some r) h = (inr (refl, h.0), h.1)

as_found : (found b : Bool) → found ≡ true → (if b then found else false) ≡ b
as_found found true e = e
as_found found false e = refl

mutual
  unfolding Walked AllWalked IsMarked AreMarked IsFresh AreFresh walk walk_children

  walk-Walked :
      (start files : Meta) (n : Node) → files 0 ≡ start 0 → IsFresh n → Walked start (walk n files)
  walk-Walked start files (leaf file_offset chunk_length found hash) same fresh =
      (as_found found (lookup_l0 hash files) fresh ∙ same_index hash files start same, same)
  walk-Walked start files (parent level found hash children) same fresh =
      let below = walk_children children (insert_lp hash level files) in
      elim (Bool-cases (lookup_lp hash level files)) [
        | inl known ↦ rw known (inl (fresh.0, fresh.2), same)
        | inr unknown ↦ elim (Bool-cases (size children == 0)) [
          | inl empty ↦ rw (unknown, empty) tt
          | inr some_children ↦
              rw (unknown, some_children)
                (above start level hash below (
                  walk_children-AllWalked start (insert_lp hash level files) children
                    (inserted hash level files start fresh.1 same) fresh.2))
        ]
      ]

  walk_children-AllWalked :
      (start files : Meta) (nodes : Nodes)
      → files 0 ≡ start 0
      → AreFresh nodes
      → AllWalked start (walk_children nodes files)
  walk_children-AllWalked start files nil same fresh = (tt, same)
  walk_children-AllWalked start files (cons n nodes) same fresh =
      then_children start nodes
        (λ files same. walk_children-AllWalked start files nodes same fresh.1) (walk n files)
        (walk-Walked start files n same fresh.0)

-- What marking from the root leaves.
Rooted : Meta → Option (Node × Meta) → Type 0
Rooted files none = Unit
Rooted files (some r) = IsMarked files r.0 × IsRoot files r.0
