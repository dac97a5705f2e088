-- ===== src/Merkle/Walk.antt =====
-- The walk of a Merkle tree that marks what is not found: src/merkle_tree.cpp, `walk` and
-- `markNonDuplicateNodes`.
use c_dedup.Base.{
  ℕ, ◌<◌, ◌≡◌, refl, sym, subst, ◌∙◌, Bool, true, false, Option, none, some, List, [], ◌∷◌, ◌++◌,
  ◌==◌, if◌then◌else◌, All, Bytes, append-nil, Option-cases, inl, inr, ◌>>=◌,
}
use c_dedup.Merkle.{
  Node, leaf, parent, Nodes, nil, cons, size, Meta, lookup_lp, insert_lp, walk, walk_children,
  mark_non_duplicate_nodes, build_tree,
}
use c_dedup.Merkle.Leaves.{Place, leaves, leaves_of, build_tree-leaves_of}

-- A walk that ends keeps the leaves.
Kept : List Place → Option (Node × Meta) → Type 0
Kept places none = Unit
Kept places (some r) = leaves r.0 ≡ places

AllKept : List Place → Option (Nodes × Meta) → Type 0
AllKept places none = Unit
AllKept places (some r) = leaves_of r.0 ≡ places

then_children :
    (places more : List Place) (n : Node) (nodes : Nodes) (files : Meta)
    → ((files : Meta) → AllKept more (walk_children nodes files))
    → (o : Option (Node × Meta)) → Kept places o
    → AllKept
        (places ++ more)
        (o >>= λ r. walk_children nodes r.1 >>= λ rest. some (cons r.0 rest.0, rest.1))
unfolding Kept AllKept leaves leaves_of
then_children places more n nodes files rest none h = tt
then_children places more n nodes files rest (some (n', files')) h =
    elim (Option-cases (walk_children nodes files')) [
      | inl e ↦ rw e tt
      | inr (r, e) ↦
          let kept : leaves_of r.0 ≡ more = subst (AllKept more) e (rest files') in
          rw e (λ i. h i ++ kept i)
    ]

above :
    (places : List Place) (level : ℕ) (hash : Bytes) (o : Option (Nodes × Meta))
    → AllKept places o
    → Kept places (o >>= λ r. some (parent level false hash r.0, r.1))
unfolding Kept AllKept leaves leaves_of
above places level hash none h = tt
above places level hash (some r) h = h

choose :
    (places : List Place) (b : Bool) (x y : Option (Node × Meta))
    → Kept places x
    → Kept places y
    → Kept places (if b then x else y)
choose places true x y h g = h
choose places false x y h g = g

mutual
  unfolding Kept AllKept walk walk_children leaves leaves_of

  walk-Kept : (n : Node) (files : Meta) → Kept (leaves n) (walk n files)
  walk-Kept (leaf file_offset chunk_length found hash) files = refl
  walk-Kept (parent level found hash children) files =
      let next = walk_children children (insert_lp hash level files) >>= λ r.
      some (parent level false hash r.0, r.1) in
      choose (leaves_of children) (lookup_lp hash level files)
        (some (parent level found hash children, files)) (if size children == 0 then none else next)
        refl
        (choose (leaves_of children) (size children == 0) none next tt (
          above (leaves_of children) level hash
            (walk_children children (insert_lp hash level files))
            (walk_children-AllKept children (insert_lp hash level files))))

  walk_children-AllKept :
      (nodes : Nodes) (files : Meta) → AllKept (leaves_of nodes) (walk_children nodes files)
  walk_children-AllKept nil files = refl
  walk_children-AllKept (cons n nodes) files =
      then_children (leaves n) (leaves_of nodes) n nodes files (walk_children-AllKept nodes)
        (walk n files) (walk-Kept n files)

mark-Kept :
    (places : List Place) (levels : List Nodes) (files : Meta)
    → All (λ level. leaves_of level ≡ places) levels
    → Kept places (mark_non_duplicate_nodes levels files)
unfolding mark_non_duplicate_nodes Kept leaves leaves_of
mark-Kept places [] files same = tt
mark-Kept places (nil ∷ []) files same = tt
mark-Kept places (cons n nil ∷ []) files same =
    subst (λ places. Kept places (walk n files)) (sym (append-nil (leaves n)) ∙ same.0)
      (walk-Kept n files)
mark-Kept places (cons n (cons m ms) ∷ []) files same = tt
mark-Kept places (level ∷ next ∷ levels) files same = mark-Kept places (next ∷ levels) files same.1

-- The tree over at least one chunk is built; if marking it does not end the process, the tree that is
-- left has the chunks as its leaves, each once and in order.
pub build_tree-mark_non_duplicate_nodes :
    (sha1 : Bytes → Bytes) (stale : Bytes) (k max_level : ℕ) (nodes : Nodes)
    → 0 < size nodes
    → (levels : List Nodes) × (build_tree sha1 stale k max_level nodes ≡ some levels)
      × ((files files' : Meta) (root : Node)
          → mark_non_duplicate_nodes levels files ≡ some (root, files')
          → leaves root ≡ leaves_of nodes)
unfolding Kept
build_tree-mark_non_duplicate_nodes sha1 stale k max_level nodes h =
    let (levels, run, same) = build_tree-leaves_of sha1 stale k max_level nodes h in
    (
      levels,
      run,
      λ files files' root e.
          subst (Kept (leaves_of nodes)) e (mark-Kept (leaves_of nodes) levels files same),
    )
