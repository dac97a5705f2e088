-- ===== src/Merkle/Leaves.antt =====
-- The leaves of a Merkle tree, in order: src/merkle_tree.cpp.
use c_dedup.Base.{
  ℕ, zero, suc, ◌+◌, ◌-◌, ◌%◌, ◌<◌, ◌≡◌, pos→ne_zero, ==_iff, refl, sym, ap, ◌∙◌, true, false,
  Option, some, List, [], ◌∷◌, ◌++◌, arith, ◌==◌, if◌then◌else◌, All, Bytes, append_assoc,
  append-nil, Bool-cases, inl, inr,
}
use c_dedup.Merkle.{
  Node, leaf, parent, Nodes, nil, cons, add, size, last_hash, groups, build_level1, build_levelx,
  build_levels, build_tree,
}

-- A chunk: its offset, length and hash.
abbrev pub Place : Type 0
Place = ℕ × ℕ × Bytes

unfoldable mutual
  pub leaves : Node → List Place
  leaves (leaf file_offset chunk_length found hash) = (file_offset, chunk_length, hash) ∷ []
  leaves (parent level found hash children) = leaves_of children

  pub leaves_of : Nodes → List Place
  leaves_of nil = []
  leaves_of (cons n nodes) = leaves n ++ leaves_of nodes

leaves_of-add : (nodes : Nodes) (n : Node) → leaves_of (add nodes n) ≡ leaves_of nodes ++ leaves n
unfolding leaves leaves_of
leaves_of-add nil n = append-nil (leaves n)
leaves_of-add (cons m ms) n =
    ap (◌++◌ (leaves m)) (leaves_of-add ms n)
    ∙ sym (append_assoc (leaves m) (leaves_of ms) (leaves n))

size-add : (nodes : Nodes) (n : Node) → size (add nodes n) ≡ size nodes + 1
size-add nil n = refl
size-add (cons m ms) n = ap (λ k. k + 1) (size-add ms n)

nothing : (nodes : Nodes) → size nodes ≡ 0 → leaves_of nodes ≡ []
unfolding leaves leaves_of
nothing nil h = refl
nothing (cons n nodes) h = absurd (omega arith)

module _ (sha1 : Bytes → Bytes) (stale : Bytes) where
  -- The groups and what is left have the leaves of the level below, in order.
  groups-leaves_of :
      (k p : ℕ) (gathered nodes : Nodes)
      → leaves_of (groups sha1 stale k p gathered nodes).0
          ++ leaves_of (groups sha1 stale k p gathered nodes).1
        ≡ leaves_of gathered ++ leaves_of nodes
  unfolding groups leaves leaves_of
  groups-leaves_of k p gathered nil = sym (append-nil (leaves_of gathered))
  groups-leaves_of k p gathered (cons n nodes) =
      let here =
        ap (λ xs. xs ++ leaves_of nodes) (leaves_of-add gathered n)
        ∙ append_assoc (leaves_of gathered) (leaves n) (leaves_of nodes) in
      elim (Bool-cases (size (add gathered n) % k == 0)) [
        | inl full ↦
            let next = groups sha1 stale k p nil nodes in
            rw full (
              append_assoc (leaves_of (add gathered n)) (leaves_of next.0) (leaves_of next.1)
              ∙ (ap (◌++◌ (leaves_of (add gathered n))) (groups-leaves_of k p nil nodes) ∙ here))
        | inr room ↦ rw room (groups-leaves_of k p (add gathered n) nodes ∙ here)
      ]

  -- Not all is lost: there is a node, or one that is left.
  groups-size :
      (k p : ℕ) (gathered nodes : Nodes)
      → 0 < size gathered + size nodes
      → 0
        < size (groups sha1 stale k p gathered nodes).0
          + size (groups sha1 stale k p gathered nodes).1
  unfolding groups
  groups-size k p gathered nil h = omega (arith, h)
  groups-size k p gathered (cons n nodes) h = elim (Bool-cases (size (add gathered n) % k == 0)) [
    | inl full ↦ rw full (omega arith)
    | inr room ↦
        rw room (groups-size k p (add gathered n) nodes (omega (arith, size-add gathered n)))
  ]

  -- A level has the leaves of the one below, in order, and is not empty.
  Covers : Nodes → Option Nodes → Type 0
  Covers below r =
      (level : Nodes) × (r ≡ some level) × (leaves_of level ≡ leaves_of below) × (0 < size level)

  build_levelx-Covers :
      (k p : ℕ) (below : Nodes) → 0 < size below → Covers below (build_levelx sha1 stale k p below)
  unfolding build_levelx Covers leaves leaves_of
  build_levelx-Covers k p below h =
      let level = groups sha1 stale k p nil below in
      let whole = groups-leaves_of k p nil below in
      let there : (size below == 0) ≡ false = pos→ne_zero (size below) h in
      let some_there = groups-size k p nil below (omega (arith, h)) in
      elim (Bool-cases (size level.1 == 0)) [
        | inl full ↦
            let empty = (==_iff (size level.1) 0).0 full in
            (
              level.0,
              rw (there, full),
              sym (append-nil (leaves_of level.0))
                  ∙ (ap (◌++◌ (leaves_of level.0)) (sym (nothing level.1 empty)) ∙ whole),
              omega (arith, some_there, empty),
            )
        | inr rest ↦
            let last = parent p true (sha1 (last_hash level.1)) level.1 in
            (
              add level.0 last,
              rw (there, rest),
              leaves_of-add level.0 last ∙ whole,
              omega (arith, size-add level.0 last),
            )
      ]

  build_level1-Covers :
      (k : ℕ) (nodes : Nodes) → 0 < size nodes → Covers nodes (build_level1 sha1 stale k nodes)
  unfolding build_level1 Covers leaves leaves_of
  build_level1-Covers k nodes h =
      let level = groups sha1 stale k 1 nil nodes in
      let there : (size nodes == 0) ≡ false = pos→ne_zero (size nodes) h in
      let hash = (if size level.1 == 0 then stale else sha1 (last_hash level.1)) in
      let last = parent 1 true hash level.1 in
      (
        add level.0 last,
        rw there,
        leaves_of-add level.0 last ∙ groups-leaves_of k 1 nil nodes,
        omega (arith, size-add level.0 last),
      )

  abbrev Same : Nodes → Nodes → Type 0
  Same nodes level = leaves_of level ≡ leaves_of nodes

  build_levels-Same :
      (left k p : ℕ) (nodes below : Nodes)
      → 0 < size below
      → Same nodes below
      → (levels : List Nodes) × (build_levels sha1 stale left k p below ≡ some levels)
        × All (Same nodes) levels
  unfolding build_levels Covers
  build_levels-Same zero k p nodes below h same = (below ∷ [], refl, (same, tt))
  build_levels-Same (suc left) k p nodes below h same = elim (Bool-cases (size below == 1)) [
    | inl one ↦ (below ∷ [], rw one refl, (same, tt))
    | inr more ↦
        let (level, run, covers, some_there) = build_levelx-Covers k p below h in
        let (levels, runs, all) =
          build_levels-Same left k (p + 1) nodes level some_there (covers ∙ same) in
        (below ∷ levels, rw (more, run, runs) refl, (same, all))
  ]

  -- A tree over at least one chunk is built, and the leaves of each of its levels are the chunks, each
  -- once and in order.
  pub build_tree-leaves_of :
      (k max_level : ℕ) (nodes : Nodes)
      → 0 < size nodes
      → (levels : List Nodes) × (build_tree sha1 stale k max_level nodes ≡ some levels)
        × All (λ level. leaves_of level ≡ leaves_of nodes) levels
  unfolding build_tree Covers
  build_tree-leaves_of k max_level nodes h =
      let (level, run, covers, some_there) = build_level1-Covers k nodes h in
      let (levels, runs, all) =
        build_levels-Same (max_level - 1) k 2 nodes level some_there covers in
      (levels, rw (run, runs) refl, all)
