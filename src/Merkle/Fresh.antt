-- ===== src/Merkle/Fresh.antt =====
-- A Merkle tree as it is built, with every node marked as found: src/merkle_tree.cpp, `buildTree`.
use c_dedup.Base.{
  ℕ, zero, suc, ◌+◌, ◌-◌, ◌%◌, ◌<◌, ◌≡◌, refl, true, Option, none, some, List, ◌∷◌, arith, ◌==◌,
  if◌then◌else◌, All, Bytes, Bool-cases, inl, inr, ◌>>=◌, subst,
}
use c_dedup.Merkle.{
  Node, leaf, parent, Nodes, nil, cons, add, size, last_hash, groups, build_level1, build_levelx,
  build_levels, build_tree,
}

-- Every node of the tree is marked as found, and no parent is on level 0.
unfoldable mutual
  pub IsFresh : Node → Type 0
  IsFresh (leaf file_offset chunk_length found hash) = found ≡ true
  IsFresh (parent level found hash children) = (found ≡ true) × (0 < level) × AreFresh children

  pub AreFresh : Nodes → Type 0
  AreFresh nil = Unit
  AreFresh (cons n nodes) = IsFresh n × AreFresh nodes

-- The same for a node above the chunks.
unfoldable pub IsGroup : Node → Type 0
IsGroup (leaf file_offset chunk_length found hash) = ⊥
IsGroup (parent level found hash children) = IsFresh (parent level found hash children)

unfoldable pub AreGroups : Nodes → Type 0
AreGroups nil = Unit
AreGroups (cons n nodes) = IsGroup n × AreGroups nodes

IsFresh-group : (n : Node) → IsGroup n → IsFresh n
unfolding IsGroup IsFresh AreFresh
IsFresh-group (leaf o l f h) g = absurd g
IsFresh-group (parent l f h c) g = g

AreFresh-groups : (nodes : Nodes) → AreGroups nodes → AreFresh nodes
unfolding AreGroups IsFresh AreFresh
AreFresh-groups nil g = tt
AreFresh-groups (cons n nodes) g = (IsFresh-group n g.0, AreFresh-groups nodes g.1)

AreFresh-add : (nodes : Nodes) (n : Node) → AreFresh nodes → IsFresh n → AreFresh (add nodes n)
unfolding IsFresh AreFresh
AreFresh-add nil n fresh one = (one, tt)
AreFresh-add (cons m ms) n fresh one = (fresh.0, AreFresh-add ms n fresh.1 one)

AreGroups-add : (nodes : Nodes) (n : Node) → AreGroups nodes → IsGroup n → AreGroups (add nodes n)
unfolding AreGroups
AreGroups-add nil n fresh one = (one, tt)
AreGroups-add (cons m ms) n fresh one = (fresh.0, AreGroups-add ms n fresh.1 one)

module _ (sha1 : Bytes → Bytes) (stale : Bytes) where
  groups-AreGroups :
      (k p : ℕ) (gathered nodes : Nodes)
      → 0 < p
      → AreFresh gathered
      → AreFresh nodes
      → AreGroups (groups sha1 stale k p gathered nodes).0
        × AreFresh (groups sha1 stale k p gathered nodes).1
  unfolding groups IsGroup AreGroups IsFresh AreFresh
  groups-AreGroups k p gathered nil pos here more = (tt, here)
  groups-AreGroups k p gathered (cons n nodes) pos here more =
      let all = AreFresh-add gathered n here more.0 in
      elim (Bool-cases (size (add gathered n) % k == 0)) [
        | inl full ↦
            let rest = groups-AreGroups k p nil nodes pos tt more.1 in
            rw full (((refl, pos, all), rest.0), rest.1)
        | inr room ↦ rw room (groups-AreGroups k p (add gathered n) nodes pos all more.1)
      ]

  -- What is built is made of groups.
  Built : Option Nodes → Type 0
  Built none = Unit
  Built (some level) = AreGroups level

  build_levelx-Built :
      (k p : ℕ) (below : Nodes) → 0 < p → AreFresh below → Built (build_levelx sha1 stale k p below)
  unfolding build_levelx Built IsGroup IsFresh AreFresh
  build_levelx-Built k p below pos fresh =
      let level = groups sha1 stale k p nil below in
      let made = groups-AreGroups k p nil below pos tt fresh in
      elim (Bool-cases (size below == 0)) [
        | inl empty ↦ rw empty tt
        | inr more ↦ elim (Bool-cases (size level.1 == 0)) [
          | inl full ↦ rw (more, full) made.0
          | inr rest ↦
              let last = parent p true (sha1 (last_hash level.1)) level.1 in
              rw (more, rest) (AreGroups-add level.0 last made.0 (refl, pos, made.1))
        ]
      ]

  build_level1-Built :
      (k : ℕ) (nodes : Nodes) → AreFresh nodes → Built (build_level1 sha1 stale k nodes)
  unfolding build_level1 Built IsGroup IsFresh AreFresh
  build_level1-Built k nodes fresh =
      let level = groups sha1 stale k 1 nil nodes in
      let made = groups-AreGroups k 1 nil nodes (omega arith) tt fresh in
      let hash = (if size level.1 == 0 then stale else sha1 (last_hash level.1)) in
      elim (Bool-cases (size nodes == 0)) [
        | inl empty ↦ rw empty tt
        | inr more ↦
            rw more (
              AreGroups-add level.0 (parent 1 true hash level.1) made.0 (refl, omega arith, made.1))
      ]

  AllBuilt : Option (List Nodes) → Type 0
  AllBuilt none = Unit
  AllBuilt (some levels) = All AreGroups levels

  on_top :
      (below : Nodes) (o : Option (List Nodes))
      → AreGroups below
      → AllBuilt o
      → AllBuilt (o >>= λ levels. some (below ∷ levels))
  unfolding AllBuilt
  on_top below none g all = tt
  on_top below (some levels) g all = (g, all)

  next_level :
      (o : Option Nodes) (f : Nodes → Option (List Nodes))
      → Built o
      → ((level : Nodes) → AreGroups level → AllBuilt (f level))
      → AllBuilt (o >>= f)
  unfolding Built AllBuilt
  next_level none f built each = tt
  next_level (some level) f built each = each level built

  build_levels-AllBuilt :
      (left k p : ℕ) (below : Nodes)
      → 0 < p
      → AreGroups below
      → AllBuilt (build_levels sha1 stale left k p below)
  unfolding build_levels AllBuilt
  build_levels-AllBuilt zero k p below pos g = (g, tt)
  build_levels-AllBuilt (suc left) k p below pos g = elim (Bool-cases (size below == 1)) [
    | inl one ↦ rw one (g, tt)
    | inr more ↦ rw more (
        next_level (build_levelx sha1 stale k p below)
          (λ level.
            build_levels sha1 stale left k (p + 1) level >>= λ levels. some (below ∷ levels))
          (build_levelx-Built k p below pos (AreFresh-groups below g))
          (λ level built.
            on_top below (build_levels sha1 stale left k (p + 1) level) g
              (build_levels-AllBuilt left k (p + 1) level (omega arith) built)))
  ]

  build_tree-AllBuilt :
      (k max_level : ℕ) (nodes : Nodes)
      → AreFresh nodes
      → AllBuilt (build_tree sha1 stale k max_level nodes)
  unfolding build_tree
  build_tree-AllBuilt k max_level nodes fresh =
      next_level (build_level1 sha1 stale k nodes) (build_levels sha1 stale (max_level - 1) k 2)
        (build_level1-Built k nodes fresh)
        (λ level built. build_levels-AllBuilt (max_level - 1) k 2 level (omega arith) built)

  -- The levels of a tree over chunks that are marked as found.
  pub build_tree-AreGroups :
      (k max_level : ℕ) (nodes : Nodes) (levels : List Nodes)
      → AreFresh nodes
      → build_tree sha1 stale k max_level nodes ≡ some levels
      → All AreGroups levels
  unfolding AllBuilt
  build_tree-AreGroups k max_level nodes levels fresh e =
      subst AllBuilt e (build_tree-AllBuilt k max_level nodes fresh)
