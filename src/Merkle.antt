-- ===== src/Merkle.antt =====
-- The Merkle tree over the chunks of a file: src/merkle_tree.cpp and include/merkle_tree.h.
--
-- A level is a list of nodes, and a tree its levels from L1 up. `none` is an `exit`, or a loop up to the
-- size less one of an empty vector. What `SHA1_Final` gives a second time, with no `SHA1_Init` between,
-- is the parameter `stale`. The size of the groups and the number of levels are at least 1.
pub mod Leaves
pub mod Fresh
pub mod Walk
pub mod Marks
pub mod Write
pub mod Unchanged
use c_dedup.Base.{
  ℕ, zero, suc, ◌+◌, ◌-◌, ◌*◌, ◌/◌, ◌%◌, Bool, true, false, Option, none, some, List, [], ◌∷◌, ◌++◌,
  ◌==◌, if◌then◌else◌, length, take, drop, Bytes, ◌>>=◌,
}
use c_dedup.Store.{sha_digest_length}
use c_dedup.FullFile.{equal_bytes}

-- `L0_node` and `LP_node`: a leaf has its offset and length, another node its level and children.
mutual
  pub data Node : Type 0 where
    leaf : ℕ → ℕ → Bool → Bytes → Node
    parent : ℕ → Bool → Bytes → Nodes → Node

  pub data Nodes : Type 0 where
    nil : Nodes
    cons : Node → Nodes → Nodes

abbrev pub hash_of : Node → Bytes
hash_of (leaf file_offset chunk_length found hash) = hash
hash_of (parent level found hash children) = hash

-- `emplace_back`
abbrev pub add : Nodes → Node → Nodes
add nil n = cons n nil
add (cons m ms) n = cons m (add ms n)

abbrev pub size : Nodes → ℕ
size nil = 0
size (cons n ns) = size ns + 1

abbrev pub last_hash : Nodes → Bytes
last_hash nil = []
last_hash (cons n nil) = hash_of n
last_hash (cons n (cons m ms)) = last_hash (cons m ms)

module _ (sha1 : Bytes → Bytes) (stale : Bytes) where
  -- The loop of `buildLevel1` and `buildLevelx`: the nodes of the level, and the nodes below that are
  -- not enough for a group. `SHA1_Init` stands in the loop, so a node has the hash of its last child's.
  unfoldable pub groups : ℕ → ℕ → Nodes → Nodes → Nodes × Nodes
  groups group_size p gathered nil = (nil, gathered)
  groups group_size p gathered (cons n nodes) =
      let here = add gathered n in
      let next = groups group_size p nil nodes in
      let more = groups group_size p here nodes in
      if size here % group_size == 0
      then (cons (parent p true (sha1 (hash_of n)) here) next.0, next.1)
      else more

  -- `buildLevel1` makes a last node whatever is left, without children if nothing is.
  unfoldable pub build_level1 : ℕ → Nodes → Option Nodes
  build_level1 group_size nodes =
      let level = groups group_size 1 nil nodes in
      let hash = (if size level.1 == 0 then stale else sha1 (last_hash level.1)) in
      if size nodes == 0 then none else some (add level.0 (parent 1 true hash level.1))

  -- `buildLevelx` after its first test.
  unfoldable pub build_levelx : ℕ → ℕ → Nodes → Option Nodes
  build_levelx group_size p below =
      let level = groups group_size p nil below in
      if size below == 0
      then none
      else (if size level.1 == 0
          then some level.0
          else some (add level.0 (parent p true (sha1 (last_hash level.1)) level.1)))

  -- The loop of `buildTree` from level `p` on, `left` levels at most; it ends above a single node.
  unfoldable pub build_levels : ℕ → ℕ → ℕ → Nodes → Option (List Nodes)
  build_levels zero group_size p below = some (below ∷ [])
  build_levels (suc left) group_size p below =
      let next = build_levelx group_size p below >>= λ level.
      build_levels left group_size (p + 1) level >>= λ levels. some (below ∷ levels) in
      if size below == 1 then some (below ∷ []) else next

  unfoldable pub build_tree : ℕ → ℕ → Nodes → Option (List Nodes)
  build_tree group_size max_level nodes =
      build_level1 group_size nodes >>= build_levels (max_level - 1) group_size 2

-- The files of hashes by level; that of level 0 is the index.
abbrev pub Meta : Type 0
Meta = ℕ → Bytes

abbrev pub l0_meta_data_size : ℕ
l0_meta_data_size = 30

-- The loops of `lookupL0` and `lookupLP`.
unfoldable pub find_hash : ℕ → ℕ → Bytes → Bytes → Bool
find_hash zero stride hash cache = false
find_hash (suc n) stride hash cache =
    let rest = find_hash n stride hash (drop stride cache) in
    if equal_bytes hash (take sha_digest_length cache) then true else rest

unfoldable pub lookup_l0 : Bytes → Meta → Bool
lookup_l0 hash files =
    let cache = take (l0_meta_data_size * (1024 * 1024)) (files 0) in
    find_hash (length cache / l0_meta_data_size) l0_meta_data_size hash cache

unfoldable pub lookup_lp : Bytes → ℕ → Meta → Bool
lookup_lp hash p files =
    let cache = take (sha_digest_length * (1024 * 1024)) (files p) in
    find_hash (length cache / sha_digest_length) sha_digest_length hash cache

unfoldable pub insert_lp : Bytes → ℕ → Meta → Meta
insert_lp hash level files p = if p == level then files level ++ hash else files p

-- `walk`, and its loop over the children.
unfoldable mutual
  pub walk : Node → Meta → Option (Node × Meta)
  walk (leaf file_offset chunk_length found hash) files =
      some
        (leaf file_offset chunk_length (if lookup_l0 hash files then found else false) hash, files)
  walk (parent level found hash children) files =
      let next = walk_children children (insert_lp hash level files) >>= λ r.
      some (parent level false hash r.0, r.1) in
      if lookup_lp hash level files
      then some (parent level found hash children, files)
      else (if size children == 0 then none else next)

  pub walk_children : Nodes → Meta → Option (Nodes × Meta)
  walk_children nil files = some (nil, files)
  walk_children (cons n nodes) files =
      walk n files >>= λ r. walk_children nodes r.1 >>= λ rest. some (cons r.0 rest.0, rest.1)

-- `markNonDuplicateNodes`: the highest level that is there has one node, or the process ends.
unfoldable pub mark_non_duplicate_nodes : List Nodes → Meta → Option (Node × Meta)
mark_non_duplicate_nodes [] files = none
mark_non_duplicate_nodes (nil ∷ []) files = none
mark_non_duplicate_nodes (cons n nil ∷ []) files = walk n files
mark_non_duplicate_nodes (cons n (cons m ms) ∷ []) files = none
mark_non_duplicate_nodes (level ∷ next ∷ levels) files =
    mark_non_duplicate_nodes (next ∷ levels) files
