-- ===== src/Merkle/Unchanged.antt =====
-- What the task `write` with a Merkle tree leaves as it was: main.cpp, `TASK_WRITE`.
use c_dedup.Base.{ℕ, ◌+◌, ◌^◌, ◌<◌, ◌≡◌, false, List, [], ◌∷◌, length, Bytes, All, All-split}
use c_dedup.Store.{Store}
use c_dedup.Chunking.{Chunking}
use c_dedup.Backup.{Writer}
use c_dedup.Merkle.{Node, leaf, parent, Nodes, nil, cons}
use c_dedup.Merkle.Leaves.{Place, leaves, leaves_of}
use c_dedup.Merkle.Write.{l0_node, join, l0_nodes, l0_nodes_of}

-- A length that `L0_node` can have.
abbrev IsShort : Place → Type 0
IsShort place = place.1 < 2 ^ 16

AreShort : Nodes → Type 0
AreShort nil = Unit
AreShort (cons (leaf file_offset chunk_length found hash) nodes) =
    (chunk_length < 2 ^ 16) × AreShort nodes
AreShort (cons (parent level found hash children) nodes) = AreShort nodes

AreShort-join : (xs ys : Nodes) → AreShort xs → AreShort ys → AreShort (join xs ys)
unfolding AreShort
AreShort-join nil ys hx hy = hy
AreShort-join (cons (leaf o n f h) xs) ys hx hy = (hx.0, AreShort-join xs ys hx.1 hy)
AreShort-join (cons (parent l f h c) xs) ys hx hy = AreShort-join xs ys hx hy

mutual
  unfolding AreShort leaves leaves_of l0_nodes l0_nodes_of

  l0_nodes-AreShort : (n : Node) → All IsShort (leaves n) → AreShort (l0_nodes n)
  l0_nodes-AreShort (leaf file_offset chunk_length found hash) h = h
  l0_nodes-AreShort (parent level found hash children) h = l0_nodes_of-AreShort children h

  l0_nodes_of-AreShort :
      (nodes : Nodes) → All IsShort (leaves_of nodes) → AreShort (l0_nodes_of nodes)
  l0_nodes_of-AreShort nil h = tt
  l0_nodes_of-AreShort (cons n nodes) h =
      let (first, rest) = All-split IsShort (leaves n) (leaves_of nodes) h in
      AreShort-join (l0_nodes n) (l0_nodes_of nodes) (l0_nodes-AreShort n first)
        (l0_nodes_of-AreShort nodes rest)

-- What saving the chunks does not touch: nothing counts what is in the buffer.
record IsUnchanged (w w' : Writer) : Type 0 where
  pointer : w'.container_buf_pointer ≡ 0
  store : w'.store ≡ w.store
  manager : w'.manager ≡ w.manager
  lines : w'.rev_container_cnt ≡ 0
  inside : w'.overrun ≡ false

module _ (sha1 : Bytes → Bytes) where
  -- The nodes of chunks that lie one behind the other.
  abbrev pub nodes_at : ℕ → List Bytes → Nodes
  nodes_at file_offset [] = nil
  nodes_at file_offset (chunk ∷ chunks) =
      cons (l0_node file_offset (length chunk) (sha1 chunk))
        (nodes_at (file_offset + length chunk) chunks)
