-- ===== src/Merkle/Write.antt =====
-- The task `write` with a Merkle tree: main.cpp, `TASK_WRITE` up to `goto writend`.
--
-- The vector `L0_nodes`, whose members the tree points to, is read off the tree as its leaves. At most
-- `FILE_CACHE` bytes of the input are read, at once. `none` is an `exit`, or a loop out of fuel.
use c_dedup.Base.{
  ℕ, zero, suc, ◌+◌, ◌%◌, ◌^◌, true, Option, none, some, List, [], ◌∷◌, ltb, ◌==◌, if◌then◌else◌,
  length, take, drop, window, Bytes, value_or, ◌>>=◌,
}
use c_dedup.Store.{Store}
use c_dedup.Metadata.{file_cache}
use c_dedup.Chunking.{Globals, Chunking, run_chunking}
use c_dedup.Backup.{Writer, start_writer, save_chunk_to_container, finish_write}
use c_dedup.Merkle.{
  Node, leaf, parent, Nodes, nil, cons, Meta, build_tree, mark_non_duplicate_nodes,
}

-- The constructor of `L0_node`: the offset has 32 bits, the length 16.
abbrev pub l0_node : ℕ → ℕ → Bytes → Node
l0_node file_offset chunk_length hash =
    leaf (file_offset % 2 ^ 32) (chunk_length % 2 ^ 16) true hash

abbrev pub join : Nodes → Nodes → Nodes
join nil more = more
join (cons n nodes) more = cons n (join nodes more)

-- The nodes of level 0 below a node, with their marks.
unfoldable mutual
  pub l0_nodes : Node → Nodes
  l0_nodes (leaf file_offset chunk_length found hash) =
      cons (leaf file_offset chunk_length found hash) nil
  l0_nodes (parent level found hash children) = l0_nodes_of children

  pub l0_nodes_of : Nodes → Nodes
  l0_nodes_of nil = nil
  l0_nodes_of (cons n nodes) = join (l0_nodes n) (l0_nodes_of nodes)

-- One round of the loop that saves what was not found.
unfoldable pub store_node : Bytes → Node → Writer → Writer
store_node cache (leaf file_offset chunk_length found hash) w =
    let w' = record w { sum_chunks = w.sum_chunks + 1; sum_size = w.sum_size + chunk_length } in
    if found
    then record w' { dedup_chunks = w.dedup_chunks + 1; dedup_size = w.dedup_size + chunk_length }
    else save_chunk_to_container (window file_offset chunk_length cache) hash w'
store_node cache (parent level found hash children) w = w

unfoldable pub store_nodes : Bytes → Nodes → Writer → Writer
store_nodes cache nil w = w
store_nodes cache (cons n nodes) w = store_nodes cache nodes (store_node cache n w)

-- The files of hashes: that of level 0 is the index.
abbrev pub meta_files : Meta → Store → Meta
meta_files files s p = if p == 0 then value_or s.fingerprints [] else files p

module _ (sha1 : Bytes → Bytes) where
  -- The loop that cuts the cache up: the nodes, and the recipe.
  unfoldable pub gather_l0 : ℕ → Chunking → ℕ → Bytes → Globals → Option (Nodes × List Bytes)
  gather_l0 zero chunking file_offset cache g = none
  gather_l0 (suc fuel) chunking file_offset cache g =
      let cut = run_chunking chunking cache (length cache) g in
      let chunk = take cut.0 cache in
      let next =
        gather_l0 fuel chunking (file_offset + length chunk) (drop cut.0 cache) cut.1 >>= λ r.
        some (cons (l0_node file_offset (length chunk) (sha1 chunk)) r.0, sha1 chunk ∷ r.1) in
      if ltb 0 (length cache) then next else some (nil, [])

  unfoldable pub task_write_merkle :
      Bytes → Chunking → Globals → Bytes → Meta → Store → Option (Store × Meta)
  task_write_merkle stale chunking g input files s =
      let cache = take file_cache input in
      gather_l0 (length cache + 1) chunking 0 cache g >>= λ l0.
      build_tree sha1 stale 10 6 l0.0 >>= λ tree.
      mark_non_duplicate_nodes tree (meta_files files s) >>= λ marked.
      let w = store_nodes cache (l0_nodes marked.0) (start_writer s) in
      finish_write (record w { file_recipe = l0.1 }) >>= λ s'. some (s', marked.1)
