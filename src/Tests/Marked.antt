-- ===== src/Tests/Marked.antt =====
-- A backup of three bytes with a Merkle tree.
use c_dedup.Base.{List, [], ◌∷◌, Bytes, true, false}
use c_dedup.Merkle.{Node, leaf, parent, Nodes, nil, cons, Meta, insert_lp}
use c_dedup.Merkle.Write.{meta_files}
use c_dedup.Merkle.Unchanged.{nodes_at}
use c_dedup.Tests.Toy.{toy_sha1, first_chunk, last_chunk, empty_store}

abbrev chunks : List Bytes
chunks = first_chunk ∷ last_chunk ∷ []

abbrev top : Bytes
top = toy_sha1 (toy_sha1 last_chunk)

abbrev tree : List Nodes
tree = cons (parent 1 true top (nodes_at toy_sha1 0 chunks)) nil ∷ []

abbrev no_hashes : Meta
no_hashes p = []

-- Nothing is found, so every node is marked.
abbrev marked : Node
marked =
    parent 1 false top (
      cons (leaf 0 2 false (toy_sha1 first_chunk))
        (cons (leaf 2 1 false (toy_sha1 last_chunk)) nil))

abbrev hashes : Meta
hashes = insert_lp top 1 (meta_files no_hashes empty_store)
