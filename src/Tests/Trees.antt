-- ===== src/Tests/Trees.antt =====
-- A Merkle tree over three chunks, in groups of two.
use c_dedup.Base.{◌≡◌, some, List, All, replicate, true, arith}
use c_dedup.Merkle.{Nodes, leaf, nil, cons, build_tree}
use c_dedup.Merkle.Leaves.{leaves_of, build_tree-leaves_of}
use c_dedup.Tests.Toy.{toy_sha1}

abbrev three : Nodes
three =
    cons (leaf 0 2 true (replicate 20 1))
      (cons (leaf 2 2 true (replicate 20 1)) (cons (leaf 4 1 true (replicate 20 2)) nil))

build_tree-leaves_of_example :
    (levels : List Nodes) × (build_tree toy_sha1 (replicate 20 0) 2 6 three ≡ some levels)
    × All (λ level. leaves_of level ≡ leaves_of three) levels
build_tree-leaves_of_example =
    build_tree-leaves_of toy_sha1 (replicate 20 0) 2 6 three (omega arith)
