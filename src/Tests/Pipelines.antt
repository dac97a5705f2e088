-- ===== src/Tests/Pipelines.antt =====
-- A small file through the pipeline.
use c_dedup.Base.{◌≡◌, some, List, [], ◌∷◌, concat, All, Bytes, arith, ◌>>=◌}
use c_dedup.Chunking.{fixed}
use c_dedup.Chunking.Split.{Fits}
use c_dedup.Backup.{start_writer, write_end}
use c_dedup.Pipeline.Dedup.{task_write_pipeline}
use c_dedup.Backup.Loop.{write_chunks}
use c_dedup.Pipeline.Serial.{with_reverse}
use c_dedup.Pipeline.Whole.{task_write_pipeline-write_chunks}
use c_dedup.Tests.Toy.{toy_sha1, input, empty_store, toy_globals}

abbrev path : Bytes
path = 47 ∷ 102 ∷ []

task_write_pipeline-write_chunks_example :
    (pieces : List Bytes) × (concat pieces ≡ input)
    × All (Fits 2) pieces
    × (task_write_pipeline toy_sha1 (fixed 2) 8 toy_globals path input empty_store ≡ (
        write_chunks toy_sha1 pieces (start_writer empty_store) >>= λ w.
        some (with_reverse [] (write_end w))))
task_write_pipeline-write_chunks_example =
    task_write_pipeline-write_chunks toy_sha1 (fixed 2) 8 toy_globals path input empty_store
      (omega arith) (omega arith)
