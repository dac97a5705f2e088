-- ===== src/Pipeline/Whole.antt =====
-- A file written by the pipeline as a whole: the branch `TASK_WRITE_PIPELINE` of main.cpp.
use c_dedup.Base.{
  ℕ, ◌<◌, ◌≡◌, refl, sym, ap, subst, ◌∙◌, Option, none, some, List, [], ◌∷◌, ◌++◌, map, concat, All,
  Bytes, ◌>>=◌, Option-cases, inl, inr,
}
use c_dedup.Store.{Store}
use c_dedup.Chunking.{Globals, Chunking}
use c_dedup.Chunking.Split.{IsReady, longest, Fits}
use c_dedup.Backup.{Writer, start_writer, write_end}
use c_dedup.Pipeline.{new_chunk, file_start, file_end, sha1_thread}
use c_dedup.Pipeline.Dedup.{init_jcr, dedup_loop, dedup_end, start_deduper, task_write_pipeline}
use c_dedup.Pipeline.Stream.{read_file-chunk_thread}
use c_dedup.Backup.Loop.{write_chunks}
use c_dedup.Pipeline.Serial.{with_reverse, seen_as, Seen, loop-Seen, end-seen}

abbrev written : Store → Option Writer → Option Store
written s w = w >>= λ w. some (with_reverse s.reverse (write_end w))

-- The last phase from the start.
dedup_thread-written :
    (sha1 : Bytes → Bytes) (path : Bytes) (pieces : List Bytes) (s : Store)
    → (dedup_loop
          (sha1_thread sha1 (file_start path ∷ (map new_chunk pieces ++ file_end ∷ [])))
          (start_deduper s)
        >>= λ d. some (dedup_end d))
      ≡ written s (write_chunks sha1 pieces (start_writer s))
unfolding dedup_loop sha1_thread start_deduper start_writer Seen
dedup_thread-written sha1 path pieces s =
    let (j, seen) = loop-Seen s.reverse sha1 pieces init_jcr (start_writer s) refl in
    let o =
      dedup_loop (sha1_thread sha1 (map new_chunk pieces ++ file_end ∷ []))
        (seen_as s.reverse init_jcr (start_writer s)) in
    elim (Option-cases (write_chunks sha1 pieces (start_writer s))) [
      | inl e ↦
          let stopped : o ≡ none = subst (Seen s.reverse j o) e seen in
          ap (λ o. o >>= λ d. some (dedup_end d)) stopped ∙ sym (ap (written s) e)
      | inr (w, e) ↦
          let ran : (o ≡ some (seen_as s.reverse j w))
              × (w.container_inner_offset ≡ w.container_buf_pointer) =
            subst (Seen s.reverse j o) e seen in
          ap (λ o. o >>= λ d. some (dedup_end d)) ran.0
          ∙ (ap some (end-seen s.reverse j w ran.1) ∙ sym (ap (written s) e))
    ]

-- The phases of reading and chunking end, with chunks that make up the file and keep to the length
-- limits, and the pipeline then does to the repository what the loops of the task `write` do with
-- these chunks, a failed assertion included; but it leaves the reverse files as they were, and it has
-- no reverse buffer that a copy could go past.
pub task_write_pipeline-write_chunks :
    (sha1 : Bytes → Bytes) (chunking : Chunking) (max_chunk_size : ℕ) (g : Globals)
    → (path input : Bytes) (s : Store) → IsReady chunking g
    → 0 < max_chunk_size
    → (pieces : List Bytes) × (concat pieces ≡ input)
      × All (Fits (longest chunking g)) pieces
      × (task_write_pipeline sha1 chunking max_chunk_size g path input s ≡ (
          write_chunks sha1 pieces (start_writer s) >>= λ w.
          some (with_reverse s.reverse (write_end w))))
unfolding task_write_pipeline
task_write_pipeline-write_chunks sha1 chunking max_chunk_size g path input s ready pos =
    let (blocks, pieces, read, cut, whole, fits) =
      read_file-chunk_thread chunking max_chunk_size g path input ready pos in
    (pieces, whole, fits, rw (read, cut) (dedup_thread-written sha1 path pieces s))
