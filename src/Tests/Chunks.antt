-- ===== src/Tests/Chunks.antt =====
-- Chunking of small buffers.
use c_dedup.Base.{
  ◌>>=◌, zero, suc, get_or, ℕ, ◌<◌, ◌≤◌, ◌≡◌, ◌⊎◌, refl, some, List, [], ◌∷◌, Bytes, arith,
  replicate, concat, All,
}
use c_dedup.Chunking.{
  Globals, with_nc, fast_cdc_with_nc, fast_cdc_without_nc, run_chunking, fing_gear_08kb_64,
}
use c_dedup.Chunking.Boundary.{IsCut}
use c_dedup.Chunking.Cut.{
  IsSized, fast_cdc_with_nc-first_boundary, fast_cdc_without_nc-first_boundary,
}
use c_dedup.Chunking.Fingerprint.{hash}
use c_dedup.Chunking.Rolling.{hash_window}
use c_dedup.Chunking.Locality.{AgreeTo, fast_cdc_with_nc-local}
use c_dedup.Chunking.Split.{IsReady, Fits, longest, run_chunking_bounds}
use c_dedup.Backup.{start_writer, write_block}
use c_dedup.Backup.Loop.{write_chunks}
use c_dedup.Backup.Blocks.{write_block-write_chunks}
use c_dedup.Tests.Toy.{toy_sha1, empty_store, toy_globals}

abbrev eight : Bytes
eight = 1 ∷ 2 ∷ 3 ∷ 4 ∷ 5 ∷ 6 ∷ 7 ∷ 8 ∷ []

toy_globals-IsSized : IsSized toy_globals
toy_globals-IsSized = record { min_avg = omega arith; avg_max = omega arith }

fast_cdc_with_nc-first_boundary_example :
    IsSized (fast_cdc_with_nc eight 8 toy_globals).1
    × (((8 ≤ 1) × ((fast_cdc_with_nc eight 8 toy_globals).0 ≡ 8))
        ⊎ ((1 < 8) × IsCut toy_globals eight 2 4 (fast_cdc_with_nc eight 8 toy_globals).0))
fast_cdc_with_nc-first_boundary_example =
    fast_cdc_with_nc-first_boundary eight 8 toy_globals toy_globals-IsSized

fast_cdc_without_nc-first_boundary_example :
    ((fast_cdc_without_nc eight 8 toy_globals).1 ≡ toy_globals)
    × (((8 ≤ 1) × ((fast_cdc_without_nc eight 8 toy_globals).0 ≡ 8))
        ⊎ ((1 < 8)
            × IsCut
                (record toy_globals { mask_front = fing_gear_08kb_64 })
                eight
                4
                4
                (fast_cdc_without_nc eight 8 toy_globals).0))
fast_cdc_without_nc-first_boundary_example =
    fast_cdc_without_nc-first_boundary eight 8 toy_globals (omega arith)

hash_window_example : hash 66 (replicate 70 3) 2 5 ≡ hash 64 (replicate 70 3) 4 0
hash_window_example = hash_window 66 (replicate 70 3) 2 5 (omega arith)

run_chunking_bounds_example :
    (0 < (run_chunking with_nc eight 8 toy_globals).0)
    × ((run_chunking with_nc eight 8 toy_globals).0 ≤ 8)
    × ((run_chunking with_nc eight 8 toy_globals).0 ≤ 4)
    × IsReady with_nc (run_chunking with_nc eight 8 toy_globals).1
    × (longest with_nc (run_chunking with_nc eight 8 toy_globals).1 ≡ 4)
run_chunking_bounds_example =
    run_chunking_bounds with_nc eight 8 toy_globals (toy_globals-IsSized, omega arith) (omega arith)

write_block-write_chunks_example :
    (chunks : List Bytes) × (g' : Globals) × (concat chunks ≡ eight)
    × All (Fits 4) chunks
    × IsReady with_nc g'
    × (write_block toy_sha1 9 with_nc eight toy_globals (start_writer empty_store)
        ≡ (write_chunks toy_sha1 chunks (start_writer empty_store) >>= λ w'. some (w', g')))
write_block-write_chunks_example =
    write_block-write_chunks toy_sha1 9 with_nc eight toy_globals (start_writer empty_store)
      (toy_globals-IsSized, omega arith) (omega arith)

abbrev six : Bytes
six = 1 ∷ 2 ∷ 3 ∷ 4 ∷ 5 ∷ 9 ∷ []

agree : (j : ℕ) → j ≤ 4 → get_or eight j 0 ≡ get_or six j 0
agree zero h = refl
agree (suc zero) h = refl
agree (suc (suc zero)) h = refl
agree (suc (suc (suc zero))) h = refl
agree (suc (suc (suc (suc zero)))) h = refl
agree (suc (suc (suc (suc (suc j))))) h = absurd (omega arith)

cut_early : (fast_cdc_with_nc eight 8 toy_globals).0 ≤ 4
unfolding run_chunking
cut_early = run_chunking_bounds_example.2

same_up_to_cut : AgreeTo (fast_cdc_with_nc eight 8 toy_globals).0 eight six
same_up_to_cut j h = agree j (omega (arith, cut_early))

fast_cdc_with_nc-local_example :
    (fast_cdc_with_nc six 6 toy_globals).0 ≡ (fast_cdc_with_nc eight 8 toy_globals).0
fast_cdc_with_nc-local_example =
    fast_cdc_with_nc-local eight six 8 6 toy_globals toy_globals-IsSized (omega arith) (omega arith)
      same_up_to_cut
