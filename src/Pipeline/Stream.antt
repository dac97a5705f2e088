-- ===== src/Pipeline/Stream.antt =====
-- What the first two phases of the pipeline push: src/pipeline_read.cpp and src/pipeline_chunk.cpp.
use c_dedup.Base.{
  ℕ, zero, suc, ◌+◌, ◌≤◌, ◌<◌, ◌≡◌, inl, inr, refl, sym, ap, subst, ◌∙◌, false, Option, none, some,
  List, [], ◌∷◌, ◌++◌, map, arith, ltb, ◌==◌, length, take, drop, concat, All, Bytes, append_assoc,
  append-nil, length-append, length-take, length-drop, take-append-drop, Bool-cases, pos→ne_zero,
  ==_iff,
}
use c_dedup.Chunking.{Globals, Chunking, run_chunking}
use c_dedup.Chunking.Split.{IsReady, longest, Fits, run_chunking_bounds}
use c_dedup.Pipeline.{
  default_block_size, Chunk, new_chunk, file_start, file_end, read_blocks, read_file, receive,
  receive_more, chunk_loop, chunk_file, chunk_thread,
}

not_none : {A : Type 0} (x : A) → some x ≡ none → ⊥
not_none x h = cc

-- The blocks that the read phase pushes make up the file.
read_blocks-concat :
    (fuel : ℕ) (file : Bytes)
    → length file < fuel
    → (blocks : List Bytes) × (read_blocks fuel file ≡ some (map new_chunk blocks))
      × (concat blocks ≡ file)
unfolding read_blocks
read_blocks-concat zero file h = absurd (omega arith)
read_blocks-concat (suc fuel) [] h = ([], refl, refl)
read_blocks-concat (suc fuel) (b ∷ file) h =
    let left : length (drop default_block_size (b ∷ file)) < fuel =
      omega (arith, length-drop default_block_size (b ∷ file)) in
    let (blocks, run, whole) = read_blocks-concat fuel (drop default_block_size (b ∷ file)) left in
    let some_there : (length (take default_block_size (b ∷ file)) == 0) ≡ false =
      pos→ne_zero (length (take default_block_size (b ∷ file)))
        (omega (arith, length-take default_block_size (b ∷ file))) in
    (
      take default_block_size (b ∷ file) ∷ blocks,
      rw (some_there, run),
      ap (◌++◌ (take default_block_size (b ∷ file))) whole
          ∙ take-append-drop default_block_size (b ∷ file),
    )

ne_zero→pos : (n : ℕ) → (n == 0) ≡ false → 0 < n
ne_zero→pos n h = ground arith

module _ (tail : List Chunk) where
  -- What is left of a file: the buffer, and the blocks before the chunk that ends it, or nothing more.
  abbrev Left : Bytes → Bytes → Option Chunk → List Chunk → Type 0
  Left all rest none input =
      (blocks : List Bytes) × (input ≡ map new_chunk blocks ++ file_end ∷ tail)
      × (rest ++ concat blocks ≡ all)
  Left all rest (some c) input = (c ≡ file_end) × (input ≡ tail) × (rest ≡ all)

  -- The inner loop fills the buffer up to the longest chunk, or to the end of the file.
  receive-Left :
      (top : ℕ) (rest : Bytes) (blocks : List Bytes)
      → (rest' : Bytes) × (c' : Option Chunk) × (input' : List Chunk) × (receive top rest
            (map new_chunk blocks ++ file_end ∷ tail)
          ≡ some (rest', c', input'))
        × Left (rest ++ concat blocks) rest' c' input'
        × ((c' ≡ none) → top ≤ length rest')
  unfolding receive
  receive-Left top rest [] = elim (Bool-cases (ltb (length rest) top)) [
    | inl short ↦ (
      rest,
      some file_end,
      tail,
      rw short,
      (refl, refl, sym (append-nil rest)),
      λ e. absurd (not_none file_end e),
    )
    | inr long ↦ (rest, none, file_end ∷ tail, rw long, ([], refl, refl), λ e. ground (arith, long))
  ]
  receive-Left top rest (block ∷ blocks) = elim (Bool-cases (ltb (length rest) top)) [
    | inl short ↦
        let (rest', c', input', run, left, enough) = receive-Left top (rest ++ block) blocks in
        (
          rest',
          c',
          input',
          rw short run,
          subst (λ all. Left all rest' c' input') (append_assoc rest block (concat blocks)) left,
          enough,
        )
    | inr long ↦ (
      rest,
      none,
      map new_chunk (block ∷ blocks) ++ file_end ∷ tail,
      rw long,
      (block ∷ blocks, refl, refl),
      λ e. ground (arith, long),
    )
  ]

  receive_more-Left :
      (top : ℕ) (all rest : Bytes) (c : Option Chunk) (input : List Chunk)
      → Left all rest c input
      → (rest' : Bytes) × (c' : Option Chunk) × (input' : List Chunk) × (receive_more top rest c
            input
          ≡ some (rest', c', input'))
        × Left all rest' c' input'
        × ((c' ≡ none) → top ≤ length rest')
  receive_more-Left top all rest none input (blocks, there, whole) =
      let (rest', c', input', run, left, enough) = receive-Left top rest blocks in
      (
        rest',
        c',
        input',
        ap (receive top rest) there ∙ run,
        subst (λ all. Left all rest' c' input') whole left,
        enough,
      )
  receive_more-Left top all rest (some c) input left =
      (rest, some c, input, refl, left, λ e. absurd (not_none c e))

  Left-cut :
      (n : ℕ) (all rest : Bytes) (c : Option Chunk) (input : List Chunk)
      → Left all rest c input
      → (all' : Bytes) × (take n rest ++ all' ≡ all) × Left all' (drop n rest) c input
  Left-cut n all rest none input (blocks, there, whole) = (
    drop n rest ++ concat blocks,
    sym (append_assoc (take n rest) (drop n rest) (concat blocks))
        ∙ (ap (λ front. front ++ concat blocks) (take-append-drop n rest) ∙ whole),
    (blocks, there, refl),
  )
  Left-cut n all rest (some c) input (last, there, whole) =
      (drop n rest, take-append-drop n rest ∙ whole, (last, there, refl))

  -- A buffer that nothing fills any more is that of a file that has ended.
  Left-end :
      (top : ℕ) (all rest : Bytes) (c : Option Chunk) (input : List Chunk)
      → 0 < top
      → length rest ≡ 0
      → Left all rest c input
      → ((c ≡ none) → top ≤ length rest)
      → (c ≡ some file_end) × (input ≡ tail) × (length all ≡ 0)
  Left-end top all rest none input pos empty left enough = absurd (omega (arith, enough refl))
  Left-end top all rest (some c) input pos empty (last, there, whole) enough =
      (ap some last, there, ap length (sym whole) ∙ empty)

  empty_concat : (all : Bytes) → length all ≡ 0 → [] ≡ all
  empty_concat [] h = refl
  empty_concat (x ∷ all) h = absurd (omega arith)

  -- Chunks that a loop pushes, up to the end of the file.
  record Pushes (chunking : Chunking) (g : Globals) (all : Bytes)
      (r : Option (List Chunk × List Chunk × Globals)) : Type 0 where
    pieces : List Bytes
    globals : Globals
    runs : r ≡ some (map new_chunk pieces ++ file_end ∷ [], tail, globals)
    whole : concat pieces ≡ all
    fits : All (Fits (longest chunking g)) pieces

  chunk_loop-Pushes :
      (fuel : ℕ) (chunking : Chunking) (top : ℕ) (all rest : Bytes) (c : Option Chunk)
      → (input : List Chunk) (g : Globals) → IsReady chunking g
      → 0 < top
      → length all < fuel
      → Left all rest c input
      → Pushes chunking g all (chunk_loop fuel chunking top rest c input g)
  unfolding chunk_loop
  chunk_loop-Pushes zero chunking top all rest c input g ready pos h left = absurd (omega arith)
  chunk_loop-Pushes (suc fuel) chunking top all rest c input g ready pos h left =
      let (rest', c', input', run, left', enough) = receive_more-Left top all rest c input left in
      let cut = run_chunking chunking rest' (length rest') g in
      elim (Bool-cases (length rest' == 0)) [
        | inl empty ↦
            let (last, there, nothing) =
              Left-end top all rest' c' input' pos ((==_iff (length rest') 0).0 empty) left'
                enough in
            record {
              pieces = [];
              globals = g;
              runs = rw (run, empty, last, there);
              whole = empty_concat all nothing;
              fits = tt;
            }
        | inr more ↦
            let some_there : 0 < length rest' = ne_zero→pos (length rest') more in
            let (low, within, high, ready', same) =
              run_chunking_bounds chunking rest' (length rest') g ready some_there in
            let (all', whole, left'') = Left-cut cut.0 all rest' c' input' left' in
            let size : length (take cut.0 rest') ≡ cut.0 =
              omega (arith, length-take cut.0 rest', within) in
            let fewer : length all' < fuel =
              omega (arith, length-append (take cut.0 rest') all', ap length whole, size, low, h) in
            let r =
              chunk_loop-Pushes fuel chunking top all' (drop cut.0 rest') c' input' cut.1 ready' pos
                fewer left'' in
            record {
              pieces = take cut.0 rest' ∷ r.pieces;
              globals = r.globals;
              runs = rw (run, more, r.runs);
              whole = ap (◌++◌ (take cut.0 rest')) r.whole ∙ whole;
              fits = (
                (omega (arith, size, low), omega (arith, size, high)),
                subst (λ top. All (Fits top) r.pieces) same r.fits,
              );
            }
      ]

chunk_file-Pushes :
    (fuel : ℕ) (chunking : Chunking) (top : ℕ) (blocks : List Bytes) (g : Globals)
    → IsReady chunking g
    → 0 < top
    → length (concat blocks) < fuel
    → Pushes [] chunking g
        (concat blocks)
        (chunk_file fuel chunking top (map new_chunk blocks ++ file_end ∷ []) g)
unfolding chunk_file
chunk_file-Pushes fuel chunking top [] g ready pos h =
    chunk_loop-Pushes [] fuel chunking top [] [] (some file_end) [] g ready pos h (refl, refl, refl)
chunk_file-Pushes fuel chunking top (block ∷ blocks) g ready pos h =
    chunk_loop-Pushes [] fuel chunking top (block ++ concat blocks) block none
      (map new_chunk blocks ++ file_end ∷ []) g ready pos h (blocks, refl, refl)

pub read_file-chunk_thread :
    (chunking : Chunking) (max_chunk_size : ℕ) (g : Globals) (path input : Bytes)
    → IsReady chunking g
    → 0 < max_chunk_size
    → (blocks : List Chunk) × (pieces : List Bytes) × (read_file path input ≡ some blocks)
      × (chunk_thread 1 (length input + 1) chunking max_chunk_size blocks g
          ≡ some (file_start path ∷ (map new_chunk pieces ++ file_end ∷ [])))
      × (concat pieces ≡ input)
      × All (Fits (longest chunking g)) pieces
unfolding read_file chunk_thread
read_file-chunk_thread chunking max_chunk_size g path input ready pos =
    let (blocks, run, whole) = read_blocks-concat (length input + 1) input (omega arith) in
    let fuel : length (concat blocks) < length input + 1 = omega (arith, ap length whole) in
    let p = chunk_file-Pushes (length input + 1) chunking max_chunk_size blocks g ready pos fuel in
    (
      file_start path ∷ (map new_chunk blocks ++ file_end ∷ []),
      p.pieces,
      rw run,
      rw (p.runs, append-nil),
      p.whole ∙ whole,
      p.fits,
    )
