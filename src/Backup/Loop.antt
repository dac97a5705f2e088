-- ===== src/Backup/Loop.antt =====
-- The loops of a backup: main.cpp, `while (file_offset < n_read)` and `for (;;)` of `TASK_WRITE`.
use c_dedup.Base.{
  Option-cases, inl, inr, ◌>>=◌, ℕ, zero, suc, ◌+◌, ◌^◌, ◌≤◌, ◌<◌, ◌≡◌, refl, sym, ap, ◌∙◌, subst,
  false, Option, some, List, [], ◌∷◌, ◌++◌, arith, length, take, drop, Bytes, All, All-append,
  All-mono, concat, concat-append, map, append_assoc, append-nil, length-append, length-take,
  length-drop, take-append-drop, lt→ltb, ◌==◌, min, pos→ne_zero,
}
use mathlib.Core.List.{map-append}
use c_dedup.Metadata.{Sha1Fp, file_cache}
use c_dedup.Metadata.Index.{entries_num}
use c_dedup.Chunking.{Globals, Chunking, run_chunking}
use c_dedup.Chunking.Split.{
  split, split_file, split_step, cons_chunk, prepend, Fits, IsReady, longest, run_chunking_bounds,
}
use c_dedup.Backup.{Writer, note_chunk, write_chunk, write_block, write_file}
use c_dedup.Backup.Sound.{Grows, Grows-refl}
use c_dedup.Backup.Flush.{IsWriting, contents}
use c_dedup.Backup.Append.{IsSha1, fp_of}
use c_dedup.Backup.Chunk.{Known, Stored, Grows-trans, write_chunk-Stored}

-- The chunks written one after the other, as the inner loop of the task `write` does.
abbrev pub write_chunks : (Bytes → Bytes) → List Bytes → Writer → Option Writer
write_chunks sha1 [] w = some w
write_chunks sha1 (bytes ∷ pieces) w = write_chunk sha1 bytes w >>= write_chunks sha1 pieces

write_chunks-append :
    (sha1 : Bytes → Bytes) (xs ys : List Bytes) (w u v : Writer)
    → write_chunks sha1 xs w ≡ some u
    → write_chunks sha1 ys u ≡ some v
    → write_chunks sha1 (xs ++ ys) w ≡ some v
write_chunks-append sha1 [] ys w u v e f = ap (λ o. o >>= write_chunks sha1 ys) e ∙ f
write_chunks-append sha1 (x ∷ xs) ys w u v e f = elim (Option-cases (write_chunk sha1 x w)) [
  | inl stopped ↦ absurd (ground (arith, e, stopped))
  | inr (t, here) ↦
      let rest : write_chunks sha1 xs t ≡ some u = sym (rw here refl) ∙ e in
      rw here (write_chunks-append sha1 xs ys t u v rest f)
]

-- From `w` to `w'` the chunks `chunks` have been written, in this order.
pub record Wrote (sha1 : Bytes → Bytes) (chunks : List Bytes) (w w' : Writer) : Type 0 where
  pub chained : write_chunks sha1 chunks w ≡ some w'
  pub next : IsWriting sha1 w'
  pub grows : Grows (contents w) (contents w')
  pub index_le : w'.container_index ≤ w.container_index + length chunks
  pub entries_le : entries_num w'.manager ≤ entries_num w.manager + length chunks
  pub keeps : (fp : Sha1Fp) → Known w.manager fp → Known w'.manager fp
  pub knows : All (λ chunk. Known w'.manager (fp_of sha1 chunk)) chunks
  pub recipe : w'.file_recipe ≡ w.file_recipe ++ map sha1 chunks
  pub recipes : w'.store.recipes ≡ w.store.recipes

module _ (sha1 : Bytes → Bytes) where
  Wrote-nil : (w : Writer) → IsWriting sha1 w → Wrote sha1 [] w w
  Wrote-nil w ok = record {
    chained = refl;
    next = ok;
    grows = Grows-refl (contents w);
    index_le = omega arith;
    entries_le = omega arith;
    keeps = λ fp h. h;
    knows = tt;
    recipe = sym (append-nil w.file_recipe);
    recipes = refl;
  }

  Wrote-one :
      (chunk : Bytes) (w w' : Writer)
      → write_chunk sha1 chunk w ≡ some w'
      → Stored sha1 chunk (note_chunk chunk (sha1 chunk) w) w'
      → Wrote sha1 (chunk ∷ []) w w'
  unfolding note_chunk contents
  Wrote-one chunk w w' run s = record {
    chained = rw run;
    next = s.next;
    grows = s.grows;
    index_le = s.index_le;
    entries_le = s.entries_le;
    keeps = s.keeps;
    knows = (s.knows, tt);
    recipe = s.recipe;
    recipes = s.recipes;
  }

  Wrote-append :
      (xs ys : List Bytes) (w u v : Writer)
      → Wrote sha1 xs w u
      → Wrote sha1 ys u v
      → Wrote sha1 (xs ++ ys) w v
  Wrote-append xs ys w u v a b = record {
    chained = write_chunks-append sha1 xs ys w u v a.chained b.chained;
    next = b.next;
    grows = Grows-trans a.grows b.grows;
    index_le = omega (arith, a.index_le, b.index_le, length-append xs ys);
    entries_le = omega (arith, a.entries_le, b.entries_le, length-append xs ys);
    keeps = λ fp h. b.keeps fp (a.keeps fp h);
    knows =
        All-append _ xs ys
          (All-mono (λ chunk. Known u.manager (fp_of sha1 chunk)) _ xs
            (λ chunk h. b.keeps (fp_of sha1 chunk) h) a.knows)
          b.knows;
    recipe =
        b.recipe
        ∙ (ap (λ r. r ++ map sha1 ys) a.recipe
            ∙ (append_assoc w.file_recipe (map sha1 xs) (map sha1 ys)
                ∙ ap (λ t. w.file_recipe ++ t) (sym (map-append sha1 xs ys))));
    recipes = b.recipes ∙ a.recipes;
  }

pub length-concat-le :
    (top : ℕ) (chunks : List Bytes) → All (Fits top) chunks → length chunks ≤ length (concat chunks)
length-concat-le top [] h = omega arith
length-concat-le top (c ∷ cs) h =
    omega (arith, h.0.0, length-concat-le top cs h.1, length-append c (concat cs))

-- A run over the bytes `p` that ends: it has written the chunks `cuts`, which are `p` in order.
abbrev pub Ran :
    (Bytes → Bytes)
    → Chunking
    → Bytes
    → Globals
    → Writer
    → Option (List Bytes × Globals)
    → Option (Writer × Globals)
    → Type 0
Ran sha1 c p g w cuts run =
    (chunks : List Bytes) × (w' : Writer) × (g' : Globals) × (cuts ≡ some (chunks, g'))
    × (run ≡ some (w', g'))
    × (concat chunks ≡ p)
    × All (Fits (longest c g)) chunks
    × Wrote sha1 chunks w w'
    × IsReady c g'
    × (longest c g' ≡ longest c g)

Ran-append :
    (sha1 : Bytes → Bytes) (c : Chunking) (p q : Bytes) (g u : Globals) (w v : Writer)
    (chunks : List Bytes) (cuts cuts' : Option (List Bytes × Globals))
    (run : Option (Writer × Globals))
    → ((more : List Bytes) (g' : Globals)
        → cuts ≡ some (more, g')
        → cuts' ≡ some (chunks ++ more, g'))
    → concat chunks ≡ p
    → All (Fits (longest c g)) chunks
    → Wrote sha1 chunks w v
    → longest c u ≡ longest c g
    → Ran sha1 c q u v cuts run
    → Ran sha1 c (p ++ q) g w cuts' run
Ran-append sha1 c p q g u w v chunks cuts cuts' run join whole each wrote same
      (more, w', g', cut, e, whole', each', wrote', ready, same') =
    (
      chunks ++ more,
      w',
      g',
      join more g' cut,
      e,
      concat-append chunks more ∙ (λ i. whole i ++ whole' i),
      All-append _ chunks more each (subst (λ top. All (Fits top) more) same each'),
      Wrote-append sha1 chunks more w v w' wrote wrote',
      ready,
      same' ∙ same,
    )

module _ (sha1 : Bytes → Bytes) (is_sha1 : IsSha1 sha1) (c : Chunking) where
  write_block_step :
      (fuel : ℕ) (p : Bytes) (g : Globals) (w w' : Writer)
      → 0 < length p
      → write_chunk sha1 (take (run_chunking c p (length p) g).0 p) w ≡ some w'
      → write_block sha1 (suc fuel) c p g w
        ≡ write_block sha1 fuel c
            (drop (run_chunking c p (length p) g).0 p)
            (run_chunking c p (length p) g).1
            w'
  unfolding write_block
  write_block_step fuel p g w w' h e = rw (lt→ltb 0 (length p) h, e)

  -- The inner loop ends, with more fuel than bytes, and writes all its bytes in chunks.
  write_block-Ran :
      (fuel : ℕ) (p : Bytes) (g : Globals) (w : Writer)
      → IsReady c g
      → longest c g < 2 ^ 16
      → IsWriting sha1 w
      → w.container_index + length p < 2 ^ 32
      → length p < fuel
      → Ran sha1 c p g w (split fuel c p g) (write_block sha1 fuel c p g w)
  unfolding write_block split
  write_block-Ran zero p g w ready short ok small h = absurd (omega arith)
  write_block-Ran (suc fuel) [] g w ready short ok small h =
      ([], w, g, refl, refl, refl, tt, Wrote-nil sha1 w ok, ready, refl)
  write_block-Ran (suc fuel) (x ∷ xs) g w ready short ok small h =
      let p : Bytes = x ∷ xs in
      let r = run_chunking c p (length p) g in
      let (low, high, top, ready', same) =
        run_chunking_bounds c p (length p) g ready (omega arith) in
      let chunk = take r.0 p in
      let size : length chunk ≡ r.0 = omega (arith, length-take r.0 p) in
      let fits : Fits 65535 chunk = (omega arith, omega arith) in
      let (w', e, stored, within) = write_chunk-Stored sha1 is_sha1 chunk w ok (omega arith) fits in
      let wrote = Wrote-one sha1 chunk w w' e stored in
      let rest =
        write_block-Ran fuel (drop r.0 p) r.1 w' ready' (omega arith) wrote.next
          (omega (arith, wrote.index_le, length-drop r.0 p)) (omega (arith, length-drop r.0 p)) in
      let own : Fits (longest c g) chunk = (omega arith, omega arith) in
      let run = write_block sha1 fuel c (drop r.0 p) r.1 w' in
      let whole =
        Ran-append sha1 c chunk (drop r.0 p) g r.1 w w' (chunk ∷ []) (split fuel c (drop r.0 p) r.1)
          (split (suc fuel) c p g) run
          (λ more g' cut. split_step fuel c p g (omega arith) ∙ ap (cons_chunk chunk) cut)
          (append-nil chunk) (own, tt) wrote same rest in
      subst (Ran sha1 c p g w (split (suc fuel) c p g))
        (sym (write_block_step fuel p g w w' (omega arith) e))
        (subst (λ q. Ran sha1 c q g w (split (suc fuel) c p g) run) (take-append-drop r.0 p) whole)

  split_file_step :
      (fuel : ℕ) (file : Bytes) (g u : Globals) (chunks : List Bytes)
      → (length (take file_cache file) == 0) ≡ false
      → split (length (take file_cache file) + 1) c (take file_cache file) g ≡ some (chunks, u)
      → split_file (suc fuel) c file g ≡ prepend chunks (split_file fuel c (drop file_cache file) u)
  unfolding split_file
  split_file_step fuel file g u chunks h e = rw (h, e)

  write_file_step :
      (fuel : ℕ) (file : Bytes) (g u : Globals) (w v : Writer)
      → (length (take file_cache file) == 0) ≡ false
      → write_block sha1 (length (take file_cache file) + 1) c (take file_cache file) g w
        ≡ some (v, u)
      → write_file sha1 (suc fuel) c file g w ≡ write_file sha1 fuel c (drop file_cache file) u v
  unfolding write_file
  write_file_step fuel file g u w v h e = rw (h, e)

  -- The outer loop too, with more fuel than bytes.
  pub write_file-Ran :
      (fuel : ℕ) (file : Bytes) (g : Globals) (w : Writer)
      → IsReady c g
      → longest c g < 2 ^ 16
      → IsWriting sha1 w
      → w.container_index + length file < 2 ^ 32
      → length file < fuel
      → Ran sha1 c file g w (split_file fuel c file g) (write_file sha1 fuel c file g w)
  unfolding write_file split_file
  write_file-Ran zero file g w ready short ok small h = absurd (omega arith)
  write_file-Ran (suc fuel) [] g w ready short ok small h =
      ([], w, g, refl, refl, refl, tt, Wrote-nil sha1 w ok, ready, refl)
  write_file-Ran (suc fuel) (x ∷ xs) g w ready short ok small h =
      let file : Bytes = x ∷ xs in
      let block = take file_cache file in
      let size : length block ≡ min file_cache (length file) = length-take file_cache file in
      let (chunks, v, u, cut, e, whole, each, wrote, ready', same) =
        write_block-Ran (length block + 1) block g w ready short ok (omega arith) (omega arith) in
      let count = length-concat-le (longest c g) chunks each in
      let total : length (concat chunks) ≡ length block = ap length whole in
      let rest =
        write_file-Ran fuel (drop file_cache file) u v ready' (omega arith) wrote.next
          (omega (arith, wrote.index_le, length-drop file_cache file))
          (omega (arith, length-drop file_cache file)) in
      let run = write_file sha1 fuel c (drop file_cache file) u v in
      let some_block = pos→ne_zero (length block) (omega arith) in
      let joined =
        Ran-append sha1 c block (drop file_cache file) g u w v chunks
          (split_file fuel c (drop file_cache file) u) (split_file (suc fuel) c file g) run
          (λ more g' later.
            split_file_step fuel file g u chunks some_block cut ∙ ap (prepend chunks) later)
          whole each wrote same rest in
      subst (Ran sha1 c file g w (split_file (suc fuel) c file g))
        (sym (write_file_step fuel file g u w v some_block e))
        (subst (λ q. Ran sha1 c q g w (split_file (suc fuel) c file g) run)
          (take-append-drop file_cache file) joined)
