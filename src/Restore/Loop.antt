-- ===== src/Restore/Loop.antt =====
-- The loop of a restore puts the chunks together: main.cpp, `for(auto &x : file_recipe)`.
use c_dedup.Base.{
  ℕ, ◌+◌, ◌<◌, ◌≡◌, inl, inr, refl, sym, ap, ◌∙◌, subst, some, List, [], ◌∷◌, ◌++◌, arith, leb,
  ◌==◌, if◌then◌else◌, length, take, Bytes, All, concat, write_at, find, Bool-cases, ◌>>=◌,
  append_assoc, length-append, ◌-◌, drop, replicate, append-nil, take-append, length-take,
  length-replicate, map, true,
}
use c_dedup.Metadata.{
  Sha1Fp, EntryValue, MetadataManager, dedup, file_cache, fp_of_bytes, dedup_lookup, get_entry,
  fp_eq,
}
use c_dedup.Store.{Files, from_buffer}
use c_dedup.Restore.{
  Cache, Restorer, flush_assembling_buffer, append_chunk, assemble, fetch_chunk, restore_chunk,
  restore_chunks,
}
use c_dedup.Restore.Fetch.{fetch, IsCache}

-- What the file will hold so far: the bytes written, and those in the buffer.
abbrev pub assembled : {State : Type 0} → Restorer State → Bytes
assembled r = r.output ++ from_buffer r.write_buffer_offset r.assembling_buffer

-- A buffer's front that was written.
from_buffer-append : (n : ℕ) (xs rest : Bytes) → n ≡ length xs → from_buffer n (xs ++ rest) ≡ xs
unfolding from_buffer
from_buffer-append n xs rest h =
    let full : n - length (xs ++ rest) ≡ 0 = omega (arith, length-append xs rest) in
    (λ i. take-append n xs rest h i ++ replicate (full i) 0) ∙ append-nil xs

length-from_buffer : (n : ℕ) (buf : Bytes) → length (from_buffer n buf) ≡ n
unfolding from_buffer
length-from_buffer n buf = omega (
  arith,
  length-append (take n buf) (replicate (n - length buf) 0),
  length-take n buf,
  length-replicate {A = ℕ} (n - length buf) 0,
)

-- The bytes before a write stay, whatever the buffer held.
from_buffer-write_at :
    (offset : ℕ) (chunk buf : Bytes)
    → from_buffer (offset + length chunk) (write_at offset chunk buf)
      ≡ from_buffer offset buf ++ chunk
from_buffer-write_at offset chunk buf =
    let front = from_buffer offset buf in
    let rest = drop (offset + length chunk) buf in
    let split : write_at offset chunk buf ≡ (front ++ chunk) ++ rest =
      unfold write_at from_buffer in
      sym (append_assoc (take offset buf) (replicate (offset - length buf) 0) (chunk ++ rest))
      ∙ sym (append_assoc front chunk rest) in
    ap (from_buffer (offset + length chunk)) split
    ∙ from_buffer-append (offset + length chunk) (front ++ chunk) rest
        (omega (arith, length-append front chunk, length-from_buffer offset buf))

from_buffer_none : (buf : Bytes) → from_buffer 0 buf ≡ []
unfolding from_buffer
from_buffer_none buf =
    let none_left : 0 - length buf ≡ 0 = omega arith in λ i. replicate (none_left i) 0

module _ {State : Type 0} where
  append_chunk-assembled :
      (chunk : Bytes) (r : Restorer State) → assembled (append_chunk chunk r) ≡ assembled r ++ chunk
  unfolding append_chunk
  append_chunk-assembled chunk r =
      ap (◌++◌ r.output) (from_buffer-write_at r.write_buffer_offset chunk r.assembling_buffer)
      ∙ sym (append_assoc r.output (from_buffer r.write_buffer_offset r.assembling_buffer) chunk)

  flush-assembled :
      (r : Restorer State)
      → assembled (record (flush_assembling_buffer r) { write_buffer_offset = 0 }) ≡ assembled r
  unfolding flush_assembling_buffer
  flush-assembled r =
      ap (◌++◌ (assembled r)) (from_buffer_none r.assembling_buffer) ∙ append-nil (assembled r)

  -- From `r` to `r'` a chunk has been put behind what the file will hold, within the buffer.
  abbrev pub Extends : Bytes → Restorer State → Restorer State → Type 0
  Extends chunk r r' =
      (assembled r' ≡ assembled r ++ chunk)
      × (r'.write_buffer_offset < file_cache)
      × (r'.cache ≡ r.cache)
      × (r'.manager ≡ r.manager)

  append_chunk-Extends :
      (chunk : Bytes) (r : Restorer State)
      → r.write_buffer_offset + length chunk < file_cache
      → Extends chunk r (append_chunk chunk r)
  append_chunk-Extends chunk r h = (
    append_chunk-assembled chunk r,
    unfold append_chunk in h,
    unfold append_chunk in refl,
    unfold append_chunk in refl,
  )

  -- A chunk goes behind what the file will hold so far, with the flush of a full buffer or without,
  -- and if it is shorter than the buffer, within the buffer. Neither cache nor index changes.
  pub assemble-Extends :
      (chunk : Bytes) (r : Restorer State)
      → length chunk < file_cache
      → Extends chunk r (assemble chunk r)
  unfolding assemble
  assemble-Extends chunk r short =
      elim (Bool-cases (leb file_cache (r.write_buffer_offset + length chunk))) [
        | inl full ↦
            let (same, within, kept, index) =
              append_chunk-Extends chunk flushed (unfold flush_assembling_buffer in omega arith) in
            subst (Extends chunk r)
              (sym (ap (λ b. append_chunk chunk (if b then flushed else r)) full))
              (
                same ∙ ap (λ bs. bs ++ chunk) (flush-assembled r),
                within,
                unfold flush_assembling_buffer in kept,
                unfold flush_assembling_buffer in index,
              )
        | inr free ↦
            subst (Extends chunk r)
              (sym (ap (λ b. append_chunk chunk (if b then flushed else r)) free))
              (append_chunk-Extends chunk r (ground arith))
      ]
    where
      flushed : Restorer State
      flushed = record (flush_assembling_buffer r) { write_buffer_offset = 0 }

-- The index has the fingerprint, and its place holds `chunk`.
pub record Restorable (containers : Files) (m : MetadataManager) (x chunk : Bytes) : Type 0 where
  pub value : EntryValue
  pub entered : find (fp_of_bytes x) m.fp_table_origin ≡ some value
  pub size : value.chunk_length ≡ length chunk
  pub short : length chunk < file_cache
  pub there : fetch containers value ≡ some chunk

found :
    (fp : Sha1Fp) (m : MetadataManager) (v : EntryValue)
    → find fp m.fp_table_origin ≡ some v
    → (dedup_lookup fp m ≡ dedup) × (get_entry fp m ≡ (m, v))
unfolding dedup_lookup get_entry
found fp m v e = (rw e refl, rw (get_entry, e) refl)

module _ {State : Type 0} (containers : Files) (source : Cache State)
    (ok : IsCache containers source) where
  -- The invariant of the loop.
  abbrev pub IsRestoring : MetadataManager → Restorer State → Type 0
  IsRestoring m r = ok.Inv r.cache × (r.manager ≡ m)

  restore_chunk-found :
      (x chunk : Bytes) (r : Restorer State) (v : EntryValue) (st : State)
      → find (fp_of_bytes x) r.manager.fp_table_origin ≡ some v
      → source.get_chunk_data v r.cache ≡ some (chunk, st)
      → v.chunk_length ≡ length chunk
      → restore_chunk source x r ≡ some (assemble chunk (record r { cache = st }))
  unfolding restore_chunk fetch_chunk
  restore_chunk-found x chunk r v st e got size =
      let (known, value) = found (fp_of_bytes x) r.manager v e in
      let equal : (length chunk == v.chunk_length) ≡ true = ground arith in
      rw (known, value, got, equal) refl

  restore_chunk-Extends :
      (x chunk : Bytes) (m : MetadataManager) (r : Restorer State)
      → Restorable containers m x chunk
      → IsRestoring m r
      → (r' : Restorer State) × (restore_chunk source x r ≡ some r')
        × (assembled r' ≡ assembled r ++ chunk)
        × IsRestoring m r'
  restore_chunk-Extends x chunk m r can (inv, same) = elim (ok.answers can.value r.cache inv) [
    | inl (got, want) ↦ absurd (cc (want, can.there))
    | inr (bytes, st, got, want, inv') ↦
        let whole : bytes ≡ chunk = ground (arith, want, can.there) in
        let e =
          subst (λ m. find (fp_of_bytes x) m.fp_table_origin ≡ some can.value) (sym same)
            can.entered in
        let next = record r { cache = st } in
        let (more, within, kept, index) = assemble-Extends chunk next can.short in
        (
          assemble chunk next,
          restore_chunk-found x chunk r can.value st e (got ∙ ap (λ b. some (b, st)) whole)
              can.size,
          more,
          (subst ok.Inv (sym kept) inv', index ∙ same),
        )
  ]

  -- A restore of a recipe whose chunks are all to be had ends, and puts them together in order.
  pub restore_chunks-assembled :
      (m : MetadataManager) (xs : List (Bytes × Bytes)) (r : Restorer State)
      → All (λ x. Restorable containers m x.0 x.1) xs
      → IsRestoring m r
      → (r' : Restorer State) × (restore_chunks source (map (λ x. x.0) xs) r ≡ some r')
        × (assembled r' ≡ assembled r ++ concat (map (λ x. x.1) xs))
  unfolding restore_chunks
  restore_chunks-assembled m [] r can inv = (r, refl, sym (append-nil (assembled r)))
  restore_chunks-assembled m (x ∷ xs) r can inv =
      let (u, e, more, inv') = restore_chunk-Extends x.0 x.1 m r can.0 inv in
      let (r', run, rest) = restore_chunks-assembled m xs u can.1 inv' in
      (
        r',
        ap (λ u. u >>= restore_chunks source (map (λ x. x.0) xs)) e ∙ run,
        rest
            ∙ (ap (λ bs. bs ++ concat (map (λ x. x.1) xs)) more
                ∙ append_assoc (assembled r) x.1 (concat (map (λ x. x.1) xs))),
      )
