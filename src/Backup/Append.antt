-- ===== src/Backup/Append.antt =====
-- A chunk that fits goes behind the open container's buffer: main.cpp, the two `memcpy` of
-- `saveChunkToContainer` and the code after its call.
use c_dedup.Base.{
  ℕ, ◌+◌, ◌%◌, ◌^◌, ◌<◌, ◌≡◌, refl, sym, ap, ◌∙◌, true, some, [], ◌++◌, arith, if◌then◌else◌,
  length, take, Bytes, AreBytes, find, nat_eq, ◌==◌, Bool-cases, inl, inr, append-nil, write_at,
  write_at_end, length-append, drop-append, take_of_length-le, All-emplace,
}
use c_dedup.Store.{container_size}
use c_dedup.Metadata.{Sha1Fp, EntryValue, fp_of_bytes, dedup_lookup, unique, fp_eq}
use c_dedup.Metadata.Codec.{IsFp, IsEntry, fp_of_bytes-IsFp}
use c_dedup.Metadata.Index.{with_entry, with_entry-Updated}
use c_dedup.Backup.{Writer, copy_chunk, new_entry, advance}
use c_dedup.Backup.Sound.{Holds, Grows, Sound-Updated}
use c_dedup.Backup.Flush.{IsWriting, contents}

-- What the code relies on of SHA-1: a digest is 20 bytes.
pub record IsSha1 (sha1 : Bytes → Bytes) : Type 0 where
  pub digest_length : (bs : Bytes) → length (sha1 bs) ≡ 20
  pub digest_bytes : (bs : Bytes) → AreBytes (sha1 bs)

module _ (sha1 : Bytes → Bytes) where
  abbrev pub fp_of : Bytes → Sha1Fp
  fp_of chunk = fp_of_bytes (sha1 chunk)

  -- The writer after the unique chunk.
  abbrev pub appended : Bytes → Writer → Writer
  appended chunk w =
      let copied = copy_chunk chunk (sha1 chunk) w in
      advance (length chunk) (record copied {
        manager = with_entry (fp_of chunk) (new_entry (length chunk) copied) w.manager;
      })

module _ (sha1 : Bytes → Bytes) (is_sha1 : IsSha1 sha1) (chunk : Bytes) (w : Writer)
    (ok : IsWriting sha1 w) (some_bytes : 0 < length chunk) (short : length chunk < 2 ^ 16)
    (fits : length w.container_buf + length chunk < container_size) where
  contents-appended :
      (k : ℕ)
      → contents (appended sha1 chunk w) k ≡ (
          if w.container_index == k
          then some (w.container_buf ++ chunk)
          else find k w.store.containers)
  unfolding contents copy_chunk advance
  contents-appended k =
      ap (λ buf. if w.container_index == k then some buf else find k w.store.containers)
        (write_at_end w.container_buf_pointer chunk w.container_buf ok.pointer)

  pub Grows-appended : Grows (contents w) (contents (appended sha1 chunk w))
  unfolding contents
  Grows-appended k content e = elim (Bool-cases (w.container_index == k)) [
    | inl open_one ↦
        (chunk, contents-appended k ∙ rw open_one (ap (λ bs. some (bs ++ chunk)) (ground arith)))
    | inr other ↦
        ([], contents-appended k ∙ rw other (ground arith ∙ ap some (sym (append-nil content))))
  ]

  abbrev pub placed_entry : EntryValue
  placed_entry = new_entry (length chunk) (copy_chunk chunk (sha1 chunk) w)

  -- The new entry leads to the chunk.
  Holds-appended : Holds sha1 (contents (appended sha1 chunk w)) (fp_of sha1 chunk) placed_entry
  unfolding new_entry copy_chunk
  Holds-appended =
      let here : (w.container_index == w.container_index) ≡ true = ground arith in
      let whole : length chunk % 2 ^ 16 ≡ length chunk = omega arith in
      record {
        content = w.container_buf ++ chunk;
        stored = contents-appended w.container_index ∙ rw here refl;
        within = omega (arith, ok.offset, length-append w.container_buf chunk);
        nonempty = omega arith;
        reach = omega (arith, ok.offset);
        matches =
            ap (λ bs. fp_of_bytes (sha1 bs))
              (ap (take (length chunk % 2 ^ 16))
                  (drop-append w.container_inner_offset w.container_buf chunk ok.offset)
                ∙ take_of_length-le (length chunk % 2 ^ 16) chunk (omega arith));
      }

  IsEntry-placed : IsEntry placed_entry
  unfolding new_entry copy_chunk
  IsEntry-placed = record {
    container_number = ok.index_word;
    offset = omega (arith, ok.offset, ok.room);
    chunk_length = omega arith;
    container_inner_index = ok.inner_index;
    ref_cnt = omega arith;
  }

  pub appended-IsWriting :
      dedup_lookup (fp_of sha1 chunk) w.manager ≡ unique → IsWriting sha1 (appended sha1 chunk w)
  unfolding copy_chunk advance
  appended-IsWriting new =
      let (index, up) = with_entry-Updated (fp_of sha1 chunk) placed_entry w.manager ok.index new in
      let buf : write_at w.container_buf_pointer chunk w.container_buf ≡ w.container_buf ++ chunk =
        write_at_end w.container_buf_pointer chunk w.container_buf ok.pointer in
      let size : length (write_at w.container_buf_pointer chunk w.container_buf)
          ≡ length w.container_buf + length chunk =
        ap length buf ∙ length-append w.container_buf chunk in
      record {
        pointer = omega (arith, ok.pointer);
        offset = omega (arith, ok.offset);
        room = omega arith;
        inner_index = omega arith;
        index_word = ok.index_word;
        fresh = ok.fresh;
        counted = ok.counted;
        index = index;
        origin = ok.origin;
        added =
            All-emplace (λ x. IsFp x.0 × IsEntry x.1) (fp_of sha1 chunk) placed_entry
              w.manager.fp_table_added
              (fp_of_bytes-IsFp (sha1 chunk) (is_sha1.digest_bytes chunk), IsEntry-placed) ok.added;
        sound =
            Sound-Updated sha1 Grows-appended w.manager _ (fp_of sha1 chunk) placed_entry ok.sound
              up Holds-appended;
      }
