-- ===== src/Backup/Flush.antt =====
-- The invariant of a running backup, and the flush of a full container: main.cpp,
-- `saveChunkToContainer`.
use c_dedup.Base.{
  ℕ, ◌+◌, ◌*◌, ◌%◌, ◌^◌, ◌≤◌, ◌<◌, ◌≡◌, refl, sym, ap, ◌∙◌, false, none, some, [], ◌++◌, arith,
  if◌then◌else◌, length, Bytes, le_bytes, find, nat_eq, ◌==◌, Bool-cases, inl, inr, append-nil,
}
use c_dedup.Store.{
  Store, containers_num, container_size, sha_digest_length, save_container, from_buffer,
}
use c_dedup.Store.Laws.{from_buffer_full, find-put_file, length-put_file, length-put_file-le}
use c_dedup.Metadata.Index.{IsIndex}
use c_dedup.Metadata.Persist.{InRange}
use c_dedup.Backup.{Writer, flush}
use c_dedup.Backup.Sound.{Containers, Sound, Grows, Sound-Grows}

-- What the containers will hold: the files, and the open container's buffer under its number.
unfoldable pub contents : Writer → Containers
contents w k = if w.container_index == k then some w.container_buf else find k w.store.containers

pub record IsWriting (sha1 : Bytes → Bytes) (w : Writer) : Type 0 where
  -- the counters agree with the buffer, which has room
  pub pointer : w.container_buf_pointer ≡ length w.container_buf
  pub offset : w.container_inner_offset ≡ length w.container_buf
  pub room : length w.container_buf < container_size
  pub inner_index : w.container_inner_index < 2 ^ 16
  pub index_word : w.container_index < 2 ^ 32
  -- no file stands where a container will be saved, and the directory counts the saved ones
  pub fresh : (k : ℕ) → w.container_index ≤ k → find k w.store.containers ≡ none
  pub counted : w.container_index ≤ containers_num w.store
  -- the index is well formed, within its words, and leads to the right bytes
  pub index : IsIndex w.manager
  pub origin : InRange w.manager.fp_table_origin
  pub added : InRange w.manager.fp_table_added
  pub sound : Sound sha1 (contents w) w.manager

-- The repository after the open container is saved.
pub find-save_container :
    (sha1 : Bytes → Bytes) (w : Writer)
    → IsWriting sha1 w
    → (k : ℕ)
    → find k
        (save_container w.container_index w.container_buf w.container_buf_pointer
          w.rev_container_cnt w.rev_container_buf w.store).containers
      ≡ contents w k
unfolding save_container contents
find-save_container sha1 w ok k =
    rw (from_buffer_full w.container_buf_pointer w.container_buf ok.pointer) (
      find-put_file w.container_index k w.container_buf w.store.containers
        (ok.fresh w.container_index (omega arith)))

pub containers_num-save_container :
    (sha1 : Bytes → Bytes) (w : Writer)
    → IsWriting sha1 w
    → w.container_index + 1
      ≤ containers_num (
          save_container w.container_index w.container_buf w.container_buf_pointer
            w.rev_container_cnt w.rev_container_buf w.store)
unfolding save_container containers_num
containers_num-save_container sha1 w ok = omega (
  arith,
  ok.counted,
  length-put_file w.container_index (from_buffer w.container_buf_pointer w.container_buf)
      w.store.containers (ok.fresh w.container_index (omega arith)),
  length-put_file-le w.container_index
      (le_bytes 4 w.rev_container_cnt
        ++ from_buffer (w.rev_container_cnt * sha_digest_length) w.rev_container_buf)
      w.store.reverse,
)

abbrev pub saved : Writer → Store
saved w =
    save_container w.container_index w.container_buf w.container_buf_pointer w.rev_container_cnt
      w.rev_container_buf w.store

-- Behind the open container's number there is no file, saved or not.
pub saved-fresh :
    (sha1 : Bytes → Bytes) (w : Writer)
    → IsWriting sha1 w
    → (k : ℕ) → w.container_index + 1 ≤ k
    → find k (saved w).containers ≡ none
unfolding contents
saved-fresh sha1 w ok k h =
    let other : (w.container_index == k) ≡ false = ground arith in
    find-save_container sha1 w ok k ∙ rw other (ok.fresh k (omega arith))

contents-flush :
    (sha1 : Bytes → Bytes) (w : Writer)
    → IsWriting sha1 w
    → w.container_index + 1 < 2 ^ 32
    → (k : ℕ)
    → contents (flush w) k
      ≡ (if w.container_index + 1 == k then some [] else find k (saved w).containers)
unfolding contents flush
contents-flush sha1 w ok small k =
    let next : (w.container_index + 1) % 2 ^ 32 ≡ w.container_index + 1 = omega arith in
    ap (λ n. if n == k then some [] else find k (saved w).containers) next

pub Grows-flush :
    (sha1 : Bytes → Bytes) (w : Writer)
    → IsWriting sha1 w
    → w.container_index + 1 < 2 ^ 32
    → Grows (contents w) (contents (flush w))
Grows-flush sha1 w ok small k content e = (
  [],
  elim (Bool-cases (w.container_index + 1 == k)) [
    | inl next ↦
        let none_there = saved-fresh sha1 w ok k (ground arith) in
        absurd (ground (arith, find-save_container sha1 w ok k))
    | inr other ↦
        contents-flush sha1 w ok small k
        ∙ rw other (find-save_container sha1 w ok k ∙ (e ∙ ap some (sym (append-nil content))))
  ],
)

-- A flush loses nothing, and leaves an empty open container under the next number.
pub flush-IsWriting :
    (sha1 : Bytes → Bytes) (w : Writer)
    → IsWriting sha1 w
    → w.container_index + 1 < 2 ^ 32
    → IsWriting sha1 (flush w)
unfolding flush
flush-IsWriting sha1 w ok small =
    let next : (w.container_index + 1) % 2 ^ 32 ≡ w.container_index + 1 = omega arith in
    record {
      pointer = refl;
      offset = refl;
      room = omega arith;
      inner_index = omega arith;
      index_word = omega arith;
      fresh = λ k h. saved-fresh sha1 w ok k (omega arith);
      counted = omega (arith, containers_num-save_container sha1 w ok);
      index = ok.index;
      origin = ok.origin;
      added = ok.added;
      sound = Sound-Grows sha1 (Grows-flush sha1 w ok small) w.manager ok.sound;
    }
