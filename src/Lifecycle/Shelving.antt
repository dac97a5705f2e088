-- ===== src/Lifecycle/Shelving.antt =====
-- What a running backup keeps for the versions of its repository: main.cpp, `saveChunkToContainer` and
-- `saveContainer`.
use c_dedup.Base.{
  ℕ, ◌+◌, ◌*◌, ◌%◌, ◌^◌, ◌≤◌, ◌<◌, ◌≡◌, refl, sym, ap, subst, ◌∙◌, false, none, some, List, [], ◌∷◌,
  ◌++◌, arith, if◌then◌else◌, length, take, Bytes, All, All-assign, find, assign, nat_eq, ◌==◌,
  find-assign, Bool-cases, inl, inr, le_bytes, length-take, ◌-◌, append-nil, write_at_end, ==_iff,
}
use c_dedup.Store.{Files, container_size, from_buffer, save_container, put_file}
use c_dedup.Store.Laws.{from_buffer_full}
use c_dedup.Metadata.{Sha1Fp, EntryValue}
use c_dedup.Metadata.Index.{entry}
use c_dedup.Backup.{Writer, flush}
use c_dedup.Backup.Flush.{IsWriting, contents, saved}
use c_dedup.Delete.Offsets.{listing, listed}
use c_dedup.Delete.Shelf.{IsSmall}
use c_dedup.Delete.Reverse.{reverse_file, length-listing}
use c_dedup.Delete.Counts.{refs, same_fp}
use c_dedup.Delete.Kept.{Shelves}

-- The reverse files, with that of the open container.
abbrev pub opened : (ℕ → List Sha1Fp) → ℕ → Files → Files
opened shelf k reverse = assign k (reverse_file (shelf k)) reverse

-- The index has an entry for each fingerprint that is wanted and counts how often, and the shelves
-- hold with the reverse file of the open container, whose buffer lists it; `left` chunks are to come.
pub record Shelving (want : Sha1Fp → ℕ) (shelf : ℕ → List Sha1Fp) (left : ℕ) (w : Writer)
    : Type 0 where
  pub counted : (fp : Sha1Fp) → refs (entry w.manager fp) ≡ want fp
  pub positive : (fp : Sha1Fp) (v : EntryValue) → entry w.manager fp ≡ some v → 0 < v.ref_cnt
  pub shelves :
      Shelves shelf w.store.containers (opened shelf w.container_index w.store.reverse) w.manager
  pub fresh : (k : ℕ) → w.container_index ≤ k → find k w.store.reverse ≡ none
  pub count : w.rev_container_cnt ≡ length (shelf w.container_index)
  pub listed_there :
      take (20 * length (shelf w.container_index)) w.rev_container_buf
      ≡ listing (shelf w.container_index)
  pub few : 4 + 20 * (length (shelf w.container_index) + left) ≤ container_size
  pub in_word : (fp : Sha1Fp) → want fp + left < 2 ^ 32

-- A shelf that lists nothing is empty.
pub nothing_on : (fps : List Sha1Fp) → ((j : Sha1Fp) → listed j fps ≡ false) → fps ≡ []
nothing_on [] f = refl
nothing_on (fp ∷ fps) f = absurd (ground (arith, f fp, same_fp fp))

-- The rest of the buffer is not written.
from_buffer_front :
    (n : ℕ) (buf front : Bytes) → take n buf ≡ front → length front ≡ n → from_buffer n buf ≡ front
unfolding from_buffer
from_buffer_front n buf front e size =
    let whole : n - length buf ≡ 0 = omega (arith, length-take n buf, ap length e, size) in
    rw (whole, e, append-nil)

pub put_file-fresh :
    (n : ℕ) (new : Bytes) (files : Files)
    → find n files ≡ none
    → put_file n new files ≡ assign n new files
unfolding put_file
put_file-fresh n new files h = rw (h, write_at_end 0 new [] refl)

pub find-opened :
    (shelf : ℕ → List Sha1Fp) (i k : ℕ) (reverse : Files)
    → find k (opened shelf i reverse)
      ≡ (if i == k then some (reverse_file (shelf k)) else find k reverse)
find-opened shelf i k reverse =
    find-assign i k (reverse_file (shelf i)) reverse ∙ elim (Bool-cases (i == k)) [
      | inl same ↦ rw same (ap (λ n. some (reverse_file (shelf n))) ((==_iff i k).0 same))
      | inr other ↦ rw other refl
    ]

none_behind :
    (w : Writer) (sha1 : Bytes → Bytes)
    → IsWriting sha1 w
    → (k : ℕ) → w.container_index < k
    → contents w k ≡ none
unfolding contents
none_behind w sha1 ok k h =
    let other : (w.container_index == k) ≡ false = ground arith in
    rw (other, contents) (ok.fresh k (omega arith))

module _ (sha1 : Bytes → Bytes) {want : Sha1Fp → ℕ} {shelf : ℕ → List Sha1Fp} {left : ℕ}
    (w : Writer) (ok : IsWriting sha1 w) (s : Shelving want shelf left w) where
  -- Behind the open container there is no chunk.
  pub empty_behind : (k : ℕ) → w.container_index < k → shelf k ≡ []
  empty_behind k h = nothing_on (shelf k) (λ j. elim (Bool-cases (listed j (shelf k))) [
    | inl on ↦
        let (v, there, number) = s.shelves.known k j on in
        let held = ok.sound j v there in
        let gone = ap (contents w) number ∙ none_behind w sha1 ok k h in
        absurd (ground (arith, held.stored, gone))
    | inr off ↦ off
  ])

  -- The reverse file that the flush writes.
  pub find-saved :
      (k : ℕ) → find k (saved w).reverse ≡ find k (opened shelf w.container_index w.store.reverse)
  unfolding save_container
  find-saved k =
      let fps = shelf w.container_index in
      let size : w.rev_container_cnt * 20 ≡ 20 * length fps = omega (arith, s.count) in
      let front : from_buffer (w.rev_container_cnt * 20) w.rev_container_buf ≡ listing fps =
        ap (λ n. from_buffer n w.rev_container_buf) size
        ∙ from_buffer_front (20 * length fps) w.rev_container_buf (listing fps) s.listed_there
            (length-listing fps) in
      ap (find k) (
        put_file-fresh w.container_index _ w.store.reverse (s.fresh w.container_index (omega arith))
        ∙ (λ i. assign w.container_index (le_bytes 4 (s.count i) ++ front i) w.store.reverse))

  pub saved-IsSmall : All IsSmall (saved w).containers
  unfolding save_container
  saved-IsSmall =
      let full = from_buffer_full w.container_buf_pointer w.container_buf ok.pointer in
      subst (All IsSmall)
        (sym (
          put_file-fresh w.container_index _ w.store.containers
            (ok.fresh w.container_index (omega arith))))
        (All-assign IsSmall w.container_index _ w.store.containers
          (omega (arith, ap length full, ok.room)) s.shelves.small)

  pub Shelving-flush : w.container_index + 1 < 2 ^ 32 → Shelving want shelf left (flush w)
  unfolding flush
  Shelving-flush small =
      let next : w.container_index < (w.container_index + 1) % 2 ^ 32 = omega arith in
      let empty = empty_behind ((w.container_index + 1) % 2 ^ 32) next in
      record {
        counted = s.counted;
        positive = s.positive;
        shelves = record {
          known = s.shelves.known;
          only = s.shelves.only;
          apart = s.shelves.apart;
          once = s.shelves.once;
          reverse_files = λ k pos.
              find-opened shelf ((w.container_index + 1) % 2 ^ 32) k (saved w).reverse
              ∙ elim (Bool-cases ((w.container_index + 1) % 2 ^ 32 == k)) [
                | inl here ↦ rw here refl
                | inr other ↦ rw other (find-saved k ∙ s.shelves.reverse_files k pos)
              ];
          reverse_small = s.shelves.reverse_small;
          small = saved-IsSmall;
        };
        fresh = λ k h.
            let other : (w.container_index == k) ≡ false = ground (arith, next, h) in
            find-saved k
            ∙ (find-opened shelf w.container_index k w.store.reverse
                ∙ rw other (s.fresh k (omega (arith, h, next))));
        count = sym (ap length empty);
        listed_there =
            subst (λ fps. take (20 * length fps) w.rev_container_buf ≡ listing fps) (sym empty)
              refl;
        few = omega (arith, s.few, ap length empty);
        in_word = s.in_word;
      }
