-- ===== src/Lifecycle/Opening.antt =====
-- The start of a backup of a repository of versions: main.cpp, the start of `TASK_WRITE`.
use c_dedup.Base.{
  ℕ, ◌+◌, ◌*◌, ◌^◌, ◌≤◌, ◌<◌, ◌≡◌, refl, sym, ap, subst, ◌∙◌, none, [], arith, length, Bytes,
  Bool-cases, Option-cases, inl, inr, find, nat_eq, ◌==◌, take,
}
use c_dedup.Store.{Store, containers_num, recipes_num, container_size}
use c_dedup.Metadata.{Sha1Fp}
use c_dedup.Backup.{start_writer}
use c_dedup.Backup.Repository.{IsRepository, on_disk}
use c_dedup.Delete.Offsets.{listed, listing}
use c_dedup.Delete.Counts.{Versions, uses, find-recipe_files}
use c_dedup.Delete.Kept.{IsKept}
use c_dedup.Delete.Task.{origin-InRange}
use c_dedup.Lifecycle.Shelving.{Shelving, nothing_on, find-opened}

-- No file stands under a number that is still to be given.
pub record IsFree (s : Store) : Type 0 where
  pub containers_free : (k : ℕ) → containers_num s ≤ k → find k s.containers ≡ none
  pub reverse_free : (k : ℕ) → containers_num s ≤ k → find k s.reverse ≡ none
  pub recipes_free : (k : ℕ) → recipes_num s ≤ k → find k s.recipes ≡ none

module _ {sha1 : Bytes → Bytes} {versions : Versions} {s : Store} (kept : IsKept sha1 versions s)
    (free : IsFree s) where
  pub kept-IsRepository : IsRepository sha1 s
  kept-IsRepository = record {
    containers_free = free.containers_free;
    recipes_free = free.recipes_free;
    index = kept.tracks.index;
    all_loaded = kept.tracks.loaded;
    in_range = origin-InRange kept.tracks;
    sound = kept.tracks.sound;
  }

  shelf_to_come : kept.shelf (containers_num s) ≡ []
  shelf_to_come = nothing_on (kept.shelf (containers_num s)) (λ j.
      elim (Bool-cases (listed j (kept.shelf (containers_num s)))) [
        | inl on ↦
            let (v, there, number) = kept.tracks.shelves.known (containers_num s) j on in
            let held = kept.tracks.sound j v there in
            let gone =
              ap (on_disk s) number ∙ free.containers_free (containers_num s) (omega arith) in
            absurd (ground (arith, held.stored, gone))
        | inr off ↦ off
      ])

  pub version_to_come : find (recipes_num s) versions ≡ none
  version_to_come = elim (Option-cases (find (recipes_num s) versions)) [
    | inl missing ↦ missing
    | inr (chunks, there) ↦
        let file =
          ap (find (recipes_num s)) kept.recipes
          ∙ find-recipe_files sha1 (recipes_num s) versions chunks there in
        absurd (ground (arith, file, free.recipes_free (recipes_num s) (omega arith)))
  ]

  -- A backup starts from what the repository keeps.
  pub start_writer-Shelving :
      (n : ℕ)
      → 4 + 20 * n ≤ container_size
      → ((fp : Sha1Fp) → uses sha1 fp versions + n < 2 ^ 32)
      → Shelving (λ fp. uses sha1 fp versions) kept.shelf n (start_writer s)
  unfolding start_writer
  start_writer-Shelving n few small =
      let empty = shelf_to_come in
      record {
        counted = kept.tracks.counted;
        positive = kept.tracks.positive;
        shelves = record {
          known = kept.tracks.shelves.known;
          only = kept.tracks.shelves.only;
          apart = kept.tracks.shelves.apart;
          once = kept.tracks.shelves.once;
          reverse_files = λ k pos.
              find-opened kept.shelf (containers_num s) k s.reverse
              ∙ elim (Bool-cases (containers_num s == k)) [
                | inl here ↦ rw here refl
                | inr other ↦ rw other (kept.tracks.shelves.reverse_files k pos)
              ];
          reverse_small = kept.tracks.shelves.reverse_small;
          small = kept.tracks.shelves.small;
        };
        fresh = free.reverse_free;
        count = sym (ap length empty);
        listed_there = subst (λ fps. take (20 * length fps) [] ≡ listing fps) (sym empty) refl;
        few = omega (arith, few, ap length empty);
        in_word = small;
      }
