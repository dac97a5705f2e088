-- ===== src/Backup/Repository.antt =====
-- What every backup leaves on disk, and what the next one starts from: main.cpp, the start of `main`
-- and of `TASK_WRITE`, and the code from `writend` on.
use c_dedup.Base.{
  ℕ, ◌+◌, ◌*◌, ◌^◌, ◌≤◌, ◌<◌, ◌≡◌, refl, sym, ap, ◌∙◌, subst, none, some, [], arith, if◌then◌else◌,
  length, Bytes, find, nat_eq, ◌==◌, Bool-cases, inl, inr, append-nil, ltb, pos→ne_zero, concat,
}
use c_dedup.Store.{Store, containers_num, recipes_num, save_container, save_file_recipe}
use c_dedup.Store.Laws.{find-put_file, length-put_file}
use c_dedup.Metadata.{Sha1Fp, EntryValue, new_manager, file_cache}
use c_dedup.Metadata.Index.{IsIndex, entries_num}
use c_dedup.Metadata.Persist.{InRange}
use c_dedup.Metadata.Reopen.{
  reopened, reopened-added, entry-reopened, reopened-IsIndex, reopened-InRange,
}
use c_dedup.Backup.{Writer, start_writer, open_index, write_end}
use c_dedup.Backup.Sound.{Containers, Holds, Sound, Grows, Sound-Grows}
use c_dedup.Backup.Flush.{
  IsWriting, contents, find-save_container, containers_num-save_container, saved, saved-fresh,
}

abbrev pub on_disk : Store → Containers
on_disk s k = find k s.containers

-- A repository: the next numbers are free, and the index leads to bytes with their fingerprints.
pub record IsRepository (sha1 : Bytes → Bytes) (s : Store) : Type 0 where
  pub containers_free : (k : ℕ) → containers_num s ≤ k → find k s.containers ≡ none
  pub recipes_free : (k : ℕ) → recipes_num s ≤ k → find k s.recipes ≡ none
  pub index : IsIndex (open_index s)
  pub all_loaded : (open_index s).fp_table_added ≡ []
  pub in_range : InRange (open_index s).fp_table_origin
  pub sound : Sound sha1 (on_disk s) (open_index s)

module _ (sha1 : Bytes → Bytes) (s : Store) (ok : IsRepository sha1 s) where
  contents-start : Grows (on_disk s) (contents (start_writer s))
  unfolding contents start_writer
  contents-start k content e = elim (Bool-cases (containers_num s == k)) [
    | inl next ↦ absurd (ground (arith, ok.containers_free k))
    | inr other ↦ ([], rw (other, contents) (e ∙ ap some (sym (append-nil content))))
  ]

  -- A backup starts with its invariant.
  pub start_writer-IsWriting : containers_num s < 2 ^ 32 → IsWriting sha1 (start_writer s)
  unfolding start_writer
  start_writer-IsWriting small = record {
    pointer = refl;
    offset = refl;
    room = omega arith;
    inner_index = omega arith;
    index_word = small;
    fresh = λ k h. ok.containers_free k h;
    counted = omega arith;
    index = ok.index;
    origin = ok.in_range;
    added = subst InRange (sym ok.all_loaded) tt;
    sound = Sound-Grows sha1 contents-start (open_index s) ok.sound;
  }

-- The containers after the last flush.
abbrev pub closed : Writer → Store
closed w = if ltb 0 w.container_buf_pointer then saved w else w.store

pub closed-recipes : (w : Writer) → (closed w).recipes ≡ w.store.recipes
unfolding save_container
closed-recipes w = ground arith

module _ (sha1 : Bytes → Bytes) (w : Writer) (ok : IsWriting sha1 w) where
  closed-contents :
      (k : ℕ) (content : Bytes)
      → contents w k ≡ some content
      → 0 < length content
      → find k (closed w).containers ≡ some content
  unfolding contents
  closed-contents k content e pos = elim (Bool-cases (ltb 0 w.container_buf_pointer)) [
    | inl full ↦
        ap (λ b. find k (if b then saved w else w.store).containers) full
        ∙ (find-save_container sha1 w ok k ∙ e)
    | inr empty ↦
        ap (λ b. find k (if b then saved w else w.store).containers) empty
        ∙ ground (arith, ok.pointer)
  ]

  closed-free : (k : ℕ) → containers_num (closed w) ≤ k → find k (closed w).containers ≡ none
  closed-free k h = elim (Bool-cases (ltb 0 w.container_buf_pointer)) [
    | inl full ↦
        let same = ap (λ b. (if b then saved w else w.store)) full in
        let count = ap containers_num same in
        ap (λ s. find k s.containers) same
        ∙ saved-fresh sha1 w ok k (omega (arith, containers_num-save_container sha1 w ok))
    | inr empty ↦
        let same = ap (λ b. (if b then saved w else w.store)) empty in
        let count = ap containers_num same in
        ap (λ s. find k s.containers) same ∙ ok.fresh k (omega (arith, ok.counted))
  ]

  Holds-closed :
      {fp : Sha1Fp} {v : EntryValue}
      → Holds sha1 (contents w) fp v
      → Holds sha1 (on_disk (closed w)) fp v
  Holds-closed {v} h = record {
    content = h.content;
    stored =
        closed-contents v.container_number h.content h.stored (omega (arith, h.within, h.nonempty));
    within = h.within;
    nonempty = h.nonempty;
    reach = h.reach;
    matches = h.matches;
  }

module _ (w : Writer)
    (free : (k : ℕ) → recipes_num w.store ≤ k → find k w.store.recipes ≡ none) where
  closed-free_recipe : find (recipes_num (closed w)) (closed w).recipes ≡ none
  unfolding recipes_num
  closed-free_recipe = rw (closed-recipes w) (free (length w.store.recipes) (omega arith))

  -- The new recipe stands under the first free version; the others stay.
  pub find-recipes :
      (k : ℕ)
      → find k (write_end w).recipes
        ≡ (if recipes_num w.store == k then some (concat w.file_recipe) else find k w.store.recipes)
  unfolding write_end save_file_recipe recipes_num
  find-recipes k =
      find-put_file (recipes_num (closed w)) k (concat w.file_recipe) (closed w).recipes
        closed-free_recipe
      ∙ ap (λ r. if length r == k then some (concat w.file_recipe) else find k r) (closed-recipes w)

  pub recipes_num-write_end : recipes_num (write_end w) ≡ recipes_num w.store + 1
  unfolding write_end save_file_recipe recipes_num
  recipes_num-write_end =
      length-put_file (recipes_num (closed w)) (concat w.file_recipe) (closed w).recipes
        closed-free_recipe
      ∙ ap (λ r. length r + 1) (closed-recipes w)

  -- The next process loads the index that was saved.
  pub open_index-write_end : open_index (write_end w) ≡ reopened w.manager
  unfolding open_index write_end
  open_index-write_end =
      ap (λ b. if b then new_manager else reopened w.manager)
        (pos→ne_zero (recipes_num (write_end w)) (omega (arith, recipes_num-write_end)))

  -- A backup leaves a repository, if the index still fits into what `load` reads.
  pub write_end-IsRepository :
      (sha1 : Bytes → Bytes)
      → IsWriting sha1 w
      → entries_num w.manager * 36 ≤ file_cache
      → IsRepository sha1 (write_end w)
  write_end-IsRepository sha1 ok fits =
      let back = sym open_index-write_end in
      record {
        containers_free = λ k h. containers k h;
        recipes_free = λ k h. recipes k h;
        index = subst IsIndex back (reopened-IsIndex w.manager ok.index ok.added ok.origin fits);
        all_loaded =
            subst (λ m. m.fp_table_added ≡ []) back
              (reopened-added w.manager ok.index ok.added ok.origin fits);
        in_range =
            subst (λ m. InRange m.fp_table_origin) back
              (reopened-InRange w.manager ok.index ok.added ok.origin fits);
        sound = subst (Sound sha1 (on_disk (write_end w))) back sound;
      }
    where
      containers :
          (k : ℕ) → containers_num (write_end w) ≤ k → find k (write_end w).containers ≡ none
      containers k h = unfold write_end save_file_recipe containers_num in closed-free sha1 w ok k h

      recipes : (k : ℕ) → recipes_num (write_end w) ≤ k → find k (write_end w).recipes ≡ none
      recipes k h = find-recipes k ∙ ground (arith, free k, recipes_num-write_end)

      sound : Sound sha1 (on_disk (write_end w)) (reopened w.manager)
      sound fp v e =
          let h = Holds-closed sha1 w ok (
            ok.sound fp v
              (sym (entry-reopened w.manager ok.index ok.added ok.origin fits fp) ∙ e)) in
          unfold write_end save_file_recipe in h
