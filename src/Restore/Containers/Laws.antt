-- ===== src/Restore/Containers/Laws.antt =====
-- The container cache keeps the contract of a cache: src/ContainerCache.cpp.
use c_dedup.Base.{
  ℕ, suc, ◌≤◌, ◌<◌, ◌≡◌, inl, inr, refl, sym, ap, ◌∙◌, subst, false, Option, none, some, List, [],
  ◌∷◌, ◌++◌, arith, leb, ◌==◌, if◌then◌else◌, length, take, Bytes, find, assign, erase, Distinct,
  nat_eq, is_some, map, ◌>>=◌, All, Bool-cases, Option-cases, Distinct-assign, All-append, All-find,
  length-append,
}
use c_dedup.Metadata.{EntryValue}
use c_dedup.Store.{Files, container_size}
use c_dedup.Restore.Fetch.{open_container, substr, fetch, Answers, IsCache}
use c_dedup.Restore.Containers.{
  contains, insert, remove, ContainerCache, evict_container_fifo, load_container, read_cached,
  get_chunk_data, container_cache,
}

abbrev pub keys : Files → List ℕ
keys m = map (λ x. x.0) m

contains-keys : (k : ℕ) (m : Files) → contains k (keys m) ≡ is_some (find k m)
unfolding contains find
contains-keys k [] = refl
contains-keys k ((j, v) ∷ m) = ground (arith, contains-keys k m)

assign_new : (k : ℕ) (v : Bytes) (m : Files) → find k m ≡ none → assign k v m ≡ m ++ (k, v) ∷ []
unfolding assign find
assign_new k v [] h = refl
assign_new k v ((j, w) ∷ m) h = elim (Bool-cases (j == k)) [
  | inl same ↦ ground arith
  | inr other ↦ rw (other, assign_new k v m (ground arith)) refl
]

find-new : (k : ℕ) (v : Bytes) (m : Files) → find k m ≡ none → find k (m ++ (k, v) ∷ []) ≡ some v
unfolding find
find-new k v [] h = ground arith
find-new k v ((j, w) ∷ m) h = ground (arith, find-new k v m)

remove_first : (k : ℕ) (set : List ℕ) → remove k (k ∷ set) ≡ set
unfolding remove
remove_first k set = ground arith

erase_first : (k : ℕ) (v : Bytes) (m : Files) → erase k ((k, v) ∷ m) ≡ m
unfolding erase
erase_first k v m = ground arith

Distinct-assign_new :
    (k : ℕ) (v : Bytes) (m : Files) → find k m ≡ none → Distinct m → Distinct (m ++ (k, v) ∷ [])
Distinct-assign_new k v m h d = subst Distinct (assign_new k v m h) (Distinct-assign k v m d)

ltb_no : (n : ℕ) → 0 < n → leb n 0 ≡ false
ltb_no n h = ground arith

-- The cache that holds the entries `m`: the set, the queue and the map agree.
abbrev pub cached : Files → ContainerCache
cached m = record { container_index_set = keys m; container_index_queue = keys m; cache = m }

evict-cached :
    (k : ℕ) (v : Bytes) (m : Files) → evict_container_fifo (cached ((k, v) ∷ m)) ≡ some (cached m)
unfolding evict_container_fifo
evict-cached k v m = rw (remove_first k (keys m), erase_first k v m) refl

length-keys : (m : Files) → length (keys m) ≡ length m
length-keys [] = refl
length-keys (x ∷ m) = ap suc (length-keys m)

keys-append : (m : Files) (k : ℕ) (v : Bytes) → keys m ++ k ∷ [] ≡ keys (m ++ (k, v) ∷ [])
keys-append [] k v = refl
keys-append (x ∷ m) k v = ap (◌∷◌ x.0) (keys-append m k v)

-- Every entry is what its container's file holds, no more than the cache's limit of them.
pub record IsCaching (containers : Files) (cache_max_size : ℕ) (m : Files) : Type 0 where
  pub distinct : Distinct m
  pub loaded :
      All
        (λ e.
          (file : Bytes) × (open_container containers e.0 ≡ some file)
          × (e.1 ≡ take container_size file))
        m
  pub bound : length m ≤ cache_max_size

module _ (containers : Files) (cache_max_size : ℕ) (some_room : 0 < cache_max_size) where
  -- The invariant of a container cache.
  abbrev pub Inv : ContainerCache → Type 0
  Inv c = (m : Files) × (c ≡ cached m) × IsCaching containers cache_max_size m

  load-cached :
      (k : ℕ) (file : Bytes) (m : Files)
      → find k m ≡ none
      → open_container containers k ≡ some file
      → load_container containers k (cached m)
        ≡ some (cached (m ++ (k, take container_size file) ∷ []))
  unfolding load_container insert
  load-cached k file m new e =
      rw
        (
          e,
          contains-keys k m,
          new,
          keys-append m k (take container_size file),
          assign_new k (take container_size file) m new,
        )
        refl

  load-IsCaching :
      (k : ℕ) (file : Bytes) (m : Files)
      → find k m ≡ none
      → open_container containers k ≡ some file
      → IsCaching containers cache_max_size m
      → length m < cache_max_size
      → IsCaching containers cache_max_size (m ++ (k, take container_size file) ∷ [])
  load-IsCaching k file m new e ok room = record {
    distinct = Distinct-assign_new k (take container_size file) m new ok.distinct;
    loaded = All-append _ m ((k, take container_size file) ∷ []) ok.loaded ((file, e, refl), tt);
    bound = omega (arith, length-append m ((k, take container_size file) ∷ []));
  }

  -- Room for one more: the cache as it is, or without the first container that was loaded.
  room-cached :
      (m : Files)
      → IsCaching containers cache_max_size m
      → (m' : Files) × ((if leb cache_max_size (length (keys m))
            then evict_container_fifo (cached m)
            else some (cached m))
          ≡ some (cached m'))
        × IsCaching containers cache_max_size m'
        × (length m' < cache_max_size)
        × ((k : ℕ) → find k m ≡ none → find k m' ≡ none)
  unfolding find
  room-cached [] ok = ([], rw (ltb_no cache_max_size some_room) refl, ok, some_room, λ k h. h)
  room-cached ((k, v) ∷ m) ok =
      elim (Bool-cases (leb cache_max_size (length (keys ((k, v) ∷ m))))) [
        | inl full ↦ (
          m,
          rw (full, evict-cached k v m) refl,
          record {
            distinct = ok.distinct.1;
            loaded = ok.loaded.1;
            bound = omega (arith, ok.bound);
          },
          omega (arith, ok.bound),
          λ j h. ground arith,
        )
        | inr free ↦ ((k, v) ∷ m, rw free refl, ok, ground (arith, length-keys m), λ j h. h)
      ]

  read-Answers :
      (ev : EntryValue) (file : Bytes) (m : Files)
      → find ev.container_number m ≡ some (take container_size file)
      → open_container containers ev.container_number ≡ some file
      → IsCaching containers cache_max_size m
      → Answers Inv (read_cached containers ev (cached m)) (fetch containers ev)
  unfolding read_cached fetch
  read-Answers ev file m here e ok =
      elim (Option-cases (substr ev.offset ev.chunk_length (take container_size file))) [
        | inl past ↦ inl (rw (here, past) refl, rw (e, past) refl)
        | inr (bytes, there) ↦
            inr (bytes, cached m, rw (here, there) refl, rw (e, there) refl, (m, refl, ok))
      ]

  hit :
      (ev : EntryValue) (content : Bytes) (m : Files)
      → find ev.container_number m ≡ some content
      → get_chunk_data containers cache_max_size ev (cached m)
        ≡ read_cached containers ev (cached m)
  unfolding get_chunk_data
  hit ev content m here =
      ap (λ b. if b then read_cached containers ev (cached m) else miss)
        (contains-keys ev.container_number m ∙ ap is_some here)
    where
      miss : Option (Bytes × ContainerCache)
      miss =
          (if leb cache_max_size (length (keys m))
            then evict_container_fifo (cached m)
            else some (cached m))
          >>= λ c. load_container containers ev.container_number c >>= read_cached containers ev

  miss :
      (ev : EntryValue) (m m' : Files)
      → find ev.container_number m ≡ none
      → (if leb cache_max_size (length (keys m))
          then evict_container_fifo (cached m)
          else some (cached m))
        ≡ some (cached m')
      → get_chunk_data containers cache_max_size ev (cached m)
        ≡ load_container containers ev.container_number (cached m') >>= read_cached containers ev
  unfolding get_chunk_data
  miss ev m m' new room = rw (contains-keys ev.container_number m, new, room) refl

  -- A number that the set does not hold.
  miss-Answers :
      (ev : EntryValue) (m m' : Files)
      → find ev.container_number m' ≡ none
      → IsCaching containers cache_max_size m'
      → length m' < cache_max_size
      → Answers Inv
          (load_container containers ev.container_number (cached m') >>= read_cached containers ev)
          (fetch containers ev)
  unfolding load_container fetch
  miss-Answers ev m m' new ok free =
      let k = ev.container_number in
      elim (Option-cases (open_container containers k)) [
        | inl missing ↦ inl (rw missing refl, rw missing refl)
        | inr (file, e) ↦
            let m'' = m' ++ (k, take container_size file) ∷ [] in
            let here : find k m'' ≡ some (take container_size file) =
              find-new k (take container_size file) m' new in
            subst (λ got. Answers Inv got (fetch containers ev))
              (sym (ap (λ c. c >>= read_cached containers ev) (load-cached k file m' new e)))
              (read-Answers ev file m'' here e (load-IsCaching k file m' new e ok free))
      ]

  -- On a hit or a miss, with or without an eviction, the container cache answers with the bytes that
  -- stand at the entry's place in the container's file, or fails where there are none; its set, queue
  -- and map go on holding the same containers, at most `cache_max_size` of them, with the content of
  -- their files. The limit is positive and the cache's state is one that it reached this way.
  pub get_chunk_data-Answers :
      (ev : EntryValue) (c : ContainerCache)
      → Inv c
      → Answers Inv (get_chunk_data containers cache_max_size ev c) (fetch containers ev)
  get_chunk_data-Answers ev c (m, e, ok) =
      subst (λ c. Answers Inv (get_chunk_data containers cache_max_size ev c) (fetch containers ev))
        (sym e)
        (elim (Option-cases (find ev.container_number m)) [
          | inl new ↦
              let (m', room, ok', free, gone) = room-cached m ok in
              subst (λ got. Answers Inv got (fetch containers ev)) (sym (miss ev m m' new room))
                (miss-Answers ev m m' (gone ev.container_number new) ok' free)
          | inr (content, here) ↦
              let (file, there, same) = All-find _ ev.container_number m ok.loaded here in
              subst (λ got. Answers Inv got (fetch containers ev)) (sym (hit ev content m here))
                (read-Answers ev file m (here ∙ ap some same) there ok)
        ])

  -- The container cache keeps the contract.
  pub container_cache-IsCache : IsCache containers (container_cache containers cache_max_size)
  unfolding container_cache
  container_cache-IsCache = record {
    Inv = Inv;
    starts = ([], refl, record { distinct = tt; loaded = tt; bound = omega arith });
    answers = get_chunk_data-Answers;
  }
