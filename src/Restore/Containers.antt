-- ===== src/Restore/Containers.antt =====
-- The container cache: src/ContainerCache.cpp and include/ContainerCache.h.
--
-- The set and the map hold the same numbers as the queue. `none` is an exception: the constructor of
-- `std::string` on the -1 of a failed `read`, or past the end; or `front` of an empty queue.
pub mod Laws
use c_dedup.Base.{
  ℕ, suc, ◌≤◌, ◌<◌, ◌≡◌, inl, inr, refl, sym, ap, ◌∙◌, subst, Bool, true, false, Option, none, some,
  List, [], ◌∷◌, ◌++◌, arith, leb, ◌==◌, if◌then◌else◌, length, take, Bytes, find, assign, erase,
  Distinct, nat_eq, value_or, is_some, map, ◌>>=◌, All, Bool-cases, Option-cases, Distinct-assign,
  All-append, All-find, length-append,
}
use c_dedup.Metadata.{EntryValue}
use c_dedup.Store.{Files, container_size}
use c_dedup.Restore.{Cache}
use c_dedup.Restore.Fetch.{open_container, substr, fetch, Answers, IsCache}

-- `std::unordered_set<int>`: `find`, `insert` and `erase`.
unfoldable pub contains : ℕ → List ℕ → Bool
contains k [] = false
contains k (j ∷ set) = if j == k then true else contains k set

unfoldable pub insert : ℕ → List ℕ → List ℕ
insert k set = if contains k set then set else set ++ k ∷ []

unfoldable pub remove : ℕ → List ℕ → List ℕ
remove k [] = []
remove k (j ∷ set) = if j == k then set else j ∷ remove k set

pub record ContainerCache : Type 0 where
  pub container_index_set : List ℕ
  pub container_index_queue : List ℕ
  pub cache : Files

abbrev pub new_cache : ContainerCache
new_cache = record { container_index_set = []; container_index_queue = []; cache = [] }

-- `evictContainerFIFO`
unfoldable pub evict_container_fifo : ContainerCache → Option ContainerCache
unfolding remove
evict_container_fifo c = elim c.container_index_queue [
  | [] ↦ none
  | container_index ∷ queue ↦ some (record c {
    container_index_set = remove container_index c.container_index_set;
    container_index_queue = queue;
    cache = erase container_index c.cache;
  })
]

module _ (containers : Files) where
  -- `loadContainer`
  unfoldable pub load_container : ℕ → ContainerCache → Option ContainerCache
  unfolding insert
  load_container container_index c = open_container containers container_index >>= λ file.
      some (record c {
        container_index_queue = c.container_index_queue ++ container_index ∷ [];
        container_index_set = insert container_index c.container_index_set;
        cache = assign container_index (take container_size file) c.cache;
      })

  -- The read out of the map, `operator[]`, which stands at a number that is there.
  unfoldable pub read_cached : EntryValue → ContainerCache → Option (Bytes × ContainerCache)
  unfolding substr
  read_cached ev c =
      substr ev.offset ev.chunk_length (value_or (find ev.container_number c.cache) []) >>= λ bytes.
      some (bytes, c)

  -- `getChunkData`
  unfoldable pub get_chunk_data : ℕ → EntryValue → ContainerCache → Option (Bytes × ContainerCache)
  unfolding contains evict_container_fifo load_container read_cached
  get_chunk_data cache_max_size ev c =
      let room =
        (if leb cache_max_size (length c.container_index_queue)
          then evict_container_fifo c
          else some c) in
      if contains ev.container_number c.container_index_set
      then read_cached ev c
      else (room >>= λ c. load_container ev.container_number c >>= read_cached ev)

  unfoldable pub container_cache : ℕ → Cache ContainerCache
  unfolding get_chunk_data
  container_cache cache_max_size = record {
    start = new_cache;
    get_chunk_data = get_chunk_data cache_max_size;
  }
