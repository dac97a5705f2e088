-- ===== src/Restore/Chunks.antt =====
-- The chunk cache: src/ChunkCache.cpp and include/ChunkCache.h.
--
-- The two `std::map` are association lists; `begin` looks for the smallest key. `loadChunk` goes on
-- after a failed open or a short read, with stale bytes of its buffer: `none` marks that, and an
-- eviction from an empty map.
use c_dedup.Base.{
  ℕ, ◌+◌, ◌*◌, ◌%◌, ◌^◌, Option, none, some, List, [], ◌∷◌, ltb, leb, ◌==◌, if◌then◌else◌, length,
  window, Bytes, find, assign, erase, nat_eq, ◌>>=◌,
}
use c_dedup.Metadata.{EntryValue}
use c_dedup.Store.{Files}
use c_dedup.Restore.{Cache}

pub record ChunkCache : Type 0 where
  pub lru_timestamp : ℕ
  pub cache : List (ℕ × (Bytes × ℕ))
  pub lru_stack : List (ℕ × ℕ)

abbrev pub new_chunk_cache : ChunkCache
new_chunk_cache = record { lru_timestamp = 0; cache = []; lru_stack = [] }

-- `ChunkGlobalID`
unfoldable pub chunk_global_id : EntryValue → ℕ
chunk_global_id ev = (ev.container_number * 2 ^ 32 + ev.container_inner_index) % 2 ^ 64

-- `LRUstack.begin()`: the entry with the smallest timestamp.
unfoldable pub oldest : List (ℕ × ℕ) → Option (ℕ × ℕ)
oldest [] = none
oldest (e ∷ stack) = elim (oldest stack) [
  | none ↦ some e
  | some f ↦ some (if ltb f.0 e.0 then f else e)
]

-- `evictChunkLRU`
unfoldable pub evict_chunk_lru : ChunkCache → Option ChunkCache
unfolding oldest
evict_chunk_lru c = oldest c.lru_stack >>= λ e.
    some (record c { cache = erase e.1 c.cache; lru_stack = erase e.0 c.lru_stack })

-- A use of `cid` now, after which the map holds `chunk` for it.
unfoldable pub touch : ℕ → Bytes → ChunkCache → ChunkCache
touch cid chunk c =
    let now = (c.lru_timestamp + 1) % 2 ^ 64 in
    record c {
      lru_timestamp = now;
      lru_stack = assign now cid c.lru_stack;
      cache = assign cid (chunk, now) c.cache;
    }

module _ (containers : Files) where
  -- `loadChunk`: the name is made of the unsigned number, that of `saveContainer` of the signed one.
  unfoldable pub load_chunk : EntryValue → Option Bytes
  load_chunk ev =
      (if ltb ev.container_number (2 ^ 31) then find ev.container_number containers else none)
      >>= λ content.
          let chunk = window ev.offset ev.chunk_length content in
          if length chunk == ev.chunk_length then some chunk else none

  -- `getChunkData`
  unfoldable pub get_cached_chunk : ℕ → EntryValue → ChunkCache → Option (Bytes × ChunkCache)
  unfolding chunk_global_id evict_chunk_lru touch load_chunk
  get_cached_chunk cache_max_size ev c =
      let cid = chunk_global_id ev in
      elim (find cid c.cache) [
        | some (chunk, last) ↦
            some (chunk, touch cid chunk (record c { lru_stack = erase last c.lru_stack }))
        | none ↦
            (if leb cache_max_size (length c.cache) then evict_chunk_lru c else some c) >>= λ room.
            load_chunk ev >>= λ chunk. some (chunk, touch cid chunk room)
      ]

  unfoldable pub chunk_cache : ℕ → Cache ChunkCache
  unfolding get_cached_chunk
  chunk_cache cache_max_size = record {
    start = new_chunk_cache;
    get_chunk_data = get_cached_chunk cache_max_size;
  }
