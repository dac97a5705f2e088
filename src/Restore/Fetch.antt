-- ===== src/Restore/Fetch.antt =====
-- What a cache must answer, and the reads that src/ContainerCache.cpp and src/ChunkCache.cpp share.
use c_dedup.Base.{
  ℕ, ◌≡◌, ◌⊎◌, Option, none, some, ltb, if◌then◌else◌, length, take, window, Bytes, find, nat_eq,
  ◌>>=◌,
}
use c_dedup.Metadata.{EntryValue}
use c_dedup.Store.{Files, container_size}
use c_dedup.Restore.{Cache}

-- `open` of a container: its number goes through an `int` here as it does in `saveContainer`.
abbrev pub open_container : Files → ℕ → Option Bytes
open_container containers container_index = find container_index containers

-- `std::string(content, offset, len)`; `none` is `std::out_of_range`.
unfoldable pub substr : ℕ → ℕ → Bytes → Option Bytes
substr offset len content =
    if ltb (length content) offset then none else some (window offset len content)

-- The specification of `getChunkData`: no cache, the bytes at the entry's place.
unfoldable pub fetch : Files → EntryValue → Option Bytes
unfolding substr
fetch containers ev = open_container containers ev.container_number >>= λ content.
    substr ev.offset ev.chunk_length (take container_size content)

-- A cache answers as the specification does, and keeps its invariant.
abbrev pub Answers :
    {State : Type 0} → (State → Type 0) → Option (Bytes × State) → Option Bytes → Type 0
Answers {State} Inv got want =
    ((got ≡ none) × (want ≡ none))
    ⊎ ((bytes : Bytes) × (st : State) × (got ≡ some (bytes, st)) × (want ≡ some bytes) × Inv st)

-- The contract of a `Cache` over the files `containers`.
pub record IsCache {State : Type 0} (containers : Files) (cc : Cache State) : Type 1 where
  pub Inv : State → Type 0
  pub starts : Inv cc.start
  pub answers :
      (ev : EntryValue) (st : State)
      → Inv st
      → Answers Inv (cc.get_chunk_data ev st) (fetch containers ev)
