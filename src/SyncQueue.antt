-- ===== src/SyncQueue.antt =====
-- The bounded queue that the phases of the pipeline share: src/sync_queue.cpp, include/sync_queue.h.
--
-- `items` is what the linked queue holds, by Queue/Laws. A function of the source runs under the
-- mutex; where it may wait on a condition variable it is cut there, and the outcome says which way
-- it went. The calls of pthread succeed.
pub mod System
pub mod Wakeups
pub mod Order
use c_dedup.Base.{
  ℕ, Bool, true, false, Option, none, some, List, [], ◌∷◌, ◌++◌, ltb, leb, if◌then◌else◌, length,
  ◌&&◌,
}
use c_dedup.Queue.Walk.{first_hit}

pub record SyncQueue (A : Type 0) : Type 0 where
  pub term : Bool
  pub max_size : ℕ
  pub items : List A

abbrev pub sync_queue_new : {A : Type 0} → ℕ → SyncQueue A
sync_queue_new size = record { term = false; max_size = size; items = [] }

-- How a push goes on: it has put its item in, it waits on `max_work`, or it dropped the item.
pub data Pushed (A : Type 0) : Type 0 where
  pushed : SyncQueue A → Pushed A
  full dropped : Pushed A

-- How a pop or a look goes on: with an item, waiting on `min_work`, or with `NULL`.
pub data Popped (A : Type 0) : Type 0 where
  popped : A → SyncQueue A → Popped A
  hungry ended : Popped A

module _ {A : Type 0} where
  unfoldable pub sync_queue_size : SyncQueue A → ℕ
  sync_queue_size s = length s.items

  -- The loop of `sync_queue_push`, from its test on. It does not look at `term` again.
  unfoldable pub push_loop : A → SyncQueue A → Pushed A
  unfolding sync_queue_size
  push_loop item s =
      if ltb 0 s.max_size && leb s.max_size (sync_queue_size s)
      then full
      else pushed (record s { items = s.items ++ item ∷ [] })

  -- `sync_queue_push` from its start on.
  unfoldable pub sync_queue_push : A → SyncQueue A → Pushed A
  unfolding push_loop
  sync_queue_push item s = if s.term then dropped else push_loop item s

  -- `sync_queue_pop`, from its start or from a wake-up on.
  unfoldable pub sync_queue_pop : SyncQueue A → Popped A
  sync_queue_pop s = elim s.items [
    | [] ↦ if s.term then ended else hungry
    | x ∷ items ↦ popped x (record s { items = items })
  ]

  -- `sync_queue_get_top`
  unfoldable pub sync_queue_get_top : SyncQueue A → Popped A
  sync_queue_get_top s = elim s.items [
    | [] ↦ if s.term then ended else hungry
    | x ∷ items ↦ popped x s
  ]

  unfoldable pub sync_queue_term : SyncQueue A → SyncQueue A
  sync_queue_term s = record s { term = true }

  -- `sync_queue_find`, with a copy of the element.
  unfoldable pub sync_queue_find : (A → Bool) → SyncQueue A → Option A
  sync_queue_find hit s = first_hit hit s.items
