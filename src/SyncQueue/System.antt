-- ===== src/SyncQueue/System.antt =====
-- Threads that share one bounded queue, interleaved in any order: src/sync_queue.cpp.
use c_dedup.Base.{ℕ, ◌≡◌, List, [], ◌∷◌, ◌++◌, ◌==◌, if◌then◌else◌}
use c_dedup.SyncQueue.{
  SyncQueue, sync_queue_new, Pushed, pushed, full, dropped, Popped, popped, hungry, ended,
  push_loop, sync_queue_push, sync_queue_pop, sync_queue_term,
}

-- Where a thread stands: outside the queue's functions; asleep in `pthread_cond_wait` on `max_work`
-- or `min_work`; or woken and about to test its loop's condition again.
pub data Pc (A : Type 0) : Type 0 where
  outside : Pc A
  push_asleep push_awake : A → Pc A
  pop_asleep pop_awake : Pc A

-- `accepted` and `delivered` are histories: the items put in and taken out, in order.
pub record System (A : Type 0) : Type 0 where
  pub queue : SyncQueue A
  pub pc : ℕ → Pc A
  pub accepted : List A
  pub delivered : List A

module _ {A : Type 0} where
  unfoldable pub update : ℕ → Pc A → (ℕ → Pc A) → ℕ → Pc A
  update i p pc j = if j == i then p else pc j

  -- `pthread_cond_broadcast` on `max_work` and on `min_work`.
  unfoldable pub wake_pusher : Pc A → Pc A
  wake_pusher (push_asleep x) = push_awake x
  wake_pusher outside = outside
  wake_pusher (push_awake x) = push_awake x
  wake_pusher pop_asleep = pop_asleep
  wake_pusher pop_awake = pop_awake

  unfoldable pub wake_popper : Pc A → Pc A
  wake_popper pop_asleep = pop_awake
  wake_popper outside = outside
  wake_popper (push_asleep x) = push_asleep x
  wake_popper (push_awake x) = push_awake x
  wake_popper pop_awake = pop_awake

  -- What thread `i` leaves behind after a push of `x`, by its outcome.
  unfoldable pub after_push : ℕ → A → System A → Pushed A → System A
  unfolding update wake_popper
  after_push i x s (pushed q) = record {
    queue = q;
    pc = update i outside (λ j. wake_popper (s.pc j));
    accepted = s.accepted ++ x ∷ [];
    delivered = s.delivered;
  }
  after_push i x s full = record s { pc = update i (push_asleep x) s.pc }
  after_push i x s dropped = record s { pc = update i outside s.pc }

  unfoldable pub after_pop : ℕ → System A → Popped A → System A
  unfolding update wake_pusher
  after_pop i s (popped x q) = record {
    queue = q;
    pc = update i outside (λ j. wake_pusher (s.pc j));
    accepted = s.accepted;
    delivered = s.delivered ++ x ∷ [];
  }
  after_pop i s hungry = record s { pc = update i pop_asleep s.pc }
  after_pop i s ended = record s { pc = update i outside s.pc }

  -- A thread calls a function, goes on after a wake-up, or wakes up by itself, which POSIX allows.
  pub data Step (s : System A) : System A → Type 0 where
    push :
        (i : ℕ) (x : A) → s.pc i ≡ outside → Step s (after_push i x s (sync_queue_push x s.queue))
    push_again :
        (i : ℕ) (x : A) → s.pc i ≡ push_awake x → Step s (after_push i x s (push_loop x s.queue))
    pop : (i : ℕ) → s.pc i ≡ outside → Step s (after_pop i s (sync_queue_pop s.queue))
    pop_again : (i : ℕ) → s.pc i ≡ pop_awake → Step s (after_pop i s (sync_queue_pop s.queue))
    terminate :
        (i : ℕ)
        → s.pc i ≡ outside
        → Step s (record s { queue = sync_queue_term s.queue; pc = λ j. wake_popper (s.pc j) })
    spurious_push :
        (i : ℕ) (x : A)
        → s.pc i ≡ push_asleep x
        → Step s (record s { pc = update i (push_awake x) s.pc })
    spurious_pop :
        (i : ℕ) → s.pc i ≡ pop_asleep → Step s (record s { pc = update i pop_awake s.pc })

  abbrev pub init : ℕ → System A
  init size = record {
    queue = sync_queue_new size;
    pc = λ i. outside;
    accepted = [];
    delivered = [];
  }

  pub data Reach (size : ℕ) : System A → Type 0 where
    start : Reach size (init size)
    later : {s t : System A} → Reach size s → Step s t → Reach size t
