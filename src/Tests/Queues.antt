-- ===== src/Tests/Queues.antt =====
-- Queues of two elements, and threads at a queue for one item.
use c_dedup.Base.{ℕ, ◌≡◌, ◌≢◌, refl, none, some, [], ◌∷◌, arith, ◌==◌, if◌then◌else◌}
use c_dedup.Queue.{
  Heap, Queue, queue_push, queue_empty, queue_foreach, queue_top, queue_get_n, queue_find,
}
use c_dedup.Queue.Laws.{IsQueue, queue_push-IsQueue, queue_empty-elements}
use c_dedup.Queue.Walk.{readers-elements}
use c_dedup.SyncQueue.{sync_queue_push, push_loop, sync_queue_size}
use c_dedup.SyncQueue.System.{
  System, push_asleep, pop_asleep, init, after_push, update, wake_popper, Reach, start, later, push,
}
use c_dedup.SyncQueue.Wakeups.{Rightly, no_lost_wakeup, no_deadlock}
use c_dedup.SyncQueue.Order.{InOrder, Reach-InOrder}

abbrev no_nodes : Heap ℕ
no_nodes a = none

abbrev two_nodes : Heap ℕ
two_nodes a =
    if a == 16
    then some (record { element = 7; next = 32 })
    else if a == 32
    then some (record { element = 8; next = 0 })
    else none

abbrev two : Queue
two = record { first = 16; last = 32; elem_num = 2 }

two-IsQueue : IsQueue two two_nodes ((16, 7) ∷ (32, 8) ∷ [])
two-IsQueue = record {
  chain = (refl, omega arith, refl, 32, refl, (refl, omega arith, refl, 0, refl, refl));
  last = refl;
  count = refl;
}

queue_push-IsQueue_example :
    (q' : Queue) × (h' : Heap ℕ) × (queue_push 48 9 two two_nodes ≡ some (q', h'))
    × IsQueue q' h' ((16, 7) ∷ (32, 8) ∷ (48, 9) ∷ [])
queue_push-IsQueue_example =
    queue_push-IsQueue 48 9 two two_nodes ((16, 7) ∷ (32, 8) ∷ []) two-IsQueue refl (omega arith)

queue_empty-elements_example :
    (q' : Queue) × (h' : Heap ℕ) × (queue_empty two two_nodes ≡ some (7 ∷ 8 ∷ [], q', h'))
    × IsQueue q' h' []
queue_empty-elements_example =
    queue_empty-elements two two_nodes ((16, 7) ∷ (32, 8) ∷ []) two-IsQueue

readers-elements_example :
    (queue_foreach two two_nodes ≡ some (7 ∷ 8 ∷ []))
    × (queue_top two two_nodes ≡ some (some 7))
    × (queue_get_n 1 two two_nodes ≡ some (some 8))
    × (queue_find (λ n. n == 8) two two_nodes ≡ some (some 8))
readers-elements_example =
    readers-elements two_nodes two ((16, 7) ∷ (32, 8) ∷ []) 1 (λ n. n == 8) two-IsQueue

-- Thread 0 has filled a queue for one item, and thread 1 sleeps in its push.
abbrev one_in : System ℕ
one_in = after_push 0 5 (init 1) (sync_queue_push 5 (init 1).queue)

abbrev one_waits : System ℕ
one_waits = after_push 1 6 one_in (sync_queue_push 6 one_in.queue)

one_waits-Reach : Reach 1 one_waits
unfolding after_push update wake_popper sync_queue_push push_loop sync_queue_size
one_waits-Reach = later (later start (push 0 5 refl)) (push 1 6 refl)

sleeps : one_waits.pc 1 ≡ push_asleep 6
unfolding after_push update wake_popper sync_queue_push push_loop sync_queue_size
sleeps = refl

no_deadlock_example : one_waits.pc 2 ≢ pop_asleep
no_deadlock_example = no_deadlock 1 2 6 one_waits-Reach sleeps

no_lost_wakeup_example : Rightly one_waits.queue (one_waits.pc 1)
no_lost_wakeup_example = no_lost_wakeup 1 one_waits-Reach

Reach-InOrder_example : InOrder 1 one_waits
Reach-InOrder_example = Reach-InOrder one_waits-Reach
