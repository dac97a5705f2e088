-- ===== src/SyncQueue/Wakeups.antt =====
-- No thread sleeps for nothing: src/sync_queue.cpp, the condition variables.
use c_dedup.Base.{
  ℕ, ◌≡◌, ◌≢◌, ◌<◌, ◌≤◌, refl, ap, subst, Bool, true, false, List, [], ◌∷◌, ◌++◌, arith, ltb, leb,
  ◌&&◌, ◌==◌, if◌then◌else◌, length, length-append, Bool-cases, inl, inr,
}
use c_dedup.SyncQueue.{
  SyncQueue, Pushed, pushed, full, dropped, Popped, popped, hungry, ended, push_loop,
  sync_queue_push, sync_queue_pop, sync_queue_term,
}
use c_dedup.SyncQueue.System.{
  System, Pc, outside, push_asleep, push_awake, pop_asleep, pop_awake, update, wake_pusher,
  wake_popper, after_push, after_pop, Step, push, push_again, pop, pop_again, terminate,
  spurious_push, spurious_pop, Reach, start, later,
}

-- What holds of the queue while a thread stands at `p`: it waits to push only if the queue is bounded
-- and full, and to pop only if the queue is empty and not terminated.
abbrev pub Rightly : {A : Type 0} → SyncQueue A → Pc A → Type 0
Rightly q outside = Unit
Rightly q (push_asleep x) = (0 < q.max_size) × (q.max_size ≤ length q.items)
Rightly q (push_awake x) = Unit
Rightly q pop_asleep = (q.items ≡ []) × (q.term ≡ false)
Rightly q pop_awake = Unit

module _ {A : Type 0} where
  Rightly-update :
      (q : SyncQueue A) (i j : ℕ) (p : Pc A) (pc : ℕ → Pc A)
      → Rightly q p
      → Rightly q (pc j)
      → Rightly q (update i p pc j)
  unfolding update
  Rightly-update q i j p pc new old = elim (Bool-cases (j == i)) [
    | inl same ↦ rw same new
    | inr other ↦ rw other old
  ]

  -- What a function of the queue leads to, for the thread itself and for a woken other.
  abbrev AfterPush : SyncQueue A → Pushed A → Type 0
  AfterPush q (pushed q') = (p : Pc A) → Rightly q p → Rightly q' (wake_popper p)
  AfterPush q full = (0 < q.max_size) × (q.max_size ≤ length q.items)
  AfterPush q dropped = Unit

  abbrev AfterPop : SyncQueue A → Popped A → Type 0
  AfterPop q (popped x q') = (p : Pc A) → Rightly q p → Rightly q' (wake_pusher p)
  AfterPop q hungry = (q.items ≡ []) × (q.term ≡ false)
  AfterPop q ended = Unit

  wake-append :
      (q : SyncQueue A) (x : A) (p : Pc A)
      → Rightly q p
      → Rightly (record q { items = q.items ++ x ∷ [] }) (wake_popper p)
  unfolding wake_popper
  wake-append q x outside h = tt
  wake-append q x (push_asleep y) h = omega (arith, length-append q.items (x ∷ []))
  wake-append q x (push_awake y) h = tt
  wake-append q x pop_asleep h = tt
  wake-append q x pop_awake h = tt

  push_loop-After : (x : A) (q : SyncQueue A) → AfterPush q (push_loop x q)
  unfolding push_loop
  push_loop-After x q = elim (Bool-cases (ltb 0 q.max_size && leb q.max_size (length q.items))) [
    | inl blocked ↦ rw blocked (ground arith)
    | inr free ↦ rw free (wake-append q x)
  ]

  push-After : (x : A) (q : SyncQueue A) → AfterPush q (sync_queue_push x q)
  unfolding sync_queue_push
  push-After x q = elim q.term as (λ b. AfterPush q (if b then dropped else push_loop x q)) [
    | true ↦ tt
    | false ↦ push_loop-After x q
  ]

  wake-pop :
      (q : SyncQueue A) (x : A) (items : List A) (p : Pc A)
      → q.items ≡ x ∷ items
      → Rightly q p
      → Rightly (record q { items = items }) (wake_pusher p)
  unfolding wake_pusher
  wake-pop q x items outside e h = tt
  wake-pop q x items (push_asleep y) e h = tt
  wake-pop q x items (push_awake y) e h = tt
  wake-pop q x items pop_asleep e h = absurd (cc (e, h.0))
  wake-pop q x items pop_awake e h = tt

  pop-After : (q : SyncQueue A) → AfterPop q (sync_queue_pop q)
  unfolding sync_queue_pop
  pop-After q = by_items q.items refl
    where
      none_left : (b : Bool) → q.term ≡ b → q.items ≡ [] → AfterPop q (if b then ended else hungry)
      none_left true t e = tt
      none_left false t e = (e, t)

      by_items :
          (items : List A)
          → q.items ≡ items
          → AfterPop q (elim items [
            | [] ↦ if q.term then ended else hungry
            | x ∷ rest ↦ popped x (record q { items = rest })
          ])
      by_items [] e = none_left q.term refl e
      by_items (x ∷ rest) e = λ p h. wake-pop q x rest p e h

  abbrev pub AllRightly : System A → Type 0
  AllRightly s = (j : ℕ) → Rightly s.queue (s.pc j)

  after_push-Rightly :
      (i : ℕ) (x : A) (s : System A) (r : Pushed A)
      → AfterPush s.queue r
      → AllRightly s
      → AllRightly (after_push i x s r)
  unfolding after_push
  after_push-Rightly i x s (pushed q) after all j =
      Rightly-update q i j outside (λ j. wake_popper (s.pc j)) tt (after (s.pc j) (all j))
  after_push-Rightly i x s full after all j =
      Rightly-update s.queue i j (push_asleep x) s.pc after (all j)
  after_push-Rightly i x s dropped after all j = Rightly-update s.queue i j outside s.pc tt (all j)

  after_pop-Rightly :
      (i : ℕ) (s : System A) (r : Popped A)
      → AfterPop s.queue r
      → AllRightly s
      → AllRightly (after_pop i s r)
  unfolding after_pop
  after_pop-Rightly i s (popped x q) after all j =
      Rightly-update q i j outside (λ j. wake_pusher (s.pc j)) tt (after (s.pc j) (all j))
  after_pop-Rightly i s hungry after all j =
      Rightly-update s.queue i j pop_asleep s.pc after (all j)
  after_pop-Rightly i s ended after all j = Rightly-update s.queue i j outside s.pc tt (all j)

  wake-term :
      (q : SyncQueue A) (p : Pc A) → Rightly q p → Rightly (sync_queue_term q) (wake_popper p)
  unfolding wake_popper sync_queue_term
  wake-term q outside h = tt
  wake-term q (push_asleep y) h = h
  wake-term q (push_awake y) h = tt
  wake-term q pop_asleep h = tt
  wake-term q pop_awake h = tt

  Step-Rightly : {s t : System A} → Step s t → AllRightly s → AllRightly t
  Step-Rightly {s} (push i x e) all =
      after_push-Rightly i x s (sync_queue_push x s.queue) (push-After x s.queue) all
  Step-Rightly {s} (push_again i x e) all =
      after_push-Rightly i x s (push_loop x s.queue) (push_loop-After x s.queue) all
  Step-Rightly {s} (pop i e) all =
      after_pop-Rightly i s (sync_queue_pop s.queue) (pop-After s.queue) all
  Step-Rightly {s} (pop_again i e) all =
      after_pop-Rightly i s (sync_queue_pop s.queue) (pop-After s.queue) all
  Step-Rightly {s} (terminate i e) all = λ j. wake-term s.queue (s.pc j) (all j)
  Step-Rightly {s} (spurious_push i x e) all =
      λ j. Rightly-update s.queue i j (push_awake x) s.pc tt (all j)
  Step-Rightly {s} (spurious_pop i e) all =
      λ j. Rightly-update s.queue i j pop_awake s.pc tt (all j)

  Reach-Rightly : {size : ℕ} {s : System A} → Reach size s → AllRightly s
  Reach-Rightly start = λ j. tt
  Reach-Rightly (later r step) = Step-Rightly step (Reach-Rightly r)

  -- However the threads are interleaved, one sleeps in a push only while the queue is bounded and
  -- full, and in a pop only while it is empty and not terminated.
  pub no_lost_wakeup : {size : ℕ} {s : System A} (i : ℕ) → Reach size s → Rightly s.queue (s.pc i)
  no_lost_wakeup i r = Reach-Rightly r i

  -- A pusher and a popper never sleep at the same time, so one of them can always go on.
  pub no_deadlock :
      {size : ℕ} {s : System A} (i j : ℕ) (x : A)
      → Reach size s
      → s.pc i ≡ push_asleep x
      → s.pc j ≢ pop_asleep
  no_deadlock {s} i j x r asleep hungry_too =
      let full_one = subst (Rightly s.queue) asleep (Reach-Rightly r i) in
      let empty_one = subst (Rightly s.queue) hungry_too (Reach-Rightly r j) in
      absurd (omega (arith, ap length empty_one.0))
