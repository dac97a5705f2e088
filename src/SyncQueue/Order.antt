-- ===== src/SyncQueue/Order.antt =====
-- The bounded queue loses and reorders nothing and keeps to its bound: src/sync_queue.cpp.
use c_dedup.Base.{
  ℕ, ◌≡◌, refl, sym, ap, ◌∙◌, subst, Bool, true, false, List, [], ◌∷◌, ◌++◌, arith, ltb, leb, ◌&&◌,
  if◌then◌else◌, length, length-append, append_assoc, Bool-cases, inl, inr,
}
use c_dedup.SyncQueue.{
  SyncQueue, Pushed, pushed, full, dropped, Popped, popped, hungry, ended, push_loop,
  sync_queue_push, sync_queue_pop, sync_queue_term,
}
use c_dedup.SyncQueue.System.{
  System, after_push, after_pop, Step, push, push_again, pop, pop_again, terminate, spurious_push,
  spurious_pop, Reach, start, later,
}

-- The items taken out, and then those that are in, are the items put in, in order; and there are no
-- more in than the bound.
pub record InOrder {A : Type 0} (size : ℕ) (s : System A) : Type 0 where
  pub max_size : s.queue.max_size ≡ size
  pub fifo : s.accepted ≡ s.delivered ++ s.queue.items
  pub bound : (ltb 0 size && ltb size (length s.queue.items)) ≡ false

module _ {A : Type 0} where
  -- A queue that a push of `x`, or a pop of it, made of `q`.
  abbrev ByPush : A → SyncQueue A → Pushed A → Type 0
  ByPush x q (pushed q') =
      (q'.max_size ≡ q.max_size)
      × (q'.items ≡ q.items ++ x ∷ [])
      × ((ltb 0 q.max_size && ltb q.max_size (length q'.items)) ≡ false)
  ByPush x q full = Unit
  ByPush x q dropped = Unit

  abbrev ByPop : SyncQueue A → Popped A → Type 0
  ByPop q (popped x q') = (q'.max_size ≡ q.max_size) × (q.items ≡ x ∷ q'.items)
  ByPop q hungry = Unit
  ByPop q ended = Unit

  push_loop-By : (x : A) (q : SyncQueue A) → ByPush x q (push_loop x q)
  unfolding push_loop
  push_loop-By x q = elim (Bool-cases (ltb 0 q.max_size && leb q.max_size (length q.items))) [
    | inl blocked ↦ rw blocked tt
    | inr free ↦ rw free (refl, refl, ground (arith, length-append q.items (x ∷ [])))
  ]

  push-By : (x : A) (q : SyncQueue A) → ByPush x q (sync_queue_push x q)
  unfolding sync_queue_push
  push-By x q = elim q.term as (λ b. ByPush x q (if b then dropped else push_loop x q)) [
    | true ↦ tt
    | false ↦ push_loop-By x q
  ]

  pop-By : (q : SyncQueue A) → ByPop q (sync_queue_pop q)
  unfolding sync_queue_pop
  pop-By q = by_items q.items refl
    where
      none_left : (b : Bool) → ByPop q (if b then ended else hungry)
      none_left true = tt
      none_left false = tt

      by_items :
          (items : List A)
          → q.items ≡ items
          → ByPop q (elim items [
            | [] ↦ if q.term then ended else hungry
            | x ∷ rest ↦ popped x (record q { items = rest })
          ])
      by_items [] e = none_left q.term
      by_items (x ∷ rest) e = (refl, e)

  after_push-InOrder :
      (size i : ℕ) (x : A) (s : System A) (r : Pushed A)
      → ByPush x s.queue r
      → InOrder size s
      → InOrder size (after_push i x s r)
  unfolding after_push
  after_push-InOrder size i x s (pushed q) (same, items, within) ok = record {
    max_size = same ∙ ok.max_size;
    fifo =
        ap (λ xs. xs ++ x ∷ []) ok.fifo
        ∙ (append_assoc s.delivered s.queue.items (x ∷ [])
            ∙ ap (λ xs. s.delivered ++ xs) (sym items));
    bound = subst (λ n. (ltb 0 n && ltb n (length q.items)) ≡ false) ok.max_size within;
  }
  after_push-InOrder size i x s full by ok = record {
    max_size = ok.max_size;
    fifo = ok.fifo;
    bound = ok.bound;
  }
  after_push-InOrder size i x s dropped by ok = record {
    max_size = ok.max_size;
    fifo = ok.fifo;
    bound = ok.bound;
  }

  after_pop-InOrder :
      (size i : ℕ) (s : System A) (r : Popped A)
      → ByPop s.queue r
      → InOrder size s
      → InOrder size (after_pop i s r)
  unfolding after_pop
  after_pop-InOrder size i s (popped x q) (same, items) ok = record {
    max_size = same ∙ ok.max_size;
    fifo =
        ok.fifo
        ∙ (ap (λ xs. s.delivered ++ xs) items ∙ sym (append_assoc s.delivered (x ∷ []) q.items));
    bound = ground (arith, ok.bound, ap length items);
  }
  after_pop-InOrder size i s hungry by ok = record {
    max_size = ok.max_size;
    fifo = ok.fifo;
    bound = ok.bound;
  }
  after_pop-InOrder size i s ended by ok = record {
    max_size = ok.max_size;
    fifo = ok.fifo;
    bound = ok.bound;
  }

  Step-InOrder : {size : ℕ} {s t : System A} → Step s t → InOrder size s → InOrder size t
  Step-InOrder {size} {s} (push i x e) ok =
      after_push-InOrder size i x s (sync_queue_push x s.queue) (push-By x s.queue) ok
  Step-InOrder {size} {s} (push_again i x e) ok =
      after_push-InOrder size i x s (push_loop x s.queue) (push_loop-By x s.queue) ok
  Step-InOrder {size} {s} (pop i e) ok =
      after_pop-InOrder size i s (sync_queue_pop s.queue) (pop-By s.queue) ok
  Step-InOrder {size} {s} (pop_again i e) ok =
      after_pop-InOrder size i s (sync_queue_pop s.queue) (pop-By s.queue) ok
  Step-InOrder {s} (terminate i e) ok =
      unfold sync_queue_term in record { max_size = ok.max_size; fifo = ok.fifo; bound = ok.bound }
  Step-InOrder {s} (spurious_push i x e) ok = record {
    max_size = ok.max_size;
    fifo = ok.fifo;
    bound = ok.bound;
  }
  Step-InOrder {s} (spurious_pop i e) ok = record {
    max_size = ok.max_size;
    fifo = ok.fifo;
    bound = ok.bound;
  }

  -- However pushes, pops and the termination are interleaved, the items taken out are the items put
  -- in, in the order in which they were put in, but for those still in the queue; and a queue with a
  -- bound never holds more.
  pub Reach-InOrder : {size : ℕ} {s : System A} → Reach size s → InOrder size s
  Reach-InOrder {size} start = record { max_size = refl; fifo = refl; bound = ground arith }
  Reach-InOrder (later r step) = Step-InOrder step (Reach-InOrder r)
