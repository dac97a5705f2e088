-- ===== src/Queue/Laws.antt =====
-- The linked queue keeps its elements in the order in which they came: src/queue.cpp.
use c_dedup.Base.{
  ℕ, ◌+◌, ◌-◌, ◌≡◌, ◌≢◌, refl, sym, ap, ◌∙◌, subst, true, false, none, some, List, [], ◌∷◌, ◌++◌,
  arith, ◌==◌, if◌then◌else◌, length, length-append, ◌>>=◌,
}
use c_dedup.Queue.{
  Item, Heap, Queue, queue_new, write, load, queue_push, queue_pop, queue_empty, empty_rounds,
}
use c_dedup.Queue.Chain.{
  Cells, Chain, last_of, has, has-last_of, has-ne, Chain-push, Chain-frame, Node,
}

-- The queue's pointers and count stand for the nodes `cells`.
pub record IsQueue {A : Type 0} (q : Queue) (h : Heap A) (cells : Cells A) : Type 0 where
  pub chain : Chain h q.first cells
  pub last : q.last ≡ last_of 0 cells
  pub count : q.elem_num ≡ length cells

abbrev pub elements : {A : Type 0} → Cells A → List A
elements [] = []
elements (c ∷ cs) = c.1 ∷ elements cs

pub not_null : (p : ℕ) → p ≢ 0 → (p == 0) ≡ false
not_null p h = ground arith

module _ {A : Type 0} where
  pub load-Node :
      (h : Heap A) (p a : ℕ) (x : A) (q : ℕ)
      → p ≡ a
      → a ≢ 0
      → Node h a x q
      → load p h ≡ some (record { element = x; next = q })
  unfolding load
  load-Node h p a x q e pos here = ap (λ p. load p h) e ∙ rw (not_null a pos) here

  pub elements-snoc :
      (cs : Cells A) (item : ℕ) (x : A) → elements (cs ++ (item, x) ∷ []) ≡ elements cs ++ x ∷ []
  elements-snoc [] item x = refl
  elements-snoc (c ∷ cs) item x = ap (◌∷◌ c.1) (elements-snoc cs item x)

  last_of-snoc : (p : ℕ) (cs : Cells A) (item : ℕ) (x : A) → last_of p (cs ++ (item, x) ∷ []) ≡ item
  last_of-snoc p [] item x = refl
  last_of-snoc p (c ∷ cs) item x = last_of-snoc c.0 cs item x

  pub queue_new-IsQueue : (h : Heap A) → IsQueue queue_new h []
  queue_new-IsQueue h = record { chain = refl; last = refl; count = refl }

  -- A push at a fresh address does not fault, and puts the element last.
  pub queue_push-IsQueue :
      (item : ℕ) (x : A) (q : Queue) (h : Heap A) (cells : Cells A)
      → IsQueue q h cells
      → h item ≡ none
      → item ≢ 0
      → (q' : Queue) × (h' : Heap A) × (queue_push item x q h ≡ some (q', h'))
        × IsQueue q' h' (cells ++ (item, x) ∷ [])
  unfolding queue_push
  queue_push-IsQueue item x q h [] ok new pos =
      let null : (q.first == 0) ≡ true = ground (arith, ok.chain) in
      (
        record { first = item; last = item; elem_num = q.elem_num + 1 },
        write item (some (record { element = x; next = 0 })) h,
        rw (not_null item pos, null) refl,
        record {
          chain = (refl, pos, refl, 0, ground arith, refl);
          last = refl;
          count = omega (arith, ok.count);
        },
      )
  queue_push-IsQueue item x q h (c ∷ cs) ok new pos =
      let (l, at, chain) = Chain-push h item x q.first c cs new pos ok.chain in
      let h1 = write item (some (record { element = x; next = 0 })) h in
      let at' : load q.last h1 ≡ some l = subst (λ a. load a h1 ≡ some l) (sym ok.last) at in
      let (e, cpos, out, next, here, rest) = ok.chain in
      let full : (q.first == 0) ≡ false = ap (λ p. p == 0) e ∙ not_null c.0 cpos in
      (
        record q { last = item; elem_num = q.elem_num + 1 },
        write q.last (some (record l { next = item })) h1,
        rw (not_null item pos, full)
            (ap
              (λ o. o >>= λ (l : Item A). some (
                record q { last = item; elem_num = q.elem_num + 1 },
                write q.last (some (record l { next = item })) h1,
              ))
              at'),
        record {
          chain =
              subst
                (λ a.
                  Chain (write a (some (record l { next = item })) h1) q.first
                    (c ∷ cs ++ (item, x) ∷ []))
                (sym ok.last) chain;
          last = sym (last_of-snoc c.0 cs item x);
          count = omega (arith, ok.count, length-append (c ∷ cs) ((item, x) ∷ []));
        },
      )

  has-ne_flip :
      (c d : ℕ × A) (ds : Cells A) → has c.0 (d ∷ ds) ≡ false → (last_of d.0 ds == c.0) ≡ false
  has-ne_flip c d ds out =
      let apart = has-ne c.0 (last_of d.0 ds) (d ∷ ds) out (has-last_of d.0 d.1 ds) in ground arith

  last-pop :
      (c : ℕ × A) (cells : Cells A)
      → has c.0 cells ≡ false
      → (if last_of c.0 cells == c.0 then 0 else last_of c.0 cells) ≡ last_of 0 cells
  last-pop c [] out = ground arith
  last-pop c (d ∷ ds) out = rw (has-ne_flip c d ds out) refl

  spared :
      (p a : ℕ) (h : Heap A) (cells : Cells A)
      → has p cells ≡ false
      → has a cells ≡ true
      → write p none h a ≡ h a
  unfolding write
  spared p a h cells out there = let apart = has-ne p a cells out there in ground arith

  pub queue_pop-IsQueue :
      (q : Queue) (h : Heap A) (c : ℕ × A) (cells : Cells A)
      → IsQueue q h (c ∷ cells)
      → (q' : Queue) × (h' : Heap A) × (queue_pop q h ≡ some (some c.1, q', h'))
        × IsQueue q' h' cells
  unfolding queue_pop
  queue_pop-IsQueue q h c cells ok =
      let (e, pos, out, next, here, rest) = ok.chain in
      let full : (q.elem_num == 0) ≡ false = ground (arith, ok.count) in
      let at : load q.first h ≡ some (record { element = c.1; next = next }) =
        load-Node h q.first c.0 c.1 next e pos here in
      (
        record {
          first = next;
          last = if q.last == q.first then 0 else q.last;
          elem_num = q.elem_num - 1;
        },
        write q.first none h,
        rw full (
            ap
              (λ o. o >>= λ (item : Item A). some (
                some item.element,
                record {
                  first = item.next;
                  last = if q.last == q.first then 0 else q.last;
                  elem_num = q.elem_num - 1;
                },
                write q.first none h,
              ))
              at),
        record {
          chain =
              Chain-frame h (write q.first none h) next cells
                (λ a i. spared q.first a h cells (ap (λ k. has k cells) e ∙ out) i) rest;
          last = (λ i. if ok.last i == e i then 0 else ok.last i) ∙ last-pop c cells out;
          count = omega (arith, ok.count);
        },
      )

  -- An empty queue gives nothing.
  pub queue_pop-nil : (q : Queue) (h : Heap A) → IsQueue q h [] → queue_pop q h ≡ some (none, q, h)
  unfolding queue_pop
  queue_pop-nil q h ok =
      let none_left : (q.elem_num == 0) ≡ true = ground (arith, ok.count) in rw none_left refl

  empty_rounds-elements :
      (q : Queue) (h : Heap A) (cells : Cells A)
      → IsQueue q h cells
      → (q' : Queue) × (h' : Heap A) × (empty_rounds (length cells) q h
          ≡ some (elements cells, q', h'))
        × IsQueue q' h' []
  unfolding empty_rounds
  empty_rounds-elements q h [] ok = (q, h, refl, ok)
  empty_rounds-elements q h (c ∷ cells) ok =
      let (u, g, popped, ok') = queue_pop-IsQueue q h c cells ok in
      let (q', h', run, done) = empty_rounds-elements u g cells ok' in
      (q', h', rw (popped, run) refl, done)

  -- `queue_empty` frees every element once, in order, and leaves an empty queue.
  pub queue_empty-elements :
      (q : Queue) (h : Heap A) (cells : Cells A)
      → IsQueue q h cells
      → (q' : Queue) × (h' : Heap A) × (queue_empty q h ≡ some (elements cells, q', h'))
        × IsQueue q' h' []
  unfolding queue_empty
  queue_empty-elements q h cells ok =
      subst
        (λ n.
          (q' : Queue) × (h' : Heap A) × (empty_rounds n q h ≡ some (elements cells, q', h'))
          × IsQueue q' h' [])
        (sym ok.count) (empty_rounds-elements q h cells ok)
