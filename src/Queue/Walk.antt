-- ===== src/Queue/Walk.antt =====
-- The functions that walk along a queue and change nothing: src/queue.cpp.
use c_dedup.Base.{
  ℕ, zero, suc, ◌+◌, ◌≡◌, ◌<◌, ◌≤◌, refl, sym, ap, ◌∙◌, Bool, true, false, Option, none, some, List,
  [], ◌∷◌, arith, ◌==◌, leb, if◌then◌else◌, length, ◌>>=◌, Bool-cases, inl, inr,
}
use c_dedup.Queue.{
  Item, Heap, Queue, load, walk, queue_foreach, skip, queue_get_n, search_from, queue_find,
  queue_top,
}
use c_dedup.Queue.Chain.{Cells, Chain}
use c_dedup.Queue.Laws.{IsQueue, elements, load-Node, not_null}

-- The element at a place, and the first one that answers a test.
abbrev pub at_place : {A : Type 0} → List A → ℕ → Option A
at_place [] n = none
at_place (x ∷ xs) zero = some x
at_place (x ∷ xs) (suc n) = at_place xs n

abbrev pub first_hit : {A : Type 0} → (A → Bool) → List A → Option A
first_hit hit [] = none
first_hit hit (x ∷ xs) = let rest = first_hit hit xs in if hit x then some x else rest

module _ {A : Type 0} (h : Heap A) where
  walk-elements :
      (fuel p : ℕ) (cells : Cells A)
      → Chain h p cells
      → length cells < fuel
      → walk fuel p h ≡ some (elements cells)
  unfolding walk
  walk-elements zero p cells chain few = absurd (omega arith)
  walk-elements (suc fuel) p [] e few = let null : (p == 0) ≡ true = ground arith in rw null refl
  walk-elements (suc fuel) p (c ∷ cells) (e, pos, out, q, here, rest) few =
      let full : (p == 0) ≡ false = ground arith in
      let at = load-Node h p c.0 c.1 q e pos here in
      let more = load p h >>= λ (i : Item A). walk fuel i.next h >>= λ xs. some (i.element ∷ xs) in
      ap (λ b. if b then some [] else more) full
      ∙ (ap (λ o. o >>= λ (i : Item A). walk fuel i.next h >>= λ xs. some (i.element ∷ xs)) at
          ∙ ap (λ o. o >>= λ xs. some (c.1 ∷ xs)) (walk-elements fuel q cells rest (omega arith)))

  skip-elements :
      (n p : ℕ) (cells : Cells A)
      → Chain h p cells
      → n < length cells
      → (skip n p h >>= λ item. load item h >>= λ (c : Item A). some (some c.element))
        ≡ some (at_place (elements cells) n)
  unfolding skip
  skip-elements n p [] chain few = absurd (omega arith)
  skip-elements zero p (c ∷ cells) (e, pos, out, q, here, rest) few =
      ap (λ o. o >>= λ (i : Item A). some (some i.element)) (load-Node h p c.0 c.1 q e pos here)
  skip-elements (suc n) p (c ∷ cells) (e, pos, out, q, here, rest) few =
      ap
        (λ o. (o >>= λ (i : Item A). skip n i.next h) >>= λ item.
          load item h >>= λ (i : Item A). some (some i.element))
        (load-Node h p c.0 c.1 q e pos here)
      ∙ skip-elements n q cells rest (omega arith)

  search_from-elements :
      (hit : A → Bool) (fuel p : ℕ) (c : ℕ × A) (cells : Cells A)
      → Chain h p (c ∷ cells)
      → length cells < fuel
      → search_from hit fuel p h ≡ some (first_hit hit (elements (c ∷ cells)))
  unfolding search_from
  search_from-elements hit zero p c cells chain few = absurd (omega arith)
  search_from-elements hit (suc fuel) p c [] (e, pos, out, q, here, rest) few =
      let null : (q == 0) ≡ true = ground arith in
      ap
        (λ o. o >>= λ (i : Item A).
          if hit i.element
          then some (some i.element)
          else (if i.next == 0 then some none else search_from hit fuel i.next h))
        (load-Node h p c.0 c.1 q e pos here)
      ∙ rw null (ground arith)
  search_from-elements hit (suc fuel) p c (d ∷ ds) (e, pos, out, q, here, rest) few =
      let full : (q == 0) ≡ false = ap (λ p. p == 0) rest.0 ∙ not_null d.0 rest.1 in
      ap
        (λ o. o >>= λ (i : Item A).
          if hit i.element
          then some (some i.element)
          else (if i.next == 0 then some none else search_from hit fuel i.next h))
        (load-Node h p c.0 c.1 q e pos here)
      ∙ rw full (ground (arith, search_from-elements hit fuel q d ds rest))

  foreach_all :
      (q : Queue) (cells : Cells A) → IsQueue q h cells → queue_foreach q h ≡ some (elements cells)
  unfolding queue_foreach
  foreach_all q [] ok =
      let none_left : (q.elem_num == 0) ≡ true = ground (arith, ok.count) in rw none_left refl
  foreach_all q (c ∷ cells) ok =
      let some_left : (q.elem_num == 0) ≡ false = ground (arith, ok.count) in
      rw some_left
        (walk-elements (q.elem_num + 1) q.first (c ∷ cells) ok.chain (omega (arith, ok.count)))

  top_first :
      (q : Queue) (cells : Cells A)
      → IsQueue q h cells
      → queue_top q h ≡ some (at_place (elements cells) 0)
  unfolding queue_top
  top_first q [] ok =
      let none_left : (q.elem_num == 0) ≡ true = ground (arith, ok.count) in rw none_left refl
  top_first q (c ∷ cells) ok =
      let some_left : (q.elem_num == 0) ≡ false = ground (arith, ok.count) in
      let (e, pos, out, next, here, rest) = ok.chain in
      rw some_left (
        ap (λ o. o >>= λ (i : Item A). some (some i.element))
          (load-Node h q.first c.0 c.1 next e pos here))

  past_end : (n : ℕ) (cells : Cells A) → length cells ≤ n → at_place (elements cells) n ≡ none
  past_end n [] le = refl
  past_end zero (c ∷ cells) le = absurd (omega arith)
  past_end (suc n) (c ∷ cells) le = past_end n cells (omega arith)

  get_n_place :
      (q : Queue) (cells : Cells A) (n : ℕ)
      → IsQueue q h cells
      → queue_get_n n q h ≡ some (at_place (elements cells) n)
  unfolding queue_get_n
  get_n_place q cells n ok = elim (Bool-cases (leb q.elem_num n)) [
    | inl past ↦ rw past (ap some (sym (past_end n cells (ground (arith, ok.count)))))
    | inr within ↦ rw within (skip-elements n q.first cells ok.chain (ground (arith, ok.count)))
  ]

  find_first :
      (q : Queue) (cells : Cells A) (hit : A → Bool)
      → IsQueue q h cells
      → queue_find hit q h ≡ some (first_hit hit (elements cells))
  unfolding queue_find
  find_first q [] hit ok =
      let none_left : (q.elem_num == 0) ≡ true = ground (arith, ok.count) in rw none_left refl
  find_first q (c ∷ cells) hit ok =
      let some_left : (q.elem_num == 0) ≡ false = ground (arith, ok.count) in
      rw some_left (
        search_from-elements hit (q.elem_num + 1) q.first c cells ok.chain
          (omega (arith, ok.count)))

  -- What the readers give for a queue: all elements in order; the first; the element at a place, or
  -- nothing past the end; and the first that answers the test, or nothing.
  pub readers-elements :
      (q : Queue) (cells : Cells A) (n : ℕ) (hit : A → Bool)
      → IsQueue q h cells
      → (queue_foreach q h ≡ some (elements cells))
        × (queue_top q h ≡ some (at_place (elements cells) 0))
        × (queue_get_n n q h ≡ some (at_place (elements cells) n))
        × (queue_find hit q h ≡ some (first_hit hit (elements cells)))
  readers-elements q cells n hit ok = (
    foreach_all q cells ok,
    top_first q cells ok,
    get_n_place q cells n ok,
    find_first q cells hit ok,
  )
