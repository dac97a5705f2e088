-- ===== src/Queue.antt =====
-- The linked queue of src/queue.cpp and include/queue.h, over a heap of nodes.
--
-- A pointer is a number and `NULL` is 0. `none` is an access through `NULL` or through an address
-- that holds no node. What `malloc` returns is an argument; the number of elements is far from
-- overflowing an `int`.
pub mod Chain
pub mod Laws
pub mod Walk
use c_dedup.Base.{
  ℕ, zero, suc, ◌+◌, ◌-◌, Option, none, some, List, [], ◌∷◌, ltb, leb, ◌==◌, if◌then◌else◌, ◌>>=◌,
  Bool,
}

-- `queue_ele_t`
pub record Item (A : Type 0) : Type 0 where
  pub element : A
  pub next : ℕ

abbrev pub Heap : Type 0 → Type 0
Heap A = ℕ → Option (Item A)

pub record Queue : Type 0 where
  pub first : ℕ
  pub last : ℕ
  pub elem_num : ℕ

-- `queue_new` and `queue_init`
abbrev pub queue_new : Queue
queue_new = record { first = 0; last = 0; elem_num = 0 }

module _ {A : Type 0} where
  -- A write through a pointer, or `free`.
  unfoldable pub write : ℕ → Option (Item A) → Heap A → Heap A
  write p cell h a = if a == p then cell else h a

  -- A read through a pointer.
  unfoldable pub load : ℕ → Heap A → Option (Item A)
  load p h = if p == 0 then none else h p

  -- `queue_push`, with the address that `malloc` returns.
  unfoldable pub queue_push : ℕ → A → Queue → Heap A → Option (Queue × Heap A)
  unfolding write load
  queue_push item element q h =
      let h' = write item (some (record { element = element; next = 0 })) h in
      let linked = load q.last h' >>= λ l. some (
        record q { last = item; elem_num = q.elem_num + 1 },
        write q.last (some (record l { next = item })) h',
      ) in
      if item == 0
      then some (q, h)
      else (if q.first == 0
          then some (record { first = item; last = item; elem_num = q.elem_num + 1 }, h')
          else linked)

  -- `queue_pop`: the element, or `NULL` of an empty queue.
  unfoldable pub queue_pop : Queue → Heap A → Option (Option A × Queue × Heap A)
  unfolding write load
  queue_pop q h =
      if q.elem_num == 0
      then some (none, q, h)
      else (load q.first h >>= λ item. some (
        some item.element,
        record {
          first = item.next;
          last = if q.last == q.first then 0 else q.last;
          elem_num = q.elem_num - 1;
        },
        write q.first none h,
      ))

  unfoldable pub queue_top : Queue → Heap A → Option (Option A)
  unfolding load
  queue_top q h =
      if q.elem_num == 0 then some none else (load q.first h >>= λ item. some (some item.element))

  -- `queue_empty`: the elements in the order in which `free_data` gets them. One round is one pop,
  -- and there are as many as elements.
  unfoldable pub empty_rounds : ℕ → Queue → Heap A → Option (List A × Queue × Heap A)
  unfolding queue_pop
  empty_rounds zero q h = some ([], q, h)
  empty_rounds (suc rounds) q h = queue_pop q h >>= λ r.
      r.0 >>= λ x. empty_rounds rounds r.1 r.2 >>= λ rest. some (x ∷ rest.0, rest.1, rest.2)

  unfoldable pub queue_empty : Queue → Heap A → Option (List A × Queue × Heap A)
  unfolding empty_rounds
  queue_empty q h = empty_rounds q.elem_num q h

  -- `queue_foreach`: the elements that `func` is called with, in order. The fuel is the number of
  -- nodes and one; without it `none`.
  unfoldable pub walk : ℕ → ℕ → Heap A → Option (List A)
  unfolding load
  walk zero item h = none
  walk (suc fuel) item h =
      let rest = load item h >>= λ c. walk fuel c.next h >>= λ xs. some (c.element ∷ xs) in
      if item == 0 then some [] else rest

  unfoldable pub queue_foreach : Queue → Heap A → Option (List A)
  unfolding walk
  queue_foreach q h = if q.elem_num == 0 then some [] else walk (q.elem_num + 1) q.first h

  -- `queue_get_n`
  unfoldable pub skip : ℕ → ℕ → Heap A → Option ℕ
  unfolding load
  skip zero item h = some item
  skip (suc n) item h = load item h >>= λ c. skip n c.next h

  unfoldable pub queue_get_n : ℕ → Queue → Heap A → Option (Option A)
  unfolding skip
  queue_get_n n q h =
      if leb q.elem_num n
      then some none
      else (skip n q.first h >>= λ item. load item h >>= λ c. some (some c.element))

  -- `queue_find`: the first element that `hit` answers for.
  unfoldable pub search_from : (A → Bool) → ℕ → ℕ → Heap A → Option (Option A)
  unfolding load
  search_from hit zero item h = none
  search_from hit (suc fuel) item h = load item h >>= λ c.
      let rest = search_from hit fuel c.next h in
      if hit c.element then some (some c.element) else (if c.next == 0 then some none else rest)

  unfoldable pub queue_find : (A → Bool) → Queue → Heap A → Option (Option A)
  unfolding search_from
  queue_find hit q h =
      if q.elem_num == 0 then some none else search_from hit (q.elem_num + 1) q.first h
