-- ===== src/Queue/Chain.antt =====
-- The nodes of a queue, from the first on: src/queue.cpp.
use c_dedup.Base.{
  ℕ, ◌≡◌, ◌≢◌, refl, ap, Bool, true, false, none, some, List, [], ◌∷◌, ◌++◌, arith, ◌==◌,
  if◌then◌else◌, Bool-cases, inl, inr,
}
use c_dedup.Queue.{Item, Heap, write, load}

-- The address and the element of each node, in order.
abbrev pub Cells : Type 0 → Type 0
Cells A = List (ℕ × A)

abbrev pub Node : {A : Type 0} → Heap A → ℕ → A → ℕ → Type 0
Node h a x next = h a ≡ some (record { element = x; next = next })

module _ {A : Type 0} where
  abbrev pub has : ℕ → Cells A → Bool
  has a [] = false
  has a (c ∷ cs) = if a == c.0 then true else has a cs

  -- The address of the last node.
  abbrev pub last_of : ℕ → Cells A → ℕ
  last_of p [] = p
  last_of p (c ∷ cs) = last_of c.0 cs

  -- From `p` the `next` pointers lead through distinct nodes to `NULL`.
  abbrev pub Chain : Heap A → ℕ → Cells A → Type 0
  Chain h p [] = p ≡ 0
  Chain h p (c ∷ cs) =
      (p ≡ c.0) × (c.0 ≢ 0) × (has c.0 cs ≡ false) × (q : ℕ) × Node h c.0 c.1 q × Chain h q cs

  -- A change elsewhere.
  pub Chain-frame :
      (h g : Heap A) (p : ℕ) (cs : Cells A)
      → ((a : ℕ) → has a cs ≡ true → g a ≡ h a)
      → Chain h p cs
      → Chain g p cs
  Chain-frame h g p [] same e = e
  Chain-frame h g p (c ∷ cs) same (e, pos, out, q, here, rest) = (
    e,
    pos,
    out,
    q,
    ground (arith, same c.0),
    Chain-frame h g q cs (λ a i. same a (ground arith)) rest,
  )

  pub has-last_of : (a : ℕ) (x : A) (cs : Cells A) → has (last_of a cs) ((a, x) ∷ cs) ≡ true
  has-last_of a x [] = ground arith
  has-last_of a x (c ∷ cs) = ground (arith, has-last_of c.0 c.1 cs)

  has-snoc :
      (a item : ℕ) (x : A) (cs : Cells A)
      → has a cs ≡ false
      → (a == item) ≡ false
      → has a (cs ++ (item, x) ∷ []) ≡ false
  has-snoc a item x [] out ne = ground arith
  has-snoc a item x (c ∷ cs) out ne = ground (arith, has-snoc a item x cs)

  ne_of_Node :
      (h : Heap A) (a item : ℕ) {x : A} {q : ℕ} → Node h a x q → h item ≡ none → (a == item) ≡ false
  ne_of_Node h a item {x} {q} here new = elim (Bool-cases (a == item)) [
    | inl same ↦ let e : a ≡ item = ground arith in absurd (cc (here, ap h e, new))
    | inr other ↦ other
  ]

  pub has-ne : (a b : ℕ) (cs : Cells A) → has a cs ≡ false → has b cs ≡ true → (a == b) ≡ false
  has-ne a b cs out there = elim (Bool-cases (a == b)) [
    | inl same ↦ let e : a ≡ b = ground arith in absurd (cc (ap (λ k. has k cs) e, out, there))
    | inr other ↦ other
  ]

  -- The last node gets a successor.
  pub Chain-push :
      (h : Heap A) (item : ℕ) (x : A) (p : ℕ) (c : ℕ × A) (cs : Cells A)
      → h item ≡ none
      → item ≢ 0
      → Chain h p (c ∷ cs)
      → (l : Item A) × (load
            (last_of c.0 cs)
            (write item (some (record { element = x; next = 0 })) h)
          ≡ some l)
        × Chain
            (write
              (last_of c.0 cs)
              (some (record l { next = item }))
              (write item (some (record { element = x; next = 0 })) h))
            p
            (c ∷ cs ++ (item, x) ∷ [])
  unfolding write load
  Chain-push h item x p c [] new pos (e, cpos, out, q, here, rest) =
      let apart = ne_of_Node h c.0 item here new in
      (
        record { element = c.1; next = q },
        ground arith,
        (e, cpos, ground arith, item, ground arith, (refl, pos, refl, 0, ground arith, refl)),
      )
  Chain-push h item x p c (d ∷ ds) new pos (e, cpos, out, q, here, rest) =
      let (l, at, chain) = Chain-push h item x q d ds new pos rest in
      let apart = ne_of_Node h c.0 item here new in
      let before_last : (c.0 == last_of d.0 ds) ≡ false =
        has-ne c.0 (last_of d.0 ds) (d ∷ ds) out (has-last_of d.0 d.1 ds) in
      (l, at, (e, cpos, has-snoc c.0 item x (d ∷ ds) out apart, q, ground arith, chain))
