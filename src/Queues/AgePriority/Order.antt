-- ===== src/Queues/AgePriority/Order.antt =====
-- The order of the entries: total, and kept by the sort.
use Prim.Native.Nat.{compare, Ordering}
use bits_broker.Prelude.{
  ℕ, ◌-◌, ◌*◌, ◌^◌, ◌≤◌, ◌<◌, true, false, List, [], ◌∷◌, All, length, ◌≡◌, ◌↔◌, sym, ◌≢◌, ◌⊎◌, inl,
  inr, ltb, Bool-cases, arith,
}
use bits_broker.Store.{u64_mod}
use bits_broker.Queues.AgePriority.{
  AgeEntry, score, compare_entries, saturating_mul, integer_sqrt, max_1, place, sort_entries,
  rebalance, is_lt,
}
use bits_broker.Queues.AgePriority.Root.{integer_sqrt-max_1}

mono_l : (a b c : ℕ) → a ≤ b → a * c ≤ b * c
mono_l a b c h = grind arith

mono_strict : (a b c : ℕ) → 0 < c → a < b → a * c < b * c
mono_strict a b c p h = grind arith

cancel : (a b c : ℕ) → a * c < b * c → a < b
cancel a b c h = grind arith

cancel_le : (a b c : ℕ) → 0 < c → a * c ≤ b * c → a ≤ b
cancel_le a b c p h = grind arith

-- Fractions that are compared by products: at least one of the two steps is strict.
cross_left : (a b c p q r : ℕ) → 0 < r → a * q < b * p → b * r ≤ c * q → a * r < c * p
cross_left a b c p q r o k l =
    cancel (a * r) (c * p) q
      (grind (arith, mono_strict (a * q) (b * p) r o k, mono_l (b * r) (c * q) p l))

cross_right : (a b c p q r : ℕ) → 0 < p → a * q ≤ b * p → b * r < c * q → a * r < c * p
cross_right a b c p q r o k l =
    cancel (a * r) (c * p) q
      (grind (arith, mono_l (a * q) (b * p) r k, mono_strict (b * r) (c * q) p o l))

cross_le : (a b c p q r : ℕ) → 0 < q → a * q ≤ b * p → b * r ≤ c * q → a * r ≤ c * p
cross_le a b c p q r o k l =
    cancel_le (a * r) (c * p) q o
      (grind (arith, mono_l (a * q) (b * p) r k, mono_l (b * r) (c * q) p l))

same_product : (a b c p q r : ℕ) → 0 < q → a * q ≡ b * p → b * r ≡ c * q → a * r ≡ c * p
same_product a b c p q r o k l = omega (
  arith,
  cross_le a b c p q r o (omega (arith, k)) (omega (arith, l)),
  cross_le c b a r q p o (omega (arith, l)) (omega (arith, k)),
)

-- What a comparison of two scores `x` and `y`, and then of the numbers `s` and `t`, says.
abbrev Says : ℕ → ℕ → ℕ → ℕ → Ordering → Type 0
Says x y s t Ordering.gt = (y < x) ⊎ ((x ≡ y) × (s < t))
Says x y s t Ordering.lt = (x < y) ⊎ ((y ≡ x) × (t < s))
Says x y s t Ordering.eq = s ≡ t

ordered :
    (x y s t : ℕ)
    → Says x y s t (elim (compare x y) [
      | Ordering.eq ↦ compare t s
      | Ordering.lt ↦ Ordering.lt
      | Ordering.gt ↦ Ordering.gt
    ])
ordered x y s t = ground arith

product_fits : (a b : ℕ) → a < 2 ^ 94 → b < 2 ^ 32 → a * b < 2 ^ 126
product_fits a b h k = grind arith

module _ {Job : Type 0} where
  -- The times that the clock can measure and the costs that a job can have: a duration is less than
  -- 2 ^ 64 seconds.
  abbrev pub InRange : ℕ → AgeEntry Job → Type 0
  InRange now e = (now - e.enqueued_at < 2 ^ 94) × (e.cost < u64_mod)

  abbrev pub wait : ℕ → AgeEntry Job → ℕ
  wait now e = now - e.enqueued_at

  abbrev pub root : AgeEntry Job → ℕ
  root e = integer_sqrt (max_1 e.cost)

  -- `e` is popped before `f`: it has waited longer for the root of its cost, or as long and is older.
  abbrev pub Before : ℕ → AgeEntry Job → AgeEntry Job → Type 0
  Before now e f =
      (wait now f * root e < wait now e * root f)
      ⊎ ((wait now e * root f ≡ wait now f * root e) × (e.seq < f.seq))

  score_exact :
      (now : ℕ) (e f : AgeEntry Job)
      → InRange now e
      → InRange now f
      → score now e f ≡ wait now e * root f
  unfolding saturating_mul
  score_exact now e f h k =
      ground (arith, product_fits (wait now e) (root f) h.0 (integer_sqrt-max_1 f.cost k.1).1)

  -- The comparison in full: what it says of two entries of different numbers.
  abbrev pub Compares : ℕ → AgeEntry Job → AgeEntry Job → Ordering → Type 0
  Compares now e f Ordering.gt = Before now e f
  Compares now e f Ordering.lt = Before now f e
  Compares now e f Ordering.eq = e.seq ≡ f.seq

  pub compare_entries-Compares :
      (now : ℕ) (e f : AgeEntry Job)
      → InRange now e
      → InRange now f
      → Compares now e f (compare_entries e f now)
  unfolding compare_entries
  compare_entries-Compares now e f h k =
      rw (compare_entries, score_exact now e f h k, score_exact now f e k h)
        (ordered (wait now e * root f) (wait now f * root e) e.seq f.seq)

  pub Before-trans :
      (now : ℕ) (e f g : AgeEntry Job)
      → InRange now e
      → InRange now f
      → InRange now g
      → Before now e f
      → Before now f g
      → Before now e g
  Before-trans now e f g h k l (inl a) (inl b) = inl (
      cross_left (wait now g) (wait now f) (wait now e) (root g) (root f) (root e)
        (integer_sqrt-max_1 e.cost h.1).0 b (omega arith))
  Before-trans now e f g h k l (inl a) (inr b) = inl (
      cross_right (wait now g) (wait now f) (wait now e) (root g) (root f) (root e)
        (integer_sqrt-max_1 g.cost l.1).0 (omega (arith, b.0)) a)
  Before-trans now e f g h k l (inr a) (inl b) = inl (
      cross_left (wait now g) (wait now f) (wait now e) (root g) (root f) (root e)
        (integer_sqrt-max_1 e.cost h.1).0 b (omega (arith, a.0)))
  Before-trans now e f g h k l (inr a) (inr b) = inr (
    same_product (wait now e) (wait now f) (wait now g) (root e) (root f) (root g)
        (integer_sqrt-max_1 f.cost k.1).0 a.0 b.0,
    omega (arith, a.1, b.1),
  )

  Before-asym : (now : ℕ) (e f : AgeEntry Job) → Before now e f → ¬ Before now f e
  Before-asym now e f a b = ground arith

  Compares-gt :
      (now : ℕ) (e f : AgeEntry Job) (o : Ordering)
      → Compares now e f o
      → e.seq ≢ f.seq
      → (o ≡ Ordering.gt) ↔ Before now e f
  Compares-gt now e f o c d = ground arith

  compare_entries-gt :
      (now : ℕ) (e f : AgeEntry Job)
      → InRange now e
      → InRange now f
      → e.seq ≢ f.seq
      → (compare_entries e f now ≡ Ordering.gt) ↔ Before now e f
  compare_entries-gt now e f h k d =
      Compares-gt now e f (compare_entries e f now) (compare_entries-Compares now e f h k) d

  Before-total : (now : ℕ) (e f : AgeEntry Job) → e.seq ≢ f.seq → Before now e f ⊎ Before now f e
  Before-total now e f d = ground arith

  -- At a time, the comparison orders entries with numbers of their own and waits below 2 ^ 64 seconds
  -- strictly: of two, exactly one is greater than the other, what is greater than a greater one is
  -- greater, and the product of a wait and a root never saturates.
  pub compare_entries-strict_order :
      (now : ℕ) (e f g : AgeEntry Job)
      → InRange now e
      → InRange now f
      → InRange now g
      → e.seq ≢ f.seq
      → f.seq ≢ g.seq
      → e.seq ≢ g.seq
      → ((compare_entries e f now ≡ Ordering.gt) ⊎ (compare_entries f e now ≡ Ordering.gt))
        × (compare_entries e f now ≡ Ordering.gt → compare_entries f e now ≢ Ordering.gt)
        × (compare_entries e f now ≡ Ordering.gt
            → compare_entries f g now ≡ Ordering.gt
            → compare_entries e g now ≡ Ordering.gt)
        × (score now e f ≡ wait now e * root f)
  compare_entries-strict_order now e f g h k l d d' d'' =
      let ef = compare_entries-gt now e f h k d in
      let fe = compare_entries-gt now f e k h (λ s. d (sym s)) in
      let fg = compare_entries-gt now f g k l d' in
      let eg = compare_entries-gt now e g h l d'' in
      (
        elim (Before-total now e f d) [ inl b ↦ inl (ef.1 b) | inr b ↦ inr (fe.1 b) ],
        λ x y. Before-asym now e f (ef.0 x) (fe.0 y),
        λ x y. eg.1 (Before-trans now e f g h k l (ef.0 x) (fg.0 y)),
        score_exact now e f h k,
      )

  -- The entries in the order in which they are popped.
  abbrev pub Sorted : ℕ → List (AgeEntry Job) → Type 0
  Sorted now [] = Unit
  Sorted now (e ∷ es) = All (Before now e) es × Sorted now es

  -- Entries with numbers of their own, and within the range of the clock.
  abbrev pub Distinct : List (AgeEntry Job) → Type 0
  Distinct [] = Unit
  Distinct (e ∷ es) = All (λ f. e.seq ≢ f.seq) es × Distinct es

  All-Before :
      (now : ℕ) (e f : AgeEntry Job) (es : List (AgeEntry Job))
      → InRange now e
      → InRange now f
      → All (InRange now) es
      → Before now e f
      → All (Before now f) es
      → All (Before now e) es
  All-Before now e f [] h k r b a = tt
  All-Before now e f (g ∷ es) h k r b a =
      (Before-trans now e f g h k r.0 b a.0, All-Before now e f es h k r.1 b a.1)

  pub All-place :
      (P : AgeEntry Job → Type 0) (now : ℕ) (e : AgeEntry Job) (es : List (AgeEntry Job))
      → P e
      → All P es
      → All P (place now e es)
  unfolding place
  All-place P now e [] p q = (p, tt)
  All-place P now e (f ∷ es) p q = elim (Bool-cases (is_lt (compare_entries e f now))) [
    | inl h ↦ rw h (q.0, All-place P now e es p q.1)
    | inr h ↦ rw h (p, q)
  ]

  pub All-sort_entries :
      (P : AgeEntry Job → Type 0) (now : ℕ) (es : List (AgeEntry Job))
      → All P es
      → All P (sort_entries now es)
  unfolding sort_entries
  All-sort_entries P now [] q = tt
  All-sort_entries P now (e ∷ es) q =
      All-place P now e (sort_entries now es) q.0 (All-sort_entries P now es q.1)

  lt-Before :
      (now : ℕ) (e f : AgeEntry Job) (o : Ordering)
      → Compares now e f o
      → is_lt o ≡ true
      → Before now f e
  unfolding is_lt
  lt-Before now e f Ordering.lt c h = c
  lt-Before now e f Ordering.eq c h = cc
  lt-Before now e f Ordering.gt c h = cc

  other-Before :
      (now : ℕ) (e f : AgeEntry Job) (o : Ordering)
      → Compares now e f o
      → is_lt o ≡ false
      → e.seq ≢ f.seq
      → Before now e f
  unfolding is_lt
  other-Before now e f Ordering.lt c h d = cc
  other-Before now e f Ordering.eq c h d = elim (d c) [ ]
  other-Before now e f Ordering.gt c h d = c

  place-Sorted :
      (now : ℕ) (e : AgeEntry Job) (es : List (AgeEntry Job))
      → InRange now e
      → All (InRange now) es
      → All (λ f. e.seq ≢ f.seq) es
      → Sorted now es
      → Sorted now (place now e es)
  unfolding place
  place-Sorted now e [] h r d s = (tt, tt)
  place-Sorted now e (f ∷ es) h r d s =
      let c = compare_entries-Compares now e f h r.0 in
      elim (Bool-cases (is_lt (compare_entries e f now))) [
        | inl t ↦
            let b = lt-Before now e f (compare_entries e f now) c t in
            rw t (All-place (Before now f) now e es b s.0, place-Sorted now e es h r.1 d.1 s.1)
        | inr t ↦
            let b = other-Before now e f (compare_entries e f now) c t d.0 in
            rw t ((b, All-Before now e f es h r.0 r.1 b s.0), s)
      ]

  sort_entries-Sorted :
      (now : ℕ) (es : List (AgeEntry Job))
      → All (InRange now) es
      → Distinct es
      → Sorted now (sort_entries now es)
  unfolding sort_entries
  sort_entries-Sorted now [] r d = tt
  sort_entries-Sorted now (e ∷ es) r d =
      place-Sorted now e (sort_entries now es) r.0 (All-sort_entries (InRange now) now es r.1)
        (All-sort_entries (λ f. e.seq ≢ f.seq) now es d.0) (sort_entries-Sorted now es r.1 d.1)

  -- A vector of at most one entry is left as it is, and is in order.
  pub rebalance-Sorted :
      (now : ℕ) (es : List (AgeEntry Job))
      → All (InRange now) es
      → Distinct es
      → Sorted now (rebalance now es)
  unfolding rebalance
  rebalance-Sorted now [] r d = tt
  rebalance-Sorted now (e ∷ []) r d = (tt, tt)
  rebalance-Sorted now (e ∷ f ∷ es) r d =
      let long : ltb (length (e ∷ f ∷ es)) 2 ≡ false = ground arith in
      rw long (sort_entries-Sorted now (e ∷ f ∷ es) r d)
