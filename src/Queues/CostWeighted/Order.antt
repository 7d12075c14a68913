-- ===== src/Queues/CostWeighted/Order.antt =====
-- The order of the heap: by cost, then by sequence number.
use bits_broker.Prelude.{
  ◌<◌, true, false, List, [], ◌∷◌, All, ◌≡◌, ◌≢◌, refl, ◌⊎◌, inl, inr, Bool-cases, arith,
}
use bits_broker.Queues.CostWeighted.{Entry, cmp, push, is_less}

module _ {Job : Type 0} where
  -- `e` is cheaper than `f`, or as cheap and older.
  abbrev pub Before : Entry Job → Entry Job → Type 0
  Before e f = (e.cost < f.cost) ⊎ ((e.cost ≡ f.cost) × (e.seq < f.seq))

  abbrev pub Sorted : List (Entry Job) → Type 0
  Sorted [] = Unit
  Sorted (e ∷ heap) = All (Before e) heap × Sorted heap

  Before-less : (e f : Entry Job) → Before e f → is_less (cmp f e) ≡ true
  unfolding is_less cmp
  Before-less e f h = ground arith

  less-Before : (e f : Entry Job) → is_less (cmp f e) ≡ true → Before e f
  unfolding is_less cmp
  less-Before e f h = ground arith

  other-Before : (e f : Entry Job) → is_less (cmp f e) ≡ false → f.seq ≢ e.seq → Before f e
  unfolding is_less cmp
  other-Before e f h n = ground arith

  -- What goes first stays first.
  pub push_first :
      (e : Entry Job) (heap : List (Entry Job)) → All (Before e) heap → push e heap ≡ e ∷ heap
  unfolding push
  push_first e [] h = refl
  push_first e (f ∷ heap) h = rw (Before-less e f h.0) refl

  Before-trans : (e f g : Entry Job) → Before e f → Before f g → Before e g
  Before-trans e f g h k = ground arith

  All-Before :
      (e f : Entry Job) (heap : List (Entry Job))
      → Before e f
      → All (Before f) heap
      → All (Before e) heap
  All-Before e f [] h k = tt
  All-Before e f (g ∷ heap) h k = (Before-trans e f g h k.0, All-Before e f heap h k.1)

  pub All-push :
      (P : Entry Job → Type 0) (e : Entry Job) (heap : List (Entry Job))
      → P e
      → All P heap
      → All P (push e heap)
  unfolding push
  All-push P e [] p q = (p, tt)
  All-push P e (f ∷ heap) p q = elim (Bool-cases (is_less (cmp f e))) [
    | inl h ↦ rw h (p, q)
    | inr h ↦ rw h (q.0, All-push P e heap p q.1)
  ]

  pub push-Sorted :
      (e : Entry Job) (heap : List (Entry Job))
      → All (λ f. f.seq ≢ e.seq) heap
      → Sorted heap
      → Sorted (push e heap)
  unfolding push
  push-Sorted e [] d s = (tt, tt)
  push-Sorted e (f ∷ heap) d s = elim (Bool-cases (is_less (cmp f e))) [
    | inl h ↦ let b = less-Before e f h in rw h ((b, All-Before e f heap b s.0), s)
    | inr h ↦
        let b = other-Before e f h d.0 in
        rw h (All-push (Before f) e heap b s.0, push-Sorted e heap d.1 s.1)
  ]
