-- ===== src/UserLimits/Brokers/Rank.antt =====
-- The rank of an entry is the number of the entries before it, in whatever order they are listed.
use bits_broker.Prelude.{
  some_injective, ℕ, suc, ◌≤◌, ◌<◌, Bool, true, false, none, some, List, [], ◌∷◌, Text, All,
  text_beq_iff, Bool-cases, Option-cases, ◌≡◌, ◌≢◌, ◌↔◌, refl, subst, inl, inr, arith,
}
use bits_broker.Queues.CostWeighted.Run.{count}
use bits_broker.UserLimits.Brokers.{
  Ticket, text_ltb, ticket_ltb, ticket_beq, place, sort_tickets, position, rank,
}

text_ltb_irrefl : (s : Text) → text_ltb s s ≡ false
unfolding text_ltb
text_ltb_irrefl [] = refl
text_ltb_irrefl (c ∷ s) = ground (arith, text_ltb_irrefl s)

-- What is not after `t` is not after what `t` is not after.
text_ltb_trans : (s t u : Text) → text_ltb t s ≡ false → text_ltb u t ≡ false → text_ltb u s ≡ false
unfolding text_ltb
text_ltb_trans [] t u h k = refl
text_ltb_trans (c ∷ s) [] u h k = cc
text_ltb_trans (c ∷ s) (d ∷ t) [] h k = cc
text_ltb_trans (c ∷ s) (d ∷ t) (b ∷ u) h k = ground (arith, text_ltb_trans s t u)

text_ltb_asym : (s t : Text) → text_ltb s t ≡ true → text_ltb t s ≡ false
unfolding text_ltb
text_ltb_asym s [] h = cc
text_ltb_asym [] (d ∷ t) h = refl
text_ltb_asym (c ∷ s) (d ∷ t) h = ground (arith, text_ltb_asym s t)

ticket_ltb_irrefl : (x : Ticket) → ticket_ltb x x ≡ false
unfolding ticket_ltb
ticket_ltb_irrefl (n, s) = ground (arith, text_ltb_irrefl s)

ticket_ltb_trans :
    (x y z : Ticket) → ticket_ltb y x ≡ false → ticket_ltb z y ≡ false → ticket_ltb z x ≡ false
unfolding ticket_ltb
ticket_ltb_trans (n, s) (m, t) (k, u) h g = ground (arith, text_ltb_trans s t u)

ticket_ltb_asym : (x y : Ticket) → ticket_ltb x y ≡ true → ticket_ltb y x ≡ false
unfolding ticket_ltb
ticket_ltb_asym (n, s) (m, t) h = ground (arith, text_ltb_asym s t)

pub ticket_beq_iff : (x y : Ticket) → (ticket_beq x y ≡ true) ↔ (x ≡ y)
unfolding ticket_beq
ticket_beq_iff (n, s) (m, t) = ground (arith, text_beq_iff s t)

abbrev NotAfter : Ticket → List Ticket → Type 0
NotAfter x ys = All (λ y. ticket_ltb y x ≡ false) ys

abbrev Sorted : List Ticket → Type 0
Sorted [] = Unit
Sorted (x ∷ xs) = NotAfter x xs × Sorted xs

NotAfter-trans :
    (x y : Ticket) (zs : List Ticket) → ticket_ltb y x ≡ false → NotAfter y zs → NotAfter x zs
NotAfter-trans x y [] h k = tt
NotAfter-trans x y (z ∷ zs) h k = (ticket_ltb_trans x y z h k.0, NotAfter-trans x y zs h k.1)

NotAfter-place :
    (x y : Ticket) (zs : List Ticket)
    → ticket_ltb y x ≡ false
    → NotAfter x zs
    → NotAfter x (place y zs)
unfolding place
NotAfter-place x y [] h k = (h, tt)
NotAfter-place x y (z ∷ zs) h k = elim (Bool-cases (ticket_ltb z y)) [
  | inl e ↦ rw e (k.0, NotAfter-place x y zs h k.1)
  | inr e ↦ rw e (h, k)
]

place-Sorted : (x : Ticket) (ys : List Ticket) → Sorted ys → Sorted (place x ys)
unfolding place
place-Sorted x [] s = (tt, tt)
place-Sorted x (y ∷ ys) s = elim (Bool-cases (ticket_ltb y x)) [
  | inl e ↦ rw e (NotAfter-place y x ys (ticket_ltb_asym y x e) s.0, place-Sorted x ys s.1)
  | inr e ↦ rw e ((e, NotAfter-trans x y ys e s.0), s)
]

sort_tickets-Sorted : (xs : List Ticket) → Sorted (sort_tickets xs)
unfolding sort_tickets
sort_tickets-Sorted [] = tt
sort_tickets-Sorted (x ∷ xs) = place-Sorted x (sort_tickets xs) (sort_tickets-Sorted xs)

count-place :
    (p : Ticket → Bool) (x : Ticket) (ys : List Ticket) → count p (place x ys) ≡ count p (x ∷ ys)
unfolding count place
count-place p x [] = refl
count-place p x (y ∷ ys) = ground (arith, count-place p x ys)

count-sort_tickets : (p : Ticket → Bool) (xs : List Ticket) → count p (sort_tickets xs) ≡ count p xs
unfolding count sort_tickets
count-sort_tickets p [] = refl
count-sort_tickets p (x ∷ xs) =
    ground (arith, count-place p x (sort_tickets xs), count-sort_tickets p xs)

-- How many of the entries are before one.
abbrev pub before : Ticket → List Ticket → ℕ
before x ys = count (λ y. ticket_ltb y x) ys

before-NotAfter : (x : Ticket) (ys : List Ticket) → NotAfter x ys → before x ys ≡ 0
unfolding count
before-NotAfter x [] h = refl
before-NotAfter x (y ∷ ys) h = ground (arith, before-NotAfter x ys h.1)

position-le :
    (x : Ticket) (ys : List Ticket) (n : ℕ) → Sorted ys → position x ys ≡ some n → before x ys ≤ n
unfolding count position
position-le x [] n s h = cc
position-le x (y ∷ ys) n s h = elim (Bool-cases (ticket_beq y x)) [
  | inl e ↦
      let same : y ≡ x = (ticket_beq_iff y x).0 e in
      let none_before : before x (y ∷ ys) ≡ 0 =
        subst (λ z. before z (y ∷ ys) ≡ 0) same
          (before-NotAfter y (y ∷ ys) (ticket_ltb_irrefl y, s.0)) in
      omega (arith, none_before)
  | inr e ↦ elim (Option-cases (position x ys)) [
    | inl gone ↦ cc (rw (e, gone) at h)
    | inr (m, there) ↦
        let far : suc m ≡ n = some_injective (rw (e, there) at h) in
        ground (arith, far, position-le x ys m s.1 there)
  ]
]

position-found :
    (x : Ticket) (ys : List Ticket) → 0 < count (λ y. ticket_beq y x) ys → position x ys ≢ none
unfolding count position
position-found x [] h = elim h [ ]
position-found x (y ∷ ys) h = elim (Bool-cases (ticket_beq y x)) [
  | inl e ↦ rw e (λ k. cc k)
  | inr e ↦ elim (Option-cases (position x ys)) [
    | inl gone ↦ absurd (position-found x ys (rw e at h) gone)
    | inr (m, there) ↦ rw (e, there) (λ k. cc k)
  ]
]

-- An entry that is listed has at most as many entries before it as its rank tells.
pub before-rank :
    (x : Ticket) (ys : List Ticket) → 0 < count (λ y. ticket_beq y x) ys → before x ys ≤ rank x ys
unfolding rank
before-rank x ys h = elim (Option-cases (position x (sort_tickets ys))) [
  | inl gone ↦
      let listed = count-sort_tickets (λ y. ticket_beq y x) ys in
      absurd (position-found x (sort_tickets ys) (omega (arith, listed)) gone)
  | inr (n, there) ↦ rw there (
      omega (
        arith,
        count-sort_tickets (λ y. ticket_ltb y x) ys,
        position-le x (sort_tickets ys) n (sort_tickets-Sorted ys) there,
      ))
]
