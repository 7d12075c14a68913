-- ===== src/UserLimits/Brokers/Late.antt =====
-- The entries of a user, in the order of their numbers: those behind the first `n` that hold a guard.
use bits_broker.Prelude.{
  ℕ, zero, suc, ◌+◌, ◌≤◌, ◌<◌, Bool, true, false, none, some, List, [], ◌∷◌, map, Text, All, drop,
  if◌then◌else◌, text_beq, text_beq_iff, text_eq, pair_eq, HashMap, lookup, insert, remove,
  Bool-cases, ◌≡◌, refl, ap, inl, inr, arith,
}
use bits_broker.RequestId.{Chrono}
use bits_broker.Store.Users.{Entry}
use bits_broker.Runtime.Table.{Unique}
use bits_broker.Queues.CostWeighted.Run.{count}
use bits_broker.UserLimits.Brokers.{Ticket, ticket_ltb, ticket_beq}
use bits_broker.UserLimits.Brokers.Rank.{before, ticket_beq_iff}

module _ (chrono : Chrono) (Value : Type 0) where
  open chrono use {Time}

  abbrev pub Bucket : Type 0
  Bucket = HashMap Text (Entry chrono Value)

  abbrev pub ticket : Entry chrono Value → Ticket
  ticket e = (e.seq, e.job_id)

  -- The entries that hold a guard.
  abbrev pub guarded : (Text → Bool) → Bucket → ℕ
  guarded held m = count (λ p. held p.0) m

  -- Of those after the first `n`.
  abbrev pub late : ℕ → (Text → Bool) → Bucket → ℕ
  late n held m = guarded held (drop n m)

  pub guarded-le : (n : ℕ) (held : Text → Bool) (m : Bucket) → guarded held m ≤ n + late n held m
  unfolding count
  guarded-le zero held m = omega arith
  guarded-le (suc n) held [] = omega arith
  guarded-le (suc n) held (p ∷ m) = ground (arith, guarded-le n held m)

  pub late-nil : (n : ℕ) (held : Text → Bool) → late n held [] ≡ 0
  unfolding count
  late-nil zero held = refl
  late-nil (suc n) held = refl

  pub late-insert :
      (n : ℕ) (held : Text → Bool) (k : Text) (e : Entry chrono Value) (m : Bucket)
      → lookup k m ≡ none
      → held k ≡ false
      → late n held (insert k e m) ≡ late n held m
  unfolding count insert lookup
  late-insert zero held k e [] f h = ground arith
  late-insert (suc zero) held k e [] f h = refl
  late-insert (suc (suc n)) held k e [] f h = refl
  late-insert zero held k e ((j, w) ∷ m) f h = ground (arith, late-insert zero held k e m)
  late-insert (suc n) held k e ((j, w) ∷ m) f h = ground (arith, late-insert n held k e m)

  late-shrinks : (n : ℕ) (held : Text → Bool) (m : Bucket) → late (suc n) held m ≤ late n held m
  unfolding count
  late-shrinks n held [] = ground arith
  late-shrinks zero held (p ∷ m) = ground arith
  late-shrinks (suc n) held (p ∷ m) = late-shrinks n held m

  pub late-remove :
      (n : ℕ) (held : Text → Bool) (k : Text) (m : Bucket)
      → late n held (remove k m) ≤ late n held m
  unfolding count remove
  late-remove n held k [] = omega arith
  late-remove zero held k ((j, w) ∷ m) = ground (arith, late-remove zero held k m)
  late-remove (suc n) held k ((j, w) ∷ m) =
      ground (arith, late-remove n held k m, late-remove (suc n) held k m, late-shrinks n held m)

  -- Fewer jobs hold a guard.
  pub late-less :
      (n : ℕ) (held held' : Text → Bool) (m : Bucket)
      → ((k : Text) → held' k ≡ true → held k ≡ true)
      → late n held' m ≤ late n held m
  unfolding count
  late-less zero held held' [] h = omega arith
  late-less (suc n) held held' [] h = omega arith
  late-less zero held held' ((k, e) ∷ m) h = ground (arith, h k, late-less zero held held' m h)
  late-less (suc n) held held' (p ∷ m) h = late-less n held held' m h

  -- One job more holds a guard.
  unfoldable pub grant : Text → (Text → Bool) → Text → Bool
  grant job held k = if text_beq k job then true else held k

  late-grant_missing :
      (n : ℕ) (held : Text → Bool) (job : Text) (m : Bucket)
      → lookup job m ≡ none
      → late n (grant job held) m ≡ late n held m
  unfolding count lookup grant
  late-grant_missing zero held job [] h = refl
  late-grant_missing (suc n) held job [] h = refl
  late-grant_missing zero held job ((k, e) ∷ m) h =
      ground (arith, late-grant_missing zero held job m)
  late-grant_missing (suc n) held job ((k, e) ∷ m) h =
      ground (arith, late-grant_missing n held job m)

  pub late-grant :
      (n : ℕ) (held : Text → Bool) (job : Text) (m : Bucket)
      → Unique m
      → late n (grant job held) m ≤ suc (late n held m)
  unfolding count lookup grant
  late-grant zero held job [] u = omega arith
  late-grant (suc n) held job [] u = omega arith
  late-grant zero held job ((k, e) ∷ m) u = ground (
    arith,
    text_beq_iff k job,
    late-grant_missing zero held job m,
    late-grant zero held job m u.1,
  )
  late-grant (suc n) held job ((k, e) ∷ m) u = late-grant n held job m u.1

  -- Each entry has the job that it is found by, and a greater number than those before it.
  abbrev pub Ordered : Bucket → Type 0
  Ordered [] = Unit
  Ordered ((k, e) ∷ m) = (e.job_id ≡ k) × All (λ p. e.seq < p.1.seq) m × Ordered m

  abbrev pub tickets : Bucket → List Ticket
  tickets m = map (λ p. ticket p.1) m

  lookup-greater :
      (n : ℕ) (job : Text) (e : Entry chrono Value) (m : Bucket)
      → All (λ p. n < p.1.seq) m
      → lookup job m ≡ some e
      → n < e.seq
  unfolding lookup
  lookup-greater n job e [] a h = cc
  lookup-greater n job e ((k, w) ∷ m) a h = ground (arith, lookup-greater n job e m a.1)

  pub lookup-job_id :
      (job : Text) (e : Entry chrono Value) (m : Bucket)
      → Ordered m
      → lookup job m ≡ some e
      → e.job_id ≡ job
  unfolding lookup
  lookup-job_id job e [] o h = cc
  lookup-job_id job e ((k, w) ∷ m) o h =
      ground (arith, text_beq_iff k job, o.0, lookup-job_id job e m o.2)

  -- A guard for a job with fewer than `n` entries before its own is not a late one.
  pub late-grant_early :
      (n : ℕ) (held : Text → Bool) (job : Text) (e : Entry chrono Value) (m : Bucket)
      → Unique m
      → Ordered m
      → lookup job m ≡ some e
      → before (ticket e) (tickets m) < n
      → late n (grant job held) m ≡ late n held m
  unfolding count lookup grant ticket_ltb
  late-grant_early n held job e [] u o h b = cc
  late-grant_early zero held job e ((k, w) ∷ m) u o h b = absurd (omega (arith, b))
  late-grant_early (suc n) held job e ((k, w) ∷ m) u o h b = elim (Bool-cases (text_beq k job)) [
    | inl same ↦ late-grant_missing n held job m (rw ((text_beq_iff k job).0 same) at u.0)
    | inr other ↦
        let there : lookup job m ≡ some e = rw other at h in
        let older : w.seq < e.seq = lookup-greater w.seq job e m o.1 there in
        late-grant_early n held job e m u.1 o.2 there (ground (arith, older))
  ]

  All-entries-insert :
      (P : Entry chrono Value → Type 0) (k : Text) (e : Entry chrono Value) (m : Bucket)
      → P e
      → All (λ p. P p.1) m
      → All (λ p. P p.1) (insert k e m)
  unfolding insert
  All-entries-insert P k e [] p a = (p, tt)
  All-entries-insert P k e ((j, w) ∷ m) p a = elim (Bool-cases (text_beq j k)) [
    | inl h ↦ rw h (p, a.1)
    | inr h ↦ rw h (a.0, All-entries-insert P k e m p a.1)
  ]

  pub All-entries-remove :
      (P : Entry chrono Value → Type 0) (k : Text) (m : Bucket)
      → All (λ p. P p.1) m
      → All (λ p. P p.1) (remove k m)
  unfolding remove
  All-entries-remove P k [] a = tt
  All-entries-remove P k ((j, w) ∷ m) a = elim (Bool-cases (text_beq j k)) [
    | inl h ↦ rw h (All-entries-remove P k m a.1)
    | inr h ↦ rw h (a.0, All-entries-remove P k m a.1)
  ]

  -- No entry has a number above the last one handed out.
  abbrev pub Issued : ℕ → Bucket → Type 0
  Issued top m = All (λ p. p.1.seq ≤ top) m

  pub Issued-later : (top top' : ℕ) (m : Bucket) → top ≤ top' → Issued top m → Issued top' m
  Issued-later top top' [] h a = tt
  Issued-later top top' (p ∷ m) h a = (omega (arith, a.0), Issued-later top top' m h a.1)

  pub insert-Issued :
      (top : ℕ) (k : Text) (e : Entry chrono Value) (m : Bucket)
      → e.seq ≡ top + 1
      → Issued top m
      → Issued (top + 1) (insert k e m)
  insert-Issued top k e m s a =
      All-entries-insert (λ w. w.seq ≤ top + 1) k e m (omega (arith, s))
        (Issued-later top (top + 1) m (omega arith) a)

  pub insert-Ordered :
      (top : ℕ) (k : Text) (e : Entry chrono Value) (m : Bucket)
      → lookup k m ≡ none
      → e.job_id ≡ k
      → e.seq ≡ top + 1
      → Issued top m
      → Ordered m
      → Ordered (insert k e m)
  unfolding insert lookup
  insert-Ordered top k e [] h j s a o = (j, tt, tt)
  insert-Ordered top k e ((i, w) ∷ m) h j s a o = elim (Bool-cases (text_beq i k)) [
    | inl same ↦ cc (rw same at h)
    | inr other ↦ rw other (
      o.0,
      All-entries-insert (λ v. w.seq < v.seq) k e m (omega (arith, s, a.0)) o.1,
      insert-Ordered top k e m (rw other at h) j s a.1 o.2,
    )
  ]

  pub remove-Ordered : (k : Text) (m : Bucket) → Ordered m → Ordered (remove k m)
  unfolding remove
  remove-Ordered k [] o = tt
  remove-Ordered k ((i, w) ∷ m) o = elim (Bool-cases (text_beq i k)) [
    | inl h ↦ rw h (remove-Ordered k m o.2)
    | inr h ↦ rw h (o.0, All-entries-remove (λ v. w.seq < v.seq) k m o.1, remove-Ordered k m o.2)
  ]

  -- The count over the listed entries is the one over the entries by their keys.
  pub count-listed :
      (held : Text → Bool) (m : Bucket)
      → Ordered m
      → count (λ e. held e.job_id) (map (λ p. p.1) m) ≡ guarded held m
  unfolding count
  count-listed held [] o = refl
  count-listed held ((k, e) ∷ m) o = ground (arith, o.0, ap held o.0, count-listed held m o.2)

  pub tickets-listed : (m : Bucket) → map ticket (map (λ p. p.1) m) ≡ tickets m
  tickets-listed [] = refl
  tickets-listed (p ∷ m) = ap (◌∷◌ (ticket p.1)) (tickets-listed m)

  -- A job that is found is listed.
  pub count-found :
      (job : Text) (e : Entry chrono Value) (m : Bucket)
      → lookup job m ≡ some e
      → 0 < count (λ y. ticket_beq y (ticket e)) (tickets m)
  unfolding count lookup
  count-found job e [] h = cc
  count-found job e ((k, w) ∷ m) h = elim (Bool-cases (text_beq k job)) [
    | inl same ↦ ground (arith, ticket_beq_iff (ticket w) (ticket e), rw same at h)
    | inr other ↦ ground (arith, count-found job e m (rw other at h))
  ]
