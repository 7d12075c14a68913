-- ===== src/UserLimits/Brokers/Balance.antt =====
-- Every way through `admit` settles the counts of the broker.
use bits_broker.Prelude.{
  ℕ, ◌+◌, ◌==◌, Bool, true, false, Option, none, some, List, Text, leb, ltb, length, lookup, insert,
  text_eq, text_beq, text_beq_iff, if◌then◌else◌, Bool-cases, Option-cases, ◌<◌, ◌≡◌, refl, inl,
  inr, arith,
}
use bits_broker.UserLimits.{Counts, incr_local, admit_without_store}
use bits_broker.UserLimits.Counts.{
  count_of, insert-count_of, release_local-count_of, try_full, try_room, admit_without_store_lem,
}
use bits_broker.UserLimits.Brokers.{
  Ticket, SlotStore, Limiter, Local, strict, strict_verdict, drop_guard, keep_or_drop,
  strict_reserved, strict_admit, fresh_count, reconciled, lazy_synced, lazy_reserved, lazy_gated,
  lazy_admit, admit_job,
}

-- The user has one job more than in the given counts, and all others as many.
abbrev Grown : Text → Counts → Counts → Type 0
Grown key base counts =
    (other : Text)
    → count_of other counts
      ≡ (if text_beq key other then count_of key base + 1 else count_of other base)

-- The user has one job more if it is admitted, and all others as many.
abbrev pub Settled : Text → Counts → Bool → Counts → Type 0
Settled key base admitted counts =
    (other : Text)
    → count_of other counts ≡ (
        if text_beq key other
        then (if admitted then count_of key base + 1 else count_of key base)
        else count_of other base)

incr_local-Grown : (key : Text) (base : Counts) → Grown key base (incr_local key base)
unfolding incr_local
incr_local-Grown key base other = insert-count_of key other (count_of key base + 1) base

module _ {W : Type 0} (limiter : Limiter W) (store : SlotStore W) (key job : Text)
    (base : Counts) where
  keep_or_drop-Settled :
      (keep : Bool) (l : Local) (w : W)
      → Grown key base l.counts
      → let (admitted, l', w') = keep_or_drop limiter store key job keep l w in
        Settled key base admitted l'.counts
  unfolding keep_or_drop drop_guard
  keep_or_drop-Settled true l w g = g
  keep_or_drop-Settled false l w g = λ other. ground (
    arith,
    release_local-count_of key other l.counts,
    g key,
    g other,
    text_beq_iff key other,
    text_beq_iff key key,
  )

  strict_reserved-Settled :
      (max : ℕ) (reserved : Option ℕ) (l : Local) (w : W)
      → Grown key base l.counts
      → let (admitted, l', w') = strict_reserved limiter store key job max reserved l w in
        Settled key base admitted l'.counts
  unfolding strict_reserved
  strict_reserved-Settled max none l w g = g
  strict_reserved-Settled max (some seq) l w g =
      let (entries, w') = store.list_user_slots limiter.scope key w in
      keep_or_drop-Settled (strict_verdict max (seq, job) entries) l w' g

  reconciled-Settled :
      (max : ℕ) (entries : Option (List Ticket)) (l : Local) (w : W)
      → Grown key base l.counts
      → let (admitted, l', w') = reconciled limiter store key job max entries l w in
        Settled key base admitted l'.counts
  unfolding reconciled
  reconciled-Settled max none l w g = g
  reconciled-Settled max (some entries) l w g =
      let (now, w') = store.now w in
      keep_or_drop-Settled (leb (length entries) max)
        (record l { cached_count = insert key (length entries, now) l.cached_count }) w' g

  lazy_synced-Settled :
      (max : ℕ) (fresh : Option ℕ) (l : Local) (w : W)
      → Grown key base l.counts
      → let (admitted, l', w') = lazy_synced limiter store key job max fresh l w in
        Settled key base admitted l'.counts
  unfolding lazy_synced
  lazy_synced-Settled max none l w g =
      let (entries, w') = store.list_user_slots limiter.scope key w in
      reconciled-Settled max entries l w' g
  lazy_synced-Settled max (some synced) l w g = keep_or_drop-Settled (leb synced max) l w g

  lazy_reserved-Settled :
      (max : ℕ) (reserved : Option ℕ) (l : Local) (w : W)
      → Grown key base l.counts
      → let (admitted, l', w') = lazy_reserved limiter store key job max reserved l w in
        Settled key base admitted l'.counts
  unfolding lazy_reserved
  lazy_reserved-Settled max none l w g = g
  lazy_reserved-Settled max (some seq) l w g =
      let (fresh, w') = fresh_count limiter store (lookup key l.cached_count) w in
      lazy_synced-Settled max fresh l w' g

  lazy_admit-Settled :
      (max : ℕ) (l : Local) (w : W)
      → l.counts ≡ base
      → let (admitted, l', w') = lazy_admit limiter store key job max l w in
        Settled key base admitted l'.counts
  unfolding lazy_admit lazy_gated
  lazy_admit-Settled max l w e = elim (Bool-cases (leb max (count_of key base))) [
    | inl full ↦
        rw (e, try_full key max base full)
          (λ other. insert-count_of key other (count_of key base) base)
    | inr room ↦
        let (reserved, w') = store.reserve_user_slot limiter.scope key job limiter.broker_id w in
        rw (e, try_room key max base room)
          (lazy_reserved-Settled max reserved
            (record l { counts = insert key (count_of key base + 1) base }) w'
            (λ other. insert-count_of key other (count_of key base + 1) base))
  ]

module _ {W : Type 0} (limiter : Limiter W) (key job : Text) (max : ℕ) (l : Local) (w : W) where
  alone :
      limiter.store ≡ none
      → admit_job limiter key job max l w ≡ (
        (admit_without_store key max l.counts).0,
        record l { counts = (admit_without_store key max l.counts).1 },
        w,
      )
  unfolding admit_job
  alone e = rw (admit_job, e) refl

  denied :
      (store : SlotStore W)
      → limiter.store ≡ some store
      → (max == 0) ≡ true
      → admit_job limiter key job max l w ≡ (false, l, w)
  unfolding admit_job
  denied store e z = rw (admit_job, e, z) refl

  strictly :
      (store : SlotStore W)
      → limiter.store ≡ some store
      → (max == 0) ≡ false
      → strict max ≡ true
      → admit_job limiter key job max l w ≡ strict_admit limiter store key job max l w
  unfolding admit_job
  strictly store e z s = simp (admit_job, e, z, s)

  lazily :
      (store : SlotStore W)
      → limiter.store ≡ some store
      → (max == 0) ≡ false
      → strict max ≡ false
      → admit_job limiter key job max l w ≡ lazy_admit limiter store key job max l w
  unfolding admit_job
  lazily store e z s = simp (admit_job, e, z, s)

  with_store :
      (store : SlotStore W)
      → limiter.store ≡ some store
      → let (admitted, l', w') = admit_job limiter key job max l w in
        Settled key l.counts admitted l'.counts
  unfolding strict_admit
  with_store store e = elim (Bool-cases (max == 0)) [
    | inl z ↦ rw (denied store e z) (λ other. ground (arith, text_beq_iff key other))
    | inr z ↦ elim (Bool-cases (strict max)) [
      | inl s ↦
          let (reserved, w') = store.reserve_user_slot limiter.scope key job limiter.broker_id w in
          rw (strictly store e z s) (
            strict_reserved-Settled limiter store key job l.counts max reserved
              (record l { counts = incr_local key l.counts }) w' (incr_local-Grown key l.counts))
      | inr s ↦
          rw (lazily store e z s) (lazy_admit-Settled limiter store key job l.counts max l w refl)
    ]
  ]

  -- Whatever the mode, and whatever a store answers or fails to do: when `admit` ends, the broker
  -- counts one job more for the user if the job is admitted and as many as before if it is not, and the
  -- counts of the other users are as they were.
  pub admit_job-Settled :
      let (admitted, l', w') = admit_job limiter key job max l w in
      Settled key l.counts admitted l'.counts
  admit_job-Settled = elim (Option-cases limiter.store) [
    | inl e ↦ rw (alone e) (λ other. (admit_without_store_lem key other max l.counts).1)
    | inr (store, e) ↦ with_store store e
  ]

  lazy_open :
      (store : SlotStore W)
      → (store.reserve_user_slot limiter.scope key job limiter.broker_id w).0 ≡ none
      → (lazy_admit limiter store key job max l w).0 ≡ ltb (count_of key l.counts) max
  unfolding lazy_admit lazy_gated lazy_reserved
  lazy_open store h = elim (Bool-cases (leb max (count_of key l.counts))) [
    | inl full ↦ rw (lazy_admit, try_full key max l.counts full) (ground arith)
    | inr room ↦ rw (lazy_admit, try_room key max l.counts room, lazy_gated, h) (ground arith)
  ]

  -- Where the shared store fails to reserve a slot, a job under a limit from 1 is admitted: up to a
  -- limit of 3 always, and above as long as the broker's own count is below the limit.
  pub admit_job-reserve_fails :
      (store : SlotStore W)
      → limiter.store ≡ some store
      → 0 < max
      → (store.reserve_user_slot limiter.scope key job limiter.broker_id w).0 ≡ none
      → (admit_job limiter key job max l w).0
        ≡ (if strict max then true else ltb (count_of key l.counts) max)
  unfolding strict_admit strict_reserved
  admit_job-reserve_fails store e p h =
      let z : (max == 0) ≡ false = ground arith in
      elim (Bool-cases (strict max)) [
        | inl s ↦ rw (strictly store e z s, s, strict_admit, h) refl
        | inr s ↦ rw (lazily store e z s, s) (lazy_open store h)
      ]
