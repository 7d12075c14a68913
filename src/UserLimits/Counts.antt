-- ===== src/UserLimits/Counts.antt =====
-- The counts of one broker stay at most the limit, and a release undoes an admission.
use bits_broker.Prelude.{
  ℕ, ◌+◌, ◌-◌, ◌≤◌, ◌<◌, ◌==◌, true, false, Bool-cases, Option-cases, List, [], ◌∷◌, Text, ok, err,
  if◌then◌else◌, leb, ltb, lookup, insert, text_eq, text_beq, text_beq_iff, lookup-insert,
  lookup-remove, ◌≡◌, refl, ap, ◌∙◌, inl, inr, arith,
}
use bits_broker.Store.{or_default}
use bits_broker.UserLimits.{Counts, guarded, try_admit_local, release_local, admit_without_store}

-- The number of jobs of a user that are queued or in flight.
abbrev pub count_of : Text → Counts → ℕ
count_of key counts = or_default (lookup key counts) 0

pub insert-count_of :
    (key other : Text) (n : ℕ) (counts : Counts)
    → count_of other (insert key n counts)
      ≡ (if text_beq key other then n else count_of other counts)
insert-count_of key other n counts = ground (arith, lookup-insert key other n counts)

pub release_local-count_of :
    (key other : Text) (counts : Counts)
    → count_of other (release_local key counts)
      ≡ (if text_beq key other then count_of key counts - 1 else count_of other counts)
unfolding release_local
release_local-count_of key other counts = elim (Option-cases (lookup key counts)) [
  | inl e ↦ rw (e, release_local) (ground (arith, text_beq_iff key other))
  | inr (slot, e) ↦ elim (Bool-cases (slot - 1 == 0)) [
    | inl z ↦ rw (e, release_local, z) (ground (arith, lookup-remove key other counts))
    | inr n ↦ rw (e, release_local, n) (ground (arith, lookup-insert key other (slot - 1) counts))
  ]
]

pub try_full :
    (key : Text) (max : ℕ) (counts : Counts)
    → leb max (count_of key counts) ≡ true
    → try_admit_local key max counts
      ≡ (err (count_of key counts), insert key (count_of key counts) counts)
unfolding try_admit_local lookup insert
try_full key max counts f = rw (try_admit_local, f) refl

pub try_room :
    (key : Text) (max : ℕ) (counts : Counts)
    → leb max (count_of key counts) ≡ false
    → try_admit_local key max counts
      ≡ (ok (count_of key counts + 1), insert key (count_of key counts + 1) counts)
unfolding try_admit_local lookup insert
try_room key max counts f = rw (try_admit_local, f) refl

admit_guarded :
    (key : Text) (max : ℕ) (counts : Counts)
    → (max == 0) ≡ false
    → admit_without_store key max counts ≡ guarded (try_admit_local key max counts)
unfolding admit_without_store
admit_guarded key max counts z = rw (admit_without_store, z) refl

admit_full :
    (key : Text) (max : ℕ) (counts : Counts)
    → (max == 0) ≡ false
    → leb max (count_of key counts) ≡ true
    → admit_without_store key max counts ≡ (false, insert key (count_of key counts) counts)
admit_full key max counts z f =
    admit_guarded key max counts z ∙ ap guarded (try_full key max counts f)

admit_room :
    (key : Text) (max : ℕ) (counts : Counts)
    → (max == 0) ≡ false
    → leb max (count_of key counts) ≡ false
    → admit_without_store key max counts ≡ (true, insert key (count_of key counts + 1) counts)
admit_room key max counts z f =
    admit_guarded key max counts z ∙ ap guarded (try_room key max counts f)

admit_none :
    (key : Text) (max : ℕ) (counts : Counts)
    → (max == 0) ≡ true
    → admit_without_store key max counts ≡ (false, counts)
unfolding admit_without_store
admit_none key max counts z = rw (admit_without_store, z) refl

-- A job is admitted exactly when its user has fewer jobs than the limit; then the user has one more,
-- and otherwise as many. The counts of other users stay.
pub admit_without_store_lem :
    (key other : Text) (max : ℕ) (counts : Counts)
    → let (admitted, counts') = admit_without_store key max counts in
      (admitted ≡ ltb (count_of key counts) max)
      × (count_of other counts' ≡ (
          if text_beq key other
          then (if admitted then count_of key counts + 1 else count_of key counts)
          else count_of other counts))
admit_without_store_lem key other max counts = elim (Bool-cases (max == 0)) [
  | inl z ↦ rw (admit_none key max counts z) (ground arith, ground (arith, text_beq_iff key other))
  | inr z ↦ elim (Bool-cases (leb max (count_of key counts))) [
    | inl f ↦
        rw (admit_full key max counts z f)
          (ground arith, insert-count_of key other (count_of key counts) counts)
    | inr f ↦
        rw (admit_room key max counts z f)
          (ground arith, insert-count_of key other (count_of key counts + 1) counts)
  ]
]

-- What happens to the counts: admissions, with the limit of the user, and releases of guards.
pub data Event : Type 0 where
  admission : Text → ℕ → Event
  release : Text → Event

unfoldable pub run : List Event → Counts → Counts
run [] counts = counts
run (admission key max ∷ events) counts = run events (admit_without_store key max counts).1
run (release key ∷ events) counts = run events (release_local key counts)

-- Every admission of the user is under a limit of at most `cap`.
abbrev pub Capped : Text → ℕ → List Event → Type 0
Capped user cap [] = Unit
Capped user cap (admission key max ∷ events) =
    ((if text_beq key user then max else 0) ≤ cap) × Capped user cap events
Capped user cap (release key ∷ events) = Capped user cap events

-- The release of an admitted job gives every user the count from before the admission.
pub release_local-admit_without_store :
    (key other : Text) (max : ℕ) (counts : Counts)
    → count_of key counts < max
    → count_of other (release_local key (admit_without_store key max counts).1)
      ≡ count_of other counts
release_local-admit_without_store key other max counts h = ground (
  arith,
  release_local-count_of key other (admit_without_store key max counts).1,
  admit_without_store_lem key key max counts,
  admit_without_store_lem key other max counts,
  text_beq_iff key key,
  text_beq_iff key other,
)
