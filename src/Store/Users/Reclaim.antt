-- ===== src/Store/Users/Reclaim.antt =====
-- `reclaim_user_slots_memory`: the slots of owners without a live lease are freed, and no other.
use bits_broker.Prelude.{
  ℕ, ◌+◌, ◌≡◌, refl, ◌∙◌, Option, none, some, Bool, false, List, [], ◌∷◌, Text, pair_eq, text_eq,
  pair_beq_iff, text_beq_iff, HashMap, lookup, if◌then◌else◌, arith, All, Eq, length,
}
use bits_broker.RequestId.{Chrono}
use bits_broker.Store.{or_default, get_broker_lease}
use bits_broker.Store.Users.{
  Store, Entry, Lease, contains, live_owners, retain_entries, retain_buckets,
  reclaim_user_slots_memory,
}
use bits_broker.Store.Users.Laws.{entry_of, is_empty-nil}

-- A hash map has each key once.
abbrev pub Distinct {ℓ κ} : {K : Type ℓ} {V : Type κ} ⦃e : Eq K⦄ → HashMap K V → Type 0
Distinct [] = Unit
Distinct ⦃e⦄ ((k, v) ∷ m) = All (λ p. e.beq k p.0 ≡ false) m × Distinct m

module _ {K V : Type 0} ⦃e : Eq K⦄ where
  lookup_absent : (k : K) (m : HashMap K V) → All (λ p. e.beq k p.0 ≡ false) m → lookup k m ≡ none
  unfolding lookup
  lookup_absent k [] h = refl
  lookup_absent k ((j, v) ∷ m) h =
      ground (arith, lookup_absent k m h.1, e.beq_iff j k, e.beq_iff k j)

module _ (chrono : Chrono) (Value : Type 0) where
  open chrono use {Time, is_before}

  abbrev keep : List Text → Option (Entry chrono Value) → Option (Entry chrono Value)
  keep live none = none
  keep live (some e) = if contains e.owner_broker_id live then some e else none

  lookup-retain_entries :
      (live : List Text) (z : Text) (m : HashMap Text (Entry chrono Value))
      → Distinct m
      → lookup z (retain_entries chrono Value live m).0 ≡ keep live (lookup z m)
  unfolding lookup retain_entries
  lookup-retain_entries live z [] d = refl
  lookup-retain_entries live z ((k, e) ∷ m) d =
      ground (arith, lookup-retain_entries live z m d.1, text_beq_iff k z, lookup_absent k m d.0)

  abbrev inner :
      Text × Text
      → HashMap (Text × Text) (HashMap Text (Entry chrono Value))
      → HashMap Text (Entry chrono Value)
  inner k m = or_default (lookup k m) []

  -- Each user at a dispatcher has one map, and a job has one entry in it.
  abbrev pub BucketsDistinct : HashMap (Text × Text) (HashMap Text (Entry chrono Value)) → Type 0
  BucketsDistinct m = Distinct m × All (λ p. Distinct p.1) m

  lookup-retain_buckets :
      (live : List Text) (j : Text × Text) (z : Text)
      (m : HashMap (Text × Text) (HashMap Text (Entry chrono Value)))
      → BucketsDistinct m
      → lookup z (inner j (retain_buckets chrono Value live m).0) ≡ keep live (lookup z (inner j m))
  unfolding lookup retain_buckets
  lookup-retain_buckets live j z [] d = refl
  lookup-retain_buckets live j z ((k, es) ∷ m) ((absent, d), (de, ds)) = ground (
    arith,
    lookup-retain_buckets live j z m (d, ds),
    lookup-retain_entries live z es de,
    is_empty-nil (retain_entries chrono Value live es).0,
    pair_beq_iff k j,
    lookup_absent k m absent,
  )

  unfoldable pub total : HashMap (Text × Text) (HashMap Text (Entry chrono Value)) → ℕ
  total [] = 0
  total ((k, es) ∷ m) = length es + total m

  retain_entries-length :
      (live : List Text) (m : HashMap Text (Entry chrono Value))
      → (retain_entries chrono Value live m).1 + length (retain_entries chrono Value live m).0
        ≡ length m
  unfolding retain_entries
  retain_entries-length live [] = refl
  retain_entries-length live ((k, e) ∷ m) = ground (arith, retain_entries-length live m)

  retain_buckets-total :
      (live : List Text) (m : HashMap (Text × Text) (HashMap Text (Entry chrono Value)))
      → (retain_buckets chrono Value live m).1 + total (retain_buckets chrono Value live m).0
        ≡ total m
  unfolding retain_buckets total
  retain_buckets-total live [] = refl
  retain_buckets-total live ((k, es) ∷ m) = ground (
    arith,
    retain_buckets-total live m,
    retain_entries-length live es,
    is_empty-nil (retain_entries chrono Value live es).0,
  )

  -- Each lease stands under its broker's id.
  abbrev pub LeasesKeyed : HashMap Text (Lease chrono Value) → Type 0
  LeasesKeyed m = Distinct m × All (λ p. p.0 ≡ p.1.broker_id) m

  -- The source's `lease_until > now`, for the lease that a broker has.
  abbrev pub is_live : Time → Option (Lease chrono Value) → Bool
  is_live now none = false
  is_live now (some lease) = is_before now lease.lease_until

  contains-live_owners :
      (now : Time) (owner : Text) (m : HashMap Text (Lease chrono Value))
      → LeasesKeyed m
      → contains owner (live_owners chrono Value now m) ≡ is_live now (lookup owner m)
  unfolding contains live_owners lookup
  contains-live_owners now owner [] h = refl
  contains-live_owners now owner ((k, lease) ∷ m) ((absent, d), (key, keys)) = ground (
    arith,
    contains-live_owners now owner m (d, keys),
    text_beq_iff k owner,
    lookup_absent k m absent,
  )

  -- Which entries are to stay.
  abbrev pub with_live_owner :
      Time → Store chrono Value → Option (Entry chrono Value) → Option (Entry chrono Value)
  with_live_owner now s none = none
  with_live_owner now s (some e) =
      if is_live now (get_broker_lease chrono Value e.owner_broker_id s) then some e else none

  keep-live_owners :
      (now : Time) (s : Store chrono Value) (o : Option (Entry chrono Value))
      → LeasesKeyed s.brokers
      → keep (live_owners chrono Value now s.brokers) o ≡ with_live_owner now s o
  unfolding get_broker_lease
  keep-live_owners now s none h = refl
  keep-live_owners now s (some e) h = rw (contains-live_owners now e.owner_broker_id s.brokers h)

  -- The number of entries of all users.
  unfoldable pub slots_taken : Store chrono Value → ℕ
  unfolding total
  slots_taken s = total s.user_slots

  -- A reclaim keeps exactly the entries whose owner has a lease that has not ended, and returns how
  -- many it removed. The maps have distinct keys, and leases stand under their brokers' ids.
  pub reclaim_user_slots_memory_lem :
      (now : Time) (s : Store chrono Value)
      → LeasesKeyed s.brokers
      → BucketsDistinct s.user_slots
      → ((scope user job_id : Text)
          → entry_of chrono Value scope user job_id (reclaim_user_slots_memory chrono Value now s).1
            ≡ with_live_owner now s (entry_of chrono Value scope user job_id s))
        × ((reclaim_user_slots_memory chrono Value now s).0
              + slots_taken (reclaim_user_slots_memory chrono Value now s).1
            ≡ slots_taken s)
  unfolding reclaim_user_slots_memory slots_taken entry_of get_broker_lease
  reclaim_user_slots_memory_lem now s keyed distinct = (
    (λ scope user job_id.
        lookup-retain_buckets (live_owners chrono Value now s.brokers) (scope, user) job_id
          s.user_slots distinct
        ∙ keep-live_owners now s (lookup job_id (inner (scope, user) s.user_slots)) keyed),
    retain_buckets-total (live_owners chrono Value now s.brokers) s.user_slots,
  )
