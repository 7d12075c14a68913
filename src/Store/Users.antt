-- ===== src/Store/Users.antt =====
-- The per-user admission records of bits/src/db/memory.rs: reserving, releasing, listing, reclaiming.
pub mod Laws
pub mod Reclaim
use bits_broker.Prelude.{
  ℕ, suc, ◌+◌, ◌%◌, Bool, true, false, Option, none, some, List, [], ◌∷◌, map, if◌then◌else◌, Text,
  text_beq, HashMap, lookup, insert, remove, text_eq, pair_eq,
}
use bits_broker.RequestId.{Chrono}
use bits_broker.Store.{MemoryStore, UserLimitEntry, BrokerLeaseRecord, u64_mod, or_default}

unfoldable pub is_empty : {V : Type 0} → List V → Bool
is_empty [] = true
is_empty (x ∷ xs) = false

unfoldable pub contains : Text → List Text → Bool
contains t [] = false
contains t (x ∷ xs) = if text_beq x t then true else contains t xs

module _ (chrono : Chrono) (Value : Type 0) where
  open chrono use {Time, is_before}

  abbrev pub Store : Type 0
  Store = MemoryStore chrono Value

  abbrev pub Entry : Type 0
  Entry = UserLimitEntry chrono Value

  abbrev pub Lease : Type 0
  Lease = BrokerLeaseRecord chrono Value

  unfoldable pub reserve_in :
      Time → Text → Text → Text → Text → Store → HashMap Text Entry → Option Entry → ℕ × Store
  reserve_in now scope user job_id owner s entries (some existing) =
      (existing.seq, record s { user_slots = insert (scope, user) entries s.user_slots })
  reserve_in now scope user job_id owner s entries none = (
    seq,
    record s {
      user_slots = insert (scope, user) (insert job_id entry entries) s.user_slots;
      user_seq = seq;
    },
  )
    where
      seq : ℕ
      seq = (s.user_seq + 1) % u64_mod

      entry : Entry
      entry = record {
        scope = scope;
        user = user;
        job_id = job_id;
        owner_broker_id = owner;
        seq = seq;
        created_at = now;
      }

  unfoldable pub reserve_user_slot_memory : Time → Text → Text → Text → Text → Store → ℕ × Store
  reserve_user_slot_memory now scope user job_id owner s =
      let entries = or_default (lookup (scope, user) s.user_slots) [] in
      reserve_in now scope user job_id owner s entries (lookup job_id entries)

  unfoldable pub release_user_slot_memory : Text → Text → Text → Store → Store
  release_user_slot_memory scope user job_id s = elim (lookup (scope, user) s.user_slots) [
    | none ↦ s
    | some entries ↦
        let left = remove job_id entries in
        if is_empty left
        then record s { user_slots = remove (scope, user) s.user_slots }
        else record s { user_slots = insert (scope, user) left s.user_slots }
  ]

  -- The entries of one user at one dispatcher, in no particular order.
  unfoldable pub list_user_slots_memory : Text → Text → Store → List Entry
  list_user_slots_memory scope user s =
      map (λ p. p.1) (or_default (lookup (scope, user) s.user_slots) [])

  -- The owners with a live lease.
  unfoldable pub live_owners : Time → HashMap Text Lease → List Text
  live_owners now [] = []
  live_owners now ((k, lease) ∷ m) =
      let rest = live_owners now m in
      if is_before now lease.lease_until then lease.broker_id ∷ rest else rest

  -- `retain` of one bucket, with the count of what it removes.
  unfoldable pub retain_entries : List Text → HashMap Text Entry → HashMap Text Entry × ℕ
  retain_entries live [] = ([], 0)
  retain_entries live ((k, e) ∷ m) =
      let (kept, removed) = retain_entries live m in
      if contains e.owner_broker_id live then ((k, e) ∷ kept, removed) else (kept, suc removed)

  unfoldable pub retain_buckets :
      List Text
      → HashMap (Text × Text) (HashMap Text Entry)
      → HashMap (Text × Text) (HashMap Text Entry) × ℕ
  retain_buckets live [] = ([], 0)
  retain_buckets live ((k, entries) ∷ m) =
      let (kept, removed) = retain_entries live entries in
      let (rest, more) = retain_buckets live m in
      if is_empty kept then (rest, removed + more) else ((k, kept) ∷ rest, removed + more)

  unfoldable pub reclaim_user_slots_memory : Time → Store → ℕ × Store
  reclaim_user_slots_memory now s =
      let (kept, removed) = retain_buckets (live_owners now s.brokers) s.user_slots in
      (removed, record s { user_slots = kept })
