-- ===== src/NatsStore/Counter/Trails.antt =====
-- What an allocation does to what the readers of the counter see.
use bits_broker.Prelude.{
  ℕ, ◌+◌, Bool-cases, Result-cases, Option, none, some, Result, ok, err, panic, Text, ltb, inl, inr,
}
use bits_broker.NatsStore.{
  Bucket, Entry, is_put, first_slot, reuse_slot, next_slot, counted, allocate_round,
  broker_slot_counter_key,
}
use bits_broker.NatsStore.Laws.{Laws, Trail}

module _ {Record : Type 0} (bucket : Bucket Record) (site_tag env_tag : Text)
    (laws : Laws bucket (broker_slot_counter_key site_tag env_tag)) where
  open bucket use {World, Bytes, from_u32, to_u32}

  abbrev key : Text
  key = broker_slot_counter_key site_tag env_tag

  -- A call that writes nothing.
  unchanged : (s : World) → Trail bucket key laws s s
  unchanged s o h = inl h

  first_slot-Trail : (s : World) → Trail bucket key laws s (first_slot bucket key s).1
  unfolding first_slot
  first_slot-Trail s = elim (Result-cases (from_u32 1)) [
    | inl (value, f) ↦ rw (first_slot, f) (laws.create_seen value s)
    | inr (inl (e, f)) ↦ rw (first_slot, f) (unchanged s)
    | inr (inr f) ↦ rw (first_slot, f) (unchanged s)
  ]

  reuse_slot-Trail :
      (revision : ℕ) (s : World) → Trail bucket key laws s (reuse_slot bucket key revision s).1
  unfolding reuse_slot
  reuse_slot-Trail revision s = elim (Result-cases (from_u32 1)) [
    | inl (value, f) ↦ rw (reuse_slot, f) (laws.update_seen value revision s)
    | inr (inl (e, f)) ↦ rw (reuse_slot, f) (unchanged s)
    | inr (inr f) ↦ rw (reuse_slot, f) (unchanged s)
  ]

  next_slot-Trail :
      (revision slot : ℕ) (s : World)
      → Trail bucket key laws s (next_slot bucket site_tag env_tag key revision slot s).1
  unfolding next_slot
  next_slot-Trail revision slot s = elim (Bool-cases (ltb 65535 slot)) [
    | inl full ↦ rw (next_slot, full) (unchanged s)
    | inr fits ↦ elim (Result-cases (from_u32 (slot + 1))) [
      | inl (value, f) ↦ rw (next_slot, fits, f) (laws.update_seen value revision s)
      | inr (inl (e, f)) ↦ rw (next_slot, fits, f) (unchanged s)
      | inr (inr f) ↦ rw (next_slot, fits, f) (unchanged s)
    ]
  ]

  counted-Trail :
      (e : Entry Bytes) (s : World)
      → Trail bucket key laws s (counted bucket site_tag env_tag key e s).1
  unfolding counted
  counted-Trail e s = elim (Bool-cases (is_put e.operation)) [
    | inr dead ↦ rw (counted, dead) (reuse_slot-Trail e.revision s)
    | inl live ↦ elim (Result-cases (to_u32 e.value)) [
      | inl (slot, u) ↦ rw (counted, live, u) (next_slot-Trail e.revision slot s)
      | inr (inl (error, u)) ↦ rw (counted, live, u) (unchanged s)
      | inr (inr u) ↦ rw (counted, live, u) (unchanged s)
    ]
  ]

  pub allocate_round-Trail :
      (o : Result Text (Option (Entry Bytes))) (s : World)
      → Trail bucket key laws s (allocate_round bucket site_tag env_tag key (o, s)).1
  unfolding allocate_round
  allocate_round-Trail (ok none) s = first_slot-Trail s
  allocate_round-Trail (ok (some e)) s = counted-Trail e s
  allocate_round-Trail (err e) s = unchanged s
  allocate_round-Trail panic s = unchanged s
