-- ===== src/NatsStore/Counter/Alone.antt =====
-- An allocation that no other broker disturbs.
use bits_broker.Prelude.{
  ℕ, suc, ◌+◌, Bool-cases, Result-cases, Option, none, some, Result, ok, err, panic, Text, text,
  ltb, ◌≡◌, ◌≢◌, refl, sym, ap, ◌∙◌, subst, inl, inr, arith,
}
use bits_broker.Store.{DbError}
use bits_broker.NatsStore.{
  Bucket, Entry, Stored, stored, refused, store_failed, is_put, Round, answers, round_of,
  first_slot, reuse_slot, next_slot, counted, allocate_round, allocate_nats_broker_slot,
  broker_slot_counter_key,
}
use bits_broker.NatsStore.Laws.{HasRevision, is_live, Laws, IsCurrent}

abbrev Answers : Round → Type 0
Answers round = (result : Result DbError ℕ) × (round ≡ answers result)

module _ {Record : Type 0} (bucket : Bucket Record) (site_tag env_tag : Text)
    (laws : Laws bucket (broker_slot_counter_key site_tag env_tag)) where
  open bucket use {World, Bytes, entry, create, update, from_u32, to_u32}

  abbrev key : Text
  key = broker_slot_counter_key site_tag env_tag

  round_of-Answers :
      (what : Text) (slot : ℕ) (answer : Stored)
      → answer ≢ refused
      → Answers (round_of bucket what slot answer)
  unfolding round_of
  round_of-Answers what slot (stored later) h = (_, refl)
  round_of-Answers what slot refused h = absurd (h refl)
  round_of-Answers what slot (store_failed e) h = (_, refl)

  update_stands :
      (e : Entry Bytes) (value : Bytes) (s : World)
      → laws.view s ≡ some e
      → (update key value e.revision s).0 ≢ refused
  update_stands e value s h r =
      (laws.update_refused value e.revision s r).1 (subst (HasRevision e.revision) (sym h) refl)

  first_slot-Answers : (s : World) → laws.view s ≡ none → Answers (first_slot bucket key s).0
  unfolding first_slot
  first_slot-Answers s h = elim (Result-cases (from_u32 1)) [
    | inl (value, f) ↦
        rw (first_slot, f)
          (round_of-Answers (text "create broker slot counter") 0 (create key value s).0
            (λ r. absurd (ground (arith, ap is_live h, (laws.create_refused value s r).1))))
    | inr (inl (error, f)) ↦ rw (first_slot, f) (_, refl)
    | inr (inr f) ↦ rw (first_slot, f) (_, refl)
  ]

  reuse_slot-Answers :
      (e : Entry Bytes) (s : World)
      → laws.view s ≡ some e
      → Answers (reuse_slot bucket key e.revision s).0
  unfolding reuse_slot
  reuse_slot-Answers e s h = elim (Result-cases (from_u32 1)) [
    | inl (value, f) ↦
        rw (reuse_slot, f)
          (round_of-Answers (text "recreate broker slot counter") 0
            (update key value e.revision s).0 (update_stands e value s h))
    | inr (inl (error, f)) ↦ rw (reuse_slot, f) (_, refl)
    | inr (inr f) ↦ rw (reuse_slot, f) (_, refl)
  ]

  next_slot-Answers :
      (e : Entry Bytes) (slot : ℕ) (s : World)
      → laws.view s ≡ some e
      → Answers (next_slot bucket site_tag env_tag key e.revision slot s).0
  unfolding next_slot
  next_slot-Answers e slot s h = elim (Bool-cases (ltb 65535 slot)) [
    | inl full ↦ rw (next_slot, full) (_, refl)
    | inr fits ↦ elim (Result-cases (from_u32 (slot + 1))) [
      | inl (value, f) ↦
          rw (next_slot, fits, f)
            (round_of-Answers (text "update broker slot counter") slot
              (update key value e.revision s).0 (update_stands e value s h))
      | inr (inl (error, f)) ↦ rw (next_slot, fits, f) (_, refl)
      | inr (inr f) ↦ rw (next_slot, fits, f) (_, refl)
    ]
  ]

  counted-Answers :
      (e : Entry Bytes) (s : World)
      → laws.view s ≡ some e
      → Answers (counted bucket site_tag env_tag key e s).0
  unfolding counted
  counted-Answers e s h = elim (Bool-cases (is_put e.operation)) [
    | inr dead ↦ rw (counted, dead) (reuse_slot-Answers e s h)
    | inl live ↦ elim (Result-cases (to_u32 e.value)) [
      | inl (slot, u) ↦ rw (counted, live, u) (next_slot-Answers e slot s h)
      | inr (inl (error, u)) ↦ rw (counted, live, u) (_, refl)
      | inr (inr u) ↦ rw (counted, live, u) (_, refl)
    ]
  ]

  allocate_round-Answers :
      (o : Result Text (Option (Entry Bytes))) (s s' : World)
      → IsCurrent bucket key laws s
      → (entry key s).0 ≡ o
      → laws.view s' ≡ laws.view s
      → Answers (allocate_round bucket site_tag env_tag key (o, s')).0
  unfolding allocate_round
  allocate_round-Answers (ok none) s s' current h v =
      first_slot-Answers s' (v ∙ sym (current none h))
  allocate_round-Answers (ok (some e)) s s' current h v =
      counted-Answers e s' (v ∙ sym (current (some e) h))
  allocate_round-Answers (err e) s s' current h v = (_, refl)
  allocate_round-Answers panic s s' current h v = (_, refl)

  -- When no other client comes between its calls, and its read of the counter is answered by the
  -- latest entry or fails, an allocation of a broker slot ends in its first round: with any fuel but
  -- zero it has an answer.
  pub allocate_nats_broker_slot-ends :
      (fuel : ℕ) (s : World)
      → IsCurrent bucket key laws s
      → (allocate_nats_broker_slot bucket (suc fuel) site_tag env_tag s).0 ≢ none
  unfolding allocate_nats_broker_slot
  allocate_nats_broker_slot-ends fuel s current h =
      let (result, e) =
        allocate_round-Answers (entry key s).0 s (entry key s).1 current refl (laws.reads_keep s) in
      absurd (ground (arith, simp (allocate_nats_broker_slot, e) at h))
