-- ===== src/NatsStore/Counter/Effects.antt =====
-- What one try of an allocation does to the counter.
use bits_broker.Prelude.{
  ℕ, ◌+◌, ◌≤◌, true, false, Bool-cases, Result-cases, Option, none, some, Result, ok, err, panic,
  Text, text, ltb, ◌≡◌, ◌⊎◌, refl, sym, ap, ◌∙◌, inl, inr, arith,
}
use bits_broker.NatsStore.{
  Bucket, Entry, Stored, stored, refused, store_failed, op_put, is_put, Round, round_of, first_slot,
  reuse_slot, next_slot, counted, allocate_round, broker_slot_counter_key,
}
use bits_broker.NatsStore.Laws.{IsNewer, Writes, HasRevision, is_live, Laws}
use bits_broker.NatsStore.Known.{IsKnown, known_latest}
use bits_broker.NatsStore.Counter.{count_of, gives}

module _ {Record : Type 0} (bucket : Bucket Record) (site_tag env_tag : Text) where
  open bucket use {World, Bytes, entry, create, update, from_u32, to_u32}

  abbrev pub Effect : (before after : Option (Entry Bytes)) → Round → Type 0
  Effect before after round =
      ((after ≡ before) × (gives round ≡ none))
      ⊎ ((revision : ℕ) × IsNewer before revision
          × ((value : Bytes) × (after
                ≡ some (record { operation = op_put; value = value; revision = revision })))
          × (count_of bucket after ≡ count_of bucket before + 1)
          × ((gives round ≡ none)
              ⊎ ((gives round ≡ some (count_of bucket before)) × (count_of bucket before ≤ 65535))))

  count_of-put :
      (e : Entry Bytes) (n : ℕ)
      → is_put e.operation ≡ true
      → to_u32 e.value ≡ ok n
      → count_of bucket (some e) ≡ n
  unfolding count_of
  count_of-put e n p u = simp (count_of, p, u)

  count_of-dead : (o : Option (Entry Bytes)) → is_live o ≡ false → count_of bucket o ≡ 0
  unfolding count_of
  count_of-dead none h = refl
  count_of-dead (some e) h = simp (count_of, h)

  module _ (laws : Laws bucket (broker_slot_counter_key site_tag env_tag)) where
    abbrev key : Text
    key = broker_slot_counter_key site_tag env_tag

    written :
        (before after : Option (Entry Bytes)) (value : Bytes) (slot : ℕ) (round : Round)
        → from_u32 (slot + 1) ≡ ok value
        → count_of bucket before ≡ slot
        → Writes value before after
        → (gives round ≡ none) ⊎ ((gives round ≡ some slot) × (slot ≤ 65535))
        → Effect before after round
    unfolding is_put
    written before after value slot round f c (revision, (newer, same)) g = inr (
      revision,
      newer,
      (value, same),
      (ap (count_of bucket) same
            ∙ count_of-put _ (slot + 1) refl (laws.counts_back (slot + 1) value f))
          ∙ ap (λ n. n + 1) (sym c),
      rw c g,
    )

    update-Effect :
        (what : Text) (slot : ℕ) (value : Bytes) (e : Entry Bytes) (s : World)
        → from_u32 (slot + 1) ≡ ok value
        → slot ≤ 65535
        → count_of bucket (some e) ≡ slot
        → IsKnown (laws.view s) e
        → Effect
            (laws.view s)
            (laws.view (update key value e.revision s).1)
            (round_of bucket what slot (update key value e.revision s).0)
    unfolding round_of gives
    update-Effect what slot value e s f small c k = cases (update key value e.revision s).0 refl
      where
        latest : HasRevision e.revision (laws.view s) → count_of bucket (laws.view s) ≡ slot
        latest h = ap (count_of bucket) (known_latest (laws.view s) e k h) ∙ c

        cases :
            (answer : Stored)
            → (update key value e.revision s).0 ≡ answer
            → Effect
                (laws.view s)
                (laws.view (update key value e.revision s).1)
                (round_of bucket what slot answer)
        cases (stored later) a =
            let (h, w) = laws.update_stored value e.revision later s a in
            written (laws.view s) (laws.view (update key value e.revision s).1) value slot
              (round_of bucket what slot (stored later)) f (latest h) (later, w) (inr (refl, small))
        cases refused a = inl ((laws.update_refused value e.revision s a).0, refl)
        cases (store_failed error) a = elim (laws.update_failed value e.revision s error a) [
          | inl same ↦ inl (same, refl)
          | inr (h, w) ↦
              written (laws.view s) (laws.view (update key value e.revision s).1) value slot
                (round_of bucket what slot (store_failed error)) f (latest h) w (inl refl)
        ]

    create-Effect :
        (what : Text) (value : Bytes) (s : World)
        → from_u32 1 ≡ ok value
        → Effect
            (laws.view s)
            (laws.view (create key value s).1)
            (round_of bucket what 0 (create key value s).0)
    unfolding round_of gives
    create-Effect what value s f = cases (create key value s).0 refl
      where
        cases :
            (answer : Stored)
            → (create key value s).0 ≡ answer
            → Effect
                (laws.view s)
                (laws.view (create key value s).1)
                (round_of bucket what 0 answer)
        cases (stored later) a =
            let (h, w) = laws.create_stored value later s a in
            written (laws.view s) (laws.view (create key value s).1) value 0
              (round_of bucket what 0 (stored later)) f (count_of-dead (laws.view s) h) (later, w)
              (inr (refl, omega arith))
        cases refused a = inl ((laws.create_refused value s a).0, refl)
        cases (store_failed error) a = elim (laws.create_failed value s error a) [
          | inl same ↦ inl (same, refl)
          | inr (h, w) ↦
              written (laws.view s) (laws.view (create key value s).1) value 0
                (round_of bucket what 0 (store_failed error)) f (count_of-dead (laws.view s) h) w
                (inl refl)
        ]

    first_slot-Effect :
        (s : World)
        → Effect (laws.view s) (laws.view (first_slot bucket key s).1) (first_slot bucket key s).0
    unfolding first_slot gives
    first_slot-Effect s = elim (Result-cases (from_u32 1)) [
      | inl (value, f) ↦
          rw (first_slot, f) (create-Effect (text "create broker slot counter") value s f)
      | inr (inl (e, f)) ↦ rw (first_slot, f) (inl (refl, refl))
      | inr (inr f) ↦ rw (first_slot, f) (inl (refl, refl))
    ]

    reuse_slot-Effect :
        (e : Entry Bytes) (s : World)
        → is_put e.operation ≡ false
        → IsKnown (laws.view s) e
        → Effect
            (laws.view s)
            (laws.view (reuse_slot bucket key e.revision s).1)
            (reuse_slot bucket key e.revision s).0
    unfolding reuse_slot gives
    reuse_slot-Effect e s dead k = elim (Result-cases (from_u32 1)) [
      | inl (value, f) ↦
          rw (reuse_slot, f)
            (update-Effect (text "recreate broker slot counter") 0 value e s f (omega arith)
              (count_of-dead (some e) dead) k)
      | inr (inl (error, f)) ↦ rw (reuse_slot, f) (inl (refl, refl))
      | inr (inr f) ↦ rw (reuse_slot, f) (inl (refl, refl))
    ]

    next_slot-Effect :
        (e : Entry Bytes) (slot : ℕ) (s : World)
        → count_of bucket (some e) ≡ slot
        → IsKnown (laws.view s) e
        → Effect
            (laws.view s)
            (laws.view (next_slot bucket site_tag env_tag key e.revision slot s).1)
            (next_slot bucket site_tag env_tag key e.revision slot s).0
    unfolding next_slot gives
    next_slot-Effect e slot s c k = elim (Bool-cases (ltb 65535 slot)) [
      | inl full ↦ rw (next_slot, full) (inl (refl, refl))
      | inr fits ↦ elim (Result-cases (from_u32 (slot + 1))) [
        | inl (value, f) ↦
            rw (next_slot, fits, f)
              (update-Effect (text "update broker slot counter") slot value e s f
                (ground (arith, fits)) c k)
        | inr (inl (error, f)) ↦ rw (next_slot, fits, f) (inl (refl, refl))
        | inr (inr f) ↦ rw (next_slot, fits, f) (inl (refl, refl))
      ]
    ]

    counted-Effect :
        (e : Entry Bytes) (s : World)
        → IsKnown (laws.view s) e
        → Effect
            (laws.view s)
            (laws.view (counted bucket site_tag env_tag key e s).1)
            (counted bucket site_tag env_tag key e s).0
    unfolding counted gives
    counted-Effect e s k = elim (Bool-cases (is_put e.operation)) [
      | inr dead ↦ rw (counted, dead) (reuse_slot-Effect e s dead k)
      | inl live ↦ elim (Result-cases (to_u32 e.value)) [
        | inl (slot, u) ↦
            rw (counted, live, u) (next_slot-Effect e slot s (count_of-put e slot live u) k)
        | inr (inl (error, u)) ↦ rw (counted, live, u) (inl (refl, refl))
        | inr (inr u) ↦ rw (counted, live, u) (inl (refl, refl))
      ]
    ]

    -- What a broker got from its read and what it finds when it tries.
    abbrev pub IsKnownRead : Option (Entry Bytes) → Result Text (Option (Entry Bytes)) → Type 0
    IsKnownRead latest (ok (some e)) = IsKnown latest e
    IsKnownRead latest _ = Unit

    pub allocate_round-Effect :
        (o : Result Text (Option (Entry Bytes))) (s : World)
        → IsKnownRead (laws.view s) o
        → Effect
            (laws.view s)
            (laws.view (allocate_round bucket site_tag env_tag key (o, s)).1)
            (allocate_round bucket site_tag env_tag key (o, s)).0
    unfolding allocate_round gives
    allocate_round-Effect (ok none) s k = first_slot-Effect s
    allocate_round-Effect (ok (some e)) s k = counted-Effect e s k
    allocate_round-Effect (err e) s k = inl (refl, refl)
    allocate_round-Effect panic s k = inl (refl, refl)
