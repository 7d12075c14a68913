-- ===== src/NatsStore/Jobs/Takeover/Effects.antt =====
-- What one attempt to take over a job does to its entry.
use bits_broker.Prelude.{
  ℕ, Bool, true, false, Bool-cases, Result-cases, Option, none, some, Result, ok, err, panic, Text,
  text_beq, text_beq_iff, ◌≡◌, ◌⊎◌, refl, ap, ◌∙◌, inl, inr,
}
use bits_broker.RequestId.{Chrono}
use bits_broker.Store.{PersistentJobRecord}
use bits_broker.NatsStore.{Bucket, Entry, Stored, stored, refused, store_failed, op_put, is_put}
use bits_broker.NatsStore.Laws.{IsNewer, Writes, HasRevision, Laws}
use bits_broker.NatsStore.Known.{IsKnown, known_latest}
use bits_broker.NatsStore.Jobs.{taken, take_over, claim_owned, claim_entry, claim_round, refreshed}
use bits_broker.NatsStore.Jobs.Takeover.{is_claimed, wins}

module _ (chrono : Chrono) (Value : Type 0)
    (bucket : Bucket (PersistentJobRecord chrono Value)) where
  open bucket use {World, Bytes, entry, update, from_record, to_record}

  -- The broker that an entry names.
  unfoldable pub owner : Option (Entry Bytes) → Option Text
  owner none = none
  owner (some e) = elim (is_put e.operation) [
    | false ↦ none
    | true ↦ elim (to_record e.value) [
      | ok job ↦ some job.broker_id
      | err error ↦ none
      | panic ↦ none
    ]
  ]

  owner-put :
      (e : Entry Bytes) (job : PersistentJobRecord chrono Value)
      → is_put e.operation ≡ true
      → to_record e.value ≡ ok job
      → owner (some e) ≡ some job.broker_id
  unfolding owner
  owner-put e job p u = simp (owner, p, u)

  module _ (key expected : Text) (laws : Laws bucket key) where
    abbrev pub Effect : (before after : Option (Entry Bytes)) → Text → Bool → Type 0
    Effect before after claimant won =
        ((after ≡ before) × ((won ≡ false) ⊎ (owner before ≡ some claimant)))
        ⊎ ((revision : ℕ) × IsNewer before revision
            × ((value : Bytes) × (after
                  ≡ some (record { operation = op_put; value = value; revision = revision })))
            × (owner before ≡ some expected)
            × (owner after ≡ some claimant))

    -- What was read is the latest entry or an older one; and the latest if it names another broker.
    abbrev pub IsSound : Option (Entry Bytes) → Result Text (Option (Entry Bytes)) → Type 0
    IsSound latest (ok (some e)) =
        IsKnown latest e
        × ((w : Text) → owner (some e) ≡ some w → text_beq w expected ≡ false → latest ≡ some e)
    IsSound latest _ = Unit

    written :
        (before after : Option (Entry Bytes)) (job : PersistentJobRecord chrono Value)
        (value : Bytes) (won : Bool)
        → from_record job ≡ ok value
        → owner before ≡ some expected
        → Writes value before after
        → Effect before after job.broker_id won
    unfolding is_put
    written before after job value won f o (revision, (newer, same)) = inr (
      revision,
      newer,
      (value, same),
      o,
      ap owner same ∙ owner-put _ job refl (laws.records_back job value f),
    )

    taken-Effect :
        (e : Entry Bytes) (job : PersistentJobRecord chrono Value) (value : Bytes) (s : World)
        → from_record job ≡ ok value
        → owner (some e) ≡ some expected
        → IsKnown (laws.view s) e
        → Effect
            (laws.view s)
            (laws.view (update key value e.revision s).1)
            job.broker_id
            (wins (taken chrono Value bucket job (update key value e.revision s).0))
    unfolding taken wins is_claimed
    taken-Effect e job value s f o k = cases (update key value e.revision s).0 refl
      where
        latest : HasRevision e.revision (laws.view s) → owner (laws.view s) ≡ some expected
        latest h = ap owner (known_latest (laws.view s) e k h) ∙ o

        cases :
            (answer : Stored)
            → (update key value e.revision s).0 ≡ answer
            → Effect
                (laws.view s)
                (laws.view (update key value e.revision s).1)
                job.broker_id
                (wins (taken chrono Value bucket job answer))
        cases (stored later) a =
            let (h, w) = laws.update_stored value e.revision later s a in
            written (laws.view s) (laws.view (update key value e.revision s).1) job value true f
              (latest h) (later, w)
        cases refused a = inl ((laws.update_refused value e.revision s a).0, inl refl)
        cases (store_failed error) a = elim (laws.update_failed value e.revision s error a) [
          | inl same ↦ inl (same, inl refl)
          | inr (h, w) ↦
              written (laws.view s) (laws.view (update key value e.revision s).1) job value false f
                (latest h) w
        ]

    take_over-Effect :
        (e : Entry Bytes) (job : PersistentJobRecord chrono Value) (s : World)
        → owner (some e) ≡ some expected
        → IsKnown (laws.view s) e
        → Effect
            (laws.view s)
            (laws.view (take_over chrono Value bucket key e.revision job s).1)
            job.broker_id
            (wins (take_over chrono Value bucket key e.revision job s).0)
    unfolding take_over wins is_claimed
    take_over-Effect e job s o k = elim (Result-cases (from_record job)) [
      | inl (value, f) ↦ rw (take_over, f) (taken-Effect e job value s f o k)
      | inr (inl (error, f)) ↦ rw (take_over, f) (inl (refl, inl refl))
      | inr (inr f) ↦ rw (take_over, f) (inl (refl, inl refl))
    ]

    claim_owned-Effect :
        (claimant : Text) (e : Entry Bytes) (job : PersistentJobRecord chrono Value) (s : World)
        → owner (some e) ≡ some job.broker_id
        → text_beq claimant expected ≡ false
        → IsSound (laws.view s) (ok (some e))
        → Effect
            (laws.view s)
            (laws.view (claim_owned chrono Value bucket key expected claimant e.revision job s).1)
            claimant
            (wins (claim_owned chrono Value bucket key expected claimant e.revision job s).0)
    unfolding claim_owned wins is_claimed
    claim_owned-Effect claimant e job s o other (k, sound) =
        elim (Bool-cases (text_beq job.broker_id claimant)) [
          | inl own ↦
              let mine = o ∙ ap some ((text_beq_iff job.broker_id claimant).0 own) in
              rw (claim_owned, own) (inl (refl, inr (ap owner (sound claimant mine other) ∙ mine)))
          | inr not_own ↦ elim (Bool-cases (text_beq job.broker_id expected)) [
            | inr gone ↦ rw (claim_owned, not_own, gone) (inl (refl, inl refl))
            | inl as_expected ↦
                rw (claim_owned, not_own, as_expected)
                  (take_over-Effect e (record job { broker_id = claimant }) s
                    (o ∙ ap some ((text_beq_iff job.broker_id expected).0 as_expected)) k)
          ]
        ]

    claim_entry-Effect :
        (claimant : Text) (e : Entry Bytes) (s : World)
        → text_beq claimant expected ≡ false
        → IsSound (laws.view s) (ok (some e))
        → Effect
            (laws.view s)
            (laws.view (claim_entry chrono Value bucket key expected claimant e s).1)
            claimant
            (wins (claim_entry chrono Value bucket key expected claimant e s).0)
    unfolding claim_entry wins is_claimed
    claim_entry-Effect claimant e s other sound = elim (Bool-cases (is_put e.operation)) [
      | inr dead ↦ rw (claim_entry, dead) (inl (refl, inl refl))
      | inl live ↦ elim (Result-cases (to_record e.value)) [
        | inl (job, u) ↦
            rw (claim_entry, live, u)
              (claim_owned-Effect claimant e job s (owner-put e job live u) other sound)
        | inr (inl (error, u)) ↦ rw (claim_entry, live, u) (inl (refl, inl refl))
        | inr (inr u) ↦ rw (claim_entry, live, u) (inl (refl, inl refl))
      ]
    ]

    pub claim_round-Effect :
        (claimant : Text) (o : Result Text (Option (Entry Bytes))) (s : World)
        → text_beq claimant expected ≡ false
        → IsSound (laws.view s) o
        → Effect
            (laws.view s)
            (laws.view (claim_round chrono Value bucket key expected claimant (o, s)).1)
            claimant
            (wins (claim_round chrono Value bucket key expected claimant (o, s)).0)
    unfolding claim_round wins is_claimed
    claim_round-Effect claimant (ok none) s other sound = inl (refl, inl refl)
    claim_round-Effect claimant (ok (some e)) s other sound =
        claim_entry-Effect claimant e s other sound
    claim_round-Effect claimant (err e) s other sound = inl (refl, inl refl)
    claim_round-Effect claimant panic s other sound = inl (refl, inl refl)

    -- A last look that finds the claimant finds it in the latest entry.
    pub refreshed-owner :
        (claimant : Text) (o : Option (Entry Bytes))
        → (is_claimed (refreshed chrono Value bucket claimant (ok o)) ≡ false)
          ⊎ (owner o ≡ some claimant)
    unfolding refreshed is_claimed
    refreshed-owner claimant none = inl refl
    refreshed-owner claimant (some e) = elim (Bool-cases (is_put e.operation)) [
      | inr dead ↦ rw (refreshed, dead) (inl refl)
      | inl live ↦ elim (Result-cases (to_record e.value)) [
        | inl (job, u) ↦ elim (Bool-cases (text_beq job.broker_id claimant)) [
          | inl own ↦
              inr (owner-put e job live u ∙ ap some ((text_beq_iff job.broker_id claimant).0 own))
          | inr other ↦ rw (refreshed, live, u, other) (inl refl)
        ]
        | inr (inl (error, u)) ↦ rw (refreshed, live, u) (inl refl)
        | inr (inr u) ↦ rw (refreshed, live, u) (inl refl)
      ]
    ]
