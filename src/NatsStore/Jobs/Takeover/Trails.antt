-- ===== src/NatsStore/Jobs/Takeover/Trails.antt =====
-- What an attempt to take over a job does to what the readers of its entry see.
use bits_broker.Prelude.{
  ℕ, Bool-cases, Result-cases, Option, none, some, Result, ok, err, panic, Text, text_beq, inl, inr,
}
use bits_broker.RequestId.{Chrono}
use bits_broker.Store.{PersistentJobRecord}
use bits_broker.NatsStore.{Bucket, Entry, is_put}
use bits_broker.NatsStore.Laws.{Laws, Trail}
use bits_broker.NatsStore.Jobs.{take_over, claim_owned, claim_entry, claim_round}

module _ (chrono : Chrono) (Value : Type 0) (bucket : Bucket (PersistentJobRecord chrono Value))
    (key expected : Text) (laws : Laws bucket key) where
  open bucket use {World, Bytes, from_record, to_record}

  -- A call that writes nothing.
  unchanged : (s : World) → Trail bucket key laws s s
  unchanged s o h = inl h

  take_over-Trail :
      (revision : ℕ) (job : PersistentJobRecord chrono Value) (s : World)
      → Trail bucket key laws s (take_over chrono Value bucket key revision job s).1
  unfolding take_over
  take_over-Trail revision job s = elim (Result-cases (from_record job)) [
    | inl (value, f) ↦ rw (take_over, f) (laws.update_seen value revision s)
    | inr (inl (e, f)) ↦ rw (take_over, f) (unchanged s)
    | inr (inr f) ↦ rw (take_over, f) (unchanged s)
  ]

  claim_owned-Trail :
      (claimant : Text) (revision : ℕ) (job : PersistentJobRecord chrono Value) (s : World)
      → Trail bucket key laws s
          (claim_owned chrono Value bucket key expected claimant revision job s).1
  unfolding claim_owned
  claim_owned-Trail claimant revision job s = elim (Bool-cases (text_beq job.broker_id claimant)) [
    | inl own ↦ rw (claim_owned, own) (unchanged s)
    | inr not_own ↦ elim (Bool-cases (text_beq job.broker_id expected)) [
      | inr gone ↦ rw (claim_owned, not_own, gone) (unchanged s)
      | inl as_expected ↦
          rw (claim_owned, not_own, as_expected)
            (take_over-Trail revision (record job { broker_id = claimant }) s)
    ]
  ]

  claim_entry-Trail :
      (claimant : Text) (e : Entry Bytes) (s : World)
      → Trail bucket key laws s (claim_entry chrono Value bucket key expected claimant e s).1
  unfolding claim_entry
  claim_entry-Trail claimant e s = elim (Bool-cases (is_put e.operation)) [
    | inr dead ↦ rw (claim_entry, dead) (unchanged s)
    | inl live ↦ elim (Result-cases (to_record e.value)) [
      | inl (job, u) ↦ rw (claim_entry, live, u) (claim_owned-Trail claimant e.revision job s)
      | inr (inl (error, u)) ↦ rw (claim_entry, live, u) (unchanged s)
      | inr (inr u) ↦ rw (claim_entry, live, u) (unchanged s)
    ]
  ]

  pub claim_round-Trail :
      (claimant : Text) (o : Result Text (Option (Entry Bytes))) (s : World)
      → Trail bucket key laws s (claim_round chrono Value bucket key expected claimant (o, s)).1
  unfolding claim_round
  claim_round-Trail claimant (ok none) s = unchanged s
  claim_round-Trail claimant (ok (some e)) s = claim_entry-Trail claimant e s
  claim_round-Trail claimant (err e) s = unchanged s
  claim_round-Trail claimant panic s = unchanged s
