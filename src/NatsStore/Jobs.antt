-- ===== src/NatsStore/Jobs.antt =====
-- bits/src/db/nats.rs: the records of jobs, `upsert_job`, `delete_job` and `claim_if_owner`, and the
-- race of the brokers that claim the jobs of one that is gone.
pub mod Takeover
use bits_broker.Prelude.{
  ℕ, zero, suc, Bool, true, false, not, Option, none, some, Result, ok, err, panic, Text, text,
  text_beq, if◌then◌else◌, ◌>>=◌, map_err,
}
use bits_broker.RequestId.{Chrono}
use bits_broker.Store.{DbError, PersistentJobRecord, ClaimResult, not_found, active, claimed}
use bits_broker.NatsStore.{
  Bucket, Entry, Stored, stored, refused, store_failed, failure, is_put, job_key, purge_expiring,
}

module _ (chrono : Chrono) (Value : Type 0) where
  -- What one of the attempts of `claim_if_owner` ends with: an answer, or a lost race.
  pub data ClaimRound : Type 0 where
    decides : Result DbError (ClaimResult chrono Value) → ClaimRound
    raced : ClaimRound

module _ (chrono : Chrono) (Value : Type 0)
    (bucket : Bucket (PersistentJobRecord chrono Value)) where
  open bucket use {World, Bytes, entry, update, put, from_record, to_record}

  unfoldable pub upsert_job :
      PersistentJobRecord chrono Value → World → Result {0, 0} DbError Unit × World
  upsert_job job s = elim (job_key chrono job.job_id) [
    | ok key ↦ elim (from_record job) [
      | ok value ↦
          let (answer, s') = put key value s in
          (map_err (failure (text "put job")) answer >>= λ revision. ok tt, s')
      | err e ↦ (err (failure (text "serialize failed") e), s)
      | panic ↦ (panic, s)
    ]
    | err e ↦ (err e, s)
    | panic ↦ (panic, s)
  ]

  unfoldable pub delete_job : (job_id : Text) → World → Result {0, 0} DbError Unit × World
  delete_job job_id s = elim (job_key chrono job_id) [
    | ok key ↦ purge_expiring bucket key s
    | err e ↦ (err e, s)
    | panic ↦ (panic, s)
  ]

  unfoldable pub taken : PersistentJobRecord chrono Value → Stored → ClaimRound chrono Value
  taken job (stored revision) = decides (ok (claimed job))
  taken job refused = raced
  taken job (store_failed e) = decides (err (failure (text "update job") e))

  unfoldable pub take_over :
      (key : Text)
      → (revision : ℕ) → PersistentJobRecord chrono Value
      → World
      → ClaimRound chrono Value × World
  take_over key revision job s = elim (from_record job) [
    | ok value ↦ let (answer, s') = update key value revision s in (taken job answer, s')
    | err e ↦ (decides (err (failure (text "serialize failed") e)), s)
    | panic ↦ (decides panic, s)
  ]

  unfoldable pub claim_owned :
      (key expected claimant : Text)
      → (revision : ℕ) → PersistentJobRecord chrono Value
      → World
      → ClaimRound chrono Value × World
  claim_owned key expected claimant revision job s =
      if text_beq job.broker_id claimant
      then (decides (ok (claimed job)), s)
      else if not (text_beq job.broker_id expected)
      then (decides (ok (active job.broker_id)), s)
      else take_over key revision (record job { broker_id = claimant }) s

  unfoldable pub claim_entry :
      (key expected claimant : Text) → Entry Bytes → World → ClaimRound chrono Value × World
  claim_entry key expected claimant e s = elim (is_put e.operation) [
    | false ↦ (decides (ok not_found), s)
    | true ↦ elim (to_record e.value) [
      | ok job ↦ claim_owned key expected claimant e.revision job s
      | err error ↦ (decides (err (failure (text "deserialize failed") error)), s)
      | panic ↦ (decides panic, s)
    ]
  ]

  unfoldable pub claim_round :
      (key expected claimant : Text)
      → Result Text (Option (Entry Bytes)) × World
      → ClaimRound chrono Value × World
  claim_round key expected claimant (ok none, s) = (decides (ok not_found), s)
  claim_round key expected claimant (ok (some e), s) = claim_entry key expected claimant e s
  claim_round key expected claimant (err e, s) =
      (decides (err (failure (text "get job entry") e)), s)
  claim_round key expected claimant (panic, s) = (decides panic, s)

  -- The last look, after the attempts.
  unfoldable pub refreshed :
      (claimant : Text)
      → Result Text (Option (Entry Bytes))
      → Result DbError (ClaimResult chrono Value)
  refreshed claimant (ok none) = ok not_found
  refreshed claimant (ok (some e)) = elim (is_put e.operation) [
    | false ↦ ok not_found
    | true ↦ elim (to_record e.value) [
      | ok current ↦
          if text_beq current.broker_id claimant
          then ok (claimed current)
          else ok (active current.broker_id)
      | err error ↦ err (failure (text "deserialize failed") error)
      | panic ↦ panic
    ]
  ]
  refreshed claimant (err e) = err (failure (text "re-read after CAS retries") e)
  refreshed claimant panic = panic

  unfoldable pub claim_attempts :
      (attempts : ℕ)
      → (key expected claimant : Text) → World
      → Result DbError (ClaimResult chrono Value) × World
  claim_attempts zero key expected claimant s =
      let (o, s') = entry key s in (refreshed claimant o, s')
  claim_attempts (suc attempts) key expected claimant s =
      let (round, s') = claim_round key expected claimant (entry key s) in
      elim round [
        | decides result ↦ (result, s')
        | raced ↦ claim_attempts attempts key expected claimant s'
      ]

  unfoldable pub claim_if_owner :
      (job_id expected claimant : Text) → World → Result DbError (ClaimResult chrono Value) × World
  claim_if_owner job_id expected claimant s = elim (job_key chrono job_id) [
    | ok key ↦ claim_attempts 3 key expected claimant s
    | err e ↦ (err e, s)
    | panic ↦ (panic, s)
  ]
