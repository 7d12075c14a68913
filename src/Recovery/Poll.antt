-- ===== src/Recovery/Poll.antt =====
-- `poll` of bits/src/bits.rs: the job is local, or its owner is asked, or the job is taken over.
use bits_broker.Prelude.{
  ℕ, Bool, true, false, Option, none, some, Result, ok, err, panic, Text, text_beq, text_eq, lookup,
}
use bits_broker.RequestId.{Chrono}
use bits_broker.Store.{DbError, PersistentJobRecord, ClaimResult, claimed, active}
use bits_broker.Runtime.{
  Job, PendingStatus, queued, PollOutcome, ready, pending, not_found, job_lost,
  bypass_limit_already_persisted, submit, remove_job,
}
use bits_broker.Recovery.{
  Broker, JobData, Lease, LeaseLookup, lease_active, missing_or_expired, unknown, restore,
  slot_from_job_id, lookup_owner_lease, claim_with_backoff,
}
use bits_broker.Recovery.Proxy.{try_proxy_with_lease}

module _ (chrono : Chrono) (Value B S : Type 0) (broker : Broker chrono Value B S) where
  abbrev pub JobOf : Type 0
  JobOf = Job B (JobData chrono.Time Value)

  unfoldable pub take_result : Text → JobOf → S → Option (PollOutcome B) × S
  take_result id job s = elim job.result [
    | none ↦ (none, s)
    | some result ↦
        let s' = broker.with_table (remove_job id (broker.table_of s)) s in
        (
          some (ready result),
          elim job.persisted [ true ↦ broker.schedule_cleanup id s' | false ↦ s' ],
        )
  ]

  abbrev pub or_else_pending : Text → PendingStatus → Option (PollOutcome B) × S → PollOutcome B × S
  or_else_pending id status (none, s) = (pending id status, s)
  or_else_pending id status (some outcome, s) = (outcome, s)

  unfoldable pub after_wait : Text → Bool × JobOf × S → PollOutcome B × S
  after_wait id (true, job, s) = or_else_pending id job.pending_status (take_result id job s)
  after_wait id (false, job, s) = (pending id job.pending_status, s)

  unfoldable pub poll_local : Text → Option ℕ → S → Option (PollOutcome B) × S
  poll_local id timeout s = elim (lookup id (broker.table_of s).jobs) [
    | none ↦ (none, s)
    | some job ↦
        let (taken, s') = take_result id job s in
        elim taken [
          | some outcome ↦ (some outcome, s')
          | none ↦
              let (outcome, s'') = after_wait id (broker.wait id timeout job s') in
              (some outcome, s'')
        ]
  ]

  -- `submit_with_state(Job::restore(record), true)`: a job that is there already stays.
  unfoldable pub resubmit : PersistentJobRecord chrono Value → S → S
  resubmit record_of s =
      let (outcome, table) =
        submit record_of.job_id (restore chrono Value B (broker.instant s) record_of)
          bypass_limit_already_persisted (broker.first_deadline s) (broker.table_of s) in
      broker.with_table table s

  unfoldable pub proxied_or_queued :
      Lease chrono Value B S broker → Text → Option ℕ → S → PollOutcome B × S
  proxied_or_queued lease id timeout s =
      or_else_pending id queued (try_proxy_with_lease chrono Value B S broker lease id timeout s)

  unfoldable pub after_new_owner :
      LeaseLookup chrono Value → Text → Option ℕ → S → PollOutcome B × S
  after_new_owner (lease_active lease) id timeout s = proxied_or_queued lease id timeout s
  after_new_owner missing_or_expired id timeout s = (pending id queued, s)
  after_new_owner unknown id timeout s = (pending id queued, s)

  -- What becomes of the answer to a claim. A loop that does not end would be the result `none`.
  unfoldable pub after_claim :
      Text
      → Text
      → Option ℕ
      → Option (Result DbError (ClaimResult chrono Value))
      → S
      → PollOutcome B × S
  after_claim id owner timeout (some (ok (claimed record_of))) s =
      or_else_pending id queued (poll_local id timeout (resubmit record_of s))
  after_claim id owner timeout (some (ok (active new_owner))) s =
      elim (text_beq new_owner broker.broker_id) [
        | true ↦ (pending id queued, s)
        | false ↦
            let (found, s') = lookup_owner_lease chrono Value B S broker new_owner s in
            after_new_owner found id timeout s'
      ]
  after_claim id owner timeout (some (ok ClaimResult.not_found)) s =
      elim (text_beq owner broker.broker_id) [ true ↦ (not_found, s) | false ↦ (job_lost, s) ]
  after_claim id owner timeout (some (err e)) s = (pending id queued, s)
  after_claim id owner timeout (some panic) s = (pending id queued, s)
  after_claim id owner timeout none s = (pending id queued, s)

  unfoldable pub claim_and_recover : Text → Text → Option ℕ → S → PollOutcome B × S
  claim_and_recover id owner timeout s = elim broker.has_store [
    | false ↦ (not_found, s)
    | true ↦
        let (answer, s') = claim_with_backoff chrono Value B S broker id owner timeout s in
        after_claim id owner timeout answer s'
  ]

  unfoldable pub after_lookup :
      Text → Text → Option ℕ → LeaseLookup chrono Value × S → PollOutcome B × S
  after_lookup id owner timeout (lease_active lease, s) = proxied_or_queued lease id timeout s
  after_lookup id owner timeout (unknown, s) = (pending id queued, s)
  after_lookup id owner timeout (missing_or_expired, s) = claim_and_recover id owner timeout s

  unfoldable pub poll_owner : Text → Text → Option ℕ → S → PollOutcome B × S
  poll_owner id owner timeout s = elim (text_beq owner broker.broker_id) [
    | true ↦ claim_and_recover id owner timeout s
    | false ↦ after_lookup id owner timeout (lookup_owner_lease chrono Value B S broker owner s)
  ]

  unfoldable pub poll : Text → Option ℕ → S → PollOutcome B × S
  poll id timeout s =
      let (local, s') = poll_local id timeout s in
      elim local [
        | some outcome ↦ (outcome, s')
        | none ↦ elim (slot_from_job_id chrono id) [
          | ok owner ↦ poll_owner id owner timeout s'
          | err e ↦ (not_found, s')
          | panic ↦ (not_found, s')
        ]
      ]
