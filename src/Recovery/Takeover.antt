-- ===== src/Recovery/Takeover.antt =====
-- Polls over the in-memory store: which jobs of a dead broker are taken over.
use bits_broker.Prelude.{
  ℕ, true, false, Option, none, some, Result, ok, err, panic, Text, text_beq, text_beq_iff, text_eq,
  lookup, lookup-insert_self, Bool-cases, Option-cases, ◌≡◌, ◌≢◌, refl, sym, ap, subst, ◌∙◌, inl,
  inr, arith,
}
use bits_broker.RequestId.{Chrono}
use bits_broker.Store.{
  DbError, MemoryStore, PersistentJobRecord, ClaimResult, active, claim_if_owner, memory_job_key,
}
use bits_broker.Store.Claims.{claim_first, claim_moved}
use bits_broker.Runtime.{
  Job, JobTable, pending, queued, submit, insert_job, admit, bypass_limit_already_persisted,
}
use bits_broker.Recovery.{
  Broker, JobData, LeaseLookup, lease_active, missing_or_expired, unknown, lookup_owner_lease,
  slot_from_job_id, claim_loop, claim_with_backoff, restore,
}
use bits_broker.Recovery.Poll.{
  or_else_pending, poll_local, resubmit, after_new_owner, after_claim, claim_and_recover,
  after_lookup, poll_owner, poll,
}

module _ (chrono : Chrono) (Value B S : Type 0) where
  abbrev pub answer_of :
      Result DbError (ClaimResult chrono Value × MemoryStore chrono Value)
      → Result DbError (ClaimResult chrono Value)
  answer_of (ok (r, m)) = ok r
  answer_of (err e) = err e
  answer_of panic = panic

  abbrev pub store_of :
      MemoryStore chrono Value
      → Result DbError (ClaimResult chrono Value × MemoryStore chrono Value)
      → MemoryStore chrono Value
  store_of old (ok (r, m)) = m
  store_of old (err e) = old
  store_of old panic = old

  -- The broker claims in the in-memory store, which its looks for leases leave as it is.
  pub record InMemory (broker : Broker chrono Value B S) : Type 0 where
    pub store : S → MemoryStore chrono Value
    pub claim_answer :
        (id expected claimant : Text) (s : S)
        → (broker.claim_if_owner id expected claimant s).0
          ≡ answer_of (claim_if_owner chrono Value id expected claimant (store s))
    pub claim_store :
        (id expected claimant : Text) (s : S)
        → store (broker.claim_if_owner id expected claimant s).1
          ≡ store_of (store s) (claim_if_owner chrono Value id expected claimant (store s))
    pub lookup_store : (owner : Text) (s : S) → store (broker.get_broker_lease owner s).1 ≡ store s
    pub table_store :
        (t : JobTable B (JobData chrono.Time Value)) (s : S)
        → store (broker.with_table t s) ≡ store s
    pub table_kept :
        (t : JobTable B (JobData chrono.Time Value)) (s : S)
        → broker.table_of (broker.with_table t s) ≡ t

  no_none : {X : Type 0} {x : X} → some x ≢ none
  no_none h = cc

  -- A recovered job is in the table, whether it was there before or not.
  submit-there :
      (id : Text) (job : Job B (JobData chrono.Time Value)) (deadline : ℕ)
      (t : JobTable B (JobData chrono.Time Value))
      → lookup id (submit id job bypass_limit_already_persisted deadline t).1.jobs ≢ none
  unfolding submit admit insert_job
  submit-there id job deadline t = elim (Option-cases (lookup id t.jobs)) [
    | inl e ↦
        rw (e, submit, admit, insert_job) (λ h. no_none (sym (lookup-insert_self id _ t.jobs) ∙ h))
    | inr (old, e) ↦ rw (e, submit, admit, insert_job) (λ h. no_none (sym e ∙ h))
  ]

  module _ (broker : Broker chrono Value B S) (memory : InMemory broker) where
    claims_at_once :
        (id expected : Text) (timeout : Option ℕ) (s : S) {r : _} {m : _}
        → claim_if_owner chrono Value id expected broker.broker_id (memory.store s) ≡ ok (r, m)
        → ((claim_with_backoff chrono Value B S broker id expected timeout s).0 ≡ some (ok r))
          × (memory.store (claim_with_backoff chrono Value B S broker id expected timeout s).1 ≡ m)
    unfolding claim_with_backoff claim_loop
    claims_at_once id expected timeout s {r} {m} e =
        let answer : (broker.claim_if_owner id expected broker.broker_id s).0 ≡ ok r =
          memory.claim_answer id expected broker.broker_id s ∙ ap answer_of e in
        let after : memory.store (broker.claim_if_owner id expected broker.broker_id s).1 ≡ m =
          memory.claim_store id expected broker.broker_id s ∙ ap (store_of (memory.store s)) e in
        (
          rw (claim_with_backoff, claim_loop, answer) refl,
          rw (claim_with_backoff, claim_loop, answer) after,
        )

    lookup-store :
        (owner : Text) (s : S)
        → memory.store (lookup_owner_lease chrono Value B S broker owner s).1 ≡ memory.store s
    unfolding lookup_owner_lease
    lookup-store owner s = elim (Bool-cases broker.has_store) [
      | inl e ↦ simp (lookup_owner_lease, e, memory.lookup_store)
      | inr e ↦ simp (lookup_owner_lease, e)
    ]

    -- The job is not here, and the lease of the broker that its id names is missing or expired.
    pub record Orphan (id hint : Text) (s : S) : Type 0 where
      pub with_store : broker.has_store ≡ true
      pub elsewhere : lookup id (broker.table_of s).jobs ≡ none
      pub named : slot_from_job_id chrono id ≡ ok hint
      pub other : hint ≢ broker.broker_id
      pub gone : (lookup_owner_lease chrono Value B S broker hint s).0 ≡ missing_or_expired

    after_missing :
        (id hint : Text) (timeout : Option ℕ) (found : LeaseLookup chrono Value) (s : S)
        → found ≡ missing_or_expired
        → after_lookup chrono Value B S broker id hint timeout (found, s)
          ≡ claim_and_recover chrono Value B S broker id hint timeout s
    unfolding after_lookup
    after_missing id hint timeout missing_or_expired s h = refl
    after_missing id hint timeout (lease_active lease) s h = cc
    after_missing id hint timeout unknown s h = cc

    with_claim :
        (id hint : Text) (timeout : Option ℕ) (s : S)
        → broker.has_store ≡ true
        → let (answer, s') = claim_with_backoff chrono Value B S broker id hint timeout s in
          claim_and_recover chrono Value B S broker id hint timeout s
          ≡ after_claim chrono Value B S broker id hint timeout answer s'
    unfolding claim_and_recover
    with_claim id hint timeout s h = simp (claim_and_recover, h)

    Orphan-claims :
        (id hint : Text) (timeout : Option ℕ) (s : S)
        → Orphan id hint s
        → let s' = (lookup_owner_lease chrono Value B S broker hint s).1 in
          let (answer, s'') = claim_with_backoff chrono Value B S broker id hint timeout s' in
          poll chrono Value B S broker id timeout s
          ≡ after_claim chrono Value B S broker id hint timeout answer s''
    unfolding poll poll_local poll_owner after_lookup claim_and_recover
    Orphan-claims id hint timeout s o =
        let differs : text_beq hint broker.broker_id ≡ false =
          ground (arith, text_beq_iff hint broker.broker_id, o.other) in
        let found = lookup_owner_lease chrono Value B S broker hint s in
        let to_owner : poll chrono Value B S broker id timeout s
            ≡ after_lookup chrono Value B S broker id hint timeout found =
          simp (poll, poll_local, o.elsewhere, o.named, poll_owner, differs) in
        to_owner
        ∙ after_missing id hint timeout found.0 found.1 o.gone
        ∙ with_claim id hint timeout found.1 o.with_store

    after_dead :
        (id : Text) (timeout : Option ℕ) (found : LeaseLookup chrono Value) (s : S)
        → found ≡ missing_or_expired
        → after_new_owner chrono Value B S broker found id timeout s ≡ (pending id queued, s)
    unfolding after_new_owner
    after_dead id timeout missing_or_expired s h = refl
    after_dead id timeout (lease_active lease) s h = cc
    after_dead id timeout unknown s h = cc

    after_active :
        (id hint : Text) (timeout : Option ℕ) (owner : Text) (s : S)
        → owner ≢ broker.broker_id
        → (lookup_owner_lease chrono Value B S broker owner s).0 ≡ missing_or_expired
        → after_claim chrono Value B S broker id hint timeout (some (ok (active owner))) s
          ≡ (pending id queued, (lookup_owner_lease chrono Value B S broker owner s).1)
    unfolding after_claim
    after_active id hint timeout owner s c dead =
        let differs : text_beq owner broker.broker_id ≡ false =
          ground (arith, text_beq_iff owner broker.broker_id) in
        let found = lookup_owner_lease chrono Value B S broker owner s in
        rw (after_claim, differs) (after_dead id timeout found.0 found.1 dead)

    -- A poll at any broker, when the broker that the id names has lost its lease and another one owns the
    -- record in the in-memory store, whose lease is missing or expired too. The poll answers that the job
    -- is queued, and the record is as it was, so that every later poll in the same situation answers the
    -- same: a job that was taken over once is not taken over again.
    pub poll-stranded :
        (id hint : Text) (timeout : Option ℕ) (s : S) (job : PersistentJobRecord chrono Value)
        {key : Text}
        → Orphan id hint s
        → memory_job_key chrono id ≡ ok key
        → lookup key (memory.store s).jobs ≡ some job
        → job.broker_id ≢ broker.broker_id
        → job.broker_id ≢ hint
        → ((t : S)
            → memory.store t ≡ memory.store s
            → (lookup_owner_lease chrono Value B S broker job.broker_id t).0 ≡ missing_or_expired)
        → ((poll chrono Value B S broker id timeout s).0 ≡ pending id queued)
          × (memory.store (poll chrono Value B S broker id timeout s).1 ≡ memory.store s)
    poll-stranded id hint timeout s job o k l c h dead =
        let s' = (lookup_owner_lease chrono Value B S broker hint s).1 in
        let same = lookup-store hint s in
        let moved =
          claim_moved chrono Value id hint broker.broker_id (memory.store s') job k (rw same l) c
            h in
        let (answer, after) = claims_at_once id hint timeout s' moved in
        let s'' = (claim_with_backoff chrono Value B S broker id hint timeout s').1 in
        let outcome =
          Orphan-claims id hint timeout s o
          ∙ ap (λ a. after_claim chrono Value B S broker id hint timeout a s'') answer
          ∙ after_active id hint timeout job.broker_id s'' c (dead s'' (after ∙ same)) in
        rw outcome (refl, lookup-store job.broker_id s'' ∙ after ∙ same)

    resubmit-store :
        (r : PersistentJobRecord chrono Value) (s : S)
        → memory.store (resubmit chrono Value B S broker r s) ≡ memory.store s
    unfolding resubmit
    resubmit-store r s = memory.table_store _ s

    resubmit-there :
        (r : PersistentJobRecord chrono Value) (s : S)
        → lookup r.job_id (broker.table_of (resubmit chrono Value B S broker r s)).jobs ≢ none
    unfolding resubmit
    resubmit-there r s = rw (memory.table_kept _ s) (
        submit-there r.job_id (restore chrono Value B (broker.instant s) r)
          (broker.first_deadline s) (broker.table_of s))

    -- A poll when the broker that the id names owns the record in the in-memory store, has lost its lease,
    -- and is not this one. Then this broker becomes the owner in the store, the job is in its table, and
    -- the poll ends as a poll of its own jobs does from there.
    pub poll-recovers :
        (id hint : Text) (timeout : Option ℕ) (s : S) (job : PersistentJobRecord chrono Value)
        {key : Text}
        → Orphan id hint s
        → memory_job_key chrono id ≡ ok key
        → lookup key (memory.store s).jobs ≡ some job
        → job.job_id ≡ id
        → job.broker_id ≡ hint
        → (s' : S) × (lookup key (memory.store s').jobs
            ≡ some (record job { broker_id = broker.broker_id }))
          × (lookup id (broker.table_of s').jobs ≢ none)
          × (poll chrono Value B S broker id timeout s
              ≡ or_else_pending chrono Value B S broker id queued
                  (poll_local chrono Value B S broker id timeout s'))
    unfolding after_claim
    poll-recovers id hint timeout s job {key} o k l j h =
        let s' = (lookup_owner_lease chrono Value B S broker hint s).1 in
        let same = lookup-store hint s in
        let mine = record job { broker_id = broker.broker_id } in
        let won =
          claim_first chrono Value id hint broker.broker_id (memory.store s') job k (rw same l) h
            (λ e. o.other (sym e)) in
        let (answer, after) = claims_at_once id hint timeout s' won in
        let s'' = (claim_with_backoff chrono Value B S broker id hint timeout s').1 in
        (
          resubmit chrono Value B S broker mine s'',
          ap (λ m. lookup key m.jobs) (resubmit-store mine s'' ∙ after)
              ∙ lookup-insert_self key mine (memory.store s').jobs,
          subst
              (λ x.
                lookup x (broker.table_of (resubmit chrono Value B S broker mine s'')).jobs ≢ none)
              j (resubmit-there mine s''),
          Orphan-claims id hint timeout s o
              ∙ ap (λ a. after_claim chrono Value B S broker id hint timeout a s'') answer,
        )
