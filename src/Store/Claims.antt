-- ===== src/Store/Claims.antt =====
-- Brokers that race to reclaim one job: the store's lock puts their claims in some order.
use bits_broker.Prelude.{
  ◌≡◌, ◌≢◌, refl, some, List, [], ◌∷◌, map, Result, ok, ◌>>=◌, Text, text_beq, text_beq_iff,
  text_eq, lookup, insert, lookup-insert_self, if◌then◌else◌, arith,
}
use bits_broker.RequestId.{Chrono}
use bits_broker.Store.{
  DbError, PersistentJobRecord, MemoryStore, ClaimResult, active, claimed, memory_job_key,
  claim_if_owner, claim_record,
}

module _ (chrono : Chrono) (Value : Type 0) where
  -- What the claims of a list of brokers return, one after the other.
  unfoldable pub claim_all :
      Text
      → Text
      → List Text
      → MemoryStore chrono Value
      → Result DbError (List (ClaimResult chrono Value))
  claim_all id expected [] s = ok []
  claim_all id expected (c ∷ cs) s = claim_if_owner chrono Value id expected c s >>= λ (r, s').
      claim_all id expected cs s' >>= λ rs. ok (r ∷ rs)

  -- What a broker is told once `winner` owns the job.
  abbrev pub verdict : Text → PersistentJobRecord chrono Value → Text → ClaimResult chrono Value
  verdict winner job c = if text_beq winner c then claimed job else active winner

  claim_settled :
      (id expected winner c : Text) (s : MemoryStore chrono Value)
      (job : PersistentJobRecord chrono Value) {key : Text}
      → memory_job_key chrono id ≡ ok key
      → lookup key s.jobs ≡ some job
      → job.broker_id ≡ winner
      → winner ≢ expected
      → claim_if_owner chrono Value id expected c s ≡ ok (verdict winner job c, s)
  unfolding claim_if_owner claim_record
  claim_settled id expected winner c s job e l o ne =
      rw (e, l) (ground (arith, text_beq_iff winner expected))

  claim_all_settled :
      (id expected winner : Text) (cs : List Text) (s : MemoryStore chrono Value)
      (job : PersistentJobRecord chrono Value) {key : Text}
      → memory_job_key chrono id ≡ ok key
      → lookup key s.jobs ≡ some job
      → job.broker_id ≡ winner
      → winner ≢ expected
      → claim_all id expected cs s ≡ ok (map (verdict winner job) cs)
  unfolding claim_all
  claim_all_settled id expected winner [] s job e l o ne = refl
  claim_all_settled id expected winner (c ∷ cs) s job e l o ne = rw (
    claim_settled id expected winner c s job e l o ne,
    claim_all_settled id expected winner cs s job e l o ne,
  )

  -- A third broker owns the job: the claim is refused.
  pub claim_moved :
      (id expected claimant : Text) (m : MemoryStore chrono Value)
      (job : PersistentJobRecord chrono Value) {key : Text}
      → memory_job_key chrono id ≡ ok key
      → lookup key m.jobs ≡ some job
      → job.broker_id ≢ claimant
      → job.broker_id ≢ expected
      → claim_if_owner chrono Value id expected claimant m ≡ ok (active job.broker_id, m)
  unfolding claim_if_owner claim_record
  claim_moved id expected claimant m job k l c e =
      rw (k, l)
        (ground (arith, text_beq_iff job.broker_id claimant, text_beq_iff job.broker_id expected))

  pub claim_first :
      (id expected c : Text) (s : MemoryStore chrono Value) (job : PersistentJobRecord chrono Value)
      {key : Text}
      → memory_job_key chrono id ≡ ok key
      → lookup key s.jobs ≡ some job
      → job.broker_id ≡ expected
      → c ≢ expected
      → claim_if_owner chrono Value id expected c s
        ≡ ok (
          claimed (record job { broker_id = c }),
          record s { jobs = insert key (record job { broker_id = c }) s.jobs },
        )
  unfolding claim_if_owner claim_record
  claim_first id expected c s job e l o ne =
      rw (e, l) (ground (arith, text_beq_iff job.broker_id c, text_beq_iff job.broker_id expected))

  -- However many brokers claim a job from an owner that is none of them, the first to reach the
  -- store becomes its owner: its claims are granted, and every other broker is told so.
  pub claim_all_one_winner :
      (id expected c : Text) (cs : List Text) (s : MemoryStore chrono Value)
      (job : PersistentJobRecord chrono Value) {key : Text}
      → memory_job_key chrono id ≡ ok key
      → lookup key s.jobs ≡ some job
      → job.broker_id ≡ expected
      → c ≢ expected
      → claim_all id expected (c ∷ cs) s
        ≡ ok (map (verdict c (record job { broker_id = c })) (c ∷ cs))
  unfolding claim_all
  claim_all_one_winner id expected c cs s job {key} e l o ne =
      rw
        (
          claim_first id expected c s job e l o ne,
          claim_all_settled id expected c cs
              (record s { jobs = insert key (record job { broker_id = c }) s.jobs })
              (record job { broker_id = c }) e (lookup-insert_self key _ s.jobs) refl ne,
        )
        (ground (arith, text_beq_iff c c))
