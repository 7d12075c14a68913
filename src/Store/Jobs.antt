-- ===== src/Store/Jobs.antt =====
-- The job records seen as a map from job ids, which the methods of `JobStore` update one at a time.
use mathlib.Core.Path.{fun_ext}
use bits_broker.Prelude.{
  ◌≢◌, ◌≡◌, refl, sym, ap, ◌∙◌, Option, none, some, false, Bool-cases, inl, inr, Result, ok, err,
  panic, ◌>>=◌, Result-cases, Text, text_beq, text_beq_iff, text_eq, lookup, insert, remove,
  lookup-insert, lookup-remove, if◌then◌else◌, arith,
}
use bits_broker.RequestId.{Chrono}
use bits_broker.Store.{
  DbError, PersistentJobRecord, MemoryStore, ClaimResult, not_found, active, claimed,
  memory_job_key, upsert_job, delete_job, claim_if_owner, claim_record,
}
use bits_broker.Store.Keys.{memory_job_key_injective}

module _ (chrono : Chrono) (Value : Type 0) where
  abbrev pub Job : Type 0
  Job = PersistentJobRecord chrono Value

  -- The abstract state: at most one record for each job id.
  abbrev pub JobMap : Type 0
  JobMap = Text → Option Job

  abbrev at_key : Result DbError Text → MemoryStore chrono Value → Option Job
  at_key (ok key) s = lookup key s.jobs
  at_key (err e) s = none
  at_key panic s = none

  unfoldable pub view : MemoryStore chrono Value → JobMap
  view s id = at_key (memory_job_key chrono id) s

  abbrev pub put : Text → Job → JobMap → JobMap
  put id job m j = if text_beq id j then some job else m j

  abbrev pub forget : Text → JobMap → JobMap
  forget id m j = if text_beq id j then none else m j

  -- The contract of `claim_if_owner`, on the record that the map holds.
  abbrev pub claim : Text → Text → Text → JobMap → Option Job → ClaimResult chrono Value × JobMap
  claim id expected claimant m none = (not_found, m)
  claim id expected claimant m (some job) =
      if text_beq job.broker_id claimant
      then (claimed job, m)
      else if text_beq job.broker_id expected
      then (
        claimed (record job { broker_id = claimant }),
        put id (record job { broker_id = claimant }) m,
      )
      else (active job.broker_id, m)

  same_test : (a b c d : Text) → (a ≡ b → c ≡ d) → (c ≡ d → a ≡ b) → text_beq a b ≡ text_beq c d
  same_test a b c d to from = ground (arith, text_beq_iff a b, text_beq_iff c d)

  key_test :
      (i j : Text) {k l : Text}
      → memory_job_key chrono i ≡ ok k
      → memory_job_key chrono j ≡ ok l
      → text_beq k l ≡ text_beq i j
  key_test i j {k} {l} p q =
      same_test k l i j (λ e. memory_job_key_injective chrono i j p (rw e q))
        (λ e. cc (ap (memory_job_key chrono) e))

  -- An id with no key is no id that has one.
  other_id :
      (i j : Text) {k : Text} {r : Result DbError Text}
      → memory_job_key chrono i ≡ ok k
      → memory_job_key chrono j ≡ r
      → r ≢ ok k
      → text_beq i j ≡ false
  other_id i j p q h = elim (Bool-cases (text_beq i j)) [
    | inl same ↦
        absurd (h (sym q ∙ ap (memory_job_key chrono) (sym ((text_beq_iff i j).0 same)) ∙ p))
    | inr differs ↦ differs
  ]

  view-insert :
      (id : Text) (job : Job) (s : MemoryStore chrono Value) {key : Text}
      → memory_job_key chrono id ≡ ok key
      → view (record s { jobs = insert key job s.jobs }) ≡ put id job (view s)
  unfolding view
  view-insert id job s {key} e = fun_ext λ j. elim (Result-cases (memory_job_key chrono j)) [
    | inl (l, f) ↦ rw (f, lookup-insert key l job s.jobs, key_test id j e f)
    | inr (inl (x, f)) ↦ rw (f, other_id id j e f (λ c. cc))
    | inr (inr f) ↦ rw (f, other_id id j e f (λ c. cc))
  ]

  view-remove :
      (id : Text) (s : MemoryStore chrono Value) {key : Text}
      → memory_job_key chrono id ≡ ok key
      → view (record s { jobs = remove key s.jobs }) ≡ forget id (view s)
  unfolding view
  view-remove id s {key} e = fun_ext λ j. elim (Result-cases (memory_job_key chrono j)) [
    | inl (l, f) ↦ rw (f, lookup-remove key l s.jobs, key_test id j e f)
    | inr (inl (x, f)) ↦ rw (f, other_id id j e f (λ c. cc))
    | inr (inr f) ↦ rw (f, other_id id j e f (λ c. cc))
  ]

  -- `upsert_job` of a record whose id has a key sets the record of that id and no other; of any
  -- other record it fails with the error of the key.
  pub upsert_job-refines :
      (job : Job) (s : MemoryStore chrono Value)
      → (upsert_job chrono Value job s >>= λ s'. ok (view s'))
        ≡ (memory_job_key chrono job.job_id >>= λ _. ok (put job.job_id job (view s)))
  unfolding upsert_job
  upsert_job-refines job s = elim (Result-cases (memory_job_key chrono job.job_id)) [
    | inl (key, e) ↦ rw e (ap ok (view-insert job.job_id job s e))
    | inr (inl (x, e)) ↦ rw e
    | inr (inr e) ↦ rw e
  ]

  -- `delete_job` of an id that has a key forgets the record of that id and no other.
  pub delete_job-refines :
      (id : Text) (s : MemoryStore chrono Value)
      → (delete_job chrono Value id s >>= λ s'. ok (view s'))
        ≡ (memory_job_key chrono id >>= λ _. ok (forget id (view s)))
  unfolding delete_job
  delete_job-refines id s = elim (Result-cases (memory_job_key chrono id)) [
    | inl (key, e) ↦ rw e (ap ok (view-remove id s e))
    | inr (inl (x, e)) ↦ rw e
    | inr (inr e) ↦ rw e
  ]

  claim_record-refines :
      (id key expected claimant : Text) (s : MemoryStore chrono Value) (found : Option Job)
      → memory_job_key chrono id ≡ ok key
      → (let (r, s') = claim_record chrono Value key expected claimant s found in (r, view s'))
        ≡ claim id expected claimant (view s) found
  unfolding claim_record
  claim_record-refines id key expected claimant s none e = refl
  claim_record-refines id key expected claimant s (some job) e =
      ground (arith, view-insert id (record job { broker_id = claimant }) s e)

  -- `claim_if_owner` of an id that has a key answers and acts as the contract says.
  pub claim_if_owner-refines :
      (id expected claimant : Text) (s : MemoryStore chrono Value)
      → (claim_if_owner chrono Value id expected claimant s >>= λ (r, s'). ok (r, view s'))
        ≡ (memory_job_key chrono id >>= λ _. ok (claim id expected claimant (view s) (view s id)))
  unfolding claim_if_owner view
  claim_if_owner-refines id expected claimant s = elim (Result-cases (memory_job_key chrono id)) [
    | inl (key, e) ↦ rw e (ap ok (claim_record-refines id key expected claimant s _ e))
    | inr (inl (x, e)) ↦ rw e
    | inr (inr e) ↦ rw e
  ]
