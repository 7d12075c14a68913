-- ===== src/Recovery/Gate.antt =====
-- No broker touches the record of a job whose owner may be alive.
use bits_broker.Prelude.{
  ℕ, ◌∷◌, ◌++◌, Bool, true, false, Option, none, some, ok, Text, text, text_beq, text_beq_iff,
  text_eq, lookup, if◌then◌else◌, ◌==◌, Bool-cases, Option-cases, ◌≡◌, ◌≢◌, refl, ◌∙◌, inl, inr,
  arith,
}
use bits_broker.RequestId.{Chrono}
use bits_broker.Store.{or_default}
use bits_broker.Runtime.{Job, JobTable, PollOutcome, queued}
use bits_broker.Recovery.{
  Broker, JobData, Response, Lease, LeaseLookup, lease_active, missing_or_expired, unknown,
  lookup_owner_lease, slot_from_job_id,
}
use bits_broker.Recovery.Proxy.{
  drop_slashes, translated, durable_job_present, owner_not_found_outcome, proxy_response,
  try_proxy_with_lease, is_redirect,
}
use bits_broker.Recovery.Poll.{
  JobOf, take_result, or_else_pending, after_wait, poll_local, proxied_or_queued, after_lookup,
  poll_owner, poll,
}

-- What is seen of the store, and that none of the calls changes it but a claim.
pub record Unseen (chrono : Chrono) (Value B S A : Type 0) (broker : Broker chrono Value B S)
    (seen : S → A) : Type 0 where
  pub by_table :
      (t : JobTable B (JobData chrono.Time Value)) (s : S) → seen (broker.with_table t s) ≡ seen s
  pub by_wait :
      (id : Text) (timeout : Option ℕ) (job : Job B (JobData chrono.Time Value)) (s : S)
      → seen (broker.wait id timeout job s).2 ≡ seen s
  pub by_cleanup : (id : Text) (s : S) → seen (broker.schedule_cleanup id s) ≡ seen s
  pub by_lookup : (owner : Text) (s : S) → seen (broker.get_broker_lease owner s).1 ≡ seen s
  pub by_get : (url : Text) (timeout : ℕ) (s : S) → seen (broker.get url timeout s).1 ≡ seen s
  pub by_probe :
      (id : Text) (s : S)
      → seen (broker.claim_if_owner id (text "__never_expected__") (text "__presence_probe__") s).1
        ≡ seen s

module _ {A : Type 0} (chrono : Chrono) (Value B S : Type 0) (broker : Broker chrono Value B S)
    (seen : S → A) (u : Unseen chrono Value B S A broker seen) where
  take_result-seen :
      (id : Text) (job : JobOf chrono Value B S broker) (s : S)
      → seen (take_result chrono Value B S broker id job s).1 ≡ seen s
  unfolding take_result
  take_result-seen id job s = elim (Option-cases job.result) [
    | inl e ↦ simp (take_result, e)
    | inr (r, e) ↦ elim (Bool-cases job.persisted) [
      | inl p ↦ simp (take_result, e, p, u.by_cleanup, u.by_table)
      | inr p ↦ simp (take_result, e, p, u.by_table)
    ]
  ]

  after_wait-seen :
      (id : Text) (notified : Bool) (job : JobOf chrono Value B S broker) (s : S)
      → seen (after_wait chrono Value B S broker id (notified, job, s)).1 ≡ seen s
  unfolding after_wait
  after_wait-seen id true job s =
      or_else-seen (take_result chrono Value B S broker id job s) ∙ take_result-seen id job s
    where
      or_else-seen :
          (p : Option (PollOutcome B) × S)
          → seen (or_else_pending chrono Value B S broker id job.pending_status p).1 ≡ seen p.1
      or_else-seen (none, s') = refl
      or_else-seen (some o, s') = refl
  after_wait-seen id false job s = refl

  poll_local-seen :
      (id : Text) (timeout : Option ℕ) (s : S)
      → seen (poll_local chrono Value B S broker id timeout s).1 ≡ seen s
  unfolding poll_local
  poll_local-seen id timeout s = elim (Option-cases (lookup id (broker.table_of s).jobs)) [
    | inl e ↦ simp (poll_local, e)
    | inr (job, e) ↦
        let after = (take_result chrono Value B S broker id job s).1 in
        let waited = broker.wait id timeout job after in
        elim (Option-cases (take_result chrono Value B S broker id job s).0) [
          | inl t ↦
              rw (poll_local, e, t)
                (after_wait-seen id waited.0 waited.1 waited.2
                  ∙ u.by_wait id timeout job after
                  ∙ take_result-seen id job s)
          | inr (o, t) ↦ rw (poll_local, e, t) (take_result-seen id job s)
        ]
  ]

  lookup_owner_lease-seen :
      (owner : Text) (s : S) → seen (lookup_owner_lease chrono Value B S broker owner s).1 ≡ seen s
  unfolding lookup_owner_lease
  lookup_owner_lease-seen owner s = elim (Bool-cases broker.has_store) [
    | inl e ↦ simp (lookup_owner_lease, e, u.by_lookup)
    | inr e ↦ simp (lookup_owner_lease, e)
  ]

  either-seen :
      (test : Bool) (x y : PollOutcome B × S) {a : A}
      → seen x.1 ≡ a
      → seen y.1 ≡ a
      → seen (if test then x else y).1 ≡ a
  either-seen true x y p q = p
  either-seen false x y p q = q

  missing-seen :
      (id : Text) (s : S) → seen (owner_not_found_outcome chrono Value B S broker id s).1 ≡ seen s
  unfolding owner_not_found_outcome durable_job_present
  missing-seen id s = elim (Bool-cases broker.has_store) [
    | inl e ↦ simp (owner_not_found_outcome, e, u.by_probe)
    | inr e ↦ simp (owner_not_found_outcome, e)
  ]

  proxy_response-seen :
      (id : Text) (r : Response B) (s : S)
      → seen (proxy_response chrono Value B S broker id r s).1 ≡ seen s
  unfolding proxy_response
  proxy_response-seen id r s = either-seen (r.status == 200) _ _ refl (
      either-seen (is_redirect r.status) _ _ refl (
        either-seen (r.status == 404) _ _ (missing-seen id s)
          (either-seen (r.status == 400) _ _ refl (either-seen (r.status == 410) _ _ refl refl))))

  translated-seen :
      (id : Text) (answer : Option (Response B)) (s : S)
      → seen
          (or_else_pending chrono Value B S broker id queued
            (translated chrono Value B S broker id (answer, s))).1
        ≡ seen s
  unfolding translated
  translated-seen id none s = refl
  translated-seen id (some r) s = proxy_response-seen id r s

  proxied-seen :
      (lease : Lease chrono Value B S broker) (id : Text) (timeout : Option ℕ) (s : S)
      → seen (proxied_or_queued chrono Value B S broker lease id timeout s).1 ≡ seen s
  unfolding proxied_or_queued try_proxy_with_lease
  proxied-seen lease id timeout s =
      let url = drop_slashes lease.internal_poll_base_url ++ b'/' ∷ id in
      let budget = or_default timeout broker.internal_poll_timeout in
      translated-seen id (broker.get url budget s).0 (broker.get url budget s).1
      ∙ u.by_get url budget s

  after_lookup-seen :
      (id owner : Text) (timeout : Option ℕ) (found : LeaseLookup chrono Value) (s : S)
      → found ≢ missing_or_expired
      → seen (after_lookup chrono Value B S broker id owner timeout (found, s)).1 ≡ seen s
  unfolding after_lookup
  after_lookup-seen id owner timeout (lease_active lease) s n = proxied-seen lease id timeout s
  after_lookup-seen id owner timeout unknown s n = refl
  after_lookup-seen id owner timeout missing_or_expired s n = absurd (n refl)

  poll_owner-seen :
      (id owner : Text) (timeout : Option ℕ) (s : S)
      → owner ≢ broker.broker_id
      → (lookup_owner_lease chrono Value B S broker owner s).0 ≢ missing_or_expired
      → seen (poll_owner chrono Value B S broker id owner timeout s).1 ≡ seen s
  unfolding poll_owner
  poll_owner-seen id owner timeout s other n =
      let found = lookup_owner_lease chrono Value B S broker owner s in
      let differs : text_beq owner broker.broker_id ≡ false =
        ground (arith, text_beq_iff owner broker.broker_id) in
      rw (poll_owner, differs)
        (after_lookup-seen id owner timeout found.0 found.1 n ∙ lookup_owner_lease-seen owner s)

  -- A poll at a broker that is not the owner which the id of the job names. If the lease of that owner
  -- is active or cannot be looked up after the broker has looked at its own table, the poll changes
  -- nothing of what is seen of the store, whatever the owner answers, provided that only a claim does,
  -- and the probe for a record does not: it takes no job over.
  pub poll-gated :
      (id owner : Text) (timeout : Option ℕ) (s : S)
      → slot_from_job_id chrono id ≡ ok owner
      → owner ≢ broker.broker_id
      → (lookup_owner_lease chrono Value B S broker owner
          (poll_local chrono Value B S broker id timeout s).1).0
        ≢ missing_or_expired
      → seen (poll chrono Value B S broker id timeout s).1 ≡ seen s
  unfolding poll
  poll-gated id owner timeout s e other n =
      let local = poll_local chrono Value B S broker id timeout s in
      elim (Option-cases local.0) [
        | inl none_here ↦
            rw (poll, none_here, e)
              (poll_owner-seen id owner timeout local.1 other n ∙ poll_local-seen id timeout s)
        | inr (outcome, there) ↦ rw (poll, there) (poll_local-seen id timeout s)
      ]
