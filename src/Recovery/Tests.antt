-- ===== src/Recovery/Tests.antt =====
-- The theorems of polling across brokers, at a broker whose state is a table, an in-memory store and a
-- clock.
use bits_broker.Prelude.{
  ℕ, ◌+◌, ◌-◌, ◌/◌, true, false, none, some, List, [], ◌∷◌, Result, ok, err, Text, text, text_beq,
  text_beq_iff, text_eq, if◌then◌else◌, lookup, ltb, ◌≡◌, ◌≢◌, refl, arith,
}
use bits_broker.RequestId.{
  decode, decode_packed, unpack_tag, value_char, decode_crockford_base32, from_digits, to_digits,
  decode_places, crockford_value, checked_mul_add,
}
use bits_broker.RequestId.Samples.{unix_nanos, known_vector}
use bits_broker.Store.{
  DbError, backend, backend_failure, MemoryStore, PersistentJobRecord, BrokerLeaseRecord,
  ClaimResult, claim_if_owner, memory_job_key, key_of, display_u16, new_store,
}
use bits_broker.Runtime.{JobTable, pending, queued}
use bits_broker.Recovery.{
  Broker, JobData, Response, lookup_owner_lease, missing_or_expired, slot_from_job_id,
  claim_with_backoff, lease_is_active_with_grace, lease_grace_duration,
}
use bits_broker.Recovery.Poll.{or_else_pending, poll_local, poll}
use bits_broker.Recovery.Backoff.{claim_with_backoff-ends}
use bits_broker.Recovery.Gate.{Unseen, poll-gated}
use bits_broker.Recovery.Takeover.{
  answer_of, store_of, InMemory, Orphan, poll-stranded, poll-recovers,
}

abbrev Table : Type 0
Table = JobTable ℕ (JobData ℕ ℕ)

record World : Type 0 where
  table : Table
  store : MemoryStore unix_nanos ℕ
  clock : ℕ

abbrev me : Text
me = text "bol-dev-9"

abbrev member : Broker unix_nanos ℕ ℕ World
member = record {
  broker_id = me;
  has_store = true;
  internal_poll_timeout = 30;
  table_of = λ s. s.table;
  with_table = λ t s. record s { table = t };
  instant = λ s. s.clock;
  utc = λ s. s.clock;
  sleep = λ n s. record s { clock = s.clock + n };
  wait = λ id timeout job s. (false, job, s);
  schedule_cleanup = λ id s. s;
  first_deadline = λ s. s.clock + 5;
  to_std = λ a b. some (a - b);
  tenth = λ n. n / 10;
  plus = λ t n. t + n;
  is_after = λ a b. ltb b a;
  get_broker_lease = λ owner s. (ok (lookup owner s.store.brokers), s);
  claim_if_owner = λ id expected claimant s.
      let answer = claim_if_owner unix_nanos ℕ id expected claimant s.store in
      (
        answer_of unix_nanos ℕ ℕ World answer,
        record s { store = store_of unix_nanos ℕ ℕ World s.store answer },
      );
  get = λ url timeout s. (none, s);
}

-- The store fails every claim.
abbrev unlucky : Broker unix_nanos ℕ ℕ World
unlucky = record member {
  claim_if_owner = λ id expected claimant s. (err (backend (backend_failure (text "down"))), s);
}

abbrev in_memory : InMemory unix_nanos ℕ ℕ World member
in_memory = record {
  store = λ s. s.store;
  claim_answer = λ id expected claimant s. refl;
  claim_store = λ id expected claimant s. refl;
  lookup_store = λ owner s. refl;
  table_store = λ t s. refl;
  table_kept = λ t s. refl;
}

abbrev start : MemoryStore unix_nanos ℕ → World
start store = record {
  table = record { jobs = []; job_count = 0; max_jobs = 10 };
  store = store;
  clock = 1000;
}

claim_with_backoff-ends_example :
    (result : Result DbError (ClaimResult unix_nanos ℕ)) × ((claim_with_backoff unix_nanos ℕ ℕ World
        unlucky known_vector me none
        (start (new_store unix_nanos ℕ))).0
      ≡ some result)
claim_with_backoff-ends_example =
    claim_with_backoff-ends unix_nanos ℕ ℕ World unlucky (λ id expected claimant s. omega arith)
      (λ n s. omega arith) known_vector me none (start (new_store unix_nanos ℕ))

hint_of : slot_from_job_id unix_nanos known_vector ≡ ok (text "bol-dev-42")
unfolding slot_from_job_id decode decode_packed unpack_tag value_char display_u16
    decode_crockford_base32 from_digits to_digits decode_places crockford_value checked_mul_add
hint_of = refl

-- Broker 42 answers: its lease lasts. The probe for a record changes none.
abbrev careful : Broker unix_nanos ℕ ℕ World
careful = record member {
  claim_if_owner = λ id expected claimant s. elim (text_beq claimant (text "__presence_probe__")) [
    | true ↦ (ok ClaimResult.not_found, s)
    | false ↦ member.claim_if_owner id expected claimant s
  ];
}

careful-Unseen : Unseen unix_nanos ℕ ℕ World (MemoryStore unix_nanos ℕ) careful (λ s. s.store)
careful-Unseen = record {
  by_table = λ t s. refl;
  by_wait = λ id timeout job s. refl;
  by_cleanup = λ id s. refl;
  by_lookup = λ owner s. refl;
  by_get = λ url timeout s. refl;
  by_probe = λ id s. refl;
}

abbrev record_of : Text → PersistentJobRecord unix_nanos ℕ
record_of owner = record {
  job_id = known_vector;
  broker_id = owner;
  original_request = 1;
  user = 2;
  metadata = 3;
  created_at = 0;
}

abbrev hint : Text
hint = text "bol-dev-42"

hint_is_other : hint ≢ me
hint_is_other e = cc ((text_beq_iff hint me).1 e)

abbrev job_key : Text
job_key = text "bol/dev/42/017sg4fag005yaa01a04hmasw9"

abbrev store_with : Text → List (Text × BrokerLeaseRecord unix_nanos ℕ) → MemoryStore unix_nanos ℕ
store_with owner leases = record {
  jobs = (job_key, record_of owner) ∷ [];
  brokers = leases;
  broker_slots = [];
  user_slots = [];
  user_seq = 0;
}

abbrev lease_of : ℕ → BrokerLeaseRecord unix_nanos ℕ
lease_of until = record {
  broker_id = hint;
  internal_poll_base_url = text "http://b42/job/";
  lease_until = until;
  updated_at = 0;
}

live : World
live = start (store_with hint ((hint, lease_of 2000) ∷ []))

has_key : memory_job_key unix_nanos known_vector ≡ ok job_key
unfolding memory_job_key key_of display_u16 decode decode_packed unpack_tag value_char
    decode_crockford_base32 from_digits to_digits decode_places crockford_value checked_mul_add
has_key = refl

hint-live :
    (lookup_owner_lease unix_nanos ℕ ℕ World careful hint
      (poll_local unix_nanos ℕ ℕ World careful known_vector none live).1).0
    ≢ missing_or_expired
unfolding live lookup_owner_lease lookup lease_is_active_with_grace lease_grace_duration poll_local
hint-live = λ h. cc

poll-gated_example : (poll unix_nanos ℕ ℕ World careful known_vector none live).1.store ≡ live.store
poll-gated_example =
    poll-gated unix_nanos ℕ ℕ World careful (λ s. s.store) careful-Unseen known_vector hint none
      live hint_of hint_is_other hint-live

-- Broker 42 is gone; broker 7, which has the record in the first state, is too.
abbrev moved : World
moved = start (store_with (text "bol-dev-7") [])

abbrev orphaned : World
orphaned = start (store_with hint [])

moved-Orphan : Orphan unix_nanos ℕ ℕ World member in_memory known_vector hint moved
unfolding lookup lookup_owner_lease
moved-Orphan = record {
  with_store = refl;
  elsewhere = refl;
  named = hint_of;
  other = hint_is_other;
  gone = refl;
}

orphan : Orphan unix_nanos ℕ ℕ World member in_memory known_vector hint orphaned
unfolding lookup lookup_owner_lease
orphan = record {
  with_store = refl;
  elsewhere = refl;
  named = hint_of;
  other = hint_is_other;
  gone = refl;
}

record_found : lookup job_key orphaned.store.jobs ≡ some (record_of hint)
unfolding lookup
record_found = refl

moved_found : lookup job_key moved.store.jobs ≡ some (record_of (text "bol-dev-7"))
unfolding lookup
moved_found = refl

not_7 : (other : Text) → text_beq (text "bol-dev-7") other ≡ false → text "bol-dev-7" ≢ other
not_7 other h e = cc ((text_beq_iff (text "bol-dev-7") other).1 e)

all_gone :
    (t : World)
    → t.store ≡ moved.store
    → (lookup_owner_lease unix_nanos ℕ ℕ World member (text "bol-dev-7") t).0 ≡ missing_or_expired
unfolding lookup_owner_lease lookup
all_gone t h = rw h refl

poll-stranded_example :
    (poll unix_nanos ℕ ℕ World member known_vector none moved).0 ≡ pending known_vector queued
poll-stranded_example =
    (poll-stranded unix_nanos ℕ ℕ World member in_memory known_vector hint none moved
      (record_of (text "bol-dev-7")) moved-Orphan has_key moved_found (not_7 me refl)
      (not_7 hint refl) all_gone).0

poll-recovers_example :
    (s' : World) × (lookup job_key s'.store.jobs ≡ some (record_of me))
    × (lookup known_vector s'.table.jobs ≢ none)
    × (poll unix_nanos ℕ ℕ World member known_vector none orphaned
        ≡ or_else_pending unix_nanos ℕ ℕ World member known_vector queued
            (poll_local unix_nanos ℕ ℕ World member known_vector none s'))
poll-recovers_example =
    poll-recovers unix_nanos ℕ ℕ World member in_memory known_vector hint none orphaned
      (record_of hint) orphan has_key record_found refl refl

abbrev answer : Response ℕ
answer = record {
  status = 303;
  header = λ name.
      if text_beq name (text "location")
      then some (text "/job/a1?x=2")
      else if text_beq name (text "x-bits-pending-status")
      then some (text "processing")
      else none;
  content_length = none;
  stream = 0;
  body = [];
}
