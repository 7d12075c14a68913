-- ===== src/Store/Tests.antt =====
-- The theorems of the store at concrete inputs: two jobs, two brokers, one user.
use bits_broker.Prelude.{
  ℕ, ◌+◌, ◌≡◌, refl, some, none, [], ◌∷◌, ok, ◌>>=◌, Text, lookup, text_eq, pair_eq, text_beq_iff,
}
use bits_broker.RequestId.{
  decode, unpack_tag, value_char, decode_crockford_base32, from_digits, to_digits, decode_places,
  crockford_value, checked_mul_add, decode_packed,
}
use bits_broker.RequestId.Samples.{unix_nanos, known_vector}
use bits_broker.Store.{
  PersistentJobRecord, BrokerLeaseRecord, UserLimitEntry, MemoryStore, claimed, active, new_store,
  memory_job_key, claim_if_owner, display_u16, key_of,
}
use bits_broker.Store.Keys.{memory_job_key_injective}
use bits_broker.Store.Jobs.{view, claim, claim_if_owner-refines}
use bits_broker.Store.Claims.{claim_all, claim_all_one_winner}
use bits_broker.Store.Users.{
  reclaim_user_slots_memory, retain_buckets, retain_entries, live_owners, contains, is_empty,
}
use bits_broker.Store.Users.Laws.{entry_of, SeqBounded}

abbrev broker : ℕ → Text
broker n = b'b' ∷ (b'0' + n) ∷ []

abbrev Value : Type 0
Value = ℕ

abbrev job : PersistentJobRecord unix_nanos Value
job = record {
  job_id = known_vector;
  broker_id = broker 1;
  original_request = 0;
  user = 1;
  metadata = 2;
  created_at = 0;
}

-- "bol/dev/42/017sg4fag005yaa01a04hmasw9"
abbrev job_key : Text
job_key = b'b' ∷ b'o' ∷ b'l' ∷ b'/' ∷ b'd' ∷ b'e' ∷ b'v' ∷ b'/' ∷ b'4' ∷ b'2' ∷ b'/' ∷ known_vector

job_has_key : memory_job_key unix_nanos known_vector ≡ ok job_key
unfolding memory_job_key key_of display_u16 decode decode_packed unpack_tag value_char
    decode_crockford_base32 from_digits to_digits decode_places crockford_value checked_mul_add
job_has_key = refl

abbrev with_job : MemoryStore unix_nanos Value
with_job = record {
  jobs = (job_key, job) ∷ [];
  brokers = [];
  broker_slots = [];
  user_slots = [];
  user_seq = 0;
}

job_found : lookup job_key with_job.jobs ≡ some job
unfolding lookup
job_found = refl

claim_if_owner-refines_example :
    (claim_if_owner unix_nanos Value known_vector (broker 1) (broker 2) with_job >>= λ (r, s').
    ok (r, view unix_nanos Value s'))
    ≡ (memory_job_key unix_nanos known_vector >>= λ _. ok (
        claim unix_nanos Value known_vector
          (broker 1)
          (broker 2)
          (view unix_nanos Value with_job)
          (view unix_nanos Value with_job known_vector)))
claim_if_owner-refines_example =
    claim_if_owner-refines unix_nanos Value known_vector (broker 1) (broker 2) with_job

claim_all_one_winner_example :
    claim_all unix_nanos Value known_vector
      (broker 1)
      (broker 2 ∷ broker 3 ∷ broker 2 ∷ [])
      with_job
    ≡ ok (
        claimed (record job { broker_id = broker 2 })
        ∷ active (broker 2)
        ∷ claimed (record job { broker_id = broker 2 })
        ∷ [])
claim_all_one_winner_example =
    claim_all_one_winner unix_nanos Value known_vector (broker 1) (broker 2)
      (broker 3 ∷ broker 2 ∷ []) with_job job job_has_key job_found refl
      (λ e. cc ((text_beq_iff (broker 2) (broker 1)).1 e))

memory_job_key_injective_example : known_vector ≡ known_vector
memory_job_key_injective_example =
    memory_job_key_injective unix_nanos known_vector known_vector job_has_key job_has_key

-- User slots: two jobs of one user, held by two brokers of which the second is gone.
abbrev entry : ℕ → ℕ → UserLimitEntry unix_nanos Value
entry n owner = record {
  scope = broker 7;
  user = broker 8;
  job_id = broker n;
  owner_broker_id = broker owner;
  seq = n;
  created_at = 0;
}

abbrev lease : BrokerLeaseRecord unix_nanos Value
lease = record {
  broker_id = broker 1;
  internal_poll_base_url = [];
  lease_until = 100;
  updated_at = 0;
}

abbrev with_slots : MemoryStore unix_nanos Value
with_slots = record {
  jobs = [];
  brokers = (broker 1, lease) ∷ [];
  broker_slots = [];
  user_slots = ((broker 7, broker 8), (broker 1, entry 1 1) ∷ (broker 2, entry 2 2) ∷ []) ∷ [];
  user_seq = 2;
}

slot_held : entry_of unix_nanos Value (broker 7) (broker 8) (broker 2) with_slots ≡ some (entry 2 2)
unfolding entry_of lookup
slot_held = refl

slot_free : entry_of unix_nanos Value (broker 7) (broker 8) (broker 3) with_slots ≡ none
unfolding entry_of lookup
slot_free = refl

no_slots_bounded : SeqBounded unix_nanos Value (new_store unix_nanos Value)
unfolding entry_of lookup new_store
no_slots_bounded scope user job_id e h = cc

-- The run of that reclaim: one entry goes.
reclaim_runs : (reclaim_user_slots_memory unix_nanos Value 50 with_slots).0 ≡ 1
unfolding reclaim_user_slots_memory retain_buckets retain_entries live_owners contains is_empty
reclaim_runs = refl
