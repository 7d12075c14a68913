-- ===== src/Store.antt =====
-- bits/src/db/mod.rs and bits/src/db/memory.rs: the persistence records and the in-memory store.
-- A mutex makes each method one step on the store, so a method is a function of the store. The time
-- that a method reads is an argument. JSON values are a parameter: the store only carries them.
pub mod Keys
pub mod Jobs
pub mod Claims
pub mod Slots
pub mod Users
mod Tests
use bits_broker.Prelude.{
  map_err, text_eq, pair_eq, ℕ, suc, ◌+◌, ◌%◌, ◌/◌, ◌^◌, ◌≡◌, Bool, true, false, not, Option, none,
  some, List, [], ◌∷◌, ◌++◌, map, ltb, ◌==◌, if◌then◌else◌, Result, ok, err, panic, ◌>>=◌, Text,
  text_beq, HashMap, lookup, insert, remove, length,
}
use bits_broker.RequestId.{Chrono, DecodeError, DecodedId, decode, to_digits}

-- The texts of `format!`, as what they are made of.
pub data Message : Type 0 where
  invalid_public_job_id : Text → DecodeError → Message
  backend_failure : Text → Message

pub data DbError : Type 0 where
  conflict : Message → DbError
  backend : Message → DbError
  slot_exhausted : Text → Text → ℕ → DbError  -- site, env, ceiling

unfoldable pub is_retryable : DbError → Bool
is_retryable (slot_exhausted site env ceiling) = false
is_retryable _ = true

abbrev pub u64_mod : ℕ
u64_mod = 2 ^ 64

-- `{}` of a u16: five digits without the leading zeros.
drop_zeros : List ℕ → Text
drop_zeros [] = []
drop_zeros (d ∷ []) = (b'0' + d) ∷ []
drop_zeros (d ∷ e ∷ ds) =
    let rest = drop_zeros (e ∷ ds) in if d == 0 then rest else map (λ c. b'0' + c) (d ∷ e ∷ ds)

unfoldable pub display_u16 : ℕ → Text
unfolding drop_zeros to_digits
display_u16 n = drop_zeros (to_digits 10 5 n)

-- `unwrap_or`, and what `entry(k).or_insert(v)` holds.
abbrev pub or_default : {V : Type 0} → Option V → V → V
or_default none v = v
or_default (some w) v = w

module _ (chrono : Chrono) where
  unfoldable pub key_of : Text → DecodedId chrono → Text
  key_of job_id decoded =
      decoded.site
      ++ (b'/' ∷ decoded.env ++ (b'/' ∷ display_u16 decoded.broker_slot ++ (b'/' ∷ job_id)))

  unfoldable pub memory_job_key : Text → Result DbError Text
  memory_job_key job_id =
      map_err (λ e. backend (invalid_public_job_id job_id e)) (decode chrono job_id) >>= λ decoded.
      ok (key_of job_id decoded)

module _ (chrono : Chrono) (Value : Type 0) where
  open chrono use {Time, is_before, add_seconds, add_std}

  pub record PersistentJobRecord : Type 0 where
    pub job_id : Text
    pub broker_id : Text
    pub original_request : Value
    pub user : Value
    pub metadata : Value
    pub created_at : Time

  pub record BrokerLeaseRecord : Type 0 where
    pub broker_id : Text
    pub internal_poll_base_url : Text
    pub lease_until : Time
    pub updated_at : Time

  pub record UserLimitEntry : Type 0 where
    pub scope : Text
    pub user : Text
    pub job_id : Text
    pub owner_broker_id : Text
    pub seq : ℕ
    pub created_at : Time

  pub data ClaimResult : Type 0 where
    not_found : ClaimResult
    active : Text → ClaimResult
    claimed : PersistentJobRecord → ClaimResult

  pub record MemoryStore : Type 0 where
    pub jobs : HashMap Text PersistentJobRecord
    pub brokers : HashMap Text BrokerLeaseRecord
    pub broker_slots : HashMap (Text × Text) ℕ
    pub user_slots : HashMap (Text × Text) (HashMap Text UserLimitEntry)
    pub user_seq : ℕ  -- AtomicU64

  unfoldable pub new_store : MemoryStore
  new_store = record { jobs = []; brokers = []; broker_slots = []; user_slots = []; user_seq = 0 }

  unfoldable pub upsert_job : PersistentJobRecord → MemoryStore → Result DbError MemoryStore
  upsert_job job s =
      memory_job_key chrono job.job_id >>= λ key. ok (record s { jobs = insert key job s.jobs })

  unfoldable pub delete_job : Text → MemoryStore → Result DbError MemoryStore
  delete_job job_id s =
      memory_job_key chrono job_id >>= λ key. ok (record s { jobs = remove key s.jobs })

  claim_record :
      Text → Text → Text → MemoryStore → Option PersistentJobRecord → ClaimResult × MemoryStore
  claim_record key expected claimant s none = (not_found, s)
  claim_record key expected claimant s (some job) =
      if text_beq job.broker_id claimant
      then (claimed job, s)
      else if text_beq job.broker_id expected
      then (
        claimed (record job { broker_id = claimant }),
        record s { jobs = insert key (record job { broker_id = claimant }) s.jobs },
      )
      else (active job.broker_id, s)

  unfoldable pub claim_if_owner :
      Text → Text → Text → MemoryStore → Result DbError (ClaimResult × MemoryStore)
  unfolding claim_record
  claim_if_owner job_id expected claimant s = memory_job_key chrono job_id >>= λ key.
      ok (claim_record key expected claimant s (lookup key s.jobs))

  -- `ttl` is a std duration; one that chrono cannot hold counts as 60 seconds.
  lease_end : Time → ℕ → Time
  lease_end now ttl = elim (add_std now ttl) [ none ↦ add_seconds now 60 | some end ↦ end ]

  unfoldable pub upsert_broker_lease : Time → Text → Text → ℕ → MemoryStore → MemoryStore
  unfolding lease_end
  upsert_broker_lease now broker_id url ttl s = record s {
    brokers = insert broker_id lease s.brokers;
  }
    where
      lease : BrokerLeaseRecord
      lease = record {
        broker_id = broker_id;
        internal_poll_base_url = url;
        lease_until = lease_end now ttl;
        updated_at = now;
      }

  unfoldable pub get_broker_lease : Text → MemoryStore → Option BrokerLeaseRecord
  get_broker_lease broker_id s = lookup broker_id s.brokers

  unfoldable pub delete_broker_lease : Text → MemoryStore → MemoryStore
  delete_broker_lease broker_id s = record s { brokers = remove broker_id s.brokers }

  -- The counter is created at 0, also where the allocation is refused.
  unfoldable pub allocate_memory_broker_slot :
      Text → Text → MemoryStore → Result DbError ℕ × MemoryStore
  allocate_memory_broker_slot site env s =
      let next_slot = or_default (lookup (site, env) s.broker_slots) 0 in
      if ltb 65535 next_slot
      then (
        err (slot_exhausted site env 65535),
        record s { broker_slots = insert (site, env) next_slot s.broker_slots },
      )
      else (
        ok (next_slot % 65536),
        record s { broker_slots = insert (site, env) (suc next_slot) s.broker_slots },
      )
