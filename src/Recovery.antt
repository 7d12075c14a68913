-- ===== src/Recovery.antt =====
-- bits/src/runtime/recovery.rs and `poll` of bits/src/bits.rs: how a broker that does not have a job
-- finds its owner, or takes the job over. Everything that other tasks, brokers and clocks may change is
-- in one state, so that each call that is awaited may change all of it; the broker's own table of jobs
-- is a part of that state. The store, the clocks, the waits and HTTP are parameters.
pub mod Proxy
pub mod Poll
pub mod Backoff
pub mod Gate
pub mod Takeover
pub mod Redirects
mod Tests
use bits_broker.Prelude.{
  ℕ, zero, suc, ◌+◌, ◌-◌, ◌*◌, ◌%◌, ◌^◌, ◌==◌, Bool, true, false, not, ◌&&◌, ◌||◌, Option, none,
  some, List, [], ◌∷◌, ◌++◌, Result, ok, err, panic, ◌>>=◌, Text, text, text_beq, text_eq,
  if◌then◌else◌, leb, ltb, HashMap, lookup,
}
use bits_broker.RequestId.{Chrono, DecodeError, DecodedId, decode}
use bits_broker.Store.{
  DbError, conflict, backend, slot_exhausted, PersistentJobRecord, BrokerLeaseRecord, ClaimResult,
  claimed, active, display_u16, or_default, u64_mod,
}
use bits_broker.Actions.{JobResult, success, redirect, job_error, job_cancelled}
use bits_broker.Runtime.{
  Job, JobTable, PendingStatus, queued, PollOutcome, ready, pending, not_found, job_lost,
  SubmitOutcome, bypass_limit_already_persisted, submit, remove_job,
}
use bits_broker.Runtime.Presence.{from_header}

abbrev pub min : ℕ → ℕ → ℕ
min a b = if leb a b then a else b

-- What a job carries besides its lifecycle. JSON and times are parameters.
pub record JobData (Time Value : Type 0) : Type 0 where
  pub original_request : Value
  pub request : Value
  pub user : Value
  pub created_at : Time
  pub metadata : Value

unfoldable pub restore :
    (chrono : Chrono) (Value B : Type 0)
    → (now : ℕ) → PersistentJobRecord chrono Value
    → Job B (JobData chrono.Time Value)
restore chrono Value B now r = record {
  payload = record {
    original_request = r.original_request;
    request = r.original_request;
    user = r.user;
    created_at = r.created_at;
    metadata = r.metadata;
  };
  is_cancelled = false;
  active_pollers = 0;
  reconnect_deadline = now % u64_mod;
  pending_status = queued;
  persisted = false;
  result = none;
}

unfoldable pub slot_from_job_id : (chrono : Chrono) → Text → Result DecodeError Text
slot_from_job_id chrono job_id = decode chrono job_id >>= λ decoded.
    ok (decoded.site ++ b'-' ∷ decoded.env ++ b'-' ∷ display_u16 decoded.broker_slot)

-- The answer of another broker: `header` has the headers that are text.
pub record Response (B : Type 0) : Type 0 where
  pub status : ℕ
  pub header : Text → Option Text
  pub content_length : Option ℕ
  pub stream : B
  pub body : Text

pub data LeaseLookup (chrono : Chrono) (Value : Type 0) : Type 0 where
  lease_active : BrokerLeaseRecord chrono Value → LeaseLookup chrono Value
  missing_or_expired : LeaseLookup chrono Value
  unknown : LeaseLookup chrono Value

abbrev pub budget_of : Option ℕ → ℕ
budget_of none = 2_000_000_000
budget_of (some timeout) = min timeout 2_000_000_000

abbrev pub attempts : ℕ
attempts = 6

-- What a broker is told and may call. The jobs of the table are those of `jobs_of`; the waits end with
-- whether they were notified, and with the job as it is then.
pub record Broker (chrono : Chrono) (Value B S : Type 0) : Type 0 where
  pub broker_id : Text
  pub has_store : Bool
  pub internal_poll_timeout : ℕ
  pub table_of : S → JobTable B (JobData chrono.Time Value)
  pub with_table : JobTable B (JobData chrono.Time Value) → S → S
  pub instant : S → ℕ
  pub utc : S → chrono.Time
  pub sleep : ℕ → S → S
  pub wait :
      Text
      → Option ℕ
      → Job B (JobData chrono.Time Value)
      → S
      → Bool × Job B (JobData chrono.Time Value) × S
  pub schedule_cleanup : Text → S → S
  pub first_deadline : S → ℕ
  pub to_std : chrono.Time → chrono.Time → Option ℕ
  pub tenth : ℕ → ℕ
  pub plus : chrono.Time → ℕ → chrono.Time
  pub is_after : chrono.Time → chrono.Time → Bool
  pub get_broker_lease : Text → S → Result DbError (Option (BrokerLeaseRecord chrono Value)) × S
  pub claim_if_owner : Text → Text → Text → S → Result DbError (ClaimResult chrono Value) × S
  pub get : Text → ℕ → S → Option (Response B) × S

module _ (chrono : Chrono) (Value B S : Type 0) (broker : Broker chrono Value B S) where
  abbrev pub Lease : Type 0
  Lease = BrokerLeaseRecord chrono Value

  -- Durations are nanoseconds. A lifetime that chrono cannot give as a std duration counts as 0, and
  -- the grace, of at most a second, fits chrono's duration.
  unfoldable pub lease_grace_duration : Lease → ℕ
  lease_grace_duration lease =
      let ttl = or_default (broker.to_std lease.lease_until lease.updated_at) 0 in
      min (broker.tenth ttl) 1_000_000_000

  unfoldable pub lease_is_active_with_grace : Lease → S → Bool
  lease_is_active_with_grace lease s =
      broker.is_after (broker.plus lease.lease_until (lease_grace_duration lease)) (broker.utc s)

  -- The loop, on fuel: `none` is that the fuel is used up.
  unfoldable pub claim_loop :
      ℕ
      → Text
      → Text
      → (deadline delay : ℕ) → S
      → Option (Result DbError (ClaimResult chrono Value)) × S
  claim_loop zero id expected deadline delay s = (none, s)
  claim_loop (suc fuel) id expected deadline delay s =
      let (answer, s') = broker.claim_if_owner id expected broker.broker_id s in
      elim answer [
        | ok result ↦ (some (ok result), s')
        | panic ↦ (some panic, s')
        | err (conflict message) ↦ (some (err (conflict message)), s')
        | err (slot_exhausted site env ceiling) ↦ (some (err (slot_exhausted site env ceiling)), s')
        | err (backend message) ↦
            let now = broker.instant s' in
            let sleep_for = min delay (deadline - now) in
            elim (leb deadline now || sleep_for == 0) [
              | true ↦ (some (err (backend message)), s')
              | false ↦
                  claim_loop fuel id expected deadline (min (delay * 2) 1_000_000_000)
                    (broker.sleep sleep_for s')
            ]
      ]

  -- With as many attempts as the budget allows.
  unfoldable pub claim_with_backoff :
      Text → Text → Option ℕ → S → Option (Result DbError (ClaimResult chrono Value)) × S
  claim_with_backoff id expected timeout s =
      claim_loop attempts id expected (broker.instant s + budget_of timeout) 100_000_000 s

  unfoldable pub lookup_owner_lease : Text → S → LeaseLookup chrono Value × S
  lookup_owner_lease owner s = elim broker.has_store [
    | false ↦ (unknown, s)
    | true ↦ let (answer, s') = broker.get_broker_lease owner s in (lease_found answer s', s')
  ]
    where
      lease_found : Result DbError (Option Lease) → S → LeaseLookup chrono Value
      lease_found (ok none) s = missing_or_expired
      lease_found (ok (some lease)) s =
          if lease_is_active_with_grace lease s then lease_active lease else missing_or_expired
      lease_found (err e) s = unknown
      lease_found panic s = unknown
