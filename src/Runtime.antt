-- ===== src/Runtime.antt =====
-- bits/src/runtime/submission.rs, bits/src/runtime/runner.rs and the local half of bits/src/bits.rs:
-- the table of jobs of a broker, its limit, running a job, and polling for its result.
-- The steps of an operation that other threads can come between are functions of their own.
pub mod Table
pub mod Limit
pub mod Poll
pub mod Run
pub mod Presence
mod Tests
use bits_broker.Prelude.{
  ℕ, suc, ◌+◌, ◌-◌, ◌%◌, ◌^◌, Bool, true, false, not, Option, none, some, List, [], ◌∷◌, Result, ok,
  err, panic, Text, if◌then◌else◌, leb, ltb, ◌||◌, HashMap, lookup, insert, remove, text_eq,
}
use bits_broker.Actions.{
  ActionError, cancelled, client_gone, queue_full, user_limit_exceeded, JobResult, job_error,
  failed, overloaded, rate_limited, job_cancelled, job_client_gone, is_deliverable, TargetResult,
  complete, target_reject,
}
use bits_broker.Store.{u64_mod}

pub data PendingStatus : Type 0 where
  queued : PendingStatus
  processing : PendingStatus

-- The lifecycle of a submitted job; what actions read of it is a parameter. Times are nanoseconds.
pub record Job (B Payload : Type 0) : Type 0 where
  pub payload : Payload
  pub is_cancelled : Bool
  pub active_pollers : ℕ
  pub reconnect_deadline : ℕ
  pub pending_status : PendingStatus
  pub persisted : Bool
  pub result : Option (JobResult B)

pub data SubmissionAdmission : Type 0 where
  enforce_limit : SubmissionAdmission
  bypass_limit_already_persisted : SubmissionAdmission

pub data SubmitOutcome : Type 0 where
  accepted : Text → SubmitOutcome
  submit_overloaded : SubmitOutcome

pub data PollOutcome (B : Type 0) : Type 0 where
  ready : JobResult B → PollOutcome B
  pending : Text → PendingStatus → PollOutcome B
  not_found : PollOutcome B
  job_lost : PollOutcome B

-- `jobs`, `job_count` (AtomicUsize) and `max_jobs` of the context.
pub record JobTable (B Payload : Type 0) : Type 0 where
  pub jobs : HashMap Text (Job B Payload)
  pub job_count : ℕ
  pub max_jobs : ℕ

-- "internal server error"
abbrev pub internal_server_error : Text
internal_server_error =
    b'i' ∷ b'n' ∷ b't' ∷ b'e' ∷ b'r' ∷ b'n' ∷ b'a' ∷ b'l' ∷ b' ' ∷ b's' ∷ b'e' ∷ b'r' ∷ b'v' ∷ b'e'
    ∷ b'r' ∷ b' ' ∷ b'e' ∷ b'r' ∷ b'r' ∷ b'o' ∷ b'r' ∷ []

-- What becomes of the router's answer; a panic is caught.
unfoldable pub job_result_of : {B : Type 0} → Result ActionError (TargetResult B) → JobResult B
job_result_of (ok (complete result)) = result
job_result_of (ok (target_reject reason silent)) = job_error reason
job_result_of (err cancelled) = job_cancelled
job_result_of (err client_gone) = job_client_gone
job_result_of (err (queue_full reason)) = overloaded reason
job_result_of (err (user_limit_exceeded reason)) = rate_limited reason
job_result_of (err _) = failed internal_server_error
job_result_of panic = failed internal_server_error

has_result : {B : Type 0} → Option (JobResult B) → Bool
has_result none = false
has_result (some result) = true

module _ {B Payload : Type 0} where
  unfoldable pub client_present : ℕ → Job B Payload → Bool
  client_present now job = ltb 0 job.active_pollers || ltb now job.reconnect_deadline

  -- The loop of compare-exchanges, or the plain addition: the count goes up, or the job is refused.
  unfoldable pub admit : SubmissionAdmission → JobTable B Payload → Option (JobTable B Payload)
  admit enforce_limit t =
      if leb t.max_jobs t.job_count
      then none
      else some (record t { job_count = (t.job_count + 1) % u64_mod })
  admit bypass_limit_already_persisted t =
      some (record t { job_count = (t.job_count + 1) % u64_mod })

  -- The entry of the job: a second job of the same id gives its count back.
  unfoldable pub insert_job : Text → Job B Payload → JobTable B Payload → Bool × JobTable B Payload
  insert_job id job t = elim (lookup id t.jobs) [
    | none ↦ (true, record t { jobs = insert id job t.jobs })
    | some old ↦ (false, record t { job_count = (t.job_count + (u64_mod - 1)) % u64_mod })
  ]

  -- For an id that decodes; another one is replaced by a new id first. `deadline` is the time at
  -- which a client that never polls counts as gone. The job is then run by a task of its own.
  unfoldable pub submit :
      Text
      → Job B Payload
      → SubmissionAdmission
      → ℕ
      → JobTable B Payload
      → SubmitOutcome × JobTable B Payload
  submit id job admission deadline t = elim (admit admission t) [
    | none ↦ (submit_overloaded, t)
    | some t' ↦
        let (fresh, t'') =
          insert_job id (record job { reconnect_deadline = deadline % u64_mod }) t' in
        (if fresh then accepted id else submit_overloaded, t'')
  ]

  -- `jobs.remove`: whether the job was there.
  unfoldable pub take_out : Text → JobTable B Payload → Bool × JobTable B Payload
  take_out id t = elim (lookup id t.jobs) [
    | none ↦ (false, t)
    | some job ↦ (true, record t { jobs = remove id t.jobs })
  ]

  -- `checked_sub`: a count of 0 stays.
  unfoldable pub release_count : JobTable B Payload → JobTable B Payload
  release_count t = record t { job_count = t.job_count - 1 }

  unfoldable pub remove_job : Text → JobTable B Payload → JobTable B Payload
  remove_job id t = let (there, t') = take_out id t in if there then release_count t' else t'

  unfoldable pub request_cancel : Job B Payload → Job B Payload
  request_cancel job = record job { is_cancelled = true }

  unfoldable pub cancel : Text → JobTable B Payload → Bool × JobTable B Payload
  cancel id t = elim (lookup id t.jobs) [
    | none ↦ (false, t)
    | some job ↦ (true, record t { jobs = insert id (request_cancel job) t.jobs })
  ]

  -- The task of a job stores its result.
  unfoldable pub finish : Text → JobResult B → JobTable B Payload → JobTable B Payload
  finish id result t = elim (lookup id t.jobs) [
    | none ↦ t
    | some job ↦ record t { jobs = insert id (record job { result = some result }) t.jobs }
  ]

  -- A look of `poll_local`, before or after its wait: the result is taken and the job removed. `none`
  -- is a job that this broker does not have.
  unfoldable pub poll_look : Text → JobTable B Payload → Option (PollOutcome B) × JobTable B Payload
  poll_look id t = elim (lookup id t.jobs) [
    | none ↦ (none, t)
    | some job ↦ elim job.result [
      | some result ↦ (some (ready result), remove_job id t)
      | none ↦ (some (pending id job.pending_status), t)
    ]
  ]

  -- A look of `poll_submit`: a result with a payload stays, another one is taken.
  unfoldable pub poll_submit_look : Text → JobTable B Payload → PollOutcome B × JobTable B Payload
  poll_submit_look id t = elim (lookup id t.jobs) [
    | none ↦ (not_found, t)
    | some job ↦ elim job.result [
      | some result ↦
          if is_deliverable result
          then (pending id job.pending_status, t)
          else (ready result, remove_job id t)
      | none ↦ (pending id job.pending_status, t)
    ]
  ]

  -- `remove_if` of the sweeper, for a job that it found expired: it looks again.
  unfoldable pub sweep_one : ℕ → Text → JobTable B Payload → JobTable B Payload
  unfolding has_result
  sweep_one now id t = elim (lookup id t.jobs) [
    | none ↦ t
    | some job ↦
        if has_result job.result then (if client_present now job then t else remove_job id t) else t
  ]
