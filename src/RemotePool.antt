-- ===== src/RemotePool.antt =====
-- bits/src/dispatcher/executor/remote_pool.rs: workers that fetch jobs over HTTP, keep them alive by
-- heartbeats, and post what came out. Each handler that has no wait is a function of the state; the
-- long poll of `handle_get_work` is cut where other tasks may come between. Instants are
-- nanoseconds. The HTTP requests are read by axum, which is not modelled.
pub mod Steps
pub mod Owner
pub mod Simulates
pub mod Outcomes
mod Tests
use bits_broker.Prelude.{
  ℕ, ◌-◌, ◌^◌, ◌/◌, Bool, true, false, Option, none, some, List, [], ◌∷◌, Result, ok, err, Text,
  text, text_eq, if◌then◌else◌, ltb, HashMap, lookup, insert, remove,
}
use bits_broker.Actions.{
  ActionError, resource_error, DispatchGuard, TargetResult, complete, target_reject, success,
  redirect, job_error,
}
use bits_broker.Dispatcher.{guard_error}
use bits_broker.Dispatcher.Steps.{at}
use bits_broker.Store.{u64_mod}

pub data StatusCode : Type 0 where
  status_ok : StatusCode
  no_content : StatusCode
  status_not_found : StatusCode

pub data WorkerOutcome (B : Type 0) : Type 0 where
  outcome_complete : (content_type : Text) (size : ℕ) (stream : B) → WorkerOutcome B
  outcome_redirect :
      (location message : Text) (content_type : Option Text) (content_length : Option ℕ)
      → WorkerOutcome B
  outcome_reject : (reason : Text) → WorkerOutcome B
  outcome_error : (message : Text) → WorkerOutcome B

pub record InProgressJob : Type 0 where
  pub last_heartbeat : ℕ

-- The channel of a job's outcome: its sender stands in `in_progress`, and its receiver is the task
-- that answers the caller.
pub data Outcome (B : Type 0) : Type 0 where
  no_channel : Outcome B
  awaited : Outcome B
  sent : WorkerOutcome B → Outcome B
  sender_dropped : Outcome B

pub record RemotePool (B : Type 0) : Type 0 where
  pub in_progress : HashMap Text InProgressJob
  pub outcome : Text → Outcome B

pub record RedirectRequest : Type 0 where
  pub location : Text
  pub message : Text
  pub content_type : Option Text
  pub content_length : Option ℕ

abbrev pub heartbeat_lost : ActionError
heartbeat_lost = resource_error (text "worker heartbeat timeout or disconnect")

-- The answer to the caller; no outcome is a sender that was dropped.
unfoldable pub outcome_result :
    {B : Type 0} → Option (WorkerOutcome B) → Result ActionError (TargetResult B)
outcome_result (some (outcome_complete content_type size stream)) =
    ok (complete (success content_type size stream))
outcome_result (some (outcome_redirect location message content_type content_length)) =
    ok (complete (redirect location message content_type content_length))
outcome_result (some (outcome_reject reason)) = ok (target_reject reason true)
outcome_result (some (outcome_error message)) = ok (complete (job_error message))
outcome_result none = err heartbeat_lost

-- What the handler of a poll does with an item that it took from the pending map.
pub data Verdict : Type 0 where
  drops_item : Verdict
  answers_error : ActionError → Verdict
  hands_out : Verdict

unfoldable pub guard_verdict :
    DispatchGuard → (reply_closed is_cancelled client_present : Bool) → Verdict
guard_verdict guard true is_cancelled client_present = drops_item
guard_verdict guard false is_cancelled client_present =
    elim (guard_error guard is_cancelled client_present) [
      | some error ↦ answers_error error
      | none ↦ hands_out
    ]

-- A content length that is not a number from 0 on is -1. `parse` is that of i64, whose negative
-- numbers are the words from 2 ^ 63 on; a header that is not text is `some none`.
unfoldable pub size_of_header : (parse : Text → Option ℕ) → Option (Option Text) → ℕ
size_of_header parse none = u64_mod - 1
size_of_header parse (some none) = u64_mod - 1
size_of_header parse (some (some value)) = elim (parse value) [
  | none ↦ u64_mod - 1
  | some n ↦ if ltb n (2 ^ 63) then n else u64_mod - 1
]

unfoldable pub type_of_header : Option (Option Text) → Text
type_of_header (some (some value)) = value
type_of_header _ = text "application/octet-stream"

unfoldable pub is_alive : (heartbeat_timeout now : ℕ) → InProgressJob → Bool
is_alive heartbeat_timeout now entry = ltb (now - entry.last_heartbeat) heartbeat_timeout

module _ {B : Type 0} where
  -- The sender of an entry that leaves the map is used or dropped.
  unfoldable pub settle : Text → Outcome B → RemotePool B → RemotePool B
  settle id outcome p = record p {
    in_progress = remove id p.in_progress;
    outcome = at id outcome p.outcome;
  }

  -- The rest of a poll that hands the job out. The old entry of the same id would be dropped.
  unfoldable pub start_work : Text → (now : ℕ) → RemotePool B → RemotePool B
  start_work id now p = record p {
    in_progress = insert id (record { last_heartbeat = now }) p.in_progress;
    outcome = at id awaited p.outcome;
  }

  unfoldable pub handle_heartbeat : Text → (now : ℕ) → RemotePool B → StatusCode × RemotePool B
  handle_heartbeat id now p = elim (lookup id p.in_progress) [
    | none ↦ (status_not_found, p)
    | some entry ↦ (
      status_ok,
      record p { in_progress = insert id (record entry { last_heartbeat = now }) p.in_progress },
    )
  ]

  -- What the four handlers of completions do.
  unfoldable pub handle_complete : Text → WorkerOutcome B → RemotePool B → StatusCode × RemotePool B
  handle_complete id outcome p = elim (lookup id p.in_progress) [
    | none ↦ (status_not_found, p)
    | some entry ↦ (status_ok, settle id (sent outcome) p)
  ]

  unfoldable pub handle_complete_data :
      (parse : Text → Option ℕ)
      → Text
      → (content_type content_length : Option (Option Text)) → (body : B) → RemotePool B
      → StatusCode × RemotePool B
  handle_complete_data parse id content_type content_length body =
      handle_complete id
        (outcome_complete (type_of_header content_type) (size_of_header parse content_length) body)

  unfoldable pub handle_complete_redirect :
      Text → RedirectRequest → RemotePool B → StatusCode × RemotePool B
  handle_complete_redirect id req =
      handle_complete id
        (outcome_redirect req.location req.message req.content_type req.content_length)

  unfoldable pub handle_complete_reject : Text → Text → RemotePool B → StatusCode × RemotePool B
  handle_complete_reject id reason = handle_complete id (outcome_reject reason)

  unfoldable pub handle_complete_error : Text → Text → RemotePool B → StatusCode × RemotePool B
  handle_complete_error id message = handle_complete id (outcome_error message)

  -- `retain` of the reaper, which locks and looks at one entry after the other.
  unfoldable pub reap_one : (heartbeat_timeout now : ℕ) → Text → RemotePool B → RemotePool B
  reap_one heartbeat_timeout now id p = elim (lookup id p.in_progress) [
    | none ↦ p
    | some entry ↦ if is_alive heartbeat_timeout now entry then p else settle id sender_dropped p
  ]

  unfoldable pub reap : (heartbeat_timeout now : ℕ) → List Text → RemotePool B → RemotePool B
  reap heartbeat_timeout now [] p = p
  reap heartbeat_timeout now (id ∷ ids) p =
      reap heartbeat_timeout now ids (reap_one heartbeat_timeout now id p)

  -- At the shutdown, for each job that was in the map.
  unfoldable pub drain_one : Text → RemotePool B → RemotePool B
  drain_one id p = elim (lookup id p.in_progress) [
    | none ↦ p
    | some entry ↦ settle id sender_dropped p
  ]

  unfoldable pub drain_ids : List Text → RemotePool B → RemotePool B
  drain_ids [] p = p
  drain_ids (id ∷ ids) p = drain_ids ids (drain_one id p)

  -- The answer of the task of a job that was handed out, once the sender is used or gone.
  unfoldable pub reply_of : Outcome B → Option (Result ActionError (TargetResult B))
  reply_of no_channel = none
  reply_of awaited = none
  reply_of (sent outcome) = some (outcome_result (some outcome))
  reply_of sender_dropped = some (outcome_result none)

  unfoldable pub take_outcome :
      Text → RemotePool B → Option (Result ActionError (TargetResult B)) × RemotePool B
  take_outcome id p = elim (reply_of (p.outcome id)) [
    | none ↦ (none, p)
    | some result ↦ (some result, record p { outcome = at id no_channel p.outcome })
  ]
