-- ===== src/Runtime/Presence.antt =====
-- bits/src/job.rs and the connected guard of bits/src/runtime/maintenance.rs: a new job, its status,
-- and whether its client is there. Times are nanoseconds since the process started, which the job
-- keeps as a u64.
use bits_broker.Prelude.{
  ℕ, ◌+◌, ◌-◌, ◌%◌, ◌<◌, ◌≤◌, Bool, true, false, ◌||◌, Option, none, some, Text, text, text_beq,
  text_beq_iff, if◌then◌else◌, ◌↔◌, ltb, ◌≡◌, refl, arith,
}
use bits_broker.Store.{u64_mod}
use bits_broker.Runtime.{Job, PendingStatus, queued, processing, client_present}

is_queued : PendingStatus → Bool
is_queued queued = true
is_queued processing = false

unfoldable pub as_str : PendingStatus → Text
as_str queued = text "queued"
as_str processing = text "processing"

unfoldable pub from_header : Text → Option PendingStatus
from_header value =
    if text_beq value (text "queued")
    then some queued
    else if text_beq value (text "processing")
    then some processing
    else none

not_queued : text_beq (text "processing") (text "queued") ≡ false
not_queued = refl

-- The header of a status, and no other text, reads as that status.
pub from_header_iff :
    (value : Text) (status : PendingStatus)
    → (from_header value ≡ some status) ↔ (value ≡ as_str status)
unfolding from_header as_str
from_header_iff value queued = ground (arith, text_beq_iff value (text "queued"))
from_header_iff value processing =
    ground (
      arith,
      text_beq_iff value (text "queued"),
      text_beq_iff value (text "processing"),
      not_queued,
    )

module _ {B Payload : Type 0} where
  unfoldable pub new_job : ℕ → Payload → Job B Payload
  new_job now payload = record {
    payload = payload;
    is_cancelled = false;
    active_pollers = 0;
    reconnect_deadline = now % u64_mod;
    pending_status = queued;
    persisted = false;
    result = none;
  }

  -- Whether pollers are woken.
  unfoldable pub mark_processing : Job B Payload → Bool × Job B Payload
  unfolding is_queued
  mark_processing job = (is_queued job.pending_status, record job { pending_status = processing })

  unfoldable pub set_reconnect_deadline : ℕ → Job B Payload → Job B Payload
  set_reconnect_deadline deadline job = record job { reconnect_deadline = deadline % u64_mod }

  -- The guard of a poll, made and dropped.
  unfoldable pub connect : Job B Payload → Job B Payload
  connect job = record job { active_pollers = (job.active_pollers + 1) % u64_mod }

  unfoldable pub disconnect : ℕ → ℕ → Job B Payload → Job B Payload
  disconnect now buffer job = record (set_reconnect_deadline (now + buffer) job) {
    active_pollers = (job.active_pollers + (u64_mod - 1)) % u64_mod;
  }

  -- The client of a job is there while a poll lasts, for numbers and times that fit their words. After
  -- the poll there are as many polls as before, and without another one the client is there until the
  -- buffer has passed.
  pub disconnect-connect :
      (now buffer time : ℕ) (job : Job B Payload)
      → job.active_pollers + 1 < u64_mod
      → now + buffer < u64_mod
      → let after : Job B Payload = disconnect now buffer (connect job) in
        (client_present time (connect job) ≡ true)
        × (after.active_pollers ≡ job.active_pollers)
        × (client_present time after ≡ (ltb 0 job.active_pollers || ltb time (now + buffer)))
  unfolding connect disconnect set_reconnect_deadline client_present
  disconnect-connect now buffer time job fits soon = (ground arith, omega arith, ground arith)

  -- A new job is queued, its client is not there yet, and only the first mark wakes its pollers.
  pub mark_processing-new_job :
      (now time : ℕ) (payload : Payload)
      → now < u64_mod
      → now ≤ time
      → let first : Bool × Job B Payload = mark_processing (new_job now payload) in
        (client_present time (new_job now payload) ≡ false)
        × (first.0 ≡ true)
        × (mark_processing first.1 ≡ (false, first.1))
  unfolding mark_processing new_job client_present is_queued
  mark_processing-new_job now time payload fits later = (ground arith, refl, refl)
