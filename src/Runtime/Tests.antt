-- ===== src/Runtime/Tests.antt =====
-- The theorems of the runtime at one job.
use bits_broker.Prelude.{
  ℕ, ◌+◌, ◌≤◌, true, false, none, some, [], ◌∷◌, ok, ◌≡◌, refl, arith, Text, lookup, insert, length,
  text_eq,
}
use bits_broker.Actions.{JobResult, success, failed, is_deliverable, is_terminal, target_reject}
use bits_broker.Routing.{rejected, report, join, run_route, run_action, run_check, after_check}
use bits_broker.Routing.First.{reasons, PassedOver}
use bits_broker.Routing.Validate.{validate, after_terminal}
use bits_broker.Routing.Samples.{clock, closed, two_routes}
use bits_broker.Runtime.{Job, JobTable, queued, admit, insert_job}
use bits_broker.Runtime.Limit.{System, Reach, start, step, admits, enters, job_count_bounded}
use bits_broker.Runtime.Presence.{new_job}

abbrev id : Text
id = b'j' ∷ []

abbrev job : Job ℕ ℕ
job = record {
  payload = 1;
  is_cancelled = false;
  active_pollers = 1;
  reconnect_deadline = 0;
  pending_status = queued;
  persisted = false;
  result = none;
}

abbrev empty : JobTable ℕ ℕ
empty = record { jobs = []; job_count = 0; max_jobs = 2 }

abbrev counted : JobTable ℕ ℕ
counted = record { jobs = []; job_count = 1; max_jobs = 2 }

abbrev with_job : JobTable ℕ ℕ
with_job = record { jobs = (id, job) ∷ []; job_count = 1; max_jobs = 2 }

job_there : lookup id with_job.jobs ≡ some job
unfolding lookup
job_there = refl

abbrev reached : System ℕ ℕ
reached = record { table = with_job; entering = 0; leaving = 0 }

-- One submission.
submitted : Reach ℕ ℕ 2 0 reached
unfolding admit insert_job lookup insert
submitted =
    step (step start (admits empty counted (omega arith) refl))
      (enters counted with_job id job true refl)

job_count_bounded_example :
    (reached.table.job_count ≡ length reached.table.jobs + reached.entering + reached.leaving)
    × (length reached.table.jobs ≤ 2 + 0)
job_count_bounded_example = job_count_bounded ℕ ℕ submitted

abbrev data_result : JobResult ℕ
data_result = success [] 3 3

abbrev bad_result : JobResult ℕ
bad_result = failed []

is_data : is_deliverable data_result ≡ true
unfolding is_deliverable
is_data = refl

is_bad : is_deliverable bad_result ≡ false
unfolding is_deliverable
is_bad = refl

two_routes_valid : validate clock two_routes ≡ ok tt
unfolding validate after_terminal is_terminal
two_routes_valid = refl

closed_passed : PassedOver clock closed 5 10 ((b'n' ∷ b'o' ∷ []) ∷ []) 11
unfolding run_route run_action run_check after_check reasons
closed_passed = (
  (b'n' ∷ b'o' ∷ []) ∷ [],
  [],
  11,
  (rejected (b'n' ∷ b'o' ∷ []) false, refl, refl),
  (refl, refl),
  refl,
)

one_reason : report {B = ℕ} ((b'n' ∷ b'o' ∷ []) ∷ []) ≡ target_reject (b'n' ∷ b'o' ∷ []) false
unfolding report join
one_reason = refl

abbrev fresh : Job ℕ ℕ
fresh = new_job 3 1
