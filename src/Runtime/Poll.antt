-- ===== src/Runtime/Poll.antt =====
-- The result of a job reaches its client once.
use bits_broker.Prelude.{
  true, false, none, some, Text, lookup, lookup-insert_self, lookup-remove, text_eq, beq_refl,
  if◌then◌else◌, ◌≡◌, refl, ap,
}
use bits_broker.Actions.{JobResult, is_deliverable}
use bits_broker.Runtime.{
  Job, JobTable, ready, pending, take_out, release_count, remove_job, finish, poll_look,
  poll_submit_look,
}

module _ (B Payload : Type 0) where
  remove_job-gone :
      (id : Text) (t : JobTable B Payload) {job : Job B Payload}
      → lookup id t.jobs ≡ some job
      → lookup id (remove_job id t).jobs ≡ none
  unfolding remove_job take_out release_count
  remove_job-gone id t h =
      rw (h, remove_job, take_out) (rw (lookup-remove id id t.jobs, beq_refl id) refl)

  look_missing :
      (id : Text) (t : JobTable B Payload) → lookup id t.jobs ≡ none → poll_look id t ≡ (none, t)
  unfolding poll_look
  look_missing id t e = rw (e, poll_look) refl

  look_ready :
      (id : Text) (t : JobTable B Payload) (job : Job B Payload) (result : JobResult B)
      → lookup id t.jobs ≡ some (record job { result = some result })
      → poll_look id t ≡ (some (ready result), remove_job id t)
  unfolding poll_look
  look_ready id t job result e = rw (e, poll_look) refl

  submit_look_ready :
      (id : Text) (t : JobTable B Payload) (job : Job B Payload) (result : JobResult B)
      → lookup id t.jobs ≡ some (record job { result = some result })
      → poll_submit_look id t ≡ (
          if is_deliverable result
          then (pending id job.pending_status, t)
          else (ready result, remove_job id t))
  unfolding poll_submit_look
  submit_look_ready id t job result e = rw (e, poll_submit_look) refl

  finish-lookup :
      (id : Text) (result : JobResult B) (t : JobTable B Payload) (job : Job B Payload)
      → lookup id t.jobs ≡ some job
      → lookup id (finish id result t).jobs ≡ some (record job { result = some result })
  unfolding finish
  finish-lookup id result t job h = rw (h, finish) (lookup-insert_self id _ t.jobs)

  -- The first look at a job that the broker has and that finished delivers its result, and after that the broker does not know the
  -- job: no later look delivers it again.
  pub finish-delivers_once :
      (id : Text) (result : JobResult B) (t : JobTable B Payload) (job : Job B Payload)
      → lookup id t.jobs ≡ some job
      → let (first, t') = poll_look id (finish id result t) in
        (first ≡ some (ready result)) × (poll_look id t' ≡ (none, t'))
  finish-delivers_once id result t job h =
      let found = finish-lookup id result t job h in
      rw (look_ready id (finish id result t) job result found)
        (refl, look_missing id _ (remove_job-gone id (finish id result t) found))

  -- A submission that waits for a job of the broker leaves a result with a payload in place and reports the job
  -- as pending; the client's next poll delivers the result.
  pub poll_submit_look-deliverable :
      (id : Text) (result : JobResult B) (t : JobTable B Payload) (job : Job B Payload)
      → lookup id t.jobs ≡ some job
      → is_deliverable result ≡ true
      → let (first, t') = poll_submit_look id (finish id result t) in
        (first ≡ pending id job.pending_status) × ((poll_look id t').0 ≡ some (ready result))
  poll_submit_look-deliverable id result t job h d =
      let found = finish-lookup id result t job h in
      rw (submit_look_ready id (finish id result t) job result found, d)
        (refl, ap (λ p. p.0) (look_ready id (finish id result t) job result found))

  -- A submission that waits for a job of the broker delivers a result without a payload itself, and after that
  -- the broker does not know the job.
  pub poll_submit_look-failure :
      (id : Text) (result : JobResult B) (t : JobTable B Payload) (job : Job B Payload)
      → lookup id t.jobs ≡ some job
      → is_deliverable result ≡ false
      → let (first, t') = poll_submit_look id (finish id result t) in
        (first ≡ ready result) × (poll_look id t' ≡ (none, t'))
  poll_submit_look-failure id result t job h d =
      let found = finish-lookup id result t job h in
      rw (submit_look_ready id (finish id result t) job result found, d)
        (refl, look_missing id _ (remove_job-gone id (finish id result t) found))
