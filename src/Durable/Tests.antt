-- ===== src/Durable/Tests.antt =====
-- The record of one job, which is written after the delay and deleted after its result was polled.
use bits_broker.Prelude.{ℕ, [], ◌∷◌, true, false, none, ◌≡◌, ◌⊎◌, ◌≢◌, refl}
use bits_broker.Actions.{job_error}
use bits_broker.Runtime.{Job, queued}
use bits_broker.Durable.{
  Life, ended, spawned, no_taker, is_finished, begin_task, timer_fires, upsert_returns,
  mark_persisted, store_result, take_stored, remove_taken, schedule_durable_cleanup, delete_returns,
}
use bits_broker.Durable.Steps.{begins, fires, upserts, marks, Reach, submits, step}
use bits_broker.Durable.Record.{record-kept}

abbrev job : Job ℕ ℕ
job = record {
  payload = 1;
  is_cancelled = false;
  active_pollers = 0;
  reconnect_deadline = 5;
  pending_status = queued;
  persisted = false;
  result = none;
}

abbrev submitted : Life ℕ ℕ
submitted = record {
  job = job;
  in_table = true;
  task = spawned false;
  taker = no_taker;
  stored = false;
  deletions = 0;
  delete_failed = false;
}

abbrev persisted_life : Life ℕ ℕ
persisted_life = mark_persisted (upsert_returns true (timer_fires (begin_task false submitted)))

persisted-Reach : Reach ℕ ℕ persisted_life
unfolding begin_task timer_fires upsert_returns mark_persisted is_finished
persisted-Reach =
    step
      (step
        (step (step (submits job false refl refl) (begins submitted false refl))
          (fires (begin_task false submitted) refl))
        (upserts (timer_fires (begin_task false submitted)) true refl))
      (marks (upsert_returns true (timer_fires (begin_task false submitted))) refl)

not_ended : persisted_life.task ≢ ended
unfolding begin_task timer_fires upsert_returns mark_persisted is_finished
not_ended h = cc

record-kept_example :
    (persisted_life.in_table ≡ true)
    × (persisted_life.deletions ≡ 0)
    × ((persisted_life.stored ≡ true) ⊎ (persisted_life.job.persisted ≡ false))
record-kept_example = record-kept ℕ ℕ persisted-Reach not_ended

abbrev finished : Life ℕ ℕ
finished = store_result (job_error (b'e' ∷ [])) persisted_life

abbrev polled : Life ℕ ℕ
polled = delete_returns true (schedule_durable_cleanup (remove_taken (take_stored finished)))
