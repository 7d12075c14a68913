-- ===== src/Durable/Steps.antt =====
-- All tasks that touch a job and its record, one atomic step at a time.
use bits_broker.Prelude.{ℕ, ◌<◌, Bool, true, false, none, some, ◌≡◌, ◌⊎◌}
use bits_broker.Actions.{JobResult}
use bits_broker.Runtime.{Job}
use bits_broker.Durable.{
  Life, spawned, dispatching, writing, written, past_timer, no_taker, has_result, has_removed,
  begin_task, timer_fires, upsert_returns, mark_persisted, store_result, take_stored, remove_taken,
  schedule_durable_cleanup, sweep, delete_returns,
}

module _ (B Payload : Type 0) where
  pub data Step : Life B Payload → Life B Payload → Type 0 where
    begins :
        (l : Life B Payload) (already_persisted : Bool)
        → l.task ≡ spawned already_persisted
        → Step l (begin_task already_persisted l)
    fires : (l : Life B Payload) → l.task ≡ dispatching → Step l (timer_fires l)
    upserts :
        (l : Life B Payload) (is_ok : Bool) → l.task ≡ writing → Step l (upsert_returns is_ok l)
    marks : (l : Life B Payload) → l.task ≡ written → Step l (mark_persisted l)
    finishes :
        (l : Life B Payload) (result : JobResult B)
        → (l.task ≡ dispatching) ⊎ (l.task ≡ past_timer)
        → Step l (store_result result l)
    takes :
        (l : Life B Payload) {result : JobResult B}
        → l.job.result ≡ some result
        → Step l (take_stored l)
    removes : (l : Life B Payload) → l.taker ≡ has_result → Step l (remove_taken l)
    schedules : (l : Life B Payload) → l.taker ≡ has_removed → Step l (schedule_durable_cleanup l)
    sweeps : (l : Life B Payload) (now : ℕ) → Step l (sweep now l)
    deletes :
        (l : Life B Payload) (is_ok : Bool) → 0 < l.deletions → Step l (delete_returns is_ok l)
    -- Pollers come and go, and the job is cancelled or handed to a worker.
    changes :
        (l : Life B Payload) (job : Job B Payload)
        → job.result ≡ l.job.result
        → job.persisted ≡ l.job.persisted
        → Step l (record l { job = job })

  -- A new job, or one that was restored from its record.
  pub data Reach : Life B Payload → Type 0 where
    submits :
        (job : Job B Payload) (already_persisted : Bool)
        → job.result ≡ none
        → job.persisted ≡ false
        → Reach (record {
          job = job;
          in_table = true;
          task = spawned already_persisted;
          taker = no_taker;
          stored = already_persisted;
          deletions = 0;
          delete_failed = false;
        })
    step : {l l' : Life B Payload} → Reach l → Step l l' → Reach l'
