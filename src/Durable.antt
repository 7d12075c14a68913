-- ===== src/Durable.antt =====
-- bits/src/runtime/runner.rs, the sweeper of bits/src/runtime/maintenance.rs, and the durable cleanup
-- of bits/src/bits.rs: the durable record of one job, from the delayed write of its task to the
-- deletion after its result is gone. Each function is what one task does in one atomic step; a
-- broker with a store. `stored` is whether the store has the record.
pub mod Steps
pub mod Record
mod Tests
use bits_broker.Prelude.{
  ℕ, zero, suc, ◌+◌, ◌-◌, Bool, true, false, ◌&&◌, not, Option, none, some, if◌then◌else◌,
}
use bits_broker.Actions.{JobResult}
use bits_broker.Runtime.{Job, client_present}

-- Where the task of the job is: before its first step, dispatching, in the write of the record, with
-- the record written, dispatching after the timer, and done.
pub data Task : Type 0 where
  spawned : (already_persisted : Bool) → Task
  dispatching : Task
  writing : Task
  written : Task
  past_timer : Task
  ended : Task

-- A poll that took the result: before the removal of the job, and before the cleanup.
pub data Taker : Type 0 where
  no_taker : Taker
  has_result : Taker
  has_removed : Taker

-- `deletions` are those that are due, by the cleanup worker or the sweeper.
pub record Life (B Payload : Type 0) : Type 0 where
  pub job : Job B Payload
  pub in_table : Bool
  pub task : Task
  pub taker : Taker
  pub stored : Bool
  pub deletions : ℕ
  pub delete_failed : Bool

unfoldable pub is_finished : {B : Type 0} → Option (JobResult B) → Bool
is_finished none = false
is_finished (some result) = true

module _ {B Payload : Type 0} where
  -- The first step of the task.
  unfoldable pub begin_task : Bool → Life B Payload → Life B Payload
  begin_task already_persisted l = record l {
    task = dispatching;
    job = record (l.job) { persisted = if already_persisted then true else l.job.persisted };
  }

  -- The time of `persist_after` is over: the record is written, unless it is there or not needed.
  unfoldable pub timer_fires : Life B Payload → Life B Payload
  timer_fires l =
      if not l.job.persisted && not (is_finished l.job.result)
      then record l { task = writing }
      else record l { task = past_timer }

  -- The answer of `upsert_job`.
  unfoldable pub upsert_returns : (is_ok : Bool) → Life B Payload → Life B Payload
  upsert_returns true l = record l { task = written; stored = true }
  upsert_returns false l = record l { task = past_timer }

  unfoldable pub mark_persisted : Life B Payload → Life B Payload
  mark_persisted l = record l { task = past_timer; job = record (l.job) { persisted = true } }

  unfoldable pub store_result : JobResult B → Life B Payload → Life B Payload
  store_result result l = record l { task = ended; job = record (l.job) { result = some result } }

  -- `take` of a poll.
  unfoldable pub take_stored : Life B Payload → Life B Payload
  take_stored l = record l { taker = has_result; job = record (l.job) { result = none } }

  unfoldable pub remove_taken : Life B Payload → Life B Payload
  remove_taken l = record l { taker = has_removed; in_table = false }

  unfoldable pub schedule_durable_cleanup : Life B Payload → Life B Payload
  schedule_durable_cleanup l = record l {
    taker = no_taker;
    deletions = if l.job.persisted then suc l.deletions else l.deletions;
  }

  unfoldable pub is_expired : ℕ → Life B Payload → Bool
  is_expired now l = is_finished l.job.result && not (client_present now l.job)

  -- `remove_if` of the sweeper, and the deletion that it then owes.
  unfoldable pub sweep : ℕ → Life B Payload → Life B Payload
  sweep now l =
      if l.in_table && is_expired now l
      then record l {
        in_table = false;
        deletions = if l.job.persisted then suc l.deletions else l.deletions;
      }
      else l

  -- The answer of `delete_job`, of which an error is only logged.
  unfoldable pub delete_returns : (is_ok : Bool) → Life B Payload → Life B Payload
  delete_returns true l = record l { stored = false; deletions = l.deletions - 1 }
  delete_returns false l = record l { delete_failed = true; deletions = l.deletions - 1 }
