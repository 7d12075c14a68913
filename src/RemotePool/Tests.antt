-- ===== src/RemotePool/Tests.antt =====
-- The theorems of the remote pool on a run with one job, which a worker fetches and completes.
use bits_broker.Prelude.{
  ℕ, ◌+◌, ◌-◌, ◌<◌, ◌≤◌, err, true, false, none, some, [], ◌∷◌, Text, text, text_eq, lookup, insert,
  ◌≡◌, ◌⊎◌, refl,
}
use bits_broker.Actions.{guard_cancelled, resource_error}
use bits_broker.Dispatcher.{
  PendingItem, Dispatch, guard_error, new_dispatcher, acquire_permit, insert_pending, enqueue_job,
  take_pending,
}
use bits_broker.Dispatcher.Steps.{
  is_some, at, not_called, holds_permit, in_map, waits, System, acquires, enters, enqueues, Reach,
}
use bits_broker.Actions.{TargetResult}
use bits_broker.RemotePool.{
  RemotePool, InProgressJob, reply_of, no_channel, sent, WorkerOutcome, outcome_error,
  outcome_reject, outcome_result, guard_verdict, start_work, handle_complete, settle, reap,
}
use bits_broker.RemotePool.Steps.{
  Remote, RemoteReach, reply_closed, is_local_work, calls, picks, begins, completes, RemoteReach,
  start, move,
}
use bits_broker.RemotePool.Simulates.{bit, is_settled, remote-simulates, remote-answered}
use bits_broker.RemotePool.Outcomes.{contains, reap-Reaped, first_outcome-wins}

abbrev job : Text
job = b'j' ∷ []

abbrev item : PendingItem ℕ
item = record { guard = guard_cancelled; work = 7 }

abbrev fresh : Dispatch ℕ
fresh = record {
  queue = [];
  queue_open = true;
  pending = [];
  admission = 2;
  admission_open = true;
  closing = false;
}

abbrev begun : System ℕ (TargetResult ℕ)
begun = record {
  dispatcher = fresh;
  holding = 0;
  phase = λ id. not_called;
  running = λ id. false;
  reply = λ id. none;
  drained = false;
}

abbrev admitted : System ℕ (TargetResult ℕ)
admitted = record begun {
  dispatcher = record fresh { admission = 1 };
  holding = 1;
  phase = at job holds_permit begun.phase;
}

abbrev entered : System ℕ (TargetResult ℕ)
entered = record admitted {
  dispatcher = record fresh { admission = 1; pending = (job, item) ∷ [] };
  holding = 0;
  phase = at job in_map admitted.phase;
}

abbrev queued : System ℕ (TargetResult ℕ)
queued = record entered {
  dispatcher = enqueue_job job entered.dispatcher;
  phase = at job waits entered.phase;
}

abbrev idle : RemotePool ℕ
idle = record { in_progress = []; outcome = λ id. no_channel }

abbrev remote : System ℕ (TargetResult ℕ) → Remote ℕ ℕ
remote s = record { front = s; pool = idle; claiming = λ id. none }

queued-Reach : RemoteReach ℕ ℕ 60 2 (remote queued)
unfolding new_dispatcher acquire_permit insert_pending insert at is_local_work
queued-Reach =
    move
      (move (move (start 8 refl) (calls (remote begun) (acquires begun job refl refl) refl))
        (calls (remote admitted) (enters admitted job item refl refl refl) refl))
      (calls (remote entered) (enqueues entered job refl) refl)

abbrev polled : Remote ℕ ℕ
polled = record (remote queued) {
  front = record queued {
    dispatcher = (take_pending job queued.dispatcher).1;
    running = at job true queued.running;
  };
  claiming = at job (some guard_cancelled) (λ id. none);
}

taken : take_pending job queued.dispatcher ≡ (some item, (take_pending job queued.dispatcher).1)
unfolding take_pending enqueue_job lookup
taken = refl

abbrev working : Remote ℕ ℕ
working = record polled { pool = start_work job 100 idle; claiming = at job none polled.claiming }

claims : polled.claiming job ≡ some guard_cancelled
unfolding at
claims = refl

working-Reach : RemoteReach ℕ ℕ 60 2 working
unfolding guard_verdict reply_closed guard_error at
working-Reach =
    move (move queued-Reach (picks (remote queued) job taken))
      (begins polled job false true 100 claims refl)

waits_there : working.front.phase job ≡ waits
unfolding at
waits_there = refl

remote-simulates_example : Reach ℕ (TargetResult ℕ) 2 working.front
remote-simulates_example = remote-simulates ℕ ℕ working-Reach

remote-answered_example :
    bit (is_some (lookup job working.front.dispatcher.pending))
      + bit (is_some (working.claiming job))
      + bit (is_some (lookup job working.pool.in_progress))
      + bit (is_settled (working.pool.outcome job))
      + bit (is_some (working.front.reply job))
    ≡ 1
remote-answered_example = remote-answered ℕ ℕ job working-Reach waits_there

abbrev failed : WorkerOutcome ℕ
failed = outcome_error (text "no such data")

abbrev completed : Remote ℕ ℕ
completed = record working { pool = (handle_complete job failed working.pool).1 }

completed-Reach : RemoteReach ℕ ℕ 60 2 completed
completed-Reach = move working-Reach (completes working job failed)

completed_there : completed.pool.outcome job ≡ sent failed
unfolding handle_complete start_work settle at lookup insert
completed_there = refl

-- A second completion.
abbrev rejected : Remote ℕ ℕ
rejected = record completed {
  pool = (handle_complete job (outcome_reject (text "late")) completed.pool).1;
}

first_outcome-wins_example :
    (rejected.pool.outcome job ≡ sent failed)
    ⊎ (rejected.front.reply job ≡ some (outcome_result (some failed)))
first_outcome-wins_example =
    first_outcome-wins ℕ ℕ job failed completed-Reach
      (completes completed job (outcome_reject (text "late"))) completed_there

-- The heartbeat of 100 is 100 old, and the time-out is 60.
reap-Reaped_example :
    (((contains job (job ∷ []) ≡ false) ⊎ (lookup job working.pool.in_progress ≡ none))
      × (lookup job (reap 60 200 (job ∷ []) working.pool).in_progress
          ≡ lookup job working.pool.in_progress)
      × ((reap 60 200 (job ∷ []) working.pool).outcome job ≡ working.pool.outcome job))
    ⊎ ((entry : InProgressJob) × (lookup job working.pool.in_progress ≡ some entry)
        × (200 - entry.last_heartbeat < 60)
        × (lookup job (reap 60 200 (job ∷ []) working.pool).in_progress ≡ some entry)
        × ((reap 60 200 (job ∷ []) working.pool).outcome job ≡ working.pool.outcome job))
    ⊎ ((entry : InProgressJob) × (contains job (job ∷ []) ≡ true)
        × (lookup job working.pool.in_progress ≡ some entry)
        × (60 ≤ 200 - entry.last_heartbeat)
        × (lookup job (reap 60 200 (job ∷ []) working.pool).in_progress ≡ none)
        × (reply_of ((reap 60 200 (job ∷ []) working.pool).outcome job)
            ≡ some (err (resource_error (text "worker heartbeat timeout or disconnect")))))
reap-Reaped_example = reap-Reaped 60 200 (job ∷ []) job working.pool
