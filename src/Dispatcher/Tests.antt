-- ===== src/Dispatcher/Tests.antt =====
-- The theorems of the dispatcher on a run with one job, a capacity of two, and a close.
use bits_broker.Prelude.{
  ℕ, ◌+◌, true, false, none, some, [], ◌∷◌, length, ok, Text, Option, Result, text_eq, lookup,
  insert, ◌≡◌, refl,
}
use bits_broker.Actions.{guard_cancelled}
use bits_broker.Dispatcher.{
  PendingItem, Dispatch, guard_error, still_abandoned, new_dispatcher, acquire_permit,
  insert_pending, enqueue_job, take_pending, close_flag,
}
use bits_broker.Dispatcher.Choice.{
  cost_weighted, ExecutorKind, remote_pool, remote, Parts, unwrap_or, positive, choose_remote,
  choose_executor, make_dispatcher, Executor, with_executor, from_config,
}
use bits_broker.Dispatcher.Steps.{
  is_some, at, not_called, holds_permit, in_map, waits, gives_up, System, acquires, enters,
  enqueues, abandons, flags, Reach, start, step,
}
use bits_broker.Dispatcher.Answered.{one_of, none_of, has, waits-answered, gives_up-never_runs}
use bits_broker.Dispatcher.Capacity.{permits-balance}

abbrev job : Text
job = b'j' ∷ []

abbrev item : PendingItem ℕ
item = record { guard = guard_cancelled; work = 7 }

abbrev fresh : Dispatch ℕ
fresh = record {
  queue = [];
  queue_open = true;
  pending = [];
  admission = 2;
  admission_open = true;
  closing = false;
}

abbrev begun : System ℕ ℕ
begun = record {
  dispatcher = fresh;
  holding = 0;
  phase = λ id. not_called;
  running = λ id. false;
  reply = λ id. none;
  drained = false;
}

abbrev admitted : System ℕ ℕ
admitted = record begun {
  dispatcher = record fresh { admission = 1 };
  holding = 1;
  phase = at job holds_permit begun.phase;
}

abbrev entered : System ℕ ℕ
entered = record admitted {
  dispatcher = record fresh { admission = 1; pending = (job, item) ∷ [] };
  holding = 0;
  phase = at job in_map admitted.phase;
}

abbrev queued : System ℕ ℕ
queued = record entered {
  dispatcher = enqueue_job job entered.dispatcher;
  phase = at job waits entered.phase;
}

queued-Reach : Reach ℕ ℕ 2 queued
unfolding new_dispatcher acquire_permit insert_pending insert at
queued-Reach =
    step
      (step (step (start 8 refl) (acquires begun job refl refl))
        (enters admitted job item refl refl refl))
      (enqueues entered job refl)

abbrev closing : System ℕ ℕ
closing = record queued { dispatcher = close_flag queued.dispatcher }

closing-Reach : Reach ℕ ℕ 2 closing
closing-Reach = step queued-Reach (flags queued)

is_closing : closing.dispatcher.closing ≡ true
unfolding close_flag
is_closing = refl

waits_there : queued.phase job ≡ waits
unfolding at
waits_there = refl

waits-answered_example :
    one_of (has ℕ ℕ job queued.dispatcher.pending) (queued.running job) (is_some (queued.reply job))
    ≡ true
waits-answered_example = (waits-answered ℕ ℕ job queued-Reach waits_there).0

permits-balance_example :
    closing.dispatcher.admission + length closing.dispatcher.pending + closing.holding ≡ 2
permits-balance_example = (permits-balance ℕ ℕ closing-Reach).0

abbrev left : System ℕ ℕ
left = record queued {
  dispatcher = (take_pending job queued.dispatcher).1;
  phase = at job gives_up queued.phase;
}

taken : take_pending job queued.dispatcher ≡ (some item, (take_pending job queued.dispatcher).1)
unfolding take_pending enqueue_job lookup
taken = refl

left-Reach : Reach ℕ ℕ 2 left
unfolding guard_error still_abandoned
left-Reach = step queued-Reach (abandons queued job true true true true waits_there refl refl taken)

gave_up : left.phase job ≡ gives_up
unfolding at
gave_up = refl

gives_up-never_runs_example :
    none_of (has ℕ ℕ job left.dispatcher.pending) (left.running job) (is_some (left.reply job))
    ≡ true
gives_up-never_runs_example = gives_up-never_runs ℕ ℕ job left-Reach gave_up

abbrev seconds : ℕ → Result Text ℕ
seconds n = ok n

abbrev pool : Option (ExecutorKind ℕ)
pool = some (remote_pool (record { heartbeat_timeout_secs = 30 }))

abbrev made : Parts
made = record { queue = cost_weighted; executor = remote job 30; queue_capacity = 8 }

abbrev starts : Executor → Result {0, 0} Text Unit
starts executor = ok tt

makes :
    from_config seconds 8 starts true (some cost_weighted) pool (some job) true 8 ≡ ok (some made)
unfolding from_config with_executor make_dispatcher choose_executor choose_remote positive unwrap_or
makes = refl
