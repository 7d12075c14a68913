-- ===== src/Dispatcher.antt =====
-- bits/src/dispatcher/mod.rs and the workers of bits/src/dispatcher/executor/: a job's way through the
-- pending map and the queue. Each function is what one task does under one lock or in one atomic step;
-- other tasks may come between any two. The queue is the list of its jobs, which a worker may take in
-- any order. The admission limit of a user, which comes before, is a module of its own.
pub mod Steps
pub mod Moves
pub mod Capacity
pub mod Answered
pub mod Choice
mod Tests
use bits_broker.Prelude.{
  ℕ, ◌+◌, ◌-◌, ◌==◌, Bool, true, false, Option, none, some, List, [], ◌∷◌, ◌++◌, length, Result, ok,
  err, panic, Text, text, text_eq, if◌then◌else◌, ltb, HashMap, lookup, insert, remove,
}
use bits_broker.Actions.{
  ActionError, cancelled, client_gone, queue_full, resource_error, DispatchGuard, no_guard,
  guard_cancelled, guard_cancelled_or_client_gone,
}

-- What waits for a worker: the guard and the work. The sender of the reply is known by the id of the
-- job, and the permit is held as long as the item is in the map.
pub record PendingItem (Work : Type 0) : Type 0 where
  pub guard : DispatchGuard
  pub work : Work

-- `admission` is the number of free permits, and `admission_open` whether the semaphore is open.
pub record Dispatch (Work : Type 0) : Type 0 where
  pub queue : List Text
  pub queue_open : Bool
  pub pending : HashMap Text (PendingItem Work)
  pub admission : ℕ
  pub admission_open : Bool
  pub closing : Bool

abbrev pub dispatcher_closed : ActionError
dispatcher_closed = resource_error (text "dispatcher closed")

-- The check of a guard, by the flags of the job as they are read: in the queue, and before the work.
unfoldable pub guard_error :
    DispatchGuard → (is_cancelled client_present : Bool) → Option ActionError
guard_error no_guard is_cancelled client_present = none
guard_error guard_cancelled is_cancelled client_present =
    if is_cancelled then some cancelled else none
guard_error guard_cancelled_or_client_gone is_cancelled client_present =
    if is_cancelled then some cancelled else if client_present then none else some client_gone

-- Whether a job that was found abandoned still is, when the map is locked.
unfoldable pub still_abandoned : ActionError → (is_cancelled client_present : Bool) → Bool
still_abandoned cancelled is_cancelled client_present = is_cancelled
still_abandoned client_gone is_cancelled client_present = if client_present then false else true
still_abandoned _ is_cancelled client_present = false

module _ {Work : Type 0} where
  -- A semaphore cannot have more than `max_permits`, which is a parameter: it panics.
  unfoldable pub new_dispatcher :
      (max_permits : ℕ) → (queue_capacity : ℕ) → Result Text (Dispatch Work)
  new_dispatcher max_permits queue_capacity =
      if queue_capacity == 0
      then err (text "queue_capacity must be greater than zero")
      else if ltb max_permits queue_capacity
      then panic
      else ok (record {
        queue = [];
        queue_open = true;
        pending = [];
        admission = queue_capacity;
        admission_open = true;
        closing = false;
      })

  -- A permit, or the error that the caller gets at once.
  unfoldable pub acquire_permit : Dispatch Work → Result ActionError (Dispatch Work)
  acquire_permit d = elim d.admission_open [
    | false ↦ err dispatcher_closed
    | true ↦ elim (d.admission == 0) [
      | true ↦ err (queue_full (text "dispatcher queue is full"))
      | false ↦ ok (record d { admission = d.admission - 1 })
    ]
  ]

  -- A permit that is dropped.
  unfoldable pub release_permit : Dispatch Work → Dispatch Work
  release_permit d = record d { admission = d.admission + 1 }

  -- Under the lock of the map: whether the job is in it now.
  unfoldable pub insert_pending : Text → PendingItem Work → Dispatch Work → Bool × Dispatch Work
  insert_pending id item d = elim d.closing [
    | true ↦ (false, release_permit d)
    | false ↦ (true, record d { pending = insert id item d.pending })
  ]

  -- A closed queue drops the job.
  unfoldable pub enqueue_job : Text → Dispatch Work → Dispatch Work
  enqueue_job id d = elim d.queue_open [
    | true ↦ record d { queue = d.queue ++ id ∷ [] }
    | false ↦ d
  ]

  -- `remove` under the lock, and the drop of the permit: by a worker, or by a caller that gives up.
  unfoldable pub take_pending : Text → Dispatch Work → Option (PendingItem Work) × Dispatch Work
  take_pending id d = elim (lookup id d.pending) [
    | none ↦ (none, d)
    | some item ↦ (some item, release_permit (record d { pending = remove id d.pending }))
  ]

  -- The steps of `close`, in their order. The last one drops all items, each with its permit.
  unfoldable pub close_flag : Dispatch Work → Dispatch Work
  close_flag d = record d { closing = true }

  unfoldable pub close_admission : Dispatch Work → Dispatch Work
  close_admission d = record d { admission_open = false }

  unfoldable pub close_queue : Dispatch Work → Dispatch Work
  close_queue d = record d { queue_open = false }

  unfoldable pub drain_pending : Dispatch Work → HashMap Text (PendingItem Work) × Dispatch Work
  drain_pending d =
      (d.pending, record d { pending = []; admission = d.admission + length d.pending })
