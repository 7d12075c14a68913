-- ===== src/Dispatcher/Steps.antt =====
-- All callers and workers of a dispatcher, and `close`: what can happen next, one atomic step of one
-- task at a time.
use bits_broker.Prelude.{
  ℕ, suc, Bool, true, false, Option, none, some, Result, ok, err, Text, text_beq, text_eq, lookup,
  if◌then◌else◌, ◌≡◌,
}
use bits_broker.Actions.{ActionError}
use bits_broker.Dispatcher.{
  PendingItem, Dispatch, dispatcher_closed, guard_error, still_abandoned, new_dispatcher,
  acquire_permit, insert_pending, enqueue_job, take_pending, close_flag, close_admission,
  close_queue, drain_pending,
}

abbrev pub is_some : {A : Type 0} → Option A → Bool
is_some none = false
is_some (some a) = true

-- One value of a function changes.
unfoldable pub at : {A : Type 0} → Text → A → (Text → A) → Text → A
at id v f k = if text_beq id k then v else f k

module _ (Work T : Type 0) where
  -- Where the call of `dispatch` for a job is.
  pub data Phase : Type 0 where
    not_called : Phase
    holds_permit : Phase
    in_map : Phase
    waits : Phase
    gives_up : Phase
    returns : Phase
    is_dropped : Phase

  -- The workers that have taken an item and not answered yet, by the job, and the replies that are
  -- sent and not received.
  pub record System : Type 0 where
    pub dispatcher : Dispatch Work
    pub holding : ℕ
    pub phase : Text → Phase
    pub running : Text → Bool
    pub reply : Text → Option (Result ActionError T)
    pub drained : Bool

  -- Each job is dispatched once. The checks of `closing` before and in the lock are one kind of step, as
  -- are all turns of the wait that find nothing. A worker may ask for any job, at any time.
  pub data Step : System → System → Type 0 where
    acquires :
        (s : System) (id : Text) {d : Dispatch Work}
        → s.phase id ≡ not_called
        → acquire_permit s.dispatcher ≡ ok d
        → Step s (record s {
          dispatcher = d;
          holding = suc s.holding;
          phase = at id holds_permit s.phase;
        })
    is_turned_away :
        (s : System) (id : Text) {e : ActionError}
        → s.phase id ≡ not_called
        → acquire_permit s.dispatcher ≡ err e
        → Step s (record s { phase = at id returns s.phase })
    enters :
        (s : System) (id : Text) (item : PendingItem Work) {n : ℕ} {d : Dispatch Work}
        → s.phase id ≡ holds_permit
        → s.holding ≡ suc n
        → insert_pending id item s.dispatcher ≡ (true, d)
        → Step s (record s { dispatcher = d; holding = n; phase = at id in_map s.phase })
    is_refused :
        (s : System) (id : Text) (item : PendingItem Work) {n : ℕ} {d : Dispatch Work}
        → s.phase id ≡ holds_permit
        → s.holding ≡ suc n
        → insert_pending id item s.dispatcher ≡ (false, d)
        → Step s (record s { dispatcher = d; holding = n; phase = at id returns s.phase })
    enqueues :
        (s : System) (id : Text)
        → s.phase id ≡ in_map
        → Step s
            (record s { dispatcher = enqueue_job id s.dispatcher; phase = at id waits s.phase })
    takes :
        (s : System) (id : Text) {item : PendingItem Work} {d : Dispatch Work}
        → take_pending id s.dispatcher ≡ (some item, d)
        → Step s (record s { dispatcher = d; running = at id true s.running })
    finishes :
        (s : System) (id : Text) (result : Result ActionError T)
        → s.running id ≡ true
        → Step s (record s { running = at id false s.running; reply = at id (some result) s.reply })
    -- The reply channel is closed: the worker drops the work.
    skips :
        (s : System) (id : Text)
        → s.phase id ≡ is_dropped
        → s.running id ≡ true
        → Step s (record s { running = at id false s.running })
    receives :
        (s : System) (id : Text) {result : Result ActionError T}
        → s.phase id ≡ waits
        → s.reply id ≡ some result
        → Step s (record s { phase = at id returns s.phase; reply = at id none s.reply })
    abandons :
        (s : System) (id : Text) (is_cancelled client_present cancelled_still present_still : Bool)
        {item : PendingItem Work} {d : Dispatch Work} {error : ActionError}
        → s.phase id ≡ waits
        → guard_error item.guard is_cancelled client_present ≡ some error
        → still_abandoned error cancelled_still present_still ≡ true
        → take_pending id s.dispatcher ≡ (some item, d)
        → Step s (record s { dispatcher = d; phase = at id gives_up s.phase })
    drops :
        (s : System) (id : Text)
        → s.phase id ≡ waits
        → Step s (record s { phase = at id is_dropped s.phase })
    flags : (s : System) → Step s (record s { dispatcher = close_flag s.dispatcher })
    shuts_admission : (s : System) → Step s (record s { dispatcher = close_admission s.dispatcher })
    shuts_queue : (s : System) → Step s (record s { dispatcher = close_queue s.dispatcher })
    drains :
        (s : System)
        → s.dispatcher.closing ≡ true
        → Step s (record s {
          dispatcher = (drain_pending s.dispatcher).1;
          reply = λ k.
              if is_some (lookup k s.dispatcher.pending)
              then some (err dispatcher_closed)
              else s.reply k;
          drained = true;
        })

  pub data Reach (queue_capacity : ℕ) : System → Type 0 where
    start :
        (max_permits : ℕ) {d : Dispatch Work}
        → new_dispatcher max_permits queue_capacity ≡ ok d
        → Reach queue_capacity (record {
          dispatcher = d;
          holding = 0;
          phase = λ id. not_called;
          running = λ id. false;
          reply = λ id. none;
          drained = false;
        })
    step : {s s' : System} → Reach queue_capacity s → Step s s' → Reach queue_capacity s'
