-- ===== src/RemotePool/Steps.antt =====
-- A dispatcher whose workers are remote: callers and `close` as before, and the handlers, the reaper
-- and the tasks of the pool, one atomic step at a time.
use bits_broker.Prelude.{
  ℕ, Bool, true, false, Option, none, some, [], Text, text_eq, ◌≡◌, Result, ok, err,
}
use bits_broker.Actions.{ActionError, DispatchGuard, TargetResult}
use bits_broker.Dispatcher.{PendingItem, Dispatch, new_dispatcher, take_pending}
use bits_broker.Dispatcher.Steps.{
  Phase, not_called, is_dropped, System, Step, takes, finishes, skips, at,
}
use bits_broker.RemotePool.{
  RemotePool, WorkerOutcome, drops_item, answers_error, hands_out, guard_verdict, no_channel,
  start_work, handle_heartbeat, handle_complete, reap_one, drain_one, take_outcome,
}

-- Whether the caller no longer waits.
unfoldable pub reply_closed : {Work T : Type 0} → Phase Work T → Bool
reply_closed is_dropped = true
reply_closed _ = false

-- A step of a worker that runs here.
unfoldable pub is_local_work : {Work T : Type 0} {s s' : System Work T} → Step Work T s s' → Bool
is_local_work (takes s id e) = true
is_local_work (finishes s id result e) = true
is_local_work (skips s id p e) = true
is_local_work _ = false

module _ (Work B : Type 0) where
  -- `claiming` has the guard of each job whose item a handler of a poll holds.
  pub record Remote : Type 0 where
    pub front : System Work (TargetResult B)
    pub pool : RemotePool B
    pub claiming : Text → Option DispatchGuard

  pub data Move (heartbeat_timeout : ℕ) : Remote → Remote → Type 0 where
    calls :
        (r : Remote) {s : System Work (TargetResult B)} (st : Step Work (TargetResult B) r.front s)
        → is_local_work st ≡ false
        → Move heartbeat_timeout r (record r { front = s })
    picks :
        (r : Remote) (id : Text) {item : PendingItem Work} {d : Dispatch Work}
        → take_pending id r.front.dispatcher ≡ (some item, d)
        → Move heartbeat_timeout r (record r {
          front = record (r.front) { dispatcher = d; running = at id true r.front.running };
          claiming = at id (some item.guard) r.claiming;
        })
    gives_back :
        (r : Remote) (id : Text) (is_cancelled client_present : Bool) {guard : DispatchGuard}
        → r.claiming id ≡ some guard
        → guard_verdict guard (reply_closed (r.front.phase id)) is_cancelled client_present
          ≡ drops_item
        → Move heartbeat_timeout r (record r {
          front = record (r.front) { running = at id false r.front.running };
          claiming = at id none r.claiming;
        })
    turns_down :
        (r : Remote) (id : Text) (is_cancelled client_present : Bool) {guard : DispatchGuard}
        {error : ActionError}
        → r.claiming id ≡ some guard
        → guard_verdict guard (reply_closed (r.front.phase id)) is_cancelled client_present
          ≡ answers_error error
        → Move heartbeat_timeout r (record r {
          front = record (r.front) {
            running = at id false r.front.running;
            reply = at id (some (err error)) r.front.reply;
          };
          claiming = at id none r.claiming;
        })
    begins :
        (r : Remote) (id : Text) (is_cancelled client_present : Bool) (now : ℕ)
        {guard : DispatchGuard}
        → r.claiming id ≡ some guard
        → guard_verdict guard (reply_closed (r.front.phase id)) is_cancelled client_present
          ≡ hands_out
        → Move heartbeat_timeout r
            (record r { pool = start_work id now r.pool; claiming = at id none r.claiming })
    beats :
        (r : Remote) (id : Text) (now : ℕ)
        → Move heartbeat_timeout r (record r { pool = (handle_heartbeat id now r.pool).1 })
    completes :
        (r : Remote) (id : Text) (outcome : WorkerOutcome B)
        → Move heartbeat_timeout r (record r { pool = (handle_complete id outcome r.pool).1 })
    reaps :
        (r : Remote) (id : Text) (now : ℕ)
        → Move heartbeat_timeout r (record r { pool = reap_one heartbeat_timeout now id r.pool })
    evicts :
        (r : Remote) (id : Text)
        → Move heartbeat_timeout r (record r { pool = drain_one id r.pool })
    delivers :
        (r : Remote) (id : Text) {result : Result ActionError (TargetResult B)} {p : RemotePool B}
        → take_outcome id r.pool ≡ (some result, p)
        → Move heartbeat_timeout r (record r {
          front = record (r.front) {
            running = at id false r.front.running;
            reply = at id (some result) r.front.reply;
          };
          pool = p;
        })

  pub data RemoteReach (heartbeat_timeout queue_capacity : ℕ) : Remote → Type 0 where
    start :
        (max_permits : ℕ) {d : Dispatch Work}
        → new_dispatcher max_permits queue_capacity ≡ ok d
        → RemoteReach heartbeat_timeout queue_capacity (record {
          front = record {
            dispatcher = d;
            holding = 0;
            phase = λ id. not_called;
            running = λ id. false;
            reply = λ id. none;
            drained = false;
          };
          pool = record { in_progress = []; outcome = λ id. no_channel };
          claiming = λ id. none;
        })
    move :
        {r r' : Remote}
        → RemoteReach heartbeat_timeout queue_capacity r
        → Move heartbeat_timeout r r'
        → RemoteReach heartbeat_timeout queue_capacity r'
