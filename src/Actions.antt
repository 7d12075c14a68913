-- ===== src/Actions.antt =====
-- bits/src/actions/mod.rs, bits/src/routing/mod.rs and bits/src/result.rs: the actions of a route,
-- their results, and the routing tree.
use bits_broker.Prelude.{ℕ, Bool, true, false, Option, none, Result, Text}

pub data ActionError : Type 0 where
  network_error : Text → ActionError
  queue_full : Text → ActionError
  timeout : Text → ActionError
  config_error : Text → ActionError
  auth_error : Text → ActionError
  resource_error : Text → ActionError
  cancelled : ActionError
  client_gone : ActionError
  user_limit_exceeded : Text → ActionError

unfoldable pub action_is_retryable : ActionError → Bool
action_is_retryable (network_error m) = true
action_is_retryable (timeout m) = true
action_is_retryable (queue_full m) = true
action_is_retryable _ = false

pub data DispatchGuard : Type 0 where
  no_guard : DispatchGuard
  guard_cancelled : DispatchGuard
  guard_cancelled_or_client_gone : DispatchGuard

-- The stream of a successful result is a parameter.
pub data JobResult (ByteStream : Type 0) : Type 0 where
  success : Text → ℕ → ByteStream → JobResult ByteStream
  redirect : Text → Text → Option Text → Option ℕ → JobResult ByteStream
  job_error : Text → JobResult ByteStream
  failed : Text → JobResult ByteStream
  overloaded : Text → JobResult ByteStream
  rate_limited : Text → JobResult ByteStream
  job_cancelled : JobResult ByteStream
  job_client_gone : JobResult ByteStream

unfoldable pub is_deliverable : {B : Type 0} → JobResult B → Bool
is_deliverable (success t n b) = true
is_deliverable (redirect l m t n) = true
is_deliverable _ = false

pub data CheckResult : Type 0 where
  pass : CheckResult
  check_reject : Text → Bool → CheckResult  -- reason, silent

pub data TransformResult : Type 0 where
  continue_route : TransformResult
  transform_reject : Text → Bool → TransformResult

pub data TargetResult (ByteStream : Type 0) : Type 0 where
  complete : JobResult ByteStream → TargetResult ByteStream
  target_reject : Text → Bool → TargetResult ByteStream

-- The surroundings of a routed job. Everything that other tasks, clocks and actions may change is in
-- World, so that reading a flag of a job is a step too.
pub record Surroundings : Type 1 where
  pub World : Type 0
  pub Job : Type 0
  pub ByteStream : Type 0
  pub Value : Type 0  -- JSON
  pub is_cancelled : Job → World → Bool × World
  pub client_present : Job → World → Bool × World
  pub is_nonempty_object : Value → Bool

module _ (env : Surroundings) where
  open env use {World, Job, ByteStream, Value}

  -- A future that is awaited: a result, or an unwinding panic, and what happened meanwhile.
  abbrev pub Step : Type 0 → Type 0
  Step A = World → Result ActionError A × World

  pub record CheckAction : Type 0 where
    pub evaluate : Job → Step CheckResult
    pub describe : Value

  -- The job is borrowed mutably: what becomes of it is a part of the outcome.
  pub record TransformAction : Type 0 where
    pub execute : Job → World → (Result ActionError TransformResult × Job) × World
    pub describe : Value

  pub record TargetAction : Type 0 where
    pub dispatch : Job → Step (TargetResult ByteStream)
    pub describe : Value

  -- A dispatcher is handed the job, a guard, and work on a clone of the job. It returns what the work
  -- or itself answers, and the clone as the work left it, if the work is gone by then.
  pub record Dispatcher (T : Type 0) : Type 0 where
    pub dispatch :
        Job
        → DispatchGuard
        → (World → (Result ActionError T × Job) × World)
        → World
        → (Result ActionError T × Option Job) × World
    pub close : World → World

  mutual
    pub data Action : Type 0 where
      check : CheckAction → Option (Dispatcher CheckResult) → Option Bool → Action
      transform : TransformAction → Option (Dispatcher TransformResult) → Option Bool → Action
      target : TargetAction → Option (Dispatcher (TargetResult ByteStream)) → Option Bool → Action
      switch : Routes → Action

    pub data Actions : Type 0 where
      no_actions : Actions
      action : Action → Actions → Actions

    -- The routes of a switch: the name and the actions of each.
    pub data Routes : Type 0 where
      no_routes : Routes
      route : Text → Actions → Routes → Routes

  unfoldable pub is_terminal : Action → Bool
  is_terminal (check c d o) = false
  is_terminal (transform t d o) = false
  is_terminal (target t d o) = true
  is_terminal (switch nested) = true

  unfoldable pub silent_override : Action → Option Bool
  silent_override (check c d o) = o
  silent_override (transform t d o) = o
  silent_override (target t d o) = o
  silent_override (switch nested) = none
