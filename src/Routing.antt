-- ===== src/Routing.antt =====
-- bits/src/routing/switch.rs: validating, running, closing and describing a tree of routes.
pub mod Validate
pub mod First
pub mod Stops
pub mod Nested
pub mod Samples
mod Tests
use bits_broker.Prelude.{
  ℕ, suc, ◌+◌, Bool, true, false, Option, none, some, List, [], ◌∷◌, ◌++◌, map, Result, ok, err,
  panic, ◌>>=◌, Text, ◌==◌, not, if◌then◌else◌, length,
}
use bits_broker.Actions.{
  ActionError, cancelled, client_gone, resource_error, DispatchGuard, guard_cancelled,
  guard_cancelled_or_client_gone, JobResult, CheckResult, pass, check_reject, TransformResult,
  continue_route, transform_reject, TargetResult, complete, target_reject, Surroundings, Step,
  CheckAction, TransformAction, TargetAction, Dispatcher, Action, check, transform, target, switch,
  Actions, no_actions, action, Routes, no_routes, route, is_terminal,
}

-- What a route did with a job that it did not fail on.
pub data RouteOutcome (ByteStream : Type 0) : Type 0 where
  completed : JobResult ByteStream → RouteOutcome ByteStream
  rejected : Text → Bool → RouteOutcome ByteStream  -- reason, silent
  ran_out : RouteOutcome ByteStream

-- "; "
abbrev separator : Text
separator = b';' ∷ b' ' ∷ []

unfoldable pub join : List Text → Text
join [] = []
join (r ∷ []) = r
join (r ∷ s ∷ rs) = r ++ separator ++ join (s ∷ rs)

abbrev pub or_else : Option Bool → Bool → Bool
or_else none b = b
or_else (some o) b = o

abbrev pub no_route_matched : Text
no_route_matched =
    b'n' ∷ b'o' ∷ b' ' ∷ b'r' ∷ b'o' ∷ b'u' ∷ b't' ∷ b'e' ∷ b' ' ∷ b'm' ∷ b'a' ∷ b't' ∷ b'c' ∷ b'h'
    ∷ b'e' ∷ b'd' ∷ b' ' ∷ b't' ∷ b'h' ∷ b'e' ∷ b' ' ∷ b'r' ∷ b'e' ∷ b'q' ∷ b'u' ∷ b'e' ∷ b's'
    ∷ b't' ∷ []

abbrev pub transform_still_shared : Text
transform_still_shared =
    b't' ∷ b'r' ∷ b'a' ∷ b'n' ∷ b's' ∷ b'f' ∷ b'o' ∷ b'r' ∷ b'm' ∷ b' ' ∷ b'A' ∷ b'r' ∷ b'c' ∷ b' '
    ∷ b's' ∷ b't' ∷ b'i' ∷ b'l' ∷ b'l' ∷ b' ' ∷ b's' ∷ b'h' ∷ b'a' ∷ b'r' ∷ b'e' ∷ b'd' ∷ b' '
    ∷ b'a' ∷ b'f' ∷ b't' ∷ b'e' ∷ b'r' ∷ b' ' ∷ b'd' ∷ b'i' ∷ b's' ∷ b'p' ∷ b'a' ∷ b't' ∷ b'c'
    ∷ b'h' ∷ []

-- What a switch answers when no route took the job.
unfoldable pub report : {B : Type 0} → List Text → TargetResult B
report [] = target_reject no_route_matched true
report (r ∷ rs) = target_reject (join (r ∷ rs)) false

unfoldable pub push_reason : List Text → Text → Bool → List Text
push_reason rejections reason silent = if silent then rejections else rejections ++ reason ∷ []

module _ (env : Surroundings) where
  open env use {World, Job, ByteStream, Value, is_cancelled, client_present, is_nonempty_object}

  -- `?` on an awaited future.
  abbrev pub then_try :
      {A B : Type 0}
      → Result ActionError A × World
      → (A → Step env B)
      → Result ActionError B × World
  then_try (ok a, w) f = f a w
  then_try (err e, w) f = (err e, w)
  then_try (panic, w) f = (panic, w)

  abbrev pub without_clone :
      {A B : Type 0} → (Result ActionError A × B) × World → Result ActionError A × World
  without_clone ((r, b), w) = (r, w)

  abbrev pub with_clone :
      {A : Type 0} → Job → Result ActionError A × World → (Result ActionError A × Job) × World
  with_clone job (r, w) = ((r, job), w)

  unfoldable pub run_check :
      CheckAction env → Option (Dispatcher env CheckResult) → Job → Step env CheckResult
  run_check c none job w = c.evaluate job w
  run_check c (some d) job w =
      without_clone (d.dispatch job guard_cancelled (λ v. with_clone job (c.evaluate job v)) w)

  -- The result of a transform, and the job that goes on after `Continue`.
  unfoldable pub run_transform :
      TransformAction env
      → Option (Dispatcher env TransformResult)
      → Job
      → World
      → (Result ActionError TransformResult × Option Job) × World
  run_transform t none job w = let ((r, left), w') = t.execute job w in ((r, some left), w')
  run_transform t (some d) job w = d.dispatch job guard_cancelled (λ v. t.execute job v) w

  unfoldable pub run_target :
      TargetAction env
      → Option (Dispatcher env (TargetResult ByteStream))
      → Job
      → Step env (TargetResult ByteStream)
  run_target t (some d) job w =
      without_clone
        (d.dispatch job guard_cancelled_or_client_gone (λ v. with_clone job (t.dispatch job v)) w)
  run_target t none job w =
      let (stop, w1) = is_cancelled job w in
      if stop
      then (err cancelled, w1)
      else (let (present, w2) = client_present job w1 in
          if present then t.dispatch job w2 else (err client_gone, w2))

  unfoldable pub after_check :
      Option Bool
      → (Job → Step env (RouteOutcome ByteStream))
      → Job
      → CheckResult
      → Step env (RouteOutcome ByteStream)
  after_check o next job pass w = next job w
  after_check o next job (check_reject reason silent) w =
      (ok (rejected reason (or_else o silent)), w)

  unfoldable pub after_transform :
      Option Bool
      → (Job → Step env (RouteOutcome ByteStream))
      → Option Job
      → TransformResult
      → Step env (RouteOutcome ByteStream)
  after_transform o next (some job) continue_route w = next job w
  after_transform o next none continue_route w = (err (resource_error transform_still_shared), w)
  after_transform o next left (transform_reject reason silent) w =
      (ok (rejected reason (or_else o silent)), w)

  unfoldable pub after_target :
      Option Bool → TargetResult ByteStream → Step env (RouteOutcome ByteStream)
  after_target o (complete result) w = (ok (completed result), w)
  after_target o (target_reject reason silent) w = (ok (rejected reason (or_else o silent)), w)

  unfoldable pub after_route :
      (List Text → Step env (TargetResult ByteStream))
      → List Text
      → RouteOutcome ByteStream
      → Step env (TargetResult ByteStream)
  after_route later rejections (completed result) w = (ok (complete result), w)
  after_route later rejections (rejected reason silent) w =
      later (push_reason rejections reason silent) w
  after_route later rejections ran_out w = later rejections w

  unfoldable mutual
    -- One action of a route; `next` runs the rest of the route.
    pub run_action :
        Action env
        → (Job → Step env (RouteOutcome ByteStream))
        → Job
        → Step env (RouteOutcome ByteStream)
    run_action (check c d o) next job w = then_try (run_check c d job w) (after_check o next job)
    run_action (transform t d o) next job w =
        let ((r, left), w') = run_transform t d job w in
        then_try (r, w') (after_transform o next left)
    run_action (target t d o) next job w = then_try (run_target t d job w) (after_target o)
    run_action (switch nested) next job w =
        then_try (try_routes nested job [] w) (after_target none)

    pub run_route : Actions env → Job → Step env (RouteOutcome ByteStream)
    run_route no_actions job w = (ok ran_out, w)
    run_route (action a rest) job w =
        let (stop, w') = is_cancelled job w in
        if stop then (err cancelled, w') else run_action a (λ j. run_route rest j) job w'

    -- The routes of a switch in order, with the reasons of the rejections so far.
    pub try_routes : Routes env → Job → List Text → Step env (TargetResult ByteStream)
    try_routes no_routes job rejections w = (ok (report rejections), w)
    try_routes (route name actions rest) job rejections w =
        then_try (run_route actions job w)
          (λ outcome. after_route (λ rs. try_routes rest job rs) rejections outcome)

  unfoldable pub dispatch : Routes env → Job → Step env (TargetResult ByteStream)
  dispatch tree job w = try_routes tree job [] w

  -- `Some(d) => d.close()`
  unfoldable pub close_dispatcher : {T : Type 0} → Option (Dispatcher env T) → World → World
  close_dispatcher none w = w
  close_dispatcher (some d) w = d.close w

  unfoldable mutual
    pub close : Action env → World → World
    close (check c d o) w = close_dispatcher d w
    close (transform t d o) w = close_dispatcher d w
    close (target t d o) w = close_dispatcher d w
    close (switch nested) w = close_all nested w

    pub close_actions : Actions env → World → World
    close_actions no_actions w = w
    close_actions (action a rest) w = close_actions rest (close a w)

    pub close_all : Routes env → World → World
    close_all no_routes w = w
    close_all (route name actions rest) w = close_all rest (close_actions actions w)

  described : Value → List Value
  described desc = if is_nonempty_object desc then desc ∷ [] else []

  unfoldable mutual
    unfolding described

    -- A switch describes itself by an empty object, which is left out.
    pub describe_action : Action env → List Value
    describe_action (check c d o) = described c.describe
    describe_action (transform t d o) = described t.describe
    describe_action (target t d o) = described t.describe
    describe_action (switch nested) = describe_actions nested

    pub describe_route : Actions env → List Value
    describe_route no_actions = []
    describe_route (action a rest) = describe_action a ++ describe_route rest

    pub describe_actions : Routes env → List Value
    describe_actions no_routes = []
    describe_actions (route name actions rest) = describe_route actions ++ describe_actions rest
