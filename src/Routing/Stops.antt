-- ===== src/Routing/Stops.antt =====
-- Jobs that stop early, and routes and switches that cannot be told apart.
use bits_broker.Prelude.{
  Bool, true, false, Option, none, some, [], Result, ok, err, panic, Text, if◌then◌else◌, ◌≡◌, ◌≢◌,
  refl, ◌⊎◌, inl, inr,
}
use bits_broker.Actions.{
  ActionError, cancelled, CheckResult, pass, check_reject, TransformResult, continue_route,
  transform_reject, TargetResult, complete, target_reject, Surroundings, Step, Action, check,
  transform, target, switch, Actions, Routes, no_routes, route, action, no_actions, is_terminal,
}
use bits_broker.Routing.{
  RouteOutcome, ran_out, then_try, run_action, run_route, after_check, after_transform,
  after_target, run_check, run_transform, run_target, try_routes, dispatch,
}
use bits_broker.Routing.Validate.{validate, validate_iff, WellFormed, RouteWellFormed}

module _ (env : Surroundings) where
  open env use {World, Job, ByteStream, is_cancelled}

  -- No run of the actions ends without a verdict.
  abbrev pub Decides : Actions env → Type 0
  Decides actions = (job : Job) (w w' : World) → run_route env actions job w ≢ (ok ran_out, w')

  abbrev pub AllDecide : Routes env → Type 0
  AllDecide no_routes = Unit
  AllDecide (route name actions rest) = Decides actions × AllDecide rest

  after_target_decides :
      (p : Result ActionError (TargetResult ByteStream) × World) (o : Option Bool) (w' : World)
      → then_try env p (after_target env o) ≢ (ok ran_out, w')
  unfolding after_target
  after_target_decides (ok (complete r), w) o w' h = cc
  after_target_decides (ok (target_reject r s), w) o w' h = cc
  after_target_decides (err e, w) o w' h = cc
  after_target_decides (panic, w) o w' h = cc

  after_check_decides :
      (p : Result ActionError CheckResult × World) (o : Option Bool) (w' : World)
      (next : Job → Step env (RouteOutcome ByteStream)) (job : Job)
      → ((j : Job) (v v' : World) → next j v ≢ (ok ran_out, v'))
      → then_try env p (after_check env o next job) ≢ (ok ran_out, w')
  unfolding after_check
  after_check_decides (ok pass, w) o w' next job later h = later job w w' h
  after_check_decides (ok (check_reject r s), w) o w' next job later h = cc
  after_check_decides (err e, w) o w' next job later h = cc
  after_check_decides (panic, w) o w' next job later h = cc

  after_transform_decides :
      (p : Result ActionError TransformResult × World) (o : Option Bool) (w' : World)
      (next : Job → Step env (RouteOutcome ByteStream)) (left : Option Job)
      → ((j : Job) (v v' : World) → next j v ≢ (ok ran_out, v'))
      → then_try env p (after_transform env o next left) ≢ (ok ran_out, w')
  unfolding after_transform
  after_transform_decides (ok continue_route, w) o w' next none later h = cc
  after_transform_decides (ok continue_route, w) o w' next (some job) later h = later job w w' h
  after_transform_decides (ok (transform_reject r s), w) o w' next none later h = cc
  after_transform_decides (ok (transform_reject r s), w) o w' next (some job) later h = cc
  after_transform_decides (err e, w) o w' next left later h = cc
  after_transform_decides (panic, w) o w' next left later h = cc

  nonterminal_decides :
      (a : Action env) (next : Job → Step env (RouteOutcome ByteStream)) (job : Job) (w w' : World)
      → ((is_terminal env a ≡ true) ⊎ ((j : Job) (v v' : World) → next j v ≢ (ok ran_out, v')))
      → run_action env a next job w ≢ (ok ran_out, w')
  unfolding run_action is_terminal
  nonterminal_decides (check c d o) next job w w' (inl e) h = cc
  nonterminal_decides (check c d o) next job w w' (inr later) h =
      after_check_decides (run_check env c d job w) o w' next job later h
  nonterminal_decides (transform t d o) next job w w' (inl e) h = cc
  nonterminal_decides (transform t d o) next job w w' (inr later) h =
      after_transform_decides ((run_transform env t d job w).0.0, (run_transform env t d job w).1) o
        w' next (run_transform env t d job w).0.1 later h
  nonterminal_decides (target t d o) next job w w' later h =
      after_target_decides (run_target env t d job w) o w' h
  nonterminal_decides (switch nested) next job w w' later h =
      after_target_decides (try_routes env nested job [] w) none w' h

  stop_or_run :
      (b : Bool) (v : World) (p : Result ActionError (RouteOutcome ByteStream) × World) (w' : World)
      → p ≢ (ok ran_out, w')
      → (if b then (err cancelled, v) else p) ≢ (ok ran_out, w')
  stop_or_run true v p w' n h = cc
  stop_or_run false v p w' n h = n h

  route-Decides : (actions : Actions env) → RouteWellFormed env actions → Decides actions
  unfolding run_route RouteWellFormed
  route-Decides no_actions h job w w' = elim h [ ]
  route-Decides (action a rest) (_, ends) job w w' =
      stop_or_run (is_cancelled job w).0 (is_cancelled job w).1 _ w' (
        nonterminal_decides a (λ j. run_route env rest j) job (is_cancelled job w).1 w'
          (elim ends [ inl (e, _) ↦ inl e | inr (_, later) ↦ inr (route-Decides rest later) ]))

  all_decide : (tree : Routes env) → WellFormed env tree → AllDecide tree
  unfolding WellFormed
  all_decide no_routes h = tt
  all_decide (route name actions rest) (h, k) = (route-Decides actions h, all_decide rest k)

  -- No route of a validated switch runs to its end without completing, rejecting or failing the job.
  pub validate-AllDecide : (tree : Routes env) → validate env tree ≡ ok tt → AllDecide tree
  validate-AllDecide tree h = all_decide tree ((validate_iff env tree).0 h)

  -- A job that is found cancelled when it reaches a validated switch with a route fails with
  -- `Cancelled`, and the world is as the look at its flag left it: no action ran.
  pub dispatch-cancelled :
      (name : Text) (actions : Actions env) (rest : Routes env) (job : Job) (w w' : World)
      → validate env (route name actions rest) ≡ ok tt
      → is_cancelled job w ≡ (true, w')
      → dispatch env (route name actions rest) job w ≡ (err cancelled, w')
  unfolding dispatch run_route WellFormed
  dispatch-cancelled name no_actions rest job w w' valid stop =
      elim ((validate_iff env (route name no_actions rest)).0 valid).0 [ ]
  dispatch-cancelled name (action a more) rest job w w' valid stop = rw stop refl
