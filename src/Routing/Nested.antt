-- ===== src/Routing/Nested.antt =====
-- A switch inside a switch.
use bits_broker.Prelude.{
  Bool, false, none, List, [], ◌∷◌, Result, ok, err, panic, Text, ◌≡◌, refl, ap,
}
use bits_broker.Actions.{
  ActionError, TargetResult, complete, target_reject, Surroundings, switch, Routes, no_routes,
  route, action, no_actions,
}
use bits_broker.Routing.{
  report, push_reason, then_try, after_route, after_target, try_routes, dispatch, join,
}
use bits_broker.Routing.First.{dispatch_reject_iff}

-- What a switch answers is what a switch reports that passes only that answer on.
report_again :
    {B : Type 0} (all : List Text) {reason : Text} {silent : Bool}
    → report {B = B} all ≡ target_reject reason silent
    → report {B = B} (push_reason [] reason silent) ≡ target_reject reason silent
unfolding report push_reason join
report_again [] h = cc
report_again (x ∷ xs) h = cc

module _ (env : Surroundings) where
  open env use {World, Job, ByteStream, is_cancelled}

  answer_again :
      (p : Result ActionError (TargetResult ByteStream) × World)
      → ((reason : Text) (silent : Bool) (v : World)
          → p ≡ (ok (target_reject reason silent), v)
          → report {B = ByteStream} (push_reason [] reason silent) ≡ target_reject reason silent)
      → then_try env
          (then_try env p (after_target env none))
          (after_route env (λ rs v. (ok (report rs), v)) [])
        ≡ p
  unfolding after_target after_route
  answer_again (ok (complete r), w) h = refl
  answer_again (ok (target_reject reason silent), w) h =
      ap (λ x. (ok x, w)) (h reason silent w refl)
  answer_again (err e, w) h = refl
  answer_again (panic, w) h = refl

  -- A switch whose only route is a nested switch answers a job that is not cancelled as the nested
  -- switch does, rejections included.
  pub dispatch-nested :
      (name : Text) (nested : Routes env) (job : Job) (w w' : World)
      → is_cancelled job w ≡ (false, w')
      → dispatch env (route name (action (switch nested) no_actions) no_routes) job w
        ≡ dispatch env nested job w'
  unfolding dispatch try_routes
  dispatch-nested name nested job w w' go = rw go (
      answer_again (dispatch env nested job w') (λ reason silent v e.
        let (all, _, h) = (dispatch_reject_iff env nested job w' reason silent v).0 e in
        report_again all h))
