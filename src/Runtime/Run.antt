-- ===== src/Runtime/Run.antt =====
-- What becomes of a job that the router answers.
use bits_broker.Prelude.{Bool, true, List, ok, Text, ◌≡◌, ap}
use bits_broker.Actions.{
  Surroundings, Routes, route, Actions, JobResult, job_error, job_cancelled, target_reject,
}
use bits_broker.Routing.{dispatch, report}
use bits_broker.Routing.Validate.{validate}
use bits_broker.Routing.First.{PassedOver, dispatch_reject_iff}
use bits_broker.Routing.Stops.{dispatch-cancelled}
use bits_broker.Runtime.{job_result_of}

module _ (env : Surroundings) where
  open env use {World, Job, ByteStream, is_cancelled}

  -- `dispatch` of the runner, with the caught panic.
  unfoldable pub run_job : Routes env → Job → World → JobResult ByteStream × World
  run_job tree job w = let (answer, w') = dispatch env tree job w in (job_result_of answer, w')

  -- A job that is found cancelled when it reaches a validated router with a route ends as cancelled,
  -- and no action runs.
  pub run_job-cancelled :
      (name : Text) (actions : Actions env) (rest : Routes env) (job : Job) (w w' : World)
      → validate env (route name actions rest) ≡ ok tt
      → is_cancelled job w ≡ (true, w')
      → run_job (route name actions rest) job w ≡ (job_cancelled, w')
  unfolding run_job job_result_of
  run_job-cancelled name actions rest job w w' valid stop =
      ap (λ p. (job_result_of p.0, p.1))
        (dispatch-cancelled env name actions rest job w w' valid stop)

  -- A job that every route passes over ends in an error, with the report of the switch for its message.
  pub run_job-PassedOver :
      (tree : Routes env) (job : Job) (w w' : World) (all : List Text) (reason : Text)
      (silent : Bool)
      → PassedOver env tree job w all w'
      → report {B = ByteStream} all ≡ target_reject reason silent
      → run_job tree job w ≡ (job_error reason, w')
  unfolding run_job job_result_of
  run_job-PassedOver tree job w w' all reason silent passed h =
      ap (λ p. (job_result_of p.0, p.1))
        ((dispatch_reject_iff env tree job w reason silent w').1 (all, passed, h))
