-- ===== src/Routing/Samples.antt =====
-- A small world: a clock that every look at a job moves, and two routes.
use bits_broker.Prelude.{ℕ, suc, true, false, none, [], ◌∷◌, ok, leb, ltb}
use bits_broker.Actions.{
  Surroundings, CheckAction, check_reject, TargetAction, complete, success, JobResult, Routes,
  no_routes, route, Actions, no_actions, action, check, target,
}

-- Every job is cancelled from time 100 on.
abbrev pub clock : Surroundings
clock = record {
  World = ℕ;
  Job = ℕ;
  ByteStream = ℕ;
  Value = ℕ;
  is_cancelled = λ job w. (leb 100 w, suc w);
  client_present = λ job w. (true, w);
  is_nonempty_object = λ v. ltb 0 v;
}

abbrev pub never : CheckAction clock
never = record { evaluate = λ job w. (ok (check_reject (b'n' ∷ b'o' ∷ []) false), w); describe = 0 }

abbrev pub result : JobResult ℕ
result = success (b't' ∷ []) 7 7

abbrev pub store : TargetAction clock
store = record { dispatch = λ job w. (ok (complete result), w); describe = 1 }

abbrev pub closed_route : Actions clock
closed_route = action (check never none none) (action (target store none none) no_actions)

abbrev pub open_route : Actions clock
open_route = action (target store none none) no_actions

abbrev pub two_routes : Routes clock
two_routes = route (b'a' ∷ []) closed_route (route (b'b' ∷ []) open_route no_routes)

abbrev pub closed : Routes clock
closed = route (b'a' ∷ []) closed_route no_routes
