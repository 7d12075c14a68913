-- ===== src/Routing/Tests.antt =====
-- The theorems of the router at two routes.
use bits_broker.Prelude.{ℕ, List, Text, false, [], ◌∷◌, ok, err, ◌≡◌, ◌↔◌, refl}
use bits_broker.Actions.{
  cancelled, complete, target_reject, is_terminal, route, no_routes, switch, action, no_actions,
}
use bits_broker.Routing.{dispatch, report}
use bits_broker.Routing.Validate.{validate, validate_iff, WellFormed, after_terminal}
use bits_broker.Routing.First.{
  CompletesFirst, PassedOver, dispatch_complete_iff, dispatch_reject_iff,
}
use bits_broker.Routing.Stops.{dispatch-cancelled}
use bits_broker.Routing.Nested.{dispatch-nested}
use bits_broker.Routing.Samples.{clock, two_routes, closed, closed_route, open_route, result}

validate_iff_example : (validate clock two_routes ≡ ok tt) ↔ WellFormed clock two_routes
validate_iff_example = validate_iff clock two_routes

dispatch_complete_iff_example :
    (dispatch clock two_routes 5 10 ≡ (ok (complete result), 13))
    ↔ CompletesFirst clock two_routes 5 10 result 13
dispatch_complete_iff_example = dispatch_complete_iff clock two_routes 5 10 result 13

dispatch_reject_iff_example :
    (dispatch clock closed 5 10 ≡ (ok (target_reject (b'n' ∷ b'o' ∷ []) false), 11)) ↔ (
      (all : List Text) × PassedOver clock closed 5 10 all 11
      × (report {B = ℕ} all ≡ target_reject (b'n' ∷ b'o' ∷ []) false))
dispatch_reject_iff_example = dispatch_reject_iff clock closed 5 10 (b'n' ∷ b'o' ∷ []) false 11

two_routes_valid : validate clock two_routes ≡ ok tt
unfolding validate after_terminal is_terminal
two_routes_valid = refl

dispatch-cancelled_example : dispatch clock two_routes 5 100 ≡ (err cancelled, 101)
dispatch-cancelled_example =
    dispatch-cancelled clock (b'a' ∷ []) closed_route (route (b'b' ∷ []) open_route no_routes) 5 100
      101 two_routes_valid refl

dispatch-nested_example :
    dispatch clock (route (b'n' ∷ []) (action (switch two_routes) no_actions) no_routes) 5 10
    ≡ dispatch clock two_routes 5 11
dispatch-nested_example = dispatch-nested clock (b'n' ∷ []) two_routes 5 10 11 refl
