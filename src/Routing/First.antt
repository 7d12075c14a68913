-- ===== src/Routing/First.antt =====
-- A switch against its description: the first route that takes the job answers, and otherwise the
-- reasons of the routes are reported.
use bits_broker.Prelude.{
  Bool, true, false, Option, none, some, List, [], ◌∷◌, ◌++◌, Result, ok, err, panic, Text,
  if◌then◌else◌, ◌≡◌, ◌≢◌, refl, ◌↔◌, ◌⊎◌, inl, inr, Option-cases, arith,
}
use mathlib.Core.List.{append_assoc, append-nil}
use bits_broker.Actions.{
  ActionError, JobResult, TargetResult, complete, target_reject, Surroundings, Step, Routes,
  no_routes, route,
}
use bits_broker.Routing.{
  RouteOutcome, completed, rejected, ran_out, report, push_reason, then_try, run_route, after_route,
  try_routes, dispatch,
}

-- What a route that did not take the job adds to the report of its switch.
unfoldable pub reasons : {B : Type 0} → RouteOutcome B → Option (List Text)
reasons (completed r) = none
reasons (rejected reason silent) = some (if silent then [] else reason ∷ [])
reasons ran_out = some []

module _ (env : Surroundings) where
  open env use {World, Job, ByteStream}

  -- A route is passed over, with the reasons that it adds.
  abbrev pub Passes :
      Result ActionError (RouteOutcome ByteStream) × World → List Text → World → Type 0
  Passes p rs w' = (o : RouteOutcome ByteStream) × (p ≡ (ok o, w')) × (reasons o ≡ some rs)

  -- Some route takes the job and completes it, after all routes before it were passed over.
  abbrev pub CompletesFirst : Routes env → Job → World → JobResult ByteStream → World → Type 0
  CompletesFirst no_routes job w r w' = ⊥
  CompletesFirst (route name actions rest) job w r w' =
      (run_route env actions job w ≡ (ok (completed r), w'))
      ⊎ ((rs : List Text) × (v : World) × Passes (run_route env actions job w) rs v
          × CompletesFirst rest job v r w')

  -- Every route is passed over, with the reasons that they add in order.
  abbrev pub PassedOver : Routes env → Job → World → List Text → World → Type 0
  PassedOver no_routes job w all w' = (all ≡ []) × (w ≡ w')
  PassedOver (route name actions rest) job w all w' =
      (rs : List Text) × (later : List Text) × (v : World) × Passes (run_route env actions job w) rs
        v
      × PassedOver rest job v later w'
      × (all ≡ rs ++ later)

  passed_step :
      (o : RouteOutcome ByteStream) (w : World)
      (later : List Text → Step env (TargetResult ByteStream)) (rejections : List Text)
      {rs : List Text}
      → reasons o ≡ some rs
      → after_route env later rejections o w ≡ later (rejections ++ rs) w
  unfolding after_route reasons push_reason
  passed_step (completed x) w later rejections h = cc
  passed_step (rejected x true) w later rejections h = ground (arith, append-nil rejections)
  passed_step (rejected x false) w later rejections h = ground arith
  passed_step ran_out w later rejections h = ground (arith, append-nil rejections)

  completes : (r : JobResult ByteStream) → reasons (completed r) ≡ none
  unfolding reasons
  completes r = refl

  complete_only :
      (o : RouteOutcome ByteStream) (w : World)
      (later : List Text → Step env (TargetResult ByteStream)) (rejections : List Text)
      → reasons o ≡ none
      → (r : JobResult ByteStream) × (o ≡ completed r)
        × (after_route env later rejections o w ≡ (ok (complete r), w))
  unfolding after_route reasons
  complete_only (completed x) w later rejections h = (x, refl, refl)
  complete_only (rejected x b) w later rejections h = cc
  complete_only ran_out w later rejections h = cc

  -- One route, whatever is to be shown of the answer.
  route_step :
      (p : Result ActionError (RouteOutcome ByteStream) × World)
      (later : List Text → Step env (TargetResult ByteStream)) (rejections : List Text)
      {t : TargetResult ByteStream} {w' : World}
      → (then_try env p (after_route env later rejections) ≡ (ok t, w')) ↔ (
          ((r : JobResult ByteStream) × (p ≡ (ok (completed r), w')) × (t ≡ complete r))
          ⊎ ((rs : List Text) × (v : World) × Passes p rs v
              × (later (rejections ++ rs) v ≡ (ok t, w'))))
  route_step (ok o, w) later rejections = elim (Option-cases (reasons o)) [
    | inl e ↦
        let (r, f, g) = complete_only o w later rejections e in
        (
          λ h. inl (r, cc, cc),
          λ s. elim s [ inl (r', x, y) ↦ cc | inr (rs, v, (o', x, y), z) ↦ cc ],
        )
    | inr (rs, e) ↦
        let g = passed_step o w later rejections e in
        (
          λ h. inr (rs, w, (o, refl, e), cc),
          λ s. elim s [ inl (r', x, y) ↦ cc (completes r') | inr (rs', v, (o', x, y), z) ↦ cc ],
        )
  ]
  route_step (err e, w) later rejections =
      (λ h. cc, λ s. elim s [ inl (r', x, y) ↦ cc | inr (rs, v, (o', x, y), z) ↦ cc ])
  route_step (panic, w) later rejections =
      (λ h. cc, λ s. elim s [ inl (r', x, y) ↦ cc | inr (rs, v, (o', x, y), z) ↦ cc ])

  complete-ne-report :
      (rejections : List Text) {r : JobResult ByteStream} → complete r ≢ report rejections
  unfolding report
  complete-ne-report [] h = cc
  complete-ne-report (x ∷ xs) h = cc

  try_routes_complete :
      (tree : Routes env) (job : Job) (rejections : List Text) (w : World)
      {r : JobResult ByteStream} {w' : World}
      → (try_routes env tree job rejections w ≡ (ok (complete r), w'))
        ↔ CompletesFirst tree job w r w'
  unfolding try_routes
  try_routes_complete no_routes job rejections w {r} =
      (λ e. complete-ne-report rejections {r = r} cc, λ e. elim e [ ])
  try_routes_complete (route name actions rest) job rejections w {r} = (
    λ e.
        elim ((route_step (run_route env actions job w) (try_routes env rest job) rejections).0 e) [
          | inl (r', x, y) ↦ inl cc
          | inr (rs, v, x, y) ↦
              inr (rs, v, x, (try_routes_complete rest job (rejections ++ rs) v).0 y)
        ],
    λ s. (route_step (run_route env actions job w) (try_routes env rest job) rejections).1 (elim s [
      | inl x ↦ inl (_, x, refl)
      | inr (rs, v, x, y) ↦ inr (rs, v, x, (try_routes_complete rest job (rejections ++ rs) v).1 y)
    ]),
  )

  -- A switch completes a job exactly when one of its routes does, after every route before it was
  -- passed over, each on the world that the one before it left; its answer is that route's.
  pub dispatch_complete_iff :
      (tree : Routes env) (job : Job) (w : World) (r : JobResult ByteStream) (w' : World)
      → (dispatch env tree job w ≡ (ok (complete r), w')) ↔ CompletesFirst tree job w r w'
  unfolding dispatch
  dispatch_complete_iff tree job w r w' = try_routes_complete tree job [] w

  try_routes_reject :
      (tree : Routes env) (job : Job) (rejections : List Text) (w : World) {reason : Text}
      {silent : Bool} {w' : World}
      → (try_routes env tree job rejections w ≡ (ok (target_reject reason silent), w')) ↔ (
          (all : List Text) × PassedOver tree job w all w'
          × (report {B = ByteStream} (rejections ++ all) ≡ target_reject reason silent))
  unfolding try_routes
  try_routes_reject no_routes job rejections w = (
    λ e. ([], (refl, cc), cc (append-nil rejections)),
    λ (all, (x, y), z). cc (append-nil rejections),
  )
  try_routes_reject (route name actions rest) job rejections w = (
    λ e.
        elim ((route_step (run_route env actions job w) (try_routes env rest job) rejections).0 e) [
          | inl (r', x, y) ↦ cc
          | inr (rs, v, x, y) ↦
              let (later, p, q) = (try_routes_reject rest job (rejections ++ rs) v).0 y in
              (rs ++ later, (rs, later, v, x, p, refl), cc (append_assoc rejections rs later))
        ],
    λ (all, (rs, later, v, x, p, f), q).
        (route_step (run_route env actions job w) (try_routes env rest job) rejections).1 (
          inr (
            rs,
            v,
            x,
            (try_routes_reject rest job (rejections ++ rs) v).1
                (later, p, cc (append_assoc rejections rs later)),
          )),
  )

  -- A switch rejects a job exactly when every route was passed over, each on the world that the one
  -- before it left; its answer is the report of the reasons that they gave out loud, in their order.
  pub dispatch_reject_iff :
      (tree : Routes env) (job : Job) (w : World) (reason : Text) (silent : Bool) (w' : World)
      → (dispatch env tree job w ≡ (ok (target_reject reason silent), w')) ↔ (
          (all : List Text) × PassedOver tree job w all w'
          × (report {B = ByteStream} all ≡ target_reject reason silent))
  unfolding dispatch
  dispatch_reject_iff tree job w reason silent w' = try_routes_reject tree job [] w
