-- ===== src/Routing/Validate.antt =====
-- bits/src/routing/switch.rs: what `validate` checks, and what a validated switch looks like.
use bits_broker.Prelude.{
  ℕ, suc, Bool, true, false, Result, ok, err, panic, ◌>>=◌, Text, if◌then◌else◌, ◌≡◌, refl, ◌↔◌,
  ◌⊎◌, inl, inr,
}
use bits_broker.Actions.{
  Surroundings, Action, check, transform, target, switch, Actions, no_actions, action, Routes,
  no_routes, route, is_terminal,
}

-- The reasons of an invalid route.
pub data Reason : Type 0 where
  must_not_be_empty : Reason
  unreachable_after_terminal : ℕ → Reason  -- the index of the terminal step

pub data RoutingError : Type 0 where
  invalid_route : Text → Reason → RoutingError
  invalid_action : Text → Text → Text → RoutingError
  missing_target : Text → RoutingError

module _ (env : Surroundings) where
  -- Nothing may follow a terminal step.
  unfoldable pub after_terminal : Text → ℕ → Actions env → Result {0, 0} RoutingError Unit
  after_terminal name index no_actions = ok tt
  after_terminal name index (action b rest) =
      err (invalid_route name (unreachable_after_terminal index))

  unfoldable mutual
    pub validate_nested : Action env → Result {0, 0} RoutingError Unit
    validate_nested (check c d o) = ok tt
    validate_nested (transform t d o) = ok tt
    validate_nested (target t d o) = ok tt
    validate_nested (switch nested) = validate nested

    -- The actions of a route from the given index on.
    pub validate_actions : Text → ℕ → Actions env → Result {0, 0} RoutingError Unit
    validate_actions name index no_actions = err (missing_target name)
    validate_actions name index (action a rest) =
        let later = validate_actions name (suc index) rest in
        validate_nested a >>= λ _.
        if is_terminal env a then after_terminal name index rest else later

    pub validate_route : Text → Actions env → Result {0, 0} RoutingError Unit
    validate_route name no_actions = err (invalid_route name must_not_be_empty)
    validate_route name (action a rest) =
        let later = validate_actions name 1 rest in
        validate_nested a >>= λ _. if is_terminal env a then after_terminal name 0 rest else later

    pub validate : Routes env → Result {0, 0} RoutingError Unit
    validate no_routes = ok tt
    validate (route name actions rest) =
        let later = validate rest in validate_route name actions >>= λ _. later

  unfoldable mutual
    -- The nested switches of an action are well-formed.
    pub NestedWellFormed : Action env → Type 0
    NestedWellFormed (check c d o) = Unit
    NestedWellFormed (transform t d o) = Unit
    NestedWellFormed (target t d o) = Unit
    NestedWellFormed (switch nested) = WellFormed nested

    -- The last action, and no other, is terminal.
    pub RouteWellFormed : Actions env → Type 0
    RouteWellFormed no_actions = ⊥
    RouteWellFormed (action a rest) =
        NestedWellFormed a
        × (((is_terminal env a ≡ true) × (rest ≡ no_actions))
            ⊎ ((is_terminal env a ≡ false) × RouteWellFormed rest))

    pub WellFormed : Routes env → Type 0
    WellFormed no_routes = Unit
    WellFormed (route name actions rest) = RouteWellFormed actions × WellFormed rest

  after_terminal_iff :
      (name : Text) (index : ℕ) (rest : Actions env)
      → (after_terminal name index rest ≡ ok tt) ↔ (rest ≡ no_actions)
  unfolding after_terminal
  after_terminal_iff name index no_actions = (λ _. refl, λ _. refl)
  after_terminal_iff name index (action b rest) = (λ e. cc, λ e. cc)

  both_ok_iff :
      {P Q : Type 0} {r q : Result {0, 0} RoutingError Unit}
      → (r ≡ ok tt) ↔ P
      → (q ≡ ok tt) ↔ Q
      → ((r >>= λ _. q) ≡ ok tt) ↔ (P × Q)
  both_ok_iff {r = ok tt} p q = (λ e. (p.0 refl, q.0 e), λ (x, y). q.1 y)
  both_ok_iff {r = err e} p q = (λ e. cc, λ (x, y). cc (p.1 x))
  both_ok_iff {r = panic} p q = (λ e. cc, λ (x, y). cc (p.1 x))

  accepted_iff :
      (b : Bool) {P Q R : Type 0} {r later last : Result {0, 0} RoutingError Unit}
      → (r ≡ ok tt) ↔ P
      → (last ≡ ok tt) ↔ Q
      → (later ≡ ok tt) ↔ R
      → ((r >>= λ _. if b then last else later) ≡ ok tt)
        ↔ (P × (((b ≡ true) × Q) ⊎ ((b ≡ false) × R)))
  accepted_iff true p q r = (
    λ e. let (x, y) = (both_ok_iff p q).0 e in (x, inl (refl, y)),
    λ (x, s). (both_ok_iff p q).1 (x, elim s [ inl (_, y) ↦ y | inr (f, _) ↦ cc ]),
  )
  accepted_iff false p q r = (
    λ e. let (x, y) = (both_ok_iff p r).0 e in (x, inr (refl, y)),
    λ (x, s). (both_ok_iff p r).1 (x, elim s [ inl (f, _) ↦ cc | inr (_, y) ↦ y ]),
  )

  mutual
    unfolding validate NestedWellFormed

    validate_nested_iff : (a : Action env) → (validate_nested a ≡ ok tt) ↔ NestedWellFormed a
    validate_nested_iff (check c d o) = (λ _. tt, λ _. refl)
    validate_nested_iff (transform t d o) = (λ _. tt, λ _. refl)
    validate_nested_iff (target t d o) = (λ _. tt, λ _. refl)
    validate_nested_iff (switch nested) = accepts_iff nested

    validate_actions_iff :
        (name : Text) (index : ℕ) (actions : Actions env)
        → (validate_actions name index actions ≡ ok tt) ↔ RouteWellFormed actions
    validate_actions_iff name index no_actions = (λ e. cc, λ e. elim e [ ])
    validate_actions_iff name index (action a rest) =
        accepted_iff (is_terminal env a) (validate_nested_iff a)
          (after_terminal_iff name index rest) (validate_actions_iff name (suc index) rest)

    validate_route_iff :
        (name : Text) (actions : Actions env)
        → (validate_route name actions ≡ ok tt) ↔ RouteWellFormed actions
    validate_route_iff name no_actions = (λ e. cc, λ e. elim e [ ])
    validate_route_iff name (action a rest) =
        accepted_iff (is_terminal env a) (validate_nested_iff a) (after_terminal_iff name 0 rest)
          (validate_actions_iff name 1 rest)

    accepts_iff : (tree : Routes env) → (validate tree ≡ ok tt) ↔ WellFormed tree
    accepts_iff no_routes = (λ _. tt, λ _. refl)
    accepts_iff (route name actions rest) =
        both_ok_iff (validate_route_iff name actions) (accepts_iff rest)

  -- Validation accepts exactly the trees of routes in which the last action of each route, and no
  -- other, is a target or a switch.
  pub validate_iff : (tree : Routes env) → (validate tree ≡ ok tt) ↔ WellFormed tree
  validate_iff tree = accepts_iff tree
