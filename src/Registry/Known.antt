-- ===== src/Registry/Known.antt =====
-- Which factory a name stands for, before and after a registration.
use bits_broker.Prelude.{
  some_injective, Option, none, some, Option-cases, ok, err, Text, text_beq_iff, text_eq, lookup,
  insert, lookup-insert, lookup-insert_self, ◌≡◌, ◌≢◌, ◌⊎◌, ap, ◌∙◌, inl, inr, arith,
}
use bits_broker.Actions.{ActionError}
use bits_broker.Registry.{
  conflicts_with_builtin, already_registered, Factory, Registry, find_builtin,
  register_runtime_action, create_action,
}

module _ (Value Action : Type 0) where
  -- The factory of a name: a registered one goes before one that is compiled in.
  unfoldable pub factory_of : Text → Registry Value Action → Option (Factory Value Action)
  factory_of name r = elim (lookup name r.runtime) [
    | some factory ↦ some factory
    | none ↦ find_builtin Value Action name r.builtin
  ]

  created :
      (name : Text) (config : Value) (r : Registry Value Action) {factory : Factory Value Action}
      → factory_of name r ≡ some factory
      → create_action Value Action name config r ≡ factory config
  unfolding factory_of create_action
  created name config r h = elim (Option-cases (lookup name r.runtime)) [
    | inr (f, e) ↦
        let made : create_action Value Action name config r ≡ f config = simp (create_action, e) in
        made ∙ ap (λ g. g config) (some_injective (simp (factory_of, e) at h))
    | inl e ↦
        let here : find_builtin Value Action name r.builtin ≡ some _ = simp (factory_of, e) at h in
        simp (create_action, e, here)
  ]

  registered :
      (name : Text) (factory : Factory Value Action) (r : Registry Value Action)
      → factory_of name r ≡ none
      → register_runtime_action Value Action name factory r
        ≡ (ok tt, record r { runtime = insert name factory r.runtime })
  unfolding factory_of register_runtime_action
  registered name factory r h = elim (Option-cases (lookup name r.runtime)) [
    | inr (f, e) ↦ cc (simp (factory_of, e) at h)
    | inl e ↦
        let none_here : find_builtin Value Action name r.builtin ≡ none =
          simp (factory_of, e) at h in
        simp (register_runtime_action, none_here, e)
  ]

  turned_down :
      (name : Text) (factory : Factory Value Action) (r : Registry Value Action)
      {old : Factory Value Action}
      → factory_of name r ≡ some old
      → (error : ActionError) × (register_runtime_action Value Action name factory r
          ≡ (err error, r))
  unfolding factory_of register_runtime_action
  turned_down name factory r h = elim (Option-cases (find_builtin Value Action name r.builtin)) [
    | inr (f, e) ↦ (conflicts_with_builtin name, simp (register_runtime_action, e))
    | inl e ↦ elim (Option-cases (lookup name r.runtime)) [
      | inr (f, d) ↦ (already_registered name, simp (register_runtime_action, e, d))
      | inl d ↦ cc (simp (factory_of, d, e) at h)
    ]
  ]

  other_factory :
      (name other : Text) (factory : Factory Value Action) (r : Registry Value Action)
      → other ≢ name
      → factory_of other (record r { runtime = insert name factory r.runtime }) ≡ factory_of other r
  unfolding factory_of
  other_factory name other factory r d =
      let same : lookup other (insert name factory r.runtime) ≡ lookup other r.runtime =
        rw (lookup-insert name other factory r.runtime)
          (ground (arith, text_beq_iff name other, d)) in
      simp (factory_of, same)

  new_factory :
      (name : Text) (factory : Factory Value Action) (r : Registry Value Action)
      → factory_of name (record r { runtime = insert name factory r.runtime }) ≡ some factory
  unfolding factory_of
  new_factory name factory r = simp (factory_of, lookup-insert_self name factory r.runtime)

  -- A registration of a name that is known, compiled in or registered before, is refused and changes
  -- nothing. One of an unknown name succeeds; then its factory makes the actions of that name, and
  -- another name that was known has the actions that it had.
  pub register_runtime_action-create_action :
      (name other : Text) (factory old : Factory Value Action) (config : Value)
      (r : Registry Value Action)
      → other ≢ name
      → factory_of other r ≡ some old
      → let (result, r') = register_runtime_action Value Action name factory r in
        (((error : ActionError) × (result ≡ err error)) × (r' ≡ r) × (factory_of name r ≢ none))
        ⊎ (result ≡ ok tt)
          × (factory_of name r ≡ none)
          × (create_action Value Action name config r' ≡ factory config)
          × (create_action Value Action other config r' ≡ old config)
  unfolding factory_of
  register_runtime_action-create_action name other factory old config r d h =
      elim (Option-cases (factory_of name r)) [
        | inr (known, e) ↦
            let (error, same) = turned_down name factory r e in
            inl ((error, ap (λ p. p.0) same), ap (λ p. p.1) same, λ n. cc)
        | inl e ↦
            let same = registered name factory r e in
            inr (
              ap (λ p. p.0) same,
              e,
              rw same (created name config _ (new_factory name factory r)),
              rw same (created other config _ (other_factory name other factory r d ∙ h)),
            )
      ]
