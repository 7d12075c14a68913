-- ===== src/Registry.antt =====
-- bits/src/actions/registry.rs: the factories of actions by name, those that are compiled in and those
-- that are registered at run time. What a factory makes of a value is a parameter.
pub mod Known
mod Tests
use bits_broker.Prelude.{
  Bool, true, false, Option, none, some, List, [], ◌∷◌, ◌++◌, map, Result, ok, err, Text, text,
  text_beq, text_eq, if◌then◌else◌, HashMap, lookup, insert,
}
use bits_broker.Actions.{ActionError, config_error}

abbrev pub conflicts_with_builtin : Text → ActionError
conflicts_with_builtin name =
    config_error (text "Cannot register '" ++ name ++ text "': conflicts with a built-in action")

abbrev pub already_registered : Text → ActionError
already_registered name =
    config_error
      (text "Cannot register '" ++ name ++ text "': already registered as a runtime action")

module _ (Value Action : Type 0) where
  abbrev pub Factory : Type 0
  Factory = Value → Result ActionError Action

  -- `builtin` is what `inventory` collects; `runtime` is the global map.
  pub record Registry : Type 0 where
    pub builtin : List (Text × Factory)
    pub runtime : HashMap Text Factory

  -- The loop over `inventory`: the first registration of the name.
  unfoldable pub find_builtin : Text → List (Text × Factory) → Option Factory
  find_builtin name [] = none
  find_builtin name ((n, factory) ∷ rest) =
      let later = find_builtin name rest in if text_beq n name then some factory else later

  unfoldable pub join_names : List Text → Text
  join_names [] = []
  join_names (n ∷ []) = n
  join_names (n ∷ m ∷ ns) = n ++ text ", " ++ join_names (m ∷ ns)

  unfoldable pub list_actions : Registry → List Text
  list_actions r = map (λ entry. entry.0) r.builtin ++ map (λ entry. entry.0) r.runtime

  unfoldable pub register_runtime_action :
      Text → Factory → Registry → Result {0, 0} ActionError Unit × Registry
  register_runtime_action name factory r = elim (find_builtin name r.builtin) [
    | some f ↦ (err (conflicts_with_builtin name), r)
    | none ↦ elim (lookup name r.runtime) [
      | some f ↦ (err (already_registered name), r)
      | none ↦ (ok tt, record r { runtime = insert name factory r.runtime })
    ]
  ]

  unfoldable pub create_action : Text → Value → Registry → Result ActionError Action
  create_action name config r = elim (lookup name r.runtime) [
    | some factory ↦ factory config
    | none ↦ elim (find_builtin name r.builtin) [
      | some factory ↦ factory config
      | none ↦ err (
          config_error (
            text "Unknown action: '"
            ++ name
            ++ text "'. Available actions: ["
            ++ join_names (list_actions r)
            ++ text "]"))
    ]
  ]
