-- ===== src/Registry/Tests.antt =====
-- A registry with one action compiled in.
use bits_broker.Prelude.{
  none, some, [], ◌∷◌, ok, err, Text, text, text_eq, lookup, ◌≡◌, ◌≢◌, ◌⊎◌, refl,
}
use bits_broker.Actions.{ActionError}
use bits_broker.Registry.{Factory, Registry, find_builtin, register_runtime_action, create_action}
use bits_broker.Registry.Known.{factory_of, register_runtime_action-create_action}

abbrev match_factory : Factory Text Text
match_factory v = ok v

abbrev constant : Factory Text Text
constant v = ok (text "c")

abbrev registry : Registry Text Text
registry = record { builtin = (text "match", match_factory) ∷ []; runtime = [] }

other_name : text "match" ≢ text "mine"
other_name h = cc

known : factory_of Text Text (text "match") registry ≡ some match_factory
unfolding factory_of find_builtin lookup
known = refl

register_runtime_action-create_action_example :
    let (result, r') = register_runtime_action Text Text (text "mine") constant registry in
    (((error : ActionError) × (result ≡ err error))
      × (r' ≡ registry)
      × (factory_of Text Text (text "mine") registry ≢ none))
    ⊎ (result ≡ ok tt)
      × (factory_of Text Text (text "mine") registry ≡ none)
      × (create_action Text Text (text "mine") (text "v") r' ≡ constant (text "v"))
      × (create_action Text Text (text "match") (text "v") r' ≡ match_factory (text "v"))
register_runtime_action-create_action_example =
    register_runtime_action-create_action Text Text (text "mine") (text "match") constant
      match_factory (text "v") registry other_name known
