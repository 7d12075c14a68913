-- ===== src/Config/Tests.antt =====
-- A limit of users on a small document: a global ceiling, and a realm with one role.
use bits_broker.Prelude.{
  ℕ, true, false, Option, none, some, [], ◌∷◌, Result, ok, Text, text, text_eq, HashMap, lookup,
  insert, ◌≡◌, refl,
}
use bits_broker.UserLimits.{UserLimitConfig}
use bits_broker.Config.{
  Document, is_top_key, is_realm_key, object_or, check_keys, parse_ceiling, parse_max, parse_roles,
  parse_roles_of, realm_limit, parse_realm, parse_realms, parse_realms_of, limit_of_users,
  parse_members, parse_user_limit,
}
use bits_broker.Config.Settings.{
  DispatcherSettings, FromConfigEnds, is_local, decode_member, parse_queue_capacity,
  parse_limit_member, refuse_removed, parse_settings, parse_dispatcher_fields,
  parse_dispatcher_fields-makes,
}
use bits_broker.Dispatcher.Choice.{
  QueueKind, fifo, ExecutorKind, thread_pool, Executor, from_config,
}

data Value : Type 0 where
  number : ℕ → Value
  role : Value
  block : Value
  blocks : Value
  top : Value
  pool : Value

abbrev members_of : Value → Option (HashMap Text Value)
members_of (number n) = none
members_of role = some ((text "admin", number 9) ∷ [])
members_of block = some ((text "roles", role) ∷ [])
members_of blocks = some ((text "r", block) ∷ [])
members_of top = some ((text "max", number 4) ∷ (text "realms", blocks) ∷ [])
members_of pool = some (
    (text "executor", number 2) ∷ (text "queue_capacity", number 8) ∷ (text "user_limit", top) ∷ [])

abbrev number_of : Value → Option ℕ
number_of (number n) = some n
number_of _ = none

abbrev sample : Document
sample = record { Value = Value; as_object = members_of; as_u64 = number_of }

abbrev limit : UserLimitConfig
limit = record {
  default = some 4;
  realms = (text "r", record { default = none; roles = (text "admin", 9) ∷ [] }) ∷ [];
}

parses : parse_user_limit sample 100 top ≡ ok limit
unfolding parse_user_limit parse_members object_or is_top_key is_realm_key check_keys parse_ceiling
    parse_max parse_roles parse_roles_of realm_limit parse_realm parse_realms parse_realms_of
    limit_of_users lookup insert
parses = refl

abbrev to_queue : Value → Result Text QueueKind
to_queue v = ok fifo

abbrev to_executor : Value → Result Text (ExecutorKind ℕ)
to_executor v = ok (thread_pool (number_of v))

abbrev settings : DispatcherSettings ℕ
settings = record {
  queue = none;
  executor = some (thread_pool (some 2));
  queue_capacity = 8;
  user_limit = some limit;
}

settings_parse : parse_dispatcher_fields sample 100 to_queue to_executor (some pool) ≡ ok settings
unfolding parse_dispatcher_fields parse_settings decode_member parse_queue_capacity
    parse_limit_member refuse_removed parse_user_limit parse_members object_or is_top_key
    is_realm_key check_keys parse_ceiling parse_max parse_roles parse_roles_of realm_limit
    parse_realm parse_realms parse_realms_of limit_of_users lookup insert
settings_parse = refl

abbrev seconds : ℕ → Result Text ℕ
seconds n = ok n

abbrev starts : Executor → Result {0, 0} Text Unit
starts executor = ok tt

local : is_local settings.executor ≡ true
unfolding is_local
local = refl

parse_dispatcher_fields-makes_example :
    FromConfigEnds seconds 2305843009213693951 starts settings.queue settings.executor
      settings.queue_capacity
      (from_config seconds 2305843009213693951 starts false settings.queue settings.executor none
        false settings.queue_capacity)
parse_dispatcher_fields-makes_example =
    parse_dispatcher_fields-makes sample 100 to_queue to_executor seconds 2305843009213693951 starts
      false false none (some pool) settings_parse local (λ n. refl) (λ n. refl)
