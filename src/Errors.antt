-- ===== src/Errors.antt =====
-- bits/src/error.rs, and the codes of bits/src/actions/mod.rs and bits/src/db/mod.rs: the errors of
-- the library, their codes for clients, and which of them may be retried.
mod Tests
use bits_broker.Prelude.{
  text, ℕ, Bool, true, false, some, List, [], ◌∷◌, Text, text_eq, HashMap, lookup, ◌≡◌, ◌≢◌, refl,
  sym, ap, ◌∙◌,
}
use bits_broker.Actions.{
  ActionError, network_error, queue_full, timeout, config_error, auth_error, resource_error,
  cancelled, client_gone, user_limit_exceeded, action_is_retryable,
}
use bits_broker.Store.{DbError, conflict, backend, slot_exhausted, is_retryable}
use bits_broker.Store.Users.{contains}
use bits_broker.Routing.Validate.{RoutingError, invalid_route, invalid_action, missing_target}

-- The errors that serde_yaml and serde_json return are texts.
pub data ConfigError : Type 0 where
  yaml : Text → ConfigError
  validation : Text → Text → ConfigError
  missing_field : Text → ConfigError
  feature_disabled : Text → Text → ConfigError
  decode_failed : Text → Text → Text → ConfigError
  persistence_init : Text → Text → Text → ConfigError

pub data WorkerServerError : Type 0 where
  bind : Text → Text → WorkerServerError
  pool_registration : Text → Text → WorkerServerError

pub data BitsError : Type 0 where
  config : ConfigError → BitsError
  routing : RoutingError → BitsError
  persistence : DbError → BitsError
  action_failed : ActionError → BitsError
  worker_server : WorkerServerError → BitsError

unfoldable pub config_code : ConfigError → Text
config_code (yaml e) = text "CONFIG_YAML_SYNTAX"
config_code (validation path reason) = text "CONFIG_VALIDATION"
config_code (missing_field path) = text "CONFIG_MISSING_FIELD"
config_code (feature_disabled path feature) = text "CONFIG_FEATURE_DISABLED"
config_code (decode_failed path target source) = text "CONFIG_DECODE"
config_code (persistence_init path store reason) = text "CONFIG_PERSISTENCE_INIT"

unfoldable pub routing_code : RoutingError → Text
routing_code (invalid_route route reason) = text "ROUTING_INVALID_ROUTE"
routing_code (invalid_action route action reason) = text "ROUTING_INVALID_ACTION"
routing_code (missing_target route) = text "ROUTING_MISSING_TARGET"

unfoldable pub db_code : DbError → Text
db_code (conflict m) = text "PERSISTENCE_CONFLICT"
db_code (backend m) = text "PERSISTENCE_BACKEND"
db_code (slot_exhausted site env ceiling) = text "PERSISTENCE_SLOT_EXHAUSTED"

unfoldable pub action_code : ActionError → Text
action_code (network_error m) = text "ACTION_NETWORK"
action_code (queue_full m) = text "ACTION_QUEUE_FULL"
action_code (timeout m) = text "ACTION_TIMEOUT"
action_code (config_error m) = text "ACTION_CONFIG"
action_code (auth_error m) = text "ACTION_AUTH"
action_code (resource_error m) = text "ACTION_RESOURCE"
action_code cancelled = text "ACTION_CANCELLED"
action_code client_gone = text "ACTION_CLIENT_GONE"
action_code (user_limit_exceeded m) = text "ACTION_USER_LIMIT"

unfoldable pub worker_server_code : WorkerServerError → Text
worker_server_code (bind address reason) = text "WORKER_BIND"
worker_server_code (pool_registration name reason) = text "WORKER_POOL"

unfoldable pub error_code : BitsError → Text
unfolding config_code routing_code db_code action_code worker_server_code
error_code (config e) = config_code e
error_code (routing e) = routing_code e
error_code (persistence e) = db_code e
error_code (action_failed e) = action_code e
error_code (worker_server e) = worker_server_code e

unfoldable pub error_is_retryable : BitsError → Bool
error_is_retryable (persistence e) = is_retryable e
error_is_retryable (action_failed e) = action_is_retryable e
error_is_retryable _ = false

-- The codes after which a client may try again.
abbrev pub retryable_codes : List Text
retryable_codes =
    text "PERSISTENCE_CONFLICT"
    ∷ text "PERSISTENCE_BACKEND"
    ∷ text "ACTION_NETWORK"
    ∷ text "ACTION_TIMEOUT"
    ∷ text "ACTION_QUEUE_FULL"
    ∷ []

-- The code of an error alone tells whether it may be retried: it is one of five.
pub error_is_retryable-error_code :
    (e : BitsError) → error_is_retryable e ≡ contains (error_code e) retryable_codes
unfolding error_is_retryable error_code is_retryable action_is_retryable contains
error_is_retryable-error_code (config (yaml e)) = refl
error_is_retryable-error_code (config (validation p r)) = refl
error_is_retryable-error_code (config (missing_field p)) = refl
error_is_retryable-error_code (config (feature_disabled p f)) = refl
error_is_retryable-error_code (config (decode_failed p t s)) = refl
error_is_retryable-error_code (config (persistence_init p s r)) = refl
error_is_retryable-error_code (routing (invalid_route r x)) = refl
error_is_retryable-error_code (routing (invalid_action r a x)) = refl
error_is_retryable-error_code (routing (missing_target r)) = refl
error_is_retryable-error_code (persistence (conflict m)) = refl
error_is_retryable-error_code (persistence (backend m)) = refl
error_is_retryable-error_code (persistence (slot_exhausted s e c)) = refl
error_is_retryable-error_code (action_failed (network_error m)) = refl
error_is_retryable-error_code (action_failed (queue_full m)) = refl
error_is_retryable-error_code (action_failed (timeout m)) = refl
error_is_retryable-error_code (action_failed (config_error m)) = refl
error_is_retryable-error_code (action_failed (auth_error m)) = refl
error_is_retryable-error_code (action_failed (resource_error m)) = refl
error_is_retryable-error_code (action_failed cancelled) = refl
error_is_retryable-error_code (action_failed client_gone) = refl
error_is_retryable-error_code (action_failed (user_limit_exceeded m)) = refl
error_is_retryable-error_code (worker_server (bind a r)) = refl
error_is_retryable-error_code (worker_server (pool_registration n r)) = refl
