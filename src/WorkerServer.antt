-- ===== src/WorkerServer.antt =====
-- bits/src/worker_server.rs: one HTTP server for the pools of all remote executors. A router, the
-- parse of a path and query, and whether the address can be bound are parameters. The
-- table of pools is under one lock, so that each method is a function of it.
pub mod Routes
pub mod Names
mod Tests
use bits_broker.Prelude.{
  ℕ, ◌==◌, Bool, true, false, ◌&&◌, ◌||◌, not, Option, none, some, [], ◌∷◌, ◌++◌, map, List, Result,
  ok, err, panic, Text, text, text_eq, if◌then◌else◌, leb, HashMap, lookup, insert,
}

unfoldable pub is_ascii_alphanumeric : ℕ → Bool
is_ascii_alphanumeric c =
    leb b'0' c && leb c b'9' || leb b'A' c && leb c b'Z' || leb b'a' c && leb c b'z'

unfoldable pub is_name_char : ℕ → Bool
unfolding is_ascii_alphanumeric
is_name_char c = is_ascii_alphanumeric c || c == b'_' || c == b'-'

unfoldable pub invalid_character : Text → ℕ → Text
invalid_character name c =
    text "pool name '"
    ++ name
    ++ text "' contains invalid character '"
    ++ c ∷ text "'; only alphanumeric characters, underscores, and hyphens are allowed"

unfoldable pub validate_chars : (name chars : Text) → Result {0, 0} Text Unit
unfolding is_name_char
validate_chars name [] = ok tt
validate_chars name (c ∷ chars) =
    let rest = validate_chars name chars in
    if is_name_char c then rest else err (invalid_character name c)

unfoldable pub validate_pool_name : Text → Result {0, 0} Text Unit
validate_pool_name [] = err (text "pool name must not be empty")
validate_pool_name (c ∷ name) = validate_chars (c ∷ name) (c ∷ name)

-- `find('/')` and the two slices.
unfoldable pub split_slash : Text → Option (Text × Text)
split_slash [] = none
split_slash (c ∷ path) =
    let rest = split_slash path in
    if c == b'/'
    then some ([], c ∷ path)
    else elim rest [ none ↦ none | some (before, after) ↦ some (c ∷ before, after) ]

-- `strip_prefix('/').unwrap_or(path)`
unfoldable pub strip_slash : Text → Text
strip_slash [] = []
strip_slash (c ∷ path) = if c == b'/' then path else c ∷ path

unfoldable pub unslashed : Text → Text × Text
unslashed [] = ([], text "/")
unslashed (c ∷ path) = (c ∷ path, text "/")

unfoldable pub extract_pool_and_rest : Text → Text × Text
extract_pool_and_rest path = elim (split_slash (strip_slash path)) [
  | some parts ↦ parts
  | none ↦ unslashed (strip_slash path)
]

unfoldable pub join_names : List Text → Text
join_names [] = []
join_names (n ∷ []) = n
join_names (n ∷ m ∷ ns) = n ++ text ", " ++ join_names (m ∷ ns)

-- The last is the answer of the router.
pub data Response (Router : Type 0) : Type 0 where
  no_pool_given : Text → Response Router
  no_such_pool : Text → Response Router
  invalid_path : Response Router
  routed : Router → (path_and_query : Text) → Response Router

-- `started` is set before the address is bound.
pub record WorkerServer (Router : Type 0) : Type 0 where
  pub advertised_addr : Option Text
  pub pools : HashMap Text Router
  pub started : Bool
  pub listens : Bool

-- `trim_end_matches('/')`
unfoldable pub trim_slashes : Text → Text
trim_slashes [] = []
trim_slashes (c ∷ addr) = elim (trim_slashes addr) [
  | [] ↦ if c == b'/' then [] else c ∷ []
  | d ∷ rest ↦ c ∷ d ∷ rest
]

unfoldable pub with_query : Text → Option Text → Text
with_query path none = path
with_query path (some query) = path ++ b'?' ∷ query

module _ {Router : Type 0} where
  unfoldable pub callback_url : Text → WorkerServer Router → Option Text
  callback_url pool_name w = elim w.advertised_addr [
    | none ↦ none
    | some addr ↦ some (text "http://" ++ trim_slashes addr ++ text "/" ++ pool_name)
  ]

  unfoldable pub available_pools_string : HashMap Text Router → Text
  available_pools_string pools = join_names (map (λ entry. entry.0) pools)

  -- `parses` is whether the new path and query, and with them the URI, are valid.
  unfoldable pub call_router : (parses : Text → Bool) → Router → Text → Response Router
  call_router parses router path_and_query =
      if parses path_and_query then routed router path_and_query else invalid_path

  unfoldable pub dispatch_to_named :
      (parses : Text → Bool) → Text × Text → Option Text → HashMap Text Router → Response Router
  dispatch_to_named parses ([], rest) query pools =
      no_pool_given
        (text "no pool specified; available pools: [" ++ available_pools_string pools ++ text "]")
  dispatch_to_named parses (c ∷ pool, rest) query pools = elim (lookup (c ∷ pool) pools) [
    | none ↦ no_such_pool (
        text "pool '"
        ++ c ∷ pool
        ++ text "' not found; available pools: ["
        ++ available_pools_string pools
        ++ text "]")
    | some router ↦ call_router parses router (with_query rest query)
  ]

  unfoldable pub dispatch_to_pool :
      (parses : Text → Bool)
      → (path : Text) → (query : Option Text) → HashMap Text Router
      → Response Router
  dispatch_to_pool parses path query pools =
      dispatch_to_named parses (extract_pool_and_rest path) query pools

  -- `binds` is what becomes of the listener: bound, or an error.
  unfoldable pub ensure_started :
      (binds : Result {0, 0} Text Unit)
      → WorkerServer Router
      → Result {0, 0} Text Unit × WorkerServer Router
  ensure_started binds w = elim w.started [
    | true ↦ (ok tt, w)
    | false ↦ elim binds [
      | ok u ↦ (ok tt, record w { started = true; listens = true })
      | err e ↦ (err e, record w { started = true })
      | panic ↦ (panic, record w { started = true })
    ]
  ]

  unfoldable pub register_pool :
      (binds : Result {0, 0} Text Unit)
      → Text
      → Router
      → WorkerServer Router
      → Result {0, 0} Text Unit × WorkerServer Router
  register_pool binds pool_name router w = elim (validate_pool_name pool_name) [
    | ok u ↦ ensure_started binds (record w { pools = insert pool_name router w.pools })
    | err e ↦ (err e, w)
    | panic ↦ (panic, w)
  ]

  -- `start`: nothing to do without a pool.
  unfoldable pub start_server :
      (binds : Result {0, 0} Text Unit)
      → WorkerServer Router
      → Result {0, 0} Text Unit × WorkerServer Router
  start_server binds w = elim w.pools [ [] ↦ (ok tt, w) | _ ∷ _ ↦ ensure_started binds w ]
