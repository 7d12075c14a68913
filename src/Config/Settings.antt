-- ===== src/Config/Settings.antt =====
-- `parse_dispatcher_fields` of bits/src/config.rs, and that what it returns makes a dispatcher.
use bits_broker.Prelude.{
  ℕ, ◌==◌, Bool, true, false, Bool-cases, Option-cases, Option, none, some, Result, ok, err, panic,
  ◌>>=◌, >>=-eq-ok, ok_injective, Text, text, text_eq, if◌then◌else◌, ltb, HashMap, lookup, ◌||◌,
  ◌≡◌, ◌≢◌, ◌⊎◌, ◌<◌, ◌≤◌, inl, inr, refl, sym, arith,
}
use bits_broker.Errors.{ConfigError, validation, decode_failed}
use bits_broker.UserLimits.{UserLimitConfig}
use bits_broker.Config.{Document, object_or, parse_user_limit}
use bits_broker.Dispatcher.Choice.{
  fifo, unwrap_or, QueueKind, Executor, ExecutorKind, async_pool, thread_pool, remote_pool,
  async_tasks, threads, Parts, choose_executor, make_dispatcher, with_executor, from_config,
}
use bits_broker.Dispatcher.Steps.{is_some}

pub record DispatcherSettings (F : Type 0) : Type 0 where
  pub queue : Option QueueKind
  pub executor : Option (ExecutorKind F)
  pub queue_capacity : ℕ
  pub user_limit : Option UserLimitConfig

abbrev pub default_queue_capacity : ℕ
default_queue_capacity = 500000

unfoldable pub default_settings : {F : Type 0} → DispatcherSettings F
default_settings = record {
  queue = none;
  executor = none;
  queue_capacity = default_queue_capacity;
  user_limit = none;
}

-- `map` and `transpose` of a member that serde decodes.
unfoldable pub decode_member :
    {A V : Type 0}
    → (V → Result Text A)
    → (path target : Text) → Option V
    → Result ConfigError (Option A)
decode_member from_value path target none = ok none
decode_member from_value path target (some value) = elim (from_value value) [
  | ok a ↦ ok (some a)
  | err e ↦ err (decode_failed path target e)
  | panic ↦ panic
]

-- The local executors.
unfoldable pub is_local : {F : Type 0} → Option (ExecutorKind F) → Bool
is_local (some (remote_pool config)) = false
is_local _ = true

chosen :
    (queue : Option QueueKind)
    → (queue ≡ some (unwrap_or fifo queue)) ⊎ (queue ≡ none) × (unwrap_or fifo queue ≡ fifo)
unfolding unwrap_or
chosen none = inr (refl, refl)
chosen (some q) = inl refl

module _ {F : Type 0} (try_from_secs_f64 : F → Result Text ℕ) (max_permits : ℕ)
    (start_scheduler : Executor → Result {0, 0} Text Unit) where
  -- The three ends of `from_config` on a capacity above zero and an executor that starts.
  abbrev pub FromConfigEnds :
      Option QueueKind → Option (ExecutorKind F) → ℕ → Result Text (Option Parts) → Type 0
  FromConfigEnds queue executor n result =
      ((queue ≡ none) × (executor ≡ none) × (result ≡ ok none))
      ⊎ ((is_some queue || is_some executor ≡ true)
          × (n ≤ max_permits)
          × ((parts : Parts) × (result ≡ ok (some parts))
              × ((queue ≡ some parts.queue) ⊎ (queue ≡ none) × (parts.queue ≡ fifo))
              × (parts.queue_capacity ≡ n)))
      ⊎ ((is_some queue || is_some executor ≡ true) × (max_permits < n) × (result ≡ panic))

  make_dispatcher-made :
      (queue : Option QueueKind) (kind : Option (ExecutorKind F)) (n : ℕ) (executor : Executor)
      → is_some queue || is_some kind ≡ true
      → n ≢ 0
      → start_scheduler executor ≡ ok tt
      → FromConfigEnds queue kind n (
          make_dispatcher try_from_secs_f64 max_permits start_scheduler
            (unwrap_or fifo queue)
            executor
            n)
  unfolding make_dispatcher
  make_dispatcher-made queue kind n executor asked p starts =
      let z : (n == 0) ≡ false = ground (arith, p) in
      elim (Bool-cases (ltb max_permits n)) [
        | inl large ↦ inr (inr (asked, ground (arith, large), simp (make_dispatcher, z, large)))
        | inr fits ↦ inr (
            inl (
              asked,
              ground (arith, fits),
              (
                record { queue = unwrap_or fifo queue; executor = executor; queue_capacity = n },
                simp (make_dispatcher, z, fits, starts),
                chosen queue,
                refl,
              ),
            ))
      ]

  makes :
      (is_target worker_server : Bool) (pool_name : Option Text) (queue : Option QueueKind)
      (executor : Option (ExecutorKind F)) (n : ℕ)
      → n ≢ 0
      → is_local executor ≡ true
      → ((n : ℕ) → start_scheduler (async_tasks n) ≡ ok tt)
      → ((n : ℕ) → start_scheduler (threads n) ≡ ok tt)
      → FromConfigEnds queue executor n (
          from_config try_from_secs_f64 max_permits start_scheduler is_target queue executor
            pool_name worker_server n)
  unfolding from_config choose_executor with_executor is_local
  makes t w name none none n p local tasks os = inl (refl, refl, refl)
  makes t w name (some q) none n p local tasks os =
      make_dispatcher-made (some q) none n _ refl p (tasks _)
  makes t w name queue (some (async_pool c)) n p local tasks os =
      make_dispatcher-made queue (some (async_pool c)) n _ (ground arith) p (tasks _)
  makes t w name queue (some (thread_pool c)) n p local tasks os =
      make_dispatcher-made queue (some (thread_pool c)) n _ (ground arith) p (os _)
  makes t w name queue (some (remote_pool c)) n p local tasks os = absurd (ground (arith, local))

module _ (doc : Document) (usize_end : ℕ) where
  open doc use {Value, as_object, as_u64}

  unfoldable pub parse_queue_capacity : Option Value → Result ConfigError ℕ
  parse_queue_capacity none = ok default_queue_capacity
  parse_queue_capacity (some value) = elim (as_u64 value) [
    | none ↦ err (validation (text "dispatcher.queue_capacity") (text "must be a positive integer"))
    | some n ↦
        if n == 0
        then err (validation (text "dispatcher.queue_capacity") (text "must be greater than zero"))
        else if ltb n usize_end
        then ok n
        else err (
            validation (text "dispatcher.queue_capacity")
              (text "value too large for this platform"))
  ]

  unfoldable pub parse_limit_member : Option Value → Result ConfigError (Option UserLimitConfig)
  parse_limit_member none = ok none
  parse_limit_member (some value) =
      parse_user_limit doc usize_end value >>= λ limit. ok (some limit)

  -- The members that were removed from the format.
  unfoldable pub refuse_removed :
      {F : Type 0}
      → HashMap Text Value
      → DispatcherSettings F
      → Result ConfigError (DispatcherSettings F)
  refuse_removed map settings =
      if is_some (lookup (text "concurrency") map)
      then err (
          validation (text "dispatcher.concurrency")
            (text "removed; set concurrency inside the executor block instead"))
      else if is_some (lookup (text "persistent") map)
          || is_some (lookup (text "lock_ttl_secs") map)
      then err (
          validation (text "dispatcher")
            (text "persistent/lock_ttl_secs removed; use bits.persist_after_secs policy"))
      else ok settings

  module _ {F : Type 0} (to_queue : Value → Result Text QueueKind)
      (to_executor : Value → Result Text (ExecutorKind F)) where
    unfoldable pub parse_settings : HashMap Text Value → Result ConfigError (DispatcherSettings F)
    parse_settings map =
        decode_member to_queue (text "dispatcher.queue") (text "QueueKind")
          (lookup (text "queue") map)
        >>= λ queue.
            decode_member to_executor (text "dispatcher.executor") (text "ExecutorKind")
              (lookup (text "executor") map)
            >>= λ executor.
                parse_queue_capacity (lookup (text "queue_capacity") map) >>= λ queue_capacity.
                parse_limit_member (lookup (text "user_limit") map) >>= λ user_limit.
                refuse_removed map (record {
                  queue = queue;
                  executor = executor;
                  queue_capacity = queue_capacity;
                  user_limit = user_limit;
                })

    unfoldable pub parse_dispatcher_fields :
        Option Value → Result ConfigError (DispatcherSettings F)
    parse_dispatcher_fields none = ok default_settings
    parse_dispatcher_fields (some d) =
        object_or doc usize_end (text "dispatcher") d >>= parse_settings

    parse_queue_capacity-positive :
        (value : Option Value) {n : ℕ} → parse_queue_capacity value ≡ ok n → n ≢ 0
    unfolding parse_queue_capacity
    parse_queue_capacity-positive none h = rw (ok_injective (sym h)) (λ e. cc)
    parse_queue_capacity-positive (some value) h = elim (Option-cases (as_u64 value)) [
      | inl e ↦ cc (simp (parse_queue_capacity, e) at h)
      | inr (n, e) ↦
          positive_in_range n (n == 0) (ltb n usize_end) _ _ refl
            (simp (parse_queue_capacity, e) at h)
    ]
      where
        positive_in_range :
            (n : ℕ) (is_zero fits : Bool) (a b : ConfigError) {m : ℕ}
            → (n == 0) ≡ is_zero
            → ◌≡◌ {A = Result ConfigError ℕ}
                (if is_zero then err a else if fits then ok n else err b)
                (ok m)
            → m ≢ 0
        positive_in_range n true fits a b z h = cc
        positive_in_range n false true a b z h = rw (ok_injective (sym h)) (ground (arith, z))
        positive_in_range n false false a b z h = cc

    refuse_removed-ok :
        (map : HashMap Text Value) (settings : DispatcherSettings F) {parsed : DispatcherSettings F}
        → refuse_removed map settings ≡ ok parsed
        → parsed ≡ settings
    unfolding refuse_removed
    refuse_removed-ok map settings h =
        kept (is_some (lookup (text "concurrency") map))
          (is_some (lookup (text "persistent") map) || is_some (lookup (text "lock_ttl_secs") map))
          _ _ h
      where
        kept :
            {S : Type 0} (a b : Bool) (x y : ConfigError) {s p : S}
            → ◌≡◌ {A = Result ConfigError S} (if a then err x else if b then err y else ok s) (ok p)
            → p ≡ s
        kept true b x y h = cc
        kept false true x y h = cc
        kept false false x y h = sym (ok_injective h)

    parse_dispatcher_fields-positive :
        (d : Option Value) {settings : DispatcherSettings F}
        → parse_dispatcher_fields d ≡ ok settings
        → settings.queue_capacity ≢ 0
    unfolding parse_dispatcher_fields parse_settings default_settings
    parse_dispatcher_fields-positive none h = rw (ok_injective (sym h)) (λ e. cc)
    parse_dispatcher_fields-positive (some d) h =
        let (map, _, h) = >>=-eq-ok (object_or doc usize_end _ d) _ h in
        let (queue, _, h) = >>=-eq-ok (decode_member to_queue _ _ _) _ h in
        let (executor, _, h) = >>=-eq-ok (decode_member to_executor _ _ _) _ h in
        let (queue_capacity, positive, h) = >>=-eq-ok (parse_queue_capacity _) _ h in
        let (user_limit, _, h) = >>=-eq-ok (parse_limit_member _) _ h in
        rw (refuse_removed-ok map _ h) (parse_queue_capacity-positive _ positive)

    -- Settings that are accepted, with no executor or one that is not a remote pool, where the workers
    -- of local executors start: `from_config` makes no dispatcher if neither a queue nor an executor is
    -- asked for; otherwise it makes one with the queue of the settings, or FIFO, and their capacity, if
    -- a semaphore can hold as many permits, and panics if it cannot. It never returns an error.
    pub parse_dispatcher_fields-makes :
        (try_from_secs_f64 : F → Result Text ℕ) (max_permits : ℕ)
        (start_scheduler : Executor → Result {0, 0} Text Unit) (is_target worker_server : Bool)
        (pool_name : Option Text) (d : Option Value) {settings : DispatcherSettings F}
        → parse_dispatcher_fields d ≡ ok settings
        → is_local settings.executor ≡ true
        → ((n : ℕ) → start_scheduler (async_tasks n) ≡ ok tt)
        → ((n : ℕ) → start_scheduler (threads n) ≡ ok tt)
        → FromConfigEnds try_from_secs_f64 max_permits start_scheduler settings.queue
            settings.executor settings.queue_capacity
            (from_config try_from_secs_f64 max_permits start_scheduler is_target settings.queue
              settings.executor pool_name worker_server settings.queue_capacity)
    parse_dispatcher_fields-makes try max start t w name d {settings} h local tasks os =
        makes try max start t w name settings.queue settings.executor settings.queue_capacity
          (parse_dispatcher_fields-positive d h) local tasks os
