-- ===== src/Dispatcher/Choice.antt =====
-- `from_config` of bits/src/dispatcher/mod.rs: which queue and which executor a dispatcher gets. What
-- the executors and the worker server are stays open. `Duration::try_from_secs_f64`, the most permits of a
-- semaphore of tokio, and whether the workers of an executor start are parameters.
use bits_broker.Prelude.{
  ok_injective, some_injective, ℕ, ◌==◌, ltb, ap, Result-cases, Bool, true, false, Option, none,
  some, Result, ok, err, ◌++◌, Text, text, if◌then◌else◌, panic, Bool-cases, sym, ◌≡◌, ◌≢◌, refl,
  inl, inr, arith,
}

pub data QueueKind : Type 0 where
  fifo : QueueKind
  cost_weighted : QueueKind
  age_priority : QueueKind

-- `heartbeat_timeout_secs` is a float, of which only the conversion is used.
pub record RemotePoolConfig (F : Type 0) : Type 0 where
  pub heartbeat_timeout_secs : F

pub data ExecutorKind (F : Type 0) : Type 0 where
  async_pool : (concurrency : Option ℕ) → ExecutorKind F
  thread_pool : (concurrency : Option ℕ) → ExecutorKind F
  remote_pool : (config : RemotePoolConfig F) → ExecutorKind F

-- The executor that is made: its number of tasks or threads, or the pool and its time-out.
pub data Executor : Type 0 where
  async_tasks : (concurrency : ℕ) → Executor
  threads : (concurrency : ℕ) → Executor
  remote : (pool_name : Text) (heartbeat_timeout : ℕ) → Executor

-- What `Dispatcher::new` is called with.
pub record Parts : Type 0 where
  pub queue : QueueKind
  pub executor : Executor
  pub queue_capacity : ℕ

abbrev pub default_pool_size : ℕ
default_pool_size = 256

unfoldable pub unwrap_or : {A : Type 0} → A → Option A → A
unwrap_or d none = d
unwrap_or d (some a) = a

unfoldable pub positive : Text → Result Text ℕ → Result Text Executor
positive pool_name (err e) = err (text "remote_pool: invalid heartbeat_timeout_secs: " ++ e)
positive pool_name panic = panic
positive pool_name (ok heartbeat_timeout) =
    if heartbeat_timeout == 0
    then err (text "remote_pool: heartbeat_timeout_secs must be positive")
    else ok (remote pool_name heartbeat_timeout)

-- A remote pool that can be reached, with a time-out above zero; the other executors run here.
pub data Runnable (is_target worker_server : Bool) (pool_name : Option Text)
    : Executor → Type 0 where
  runs_tasks : (n : ℕ) → Runnable is_target worker_server pool_name (async_tasks n)
  runs_threads : (n : ℕ) → Runnable is_target worker_server pool_name (threads n)
  runs_remote :
      (name : Text) (timeout : ℕ)
      → is_target ≡ true
      → worker_server ≡ true
      → pool_name ≡ some name
      → timeout ≢ 0
      → Runnable is_target worker_server pool_name (remote name timeout)

module _ {F : Type 0} (try_from_secs_f64 : F → Result Text ℕ) (max_permits : ℕ)
    (start_scheduler : Executor → Result {0, 0} Text Unit) where
  -- `is_target` is whether the type of results is the one of targets.
  unfoldable pub choose_remote :
      (is_target : Bool)
      → Option Text
      → (worker_server : Bool) → RemotePoolConfig F
      → Result Text Executor
  choose_remote false pool_name worker_server config =
      err (text "remote_pool executor can only be used with target actions")
  choose_remote true none worker_server config =
      err (text "remote_pool executor requires a named target registry entry (pool name)")
  choose_remote true (some pool_name) false config =
      err (text "remote_pool executor requires bits.worker_server to be configured")
  choose_remote true (some pool_name) true config =
      positive pool_name (try_from_secs_f64 config.heartbeat_timeout_secs)

  unfoldable pub choose_executor :
      (is_target : Bool)
      → Option Text
      → (worker_server : Bool) → Option (ExecutorKind F)
      → Result Text Executor
  choose_executor is_target pool_name worker_server none = ok (async_tasks default_pool_size)
  choose_executor is_target pool_name worker_server (some (async_pool concurrency)) =
      ok (async_tasks (unwrap_or default_pool_size concurrency))
  choose_executor is_target pool_name worker_server (some (thread_pool concurrency)) =
      ok (threads (unwrap_or default_pool_size concurrency))
  choose_executor is_target pool_name worker_server (some (remote_pool config)) =
      choose_remote is_target pool_name worker_server config

  -- `new`: the check of the capacity, the semaphore, which panics when it is too large for it, and the
  -- start of the executor.
  unfoldable pub make_dispatcher : QueueKind → Executor → ℕ → Result Text (Option Parts)
  make_dispatcher queue executor queue_capacity =
      if queue_capacity == 0
      then err (text "queue_capacity must be greater than zero")
      else if ltb max_permits queue_capacity
      then panic
      else elim (start_scheduler executor) [
        | ok u ↦
            ok (
              some (record { queue = queue; executor = executor; queue_capacity = queue_capacity }))
        | err e ↦ err e
        | panic ↦ panic
      ]

  unfoldable pub with_executor :
      Option QueueKind → ℕ → Result Text Executor → Result Text (Option Parts)
  with_executor queue queue_capacity (err e) = err e
  with_executor queue queue_capacity panic = panic
  with_executor queue queue_capacity (ok executor) =
      make_dispatcher (unwrap_or fifo queue) executor queue_capacity

  unfoldable pub from_config :
      (is_target : Bool)
      → Option QueueKind
      → Option (ExecutorKind F)
      → Option Text
      → (worker_server : Bool) → ℕ
      → Result Text (Option Parts)
  from_config is_target none none pool_name worker_server queue_capacity = ok none
  from_config is_target (some queue) none pool_name worker_server queue_capacity =
      with_executor (some queue) queue_capacity
        (choose_executor is_target pool_name worker_server none)
  from_config is_target queue (some executor) pool_name worker_server queue_capacity =
      with_executor queue queue_capacity
        (choose_executor is_target pool_name worker_server (some executor))

  positive-remote :
      (name : Text) (timeout : Result Text ℕ) {e : Executor} {is_target worker_server : Bool}
      → is_target ≡ true
      → worker_server ≡ true
      → positive name timeout ≡ ok e
      → Runnable is_target worker_server (some name) e
  unfolding positive
  positive-remote name (err e) t w h = cc
  positive-remote name panic t w h = cc
  positive-remote name (ok timeout) t w h = elim (Bool-cases (timeout == 0)) [
    | inl z ↦ cc (simp (z) at h)
    | inr n ↦
        rw (ok_injective (sym (simp (n) at h)))
          (runs_remote name timeout t w refl (ground (arith, n)))
  ]

  choose_executor-Runnable :
      (is_target : Bool) (pool_name : Option Text) (worker_server : Bool)
      (executor : Option (ExecutorKind F)) {e : Executor}
      → choose_executor is_target pool_name worker_server executor ≡ ok e
      → Runnable is_target worker_server pool_name e
  unfolding choose_executor choose_remote
  choose_executor-Runnable is_target pool_name worker_server none h =
      rw (ok_injective (sym h)) (runs_tasks default_pool_size)
  choose_executor-Runnable is_target pool_name worker_server (some (async_pool c)) h =
      rw (ok_injective (sym h)) (runs_tasks (unwrap_or default_pool_size c))
  choose_executor-Runnable is_target pool_name worker_server (some (thread_pool c)) h =
      rw (ok_injective (sym h)) (runs_threads (unwrap_or default_pool_size c))
  choose_executor-Runnable false pool_name worker_server (some (remote_pool c)) h = cc
  choose_executor-Runnable true none worker_server (some (remote_pool c)) h = cc
  choose_executor-Runnable true (some name) false (some (remote_pool c)) h = cc
  choose_executor-Runnable true (some name) true (some (remote_pool c)) h =
      positive-remote name (try_from_secs_f64 c.heartbeat_timeout_secs) refl refl h

  make_dispatcher-ok :
      (queue : QueueKind) (executor : Executor) (n : ℕ) {parts : Parts}
      → make_dispatcher queue executor n ≡ ok (some parts)
      → (executor ≡ parts.executor) × (parts.queue ≡ queue) × (parts.queue_capacity ≡ n) × (n ≢ 0)
  unfolding make_dispatcher
  make_dispatcher-ok queue executor n h = elim (Bool-cases (n == 0)) [
    | inl z ↦ cc (simp (make_dispatcher, z) at h)
    | inr p ↦ elim (Bool-cases (ltb max_permits n)) [
      | inl large ↦ cc (simp (make_dispatcher, p, large) at h)
      | inr fits ↦ elim (Result-cases (start_scheduler executor)) [
        | inl (u, o) ↦
            rw (some_injective (ok_injective (sym (simp (make_dispatcher, p, fits, o) at h))))
              (refl, refl, refl, ground (arith, p))
        | inr (inl (e, o)) ↦ cc (simp (make_dispatcher, p, fits, o) at h)
        | inr (inr o) ↦ cc (simp (make_dispatcher, p, fits, o) at h)
      ]
    ]
  ]

  with_executor-ok :
      (queue : Option QueueKind) (n : ℕ) (executor : Result Text Executor) {parts : Parts}
      → with_executor queue n executor ≡ ok (some parts)
      → (executor ≡ ok parts.executor)
        × (parts.queue ≡ unwrap_or fifo queue)
        × (parts.queue_capacity ≡ n)
        × (n ≢ 0)
  unfolding with_executor
  with_executor-ok queue n (err e) h = cc
  with_executor-ok queue n panic h = cc
  with_executor-ok queue n (ok executor) h =
      let (same, q_same, n_same, n_pos) = make_dispatcher-ok (unwrap_or fifo queue) executor n h in
      (ap ok same, q_same, n_same, n_pos)

  -- A dispatcher that `from_config` makes has the queue that is asked for, or FIFO, the capacity that is
  -- asked for, which is not zero, and an executor that can run: a remote pool is for targets, and has the
  -- name of the pool, a worker server, and a time-out that is not zero.
  pub from_config-Runnable :
      (is_target worker_server : Bool) (queue : Option QueueKind)
      (executor : Option (ExecutorKind F)) (pool_name : Option Text) (queue_capacity : ℕ)
      {parts : Parts}
      → from_config is_target queue executor pool_name worker_server queue_capacity
        ≡ ok (some parts)
      → (Runnable is_target worker_server pool_name parts.executor)
        × (parts.queue ≡ unwrap_or fifo queue)
        × (parts.queue_capacity ≡ queue_capacity)
        × (queue_capacity ≢ 0)
  unfolding from_config
  from_config-Runnable t w none none name n h = cc
  from_config-Runnable t w (some q) none name n h =
      let (e, q_same, n_same, n_pos) =
        with_executor-ok (some q) n (choose_executor t name w none) h in
      (choose_executor-Runnable t name w none e, q_same, n_same, n_pos)
  from_config-Runnable t w q (some x) name n h =
      let (e, q_same, n_same, n_pos) = with_executor-ok q n (choose_executor t name w (some x)) h in
      (choose_executor-Runnable t name w (some x) e, q_same, n_same, n_pos)
