-- ===== src/Queues/AgePriority.antt =====
-- bits/src/dispatcher/queue/age_priority.rs: the queue that weighs how long a job waits against the
-- root of its cost. The entries are a vector whose last one is popped first; the list has them in that
-- order. An Instant is its nanoseconds. `sort_by` is a stable sort by insertion.
pub mod Root
pub mod Order
pub mod Run
pub mod Handle
use Prim.Native.Nat.{compare, Ordering}
use bits_broker.Prelude.{
  ℕ, zero, suc, ◌+◌, ◌-◌, ◌*◌, ◌/◌, ◌%◌, ◌^◌, Bool, true, false, ◌||◌, Option, none, some, List, [],
  ◌∷◌, ◌++◌, map, length, ◌≡◌, refl, ap, ◌⊎◌, inl, inr, Result, ok, err, panic, if◌then◌else◌, ltb,
  leb, ◌==◌,
}
use bits_broker.RequestId.{u128_mod}
use bits_broker.Store.{u64_mod}

-- One more estimate of the root. A sum that does not fit panics or wraps, as the program is built.
unfoldable pub estimate : ℕ → ℕ → Result {0, 0} Unit ℕ
estimate value y = elim (y == 0) [
  | true ↦ panic
  | false ↦ elim (ltb (y + value / y) u128_mod) [ true ↦ ok ((y + value / y) / 2) | false ↦ panic ]
]

-- The loop, on fuel: the result `err` is that the fuel is used up.
unfoldable pub newton : ℕ → ℕ → ℕ → ℕ → Result {0, 0} Unit ℕ
newton zero value x y = err tt
newton (suc fuel) value x y = elim (ltb y x) [
  | true ↦ elim (estimate value y) [
    | ok next ↦ newton fuel value y next
    | err e ↦ err e
    | panic ↦ panic
  ]
  | false ↦ ok x
]

abbrev pub at_least_1 : Result {0, 0} Unit ℕ → ℕ
at_least_1 (ok zero) = 1
at_least_1 (ok (suc x)) = suc x
at_least_1 (err e) = 0
at_least_1 panic = 0

-- The result 0 stands for a loop that does not end and for a panic.
unfoldable pub integer_sqrt : ℕ → ℕ
integer_sqrt value = at_least_1 (newton (suc value) value value ((value + 1) / 2))

-- `max(1)`
abbrev pub max_1 : ℕ → ℕ
max_1 zero = 1
max_1 (suc n) = suc n

unfoldable pub saturating_mul : ℕ → ℕ → ℕ
saturating_mul a b = if ltb (a * b) u128_mod then a * b else u128_mod - 1

pub record AgeEntry (Job : Type 0) : Type 0 where
  pub cost : ℕ
  pub seq : ℕ
  pub enqueued_at : ℕ
  pub job : Job

pub data AgeCmd (Job : Type 0) : Type 0 where
  age_enqueue : AgeEntry Job → AgeCmd Job
  age_dequeue : ℕ → AgeCmd Job

pub record AgeWorker (Job : Type 0) : Type 0 where
  pub entries : List (AgeEntry Job)
  pub waiters : List ℕ

-- What a turn of the loop receives: a command and those that wait behind it, or nothing in time.
pub data Received (Job : Type 0) : Type 0 where
  commands : AgeCmd Job → List (AgeCmd Job) → Received Job
  timed_out : Received Job

-- What a turn meets: the time, and the waiters that are closed before a send or at it.
pub record Turn (Job : Type 0) : Type 0 where
  pub received : Received Job
  pub now : ℕ
  pub closed : ℕ → Bool
  pub gone : ℕ → Bool

unfoldable pub is_lt : Ordering → Bool
is_lt Ordering.lt = true
is_lt _ = false

module _ {Job : Type 0} where
  abbrev pub score : (now : ℕ) → (waits pays : AgeEntry Job) → ℕ
  score now waits pays = saturating_mul (now - waits.enqueued_at) (integer_sqrt (max_1 pays.cost))

  unfoldable pub compare_entries : AgeEntry Job → AgeEntry Job → ℕ → Ordering
  compare_entries left right now = elim (compare (score now left right) (score now right left)) [
    | Ordering.eq ↦ compare right.seq left.seq
    | Ordering.lt ↦ Ordering.lt
    | Ordering.gt ↦ Ordering.gt
  ]

  -- An entry goes behind the others that are to be popped earlier.
  unfoldable pub place : ℕ → AgeEntry Job → List (AgeEntry Job) → List (AgeEntry Job)
  place now e [] = e ∷ []
  place now e (f ∷ es) = if is_lt (compare_entries e f now) then f ∷ place now e es else e ∷ f ∷ es

  unfoldable pub sort_entries : ℕ → List (AgeEntry Job) → List (AgeEntry Job)
  sort_entries now [] = []
  sort_entries now (e ∷ es) = place now e (sort_entries now es)

  unfoldable pub rebalance : ℕ → List (AgeEntry Job) → List (AgeEntry Job)
  rebalance now entries = if ltb (length entries) 2 then entries else sort_entries now entries

  unfoldable pub age_handle_cmd : AgeCmd Job → AgeWorker Job → AgeWorker Job
  age_handle_cmd (age_enqueue entry) s = record s { entries = entry ∷ s.entries }
  age_handle_cmd (age_dequeue reply) s = record s { waiters = s.waiters ++ reply ∷ [] }

  -- `closed` are the waiters that are seen to be closed, and `gone` those to which a send fails. The
  -- result holds the jobs sent, with the waiter of each, and what is left.
  unfoldable pub service_waiters :
      (ℕ → Bool) → (ℕ → Bool) → List ℕ → List (AgeEntry Job) → List (ℕ × Job) × AgeWorker Job
  service_waiters closed gone [] entries = ([], record { entries = entries; waiters = [] })
  service_waiters closed gone (reply ∷ waiters) [] =
      ([], record { entries = []; waiters = reply ∷ waiters })
  service_waiters closed gone (reply ∷ waiters) (entry ∷ entries) = elim (closed reply) [
    | true ↦ service_waiters closed gone waiters (entry ∷ entries)
    | false ↦ elim (gone reply) [
      | true ↦ service_waiters closed gone waiters (
          record {
            cost = entry.cost;
            seq = entry.seq;
            enqueued_at = entry.enqueued_at;
            job = entry.job;
          }
          ∷ entries)
      | false ↦
          let (sent, left) = service_waiters closed gone waiters entries in
          ((reply, entry.job) ∷ sent, left)
    ]
  ]

  abbrev pub age_jobs : List (AgeEntry Job) → List Job
  age_jobs entries = map (λ e. e.job) entries

  abbrev pub age_sent : List (ℕ × Job) → List Job
  age_sent sent = map (λ p. p.1) sent

  -- What is to be shown of one run.
  abbrev pub Served : List (AgeEntry Job) → List (ℕ × Job) × AgeWorker Job → Type 0
  Served entries (sent, left) =
      (age_sent sent ++ age_jobs left.entries ≡ age_jobs entries)
      × ((left.waiters ≡ []) ⊎ (left.entries ≡ []))

  send_one :
      (c g : Bool) (reply : ℕ) (entry : AgeEntry Job) (entries : List (AgeEntry Job))
      (kept next : List (ℕ × Job) × AgeWorker Job)
      → Served (entry ∷ entries) kept
      → Served entries next
      → Served (entry ∷ entries) (elim c [
        | true ↦ kept
        | false ↦ elim g [ true ↦ kept | false ↦ ((reply, entry.job) ∷ next.0, next.1) ]
      ])
  send_one true g reply entry entries kept next k n = k
  send_one false true reply entry entries kept next k n = k
  send_one false false reply entry entries kept next k n = (ap (◌∷◌ entry.job) n.0, n.1)

  -- Whatever waiters are closed, before a send or during it, a run sends the jobs of the entries that
  -- are popped first, in that order, each once, and leaves the others there as they were. It ends when
  -- no waiter or no entry is left.
  pub service_waiters-Served :
      (closed gone : ℕ → Bool) (waiters : List ℕ) (entries : List (AgeEntry Job))
      → Served entries (service_waiters closed gone waiters entries)
  unfolding service_waiters
  service_waiters-Served closed gone [] entries = (refl, inl refl)
  service_waiters-Served closed gone (reply ∷ waiters) [] = (refl, inr refl)
  service_waiters-Served closed gone (reply ∷ waiters) (entry ∷ entries) =
      send_one (closed reply) (gone reply) reply entry entries
        (service_waiters closed gone waiters (entry ∷ entries))
        (service_waiters closed gone waiters entries)
        (service_waiters-Served closed gone waiters (entry ∷ entries))
        (service_waiters-Served closed gone waiters entries)

  unfoldable pub is_enqueue : AgeCmd Job → Bool
  is_enqueue (age_enqueue entry) = true
  is_enqueue (age_dequeue reply) = false

  -- The commands that are there, and whether one of them asks for a new order.
  unfoldable pub handle_all : List (AgeCmd Job) → Bool × AgeWorker Job → Bool × AgeWorker Job
  handle_all [] s = s
  handle_all (cmd ∷ cmds) (needs, s) =
      handle_all cmds (needs || is_enqueue cmd, age_handle_cmd cmd s)

  unfoldable pub receive : Received Job → Bool × AgeWorker Job → Bool × AgeWorker Job
  receive (commands cmd cmds) s = handle_all (cmd ∷ cmds) s
  receive timed_out (needs, s) = (ltb 1 (length s.entries), s)

  unfoldable pub rebalance_if : ℕ → Bool × AgeWorker Job → AgeWorker Job
  rebalance_if now (needs, s) = if needs then record s { entries = rebalance now s.entries } else s

  unfoldable pub age_turn : Turn Job → AgeWorker Job → List (ℕ × Job) × AgeWorker Job
  age_turn t s =
      let s' = rebalance_if t.now (receive t.received (false, s)) in
      service_waiters t.closed t.gone s'.waiters s'.entries

  -- The loop, until the sender is gone, and all that it sends.
  unfoldable pub age_worker : List (Turn Job) → AgeWorker Job → List (ℕ × Job) × AgeWorker Job
  age_worker [] s = ([], s)
  age_worker (t ∷ ts) s =
      let (sent, s') = age_turn t s in let (more, last) = age_worker ts s' in (sent ++ more, last)
