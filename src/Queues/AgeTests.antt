-- ===== src/Queues/AgeTests.antt =====
-- The theorems of the age-priority queue at a few jobs. A job is a number.
use Prim.Native.Nat.{Ordering}
use bits_broker.Prelude.{ℕ, ◌+◌, false, Bool, List, [], ◌∷◌, ◌≡◌, ◌⊎◌, refl, arith, ltb, ◌==◌}
use bits_broker.Queues.CostWeighted.Run.{count}
use bits_broker.Queues.AgePriority.{
  AgeEntry, AgeWorker, age_enqueue, age_dequeue, Turn, commands, timed_out, integer_sqrt, newton,
  compare_entries, age_worker, age_turn, age_jobs, age_sent, Served, rebalance, receive, handle_all,
  age_handle_cmd,
}
use bits_broker.Queues.AgePriority.Root.{IsRoot, integer_sqrt_floor}
use bits_broker.Queues.AgePriority.Order.{Sorted, compare_entries-strict_order}
use bits_broker.Queues.AgePriority.Run.{age_turn-in_order, age_worker-conserves, any_enqueue}

root_of_99 : integer_sqrt 99 ≡ 9
unfolding integer_sqrt newton bits_broker.Queues.AgePriority.estimate
root_of_99 = refl

integer_sqrt_floor_example : IsRoot 1_000_000 (integer_sqrt 1_000_000)
integer_sqrt_floor_example = (integer_sqrt_floor 1_000_000 (omega arith) (omega arith)).1

abbrev aged : ℕ → ℕ → ℕ → AgeEntry ℕ
aged cost seq enqueued_at = record { cost = cost; seq = seq; enqueued_at = enqueued_at; job = cost }

compare_entries-strict_order_example :
    (compare_entries (aged 4 0 10) (aged 100 1 10) 20 ≡ Ordering.gt)
    ⊎ (compare_entries (aged 100 1 10) (aged 4 0 10) 20 ≡ Ordering.gt)
compare_entries-strict_order_example =
    (compare_entries-strict_order 20 (aged 4 0 10) (aged 100 1 10) (aged 9 2 20)
      (omega arith, omega arith) (omega arith, omega arith) (omega arith, omega arith) (omega arith)
      (omega arith) (omega arith)).0

cheap_first : compare_entries (aged 4 0 10) (aged 100 1 10) 20 ≡ Ordering.gt
unfolding compare_entries integer_sqrt newton bits_broker.Queues.AgePriority.estimate
    bits_broker.Queues.AgePriority.saturating_mul
cheap_first = refl

-- An entry of 90 comes before one of 100 that has waited longer.
abbrev turn : Turn ℕ
turn = record {
  received = commands (age_enqueue (aged 1 2 15)) (age_dequeue 1 ∷ age_dequeue 2 ∷ []);
  now = 20;
  closed = λ n. n == 1;
  gone = λ n. false;
}

abbrev start : AgeWorker ℕ
start = record { entries = aged 90 1 10 ∷ aged 100 0 5 ∷ []; waiters = [] }

age_turn-in_order_example :
    (order : List (AgeEntry ℕ)) × Sorted 20 order
    × ((p : ℕ → Bool) → count p (age_jobs order) ≡ count p (1 ∷ 90 ∷ 100 ∷ []))
    × Served order (age_turn turn start)
unfolding receive handle_all age_handle_cmd any_enqueue bits_broker.Queues.AgePriority.is_enqueue
age_turn-in_order_example =
    age_turn-in_order turn start refl
      ((omega arith, omega arith), ((omega arith, omega arith), ((omega arith, omega arith), tt)))
      ((omega arith, (omega arith, tt)), ((omega arith, tt), (tt, tt)))

age_worker-conserves_example :
    let (sent, last) = age_worker (turn ∷ record turn { received = timed_out } ∷ []) start in
    count (λ n. ltb n 95) (90 ∷ 100 ∷ []) + count (λ n. ltb n 95) (1 ∷ [])
    ≡ count (λ n. ltb n 95) (age_sent sent) + count (λ n. ltb n 95) (age_jobs last.entries)
age_worker-conserves_example =
    age_worker-conserves (λ n. ltb n 95) (turn ∷ record turn { received = timed_out } ∷ []) start
