-- ===== src/Queues/Tests.antt =====
-- The theorems of the queues at a few jobs. A job is the number that is its cost.
use bits_broker.Prelude.{
  ℕ, ◌+◌, Bool, List, [], ◌∷◌, ◌++◌, ◌≡◌, refl, inl, inr, ◌⊎◌, arith, ltb, ◌==◌,
}
use bits_broker.Queues.AgePriority.{AgeEntry}
use bits_broker.Queues.CostWeighted.{
  CostWeightedQueue, new_cost_weighted, Entry, Worker, cmd_enqueue, cmd_dequeue, serve, worker,
}
use bits_broker.Queues.CostWeighted.Order.{Sorted}
use bits_broker.Queues.CostWeighted.Serve.{Priced, jobs, sent_jobs, serve-in_order}
use bits_broker.Queues.CostWeighted.Run.{Commands, Issued, count, enqueued, worker-conserves}

abbrev cost_of : ℕ → ℕ
cost_of job = job

abbrev entry : ℕ → ℕ → Entry ℕ
entry cost seq = record { cost = cost; seq = seq; job = cost }

-- Waiter 1 is gone.
abbrev gone : ℕ → Bool
gone n = n == 1

abbrev heap : List (Entry ℕ)
heap = entry 3 1 ∷ entry 7 0 ∷ entry 7 2 ∷ []

heap-Sorted : Sorted heap
heap-Sorted =
    ((inl (omega arith), (inl (omega arith), tt)), ((inr (refl, omega arith), tt), (tt, tt)))

serve-in_order_example :
    let (sent, left) = serve cost_of gone (1 ∷ 2 ∷ 4 ∷ []) heap in
    (sent_jobs sent ++ jobs left.heap ≡ jobs heap)
    × Sorted left.heap
    × Priced cost_of left.heap
    × ((left.waiters ≡ []) ⊎ (left.heap ≡ []))
serve-in_order_example =
    serve-in_order cost_of gone (1 ∷ 2 ∷ 4 ∷ []) heap heap-Sorted (refl, (refl, (refl, tt)))

abbrev commands : Commands ℕ
commands =
    (gone, cmd_enqueue 7 1 7)
    ∷ (gone, cmd_enqueue 3 0 3)
    ∷ (gone, cmd_dequeue 1)
    ∷ (gone, cmd_dequeue 2)
    ∷ []

abbrev idle : Worker ℕ
idle = record { heap = []; waiters = [] }

commands-Issued : Issued cost_of commands
commands-Issued = (refl, (λ e. omega (arith, e), tt), (refl, tt, tt))

worker-conserves_example :
    let (sent, last) = worker cost_of commands idle in
    (count (ltb 5) (jobs idle.heap) + count (ltb 5) (enqueued commands)
      ≡ count (ltb 5) (sent_jobs sent) + count (ltb 5) (jobs last.heap))
    × Sorted last.heap
worker-conserves_example =
    worker-conserves cost_of (ltb 5) commands idle commands-Issued (tt, tt, tt)

abbrev aged : List (AgeEntry ℕ)
aged = record { cost = 3; seq = 0; enqueued_at = 1; job = 3 } ∷ []

abbrev handle : CostWeightedQueue ℕ
handle = new_cost_weighted cost_of
