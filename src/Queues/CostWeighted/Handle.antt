-- ===== src/Queues/CostWeighted/Handle.antt =====
-- The handle of the queue after it is closed.
use bits_broker.Prelude.{ℕ, Bool, true, false, List, [], ◌∷◌, ◌≡◌, refl}
use bits_broker.Queues.CostWeighted.{
  CostWeightedQueue, cost_enqueue, cost_dequeue, cost_close, send,
}

module _ {Job : Type 0} (cost_of : Job → ℕ) where
  unfoldable pub cost_enqueue_all : List Job → CostWeightedQueue Job → CostWeightedQueue Job
  cost_enqueue_all [] q = q
  cost_enqueue_all (job ∷ jobs) q = cost_enqueue_all jobs (cost_enqueue cost_of job q)

  refused :
      (jobs : List Job) (reply n : ℕ) (alive : Bool) (q : CostWeightedQueue Job)
      → let q' =
          cost_enqueue_all jobs
            (record q { tx = false; alive = alive; dead = true; next_seq = n }) in
        (q'.channel ≡ q.channel) × (cost_dequeue cost_of reply q' ≡ (false, q'))
  unfolding cost_enqueue_all cost_enqueue cost_dequeue send
  refused [] reply n alive q = (refl, refl)
  refused (job ∷ jobs) reply n alive q = refused jobs reply _ alive q

  -- After the queue is closed, jobs that are enqueued reach the worker no more, and a dequeue gets
  -- nothing and waits for nothing, whether the worker lives or not.
  pub cost_close-refuses :
      (jobs : List Job) (reply : ℕ) (q : CostWeightedQueue Job)
      → let q' = cost_enqueue_all jobs (cost_close cost_of q) in
        (q'.channel ≡ q.channel) × (cost_dequeue cost_of reply q' ≡ (false, q'))
  unfolding cost_close
  cost_close-refuses jobs reply q = refused jobs reply q.next_seq q.alive q
