-- ===== src/Queues/AgePriority/Handle.antt =====
-- The handle of the queue, which its clients hold. The cost in the metadata of a job is a parameter,
-- and `none` where it is not a number.
use bits_broker.Prelude.{
  ℕ, ◌+◌, ◌%◌, Bool, true, false, Option, none, some, List, [], ◌∷◌, ◌++◌, ◌≡◌, refl,
}
use bits_broker.Store.{u64_mod}
use bits_broker.Queues.AgePriority.{AgeCmd, age_enqueue, age_dequeue}

-- `tx` is the sender, `alive` is whether the worker still receives, `channel` holds what was sent.
pub record AgePriorityQueue (Job : Type 0) : Type 0 where
  pub tx : Bool
  pub alive : Bool
  pub seq : ℕ
  pub dead : Bool
  pub channel : List (AgeCmd Job)

abbrev unwrap_or_1 : Option ℕ → ℕ
unwrap_or_1 none = 1
unwrap_or_1 (some n) = n

module _ {Job : Type 0} (cost_of : Job → Option ℕ) where
  unfoldable pub new_age_priority : AgePriorityQueue Job
  new_age_priority = record { tx = true; alive = true; seq = 0; dead = false; channel = [] }

  -- A send, or the flag that it failed.
  age_send : AgeCmd Job → AgePriorityQueue Job → Bool × AgePriorityQueue Job
  age_send cmd q = elim q.tx [
    | false ↦ (false, record q { dead = true })
    | true ↦ elim q.alive [
      | false ↦ (false, record q { dead = true })
      | true ↦ (true, record q { channel = q.channel ++ cmd ∷ [] })
    ]
  ]

  unfoldable pub age_queue_enqueue : (now : ℕ) → Job → AgePriorityQueue Job → AgePriorityQueue Job
  unfolding age_send
  age_queue_enqueue now job q =
      (age_send
        (age_enqueue
          (record { cost = unwrap_or_1 (cost_of job); seq = q.seq; enqueued_at = now; job = job }))
        (record q { seq = (q.seq + 1) % u64_mod })).1

  -- The part of a dequeue up to the wait for its reply; `false` is the result `None`.
  unfoldable pub age_queue_dequeue : ℕ → AgePriorityQueue Job → Bool × AgePriorityQueue Job
  unfolding age_send
  age_queue_dequeue reply q = elim q.dead [
    | true ↦ (false, q)
    | false ↦ age_send (age_dequeue reply) q
  ]

  -- The end of a dequeue: the reply, or none where the worker dropped the sender.
  unfoldable pub age_queue_reply :
      Option Job → AgePriorityQueue Job → Option Job × AgePriorityQueue Job
  age_queue_reply none q = (none, record q { dead = true })
  age_queue_reply (some job) q = (some job, q)

  unfoldable pub age_queue_close : AgePriorityQueue Job → AgePriorityQueue Job
  age_queue_close q = record q { dead = true; tx = false }

  unfoldable pub age_queue_enqueue_all :
      List (ℕ × Job) → AgePriorityQueue Job → AgePriorityQueue Job
  age_queue_enqueue_all [] q = q
  age_queue_enqueue_all ((now, job) ∷ jobs) q =
      age_queue_enqueue_all jobs (age_queue_enqueue now job q)

  refused :
      (jobs : List (ℕ × Job)) (reply n : ℕ) (alive : Bool) (q : AgePriorityQueue Job)
      → let q' =
          age_queue_enqueue_all jobs
            (record q { tx = false; alive = alive; dead = true; seq = n }) in
        (q'.channel ≡ q.channel) × (age_queue_dequeue reply q' ≡ (false, q'))
  unfolding age_queue_enqueue_all age_queue_enqueue age_queue_dequeue age_send
  refused [] reply n alive q = (refl, refl)
  refused ((now, job) ∷ jobs) reply n alive q = refused jobs reply _ alive q

  -- After the queue is closed, jobs that are enqueued reach the worker no more, and a dequeue gets
  -- nothing and waits for nothing.
  pub age_queue_close-refuses :
      (jobs : List (ℕ × Job)) (reply : ℕ) (q : AgePriorityQueue Job)
      → let q' = age_queue_enqueue_all jobs (age_queue_close q) in
        (q'.channel ≡ q.channel) × (age_queue_dequeue reply q' ≡ (false, q'))
  unfolding age_queue_close
  age_queue_close-refuses jobs reply q = refused jobs reply q.seq q.alive q
