-- ===== src/Queues/Fifo.antt =====
-- bits/src/dispatcher/queue/fifo.rs: a queue on an unbounded channel.
use bits_broker.Prelude.{
  ℕ, zero, suc, ◌+◌, Bool, true, false, List, [], ◌∷◌, ◌++◌, map, length, ◌≡◌, refl, ap, ◌∙◌, arith,
}
use mathlib.Core.List.{append_assoc, append-nil}

-- What a receiver gets: a message, the end of a closed channel, or it waits.
pub data Received (Job : Type 0) : Type 0 where
  received : Job → Received Job
  ended : Received Job
  waits : Received Job

-- `tx` is the sender, taken away by `close`; the receiver holds what was sent and not received yet.
pub record FifoQueue (Job : Type 0) : Type 0 where
  pub tx : Bool
  pub rx : List Job

module _ {Job : Type 0} where
  unfoldable pub new_fifo : FifoQueue Job
  new_fifo = record { tx = true; rx = [] }

  unfoldable pub fifo_enqueue : Job → FifoQueue Job → FifoQueue Job
  fifo_enqueue job q = elim q.tx [ true ↦ record q { rx = q.rx ++ job ∷ [] } | false ↦ q ]

  received_from : Bool → List Job → FifoQueue Job → Received Job × FifoQueue Job
  received_from tx (job ∷ jobs) q = (received job, record q { rx = jobs })
  received_from true [] q = (waits, q)
  received_from false [] q = (ended, q)

  unfoldable pub fifo_dequeue : FifoQueue Job → Received Job × FifoQueue Job
  unfolding received_from
  fifo_dequeue q = received_from q.tx q.rx q

  unfoldable pub fifo_close : FifoQueue Job → FifoQueue Job
  fifo_close q = record q { tx = false }

  unfoldable pub enqueue_all : List Job → FifoQueue Job → FifoQueue Job
  enqueue_all [] q = q
  enqueue_all (job ∷ jobs) q = enqueue_all jobs (fifo_enqueue job q)

  -- A number of dequeues, one after the other.
  unfoldable pub dequeue_all : ℕ → FifoQueue Job → List (Received Job)
  dequeue_all zero q = []
  dequeue_all (suc n) q = let (r, q') = fifo_dequeue q in r ∷ dequeue_all n q'

unfoldable pub replicate : {A : Type 0} → ℕ → A → List A
replicate zero a = []
replicate (suc n) a = a ∷ replicate n a

zero_plus : (n : ℕ) → 0 + n ≡ n
zero_plus n = omega arith

suc_plus : (m n : ℕ) → suc m + n ≡ suc (m + n)
suc_plus m n = omega arith

module _ {Job : Type 0} where
  abbrev closed_with : List Job → FifoQueue Job
  closed_with jobs = record { tx = false; rx = jobs }

  enqueue_all_open :
      (js jobs : List Job)
      → enqueue_all js (record { tx = true; rx = jobs }) ≡ record { tx = true; rx = jobs ++ js }
  unfolding enqueue_all fifo_enqueue
  enqueue_all_open [] jobs = rw (append-nil jobs) refl
  enqueue_all_open (j ∷ js) jobs =
      enqueue_all_open js (jobs ++ j ∷ []) ∙ rw (append_assoc jobs (j ∷ []) js) refl

  enqueue_all_closed : (js jobs : List Job) → enqueue_all js (closed_with jobs) ≡ closed_with jobs
  unfolding enqueue_all fifo_enqueue
  enqueue_all_closed [] jobs = refl
  enqueue_all_closed (j ∷ js) jobs = enqueue_all_closed js jobs

  dequeue_all_ended : (n : ℕ) → dequeue_all {Job = Job} n (closed_with []) ≡ replicate n ended
  unfolding dequeue_all fifo_dequeue received_from replicate
  dequeue_all_ended zero = refl
  dequeue_all_ended (suc n) = ap (◌∷◌ ended) (dequeue_all_ended n)

  dequeue_all_closed :
      (n : ℕ) (jobs : List Job)
      → dequeue_all (length jobs + n) (closed_with jobs) ≡ map received jobs ++ replicate n ended
  unfolding dequeue_all fifo_dequeue received_from replicate
  dequeue_all_closed n [] =
      ap (λ k. dequeue_all k (closed_with [])) (zero_plus n) ∙ dequeue_all_ended n
  dequeue_all_closed n (j ∷ jobs) =
      ap (λ k. dequeue_all k (closed_with (j ∷ jobs))) (suc_plus (length jobs) n)
      ∙ ap (◌∷◌ (received j)) (dequeue_all_closed n jobs)

  -- Jobs leave a queue in the order in which they entered it. After the queue is closed, the jobs in
  -- it still leave, further jobs are dropped, and then every dequeue is told that the queue has ended.
  pub fifo_close-drains :
      (jobs dropped : List Job) (n : ℕ)
      → dequeue_all (length jobs + n) (enqueue_all dropped (fifo_close (enqueue_all jobs new_fifo)))
        ≡ map received jobs ++ replicate n ended
  unfolding fifo_close new_fifo
  fifo_close-drains jobs dropped n =
      rw (enqueue_all_open jobs [], enqueue_all_closed dropped jobs) (dequeue_all_closed n jobs)
