-- ===== src/Queues/CostWeighted.antt =====
-- bits/src/dispatcher/queue/cost_weighted.rs: the queue that hands out the cheapest job first.
-- A heap is the list of its entries in the order in which `pop` takes them. The cost in the metadata
-- of a job is a parameter.
pub mod Order
pub mod Serve
pub mod Handle
pub mod Run
use Prim.Native.Nat.{compare, Ordering}
use bits_broker.Prelude.{
  ℕ, zero, suc, ◌+◌, ◌%◌, Bool, true, false, not, Option, none, some, List, [], ◌∷◌, ◌++◌, ◌≡◌,
  refl, if◌then◌else◌,
}
use bits_broker.Store.{u64_mod}

pub record Entry (Job : Type 0) : Type 0 where
  pub cost : ℕ
  pub seq : ℕ
  pub job : Job

-- A oneshot sender is the number of the dequeue that waits on it.
pub data WorkerCmd (Job : Type 0) : Type 0 where
  cmd_enqueue : ℕ → ℕ → Job → WorkerCmd Job
  cmd_dequeue : ℕ → WorkerCmd Job

pub record Worker (Job : Type 0) : Type 0 where
  pub heap : List (Entry Job)
  pub waiters : List ℕ

-- `Ordering::then`
abbrev then_cmp : Ordering → Ordering → Ordering
then_cmp Ordering.eq o = o
then_cmp o _ = o

is_less : Ordering → Bool
is_less Ordering.lt = true
is_less _ = false

module _ {Job : Type 0} where
  unfoldable pub cmp : Entry Job → Entry Job → Ordering
  cmp a b = then_cmp (compare b.cost a.cost) (compare b.seq a.seq)

  -- `BinaryHeap::push`: the entry comes out before those that are less.
  unfoldable pub push : Entry Job → List (Entry Job) → List (Entry Job)
  unfolding is_less
  push e [] = e ∷ []
  push e (f ∷ heap) = if is_less (cmp f e) then e ∷ f ∷ heap else f ∷ push e heap

  module _ (cost_of : Job → ℕ) where
    -- The loop that matches waiters and entries. `gone` are the waiters to which a send fails. The
    -- result holds the jobs sent, with the waiter of each, and what is left.
    unfoldable pub serve : (ℕ → Bool) → List ℕ → List (Entry Job) → List (ℕ × Job) × Worker Job
    serve gone [] heap = ([], record { heap = heap; waiters = [] })
    serve gone (reply ∷ waiters) [] = ([], record { heap = []; waiters = reply ∷ waiters })
    serve gone (reply ∷ waiters) (e ∷ heap) = elim (gone reply) [
      | true ↦
          serve gone waiters (push (record { cost = cost_of e.job; seq = e.seq; job = e.job }) heap)
      | false ↦ let (sent, left) = serve gone waiters heap in ((reply, e.job) ∷ sent, left)
    ]

    unfoldable pub handle_cmd : WorkerCmd Job → Worker Job → Worker Job
    handle_cmd (cmd_enqueue cost seq job) s = record s {
      heap = push (record { cost = cost; seq = seq; job = job }) s.heap;
    }
    handle_cmd (cmd_dequeue reply) s = record s { waiters = s.waiters ++ reply ∷ [] }

    -- One turn of the worker's loop.
    unfoldable pub worker_step :
        (ℕ → Bool) → WorkerCmd Job → Worker Job → List (ℕ × Job) × Worker Job
    worker_step gone cmd s = let s' = handle_cmd cmd s in serve gone s'.waiters s'.heap

    -- The loop, with the waiters that are gone at each turn, and all that it sends.
    unfoldable pub worker :
        List ((ℕ → Bool) × WorkerCmd Job) → Worker Job → List (ℕ × Job) × Worker Job
    worker [] s = ([], s)
    worker ((gone, cmd) ∷ cmds) s =
        let (sent, s') = worker_step gone cmd s in
        let (more, last) = worker cmds s' in (sent ++ more, last)

-- The handle. `tx` is the sender, `alive` is whether the worker still receives, `channel` holds what
-- was sent.
pub record CostWeightedQueue (Job : Type 0) : Type 0 where
  pub tx : Bool
  pub alive : Bool
  pub next_seq : ℕ
  pub dead : Bool
  pub channel : List (WorkerCmd Job)

module _ {Job : Type 0} (cost_of : Job → ℕ) where
  unfoldable pub new_cost_weighted : CostWeightedQueue Job
  new_cost_weighted = record { tx = true; alive = true; next_seq = 0; dead = false; channel = [] }

  -- A send, or the flag that it failed.
  send : WorkerCmd Job → CostWeightedQueue Job → Bool × CostWeightedQueue Job
  send cmd q = elim q.tx [
    | false ↦ (false, record q { dead = true })
    | true ↦ elim q.alive [
      | false ↦ (false, record q { dead = true })
      | true ↦ (true, record q { channel = q.channel ++ cmd ∷ [] })
    ]
  ]

  unfoldable pub cost_enqueue : Job → CostWeightedQueue Job → CostWeightedQueue Job
  unfolding send
  cost_enqueue job q =
      (send (cmd_enqueue (cost_of job) q.next_seq job)
        (record q { next_seq = (q.next_seq + 1) % u64_mod })).1

  -- The part of a dequeue up to the wait for its reply; `false` is the result `None`.
  unfoldable pub cost_dequeue : ℕ → CostWeightedQueue Job → Bool × CostWeightedQueue Job
  unfolding send
  cost_dequeue reply q = elim q.dead [ true ↦ (false, q) | false ↦ send (cmd_dequeue reply) q ]

  -- The end of a dequeue: the reply, or none where the worker dropped the sender.
  unfoldable pub cost_reply :
      Option Job → CostWeightedQueue Job → Option Job × CostWeightedQueue Job
  cost_reply none q = (none, record q { dead = true })
  cost_reply (some job) q = (some job, q)

  unfoldable pub cost_close : CostWeightedQueue Job → CostWeightedQueue Job
  cost_close q = record q { dead = true; tx = false }
