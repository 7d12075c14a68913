-- ===== src/Queues/CostWeighted/Run.antt =====
-- Whole runs of the worker.
use bits_broker.Prelude.{
  ℕ, suc, ◌+◌, Bool, List, [], ◌∷◌, ◌++◌, All, ◌≡◌, ◌≢◌, refl, sym, ap, ◌∙◌, if◌then◌else◌, arith,
}
use bits_broker.Queues.CostWeighted.{
  Entry, Worker, WorkerCmd, cmd_enqueue, cmd_dequeue, push, serve, handle_cmd, worker_step, worker,
}
use bits_broker.Queues.CostWeighted.Order.{Sorted, All-push, push-Sorted}
use bits_broker.Queues.CostWeighted.Serve.{jobs, sent_jobs, Priced, serve-in_order, serve-All}

abbrev pub Commands : Type 0 → Type 0
Commands Job = List ((ℕ → Bool) × WorkerCmd Job)

module _ {Job : Type 0} where
  -- How many of the jobs meet a test.
  unfoldable pub count : (Job → Bool) → List Job → ℕ
  count p [] = 0
  count p (j ∷ js) = let n = count p js in if p j then suc n else n

  pub count-append :
      (p : Job → Bool) (js ks : List Job) → count p (js ++ ks) ≡ count p js + count p ks
  unfolding count
  count-append p [] ks = omega arith
  count-append p (j ∷ js) ks = ground (arith, count-append p js ks)

  pub count-sent :
      (p : Job → Bool) (a b : List (ℕ × Job))
      → count p (sent_jobs (a ++ b)) ≡ count p (sent_jobs a) + count p (sent_jobs b)
  unfolding count
  count-sent p [] b = omega arith
  count-sent p (x ∷ a) b = ground (arith, count-sent p a b)

  count-push :
      (p : Job → Bool) (e : Entry Job) (heap : List (Entry Job))
      → count p (jobs (push e heap)) ≡ count p (e.job ∷ jobs heap)
  unfolding count push
  count-push p e [] = refl
  count-push p e (f ∷ heap) = ground (arith, count-push p e heap)

  -- No command brings an entry with the given sequence number.
  abbrev pub NotIn : ℕ → Commands Job → Type 0
  NotIn n [] = Unit
  NotIn n ((gone, cmd_enqueue cost seq job) ∷ cmds) = (n ≢ seq) × NotIn n cmds
  NotIn n ((gone, cmd_dequeue reply) ∷ cmds) = NotIn n cmds

  abbrev pub enqueued : Commands Job → List Job
  enqueued [] = []
  enqueued ((gone, cmd_enqueue cost seq job) ∷ cmds) = job ∷ enqueued cmds
  enqueued ((gone, cmd_dequeue reply) ∷ cmds) = enqueued cmds

  module _ (cost_of : Job → ℕ) where
    -- Commands as the handle sends them: with the cost of the job, and each with a number of its own.
    abbrev pub Issued : Commands Job → Type 0
    Issued [] = Unit
    Issued ((gone, cmd_enqueue cost seq job) ∷ cmds) =
        (cost ≡ cost_of job) × NotIn seq cmds × Issued cmds
    Issued ((gone, cmd_dequeue reply) ∷ cmds) = Issued cmds

    -- The heap is in order, and none of its numbers comes again.
    abbrev pub Ready : Commands Job → List (Entry Job) → Type 0
    Ready cmds heap = Sorted heap × Priced cost_of heap × All (λ e. NotIn e.seq cmds) heap

    serve_balance :
        (p : Job → Bool) (gone : ℕ → Bool) (waiters : List ℕ) (heap : List (Entry Job))
        (cmds : Commands Job)
        → Ready cmds heap
        → let (sent, left) = serve cost_of gone waiters heap in
          (count p (jobs heap) ≡ count p (sent_jobs sent) + count p (jobs left.heap))
          × Ready cmds left.heap
    serve_balance p gone waiters heap cmds (s, c, n) =
        let (a, b, c', d) = serve-in_order cost_of gone waiters heap s c in
        (
          ap (count p) (sym a) ∙ count-append p _ _,
          (b, c', serve-All cost_of (λ e. NotIn e.seq cmds) gone waiters heap s c n),
        )

    seq_others :
        (seq cost : ℕ) (job : Job) (gone : ℕ → Bool) (cmds : Commands Job) (heap : List (Entry Job))
        → All (λ e. NotIn e.seq ((gone, cmd_enqueue cost seq job) ∷ cmds)) heap
        → All (λ e. e.seq ≢ seq) heap × All (λ e. NotIn e.seq cmds) heap
    seq_others seq cost job gone cmds [] h = (tt, tt)
    seq_others seq cost job gone cmds (e ∷ heap) h =
        let (a, b) = seq_others seq cost job gone cmds heap h.1 in ((h.0.0, a), (h.0.1, b))

    -- Over a run of the worker, on commands that carry the cost of their job and a number of their own
    -- and from a heap that is in order, no job is lost, sent twice or made up: of the jobs with any
    -- property, as many were in the heap or were enqueued as were sent or are left in the heap, which
    -- is in order again.
    pub worker-conserves :
        (p : Job → Bool) (cmds : Commands Job) (s : Worker Job)
        → Issued cmds
        → Ready cmds s.heap
        → let (sent, last) = worker cost_of cmds s in
          (count p (jobs s.heap) + count p (enqueued cmds)
            ≡ count p (sent_jobs sent) + count p (jobs last.heap))
          × Sorted last.heap
    unfolding worker worker_step handle_cmd count
    worker-conserves p [] s i r = (omega arith, r.0)
    worker-conserves p ((gone, cmd_enqueue cost seq job) ∷ cmds) s (cost_eq, unused, i)
          (sorted, priced, fresh) =
        let e : Entry Job = record { cost = cost; seq = seq; job = job } in
        let (others, later) = seq_others seq cost job gone cmds s.heap fresh in
        let (now, ready) = serve_balance p gone s.waiters (push e s.heap) cmds (
          push-Sorted e s.heap others sorted,
          All-push (λ f. f.cost ≡ cost_of f.job) e s.heap cost_eq priced,
          All-push (λ f. NotIn f.seq cmds) e s.heap unused later,
        ) in
        let (rest, last) =
          worker-conserves p cmds (serve cost_of gone s.waiters (push e s.heap)).1 i ready in
        (
          ground (
            arith,
            now,
            rest,
            count-push p e s.heap,
            count-sent p (serve cost_of gone s.waiters (push e s.heap)).0
                (worker cost_of cmds (serve cost_of gone s.waiters (push e s.heap)).1).0,
          ),
          last,
        )
    worker-conserves p ((gone, cmd_dequeue reply) ∷ cmds) s i r =
        let (now, ready) = serve_balance p gone (s.waiters ++ reply ∷ []) s.heap cmds r in
        let (rest, last) =
          worker-conserves p cmds (serve cost_of gone (s.waiters ++ reply ∷ []) s.heap).1 i ready in
        (
          omega (
            arith,
            now,
            rest,
            count-sent p (serve cost_of gone (s.waiters ++ reply ∷ []) s.heap).0
                (worker cost_of cmds (serve cost_of gone (s.waiters ++ reply ∷ []) s.heap).1).0,
          ),
          last,
        )
