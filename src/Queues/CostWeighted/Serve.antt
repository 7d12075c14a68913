-- ===== src/Queues/CostWeighted/Serve.antt =====
-- What the worker sends: the cheapest jobs, each once, and none is lost.
use bits_broker.Prelude.{
  ℕ, Bool, true, false, List, [], ◌∷◌, ◌++◌, map, All, ◌≡◌, refl, sym, ap, ◌⊎◌, inl, inr,
  Bool-cases,
}
use bits_broker.Queues.CostWeighted.{Entry, serve}
use bits_broker.Queues.CostWeighted.Order.{Sorted, push_first}

module _ {Job : Type 0} where
  abbrev pub jobs : List (Entry Job) → List Job
  jobs heap = map (λ e. e.job) heap

  abbrev pub sent_jobs : List (ℕ × Job) → List Job
  sent_jobs sent = map (λ p. p.1) sent

  module _ (cost_of : Job → ℕ) where
    -- Every entry has the cost of its job.
    abbrev pub Priced : List (Entry Job) → Type 0
    Priced heap = All (λ e. e.cost ≡ cost_of e.job) heap

    reprice :
        (e : Entry Job)
        → e.cost ≡ cost_of e.job
        → ◌≡◌ {A = Entry Job} (record { cost = cost_of e.job; seq = e.seq; job = e.job }) e
    reprice e h = ap (λ c. record e { cost = c }) (sym h)

    serve_gone :
        (gone : ℕ → Bool) (reply : ℕ) (waiters : List ℕ) (e : Entry Job) (heap : List (Entry Job))
        → gone reply ≡ true
        → Sorted (e ∷ heap)
        → Priced (e ∷ heap)
        → serve cost_of gone (reply ∷ waiters) (e ∷ heap) ≡ serve cost_of gone waiters (e ∷ heap)
    unfolding serve
    serve_gone gone reply waiters e heap g s p =
        rw (serve, g, reprice e p.0, push_first e heap s.0) refl

    serve_open :
        (gone : ℕ → Bool) (reply : ℕ) (waiters : List ℕ) (e : Entry Job) (heap : List (Entry Job))
        → gone reply ≡ false
        → serve cost_of gone (reply ∷ waiters) (e ∷ heap) ≡ (
          (reply, e.job) ∷ (serve cost_of gone waiters heap).0,
          (serve cost_of gone waiters heap).1,
        )
    unfolding serve
    serve_open gone reply waiters e heap g = rw (serve, g) refl

    -- From a heap that is in order and whose entries have the costs of their jobs, one run of the
    -- worker's inner loop sends the jobs from the front, in the order of the heap, and leaves the others
    -- there as they were, so that no job is lost to a waiter that is gone. The heap that is left is in
    -- order and priced too, and no waiter or no job is left.
    pub serve-in_order :
        (gone : ℕ → Bool) (waiters : List ℕ) (heap : List (Entry Job))
        → Sorted heap
        → Priced heap
        → let (sent, left) = serve cost_of gone waiters heap in
          (sent_jobs sent ++ jobs left.heap ≡ jobs heap)
          × Sorted left.heap
          × Priced left.heap
          × ((left.waiters ≡ []) ⊎ (left.heap ≡ []))
    unfolding serve
    serve-in_order gone [] heap s p = (refl, s, p, inl refl)
    serve-in_order gone (reply ∷ waiters) [] s p = (refl, tt, tt, inr refl)
    serve-in_order gone (reply ∷ waiters) (e ∷ heap) s p = elim (Bool-cases (gone reply)) [
      | inl g ↦
          rw (serve_gone gone reply waiters e heap g s p)
            (serve-in_order gone waiters (e ∷ heap) s p)
      | inr g ↦
          let (a, b, c, d) = serve-in_order gone waiters heap s.1 p.1 in
          rw (serve_open gone reply waiters e heap g) (ap (◌∷◌ e.job) a, b, c, d)
    ]

    pub serve-All :
        (P : Entry Job → Type 0) (gone : ℕ → Bool) (waiters : List ℕ) (heap : List (Entry Job))
        → Sorted heap
        → Priced heap
        → All P heap
        → All P (serve cost_of gone waiters heap).1.heap
    unfolding serve
    serve-All P gone [] heap s p a = a
    serve-All P gone (reply ∷ waiters) [] s p a = tt
    serve-All P gone (reply ∷ waiters) (e ∷ heap) s p a = elim (Bool-cases (gone reply)) [
      | inl g ↦
          rw (serve_gone gone reply waiters e heap g s p)
            (serve-All P gone waiters (e ∷ heap) s p a)
      | inr g ↦
          rw (serve_open gone reply waiters e heap g) (serve-All P gone waiters heap s.1 p.1 a.1)
    ]
