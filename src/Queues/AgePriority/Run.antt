-- ===== src/Queues/AgePriority/Run.antt =====
-- Whole turns and runs of the worker: what is sent, in which order, and that nothing is lost.
use bits_broker.Prelude.{
  ℕ, ◌+◌, Bool, true, false, ◌||◌, List, [], ◌∷◌, ◌++◌, All, length, ◌≡◌, refl, ap, ltb, Bool-cases,
  inl, inr, arith,
}
use bits_broker.Queues.CostWeighted.Run.{count, count-append, count-sent}
use bits_broker.Queues.AgePriority.{
  AgeEntry, AgeCmd, age_enqueue, age_dequeue, AgeWorker, Received, Turn, commands, timed_out,
  compare_entries, is_lt, is_enqueue, age_handle_cmd, place, sort_entries, rebalance, handle_all,
  receive, rebalance_if, age_turn, age_worker, age_jobs, age_sent, Served, service_waiters-Served,
}
use bits_broker.Queues.AgePriority.Order.{InRange, Distinct, Sorted, rebalance-Sorted}

module _ {Job : Type 0} where
  count-place :
      (p : Job → Bool) (now : ℕ) (e : AgeEntry Job) (es : List (AgeEntry Job))
      → count p (age_jobs (place now e es)) ≡ count p (e.job ∷ age_jobs es)
  unfolding count place
  count-place p now e [] = refl
  count-place p now e (f ∷ es) = elim (Bool-cases (is_lt (compare_entries e f now))) [
    | inl h ↦ rw h (ground (arith, count-place p now e es))
    | inr h ↦ rw h refl
  ]

  count-sort_entries :
      (p : Job → Bool) (now : ℕ) (es : List (AgeEntry Job))
      → count p (age_jobs (sort_entries now es)) ≡ count p (age_jobs es)
  unfolding count sort_entries
  count-sort_entries p now [] = refl
  count-sort_entries p now (e ∷ es) =
      ground (arith, count-place p now e (sort_entries now es), count-sort_entries p now es)

  count-rebalance :
      (p : Job → Bool) (now : ℕ) (es : List (AgeEntry Job))
      → count p (age_jobs (rebalance now es)) ≡ count p (age_jobs es)
  unfolding rebalance
  count-rebalance p now es = elim (Bool-cases (ltb (length es) 2)) [
    | inl h ↦ rw h refl
    | inr h ↦ rw h (count-sort_entries p now es)
  ]

  unfoldable pub any_enqueue : List (AgeCmd Job) → Bool
  any_enqueue [] = false
  any_enqueue (cmd ∷ cmds) = is_enqueue cmd || any_enqueue cmds

  -- A command that a turn receives is an enqueue, or it receives none in time.
  abbrev pub Reorders : Received Job → Type 0
  Reorders (commands cmd cmds) = any_enqueue (cmd ∷ cmds) ≡ true
  Reorders timed_out = Unit

  handle_all-needs :
      (cmds : List (AgeCmd Job)) (needs : Bool) (s : AgeWorker Job)
      → (handle_all cmds (needs, s)).0 ≡ (needs || any_enqueue cmds)
  unfolding handle_all any_enqueue
  handle_all-needs [] true s = refl
  handle_all-needs [] false s = refl
  handle_all-needs (cmd ∷ cmds) true s = handle_all-needs cmds true (age_handle_cmd cmd s)
  handle_all-needs (cmd ∷ cmds) false s =
      handle_all-needs cmds (is_enqueue cmd) (age_handle_cmd cmd s)

  -- The entries of a turn before it sends.
  abbrev pub ready : Turn Job → AgeWorker Job → List (AgeEntry Job)
  ready t s = (rebalance_if t.now (receive t.received (false, s))).entries

  -- The entries that a turn has after its commands.
  abbrev pub received : Turn Job → AgeWorker Job → List (AgeEntry Job)
  received t s = (receive t.received (false, s)).1.entries

  short_Sorted : (now : ℕ) (es : List (AgeEntry Job)) → ltb 1 (length es) ≡ false → Sorted now es
  short_Sorted now [] h = tt
  short_Sorted now (e ∷ []) h = (tt, tt)
  short_Sorted now (e ∷ f ∷ es) h = ground arith

  ready-Sorted_pair :
      (now : ℕ) (needs : Bool) (s : AgeWorker Job)
      → (needs ≡ false → Sorted now s.entries)
      → All (InRange now) s.entries
      → Distinct s.entries
      → Sorted now (rebalance_if now (needs, s)).entries
  unfolding rebalance_if
  ready-Sorted_pair now true s short r d = rebalance-Sorted now s.entries r d
  ready-Sorted_pair now false s short r d = short refl

  needed :
      (now : ℕ) (r : Received Job) (s : AgeWorker Job)
      → Reorders r
      → (receive r (false, s)).0 ≡ false
      → Sorted now (receive r (false, s)).1.entries
  unfolding receive
  needed now (commands cmd cmds) s m h = cc (handle_all-needs (cmd ∷ cmds) false s)
  needed now timed_out s m h = short_Sorted now s.entries h

  ready-Sorted :
      (t : Turn Job) (s : AgeWorker Job)
      → Reorders t.received
      → All (InRange t.now) (received t s)
      → Distinct (received t s)
      → Sorted t.now (ready t s)
  ready-Sorted t s m r d =
      ready-Sorted_pair t.now (receive t.received (false, s)).0 (receive t.received (false, s)).1
        (needed t.now t.received s m) r d

  count-rebalance_if :
      (p : Job → Bool) (now : ℕ) (needs : Bool) (s : AgeWorker Job)
      → count p (age_jobs (rebalance_if now (needs, s)).entries) ≡ count p (age_jobs s.entries)
  unfolding rebalance_if
  count-rebalance_if p now true s = count-rebalance p now s.entries
  count-rebalance_if p now false s = refl

  count-ready :
      (p : Job → Bool) (t : Turn Job) (s : AgeWorker Job)
      → count p (age_jobs (ready t s)) ≡ count p (age_jobs (received t s))
  count-ready p t s =
      count-rebalance_if p t.now (receive t.received (false, s)).0 (receive t.received (false, s)).1

  -- A turn that receives an enqueue, or nothing in time, finds its entries with numbers of their own
  -- and waits that the clock can measure. Then there is an order of them in which each entry comes
  -- before those that have waited less for the root of their cost or as long and are newer, and the
  -- turn sends the jobs from the front of that order and keeps the others as they follow, until no
  -- waiter or no entry is left. It is an order of the same jobs.
  pub age_turn-in_order :
      (t : Turn Job) (s : AgeWorker Job)
      → Reorders t.received
      → All (InRange t.now) (received t s)
      → Distinct (received t s)
      → (order : List (AgeEntry Job)) × Sorted t.now order
        × ((p : Job → Bool) → count p (age_jobs order) ≡ count p (age_jobs (received t s)))
        × Served order (age_turn t s)
  unfolding age_turn
  age_turn-in_order t s m r d = (
    ready t s,
    ready-Sorted t s m r d,
    λ p. count-ready p t s,
    service_waiters-Served t.closed t.gone
        (rebalance_if t.now (receive t.received (false, s))).waiters (ready t s),
  )

  abbrev brought : List (AgeCmd Job) → List Job
  brought [] = []
  brought (age_enqueue entry ∷ cmds) = entry.job ∷ brought cmds
  brought (age_dequeue reply ∷ cmds) = brought cmds

  abbrev brought_by : Received Job → List Job
  brought_by (commands cmd cmds) = brought (cmd ∷ cmds)
  brought_by timed_out = []

  -- The jobs that are enqueued in a run.
  abbrev pub enqueued : List (Turn Job) → List Job
  enqueued [] = []
  enqueued (t ∷ ts) = brought_by t.received ++ enqueued ts

  count-handle_all :
      (p : Job → Bool) (cmds : List (AgeCmd Job)) (needs : Bool) (s : AgeWorker Job)
      → count p (age_jobs (handle_all cmds (needs, s)).1.entries)
        ≡ count p (age_jobs s.entries) + count p (brought cmds)
  unfolding count handle_all age_handle_cmd
  count-handle_all p [] needs s = omega arith
  count-handle_all p (age_enqueue e ∷ cmds) needs s = ground (
    arith,
    count-handle_all p cmds (needs || is_enqueue (age_enqueue e))
        (age_handle_cmd (age_enqueue e) s),
  )
  count-handle_all p (age_dequeue reply ∷ cmds) needs s =
      count-handle_all p cmds (needs || is_enqueue {Job = Job} (age_dequeue reply))
        (age_handle_cmd (age_dequeue reply) s)

  count-received :
      (p : Job → Bool) (r : Received Job) (s : AgeWorker Job)
      → count p (age_jobs (receive r (false, s)).1.entries)
        ≡ count p (age_jobs s.entries) + count p (brought_by r)
  unfolding count receive
  count-received p (commands cmd cmds) s = count-handle_all p (cmd ∷ cmds) false s
  count-received p timed_out s = omega arith

  count-turn :
      (p : Job → Bool) (t : Turn Job) (s : AgeWorker Job)
      → let (sent, left) = age_turn t s in
        count p (age_jobs s.entries) + count p (brought_by t.received)
        ≡ count p (age_sent sent) + count p (age_jobs left.entries)
  unfolding age_turn
  count-turn p t s =
      let served =
        service_waiters-Served t.closed t.gone
          (rebalance_if t.now (receive t.received (false, s))).waiters (ready t s) in
      omega (
        arith,
        count-received p t.received s,
        count-ready p t s,
        ap (count p) served.0,
        count-append p (age_sent (age_turn t s).0) (age_jobs (age_turn t s).1.entries),
      )

  -- Over a run of the worker, whatever it receives, whenever, and whichever waiters are gone, no job
  -- is lost, sent twice or made up: of the jobs with any property, as many were there or were enqueued
  -- as were sent or are left.
  pub age_worker-conserves :
      (p : Job → Bool) (ts : List (Turn Job)) (s : AgeWorker Job)
      → let (sent, last) = age_worker ts s in
        count p (age_jobs s.entries) + count p (enqueued ts)
        ≡ count p (age_sent sent) + count p (age_jobs last.entries)
  unfolding age_worker count
  age_worker-conserves p [] s = omega arith
  age_worker-conserves p (t ∷ ts) s =
      let (sent, s') = age_turn t s in
      omega (
        arith,
        count-turn p t s,
        age_worker-conserves p ts s',
        count-append p (brought_by t.received) (enqueued ts),
        count-sent p sent (age_worker ts s').0,
      )
