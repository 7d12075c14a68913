-- ===== src/Dispatcher/Capacity.antt =====
-- The permits bound the queue.
use bits_broker.Prelude.{
  ℕ, ◌+◌, ◌≤◌, none, length, Text, text_eq, lookup, Option-cases, ◌≡◌, inl, inr, arith,
}
use bits_broker.Runtime.Table.{Unique, insert-Unique, length-insert, remove-Unique, length-remove}
use bits_broker.Dispatcher.{release_permit, close_flag, close_admission, close_queue, drain_pending}
use bits_broker.Dispatcher.Moves.{
  new_dispatcher-ok, acquire_permit-ok, insert_pending-true, insert_pending-false,
  take_pending-some, enqueue_job-keeps,
}
use bits_broker.Dispatcher.Steps.{
  holds_permit, System, Step, acquires, is_turned_away, enters, is_refused, enqueues, takes,
  finishes, skips, receives, abandons, drops, flags, shuts_admission, shuts_queue, drains, Reach,
  start, step,
}
use bits_broker.Dispatcher.Answered.{Fits, Reach-Fits, fits, none_of}

module _ (Work T : Type 0) where
  record Balanced (n : ℕ) (s : System Work T) : Type 0 where
    unique : Unique s.dispatcher.pending
    permits : s.dispatcher.admission + length s.dispatcher.pending + s.holding ≡ n

  -- A caller that is about to enter has no item in the map.
  absent :
      (s : System Work T) (id : Text)
      → Fits Work T s
      → s.phase id ≡ holds_permit
      → lookup id s.dispatcher.pending ≡ none
  unfolding fits none_of
  absent s id f p = elim (Option-cases (lookup id s.dispatcher.pending)) [
    | inl e ↦ e
    | inr (item, e) ↦ cc (rw (p, e) at (f id))
  ]

  step-Balanced :
      {n : ℕ} {s s' : System Work T}
      → Fits Work T s
      → Balanced n s
      → Step Work T s s'
      → Balanced n s'
  unfolding close_flag close_admission close_queue release_permit drain_pending
  step-Balanced f b (acquires s id p e) =
      let (permit, pending, _) = acquire_permit-ok s.dispatcher _ e in
      record {
        unique = rw pending b.unique;
        permits = rw pending (omega (arith, permit, b.permits));
      }
  step-Balanced f b (is_turned_away s id p e) = record { unique = b.unique; permits = b.permits }
  step-Balanced f b (enters s id item p h e) =
      let (_, same) = insert_pending-true id item s.dispatcher _ e in
      rw same (record {
        unique = insert-Unique id item s.dispatcher.pending b.unique;
        permits =
            omega
              (arith, h, b.permits, length-insert id item s.dispatcher.pending (absent s id f p));
      })
  step-Balanced f b (is_refused s id item p h e) =
      rw (insert_pending-false id item s.dispatcher _ e)
        (record { unique = b.unique; permits = omega (arith, h, b.permits) })
  step-Balanced f b (enqueues s id p) =
      let (pending, permits, _) = enqueue_job-keeps id s.dispatcher in
      record { unique = rw pending b.unique; permits = rw (pending, permits) b.permits }
  step-Balanced f b (takes s id e) =
      let (there, same) = take_pending-some id s.dispatcher _ _ e in
      rw same (record {
        unique = remove-Unique id s.dispatcher.pending b.unique;
        permits = omega (arith, b.permits, length-remove id _ s.dispatcher.pending b.unique there);
      })
  step-Balanced f b (finishes s id result e) = record { unique = b.unique; permits = b.permits }
  step-Balanced f b (skips s id p e) = record { unique = b.unique; permits = b.permits }
  step-Balanced f b (receives s id p e) = record { unique = b.unique; permits = b.permits }
  step-Balanced f b (abandons s id c v c_still v_still p g a e) =
      let (there, same) = take_pending-some id s.dispatcher _ _ e in
      rw same (record {
        unique = remove-Unique id s.dispatcher.pending b.unique;
        permits = omega (arith, b.permits, length-remove id _ s.dispatcher.pending b.unique there);
      })
  step-Balanced f b (drops s id p) = record { unique = b.unique; permits = b.permits }
  step-Balanced f b (flags s) = record { unique = b.unique; permits = b.permits }
  step-Balanced f b (shuts_admission s) = record { unique = b.unique; permits = b.permits }
  step-Balanced f b (shuts_queue s) = record { unique = b.unique; permits = b.permits }
  step-Balanced f b (drains s c) = record { unique = tt; permits = omega (arith, b.permits) }

  Reach-Balanced : {n : ℕ} {s : System Work T} → Reach Work T n s → Balanced n s
  Reach-Balanced {n} (start m e) =
      let (empty, full) = new_dispatcher-ok m n _ e in
      record { unique = rw empty tt; permits = rw empty (omega (arith, full)) }
  Reach-Balanced (step r t) = step-Balanced (Reach-Fits Work T r).0 (Reach-Balanced r) t

  -- With any interleaving of callers, workers and `close`, where each job is dispatched once: the free
  -- permits, the jobs in the map and the callers on their way into it are together as many as
  -- the capacity, so that no permit is lost or made up and at most as many jobs as that are queued.
  pub permits-balance :
      {n : ℕ} {s : System Work T}
      → Reach Work T n s
      → (s.dispatcher.admission + length s.dispatcher.pending + s.holding ≡ n)
        × (length s.dispatcher.pending ≤ n)
  permits-balance r = let b = Reach-Balanced r in (b.permits, omega (arith, b.permits))
