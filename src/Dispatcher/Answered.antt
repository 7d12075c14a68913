-- ===== src/Dispatcher/Answered.antt =====
-- Every caller that waits is answered, and by one task.
use bits_broker.Prelude.{
  ℕ, Bool, true, false, Bool-cases, inl, inr, [], Text, text_beq_iff, text_eq, HashMap, lookup,
  remove, lookup-insert, lookup-remove, ◌≡◌, ◌≢◌, refl, ap, ◌∙◌, ◌⊎◌, arith,
}
use bits_broker.Dispatcher.{
  PendingItem, release_permit, close_flag, close_admission, close_queue, drain_pending,
}
use bits_broker.Dispatcher.Moves.{
  new_dispatcher-ok, acquire_permit-ok, insert_pending-true, insert_pending-false,
  take_pending-some, enqueue_job-keeps,
}
use bits_broker.Dispatcher.Steps.{
  is_some, at, Phase, in_map, waits, gives_up, is_dropped, System, Step, acquires, is_turned_away,
  enters, is_refused, enqueues, takes, finishes, skips, receives, abandons, drops, flags,
  shuts_admission, shuts_queue, drains, Reach, start, step,
}

-- Exactly one of three.
unfoldable pub one_of : Bool → Bool → Bool → Bool
one_of true false false = true
one_of false true false = true
one_of false false true = true
one_of _ _ _ = false

unfoldable pub at_most_one_of : Bool → Bool → Bool → Bool
at_most_one_of false false o = true
at_most_one_of false true false = true
at_most_one_of true false false = true
at_most_one_of _ _ _ = false

unfoldable pub none_of : Bool → Bool → Bool → Bool
none_of false false false = true
none_of _ _ _ = false

module _ (Work T : Type 0) where
  -- What a call finds at each place: an item in the map, a worker that runs it, and a reply.
  unfoldable pub fits : Phase Work T → (pending running replied : Bool) → Bool
  fits in_map p r o = one_of p r o
  fits waits p r o = one_of p r o
  fits is_dropped p r o = at_most_one_of p r o
  fits _ p r o = none_of p r o

  abbrev pub has : Text → HashMap Text (PendingItem Work) → Bool
  has k m = is_some (lookup k m)

  abbrev pub Fits : System Work T → Type 0
  Fits s =
      (k : Text)
      → fits (s.phase k) (has k s.dispatcher.pending) (s.running k) (is_some (s.reply k)) ≡ true

  step-Fits : {s s' : System Work T} → Fits s → Step Work T s s' → Fits s'
  unfolding at fits one_of none_of at_most_one_of close_flag close_admission close_queue
      release_permit drain_pending lookup
  step-Fits h (acquires s id p e) k =
      rw (acquire_permit-ok s.dispatcher _ e).1 (ground (arith, text_beq_iff id k, h k, p))
  step-Fits h (is_turned_away s id p e) k = ground (arith, text_beq_iff id k, h k, p)
  step-Fits h (enters s id item p n e) k =
      rw (insert_pending-true id item s.dispatcher _ e).1
        (ground (arith, text_beq_iff id k, h k, p, lookup-insert id k item s.dispatcher.pending))
  step-Fits h (is_refused s id item p n e) k =
      rw (insert_pending-false id item s.dispatcher _ e) (ground (arith, text_beq_iff id k, h k, p))
  step-Fits h (enqueues s id p) k =
      rw (enqueue_job-keeps id s.dispatcher).0 (ground (arith, text_beq_iff id k, h k, p))
  step-Fits h (takes s id e) k =
      let (there, same) = take_pending-some id s.dispatcher _ _ e in
      rw same
        (ground (arith, text_beq_iff id k, h k, there, lookup-remove id k s.dispatcher.pending))
  step-Fits h (finishes s id result e) k = ground (arith, text_beq_iff id k, h k, e)
  step-Fits h (skips s id p e) k = ground (arith, text_beq_iff id k, h k, p)
  step-Fits h (receives s id p e) k = ground (arith, text_beq_iff id k, h k, p, e)
  step-Fits h (abandons s id c v c_still v_still p g a e) k =
      let (there, same) = take_pending-some id s.dispatcher _ _ e in
      rw same
        (ground (arith, text_beq_iff id k, h k, p, there, lookup-remove id k s.dispatcher.pending))
  step-Fits h (drops s id p) k = ground (arith, text_beq_iff id k, h k, p)
  step-Fits h (flags s) k = h k
  step-Fits h (shuts_admission s) k = h k
  step-Fits h (shuts_queue s) k = h k
  step-Fits h (drains s c) k = ground (arith, h k)

  -- After the drain the map stays empty.
  abbrev Emptied : System Work T → Type 0
  Emptied s = s.drained ≡ true → (s.dispatcher.closing ≡ true) × (s.dispatcher.pending ≡ [])

  not_both : {b : Bool} → b ≡ true → b ≢ false
  not_both h k = cc

  step-Emptied : {s s' : System Work T} → Emptied s → Step Work T s s' → Emptied s'
  unfolding close_flag close_admission close_queue release_permit drain_pending remove
  step-Emptied h (acquires s id p e) d =
      let (_, pending, closing) = acquire_permit-ok s.dispatcher _ e in
      (closing ∙ (h d).0, pending ∙ (h d).1)
  step-Emptied h (is_turned_away s id p e) d = h d
  step-Emptied h (enters s id item p n e) d =
      absurd (not_both (h d).0 (insert_pending-true id item s.dispatcher _ e).0)
  step-Emptied h (is_refused s id item p n e) d =
      rw (insert_pending-false id item s.dispatcher _ e) (h d)
  step-Emptied h (enqueues s id p) d =
      let (pending, _, closing) = enqueue_job-keeps id s.dispatcher in
      (closing ∙ (h d).0, pending ∙ (h d).1)
  step-Emptied h (takes s id e) d =
      let (there, same) = take_pending-some id s.dispatcher _ _ e in
      rw same ((h d).0, ap (remove id) (h d).1)
  step-Emptied h (finishes s id result e) d = h d
  step-Emptied h (skips s id p e) d = h d
  step-Emptied h (receives s id p e) d = h d
  step-Emptied h (abandons s id c v c_still v_still p g a e) d =
      let (there, same) = take_pending-some id s.dispatcher _ _ e in
      rw same ((h d).0, ap (remove id) (h d).1)
  step-Emptied h (drops s id p) d = h d
  step-Emptied h (flags s) d = (refl, (h d).1)
  step-Emptied h (shuts_admission s) d = h d
  step-Emptied h (shuts_queue s) d = h d
  step-Emptied h (drains s c) d = (c, refl)

  pub Reach-Fits : {n : ℕ} {s : System Work T} → Reach Work T n s → Fits s × Emptied s
  unfolding fits none_of lookup
  Reach-Fits {n} (start m e) =
      (λ k. rw (new_dispatcher-ok m n _ e).0 refl, λ h. absurd (not_both h refl))
  Reach-Fits (step r t) = let (f, m) = Reach-Fits r in (step-Fits f t, step-Emptied m t)

  -- With any interleaving of callers, workers and `close`, where each job is dispatched once: for a caller
  -- that waits, exactly one of three holds: its job is in the map, or a worker runs it, or its reply is
  -- there, so that it is answered, and once. After the drain of `close` it is one of the last two: no
  -- caller is left behind.
  pub waits-answered :
      {n : ℕ} {s : System Work T} (id : Text)
      → Reach Work T n s
      → s.phase id ≡ waits
      → (one_of (has id s.dispatcher.pending) (s.running id) (is_some (s.reply id)) ≡ true)
        × ((s.drained ≡ false) ⊎ (s.running id ≡ true) ⊎ (is_some (s.reply id) ≡ true))
  unfolding fits one_of lookup
  waits-answered {s = s} id r p =
      let (f, m) = Reach-Fits r in
      let one : one_of (has id s.dispatcher.pending) (s.running id) (is_some (s.reply id)) ≡ true =
        rw p at (f id) in
      (
        one,
        elim (Bool-cases s.drained) [
          | inl d ↦ inr (answered_or_running one (ap (has id) (m d).1))
          | inr d ↦ inl d
        ],
      )
    where
      answered_or_running :
          {p r o : Bool} → one_of p r o ≡ true → p ≡ false → (r ≡ true) ⊎ (o ≡ true)
      answered_or_running a b = ground arith

  -- With any interleaving of callers, workers and `close`, where each job is dispatched once: a job whose
  -- caller gave up while it was queued is not in the map, is run by no worker, and has no reply.
  pub gives_up-never_runs :
      {n : ℕ} {s : System Work T} (id : Text)
      → Reach Work T n s
      → s.phase id ≡ gives_up
      → none_of (has id s.dispatcher.pending) (s.running id) (is_some (s.reply id)) ≡ true
  unfolding fits
  gives_up-never_runs id r p = rw p at ((Reach-Fits r).0 id)
