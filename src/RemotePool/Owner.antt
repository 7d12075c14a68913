-- ===== src/RemotePool/Owner.antt =====
-- Who holds the reply channel of a job that left the pending map.
use bits_broker.Prelude.{
  ℕ, Bool, true, false, none, some, Result, Text, text_beq_iff, text_eq, lookup, lookup-insert,
  lookup-remove, Bool-cases, Option-cases, ◌≡◌, refl, sym, ap, ◌∙◌, inl, inr, ◌⊎◌, arith,
}
use bits_broker.Actions.{ActionError, TargetResult}
use bits_broker.Dispatcher.Moves.{take_pending-some}
use bits_broker.Dispatcher.Answered.{Fits, fits, one_of, none_of, at_most_one_of}
use bits_broker.Dispatcher.Steps.{
  is_some, at, Phase, System, Step, acquires, is_turned_away, enters, is_refused, enqueues, takes,
  finishes, skips, receives, abandons, drops, flags, shuts_admission, shuts_queue, drains,
}
use bits_broker.RemotePool.{
  RemotePool, Outcome, no_channel, awaited, sent, sender_dropped, WorkerOutcome, settle, start_work,
  handle_heartbeat, handle_complete, is_alive, reap_one, drain_one, take_outcome, reply_of,
}
use bits_broker.RemotePool.Steps.{
  Remote, Move, is_local_work, calls, picks, gives_back, turns_down, begins, beats, completes,
  reaps, evicts, delivers,
}

-- The sender of a reply is with the handler of a poll, or with the task of the job: then either the
-- job is in progress and its outcome awaited, or the outcome is there.
unfoldable pub owns : {B : Type 0} → (running claiming in_progress : Bool) → Outcome B → Bool
owns false false false no_channel = true
owns true true false no_channel = true
owns true false true awaited = true
owns true false false (sent outcome) = true
owns true false false sender_dropped = true
owns _ _ _ _ = false

module _ {B : Type 0} where
  -- What an operation of the pool did: nothing, or the job left.
  unfoldable pub Settles : Text → Outcome B → RemotePool B → RemotePool B → Type 0
  Settles id outcome p p' =
      (p' ≡ p) ⊎ ((is_some (lookup id p.in_progress) ≡ true) × (p' ≡ settle id outcome p))

  pub handle_complete-Settles :
      (id : Text) (o : WorkerOutcome B) (p : RemotePool B)
      → Settles id (sent o) p (handle_complete id o p).1
  unfolding Settles handle_complete
  handle_complete-Settles id o p = elim (Option-cases (lookup id p.in_progress)) [
    | inl n ↦ inl (simp (handle_complete, n))
    | inr (e, h) ↦ inr (simp (h), simp (handle_complete, h))
  ]

  pub drain_one-Settles :
      (id : Text) (p : RemotePool B) → Settles id sender_dropped p (drain_one id p)
  unfolding Settles drain_one
  drain_one-Settles id p = elim (Option-cases (lookup id p.in_progress)) [
    | inl n ↦ inl (simp (drain_one, n))
    | inr (e, h) ↦ inr (simp (h), simp (drain_one, h))
  ]

  pub reap_one-Settles :
      (timeout now : ℕ) (id : Text) (p : RemotePool B)
      → Settles id sender_dropped p (reap_one timeout now id p)
  unfolding Settles reap_one
  reap_one-Settles timeout now id p = elim (Option-cases (lookup id p.in_progress)) [
    | inl n ↦ inl (simp (reap_one, n))
    | inr (e, h) ↦ elim (Bool-cases (is_alive timeout now e)) [
      | inl a ↦ inl (simp (reap_one, h, a))
      | inr a ↦ inr (simp (h), simp (reap_one, h, a))
    ]
  ]

  pub handle_heartbeat-keeps :
      (id k : Text) (now : ℕ) (p : RemotePool B)
      → (is_some (lookup k (handle_heartbeat id now p).1.in_progress)
          ≡ is_some (lookup k p.in_progress))
        × ((handle_heartbeat id now p).1.outcome ≡ p.outcome)
  unfolding handle_heartbeat
  handle_heartbeat-keeps id k now p = elim (Option-cases (lookup id p.in_progress)) [
    | inl n ↦ rw (handle_heartbeat, n) (refl, refl)
    | inr (e, h) ↦
        rw (handle_heartbeat, h)
          (
            ground (
              arith,
              text_beq_iff id k,
              h,
              lookup-insert id k (record e { last_heartbeat = now }) p.in_progress,
            ),
            refl,
          )
  ]

  took :
      (id : Text) (p : RemotePool B) {result : Result ActionError (TargetResult B)}
      → reply_of (p.outcome id) ≡ some result
      → take_outcome id p ≡ (some result, record p { outcome = at id no_channel p.outcome })
  unfolding take_outcome
  took id p e = simp (take_outcome, e)

  missed :
      (id : Text) (p : RemotePool B)
      → reply_of (p.outcome id) ≡ none
      → take_outcome id p ≡ (none, p)
  unfolding take_outcome
  missed id p e = simp (take_outcome, e)

  pub take_outcome-some :
      (id : Text) (p p' : RemotePool B) {result : Result ActionError (TargetResult B)}
      → take_outcome id p ≡ (some result, p')
      → (reply_of (p.outcome id) ≡ some result)
        × (p' ≡ record p { outcome = at id no_channel p.outcome })
  take_outcome-some id p p' h = elim (Option-cases (reply_of (p.outcome id))) [
    | inl e ↦ cc (missed id p e)
    | inr (r, e) ↦
        let same = sym (took id p e) ∙ h in (e ∙ ap (λ q. q.0) same, sym (ap (λ q. q.1) same))
  ]

  pub answered :
      (r c i : Bool) (o : Outcome B) {result : Result ActionError (TargetResult B)}
      → owns r c i o ≡ true
      → reply_of o ≡ some result
      → (r ≡ true) × (c ≡ false) × (i ≡ false)
  unfolding owns reply_of
  answered r c i no_channel h e = cc
  answered r c i awaited h e = cc
  answered r c i (sent o) h e = ground arith
  answered r c i sender_dropped h e = ground arith

module _ (Work B : Type 0) where
  abbrev pub Owned : Remote Work B → Type 0
  Owned r =
      (k : Text)
      → owns (r.front.running k) (is_some (r.claiming k)) (is_some (lookup k r.pool.in_progress))
          (r.pool.outcome k)
        ≡ true

  calls-running :
      {s s' : System Work (TargetResult B)} (st : Step Work (TargetResult B) s s')
      → is_local_work st ≡ false
      → s'.running ≡ s.running
  unfolding is_local_work
  calls-running (acquires s id p e) h = refl
  calls-running (is_turned_away s id p e) h = refl
  calls-running (enters s id item p n e) h = refl
  calls-running (is_refused s id item p n e) h = refl
  calls-running (enqueues s id p) h = refl
  calls-running (takes s id e) h = cc
  calls-running (finishes s id result e) h = cc
  calls-running (skips s id p e) h = cc
  calls-running (receives s id p e) h = refl
  calls-running (abandons s id c v c_still v_still p g a e) h = refl
  calls-running (drops s id p) h = refl
  calls-running (flags s) h = refl
  calls-running (shuts_admission s) h = refl
  calls-running (shuts_queue s) h = refl
  calls-running (drains s c) h = refl

  -- An item in the map has no worker.
  in_map-idle :
      (phase : Phase Work (TargetResult B)) (r o : Bool)
      → fits Work (TargetResult B) phase true r o ≡ true
      → r ≡ false
  unfolding fits one_of none_of at_most_one_of
  in_map-idle phase r o h = ground arith

  Settles-Owned :
      (r : Remote Work B) (id : Text) (o : Outcome B) (p : RemotePool B)
      {result : Result ActionError (TargetResult B)}
      → reply_of o ≡ some result
      → Settles id o r.pool p
      → Owned r
      → Owned (record r { pool = p })
  unfolding Settles settle at owns reply_of
  Settles-Owned r id o p a (inl e) h k = rw e (h k)
  Settles-Owned r id o p a (inr (i, e)) h k =
      rw e (ground (arith, text_beq_iff id k, h k, i, lookup-remove id k r.pool.in_progress))

  pub Move-Owned :
      {timeout : ℕ} {r r' : Remote Work B}
      → Fits Work (TargetResult B) r.front
      → Owned r
      → Move Work B timeout r r'
      → Owned r'
  unfolding at owns start_work reply_of
  Move-Owned f h (calls r st l) k = rw (calls-running st l) (h k)
  Move-Owned f h (picks r id e) k =
      let (there, _) = take_pending-some id r.front.dispatcher _ _ e in
      let idle : r.front.running id ≡ false =
        in_map-idle (r.front.phase id) (r.front.running id) (is_some (r.front.reply id))
          (rw there at (f id)) in
      ground (arith, text_beq_iff id k, h k, idle)
  Move-Owned f h (gives_back r id c v g e) k = ground (arith, text_beq_iff id k, h k, g)
  Move-Owned f h (turns_down r id c v g e) k = ground (arith, text_beq_iff id k, h k, g)
  Move-Owned f h (begins r id c v now g e) k = ground (
    arith,
    text_beq_iff id k,
    h k,
    g,
    lookup-insert id k (record { last_heartbeat = now }) r.pool.in_progress,
  )
  Move-Owned f h (beats r id now) k =
      let (same, outcome) = handle_heartbeat-keeps id k now r.pool in rw (same, outcome) (h k)
  Move-Owned f h (completes r id o) k =
      Settles-Owned r id (sent o) _ refl (handle_complete-Settles id o r.pool) h k
  Move-Owned {timeout} f h (reaps r id now) k =
      Settles-Owned r id sender_dropped _ refl (reap_one-Settles timeout now id r.pool) h k
  Move-Owned f h (evicts r id) k =
      Settles-Owned r id sender_dropped _ refl (drain_one-Settles id r.pool) h k
  Move-Owned f h (delivers r id e) k =
      let (answer, same) = take_outcome-some id r.pool _ e in
      let (_, unclaimed, out) =
        answered (r.front.running id) _ _ (r.pool.outcome id) (h id) answer in
      rw same (ground (arith, text_beq_iff id k, h k, unclaimed, out))
