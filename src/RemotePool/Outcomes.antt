-- ===== src/RemotePool/Outcomes.antt =====
-- Which outcome a caller gets, and which jobs the reaper evicts.
use bits_broker.Prelude.{
  ℕ, ◌-◌, ◌<◌, ◌≤◌, ap, ◌∙◌, err, Bool, true, false, ◌&&◌, not, Option, none, some, List, [], ◌∷◌,
  ◌||◌, Text, text, text_eq, text_beq, text_beq_iff, lookup, lookup-remove, if◌then◌else◌,
  Bool-cases, Option-cases, ◌≡◌, ◌⊎◌, refl, sym, inl, inr, arith,
}
use bits_broker.Actions.{resource_error}
use bits_broker.Dispatcher.Steps.{is_some, at}
use bits_broker.RemotePool.{
  RemotePool, InProgressJob, Outcome, sent, sender_dropped, WorkerOutcome, outcome_result, settle,
  start_work, is_alive, reap_one, reap, reply_of,
}
use bits_broker.RemotePool.Simulates.{remote-Owned}
use bits_broker.RemotePool.Steps.{
  Remote, RemoteReach, Move, calls, picks, gives_back, turns_down, begins, beats, completes, reaps,
  evicts, delivers,
}
use bits_broker.RemotePool.Owner.{
  owns, Owned, Settles, handle_complete-Settles, drain_one-Settles, reap_one-Settles,
  handle_heartbeat-keeps, take_outcome-some,
}

abbrev pub contains : Text → List Text → Bool
contains k [] = false
contains k (id ∷ ids) = text_beq id k || contains k ids

-- What is left of an entry that the reaper looks at.
abbrev if_alive : (timeout now : ℕ) → Option InProgressJob → Option InProgressJob
if_alive timeout now none = none
if_alive timeout now (some entry) = if is_alive timeout now entry then some entry else none

abbrev is_expired : (timeout now : ℕ) → Option InProgressJob → Bool
is_expired timeout now none = false
is_expired timeout now (some entry) = not (is_alive timeout now entry)

alive_stays :
    (timeout now : ℕ) (o : Option InProgressJob)
    → is_expired timeout now o ≡ false
    → if_alive timeout now o ≡ o
alive_stays timeout now none h = refl
alive_stays timeout now (some entry) h = ground arith

dead_goes :
    (timeout now : ℕ) (o : Option InProgressJob)
    → is_expired timeout now o ≡ true
    → if_alive timeout now o ≡ none
dead_goes timeout now none h = refl
dead_goes timeout now (some entry) h = ground arith

young-is_alive :
    (timeout now : ℕ) (entry : InProgressJob)
    → is_alive timeout now entry ≡ true
    → now - entry.last_heartbeat < timeout
unfolding is_alive
young-is_alive timeout now entry h = ground (arith, h)

old-is_alive :
    (timeout now : ℕ) (entry : InProgressJob)
    → is_alive timeout now entry ≡ false
    → timeout ≤ now - entry.last_heartbeat
unfolding is_alive
old-is_alive timeout now entry h = ground (arith, h)

module _ {B : Type 0} (timeout now : ℕ) where
  stays :
      (id : Text) (p : RemotePool B)
      → is_expired timeout now (lookup id p.in_progress) ≡ false
      → reap_one timeout now id p ≡ p
  unfolding reap_one
  stays id p h = elim (Option-cases (lookup id p.in_progress)) [
    | inl n ↦ simp (reap_one, n)
    | inr (entry, e) ↦
        let alive : is_alive timeout now entry ≡ true = ground (arith, simp (e) at h) in
        simp (reap_one, e, alive)
  ]

  goes :
      (id : Text) (p : RemotePool B)
      → is_expired timeout now (lookup id p.in_progress) ≡ true
      → reap_one timeout now id p ≡ settle id sender_dropped p
  unfolding reap_one
  goes id p h = elim (Option-cases (lookup id p.in_progress)) [
    | inl n ↦ cc (simp (n) at h)
    | inr (entry, e) ↦
        let dead : is_alive timeout now entry ≡ false = ground (arith, simp (e) at h) in
        simp (reap_one, e, dead)
  ]

  -- The entry and the outcome of a job, after a look at it or at another one.
  abbrev Reaped : (looked : Bool) → Text → RemotePool B → RemotePool B → Type 0
  Reaped looked k p p' =
      (lookup k p'.in_progress ≡ (
        if looked then if_alive timeout now (lookup k p.in_progress) else lookup k p.in_progress))
      × (p'.outcome k ≡ (
          if looked && is_expired timeout now (lookup k p.in_progress)
          then sender_dropped
          else p.outcome k))

  reap_one-Reaped :
      (id k : Text) (p : RemotePool B) → Reaped (text_beq id k) k p (reap_one timeout now id p)
  unfolding settle at
  reap_one-Reaped id k p = elim (Bool-cases (is_expired timeout now (lookup id p.in_progress))) [
    | inr h ↦ rw (stays id p h) (
      ground (arith, text_beq_iff id k, h, alive_stays timeout now (lookup id p.in_progress)),
      ground (arith, text_beq_iff id k, h),
    )
    | inl h ↦ rw (goes id p h) (
      ground (
        arith,
        text_beq_iff id k,
        h,
        dead_goes timeout now (lookup id p.in_progress),
        lookup-remove id k p.in_progress,
      ),
      ground (arith, text_beq_iff id k, h),
    )
  ]

  twice :
      (a b : Bool) (o o' o'' : Option InProgressJob) (c c' c'' : Outcome B)
      → (o' ≡ (if a then if_alive timeout now o else o))
        × (c' ≡ (if a && is_expired timeout now o then sender_dropped else c))
      → (o'' ≡ (if b then if_alive timeout now o' else o'))
        × (c'' ≡ (if b && is_expired timeout now o' then sender_dropped else c'))
      → (o'' ≡ (if a || b then if_alive timeout now o else o))
        × (c'' ≡ (if (a || b) && is_expired timeout now o then sender_dropped else c))
  twice a b none o' o'' c c' c'' first second =
      rw (second.0, second.1, first.0, first.1) (ground arith, ground arith)
  twice a b (some entry) o' o'' c c' c'' first second =
      rw (second.0, second.1, first.0, first.1) (ground arith, ground arith)

  -- A sweep is a filter.
  reap-if_alive :
      (ids : List Text) (k : Text) (p : RemotePool B)
      → (lookup k (reap timeout now ids p).in_progress ≡ (
          if contains k ids
          then if_alive timeout now (lookup k p.in_progress)
          else lookup k p.in_progress))
        × ((reap timeout now ids p).outcome k ≡ (
            if contains k ids && is_expired timeout now (lookup k p.in_progress)
            then sender_dropped
            else p.outcome k))
  unfolding reap
  reap-if_alive [] k p = (refl, refl)
  reap-if_alive (id ∷ ids) k p =
      let p' = reap_one timeout now id p in
      let p'' = reap timeout now ids p' in
      twice (text_beq id k) (contains k ids) (lookup k p.in_progress) (lookup k p'.in_progress)
        (lookup k p''.in_progress) (p.outcome k) (p'.outcome k) (p''.outcome k)
        (reap_one-Reaped id k p) (reap-if_alive ids k (reap_one timeout now id p))

  -- After a sweep of the reaper over some jobs, in any order, one of three holds of a job. It was not
  -- looked at or not in progress, and is left alone. Or it is in progress and less than the time-out
  -- has passed since its last heartbeat, and it is left alone. Or it was in progress, was looked at, and
  -- at least the time-out has passed: it is not in progress any more, and its caller gets the error
  -- "worker heartbeat timeout or disconnect". A heartbeat later than the clock has just come.
  pub reap-Reaped :
      (ids : List Text) (k : Text) (p : RemotePool B)
      → (((contains k ids ≡ false) ⊎ (lookup k p.in_progress ≡ none))
          × (lookup k (reap timeout now ids p).in_progress ≡ lookup k p.in_progress)
          × ((reap timeout now ids p).outcome k ≡ p.outcome k))
        ⊎ ((entry : InProgressJob) × (lookup k p.in_progress ≡ some entry)
            × (now - entry.last_heartbeat < timeout)
            × (lookup k (reap timeout now ids p).in_progress ≡ some entry)
            × ((reap timeout now ids p).outcome k ≡ p.outcome k))
        ⊎ ((entry : InProgressJob) × (contains k ids ≡ true)
            × (lookup k p.in_progress ≡ some entry)
            × (timeout ≤ now - entry.last_heartbeat)
            × (lookup k (reap timeout now ids p).in_progress ≡ none)
            × (reply_of ((reap timeout now ids p).outcome k)
                ≡ some (err (resource_error (text "worker heartbeat timeout or disconnect")))))
  unfolding reply_of outcome_result
  reap-Reaped ids k p =
      let (left, out) = reap-if_alive ids k p in
      elim (Bool-cases (contains k ids)) [
        | inr c ↦ inl (inl c, simp (c) at left, simp (c) at out)
        | inl c ↦ elim (Option-cases (lookup k p.in_progress)) [
          | inl n ↦ inl (inr n, simp (c, n) at left ∙ sym n, simp (c, n) at out)
          | inr (entry, e) ↦ elim (Bool-cases (is_alive timeout now entry)) [
            | inl y ↦ inr (
                inl (
                  entry,
                  e,
                  young-is_alive timeout now entry y,
                  simp (c, e, y) at left,
                  simp (c, e, y) at out,
                ))
            | inr o ↦ inr (
                inr (
                  entry,
                  c,
                  e,
                  old-is_alive timeout now entry o,
                  simp (c, e, o) at left,
                  ap reply_of (simp (c, e, o) at out),
                ))
          ]
        ]
      ]

-- Once the outcome of a job is there, no other one replaces it, and it is the answer to the caller.
module _ (Work B : Type 0) where
  sent_owner :
      (r c i : Bool) (o : WorkerOutcome B) → owns r c i (sent o) ≡ true → (c ≡ false) × (i ≡ false)
  unfolding owns
  sent_owner r c i o h = ground arith

  Settles-sent :
      (id k : Text) (o' : Outcome B) (o : WorkerOutcome B) (p p' : RemotePool B)
      → Settles id o' p p'
      → is_some (lookup k p.in_progress) ≡ false
      → p.outcome k ≡ sent o
      → p'.outcome k ≡ sent o
  unfolding Settles settle at
  Settles-sent id k o' o p p' (inl e) n h = rw e h
  Settles-sent id k o' o p p' (inr (i, e)) n h = rw e (ground (arith, text_beq_iff id k, i, n, h))

  sent-stays :
      {timeout : ℕ} {r r' : Remote Work B} (k : Text) (o : WorkerOutcome B)
      → Owned Work B r
      → Move Work B timeout r r'
      → r.pool.outcome k ≡ sent o
      → (r'.pool.outcome k ≡ sent o) ⊎ (r'.front.reply k ≡ some (outcome_result (some o)))
  unfolding at start_work reply_of
  sent-stays k o w (calls r st l) h = inl h
  sent-stays k o w (picks r id e) h = inl h
  sent-stays k o w (gives_back r id c v g e) h = inl h
  sent-stays k o w (turns_down r id c v g e) h = inl h
  sent-stays k o w (begins r id c v now g e) h =
      let (free, _) = sent_owner (r.front.running k) _ _ o (rw h at (w k)) in
      inl (ground (arith, text_beq_iff id k, h, g, free))
  sent-stays k o w (beats r id now) h = inl (rw (handle_heartbeat-keeps id k now r.pool).1 h)
  sent-stays k o w (completes r id o') h =
      let (_, out) = sent_owner (r.front.running k) _ _ o (rw h at (w k)) in
      inl (Settles-sent id k (sent o') o r.pool _ (handle_complete-Settles id o' r.pool) out h)
  sent-stays {timeout} k o w (reaps r id now) h =
      let (_, out) = sent_owner (r.front.running k) _ _ o (rw h at (w k)) in
      inl
        (Settles-sent id k sender_dropped o r.pool _ (reap_one-Settles timeout now id r.pool) out h)
  sent-stays k o w (evicts r id) h =
      let (_, out) = sent_owner (r.front.running k) _ _ o (rw h at (w k)) in
      inl (Settles-sent id k sender_dropped o r.pool _ (drain_one-Settles id r.pool) out h)
  sent-stays k o w (delivers r id {result = result} e) h =
      let (answer, same) = take_outcome-some id r.pool _ e in
      rw same (elim (Bool-cases (text_beq id k)) [
        | inl b ↦ inr (rw b (sym (rw ((text_beq_iff id k).0 b, h) at answer)))
        | inr b ↦ inl (ground (arith, b, h))
      ])

  -- Under any interleaving: once the outcome of a job is there, the next step leaves it there, or
  -- answers the caller with it. No second completion, no new poll and no sweep of the reaper puts
  -- another one in its place.
  pub first_outcome-wins :
      {timeout n : ℕ} {r r' : Remote Work B} (k : Text) (o : WorkerOutcome B)
      → RemoteReach Work B timeout n r
      → Move Work B timeout r r'
      → r.pool.outcome k ≡ sent o
      → (r'.pool.outcome k ≡ sent o) ⊎ (r'.front.reply k ≡ some (outcome_result (some o)))
  first_outcome-wins k o reach m h = sent-stays k o (remote-Owned Work B reach) m h
