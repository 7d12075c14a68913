-- ===== src/RemotePool/Simulates.antt =====
-- The remote pool does what a pool of local workers may do, so that what holds of the dispatcher holds
-- of it too.
use bits_broker.Prelude.{
  ℕ, ◌+◌, Bool, true, false, err, Text, text_eq, lookup, Option-cases, ◌≡◌, refl, inl, inr, arith,
}
use bits_broker.Actions.{DispatchGuard, TargetResult}
use bits_broker.Dispatcher.{guard_error}
use bits_broker.Dispatcher.Answered.{fits, one_of, Reach-Fits}
use bits_broker.Dispatcher.Steps.{
  is_some, Phase, not_called, holds_permit, in_map, waits, gives_up, returns, is_dropped, takes,
  finishes, skips, Reach, start, step,
}
use bits_broker.RemotePool.{
  Outcome, no_channel, awaited, sent, sender_dropped, drops_item, guard_verdict,
}
use bits_broker.RemotePool.Steps.{
  Remote, Move, reply_closed, calls, picks, gives_back, turns_down, begins, beats, completes, reaps,
  evicts, delivers, RemoteReach, move,
}
use bits_broker.RemotePool.Owner.{owns, answered, Owned, Move-Owned, take_outcome-some}

guard_verdict-drops_item :
    (guard : DispatchGuard) (closed c v : Bool)
    → guard_verdict guard closed c v ≡ drops_item
    → closed ≡ true
unfolding guard_verdict
guard_verdict-drops_item guard true c v h = refl
guard_verdict-drops_item guard false c v h = elim (Option-cases (guard_error guard c v)) [
  | inl e ↦ cc (simp (guard_verdict, e) at h)
  | inr (error, e) ↦ cc (simp (guard_verdict, e) at h)
]

reply_closed-is_dropped :
    {Work T : Type 0} (phase : Phase Work T) → reply_closed phase ≡ true → phase ≡ is_dropped
unfolding reply_closed
reply_closed-is_dropped not_called h = cc
reply_closed-is_dropped holds_permit h = cc
reply_closed-is_dropped in_map h = cc
reply_closed-is_dropped waits h = cc
reply_closed-is_dropped gives_up h = cc
reply_closed-is_dropped returns h = cc
reply_closed-is_dropped is_dropped h = refl

owns-running :
    {B : Type 0} (r c i : Bool) (o : Outcome B) → owns r c i o ≡ true → c ≡ true → r ≡ true
unfolding owns
owns-running r c i o h e = ground arith

-- Whether the outcome is there, and on its way to the caller.
unfoldable pub is_settled : {B : Type 0} → Outcome B → Bool
is_settled no_channel = false
is_settled awaited = false
is_settled (sent outcome) = true
is_settled sender_dropped = true

owns-settled :
    {B : Type 0} (r c i : Bool) (o : Outcome B)
    → owns r c i o ≡ true
    → is_settled o ≡ true
    → r ≡ true
unfolding owns is_settled
owns-settled r c i o h e = ground arith

-- How many of two or more hold.
abbrev pub bit : Bool → ℕ
bit true = 1
bit false = 0

module _ (Work B : Type 0) where
  Move-Reach :
      {timeout n : ℕ} {r r' : Remote Work B}
      → Owned Work B r
      → Reach Work (TargetResult B) n r.front
      → Move Work B timeout r r'
      → Reach Work (TargetResult B) n r'.front
  Move-Reach o h (calls r st l) = step h st
  Move-Reach o h (picks r id e) = step h (takes r.front id e)
  Move-Reach o h (gives_back r id c v g e) = step h (
      skips r.front id (reply_closed-is_dropped _ (guard_verdict-drops_item _ _ c v e))
        (owns-running _ _ _ _ (o id) (simp (g))))
  Move-Reach o h (turns_down r id c v {error = error} g e) =
      step h (finishes r.front id (err error) (owns-running _ _ _ _ (o id) (simp (g))))
  Move-Reach o h (begins r id c v now g e) = h
  Move-Reach o h (beats r id now) = h
  Move-Reach o h (completes r id outcome) = h
  Move-Reach o h (reaps r id now) = h
  Move-Reach o h (evicts r id) = h
  Move-Reach o h (delivers r id {result = result} e) = step h (
      finishes r.front id result
        (answered _ _ _ (r.pool.outcome id) (o id) (take_outcome-some id r.pool _ e).0).0)

  both :
      {timeout n : ℕ} {r : Remote Work B}
      → RemoteReach Work B timeout n r
      → Owned Work B r × Reach Work (TargetResult B) n r.front
  unfolding owns lookup
  both (RemoteReach.start m e) = (λ k. refl, start m e)
  both (move h m) =
      let (o, reach) = both h in
      (Move-Owned Work B (Reach-Fits Work (TargetResult B) reach).0 o m, Move-Reach o reach m)

  pub remote-Owned :
      {timeout n : ℕ} {r : Remote Work B} → RemoteReach Work B timeout n r → Owned Work B r
  remote-Owned h = (both h).0

  -- Every state of a dispatcher with a remote pool, under any interleaving of callers, handlers, the
  -- reaper, the tasks of jobs and `close`, is one that a dispatcher with local workers reaches.
  pub remote-simulates :
      {timeout n : ℕ} {r : Remote Work B}
      → RemoteReach Work B timeout n r
      → Reach Work (TargetResult B) n r.front
  remote-simulates h = (both h).1

  -- With a remote pool, under any interleaving: for a caller that waits, exactly one of five holds. Its
  -- item is in the map, or with the handler of a poll, or its job is in progress at a worker, or the
  -- outcome is on its way, or its reply is there. So while a job is in progress, neither the map nor
  -- a handler has its item.
  pub remote-answered :
      {timeout n : ℕ} {r : Remote Work B} (id : Text)
      → RemoteReach Work B timeout n r
      → r.front.phase id ≡ waits
      → bit (is_some (lookup id r.front.dispatcher.pending))
          + bit (is_some (r.claiming id))
          + bit (is_some (lookup id r.pool.in_progress))
          + bit (is_settled (r.pool.outcome id))
          + bit (is_some (r.front.reply id))
        ≡ 1
  unfolding fits one_of owns is_settled
  remote-answered {r = r} id h w =
      let (o, reach) = both h in
      one (is_some (lookup id r.front.dispatcher.pending)) (r.front.running id)
        (is_some (r.front.reply id)) (is_some (r.claiming id))
        (is_some (lookup id r.pool.in_progress)) (r.pool.outcome id)
        (rw w at ((Reach-Fits Work (TargetResult B) reach).0 id)) (o id)
    where
      one :
          (p run reply claim progress : Bool) (o : Outcome B)
          → one_of p run reply ≡ true
          → owns run claim progress o ≡ true
          → bit p + bit claim + bit progress + bit (is_settled o) + bit reply ≡ 1
      one p run reply claim progress o f w = ground arith
