-- ===== src/Durable/Record.antt =====
-- When the durable record of a job is there.
use bits_broker.Prelude.{
  ℕ, zero, suc, Bool, true, false, ◌&&◌, ◌||◌, not, Bool-cases, if◌then◌else◌, ◌≡◌, ◌≢◌, ◌⊎◌, refl,
  inl, inr, arith,
}
use bits_broker.Durable.{
  Life, Task, spawned, dispatching, writing, written, past_timer, ended, Taker, no_taker,
  is_finished, is_expired, begin_task, timer_fires, upsert_returns, mark_persisted, store_result,
  take_stored, remove_taken, schedule_durable_cleanup, sweep, delete_returns,
}
use bits_broker.Durable.Steps.{
  Step, begins, fires, upserts, marks, finishes, takes, removes, schedules, sweeps, deletes,
  changes, Reach, submits, step,
}

same : Bool → Bool → Bool
same true b = b
same false b = not b

-- Nobody has taken, removed or deleted anything.
unfoldable pub untouched : (in_table result : Bool) → Taker → (deletions : ℕ) → Bool
untouched true false no_taker zero = true
untouched _ _ _ _ = false

-- Somebody still has to delete the record.
unfoldable pub is_owed : (in_table : Bool) → Taker → (deletions : ℕ) → Bool
is_owed false no_taker zero = false
is_owed _ _ _ = true

-- The record before the result is there, and after.
unfoldable pub unfinished : Task → (persisted stored : Bool) → Bool
unfolding same
unfinished (spawned already_persisted) p s = not p && same s already_persisted
unfinished dispatching p s = same s p
unfinished writing p s = not p && not s
unfinished written p s = not p && s
unfinished past_timer p s = same s p
unfinished ended p s = true

unfoldable pub fits :
    Task → Taker → (in_table result persisted stored failed : Bool) → (deletions : ℕ) → Bool
fits ended taker t r p s f d = not s || f || (p && is_owed t taker d)
fits task taker t r p s f d = untouched t r taker d && unfinished task p s

module _ (B Payload : Type 0) where
  abbrev Fits : Life B Payload → Type 0
  Fits l =
      fits l.task l.taker l.in_table (is_finished l.job.result) l.job.persisted l.stored
        l.delete_failed l.deletions
      ≡ true

  kept : (now : ℕ) (l : Life B Payload) → (l.in_table && is_expired now l) ≡ false → sweep now l ≡ l
  unfolding sweep
  kept now l h = rw (h, sweep) refl

  swept :
      (now : ℕ) (l : Life B Payload)
      → (l.in_table && is_expired now l) ≡ true
      → (is_finished l.job.result ≡ true)
        × (sweep now l ≡ record l {
          in_table = false;
          deletions = if l.job.persisted then suc l.deletions else l.deletions;
        })
  unfolding sweep is_expired
  swept now l h = (ground (arith, h), rw (h, sweep) refl)

  Step-Fits : {l l' : Life B Payload} → Fits l → Step B Payload l l' → Fits l'
  unfolding fits unfinished untouched is_owed is_finished same begin_task timer_fires upsert_returns
      mark_persisted store_result take_stored remove_taken schedule_durable_cleanup delete_returns
  Step-Fits h (begins l ap e) = ground (arith, h, e)
  Step-Fits h (fires l e) = ground (arith, h, e)
  Step-Fits h (upserts l is_ok e) = ground (arith, h, e)
  Step-Fits h (marks l e) = ground (arith, h, e)
  Step-Fits h (finishes l result e) = ground (arith, h, e)
  Step-Fits h (takes l e) = ground (arith, h, e)
  Step-Fits h (removes l e) = ground (arith, h, e)
  Step-Fits h (schedules l e) = ground (arith, h, e)
  Step-Fits h (sweeps l now) = elim (Bool-cases (l.in_table && is_expired now l)) [
    | inl e ↦ let (finished, same) = swept now l e in rw same (ground (arith, h, finished))
    | inr e ↦ rw (kept now l e) h
  ]
  Step-Fits h (deletes l is_ok e) = ground (arith, h, e)
  Step-Fits h (changes l job r p) = ground (arith, h, r, p)

  Reach-Fits : {l : Life B Payload} → Reach B Payload l → Fits l
  unfolding fits unfinished untouched is_finished same
  Reach-Fits (submits job ap r p) = ground (arith, r, p)
  Reach-Fits (step h m) = Step-Fits (Reach-Fits h) m

  untouched_task :
      (task : Task) (taker : Taker) (t r p s f : Bool) (d : ℕ)
      → fits task taker t r p s f d ≡ true
      → task ≢ ended
      → (t ≡ true) × (d ≡ 0) × ((s ≡ true) ⊎ (p ≡ false))
  unfolding fits untouched unfinished same
  untouched_task (spawned ap) taker t r p s f d h e = ground arith
  untouched_task dispatching taker t r p s f d h e = ground arith
  untouched_task writing taker t r p s f d h e = ground arith
  untouched_task written taker t r p s f d h e = ground arith
  untouched_task past_timer taker t r p s f d h e = ground arith
  untouched_task ended taker t r p s f d h e = absurd (e refl)

  -- Under any interleaving, as long as the task of a job has not ended, the job is in the table, no
  -- deletion of its record is due, and a job that is marked as persisted has its record in the
  -- store, from which another broker can take it over.
  pub record-kept :
      {l : Life B Payload}
      → Reach B Payload l
      → l.task ≢ ended
      → (l.in_table ≡ true) × (l.deletions ≡ 0) × ((l.stored ≡ true) ⊎ (l.job.persisted ≡ false))
  record-kept {l} h e =
      untouched_task l.task l.taker l.in_table (is_finished l.job.result) l.job.persisted l.stored
        l.delete_failed l.deletions (Reach-Fits h) e
