-- ===== src/Runtime/Limit.antt =====
-- The count of jobs and its limit, with other threads between the steps of every submission and
-- every removal.
use bits_broker.Prelude.{
  ℕ, suc, ◌+◌, ◌-◌, ◌%◌, ◌<◌, ◌≤◌, Bool, true, false, none, some, Option-cases, [], length, Text,
  lookup, insert, remove, text_eq, leb, ◌≡◌, refl, arith, Bool-cases, inl, inr, ◌⊎◌,
}
use bits_broker.Store.{u64_mod}
use bits_broker.Runtime.{
  Job, JobTable, enforce_limit, bypass_limit_already_persisted, admit, insert_job, take_out,
  release_count,
}
use bits_broker.Runtime.Table.{
  Unique, insert-Unique, length-insert, length-insert_again, remove-Unique, length-remove,
}

module _ (B Payload : Type 0) where
  -- A table, the submissions that are counted and not entered yet, and the removed jobs whose count
  -- is not given back yet.
  pub record System : Type 0 where
    pub table : JobTable B Payload
    pub entering : ℕ
    pub leaving : ℕ

  -- One step of some thread. A submission that is admitted whatever the limit is also counted in the
  -- first index. The count is assumed to fit its machine word.
  pub data Step : ℕ → System → System → Type 0 where
    admits :
        (t t' : JobTable B Payload) {n r : ℕ}
        → t.job_count + 1 < u64_mod
        → admit enforce_limit t ≡ some t'
        → Step 0
            (record { table = t; entering = n; leaving = r })
            (record { table = t'; entering = suc n; leaving = r })
    recovers :
        (t t' : JobTable B Payload) {n r : ℕ}
        → t.job_count + 1 < u64_mod
        → admit bypass_limit_already_persisted t ≡ some t'
        → Step 1
            (record { table = t; entering = n; leaving = r })
            (record { table = t'; entering = suc n; leaving = r })
    enters :
        (t t' : JobTable B Payload) {n r : ℕ} (id : Text) (job : Job B Payload) (fresh : Bool)
        → insert_job id job t ≡ (fresh, t')
        → Step 0
            (record { table = t; entering = suc n; leaving = r })
            (record { table = t'; entering = n; leaving = r })
    leaves :
        (t t' : JobTable B Payload) {n r : ℕ} (id : Text)
        → take_out id t ≡ (true, t')
        → Step 0
            (record { table = t; entering = n; leaving = r })
            (record { table = t'; entering = n; leaving = suc r })
    releases :
        (t : JobTable B Payload) {n r : ℕ}
        → Step 0
            (record { table = t; entering = n; leaving = suc r })
            (record { table = release_count t; entering = n; leaving = r })
    changes :
        (t : JobTable B Payload) {n r : ℕ} (id : Text) (old new : Job B Payload)
        → lookup id t.jobs ≡ some old
        → Step 0
            (record { table = t; entering = n; leaving = r })
            (record { table = record t { jobs = insert id new t.jobs }; entering = n; leaving = r })

  -- What a broker can reach from an empty table, and how many jobs it recovered on the way.
  pub data Reach (max : ℕ) : ℕ → System → Type 0 where
    start : Reach max 0 (record {
      table = record { jobs = []; job_count = 0; max_jobs = max };
      entering = 0;
      leaving = 0;
    })
    step : {k i : ℕ} {s s' : System} → Reach max k s → Step i s s' → Reach max (k + i) s'

  -- The count is that of the jobs in the table and of those on the way in and out.
  pub record Counted (max k : ℕ) (s : System) : Type 0 where
    pub limit : s.table.max_jobs ≡ max
    pub unique : Unique s.table.jobs
    pub balance : s.table.job_count ≡ length s.table.jobs + s.entering + s.leaving
    pub bound : s.table.job_count ≤ max + k
    pub fits : s.table.job_count < u64_mod

  admit_enforced :
      (t t' : JobTable B Payload)
      → admit enforce_limit t ≡ some t'
      → (t.job_count < t.max_jobs) × (t' ≡ record t { job_count = (t.job_count + 1) % u64_mod })
  unfolding admit
  admit_enforced t t' h = elim (Bool-cases (leb t.max_jobs t.job_count)) [
    | inl full ↦ cc
    | inr free ↦ (ground arith, cc)
  ]

  admit_bypassed :
      (t t' : JobTable B Payload)
      → admit bypass_limit_already_persisted t ≡ some t'
      → t' ≡ record t { job_count = (t.job_count + 1) % u64_mod }
  unfolding admit
  admit_bypassed t t' h = cc

  insert_new :
      (t : JobTable B Payload) (id : Text) (job : Job B Payload)
      → lookup id t.jobs ≡ none
      → insert_job id job t ≡ (true, record t { jobs = insert id job t.jobs })
  unfolding insert_job
  insert_new t id job e = rw (e, insert_job) refl

  insert_old :
      (t : JobTable B Payload) (id : Text) (job old : Job B Payload)
      → lookup id t.jobs ≡ some old
      → insert_job id job t
        ≡ (false, record t { job_count = (t.job_count + (u64_mod - 1)) % u64_mod })
  unfolding insert_job
  insert_old t id job old e = rw (e, insert_job) refl

  take_missing :
      (t : JobTable B Payload) (id : Text) → lookup id t.jobs ≡ none → take_out id t ≡ (false, t)
  unfolding take_out
  take_missing t id e = rw (e, take_out) refl

  take_there :
      (t : JobTable B Payload) (id : Text) (job : Job B Payload)
      → lookup id t.jobs ≡ some job
      → take_out id t ≡ (true, record t { jobs = remove id t.jobs })
  unfolding take_out
  take_there t id job e = rw (e, take_out) refl

  -- A submission enters the table, or gives its count back.
  entered :
      (t t' : JobTable B Payload) (id : Text) (job : Job B Payload) (fresh : Bool)
      → insert_job id job t ≡ (fresh, t')
      → ((lookup id t.jobs ≡ none) × (t' ≡ record t { jobs = insert id job t.jobs }))
        ⊎ (t' ≡ record t { job_count = (t.job_count + (u64_mod - 1)) % u64_mod })
  entered t t' id job fresh h = elim (Option-cases (lookup id t.jobs)) [
    | inl e ↦ inl (e, cc (insert_new t id job e))
    | inr (old, e) ↦ inr (cc (insert_old t id job old e))
  ]

  left :
      (t t' : JobTable B Payload) (id : Text)
      → take_out id t ≡ (true, t')
      → (job : Job B Payload) × (lookup id t.jobs ≡ some job)
        × (t' ≡ record t { jobs = remove id t.jobs })
  left t t' id h = elim (Option-cases (lookup id t.jobs)) [
    | inl e ↦ cc (take_missing t id e)
    | inr (job, e) ↦ (job, e, cc (take_there t id job e))
  ]

  step-Counted :
      {max k i : ℕ} {s s' : System} → Counted max k s → Step i s s' → Counted max (k + i) s'
  unfolding release_count
  step-Counted c (admits t t' word h) =
      let (free, e) = admit_enforced t t' h in
      rw e (record {
        limit = c.limit;
        unique = c.unique;
        balance = omega (arith, c.balance);
        bound = omega (arith, c.limit);
        fits = omega arith;
      })
  step-Counted c (recovers t t' word h) = rw (admit_bypassed t t' h) (record {
    limit = c.limit;
    unique = c.unique;
    balance = omega (arith, c.balance);
    bound = omega (arith, c.bound);
    fits = omega arith;
  })
  step-Counted c (enters t t' id job fresh h) = elim (entered t t' id job fresh h) [
    | inl (new, e) ↦ rw e (record {
      limit = c.limit;
      unique = insert-Unique id job t.jobs c.unique;
      balance = omega (arith, c.balance, length-insert id job t.jobs new);
      bound = omega (arith, c.bound);
      fits = c.fits;
    })
    | inr e ↦ rw e (record {
      limit = c.limit;
      unique = c.unique;
      balance = omega (arith, c.balance, c.fits);
      bound = omega (arith, c.bound, c.balance, c.fits);
      fits = omega arith;
    })
  ]
  step-Counted c (leaves t t' id h) =
      let (job, there, e) = left t t' id h in
      rw e (record {
        limit = c.limit;
        unique = remove-Unique id t.jobs c.unique;
        balance = omega (arith, c.balance, length-remove id job t.jobs c.unique there);
        bound = omega (arith, c.bound);
        fits = c.fits;
      })
  step-Counted c (releases t) = record {
    limit = c.limit;
    unique = c.unique;
    balance = omega (arith, c.balance);
    bound = omega (arith, c.bound);
    fits = omega (arith, c.fits);
  }
  step-Counted c (changes t id old new h) = record {
    limit = c.limit;
    unique = insert-Unique id new t.jobs c.unique;
    balance = omega (arith, c.balance, length-insert_again id new old t.jobs h);
    bound = omega (arith, c.bound);
    fits = c.fits;
  }

  Reach-Counted : {max k : ℕ} {s : System} → Reach max k s → Counted max k s
  Reach-Counted start = record {
    limit = refl;
    unique = tt;
    balance = refl;
    bound = omega arith;
    fits = omega arith;
  }
  Reach-Counted (step r h) = step-Counted (Reach-Counted r) h

  -- In every state that a broker reaches by steps that keep the count within its machine word,
  -- `job_count` is the number of jobs in the table and of those that are being entered or removed, and
  -- the table has at most `max_jobs` jobs and as many as were recovered.
  pub job_count_bounded :
      {max k : ℕ} {s : System}
      → Reach max k s
      → (s.table.job_count ≡ length s.table.jobs + s.entering + s.leaving)
        × (length s.table.jobs ≤ max + k)
  job_count_bounded r = let c = Reach-Counted r in (c.balance, omega (arith, c.balance, c.bound))
