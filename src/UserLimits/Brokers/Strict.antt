-- ===== src/UserLimits/Brokers/Strict.antt =====
-- The strict mode over the in-memory store, which the brokers of a dispatcher share: one call of the
-- store, or the end of one guard, at a time.
use bits_broker.Prelude.{
  ℕ, ◌+◌, ◌≤◌, ◌<◌, Bool, true, false, none, some, List, map, Text, text_eq, pair_eq, lookup, ◌≡◌,
  refl, ap, ◌∙◌, arith,
}
use bits_broker.RequestId.{Chrono}
use bits_broker.Store.{u64_mod, new_store}
use bits_broker.Store.Users.{
  Store, Entry, reserve_user_slot_memory, release_user_slot_memory, list_user_slots_memory,
}
use bits_broker.Store.Users.Laws.{bucket}
use bits_broker.Runtime.Table.{Unique, insert-Unique, remove-Unique}
use bits_broker.Queues.CostWeighted.Run.{count}
use bits_broker.UserLimits.Brokers.{Ticket, strict_verdict}
use bits_broker.UserLimits.Brokers.Late.{
  Bucket, ticket, late, Ordered, grant, guarded-le, late-insert, late-remove, late-less, late-grant,
  late-grant_early, All-entries-remove, Issued, Issued-later, insert-Issued, insert-Ordered,
  remove-Ordered, count-listed, tickets-listed, late-nil,
}
use bits_broker.UserLimits.Brokers.Slots.{
  bucket_reserved, bucket_released, revoke, ranked_early, known-insert, known-grant, known-revoke,
  known-remove, revoke-held,
}

module _ (chrono : Chrono) (Value : Type 0) where
  open chrono use {Time}

  -- The store, and the jobs of the user that hold a guard and an entry.
  pub record Shared : Type 0 where
    pub store : Store chrono Value
    pub held : Text → Bool

  module _ (scope user : Text) (max : ℕ) where
    abbrev entries : Store chrono Value → Bucket chrono Value
    entries s = bucket chrono Value scope user s

    -- Some task of some broker goes on. A job that is admitted without a rank, since a listing fails, is
    -- also counted in the first index. An entry is released after the guard of its job is gone; numbers
    -- are assumed to fit their machine word. A listing has the entries in any order.
    pub data Step : ℕ → Shared → Shared → Type 0 where
      reserves :
          (s : Store chrono Value) (held : Text → Bool) (now : Time) (job owner : Text)
          → lookup job (entries s) ≡ none
          → s.user_seq + 1 < u64_mod
          → Step 0
              (record { store = s; held = held })
              (record {
                store = (reserve_user_slot_memory chrono Value now scope user job owner s).1;
                held = held;
              })
      admits :
          (s : Store chrono Value) (held : Text → Bool) (job : Text) (e : Entry chrono Value)
          (listed : List Ticket)
          → lookup job (entries s) ≡ some e
          → ((p : Ticket → Bool)
              → count p listed
                ≡ count p
                    (map (ticket chrono Value) (list_user_slots_memory chrono Value scope user s)))
          → strict_verdict max (e.seq, job) (some listed) ≡ true
          → Step 0
              (record { store = s; held = held })
              (record { store = s; held = grant chrono Value job held })
      opens :
          (s : Store chrono Value) (held : Text → Bool) (job : Text) (e : Entry chrono Value)
          → lookup job (entries s) ≡ some e
          → strict_verdict max (e.seq, job) none ≡ true
          → Step 1
              (record { store = s; held = held })
              (record { store = s; held = grant chrono Value job held })
      drops :
          (s : Store chrono Value) (held : Text → Bool) (job : Text)
          → Step 0
              (record { store = s; held = held })
              (record { store = s; held = revoke chrono Value job held })
      releases :
          (s : Store chrono Value) (held : Text → Bool) (job : Text)
          → held job ≡ false
          → Step 0
              (record { store = s; held = held })
              (record {
                store = release_user_slot_memory chrono Value scope user job s;
                held = held;
              })
      elsewhere :
          (s s' : Store chrono Value) (held : Text → Bool)
          → entries s' ≡ entries s
          → s.user_seq ≤ s'.user_seq
          → Step 0 (record { store = s; held = held }) (record { store = s'; held = held })

    -- What is reached from an empty store, and how many jobs were admitted without a rank on the way.
    pub data Reach : ℕ → Shared → Type 0 where
      start : Reach 0 (record { store = new_store chrono Value; held = λ job. false })
      step : {k i : ℕ} {s s' : Shared} → Reach k s → Step i s s' → Reach (k + i) s'

    record Bounded (k : ℕ) (s : Shared) : Type 0 where
      unique : Unique (entries s.store)
      ordered : Ordered chrono Value (entries s.store)
      issued : Issued chrono Value s.store.user_seq (entries s.store)
      known : (job : Text) → lookup job (entries s.store) ≡ none → s.held job ≡ false
      few : late chrono Value max s.held (entries s.store) ≤ k

    step-Bounded : {k i : ℕ} {s s' : Shared} → Bounded k s → Step i s s' → Bounded (k + i) s'
    unfolding list_user_slots_memory
    step-Bounded c (reserves s held now job owner free fits) =
        let (e, new, j, n, top) =
          bucket_reserved chrono Value now scope user job owner s free fits in
        record {
          unique = rw new (insert-Unique job e (entries s) c.unique);
          ordered = rw new (
              insert-Ordered chrono Value s.user_seq job e (entries s) free j n c.issued c.ordered);
          issued =
              rw (new, top) (insert-Issued chrono Value s.user_seq job e (entries s) n c.issued);
          known = rw new (λ k. known-insert chrono Value held job e (entries s) k (c.known k));
          few = rw new (
              omega (
                arith,
                late-insert chrono Value max held job e (entries s) free (c.known job free),
                c.few,
              ));
        }
    step-Bounded c (admits s held job e listed there same v) =
        let m = entries s in
        let early =
          ranked_early chrono Value max job e m listed c.ordered there
            (λ p. same p ∙ ap (count p) (tickets-listed chrono Value m)) v in
        record {
          unique = c.unique;
          ordered = c.ordered;
          issued = c.issued;
          known = λ k. known-grant chrono Value held job e m k (c.known k) there;
          few = omega (
            arith,
            late-grant_early chrono Value max held job e m c.unique c.ordered there early,
            c.few,
          );
        }
    step-Bounded c (opens s held job e there v) = record {
      unique = c.unique;
      ordered = c.ordered;
      issued = c.issued;
      known = λ k. known-grant chrono Value held job e (entries s) k (c.known k) there;
      few = omega (arith, late-grant chrono Value max held job (entries s) c.unique, c.few);
    }
    step-Bounded c (drops s held job) = record {
      unique = c.unique;
      ordered = c.ordered;
      issued = c.issued;
      known = λ k. known-revoke chrono Value held job (entries s) k (c.known k);
      few = omega (
        arith,
        late-less chrono Value max held (revoke chrono Value job held) (entries s)
            (revoke-held chrono Value held job),
        c.few,
      );
    }
    step-Bounded c (releases s held job free) =
        let (left, top) = bucket_released chrono Value scope user job s in
        record {
          unique = rw left (remove-Unique job (entries s) c.unique);
          ordered = rw left (remove-Ordered chrono Value job (entries s) c.ordered);
          issued =
              rw (left, top)
                (All-entries-remove chrono Value (λ v. v.seq ≤ s.user_seq) job (entries s)
                  c.issued);
          known = rw left (λ k. known-remove chrono Value held job (entries s) k (c.known k) free);
          few = rw left (omega (arith, late-remove chrono Value max held job (entries s), c.few));
        }
    step-Bounded c (elsewhere s s' held same more) = record {
      unique = rw same c.unique;
      ordered = rw same c.ordered;
      issued = rw same (Issued-later chrono Value s.user_seq s'.user_seq (entries s) more c.issued);
      known = rw same c.known;
      few = rw same (omega (arith, c.few));
    }

    Reach-Bounded : {k : ℕ} {s : Shared} → Reach k s → Bounded k s
    unfolding new_store lookup count
    Reach-Bounded start = record {
      unique = tt;
      ordered = tt;
      issued = tt;
      known = λ job h. refl;
      few = omega (arith, late-nil chrono Value max (λ job. false));
    }
    Reach-Bounded (step r h) = step-Bounded (Reach-Bounded r) h

    -- A user under a limit in strict mode, and any interleaving of the brokers' calls of the in-memory
    -- store for this and other users, in which each job has at most one guard at a time, an entry is not
    -- released or reclaimed before its guard is gone, and the sequence numbers fit their machine word.
    -- Then the jobs of the user that hold a guard and an entry are at most the limit and as many more as
    -- were admitted because a listing failed. And no job holds a guard of the kind without an entry.
    pub held_bounded :
        {k : ℕ} {s : Shared}
        → Reach k s
        → (count (λ e. s.held e.job_id) (list_user_slots_memory chrono Value scope user s.store)
            ≤ max + k)
          × ((job : Text) → lookup job (entries s.store) ≡ none → s.held job ≡ false)
    unfolding list_user_slots_memory
    held_bounded {s = s} r =
        let c = Reach-Bounded r in
        let m = entries s.store in
        (
          omega (
            arith,
            count-listed chrono Value s.held m c.ordered,
            guarded-le chrono Value max s.held m,
            c.few,
          ),
          c.known,
        )
