-- ===== src/UserLimits/Brokers/Slots.antt =====
-- What the calls of the store do to the entries of one user, and what a verdict tells of them.
use bits_broker.Prelude.{
  ℕ, ◌+◌, ◌%◌, ◌<◌, Bool, true, false, none, some, List, Text, if◌then◌else◌, text_beq,
  text_beq_iff, text_eq, pair_eq, pair_beq_iff, HashMap, lookup, insert, remove, lookup-insert,
  lookup-insert_self, lookup-remove, Bool-cases, Option-cases, ◌≡◌, refl, sym, ap, inl, inr, ltb→lt,
  arith,
}
use bits_broker.RequestId.{Chrono}
use bits_broker.Store.{u64_mod}
use bits_broker.Store.Users.{
  Store, Entry, is_empty, reserve_in, reserve_user_slot_memory, release_user_slot_memory,
}
use bits_broker.Store.Users.Laws.{bucket, is_empty-nil}
use bits_broker.Queues.CostWeighted.Run.{count}
use bits_broker.UserLimits.Brokers.{Ticket, ticket_beq, ticket_ltb, strict_verdict, rank}
use bits_broker.UserLimits.Brokers.Rank.{before, before-rank}
use bits_broker.UserLimits.Brokers.Late.{
  Bucket, ticket, Ordered, tickets, grant, lookup-job_id, count-found,
}

module _ (chrono : Chrono) (Value : Type 0) where
  open chrono use {Time}

  lookup_pair_self :
      (scope user : Text) (es : Bucket chrono Value)
      (m : HashMap (Text × Text) (Bucket chrono Value))
      → lookup (scope, user) (insert (scope, user) es m) ≡ some es
  lookup_pair_self scope user es m = lookup-insert_self (scope, user) es m

  lookup_pair_removed :
      (scope user : Text) (m : HashMap (Text × Text) (Bucket chrono Value))
      → lookup (scope, user) (remove (scope, user) m) ≡ none
  lookup_pair_removed scope user m =
      ground (
        arith,
        lookup-remove (scope, user) (scope, user) m,
        pair_beq_iff (scope, user) (scope, user),
      )

  pub bucket_reserved :
      (now : Time) (scope user job owner : Text) (s : Store chrono Value)
      → lookup job (bucket chrono Value scope user s) ≡ none
      → s.user_seq + 1 < u64_mod
      → (e : Entry chrono Value) × (bucket chrono Value scope user
            (reserve_user_slot_memory chrono Value now scope user job owner s).1
          ≡ insert job e (bucket chrono Value scope user s))
        × (e.job_id ≡ job)
        × (e.seq ≡ s.user_seq + 1)
        × ((reserve_user_slot_memory chrono Value now scope user job owner s).1.user_seq
            ≡ s.user_seq + 1)
  unfolding reserve_user_slot_memory reserve_in
  bucket_reserved now scope user job owner s h fits = (
    record {
      scope = scope;
      user = user;
      job_id = job;
      owner_broker_id = owner;
      seq = (s.user_seq + 1) % u64_mod;
      created_at = now;
    },
    rw
        (
          reserve_user_slot_memory,
          h,
          lookup_pair_self scope user (insert job _ (bucket chrono Value scope user s))
              s.user_slots,
        )
        refl,
    refl,
    omega arith,
    rw (reserve_user_slot_memory, h) (omega arith),
  )

  pub bucket_released :
      (scope user job : Text) (s : Store chrono Value)
      → (bucket chrono Value scope user (release_user_slot_memory chrono Value scope user job s)
          ≡ remove job (bucket chrono Value scope user s))
        × ((release_user_slot_memory chrono Value scope user job s).user_seq ≡ s.user_seq)
  unfolding release_user_slot_memory remove
  bucket_released scope user job s = elim (Option-cases (lookup (scope, user) s.user_slots)) [
    | inl e ↦ rw (e, release_user_slot_memory) (rw e refl, refl)
    | inr (es, e) ↦ elim (Bool-cases (is_empty (remove job es))) [
      | inl none_left ↦
          rw (e, release_user_slot_memory, none_left)
            (
              rw
                  (
                    lookup_pair_removed scope user s.user_slots,
                    is_empty-nil (remove job es) none_left,
                  )
                  refl,
              refl,
            )
      | inr some_left ↦
          rw (e, release_user_slot_memory, some_left)
            (rw (lookup_pair_self scope user (remove job es) s.user_slots) refl, refl)
    ]
  ]

  unfoldable pub revoke : Text → (Text → Bool) → Text → Bool
  revoke job held k = if text_beq k job then false else held k

  -- A job whose rank in a listing is below the limit has fewer entries than that before its own.
  pub ranked_early :
      (max : ℕ) (job : Text) (e : Entry chrono Value) (m : Bucket chrono Value)
      (listed : List Ticket)
      → Ordered chrono Value m
      → lookup job m ≡ some e
      → ((p : Ticket → Bool) → count p listed ≡ count p (tickets chrono Value m))
      → strict_verdict max (e.seq, job) (some listed) ≡ true
      → before (ticket chrono Value e) (tickets chrono Value m) < max
  unfolding strict_verdict
  ranked_early max job e m listed o there same v =
      let x = ticket chrono Value e in
      let own : (e.seq, job) ≡ x =
        ap (λ j. (e.seq, j)) (sym (lookup-job_id chrono Value job e m o there)) in
      let below : rank x listed < max = ltb→lt (rank x listed) max (rw own at v) in
      let found = count-found chrono Value job e m there in
      omega (
        arith,
        below,
        before-rank x listed (omega (arith, found, same (λ y. ticket_beq y x))),
        same (λ y. ticket_ltb y x),
      )

  pub known-insert :
      (held : Text → Bool) (job : Text) (e : Entry chrono Value) (m : Bucket chrono Value)
      (k : Text)
      → (lookup k m ≡ none → held k ≡ false)
      → lookup k (insert job e m) ≡ none
      → held k ≡ false
  known-insert held job e m k known h = ground (arith, lookup-insert job k e m, known)

  pub known-grant :
      (held : Text → Bool) (job : Text) (e : Entry chrono Value) (m : Bucket chrono Value)
      (k : Text)
      → (lookup k m ≡ none → held k ≡ false)
      → lookup job m ≡ some e
      → lookup k m ≡ none
      → grant chrono Value job held k ≡ false
  unfolding grant
  known-grant held job e m k known there h = ground (arith, text_beq_iff k job, known)

  pub known-revoke :
      (held : Text → Bool) (job : Text) (m : Bucket chrono Value) (k : Text)
      → (lookup k m ≡ none → held k ≡ false)
      → lookup k m ≡ none
      → revoke job held k ≡ false
  unfolding revoke
  known-revoke held job m k known h = ground (arith, known)

  pub known-remove :
      (held : Text → Bool) (job : Text) (m : Bucket chrono Value) (k : Text)
      → (lookup k m ≡ none → held k ≡ false)
      → held job ≡ false
      → lookup k (remove job m) ≡ none
      → held k ≡ false
  known-remove held job m k known free h =
      ground (arith, lookup-remove job k m, text_beq_iff job k, known)

  pub revoke-held : (held : Text → Bool) (job k : Text) → revoke job held k ≡ true → held k ≡ true
  unfolding revoke
  revoke-held held job k h = ground arith
