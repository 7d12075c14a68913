-- ===== src/NatsStore/Users/Reserve.antt =====
-- A reservation of a slot that stands.
use bits_broker.Prelude.{
  ℕ, true, false, Bool-cases, Result-cases, ok_injective, some_injective, Option, none, some,
  Result, ok, err, panic, Text, ◌≡◌, refl, sym, ap, ◌∙◌, inl, inr, arith,
}
use bits_broker.RequestId.{Chrono}
use bits_broker.Store.{UserLimitEntry}
use bits_broker.NatsStore.{Bucket, Entry, Stored, stored, refused, store_failed, is_put}
use bits_broker.NatsStore.Laws.{is_live, Laws, IsCurrent}
use bits_broker.NatsStore.Users.{
  Bytes, created_slot, create_slot, reserve_slot, reserve_user_slot_nats, user_slot_key,
}

module _ (utf8 : Bytes) (chrono : Chrono) (Value : Type 0)
    (bucket : Bucket (UserLimitEntry chrono Value)) (key : Text) (laws : Laws bucket key) where
  open chrono use {Time}
  open bucket use {World, entry, create, from_record}

  -- The entry of a slot that stands, with its revision.
  abbrev Stands : Option (Entry bucket.Bytes) → ℕ → Type 0
  Stands o seq =
      (e : Entry bucket.Bytes) × (o ≡ some e) × (is_put e.operation ≡ true) × (e.revision ≡ seq)

  created_slot-Stands :
      (value : bucket.Bytes) (s : World) (seq : ℕ) (answer : Stored)
      → is_live (laws.view s) ≡ false
      → (create key value s).0 ≡ answer
      → (created_slot utf8 chrono Value bucket key (answer, (create key value s).1)).0 ≡ ok seq
      → Stands
          (laws.view (created_slot utf8 chrono Value bucket key (answer, (create key value s).1)).1)
          seq
  unfolding created_slot is_put
  created_slot-Stands value s seq (stored revision) dead a h =
      let (live, (newer, same)) = laws.create_stored value revision s a in
      (_, same, refl, ok_injective h)
  created_slot-Stands value s seq refused dead a h =
      absurd (ground (arith, dead, (laws.create_refused value s a).1))
  created_slot-Stands value s seq (store_failed e) dead a h = absurd (ground (arith, h))

  create_slot-Stands :
      (slot : UserLimitEntry chrono Value) (s : World) (seq : ℕ)
      → is_live (laws.view s) ≡ false
      → (create_slot utf8 chrono Value bucket key slot s).0 ≡ ok seq
      → Stands (laws.view (create_slot utf8 chrono Value bucket key slot s).1) seq
  unfolding create_slot
  create_slot-Stands slot s seq dead h = elim (Result-cases (from_record slot)) [
    | inl (value, f) ↦
        rw (create_slot, f)
          (created_slot-Stands value s seq (create key value s).0 dead refl
            (simp (create_slot, f) at h))
    | inr (inl (e, f)) ↦ absurd (ground (arith, simp (create_slot, f) at h))
    | inr (inr f) ↦ absurd (ground (arith, simp (create_slot, f) at h))
  ]

  reserve_slot-Stands :
      (slot : UserLimitEntry chrono Value) (o : Result Text (Option (Entry bucket.Bytes)))
      (s : World) (seq : ℕ)
      → ((x : Option (Entry bucket.Bytes)) → o ≡ ok x → x ≡ laws.view s)
      → (reserve_slot utf8 chrono Value bucket key slot (o, s)).0 ≡ ok seq
      → Stands (laws.view (reserve_slot utf8 chrono Value bucket key slot (o, s)).1) seq
  unfolding reserve_slot
  reserve_slot-Stands slot (ok none) s seq latest h =
      create_slot-Stands slot s seq (sym (ap is_live (latest none refl))) h
  reserve_slot-Stands slot (ok (some e)) s seq latest h = elim (Bool-cases (is_put e.operation)) [
    | inl live ↦
        rw (reserve_slot, live)
          (e, sym (latest (some e) refl), live, ok_injective (simp (reserve_slot, live) at h))
    | inr dead ↦
        rw (reserve_slot, dead)
          (create_slot-Stands slot s seq (sym (ap is_live (latest (some e) refl)) ∙ dead)
            (simp (reserve_slot, dead) at h))
  ]
  reserve_slot-Stands slot (err e) s seq latest h = absurd (ground (arith, h))
  reserve_slot-Stands slot panic s seq latest h = absurd (ground (arith, h))

  reserve_slot-again :
      (slot : UserLimitEntry chrono Value) (o : Option (Entry bucket.Bytes)) (s : World) (seq : ℕ)
      → Stands o seq
      → reserve_slot utf8 chrono Value bucket key slot (ok o, s) ≡ (ok seq, s)
  unfolding reserve_slot
  reserve_slot-again slot none s seq (e, same, live, number) = absurd (ground (arith, same))
  reserve_slot-again slot (some x) s seq (e, same, live, number) =
      let alive : is_put x.operation ≡ true = ap is_live same ∙ live in
      rw (reserve_slot, alive)
        (ap (λ n. (ok n, s)) (ap (λ y. y.revision) (some_injective same) ∙ number))

module _ (utf8 : Bytes) (chrono : Chrono) (Value : Type 0)
    (bucket : Bucket (UserLimitEntry chrono Value)) (scope user job_id : Text)
    (laws : Laws bucket (user_slot_key utf8 scope user job_id)) where
  open chrono use {Time}
  open bucket use {World, entry}

  -- A slot that is reserved again for the same job, by whichever broker and at whatever time, keeps
  -- its number, when no other client comes between the calls, the first read of the entry is
  -- answered by the latest one or fails, and the second is answered by the latest one: the second
  -- call answers what the first did.
  pub reserve_user_slot_nats-again :
      (now now' : Time) (owner owner' : Text) (s : World) (seq : ℕ)
      → IsCurrent bucket (user_slot_key utf8 scope user job_id) laws s
      → (reserve_user_slot_nats utf8 chrono Value bucket now scope user job_id owner s).0 ≡ ok seq
      → (entry
          (user_slot_key utf8 scope user job_id)
          (reserve_user_slot_nats utf8 chrono Value bucket now scope user job_id owner s).1).0
        ≡ ok (
            laws.view
              (reserve_user_slot_nats utf8 chrono Value bucket now scope user job_id owner s).1)
      → (reserve_user_slot_nats utf8 chrono Value bucket now' scope user job_id owner'
          (reserve_user_slot_nats utf8 chrono Value bucket now scope user job_id owner s).1).0
        ≡ ok seq
  unfolding reserve_user_slot_nats
  reserve_user_slot_nats-again now now' owner owner' s seq current first reads =
      let key = user_slot_key utf8 scope user job_id in
      let s1 = (reserve_user_slot_nats utf8 chrono Value bucket now scope user job_id owner s).1 in
      let stands =
        reserve_slot-Stands utf8 chrono Value bucket key laws _ (entry key s).0 (entry key s).1 seq
          (λ x h. current x h ∙ sym (laws.reads_keep s)) first in
      let slot : UserLimitEntry chrono Value = record {
        scope = scope;
        user = user;
        job_id = job_id;
        owner_broker_id = owner';
        seq = 0;
        created_at = now';
      } in
      ap (λ x. (reserve_slot utf8 chrono Value bucket key slot (x, (entry key s1).1)).0) reads
      ∙ ap (λ x. x.0)
          (reserve_slot-again utf8 chrono Value bucket key laws _ (laws.view s1) (entry key s1).1
            seq stands)
