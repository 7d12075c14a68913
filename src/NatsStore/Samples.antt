-- ===== src/NatsStore/Samples.antt =====
-- A bucket of one key that keeps the laws of `NatsStore.Laws`, for the tests.
use bits_broker.Prelude.{
  ℕ, ◌+◌, ◌==◌, true, false, Bool-cases, Option, none, some, Result, ok, err, ok_injective, ◌>>=◌,
  ap, Text, text, if◌then◌else◌, ◌≡◌, ◌≢◌, refl, sym, subst, inl, inr, arith,
}
use bits_broker.NatsStore.{Bucket, Entry, Stored, stored, refused, store_failed, op_put, op_purge}
use bits_broker.NatsStore.Laws.{IsNewer, WritesAt, HasRevision, is_live, Laws}

module _ (Record : Type 0) where
  pub data Json : Type 0 where
    json_u32 : ℕ → Json
    json_record : Record → Json

  -- The revision of the next write.
  abbrev later : Option (Entry Json) → ℕ
  later none = 1
  later (some e) = e.revision + 1

  abbrev write : Json → Option (Entry Json) → Option (Entry Json)
  write value o = some (record { operation = op_put; value = value; revision = later o })

  abbrev tombstone : Option (Entry Json) → Option (Entry Json)
  tombstone none = none
  tombstone (some e) = some (record e { operation = op_purge; revision = e.revision + 1 })

  abbrev create_one : Json → Option (Entry Json) → Stored × Option (Entry Json)
  create_one value o = if is_live o then (refused, o) else (stored (later o), write value o)

  abbrev update_one : Json → ℕ → Option (Entry Json) → Stored × Option (Entry Json)
  update_one value revision none = (refused, none)
  update_one value revision (some e) =
      if e.revision == revision
      then (stored (later (some e)), write value (some e))
      else (refused, some e)

  abbrev as_u32 : Json → Result Text ℕ
  as_u32 (json_u32 n) = ok n
  as_u32 (json_record job) = err (text "invalid type")

  abbrev as_record : Json → Result Text Record
  as_record (json_u32 n) = err (text "invalid type")
  as_record (json_record job) = ok job

  abbrev pub one_key : Bucket Record
  one_key = record {
    World = Option (Entry Json);
    Bytes = Json;
    entry = λ k s. (ok s, s);
    create = λ k value s. create_one value s;
    update = λ k value revision s. update_one value revision s;
    put = λ k value s. (ok (later s), write value s);
    purge = λ k s. (ok tt, tombstone s);
    purge_with_ttl = λ k s. (ok tt, tombstone s);
    from_u32 = λ n. ok (json_u32 n);
    to_u32 = as_u32;
    from_record = λ job. ok (json_record job);
    to_record = as_record;
  }

  later-IsNewer : (o : Option (Entry Json)) → IsNewer o (later o)
  later-IsNewer none = tt
  later-IsNewer (some e) = omega arith

  write-WritesAt :
      (value : Json) (o : Option (Entry Json)) {n : ℕ}
      → later o ≡ n
      → WritesAt value n o (write value o)
  write-WritesAt value o number =
      subst (λ m. WritesAt value m o (write value o)) number (later-IsNewer o, refl)

  stored_injective : {m n : ℕ} → stored m ≡ stored n → m ≡ n
  stored_injective e = cc

  pub update_one-stored :
      (value : Json) (revision n : ℕ) (o : Option (Entry Json))
      → (update_one value revision o).0 ≡ stored n
      → HasRevision revision o × WritesAt value n o (update_one value revision o).1
  update_one-stored value revision n none h = absurd (ground (arith, h))
  update_one-stored value revision n (some e) h = elim (Bool-cases (e.revision == revision)) [
    | inl same ↦
        let number : later (some e) ≡ n = stored_injective (simp (same) at h) in
        rw same (ground (arith, same), write-WritesAt value (some e) number)
    | inr other ↦ absurd (ground (arith, simp (other) at h))
  ]

  pub update_one-refused :
      (value : Json) (revision : ℕ) (o : Option (Entry Json))
      → (update_one value revision o).0 ≡ refused
      → ((update_one value revision o).1 ≡ o) × (HasRevision revision o → ⊥)
  update_one-refused value revision none h = (refl, λ x. x)
  update_one-refused value revision (some e) h = elim (Bool-cases (e.revision == revision)) [
    | inl same ↦ absurd (ground (arith, simp (same) at h))
    | inr other ↦ rw other (refl, λ x. absurd (ground (arith, other, x)))
  ]

  pub update_one-fails :
      (value : Json) (revision : ℕ) (o : Option (Entry Json)) (e : Text)
      → (update_one value revision o).0 ≢ store_failed e
  update_one-fails value revision none error h = ground (arith, h)
  update_one-fails value revision (some e) error h = elim (Bool-cases (e.revision == revision)) [
    | inl same ↦ ground (arith, simp (same) at h)
    | inr other ↦ ground (arith, simp (other) at h)
  ]

  pub create_one-stored :
      (value : Json) (n : ℕ) (o : Option (Entry Json))
      → (create_one value o).0 ≡ stored n
      → (is_live o ≡ false) × WritesAt value n o (create_one value o).1
  create_one-stored value n o h = elim (Bool-cases (is_live o)) [
    | inl live ↦ absurd (ground (arith, simp (live) at h))
    | inr dead ↦ rw dead (refl, write-WritesAt value o (stored_injective (simp (dead) at h)))
  ]

  pub create_one-refused :
      (value : Json) (o : Option (Entry Json))
      → (create_one value o).0 ≡ refused
      → ((create_one value o).1 ≡ o) × (is_live o ≡ true)
  create_one-refused value o h = elim (Bool-cases (is_live o)) [
    | inl live ↦ rw live (refl, refl)
    | inr dead ↦ absurd (ground (arith, simp (dead) at h))
  ]

  pub create_one-fails :
      (value : Json) (o : Option (Entry Json)) (e : Text) → (create_one value o).0 ≢ store_failed e
  create_one-fails value o error h = elim (Bool-cases (is_live o)) [
    | inl live ↦ ground (arith, simp (live) at h)
    | inr dead ↦ ground (arith, simp (dead) at h)
  ]

  abbrev pub one_key_laws : (key : Text) → Laws one_key key
  one_key_laws key = record {
    view = λ s. s;
    seen = λ s o. o ≡ s;
    reads_keep = λ s. refl;
    reads_seen = λ s o h. ok_injective (sym h);
    entry_seen = λ s o h. h;
    update_seen = λ value revision s o h. inr h;
    create_seen = λ value s o h. inr h;
    update_stored = update_one-stored;
    update_refused = update_one-refused;
    update_failed = λ value revision s e h. absurd (update_one-fails value revision s e h);
    create_stored = create_one-stored;
    create_refused = create_one-refused;
    create_failed = λ value s e h. absurd (create_one-fails value s e h);
    counts_back = λ n value h. ap (λ x. x >>= as_u32) (sym h);
    records_back = λ job value h. ap (λ x. x >>= as_record) (sym h);
  }
