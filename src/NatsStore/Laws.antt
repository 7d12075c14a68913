-- ===== src/NatsStore/Laws.antt =====
-- What the loops of `NatsStore` rely on of one key of a bucket: `update` writes only over the revision
-- it is given, `create` only where no live entry is, every write gets a later revision, which is its
-- answer, and a refused call wrote nothing. A call that fails may have written. A read may be
-- answered by a replica that is behind: it gives one of the entries that are seen, and what is seen
-- changes only by a write, which adds its own entry, or by a replica that catches up. Each call
-- is one step here; the other clients act between the calls.
use bits_broker.Prelude.{ℕ, ◌<◌, Bool, true, false, Option, none, some, ok, Text, ◌≡◌, ◌⊎◌}
use bits_broker.NatsStore.{Bucket, Entry, stored, refused, store_failed, op_put, is_put}

abbrev pub IsNewer : {V : Type 0} → Option (Entry V) → ℕ → Type 0
IsNewer none revision = Unit
IsNewer (some e) revision = e.revision < revision

-- A write of a value, at a later revision.
abbrev pub WritesAt : {V : Type 0} → V → ℕ → Option (Entry V) → Option (Entry V) → Type 0
WritesAt value revision before after =
    IsNewer before revision
    × (after ≡ some (record { operation = op_put; value = value; revision = revision }))

abbrev pub Writes : {V : Type 0} → V → Option (Entry V) → Option (Entry V) → Type 0
Writes value before after = (revision : ℕ) × WritesAt value revision before after

abbrev pub HasRevision : {V : Type 0} → ℕ → Option (Entry V) → Type 0
HasRevision revision none = ⊥
HasRevision revision (some e) = e.revision ≡ revision

abbrev pub is_live : {V : Type 0} → Option (Entry V) → Bool
is_live none = false
is_live (some e) = is_put e.operation

module _ {Record : Type 0} (bucket : Bucket Record) (key : Text) where
  open bucket use {World, Bytes, entry, create, update, from_u32, to_u32, from_record, to_record}

  pub record Laws : Type 1 where
    pub view : World → Option (Entry Bytes)
    pub seen : World → Option (Entry Bytes) → Type 0
    pub reads_keep : (s : World) → view (entry key s).1 ≡ view s
    pub reads_seen : (s : World) (o : Option (Entry Bytes)) → (entry key s).0 ≡ ok o → seen s o
    pub entry_seen : (s : World) (o : Option (Entry Bytes)) → seen (entry key s).1 o → seen s o
    pub update_seen :
        (value : Bytes) (revision : ℕ) (s : World) (o : Option (Entry Bytes))
        → seen (update key value revision s).1 o
        → seen s o ⊎ (o ≡ view (update key value revision s).1)
    pub create_seen :
        (value : Bytes) (s : World) (o : Option (Entry Bytes))
        → seen (create key value s).1 o
        → seen s o ⊎ (o ≡ view (create key value s).1)
    pub update_stored :
        (value : Bytes) (revision later : ℕ) (s : World)
        → (update key value revision s).0 ≡ stored later
        → HasRevision revision (view s)
          × WritesAt value later (view s) (view (update key value revision s).1)
    pub update_refused :
        (value : Bytes) (revision : ℕ) (s : World)
        → (update key value revision s).0 ≡ refused
        → (view (update key value revision s).1 ≡ view s) × (HasRevision revision (view s) → ⊥)
    pub update_failed :
        (value : Bytes) (revision : ℕ) (s : World) (e : Text)
        → (update key value revision s).0 ≡ store_failed e
        → (view (update key value revision s).1 ≡ view s)
          ⊎ (HasRevision revision (view s)
              × Writes value (view s) (view (update key value revision s).1))
    pub create_stored :
        (value : Bytes) (later : ℕ) (s : World)
        → (create key value s).0 ≡ stored later
        → (is_live (view s) ≡ false) × WritesAt value later (view s) (view (create key value s).1)
    pub create_refused :
        (value : Bytes) (s : World)
        → (create key value s).0 ≡ refused
        → (view (create key value s).1 ≡ view s) × (is_live (view s) ≡ true)
    pub create_failed :
        (value : Bytes) (s : World) (e : Text)
        → (create key value s).0 ≡ store_failed e
        → (view (create key value s).1 ≡ view s)
          ⊎ ((is_live (view s) ≡ false) × Writes value (view s) (view (create key value s).1))
    pub counts_back : (n : ℕ) (value : Bytes) → from_u32 n ≡ ok value → to_u32 value ≡ ok n
    pub records_back :
        (r : Record) (value : Bytes) → from_record r ≡ ok value → to_record value ≡ ok r

  -- What one or more calls do to what is seen.
  abbrev pub Trail : Laws → World → World → Type 0
  Trail laws s s' = (o : Option (Entry Bytes)) → laws.seen s' o → laws.seen s o ⊎ (o ≡ laws.view s')

  -- A read that the latest entry answers, if it succeeds.
  abbrev pub IsCurrent : Laws → World → Type 0
  IsCurrent laws s = (o : Option (Entry Bytes)) → (entry key s).0 ≡ ok o → o ≡ laws.view s
