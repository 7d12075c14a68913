-- ===== src/NatsStore/Users.antt =====
-- bits/src/db/nats.rs: the slots of the users, `reserve_user_slot_nats` and `release_user_slot_nats`.
-- The bytes of a string are those of the standard library: each below 256, and a string's own.
pub mod Keys
pub mod Reserve
mod Tests
use bits_broker.Prelude.{
  ℕ, ◌+◌, ◌-◌, ◌/◌, ◌%◌, ◌<◌, Bool, true, false, All, Option, none, some, List, [], ◌∷◌, ◌++◌,
  Result, ok, err, panic, Text, text, if◌then◌else◌, ltb, ◌>>=◌, ◌≡◌,
}
use bits_broker.RequestId.{Chrono}
use bits_broker.Store.{DbError, UserLimitEntry}
use bits_broker.NatsStore.{
  Bucket, Entry, Stored, stored, refused, store_failed, failure, is_put, purge_expiring,
}

pub record Bytes : Type 0 where
  pub bytes : Text → List ℕ
  pub bytes_small : (s : Text) → All (λ b. b < 256) (bytes s)
  pub bytes_injective : (s t : Text) → bytes s ≡ bytes t → s ≡ t

unfoldable pub hex_digit : ℕ → ℕ
hex_digit d = if ltb d 10 then b'0' + d else b'a' + (d - 10)

-- `{b:02x}` of each byte.
unfoldable pub hex_bytes : List ℕ → Text
hex_bytes [] = []
hex_bytes (b ∷ bs) = hex_digit (b / 16) ∷ hex_digit (b % 16) ∷ hex_bytes bs

module _ (utf8 : Bytes) where
  unfoldable pub hex_token : Text → Text
  hex_token s = hex_bytes (utf8.bytes s)

  unfoldable pub user_slot_key : (scope user job_id : Text) → Text
  user_slot_key scope user job_id =
      b'u'
      ∷ b'l'
      ∷ b'.'
      ∷ (hex_token scope ++ (b'.' ∷ (hex_token user ++ (b'.' ∷ hex_token job_id))))

  unfoldable pub user_slot_prefix : (scope user : Text) → Text
  user_slot_prefix scope user =
      b'u' ∷ b'l' ∷ b'.' ∷ (hex_token scope ++ (b'.' ∷ (hex_token user ++ (b'.' ∷ []))))

module _ (utf8 : Bytes) (chrono : Chrono) (Value : Type 0)
    (bucket : Bucket (UserLimitEntry chrono Value)) where
  open chrono use {Time}
  open bucket use {World, entry, create, from_record}

  -- After a lost `create`: the revision of the entry that won.
  unfoldable pub winner_revision : Result Text (Option (Entry bucket.Bytes)) → Result DbError ℕ
  winner_revision (ok none) = ok 0
  winner_revision (ok (some e)) = ok e.revision
  winner_revision (err e) = err (failure (text "get user slot after race") e)
  winner_revision panic = panic

  unfoldable pub created_slot : (key : Text) → Stored × World → Result DbError ℕ × World
  created_slot key (stored revision, s) = (ok revision, s)
  created_slot key (refused, s) = let (o, s') = entry key s in (winner_revision o, s')
  created_slot key (store_failed e, s) = (err (failure (text "create user slot") e), s)

  unfoldable pub create_slot :
      (key : Text) → UserLimitEntry chrono Value → World → Result DbError ℕ × World
  create_slot key slot s = elim (from_record slot) [
    | ok value ↦ created_slot key (create key value s)
    | err e ↦ (err (failure (text "serialize failed") e), s)
    | panic ↦ (panic, s)
  ]

  -- A slot that stands already keeps its revision.
  unfoldable pub reserve_slot :
      (key : Text)
      → UserLimitEntry chrono Value
      → Result Text (Option (Entry bucket.Bytes)) × World
      → Result DbError ℕ × World
  reserve_slot key slot (ok none, s) = create_slot key slot s
  reserve_slot key slot (ok (some e), s) = elim (is_put e.operation) [
    | true ↦ (ok e.revision, s)
    | false ↦ create_slot key slot s
  ]
  reserve_slot key slot (err e, s) = (err (failure (text "get user slot") e), s)
  reserve_slot key slot (panic, s) = (panic, s)

  unfoldable pub reserve_user_slot_nats :
      Time → (scope user job_id owner_broker_id : Text) → World → Result DbError ℕ × World
  reserve_user_slot_nats now scope user job_id owner s = reserve_slot key slot (entry key s)
    where
      key : Text
      key = user_slot_key utf8 scope user job_id

      slot : UserLimitEntry chrono Value
      slot = record {
        scope = scope;
        user = user;
        job_id = job_id;
        owner_broker_id = owner;
        seq = 0;
        created_at = now;
      }

  unfoldable pub release_user_slot_nats :
      (scope user job_id : Text) → World → Result {0, 0} DbError Unit × World
  release_user_slot_nats scope user job_id s =
      purge_expiring bucket (user_slot_key utf8 scope user job_id) s
