-- ===== src/NatsStore.antt =====
-- bits/src/db/nats.rs: the store on the key-value buckets of NATS JetStream. The buckets are a
-- parameter: each call is a function of the world, and ends with its answer. So is serde_json. The
-- connection stands; a call that fails is one of the answers.
pub mod Laws
pub mod Counter
pub mod Known
pub mod Jobs
pub mod Users
pub mod Samples
mod Tests
use bits_broker.Prelude.{
  ℕ, zero, suc, ◌+◌, ◌==◌, Bool, true, false, Option, none, some, [], ◌∷◌, ◌++◌, Result, ok, err,
  panic, Text, text, text_beq, text_eq, if◌then◌else◌, ltb, ◌>>=◌, map_err,
}
use bits_broker.RequestId.{Chrono, decode}
use bits_broker.Store.{
  DbError, backend, slot_exhausted, invalid_public_job_id, backend_failure, display_u16,
  PersistentJobRecord, ClaimResult, not_found, active, claimed,
}

pub data Operation : Type 0 where
  op_put : Operation
  op_delete : Operation
  op_purge : Operation

pub record Entry (V : Type 0) : Type 0 where
  pub operation : Operation
  pub value : V
  pub revision : ℕ

-- The answer of `create` and `update`: done, refused for what is there, or another error.
pub data Stored : Type 0 where
  stored : (revision : ℕ) → Stored
  refused : Stored
  store_failed : Text → Stored

-- The jobs bucket, and the JSON of what stands in it.
pub record Bucket (Record : Type 0) : Type 1 where
  pub World : Type 0
  pub Bytes : Type 0
  pub entry : Text → World → Result Text (Option (Entry Bytes)) × World
  pub create : Text → Bytes → World → Stored × World
  pub update : Text → Bytes → (revision : ℕ) → World → Stored × World
  pub put : Text → Bytes → World → Result Text ℕ × World
  pub purge : Text → World → Result {0, 0} Text Unit × World
  pub purge_with_ttl : Text → World → Result {0, 0} Text Unit × World
  pub from_u32 : ℕ → Result Text Bytes
  pub to_u32 : Bytes → Result Text ℕ
  pub from_record : Record → Result Text Bytes
  pub to_record : Bytes → Result Text Record

abbrev pub failure : Text → Text → DbError
failure what e = backend (backend_failure (what ++ text ": " ++ e))

unfoldable pub is_put : Operation → Bool
is_put op_put = true
is_put _ = false

unfoldable pub broker_slot_counter_key : Text → Text → Text
broker_slot_counter_key site_tag env_tag =
    text "counters.broker_slot." ++ site_tag ++ text "." ++ env_tag

module _ (chrono : Chrono) where
  unfoldable pub job_key : Text → Result DbError Text
  job_key public_id =
      map_err (λ e. backend (invalid_public_job_id public_id e)) (decode chrono public_id)
      >>= λ decoded. ok (
          text "jobs."
          ++ decoded.site
          ++ text "."
          ++ decoded.env
          ++ text "."
          ++ display_u16 decoded.broker_slot
          ++ text "."
          ++ public_id)

-- What a round of the loop of `allocate_nats_broker_slot` ends with: an answer, or another round.
pub data Round : Type 0 where
  answers : Result DbError ℕ → Round
  again : Round

module _ {Record : Type 0} (bucket : Bucket Record) where
  open bucket use {
    World, Bytes, entry, create, update, put, purge, purge_with_ttl, from_u32, to_u32,
  }

  -- The answer of `create` or `update`, when it is done.
  unfoldable pub round_of : (what : Text) → (slot : ℕ) → Stored → Round
  round_of what slot (stored revision) = answers (ok slot)
  round_of what slot refused = again
  round_of what slot (store_failed e) = answers (err (failure what e))

  unfoldable pub first_slot : (key : Text) → World → Round × World
  first_slot key s = elim (from_u32 1) [
    | ok value ↦
        let (answer, s') = create key value s in
        (round_of (text "create broker slot counter") 0 answer, s')
    | err e ↦ (answers (err (failure (text "serialize failed") e)), s)
    | panic ↦ (answers panic, s)
  ]

  unfoldable pub reuse_slot : (key : Text) → (revision : ℕ) → World → Round × World
  reuse_slot key revision s = elim (from_u32 1) [
    | ok value ↦
        let (answer, s') = update key value revision s in
        (round_of (text "recreate broker slot counter") 0 answer, s')
    | err e ↦ (answers (err (failure (text "serialize failed") e)), s)
    | panic ↦ (answers panic, s)
  ]

  unfoldable pub next_slot :
      (site_tag env_tag key : Text) → (revision slot : ℕ) → World → Round × World
  next_slot site_tag env_tag key revision slot s =
      if ltb 65535 slot
      then (answers (err (slot_exhausted site_tag env_tag 65535)), s)
      else elim (from_u32 (slot + 1)) [
        | ok value ↦
            let (answer, s') = update key value revision s in
            (round_of (text "update broker slot counter") slot answer, s')
        | err e ↦ (answers (err (failure (text "serialize failed") e)), s)
        | panic ↦ (answers panic, s)
      ]

  unfoldable pub counted : (site_tag env_tag key : Text) → Entry Bytes → World → Round × World
  counted site_tag env_tag key e s = elim (is_put e.operation) [
    | false ↦ reuse_slot key e.revision s
    | true ↦ elim (to_u32 e.value) [
      | ok slot ↦ next_slot site_tag env_tag key e.revision slot s
      | err error ↦ (answers (err (failure (text "deserialize failed") error)), s)
      | panic ↦ (answers panic, s)
    ]
  ]

  unfoldable pub allocate_round :
      (site_tag env_tag key : Text) → Result Text (Option (Entry Bytes)) × World → Round × World
  allocate_round site_tag env_tag key (ok none, s) = first_slot key s
  allocate_round site_tag env_tag key (ok (some e), s) = counted site_tag env_tag key e s
  allocate_round site_tag env_tag key (err e, s) =
      (answers (err (failure (text "get broker slot counter") e)), s)
  allocate_round site_tag env_tag key (panic, s) = (answers panic, s)

  -- The loop on fuel: `none` is a call that still tries.
  unfoldable pub allocate_nats_broker_slot :
      (fuel : ℕ) → (site_tag env_tag : Text) → World → Option (Result DbError ℕ) × World
  allocate_nats_broker_slot zero site_tag env_tag s = (none, s)
  allocate_nats_broker_slot (suc fuel) site_tag env_tag s =
      let key = broker_slot_counter_key site_tag env_tag in
      let (round, s') = allocate_round site_tag env_tag key (entry key s) in
      elim round [
        | answers result ↦ (some result, s')
        | again ↦ allocate_nats_broker_slot fuel site_tag env_tag s'
      ]

  -- Preferring a tombstone that expires, and falling back to one that does not.
  unfoldable pub purge_expiring : (key : Text) → World → Result {0, 0} DbError Unit × World
  purge_expiring key s =
      let (answer, s') = purge_with_ttl key s in
      elim answer [
        | ok u ↦ (ok tt, s')
        | err e ↦
            let (plain, s'') = purge key s' in
            (map_err (failure (text "purge " ++ key ++ text " (fallback)")) plain, s'')
        | panic ↦ (panic, s')
      ]
