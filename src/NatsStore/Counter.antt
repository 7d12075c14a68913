-- ===== src/NatsStore/Counter.antt =====
-- The race of any number of brokers for the slots of one site and environment: each reads the counter
-- and then tries to move it, and the others may come between.
pub mod Effects
pub mod Trails
pub mod Unique
pub mod Alone
use bits_broker.Prelude.{
  ℕ, zero, suc, ◌+◌, ◌==◌, ◌<◌, ◌≤◌, Bool, true, false, Bool-cases, All, Option, none, some, List,
  [], ◌∷◌, Result, ok, err, panic, Text, if◌then◌else◌, ltb, text_beq, ◌≡◌, ◌≢◌, ◌⊎◌, refl, sym, ap,
  ◌∙◌, inl, inr, arith,
}
use bits_broker.Store.{DbError}
use bits_broker.NatsStore.Laws.{Laws}
use bits_broker.NatsStore.Known.{IsKnown}
use bits_broker.NatsStore.{
  Bucket, Entry, Stored, stored, refused, store_failed, op_put, is_put, Round, answers, again,
  round_of, first_slot, reuse_slot, next_slot, counted, allocate_round, broker_slot_counter_key,
}
use bits_broker.NatsStore.Laws.{IsNewer, Writes, HasRevision, is_live, Laws}

-- The slot that a round gives.
unfoldable pub gives : Round → Option ℕ
gives (answers (ok slot)) = some slot
gives _ = none

unfoldable pub with_slot : Option ℕ → List ℕ → List ℕ
with_slot none given = given
with_slot (some slot) given = slot ∷ given

module _ {Record : Type 0} (bucket : Bucket Record) where
  open bucket use {Bytes, to_u32}

  -- The value of the counter, as its readers see it.
  unfoldable pub count_of : Option (Entry Bytes) → ℕ
  count_of none = 0
  count_of (some e) = elim (is_put e.operation) [
    | false ↦ 0
    | true ↦ elim (to_u32 e.value) [ ok n ↦ n | err e ↦ 0 | panic ↦ 0 ]
  ]

module _ {Record : Type 0} (bucket : Bucket Record) (site_tag env_tag : Text) where
  open bucket use {World, Bytes, entry, create, update, from_u32, to_u32}

  abbrev key : Text
  key = broker_slot_counter_key site_tag env_tag

  -- The brokers that have read the counter and not answered yet, by number, with what they read; and
  -- the slots that were given.
  pub record Race : Type 0 where
    pub world : World
    pub read : ℕ → Option (Result Text (Option (Entry Bytes)))
    pub given : List ℕ

  unfoldable pub set_read :
      ℕ
      → Option (Result Text (Option (Entry Bytes)))
      → (ℕ → Option (Result Text (Option (Entry Bytes))))
      → ℕ
      → Option (Result Text (Option (Entry Bytes)))
  set_read b o f c = if b == c then o else f c

  pub data Step : Race → Race → Type 0 where
    reads :
        (r : Race) (b : ℕ)
        → Step r (record r {
          world = (entry key r.world).1;
          read = set_read b (some (entry key r.world).0) r.read;
        })
    tries :
        (r : Race) (b : ℕ) {o : Result Text (Option (Entry Bytes))}
        → r.read b ≡ some o
        → Step r (record r {
          world = (allocate_round bucket site_tag env_tag key (o, r.world)).1;
          read = set_read b none r.read;
          given =
              with_slot (gives (allocate_round bucket site_tag env_tag key (o, r.world)).0) r.given;
        })

module _ {Record : Type 0} (bucket : Bucket Record) (site_tag env_tag : Text)
    (laws : Laws bucket (broker_slot_counter_key site_tag env_tag)) where
  open bucket use {World, Bytes}

  -- A race starts where no replica has an entry newer than the latest.
  pub data Reach : Race bucket site_tag env_tag → Type 0 where
    start :
        (world : World)
        → ((e : Entry Bytes) → laws.seen world (some e) → IsKnown (laws.view world) e)
        → Reach (record { world = world; read = λ b. none; given = [] })
    step :
        {r r' : Race bucket site_tag env_tag}
        → Reach r
        → Step bucket site_tag env_tag r r'
        → Reach r'
