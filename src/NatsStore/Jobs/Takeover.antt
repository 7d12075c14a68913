-- ===== src/NatsStore/Jobs/Takeover.antt =====
-- The brokers that race for one job of a broker that is gone: each reads the entry and then tries
-- to take it over, any number of times, or looks a last time; and the others may come between.
pub mod Effects
pub mod Trails
pub mod One
use bits_broker.Prelude.{
  ℕ, ◌==◌, Bool, true, false, ◌&&◌, not, Option, none, some, List, [], ◌∷◌, Result, ok, err, panic,
  Text, text_beq, if◌then◌else◌, ◌≡◌,
}
use bits_broker.RequestId.{Chrono}
use bits_broker.Store.{DbError, PersistentJobRecord, ClaimResult, not_found, active, claimed}
use bits_broker.NatsStore.Laws.{Laws}
use bits_broker.NatsStore.{Bucket, Entry}
use bits_broker.NatsStore.Jobs.{ClaimRound, decides, raced, claim_round, refreshed}

-- All the winners are the same broker.
unfoldable pub all_are : Text → List Text → Bool
all_are w [] = true
all_are w (x ∷ xs) = text_beq x w && all_are w xs

unfoldable pub one_winner : List Text → Bool
one_winner [] = true
one_winner (w ∷ ws) = all_are w ws

module _ {chrono : Chrono} {Value : Type 0} where
  unfoldable pub is_claimed : Result DbError (ClaimResult chrono Value) → Bool
  is_claimed (ok (claimed job)) = true
  is_claimed _ = false

  unfoldable pub wins : ClaimRound chrono Value → Bool
  wins (decides result) = is_claimed result
  wins raced = false

unfoldable pub with_winner : Bool → Text → List Text → List Text
with_winner false w ws = ws
with_winner true w ws = w ∷ ws

module _ (chrono : Chrono) (Value : Type 0) (bucket : Bucket (PersistentJobRecord chrono Value))
    (key expected : Text) where
  open bucket use {World, Bytes, entry}

  -- What the claims under way have read, by number, and the brokers that were told they have the job.
  pub record Race : Type 0 where
    pub world : World
    pub read : ℕ → Option (Result Text (Option (Entry Bytes)))
    pub winners : List Text

  unfoldable pub set_read :
      ℕ
      → Option (Result Text (Option (Entry Bytes)))
      → (ℕ → Option (Result Text (Option (Entry Bytes))))
      → ℕ
      → Option (Result Text (Option (Entry Bytes)))
  set_read i o f j = if i == j then o else f j

  pub data Step : Race → Race → Type 0 where
    reads :
        (r : Race) (i : ℕ)
        → Step r (record r {
          world = (entry key r.world).1;
          read = set_read i (some (entry key r.world).0) r.read;
        })
    tries :
        (r : Race) (i : ℕ) (claimant : Text) {o : Result Text (Option (Entry Bytes))}
        → r.read i ≡ some o
        → text_beq claimant expected ≡ false
        → Step r (record r {
          world = (claim_round chrono Value bucket key expected claimant (o, r.world)).1;
          read = set_read i none r.read;
          winners =
              with_winner
                (wins (claim_round chrono Value bucket key expected claimant (o, r.world)).0)
                claimant
                r.winners;
        })
    looks :
        (r : Race) (i : ℕ) (claimant : Text)
        → text_beq claimant expected ≡ false
        → Step r (record r {
          world = (entry key r.world).1;
          winners =
              with_winner
                (is_claimed (refreshed chrono Value bucket claimant (entry key r.world).0))
                claimant
                r.winners;
        })

module _ (chrono : Chrono) (Value : Type 0) (bucket : Bucket (PersistentJobRecord chrono Value))
    (key expected : Text) (laws : Laws bucket key) where
  open bucket use {World, Bytes}

  -- A race starts where all replicas have the same entry; later they may fall behind.
  pub data Reach : Race chrono Value bucket key expected → Type 0 where
    start :
        (world : World)
        → ((o : Option (Entry Bytes)) → laws.seen world o → o ≡ laws.view world)
        → Reach (record { world = world; read = λ i. none; winners = [] })
    step :
        {r r' : Race chrono Value bucket key expected}
        → Reach r
        → Step chrono Value bucket key expected r r'
        → Reach r'
