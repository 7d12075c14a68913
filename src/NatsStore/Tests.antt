-- ===== src/NatsStore/Tests.antt =====
-- A bucket of one key that keeps the laws, and two brokers that race in it.
use bits_broker.Prelude.{
  ℕ, true, Option, none, some, [], ◌∷◌, Result, ok, ok_injective, sym, Text, text, ◌≡◌, ◌≢◌, refl,
  arith,
}
use bits_broker.RequestId.Samples.{unix_nanos}
use bits_broker.Store.{PersistentJobRecord}
use bits_broker.NatsStore.{Entry, op_put}
use bits_broker.NatsStore.{
  allocate_round, allocate_nats_broker_slot, first_slot, round_of, counted, next_slot, is_put,
  broker_slot_counter_key,
}
use bits_broker.NatsStore.Counter
use bits_broker.NatsStore.Counter.{set_read, gives, with_slot}
use bits_broker.NatsStore.Counter.Unique.{distinct, all_below, given-distinct}
use bits_broker.NatsStore.Counter.Alone.{allocate_nats_broker_slot-ends}
use bits_broker.NatsStore.Jobs.{claim_round, claim_entry, claim_owned, take_over, taken, refreshed}
use bits_broker.NatsStore.Jobs.Takeover
use bits_broker.NatsStore.Jobs.Takeover.{is_claimed, wins, with_winner, one_winner}
use bits_broker.NatsStore.Jobs.Takeover.One.{claims-one_winner}
use bits_broker.NatsStore.Laws.{Laws, IsCurrent}
use bits_broker.NatsStore.Samples.{Json, json_u32, json_record, one_key, one_key_laws}

abbrev Job : Type 0
Job = PersistentJobRecord unix_nanos ℕ

abbrev site : Text
site = text "bol"

abbrev env : Text
env = text "dev"

abbrev counter : Laws (one_key Job) (broker_slot_counter_key site env)
counter = one_key_laws Job (broker_slot_counter_key site env)

abbrev Slots : Type 0
Slots = Counter.Race (one_key Job) site env

-- The counter at a number of slots.
abbrev at_count : ℕ → Option (Entry (Json Job))
at_count n = some (record { operation = op_put; value = json_u32 n; revision = n })

abbrev raced_slots : Slots
raced_slots = record {
  world = at_count 2;
  read = set_read (one_key Job) site env 1 none (
      set_read (one_key Job) site env 1 (some (ok (at_count 1))) (
        set_read (one_key Job) site env 1 none (
          set_read (one_key Job) site env 0 none (
            set_read (one_key Job) site env 1 (some (ok none))
              (set_read (one_key Job) site env 0 (some (ok none)) (λ b. none))))));
  given = 1 ∷ 0 ∷ [];
}

-- Both read an empty counter; the first creates it, the second is refused and reads again.
raced_slots-Reach : Counter.Reach (one_key Job) site env counter raced_slots
unfolding set_read allocate_round first_slot round_of counted next_slot is_put gives with_slot
raced_slots-Reach =
    let r1 =
      Counter.step (Counter.start none (λ e h. absurd (ground (arith, h)))) (Counter.reads _ 0) in
    let r2 = Counter.step r1 (Counter.reads _ 1) in
    let r3 = Counter.step r2 (Counter.tries _ 0 {o = ok none} refl) in
    let r4 = Counter.step r3 (Counter.tries _ 1 {o = ok none} refl) in
    let r5 = Counter.step r4 (Counter.reads _ 1) in
    Counter.step r5 (Counter.tries _ 1 {o = ok (at_count 1)} refl)

given-distinct_example : (distinct (1 ∷ 0 ∷ []) ≡ true) × (all_below 65536 (1 ∷ 0 ∷ []) ≡ true)
given-distinct_example = given-distinct (one_key Job) site env counter raced_slots raced_slots-Reach

current : IsCurrent (one_key Job) (broker_slot_counter_key site env) counter (at_count 41)
current o h = ok_injective (sym h)

allocate_nats_broker_slot-ends_example :
    (allocate_nats_broker_slot (one_key Job) 1 site env (at_count 41)).0 ≢ none
allocate_nats_broker_slot-ends_example =
    allocate_nats_broker_slot-ends (one_key Job) site env counter 0 (at_count 41) current

job_of : Text → Job
job_of broker = record {
  job_id = text "j";
  broker_id = broker;
  original_request = 0;
  user = 0;
  metadata = 0;
  created_at = 0;
}

abbrev entry_of : Text → ℕ → Option (Entry (Json Job))
entry_of broker n =
    some (record { operation = op_put; value = json_record (job_of broker); revision = n })

abbrev gone : Text
gone = b'g' ∷ []

abbrev first : Text
first = b'a' ∷ []

abbrev second : Text
second = b'b' ∷ []

abbrev job : Text
job = text "jobs.j"

abbrev set :
    ℕ
    → Option (Result Text (Option (Entry (Json Job))))
    → (ℕ → Option (Result Text (Option (Entry (Json Job)))))
    → ℕ
    → Option (Result Text (Option (Entry (Json Job))))
set = Takeover.set_read unix_nanos ℕ (one_key Job) job gone

abbrev raced_claims : Takeover.Race unix_nanos ℕ (one_key Job) job gone
raced_claims = record {
  world = entry_of first 8;
  read = set 0 none (
      set 0 (some (ok (entry_of first 8))) (
        set 1 none (
          set 0 none (
            set 1 (some (ok (entry_of gone 7)))
              (set 0 (some (ok (entry_of gone 7))) (λ i. none))))));
  winners = first ∷ first ∷ [];
}

-- Both read the entry of the broker that is gone; one takes it over, the other loses its try and finds
-- the winner in its last look; the winner claims again.
raced_claims-Reach :
    Takeover.Reach unix_nanos ℕ (one_key Job) job gone (one_key_laws Job job) raced_claims
unfolding Takeover.set_read claim_round claim_entry claim_owned take_over taken refreshed is_claimed
    wins with_winner is_put job_of
raced_claims-Reach =
    let r1 = Takeover.step (Takeover.start (entry_of gone 7) (λ o h. h)) (Takeover.reads _ 0) in
    let r2 = Takeover.step r1 (Takeover.reads _ 1) in
    let r3 = Takeover.step r2 (Takeover.tries _ 0 first {o = ok (entry_of gone 7)} refl refl) in
    let r4 = Takeover.step r3 (Takeover.tries _ 1 second {o = ok (entry_of gone 7)} refl refl) in
    let r5 = Takeover.step r4 (Takeover.looks _ 1 second refl) in
    let r6 = Takeover.step r5 (Takeover.reads _ 0) in
    Takeover.step r6 (Takeover.tries _ 0 first {o = ok (entry_of first 8)} refl refl)

claims-one_winner_example : one_winner (first ∷ first ∷ []) ≡ true
claims-one_winner_example =
    claims-one_winner unix_nanos ℕ (one_key Job) job gone (one_key_laws Job job) raced_claims
      raced_claims-Reach
