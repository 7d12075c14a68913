-- ===== src/UserLimits/BrokersTests.antt =====
-- The theorems of the limits that brokers share, with a store that is a list of its entries.
use bits_broker.Prelude.{
  ℕ, ◌+◌, ◌≤◌, ◌<◌, true, false, none, some, List, [], ◌∷◌, ◌++◌, length, map, Text, text_eq,
  insert, ap, sym, ◌≡◌, refl, arith, lookup,
}
use bits_broker.RequestId.Samples.{unix_nanos}
use bits_broker.Store.{new_store, u64_mod}
use bits_broker.Store.Users.Laws.{bucket}
use bits_broker.UserLimits.Brokers.Late.{ticket, grant}
use bits_broker.Store.Users.{
  Store, Entry, reserve_in, reserve_user_slot_memory, list_user_slots_memory,
}
use bits_broker.Queues.CostWeighted.Run.{count}
use bits_broker.UserLimits.Brokers.{
  Ticket, SlotStore, Limiter, Local, strict, admit_job, strict_verdict, rank, position,
  sort_tickets, place, ticket_beq,
}
use bits_broker.UserLimits.Brokers.Balance.{Settled, admit_job-Settled}
use bits_broker.UserLimits.Brokers.Strict.{reserves, admits, Reach, start, step, held_bounded}

-- A store that is down, and one that lists what was reserved.
abbrev down : SlotStore (List Ticket)
down = record {
  reserve_user_slot = λ scope key job broker w. (none, w);
  list_user_slots = λ scope key w. (none, w);
  release_user_slot = λ scope key job w. w;
  now = λ w. (0, w);
}

abbrev up : SlotStore (List Ticket)
up = record {
  reserve_user_slot = λ scope key job broker w. (some (length w), w ++ (length w, job) ∷ []);
  list_user_slots = λ scope key w. (some w, w);
  release_user_slot = λ scope key job w. [];
  now = λ w. (0, w);
}

abbrev limiter : SlotStore (List Ticket) → Limiter (List Ticket)
limiter store = record { scope = b's' ∷ []; broker_id = b'b' ∷ []; store = some store }

abbrev local : Local
local = record { counts = (b'u' ∷ [], 1) ∷ []; cached_count = [] }

abbrev waiting : List Ticket
waiting = (0, b'i' ∷ []) ∷ []

second_rejected : (admit_job (limiter up) (b'u' ∷ []) (b'j' ∷ []) 1 local waiting).0 ≡ false
unfolding admit_job strict bits_broker.UserLimits.Brokers.strict_admit
    bits_broker.UserLimits.Brokers.strict_reserved bits_broker.UserLimits.Brokers.strict_verdict
    bits_broker.UserLimits.Brokers.rank bits_broker.UserLimits.Brokers.position
    bits_broker.UserLimits.Brokers.sort_tickets bits_broker.UserLimits.Brokers.place
    bits_broker.UserLimits.Brokers.ticket_ltb bits_broker.UserLimits.Brokers.ticket_beq
    bits_broker.UserLimits.Brokers.keep_or_drop bits_broker.UserLimits.Brokers.drop_guard
second_rejected = refl

admit_job-Settled_example :
    let (admitted, l', w') = admit_job (limiter up) (b'u' ∷ []) (b'j' ∷ []) 1 local waiting in
    Settled (b'u' ∷ []) local.counts admitted l'.counts
admit_job-Settled_example = admit_job-Settled (limiter up) (b'u' ∷ []) (b'j' ∷ []) 1 local waiting

abbrev scope : Text
scope = b's' ∷ []

abbrev user : Text
user = b'u' ∷ []

abbrev job : Text
job = b'j' ∷ []

abbrev reserved : Store unix_nanos ℕ
reserved =
    (reserve_user_slot_memory unix_nanos ℕ 5 scope user job (b'b' ∷ []) (new_store unix_nanos ℕ)).1

abbrev entry : Entry unix_nanos ℕ
entry = record {
  scope = scope;
  user = user;
  job_id = job;
  owner_broker_id = b'b' ∷ [];
  seq = 1;
  created_at = 5;
}

entry_there : lookup job (bucket unix_nanos ℕ scope user reserved) ≡ some entry
unfolding lookup insert reserve_user_slot_memory reserve_in new_store
entry_there = refl

entry_absent : lookup job (bucket unix_nanos ℕ scope user (new_store unix_nanos ℕ)) ≡ none
unfolding lookup new_store
entry_absent = refl

verdict : strict_verdict 1 (1, job) (some ((1, job) ∷ [])) ≡ true
unfolding strict_verdict rank position sort_tickets place ticket_beq
verdict = refl

numbers_left : (new_store unix_nanos ℕ).user_seq + 1 < u64_mod
unfolding new_store
numbers_left = omega arith

listing :
    map (ticket unix_nanos ℕ) (list_user_slots_memory unix_nanos ℕ scope user reserved)
    ≡ (1, job) ∷ []
unfolding lookup insert reserve_user_slot_memory reserve_in new_store list_user_slots_memory
listing = refl

admitted :
    Reach unix_nanos ℕ scope user 1 0
      (record { store = reserved; held = grant unix_nanos ℕ job (λ k. false) })
admitted =
    step
      (step start (
        reserves (new_store unix_nanos ℕ) (λ k. false) 5 job (b'b' ∷ []) entry_absent numbers_left))
      (admits reserved (λ k. false) job entry ((1, job) ∷ []) entry_there
        (λ p. ap (count p) (sym listing)) verdict)

held_bounded_example :
    count
      (λ e. grant unix_nanos ℕ job (λ k. false) e.job_id)
      (list_user_slots_memory unix_nanos ℕ scope user reserved)
    ≤ 1 + 0
held_bounded_example = (held_bounded unix_nanos ℕ scope user 1 admitted).0
