-- ===== src/Recovery/Backoff.antt =====
-- The loop of `claim_with_backoff` ends, however long the store fails.
use bits_broker.Prelude.{
  ℕ, zero, suc, ◌+◌, ◌-◌, ◌*◌, ◌≤◌, ◌==◌, true, false, ◌||◌, Option, none, some, Result, ok, err,
  panic, Text, leb, Bool-cases, ◌≡◌, refl, inl, inr, arith,
}
use bits_broker.RequestId.{Chrono}
use bits_broker.Store.{DbError, conflict, backend, slot_exhausted, ClaimResult}
use bits_broker.Recovery.{Broker, min, claim_loop, claim_with_backoff, budget_of}

-- How long the sleeps of the given number of attempts last, if none is cut short.
abbrev capacity : ℕ → ℕ → ℕ
capacity zero delay = 0
capacity (suc zero) delay = 0
capacity (suc (suc n)) delay = delay + capacity (suc n) (min (delay * 2) 1_000_000_000)

module _ (chrono : Chrono) (Value B S : Type 0) (broker : Broker chrono Value B S)
    (claim_time : (id expected claimant : Text) (s : S)
      → broker.instant s ≤ broker.instant (broker.claim_if_owner id expected claimant s).1)
    (sleep_time : (n : ℕ) (s : S) → broker.instant s + n ≤ broker.instant (broker.sleep n s)) where
  abbrev Ends : Option (Result DbError (ClaimResult chrono Value)) → Type 0
  Ends answer = (result : Result DbError (ClaimResult chrono Value)) × (answer ≡ some result)

  loop : ℕ → Text → Text → ℕ → ℕ → S → Option (Result DbError (ClaimResult chrono Value)) × S
  loop = claim_loop chrono Value B S broker

  -- What follows a sleep.
  Again : ℕ → Text → Text → ℕ → Type 0
  Again zero id expected deadline = Unit
  Again (suc m) id expected deadline =
      (delay : ℕ) (s : S)
      → deadline ≤ broker.instant s + capacity (suc m) delay
      → Ends (loop (suc m) id expected deadline delay s).0

  gives_up :
      (n : ℕ) (id expected : Text) (deadline delay : ℕ) (s : S) {m : _}
      → (broker.claim_if_owner id expected broker.broker_id s).0 ≡ err (backend m)
      → let now = broker.instant (broker.claim_if_owner id expected broker.broker_id s).1 in
        (leb deadline now || min delay (deadline - now) == 0) ≡ true
        → (loop (suc n) id expected deadline delay s).0 ≡ some (err (backend m))
  unfolding loop claim_loop
  gives_up n id expected deadline delay s e t = rw (loop, claim_loop, e, t) refl

  sleeps :
      (n : ℕ) (id expected : Text) (deadline delay : ℕ) (s : S) {m : _}
      → (broker.claim_if_owner id expected broker.broker_id s).0 ≡ err (backend m)
      → let s' = (broker.claim_if_owner id expected broker.broker_id s).1 in
        let sleep_for = min delay (deadline - broker.instant s') in
        (leb deadline (broker.instant s') || sleep_for == 0) ≡ false
        → loop (suc n) id expected deadline delay s
          ≡ loop n id expected deadline (min (delay * 2) 1_000_000_000) (broker.sleep sleep_for s')
  unfolding loop claim_loop
  sleeps n id expected deadline delay s e t = rw (loop, claim_loop, e, t) refl

  retried :
      (n : ℕ) (id expected : Text) (deadline delay : ℕ) (s : S) {m : _}
      → Again n id expected deadline
      → deadline ≤ broker.instant s + capacity (suc n) delay
      → (broker.claim_if_owner id expected broker.broker_id s).0 ≡ err (backend m)
      → let s' = (broker.claim_if_owner id expected broker.broker_id s).1 in
        (leb deadline (broker.instant s') || min delay (deadline - broker.instant s') == 0) ≡ false
        → Ends (loop (suc n) id expected deadline delay s).0
  unfolding Again
  retried zero id expected deadline delay s again h e t =
      absurd (ground (arith, claim_time id expected broker.broker_id s, h, t))
  retried (suc n) id expected deadline delay s again h e t =
      let s' = (broker.claim_if_owner id expected broker.broker_id s).1 in
      let sleep_for = min delay (deadline - broker.instant s') in
      rw (sleeps (suc n) id expected deadline delay s e t) (
        again (min (delay * 2) 1_000_000_000) (broker.sleep sleep_for s') (
          ground (arith, claim_time id expected broker.broker_id s, sleep_time sleep_for s', h, t)))

  answered :
      (n : ℕ) (id expected : Text) (deadline delay : ℕ) (s : S)
      → Again n id expected deadline
      → deadline ≤ broker.instant s + capacity (suc n) delay
      → (answer : Result DbError (ClaimResult chrono Value))
      → (broker.claim_if_owner id expected broker.broker_id s).0 ≡ answer
      → Ends (loop (suc n) id expected deadline delay s).0
  unfolding loop claim_loop
  answered n id expected deadline delay s again h (ok r) e = (ok r, rw (loop, claim_loop, e) refl)
  answered n id expected deadline delay s again h panic e = (panic, rw (loop, claim_loop, e) refl)
  answered n id expected deadline delay s again h (err (conflict m)) e =
      (err (conflict m), rw (loop, claim_loop, e) refl)
  answered n id expected deadline delay s again h (err (slot_exhausted a b c)) e =
      (err (slot_exhausted a b c), rw (loop, claim_loop, e) refl)
  answered n id expected deadline delay s again h (err (backend m)) e =
      let s' = (broker.claim_if_owner id expected broker.broker_id s).1 in
      elim (Bool-cases
        (leb deadline (broker.instant s') || min delay (deadline - broker.instant s') == 0)) [
          | inl t ↦ (err (backend m), gives_up n id expected deadline delay s e t)
          | inr t ↦ retried n id expected deadline delay s again h e t
        ]

  loop-Ends :
      (n : ℕ) (id expected : Text) (deadline delay : ℕ) (s : S)
      → deadline ≤ broker.instant s + capacity (suc n) delay
      → Ends (loop (suc n) id expected deadline delay s).0
  unfolding Again
  loop-Ends zero id expected deadline delay s h =
      answered zero id expected deadline delay s tt h _ refl
  loop-Ends (suc n) id expected deadline delay s h =
      answered (suc n) id expected deadline delay s (loop-Ends n id expected deadline) h _ refl

  -- Whatever the store answers, and if it fails every time: after at most six claims, `claim_with_backoff`
  -- returns an answer. The time is assumed not to go back during a claim, and a sleep to last as long as
  -- it is told to.
  pub claim_with_backoff-ends :
      (id expected : Text) (timeout : Option ℕ) (s : S)
      → (result : Result DbError (ClaimResult chrono Value)) × ((claim_with_backoff chrono Value B S
            broker id expected timeout s).0
          ≡ some result)
  unfolding claim_with_backoff loop
  claim_with_backoff-ends id expected timeout s =
      loop-Ends 5 id expected (broker.instant s + budget_of timeout) 100_000_000 s (budget timeout)
    where
      budget :
          (timeout : Option ℕ)
          → broker.instant s + budget_of timeout ≤ broker.instant s + capacity 6 100_000_000
      budget none = omega arith
      budget (some t) = ground arith
