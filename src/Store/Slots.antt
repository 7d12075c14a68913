-- ===== src/Store/Slots.antt =====
-- Broker slots: for one site and environment the allocations count up from 0 and then stop.
use bits_broker.Prelude.{
  pair_beq_iff, ℕ, suc, ◌≡◌, refl, Bool-cases, inl, inr, List, [], ◌∷◌, ok, err, Text, pair_eq,
  text_eq, pair_beq, lookup, lookup-insert, if◌then◌else◌, arith, ltb, leb,
}
use bits_broker.RequestId.{Chrono}
use bits_broker.Store.{
  slot_exhausted, MemoryStore, new_store, allocate_memory_broker_slot, or_default,
}

-- How many of the allocations are for one site and environment.
abbrev pub count : Text × Text → List (Text × Text) → ℕ
count k [] = 0
count k (j ∷ js) = let rest = count k js in if pair_beq j k then suc rest else rest

module _ (chrono : Chrono) (Value : Type 0) where
  -- The store after some allocations, the latest first.
  unfoldable pub allocate_all :
      List (Text × Text) → MemoryStore chrono Value → MemoryStore chrono Value
  allocate_all [] s = s
  allocate_all (k ∷ ks) s = (allocate_memory_broker_slot chrono Value k.0 k.1 (allocate_all ks s)).1

  next_slot : Text × Text → MemoryStore chrono Value → ℕ
  next_slot k s = or_default (lookup k s.broker_slots) 0

  abbrev up_to : ℕ → ℕ
  up_to n = if ltb 65536 n then 65536 else n

  next_slot-allocate :
      (j k : Text × Text) (s : MemoryStore chrono Value)
      → next_slot k (allocate_memory_broker_slot chrono Value j.0 j.1 s).1 ≡ (
          if pair_beq j k
          then (if ltb 65535 (next_slot j s) then next_slot j s else suc (next_slot j s))
          else next_slot k s)
  unfolding next_slot allocate_memory_broker_slot
  next_slot-allocate j k s =
      let n = or_default (lookup j s.broker_slots) 0 in
      elim (Bool-cases (ltb 65535 n)) [
        | inl over ↦ rw (over, lookup-insert j k n s.broker_slots) (ground arith)
        | inr room ↦ rw (room, lookup-insert j k (suc n) s.broker_slots) (ground arith)
      ]

  next_slot-allocate_all :
      (k : Text × Text) (ks : List (Text × Text))
      → next_slot k (allocate_all ks (new_store chrono Value)) ≡ up_to (count k ks)
  unfolding allocate_all
  next_slot-allocate_all k [] = unfold next_slot new_store lookup in refl
  next_slot-allocate_all k (j ∷ ks) = ground (
    arith,
    pair_beq_iff j k,
    next_slot-allocate j k (allocate_all ks (new_store chrono Value)),
    next_slot-allocate_all k ks,
    next_slot-allocate_all j ks,
  )

  -- After any allocations on a new store, for this pair and others, the next one for a site and
  -- environment returns the number of those before it for that pair, so that no slot is given twice,
  -- up to 65535; from then on every allocation for the pair fails.
  pub allocate_memory_broker_slot-allocate_all :
      (site env : Text) (ks : List (Text × Text))
      → (allocate_memory_broker_slot chrono Value site env
          (allocate_all ks (new_store chrono Value))).0
        ≡ (if leb (count (site, env) ks) 65535
            then ok (count (site, env) ks)
            else err (slot_exhausted site env 65535))
  unfolding allocate_memory_broker_slot next_slot
  allocate_memory_broker_slot-allocate_all site env ks =
      ground (arith, next_slot-allocate_all (site, env) ks)
