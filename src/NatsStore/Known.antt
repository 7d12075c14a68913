-- ===== src/NatsStore/Known.antt =====
-- A read of `NatsStore` and what a later moment finds.
use bits_broker.Prelude.{ℕ, ◌<◌, Option, none, some, ◌≡◌, ◌⊎◌, ap, sym, inl, inr, arith}
use bits_broker.NatsStore.{Entry}
use bits_broker.NatsStore.Laws.{IsNewer, HasRevision}

-- An entry that was read is the latest one, or there is a later one.
abbrev pub IsKnown : {V : Type 0} → Option (Entry V) → Entry V → Type 0
IsKnown none e = ⊥
IsKnown (some latest) e = (e.revision < latest.revision) ⊎ (latest ≡ e)

pub known_latest :
    {V : Type 0} (o : Option (Entry V)) (e : Entry V)
    → IsKnown o e
    → HasRevision e.revision o
    → o ≡ some e
known_latest none e k h = absurd k
known_latest (some latest) e (inl l) h = absurd (omega (arith, l, h))
known_latest (some latest) e (inr s) h = ap some s

-- A later write leaves what was known known.
pub known_grows :
    {V : Type 0} (before : Option (Entry V)) (e : Entry V) (value : V) (revision : ℕ)
    → IsNewer before revision
    → IsKnown before e
    → e.revision < revision
known_grows none e value revision newer k = absurd k
known_grows (some latest) e value revision newer (inl l) = omega (arith, l, newer)
known_grows (some latest) e value revision newer (inr s) = rw (ap (λ x. x.revision) (sym s)) newer
