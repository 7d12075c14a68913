-- ===== src/UserLimits/Brokers.antt =====
-- bits/src/dispatcher/mod.rs: `UserLimiter::admit`, with a store that the brokers of a dispatcher share
-- or without one. The store is a parameter, and so is all that other tasks do while a call of it is
-- awaited. A guard that is dropped releases its entry by a task of its own, which is a step here; the
-- branch outside a runtime, which leaves the entry, is not modelled.
pub mod Rank
pub mod Balance
pub mod Late
pub mod Slots
pub mod Strict
use bits_broker.Prelude.{
  ℕ, suc, ◌+◌, ◌-◌, ◌*◌, ◌==◌, Bool, true, false, ◌&&◌, not, Option, none, some, List, [], ◌∷◌,
  Text, Result, ok, err, panic, if◌then◌else◌, leb, ltb, length, HashMap, lookup, insert, text_eq,
  text_beq,
}
use bits_broker.Store.{or_default}
use bits_broker.UserLimits.{Counts, try_admit_local, incr_local, release_local, admit_without_store}

-- The sequence number and the job of an entry.
abbrev pub Ticket : Type 0
Ticket = ℕ × Text

-- The order of strings.
unfoldable pub text_ltb : Text → Text → Bool
text_ltb s [] = false
text_ltb [] (d ∷ t) = true
text_ltb (c ∷ s) (d ∷ t) =
    let rest = text_ltb s t in if ltb c d then true else if c == d then rest else false

unfoldable pub ticket_ltb : Ticket → Ticket → Bool
ticket_ltb (n, s) (m, t) = if ltb n m then true else if n == m then text_ltb s t else false

unfoldable pub ticket_beq : Ticket → Ticket → Bool
ticket_beq (n, s) (m, t) = (n == m) && text_beq s t

unfoldable pub place : Ticket → List Ticket → List Ticket
place x [] = x ∷ []
place x (y ∷ ys) = let rest = place x ys in if ticket_ltb y x then y ∷ rest else x ∷ y ∷ ys

-- `sort_unstable`
unfoldable pub sort_tickets : List Ticket → List Ticket
sort_tickets [] = []
sort_tickets (x ∷ xs) = place x (sort_tickets xs)

abbrev after_one : Option ℕ → Option ℕ
after_one none = none
after_one (some n) = some (suc n)

unfoldable pub position : Ticket → List Ticket → Option ℕ
position x [] = none
position x (y ∷ ys) = let rest = position x ys in if ticket_beq y x then some 0 else after_one rest

-- The place of an entry among the given ones, and the first where it is not among them.
unfoldable pub rank : Ticket → List Ticket → ℕ
rank x entries = or_default (position x (sort_tickets entries)) 0

-- The rank decides; without a listing the job is admitted.
unfoldable pub strict_verdict : ℕ → Ticket → Option (List Ticket) → Bool
strict_verdict max x none = true
strict_verdict max x (some entries) = ltb (rank x entries) max

abbrev pub strict_max_threshold : ℕ
strict_max_threshold = 3

unfoldable pub strict : ℕ → Bool
strict max = leb max strict_max_threshold

-- What a limiter asks of a store and of the clock. The results `none` are an error, and for a listing
-- also that it takes too long.
pub record SlotStore (W : Type 0) : Type 0 where
  pub reserve_user_slot : Text → Text → Text → Text → W → Option ℕ × W
  pub list_user_slots : Text → Text → W → Option (List Ticket) × W
  pub release_user_slot : Text → Text → Text → W → W
  pub now : W → ℕ × W  -- nanoseconds

pub record Limiter (W : Type 0) : Type 0 where
  pub scope : Text
  pub broker_id : Text
  pub store : Option (SlotStore W)

-- What a limiter keeps: the counts of its broker, and the last count from the store with its time.
pub record Local : Type 0 where
  pub counts : Counts
  pub cached_count : HashMap Text (ℕ × ℕ)

abbrev pub lazy_reconcile_interval : ℕ
lazy_reconcile_interval = 2 * 1_000_000_000

module _ {W : Type 0} (limiter : Limiter W) where
  -- Whether the job gets a guard.
  abbrev pub Admission : Type 0
  Admission = Bool × Local × W

  unfoldable pub drop_guard : SlotStore W → Text → Text → Local → W → Local × W
  drop_guard store key job l w = (
    record l { counts = release_local key l.counts },
    store.release_user_slot limiter.scope key job w,
  )

  unfoldable pub keep_or_drop : SlotStore W → Text → Text → Bool → Local → W → Admission
  keep_or_drop store key job true l w = (true, l, w)
  keep_or_drop store key job false l w =
      let (l', w') = drop_guard store key job l w in (false, l', w')

  unfoldable pub strict_reserved : SlotStore W → Text → Text → ℕ → Option ℕ → Local → W → Admission
  strict_reserved store key job max none l w = (true, l, w)
  strict_reserved store key job max (some seq) l w =
      let (entries, w') = store.list_user_slots limiter.scope key w in
      keep_or_drop store key job (strict_verdict max (seq, job) entries) l w'

  unfoldable pub strict_admit : SlotStore W → Text → Text → ℕ → Local → W → Admission
  strict_admit store key job max l w =
      let (reserved, w') = store.reserve_user_slot limiter.scope key job limiter.broker_id w in
      strict_reserved store key job max reserved (record l { counts = incr_local key l.counts }) w'

  -- A count from the store that is newer than the interval, if there is one.
  unfoldable pub fresh_count : SlotStore W → Option (ℕ × ℕ) → W → Option ℕ × W
  fresh_count store none w = (none, w)
  fresh_count store (some (n, at)) w =
      let (now, w') = store.now w in
      (if ltb (now - at) lazy_reconcile_interval then some n else none, w')

  unfoldable pub reconciled :
      SlotStore W → Text → Text → ℕ → Option (List Ticket) → Local → W → Admission
  reconciled store key job max none l w = (true, l, w)
  reconciled store key job max (some entries) l w =
      let (now, w') = store.now w in
      keep_or_drop store key job (leb (length entries) max)
        (record l { cached_count = insert key (length entries, now) l.cached_count }) w'

  unfoldable pub lazy_synced : SlotStore W → Text → Text → ℕ → Option ℕ → Local → W → Admission
  lazy_synced store key job max (some synced) l w = keep_or_drop store key job (leb synced max) l w
  lazy_synced store key job max none l w =
      let (entries, w') = store.list_user_slots limiter.scope key w in
      reconciled store key job max entries l w'

  unfoldable pub lazy_reserved : SlotStore W → Text → Text → ℕ → Option ℕ → Local → W → Admission
  lazy_reserved store key job max none l w = (true, l, w)
  lazy_reserved store key job max (some seq) l w =
      let (fresh, w') = fresh_count store (lookup key l.cached_count) w in
      lazy_synced store key job max fresh l w'

  unfoldable pub lazy_gated :
      SlotStore W → Text → Text → ℕ → Result ℕ ℕ × Counts → Local → W → Admission
  lazy_gated store key job max (ok n, counts) l w =
      let (reserved, w') = store.reserve_user_slot limiter.scope key job limiter.broker_id w in
      lazy_reserved store key job max reserved (record l { counts = counts }) w'
  lazy_gated store key job max (err n, counts) l w = (false, record l { counts = counts }, w)
  lazy_gated store key job max (panic, counts) l w = (false, record l { counts = counts }, w)

  unfoldable pub lazy_admit : SlotStore W → Text → Text → ℕ → Local → W → Admission
  lazy_admit store key job max l w =
      lazy_gated store key job max (try_admit_local key max l.counts) l w

  unfoldable pub admit_job : Text → Text → ℕ → Local → W → Admission
  admit_job key job max l w = elim limiter.store [
    | none ↦
        let (admitted, counts) = admit_without_store key max l.counts in
        (admitted, record l { counts = counts }, w)
    | some store ↦ elim (max == 0) [
      | true ↦ (false, l, w)
      | false ↦ elim (strict max) [
        | true ↦ strict_admit store key job max l w
        | false ↦ lazy_admit store key job max l w
      ]
    ]
  ]
