-- ===== src/UserLimits.antt =====
-- bits/src/dispatcher/mod.rs: the ceiling of a user at a dispatcher, and the counts of one broker.
-- The counts are a map whose entries are locked one at a time, so that each method is one step.
-- JSON is a parameter. Here `admit` has no store; Brokers has the modes with one.
pub mod Ceiling
pub mod Counts
pub mod Brokers
mod Tests
mod BrokersTests
use bits_broker.Prelude.{
  ℕ, suc, ◌+◌, ◌-◌, ◌==◌, Bool, true, false, Option, none, some, List, [], ◌∷◌, ◌++◌, Text, Result,
  ok, err, panic, if◌then◌else◌, leb, ltb, HashMap, lookup, insert, remove, text_eq,
}
use bits_broker.Store.{or_default}

pub record Json : Type 1 where
  pub Value : Type 0
  pub pointer : Text → Value → Option Value
  pub as_str : Value → Option Text
  pub as_array : Value → Option (List Value)

pub record RealmLimit : Type 0 where
  pub default : Option ℕ
  pub roles : HashMap Text ℕ

pub record UserLimitConfig : Type 0 where
  pub default : Option ℕ
  pub realms : HashMap Text RealmLimit

-- `effective.map_or(x, |e| e.max(x))`
unfoldable pub raise : Option ℕ → ℕ → Option ℕ
raise none x = some x
raise (some e) x = some (if ltb e x then x else e)

abbrev pub and_then : {A B : Type 0} → Option A → (A → Option B) → Option B
and_then none f = none
and_then (some a) f = f a

unfoldable pub raise_by_default : Option ℕ → Option ℕ → Option ℕ
raise_by_default none e = e
raise_by_default (some d) e = raise e d

abbrev pub auth_realm : Text
auth_realm = b'/' ∷ b'a' ∷ b'u' ∷ b't' ∷ b'h' ∷ b'/' ∷ b'r' ∷ b'e' ∷ b'a' ∷ b'l' ∷ b'm' ∷ []

abbrev pub auth_username : Text
auth_username =
    b'/' ∷ b'a' ∷ b'u' ∷ b't' ∷ b'h' ∷ b'/' ∷ b'u' ∷ b's' ∷ b'e' ∷ b'r' ∷ b'n' ∷ b'a' ∷ b'm' ∷ b'e'
    ∷ []

abbrev pub auth_roles : Text
auth_roles = b'/' ∷ b'a' ∷ b'u' ∷ b't' ∷ b'h' ∷ b'/' ∷ b'r' ∷ b'o' ∷ b'l' ∷ b'e' ∷ b's' ∷ []

module _ (json : Json) where
  open json use {Value, pointer, as_str, as_array}

  unfoldable pub raise_by_roles : HashMap Text ℕ → List Value → Option ℕ → Option ℕ
  raise_by_roles limits [] e = e
  raise_by_roles limits (r ∷ rs) e =
      raise_by_roles limits rs
        (raise_by_default (and_then (as_str r) (λ role. lookup role limits)) e)

  -- The ceiling of a user of the given realm.
  unfoldable pub effective : UserLimitConfig → Text → Value → Option ℕ
  effective cfg realm user = elim (lookup realm cfg.realms) [
    | none ↦ cfg.default
    | some block ↦
        let e = raise_by_default block.default cfg.default in
        elim (and_then (pointer auth_roles user) as_array) [
          | none ↦ e
          | some roles ↦ raise_by_roles block.roles roles e
        ]
  ]

  unfoldable pub resolve : UserLimitConfig → Value → Option (Text × ℕ)
  resolve cfg user = and_then (and_then (pointer auth_realm user) as_str) (λ realm.
      and_then (and_then (pointer auth_username user) as_str) (λ username.
        and_then (effective cfg realm user) (λ max. some (realm ++ 31 ∷ username, max))))

abbrev pub Counts : Type 0
Counts = HashMap Text ℕ

-- The new count, or the one that is at the cap.
unfoldable pub try_admit_local : Text → ℕ → Counts → Result ℕ ℕ × Counts
try_admit_local key max counts =
    let slot = or_default (lookup key counts) 0 in
    if leb max slot
    then (err slot, insert key slot counts)
    else (ok (slot + 1), insert key (slot + 1) counts)

unfoldable pub incr_local : Text → Counts → Counts
incr_local key counts = insert key (or_default (lookup key counts) 0 + 1) counts

-- The entry goes at 0.
unfoldable pub release_local : Text → Counts → Counts
release_local key counts = elim (lookup key counts) [
  | none ↦ counts
  | some slot ↦ if slot - 1 == 0 then remove key counts else insert key (slot - 1) counts
]

-- `.ok().map(…)`
abbrev pub guarded : Result ℕ ℕ × Counts → Bool × Counts
guarded (ok n, counts) = (true, counts)
guarded (err n, counts) = (false, counts)
guarded (panic, counts) = (false, counts)

-- `admit` without a store: whether the job gets a guard.
unfoldable pub admit_without_store : Text → ℕ → Counts → Bool × Counts
admit_without_store key max counts =
    if max == 0 then (false, counts) else guarded (try_admit_local key max counts)
