-- ===== src/NatsStore/Users/Tests.antt =====
-- Keys of slots over an encoding of strings in bytes, and a slot that is reserved twice.
use bits_broker.Prelude.{
  ℕ, zero, suc, ◌<◌, All, none, List, [], ◌∷◌, ok, ok_injective, Text, ◌≡◌, refl, sym, ap, arith,
}
use bits_broker.RequestId.Samples.{unix_nanos}
use bits_broker.Store.{UserLimitEntry}
use bits_broker.NatsStore.Laws.{IsCurrent}
use bits_broker.NatsStore.Samples.{one_key, one_key_laws}
use bits_broker.NatsStore.Users.Reserve.{reserve_user_slot_nats-again}
use bits_broker.NatsStore.Users.{
  reserve_user_slot_nats, reserve_slot, create_slot, created_slot, Bytes, user_slot_key,
}
use bits_broker.NatsStore.Users.Keys.{user_slot_key_injective}

-- As many ones as the character says, and a zero.
abbrev ones : ℕ → List ℕ → List ℕ
ones zero rest = 0 ∷ rest
ones (suc n) rest = 1 ∷ ones n rest

abbrev unary : Text → List ℕ
unary [] = []
unary (c ∷ cs) = ones c (unary cs)

ones_small : (n : ℕ) (rest : List ℕ) → All (λ b. b < 256) rest → All (λ b. b < 256) (ones n rest)
ones_small zero rest h = (omega arith, h)
ones_small (suc n) rest h = (omega arith, ones_small n rest h)

unary_small : (s : Text) → All (λ b. b < 256) (unary s)
unary_small [] = tt
unary_small (c ∷ cs) = ones_small c (unary cs) (unary_small cs)

ones_injective : (m n : ℕ) (r q : List ℕ) → ones m r ≡ ones n q → (m ≡ n) × (r ≡ q)
ones_injective zero zero r q e = (refl, cc)
ones_injective zero (suc n) r q e = absurd (cc)
ones_injective (suc m) zero r q e = absurd (cc)
ones_injective (suc m) (suc n) r q e =
    let (same, rest) = ones_injective m n r q (cc) in (ap suc same, rest)

ones-ne-nil : (n : ℕ) (r : List ℕ) → ones n r ≡ [] → ⊥
ones-ne-nil zero r e = cc
ones-ne-nil (suc n) r e = cc

unary_injective : (s t : Text) → unary s ≡ unary t → s ≡ t
unary_injective [] [] e = refl
unary_injective [] (d ∷ t) e = absurd (ones-ne-nil d (unary t) (sym e))
unary_injective (c ∷ s) [] e = absurd (ones-ne-nil c (unary s) e)
unary_injective (c ∷ s) (d ∷ t) e =
    let (same, rest) = ones_injective c d (unary s) (unary t) e in
    let tail = unary_injective s t rest in cc

abbrev unary_bytes : Bytes
unary_bytes = record { bytes = unary; bytes_small = unary_small; bytes_injective = unary_injective }

abbrev few : Text
few = 2 ∷ []

user_slot_key_injective_example : (few ≡ few) × (few ≡ few) × (few ≡ few)
user_slot_key_injective_example = user_slot_key_injective unary_bytes few few few few few few refl

abbrev Slot : Type 0
Slot = UserLimitEntry unix_nanos ℕ

abbrev slot_key : Text
slot_key = user_slot_key unary_bytes few few few

current : IsCurrent (one_key Slot) slot_key (one_key_laws Slot slot_key) none
current o h = ok_injective (sym h)

reserve_user_slot_nats-again_example :
    (reserve_user_slot_nats unary_bytes unix_nanos ℕ
      (one_key Slot)
      6
      few
      few
      few
      (3 ∷ [])
      (reserve_user_slot_nats unary_bytes unix_nanos ℕ (one_key Slot) 5 few few few few none).1).0
    ≡ ok 1
unfolding reserve_user_slot_nats reserve_slot create_slot created_slot
reserve_user_slot_nats-again_example =
    reserve_user_slot_nats-again unary_bytes unix_nanos ℕ (one_key Slot) few few few
      (one_key_laws Slot slot_key) 5 6 few (3 ∷ []) none 1 current refl refl
