-- ===== src/Runtime/Table.antt =====
-- The size of a map with unique keys.
use bits_broker.Prelude.{
  suc, none, some, [], ◌∷◌, length, Eq, HashMap, lookup, insert, remove, lookup-insert,
  lookup-remove, ◌≡◌, refl, arith,
}

module _ {K V : Type 0} ⦃e : Eq K⦄ where
  abbrev pub Unique : HashMap K V → Type 0
  Unique [] = Unit
  Unique ((k, v) ∷ m) = (lookup k m ≡ none) × Unique m

  pub insert-Unique : (k : K) (v : V) (m : HashMap K V) → Unique m → Unique (insert k v m)
  unfolding insert lookup
  insert-Unique k v [] u = (refl, tt)
  insert-Unique k v ((j, w) ∷ m) u =
      ground (arith, e.beq_iff j k, e.beq_iff k j, insert-Unique k v m u.1, lookup-insert k j v m)

  pub length-insert :
      (k : K) (v : V) (m : HashMap K V) → lookup k m ≡ none → length (insert k v m) ≡ suc (length m)
  unfolding insert lookup
  length-insert k v [] h = refl
  length-insert k v ((j, w) ∷ m) h = ground (arith, e.beq_iff j k, length-insert k v m)

  pub length-insert_again :
      (k : K) (v old : V) (m : HashMap K V)
      → lookup k m ≡ some old
      → length (insert k v m) ≡ length m
  unfolding insert lookup
  length-insert_again k v old [] h = cc
  length-insert_again k v old ((j, w) ∷ m) h =
      ground (arith, e.beq_iff j k, length-insert_again k v old m)

  pub remove-missing : (k : K) (m : HashMap K V) → lookup k m ≡ none → remove k m ≡ m
  unfolding lookup remove
  remove-missing k [] h = refl
  remove-missing k ((j, w) ∷ m) h = ground (arith, e.beq_iff j k, remove-missing k m)

  pub remove-Unique : (k : K) (m : HashMap K V) → Unique m → Unique (remove k m)
  unfolding remove
  remove-Unique k [] u = tt
  remove-Unique k ((j, w) ∷ m) u =
      ground (arith, e.beq_iff j k, e.beq_iff k j, remove-Unique k m u.1, lookup-remove k j m)

  pub length-remove :
      (k : K) (v : V) (m : HashMap K V)
      → Unique m
      → lookup k m ≡ some v
      → suc (length (remove k m)) ≡ length m
  unfolding lookup remove
  length-remove k v [] u h = cc
  length-remove k v ((j, w) ∷ m) u h =
      ground (arith, e.beq_iff j k, remove-missing k m, length-remove k v m u.1)
