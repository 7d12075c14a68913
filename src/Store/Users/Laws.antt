-- ===== src/Store/Users/Laws.antt =====
-- Reserving and releasing: the entry of one job in the two-level map, and its sequence number.
use bits_broker.Prelude.{
  Eq, ◌+◌, ◌≤◌, ◌<◌, ◌≡◌, refl, sym, ap, ◌∙◌, Option, none, some, Bool, true, Bool-cases, inl, inr,
  List, [], ◌∷◌, Option-cases, Text, pair_eq, text_eq, pair_beq, pair_beq_iff, text_beq, HashMap,
  lookup, insert, remove, lookup-insert, lookup-remove, if◌then◌else◌, arith, ◌&&◌,
}
use bits_broker.RequestId.{Chrono}
use bits_broker.Store.{u64_mod, or_default}
use bits_broker.Store.Users.{
  Store, Entry, is_empty, reserve_in, reserve_user_slot_memory, release_user_slot_memory,
}

pub is_empty-nil : {A : Type 0} (es : List A) → is_empty es ≡ true → es ≡ []
unfolding is_empty
is_empty-nil [] h = refl
is_empty-nil (x ∷ es) h = cc

-- A map of maps, in which a missing inner map counts as an empty one.
module _ {K L V : Type 0} ⦃e : Eq K⦄ ⦃f : Eq L⦄ where
  abbrev inner : K → HashMap K (HashMap L V) → HashMap L V
  inner k m = or_default (lookup k m) []

  inner-insert :
      (k j : K) (c z : L) (v : V) (m : HashMap K (HashMap L V))
      → lookup z (inner j (insert k (insert c v (inner k m)) m))
        ≡ (if e.beq k j && f.beq c z then some v else lookup z (inner j m))
  inner-insert k j c z v m = ground (
    arith,
    lookup-insert k j (insert c v (inner k m)) m,
    lookup-insert c z v (inner k m),
    e.beq_iff k j,
  )

  inner-reinsert :
      (k j : K) (m : HashMap K (HashMap L V)) → inner j (insert k (inner k m) m) ≡ inner j m
  inner-reinsert k j m = ground (arith, lookup-insert k j (inner k m) m, e.beq_iff k j)

  inner-insert-remove :
      (k j : K) (c z : L) (es : HashMap L V) (m : HashMap K (HashMap L V))
      → lookup k m ≡ some es
      → lookup z (inner j (insert k (remove c es) m))
        ≡ (if e.beq k j && f.beq c z then none else lookup z (inner j m))
  inner-insert-remove k j c z es m h =
      ground (arith, lookup-insert k j (remove c es) m, lookup-remove c z es, e.beq_iff k j)

  inner-remove :
      (k j : K) (c z : L) (es : HashMap L V) (m : HashMap K (HashMap L V))
      → lookup k m ≡ some es
      → is_empty (remove c es) ≡ true
      → lookup z (inner j (remove k m))
        ≡ (if e.beq k j && f.beq c z then none else lookup z (inner j m))
  unfolding lookup
  inner-remove k j c z es m h empty = ground (
    arith,
    lookup-remove k j m,
    lookup-remove c z es,
    is_empty-nil (remove c es) empty,
    e.beq_iff k j,
  )

module _ (chrono : Chrono) (Value : Type 0) where
  open chrono use {Time}

  abbrev pub bucket : Text → Text → Store chrono Value → HashMap Text (Entry chrono Value)
  bucket scope user s = or_default (lookup (scope, user) s.user_slots) []

  -- The entry of a job that counts against a user at a dispatcher.
  unfoldable pub entry_of : Text → Text → Text → Store chrono Value → Option (Entry chrono Value)
  entry_of scope user job_id s = lookup job_id (bucket scope user s)

  -- Every sequence number in the store was handed out.
  abbrev pub SeqBounded : Store chrono Value → Type 0
  SeqBounded s =
      (scope user job_id : Text) (e : Entry chrono Value)
      → entry_of scope user job_id s ≡ some e
      → e.seq ≤ s.user_seq

  abbrev same_slot : Text → Text → Text → Text → Text → Text → Bool
  same_slot a b c x y z = pair_beq (a, b) (x, y) && text_beq c z

  -- A job that holds a slot keeps it, with its number, and the store has the entries that it had.
  pub reserve_user_slot_memory_again :
      (now : Time) (scope user job_id owner : Text) (s : Store chrono Value)
      {e : Entry chrono Value}
      → entry_of scope user job_id s ≡ some e
      → ((reserve_user_slot_memory chrono Value now scope user job_id owner s).0 ≡ e.seq)
        × ((x y z : Text)
            → entry_of x y z (reserve_user_slot_memory chrono Value now scope user job_id owner s).1
              ≡ entry_of x y z s)
        × ((reserve_user_slot_memory chrono Value now scope user job_id owner s).1.user_seq
            ≡ s.user_seq)
  unfolding reserve_user_slot_memory reserve_in entry_of
  reserve_user_slot_memory_again now scope user job_id owner s h =
      rw h (refl, (λ x y z. ap (lookup z) (inner-reinsert (scope, user) (x, y) s.user_slots)), refl)

  -- A job without a slot gets one, with the number after the last one handed out, if that is not the
  -- last of u64; no other entry changes.
  pub reserve_user_slot_memory_new :
      (now : Time) (scope user job_id owner : Text) (s : Store chrono Value)
      → entry_of scope user job_id s ≡ none
      → s.user_seq + 1 < u64_mod
      → let (seq, s') = reserve_user_slot_memory chrono Value now scope user job_id owner s in
        (seq ≡ s.user_seq + 1)
        × (s'.user_seq ≡ seq)
        × ((x y z : Text)
            → entry_of x y z s' ≡ (
                if same_slot scope user job_id x y z
                then some (record {
                  scope = scope;
                  user = user;
                  job_id = job_id;
                  owner_broker_id = owner;
                  seq = seq;
                  created_at = now;
                })
                else entry_of x y z s))
  unfolding reserve_user_slot_memory reserve_in entry_of
  reserve_user_slot_memory_new now scope user job_id owner s h fits =
      rw h (omega arith, refl, λ x y z. inner-insert (scope, user) (x, y) job_id z _ s.user_slots)

  -- A release takes the entry of that job away, and no other.
  pub release_user_slot_memory_lem :
      (scope user job_id : Text) (s : Store chrono Value) (x y z : Text)
      → entry_of x y z (release_user_slot_memory chrono Value scope user job_id s)
        ≡ (if same_slot scope user job_id x y z then none else entry_of x y z s)
  unfolding release_user_slot_memory entry_of lookup
  release_user_slot_memory_lem scope user job_id s x y z =
      elim (Option-cases (lookup (scope, user) s.user_slots)) [
        | inl e ↦
            rw (e, release_user_slot_memory) (ground (arith, pair_beq_iff (scope, user) (x, y)))
        | inr (es, e) ↦ elim (Bool-cases (is_empty (remove job_id es))) [
          | inl none_left ↦
              rw (e, release_user_slot_memory, none_left)
                (inner-remove (scope, user) (x, y) job_id z es s.user_slots e none_left)
          | inr some_left ↦
              rw (e, release_user_slot_memory, some_left)
                (inner-insert-remove (scope, user) (x, y) job_id z es s.user_slots e)
        ]
      ]

  -- Reserving keeps every number in the store at most the last one handed out, so that the number of
  -- a new entry is above those of all others.
  pub reserve_user_slot_memory-SeqBounded :
      (now : Time) (scope user job_id owner : Text) (s : Store chrono Value)
      → s.user_seq + 1 < u64_mod
      → SeqBounded s
      → SeqBounded (reserve_user_slot_memory chrono Value now scope user job_id owner s).1
  reserve_user_slot_memory-SeqBounded now scope user job_id owner s fits bounded x y z e h =
      elim (Option-cases (entry_of scope user job_id s)) [
        | inr (old, held) ↦
            let (_, same, seq) =
              reserve_user_slot_memory_again now scope user job_id owner s held in
            rw seq (bounded x y z e (sym (same x y z) ∙ h))
        | inl free ↦
            let (new, seq, entries) =
              reserve_user_slot_memory_new now scope user job_id owner s free fits in
            ground (arith, entries x y z, bounded x y z e)
      ]
