-- ===== src/NatsStore/Counter/Unique.antt =====
-- No slot is given twice, whatever the order in which the brokers read and try.
use bits_broker.Prelude.{
  ℕ, ◌+◌, ◌==◌, ◌≤◌, Bool, true, false, ◌&&◌, not, ◌||◌, Bool-cases, Option, none, some,
  some_injective, List, [], ◌∷◌, Result, ok, err, panic, Text, ltb, ◌≡◌, ◌⊎◌, refl, sym, subst, inl,
  inr, arith,
}
use bits_broker.NatsStore.{Bucket, Entry, Round, broker_slot_counter_key}
use bits_broker.NatsStore.Laws.{Laws}
use bits_broker.NatsStore.Known.{IsKnown, known_grows}
use bits_broker.NatsStore.Counter.{
  count_of, gives, with_slot, Race, set_read, Step, reads, tries, Reach, start, step,
}
use bits_broker.NatsStore.Counter.Trails.{allocate_round-Trail}
use bits_broker.NatsStore.Counter.Effects.{IsKnownRead, Effect, allocate_round-Effect}

unfoldable pub holds_slot : ℕ → List ℕ → Bool
holds_slot n [] = false
holds_slot n (x ∷ xs) = x == n || holds_slot n xs

-- No number stands twice in the list.
unfoldable pub distinct : List ℕ → Bool
distinct [] = true
distinct (x ∷ xs) = not (holds_slot x xs) && distinct xs

-- Every number of the list is below the bound.
unfoldable pub all_below : (bound : ℕ) → List ℕ → Bool
all_below bound [] = true
all_below bound (x ∷ xs) = ltb x bound && all_below bound xs

below_absent : (n : ℕ) (xs : List ℕ) → all_below n xs ≡ true → holds_slot n xs ≡ false
unfolding holds_slot all_below
below_absent n [] h = refl
below_absent n (x ∷ xs) h =
    let l : ltb x n ≡ true = ground (arith, h) in
    let rest : all_below n xs ≡ true = ground (arith, h) in
    ground (arith, l, below_absent n xs rest)

below_grows : (n m : ℕ) (xs : List ℕ) → n ≤ m → all_below n xs ≡ true → all_below m xs ≡ true
unfolding all_below
below_grows n m [] le h = refl
below_grows n m (x ∷ xs) le h =
    let l : ltb x n ≡ true = ground (arith, h) in
    let rest : all_below n xs ≡ true = ground (arith, h) in
    ground (arith, l, below_grows n m xs le rest)

-- The next slot joins slots that are all below it.
one_more :
    (n m : ℕ) (given : List ℕ)
    → m ≡ n + 1
    → n ≤ 65535
    → all_below n given ≡ true
    → distinct given ≡ true
    → all_below 65536 given ≡ true
    → (all_below m (n ∷ given) ≡ true)
      × (distinct (n ∷ given) ≡ true)
      × (all_below 65536 (n ∷ given) ≡ true)
unfolding distinct all_below
one_more n m given next le below unique small =
    let wider = below_grows n m given (omega (arith, next)) below in
    let absent = below_absent n given below in
    (ground (arith, next, wider), ground (arith, absent, unique), ground (arith, le, small))

module _ {Record : Type 0} (bucket : Bucket Record) (site_tag env_tag : Text)
    (laws : Laws bucket (broker_slot_counter_key site_tag env_tag)) where
  open bucket use {World, Bytes, entry}

  abbrev Known : Option (Entry Bytes) → Result Text (Option (Entry Bytes)) → Type 0
  Known = IsKnownRead bucket site_tag env_tag laws

  -- What holds at every moment of a race.
  record Safe (r : Race bucket site_tag env_tag) : Type 0 where
    knows :
        (b : ℕ) (o : Result Text (Option (Entry Bytes)))
        → r.read b ≡ some o
        → Known (laws.view r.world) o
    sees : (o : Option (Entry Bytes)) → laws.seen r.world o → Known (laws.view r.world) (ok o)
    below : all_below (count_of bucket (laws.view r.world)) r.given ≡ true
    unique : distinct r.given ≡ true
    small : all_below 65536 r.given ≡ true

  latest-Known : (o : Option (Entry Bytes)) → Known o (ok o)
  latest-Known none = tt
  latest-Known (some e) = inr refl

  read-Known :
      (s : World) (o : Result Text (Option (Entry Bytes)))
      → ((x : Option (Entry Bytes)) → laws.seen s x → Known (laws.view s) (ok x))
      → (entry (broker_slot_counter_key site_tag env_tag) s).0 ≡ o
      → Known (laws.view s) o
  read-Known s (ok o) sees h = sees o (laws.reads_seen s o h)
  read-Known s (err e) sees h = tt
  read-Known s panic sees h = tt

  Effect-Known :
      (before after : Option (Entry Bytes)) (round : Round) (o : Result Text (Option (Entry Bytes)))
      → Effect bucket site_tag env_tag before after round
      → Known before o
      → Known after o
  Effect-Known before after round (ok none) e k = tt
  Effect-Known before after round (err error) e k = tt
  Effect-Known before after round panic e k = tt
  Effect-Known before after round (ok (some x)) (inl (same, g)) k =
      subst (λ l. IsKnown l x) (sym same) k
  Effect-Known before after round (ok (some x)) (inr (revision, newer, (value, same), counts, g))
        k =
      subst (λ l. IsKnown l x) (sym same) (inl (known_grows before x value revision newer k))

  Effect-given :
      (before after : Option (Entry Bytes)) (round : Round) (given : List ℕ)
      → Effect bucket site_tag env_tag before after round
      → all_below (count_of bucket before) given ≡ true
      → distinct given ≡ true
      → all_below 65536 given ≡ true
      → (all_below (count_of bucket after) (with_slot (gives round) given) ≡ true)
        × (distinct (with_slot (gives round) given) ≡ true)
        × (all_below 65536 (with_slot (gives round) given) ≡ true)
  unfolding with_slot distinct all_below
  Effect-given before after round given (inl (same, g)) below unique small =
      rw (g, same) (below, unique, small)
  Effect-given before after round given (inr (revision, newer, value, counts, inl g)) below unique
        small =
      rw (g, counts)
        (
          below_grows (count_of bucket before) (count_of bucket before + 1) given (omega arith)
              below,
          unique,
          small,
        )
  Effect-given before after round given (inr (revision, newer, value, counts, inr (g, le))) below
        unique small =
      let n = count_of bucket before in
      rw g (one_more n (count_of bucket after) given counts le below unique small)

  read_of :
      (b c : ℕ) (o : Option (Result Text (Option (Entry Bytes))))
      (f : ℕ → Option (Result Text (Option (Entry Bytes)))) (x : Result Text (Option (Entry Bytes)))
      → set_read bucket site_tag env_tag b o f c ≡ some x
      → (o ≡ some x) ⊎ (f c ≡ some x)
  unfolding set_read
  read_of b c o f x h = elim (Bool-cases (b == c)) [
    | inl t ↦ inl (simp (t) at h)
    | inr t ↦ inr (simp (t) at h)
  ]

  step-Safe :
      (r r' : Race bucket site_tag env_tag) → Step bucket site_tag env_tag r r' → Safe r → Safe r'
  step-Safe _ _ (reads r b) safe = record {
    knows = λ c o h.
        subst (λ l. Known l o) (sym (laws.reads_keep r.world))
          (elim (read_of b c _ r.read o h) [
            | inl new ↦ read-Known r.world o safe.sees (some_injective new)
            | inr old ↦ safe.knows c o old
          ]);
    sees = λ o h.
        subst (λ l. Known l (ok o)) (sym (laws.reads_keep r.world))
          (safe.sees o (laws.entry_seen r.world o h));
    below =
        subst (λ l. all_below (count_of bucket l) r.given ≡ true) (sym (laws.reads_keep r.world))
          safe.below;
    unique = safe.unique;
    small = safe.small;
  }
  step-Safe _ _ (tries r b {o = o} h) safe =
      let effect =
        allocate_round-Effect bucket site_tag env_tag laws o r.world (safe.knows b o h) in
      let (below, unique, small) =
        Effect-given _ _ _ r.given effect safe.below safe.unique safe.small in
      record {
        knows = λ c x g. Effect-Known _ _ _ x effect (elim (read_of b c none r.read x g) [
          | inl never ↦ absurd (ground (arith, never))
          | inr old ↦ safe.knows c x old
        ]);
        sees = λ x g. elim (allocate_round-Trail bucket site_tag env_tag laws o r.world x g) [
          | inl old ↦ Effect-Known _ _ _ (ok x) effect (safe.sees x old)
          | inr new ↦ subst (λ l. Known l (ok x)) new (latest-Known x)
        ];
        below = below;
        unique = unique;
        small = small;
      }

  first_seen :
      (s : World)
      → ((e : Entry Bytes) → laws.seen s (some e) → IsKnown (laws.view s) e)
      → (o : Option (Entry Bytes)) → laws.seen s o
      → Known (laws.view s) (ok o)
  first_seen s known none h = tt
  first_seen s known (some e) h = known e h

  Reach-Safe : (r : Race bucket site_tag env_tag) → Reach bucket site_tag env_tag laws r → Safe r
  unfolding distinct all_below
  Reach-Safe _ (start world known) = record {
    knows = λ c o h. absurd (ground (arith, h));
    sees = λ o h. first_seen world known o h;
    below = refl;
    unique = refl;
    small = refl;
  }
  Reach-Safe _ (step reach s) = step-Safe _ _ s (Reach-Safe _ reach)

  -- However many brokers allocate a slot for one site and environment, and in whatever order their
  -- reads of the counter and their tries to move it come: no slot is given to two of them, and every
  -- slot that is given is at most 65535. The bucket is one that keeps the laws of `NatsStore.Laws`: its
  -- reads may be answered by replicas that are behind.
  pub given-distinct :
      (r : Race bucket site_tag env_tag)
      → Reach bucket site_tag env_tag laws r
      → (distinct r.given ≡ true) × (all_below 65536 r.given ≡ true)
  given-distinct r reach = ((Reach-Safe r reach).unique, (Reach-Safe r reach).small)
