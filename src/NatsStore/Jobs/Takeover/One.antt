-- ===== src/NatsStore/Jobs/Takeover/One.antt =====
-- Only one broker takes over a job, whatever the order in which they read and try.
use bits_broker.Prelude.{
  ℕ, ◌==◌, Bool, true, false, Bool-cases, All, Option, none, some, some_injective, List, [], ◌∷◌,
  Result, ok, err, panic, Text, text_beq, text_beq_iff, ◌≡◌, ◌⊎◌, refl, sym, ap, ◌∙◌, subst, inl,
  inr, arith,
}
use bits_broker.RequestId.{Chrono}
use bits_broker.Store.{PersistentJobRecord}
use bits_broker.NatsStore.{Bucket, Entry}
use bits_broker.NatsStore.Laws.{Laws}
use bits_broker.NatsStore.Known.{IsKnown, known_grows}
use bits_broker.NatsStore.Jobs.{refreshed}
use bits_broker.NatsStore.Jobs.Takeover.{
  all_are, one_winner, is_claimed, with_winner, Race, set_read, Step, reads, tries, looks, Reach,
  start, step,
}
use bits_broker.NatsStore.Jobs.Takeover.Trails.{claim_round-Trail}
use bits_broker.NatsStore.Jobs.Takeover.Effects.{
  owner, Effect, IsSound, claim_round-Effect, refreshed-owner,
}

all_are-owner :
    (v : Text) (o : Option Text) (ws : List Text)
    → o ≡ some v
    → All (λ w. o ≡ some w) ws
    → all_are v ws ≡ true
unfolding all_are
all_are-owner v o [] h held = refl
all_are-owner v o (w ∷ ws) h held =
    let same : text_beq w v ≡ true = (text_beq_iff w v).1 (some_injective (sym held.0 ∙ h)) in
    ground (arith, same, all_are-owner v o ws h held.1)

one_winner-owner :
    (o : Option Text) (ws : List Text) → All (λ w. o ≡ some w) ws → one_winner ws ≡ true
unfolding one_winner
one_winner-owner o [] held = refl
one_winner-owner o (w ∷ ws) held = all_are-owner w o ws held.0 held.1

module _ (chrono : Chrono) (Value : Type 0) (bucket : Bucket (PersistentJobRecord chrono Value))
    (key expected : Text) (laws : Laws bucket key) where
  open bucket use {World, Bytes, entry}

  abbrev owner_of : Option (Entry Bytes) → Option Text
  owner_of = owner chrono Value bucket

  abbrev Sound : Option (Entry Bytes) → Result Text (Option (Entry Bytes)) → Type 0
  Sound = IsSound chrono Value bucket key expected laws

  -- The winners own the entry, and none of them is the broker that is gone.
  abbrev Held : Option Text → List Text → Type 0
  Held o ws = All (λ w. o ≡ some w) ws × All (λ w. text_beq w expected ≡ false) ws

  record Safe (r : Race chrono Value bucket key expected) : Type 0 where
    knows :
        (i : ℕ) (o : Result Text (Option (Entry Bytes)))
        → r.read i ≡ some o
        → Sound (laws.view r.world) o
    sees : (o : Option (Entry Bytes)) → laws.seen r.world o → Sound (laws.view r.world) (ok o)
    held : Held (owner_of (laws.view r.world)) r.winners

  Held-expected : (o : Option Text) (ws : List Text) → o ≡ some expected → Held o ws → ws ≡ []
  Held-expected o [] h held = refl
  Held-expected o (w ∷ ws) h (owned, other) =
      let same : text_beq w expected ≡ true =
        (text_beq_iff w expected).1 (some_injective (sym owned.0 ∙ h)) in
      absurd (ground (arith, same, other.0))

  Held-with_winner :
      (o : Option Text) (claimant : Text) (won : Bool) (ws : List Text)
      → text_beq claimant expected ≡ false
      → (won ≡ false) ⊎ (o ≡ some claimant)
      → Held o ws
      → Held o (with_winner won claimant ws)
  unfolding with_winner
  Held-with_winner o claimant false ws other w held = held
  Held-with_winner o claimant true ws other (inl w) held = absurd (ground (arith, w))
  Held-with_winner o claimant true ws other (inr w) (owned, others) = ((w, owned), (other, others))

  Effect-Held :
      (before after : Option (Entry Bytes)) (claimant : Text) (won : Bool) (ws : List Text)
      → Effect chrono Value bucket key expected laws before after claimant won
      → text_beq claimant expected ≡ false
      → Held (owner_of before) ws
      → Held (owner_of after) (with_winner won claimant ws)
  Effect-Held before after claimant won ws (inl (same, w)) other held =
      subst (λ x. Held (owner_of x) (with_winner won claimant ws)) (sym same)
        (Held-with_winner (owner_of before) claimant won ws other w held)
  Effect-Held before after claimant won ws (inr (revision, newer, value, gone, owned)) other held =
      subst (λ x. Held (owner_of after) (with_winner won claimant x))
        (sym (Held-expected (owner_of before) ws gone held))
        (Held-with_winner (owner_of after) claimant won [] other (inr owned) (tt, tt))

  Effect-Sound :
      (before after : Option (Entry Bytes)) (claimant : Text) (won : Bool)
      (o : Result Text (Option (Entry Bytes)))
      → Effect chrono Value bucket key expected laws before after claimant won
      → Sound before o
      → Sound after o
  Effect-Sound before after claimant won (ok none) effect sound = tt
  Effect-Sound before after claimant won (err e) effect sound = tt
  Effect-Sound before after claimant won panic effect sound = tt
  Effect-Sound before after claimant won (ok (some e)) (inl (same, w)) sound =
      subst (λ x. Sound x (ok (some e))) (sym same) sound
  Effect-Sound before after claimant won (ok (some e))
        (inr (revision, newer, (value, same), gone, owned)) (k, sound) =
      (
        subst (λ l. IsKnown l e) (sym same) (inl (known_grows before e value revision newer k)),
        λ w names other.
            let late = sound w names other in
            let twice : w ≡ expected = some_injective (sym names ∙ sym (ap owner_of late) ∙ gone) in
            absurd (ground (arith, (text_beq_iff w expected).1 twice, other)),
      )

  latest-Sound : (o : Option (Entry Bytes)) → Sound o (ok o)
  latest-Sound none = tt
  latest-Sound (some e) = (inr refl, λ w names other. refl)

  read-Sound :
      (s : World) (o : Result Text (Option (Entry Bytes)))
      → ((x : Option (Entry Bytes)) → laws.seen s x → Sound (laws.view s) (ok x))
      → (entry key s).0 ≡ o
      → Sound (laws.view s) o
  read-Sound s (ok o) sees h = sees o (laws.reads_seen s o h)
  read-Sound s (err e) sees h = tt
  read-Sound s panic sees h = tt

  read_of :
      (i j : ℕ) (o : Option (Result Text (Option (Entry Bytes))))
      (f : ℕ → Option (Result Text (Option (Entry Bytes)))) (x : Result Text (Option (Entry Bytes)))
      → set_read chrono Value bucket key expected i o f j ≡ some x
      → (o ≡ some x) ⊎ (f j ≡ some x)
  unfolding set_read
  read_of i j o f x h = elim (Bool-cases (i == j)) [
    | inl t ↦ inl (simp (t) at h)
    | inr t ↦ inr (simp (t) at h)
  ]

  -- An entry that was read and names another broker than `expected` is the latest.
  named_owner :
      (claimant : Text) (s : World) (o : Option (Entry Bytes))
      → text_beq claimant expected ≡ false
      → Sound (laws.view s) (ok o)
      → owner_of o ≡ some claimant
      → owner_of (laws.view s) ≡ some claimant
  unfolding owner
  named_owner claimant s none other sound names = absurd (ground (arith, names))
  named_owner claimant s (some e) other (k, sound) names =
      ap owner_of (sound claimant names other) ∙ names

  -- A look at the entry wins only for the broker that it names.
  look_owner :
      (claimant : Text) (s : World) (o : Result Text (Option (Entry Bytes)))
      → text_beq claimant expected ≡ false
      → Sound (laws.view s) o
      → (is_claimed (refreshed chrono Value bucket claimant o) ≡ false)
        ⊎ (owner_of (laws.view s) ≡ some claimant)
  unfolding refreshed is_claimed
  look_owner claimant s (ok x) other sound =
      elim (refreshed-owner chrono Value bucket key expected laws claimant x) [
        | inl lost ↦ inl lost
        | inr names ↦ inr (named_owner claimant s x other sound names)
      ]
  look_owner claimant s (err e) other sound = inl refl
  look_owner claimant s panic other sound = inl refl

  step-Safe :
      (r r' : Race chrono Value bucket key expected)
      → Step chrono Value bucket key expected r r'
      → Safe r
      → Safe r'
  step-Safe _ _ (reads r i) safe = record {
    knows = λ j o h.
        subst (λ l. Sound l o) (sym (laws.reads_keep r.world))
          (elim (read_of i j _ r.read o h) [
            | inl new ↦ read-Sound r.world o safe.sees (some_injective new)
            | inr old ↦ safe.knows j o old
          ]);
    sees = λ o h.
        subst (λ l. Sound l (ok o)) (sym (laws.reads_keep r.world))
          (safe.sees o (laws.entry_seen r.world o h));
    held = subst (λ l. Held (owner_of l) r.winners) (sym (laws.reads_keep r.world)) safe.held;
  }
  step-Safe _ _ (tries r i claimant {o = o} h other) safe =
      let effect =
        claim_round-Effect chrono Value bucket key expected laws claimant o r.world other
          (safe.knows i o h) in
      record {
        knows = λ j x g. Effect-Sound _ _ _ _ x effect (elim (read_of i j none r.read x g) [
          | inl never ↦ absurd (ground (arith, never))
          | inr old ↦ safe.knows j x old
        ]);
        sees = λ x g.
            elim (claim_round-Trail chrono Value bucket key expected laws claimant o r.world x g) [
              | inl old ↦ Effect-Sound _ _ _ _ (ok x) effect (safe.sees x old)
              | inr new ↦ subst (λ l. Sound l (ok x)) new (latest-Sound x)
            ];
        held = Effect-Held _ _ claimant _ r.winners effect other safe.held;
      }
  step-Safe _ _ (looks r i claimant other) safe = record {
    knows = λ j o h. subst (λ l. Sound l o) (sym (laws.reads_keep r.world)) (safe.knows j o h);
    sees = λ o h.
        subst (λ l. Sound l (ok o)) (sym (laws.reads_keep r.world))
          (safe.sees o (laws.entry_seen r.world o h));
    held =
        subst
          (λ l. Held (owner_of l) (
            with_winner (is_claimed (refreshed chrono Value bucket claimant (entry key r.world).0))
              claimant r.winners))
          (sym (laws.reads_keep r.world))
          (Held-with_winner _ claimant _ r.winners other
            (look_owner claimant r.world _ other (read-Sound r.world _ safe.sees refl)) safe.held);
  }

  Reach-Safe :
      (r : Race chrono Value bucket key expected)
      → Reach chrono Value bucket key expected laws r
      → Safe r
  Reach-Safe _ (start world same) = record {
    knows = λ j o h. absurd (ground (arith, h));
    sees = λ o h. subst (λ l. Sound l (ok o)) (same o h) (latest-Sound o);
    held = (tt, tt);
  }
  Reach-Safe _ (step reach s) = step-Safe _ _ s (Reach-Safe _ reach)

  -- However many brokers claim a job of `expected`, each of them another broker than `expected`, and
  -- in whatever order their reads, tries and last looks at the entry come: all that were answered
  -- `claimed` are the same broker. The bucket is one that keeps the laws of `NatsStore.Laws`: its reads
  -- may be answered by replicas that are behind, but when the race starts all have the same entry.
  pub claims-one_winner :
      (r : Race chrono Value bucket key expected)
      → Reach chrono Value bucket key expected laws r
      → one_winner r.winners ≡ true
  claims-one_winner r reach = one_winner-owner _ r.winners (Reach-Safe r reach).held.0
