-- ===== src/RequestId/Codec.antt =====
-- Whole ids: `encode_with_fixed_random` and `decode`.
use bits_broker.Prelude.{
  ℕ, ◌^◌, ◌<◌, ◌≡◌, ap, List, [], ◌∷◌, ◌++◌, arith, ltb, ◌==◌, ok, Text, >>=-eq-ok, length, get_or,
  All, take-length, inl, inr, Bool-cases, take, lt→ltb,
}
use native.Mathlib.Nat.{mod-lt}
use bits_broker.RequestId.{
  Chrono, DecodedId, pack_tag, unpack_tag, pack_digits, timestamp_seconds, encode_with_fixed_random,
  decode, decode_packed, to_digits, from_be_bytes, slice, encode_crockford_base32,
  decode_crockford_base32, fill_digits,
}
use bits_broker.RequestId.Digits.{from_digits-to_digits, to_digits-from_digits, from_digits_lt}
use bits_broker.RequestId.Tags.{unpack_tag-pack_tag, pack_tag-unpack_tag}
use bits_broker.RequestId.Base32.{decode-encode_crockford_base32, encode-decode_crockford_base32}

-- The 16 bytes, as `encode_with_fixed_random` lays them out.
abbrev layout : ℕ → ℕ → ℕ → ℕ → List ℕ → List ℕ
layout site env seconds slot random =
    1 ∷ to_digits 256 2 site
    ++ (to_digits 256 2 env ++ (to_digits 256 4 seconds ++ (to_digits 256 2 slot ++ random)))

abbrev IsByte : ℕ → Type 0
IsByte b = b < 256

layout-length :
    (site env seconds slot : ℕ) (random : List ℕ)
    → length random ≡ 5
    → length (layout site env seconds slot random) ≡ 16
unfolding to_digits
layout-length site env seconds slot random h = omega (arith, h)

layout-bytes :
    (site env seconds slot : ℕ) (random : List ℕ)
    → All IsByte random
    → All IsByte (layout site env seconds slot random)
unfolding to_digits
layout-bytes site env seconds slot random h =
    let byte = λ (n : ℕ). mod-lt n {m = 256} (omega arith) in
    (
      omega arith,
      (
        byte _,
        (byte _, (byte _, (byte _, (byte _, (byte _, (byte _, (byte _, (byte _, (byte _, h))))))))),
      ),
    )

pack_tag_lt : (tag : Text) {v : ℕ} → pack_tag tag ≡ ok v → v < 65536
unfolding pack_tag pack_digits
pack_tag_lt tag h = elim (Bool-cases (length tag == 0)) [
  | inl e ↦ cc (rw e at h)
  | inr e ↦ elim (Bool-cases (ltb 3 (length tag))) [
    | inl long ↦ cc (rw (e, long) at h)
    | inr short ↦
        let (ds, _, f) = >>=-eq-ok (fill_digits 0 tag _) _ (rw (e, short) at h) in ground arith
  ]
]

all_of : (xs : List ℕ) → length xs ≡ 5 → take 5 xs ≡ xs
all_of xs h = rw h at (take-length xs)

-- The fields of 16 bytes, laid out again.
layout-slice :
    (p : List ℕ)
    → length p ≡ 16
    → All IsByte p
    → get_or p 0 0 ≡ 1
    → layout
        (from_be_bytes (slice 1 3 p))
        (from_be_bytes (slice 3 5 p))
        (from_be_bytes (slice 5 9 p))
        (from_be_bytes (slice 9 11 p))
        (slice 11 16 p)
      ≡ p
layout-slice
      (b0 ∷ b1 ∷ b2 ∷ b3 ∷ b4 ∷ b5 ∷ b6 ∷ b7 ∷ b8 ∷ b9 ∷ b10 ∷ b11 ∷ b12 ∷ b13 ∷ b14 ∷ b15 ∷ []) l h
      v =
    rw (
      to_digits-from_digits 256 (b1 ∷ b2 ∷ []) (omega arith) ((h.1.0, (h.1.1.0, tt))),
      to_digits-from_digits 256 (b3 ∷ b4 ∷ []) (omega arith) ((h.1.1.1.0, (h.1.1.1.1.0, tt))),
      to_digits-from_digits 256 (b5 ∷ b6 ∷ b7 ∷ b8 ∷ []) (omega arith)
          ((h.1.1.1.1.1.0, (h.1.1.1.1.1.1.0, (h.1.1.1.1.1.1.1.0, (h.1.1.1.1.1.1.1.1.0, tt))))),
      to_digits-from_digits 256 (b9 ∷ b10 ∷ []) (omega arith)
          ((h.1.1.1.1.1.1.1.1.1.0, (h.1.1.1.1.1.1.1.1.1.1.0, tt))),
      v,
    )
layout-slice _ l h v = absurd (omega arith)

module _ (chrono : Chrono) where
  open chrono use {Time, custom_epoch, is_before, num_seconds, add_seconds}

  timestamp_seconds_lt : (t : Time) {s : ℕ} → timestamp_seconds chrono t ≡ ok s → s < 2 ^ 32
  unfolding timestamp_seconds
  timestamp_seconds_lt t h = ground arith

  -- What `decode` reads from laid out bytes.
  decode_packed-layout :
      (site env : Text) (site_packed env_packed seconds slot : ℕ) (random : List ℕ)
      → unpack_tag site_packed ≡ ok site
      → site_packed < 65536
      → unpack_tag env_packed ≡ ok env
      → env_packed < 65536
      → seconds < 2 ^ 32
      → slot < 65536
      → length random ≡ 5
      → decode_packed chrono (layout site_packed env_packed seconds slot random)
        ≡ ok (record {
          version = 1;
          site = site;
          env = env;
          timestamp = add_seconds custom_epoch seconds;
          broker_slot = slot;
          random = random;
        })
  unfolding decode_packed to_digits
  decode_packed-layout site env sp ep seconds slot random us sl ue el tl bl rl = rw (
    from_digits-to_digits 256 2 sp (omega arith) sl,
    us,
    from_digits-to_digits 256 2 ep (omega arith) el,
    ue,
    from_digits-to_digits 256 4 seconds (omega arith) tl,
    from_digits-to_digits 256 2 slot (omega arith) bl,
    all_of random rl,
  )

  -- Every id that `encode_with_fixed_random` makes, from a slot that is a u16 and 5 random bytes,
  -- decodes to what it was made from, the timestamp cut to whole seconds after the custom epoch.
  pub decode-encode_with_fixed_random :
      (site env : Text) (slot : ℕ) (timestamp : Time) (random : List ℕ) {seconds : ℕ} {id : Text}
      → slot < 65536
      → length random ≡ 5
      → All IsByte random
      → timestamp_seconds chrono timestamp ≡ ok seconds
      → encode_with_fixed_random chrono site env slot timestamp random ≡ ok id
      → decode chrono id
        ≡ ok (record {
          version = 1;
          site = site;
          env = env;
          timestamp = add_seconds custom_epoch seconds;
          broker_slot = slot;
          random = random;
        })
  unfolding encode_with_fixed_random decode
  decode-encode_with_fixed_random site env slot timestamp random {seconds} {id} sl rl rb te h =
      let (sp, se, h₁) = >>=-eq-ok (pack_tag site) _ h in
      let (ep, ee, h₂) = >>=-eq-ok (pack_tag env) _ h₁ in
      let text : encode_crockford_base32 (layout sp ep seconds slot random) ≡ id = cc in
      rw
        (
          ← text,
          decode-encode_crockford_base32 _ (layout-length sp ep seconds slot random rl)
              (layout-bytes sp ep seconds slot random rb),
        )
        (decode_packed-layout site env sp ep seconds slot random (unpack_tag-pack_tag site se)
          (pack_tag_lt site se) (unpack_tag-pack_tag env ee) (pack_tag_lt env ee)
          (timestamp_seconds_lt timestamp te) sl rl)

  decode_packed-ok :
      (p : List ℕ) {d : DecodedId chrono}
      → decode_packed chrono p ≡ ok d
      → (get_or p 0 0 ≡ 1)
        × (unpack_tag (from_be_bytes (slice 1 3 p)) ≡ ok d.site)
        × (unpack_tag (from_be_bytes (slice 3 5 p)) ≡ ok d.env)
        × (d.timestamp ≡ add_seconds custom_epoch (from_be_bytes (slice 5 9 p)))
        × (d.broker_slot ≡ from_be_bytes (slice 9 11 p))
        × (d.random ≡ slice 11 16 p)
  unfolding decode_packed
  decode_packed-ok p h =
      (ground arith, ground arith, ground arith, ground arith, ground arith, ground arith)

  -- The seconds of a decoded timestamp are those that the id holds.
  timestamp_seconds-add :
      (n : ℕ) → n < 2 ^ 32 → timestamp_seconds chrono (add_seconds custom_epoch n) ≡ ok n
  unfolding timestamp_seconds
  timestamp_seconds-add n h =
      rw (chrono.add_not_before custom_epoch n, chrono.num_seconds-add custom_epoch n, lt→ltb n _ h)

  seconds_fit : (p : List ℕ) → length p ≡ 16 → All IsByte p → from_be_bytes (slice 5 9 p) < 2 ^ 32
  seconds_fit
        (b0 ∷ b1 ∷ b2 ∷ b3 ∷ b4 ∷ b5 ∷ b6 ∷ b7 ∷ b8 ∷ b9 ∷ b10 ∷ b11 ∷ b12 ∷ b13 ∷ b14 ∷ b15 ∷ []) l
        h =
      from_digits_lt 256 0 (b5 ∷ b6 ∷ b7 ∷ b8 ∷ []) 1
        (h.1.1.1.1.1.0, (h.1.1.1.1.1.1.0, (h.1.1.1.1.1.1.1.0, (h.1.1.1.1.1.1.1.1.0, tt))))
        (omega arith)
  seconds_fit _ l h = absurd (omega arith)

  encode-fields :
      (p : List ℕ) (site env : Text)
      → length p ≡ 16
      → All IsByte p
      → get_or p 0 0 ≡ 1
      → unpack_tag (from_be_bytes (slice 1 3 p)) ≡ ok site
      → unpack_tag (from_be_bytes (slice 3 5 p)) ≡ ok env
      → encode_with_fixed_random chrono site env
          (from_be_bytes (slice 9 11 p))
          (add_seconds custom_epoch (from_be_bytes (slice 5 9 p)))
          (slice 11 16 p)
        ≡ ok (encode_crockford_base32 p)
  unfolding encode_with_fixed_random
  encode-fields p site env l h v su eu = rw (
    pack_tag-unpack_tag _ su,
    pack_tag-unpack_tag _ eu,
    timestamp_seconds-add _ (seconds_fit p l h),
    layout-slice p l h v,
  )

  -- An id that decodes is the id that its fields encode to: no two ids decode alike.
  pub encode_with_fixed_random-decode :
      (id : Text) {d : DecodedId chrono}
      → decode chrono id ≡ ok d
      → encode_with_fixed_random chrono d.site d.env d.broker_slot d.timestamp d.random ≡ ok id
  unfolding decode
  encode_with_fixed_random-decode id h =
      let (p, pe, h₁) = >>=-eq-ok (decode_crockford_base32 id) _ h in
      let (text, pl, pb) = encode-decode_crockford_base32 id pe in
      let (v, se, ee, te, be, re) = decode_packed-ok p h₁ in
      rw (te, be, re, encode-fields p _ _ pl pb v se ee) (ap ok text)
