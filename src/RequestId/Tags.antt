-- ===== src/RequestId/Tags.antt =====
-- The base 37 packing of site and environment tags: `pack_tag` and `unpack_tag`.
use bits_broker.Prelude.{
  ℕ, ◌+◌, ◌*◌, ◌/◌, ◌%◌, ◌<◌, ◌≡◌, ap, ◌∙◌, ◌≢◌, List, [], ◌∷◌, arith, leb, ◌==◌, Result, false, ok,
  panic, ◌>>=◌, Text, Bool-cases, traverse, >>=-eq-ok, inl, inr, ◌∙◌, ap, ◌/◌,
}
use bits_broker.RequestId.{
  DecodeError, EncodeError, tag_char_value, value_char, is_sentinel, pack_digits, pack_tag,
  unpack_digits, unpack_tag, base37_max, position, any, fill_digits,
}

tag_char_value-ok : (ch : ℕ) {d : ℕ} → tag_char_value ch ≡ ok d → (value_char d ≡ ok ch) × (d < 36)
unfolding tag_char_value value_char
tag_char_value-ok ch h = (ground arith, ground arith)

value_char-ok : (d : ℕ) {ch : ℕ} → value_char d ≡ ok ch → (tag_char_value ch ≡ ok d) × (d < 36)
unfolding tag_char_value value_char
value_char-ok d h = (ground arith, ground arith)

value_char-total : (d : ℕ) → d < 36 → value_char d ≢ panic
unfolding value_char
value_char-total d h = ground arith

abbrev code : ℕ → ℕ → ℕ → ℕ
code a b c = a * 1369 + b * 37 + c

pack_digits-code :
    (a b c : ℕ) → a < 37 → b < 37 → c < 37 → pack_digits (a ∷ b ∷ c ∷ []) ≡ code a b c
unfolding pack_digits
pack_digits-code a b c p q r = omega arith

abbrev unpack_three : ℕ → ℕ → ℕ → Result DecodeError Text
unpack_three a b c = unpack_digits (a ∷ b ∷ c ∷ []) (position is_sentinel (a ∷ b ∷ c ∷ []))

unpack_tag-code :
    (a b c : ℕ) → a < 37 → b < 37 → c < 37 → unpack_tag (code a b c) ≡ unpack_three a b c
unfolding unpack_tag
unpack_tag-code a b c p q r = rw (low, first, second, third)
  where
    low : leb base37_max (code a b c) ≡ false
    low = ground arith

    first : code a b c / 1369 ≡ a
    first = omega arith

    second : (code a b c / 37) % 37 ≡ b
    second = omega arith

    third : code a b c % 37 ≡ c
    third = omega arith

-- The digits of the characters, in the places that the sentinel filled.
abbrev start : List ℕ
start = 36 ∷ 36 ∷ 36 ∷ []

-- A character of a tag that packs, with the digit that it becomes.
tag_char_value-bind {ℓ} :
    {B : Type ℓ} (ch : ℕ) (f : ℕ → Result EncodeError B) {b : B}
    → (tag_char_value ch >>= f) ≡ ok b
    → (d : ℕ) × (tag_char_value ch ≡ ok d) × (f d ≡ ok b) × (value_char d ≡ ok ch) × (d < 36)
tag_char_value-bind ch f h =
    let (d, e, g) = >>=-eq-ok (tag_char_value ch) f h in
    let (u, lt) = tag_char_value-ok ch e in (d, e, g, u, lt)

-- A tag that packs is the tag that its packed value unpacks to.
pub unpack_tag-pack_tag : (tag : Text) {v : ℕ} → pack_tag tag ≡ ok v → unpack_tag v ≡ ok tag
unfolding pack_tag position unpack_digits any
unpack_tag-pack_tag [] h = cc
unpack_tag-pack_tag (a ∷ []) h =
    let (ds, e, f) = >>=-eq-ok (fill_digits 0 (a ∷ []) start) _ h in
    let (x, _, g, xa, xlt) = tag_char_value-bind a _ e in
    ground (arith, unpack_tag-code x 36 36, pack_digits-code x 36 36)
unpack_tag-pack_tag (a ∷ b ∷ []) h =
    let (ds, e, f) = >>=-eq-ok (fill_digits 0 (a ∷ b ∷ []) start) _ h in
    let (x, _, e', xa, xlt) = tag_char_value-bind a _ e in
    let (y, _, g, yb, ylt) = tag_char_value-bind b _ e' in
    ground (arith, unpack_tag-code x y 36, pack_digits-code x y 36)
unpack_tag-pack_tag (a ∷ b ∷ c ∷ []) h =
    let (ds, e, f) = >>=-eq-ok (fill_digits 0 (a ∷ b ∷ c ∷ []) start) _ h in
    let (x, _, e', xa, xlt) = tag_char_value-bind a _ e in
    let (y, _, e'', yb, ylt) = tag_char_value-bind b _ e' in
    let (z, _, g, zc, zlt) = tag_char_value-bind c _ e'' in
    ground (arith, unpack_tag-code x y z, pack_digits-code x y z)
unpack_tag-pack_tag (a ∷ b ∷ c ∷ d ∷ r) h = ground arith

value_char-bind {ℓ} :
    {B : Type ℓ} (d : ℕ) (f : ℕ → Result DecodeError B) {b : B}
    → (value_char d >>= f) ≡ ok b
    → (ch : ℕ) × (value_char d ≡ ok ch) × (f ch ≡ ok b) × (tag_char_value ch ≡ ok d) × (d < 36)
value_char-bind d f h =
    let (ch, e, g) = >>=-eq-ok (value_char d) f h in
    let (u, lt) = value_char-ok d e in (ch, e, g, u, lt)

traverse_one :
    (a : ℕ) {t : Text}
    → traverse value_char (a ∷ []) ≡ ok t
    → (x : ℕ) × (t ≡ x ∷ []) × (tag_char_value x ≡ ok a)
traverse_one a h = let (x, _, g, xa, _) = value_char-bind a _ h in (x, cc, xa)

traverse_two :
    (a b : ℕ) {t : Text}
    → traverse value_char (a ∷ b ∷ []) ≡ ok t
    → (x y : ℕ) × (t ≡ x ∷ y ∷ []) × (tag_char_value x ≡ ok a) × (tag_char_value y ≡ ok b)
traverse_two a b h =
    let (x, _, g, xa, _) = value_char-bind a _ h in
    let (ys, e, k) = >>=-eq-ok (traverse value_char (b ∷ [])) _ g in
    let (y, ye, yb) = traverse_one b e in (x, y, cc, xa, yb)

traverse_three :
    (a b c : ℕ) {t : Text}
    → traverse value_char (a ∷ b ∷ c ∷ []) ≡ ok t
    → (x y z : ℕ) × (t ≡ x ∷ y ∷ z ∷ [])
      × (tag_char_value x ≡ ok a)
      × (tag_char_value y ≡ ok b)
      × (tag_char_value z ≡ ok c)
traverse_three a b c h =
    let (x, _, g, xa, _) = value_char-bind a _ h in
    let (ys, e, k) = >>=-eq-ok (traverse value_char (b ∷ c ∷ [])) _ g in
    let (y, z, ye, yb, zc) = traverse_two b c e in (x, y, z, cc, xa, yb, zc)

pack_tag-unpack_three :
    (a b c : ℕ) {t : Text}
    → a < 37
    → b < 37
    → c < 37
    → unpack_three a b c ≡ ok t
    → pack_tag t ≡ ok (code a b c)
unfolding pack_tag fill_digits position unpack_digits any
pack_tag-unpack_three a b c p q r h = elim (Bool-cases (a == 36)) [
  | inl a36 ↦ ground arith
  | inr a_ne ↦ elim (Bool-cases (b == 36)) [
    | inl b36 ↦ elim (Bool-cases (c == 36)) [
      | inl c36 ↦
          let (x, e, xa) = traverse_one a (rw (a_ne, b36, c36) at h) in
          rw e (ground (arith, pack_digits-code a 36 36))
      | inr c_ne ↦ ground arith
    ]
    | inr b_ne ↦ elim (Bool-cases (c == 36)) [
      | inl c36 ↦
          let (x, y, e, xa, yb) = traverse_two a b (rw (a_ne, b_ne, c36) at h) in
          rw e (ground (arith, pack_digits-code a b 36))
      | inr c_ne ↦
          let (x, y, z, e, xa, yb, zc) = traverse_three a b c (rw (a_ne, b_ne, c_ne) at h) in
          rw e (ground (arith, pack_digits-code a b c))
    ]
  ]
]

unpack_tag_small :
    (v : ℕ) {tag : Text}
    → unpack_tag v ≡ ok tag
    → (v < 50653) × (unpack_three (v / 1369) ((v / 37) % 37) (v % 37) ≡ ok tag)
unfolding unpack_tag
unpack_tag_small v h = elim (Bool-cases (leb base37_max v)) [
  | inl big ↦ ground arith
  | inr small ↦ (ground arith, rw small at h)
]

-- A packed value that unpacks is the one that its tag packs to: no two values stand for one tag.
pub pack_tag-unpack_tag : (v : ℕ) {tag : Text} → unpack_tag v ≡ ok tag → pack_tag tag ≡ ok v
pack_tag-unpack_tag v h =
    let (small, e) = unpack_tag_small v h in
    pack_tag-unpack_three _ _ _ (omega arith) (omega arith) (omega arith) e ∙ ap ok (omega arith)

unpack_three-ne-panic : (a b c : ℕ) → a < 37 → b < 37 → c < 37 → unpack_three a b c ≢ panic
unfolding position unpack_digits any value_char
unpack_three-ne-panic a b c p q r = ground arith

-- The `unreachable!` arm of `value_char` is never reached from `unpack_tag`, whatever the value.
pub unpack_tag-ne-panic : (v : ℕ) → unpack_tag v ≢ panic
unfolding unpack_tag
unpack_tag-ne-panic v = elim (Bool-cases (leb base37_max v)) [
  | inl big ↦ ground arith
  | inr small ↦ rw small (
      unpack_three-ne-panic (v / 1369) ((v / 37) % 37) (v % 37) (ground arith) (omega arith)
        (omega arith))
]
