-- ===== src/RequestId/Base32.antt =====
-- The base 32 text of the 16 bytes: `encode_crockford_base32` and `decode_crockford_base32`.
use bits_broker.Prelude.{
  ℕ, zero, suc, ◌+◌, ◌*◌, ◌/◌, ◌%◌, ◌<◌, ◌≡◌, refl, ap, ◌∙◌, List, [], ◌∷◌, ◌++◌, arith, ltb, ◌==◌,
  Bool, true, false, ◌&&◌, Option, none, some, Option-cases, Bool-cases, inl, inr, ok_or-ok, ==_iff,
  sym, length-map, map, ok, Text, >>=-eq-ok, ok_or, length, get_or, All,
}
use mathlib.Core.List.{map-append, append_assoc, append-nil}
use bits_broker.RequestId.Digits.{
  le-from_digits, from_digits_lt, length-to_digits, to_digits-All, from_digits-to_digits,
  to_digits-from_digits,
}
use bits_broker.RequestId.{
  from_be_bytes, crockford_alphabet, crockford_value, position, checked_mul_add, decode_places,
  encode_places, encode_crockford_base32, decode_crockford_base32, from_digits, to_digits, u128_mod,
}

-- The character of a digit.
abbrev char : ℕ → ℕ
char d = get_or crockford_alphabet d 0

passes_to : (ℕ → Bool) → ℕ → Bool
passes_to test zero = true
passes_to test (suc top) = passes_to test top && test top

passes_to-at : (test : ℕ → Bool) (top d : ℕ) → d < top → passes_to test top ≡ true → test d ≡ true
unfolding passes_to
passes_to-at test zero d below h = absurd (omega arith)
passes_to-at test (suc top) d below h = ground (arith, passes_to-at test top d)

abbrev holds : Option ℕ → ℕ → Bool
holds none d = false
holds (some i) d = i == d

crockford_value_table : passes_to (λ d. holds (crockford_value (char d)) d) 32 ≡ true
unfolding passes_to crockford_value
crockford_value_table = refl

crockford_value-char : (d : ℕ) → d < 32 → crockford_value (char d) ≡ some d
crockford_value-char d h =
    ground
      (arith, passes_to-at (λ c. holds (crockford_value (char c)) c) 32 d h crockford_value_table)

position_sound :
    (ch : ℕ) (xs : List ℕ) {i : ℕ}
    → position (λ c. c == ch) xs ≡ some i
    → (i < length xs) × (get_or xs i 0 ≡ ch)
unfolding position
position_sound ch [] h = cc
position_sound ch (x ∷ xs) h = elim (Option-cases (position (λ c. c == ch) xs)) [
  | inl e ↦ ground arith
  | inr (j, e) ↦ let later = position_sound ch xs e in ground arith
]

crockford_value-some : (ch : ℕ) {d : ℕ} → crockford_value ch ≡ some d → (d < 32) × (char d ≡ ch)
unfolding crockford_value
crockford_value-some ch h = elim (Bool-cases (ltb ch 128)) [
  | inl ascii ↦ position_sound ch crockford_alphabet (rw ascii at h)
  | inr other ↦ cc (rw other at h)
]

checked_mul_add-fits : (v d : ℕ) → v * 32 + d < u128_mod → checked_mul_add v d ≡ some (v * 32 + d)
unfolding checked_mul_add
checked_mul_add-fits v d h = ground arith

checked_mul_add-some :
    (v d : ℕ) {n : ℕ} → checked_mul_add v d ≡ some n → (n ≡ v * 32 + d) × (n < u128_mod)
unfolding checked_mul_add
checked_mul_add-some v d h = (ground arith, ground arith)

-- The loop writes the digits of the value in front of what is there.
encode_places_lem :
    (n v : ℕ) (acc : Text) → encode_places n v acc ≡ map char (to_digits 32 n v) ++ acc
unfolding encode_places to_digits
encode_places_lem zero v acc = refl
encode_places_lem (suc n) v acc =
    rw (map-append, append_assoc) (encode_places_lem n (v / 32) (char (v % 32) ∷ acc))

-- Reading the digits accumulates their value, as long as that fits in 128 bits.
decode_places-map :
    (ds : List ℕ) (v : ℕ)
    → All (λ d. d < 32) ds
    → from_digits 32 v ds < u128_mod
    → decode_places v (map char ds) ≡ ok (from_digits 32 v ds)
unfolding decode_places from_digits
decode_places-map [] v p h = refl
decode_places-map (d ∷ ds) v p h =
    let next = le-from_digits 32 (v * 32 + d) ds (omega arith) in
    rw (crockford_value-char d p.0, checked_mul_add-fits v d (omega arith))
      (decode_places-map ds (v * 32 + d) p.1 h)

decode_places-ok :
    (id : Text) (v : ℕ) {w : ℕ}
    → v < u128_mod
    → decode_places v id ≡ ok w
    → (ds : List ℕ) × (id ≡ map char ds)
      × All (λ d. d < 32) ds
      × (w ≡ from_digits 32 v ds)
      × (w < u128_mod)
unfolding decode_places from_digits
decode_places-ok [] v lt h = ([], refl, tt, ground arith, ground arith)
decode_places-ok (ch ∷ id) v lt h =
    let (d, e, g) = >>=-eq-ok (ok_or (crockford_value ch) _) _ h in
    let (n, e', g') = >>=-eq-ok (ok_or (checked_mul_add v d) _) _ g in
    let (small, chr) = crockford_value-some ch (ok_or-ok _ _ e) in
    let (value, fits) = checked_mul_add-some v d (ok_or-ok _ _ e') in
    let (ds, ids, low, w, lt') = decode_places-ok id n fits g' in
    (d ∷ ds, cc, (small, low), rw value at w, lt')

encode_text :
    (packed : List ℕ)
    → encode_crockford_base32 packed ≡ map char (to_digits 32 26 (from_be_bytes packed))
unfolding encode_crockford_base32
encode_text packed = encode_places_lem 26 (from_be_bytes packed) [] ∙ append-nil _

decode_text :
    (ds : List ℕ)
    → length ds ≡ 26
    → All (λ d. d < 32) ds
    → from_digits 32 0 ds < u128_mod
    → decode_crockford_base32 (map char ds) ≡ ok (to_digits 256 16 (from_digits 32 0 ds))
unfolding decode_crockford_base32
decode_text ds l p h = rw (length-map ds char, l, decode_places-map ds 0 p h)

-- The text of 16 bytes reads back to them.
pub decode-encode_crockford_base32 :
    (packed : List ℕ)
    → length packed ≡ 16
    → All (λ b. b < 256) packed
    → decode_crockford_base32 (encode_crockford_base32 packed) ≡ ok packed
decode-encode_crockford_base32 packed l bytes = rw (encode_text packed) (
    decode_text _ (length-to_digits 32 26 value) (to_digits-All 32 26 value (omega arith))
      (rw same small)
    ∙ ap (λ (v : ℕ). ok (to_digits 256 16 v)) same
    ∙ ap ok (rw l at (to_digits-from_digits 256 packed (omega arith) bytes)))
  where
    value : ℕ
    value = from_be_bytes packed

    small : value < u128_mod
    small = rw l at (from_digits_lt 256 0 packed 1 bytes (omega arith))

    same : from_digits 32 0 (to_digits 32 26 value) ≡ value
    same = from_digits-to_digits 32 26 value (omega arith) (omega (arith, small))

-- A text that reads as 16 bytes is the text of those bytes: no two texts stand for one value.
pub encode-decode_crockford_base32 :
    (id : Text) {packed : List ℕ}
    → decode_crockford_base32 id ≡ ok packed
    → (encode_crockford_base32 packed ≡ id) × (length packed ≡ 16) × All (λ b. b < 256) packed
unfolding decode_crockford_base32
encode-decode_crockford_base32 id {packed} h = elim (Bool-cases (length id == 26)) [
  | inr other ↦ cc (rw other at h)
  | inl full ↦
      let (value, e, f) = >>=-eq-ok (decode_places 0 id) _ (rw full at h) in
      let (ds, ids, small, w, lt) = decode_places-ok id 0 (omega arith) e in
      let count : length ds ≡ 26 =
        omega (arith, length-map ds char, ap length ids, (==_iff (length id) 26).0 full) in
      let bytes : packed ≡ to_digits 256 16 value = cc in
      rw bytes (
        encode_text _
            ∙ ap (λ (v : ℕ). map char (to_digits 32 26 v))
                (from_digits-to_digits 256 16 value (omega arith) lt ∙ w)
            ∙ ap (map char) (rw count at (to_digits-from_digits 32 ds (omega arith) small))
            ∙ sym ids,
        length-to_digits 256 16 value,
        to_digits-All 256 16 value (omega arith),
      )
]
