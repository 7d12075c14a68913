-- ===== src/Store/Keys.antt =====
-- The key of a job in the store: it is the job's own, so the map of jobs is a map of job ids.
use bits_broker.Prelude.{
  ◌≡◌, sym, ap, ◌∙◌, [], ◌∷◌, ◌++◌, arith, ok, >>=-eq-ok, Text, length, length-append, Bool-cases,
  map_err, map_err-ok, inl, inr, ==_iff, ◌==◌,
}
use mathlib.Core.List.{append_assoc}
use bits_broker.RequestId.{Chrono, DecodedId, decode, decode_crockford_base32}
use bits_broker.Store.{memory_job_key, key_of, display_u16}

append_right_injective : (xs ys a b : Text) → length a ≡ length b → xs ++ a ≡ ys ++ b → a ≡ b
append_right_injective [] [] a b l e = e
append_right_injective [] (y ∷ ys) a b l e = absurd (omega (arith, ap length e, length-append ys b))
append_right_injective (x ∷ xs) [] a b l e = absurd (omega (arith, ap length e, length-append xs a))
append_right_injective (x ∷ xs) (y ∷ ys) a b l e = append_right_injective xs ys a b l (cc)

module _ (chrono : Chrono) where
  -- An id that decodes has 26 characters.
  decode-length : (id : Text) {d : DecodedId chrono} → decode chrono id ≡ ok d → length id ≡ 26
  unfolding decode decode_crockford_base32
  decode-length id h = elim (Bool-cases (length id == 26)) [
    | inl full ↦ (==_iff _ _).0 full
    | inr other ↦ cc (rw other at h)
  ]

  memory_job_key-ok :
      (id : Text) {key : Text}
      → memory_job_key chrono id ≡ ok key
      → (length id ≡ 26) × (front : Text) × (key ≡ front ++ id)
  unfolding memory_job_key key_of
  memory_job_key-ok id h =
      let (d, e, f) = >>=-eq-ok (map_err _ (decode chrono id)) _ h in
      let number = display_u16 d.broker_slot in
      (
        decode-length id (map_err-ok _ _ e),
        d.site ++ b'/' ∷ d.env ++ b'/' ∷ number ++ b'/' ∷ [],
        simp append_assoc (cc),
      )

  -- Two job ids with one key are one id.
  pub memory_job_key_injective :
      (id id' : Text) {key : Text}
      → memory_job_key chrono id ≡ ok key
      → memory_job_key chrono id' ≡ ok key
      → id ≡ id'
  memory_job_key_injective id id' h h' =
      let (l, front, e) = memory_job_key-ok id h in
      let (l', front', e') = memory_job_key-ok id' h' in
      append_right_injective front front' id id' (l ∙ sym l') (sym e ∙ e')
