-- ===== src/WorkerServer/Names.antt =====
-- A valid name of a pool is one segment of a path.
use bits_broker.Prelude.{
  ℕ, ◌==◌, true, false, Bool-cases, some, [], ◌∷◌, ◌++◌, ok, Text, All, ◌≡◌, refl, inl, inr, arith,
}
use bits_broker.WorkerServer.{
  is_ascii_alphanumeric, is_name_char, validate_chars, validate_pool_name, split_slash,
  extract_pool_and_rest, strip_slash,
}

abbrev pub NoSlash : Text → Type 0
NoSlash = All (λ c. (c == b'/') ≡ false)

is_name_char-no_slash : (c : ℕ) → is_name_char c ≡ true → (c == b'/') ≡ false
unfolding is_name_char is_ascii_alphanumeric
is_name_char-no_slash c h = ground arith

validate_chars-NoSlash : (name chars : Text) → validate_chars name chars ≡ ok tt → NoSlash chars
unfolding validate_chars
validate_chars-NoSlash name [] h = tt
validate_chars-NoSlash name (c ∷ chars) h = elim (Bool-cases (is_name_char c)) [
  | inl v ↦ (is_name_char-no_slash c v, validate_chars-NoSlash name chars (simp (v) at h))
  | inr v ↦ cc (simp (v) at h)
]

split_slash-name :
    (name rest : Text) → NoSlash name → split_slash (name ++ b'/' ∷ rest) ≡ some (name, b'/' ∷ rest)
unfolding split_slash
split_slash-name [] rest h = refl
split_slash-name (c ∷ name) rest h = simp (split_slash-name name rest h.1, h.0)

-- The name of a pool that passes, and the path behind it, are what a request's path is cut into.
pub extract_pool_and_rest-valid :
    (name rest : Text)
    → validate_pool_name name ≡ ok tt
    → extract_pool_and_rest (b'/' ∷ name ++ b'/' ∷ rest) ≡ (name, b'/' ∷ rest)
unfolding validate_pool_name extract_pool_and_rest strip_slash
extract_pool_and_rest-valid [] rest h = cc
extract_pool_and_rest-valid (c ∷ name) rest h = simp (
  extract_pool_and_rest,
  split_slash-name (c ∷ name) rest (validate_chars-NoSlash (c ∷ name) (c ∷ name) h),
)
