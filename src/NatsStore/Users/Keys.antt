-- ===== src/NatsStore/Users/Keys.antt =====
-- The key of a user's slot names the scope, the user and the job, whatever characters they have.
use bits_broker.Prelude.{
  ℕ, ◌/◌, ◌%◌, ◌<◌, ◌==◌, ◌&&◌, not, Bool, true, false, All, List, [], ◌∷◌, ◌++◌, Text, ◌≡◌, refl,
  arith,
}
use bits_broker.NatsStore.Users.{Bytes, hex_digit, hex_bytes, hex_token, user_slot_key}

has_no_dot : Text → Bool
has_no_dot [] = true
has_no_dot (c ∷ cs) = not (c == b'.') && has_no_dot cs

hex_digit_injective : (m n : ℕ) → m < 16 → n < 16 → hex_digit m ≡ hex_digit n → m ≡ n
unfolding hex_digit
hex_digit_injective m n hm hn e = ground (arith, hm, hn, e)

hex_digit-dot : (n : ℕ) → n < 16 → (hex_digit n == b'.') ≡ false
unfolding hex_digit
hex_digit-dot n h = ground arith

hex_bytes-no_dot : (bs : List ℕ) → All (λ b. b < 256) bs → has_no_dot (hex_bytes bs) ≡ true
unfolding hex_bytes has_no_dot
hex_bytes-no_dot [] small = refl
hex_bytes-no_dot (b ∷ bs) small =
    let high = hex_digit-dot (b / 16) (omega (arith, small.0)) in
    let low = hex_digit-dot (b % 16) (omega arith) in
    ground (arith, high, low, hex_bytes-no_dot bs small.1)

hex_bytes_injective :
    (bs cs : List ℕ)
    → All (λ b. b < 256) bs
    → All (λ b. b < 256) cs
    → hex_bytes bs ≡ hex_bytes cs
    → bs ≡ cs
unfolding hex_bytes
hex_bytes_injective [] [] hb hc e = refl
hex_bytes_injective [] (c ∷ cs) hb hc e = absurd (cc)
hex_bytes_injective (b ∷ bs) [] hb hc e = absurd (cc)
hex_bytes_injective (b ∷ bs) (c ∷ cs) hb hc e =
    let high =
      hex_digit_injective (b / 16) (c / 16) (omega (arith, hb.0)) (omega (arith, hc.0)) (cc) in
    let low = hex_digit_injective (b % 16) (c % 16) (omega arith) (omega arith) (cc) in
    let same : b ≡ c = omega (arith, high, low) in
    let rest = hex_bytes_injective bs cs hb.1 hc.1 (cc) in cc

uncons : (c : ℕ) (x y : Text) → c ∷ x ≡ c ∷ y → x ≡ y
uncons c x y e = cc

-- Two tokens without a dot, each before a dot.
split_dot :
    (a b x y : Text)
    → has_no_dot a ≡ true
    → has_no_dot b ≡ true
    → a ++ b'.' ∷ x ≡ b ++ b'.' ∷ y
    → (a ≡ b) × (x ≡ y)
unfolding has_no_dot
split_dot [] [] x y ha hb e = (refl, cc)
split_dot [] (d ∷ b) x y ha hb e = let head : b'.' ≡ d = cc in absurd (ground (arith, head, hb))
split_dot (c ∷ a) [] x y ha hb e = let head : c ≡ b'.' = cc in absurd (ground (arith, head, ha))
split_dot (c ∷ a) (d ∷ b) x y ha hb e =
    let head : c ≡ d = cc in
    let (same, rest) = split_dot a b x y (ground (arith, ha)) (ground (arith, hb)) (cc) in
    (cc, rest)

module _ (utf8 : Bytes) where
  hex_token_injective : (s t : Text) → hex_token utf8 s ≡ hex_token utf8 t → s ≡ t
  unfolding hex_token
  hex_token_injective s t e = utf8.bytes_injective s t (
      hex_bytes_injective (utf8.bytes s) (utf8.bytes t) (utf8.bytes_small s) (utf8.bytes_small t) e)

  hex_token-no_dot : (s : Text) → has_no_dot (hex_token utf8 s) ≡ true
  unfolding hex_token
  hex_token-no_dot s = hex_bytes-no_dot (utf8.bytes s) (utf8.bytes_small s)

  -- Slots with one key are of one scope, one user and one job.
  pub user_slot_key_injective :
      (scope user job_id scope' user' job_id' : Text)
      → user_slot_key utf8 scope user job_id ≡ user_slot_key utf8 scope' user' job_id'
      → (scope ≡ scope') × (user ≡ user') × (job_id ≡ job_id')
  unfolding user_slot_key
  user_slot_key_injective scope user job_id scope' user' job_id' e =
      let (s, rest) =
        split_dot (hex_token utf8 scope) (hex_token utf8 scope') _ _ (hex_token-no_dot scope)
          (hex_token-no_dot scope') (uncons b'.' _ _ (uncons b'l' _ _ (uncons b'u' _ _ e))) in
      let (u, j) =
        split_dot (hex_token utf8 user) (hex_token utf8 user') _ _ (hex_token-no_dot user)
          (hex_token-no_dot user') rest in
      (
        hex_token_injective scope scope' s,
        hex_token_injective user user' u,
        hex_token_injective job_id job_id' j,
      )
