-- ===== src/RequestId/Digits.antt =====
-- Positional digits: the integer of a digit list, and the big-endian bytes of an integer.
use bits_broker.Prelude.{
  ℕ, zero, suc, ◌+◌, ◌*◌, ◌/◌, ◌%◌, ◌^◌, ◌≤◌, ◌<◌, ◌≡◌, refl, sym, ap, ◌∙◌, List, [], ◌∷◌, ◌++◌,
  arith, All, length, length-append, All-append,
}
use native.Mathlib.Nat.{
  div-eq_of_lt, mul-add-div_right, mul_assoc, one-mul, pow-zero, pow-suc, pow-succ', mod-lt,
  div-add-mod', div-lt_iff_lt-mul,
}
use bits_broker.RequestId.{from_digits, to_digits}

pub from_digits-append :
    (b v : ℕ) (xs ys : List ℕ) → from_digits b v (xs ++ ys) ≡ from_digits b (from_digits b v xs) ys
unfolding from_digits
from_digits-append b v [] ys = refl
from_digits-append b v (x ∷ xs) ys = from_digits-append b (v * b + x) xs ys

pub le-from_digits : (b v : ℕ) (xs : List ℕ) → 0 < b → v ≤ from_digits b v xs
unfolding from_digits
le-from_digits b v [] h = omega arith
le-from_digits b v (x ∷ xs) h = grind (arith, le-from_digits b (v * b + x) xs)

quotient_unique : (b v x : ℕ) → x < b → (v * b + x) / b ≡ v
quotient_unique b v x h =
    omega (arith, mul-add-div_right {m = b} (omega arith) v x, div-eq_of_lt {n = x} {m = b} h)

pub digit_unique : (b v w x y : ℕ) → x < b → y < b → v * b + x ≡ w * b + y → (v ≡ w) × (x ≡ y)
digit_unique b v w x y p q e = (same, omega (arith, ap (λ (t : ℕ). t * b) same))
  where
    same : v ≡ w
    same = sym (quotient_unique b v x p) ∙ ap (λ (t : ℕ). t / b) e ∙ quotient_unique b w y q

-- A digit list is determined by its length and its integer.
pub from_digits_injective :
    (b v w : ℕ) (xs ys : List ℕ)
    → length xs ≡ length ys
    → All (λ x. x < b) xs
    → All (λ y. y < b) ys
    → from_digits b v xs ≡ from_digits b w ys
    → (v ≡ w) × (xs ≡ ys)
unfolding from_digits
from_digits_injective b v w [] [] l p q e = (e, refl)
from_digits_injective b v w [] (y ∷ ys) l p q e = absurd (omega arith)
from_digits_injective b v w (x ∷ xs) [] l p q e = absurd (omega arith)
from_digits_injective b v w (x ∷ xs) (y ∷ ys) l p q e =
    let r = from_digits_injective b (v * b + x) (w * b + y) xs ys (omega arith) p.1 q.1 e in
    let d = digit_unique b v w x y p.0 q.0 r.0 in (d.0, cc)

pub length-to_digits : (b n v : ℕ) → length (to_digits b n v) ≡ n
unfolding to_digits
length-to_digits b zero v = refl
length-to_digits b (suc n) v =
    omega (arith, length-append (to_digits b n (v / b)) (v % b ∷ []), length-to_digits b n (v / b))

pub to_digits-All : (b n v : ℕ) → 0 < b → All (λ d. d < b) (to_digits b n v)
unfolding to_digits
to_digits-All b zero v h = tt
to_digits-All b (suc n) v h = All-append _ _ _ (to_digits-All b n (v / b) h) (mod-lt v h, tt)

-- The digits of an integer that fits give it back.
pub from_digits-to_digits : (b n v : ℕ) → 0 < b → v < b ^ n → from_digits b 0 (to_digits b n v) ≡ v
unfolding to_digits from_digits
from_digits-to_digits b zero v p h = omega (arith, pow-zero b)
from_digits-to_digits b (suc n) v p h =
    from_digits-append b 0 (to_digits b n (v / b)) (v % b ∷ [])
    ∙ ap (λ (t : ℕ). t * b + v % b)
        (from_digits-to_digits b n (v / b) p
          ((div-lt_iff_lt-mul {k = b} {x = v} {y = b ^ n} p).1 (rw (pow-suc b n) at h)))
    ∙ div-add-mod' v b

pub from_digits_lt :
    (b v : ℕ) (xs : List ℕ) (k : ℕ)
    → All (λ x. x < b) xs
    → v < k
    → from_digits b v xs < k * b ^ length xs
unfolding from_digits
from_digits_lt b v [] k p h = rw (pow-zero b) (omega arith)
from_digits_lt b v (x ∷ xs) k p h =
    rw (pow-succ' b (length xs), ← mul_assoc k b (b ^ length xs))
      (from_digits_lt b (v * b + x) xs (k * b) p.1 (grind arith))

-- A list of n digits comes back from its integer.
pub to_digits-from_digits :
    (b : ℕ) (xs : List ℕ)
    → 0 < b
    → All (λ d. d < b) xs
    → to_digits b (length xs) (from_digits b 0 xs) ≡ xs
to_digits-from_digits b xs p q =
    (from_digits_injective b 0 0 _ xs (length-to_digits b (length xs) _)
      (to_digits-All b (length xs) _ p) q
      (from_digits-to_digits b (length xs) _ p
        (rw one-mul at (from_digits_lt b 0 xs 1 q (omega arith))))).1
