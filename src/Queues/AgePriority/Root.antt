-- ===== src/Queues/AgePriority/Root.antt =====
-- The integer root: the loop ends, and its result is the root rounded down.
use bits_broker.Prelude.{
  ℕ, zero, suc, ◌+◌, ◌-◌, ◌*◌, ◌/◌, ◌^◌, ◌≤◌, ◌<◌, true, false, ◌≡◌, refl, inl, inr, ok, ltb,
  Bool-cases, ltb→lt, ◌∙◌, arith,
}
use bits_broker.Store.{u64_mod}
use bits_broker.Queues.AgePriority.{estimate, newton, integer_sqrt, max_1}

square_of_sum : (a d : ℕ) → 4 * (a * (a + d)) ≤ (a + (a + d)) * (a + (a + d))
square_of_sum a d = grind arith

-- Four times a product is at most the square of the sum.
product_below_square : (a b : ℕ) → 4 * (a * b) ≤ (a + b) * (a + b)
product_below_square a b = elim (Bool-cases (ltb a b)) [
  | inl less ↦ let e : b ≡ a + (b - a) = ground arith in rw e (square_of_sum a (b - a))
  | inr other ↦
      let e : a ≡ b + (a - b) = ground arith in rw e (grind (arith, square_of_sum b (a - b)))
]

square_mono : (a b : ℕ) → a ≤ b → a * a ≤ b * b
square_mono a b h = grind arith

-- The mean of a number and of the quotient by it is not below the root.
mean_above : (n x q y : ℕ) → n < (q + 1) * x → x + q ≤ 2 * y + 1 → n < (y + 1) * (y + 1)
mean_above n x q y h k =
    grind (arith, product_below_square (q + 1) x, square_mono (q + 1 + x) (2 * y + 2) (omega arith))

square_above : (n y : ℕ) → n ≤ 2 * y → n < (y + 1) * (y + 1)
square_above n y h = grind arith

quotient_above : (n x : ℕ) → 0 < x → n < (n / x + 1) * x
quotient_above n x h = grind arith

quotient-le : (n x : ℕ) → n / x ≤ n
quotient-le n zero = omega arith
quotient-le n (suc x) = grind arith

not_above : (n x : ℕ) → 0 < x → x ≤ (x + n / x) / 2 → x * x ≤ n
not_above n x h k = grind arith

-- `r` is the root, rounded down.
abbrev pub IsRoot : ℕ → ℕ → Type 0
IsRoot n r = (r * r ≤ n) × (n < (r + 1) * (r + 1))

estimate_ok : (n x : ℕ) → n < u64_mod → 0 < x → x ≤ n → estimate n x ≡ ok ((x + n / x) / 2)
unfolding estimate
estimate_ok n x w p h = ground (arith, quotient-le n x)

newton_stays : (fuel n x y : ℕ) → ltb y x ≡ false → newton (suc fuel) n x y ≡ ok x
unfolding newton
newton_stays fuel n x y e = rw (newton, e) refl

newton_goes :
    (fuel n x y : ℕ)
    → ltb y x ≡ true
    → n < u64_mod
    → 0 < y
    → y ≤ n
    → newton (suc fuel) n x y ≡ newton fuel n y ((y + n / y) / 2)
unfolding newton
newton_goes fuel n x y e w p h = rw (newton, e, estimate_ok n y w p h) refl

-- The next value is positive, since the quotient of a smaller positive number is.
mean_pos : (n x : ℕ) → 0 < x → x ≤ n → 0 < (x + n / x) / 2
mean_pos n x p h = grind (arith, quotient_above n x p)

newton-IsRoot :
    (fuel n x : ℕ)
    → n < u64_mod
    → 0 < x
    → x ≤ n
    → x < fuel
    → n < (x + 1) * (x + 1)
    → (r : ℕ) × (newton fuel n x ((x + n / x) / 2) ≡ ok r) × IsRoot n r × (0 < r)
newton-IsRoot zero n x w p below f above = elim f [ ]
newton-IsRoot (suc fuel) n x w p below f above =
    let y = (x + n / x) / 2 in
    elim (Bool-cases (ltb y x)) [
      | inl down ↦
          let smaller : y < x = ltb→lt y x down in
          let (r, e, root, q) =
            newton-IsRoot fuel n y w (mean_pos n x p below) (omega arith) (omega arith)
              (mean_above n x (n / x) y (quotient_above n x p) (omega arith)) in
          (r, newton_goes fuel n x y down w (mean_pos n x p below) (omega arith) ∙ e, root, q)
      | inr stay ↦ (x, newton_stays fuel n x y stay, (not_above n x p (ground arith), above), p)
    ]

start_above : (n : ℕ) → n < ((n + 1) / 2 + 1) * ((n + 1) / 2 + 1)
start_above n = square_above n ((n + 1) / 2) (omega arith)

newton_from_value :
    (n : ℕ)
    → 0 < n
    → n < u64_mod
    → (r : ℕ) × (newton (suc n) n n ((n + 1) / 2) ≡ ok r) × IsRoot n r × (0 < r)
newton_from_value n p w =
    let y = (n + 1) / 2 in
    elim (Bool-cases (ltb y n)) [
      | inl down ↦
          let smaller : y < n = ltb→lt y n down in
          let (r, e, root, q) =
            newton-IsRoot n n y w (omega arith) (omega arith) (omega arith) (start_above n) in
          (r, newton_goes n n n y down w (omega arith) (omega arith) ∙ e, root, q)
      | inr stay ↦
          let one : n ≡ 1 = ground arith in
          (n, newton_stays n n n y stay, (rw one (omega arith), rw one (omega arith)), p)
    ]

integer_sqrt-newton :
    (n r : ℕ) → newton (suc n) n n ((n + 1) / 2) ≡ ok r → 0 < r → integer_sqrt n ≡ r
unfolding integer_sqrt
integer_sqrt-newton n zero e p = elim p [ ]
integer_sqrt-newton n (suc r) e p = rw (integer_sqrt, e) refl

square_grows : (r : ℕ) → 2 ^ 32 ≤ r → 2 ^ 64 ≤ r * r
square_grows r h = grind arith

root_bounds : (n r : ℕ) → 0 < n → n < u64_mod → IsRoot n r → (0 < r) × (r < 2 ^ 32)
root_bounds n zero p w root = (omega (arith, root.1), omega arith)
root_bounds n (suc r) p w root = (
  omega arith,
  elim (Bool-cases (ltb (suc r) (2 ^ 32))) [
    | inl small ↦ ltb→lt (suc r) (2 ^ 32) small
    | inr large ↦ omega (arith, square_grows (suc r) (ground arith), root.0)
  ],
)

-- The loop of `integer_sqrt` ends for every cost from 1 below 2 ^ 64, after at most one round more
-- than the value, with no division by zero and no sum that does not fit 128 bits; and the result is
-- the root of the value, rounded down.
pub integer_sqrt_floor :
    (value : ℕ)
    → 0 < value
    → value < u64_mod
    → (newton (suc value) value value ((value + 1) / 2) ≡ ok (integer_sqrt value))
      × IsRoot value (integer_sqrt value)
integer_sqrt_floor value p w =
    let (r, e, root, q) = newton_from_value value p w in
    rw (integer_sqrt-newton value r e q) (e, root)

-- The divisor of a cost: its root, at least 1, and below 2 ^ 32.
pub integer_sqrt-max_1 :
    (cost : ℕ)
    → cost < u64_mod
    → (0 < integer_sqrt (max_1 cost)) × (integer_sqrt (max_1 cost) < 2 ^ 32)
integer_sqrt-max_1 zero w =
    root_bounds 1 (integer_sqrt 1) (omega arith) (omega arith)
      (integer_sqrt_floor 1 (omega arith) (omega arith)).1
integer_sqrt-max_1 (suc n) w =
    root_bounds (suc n) (integer_sqrt (suc n)) (omega arith) w
      (integer_sqrt_floor (suc n) (omega arith) w).1
