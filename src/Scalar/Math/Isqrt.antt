-- ===== src/Scalar/Math/Isqrt.antt =====
-- `mux_math_isqrt` of src/math.rs: the loop ends within its fuel, with the floor of the root.
use mux_runtime.Common.{
  ℕ, zero, suc, ◌+◌, ◌-◌, ◌*◌, ◌/◌, ◌^◌, ◌≤◌, ◌<◌, ◌≡◌, ◌∙◌, refl, arith, Option, some, leb, min,
  Bool-cases, inl, inr, false, leb→le, ap, ◌==◌,
}
use mux_runtime.Common.Int.{pos}
use native.Mathlib.Nat.{pow-suc, mul_comm}
use mux_runtime.Scalar.Math.{isqrt_loop, isqrt, or_zero}

le_div : (m v : ℕ) → 0 < m → m ≤ v / m → m * m ≤ v
le_div m v h k = grind arith

lt_div : (m v : ℕ) → 0 < m → v / m < m → v < m * m
lt_div m v h k = grind arith

half_up :
    (fuel low high : ℕ)
    → high + 1 - low < 2 ^ suc fuel
    → high + 1 - (low + (high - low) / 2 + 1) < 2 ^ fuel
half_up fuel low high h =
    let e : 2 ^ suc fuel ≡ 2 * 2 ^ fuel = pow-suc 2 fuel ∙ mul_comm (2 ^ fuel) 2 in omega (arith, e)

half_down :
    (fuel low high : ℕ)
    → 0 < low
    → high + 1 - low < 2 ^ suc fuel
    → low + (high - low) / 2 - 1 + 1 - low < 2 ^ fuel
half_down fuel low high p h =
    let e : 2 ^ suc fuel ≡ 2 * 2 ^ fuel = pow-suc 2 fuel ∙ mul_comm (2 ^ fuel) 2 in omega (arith, e)

-- The root lies between the answer and `high`.
abbrev Between : ℕ → ℕ → ℕ → ℕ → Type 0
Between v low high answer =
    (answer + 1 ≡ low) × (low ≤ high + 1) × (answer * answer ≤ v) × (v < (high + 1) * (high + 1))

abbrev Root : ℕ → Option ℕ → Type 0
Root v o = (r : ℕ) × (o ≡ some r) × (r * r ≤ v) × (v < (r + 1) * (r + 1))

abbrev middle : ℕ → ℕ → ℕ
middle low high = low + (high - low) / 2

go_up :
    (v low high answer : ℕ)
    → Between v low high answer
    → low ≤ high
    → middle low high ≤ v / middle low high
    → Between v (middle low high + 1) high (middle low high)
go_up v low high answer (a, o, s, t) le m =
    (refl, omega arith, le_div (middle low high) v (omega arith) m, t)

go_down :
    (v low high answer : ℕ)
    → Between v low high answer
    → low ≤ high
    → v / middle low high < middle low high
    → Between v low (middle low high - 1) answer
go_down v low high answer (a, o, s, t) le m =
    let e : middle low high - 1 + 1 ≡ middle low high = omega arith in
    (a, omega arith, s, rw e (lt_div (middle low high) v (omega arith) m))

stop :
    (v low high answer : ℕ)
    → Between v low high answer
    → high < low
    → v < (answer + 1) * (answer + 1)
stop v low high answer (a, o, s, t) lt = let e : high ≡ answer = omega arith in rw e at t

isqrt_loop-Root :
    (fuel v low high answer : ℕ)
    → Between v low high answer
    → high + 1 - low < 2 ^ fuel
    → Root v (isqrt_loop (suc fuel) v low high answer)
unfolding isqrt_loop
isqrt_loop-Root zero v low high answer b room =
    let past : high < low = omega arith in
    let f : leb low high ≡ false = ground arith in
    rw f (answer, refl, b.2, stop v low high answer b past)
isqrt_loop-Root (suc fuel) v low high answer b room = elim (Bool-cases (leb low high)) [
  | inr f ↦ rw f (answer, refl, b.2, stop v low high answer b (ground arith))
  | inl t ↦ rw t (elim (Bool-cases (leb (middle low high) (v / middle low high))) [
    | inl u ↦ rw u (
        isqrt_loop-Root fuel v (middle low high + 1) high (middle low high)
          (go_up v low high answer b (leb→le low high t) (leb→le _ _ u))
          (half_up fuel low high room))
    | inr d ↦ rw d (
        isqrt_loop-Root fuel v low (middle low high - 1) answer
          (go_down v low high answer b (leb→le low high t) (ground arith))
          (half_down fuel low high (omega arith) room))
  ])
]

abbrev cap : ℕ
cap = 3_037_000_499

below_cap : (v : ℕ) → v < 2 ^ 63 → v < (min v cap + 1) * (min v cap + 1)
below_cap v h = elim (Bool-cases (leb v cap)) [
  | inl t ↦ let e : min v cap ≡ v = omega (arith, leb→le v cap t) in rw e (square v)
  | inr f ↦ let e : min v cap ≡ cap = ground arith in rw e (omega arith)
]
  where
    square : (n : ℕ) → n < (n + 1) * (n + 1)
    square n = grind arith

search-Root : (v : ℕ) → 0 < v → v < 2 ^ 63 → Root v (isqrt_loop 33 v 1 (min v cap) 0)
search-Root v p h =
    isqrt_loop-Root 32 v 1 (min v cap) 0 (refl, omega arith, omega arith, below_cap v h)
      (omega arith)

suc-ne-zero : (n : ℕ) → (suc n == 0) ≡ false
suc-ne-zero n = ground arith

-- The integer square root of every `i64` that is not negative is the floor of its root, and the loop
-- ends within its fuel.
pub isqrt_floor :
    (v : ℕ) → v < 2 ^ 63 → (r : ℕ) × (isqrt (pos v) ≡ pos r) × (r * r ≤ v) × (v < (r + 1) * (r + 1))
unfolding isqrt
isqrt_floor zero h = (0, refl, omega arith, omega arith)
isqrt_floor (suc v) h =
    let (r, found, lo, hi) = search-Root (suc v) (omega arith) h in
    (r, rw (suc-ne-zero v) (ap (λ o. pos (or_zero o)) found), lo, hi)
