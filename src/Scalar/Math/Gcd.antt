-- ===== src/Scalar/Math/Gcd.antt =====
-- `mux_math_gcd` and `mux_math_lcm` of src/math.rs: Euclid's loop ends, and finds the greatest common
-- divisor.
use mux_runtime.Common.{
  ℕ, zero, suc, ◌+◌, ◌-◌, ◌*◌, ◌/◌, ◌%◌, ◌^◌, ◌≤◌, ◌≡◌, refl, sym, ap, arith, some, leb, Bool-cases,
  inl, inr, ◌==◌, ==_iff, if◌then◌else◌, subst,
}
use native.Mathlib.Nat.{mul-sub}
use mux_runtime.Common.Int.{ℤ, pos, abs_ℕ, i64_max}
use mux_runtime.Scalar.Math.{gcd_unsigned, u64_gcd, gcd, or_zero}

-- `d` divides `n`.
abbrev pub Divides : ℕ → ℕ → Type 0
Divides d n = (k : ℕ) × (n ≡ k * d)

-- `g` divides both numbers, and every common divisor divides `g`.
abbrev pub IsGcd : ℕ → ℕ → ℕ → Type 0
IsGcd a b g = Divides g a × Divides g b × ((d : ℕ) → Divides d a → Divides d b → Divides d g)

div_mod : (a b : ℕ) → a / b * b + a % b ≡ a
div_mod a b = grind arith

mod_of_parts :
    (d q k j : ℕ) (a b r : ℕ) → a ≡ k * d → b ≡ j * d → q * b + r ≡ a → r ≡ (k - q * j) * d
mod_of_parts d q k j a b r p s e = omega (arith, mul-sub d k (q * j), ap (λ z. q * z) s)

Divides-mod : (d a b : ℕ) → Divides d a → Divides d b → Divides d (a % b)
Divides-mod d a b (k, p) (j, q) =
    (k - a / b * j, mod_of_parts d (a / b) k j a b (a % b) p q (div_mod a b))

Divides-of_mod : (d a b : ℕ) → Divides d b → Divides d (a % b) → Divides d a
Divides-of_mod d a b (k, p) (j, q) =
    (a / b * k + j, omega (arith, div_mod a b, ap (λ z. a / b * z) p))

IsGcd-step : (a b g : ℕ) → IsGcd b (a % b) g → IsGcd a b g
IsGcd-step a b g (db, dm, most) =
    (Divides-of_mod g a b db dm, db, λ d da db'. most d db' (Divides-mod d a b da db'))

IsGcd-zero : (a : ℕ) → IsGcd a 0 a
IsGcd-zero a = ((1, omega arith), (0, omega arith), λ d da db. da)

gcd_unsigned_lem :
    (fuel a b : ℕ) → b ≤ fuel → (g : ℕ) × (gcd_unsigned (suc fuel) a b ≡ some g) × IsGcd a b g
unfolding gcd_unsigned
gcd_unsigned_lem zero a b h =
    let e : b ≡ 0 = omega arith in (a, rw e, subst (λ z. IsGcd a z a) (sym e) (IsGcd-zero a))
gcd_unsigned_lem (suc fuel) a b h = elim (Bool-cases (b == 0)) [
  | inl t ↦ (a, rw t, subst (λ z. IsGcd a z a) (sym ((==_iff b 0).0 t)) (IsGcd-zero a))
  | inr f ↦
      let (g, found, is) = gcd_unsigned_lem fuel b (a % b) (ground arith) in
      (g, rw f found, IsGcd-step a b g is)
]

u64_gcd-IsGcd : (a b : ℕ) → IsGcd a b (u64_gcd a b)
u64_gcd-IsGcd a b =
    let (g, found, is) = gcd_unsigned_lem b a b (omega arith) in
    subst (λ o. IsGcd a b (or_zero o)) (sym found) is

-- `gcd` finds the greatest common divisor of the two absolute values: it divides both, and every
-- common divisor divides it. Where that is 2^63, which is no `i64`, the largest `i64` is returned.
pub gcd_greatest :
    (a b : ℤ)
    → (g : ℕ) × IsGcd (abs_ℕ a) (abs_ℕ b) g
      × (gcd a b ≡ (if leb (2 ^ 63) g then i64_max else pos g))
unfolding gcd
gcd_greatest a b = (u64_gcd (abs_ℕ a) (abs_ℕ b), u64_gcd-IsGcd (abs_ℕ a) (abs_ℕ b), refl)
