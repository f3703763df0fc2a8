-- ===== src/Scalar/Math/Pow.antt =====
-- `mux_int_pow` of src/math.rs: squaring ends within its fuel, with the power modulo 2^64.
use mux_runtime.Common.{
  ℕ, zero, suc, ◌+◌, ◌*◌, ◌/◌, ◌%◌, ◌^◌, ◌<◌, ◌≡◌, ◌∙◌, sym, ap, arith, some, Bool-cases, inl, inr,
  true, false, ◌==◌, ==_iff, subst,
}
use mux_runtime.Common.Int.{ℤ, pos, to_u64, of_u64}
use native.Mathlib.Nat.{pow-zero, pow-suc, mul_comm, mul_assoc, mul-add-mod_self_left, mod-eq_of_lt}
use mux_runtime.Scalar.Math.{pow_loop, int_pow, or_zero}

div_mod : (a b : ℕ) → b * (a / b) + a % b ≡ a
div_mod a b = grind arith

pow_square : (b n : ℕ) → (b * b) ^ n ≡ b ^ (n + n)
pow_square b zero = pow-zero (b * b) ∙ sym (pow-zero b)
pow_square b (suc n) =
    let e : suc n + suc n ≡ suc (suc (n + n)) = omega arith in
    rw (pow-suc (b * b) n, pow_square b n, e, pow-suc b (suc (n + n)), pow-suc b (n + n))
      (sym (mul_assoc (b ^ (n + n)) b b))

module _ (m : ℕ) where
  mod_mul_left : (x y : ℕ) → x % m * y % m ≡ x * y % m
  mod_mul_left x y =
      let e : x * y ≡ m * (x / m * y) + x % m * y = omega (arith, ap (λ z. z * y) (div_mod x m)) in
      sym (ap (λ z. z % m) e ∙ mul-add-mod_self_left m (x / m * y) (x % m * y))

  mod_mul_right : (x y : ℕ) → x * (y % m) % m ≡ x * y % m
  mod_mul_right x y =
      ap (λ z. z % m) (mul_comm x (y % m)) ∙ (mod_mul_left y x ∙ ap (λ z. z % m) (mul_comm y x))

  pow-mod : (x n : ℕ) → (x % m) ^ n % m ≡ x ^ n % m
  pow-mod x zero = ap (λ z. z % m) (pow-zero (x % m) ∙ sym (pow-zero x))
  pow-mod x (suc n) =
      rw (pow-suc (x % m) n, pow-suc x n)
        (mod_mul_right ((x % m) ^ n) x
          ∙ (sym (mod_mul_left ((x % m) ^ n) x)
              ∙ (ap (λ z. z * x % m) (pow-mod x n) ∙ mod_mul_left (x ^ n) x)))

  -- The squared factor, reduced, to the power `h`.
  square_step : (r b h : ℕ) → r * (b * b % m) ^ h % m ≡ r * b ^ (h + h) % m
  square_step r b h =
      sym (mod_mul_right r ((b * b % m) ^ h))
      ∙ (ap (λ z. r * z % m) (pow-mod (b * b) h ∙ ap (λ z. z % m) (pow_square b h))
          ∙ mod_mul_right r (b ^ (h + h)))

  odd_step : (r b h : ℕ) → r * b % m * (b * b % m) ^ h % m ≡ r * b ^ suc (h + h) % m
  odd_step r b h =
      mod_mul_left (r * b) ((b * b % m) ^ h)
      ∙ (square_step (r * b) b h
          ∙ ap (λ z. z % m)
              (mul_assoc r b (b ^ (h + h))
                ∙ ap (λ z. r * z) (mul_comm b (b ^ (h + h)) ∙ sym (pow-suc b (h + h)))))

abbrev m64 : ℕ
m64 = 2 ^ 64

halve-lt : (f e : ℕ) → e < 2 ^ suc f → e / 2 < 2 ^ f
halve-lt f e h = let p = pow-suc 2 f ∙ mul_comm (2 ^ f) 2 in omega (arith, p)

odd_half : (e : ℕ) → (e % 2 == 1) ≡ true → suc (e / 2 + e / 2) ≡ e
odd_half e h = ground arith

even_half : (e : ℕ) → (e % 2 == 1) ≡ false → e / 2 + e / 2 ≡ e
even_half e h = ground arith

one_mul : (n : ℕ) → 1 * n ≡ n
one_mul n = omega arith

no_power : (r b : ℕ) → r < m64 → r ≡ r * b ^ 0 % m64
no_power r b h = rw (pow-zero b) (sym (ap (λ z. z % m64) (omega arith) ∙ mod-eq_of_lt h))

done : (r b e : ℕ) → r < m64 → e ≡ 0 → r ≡ r * b ^ e % m64
done r b e h z = subst (λ n. r ≡ r * b ^ n % m64) (sym z) (no_power r b h)

-- The loop multiplies its result by the power, modulo 2^64.
pow_loop_lem : (f r b e : ℕ) → r < m64 → e < 2 ^ f → pow_loop (suc f) r b e ≡ some (r * b ^ e % m64)
unfolding pow_loop
pow_loop_lem zero r b e hr he =
    let z : e ≡ 0 = omega arith in rw ((==_iff e 0).1 z) (ap some (done r b e hr z))
pow_loop_lem (suc f) r b e hr he = elim (Bool-cases (e == 0)) [
  | inl t ↦ rw t (ap some (done r b e hr ((==_iff e 0).0 t)))
  | inr n ↦ rw n (elim (Bool-cases (e % 2 == 1)) [
    | inl o ↦ rw o (
        pow_loop_lem f (r * b % m64) (b * b % m64) (e / 2) (omega arith) (halve-lt f e he)
        ∙ ap some (odd_step m64 r b (e / 2) ∙ ap (λ z. r * b ^ z % m64) (odd_half e o)))
    | inr o ↦ rw o (
        pow_loop_lem f r (b * b % m64) (e / 2) hr (halve-lt f e he)
        ∙ ap some (square_step m64 r b (e / 2) ∙ ap (λ z. r * b ^ z % m64) (even_half e o)))
  ])
]

-- For an exponent that is not negative the result is the power of the base's bits modulo 2^64, read
-- as an `i64`, and the loop ends within its fuel.
pub int_pow_wraps :
    (base : ℤ) (e : ℕ) → e < 2 ^ 63 → int_pow base (pos e) ≡ of_u64 (to_u64 base ^ e % 2 ^ 64)
unfolding int_pow
int_pow_wraps base e h =
    ap (λ o. of_u64 (or_zero o)) (pow_loop_lem 63 1 (to_u64 base) e (omega arith) h)
    ∙ ap (λ n. of_u64 (n % 2 ^ 64)) (one_mul (to_u64 base ^ e))
