-- ===== src/Bytes/Uint/Laws.antt =====
-- Reading back what `write_uint` of src/bytes.rs wrote.
use mux_runtime.Common.{
  ℕ, suc, ◌+◌, ◌-◌, ◌*◌, ◌/◌, ◌%◌, ◌^◌, ◌≤◌, ◌<◌, ◌≡◌, refl, sym, ap, ◌∙◌, arith, Bool, true, false,
  List, [], ◌∷◌, ◌++◌, length, take, drop, Result, ok, ltb, ltb→lt, Bool-cases, inl, inr, subst,
  ◌>>=◌, >>=-eq-ok, drop-take_append, take-append, length-splice, length-take, length-drop,
}
use mux_runtime.Common.Bits.{bit_or_low, bit_or_high}
use mux_runtime.Common.Int.{ℤ, pos, negsuc, IsI64}
use mux_runtime.Bytes.Value.{BytesError, checked_add_usize, usize_max}
use mux_runtime.Bytes.Uint.{
  checked_width, checked_range, checked_value, try_i64, read_uint, write_uint, read_loop,
  write_loop, byte_shift,
}
use native.Mathlib.Nat.{
  pow-suc, div-div-eq-div-mul, div-add-mod', one-le-pow, mod-lt, zero-mul, div-eq_of_lt,
  mod-eq_of_lt,
}
use Prim.Native.Nat.{bit_or}

split_byte : (q m : ℕ) → q / 256 * (m * 256) + q % 256 * m ≡ q * m
split_byte q m = omega (arith, ap (λ (t : ℕ). t * m) (div-add-mod' q 256))

byte_below : (v m : ℕ) → v / (m * 256) * (m * 256) + v / m % 256 * m ≡ v / m * m
byte_below v m = rw (sym (div-div-eq-div-mul v m 256)) (split_byte (v / m) m)

-- one more byte of a number, above `m` and below the rest
byte_above : (v m : ℕ) → v % m + v / m % 256 * m ≡ v % (m * 256)
byte_above v m = omega (arith, byte_below v m, div-add-mod' v m, div-add-mod' v (m * 256))

eight_more : (k : ℕ) → 2 ^ suc (suc (suc (suc (suc (suc (suc (suc k))))))) ≡ 2 ^ k * 256
eight_more k = rw (pow-suc 2, pow-suc 2) (omega arith)

pub power_byte : (p : ℕ) → 2 ^ (suc p * 8) ≡ 2 ^ (p * 8) * 256
power_byte p = ap (λ (k : ℕ). 2 ^ k) (omega arith) ∙ eight_more (p * 8)

byte_fits : (b k : ℕ) → b < 256 → b * 2 ^ (k * 8) < 2 ^ (suc k * 8)
byte_fits b k h = rw (power_byte k) (grind (arith, one-le-pow (k * 8) 2))

module _ (w v : ℕ) where
  pub length-write_loop :
      (little : Bool) (bs : List ℕ) (p : ℕ) → length (write_loop little w v bs p) ≡ length bs
  unfolding write_loop
  length-write_loop little [] p = refl
  length-write_loop little (b ∷ bs) p = ap suc (length-write_loop little bs (suc p))

  -- With the lowest byte first, the value so far is the number below the position.
  little_loop :
      (bs : List ℕ) (p : ℕ)
      → read_loop true w (write_loop true w v bs p) p (v % 2 ^ (p * 8))
        ≡ v % 2 ^ ((p + length bs) * 8)
  unfolding read_loop write_loop byte_shift
  little_loop [] p = ap (λ (k : ℕ). v % 2 ^ (k * 8)) (omega arith)
  little_loop (b ∷ bs) p =
      ap (λ z. read_loop true w (write_loop true w v bs (suc p)) (suc p) z)
        (bit_or_low (p * 8) (v / 2 ^ (p * 8) % 256) (v % 2 ^ (p * 8))
            (mod-lt v (one-le-pow (p * 8) 2 (omega arith)))
          ∙ byte_above v (2 ^ (p * 8))
          ∙ ap (λ (k : ℕ). v % k) (sym (power_byte p)))
      ∙ little_loop bs (suc p)
      ∙ ap (λ (k : ℕ). v % 2 ^ (k * 8)) (omega arith)

  -- With the highest byte first, it is the number above what is left.
  big_loop :
      (bs : List ℕ) (p : ℕ)
      → p + length bs ≡ w
      → read_loop false w
          (write_loop false w v bs p)
          p
          (v / 2 ^ (length bs * 8) * 2 ^ (length bs * 8))
        ≡ v
  unfolding read_loop write_loop byte_shift
  big_loop [] p h = omega arith
  big_loop (b ∷ bs) p h =
      let k = length bs in
      let shift : w - p - 1 ≡ k = omega arith in
      ap (λ z. read_loop false w (write_loop false w v bs (suc p)) (suc p) z)
        (ap
            (λ (t : ℕ).
              bit_or (v / 2 ^ (suc k * 8) * 2 ^ (suc k * 8)) (v / 2 ^ (t * 8) % 256 * 2 ^ (t * 8)))
            shift
          ∙ bit_or_high (suc k * 8) (v / 2 ^ (suc k * 8)) (v / 2 ^ (k * 8) % 256 * 2 ^ (k * 8))
              (byte_fits (v / 2 ^ (k * 8) % 256) k (mod-lt (v / 2 ^ (k * 8)) (omega arith)))
          ∙ rw (power_byte k) (byte_below v (2 ^ (k * 8))))
      ∙ big_loop bs (suc p) (omega arith)

pub checked_width-ok :
    (width : ℤ) (w : ℕ) → checked_width width ≡ ok w → (width ≡ pos w) × (1 ≤ w) × (w ≤ 8)
unfolding checked_width
checked_width-ok (negsuc n) w h = absurd (cc)
checked_width-ok (pos n) w h = ground arith

checked_range-ok :
    (bs : List ℕ) (offset : ℤ) (w s e : ℕ)
    → checked_range bs offset w ≡ ok (s, e)
    → (offset ≡ pos s) × (e ≡ s + w) × (e ≤ length bs)
unfolding checked_range checked_add_usize
checked_range-ok bs (negsuc n) w s e h = absurd (cc)
checked_range-ok bs (pos n) w s e h = ground arith

pub checked_value-ok : (w n v : ℕ) → checked_value w n ≡ ok v → (v ≡ n) × (w < 8 → n < 2 ^ (w * 8))
unfolding checked_value
checked_value-ok w n v h = ground arith

pub checked_range-eq :
    (bs : List ℕ) (s w : ℕ)
    → s + w ≤ length bs
    → s + w ≤ usize_max
    → checked_range bs (pos s) w ≡ ok (s, s + w)
unfolding checked_range checked_add_usize
checked_range-eq bs s w h k = ground arith

pub try_i64-eq : (n : ℕ) → IsI64 (pos n) → try_i64 n ≡ ok (pos n)
unfolding try_i64
try_i64-eq n h = ground arith

-- The loops at a whole range, in either order
pub loops_inverse :
    (little : Bool) (w v : ℕ) (bs : List ℕ)
    → length bs ≡ w
    → v < 2 ^ (w * 8)
    → read_loop little w (write_loop little w v bs 0) 0 0 ≡ v
loops_inverse true w v bs e h =
    ap (λ z. read_loop true w (write_loop true w v bs 0) 0 z) (omega arith)
    ∙ little_loop w v bs 0
    ∙ ap (λ (k : ℕ). v % 2 ^ (k * 8)) (omega arith)
    ∙ mod-eq_of_lt h
loops_inverse false w v bs e h =
    ap (λ z. read_loop false w (write_loop false w v bs 0) 0 z)
      (sym (
        ap (λ (k : ℕ). v / 2 ^ (k * 8) * 2 ^ (k * 8)) e
        ∙ ap (λ (q : ℕ). q * 2 ^ (w * 8)) (div-eq_of_lt h)
        ∙ zero-mul (2 ^ (w * 8))))
    ∙ big_loop w v bs 0 (omega arith)

ltb-false : (w : ℕ) → ltb w 8 ≡ false → 8 ≤ w
ltb-false w h = ground arith

eight_bytes : (w n : ℕ) → w ≡ 8 → n < 2 ^ 64 → n < 2 ^ (w * 8)
eight_bytes w n e h = subst (λ (k : ℕ). n < 2 ^ (k * 8)) (sym e) h

-- the value fits its width, at the full width too
pub value_fits : (w n : ℕ) → w ≤ 8 → IsI64 (pos n) → (w < 8 → n < 2 ^ (w * 8)) → n < 2 ^ (w * 8)
value_fits w n le fits h = elim (Bool-cases (ltb w 8)) [
  | inl t ↦ h (ltb→lt w 8 t)
  | inr f ↦ eight_bytes w n (omega (arith, ltb-false w f)) (omega arith)
]

-- the bounds that a range was checked against
checked_range-fits :
    (bs : List ℕ) (s w : ℕ) (r : ℕ × ℕ) → checked_range bs (pos s) w ≡ ok r → s + w ≤ usize_max
unfolding checked_range checked_add_usize
checked_range-fits bs s w r h = ground arith

-- the buffer after a write, read at the same place
pub spliced :
    (little : Bool) (bs : List ℕ) (s w v : ℕ)
    → s + w ≤ length bs
    → take w
        (drop s (take s bs ++ (write_loop little w v (take w (drop s bs)) 0 ++ drop (s + w) bs)))
      ≡ write_loop little w v (take w (drop s bs)) 0
spliced little bs s w v h =
    ap (take w) (drop-take_append s bs _ (omega arith))
    ∙ take-append w _ (drop (s + w) bs) (
        omega (
          arith,
          length-write_loop w v little (take w (drop s bs)) 0,
          length-take w (drop s bs),
          length-drop s bs,
        ))

ok_inj : (a b : Result BytesError (List ℕ)) (x y : List ℕ) → a ≡ ok x → b ≡ ok y → a ≡ b → x ≡ y
ok_inj a b x y p q h = cc

read_written :
    (bs bs' : List ℕ) (offset width : ℤ) (little : Bool) (n w v s e : ℕ)
    → IsI64 (pos n)
    → checked_width width ≡ ok w
    → v ≡ n
    → (w < 8 → n < 2 ^ (w * 8))
    → offset ≡ pos s
    → e ≡ s + w
    → e ≤ length bs
    → checked_range bs offset w ≡ ok (s, e)
    → take s bs ++ (write_loop little w v (take (e - s) (drop s bs)) 0 ++ drop e bs) ≡ bs'
    → (read_uint bs' offset width little ≡ ok (pos n)) × (length bs' ≡ length bs)
unfolding read_uint
read_written bs bs' offset width little n w v s e fits ew ev bound eo ee le er eb =
    let (_, one, eight) = checked_width-ok width w ew in
    let el : e - s ≡ w = omega arith in
    let cut : length (take w (drop s bs)) ≡ w =
      omega (arith, length-take w (drop s bs), length-drop s bs) in
    let shown : take s bs ++ (write_loop little w n (take w (drop s bs)) 0 ++ drop (s + w) bs)
        ≡ bs' =
      cc in
    let len : length bs' ≡ length bs =
      ap length (sym shown)
      ∙ length-splice s w bs (write_loop little w n (take w (drop s bs)) 0)
          (length-write_loop w n little (take w (drop s bs)) 0 ∙ cut) (omega arith) in
    let range : checked_range bs' offset w ≡ ok (s, s + w) =
      ap (λ z. checked_range bs' z w) eo
      ∙ checked_range-eq bs' s w (omega arith)
          (checked_range-fits bs s w (s, e) (ap (λ z. checked_range bs z w) (sym eo) ∙ er)) in
    let value : read_loop little w (take w (drop s bs')) 0 0 ≡ n =
      ap (λ z. read_loop little w (take w (drop s z)) 0 0) (sym shown)
      ∙ ap (λ z. read_loop little w z 0 0) (spliced little bs s w n (omega arith))
      ∙ loops_inverse little w n (take w (drop s bs)) cut (value_fits w n eight fits bound) in
    (
      ap
            (λ z. z >>= λ w'. checked_range bs' offset w' >>= λ r.
              try_i64 (read_loop little w' (take (r.1 - r.0) (drop r.0 bs')) 0 0))
            ew
          ∙ ap (λ z. z >>= λ r. try_i64 (read_loop little w (take (r.1 - r.0) (drop r.0 bs')) 0 0))
              range
          ∙ ap (λ (k : ℕ). try_i64 (read_loop little w (take k (drop s bs')) 0 0)) (omega arith)
          ∙ ap try_i64 value
          ∙ try_i64-eq n fits,
      len,
    )

-- Where `write_uint` writes a number, `read_uint` with the same offset, width and byte order reads it,
-- and the buffer keeps its length. The condition on the number is that it is an `i64`.
pub read_uint-write_uint :
    (bs bs' : List ℕ) (offset number width : ℤ) (little : Bool)
    → IsI64 number
    → write_uint bs offset number width little ≡ ok bs'
    → (read_uint bs' offset width little ≡ ok number) × (length bs' ≡ length bs)
unfolding write_uint
read_uint-write_uint bs bs' offset (negsuc n) width little fits h = absurd (cc)
read_uint-write_uint bs bs' offset (pos n) width little fits h =
    let (w, ew, h1) = >>=-eq-ok (checked_width width) _ h in
    let (v, ev, h2) = >>=-eq-ok (checked_value w n) _ h1 in
    let ((s, e), er, h3) = >>=-eq-ok (checked_range bs offset w) _ h2 in
    let (ev', bound) = checked_value-ok w n v ev in
    let (eo, ee, le) = checked_range-ok bs offset w s e er in
    read_written bs bs' offset width little n w v s e fits ew ev' bound eo ee le er
      (ok_inj _ _ _ _ refl refl h3)
