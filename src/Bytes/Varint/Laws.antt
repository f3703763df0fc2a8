-- ===== src/Bytes/Varint/Laws.antt =====
-- Reading back what `mux_bytes_write_varint` of src/bytes.rs wrote.
use mux_runtime.Common.{
  ℕ, zero, suc, ◌+◌, ◌*◌, ◌/◌, ◌%◌, ◌^◌, ◌≤◌, ◌<◌, ◌≡◌, refl, sym, ap, ◌∙◌, subst, arith, false,
  ◌==◌, Bool-cases, inl, inr, ==_iff, List, [], ◌∷◌, ◌++◌, length, take, drop, ok, drop-take_append,
  length-splice,
}
use mux_runtime.Common.Bits.{bit_or_low}
use mux_runtime.Common.Int.{ℤ, pos, negsuc, IsI64}
use mux_runtime.Bytes.Value.{checked_add_usize}
use mux_runtime.Bytes.Uint.{try_i64}
use mux_runtime.Bytes.Uint.Laws.{try_i64-eq}
use mux_runtime.Bytes.Varint.{varint_loop, encode_loop, encoded, read_varint, write_varint}
use native.Mathlib.Nat.{pow-suc, div-add-mod'}
use Prim.Native.Nat.{bit_or}

-- a byte with its top bit set: the loop goes on
varint_more :
    (b : ℕ) (bs : List ℕ) (acc s : ℕ)
    → s < 63
    → 128 ≤ b
    → varint_loop (b ∷ bs) acc s ≡ varint_loop bs (bit_or acc (b % 128 * 2 ^ s)) (s + 7)
unfolding varint_loop
varint_more b bs acc s h k = ground arith

-- a byte without it: the loop ends
varint_last :
    (b : ℕ) (bs : List ℕ) (acc s : ℕ)
    → s ≤ 63
    → b < 128
    → (s ≡ 63 → b ≡ 0)
    → varint_loop (b ∷ bs) acc s ≡ try_i64 (bit_or acc (b % 128 * 2 ^ s))
unfolding varint_loop
varint_last b bs acc s h k z = ground arith

seven_more : (k : ℕ) → 2 ^ (k + 7) ≡ 2 ^ k * 128
seven_more k = ap (λ (n : ℕ). 2 ^ n) (omega arith) ∙ seven k
  where
    seven : (k : ℕ) → 2 ^ suc (suc (suc (suc (suc (suc (suc k)))))) ≡ 2 ^ k * 128
    seven k = rw (pow-suc 2, pow-suc 2) (omega arith)

split_group : (n m : ℕ) → n / 128 * (m * 128) + n % 128 * m ≡ n * m
split_group n m = omega (arith, ap (λ (t : ℕ). t * m) (div-add-mod' n 128))

group_fits : (a r k : ℕ) → a < 2 ^ k → r < 128 → a + r * 2 ^ k < 2 ^ (k + 7)
group_fits a r k h l = rw (seven_more k) (grind arith)

-- No digit is left at the highest shift.
none_left : (n s : ℕ) → s ≡ 63 → n * 2 ^ s < 2 ^ 63 → n ≡ 0
none_left n s e h = at_top n (subst (λ (k : ℕ). n * 2 ^ k < 2 ^ 63) e h)
  where
    at_top : (n : ℕ) → n * 2 ^ 63 < 2 ^ 63 → n ≡ 0
    at_top n h = omega arith

encode_last : (fuel n : ℕ) → n / 128 ≡ 0 → encode_loop (suc fuel) n ≡ n % 128 ∷ []
unfolding encode_loop
encode_last fuel n h = ground arith

encode_more :
    (fuel n : ℕ)
    → (n / 128 == 0) ≡ false
    → encode_loop (suc fuel) n ≡ (n % 128 + 128) ∷ encode_loop fuel (n / 128)
unfolding encode_loop
encode_more fuel n h = ground arith

decode_encode :
    (fuel n acc s : ℕ) (tail : List ℕ)
    → fuel * 7 + s ≡ 70
    → 1 ≤ fuel
    → acc < 2 ^ s
    → acc + n * 2 ^ s < 2 ^ 63
    → varint_loop (encode_loop fuel n ++ tail) acc s ≡ try_i64 (acc + n * 2 ^ s)
decode_encode zero n acc s tail e one low bound = absurd (omega arith)
decode_encode (suc fuel) n acc s tail e one low bound = elim (Bool-cases (n / 128 == 0)) [
  | inl t ↦
      let q : n / 128 ≡ 0 = (==_iff (n / 128) 0).0 t in
      let small : n < 128 = omega arith in
      let top : s ≡ 63 → n % 128 ≡ 0 = λ z. zero_mod n (none_left n s z (omega arith)) in
      ap (λ z. varint_loop (z ++ tail) acc s) (encode_last fuel n q)
      ∙ varint_last (n % 128) tail acc s (omega arith) (omega arith) top
      ∙ ap (λ (d : ℕ). try_i64 (bit_or acc (d * 2 ^ s))) (omega arith)
      ∙ ap try_i64 (bit_or_low s n acc low)
  | inr f ↦
      let big : 128 ≤ n = large n f in
      let room : s < 63 = below_top n s (omega arith) big (omega arith) in
      let low' : acc + n % 128 * 2 ^ s < 2 ^ (s + 7) =
        group_fits acc (n % 128) s low (omega arith) in
      let total : acc + n % 128 * 2 ^ s + n / 128 * 2 ^ (s + 7) ≡ acc + n * 2 ^ s =
        omega (arith, split_group n (2 ^ s), ap (λ (t : ℕ). n / 128 * t) (seven_more s)) in
      ap (λ z. varint_loop (z ++ tail) acc s) (encode_more fuel n f)
      ∙ varint_more (n % 128 + 128) (encode_loop fuel (n / 128) ++ tail) acc s room (omega arith)
      ∙ ap
          (λ (d : ℕ).
            varint_loop (encode_loop fuel (n / 128) ++ tail) (bit_or acc (d * 2 ^ s)) (s + 7))
          (omega arith)
      ∙ ap (λ z. varint_loop (encode_loop fuel (n / 128) ++ tail) z (s + 7))
          (bit_or_low s (n % 128) acc low)
      ∙ decode_encode fuel (n / 128) (acc + n % 128 * 2 ^ s) (s + 7) tail (omega arith)
          (omega arith) low' (omega arith)
      ∙ ap try_i64 total
]
  where
    zero_mod : (n : ℕ) → n ≡ 0 → n % 128 ≡ 0
    zero_mod n h = omega arith

    large : (n : ℕ) → (n / 128 == 0) ≡ false → 128 ≤ n
    large n h = ground arith

    below_top : (n s : ℕ) → s ≤ 63 → 128 ≤ n → n * 2 ^ s < 2 ^ 63 → s < 63
    below_top n s h big b = elim (Bool-cases (s == 63)) [
      | inl t ↦ absurd (omega (arith, none_left n s ((==_iff s 63).0 t) b))
      | inr f ↦ ground arith
    ]

-- Ten rounds encode every `i64` that is not negative: decoding them, whatever follows, gives the
-- number back.
pub varint_loop-encoded :
    (n : ℕ) (tail : List ℕ) → IsI64 (pos n) → varint_loop (encoded n ++ tail) 0 0 ≡ ok (pos n)
unfolding encoded
varint_loop-encoded n tail h =
    decode_encode 10 n 0 0 tail (omega arith) (omega arith) (omega arith) (omega arith)
    ∙ ap try_i64 (omega arith)
    ∙ try_i64-eq n h

one_le-length-encoded : (n : ℕ) → 1 ≤ length (encoded n)
unfolding encoded
one_le-length-encoded n = elim (Bool-cases (n / 128 == 0)) [
  | inl t ↦
      subst (λ z. 1 ≤ length z) (sym (encode_last 9 n ((==_iff (n / 128) 0).0 t))) (omega arith)
  | inr f ↦ subst (λ z. 1 ≤ length z) (sym (encode_more 9 n f)) (omega arith)
]

-- what a successful write went through
write_varint-ok :
    (bs bs' : List ℕ) (offset : ℤ) (n k : ℕ)
    → write_varint bs offset n ≡ ok (bs', k)
    → (s : ℕ) × (offset ≡ pos s)
      × (s + length (encoded n) ≤ length bs)
      × (take s bs ++ (encoded n ++ drop (s + length (encoded n)) bs) ≡ bs')
      × (length (encoded n) ≡ k)
unfolding write_varint checked_add_usize
write_varint-ok bs bs' (negsuc m) n k h = absurd (cc)
write_varint-ok bs bs' (pos s) n k h =
    let in_range : (s + length (encoded n) ≤ length bs) = ground arith in
    (s, refl, in_range, ground arith, ground arith)

read_in_range :
    (bs : List ℕ) (s : ℕ) → s < length bs → read_varint bs (pos s) ≡ varint_loop (drop s bs) 0 0
unfolding read_varint
read_in_range bs s h = ground arith

-- Where `write_varint` writes a number that an `i64` holds, `read_varint` at the same offset reads it,
-- and the buffer keeps its length.
pub read_varint-write_varint :
    (bs bs' : List ℕ) (offset : ℤ) (n k : ℕ)
    → IsI64 (pos n)
    → write_varint bs offset n ≡ ok (bs', k)
    → (read_varint bs' offset ≡ ok (pos n)) × (length bs' ≡ length bs)
read_varint-write_varint bs bs' offset n k fits h =
    let (s, eo, le, shown, count) = write_varint-ok bs bs' offset n k h in
    let len : length bs' ≡ length bs =
      ap length (sym shown) ∙ length-splice s (length (encoded n)) bs (encoded n) refl le in
    (
      ap (read_varint bs') eo
          ∙ read_in_range bs' s (omega (arith, one_le-length-encoded n))
          ∙ ap (λ z. varint_loop (drop s z) 0 0) (sym shown)
          ∙ ap (λ z. varint_loop z 0 0) (drop-take_append s bs _ (omega arith))
          ∙ varint_loop-encoded n (drop (s + length (encoded n)) bs) fits,
      len,
    )
