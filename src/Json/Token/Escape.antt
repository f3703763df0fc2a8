-- ===== src/Json/Token/Escape.antt =====
-- One token of a JSON Pointer, escaped as RFC 6901 has it, beside the decoding of src/json.rs.
use Prim.Native.Nat.{ℕ}
use mathlib.Core.Path.{◌≡◌, refl, ap, subst}
use mathlib.Core.Logic.{inl, inr}
use mathlib.Core.Bool.{Bool, true, false}
use mathlib.Core.List.{[], ◌∷◌}
use native.Mathlib.Omega.{arith}
use mux_runtime.Common.{if◌then◌else◌, ◌==◌, Result, ok, err, ◌>>=◌, Bool-cases}
use mux_runtime.Common.Text.{Text}
use mux_runtime.Json.Token.{JsonError, unescape}

-- A token with its `~` and `/` written out
unfoldable pub escape : Text → Text
escape [] = []
escape (c ∷ rest) =
    if c == b'~'
    then b'~' ∷ b'0' ∷ escape rest
    else if c == b'/'
    then b'~' ∷ b'1' ∷ escape rest
    else c ∷ escape rest

pub unescape-plain :
    (c : ℕ) (text : Text)
    → (c == b'~') ≡ false
    → unescape (c ∷ text) ≡ (unescape text >>= λ token. ok (c ∷ token))
unfolding unescape
unescape-plain c [] h = ground arith
unescape-plain c (d ∷ text) h = ground arith

pub unescape-tilde :
    (text : Text) → unescape (b'~' ∷ b'0' ∷ text) ≡ (unescape text >>= λ token. ok (b'~' ∷ token))
unfolding unescape
unescape-tilde text = refl

pub unescape-slash :
    (text : Text) → unescape (b'~' ∷ b'1' ∷ text) ≡ (unescape text >>= λ token. ok (b'/' ∷ token))
unfolding unescape
unescape-slash text = refl

pub unescape-escape : (token : Text) → unescape (escape token) ≡ ok token
unfolding escape
unescape-escape [] = unfold unescape in refl
unescape-escape (c ∷ rest) = elim (Bool-cases (c == b'~')) [
  | inl tilde ↦ ground (arith, unescape-escape rest, unescape-tilde (escape rest))
  | inr other ↦ elim (Bool-cases (c == b'/')) [
    | inl slash ↦ ground (arith, unescape-escape rest, unescape-slash (escape rest))
    | inr plain ↦ ground (arith, unescape-escape rest, unescape-plain c (escape rest) other)
  ]
]

abbrev pub has_slash : Text → Bool
has_slash [] = false
has_slash (c ∷ rest) = if c == b'/' then true else has_slash rest

pub escape-has_slash : (token : Text) → has_slash (escape token) ≡ false
unfolding escape
escape-has_slash [] = refl
escape-has_slash (c ∷ rest) = ground (arith, escape-has_slash rest)

abbrev pub Plain : Text → Type 0
Plain raw = has_slash raw ≡ false

-- A raw token is the escaped form of what it decodes to.
abbrev pub Recovers : Text → Result JsonError Text → Type 0
Recovers raw (ok token) = escape token ≡ raw
Recovers raw (err failure) = Unit

pub tilde-Recovers :
    (raw : Text) (r : Result JsonError Text)
    → Recovers raw r
    → Recovers (b'~' ∷ b'0' ∷ raw) (r >>= λ token. ok (b'~' ∷ token))
unfolding escape
tilde-Recovers raw (ok token) h = ap (λ t. b'~' ∷ b'0' ∷ t) h
tilde-Recovers raw (err failure) h = tt

pub slash-Recovers :
    (raw : Text) (r : Result JsonError Text)
    → Recovers raw r
    → Recovers (b'~' ∷ b'1' ∷ raw) (r >>= λ token. ok (b'/' ∷ token))
unfolding escape
slash-Recovers raw (ok token) h = ap (λ t. b'~' ∷ b'1' ∷ t) h
slash-Recovers raw (err failure) h = tt

pub plain-Recovers :
    (c : ℕ) (raw : Text) (r : Result JsonError Text)
    → (c == b'~') ≡ false
    → (c == b'/') ≡ false
    → Recovers raw r
    → Recovers (c ∷ raw) (r >>= λ token. ok (c ∷ token))
unfolding escape
plain-Recovers c raw (ok token) other plain h = rw (other, plain) (ap (λ t. c ∷ t) h)
plain-Recovers c raw (err failure) other plain h = tt

pub unescape-Recovers : (raw : Text) → Plain raw → Recovers raw (unescape raw)
unescape-Recovers [] plain = unfold unescape in unfold escape in refl
unescape-Recovers (c ∷ []) plain = elim (Bool-cases (c == b'~')) [
  | inl tilde ↦ single c tilde
  | inr other ↦
      rw (unescape-plain c [] other)
        (plain-Recovers c [] (unescape []) other (ground arith) (unescape-Recovers [] refl))
]
  where
    single : (c : ℕ) → (c == b'~') ≡ true → Recovers (c ∷ []) (unescape (c ∷ []))
    single c tilde = unfold unescape in rw tilde tt
unescape-Recovers (c ∷ d ∷ raw) plain = elim (Bool-cases (c == b'~')) [
  | inl tilde ↦
      let c_lem : c ≡ b'~' = ground arith in
      rw c_lem (escaped d raw (unescape-Recovers raw (ground arith)))
  | inr other ↦ rw (unescape-plain c (d ∷ raw) other) (
      plain-Recovers c (d ∷ raw) (unescape (d ∷ raw)) other (ground arith)
        (unescape-Recovers (d ∷ raw) (ground arith)))
]
  where
    escaped :
        (d : ℕ) (raw : Text)
        → Recovers raw (unescape raw)
        → Recovers (b'~' ∷ d ∷ raw) (unescape (b'~' ∷ d ∷ raw))
    escaped d raw h = elim (Bool-cases (d == b'0')) [
      | inl zero_digit ↦
          let d_lem : d ≡ b'0' = ground arith in
          rw (d_lem, unescape-tilde raw) (tilde-Recovers raw (unescape raw) h)
      | inr not_zero ↦ elim (Bool-cases (d == b'1')) [
        | inl one_digit ↦
            let d_lem : d ≡ b'1' = ground arith in
            rw (d_lem, unescape-slash raw) (slash-Recovers raw (unescape raw) h)
        | inr not_one ↦ unfold unescape in rw (not_zero, not_one) tt
      ]
    ]

pub escape-of-unescape :
    (raw token : Text) → Plain raw → unescape raw ≡ ok token → escape token ≡ raw
escape-of-unescape raw token plain h = subst (Recovers raw) h (unescape-Recovers raw plain)
