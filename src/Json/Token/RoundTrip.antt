-- ===== src/Json/Token/RoundTrip.antt =====
-- `decode_pointer_text` of src/json.rs beside the encoding of RFC 6901.
use Prim.Native.Nat.{ℕ, suc, ◌+◌, ◌≤◌}
use mathlib.Core.Path.{◌≡◌, refl, sym, ap, ◌∙◌, subst}
use mathlib.Core.Logic.{◌↔◌}
use mathlib.Core.Bool.{false}
use mathlib.Core.List.{List, [], ◌∷◌, ◌++◌, append-nil}
use native.Mathlib.Omega.{arith}
use mux_runtime.Common.{ok_inj, if◌then◌else◌, ◌==◌, ok, ◌>>=◌, >>=-eq-ok, length, All}
use mux_runtime.Common.Text.{Text}
use mux_runtime.Json.Token.{
  unescape, unescape_all, split_slashes, decode_pointer_text, max_json_tokens, max_json_input_bytes,
}
use mux_runtime.Json.Token.Escape.{
  escape, unescape-escape, has_slash, escape-has_slash, Plain, escape-of-unescape,
}

-- The tokens escaped
unfoldable pub escape_all : List Text → List Text
escape_all [] = []
escape_all (token ∷ tokens) = escape token ∷ escape_all tokens

-- Raw tokens, each behind a slash
unfoldable pub join : List Text → Text
join [] = []
join (raw ∷ raws) = b'/' ∷ (raw ++ join raws)

-- The pointer of a list of tokens
abbrev pub encode_pointer : List Text → Text
encode_pointer tokens = join (escape_all tokens)

-- Splitting behind a raw token
pub split_slashes-last : (raw : Text) → has_slash raw ≡ false → split_slashes raw ≡ raw ∷ []
unfolding split_slashes
split_slashes-last [] h = refl
split_slashes-last (c ∷ raw) h = ground (arith, split_slashes-last raw)

pub split_slashes-append :
    (raw rest : Text)
    → has_slash raw ≡ false
    → split_slashes (raw ++ b'/' ∷ rest) ≡ raw ∷ split_slashes rest
unfolding split_slashes
split_slashes-append [] rest h = refl
split_slashes-append (c ∷ raw) rest h = ground (arith, split_slashes-append raw rest)

pub split_slashes-join :
    (raw : Text) (raws : List Text)
    → Plain raw
    → All Plain raws
    → split_slashes (raw ++ join raws) ≡ raw ∷ raws
unfolding join
split_slashes-join raw [] h k = rw (append-nil raw) (split_slashes-last raw h)
split_slashes-join raw (next ∷ raws) h (g, k) =
    split_slashes-append raw (next ++ join raws) h
    ∙ ap (λ r. raw ∷ r) (split_slashes-join next raws g k)

pub escape_all-Plain : (tokens : List Text) → All Plain (escape_all tokens)
unfolding escape_all
escape_all-Plain [] = tt
escape_all-Plain (token ∷ tokens) = (escape-has_slash token, escape_all-Plain tokens)

pub unescape_all-escape_all :
    (read : ℕ) (tokens : List Text)
    → read + length tokens ≤ max_json_tokens
    → unescape_all read (escape_all tokens) ≡ ok tokens
unfolding unescape_all escape_all
unescape_all-escape_all read [] h = refl
unescape_all-escape_all read (token ∷ tokens) h =
    ground (arith, unescape-escape token, unescape_all-escape_all (suc read) tokens (omega arith))

pub decode_pointer_text-encode_pointer :
    (tokens : List Text)
    → length tokens ≤ max_json_tokens
    → length (encode_pointer tokens) ≤ max_json_input_bytes
    → decode_pointer_text (encode_pointer tokens) ≡ ok tokens
unfolding decode_pointer_text escape_all join
decode_pointer_text-encode_pointer [] few short = refl
decode_pointer_text-encode_pointer (token ∷ tokens) few short = ground (
  arith,
  split_slashes-join (escape token) (escape_all tokens) (escape-has_slash token)
      (escape_all-Plain tokens),
  unescape_all-escape_all 0 (token ∷ tokens) (omega (arith, few)),
)

pub escape_all-unescape_all :
    (read : ℕ) (raws tokens : List Text)
    → All Plain raws
    → unescape_all read raws ≡ ok tokens
    → escape_all tokens ≡ raws
unfolding unescape_all escape_all
escape_all-unescape_all read [] tokens plain h = rw (sym (ok_inj h)) refl
escape_all-unescape_all read (raw ∷ raws) tokens (plain, plains) h =
    let (token, head_lem, after) =
      >>=-eq-ok (unescape raw) (λ token. unescape_all (suc read) raws >>= λ rest. ok (token ∷ rest))
        (let g : (unescape raw >>= λ token.
                unescape_all (suc read) raws >>= λ rest. ok (token ∷ rest))
              ≡ ok tokens =
            ground arith in
          g) in
    let (rest, tail_lem, whole) = >>=-eq-ok (unescape_all (suc read) raws) _ after in
    rw (sym (ok_inj whole), escape-of-unescape raw token plain head_lem)
      (ap (λ r. raw ∷ r) (escape_all-unescape_all (suc read) raws rest plains tail_lem))

-- The two sides of a split, joined again
pub join-split_slashes : (text : Text) → join (split_slashes text) ≡ b'/' ∷ text
unfolding join split_slashes
join-split_slashes [] = refl
join-split_slashes (c ∷ text) = step c text (split_slashes text) (join-split_slashes text)
  where
    step :
        (c : ℕ) (text : Text) (parts : List Text)
        → join parts ≡ b'/' ∷ text
        → join (
            if c == b'/'
            then [] ∷ parts
            else (elim parts [ [] ↦ (c ∷ []) ∷ [] | part ∷ others ↦ (c ∷ part) ∷ others ]))
          ≡ b'/' ∷ c ∷ text
    step c text [] h = cc
    step c text (part ∷ others) h = ground arith

pub split_slashes-Plain : (text : Text) → All Plain (split_slashes text)
unfolding split_slashes
split_slashes-Plain [] = (refl, tt)
split_slashes-Plain (c ∷ text) = step c (split_slashes text) (split_slashes-Plain text)
  where
    step :
        (c : ℕ) (parts : List Text)
        → All Plain parts
        → All Plain (
            if c == b'/'
            then [] ∷ parts
            else (elim parts [ [] ↦ (c ∷ []) ∷ [] | part ∷ others ↦ (c ∷ part) ∷ others ]))
    step c [] h = ground arith
    step c (part ∷ others) h = ground arith

pub encode_pointer-decode_pointer_text :
    (text : Text) (tokens : List Text)
    → decode_pointer_text text ≡ ok tokens
    → encode_pointer tokens ≡ text
unfolding decode_pointer_text
encode_pointer-decode_pointer_text [] tokens h = unfold escape_all in unfold join in ground arith
encode_pointer-decode_pointer_text (c ∷ text) tokens h =
    ap join (
      escape_all-unescape_all 0 (split_slashes text) tokens (split_slashes-Plain text)
        (ground arith))
    ∙ join-split_slashes text
    ∙ ap (λ d. d ∷ text) (ground arith)

-- Within the two limits, a text decodes to a list of tokens exactly when it is the encoding of it.
pub decode_pointer_text_iff :
    (text : Text) (tokens : List Text)
    → length tokens ≤ max_json_tokens
    → length text ≤ max_json_input_bytes
    → (decode_pointer_text text ≡ ok tokens) ↔ (encode_pointer tokens ≡ text)
decode_pointer_text_iff text tokens few short = (
  encode_pointer-decode_pointer_text text tokens,
  λ h.
      subst (λ t. decode_pointer_text t ≡ ok tokens) h
        (decode_pointer_text-encode_pointer tokens few
          (subst (λ t. length t ≤ max_json_input_bytes) (sym h) short)),
)
