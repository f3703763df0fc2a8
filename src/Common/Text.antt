-- ===== src/Common/Text.antt =====
-- Strings as lists of their bytes, which the operations on ASCII characters read as they read
-- characters.
use mux_runtime.Common.{
  ℕ, ◌+◌, ◌-◌, ◌*◌, ◌^◌, ltb, Option, none, some, Bool, true, false, ◌&&◌, ◌||◌, leb, ◌==◌,
  if◌then◌else◌, List, [], ◌∷◌,
}

abbrev pub Text : Type 0
Text = List ℕ

abbrev pub eqb_text : Text → Text → Bool
eqb_text [] [] = true
eqb_text [] (b ∷ t) = false
eqb_text (a ∷ s) [] = false
eqb_text (a ∷ s) (b ∷ t) = (a == b) && eqb_text s t

-- does a byte occur?
abbrev pub has_byte : ℕ → Text → Bool
has_byte c [] = false
has_byte c (b ∷ t) = (b == c) || has_byte c t

-- ASCII classes of a byte
abbrev pub is_upper : ℕ → Bool
is_upper b = leb 65 b && leb b 90

abbrev pub is_alphabetic : ℕ → Bool
is_alphabetic b = is_upper b || leb 97 b && leb b 122

abbrev pub is_alphanumeric : ℕ → Bool
is_alphanumeric b = is_alphabetic b || leb 48 b && leb b 57

-- `to_ascii_lowercase` and `to_ascii_uppercase` of a byte
abbrev pub lower : ℕ → ℕ
lower b = if is_upper b then b + 32 else b

abbrev pub upper : ℕ → ℕ
upper b = if leb 97 b && leb b 122 then b - 32 else b

abbrev pub to_ascii_uppercase : Text → Text
to_ascii_uppercase [] = []
to_ascii_uppercase (b ∷ t) = upper b ∷ to_ascii_uppercase t

abbrev pub eq_ignore_ascii_case : Text → Text → Bool
eq_ignore_ascii_case [] [] = true
eq_ignore_ascii_case [] (b ∷ t) = false
eq_ignore_ascii_case (a ∷ s) [] = false
eq_ignore_ascii_case (a ∷ s) (b ∷ t) = (lower a == lower b) && eq_ignore_ascii_case s t

-- `str::split` at a byte: the first part, and the parts behind it
unfoldable pub split_at : ℕ → Text → Text × List Text
split_at c [] = ([], [])
split_at c (b ∷ t) =
    let (part, parts) = split_at c t in if b == c then ([], part ∷ parts) else (b ∷ part, parts)

abbrev pub mem_text : Text → List Text → Bool
mem_text t [] = false
mem_text t (u ∷ us) = eqb_text t u || mem_text t us

-- `parse::<usize>`: digits behind an optional plus sign, in 64 bits
unfoldable pub parse_digits : ℕ → Text → Option ℕ
parse_digits value [] = some value
parse_digits value (c ∷ rest) =
    if leb b'0' c && leb c b'9' && ltb (value * 10 + (c - b'0')) (2 ^ 64)
    then parse_digits (value * 10 + (c - b'0')) rest
    else none

unfoldable pub parse_unsigned : Text → Option ℕ
parse_unsigned [] = none
parse_unsigned (c ∷ rest) = parse_digits 0 (c ∷ rest)

unfoldable pub parse_usize : Text → Option ℕ
parse_usize [] = none
parse_usize (c ∷ rest) = if c == b'+' then parse_unsigned rest else parse_digits 0 (c ∷ rest)
