-- ===== src/Net/Body/Arrival.antt =====
-- The bytes that the reads of a connection give, and a place in them (src/net.rs).
use mathlib.Core.Path.{Path}
use mux_runtime.Common.{
  ℕ, zero, suc, ◌+◌, ◌-◌, ◌≤◌, ◌^◌, ◌≡◌, refl, sym, ap, ◌∙◌, ◌⊎◌, inl, inr, true, false, none, some,
  List, [], ◌∷◌, ◌++◌, append_assoc, ◌==◌, min, ok, length, drop, length-append, length-drop, arith,
}
use mux_runtime.Common.Text.{Text, has_byte}
use mux_runtime.Net.Body.{Read, received, failed, Limits, find_crlf, read_more_http_bytes}

-- The bytes that reads give
abbrev pub bytes_of : List Read → Text
bytes_of [] = []
bytes_of (received bytes ∷ reads) = bytes ++ bytes_of reads
bytes_of (failed ∷ reads) = []

-- Every read gives something.
abbrev pub Alive : List Read → Type 0
Alive [] = Unit
Alive (received [] ∷ reads) = true ≡ false
Alive (received (c ∷ bytes) ∷ reads) = Alive reads
Alive (failed ∷ reads) = true ≡ false

pub drop-append_le : (n : ℕ) (xs ys : Text) → n ≤ length xs → drop n (xs ++ ys) ≡ drop n xs ++ ys
drop-append_le zero xs ys h = refl
drop-append_le (suc n) [] ys h = absurd (omega arith)
drop-append_le (suc n) (x ∷ xs) ys h = drop-append_le n xs ys (omega arith)

pub drop-nil : (n : ℕ) → Path Text (drop n []) []
drop-nil zero = refl
drop-nil (suc n) = refl

pub drop-drop : (n m : ℕ) (xs : Text) → drop (n + m) xs ≡ drop m (drop n xs)
drop-drop zero m xs = ap (λ k. drop k xs) (let e : 0 + m ≡ m = omega arith in e)
drop-drop (suc n) m [] = drop-nil (suc n + m) ∙ sym (drop-nil m)
drop-drop (suc n) m (x ∷ xs) =
    ap (λ k. drop k (x ∷ xs)) (let e : suc n + m ≡ suc (n + m) = omega arith in e)
    ∙ drop-drop n m xs

pub drop-append_length : (xs ys : Text) → drop (length xs) (xs ++ ys) ≡ ys
drop-append_length [] ys = refl
drop-append_length (x ∷ xs) ys = drop-append_length xs ys

-- The end of a line
pub find_crlf-line :
    (line more : Text)
    → has_byte 13 line ≡ false
    → find_crlf (line ++ 13 ∷ 10 ∷ more) ≡ some (length line)
unfolding find_crlf
find_crlf-line [] more h = refl
find_crlf-line (c ∷ []) more h = ground arith
find_crlf-line (c ∷ d ∷ line) more h = ground (arith, find_crlf-line (d ∷ line) more)

pub find_crlf-none :
    (c : ℕ) (text : Text) → (c == 13) ≡ false → find_crlf text ≡ none → find_crlf (c ∷ text) ≡ none
unfolding find_crlf
find_crlf-none c [] h g = refl
find_crlf-none c (d ∷ text) h g = rw (h, g) refl

-- What is seen of a line that is to come: the whole of it, or too little.
pub seen_line :
    (line seen rest tail : Text)
    → has_byte 13 line ≡ false
    → seen ++ rest ≡ line ++ 13 ∷ 10 ∷ tail
    → ((more : Text) × (seen ≡ line ++ 13 ∷ 10 ∷ more) × (more ++ rest ≡ tail))
      ⊎ ((find_crlf seen ≡ none) × (length seen ≤ suc (length line)))
unfolding find_crlf
seen_line [] [] rest tail h e = inr (refl, omega arith)
seen_line [] (c ∷ []) rest tail h e = inr (refl, omega arith)
seen_line [] (c ∷ d ∷ more) rest tail h e = inl (more, cc, cc)
seen_line (l ∷ line) [] rest tail h e = inr (refl, omega arith)
seen_line (l ∷ line) (c ∷ seen) rest tail h e =
    elim (seen_line line seen rest tail (ground arith) (cc)) [
      | inl (more, seen_lem, rest_lem) ↦ inl (more, cc, rest_lem)
      | inr (unfound, short) ↦
          let c_lem : c ≡ l = cc in
          inr (find_crlf-none c seen (rw c_lem (ground arith)) unfound, omega arith)
    ]

pub seen_long :
    (payload seen rest tail : Text)
    → seen ++ rest ≡ payload ++ 13 ∷ 10 ∷ tail
    → length payload + 2 ≤ length seen
    → (more : Text) × (seen ≡ payload ++ 13 ∷ 10 ∷ more) × (more ++ rest ≡ tail)
seen_long [] [] rest tail e h = absurd (omega arith)
seen_long [] (c ∷ []) rest tail e h = absurd (omega arith)
seen_long [] (c ∷ d ∷ more) rest tail e h = (more, cc, cc)
seen_long (p ∷ payload) [] rest tail e h = absurd (omega arith)
seen_long (p ∷ payload) (c ∷ seen) rest tail e h =
    let (more, seen_lem, rest_lem) = seen_long payload seen rest tail (cc) (omega arith) in
    (more, cc, rest_lem)

module _ (limits : Limits) where
  abbrev pub most_bytes : ℕ
  most_bytes = min (limits.max_body_bytes + limits.max_header_bytes) (2 ^ 64 - 1)

  -- A buffer and reads with `left` before the cursor's end: what is behind the cursor and to come
  pub record IsAt (buffer : Text) (cursor : ℕ) (reads : List Read) (left : Text) : Type 0 where
    pub left_lem : drop cursor buffer ++ bytes_of reads ≡ left
    pub cursor_le : cursor ≤ length buffer
    pub alive : Alive reads
    pub few : length buffer + length (bytes_of reads) ≤ most_bytes

  -- One more read keeps what is left.
  pub read-IsAt :
      (buffer : Text) (cursor : ℕ) (c : ℕ) (bytes : Text) (reads : List Read) (left : Text)
      → IsAt buffer cursor (received (c ∷ bytes) ∷ reads) left
      → (read_more_http_bytes limits buffer (received (c ∷ bytes)) ≡ ok (buffer ++ c ∷ bytes))
        × IsAt (buffer ++ c ∷ bytes) cursor reads left
  unfolding read_more_http_bytes
  read-IsAt buffer cursor c bytes reads left at =
      let total = length-append (buffer ++ c ∷ bytes) (bytes_of reads) in
      let one = length-append buffer (c ∷ bytes) in
      let all = length-append (c ∷ bytes) (bytes_of reads) in
      let few = at.few in
      (
        ground (arith, one, all, few),
        record {
          left_lem =
              ap (λ t. t ++ bytes_of reads) (drop-append_le cursor buffer (c ∷ bytes) at.cursor_le)
              ∙ append_assoc (drop cursor buffer) (c ∷ bytes) (bytes_of reads)
              ∙ at.left_lem;
          cursor_le = omega (arith, one, at.cursor_le);
          alive = at.alive;
          few = omega (arith, one, all, few);
        },
      )

  -- Behind a part that is seen with its line end, the rest is left.
  pub behind-IsAt :
      (buffer : Text) (cursor : ℕ) (reads : List Read) (left part more tail : Text)
      → IsAt buffer cursor reads left
      → drop cursor buffer ≡ part ++ 13 ∷ 10 ∷ more
      → more ++ bytes_of reads ≡ tail
      → IsAt buffer (cursor + length part + 2) reads tail
  behind-IsAt buffer cursor reads left part more tail at seen rest =
      let moved : drop (cursor + length part + 2) buffer ≡ more =
        drop-drop (cursor + length part) 2 buffer
        ∙ ap (λ t. drop 2 t)
            (drop-drop cursor (length part) buffer
              ∙ ap (λ t. drop (length part) t) seen
              ∙ drop-append_length part (13 ∷ 10 ∷ more)) in
      record {
        left_lem = ap (λ t. t ++ bytes_of reads) moved ∙ rest;
        cursor_le = omega (
          arith,
          ap length seen,
          length-append part (13 ∷ 10 ∷ more),
          length-drop cursor buffer,
          at.cursor_le,
        );
        alive = at.alive;
        few = at.few;
      }
