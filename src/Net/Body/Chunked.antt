-- ===== src/Net/Body/Chunked.antt =====
-- The chunks of a request body, their trailers, and the choice of the framing (src/net.rs).
use mux_runtime.Common.{
  ℕ, zero, suc, ◌+◌, ◌-◌, ◌*◌, ◌^◌, Bool, true, false, ◌&&◌, ◌||◌, not, Option, none, some, List,
  [], ◌∷◌, ◌++◌, ltb, leb, ◌==◌, if◌then◌else◌, min, Result, ok, err, ◌>>=◌, length, take, drop,
}
use mux_runtime.Common.Text.{Text, has_byte, eq_ignore_ascii_case, split_at, parse_usize}
use mux_runtime.Net.Route.Match.{is_http_token}
use mux_runtime.Net.Body.{
  Read, HttpError, Strings, Limits, Connection, read_http_line_end, read_chunk_data,
  read_http_request_body, not_utf8, body_too_large, invalid_chunk_size, trailers_too_large,
  too_many_trailers, invalid_trailer, invalid_name, invalid_value, forbidden_trailer,
  invalid_length, conflicting_lengths, invalid_coding, unsupported_coding, repeated_coding,
  coding_and_length, body_without_length, out_of_rounds,
}

-- `usize::from_str_radix(_, 16)`: digits behind an optional plus sign, in 64 bits
unfoldable pub hex_value : ℕ → Option ℕ
hex_value c =
    if leb b'0' c && leb c b'9'
    then some (c - b'0')
    else if leb b'a' c && leb c b'f'
    then some (c - b'a' + 10)
    else if leb b'A' c && leb c b'F'
    then some (c - b'A' + 10)
    else none

unfoldable pub hex_digits : ℕ → Text → Option ℕ
hex_digits value [] = some value
hex_digits value (c ∷ rest) = elim (hex_value c) [
  | none ↦ none
  | some digit ↦
      if ltb (value * 16 + digit) (2 ^ 64) then hex_digits (value * 16 + digit) rest else none
]

unfoldable pub from_hex : Text → Option ℕ
from_hex [] = none
from_hex (c ∷ []) = if c == b'+' then none else hex_digits 0 (c ∷ [])
from_hex (c ∷ d ∷ rest) = if c == b'+' then hex_digits 0 (d ∷ rest) else hex_digits 0 (c ∷ d ∷ rest)

-- `header_value`
unfoldable pub has_control : Text → Bool
has_control [] = false
has_control (c ∷ rest) =
    ((c == 13) || (c == 10) || (ltb c 32 && not (c == 9)) || (c == 127)) || has_control rest

-- The names of the two framing headers, "content-length" and "transfer-encoding", and "chunked"
abbrev pub content_length : Text
content_length =
    b'c' ∷ b'o' ∷ b'n' ∷ b't' ∷ b'e' ∷ b'n' ∷ b't' ∷ b'-' ∷ b'l' ∷ b'e' ∷ b'n' ∷ b'g' ∷ b't' ∷ b'h'
    ∷ []

abbrev pub transfer_encoding : Text
transfer_encoding =
    b't' ∷ b'r' ∷ b'a' ∷ b'n' ∷ b's' ∷ b'f' ∷ b'e' ∷ b'r' ∷ b'-' ∷ b'e' ∷ b'n' ∷ b'c' ∷ b'o' ∷ b'd'
    ∷ b'i' ∷ b'n' ∷ b'g' ∷ []

abbrev pub chunked : Text
chunked = b'c' ∷ b'h' ∷ b'u' ∷ b'n' ∷ b'k' ∷ b'e' ∷ b'd' ∷ []

abbrev pub max_http_body_bytes : ℕ
max_http_body_bytes = 16 * 1024 * 1024

-- A header: its name and its value
abbrev pub Header : Type 0
Header = Text × Text

-- `position` of a byte and `split_at` there: what stands before it, and what behind it
unfoldable pub before_byte : ℕ → Text → Text
before_byte c [] = []
before_byte c (b ∷ rest) = if b == c then [] else b ∷ before_byte c rest

unfoldable pub behind_byte : ℕ → Text → Text
behind_byte c [] = []
behind_byte c (b ∷ rest) = if b == c then rest else behind_byte c rest

-- The tokens of one Transfer-Encoding value, `seen` if one before was `chunked`
unfoldable pub coding_loop : Bool → List Text → Result HttpError Bool
coding_loop seen [] = ok seen
coding_loop seen ([] ∷ rest) = err invalid_coding
coding_loop seen ((c ∷ token) ∷ rest) =
    if not (eq_ignore_ascii_case (c ∷ token) chunked)
    then err unsupported_coding
    else if seen
    then err repeated_coding
    else coding_loop true rest

abbrev pub is_known : Option ℕ → Bool
is_known none = false
is_known (some len) = true

module _ (strings : Strings) where
  unfoldable pub validate_http_request_trailer : Text → Result {0, 0} HttpError Unit
  validate_http_request_trailer line =
      if not (has_byte b':' line)
      then err invalid_trailer
      else if not (strings.valid_utf8 (before_byte b':' line))
      then err not_utf8
      else if not (strings.valid_utf8 (behind_byte b':' line))
      then err not_utf8
      else if not (is_http_token (before_byte b':' line))
      then err invalid_name
      else if has_control (strings.trim (behind_byte b':' line))
      then err invalid_value
      else if eq_ignore_ascii_case (before_byte b':' line) content_length
          || eq_ignore_ascii_case (before_byte b':' line) transfer_encoding
      then err forbidden_trailer
      else ok tt

  abbrev pub length_conflicts : Option ℕ → ℕ → Bool
  length_conflicts none parsed = false
  length_conflicts (some known) parsed = not (known == parsed)

  -- The lengths one after the other, with the one known so far
  unfoldable pub length_loop : Option ℕ → List Header → Result HttpError (Option ℕ)
  length_loop known [] = ok known
  length_loop known ((name, value) ∷ rest) =
      if not (eq_ignore_ascii_case name content_length)
      then length_loop known rest
      else (elim (parse_usize (strings.trim value)) [
        | none ↦ err invalid_length
        | some parsed ↦
            if length_conflicts known parsed
            then err conflicting_lengths
            else length_loop (some parsed) rest
      ])

  unfoldable pub header_content_length_pairs : List Header → Result HttpError (Option ℕ)
  header_content_length_pairs headers = length_loop none headers >>= λ known. elim known [
    | none ↦ ok none
    | some len ↦ if ltb max_http_body_bytes len then err body_too_large else ok (some len)
  ]

  abbrev pub trim_all : List Text → List Text
  trim_all [] = []
  trim_all (token ∷ rest) = strings.trim token ∷ trim_all rest

  unfoldable pub codings : Bool → List Header → Result HttpError Bool
  codings seen [] = ok seen
  codings seen ((name, value) ∷ rest) =
      if not (eq_ignore_ascii_case name transfer_encoding)
      then codings seen rest
      else (let (token, tokens) = split_at b',' value in
          coding_loop seen (trim_all (token ∷ tokens)) >>= λ now. codings now rest)

  unfoldable pub request_uses_chunked_transfer_encoding : List Header → Result HttpError Bool
  request_uses_chunked_transfer_encoding headers = codings false headers

  module _ (limits : Limits) where
    unfoldable pub read_chunk_size : Connection → Result HttpError (ℕ × Connection)
    read_chunk_size c =
        read_http_line_end limits true c.buffer c.cursor c.incoming >>= λ (line_end, buffer, reads).
        let line = take (line_end - c.cursor) (drop c.cursor buffer) in
        if not (strings.valid_utf8 line)
        then err not_utf8
        else (elim (from_hex (strings.trim (before_byte b';' line))) [
          | none ↦ err invalid_chunk_size
          | some size ↦
              ok (size, record { buffer = buffer; cursor = line_end + 2; incoming = reads })
        ])

    -- One trailer line; `go` is what happens to one that is not empty.
    unfoldable pub trailer_round :
        ℕ
        → Connection
        → (Text → ℕ → Connection → Result {0, 0} HttpError Unit)
        → Result {0, 0} HttpError Unit
    trailer_round trailer_bytes c go =
        read_http_line_end limits false c.buffer c.cursor c.incoming
        >>= λ (line_end, buffer, reads).
            let line = take (line_end - c.cursor) (drop c.cursor buffer) in
            if length line == 0
            then ok tt
            else if ltb limits.max_header_bytes (trailer_bytes + length line + 2)
            then err trailers_too_large
            else go line (trailer_bytes + length line + 2)
                (record { buffer = buffer; cursor = line_end + 2; incoming = reads })

    -- The first argument is the number of trailers that may still come.
    unfoldable pub read_chunked_request_trailers : ℕ → ℕ → Connection → Result {0, 0} HttpError Unit
    read_chunked_request_trailers zero trailer_bytes c =
        trailer_round trailer_bytes c (λ line bytes next. err too_many_trailers)
    read_chunked_request_trailers (suc left) trailer_bytes c =
        trailer_round trailer_bytes c (λ line bytes next.
          validate_http_request_trailer line >>= λ valid.
          read_chunked_request_trailers left bytes next)

    -- The loop over the chunks, on rounds: each but the last makes the body longer.
    unfoldable pub chunk_loop : ℕ → ℕ → Text → Connection → Result HttpError Text
    chunk_loop zero max_trailers body c = err out_of_rounds
    chunk_loop (suc rounds) max_trailers body c = read_chunk_size c >>= λ (size, behind_size).
        if size == 0
        then (read_chunked_request_trailers max_trailers 0 behind_size >>= λ done. ok body)
        else if ltb limits.max_body_bytes (min (length body + size) (2 ^ 64 - 1))
        then err body_too_large
        else (read_chunk_data limits behind_size size >>= λ (chunk, next).
            chunk_loop rounds max_trailers (body ++ chunk) next)

    unfoldable pub read_chunked_http_request_body : List Read → Text → ℕ → Result HttpError Text
    read_chunked_http_request_body reads initial_body max_trailers =
        chunk_loop (suc limits.max_body_bytes) max_trailers []
          (record { buffer = initial_body; cursor = 0; incoming = reads })

    -- The body of a request whose headers are read: the middle of `read_typed_http_request_with_limits`
    unfoldable pub request_body : List Header → ℕ → Text → List Read → Result HttpError Text
    request_body headers max_headers initial_body reads =
        header_content_length_pairs headers >>= λ content_length.
        request_uses_chunked_transfer_encoding headers >>= λ is_chunked.
        if is_chunked && is_known content_length
        then err coding_and_length
        else if is_chunked
        then read_chunked_http_request_body reads initial_body (max_headers - length headers)
        else (elim content_length [
          | some len ↦ read_http_request_body reads initial_body len limits.max_body_bytes
          | none ↦
              if length initial_body == 0
              then read_http_request_body reads initial_body 0 limits.max_body_bytes
              else err body_without_length
        ])
