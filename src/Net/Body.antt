-- ===== src/Net/Body.antt =====
pub mod Chunked
pub mod Arrival
pub mod Lines
pub mod Fill
pub mod Decode
pub mod Sized
pub mod Rounds
mod Tests
-- How src/net.rs finds the body of an HTTP request in the bytes of a connection: by Content-Length or
-- by chunks. A connection is the list of what its reads give; one that has ended reads nothing.
use mux_runtime.Common.{
  ℕ, zero, suc, ◌+◌, ◌-◌, ◌*◌, ◌^◌, Bool, true, false, ◌&&◌, ◌||◌, not, Option, none, some, List,
  [], ◌∷◌, ◌++◌, ltb, leb, ◌==◌, if◌then◌else◌, min, Result, ok, err, ◌>>=◌, length, take, drop,
}
use mux_runtime.Common.Text.{
  Text, eqb_text, has_byte, eq_ignore_ascii_case, is_alphanumeric, split_at, parse_usize,
}

-- One read of a socket
pub data Read : Type 0 where
  received : Text → Read
  failed : Read

pub data HttpError : Type 0 where
  read_failed : HttpError
  closed_in_headers : HttpError
  closed_in_body : HttpError
  closed_in_chunks : HttpError
  headers_too_large : HttpError
  body_too_large : HttpError
  line_too_large : HttpError
  not_utf8 : HttpError
  invalid_chunk_size : HttpError
  missing_crlf : HttpError
  trailers_too_large : HttpError
  too_many_trailers : HttpError
  invalid_trailer : HttpError
  invalid_name : HttpError
  invalid_value : HttpError
  forbidden_trailer : HttpError
  invalid_length : HttpError
  conflicting_lengths : HttpError
  invalid_coding : HttpError
  unsupported_coding : HttpError
  repeated_coding : HttpError
  coding_and_length : HttpError
  body_without_length : HttpError
  out_of_rounds : HttpError

-- `str::from_utf8` and `trim` of the standard library
pub record Strings : Type 0 where
  pub valid_utf8 : Text → Bool
  pub trim : Text → Text

pub record Limits : Type 0 where
  pub max_header_bytes : ℕ
  pub max_body_bytes : ℕ

-- A connection: the bytes read so far, how far they are used, and the reads to come
pub record Connection : Type 0 where
  pub buffer : Text
  pub cursor : ℕ
  pub incoming : List Read

-- `windows(2).position(...)` for the end of a line, and `windows(4)` for the end of the headers
unfoldable pub find_crlf : Text → Option ℕ
find_crlf [] = none
find_crlf (c ∷ []) = none
find_crlf (c ∷ d ∷ rest) =
    if (c == 13) && (d == 10)
    then some 0
    else (elim (find_crlf (d ∷ rest)) [ none ↦ none | some n ↦ some (suc n) ])

abbrev pub starts_with_double_crlf : Text → Bool
starts_with_double_crlf (a ∷ b ∷ c ∷ d ∷ rest) = (a == 13) && (b == 10) && (c == 13) && (d == 10)
starts_with_double_crlf _ = false

unfoldable pub find_double_crlf : Text → Option ℕ
find_double_crlf [] = none
find_double_crlf (c ∷ rest) =
    if starts_with_double_crlf (c ∷ rest)
    then some 0
    else (elim (find_double_crlf rest) [ none ↦ none | some n ↦ some (suc n) ])

unfoldable pub http_header_end_within_limit : Text → ℕ → Result HttpError (Option ℕ)
http_header_end_within_limit buffer max_header_bytes = elim (find_double_crlf buffer) [
  | some position ↦
      if ltb max_header_bytes (position + 4)
      then err headers_too_large
      else ok (some (position + 4))
  | none ↦ if ltb max_header_bytes (length buffer) then err headers_too_large else ok none
]

-- The bytes behind a read, where `closed` is the error for a peer that has gone
abbrev pub extended : HttpError → Text → Read → Result HttpError Text
extended closed buffer failed = err read_failed
extended closed buffer (received []) = err closed
extended closed buffer (received (c ∷ bytes)) = ok (buffer ++ c ∷ bytes)

unfoldable pub read_http_request_headers :
    ℕ → Text → List Read → Result HttpError (Text × ℕ × List Read)
read_http_request_headers max_header_bytes buffer [] = err closed_in_headers
read_http_request_headers max_header_bytes buffer (read ∷ reads) =
    extended closed_in_headers buffer read >>= λ more.
    http_header_end_within_limit more max_header_bytes >>= λ found. elim found [
      | some header_end ↦ ok (more, header_end, reads)
      | none ↦ read_http_request_headers max_header_bytes more reads
    ]

-- The loop of `read_http_request_body`
unfoldable pub fill_body : Text → ℕ → List Read → Result HttpError Text
fill_body body content_length [] =
    if ltb (length body) content_length then err closed_in_body else ok body
fill_body body content_length (read ∷ reads) =
    if ltb (length body) content_length
    then (extended closed_in_body body read >>= λ more.
        if ltb content_length (length more)
        then ok (take content_length more)
        else fill_body more content_length reads)
    else ok body

unfoldable pub read_http_request_body : List Read → Text → ℕ → ℕ → Result HttpError Text
read_http_request_body reads initial_body content_length max_body_bytes =
    if ltb max_body_bytes content_length
    then err body_too_large
    else (fill_body initial_body content_length reads >>= λ body. ok (take content_length body))

-- `buffer.get(cursor..cursor + 2) == Some(b"\r\n")`
abbrev pub has_crlf : Text → Bool
has_crlf (c ∷ d ∷ rest) = (c == 13) && (d == 10)
has_crlf _ = false

module _ (limits : Limits) where
  -- `read_more_http_bytes`, of one read
  unfoldable pub read_more_http_bytes : Text → Read → Result HttpError Text
  read_more_http_bytes buffer read = extended closed_in_chunks buffer read >>= λ more.
      if ltb (min (limits.max_body_bytes + limits.max_header_bytes) (2 ^ 64 - 1)) (length more)
      then err body_too_large
      else ok more

  -- Is the line that is not complete yet too long? Only the line of a chunk size is asked.
  abbrev pub line_is_too_large : Bool → Text → ℕ → Bool
  line_is_too_large limited buffer cursor =
      limited && ltb limits.max_header_bytes (length buffer - cursor)

  unfoldable pub read_http_line_end :
      Bool → Text → ℕ → List Read → Result HttpError (ℕ × Text × List Read)
  read_http_line_end limited buffer cursor [] = elim (find_crlf (drop cursor buffer)) [
    | some relative ↦ ok (cursor + relative, buffer, [])
    | none ↦
        if line_is_too_large limited buffer cursor then err line_too_large else err closed_in_chunks
  ]
  read_http_line_end limited buffer cursor (read ∷ reads) = elim (find_crlf (drop cursor buffer)) [
    | some relative ↦ ok (cursor + relative, buffer, read ∷ reads)
    | none ↦
        if line_is_too_large limited buffer cursor
        then err line_too_large
        else (read_more_http_bytes buffer read >>= λ more.
            read_http_line_end limited more cursor reads)
  ]

  -- The loop of `read_chunk_data`
  unfoldable pub fill_chunk : Text → ℕ → ℕ → List Read → Result HttpError (Text × List Read)
  fill_chunk buffer cursor wanted [] =
      if ltb (length buffer - cursor) wanted then err closed_in_chunks else ok (buffer, [])
  fill_chunk buffer cursor wanted (read ∷ reads) =
      if ltb (length buffer - cursor) wanted
      then (read_more_http_bytes buffer read >>= λ more. fill_chunk more cursor wanted reads)
      else ok (buffer, read ∷ reads)

  -- The data of one chunk, and the connection behind it
  unfoldable pub read_chunk_data : Connection → ℕ → Result HttpError (Text × Connection)
  read_chunk_data c size =
      fill_chunk c.buffer c.cursor (min (size + 2) (2 ^ 64 - 1)) c.incoming >>= λ (buffer, reads).
      if has_crlf (drop (c.cursor + size) buffer)
      then ok (
        take size (drop c.cursor buffer),
        record { buffer = buffer; cursor = c.cursor + size + 2; incoming = reads },
      )
      else err missing_crlf
