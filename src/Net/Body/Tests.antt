-- ===== src/Net/Body/Tests.antt =====
-- Request bodies of src/net.rs at concrete connections.
use mux_runtime.Common.{
  ◌+◌, ◌<◌, ◌≤◌, ◌≡◌, refl, true, some, List, [], ◌∷◌, ◌++◌, ok, err, length, take, arith,
}
use mux_runtime.Common.Text.{Text, parse_usize, parse_digits}
use mux_runtime.Net.Body.{
  Read, received, Strings, Limits, read_http_request_body, closed_in_body, body_without_length,
  conflicting_lengths,
}
use mux_runtime.Net.Body.Chunked.{
  read_chunked_http_request_body, from_hex, hex_digits, hex_value, before_byte, request_body,
  length_loop, content_length, header_content_length_pairs, request_uses_chunked_transfer_encoding,
  codings,
}
use mux_runtime.Net.Body.Arrival.{bytes_of}
use mux_runtime.Net.Body.Decode.{
  read_chunked_http_request_body-wire, wire, payloads, IsSizeLine, Chunks,
}
use mux_runtime.Net.Body.Rounds.{Ends, read_chunked_http_request_body-Ends}
use mux_runtime.Net.Body.Sized.{read_http_request_body-bytes}

abbrev any_strings : Strings
any_strings = record { valid_utf8 = λ text. true; trim = λ text. text }

abbrev small : Limits
small = record { max_header_bytes = 16; max_body_bytes = 8 }

-- "hello"
abbrev hello : Text
hello = b'h' ∷ b'e' ∷ b'l' ∷ b'l' ∷ b'o' ∷ []

abbrev one_chunk : Chunks
one_chunk = (b'5' ∷ [], hello) ∷ []

-- "5\r\nhello\r\n0\r\n\r\n", in a beginning and two reads
abbrev beginning : Text
beginning = b'5' ∷ 13 ∷ []

abbrev two_reads : List Read
two_reads =
    received (10 ∷ b'h' ∷ b'e' ∷ b'l' ∷ [])
    ∷ received (b'l' ∷ b'o' ∷ 13 ∷ 10 ∷ b'0' ∷ 13 ∷ 10 ∷ 13 ∷ 10 ∷ [])
    ∷ []

five-IsSizeLine : IsSizeLine any_strings small (b'5' ∷ []) 5
unfolding from_hex hex_digits hex_value before_byte
five-IsSizeLine = record { plain = refl; utf8 = refl; size_lem = refl; fits = omega arith }

zero-IsSizeLine : IsSizeLine any_strings small (b'0' ∷ []) 0
unfolding from_hex hex_digits hex_value before_byte
zero-IsSizeLine = record { plain = refl; utf8 = refl; size_lem = refl; fits = omega arith }

read_chunked_http_request_body-wire_example :
    read_chunked_http_request_body any_strings small two_reads beginning 4 ≡ ok hello
unfolding wire payloads
read_chunked_http_request_body-wire_example =
    read_chunked_http_request_body-wire any_strings small one_chunk (b'0' ∷ []) [] beginning
      two_reads 4 (five-IsSizeLine, omega arith, tt) zero-IsSizeLine refl tt (omega arith)
      (omega arith) (omega arith)

-- A size with a plus sign is taken, as `from_str_radix` takes it.
signed_size_test : from_hex (b'+' ∷ b'5' ∷ []) ≡ some 5
unfolding from_hex hex_digits hex_value
signed_size_test = refl

abbrev h_only : Text
h_only = b'h' ∷ []

read_http_request_body-bytes_example :
    (4 ≤ length h_only + length (bytes_of (received hello ∷ []))
      → read_http_request_body (received hello ∷ []) h_only 4 8
        ≡ ok (take 4 (h_only ++ bytes_of (received hello ∷ []))))
    × (length h_only + length (bytes_of (received hello ∷ [])) < 4
        → read_http_request_body (received hello ∷ []) h_only 4 8 ≡ err closed_in_body)
read_http_request_body-bytes_example =
    read_http_request_body-bytes (received hello ∷ []) h_only 4 8 tt (omega arith)

-- Two lengths that disagree, and a body that no header announces
conflicting_lengths_test :
    request_body any_strings small
      ((content_length, b'1' ∷ []) ∷ (content_length, b'2' ∷ []) ∷ [])
      4
      []
      []
    ≡ err conflicting_lengths
unfolding request_body header_content_length_pairs length_loop parse_usize parse_digits
conflicting_lengths_test = refl

unannounced_test : request_body any_strings small [] 4 (b'h' ∷ []) [] ≡ err body_without_length
unfolding request_body header_content_length_pairs length_loop
    request_uses_chunked_transfer_encoding codings
unannounced_test = refl

-- A connection that ends in the line of a size
read_chunked_http_request_body-Ends_example :
    Ends (read_chunked_http_request_body any_strings small (received beginning ∷ []) [] 4)
read_chunked_http_request_body-Ends_example =
    read_chunked_http_request_body-Ends small any_strings (received beginning ∷ []) [] 4
      (omega arith)
