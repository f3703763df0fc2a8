-- ===== src/Net/Body/Decode.antt =====
-- `read_chunked_http_request_body` of src/net.rs over the chunked form of a body.
use mux_runtime.Common.{
  ℕ, zero, suc, ◌+◌, ◌-◌, ◌≤◌, ◌<◌, ◌^◌, ◌≡◌, refl, sym, ap, ◌∙◌, true, false, some, List, [], ◌∷◌,
  ◌++◌, append-nil, append_assoc, ltb, ◌==◌, min, Result, ok, length, take, drop, length-append,
  take-append, arith,
}
use mux_runtime.Common.Text.{Text, has_byte}
use mux_runtime.Net.Body.{Read, HttpError, Strings, Limits, Connection}
use mux_runtime.Net.Body.Chunked.{
  from_hex, before_byte, read_chunk_size, trailer_round, read_chunked_request_trailers, chunk_loop,
  read_chunked_http_request_body,
}
use mux_runtime.Net.Body.Arrival.{bytes_of, Alive, most_bytes, IsAt}
use mux_runtime.Net.Body.Lines.{read_http_line_end-line}
use mux_runtime.Net.Body.Fill.{read_chunk_data-payload}

-- Chunks: the line of the size, extensions included, and the data
abbrev pub Chunks : Type 0
Chunks = List (Text × Text)

-- Their form on the wire, with the line of the last chunk, no trailers, and what comes behind
unfoldable pub wire : Chunks → Text → Text → Text
wire [] last rest = last ++ 13 ∷ 10 ∷ 13 ∷ 10 ∷ rest
wire ((line, payload) ∷ chunks) last rest =
    line ++ 13 ∷ 10 ∷ (payload ++ 13 ∷ 10 ∷ wire chunks last rest)

unfoldable pub payloads : Chunks → Text
payloads [] = []
payloads ((line, payload) ∷ chunks) = payload ++ payloads chunks

module _ (strings : Strings) (limits : Limits) where
  -- A line that gives a size within the limit of a header
  pub record IsSizeLine (line : Text) (size : ℕ) : Type 0 where
    pub plain : has_byte 13 line ≡ false
    pub utf8 : strings.valid_utf8 line ≡ true
    pub size_lem : from_hex (strings.trim (before_byte b';' line)) ≡ some size
    pub fits : length line + 1 ≤ limits.max_header_bytes

  -- Each chunk holds something, as much as its line says.
  abbrev pub AreSized : Chunks → Type 0
  AreSized [] = Unit
  AreSized ((line, payload) ∷ chunks) =
      IsSizeLine line (length payload) × (0 < length payload) × AreSized chunks

  pub record SizeRead (c : Connection) (size : ℕ) (tail : Text) : Type 0 where
    pub next : Connection
    pub read_lem : read_chunk_size strings limits c ≡ ok (size, next)
    pub at : IsAt limits next.buffer next.cursor next.incoming tail

  pub read_chunk_size-line :
      (c : Connection) (line tail : Text) (size : ℕ)
      → IsSizeLine line size
      → IsAt limits c.buffer c.cursor c.incoming (line ++ 13 ∷ 10 ∷ tail)
      → SizeRead c size tail
  unfolding read_chunk_size
  read_chunk_size-line c line tail size sized at =
      let read =
        read_http_line_end-line limits true c.buffer c.cursor c.incoming line tail sized.plain
          sized.fits at in
      let taken : take (c.cursor + length line - c.cursor) (drop c.cursor read.next) ≡ line =
        ap (λ t. take (c.cursor + length line - c.cursor) t) read.seen
        ∙ take-append (c.cursor + length line - c.cursor) line (13 ∷ 10 ∷ read.more)
            (omega arith) in
      record {
        next = record {
          buffer = read.next;
          cursor = c.cursor + length line + 2;
          incoming = read.rest;
        };
        read_lem = rw (read.read_lem, taken, sized.utf8, sized.size_lem) refl;
        at = read.at;
      }

  pub trailer_round-end :
      (c : Connection) (rest : Text) (go : Text → ℕ → Connection → Result {0, 0} HttpError Unit)
      → 1 ≤ limits.max_header_bytes
      → IsAt limits c.buffer c.cursor c.incoming (13 ∷ 10 ∷ rest)
      → trailer_round strings limits 0 c go ≡ ok tt
  unfolding trailer_round
  trailer_round-end c rest go room at =
      let read =
        read_http_line_end-line limits false c.buffer c.cursor c.incoming [] rest refl
          (omega (arith, room)) at in
      let taken : take (c.cursor + 0 - c.cursor) (drop c.cursor read.next) ≡ [] =
        take-append (c.cursor + 0 - c.cursor) [] (drop c.cursor read.next) (omega arith) in
      rw (read.read_lem, taken) refl

  pub read_chunked_request_trailers-end :
      (left : ℕ) (c : Connection) (rest : Text)
      → 1 ≤ limits.max_header_bytes
      → IsAt limits c.buffer c.cursor c.incoming (13 ∷ 10 ∷ rest)
      → read_chunked_request_trailers strings limits left 0 c ≡ ok tt
  unfolding read_chunked_request_trailers
  read_chunked_request_trailers-end zero c rest room at = trailer_round-end c rest _ room at
  read_chunked_request_trailers-end (suc left) c rest room at = trailer_round-end c rest _ room at

  -- The loop over the chunks that are left, each of which takes one round
  pub chunk_loop-wire :
      (chunks : Chunks) (last rest : Text) (rounds max_trailers : ℕ) (body : Text) (c : Connection)
      → length chunks < rounds
      → length body + length (payloads chunks) ≤ limits.max_body_bytes
      → limits.max_body_bytes + 2 ≤ 2 ^ 64 - 1
      → AreSized chunks
      → IsSizeLine last 0
      → IsAt limits c.buffer c.cursor c.incoming (wire chunks last rest)
      → chunk_loop strings limits rounds max_trailers body c ≡ ok (body ++ payloads chunks)
  unfolding chunk_loop wire payloads
  chunk_loop-wire chunks last rest zero max_trailers body c less few machine sized ends at =
      absurd (omega arith)
  chunk_loop-wire [] last rest (suc rounds) max_trailers body c less few machine sized ends at =
      let size = read_chunk_size-line c last (13 ∷ 10 ∷ rest) 0 ends at in
      let done =
        read_chunked_request_trailers-end max_trailers size.next rest (omega (arith, ends.fits))
          size.at in
      rw (size.read_lem, done) (ap ok (sym (append-nil body)))
  chunk_loop-wire ((line, payload) ∷ chunks) last rest (suc rounds) max_trailers body c less few
        machine (sized, full, all) ends at =
      let size =
        read_chunk_size-line c line (payload ++ 13 ∷ 10 ∷ wire chunks last rest) (length payload)
          sized at in
      let pair = length-append payload (payloads chunks) in
      let chunk =
        read_chunk_data-payload limits size.next payload (wire chunks last rest)
          (omega (arith, few, machine, pair)) size.at in
      let some_size : (length payload == 0) ≡ false = ground (arith, full) in
      let fits : ltb limits.max_body_bytes (min (length body + length payload) (2 ^ 64 - 1))
          ≡ false =
        ground (arith, few, pair) in
      let later =
        chunk_loop-wire chunks last rest rounds max_trailers (body ++ payload) chunk.next
          (omega (arith, less)) (omega (arith, few, pair, length-append body payload)) machine all
          ends chunk.at in
      rw (size.read_lem, some_size, fits, chunk.read_lem)
        (later ∙ ap ok (append_assoc body payload (payloads chunks)))

  pub length-payloads :
      (chunks : Chunks) → AreSized chunks → length chunks ≤ length (payloads chunks)
  unfolding payloads
  length-payloads [] sized = omega arith
  length-payloads ((line, payload) ∷ chunks) (here, full, sized) =
      omega (arith, length-append payload (payloads chunks), length-payloads chunks sized, full)

  -- The body is the data of the chunks, in whatever reads the bytes come: each read gives something,
  -- each chunk holds as much as its line says and something, the last line says zero, no trailer
  -- follows, and the bytes are within the limits.
  pub read_chunked_http_request_body-wire :
      (chunks : Chunks) (last rest initial_body : Text) (reads : List Read) (max_trailers : ℕ)
      → AreSized chunks
      → IsSizeLine last 0
      → initial_body ++ bytes_of reads ≡ wire chunks last rest
      → Alive reads
      → length (payloads chunks) ≤ limits.max_body_bytes
      → limits.max_body_bytes + 2 ≤ 2 ^ 64 - 1
      → length (wire chunks last rest) ≤ most_bytes limits
      → read_chunked_http_request_body strings limits reads initial_body max_trailers
        ≡ ok (payloads chunks)
  unfolding read_chunked_http_request_body
  read_chunked_http_request_body-wire chunks last rest initial_body reads max_trailers sized ends
        arrived alive few machine total =
      chunk_loop-wire chunks last rest (suc limits.max_body_bytes) max_trailers []
        (record { buffer = initial_body; cursor = 0; incoming = reads })
        (omega (arith, length-payloads chunks sized, few)) (omega (arith, few)) machine sized ends
        (record {
          left_lem = arrived;
          cursor_le = omega arith;
          alive = alive;
          few =
              omega (arith, ap length arrived, length-append initial_body (bytes_of reads), total);
        })
