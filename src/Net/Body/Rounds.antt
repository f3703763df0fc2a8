-- ===== src/Net/Body/Rounds.antt =====
-- The rounds of `read_chunked_http_request_body` (src/net.rs), on any input.
use mux_runtime.Common.{
  ℕ, zero, suc, ◌+◌, ◌-◌, ◌≤◌, ◌<◌, ◌^◌, ◌≡◌, refl, inl, inr, Bool, true, false, ◌||◌, not,
  Bool-cases, Option, none, some, List, [], ◌∷◌, ◌++◌, ltb, ◌==◌, if◌then◌else◌, min, Result, ok,
  err, ◌>>=◌, >>=-eq-ok, length, take, drop, length-append, length-take, length-drop, arith,
}
use mux_runtime.Common.Text.{Text, has_byte, eq_ignore_ascii_case}
use mux_runtime.Net.Route.Match.{is_http_token}
use mux_runtime.Net.Body.{
  Read, received, failed, HttpError, out_of_rounds, trailers_too_large, too_many_trailers,
  invalid_trailer, invalid_name, invalid_value, forbidden_trailer, not_utf8, invalid_chunk_size,
  missing_crlf, closed_in_chunks, body_too_large, line_too_large, line_is_too_large, Strings,
  Limits, Connection, find_crlf, has_crlf, extended, read_more_http_bytes, read_http_line_end,
  fill_chunk, read_chunk_data,
}
use mux_runtime.Net.Body.Chunked.{
  from_hex, before_byte, behind_byte, has_control, content_length, transfer_encoding,
  validate_http_request_trailer, read_chunk_size, trailer_round, read_chunked_request_trailers,
  chunk_loop, read_chunked_http_request_body,
}

abbrev pub is_rounds : HttpError → Bool
is_rounds out_of_rounds = true
is_rounds _ = false

-- The call does not fail for want of rounds.
pub data Ends {ℓ} {A : Type ℓ} : Result HttpError A → Type ℓ where
  returns : (value : A) → Ends (ok value)
  fails : (e : HttpError) → is_rounds e ≡ false → Ends (err e)

module _ {ℓ κ} {A : Type ℓ} {B : Type κ} where
  pub bind-Ends :
      (first : Result HttpError A) (next : A → Result HttpError B)
      → Ends first
      → ((value : A) → first ≡ ok value → Ends (next value))
      → Ends (first >>= next)
  bind-Ends (ok value) next ends go = go value refl
  bind-Ends (err e) next (fails _ other) go = fails e other

  pub option-Ends :
      (o : Option A) (x : Result HttpError B) (go : A → Result HttpError B)
      → Ends x
      → ((value : A) → Ends (go value))
      → Ends (elim o [ none ↦ x | some value ↦ go value ])
  option-Ends none x go ends all = ends
  option-Ends (some value) x go ends all = all value

module _ {ℓ} {A : Type ℓ} where
  pub if-Ends :
      (b : Bool) (x y : Result HttpError A)
      → (b ≡ true → Ends x)
      → (b ≡ false → Ends y)
      → Ends (if b then x else y)
  if-Ends true x y hx hy = hx refl
  if-Ends false x y hx hy = hy refl

pub extended-Ends :
    (closed : HttpError) (buffer : Text) (read : Read)
    → is_rounds closed ≡ false
    → Ends (extended closed buffer read)
extended-Ends closed buffer failed h = fails _ refl
extended-Ends closed buffer (received []) h = fails _ h
extended-Ends closed buffer (received (c ∷ bytes)) h = returns _

module _ (limits : Limits) where
  pub read_more_http_bytes-Ends :
      (buffer : Text) (read : Read) → Ends (read_more_http_bytes limits buffer read)
  unfolding read_more_http_bytes
  read_more_http_bytes-Ends buffer read =
      bind-Ends _ _ (extended-Ends closed_in_chunks buffer read refl) (λ more h.
        if-Ends
          (ltb (min (limits.max_body_bytes + limits.max_header_bytes) (2 ^ 64 - 1)) (length more)) _
          _ (λ t. fails body_too_large refl) (λ f. returns more))

  pub read_http_line_end-Ends :
      (limited : Bool) (buffer : Text) (cursor : ℕ) (reads : List Read)
      → Ends (read_http_line_end limits limited buffer cursor reads)
  unfolding read_http_line_end
  read_http_line_end-Ends limited buffer cursor [] =
      option-Ends (find_crlf (drop cursor buffer)) _ (λ r. ok (cursor + r, buffer, []))
        (if-Ends (line_is_too_large limits limited buffer cursor) _ _
          (λ t. fails line_too_large refl) (λ f. fails closed_in_chunks refl))
        (λ r. returns _)
  read_http_line_end-Ends limited buffer cursor (read ∷ reads) =
      option-Ends (find_crlf (drop cursor buffer)) _ (λ r. ok (cursor + r, buffer, read ∷ reads))
        (if-Ends (line_is_too_large limits limited buffer cursor) _ _
          (λ t. fails line_too_large refl)
          (λ f.
            bind-Ends _ _ (read_more_http_bytes-Ends buffer read)
              (λ more h. read_http_line_end-Ends limited more cursor reads)))
        (λ r. returns _)

  pub fill_chunk-Ends :
      (buffer : Text) (cursor wanted : ℕ) (reads : List Read)
      → Ends (fill_chunk limits buffer cursor wanted reads)
  unfolding fill_chunk
  fill_chunk-Ends buffer cursor wanted [] =
      if-Ends (ltb (length buffer - cursor) wanted) _ _ (λ t. fails closed_in_chunks refl)
        (λ f. returns _)
  fill_chunk-Ends buffer cursor wanted (read ∷ reads) =
      if-Ends (ltb (length buffer - cursor) wanted) _ _
        (λ t.
          bind-Ends _ _ (read_more_http_bytes-Ends buffer read)
            (λ more h. fill_chunk-Ends more cursor wanted reads))
        (λ f. returns _)

  pub has_crlf-length : (text : Text) → has_crlf text ≡ true → 2 ≤ length text
  has_crlf-length [] h = cc
  has_crlf-length (c ∷ []) h = cc
  has_crlf-length (c ∷ d ∷ text) h = omega arith

  -- The data of a chunk has the size asked for.
  pub read_chunk_data-length :
      (c : Connection) (size : ℕ) {chunk : Text} {next : Connection}
      → read_chunk_data limits c size ≡ ok (chunk, next)
      → length chunk ≡ size
  unfolding read_chunk_data
  read_chunk_data-length c size h =
      let ((buffer, reads), filled, after) =
        >>=-eq-ok (fill_chunk limits c.buffer c.cursor (min (size + 2) (2 ^ 64 - 1)) c.incoming) _
          h in
      elim (Bool-cases (has_crlf (drop (c.cursor + size) buffer))) [
        | inl ends ↦ ground (
          arith,
          has_crlf-length (drop (c.cursor + size) buffer) ends,
          length-drop (c.cursor + size) buffer,
          length-drop c.cursor buffer,
          length-take size (drop c.cursor buffer),
        )
        | inr open_end ↦ absurd (ground arith)
      ]

  pub read_chunk_data-Ends : (c : Connection) (size : ℕ) → Ends (read_chunk_data limits c size)
  unfolding read_chunk_data
  read_chunk_data-Ends c size =
      bind-Ends _ _ (fill_chunk-Ends c.buffer c.cursor (min (size + 2) (2 ^ 64 - 1)) c.incoming)
        (λ (filled : Text × List Read) h.
          if-Ends (has_crlf (drop (c.cursor + size) filled.0)) _ _ (λ t. returns _)
            (λ f. fails missing_crlf refl))

  module _ (strings : Strings) where
    pub read_chunk_size-Ends : (c : Connection) → Ends (read_chunk_size strings limits c)
    unfolding read_chunk_size
    read_chunk_size-Ends c =
        bind-Ends _ _ (read_http_line_end-Ends true c.buffer c.cursor c.incoming)
          (λ (line : ℕ × Text × List Read) h.
            let text = take (line.0 - c.cursor) (drop c.cursor line.1) in
            if-Ends (not (strings.valid_utf8 text)) _ _ (λ t. fails not_utf8 refl)
              (λ f.
                option-Ends (from_hex (strings.trim (before_byte b';' text))) _
                  (λ size.
                    ok (size, record { buffer = line.1; cursor = line.0 + 2; incoming = line.2 }))
                  (fails invalid_chunk_size refl) (λ size. returns _)))

    pub validate_http_request_trailer-Ends :
        (line : Text) → Ends (validate_http_request_trailer strings line)
    unfolding validate_http_request_trailer
    validate_http_request_trailer-Ends line =
        let name = before_byte b':' line in
        let value = behind_byte b':' line in
        if-Ends (not (has_byte b':' line)) _ _ (λ t. fails invalid_trailer refl)
          (λ f.
            if-Ends (not (strings.valid_utf8 name)) _ _ (λ t. fails not_utf8 refl)
              (λ f.
                if-Ends (not (strings.valid_utf8 value)) _ _ (λ t. fails not_utf8 refl)
                  (λ f.
                    if-Ends (not (is_http_token name)) _ _ (λ t. fails invalid_name refl)
                      (λ f.
                        if-Ends (has_control (strings.trim value)) _ _
                          (λ t. fails invalid_value refl)
                          (λ f.
                            if-Ends
                              (eq_ignore_ascii_case name content_length
                                || eq_ignore_ascii_case name transfer_encoding)
                              _ _ (λ t. fails forbidden_trailer refl) (λ f. returns tt))))))

    pub trailer_round-Ends :
        (trailer_bytes : ℕ) (c : Connection)
        (go : Text → ℕ → Connection → Result {0, 0} HttpError Unit)
        → ((line : Text) (bytes : ℕ) (next : Connection) → Ends (go line bytes next))
        → Ends (trailer_round strings limits trailer_bytes c go)
    unfolding trailer_round
    trailer_round-Ends trailer_bytes c go all =
        bind-Ends _ _ (read_http_line_end-Ends false c.buffer c.cursor c.incoming)
          (λ (found : ℕ × Text × List Read) h.
            let line = take (found.0 - c.cursor) (drop c.cursor found.1) in
            if-Ends (length line == 0) _ _ (λ t. returns tt)
              (λ f.
                if-Ends (ltb limits.max_header_bytes (trailer_bytes + length line + 2)) _ _
                  (λ t. fails trailers_too_large refl) (λ f. all _ _ _)))

    pub read_chunked_request_trailers-Ends :
        (left trailer_bytes : ℕ) (c : Connection)
        → Ends (read_chunked_request_trailers strings limits left trailer_bytes c)
    unfolding read_chunked_request_trailers
    read_chunked_request_trailers-Ends zero trailer_bytes c =
        trailer_round-Ends trailer_bytes c _ (λ line bytes next. fails too_many_trailers refl)
    read_chunked_request_trailers-Ends (suc left) trailer_bytes c =
        trailer_round-Ends trailer_bytes c _ (λ line bytes next.
          bind-Ends _ _ (validate_http_request_trailer-Ends line)
            (λ valid h. read_chunked_request_trailers-Ends left bytes next))

    -- Each round but the last makes the body longer, and it stays within the limit.
    pub chunk_loop-Ends :
        (rounds max_trailers : ℕ) (body : Text) (c : Connection)
        → limits.max_body_bytes < 2 ^ 64 - 1
        → limits.max_body_bytes < rounds + length body
        → length body ≤ limits.max_body_bytes
        → Ends (chunk_loop strings limits rounds max_trailers body c)
    unfolding chunk_loop
    chunk_loop-Ends zero max_trailers body c machine more within =
        absurd (omega (arith, more, within))
    chunk_loop-Ends (suc rounds) max_trailers body c machine more within =
        bind-Ends _ _ (read_chunk_size-Ends c) (λ (sized : ℕ × Connection) h.
          if-Ends (sized.0 == 0) _ _
            (λ t.
              bind-Ends _ _ (read_chunked_request_trailers-Ends max_trailers 0 sized.1)
                (λ done g. returns body))
            (λ full.
              if-Ends (ltb limits.max_body_bytes (min (length body + sized.0) (2 ^ 64 - 1))) _ _
                (λ t. fails body_too_large refl)
                (λ fits.
                  bind-Ends _ _ (read_chunk_data-Ends sized.1 sized.0)
                    (λ (chunk : Text × Connection) g.
                      let size = read_chunk_data-length sized.1 sized.0 g in
                      let grown = length-append body chunk.0 in
                      chunk_loop-Ends rounds max_trailers (body ++ chunk.0) chunk.1 machine
                        (ground (arith, size, grown, more, full))
                        (ground (arith, size, grown, machine, fits))))))

    -- On any input, where the limit of a body is below the largest usize, the call returns a body or an
    -- error of the code, and never runs out of rounds.
    pub read_chunked_http_request_body-Ends :
        (reads : List Read) (initial_body : Text) (max_trailers : ℕ)
        → limits.max_body_bytes < 2 ^ 64 - 1
        → Ends (read_chunked_http_request_body strings limits reads initial_body max_trailers)
    unfolding read_chunked_http_request_body
    read_chunked_http_request_body-Ends reads initial_body max_trailers machine =
        chunk_loop-Ends (suc limits.max_body_bytes) max_trailers [] _ machine (omega arith)
          (omega arith)
