-- ===== src/Net/Body/Fill.antt =====
-- `read_chunk_data` of src/net.rs over the bytes of a connection.
use mux_runtime.Common.{
  ℕ, ◌+◌, ◌-◌, ◌≤◌, ◌^◌, ◌≡◌, refl, ap, ◌∙◌, inl, inr, true, List, [], ◌∷◌, ◌++◌, ltb, min,
  Bool-cases, ok, length, take, drop, length-append, length-drop, take-append, arith,
}
use mux_runtime.Common.Text.{Text}
use mux_runtime.Net.Body.{
  Read, received, failed, Limits, Connection, fill_chunk, read_chunk_data, has_crlf,
}
use mux_runtime.Net.Body.Arrival.{
  bytes_of, drop-drop, drop-append_length, seen_long, IsAt, read-IsAt, behind-IsAt,
}

module _ (limits : Limits) where
  pub record Filled (buffer : Text) (cursor wanted : ℕ) (reads : List Read) (left : Text)
      : Type 0 where
    pub next : Text
    pub rest : List Read
    pub fill_lem : fill_chunk limits buffer cursor wanted reads ≡ ok (next, rest)
    pub enough : wanted ≤ length (drop cursor next)
    pub at : IsAt limits next cursor rest left

  -- As much as is left is read, in however many reads it comes.
  pub fill_chunk-Filled :
      (buffer : Text) (cursor wanted : ℕ) (reads : List Read) (left : Text)
      → wanted ≤ length left
      → IsAt limits buffer cursor reads left
      → Filled buffer cursor wanted reads left
  unfolding fill_chunk
  fill_chunk-Filled buffer cursor wanted [] left long at =
      let enough : wanted ≤ length (drop cursor buffer) =
        omega (arith, ap length at.left_lem, length-append (drop cursor buffer) [], long) in
      record {
        next = buffer;
        rest = [];
        fill_lem = ground (arith, enough, length-drop cursor buffer);
        enough = enough;
        at = at;
      }
  fill_chunk-Filled buffer cursor wanted (failed ∷ reads) left long at = cc (at.alive)
  fill_chunk-Filled buffer cursor wanted (received [] ∷ reads) left long at = cc (at.alive)
  fill_chunk-Filled buffer cursor wanted (received (c ∷ bytes) ∷ reads) left long at =
      elim (Bool-cases (ltb (length buffer - cursor) wanted)) [
        | inl short ↦
            let (grown, at_more) = read-IsAt limits buffer cursor c bytes reads left at in
            let later =
              fill_chunk-Filled (buffer ++ c ∷ bytes) cursor wanted reads left long at_more in
            record {
              next = later.next;
              rest = later.rest;
              fill_lem = rw (short, grown) later.fill_lem;
              enough = later.enough;
              at = later.at;
            }
        | inr full ↦ record {
          next = buffer;
          rest = received (c ∷ bytes) ∷ reads;
          fill_lem = rw full refl;
          enough = ground (arith, length-drop cursor buffer);
          at = at;
        }
      ]

  pub has_crlf-behind :
      (payload more : Text) → has_crlf (drop (length payload) (payload ++ 13 ∷ 10 ∷ more)) ≡ true
  has_crlf-behind payload more = ap (λ t. has_crlf t) (drop-append_length payload (13 ∷ 10 ∷ more))

  pub record ChunkRead (c : Connection) (payload tail : Text) : Type 0 where
    pub next : Connection
    pub read_lem : read_chunk_data limits c (length payload) ≡ ok (payload, next)
    pub at : IsAt limits next.buffer next.cursor next.incoming tail

  -- The data of a chunk that is left is read with its line end.
  pub read_chunk_data-payload :
      (c : Connection) (payload tail : Text)
      → length payload + 2 ≤ 2 ^ 64 - 1
      → IsAt limits c.buffer c.cursor c.incoming (payload ++ 13 ∷ 10 ∷ tail)
      → ChunkRead c payload tail
  unfolding read_chunk_data
  read_chunk_data-payload c payload tail small at =
      let wanted = min (length payload + 2) (2 ^ 64 - 1) in
      let filled =
        fill_chunk-Filled c.buffer c.cursor wanted c.incoming (payload ++ 13 ∷ 10 ∷ tail)
          (omega (arith, length-append payload (13 ∷ 10 ∷ tail))) at in
      let (more, seen, rest) =
        seen_long payload (drop c.cursor filled.next) (bytes_of filled.rest) tail filled.at.left_lem
          (omega (arith, filled.enough, small)) in
      let ends : has_crlf (drop (c.cursor + length payload) filled.next) ≡ true =
        ap (λ t. has_crlf t)
          (drop-drop c.cursor (length payload) filled.next ∙ ap (λ t. drop (length payload) t) seen)
        ∙ has_crlf-behind payload more in
      let taken : take (length payload) (drop c.cursor filled.next) ≡ payload =
        ap (λ t. take (length payload) t) seen
        ∙ take-append (length payload) payload (13 ∷ 10 ∷ more) refl in
      record {
        next = record {
          buffer = filled.next;
          cursor = c.cursor + length payload + 2;
          incoming = filled.rest;
        };
        read_lem = rw (filled.fill_lem, ends, taken) refl;
        at =
            behind-IsAt limits filled.next c.cursor filled.rest (payload ++ 13 ∷ 10 ∷ tail) payload
              more tail filled.at seen rest;
      }
