-- ===== src/Net/Body/Lines.antt =====
-- `read_http_line_end` of src/net.rs over the bytes of a connection.
use mux_runtime.Common.{
  ℕ, ◌+◌, ◌-◌, ◌≤◌, ◌≡◌, ap, ◌∙◌, inl, inr, Bool, false, none, some, List, [], ◌∷◌, ◌++◌, ok,
  length, drop, length-append, length-drop, arith,
}
use mux_runtime.Common.Text.{Text, has_byte}
use mux_runtime.Net.Body.{
  Read, received, failed, Limits, find_crlf, read_more_http_bytes, read_http_line_end,
}
use mux_runtime.Net.Body.Arrival.{bytes_of, find_crlf-line, seen_line, IsAt, read-IsAt, behind-IsAt}

module _ (limits : Limits) where
  pub record LineRead (limited : Bool) (buffer : Text) (cursor : ℕ) (reads : List Read)
      (line tail : Text) : Type 0 where
    pub next : Text
    pub more : Text
    pub rest : List Read
    pub read_lem :
        read_http_line_end limits limited buffer cursor reads
        ≡ ok (cursor + length line, next, rest)
    pub seen : drop cursor next ≡ line ++ 13 ∷ 10 ∷ more
    pub at : IsAt limits next (cursor + length line + 2) rest tail

  pub read_http_line_end-found :
      (limited : Bool) (buffer : Text) (cursor : ℕ) (reads : List Read) {n : ℕ}
      → find_crlf (drop cursor buffer) ≡ some n
      → read_http_line_end limits limited buffer cursor reads ≡ ok (cursor + n, buffer, reads)
  unfolding read_http_line_end
  read_http_line_end-found limited buffer cursor [] h = ground arith
  read_http_line_end-found limited buffer cursor (read ∷ reads) h = ground arith

  pub read_http_line_end-more :
      (limited : Bool) (buffer more : Text) (cursor : ℕ) (read : Read) (reads : List Read)
      → find_crlf (drop cursor buffer) ≡ none
      → length buffer - cursor ≤ limits.max_header_bytes
      → read_more_http_bytes limits buffer read ≡ ok more
      → read_http_line_end limits limited buffer cursor (read ∷ reads)
        ≡ read_http_line_end limits limited more cursor reads
  unfolding read_http_line_end
  read_http_line_end-more limited buffer more cursor read reads h small grown = ground arith

  -- A line that is left is read to its end, in however many reads it comes.
  pub read_http_line_end-line :
      (limited : Bool) (buffer : Text) (cursor : ℕ) (reads : List Read) (line tail : Text)
      → has_byte 13 line ≡ false
      → length line + 1 ≤ limits.max_header_bytes
      → IsAt limits buffer cursor reads (line ++ 13 ∷ 10 ∷ tail)
      → LineRead limited buffer cursor reads line tail
  read_http_line_end-line limited buffer cursor [] line tail plain fits at =
      elim (seen_line line (drop cursor buffer) [] tail plain at.left_lem) [
        | inl (more, seen, rest) ↦ record {
          next = buffer;
          more = more;
          rest = [];
          read_lem =
              read_http_line_end-found limited buffer cursor []
                (ap (λ t. find_crlf t) seen ∙ find_crlf-line line more plain);
          seen = seen;
          at =
              behind-IsAt limits buffer cursor [] (line ++ 13 ∷ 10 ∷ tail) line more tail at seen
                rest;
        }
        | inr (unfound, short) ↦ absurd (
            omega (
              arith,
              ap length at.left_lem,
              length-append (drop cursor buffer) [],
              length-append line (13 ∷ 10 ∷ tail),
              short,
            ))
      ]
  read_http_line_end-line limited buffer cursor (failed ∷ reads) line tail plain fits at =
      cc (at.alive)
  read_http_line_end-line limited buffer cursor (received [] ∷ reads) line tail plain fits at =
      cc (at.alive)
  read_http_line_end-line limited buffer cursor (received (c ∷ bytes) ∷ reads) line tail plain fits
        at =
      elim (seen_line line (drop cursor buffer) (c ∷ bytes ++ bytes_of reads) tail plain
        at.left_lem) [
          | inl (more, seen, rest) ↦ record {
            next = buffer;
            more = more;
            rest = received (c ∷ bytes) ∷ reads;
            read_lem =
                read_http_line_end-found limited buffer cursor (received (c ∷ bytes) ∷ reads)
                  (ap (λ t. find_crlf t) seen ∙ find_crlf-line line more plain);
            seen = seen;
            at =
                behind-IsAt limits buffer cursor (received (c ∷ bytes) ∷ reads)
                  (line ++ 13 ∷ 10 ∷ tail) line more tail at seen rest;
          }
          | inr (unfound, short) ↦
              let (grown, at_more) =
                read-IsAt limits buffer cursor c bytes reads (line ++ 13 ∷ 10 ∷ tail) at in
              let later =
                read_http_line_end-line limited (buffer ++ c ∷ bytes) cursor reads line tail plain
                  fits at_more in
              record {
                next = later.next;
                more = later.more;
                rest = later.rest;
                read_lem =
                    read_http_line_end-more limited buffer (buffer ++ c ∷ bytes) cursor
                      (received (c ∷ bytes)) reads unfound
                      (omega (arith, length-drop cursor buffer, short, fits)) grown
                    ∙ later.read_lem;
                seen = later.seen;
                at = later.at;
              }
        ]
