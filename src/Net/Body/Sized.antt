-- ===== src/Net/Body/Sized.antt =====
-- `read_http_request_body` of src/net.rs: a body of known length.
use mux_runtime.Common.{
  ℕ, zero, suc, ◌+◌, ◌≤◌, ◌<◌, ◌≡◌, refl, sym, ap, ◌∙◌, inl, inr, false, List, [], ◌∷◌, ◌++◌,
  append-nil, append_assoc, ltb, Bool-cases, ok, err, length, take, length-append, arith,
}
use mux_runtime.Common.Text.{Text}
use mux_runtime.Net.Body.{Read, received, failed, closed_in_body, fill_body, read_http_request_body}
use mux_runtime.Net.Body.Arrival.{bytes_of, Alive}

pub take-append_le : (n : ℕ) (xs ys : Text) → n ≤ length xs → take n (xs ++ ys) ≡ take n xs
take-append_le zero xs ys h = refl
take-append_le (suc n) [] ys h = absurd (omega arith)
take-append_le (suc n) (x ∷ xs) ys h = ap (λ t. x ∷ t) (take-append_le n xs ys (omega arith))

pub take-take : (n : ℕ) (xs : Text) → take n (take n xs) ≡ take n xs
take-take zero xs = refl
take-take (suc n) [] = refl
take-take (suc n) (x ∷ xs) = ap (λ t. x ∷ t) (take-take n xs)

-- The bytes that the loop leaves begin with those wanted.
pub fill_body-take :
    (body : Text) (n : ℕ) (reads : List Read)
    → Alive reads
    → n ≤ length body + length (bytes_of reads)
    → (filled : Text) × (fill_body body n reads ≡ ok filled)
      × (take n filled ≡ take n (body ++ bytes_of reads))
unfolding fill_body
fill_body-take body n [] alive long =
    (body, ground (arith, long), ap (λ t. take n t) (sym (append-nil body)))
fill_body-take body n (failed ∷ reads) alive long = cc (alive)
fill_body-take body n (received [] ∷ reads) alive long = cc (alive)
fill_body-take body n (received (c ∷ bytes) ∷ reads) alive long =
    let all = append_assoc body (c ∷ bytes) (bytes_of reads) in
    let one = length-append body (c ∷ bytes) in
    let rest = length-append (c ∷ bytes) (bytes_of reads) in
    elim (Bool-cases (ltb (length body) n)) [
      | inr full ↦ (
        body,
        rw full refl,
        sym (take-append_le n body (c ∷ bytes ++ bytes_of reads) (ground arith)),
      )
      | inl short ↦ elim (Bool-cases (ltb n (length (body ++ c ∷ bytes)))) [
        | inl over ↦ (
          take n (body ++ c ∷ bytes),
          rw (short, over) refl,
          take-take n (body ++ c ∷ bytes)
              ∙ sym (take-append_le n (body ++ c ∷ bytes) (bytes_of reads) (ground arith))
              ∙ ap (λ t. take n t) all,
        )
        | inr more ↦
            let (filled, loop, same) =
              fill_body-take (body ++ c ∷ bytes) n reads alive (omega (arith, one, rest, long)) in
            (filled, rw (short, more) loop, same ∙ ap (λ t. take n t) all)
      ]
    ]

pub fill_body-short :
    (body : Text) (n : ℕ) (reads : List Read)
    → Alive reads
    → length body + length (bytes_of reads) < n
    → fill_body body n reads ≡ err closed_in_body
unfolding fill_body
fill_body-short body n [] alive short = ground (arith, short)
fill_body-short body n (failed ∷ reads) alive short = cc (alive)
fill_body-short body n (received [] ∷ reads) alive short = cc (alive)
fill_body-short body n (received (c ∷ bytes) ∷ reads) alive short = ground (
  arith,
  length-append body (c ∷ bytes),
  length-append (c ∷ bytes) (bytes_of reads),
  fill_body-short (body ++ c ∷ bytes) n reads alive (
      omega
        (arith, length-append body (c ∷ bytes), length-append (c ∷ bytes) (bytes_of reads), short)),
)

-- A body within the limit is the first bytes of the connection, as many as the header says, in
-- whatever reads they come, each of which gives something; where fewer come the call fails.
pub read_http_request_body-bytes :
    (reads : List Read) (initial_body : Text) (n max_body_bytes : ℕ)
    → Alive reads
    → n ≤ max_body_bytes
    → (n ≤ length initial_body + length (bytes_of reads)
        → read_http_request_body reads initial_body n max_body_bytes
          ≡ ok (take n (initial_body ++ bytes_of reads)))
      × (length initial_body + length (bytes_of reads) < n
          → read_http_request_body reads initial_body n max_body_bytes ≡ err closed_in_body)
unfolding read_http_request_body
read_http_request_body-bytes reads initial_body n max_body_bytes alive few =
    let within : ltb max_body_bytes n ≡ false = ground arith in
    (
      λ long.
          let (filled, loop, same) = fill_body-take initial_body n reads alive long in
          rw (within, loop, same) refl,
      λ short. rw (within, fill_body-short initial_body n reads alive short) refl,
    )
