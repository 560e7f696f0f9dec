-- ===== src/Wire/Frame/RoundTrip.antt =====
-- What a frame's bytes read as, whole and cut short.
use orlop.Prelude.{
  ℕ, ◌+◌, ◌-◌, ◌^◌, ◌≤◌, ◌<◌, true, List, [], ◌∷◌, ◌++◌, length, take, take-append, drop-append,
  take-all, take-append_more, length-take, append_assoc, subst, length-append, ltb, ◌==◌,
  if◌then◌else◌, ok, err, ◌≡◌, refl, sym, ap, ◌∙◌, ◌||◌, put_uint, uint-put_uint, take-put_uint,
  drop-put_uint, length-put_uint, arith, Bool-cases, inl, inr, List-cases,
}
use orlop.Wire.Frame.{
  Frame, eof, unexpected_eof, header, max_payload_len, is_valid, write_frame, read_full,
  read_payload, read_header, read_frame,
}

length-header : (f : Frame) → length (header f) ≡ 16
length-header f = omega (
  arith,
  length-append (put_uint 8 f.rid) (0 ∷ 0 ∷ put_uint 4 (length f.payload)),
  length-put_uint 8 f.rid,
  length-put_uint 4 (length f.payload),
)

take_whole : (w n : ℕ) → take w (put_uint w n) ≡ put_uint w n
take_whole w n =
    subst (λ k. take k (put_uint w n) ≡ put_uint w n) (length-put_uint w n)
      (take-all (put_uint w n))

-- The fields of a written header, before its payload is read.
read_header-header :
    (f : Frame) (rest : List ℕ)
    → is_valid f.op ≡ true
    → f.rid < 2 ^ 64
    → length f.payload ≤ max_payload_len
    → read_header (header f) rest ≡ read_payload f.op f.flags f.rid (length f.payload) rest
unfolding read_header
read_header-header f rest known small short =
    let tail = 0 ∷ 0 ∷ put_uint 4 (length f.payload) in
    rw
      (
        take-put_uint 8 f.rid tail,
        drop-put_uint 8 f.rid tail,
        take_whole 4 (length f.payload),
        uint-put_uint 8 f.rid (omega (arith, small)),
        uint-put_uint 4 (length f.payload) (omega (arith, short)),
        known,
      )
      (ground (arith, short))

-- A full read of what was put in front of a stream.
read_full-append :
    (n : ℕ) (xs ys : List ℕ) → length xs ≡ n → 0 < n → read_full n (xs ++ ys) ≡ ok (xs, ys)
read_full-append n [] ys size some_bytes = ground (arith, size, some_bytes)
read_full-append n (x ∷ xs) ys size some_bytes =
    rw (sym size, take-append xs ys, drop-append xs ys) (ground (arith, length-append xs ys))

-- A full read of a stream that is too short.
read_full-short :
    (n : ℕ) (xs : List ℕ)
    → length xs < n
    → read_full n xs ≡ err (if length xs == 0 then eof else unexpected_eof)
read_full-short n [] short = refl
read_full-short n (x ∷ xs) short = ground (arith, short)

-- The header is read, and the payload is what is left to read.
read_frame-header :
    (f : Frame) (rest : List ℕ)
    → is_valid f.op ≡ true
    → f.rid < 2 ^ 64
    → length f.payload ≤ max_payload_len
    → read_frame (header f ++ rest) ≡ read_payload f.op f.flags f.rid (length f.payload) rest
unfolding read_frame
read_frame-header f rest known small short =
    rw (read_full-append 16 (header f) rest (length-header f) (omega arith))
      (read_header-header f rest known small short)

read_payload-whole :
    (f : Frame) (rest : List ℕ)
    → read_payload f.op f.flags f.rid (length f.payload) (f.payload ++ rest) ≡ ok (f, rest)
unfolding read_payload
read_payload-whole f rest = elim (List-cases f.payload) [
  | inl e ↦ rw e refl
  | inr (b, bs, e) ↦
      rw (read_full-append (length f.payload) f.payload rest refl (rw e (omega arith)))
        (ground (arith, e))
]

read_payload-cut :
    (f : Frame) (n : ℕ)
    → n < length f.payload
    → read_payload f.op f.flags f.rid (length f.payload) (take n f.payload)
      ≡ err (if n == 0 then eof else unexpected_eof)
unfolding read_payload
read_payload-cut f n cut =
    rw
      (
        read_full-short (length f.payload) (take n f.payload)
            (omega (arith, cut, length-take n f.payload (omega (arith, cut)))),
        length-take n f.payload (omega (arith, cut)),
      )
      (ground (arith, cut))

-- What is written of a frame with a known code, a request number of 64 bits and a payload that is not too long reads back
-- as the frame, and the stream goes on behind it.
pub read_frame-write_frame :
    (f : Frame) (rest : List ℕ)
    → is_valid f.op ≡ true
    → f.rid < 2 ^ 64
    → length f.payload ≤ max_payload_len
    → (bytes : List ℕ) × (write_frame f ≡ ok bytes) × (read_frame (bytes ++ rest) ≡ ok (f, rest))
unfolding write_frame
read_frame-write_frame f rest known small short = (
  header f ++ f.payload,
  ground (arith, short),
  ap read_frame (append_assoc (header f) f.payload rest)
      ∙ read_frame-header f (f.payload ++ rest) known small short
      ∙ read_payload-whole f rest,
)

cut-early :
    (n : ℕ) (bytes : List ℕ)
    → length bytes ≡ n
    → n < 16
    → read_frame bytes ≡ err (if n == 0 || n == 16 then eof else unexpected_eof)
unfolding read_frame
cut-early n bytes size early =
    rw (read_full-short 16 bytes (omega (arith, size, early)), size) (ground (arith, early))

-- A stream that closes within a frame is at its end if it closes before the first byte or right behind the header, and
-- closed unexpectedly if it closes anywhere else.
pub read_frame-truncated :
    (f : Frame) (n : ℕ)
    → is_valid f.op ≡ true
    → f.rid < 2 ^ 64
    → length f.payload ≤ max_payload_len
    → n < 16 + length f.payload
    → read_frame (take n (header f ++ f.payload))
      ≡ err (if n == 0 || n == 16 then eof else unexpected_eof)
read_frame-truncated f n known small short cut =
    let sixteen = length-header f in
    elim (Bool-cases (ltb n 16)) [
      | inl e ↦
          cut-early n (take n (header f ++ f.payload))
            (length-take n (header f ++ f.payload)
              (omega (arith, cut, length-append (header f) f.payload, sixteen)))
            (ground (arith, e))
      | inr e ↦
          let above : 16 ≤ n = ground (arith, e) in
          let left : n - length (header f) < length f.payload =
            omega (arith, cut, above, sixteen) in
          ap read_frame (take-append_more (header f) f.payload n (omega (arith, above, sixteen)))
          ∙ read_frame-header f (take (n - length (header f)) f.payload) known small short
          ∙ read_payload-cut f (n - length (header f)) left
          ∙ ground (arith, above, sixteen)
    ]
