-- ===== src/Stream/Reading.antt =====
-- p2p/helper.go: `io.ReadFull` over the reader's buffer and what is on its way.
use dheart.Common.{
  ℕ, ◌+◌, ◌-◌, ◌≤◌, ◌<◌, ◌≡◌, refl, ap, sym, ◌∙◌, some, [], ◌∷◌, ◌++◌, arith, true, false, length,
  length-append, leb, leb_false→lt, take-append, drop-append, Bool-cases, inl, inr,
}
use dheart.Stream.{Bytes, Segments, header_length, buffer_size, fetch, read_full}
use dheart.Stream.Fetching.{flatten, AllFull, Reads, append-split, fetch-Reads, fetch_whole}

read_full_buffered :
    (n : ℕ) (a b c buffer : Bytes) (segments more : Segments)
    → length a ≡ n
    → leb n (length buffer) ≡ true
    → buffer ≡ a ++ c
    → b ≡ c ++ flatten segments
    → AllFull segments
    → Reads (read_full n (record { buffer = buffer; segments = segments ++ more })) a b more
unfolding read_full
read_full_buffered n a b c buffer segments more e enough whole rest f = record {
  buffer = c;
  segments = segments;
  returned = rw enough (rw (whole, take-append n a c e, drop-append n a c e) refl);
  left = sym rest;
  full = f;
}

read_full_fetched :
    (n : ℕ) (a b c buffer : Bytes) (segments more : Segments)
    → length a ≡ n
    → length buffer < n
    → a ≡ buffer ++ c
    → (length c ≡ n - length buffer → Reads (fetch (n - length buffer) (segments ++ more)) c b more)
    → Reads (read_full n (record { buffer = buffer; segments = segments ++ more })) a b more
unfolding read_full
read_full_fetched n a b c buffer segments more e short whole rest =
    let size : length a ≡ length buffer + length c = ap length whole ∙ length-append buffer c in
    let small : leb n (length buffer) ≡ false = ground arith in
    let reads = rest (omega arith) in
    record {
      buffer = reads.buffer;
      segments = reads.segments;
      returned = rw (small, reads.returned, whole) refl;
      left = reads.left;
      full = reads.full;
    }

-- `io.ReadFull` takes exactly the first bytes of what is buffered and on its way.
pub read_full-Reads :
    (n : ℕ) (a b buffer : Bytes) (segments more : Segments)
    → length a ≡ n
    → buffer ++ flatten segments ≡ a ++ b
    → AllFull segments
    → Reads (read_full n (record { buffer = buffer; segments = segments ++ more })) a b more
read_full-Reads n a b buffer segments more e l f = elim (Bool-cases (leb n (length buffer))) [
  | inl enough ↦
      let (c, whole, rest) = append-split a b buffer (flatten segments) (sym l) (ground arith) in
      read_full_buffered n a b c buffer segments more e enough whole rest f
  | inr short ↦
      let (c, whole, rest) = append-split buffer (flatten segments) a b l (ground arith) in
      read_full_fetched n a b c buffer segments more e (leb_false→lt n (length buffer) short) whole
        (λ size. fetch-Reads (n - length buffer) c b segments more (ground arith) size rest f)
]

-- The header comes with a segment that goes into the buffer whole.
pub read_full_whole :
    (a c : Bytes) (more : Segments)
    → length a ≡ header_length
    → length (a ++ c) ≤ buffer_size
    → read_full header_length (record { buffer = []; segments = (a ++ c) ∷ more })
      ≡ some (a, record { buffer = c; segments = more })
unfolding read_full
read_full_whole a c more e h =
    rw (read_full, fetch_whole header_length a c more e (omega arith) h) refl

-- A read from the buffer.
pub read_full_from_buffer :
    (a c : Bytes) (more : Segments)
    → read_full (length a) (record { buffer = a ++ c; segments = more })
      ≡ some (a, record { buffer = c; segments = more })
unfolding read_full
read_full_from_buffer a c more =
    let enough : leb (length a) (length (a ++ c)) ≡ true = ground (arith, length-append a c) in
    rw (enough, take-append (length a) a c refl, drop-append (length a) a c refl) refl
