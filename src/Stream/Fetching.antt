-- ===== src/Stream/Fetching.antt =====
-- p2p/helper.go: what a reader takes from a stream.
use mathlib.Core.List.{append_assoc}
use dheart.Common.{
  ℕ, zero, suc, ◌+◌, ◌-◌, ◌≤◌, ◌<◌, ◌≡◌, refl, ap, ap₂, sym, ◌∙◌, Option, some, List, [], ◌∷◌, ◌++◌,
  arith, true, false, length, length-append, length-drop, ltb, leb, ltb→lt, lt→ltb, leb_false→lt,
  ◌==◌, take, drop, take-append, drop-append, take-append-drop, All, Bool-cases, inl, inr,
}
use dheart.Stream.{Bytes, Segments, Reader, buffer_size, fetch}

-- All bytes of the segments, in order.
unfoldable pub flatten : Segments → Bytes
flatten [] = []
flatten (segment ∷ segments) = segment ++ flatten segments

-- No segment is empty.
abbrev pub AllFull : Segments → Type 0
AllFull = All (λ (segment : Bytes). 1 ≤ length segment)

-- Two splits of one list, the first of them no later.
pub append-split {ℓ} :
    {A : Type ℓ} (x y a b : List A)
    → x ++ y ≡ a ++ b
    → length x ≤ length a
    → (c : List A) × (a ≡ x ++ c) × (y ≡ c ++ b)
append-split [] y a b e h = (a, refl, e)
append-split (u ∷ x) y [] b e h = absurd (omega arith)
append-split (u ∷ x) y (v ∷ a) b e h =
    let (c, p, q) = append-split x y a b (cc) (omega arith) in
    let same : v ≡ u = cc in (c, ap₂ ◌∷◌ same p, q)

drop-take-drop {ℓ} :
    {A : Type ℓ} (n m : ℕ) (xs : List A) → n ≤ m → drop n (take m xs) ++ drop m xs ≡ drop n xs
drop-take-drop zero m xs h = take-append-drop m xs
drop-take-drop (suc n) zero xs h = absurd (omega arith)
drop-take-drop (suc n) (suc m) [] h = refl
drop-take-drop (suc n) (suc m) (x ∷ xs) h = drop-take-drop n m xs (omega arith)

-- A read returned the bytes `a`, and left the bytes `b` in the buffer and in segments before `more`.
pub record Reads (result : Option (Bytes × Reader)) (a b : Bytes) (more : Segments) : Type 0 where
  pub buffer : Bytes
  pub segments : Segments
  pub returned : result ≡ some (a, record { buffer = buffer; segments = segments ++ more })
  pub left : buffer ++ flatten segments ≡ b
  pub full : AllFull segments

no_length {ℓ} : {A : Type ℓ} (xs : List A) → length xs ≡ 0 → xs ≡ []
no_length [] e = refl
no_length (x ∷ xs) e = absurd (omega arith)

pub take_all {ℓ} : {A : Type ℓ} (n : ℕ) (xs : List A) → length xs ≤ n → take n xs ≡ xs
take_all zero [] h = refl
take_all (suc n) [] h = refl
take_all zero (x ∷ xs) h = absurd (omega arith)
take_all (suc n) (x ∷ xs) h = ap (λ r. x ∷ r) (take_all n xs (omega arith))

drop_spare {ℓ} : {A : Type ℓ} (n : ℕ) (xs : List A) → n < length xs → 1 ≤ length (drop n xs)
drop_spare n xs h = let e = length-drop n xs in omega arith

below : (n : ℕ) → leb buffer_size n ≡ false → n ≤ buffer_size
below n h = ground arith

-- The last read of a `fetch`, from a segment that holds all of `a`.
pub fetch_last :
    (n : ℕ) (a c : Bytes) (segments more : Segments)
    → length a ≡ n
    → AllFull segments
    → Reads (fetch n ((a ++ c) ∷ (segments ++ more))) a (c ++ flatten segments) more
unfolding fetch flatten
fetch_last n a c segments more e f =
    let long : ltb (length (a ++ c)) n ≡ false = ground (arith, length-append a c) in
    let prefix : take n (a ++ c) ≡ a = take-append n a c e in
    let suffix : drop n (a ++ c) ≡ c = drop-append n a c e in
    let size : length (a ++ c) ≡ n + length c = ground (arith, length-append a c) in
    elim (Bool-cases (leb buffer_size n)) [
      | inl big ↦ elim (Bool-cases (length (a ++ c) == n)) [
        | inl exact ↦ record {
          buffer = [];
          segments = segments;
          returned = rw (long, big, exact, prefix) refl;
          left = ap (λ x. x ++ flatten segments) (sym (no_length c (ground arith)));
          full = f;
        }
        | inr spare ↦ record {
          buffer = [];
          segments = c ∷ segments;
          returned = rw (long, big, spare, prefix, suffix) refl;
          left = refl;
          full = (ground arith, f);
        }
      ]
      | inr small ↦ elim (Bool-cases (leb (length (a ++ c)) buffer_size)) [
        | inl whole ↦ record {
          buffer = c;
          segments = segments;
          returned =
              rw (long, small, whole, prefix, take_all buffer_size (a ++ c) (ground arith), suffix)
                refl;
          left = refl;
          full = f;
        }
        | inr spare ↦ record {
          buffer = drop n (take buffer_size (a ++ c));
          segments = drop buffer_size (a ++ c) ∷ segments;
          returned = rw (long, small, spare, prefix) refl;
          left =
              sym (
                append_assoc (drop n (take buffer_size (a ++ c))) (drop buffer_size (a ++ c))
                  (flatten segments))
              ∙ ap (λ x. x ++ flatten segments)
                  (drop-take-drop n buffer_size (a ++ c) (below n small) ∙ suffix);
          full = (
            drop_spare buffer_size (a ++ c) (leb_false→lt (length (a ++ c)) buffer_size spare),
            f,
          );
        }
      ]
    ]

fetch_step :
    (n : ℕ) (a b segment : Bytes) (segments more : Segments)
    → length segment < n
    → Reads (fetch (n - length segment) (segments ++ more)) a b more
    → Reads (fetch n ((segment ∷ segments) ++ more)) (segment ++ a) b more
unfolding fetch flatten
fetch_step n a b segment segments more short reads = record {
  buffer = reads.buffer;
  segments = reads.segments;
  returned = rw (lt→ltb (length segment) n short, reads.returned) refl;
  left = reads.left;
  full = reads.full;
}

fetch_within :
    (n : ℕ) (a b c segment : Bytes) (segments more : Segments)
    → length a ≡ n
    → segment ≡ a ++ c
    → b ≡ c ++ flatten segments
    → AllFull segments
    → Reads (fetch n (segment ∷ (segments ++ more))) a b more
fetch_within n a b c segment segments more e whole rest f =
    rw (whole, rest) (fetch_last n a c segments more e f)

fetch_across :
    (n : ℕ) (a b c segment : Bytes) (segments more : Segments)
    → length segment < n
    → length a ≡ n
    → a ≡ segment ++ c
    → (length c ≡ n - length segment
        → Reads (fetch (n - length segment) (segments ++ more)) c b more)
    → Reads (fetch n ((segment ∷ segments) ++ more)) a b more
fetch_across n a b c segment segments more short e whole rest =
    let size : length a ≡ length segment + length c = ap length whole ∙ length-append segment c in
    rw whole (fetch_step n c b segment segments more short (rest (omega arith)))

-- `fetch` takes exactly the first bytes, in however many segments they come.
pub fetch-Reads :
    (n : ℕ) (a b : Bytes) (segments more : Segments)
    → 0 < n
    → length a ≡ n
    → flatten segments ≡ a ++ b
    → AllFull segments
    → Reads (fetch n (segments ++ more)) a b more
unfolding flatten
fetch-Reads n a b [] more p e l f = absurd (ground (arith, ap length l, length-append a b))
fetch-Reads n a b (segment ∷ segments) more p e l f = elim (Bool-cases (ltb (length segment) n)) [
  | inl short ↦
      let (c, whole, rest) = append-split segment (flatten segments) a b l (ground arith) in
      fetch_across n a b c segment segments more (ltb→lt (length segment) n short) e whole
        (λ size. fetch-Reads (n - length segment) c b segments more (ground arith) size rest f.1)
  | inr long ↦
      let (c, whole, rest) = append-split a b segment (flatten segments) (sym l) (ground arith) in
      fetch_within n a b c segment segments more e whole rest f.1
]

pub fetch_whole :
    (n : ℕ) (a c : Bytes) (more : Segments)
    → length a ≡ n
    → n < buffer_size
    → length (a ++ c) ≤ buffer_size
    → fetch n ((a ++ c) ∷ more) ≡ some (a, record { buffer = c; segments = more })
unfolding fetch
fetch_whole n a c more e small h =
    let all : leb (length (a ++ c)) buffer_size ≡ true = ground arith in
    let enough : ltb (length (a ++ c)) n ≡ false = ground (arith, length-append a c) in
    let short : leb buffer_size n ≡ false = ground arith in
    rw
      (
        enough,
        short,
        take_all buffer_size (a ++ c) h,
        take-append n a c e,
        drop-append n a c e,
        all,
      )
      refl
