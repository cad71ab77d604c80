-- ===== src/Engine/Signature.antt =====
-- The bytes of an Ecdsa signature.
use mathlib.Core.List.{append_assoc}
use dheart.Common.{
  take-append, drop-append, ℕ, zero, suc, ◌+◌, ◌-◌, ◌*◌, ◌≤◌, ◌≡◌, refl, ap, ◌∙◌, some, List, [],
  ◌∷◌, ◌++◌, arith, Text, length, length-append, length-replicate, replicate, take, drop,
}
use dheart.Engine.Works.{pad_to_length_bytes_for_signature, ec_signature_bytes}

-- The number that bytes stand for, the most significant first, behind `acc`.
unfoldable pub value : ℕ → Text → ℕ
value acc [] = acc
value acc (b ∷ bytes) = value (acc * 256 + b) bytes

value_zeros : (n : ℕ) (bytes : Text) → value 0 (replicate n 0 ++ bytes) ≡ value 0 bytes
unfolding value
value_zeros zero bytes = refl
value_zeros (suc n) bytes = value_zeros n bytes

length-pad :
    (src : Text) (len : ℕ)
    → length src ≤ len
    → length (pad_to_length_bytes_for_signature src len) ≡ len
unfolding pad_to_length_bytes_for_signature
length-pad src len h = omega (
  arith,
  length-append (replicate (len - length src) 0) src,
  length-replicate {A = ℕ} (len - length src) 0,
)

value_pad :
    (src : Text) (len : ℕ) → value 0 (pad_to_length_bytes_for_signature src len) ≡ value 0 src
unfolding pad_to_length_bytes_for_signature
value_pad src len = value_zeros (len - length src) src

-- A signature whose two numbers have at most 32 bytes each, with a recovery byte `v`, has 65 bytes: the
-- first 32 stand for the first number, the next 32 for the second, and `v` is the last.
pub length-ec_signature_bytes :
    (r s : Text) (v : ℕ) (rest : List ℕ)
    → length r ≤ 32
    → length s ≤ 32
    → (bytes : Text) × (ec_signature_bytes (record { r = r; s = s; signature_recovery = v ∷ rest })
        ≡ some bytes)
      × (length bytes ≡ 65)
      × (value 0 (take 32 bytes) ≡ value 0 r)
      × (value 0 (take 32 (drop 32 bytes)) ≡ value 0 s)
      × (drop 64 bytes ≡ v ∷ [])
unfolding ec_signature_bytes
length-ec_signature_bytes r s v rest hr hs =
    let pr = pad_to_length_bytes_for_signature r 32 in
    let ps = pad_to_length_bytes_for_signature s 32 in
    let lr = length-pad r 32 hr in
    let ls = length-pad s 32 hs in
    let bytes = (pr ++ ps) ++ (v ∷ []) in
    let e : bytes ≡ pr ++ (ps ++ (v ∷ [])) = append_assoc pr ps (v ∷ []) in
    let l : length (pr ++ ps) ≡ 64 = omega (arith, lr, ls, length-append pr ps) in
    (
      bytes,
      refl,
      omega (arith, l, length-append (pr ++ ps) (v ∷ [])),
      ap (value 0) (ap (take 32) e ∙ take-append 32 pr (ps ++ (v ∷ [])) lr) ∙ value_pad r 32,
      ap (value 0) (
            ap (take 32) (ap (drop 32) e ∙ drop-append 32 pr (ps ++ (v ∷ [])) lr)
            ∙ take-append 32 ps (v ∷ []) ls)
          ∙ value_pad s 32,
      drop-append 64 (pr ++ ps) (v ∷ []) l,
    )
