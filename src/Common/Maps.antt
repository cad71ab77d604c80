-- ===== src/Common/Maps.antt =====
-- Go maps with string keys, as association lists. The order of the entries stands for the order in
-- which one `range` loop visits them: what is proved for every list holds for every order.
use Prim.Native.Nat.{◌+◌, ◌≤◌}
use mathlib.Core.Path.{◌≡◌, refl, subst}
use mathlib.Core.Logic.{ite, ◌≢◌}
use mathlib.Core.Option.{Option, none, some}
use mathlib.Core.List.{List, [], ◌∷◌}
use native.Mathlib.Omega.{arith}
use dheart.Common.Texts.{Text, text_dec}
use dheart.Common.Lists.{length, All}

abbrev pub GoMap {ℓ} : Type ℓ → Type ℓ
GoMap V = List (Text × V)

module _ {ℓ} {V : Type ℓ} where
  unfoldable pub get : Text → GoMap V → Option V
  get k [] = none
  get k ((j, v) ∷ m) = ite (text_dec j k) (some v) (get k m)

  unfoldable pub put : Text → V → GoMap V → GoMap V
  put k v [] = (k, v) ∷ []
  put k v ((j, w) ∷ m) = ite (text_dec j k) ((k, v) ∷ m) ((j, w) ∷ put k v m)

  unfoldable pub delete : Text → GoMap V → GoMap V
  delete k [] = []
  delete k ((j, w) ∷ m) = ite (text_dec j k) (delete k m) ((j, w) ∷ delete k m)

  abbrev pub values : GoMap V → List V
  values [] = []
  values ((k, v) ∷ m) = v ∷ values m

  pub get-put :
      (k j : Text) (v : V) (m : GoMap V) → get j (put k v m) ≡ ite (text_dec k j) (some v) (get j m)
  unfolding get put
  get-put k j v [] = refl
  get-put k j v ((i, w) ∷ m) = ground (arith, get-put k j v m)

  pub get-put_self : (k : Text) (v : V) (m : GoMap V) → get k (put k v m) ≡ some v
  get-put_self k v m = ground (arith, get-put k k v m)

  pub get-put_ne : (k j : Text) (v : V) (m : GoMap V) → k ≢ j → get j (put k v m) ≡ get j m
  get-put_ne k j v m h = ground (arith, get-put k j v m)

  pub get-delete :
      (k j : Text) (m : GoMap V) → get j (delete k m) ≡ ite (text_dec k j) none (get j m)
  unfolding get delete
  get-delete k j [] = ground arith
  get-delete k j ((i, w) ∷ m) = ground (arith, get-delete k j m)

  -- Every key stands once, as in a Go map; `length` is then Go's `len`.
  abbrev pub IsMap : GoMap V → Type ℓ
  IsMap [] = Unit {ℓ}
  IsMap ((k, v) ∷ m) = (get k m ≡ none) × IsMap m

  pub put-IsMap : (k : Text) (v : V) (m : GoMap V) → IsMap m → IsMap (put k v m)
  unfolding get put
  put-IsMap k v [] h = (refl, tt)
  put-IsMap k v ((j, w) ∷ m) h = ground (arith, put-IsMap k v m h.1, get-put k j v m)

  pub delete-IsMap : (k : Text) (m : GoMap V) → IsMap m → IsMap (delete k m)
  unfolding get delete
  delete-IsMap k [] h = tt
  delete-IsMap k ((j, w) ∷ m) h = ground (arith, delete-IsMap k m h.1, get-delete k j m)

  pub length-put_le : (k : Text) (v : V) (m : GoMap V) → length (put k v m) ≤ length m + 1
  unfolding put
  length-put_le k v [] = omega arith
  length-put_le k v ((j, w) ∷ m) = ground (arith, length-put_le k v m)

  pub length-put_new :
      (k : Text) (v : V) (m : GoMap V) → get k m ≡ none → length (put k v m) ≡ length m + 1
  unfolding get put
  length-put_new k v [] h = omega arith
  length-put_new k v ((j, w) ∷ m) h = ground (arith, length-put_new k v m)

  pub length-delete_le : (k : Text) (m : GoMap V) → length (delete k m) ≤ length m
  unfolding delete
  length-delete_le k [] = omega arith
  length-delete_le k ((j, w) ∷ m) = ground (arith, length-delete_le k m)

  pub length-delete_lt :
      (k : Text) (m : GoMap V) → get k m ≢ none → length (delete k m) + 1 ≤ length m
  unfolding get delete
  length-delete_lt k [] h = absurd (h refl)
  length-delete_lt k ((j, w) ∷ m) h = ground (arith, length-delete_lt k m, length-delete_le k m)

module _ {ℓ κ} {V : Type ℓ} (P : Text × V → Type κ) where
  pub All-get : (k : Text) (v : V) (m : GoMap V) → All P m → get k m ≡ some v → P (k, v)
  unfolding get
  All-get k v [] a e = absurd (ground arith)
  All-get k v ((j, w) ∷ m) (own, rest) e =
      (elim (text_dec j k) as (λ d. ite d (some w) (get k m) ≡ some v → P (k, v)) [
        | yes same ↦ λ found.
            let value : w ≡ v = ground arith in
            subst (λ x. P (x, v)) same (subst (λ x. P (j, x)) value own)
        | no other ↦ λ found. All-get k v m rest found
      ])
        e

  pub All-put : (k : Text) (v : V) (m : GoMap V) → All P m → P (k, v) → All P (put k v m)
  unfolding put
  All-put k v [] a h = (h, tt)
  All-put k v ((j, w) ∷ m) (own, rest) h =
      elim (text_dec j k) as (λ d. All P (ite d ((k, v) ∷ m) ((j, w) ∷ put k v m))) [
        | yes same ↦ (h, rest)
        | no other ↦ (own, All-put k v m rest h)
      ]

  pub All-delete : (k : Text) (m : GoMap V) → All P m → All P (delete k m)
  unfolding delete
  All-delete k [] a = tt
  All-delete k ((j, w) ∷ m) (own, rest) =
      elim (text_dec j k) as (λ d. All P (ite d (delete k m) ((j, w) ∷ delete k m))) [
        | yes same ↦ All-delete k m rest
        | no other ↦ (own, All-delete k m rest)
      ]
