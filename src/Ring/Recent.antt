-- ===== src/Ring/Recent.antt =====
-- What `Get` finds after any additions to a new queue.
use dheart.Common.{
  ℕ, zero, suc, ◌-◌, ◌≡◌, refl, ◌∙◌, ◌≢◌, ite, Option, none, some, List, [], ◌∷◌, arith, Text,
  text_dec, get_elem?, replicate, length-replicate, take, Option-cases, inl, inr,
}
use dheart.Common.Int.{pos}
use dheart.Common.Maps.{GoMap, get, IsMap}
use dheart.Ring.{CircularQueue, new_circular_queue, add, lookup}
use dheart.Ring.Window.{kept, Holds, add-Holds}

module _ {ℓ} {A : Type ℓ} where
  -- All additions of a history, whose head is the newest, on the result of `NewCircularQueue`.
  unfoldable pub add_all : Option (CircularQueue A) → List (Text × A) → Option (CircularQueue A)
  unfolding add
  add_all q [] = q
  add_all q ((k, v) ∷ h) = elim (add_all q h) [ none ↦ none | some q' ↦ add k v q' ]

  pub new_Holds :
      (n : ℕ)
      → (q : CircularQueue A) × (new_circular_queue (pos (suc n)) ≡ some q) × Holds (suc n) [] q
  unfolding new_circular_queue kept get
  new_Holds n = (
    record { head = 0; tail = 0; size = suc n; queue = replicate (suc n) none; m = [] },
    refl,
    record {
      positive = omega arith;
      sized = refl;
      cells = length-replicate (suc n) none;
      tail_at = refl;
      head_at = omega arith;
      window = λ i e lt at. cc;
      found = λ k. refl;
    },
  )

  add_all-Holds :
      (n : ℕ) (h : List (Text × A))
      → (q : CircularQueue A) × (add_all (new_circular_queue (pos (suc n))) h ≡ some q)
        × Holds (suc n) h q
  unfolding add_all
  add_all-Holds n [] = new_Holds n
  add_all-Holds n ((k, v) ∷ h) =
      let (q, e, inv) = add_all-Holds n h in
      let (q', e', inv') = add-Holds (suc n) h q k v inv in (q', rw (e, add_all) e', inv')

  get_elem?-get :
      (h : GoMap A) (m : ℕ) (i : Text) (w : A) → get_elem? h m ≡ some (i, w) → get i h ≢ none
  unfolding get
  get_elem?-get [] m i w e = cc
  get_elem?-get ((j, v) ∷ h) zero i w e = ground arith
  get_elem?-get ((j, v) ∷ h) (suc m) i w e = ground (arith, get_elem?-get h m i w e)

  drop_last :
      (k : Text) (m : ℕ) (h : GoMap A)
      → IsMap h
      → elim (get_elem? h m) [
        | none ↦ get k (take (suc m) h)
        | some (i, w) ↦ ite (text_dec i k) none (get k (take (suc m) h))
      ]
        ≡ get k (take m h)
  unfolding get
  drop_last k zero [] d = refl
  drop_last k (suc m) [] d = refl
  drop_last k zero ((j, v) ∷ h) d = ground arith
  drop_last k (suc m) ((j, v) ∷ h) d = elim (Option-cases (get_elem? h m)) [
    | inl e ↦ ground (arith, drop_last k m h d.1)
    | inr ((i, w), e) ↦ ground (arith, drop_last k m h d.1, get_elem?-get h m i w e)
  ]

  pub kept_recent :
      (k : Text) (n : ℕ) (h : GoMap A) → IsMap h → kept k (suc n) h ≡ get k (take (suc n) h)
  unfolding kept get
  kept_recent k n [] d = refl
  kept_recent k n ((j, v) ∷ h) d =
      let last = drop_last k n h d.1 in
      elim (Option-cases (get_elem? h n)) [
        | inl e ↦ ground (arith, kept_recent k n h d.1, last)
        | inr ((i, w), e) ↦ ground (arith, kept_recent k n h d.1, last)
      ]

  -- A queue of size `n + 1` takes any additions without a panic. If no key was added twice, look-up
  -- then finds exactly the last `n + 1` additions.
  pub add_all_recent :
      (n : ℕ) (h : List (Text × A))
      → IsMap h
      → (q : CircularQueue A) × (add_all (new_circular_queue (pos (suc n))) h ≡ some q)
        × ((k : Text) → lookup k q ≡ get k (take (suc n) h))
  unfolding lookup
  add_all_recent n h d =
      let (q, e, inv) = add_all-Holds n h in (q, e, λ k. inv.found k ∙ kept_recent k n h d)

  -- When an item leaves the queue, look-up of its key finds nothing, whatever was added under that
  -- key since: `x` is a new key, and `k` the key added `n + 1` additions before it.
  pub add_all_forgets :
      (n : ℕ) (x k : Text) (u w : A) (h : List (Text × A))
      → x ≢ k
      → get_elem? h n ≡ some (k, w)
      → (q : CircularQueue A) × (add_all (new_circular_queue (pos (suc n))) ((x, u) ∷ h) ≡ some q)
        × (lookup k q ≡ none)
  unfolding lookup kept
  add_all_forgets n x k u w h differ at =
      let (q, e, inv) = add_all-Holds n ((x, u) ∷ h) in
      let p : suc n - 1 ≡ n = omega arith in (q, e, inv.found k ∙ rw (p, at) (ground arith))
