-- ===== src/Ring/Window.antt =====
-- The circular queue against the history of additions, newest first.
use native.Mathlib.Nat.{mod-add-mod, mod-lt, mod-eq_of_lt, mod-eq-sub-mod}
use dheart.Common.{
  ℕ, zero, suc, ◌+◌, ◌-◌, ◌%◌, ◌≤◌, ◌<◌, ◌≡◌, refl, ap, ◌∙◌, ◌≢◌, ite, Option, none, some, List, [],
  ◌∷◌, arith, Text, text_dec, true, false, length, set, get_elem?, leb, dec_lt, length-set,
  get_elem?-set_self, get_elem?-set_ne,
}
use dheart.Common.Maps.{GoMap, get, put, delete, get-put, get-delete}
use dheart.Ring.{CircularQueue, evict, write, add}

add-mod_ne : (n r d : ℕ) → r < n → 0 < d → d < n → (r + d) % n ≢ r
add-mod_ne n r d hr h0 hd = elim (dec_lt (r + d) n) [
  | yes p ↦ rw (mod-eq_of_lt p) (omega arith)
  | no p ↦
      let over : n ≤ r + d = omega arith in
      let small : r + d - n < n = omega arith in
      rw (mod-eq-sub-mod over) (rw (mod-eq_of_lt small) (omega arith))
]

-- Positions less than a size apart lie in different cells.
cells_differ : (n p t : ℕ) → p < t → t < p + n → t % n ≢ p % n
cells_differ n p t lt near e =
    let r : p % n < n = mod-lt p (omega arith) in
    let d : p + (t - p) ≡ t = omega arith in
    add-mod_ne n (p % n) (t - p) r (omega arith) (omega arith)
      (mod-add-mod p n (t - p) ∙ ap (λ (k : ℕ). k % n) d ∙ e)

module _ {ℓ} {A : Type ℓ} where
  -- What look-up finds after the additions `h`: each of them first drops the key of the item that
  -- was added `n` additions before.
  unfoldable pub kept : Text → ℕ → List (Text × A) → Option A
  kept k n [] = none
  kept k n ((j, v) ∷ h) =
      let older = kept k n h in
      ite (text_dec j k) (some v)
        (elim (get_elem? h (n - 1)) [ none ↦ older | some (i, w) ↦ ite (text_dec i k) none older ])

  pub record Holds (n : ℕ) (h : List (Text × A)) (q : CircularQueue A) : Type ℓ where
    pub positive : 0 < n
    pub sized : q.size ≡ n
    pub cells : length q.queue ≡ n
    pub tail_at : q.tail ≡ length h
    pub head_at : q.head ≡ length h - n
    pub window :
        (i : ℕ) (e : Text × A)
        → i < n
        → get_elem? h i ≡ some e
        → get_elem? q.queue ((length h - 1 - i) % n) ≡ some (some e)
    pub found : (k : Text) → get k q.m ≡ kept k n h

  get_elem?-lt :
      (h : List (Text × A)) (i : ℕ) (e : Text × A) → get_elem? h i ≡ some e → i < length h
  get_elem?-lt [] i e p = cc
  get_elem?-lt (x ∷ h) zero e p = omega arith
  get_elem?-lt (x ∷ h) (suc i) e p = omega (arith, get_elem?-lt h i e p)

  get_elem?-some :
      (h : List (Text × A)) (i : ℕ) → i < length h → (e : Text × A) × (get_elem? h i ≡ some e)
  get_elem?-some [] i p = elim p [ ]
  get_elem?-some (x ∷ h) zero p = (x, refl)
  get_elem?-some (x ∷ h) (suc i) p = get_elem?-some h i (omega arith)

  get_elem?-none : (h : List (Text × A)) (i : ℕ) → length h ≤ i → get_elem? h i ≡ none
  get_elem?-none [] i p = refl
  get_elem?-none (x ∷ h) zero p = absurd (omega arith)
  get_elem?-none (x ∷ h) (suc i) p = get_elem?-none h i (omega arith)

  write-window :
      (n : ℕ) (h : List (Text × A)) (queue : List (Option (Text × A))) (e : Text × A)
      → 0 < n
      → length queue ≡ n
      → ((i : ℕ) (e : Text × A)
          → i < n
          → get_elem? h i ≡ some e
          → get_elem? queue ((length h - 1 - i) % n) ≡ some (some e))
      → (i : ℕ) (d : Text × A) → i < n
      → get_elem? (e ∷ h) i ≡ some d
      → get_elem? (set queue (length h % n) (some e)) ((suc (length h) - 1 - i) % n) ≡ some (some d)
  write-window n h queue e positive c w zero d lt at =
      let p : suc (length h) - 1 - 0 ≡ length h = omega arith in
      let inside : length h % n < length queue = rw c (mod-lt (length h) positive) in
      rw p (get_elem?-set_self queue (length h % n) (some e) inside ∙ ap some at)
  write-window n h queue e positive c w (suc i) d lt at =
      let short : i < length h = get_elem?-lt h i d at in
      let p : suc (length h) - 1 - suc i ≡ length h - 1 - i = omega arith in
      rw p (
        get_elem?-set_ne queue (some e)
          (cells_differ n (length h - 1 - i) (length h) (omega arith) (omega arith))
        ∙ w i d (omega arith) at)

  write-found :
      (n : ℕ) (h : List (Text × A)) (k : Text) (v : A) (m : GoMap A)
      → ((j : Text)
          → get j m ≡ elim (get_elem? h (n - 1)) [
            | none ↦ kept j n h
            | some (i, w) ↦ ite (text_dec i j) none (kept j n h)
          ])
      → (j : Text) → get j (put k v m) ≡ kept j n ((k, v) ∷ h)
  unfolding kept
  write-found n h k v m f j = get-put k j v m ∙ ap (λ o. ite (text_dec k j) (some v) o) (f j)

  -- Without room the oldest item is dropped; the head moves with the history.
  add_full :
      (n : ℕ) (h : List (Text × A)) (q : CircularQueue A) (k : Text) (v : A)
      → Holds n h q
      → n ≤ length h
      → (q' : CircularQueue A) × (add k v q ≡ some q') × Holds n ((k, v) ∷ h) q'
  unfolding add evict write
  add_full n h q k v inv full =
      let (e, at) = get_elem?-some h (n - 1) (omega (arith, inv.positive)) in
      let where_head : length h - 1 - (n - 1) ≡ q.head = omega (arith, inv.positive, inv.head_at) in
      let cell : get_elem? q.queue (q.head % q.size) ≡ some (some e) =
        rw (← where_head, inv.sized) (inv.window (n - 1) e (omega (arith, inv.positive)) at) in
      let test : leb q.size (q.tail - q.head) ≡ true =
        ground (arith, inv.sized, inv.tail_at, inv.head_at) in
      (
        write k v (record q { head = q.head + 1; m = delete e.0 q.m }),
        rw test (rw (cell, evict)),
        record {
          positive = inv.positive;
          sized = inv.sized;
          cells = length-set q.queue (q.tail % q.size) (some (k, v)) ∙ inv.cells;
          tail_at = omega (arith, inv.tail_at);
          head_at = omega (arith, inv.head_at);
          window =
              rw (inv.tail_at, inv.sized)
                (write-window n h q.queue (k, v) inv.positive inv.cells inv.window);
          found = write-found n h k v (delete e.0 q.m) (λ j.
              rw at (get-delete e.0 j q.m ∙ ap (λ o. ite (text_dec e.0 j) none o) (inv.found j)));
        },
      )

  add_room :
      (n : ℕ) (h : List (Text × A)) (q : CircularQueue A) (k : Text) (v : A)
      → Holds n h q
      → length h < n
      → (q' : CircularQueue A) × (add k v q ≡ some q') × Holds n ((k, v) ∷ h) q'
  unfolding add write
  add_room n h q k v inv room =
      let test : leb q.size (q.tail - q.head) ≡ false =
        ground (arith, inv.sized, inv.tail_at, inv.head_at) in
      let past : get_elem? h (n - 1) ≡ none = get_elem?-none h (n - 1) (omega arith) in
      (
        write k v q,
        rw test refl,
        record {
          positive = inv.positive;
          sized = inv.sized;
          cells = length-set q.queue (q.tail % q.size) (some (k, v)) ∙ inv.cells;
          tail_at = omega (arith, inv.tail_at);
          head_at = omega (arith, inv.head_at);
          window =
              rw (inv.tail_at, inv.sized)
                (write-window n h q.queue (k, v) inv.positive inv.cells inv.window);
          found = write-found n h k v q.m (λ j. rw past (inv.found j));
        },
      )

  pub add-Holds :
      (n : ℕ) (h : List (Text × A)) (q : CircularQueue A) (k : Text) (v : A)
      → Holds n h q
      → (q' : CircularQueue A) × (add k v q ≡ some q') × Holds n ((k, v) ∷ h) q'
  add-Holds n h q k v inv = elim (dec_lt (length h) n) [
    | yes room ↦ add_room n h q k v inv room
    | no full ↦ add_full n h q k v inv (omega arith)
  ]
