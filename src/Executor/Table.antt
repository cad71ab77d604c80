-- ===== src/Executor/Table.antt =====
-- A table that the jobs of a batch fill, in whatever order: worker/worker_executor.go.
use dheart.Common.{
  ℕ, zero, suc, ◌+◌, ◌<◌, ◌≤◌, ◌≡◌, refl, ap, sym, ◌∙◌, Option, none, some, List, [], ◌∷◌, map,
  Bool, true, false, ◌&&◌, ◌||◌, length, length-set, length-replicate, get_elem?, set, replicate,
  ◌==◌, if◌then◌else◌, arith, All, All-map,
}
use dheart.Executor.{get_completed_job_count}

-- The entries of `xs` that are done.
unfoldable pub mask {ℓ} : {A : Type ℓ} → List Bool → List A → List (Option A)
mask (done ∷ dones) (x ∷ xs) =
    let rest = mask dones xs in if done then some x ∷ rest else none ∷ rest
mask _ _ = []

unfoldable pub all_true : List Bool → Bool
all_true [] = true
all_true (done ∷ dones) = done && all_true dones

-- The jobs that have finished, when those of `order` finish too.
unfoldable pub finish : List Bool → List ℕ → List Bool
finish dones [] = dones
finish dones (i ∷ order) = finish (set dones i true) order

abbrev pub mentions : ℕ → List ℕ → Bool
mentions i [] = false
mentions i (j ∷ order) = i == j || mentions i order

-- Each of the `n` indexes from `i` on is in `order`.
unfoldable pub covers : ℕ → ℕ → List ℕ → Bool
covers i zero order = true
covers i (suc n) order = mentions i order && covers (suc i) n order

module _ {ℓ} {A : Type ℓ} where
  pub set-mask :
      (dones : List Bool) (xs : List A) (i : ℕ) (x : A)
      → length dones ≡ length xs
      → get_elem? xs i ≡ some x
      → set (mask dones xs) i (some x) ≡ mask (set dones i true) xs
  unfolding mask
  set-mask dones [] i x e g = absurd (cc)
  set-mask [] (y ∷ xs) i x e g = absurd (omega arith)
  set-mask (true ∷ dones) (y ∷ xs) zero x e g = let same : y ≡ x = cc in rw same refl
  set-mask (false ∷ dones) (y ∷ xs) zero x e g = let same : y ≡ x = cc in rw same refl
  set-mask (true ∷ dones) (y ∷ xs) (suc i) x e g =
      ap (◌∷◌ (some y)) (set-mask dones xs i x (omega arith) g)
  set-mask (false ∷ dones) (y ∷ xs) (suc i) x e g =
      ap (◌∷◌ none) (set-mask dones xs i x (omega arith) g)

  pub length-mask :
      (dones : List Bool) (xs : List A)
      → length dones ≡ length xs
      → length (mask dones xs) ≡ length xs
  unfolding mask
  length-mask [] [] e = refl
  length-mask dones [] e = ground arith
  length-mask [] (x ∷ xs) e = absurd (omega arith)
  length-mask (done ∷ dones) (x ∷ xs) e = ground (arith, length-mask dones xs)

  count_le : (dones : List Bool) (xs : List A) → get_completed_job_count (mask dones xs) ≤ length xs
  unfolding mask get_completed_job_count
  count_le [] [] = omega arith
  count_le [] (x ∷ xs) = omega arith
  count_le (done ∷ dones) [] = omega arith
  count_le (true ∷ dones) (x ∷ xs) = omega (arith, count_le dones xs)
  count_le (false ∷ dones) (x ∷ xs) = omega (arith, count_le dones xs)

  pub count-mask :
      (dones : List Bool) (xs : List A)
      → length dones ≡ length xs
      → (get_completed_job_count (mask dones xs) == length xs) ≡ all_true dones
  unfolding mask get_completed_job_count all_true
  count-mask [] [] e = refl
  count-mask [] (x ∷ xs) e = absurd (omega arith)
  count-mask (done ∷ dones) [] e = absurd (omega arith)
  count-mask (true ∷ dones) (x ∷ xs) e = ground (arith, count-mask dones xs)
  count-mask (false ∷ dones) (x ∷ xs) e = ground (arith, count_le dones xs)

  pub mask-all :
      (dones : List Bool) (xs : List A)
      → length dones ≡ length xs
      → all_true dones ≡ true
      → mask dones xs ≡ map some xs
  unfolding mask all_true
  mask-all [] [] e a = refl
  mask-all (done ∷ dones) [] e a = absurd (omega arith)
  mask-all [] (x ∷ xs) e a = absurd (omega arith)
  mask-all (true ∷ dones) (x ∷ xs) e a = ap (◌∷◌ (some x)) (mask-all dones xs (omega arith) a)
  mask-all (false ∷ dones) (x ∷ xs) e a = absurd (cc)

  pub mask-none : (xs : List A) → mask (replicate (length xs) false) xs ≡ replicate (length xs) none
  unfolding mask
  mask-none [] = refl
  mask-none (x ∷ xs) = ap (◌∷◌ none) (mask-none xs)

  pub get_within : (xs : List A) (i : ℕ) → i < length xs → (x : A) × (get_elem? xs i ≡ some x)
  get_within [] i h = absurd (omega arith)
  get_within (x ∷ xs) zero h = (x, refl)
  get_within (x ∷ xs) (suc i) h = get_within xs i (omega arith)

-- The jobs in `order` finish, among others that are done: by their indexes from `k` on.
reached : ℕ → List Bool → List ℕ → Bool
reached k [] order = true
reached k (done ∷ dones) order = (done || mentions k order) && reached (suc k) dones order

reached_earlier :
    (k j : ℕ) (dones : List Bool) (order : List ℕ)
    → j < k
    → reached k dones (j ∷ order) ≡ reached k dones order
unfolding reached
reached_earlier k j [] order h = refl
reached_earlier k j (done ∷ dones) order h =
    ground (arith, reached_earlier (suc k) j dones order (omega arith))

reached-set :
    (k i : ℕ) (dones : List Bool) (order : List ℕ)
    → i < length dones
    → reached k dones ((k + i) ∷ order) ≡ reached k (set dones i true) order
unfolding reached
reached-set k i [] order h = absurd (omega arith)
reached-set k zero (done ∷ dones) order h =
    ground (arith, reached_earlier (suc k) (k + 0) dones order (omega arith))
reached-set k (suc i) (done ∷ dones) order h =
    let same : k + suc i ≡ suc k + i = omega arith in
    let rest = reached-set (suc k) i dones order (omega arith) in rw same (ground (arith, rest))

reached_none : (k : ℕ) (dones : List Bool) → reached k dones [] ≡ all_true dones
unfolding reached all_true
reached_none k [] = refl
reached_none k (done ∷ dones) = ground (arith, reached_none (suc k) dones)

reached-covers : (k n : ℕ) (order : List ℕ) → reached k (replicate n false) order ≡ covers k n order
unfolding reached covers
reached-covers k zero order = refl
reached-covers k (suc n) order = ground (arith, reached-covers (suc k) n order)

finish-reached :
    (dones : List Bool) (order : List ℕ)
    → All (λ i. i < length dones) order
    → all_true (finish dones order) ≡ reached 0 dones order
unfolding finish
finish-reached dones [] h = sym (reached_none 0 dones)
finish-reached dones (i ∷ order) h =
    let rest : All (λ j. j < length (set dones i true)) order =
      All-map (λ j l. rw (length-set dones i true) l) order h.1 in
    let same : 0 + i ≡ i = omega arith in
    finish-reached (set dones i true) order rest
    ∙ sym (reached-set 0 i dones order h.0)
    ∙ ap (λ j. reached 0 dones (j ∷ order)) same

-- Starting from no job, all have finished exactly if each index is in `order`.
pub finish-covers :
    (n : ℕ) (order : List ℕ)
    → All (λ i. i < n) order
    → all_true (finish (replicate n false) order) ≡ covers 0 n order
finish-covers n order h =
    finish-reached (replicate n false) order
      (All-map (λ i l. rw (length-replicate n false) l) order h)
    ∙ reached-covers 0 n order
