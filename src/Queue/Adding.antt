-- ===== src/Queue/Adding.antt =====
-- Where `AddWork` puts a work.
use dheart.Common.{
  ℕ, zero, suc, ◌-◌, ◌≡◌, refl, ap, ◌≢◌, List, [], ◌∷◌, ◌++◌, arith, Text, true, false, length,
  take, if◌then◌else◌, All,
}
use dheart.Common.Int.{leb_ℤ}
use dheart.Work.{WorkRequest, get_priority}
use dheart.Queue.{Queue, has_work, insert_position, append_at, insert_at, insert_after, add_work}

-- `w` may stand before `work` of equal priority or lower.
abbrev pub AtLeast : WorkRequest → WorkRequest → Type 0
AtLeast work w = leb_ℤ (get_priority work) (get_priority w) ≡ true

abbrev pub Lower : WorkRequest → WorkRequest → Type 0
Lower work w = leb_ℤ (get_priority work) (get_priority w) ≡ false

insert_position-cons :
    (work x : WorkRequest) (xs : Queue) (k : ℕ)
    → insert_position work (x ∷ xs) (suc k) ≡ elim (insert_position work xs k) [
      | zero ↦ if leb_ℤ (get_priority work) (get_priority x) then 1 else 0
      | suc r ↦ suc (suc r)
    ]
unfolding insert_position
insert_position-cons work x xs zero = refl
insert_position-cons work x xs (suc k) = ground (arith, insert_position-cons work x xs k)

insert_position_low :
    (work : WorkRequest) (lo : Queue)
    → All (Lower work) lo
    → insert_position work lo (length lo) ≡ 0
unfolding insert_position
insert_position_low work [] h = refl
insert_position_low work (x ∷ lo) h =
    rw (insert_position-cons work x lo (length lo))
      (ground (arith, insert_position_low work lo h.1))

-- The loop stops right behind the works of at least this priority.
insert_position_split :
    (work : WorkRequest) (hi lo : Queue)
    → All (AtLeast work) hi
    → All (Lower work) lo
    → insert_position work (hi ++ lo) (length (hi ++ lo)) ≡ length hi
insert_position_split work [] lo h l = insert_position_low work lo l
insert_position_split work (x ∷ hi) lo h l =
    rw (insert_position-cons work x (hi ++ lo) (length (hi ++ lo)))
      (ground (arith, insert_position_split work hi lo h.1 l))

take_all {ℓ} : {A : Type ℓ} (xs : List A) → take (length xs) xs ≡ xs
take_all [] = refl
take_all (x ∷ xs) = ap (◌∷◌ x) (take_all xs)

-- What `insert_at` leaves behind `hi`: the element that stood there is overwritten by a second
-- copy of the work.
abbrev pub displaced : WorkRequest → Queue → Queue
displaced work [] = []
displaced work (y ∷ lo) = work ∷ lo

insert_at_split :
    (work : WorkRequest) (hi lo : Queue)
    → insert_at (hi ++ lo) (length hi) work ≡ hi ++ (work ∷ displaced work lo)
unfolding insert_at append_at
insert_at_split work [] [] = refl
insert_at_split work [] (y ∷ lo) =
    let e : suc (length lo) - 0 ≡ suc (length lo) = omega arith in
    rw e (ap (λ (l : Queue). work ∷ work ∷ l) (take_all lo))
insert_at_split work (x ∷ hi) lo =
    let e : suc (length (hi ++ lo)) - suc (length hi) ≡ length (hi ++ lo) - length hi =
      omega arith in
    rw e (ap (◌∷◌ x) (insert_at_split work hi lo))

abbrev pub placed : WorkRequest → Queue → Queue → Queue
placed work [] lo = work ∷ lo
placed work (x ∷ hi) lo = (x ∷ hi) ++ (work ∷ displaced work lo)

insert_after_split :
    (work : WorkRequest) (hi lo : Queue)
    → insert_after (hi ++ lo) (length hi) work ≡ placed work hi lo
unfolding insert_after
insert_after_split work [] lo = refl
insert_after_split work (x ∷ hi) lo = insert_at_split work (x ∷ hi) lo

-- A new work goes behind the waiting works `hi` of at least its priority. It is put in front where
-- `hi` is empty; else it is written behind `hi`, over the first of the works `lo` of lower priority,
-- and once more behind that if `lo` is not empty.
pub add_work_split :
    (work : WorkRequest) (hi lo : Queue)
    → All (AtLeast work) hi
    → All (Lower work) lo
    → has_work work.work_id (hi ++ lo) ≡ false
    → add_work (hi ++ lo) work ≡ (placed work hi lo, true)
unfolding add_work
add_work_split work hi lo h l fresh =
    rw (fresh, insert_position_split work hi lo h l, insert_after_split work hi lo)

has_work-append :
    (id : Text) (xs ys : Queue)
    → has_work id (xs ++ ys) ≡ (if has_work id xs then true else has_work id ys)
unfolding has_work
has_work-append id [] ys = refl
has_work-append id (x ∷ xs) ys = ground (arith, has_work-append id xs ys)

lost-has_work :
    (work : WorkRequest) (id : Text) (hi lo : Queue)
    → has_work id hi ≡ false
    → has_work id lo ≡ false
    → work.work_id ≢ id
    → has_work id (hi ++ (work ∷ work ∷ lo)) ≡ false
unfolding has_work
lost-has_work work id hi lo h l differ =
    rw (has_work-append id hi (work ∷ work ∷ lo)) (ground arith)

-- Adding a work between works of higher and of lower priority loses the first of the lower ones:
-- if its id stood in the queue once and is not the new work's, it is in the queue no more.
pub add_work_loses :
    (work y : WorkRequest) (x : WorkRequest) (hi lo : Queue)
    → All (AtLeast work) (x ∷ hi)
    → All (Lower work) (y ∷ lo)
    → has_work work.work_id ((x ∷ hi) ++ (y ∷ lo)) ≡ false
    → has_work y.work_id (x ∷ hi) ≡ false
    → has_work y.work_id lo ≡ false
    → work.work_id ≢ y.work_id
    → (add_work ((x ∷ hi) ++ (y ∷ lo)) work ≡ ((x ∷ hi) ++ (work ∷ work ∷ lo), true))
      × (has_work y.work_id (add_work ((x ∷ hi) ++ (y ∷ lo)) work).0 ≡ false)
add_work_loses work y x hi lo h l fresh once single differ = (added, gone)
  where
    added : add_work ((x ∷ hi) ++ (y ∷ lo)) work ≡ ((x ∷ hi) ++ (work ∷ work ∷ lo), true)
    added = add_work_split work (x ∷ hi) (y ∷ lo) h l fresh

    gone : has_work y.work_id (add_work ((x ∷ hi) ++ (y ∷ lo)) work).0 ≡ false
    gone = rw added (lost-has_work work y.work_id (x ∷ hi) lo once single differ)
