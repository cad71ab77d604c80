-- ===== src/Queue.antt =====
-- core/request_queue.go: the queue of waiting works, kept in order of falling priority.
pub mod Adding
pub mod Order
use dheart.Common.{
  ℕ, zero, suc, ◌+◌, ◌-◌, ◌≡◌, refl, ite, Option, none, some, List, [], ◌∷◌, ◌++◌, arith, Text,
  text_dec, Bool, true, false, length, take, drop, get_or, if◌then◌else◌,
}
use dheart.Common.Int.{ℤ, leb_ℤ}
use dheart.Work.{WorkRequest, get_priority}

abbrev pub Queue : Type 0
Queue = List WorkRequest

-- The first loop of `AddWork`: whether a work of this id waits.
unfoldable pub has_work : Text → Queue → Bool
has_work work_id [] = false
has_work work_id (w ∷ queue) = ite (text_dec w.work_id work_id) true (has_work work_id queue)

-- The second loop of `AddWork`, for `position` from `k - 1` down to 0. The result is the position
-- at which the loop stops, plus one.
unfoldable pub insert_position : WorkRequest → Queue → ℕ → ℕ
insert_position work queue zero = 0
insert_position work queue (suc k) =
    let earlier = insert_position work queue k in
    if leb_ℤ (get_priority work) (get_priority (get_or queue k work)) then suc k else earlier

-- `append(a[:k], x)` for `k ≤ len(a)`: the array behind `a` afterwards. Where `k < len(a)` the
-- slice `a[:k]` has spare capacity, and the element at `k` is overwritten.
unfoldable pub append_at {ℓ} : {A : Type ℓ} → List A → ℕ → A → List A
append_at a k x = take k a ++ (x ∷ drop (suc k) a)

-- `first := q[:k]; second := q[k:]; q = append(first, work); q = append(q, second...)`. Both slices
-- share the array of `q`, and `second` is read after the write.
unfoldable pub insert_at : Queue → ℕ → WorkRequest → Queue
unfolding append_at
insert_at queue k work =
    let array = append_at queue k work in
    let second = take (length queue - k) (drop k array) in take (suc k) array ++ second

-- Where the loop ran off the front, the work becomes the head of a new slice.
unfoldable pub insert_after : Queue → ℕ → WorkRequest → Queue
unfolding insert_at
insert_after queue zero work = work ∷ queue
insert_after queue (suc k) work = insert_at queue (suc k) work

unfoldable pub add_work : Queue → WorkRequest → Queue × Bool
unfolding has_work insert_position insert_after
add_work queue work =
    if has_work work.work_id queue
    then (queue, false)
    else (insert_after queue (insert_position work queue (length queue)) work, true)

unfoldable pub pop : Queue → Queue × Option WorkRequest
pop [] = ([], none)
pop (work ∷ queue) = (queue, some work)

unfoldable pub size : Queue → ℕ
size queue = length queue
