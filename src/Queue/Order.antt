-- ===== src/Queue/Order.antt =====
-- The order of the queue, and what `Pop` takes.
use dheart.Common.{
  ◌≡◌, refl, ap, sym, some, List, [], ◌∷◌, ◌++◌, arith, false, All, Bool-cases, inl, inr, subst,
  All-append, All-left,
}
use dheart.Common.Int.{leb_ℤ}
use dheart.Work.{WorkRequest, get_priority}
use dheart.Queue.{Queue, has_work, add_work, pop}
use dheart.Queue.Adding.{AtLeast, Lower, displaced, placed, add_work_split}

-- Priorities never rise along the queue.
abbrev IsSorted : Queue → Type 0
IsSorted [] = Unit {0}
IsSorted (x ∷ xs) = All (λ w. AtLeast w x) xs × IsSorted xs

Lower-below :
    (work x : WorkRequest) (xs : Queue)
    → Lower work x
    → All (λ w. AtLeast w x) xs
    → All (Lower work) xs
Lower-below work x [] low h = tt
Lower-below work x (y ∷ xs) low h = (ground arith, Lower-below work x xs low h.1)

-- A sorted queue in two parts, as the second loop of `AddWork` sees it.
record Split (work : WorkRequest) (queue : Queue) : Type 0 where
  hi : Queue
  lo : Queue
  whole : queue ≡ hi ++ lo
  at_least : All (AtLeast work) hi
  lower : All (Lower work) lo

split : (work : WorkRequest) (queue : Queue) → IsSorted queue → Split work queue
split work [] h = record { hi = []; lo = []; whole = refl; at_least = tt; lower = tt }
split work (x ∷ xs) h = elim (Bool-cases (leb_ℤ (get_priority work) (get_priority x))) [
  | inl high ↦
      let rest = split work xs h.1 in
      record {
        hi = x ∷ rest.hi;
        lo = rest.lo;
        whole = ap (◌∷◌ x) rest.whole;
        at_least = (high, rest.at_least);
        lower = rest.lower;
      }
  | inr low ↦ record {
    hi = [];
    lo = x ∷ xs;
    whole = refl;
    at_least = tt;
    lower = (low, Lower-below work x xs low h.0);
  }
]

AtLeast-of_Lower :
    (work : WorkRequest) (xs : Queue) → All (Lower work) xs → All (λ w. AtLeast w work) xs
AtLeast-of_Lower work [] h = tt
AtLeast-of_Lower work (x ∷ xs) h = (ground arith, AtLeast-of_Lower work xs h.1)

AtLeast-above :
    (work x : WorkRequest) (xs : Queue)
    → AtLeast work x
    → All (λ w. AtLeast w work) xs
    → All (λ w. AtLeast w x) xs
AtLeast-above work x [] high h = tt
AtLeast-above work x (y ∷ xs) high h = (ground arith, AtLeast-above work x xs high h.1)

IsSorted-put :
    (work : WorkRequest) (hi lo : Queue)
    → All (AtLeast work) hi
    → IsSorted hi
    → All (λ w. AtLeast w work) lo
    → IsSorted lo
    → IsSorted (hi ++ (work ∷ lo))
IsSorted-put work [] lo h s l t = (l, t)
IsSorted-put work (x ∷ hi) lo h s l t = (
  All-append (λ w. AtLeast w x) hi (work ∷ lo) s.0 (h.0, AtLeast-above work x lo h.0 l),
  IsSorted-put work hi lo h.1 s.1 l t,
)

IsSorted-left : (hi lo : Queue) → IsSorted (hi ++ lo) → IsSorted hi
IsSorted-left [] lo s = tt
IsSorted-left (x ∷ hi) lo s = (All-left (λ w. AtLeast w x) hi lo s.0, IsSorted-left hi lo s.1)

IsSorted-right : (hi lo : Queue) → IsSorted (hi ++ lo) → IsSorted lo
IsSorted-right [] lo s = s
IsSorted-right (x ∷ hi) lo s = IsSorted-right hi lo s.1

displaced-IsSorted :
    (work : WorkRequest) (lo : Queue)
    → All (λ w. AtLeast w work) lo
    → IsSorted lo
    → All (λ w. AtLeast w work) (displaced work lo) × IsSorted (displaced work lo)
displaced-IsSorted work [] l s = (tt, tt)
displaced-IsSorted work (y ∷ lo) l s = ((ground arith, l.1), (l.1, s.1))

placed-IsSorted :
    (work : WorkRequest) (hi lo : Queue)
    → All (AtLeast work) hi
    → All (Lower work) lo
    → IsSorted (hi ++ lo)
    → IsSorted (placed work hi lo)
placed-IsSorted work [] lo h l s = (AtLeast-of_Lower work lo l, s)
placed-IsSorted work (x ∷ hi) lo h l s =
    let below =
      displaced-IsSorted work lo (AtLeast-of_Lower work lo l) (IsSorted-right (x ∷ hi) lo s) in
    IsSorted-put work (x ∷ hi) (displaced work lo) h (IsSorted-left (x ∷ hi) lo s) below.0 below.1

insert_after-IsSorted :
    (work : WorkRequest) (queue : Queue)
    → Split work queue
    → IsSorted queue
    → has_work work.work_id queue ≡ false
    → IsSorted (add_work queue work).0
insert_after-IsSorted work queue p s fresh =
    let t : IsSorted (p.hi ++ p.lo) = subst IsSorted p.whole s in
    subst (λ q. IsSorted (add_work q work).0) (sym p.whole)
      (rw
        (add_work_split work p.hi p.lo p.at_least p.lower
          (subst (λ q. has_work work.work_id q ≡ false) p.whole fresh))
        (placed-IsSorted work p.hi p.lo p.at_least p.lower t))

add_work-IsSorted :
    (work : WorkRequest) (queue : Queue) → IsSorted queue → IsSorted (add_work queue work).0
unfolding add_work
add_work-IsSorted work queue s = elim (Bool-cases (has_work work.work_id queue)) [
  | inl known ↦ rw known s
  | inr fresh ↦ insert_after-IsSorted work queue (split work queue s) s fresh
]

-- The calls that change the queue.
pub data Call : Type 0 where
  adds : WorkRequest → Call
  pops : Call

unfoldable pub step : Queue → Call → Queue
unfolding add_work pop
step queue (adds work) = (add_work queue work).0
step queue pops = (pop queue).0

unfoldable pub run : Queue → List Call → Queue
unfolding step
run queue [] = queue
run queue (c ∷ cs) = run (step queue c) cs

step-IsSorted : (queue : Queue) (c : Call) → IsSorted queue → IsSorted (step queue c)
unfolding step
step-IsSorted queue (adds work) s = add_work-IsSorted work queue s
step-IsSorted [] pops s = s
step-IsSorted (x ∷ xs) pops s = s.1

run-IsSorted : (queue : Queue) (cs : List Call) → IsSorted queue → IsSorted (run queue cs)
unfolding run
run-IsSorted queue [] s = s
run-IsSorted queue (c ∷ cs) s = run-IsSorted (step queue c) cs (step-IsSorted queue c s)

pop_first :
    (queue : Queue) {w : WorkRequest}
    → IsSorted queue
    → (pop queue).1 ≡ some w
    → All (λ v. AtLeast v w) (pop queue).0
unfolding pop
pop_first [] s e = cc
pop_first (x ∷ xs) {w} s e = let p : x ≡ w = cc in subst (λ u. All (λ v. AtLeast v u) xs) p s.0

-- After any calls on an empty queue, `Pop` takes a work of the highest priority that waits.
pub run-pop_highest :
    (cs : List Call) (w : WorkRequest)
    → (pop (run [] cs)).1 ≡ some w
    → All (λ v. AtLeast v w) (pop (run [] cs)).0
run-pop_highest cs w e = pop_first (run [] cs) (run-IsSorted [] cs tt) e
