-- ===== src/Presigns/Stock.antt =====
-- No presign is handed out more often than it was added, in whatever order calls meet.
use dheart.Common.{
  ℕ, zero, suc, ◌+◌, ◌≤◌, ◌≡◌, refl, ap, subst, Option, none, some, List, [], ◌∷◌, ◌++◌, arith,
  Text, text_dec, true, false, length, leb, ◌==◌, take, drop, if◌then◌else◌, ite, Bool-cases, inl,
  inr,
}
use dheart.Common.Maps.{GoMap, get, put, delete, IsMap, put-IsMap, delete-IsMap}
use dheart.Presigns.{
  AvailablePresign, AvailablePresigns, new_avail_presign_manager, presigns_of, append_presigns,
  take_presigns,
}

-- How often an id stands in a group, and in all groups.
unfoldable pub count : Text → List AvailablePresign → ℕ
count id [] = 0
count id (p ∷ arr) = let rest = count id arr in ite (text_dec p.presign_id id) (1 + rest) rest

unfoldable pub stock : Text → GoMap (List AvailablePresign) → ℕ
stock id [] = 0
stock id ((key, arr) ∷ m) = count id arr + stock id m

count-append :
    (id : Text) (xs ys : List AvailablePresign) → count id (xs ++ ys) ≡ count id xs + count id ys
unfolding count
count-append id [] ys = omega arith
count-append id (x ∷ xs) ys = ground (arith, count-append id xs ys)

count-take :
    (id : Text) (n : ℕ) (xs : List AvailablePresign)
    → count id (take n xs) + count id (drop n xs) ≡ count id xs
unfolding count
count-take id zero xs = omega arith
count-take id (suc n) [] = omega arith
count-take id (suc n) (x ∷ xs) = ground (arith, count-take id n xs)

count_none : (id : Text) (xs : List AvailablePresign) → length xs ≡ 0 → count id xs ≡ 0
unfolding count
count_none id [] h = refl
count_none id (x ∷ xs) h = absurd (omega arith)

stock-put :
    (id key : Text) (arr : List AvailablePresign) (m : GoMap (List AvailablePresign))
    → stock id (put key arr m) + count id (presigns_of key m) ≡ stock id m + count id arr
unfolding stock put get count
stock-put id key arr [] = omega arith
stock-put id key arr ((k, v) ∷ m) = ground (arith, stock-put id key arr m)

delete_absent : {V : Type 0} (key : Text) (m : GoMap V) → get key m ≡ none → delete key m ≡ m
unfolding get delete
delete_absent key [] h = refl
delete_absent key ((k, v) ∷ m) h = ground (arith, delete_absent key m)

stock-delete :
    (id key : Text) (m : GoMap (List AvailablePresign))
    → IsMap m
    → stock id (delete key m) + count id (presigns_of key m) ≡ stock id m
unfolding stock delete get count
stock-delete id key [] u = refl
stock-delete id key ((k, v) ∷ m) u =
    elim (text_dec k key)
      as (λ d.
        stock id (ite d (delete key m) ((k, v) ∷ delete key m))
          + count id (elim (ite d (some v) (get key m)) [ none ↦ [] | some arr ↦ arr ])
        ≡ count id v + stock id m) [
          | yes e ↦
              omega (arith, ap (stock id) (delete_absent key m (subst (λ k. get k m ≡ none) e u.0)))
          | no e ↦ omega (arith, stock-delete id key m u.1)
        ]

-- The parts of the calls that change the presigns. A `takes` may come from any call of
-- `GetAvailablePresigns` whose loop ended before, with whatever key it found then.
pub data Call : Type 0 where
  adds : Text → List AvailablePresign → Call
  takes : ℕ → Text → Call

abbrev pub Run : Type 0
Run = AvailablePresigns × List AvailablePresign

-- What a call hands out joins what was handed out before.
unfoldable pub hand_out :
    List AvailablePresign → AvailablePresigns × Option (List AvailablePresign) → Run
hand_out out (m, none) = (m, out)
hand_out out (m, some aps) = (m, aps ++ out)

-- One call, on the presigns and those that were handed out; with the mutex held it never starts.
unfoldable pub step : Run → Call → Run
unfolding append_presigns take_presigns hand_out
step (m, out) (adds key arr) = if m.locked then (m, out) else (append_presigns key arr m, out)
step (m, out) (takes batch_size key) =
    if m.locked then (m, out) else hand_out out (take_presigns batch_size key m)

unfoldable pub run : Run → List Call → Run
unfolding step
run r [] = r
run r (call ∷ calls) = run (step r call) calls

-- How often the calls add an id.
unfoldable pub added : Text → List Call → ℕ
unfolding count
added id [] = 0
added id (adds key arr ∷ calls) = count id arr + added id calls
added id (takes batch_size key ∷ calls) = added id calls

added-cons :
    (id : Text) (call : Call) (calls : List Call)
    → added id (call ∷ calls) ≡ added id (call ∷ []) + added id calls
unfolding added
added-cons id (adds key arr) calls = omega arith
added-cons id (takes batch_size key) calls = omega arith

-- Presigns handed out and presigns in stock.
abbrev total : Text → Run → ℕ
total id r = count id r.1 + stock id (r.0).available

take_presigns-stock :
    (id key : Text) (batch_size : ℕ) (m : AvailablePresigns)
    → IsMap m.available
    → (IsMap (take_presigns batch_size key m).0.available)
      × (count id (elim (take_presigns batch_size key m).1 [ none ↦ [] | some aps ↦ aps ])
            + stock id (take_presigns batch_size key m).0.available
          ≡ stock id m.available)
unfolding take_presigns count
take_presigns-stock id key batch_size m u =
    let arr = presigns_of key m.available in
    let split = count-take id batch_size arr in
    elim (Bool-cases (leb batch_size (length arr))) [
      | inr few ↦ rw few (u, omega arith)
      | inl many ↦ rw many (elim (Bool-cases (length (drop batch_size arr) == 0)) [
        | inl empty ↦ rw empty (
          delete-IsMap key m.available u,
          omega (
            arith,
            split,
            stock-delete id key m.available u,
            count_none id (drop batch_size arr) (ground arith),
          ),
        )
        | inr rest ↦ rw rest (
          put-IsMap key (drop batch_size arr) m.available u,
          omega (arith, split, stock-put id key (drop batch_size arr) m.available),
        )
      ])
    ]

hand_out-total :
    (id : Text) (out : List AvailablePresign)
    (t : AvailablePresigns × Option (List AvailablePresign)) (n : ℕ)
    → IsMap t.0.available
    → count id (elim t.1 [ none ↦ [] | some aps ↦ aps ]) + stock id t.0.available ≡ n
    → (IsMap ((hand_out out t).0).available)
      × (count id (hand_out out t).1 + stock id ((hand_out out t).0).available
          ≤ count id out + n + 0)
unfolding hand_out count
hand_out-total id out (m, none) n u e = (u, omega (arith, e))
hand_out-total id out (m, some aps) n u e = (u, omega (arith, e, count-append id aps out))

step-total :
    (id : Text) (r : Run) (call : Call)
    → IsMap (r.0).available
    → (IsMap ((step r call).0).available)
      × (total id (step r call) ≤ total id r + added id (call ∷ []))
unfolding step added append_presigns count
step-total id (m, out) (adds key arr) u = elim (Bool-cases m.locked) [
  | inl held ↦ rw (held, added) (u, omega arith)
  | inr free ↦
      rw (free, added)
        (
          put-IsMap key (presigns_of key m.available ++ arr) m.available u,
          omega (
            arith,
            stock-put id key (presigns_of key m.available ++ arr) m.available,
            count-append id (presigns_of key m.available) arr,
          ),
        )
]
step-total id (m, out) (takes batch_size key) u =
    let (u', e) = take_presigns-stock id key batch_size m u in
    let t = take_presigns batch_size key m in
    elim m.locked
      as (λ b.
        (IsMap (((if b then (m, out) else hand_out out t).0).available))
        × (count id (if b then (m, out) else hand_out out t).1
              + stock id ((if b then (m, out) else hand_out out t).0).available
            ≤ count id out + stock id m.available + 0)) [
              | true ↦ (u, omega arith)
              | false ↦ hand_out-total id out t (stock id m.available) u' e
            ]

run-total :
    (id : Text) (calls : List Call) (r : Run)
    → IsMap (r.0).available
    → total id (run r calls) ≤ total id r + added id calls
unfolding run added
run-total id [] r u = omega arith
run-total id (call ∷ calls) r u =
    let (u', one) = step-total id r call u in
    let rest = run-total id calls (step r call) u' in
    omega (arith, one, rest, added-cons id call calls)

-- However the calls on a new manager meet, an id is handed out at most as often as it was added, those
-- in stock included: a presign whose id was added once is never handed out twice.
pub run_once :
    (id : Text) (calls : List Call)
    → count id (run (new_avail_presign_manager, []) calls).1
        + stock id (run (new_avail_presign_manager, []) calls).0.available
      ≤ added id calls
unfolding new_avail_presign_manager count stock
run_once id calls = omega (arith, run-total id calls (new_avail_presign_manager, []) tt)
