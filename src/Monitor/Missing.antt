-- ===== src/Monitor/Missing.antt =====
-- worker/components/message_monitor.go: what is asked for is what did not come.
use dheart.Common.{
  ℕ, zero, suc, ◌≤◌, ◌≡◌, refl, Option, none, some, List, [], ◌∷◌, Text, text_eq, text_eq_refl,
  Bool, true, false, not, ◌&&◌, length, get_elem?, if◌then◌else◌, arith, ap, sym, subst, ◌∙◌, All,
  All-map, Bool-cases, inl, inr,
}
use dheart.Common.Maps.{GoMap}
use dheart.Rounds.{one_of}
use dheart.Monitor.{
  Monitor, new_monitor, bits_of, next_index, max_next, missing, missing_pids, ask_all,
  find_missing_messages,
}
use dheart.Monitor.Received.{
  History, heard, receive_all, bit_of, Row, receive_all-Row, receive_all-fixed,
}

-- No name stands twice.
unfoldable pub distinct : List Text → Bool
distinct [] = true
distinct (name ∷ names) = not (one_of name names) && distinct names

-- Of a message that is asked for: it is one of the work's, and its bit is not set.
abbrev IsUnset : List Text → List Bool → Text → Type 0
IsUnset names bits t = (one_of t names ≡ true) × (bit_of t names bits ≡ false)

IsUnset-tail :
    (name : Text) (bit : Bool) (names : List Text) (bits : List Bool) (asked : List Text)
    → one_of name names ≡ false
    → All (IsUnset names bits) asked
    → All (IsUnset (name ∷ names) (bit ∷ bits)) asked
unfolding bit_of text_eq
IsUnset-tail name bit names bits [] h a = tt
IsUnset-tail name bit names bits (t ∷ asked) h (u, a) =
    (ground (arith, u.0, u.1), IsUnset-tail name bit names bits asked h a)

missing-IsUnset :
    (n : ℕ) (names : List Text) (bits : List Bool)
    → distinct names ≡ true
    → length bits ≡ length names
    → All (IsUnset names bits) (missing n names bits)
unfolding missing distinct bit_of
missing-IsUnset zero names bits d e = tt
missing-IsUnset (suc n) [] bits d e = tt
missing-IsUnset (suc n) (name ∷ names) [] d e = tt
missing-IsUnset (suc n) (name ∷ names) (true ∷ bits) d e =
    IsUnset-tail name true names bits (missing n names bits) (ground arith)
      (missing-IsUnset n names bits (ground arith) (omega arith))
missing-IsUnset (suc n) (name ∷ names) (false ∷ bits) d e = (
  (ground (arith, text_eq_refl name), ground (arith, text_eq_refl name)),
  IsUnset-tail name false names bits (missing n names bits) (ground arith)
      (missing-IsUnset n names bits (ground arith) (omega arith)),
)

-- Past the last index received, no bit is set.
later-IsUnset :
    (names : List Text) (bits : List Bool) (n : ℕ) (t : Text)
    → distinct names ≡ true
    → length bits ≡ length names
    → next_index bits ≤ n
    → get_elem? names n ≡ some t
    → IsUnset names bits t
unfolding next_index distinct bit_of text_eq
later-IsUnset [] bits n t d e l g = absurd (ground arith)
later-IsUnset (name ∷ names) [] n t d e l g = absurd (omega arith)
later-IsUnset (name ∷ names) (bit ∷ bits) zero t d e l g =
    let same : name ≡ t = cc in
    (ground (arith, text_eq_refl name), ground (arith, text_eq_refl name))
later-IsUnset (name ∷ names) (bit ∷ bits) (suc n) t d e l g =
    (IsUnset-tail name bit names bits (t ∷ []) (ground arith)
      (later-IsUnset names bits n t (ground arith) (omega arith) (ground arith) g, tt)).0

-- An entry of what is asked for: not this node, and nothing that it sent.
abbrev pub IsMissing : Text → History → Text × List Text → Type 0
IsMissing my_id history entry =
    (text_eq entry.0 my_id ≡ false) × All (λ t. heard entry.0 t history ≡ false) entry.1

one_more :
    (my_id : Text) (history : History) (pid : Text) (me : Bool) (msgs : List Text)
    (rest : GoMap (List Text))
    → text_eq pid my_id ≡ me
    → All (λ t. heard pid t history ≡ false) msgs
    → All (IsMissing my_id history) rest
    → All
        (IsMissing my_id history)
        (if me then rest else elim msgs [ [] ↦ rest | name ∷ names ↦ (pid, name ∷ names) ∷ rest ])
one_more my_id history pid true msgs rest e h a = a
one_more my_id history pid false [] rest e h a = a
one_more my_id history pid false (name ∷ names) rest e h a = ((e, h), a)

module _ (my_id : Text) (names pids : List Text) (history : History) where
  abbrev pub told : Monitor
  told = receive_all (new_monitor my_id names pids) history

  pub bits_same : (pid : Text) (row : Row told pid names history) → bits_of told pid ≡ row.bits
  bits_same pid row =
      ap (λ o. elim o as (λ _. List Bool) [ none ↦ [] | some bits ↦ bits ]) row.entry

  unheard :
      (pid : Text) (asked : List Text) (row : Row told pid names history)
      → All (IsUnset names row.bits) asked
      → All (λ t. heard pid t history ≡ false) asked
  unheard pid asked row h = All-map (λ t u. sym (row.tells t u.0) ∙ u.1) asked h

  missing_entry :
      (pid : Text) (n : ℕ)
      → distinct names ≡ true
      → one_of pid pids ≡ true
      → All (λ t. heard pid t history ≡ false) (missing n names (bits_of told pid))
  missing_entry pid n d p =
      let row = receive_all-Row my_id names pids history pid p in
      rw (bits_same pid row)
        (unheard pid (missing n names row.bits) row (missing-IsUnset n names row.bits d row.size))

  missing_pids-IsMissing :
      (n : ℕ) (visited : List Text)
      → distinct names ≡ true
      → All (λ pid. one_of pid pids ≡ true) visited
      → All (IsMissing my_id history) (missing_pids told n visited)
  unfolding missing_pids
  missing_pids-IsMissing n [] d h = tt
  missing_pids-IsMissing n (pid ∷ visited) d h =
      let (all, _, me) = receive_all-fixed my_id names pids history in
      rw (all, me)
        (one_more my_id history pid (text_eq pid my_id) (missing n names (bits_of told pid))
          (missing_pids told n visited) refl (missing_entry pid n d h.0)
          (missing_pids-IsMissing n visited d h.1))

  next_unheard :
      (pid : Text) (n : ℕ) (t : Text)
      → distinct names ≡ true
      → get_elem? names n ≡ some t
      → next_index (bits_of told pid) ≤ n
      → one_of pid pids ≡ true
      → heard pid t history ≡ false
  next_unheard pid n t d g l p =
      let row = receive_all-Row my_id names pids history pid p in
      let less : next_index row.bits ≤ n = subst (λ b. next_index b ≤ n) (bits_same pid row) l in
      (unheard pid (t ∷ []) row (later-IsUnset names row.bits n t d row.size less g, tt)).0

  ask_all-IsMissing :
      (n : ℕ) (t : Text) (visited : List Text)
      → distinct names ≡ true
      → get_elem? names n ≡ some t
      → max_next told visited ≤ n
      → All (λ pid. one_of pid pids ≡ true) visited
      → All (IsMissing my_id history) (ask_all told t visited)
  unfolding ask_all max_next
  ask_all-IsMissing n t [] d g l h = tt
  ask_all-IsMissing n t (pid ∷ visited) d g l h = elim (Bool-cases (text_eq pid told.my_id)) [
    | inl same ↦ rw same (ask_all-IsMissing n t visited d g (ground arith) h.1)
    | inr other ↦ rw other (
      (
        sym (ap (text_eq pid) (receive_all-fixed my_id names pids history).2) ∙ other,
        (next_unheard pid n t d g (ground arith) h.0, tt),
      ),
      ask_all-IsMissing n t visited d g (ground arith) h.1,
    )
  ]

pub visited_in : (pids : List Text) → All (λ pid. one_of pid pids ≡ true) pids
unfolding text_eq
visited_in pids = go pids pids (λ pid h. h)
  where
    go :
        (pids visited : List Text)
        → ((pid : Text) → one_of pid visited ≡ true → one_of pid pids ≡ true)
        → All (λ pid. one_of pid pids ≡ true) visited
    go pids [] h = tt
    go pids (pid ∷ visited) h = (
      h pid (ground (arith, text_eq_refl pid)),
      go pids visited (λ other e. h other (ground arith)),
    )

pick_asked :
    (my_id : Text) (history : History) (now : GoMap (List Text)) (next : Option Text)
    (all : Text → GoMap (List Text))
    → All (IsMissing my_id history) now
    → ((t : Text) → next ≡ some t → All (IsMissing my_id history) (all t))
    → All (IsMissing my_id history) (elim now [
      | entry ∷ entries ↦ entry ∷ entries
      | [] ↦ elim next [ some t ↦ all t | none ↦ [] ]
    ])
pick_asked my_id history (entry ∷ entries) next all h k = h
pick_asked my_id history [] none all h k = tt
pick_asked my_id history [] (some t) all h k = k t refl

-- Whatever messages came from whom, in whatever order, a node asks only others, and of each only for
-- messages that did not come from it. The work's messages have different names.
pub find_missing_messages-IsMissing :
    (my_id : Text) (names pids : List Text) (history : History)
    → distinct names ≡ true
    → All
        (IsMissing my_id history)
        (find_missing_messages (receive_all (new_monitor my_id names pids) history))
unfolding find_missing_messages
find_missing_messages-IsMissing my_id names pids history d =
    let m = receive_all (new_monitor my_id names pids) history in
    let (all, same, me) = receive_all-fixed my_id names pids history in
    let n = max_next m m.pids in
    let in_pids = subst (All λ pid. one_of pid pids ≡ true) (sym same) (visited_in pids) in
    pick_asked my_id history (missing_pids m n m.pids) (get_elem? m.all_messages n)
      (λ t. ask_all m t m.pids) (missing_pids-IsMissing my_id names pids history n m.pids d in_pids)
      (λ t g.
        ask_all-IsMissing my_id names pids history n t m.pids d
          (ap (λ l. get_elem? l n) (sym all) ∙ g) (omega arith) in_pids)
