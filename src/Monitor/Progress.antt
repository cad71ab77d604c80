-- ===== src/Monitor/Progress.antt =====
-- worker/components/message_monitor.go: a node that asks for nothing has everything.
use dheart.Common.{
  ℕ, zero, suc, ◌≤◌, ◌≡◌, refl, Option, none, some, List, [], ◌∷◌, Text, text_eq, Bool, true, false,
  ◌&&◌, ◌||◌, length, get_elem?, if◌then◌else◌, arith, ap, sym, subst, ◌∙◌, ◌⊎◌, All, All-map, inl,
  inr,
}
use dheart.Common.Maps.{GoMap}
use dheart.Rounds.{one_of}
use dheart.Monitor.{
  Monitor, new_monitor, bits_of, max_next, missing, missing_pids, ask_all, find_missing_messages,
}
use dheart.Monitor.Received.{
  History, heard, receive_all, bit_of, receive_all-Row, receive_all-fixed,
}
use dheart.Monitor.Missing.{told, bits_same, visited_in}

-- Every message of `names` came from `pid`.
unfoldable pub all_heard : Text → List Text → History → Bool
all_heard pid [] history = true
all_heard pid (name ∷ names) history = heard pid name history && all_heard pid names history

missing-none :
    (n : ℕ) (names : List Text) (bits : List Bool) (t : Text)
    → length bits ≡ length names
    → length names ≤ n
    → missing n names bits ≡ []
    → one_of t names ≡ true
    → bit_of t names bits ≡ true
unfolding missing bit_of text_eq
missing-none n [] bits t e l h o = absurd (ground arith)
missing-none n (name ∷ names) [] t e l h o = absurd (omega arith)
missing-none zero (name ∷ names) (bit ∷ bits) t e l h o = absurd (omega arith)
missing-none (suc n) (name ∷ names) (true ∷ bits) t e l h o =
    ground (arith, missing-none n names bits t)
missing-none (suc n) (name ∷ names) (false ∷ bits) t e l h o = absurd (cc)

all_heard_in :
    (pid : Text) (names : List Text) (history : History)
    → All (λ t. heard pid t history ≡ true) names
    → all_heard pid names history ≡ true
unfolding all_heard
all_heard_in pid [] history h = refl
all_heard_in pid (name ∷ names) history h = ground (arith, all_heard_in pid names history h.1)

past_end {ℓ} : {A : Type ℓ} (xs : List A) (n : ℕ) → get_elem? xs n ≡ none → length xs ≤ n
past_end [] n e = omega arith
past_end (x ∷ xs) zero e = absurd (cc)
past_end (x ∷ xs) (suc n) e = omega (arith, past_end xs n e)

none_here :
    (me : Bool) (pid : Text) (msgs : List Text) (rest : GoMap (List Text))
    → (if me then rest else elim msgs [ [] ↦ rest | name ∷ names ↦ (pid, name ∷ names) ∷ rest ])
      ≡ []
    → ((me ≡ true) ⊎ (msgs ≡ [])) × (rest ≡ [])
none_here true pid msgs rest e = (inl refl, e)
none_here false pid [] rest e = (inr refl, e)
none_here false pid (name ∷ names) rest e = absurd (cc)

-- The entries of `missing_pids`, by the list that it is given.
entries_none :
    (m : Monitor) (n : ℕ) (pids : List Text)
    → missing_pids m n pids ≡ []
    → All
        (λ pid. (text_eq pid m.my_id ≡ true) ⊎ (missing n m.all_messages (bits_of m pid) ≡ []))
        pids
unfolding missing_pids
entries_none m n [] e = tt
entries_none m n (pid ∷ pids) e =
    let (here, rest) =
      none_here (text_eq pid m.my_id) pid (missing n m.all_messages (bits_of m pid))
        (missing_pids m n pids) e in
    (here, entries_none m n pids rest)

ask_here :
    (me : Bool) (entry : Text × List Text) (rest : GoMap (List Text))
    → (if me then rest else entry ∷ rest) ≡ []
    → (me ≡ true) × (rest ≡ [])
ask_here true entry rest e = (refl, e)
ask_here false entry rest e = absurd (cc)

asks_none :
    (m : Monitor) (t : Text) (pids : List Text)
    → ask_all m t pids ≡ []
    → All (λ pid. text_eq pid m.my_id ≡ true) pids
unfolding ask_all
asks_none m t [] e = tt
asks_none m t (pid ∷ pids) e =
    let (here, rest) = ask_here (text_eq pid m.my_id) (pid, t ∷ []) (ask_all m t pids) e in
    (here, asks_none m t pids rest)

nothing_asked :
    (now : GoMap (List Text)) (next : Option Text) (all : Text → GoMap (List Text))
    → (elim now [
      | entry ∷ entries ↦ entry ∷ entries
      | [] ↦ elim next [ some t ↦ all t | none ↦ [] ]
    ])
      ≡ []
    → (now ≡ []) × ((next ≡ none) ⊎ ((t : Text) × (all t ≡ [])))
nothing_asked (entry ∷ entries) next all e = absurd (cc)
nothing_asked [] none all e = (refl, inl refl)
nothing_asked [] (some t) all e = (refl, inr (t, e))

module _ (my_id : Text) (names pids : List Text) (history : History) where
  abbrev has_all : Text → Bool
  has_all pid = text_eq pid my_id || all_heard pid names history

  of_me :
      (pid : Text) → text_eq pid (told my_id names pids history).my_id ≡ true → has_all pid ≡ true
  of_me pid e =
      let same : text_eq pid my_id ≡ true =
        sym (ap (text_eq pid) (receive_all-fixed my_id names pids history).2) ∙ e in
      rw same refl

  complete_row :
      (pid : Text) (n : ℕ)
      → length names ≤ n
      → one_of pid pids ≡ true
      → missing n names (bits_of (told my_id names pids history) pid) ≡ []
      → has_all pid ≡ true
  complete_row pid n l p e =
      let row = receive_all-Row my_id names pids history pid p in
      let none_left : missing n names row.bits ≡ [] =
        ap (missing n names) (sym (bits_same my_id names pids history pid row)) ∙ e in
      let all = all_heard_in pid names history (
        All-map
          (λ t o. sym (row.tells t o) ∙ missing-none n names row.bits t row.size l none_left o)
          names (visited_in names)) in
      ground (arith, all)

  complete_visited :
      (n : ℕ) (visited : List Text)
      → length names ≤ n
      → All (λ pid. one_of pid pids ≡ true) visited
      → All
          (λ pid.
            (text_eq pid (told my_id names pids history).my_id ≡ true)
            ⊎ (missing n names (bits_of (told my_id names pids history) pid) ≡ []))
          visited
      → All (λ pid. has_all pid ≡ true) visited
  complete_visited n [] l h k = tt
  complete_visited n (pid ∷ visited) l (h, hs) (inl me, ks) =
      (of_me pid me, complete_visited n visited l hs ks)
  complete_visited n (pid ∷ visited) l (h, hs) (inr empty, ks) =
      (complete_row pid n l h empty, complete_visited n visited l hs ks)

-- Where nothing is asked for, every other node's messages have all come.
pub find_missing_messages-all_heard :
    (my_id : Text) (names pids : List Text) (history : History)
    → find_missing_messages (receive_all (new_monitor my_id names pids) history) ≡ []
    → All (λ pid. (text_eq pid my_id || all_heard pid names history) ≡ true) pids
unfolding find_missing_messages
find_missing_messages-all_heard my_id names pids history e =
    let m = receive_all (new_monitor my_id names pids) history in
    let (names_same, pids_same, me_same) = receive_all-fixed my_id names pids history in
    let n = max_next m m.pids in
    let (now, later) =
      nothing_asked (missing_pids m n m.pids) (get_elem? m.all_messages n) (λ t. ask_all m t m.pids)
        e in
    subst (All λ pid. (text_eq pid my_id || all_heard pid names history) ≡ true) pids_same
      (elim later [
        | inl end ↦
            complete_visited my_id names pids history n m.pids
              (past_end names n (ap (λ l. get_elem? l n) (sym names_same) ∙ end))
              (subst (All λ pid. one_of pid pids ≡ true) (sym pids_same) (visited_in pids))
              (subst
                (λ l.
                  All (λ pid. (text_eq pid m.my_id ≡ true) ⊎ (missing n l (bits_of m pid) ≡ []))
                    m.pids)
                names_same (entries_none m n m.pids now))
        | inr (t, none_else) ↦
            All-map (of_me my_id names pids history) m.pids (asks_none m t m.pids none_else)
      ])
