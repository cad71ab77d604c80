-- ===== src/Monitor/Received.antt =====
-- worker/components/message_monitor.go: what a monitor knows of the messages it was told of.
use dheart.Common.{
  ◌≡◌, refl, ◌≢◌, some, List, [], ◌∷◌, map, Text, text_dec, text_eq, text_eq_refl, Bool, true,
  false, ◌&&◌, ◌||◌, length, length-replicate, replicate, if◌then◌else◌, arith, ap, sym, subst,
  Option-cases, inl, inr, ◌∙◌,
}
use dheart.Common.Maps.{get, get-put_self, get-put_ne}
use dheart.Rounds.{one_of}
use dheart.Monitor.{Monitor, new_monitor, mark, new_message_received}

-- The bit of a message type.
unfoldable pub bit_of : Text → List Text → List Bool → Bool
bit_of msg_type (name ∷ names) (bit ∷ bits) =
    let rest = bit_of msg_type names bits in if text_eq name msg_type then bit else rest
bit_of msg_type _ _ = false

-- Messages received, each with its sender's id and its type.
abbrev pub History : Type 0
History = List (Text × Text)

unfoldable pub receive_all : Monitor → History → Monitor
unfolding new_message_received
receive_all m [] = m
receive_all m ((from, msg_type) ∷ history) =
    new_message_received (receive_all m history) from msg_type

unfoldable pub heard : Text → Text → History → Bool
heard pid msg_type [] = false
heard pid msg_type ((from, t) ∷ history) =
    (text_eq from pid && text_eq t msg_type) || heard pid msg_type history

pub length-mark :
    (t : Text) (names : List Text) (bits : List Bool) → length (mark t names bits) ≡ length bits
unfolding mark
length-mark t [] bits = refl
length-mark t (name ∷ names) [] = refl
length-mark t (name ∷ names) (bit ∷ bits) = ground (arith, length-mark t names bits)

bit-mark :
    (t u : Text) (names : List Text) (bits : List Bool)
    → length bits ≡ length names
    → one_of u names ≡ true
    → bit_of u names (mark t names bits) ≡ (text_eq t u || bit_of u names bits)
unfolding mark bit_of text_eq
bit-mark t u [] bits e h = absurd (ground arith)
bit-mark t u (name ∷ names) [] e h = absurd (omega arith)
bit-mark t u (name ∷ names) (bit ∷ bits) e h = ground (arith, bit-mark t u names bits)

bit-replicate :
    (u : Text) (names : List Text) → bit_of u names (replicate (length names) false) ≡ false
unfolding bit_of
bit-replicate u [] = refl
bit-replicate u (name ∷ names) = ground (arith, bit-replicate u names)

-- What a monitor that was told of `history` keeps for one party.
pub record Row (m : Monitor) (pid : Text) (names : List Text) (history : History) : Type 0 where
  pub bits : List Bool
  pub entry : get pid m.received ≡ some bits
  pub size : length bits ≡ length names
  pub tells : (t : Text) → one_of t names ≡ true → bit_of t names bits ≡ heard pid t history

new_received :
    (pid : Text) (pids : List Text) (bits : List Bool)
    → one_of pid pids ≡ true
    → get pid (map (λ p. (p, bits)) pids) ≡ some bits
unfolding get text_eq
new_received pid [] bits h = absurd (ground arith)
new_received pid (p ∷ pids) bits h = ground (arith, new_received pid pids bits)

fixed_step :
    (m : Monitor) (from t : Text)
    → (let m' = new_message_received m from t in
        (m'.all_messages ≡ m.all_messages) × (m'.pids ≡ m.pids) × (m'.my_id ≡ m.my_id))
unfolding new_message_received
fixed_step m from t = ground arith

received_known :
    (m : Monitor) (from t : Text) (bits : List Bool)
    → get from m.received ≡ some bits
    → get from (new_message_received m from t).received ≡ some (mark t m.all_messages bits)
unfolding new_message_received
received_known m from t bits e =
    rw (e, new_message_received) (get-put_self from (mark t m.all_messages bits) m.received)

received_other :
    (m : Monitor) (pid from t : Text)
    → from ≢ pid
    → get pid (new_message_received m from t).received ≡ get pid m.received
unfolding new_message_received
received_other m pid from t h = elim (Option-cases (get from m.received)) [
  | inl unknown ↦ rw (unknown, new_message_received) refl
  | inr (bits, known) ↦
      rw (known, new_message_received)
        (get-put_ne from pid (mark t m.all_messages bits) m.received h)
]

heard_same :
    (pid t u : Text) (history : History)
    → heard pid u ((pid, t) ∷ history) ≡ (text_eq t u || heard pid u history)
unfolding heard
heard_same pid t u history = rw (text_eq_refl pid) refl

heard_other :
    (pid from t u : Text) (history : History)
    → from ≢ pid
    → heard pid u ((from, t) ∷ history) ≡ heard pid u history
unfolding heard text_eq
heard_other pid from t u history h = ground arith

pub receive_all-fixed :
    (my_id : Text) (names pids : List Text) (history : History)
    → (let m = receive_all (new_monitor my_id names pids) history in
        (m.all_messages ≡ names) × (m.pids ≡ pids) × (m.my_id ≡ my_id))
unfolding receive_all new_monitor new_message_received
receive_all-fixed my_id names pids [] = (refl, refl, refl)
receive_all-fixed my_id names pids ((from, t) ∷ history) =
    let m = receive_all (new_monitor my_id names pids) history in
    let (a, b, c) = fixed_step m from t in
    let (a', b', c') = receive_all-fixed my_id names pids history in (a ∙ a', b ∙ b', c ∙ c')

told_step :
    (m : Monitor) (pid from t : Text) (names : List Text) (history : History)
    → m.all_messages ≡ names
    → Row m pid names history
    → Row (new_message_received m from t) pid names ((from, t) ∷ history)
told_step m pid from t names history e row = elim (text_dec from pid) [
  | yes same ↦
      subst (λ from. Row (new_message_received m from t) pid names ((from, t) ∷ history)) (sym same)
        (record {
          bits = mark t names row.bits;
          entry =
              subst
                (λ names.
                  get pid (new_message_received m pid t).received ≡ some (mark t names row.bits))
                e (received_known m pid t row.bits row.entry);
          size = length-mark t names row.bits ∙ row.size;
          tells = λ u h.
              bit-mark t u names row.bits row.size h
              ∙ ap (λ b. text_eq t u || b) (row.tells u h)
              ∙ sym (heard_same pid t u history);
        })
  | no other ↦ record {
    bits = row.bits;
    entry = received_other m pid from t other ∙ row.entry;
    size = row.size;
    tells = λ u h. row.tells u h ∙ sym (heard_other pid from t u history other);
  }
]

pub receive_all-Row :
    (my_id : Text) (names pids : List Text) (history : History) (pid : Text)
    → one_of pid pids ≡ true
    → Row (receive_all (new_monitor my_id names pids) history) pid names history
unfolding receive_all new_monitor heard
receive_all-Row my_id names pids [] pid h = record {
  bits = replicate (length names) false;
  entry = new_received pid pids (replicate (length names) false) h;
  size = length-replicate (length names) false;
  tells = λ t _. bit-replicate t names;
}
receive_all-Row my_id names pids ((from, t) ∷ history) pid h =
    told_step (receive_all (new_monitor my_id names pids) history) pid from t names history
      (receive_all-fixed my_id names pids history).0
      (receive_all-Row my_id names pids history pid h)
