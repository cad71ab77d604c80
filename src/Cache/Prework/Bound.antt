-- ===== src/Cache/Prework/Bound.antt =====
-- What `AddMessage` keeps of each sender's messages.
use mathlib.Core.List.{reverse, reverse-cons}
use dheart.Common.{
  ℕ, zero, suc, ◌≤◌, ◌≡◌, refl, ap, sym, ◌∙◌, ite, List, [], ◌∷◌, ◌++◌, arith, leb→le, leb_false→lt,
  Text, text_dec, length, leb, take, drop, length-take, length-append, Bool-cases, inl, inr,
}
use dheart.Common.Maps.{get, get-put}
use dheart.Message.{TssMessage}
use dheart.Cache.Prework.{
  MessageCache, max_message_per_node, messages_of, push_message, add_message,
}

-- The messages of one sender, and the cache after all additions; the newest message is the first.
unfoldable pub sent_by : Text → List TssMessage → List TssMessage
sent_by from [] = []
sent_by from (msg ∷ h) = let rest = sent_by from h in ite (text_dec msg.from from) (msg ∷ rest) rest

unfoldable pub add_all : List TssMessage → MessageCache
unfolding add_message
add_all [] = []
add_all (msg ∷ h) = add_message (add_all h) msg

length-reverse {ℓ} : {A : Type ℓ} (xs : List A) → length (reverse xs) ≡ length xs
length-reverse [] = refl
length-reverse (x ∷ xs) =
    omega
      (arith, ap length (reverse-cons x xs), length-append (reverse xs) (x ∷ []), length-reverse xs)

drop-append_pos {ℓ} :
    {A : Type ℓ} (xs ys : List A) → 1 ≤ length xs → drop 1 (xs ++ ys) ≡ drop 1 xs ++ ys
drop-append_pos [] ys h = elim h [ ]
drop-append_pos (x ∷ xs) ys h = refl

-- The oldest of a list, which is the first of its reverse, goes.
drop-reverse {ℓ} :
    {A : Type ℓ} (n : ℕ) (xs : List A)
    → length xs ≡ suc n
    → drop 1 (reverse xs) ≡ reverse (take n xs)
drop-reverse n [] h = absurd (omega arith)
drop-reverse zero (x ∷ []) h = refl
drop-reverse (suc n) (x ∷ []) h = absurd (omega arith)
drop-reverse zero (x ∷ y ∷ xs) h = absurd (omega arith)
drop-reverse (suc n) (x ∷ y ∷ xs) h =
    ap (drop 1) (reverse-cons x (y ∷ xs))
    ∙ drop-append_pos (reverse (y ∷ xs)) (x ∷ []) (omega (arith, length-reverse (y ∷ xs)))
    ∙ ap (λ (l : List _). l ++ (x ∷ [])) (drop-reverse n (y ∷ xs) (omega arith))
    ∙ sym (reverse-cons x (take n (y ∷ xs)))

take-take {ℓ} : {A : Type ℓ} (n : ℕ) (xs : List A) → take n (take (suc n) xs) ≡ take n xs
take-take zero xs = refl
take-take (suc n) [] = refl
take-take (suc n) (x ∷ xs) = ap (◌∷◌ x) (take-take n xs)

take_short {ℓ} :
    {A : Type ℓ} (n : ℕ) (xs : List A) → length (take (suc n) xs) ≤ n → take n xs ≡ take (suc n) xs
take_short zero [] h = refl
take_short (suc n) [] h = refl
take_short zero (x ∷ xs) h = absurd (omega arith)
take_short (suc n) (x ∷ xs) h = ap (◌∷◌ x) (take_short n xs (omega arith))

push_message_lem :
    (xs : List TssMessage) (msg : TssMessage)
    → push_message (reverse (take 64 xs)) msg ≡ reverse (take 64 (msg ∷ xs))
unfolding push_message
push_message_lem xs msg = elim (Bool-cases (leb 64 (length (reverse (take 64 xs))))) [
  | inl full ↦
      let n : length (take 64 xs) ≡ 64 = omega (
        arith,
        leb→le 64 (length (reverse (take 64 xs))) full,
        length-reverse (take 64 xs),
        length-take 64 xs,
      ) in
      rw (full, drop-reverse 63 (take 64 xs) n, take-take 63 xs)
        (sym (reverse-cons msg (take 63 xs)))
  | inr room ↦
      let n : length (take 64 xs) ≤ 63 = omega (
        arith,
        leb_false→lt 64 (length (reverse (take 64 xs))) room,
        length-reverse (take 64 xs),
      ) in
      rw room (
        ap (λ (l : List TssMessage). reverse l ++ (msg ∷ [])) (sym (take_short 63 xs n))
        ∙ sym (reverse-cons msg (take 63 xs)))
]

messages_of-add_message :
    (cache : MessageCache) (msg : TssMessage) (from : Text)
    → messages_of from (add_message cache msg)
      ≡ ite
          (text_dec msg.from from)
          (push_message (messages_of msg.from cache) msg)
          (messages_of from cache)
unfolding add_message
messages_of-add_message cache msg from =
    ground (arith, get-put msg.from from (push_message (messages_of msg.from cache) msg) cache)

pick_messages :
    (msg : TssMessage) (h : List TssMessage) (from : Text)
    → ((k : Text) → messages_of k (add_all h) ≡ reverse (take 64 (sent_by k h)))
    → (d : Dec (msg.from ≡ from))
    → ite d (push_message (messages_of msg.from (add_all h)) msg) (messages_of from (add_all h))
      ≡ reverse (take 64 (ite d (msg ∷ sent_by from h) (sent_by from h)))
pick_messages msg h from ih (yes p) =
    ap (λ l. push_message l msg) (ih msg.from ∙ ap (λ k. reverse (take 64 (sent_by k h))) p)
    ∙ push_message_lem (sent_by from h) msg
pick_messages msg h from ih (no p) = ih from

messages_of-add_all :
    (h : List TssMessage) (from : Text)
    → messages_of from (add_all h) ≡ reverse (take 64 (sent_by from h))
unfolding add_all sent_by get
messages_of-add_all [] from = refl
messages_of-add_all (msg ∷ h) from =
    messages_of-add_message (add_all h) msg from
    ∙ pick_messages msg h from (messages_of-add_all h) (text_dec msg.from from)

-- After any additions to an empty cache, a sender's list holds the newest 64 of its messages, the
-- oldest first, whatever the other senders sent; so it is never longer than 64.
pub add_all_newest :
    (h : List TssMessage) (from : Text)
    → (messages_of from (add_all h) ≡ reverse (take 64 (sent_by from h)))
      × (length (messages_of from (add_all h)) ≤ max_message_per_node)
add_all_newest h from = (
  messages_of-add_all h from,
  omega (
    arith,
    ap length (messages_of-add_all h from),
    length-reverse (take 64 (sent_by from h)),
    length-take 64 (sent_by from h),
  ),
)
