-- ===== src/Cache/Works/Recent.antt =====
-- What `Get` finds after any additions to a new cache.
use dheart.Common.{
  ℕ, zero, suc, ◌*◌, ◌<◌, ◌≡◌, refl, sym, ◌∙◌, ite, Option, none, some, List, [], ◌∷◌, arith, Text,
  text_dec, take, subst,
}
use dheart.Common.Int.{pos}
use dheart.Common.Maps.{GoMap, get, put, get-put, IsMap}
use dheart.Message.{SignedMessage}
use dheart.Ring.{CircularQueue, new_circular_queue, lookup}
use dheart.Ring.Window.{kept, Holds, add-Holds}
use dheart.Ring.Recent.{new_Holds, kept_recent}
use dheart.Cache.Works.{
  WorkMessageCache, new_work_message_cache, capacity, queue_for, add_signed, get_signed,
}

-- The additions of one sender, with their keys; the newest is the first.
unfoldable pub signed_by : Text → List (Text × SignedMessage) → List (Text × SignedMessage)
signed_by from [] = []
signed_by from ((key, msg) ∷ h) =
    let rest = signed_by from h in ite (text_dec msg.sender from) ((key, msg) ∷ rest) rest

unfoldable pub add_signed_all :
    WorkMessageCache → List (Text × SignedMessage) → Option WorkMessageCache
unfolding add_signed
add_signed_all c [] = some c
add_signed_all c ((key, msg) ∷ h) = elim (add_signed_all c h) [
  | none ↦ none
  | some c' ↦ add_signed c' key msg
]

-- What the cache holds of one sender.
data SenderHolds (n : ℕ) (h : List (Text × SignedMessage))
    : Option (CircularQueue SignedMessage) → Type 0 where
  absent : h ≡ [] → SenderHolds n h none
  present : (q : CircularQueue SignedMessage) → Holds n h q → SenderHolds n h (some q)

pub record CacheHolds (n : ℕ) (me : Text) (h : List (Text × SignedMessage)) (c : WorkMessageCache)
    : Type 0 where
  size_kept : c.size_per_node ≡ n
  me_kept : c.my_id ≡ me
  senders : (from : Text) → SenderHolds (capacity c from) (signed_by from h) (get from c.cache)

new_queue_Holds :
    (n : ℕ)
    → 0 < n
    → (q : CircularQueue SignedMessage) × (new_circular_queue (pos n) ≡ some q) × Holds n [] q
new_queue_Holds zero p = elim p [ ]
new_queue_Holds (suc n) p = new_Holds n

queue_for-Holds :
    (c : WorkMessageCache) (from : Text) (h : List (Text × SignedMessage))
    (o : Option (CircularQueue SignedMessage))
    → get from c.cache ≡ o
    → 0 < capacity c from
    → SenderHolds (capacity c from) h o
    → (q : CircularQueue SignedMessage) × (queue_for c from ≡ some q) × Holds (capacity c from) h q
unfolding queue_for
queue_for-Holds c from h o e room (absent none_yet) =
    let (q, new, holds) = new_queue_Holds (capacity c from) room in
    (q, rw (e, queue_for) new, rw none_yet holds)
queue_for-Holds c from h o e room (present q holds) = (q, rw (e, queue_for), holds)

capacity_pos : (c : WorkMessageCache) (from : Text) → 0 < c.size_per_node → 0 < capacity c from
unfolding capacity
capacity_pos c from p = ground arith

put-SenderHolds :
    (c : WorkMessageCache) (key : Text) (msg : SignedMessage) (h : List (Text × SignedMessage))
    (q : CircularQueue SignedMessage) (from : Text) (d : Dec (msg.sender ≡ from))
    → Holds (capacity c msg.sender) ((key, msg) ∷ signed_by msg.sender h) q
    → SenderHolds (capacity c from) (signed_by from h) (get from c.cache)
    → SenderHolds
        (capacity c from)
        (ite d ((key, msg) ∷ signed_by from h) (signed_by from h))
        (ite d (some q) (get from c.cache))
put-SenderHolds c key msg h q from (yes p) new old =
    present q (subst (λ s. Holds (capacity c s) ((key, msg) ∷ signed_by s h) q) p new)
put-SenderHolds c key msg h q from (no p) new old = old

capacity_same :
    (c : WorkMessageCache) (m : GoMap (CircularQueue SignedMessage)) (from : Text)
    {h : List (Text × SignedMessage)} {o : Option (CircularQueue SignedMessage)}
    → SenderHolds (capacity c from) h o
    → SenderHolds (capacity (record c { cache = m }) from) h o
unfolding capacity
capacity_same c m from s = s

pub add_signed-CacheHolds :
    (n : ℕ) (me : Text) (h : List (Text × SignedMessage)) (c : WorkMessageCache) (key : Text)
    (msg : SignedMessage)
    → 0 < n
    → CacheHolds n me h c
    → (c' : WorkMessageCache) × (add_signed c key msg ≡ some c')
      × CacheHolds n me ((key, msg) ∷ h) c'
unfolding add_signed signed_by
add_signed-CacheHolds n me h c key msg p inv =
    let cap : 0 < capacity c msg.sender =
      capacity_pos c msg.sender (omega (arith, inv.size_kept)) in
    let (q, found, holds) =
      queue_for-Holds c msg.sender (signed_by msg.sender h) (get msg.sender c.cache) refl cap
        (inv.senders msg.sender) in
    let (q', added, holds') =
      add-Holds (capacity c msg.sender) (signed_by msg.sender h) q key msg holds in
    (
      record c { cache = put msg.sender q' c.cache },
      rw (found, add_signed) (rw (added, add_signed)),
      record {
        size_kept = inv.size_kept;
        me_kept = inv.me_kept;
        senders = λ from. rw (get-put msg.sender from q' c.cache) (
            capacity_same c (put msg.sender q' c.cache) from (
              put-SenderHolds c key msg h q' from (text_dec msg.sender from) holds'
                (inv.senders from)));
      },
    )

pub add_signed_all-CacheHolds :
    (n : ℕ) (me : Text) (h : List (Text × SignedMessage))
    → 0 < n
    → (c : WorkMessageCache) × (add_signed_all (new_work_message_cache n me) h ≡ some c)
      × CacheHolds n me h c
unfolding add_signed_all new_work_message_cache signed_by get
add_signed_all-CacheHolds n me [] p = (
  new_work_message_cache n me,
  refl,
  record { size_kept = refl; me_kept = refl; senders = λ from. absent refl },
)
add_signed_all-CacheHolds n me ((key, msg) ∷ h) p =
    let (c, all, inv) = add_signed_all-CacheHolds n me h p in
    let (c', added, inv') = add_signed-CacheHolds n me h c key msg p inv in
    (c', rw (all, add_signed_all) added, inv')

kept_recent_pos :
    (n : ℕ) (h : List (Text × SignedMessage)) (key : Text)
    → 0 < n
    → IsMap h
    → kept key n h ≡ get key (take n h)
kept_recent_pos zero h key p d = elim p [ ]
kept_recent_pos (suc n) h key p d = kept_recent key n h d

get-take_nil {ℓ} : {V : Type ℓ} (n : ℕ) (key : Text) → get key (take {A = Text × V} n []) ≡ none
unfolding get
get-take_nil zero key = refl
get-take_nil (suc n) key = refl

SenderHolds-kept :
    (n : ℕ) (h : List (Text × SignedMessage)) (o : Option (CircularQueue SignedMessage))
    (key : Text)
    → 0 < n
    → IsMap h
    → SenderHolds n h o
    → elim o [ none ↦ none | some q ↦ lookup key q ] ≡ get key (take n h)
unfolding lookup
SenderHolds-kept n h _ key p d (absent e) = rw e (sym (get-take_nil n key))
SenderHolds-kept n h _ key p d (present q holds) = holds.found key ∙ kept_recent_pos n h key p d

capacity_of :
    (n : ℕ) (me from : Text) (c : WorkMessageCache)
    → c.size_per_node ≡ n
    → c.my_id ≡ me
    → capacity c from ≡ ite (text_dec from me) (n * 5) n
unfolding capacity
capacity_of n me from c s m = rw (s, m)

-- A cache for a positive number of messages takes any additions without a panic. If a sender used
-- no key twice, `Get` then finds exactly its last messages: five times that number for the node's
-- own id, and that number for any other, whatever the other senders added.
pub add_signed_all_recent :
    (n : ℕ) (me from : Text) (h : List (Text × SignedMessage))
    → 0 < n
    → IsMap (signed_by from h)
    → (c : WorkMessageCache) × (add_signed_all (new_work_message_cache n me) h ≡ some c)
      × ((key : Text)
          → get_signed c from key
            ≡ get key (take (ite (text_dec from me) (n * 5) n) (signed_by from h)))
unfolding get_signed
add_signed_all_recent n me from h p d =
    let (c, all, inv) = add_signed_all-CacheHolds n me h p in
    (
      c,
      all,
      λ key. rw (← capacity_of n me from c inv.size_kept inv.me_kept) (
          SenderHolds-kept (capacity c from) (signed_by from h) (get from c.cache) key
            (capacity_pos c from (omega (arith, inv.size_kept))) d (inv.senders from)),
    )
