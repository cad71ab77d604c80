-- ===== src/Cache/Prework/Kept.antt =====
-- A message that was added is among those that are popped.
use mathlib.Core.List.{append_assoc, mem-cons_self, mem-cons_of_mem}
use dheart.Common.{
  ◌≡◌, ap, sym, ◌∙◌, some, List, [], ◌∷◌, ◌++◌, arith, Text, text_dec, true, Mem, Bool-cases, inl,
  inr,
}
use dheart.Common.Maps.{get, get-put_self}
use dheart.Message.{TssMessage}
use dheart.Cache.Prework.{MessageCache, Filter, push_message, add_message, wanted, pop_all_messages}
use dheart.Cache.Prework.Select.{chosen, all_messages, get_messages_result}

mem-chosen :
    (work_id : Text) (filter : Filter) (msg : TssMessage) (xs ys : List TssMessage)
    → wanted work_id filter msg ≡ true
    → Mem msg (chosen work_id filter (xs ++ (msg ∷ ys)))
unfolding chosen
mem-chosen work_id filter msg [] ys w = rw w mem-cons_self
mem-chosen work_id filter msg (x ∷ xs) ys w = elim (Bool-cases (wanted work_id filter x)) [
  | inl e ↦ rw e (mem-cons_of_mem x (mem-chosen work_id filter msg xs ys w))
  | inr e ↦ rw e (mem-chosen work_id filter msg xs ys w)
]

all_messages-get :
    (from : Text) (arr : List TssMessage) (msg : TssMessage) (cache : MessageCache)
    → get from cache ≡ some (arr ++ (msg ∷ []))
    → (before : List TssMessage) × (after : List TssMessage) × (all_messages cache
        ≡ before ++ (msg ∷ after))
unfolding all_messages get
all_messages-get from arr msg [] e = absurd (ground arith)
all_messages-get from arr msg ((k, old) ∷ cache) e = elim (text_dec k from) [
  | yes same ↦
      let own : old ≡ arr ++ (msg ∷ []) = ground arith in
      (
        arr,
        all_messages cache,
        ap (λ (l : List TssMessage). l ++ all_messages cache) own
            ∙ append_assoc arr (msg ∷ []) (all_messages cache),
      )
  | no other ↦
      let (before, after, split) = all_messages-get from arr msg cache (ground arith) in
      (
        old ++ before,
        after,
        ap (λ (l : List TssMessage). old ++ l) split ∙ sym (append_assoc old before (msg ∷ after)),
      )
]

get-add_message :
    (cache : MessageCache) (msg : TssMessage)
    → (arr : List TssMessage) × (get msg.from (add_message cache msg) ≡ some (arr ++ (msg ∷ [])))
unfolding add_message push_message
get-add_message cache msg = (_, get-put_self msg.from _ cache)

pub mem-pop_all_messages :
    (cache : MessageCache) (msg : TssMessage) (work_id : Text) (filter : Filter)
    → wanted work_id filter msg ≡ true
    → Mem msg (pop_all_messages (add_message cache msg) work_id filter).1
mem-pop_all_messages cache msg work_id filter w =
    let (arr, last) = get-add_message cache msg in
    let (before, after, split) = all_messages-get msg.from arr msg (add_message cache msg) last in
    rw ((get_messages_result (add_message cache msg) work_id filter).0, split)
      (mem-chosen work_id filter msg before after w)
