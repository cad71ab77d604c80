-- ===== src/Cache/Prework/Select.antt =====
-- What `PopAllMessages` and `GetAllMessages` return, and what they leave.
use mathlib.Core.List.{append_assoc, append-nil}
use dheart.Common.{
  ◌≡◌, refl, ap, ap₂, sym, ◌∙◌, none, some, List, [], ◌∷◌, ◌++◌, arith, Text, Bool, true, false,
  Bool-cases, inl, inr, if◌then◌else◌,
}
use dheart.Common.Maps.{get}
use dheart.Message.{TssMessage}
use dheart.Cache.Prework.{
  MessageCache, Filter, wanted, scan_messages, scan_senders, pop_all_messages, get_all_messages,
}

-- The messages that are wanted, and the others, in their order.
unfoldable pub chosen : Text → Filter → List TssMessage → List TssMessage
chosen work_id filter [] = []
chosen work_id filter (msg ∷ msgs) =
    let rest = chosen work_id filter msgs in if wanted work_id filter msg then msg ∷ rest else rest

unfoldable pub left_over : Text → Filter → List TssMessage → List TssMessage
left_over work_id filter [] = []
left_over work_id filter (msg ∷ msgs) =
    let rest = left_over work_id filter msgs in
    if wanted work_id filter msg then rest else msg ∷ rest

-- All messages, sender after sender.
unfoldable pub all_messages : MessageCache → List TssMessage
all_messages [] = []
all_messages ((from, msgs) ∷ cache) = msgs ++ all_messages cache

scan_messages_lem :
    (work_id : Text) (filter : Filter) (msgs result new_list : List TssMessage)
    → scan_messages work_id filter msgs (result, new_list)
      ≡ (result ++ chosen work_id filter msgs, new_list ++ left_over work_id filter msgs)
unfolding scan_messages chosen left_over
scan_messages_lem work_id filter [] result new_list =
    ground (arith, append-nil result, append-nil new_list)
scan_messages_lem work_id filter (msg ∷ msgs) result new_list =
    elim (Bool-cases (wanted work_id filter msg)) [
      | inl e ↦ rw e (
          scan_messages_lem work_id filter msgs (result ++ (msg ∷ [])) new_list
          ∙ rw (append_assoc result (msg ∷ []) (chosen work_id filter msgs)))
      | inr e ↦ rw e (
          scan_messages_lem work_id filter msgs result (new_list ++ (msg ∷ []))
          ∙ rw (append_assoc new_list (msg ∷ []) (left_over work_id filter msgs)))
    ]

chosen-append :
    (work_id : Text) (filter : Filter) (xs ys : List TssMessage)
    → chosen work_id filter (xs ++ ys) ≡ chosen work_id filter xs ++ chosen work_id filter ys
unfolding chosen
chosen-append work_id filter [] ys = refl
chosen-append work_id filter (x ∷ xs) ys = ground (arith, chosen-append work_id filter xs ys)

left_over-append :
    (work_id : Text) (filter : Filter) (xs ys : List TssMessage)
    → left_over work_id filter (xs ++ ys)
      ≡ left_over work_id filter xs ++ left_over work_id filter ys
unfolding left_over
left_over-append work_id filter [] ys = refl
left_over-append work_id filter (x ∷ xs) ys = ground (arith, left_over-append work_id filter xs ys)

scan_senders_result :
    (work_id : Text) (update : Bool) (filter : Filter) (cache : MessageCache)
    (result new_list : List TssMessage)
    → (scan_senders work_id update filter cache (result, new_list)).1
      ≡ result ++ chosen work_id filter (all_messages cache)
unfolding scan_senders chosen all_messages
scan_senders_result work_id update filter [] result new_list = sym (append-nil result)
scan_senders_result work_id update filter ((from, msgs) ∷ cache) result new_list =
    rw (scan_messages_lem work_id filter msgs result new_list) (
      scan_senders_result work_id update filter cache (result ++ chosen work_id filter msgs)
        (new_list ++ left_over work_id filter msgs)
      ∙ rw (
        append_assoc result (chosen work_id filter msgs)
            (chosen work_id filter (all_messages cache)),
        chosen-append work_id filter msgs (all_messages cache),
      ))

scan_senders_kept :
    (work_id : Text) (filter : Filter) (cache : MessageCache)
    (acc : List TssMessage × List TssMessage)
    → (scan_senders work_id false filter cache acc).0 ≡ cache
unfolding scan_senders
scan_senders_kept work_id filter [] acc = refl
scan_senders_kept work_id filter ((from, msgs) ∷ cache) acc =
    ap (◌∷◌ (from, msgs))
      (scan_senders_kept work_id filter cache (scan_messages work_id filter msgs acc))

-- `GetAllMessages` returns the messages of the work from all senders, in their order, and leaves
-- the cache as it is. `PopAllMessages` returns those of the work that the filter admits.
pub get_messages_result :
    (cache : MessageCache) (work_id : Text) (filter : Filter)
    → ((pop_all_messages cache work_id filter).1 ≡ chosen work_id filter (all_messages cache))
      × (get_all_messages cache work_id ≡ (cache, chosen work_id none (all_messages cache)))
unfolding pop_all_messages get_all_messages
get_messages_result cache work_id filter = (
  scan_senders_result work_id true filter cache [] [],
  ap₂ (λ (c : MessageCache) (r : List TssMessage). (c, r))
      (scan_senders_kept work_id none cache ([], []))
      (scan_senders_result work_id false none cache [] []),
)

scan_senders_leak :
    (work_id : Text) (filter : Filter) (from : Text) (before after : MessageCache)
    (msgs : List TssMessage) (result new_list : List TssMessage)
    → get from before ≡ none
    → get from
        (scan_senders work_id true filter (before ++ ((from, msgs) ∷ after)) (result, new_list)).0
      ≡ some (new_list ++ left_over work_id filter (all_messages before ++ msgs))
unfolding scan_senders get all_messages
scan_senders_leak work_id filter from [] after msgs result new_list h =
    rw (scan_messages_lem work_id filter msgs result new_list) (ground arith)
scan_senders_leak work_id filter from ((other, old) ∷ before) after msgs result new_list h =
    rw (scan_messages_lem work_id filter old result new_list) (
      ground (
        arith,
        scan_senders_leak work_id filter from before after msgs
            (result ++ chosen work_id filter old) (new_list ++ left_over work_id filter old),
        left_over-append work_id filter old (all_messages before ++ msgs),
        append_assoc old (all_messages before) msgs,
        append_assoc new_list (left_over work_id filter old)
            (left_over work_id filter (all_messages before ++ msgs)),
      ))

-- After `PopAllMessages` the list of a sender, which the loop did not meet before, holds the remaining
-- messages of every sender that the loop visited before it, and then its own.
pub pop_all_messages_leak :
    (work_id : Text) (filter : Filter) (from : Text) (before after : MessageCache)
    (msgs : List TssMessage)
    → get from before ≡ none
    → get from (pop_all_messages (before ++ ((from, msgs) ∷ after)) work_id filter).0
      ≡ some (left_over work_id filter (all_messages before ++ msgs))
unfolding pop_all_messages
pop_all_messages_leak work_id filter from before after msgs h =
    scan_senders_leak work_id filter from before after msgs [] [] h
