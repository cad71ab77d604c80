-- ===== src/Examples/Queue.antt =====
-- The request queue.
use dheart.Common.{
  ◌≡◌, refl, true, false, List, [], ◌∷◌, Text, text_dec, text_eq, text_ne, codes, All, ◌≢◌,
}
use dheart.Work.{WorkRequest, ec_keygen, get_priority}
use dheart.Queue.{has_work, add_work, pop}
use dheart.Queue.Adding.{AtLeast, add_work_split, add_work_loses}
use dheart.Queue.Order.{Call, adds, run, run-pop_highest}
use dheart.Examples.Requests.{keygen_work, signing_work, request}

abbrev second_keygen : WorkRequest
second_keygen = request ec_keygen (codes "k2")

add_work_example :
    add_work (keygen_work ∷ signing_work ∷ []) second_keygen
    ≡ (keygen_work ∷ second_keygen ∷ second_keygen ∷ [], true)
unfolding add_work text_dec get_priority
add_work_example = refl

add_work_split_example :
    add_work (signing_work ∷ []) second_keygen ≡ (second_keygen ∷ signing_work ∷ [], true)
unfolding has_work text_dec get_priority
add_work_split_example = add_work_split second_keygen [] (signing_work ∷ []) tt (refl, tt) refl

k2-ne-s1 : ◌≢◌ {A = Text} (codes "k2") (codes "s1")
unfolding text_eq
k2-ne-s1 = text_ne (codes "k2") (codes "s1") refl

add_work_loses_example :
    (add_work (keygen_work ∷ signing_work ∷ []) second_keygen
      ≡ (keygen_work ∷ second_keygen ∷ second_keygen ∷ [], true))
    × (has_work (codes "s1") (add_work (keygen_work ∷ signing_work ∷ []) second_keygen).0 ≡ false)
unfolding has_work text_dec get_priority
add_work_loses_example =
    add_work_loses second_keygen signing_work keygen_work [] [] (refl, tt) (refl, tt) refl refl refl
      k2-ne-s1

abbrev calls : List Call
calls = adds signing_work ∷ adds keygen_work ∷ []

run-pop_highest_example : All (λ v. AtLeast v keygen_work) (pop (run [] calls)).0
unfolding run add_work pop text_dec get_priority
run-pop_highest_example = run-pop_highest calls keygen_work refl
