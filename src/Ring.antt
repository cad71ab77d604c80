-- ===== src/Ring.antt =====
-- tools/circular_queue.go: the last `size` items added, with a map for look-up. The counters are
-- int64 in the source; they do not wrap before 2^63 additions.
pub mod Window
pub mod Recent
use dheart.Common.{
  ℕ, zero, suc, ◌+◌, ◌-◌, ◌*◌, ◌%◌, ◌≤◌, ◌<◌, ◌≡◌, refl, ap, sym, ◌∙◌, ◌≢◌, ite, Option, none, some,
  List, [], ◌∷◌, ◌++◌, arith, Text, text_dec, Bool, true, false, length, set, get_elem?, replicate,
  leb, if◌then◌else◌,
}
use dheart.Common.Int.{ℤ, pos, negsuc}
use dheart.Common.Maps.{GoMap, get, put, delete}

pub record CircularQueue {ℓ} (A : Type ℓ) : Type ℓ where
  pub head : ℕ
  pub tail : ℕ
  pub size : ℕ
  pub queue : List (Option (Text × A))
  pub m : GoMap A

module _ {ℓ} {A : Type ℓ} where
  -- `none` is nil, for a size that is not positive.
  unfoldable pub new_circular_queue : ℤ → Option (CircularQueue A)
  new_circular_queue (pos (suc n)) =
      some (record { head = 0; tail = 0; size = suc n; queue = replicate (suc n) none; m = [] })
  new_circular_queue _ = none

  -- The oldest item leaves the map; `none` is the panic of a read through a nil item.
  unfoldable pub evict : CircularQueue A → Option (CircularQueue A)
  evict q = elim (get_elem? q.queue (q.head % q.size)) [
    | some (some (key, item)) ↦ some (record q { head = q.head + 1; m = delete key q.m })
    | _ ↦ none
  ]

  unfoldable pub write : Text → A → CircularQueue A → CircularQueue A
  write key item q = record q {
    queue = set q.queue (q.tail % q.size) (some (key, item));
    tail = q.tail + 1;
    m = put key item q.m;
  }

  unfoldable pub add : Text → A → CircularQueue A → Option (CircularQueue A)
  unfolding evict write
  add key item q =
      if leb q.size (q.tail - q.head)
      then elim (evict q) [ none ↦ none | some q' ↦ some (write key item q') ]
      else some (write key item q)

  unfoldable pub lookup : Text → CircularQueue A → Option A
  lookup key q = get key q.m
