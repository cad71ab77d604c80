-- ===== src/Party/Quorum.antt =====
-- What the threshold of utils/misc.go means.
use dheart.Common.{ℕ, ◌+◌, ◌-◌, ◌*◌, ◌/◌, ◌%◌, ◌≤◌, ◌<◌, ◌≡◌, ◌≢◌, arith}
use dheart.Common.Int.{pos}
use dheart.Party.{get_threshold}

-- For a positive number of parties the threshold is a natural number, and one party more than it is
-- the least number that is two thirds of the parties or more. There are so many parties, and two
-- groups of this size count more than all parties together. It is two thirds of the parties, rounded
-- down, where 3 does not divide their number, and one less than two thirds of them where it does.
pub get_threshold_quorum :
    (n : ℕ)
    → 0 < n
    → (t : ℕ) × (get_threshold n ≡ pos t)
      × (2 * n ≤ 3 * (t + 1))
      × (3 * t < 2 * n)
      × (t + 1 ≤ n)
      × (n < 2 * (t + 1))
      × (n % 3 ≢ 0 → t ≡ n * 2 / 3)
      × (n % 3 ≡ 0 → t + 1 ≡ n * 2 / 3)
unfolding get_threshold
get_threshold_quorum n p = (
  (n + 1) * 2 / 3 - 1,
  ground arith,
  omega arith,
  omega arith,
  omega arith,
  omega arith,
  λ e. omega arith,
  λ e. omega arith,
)
