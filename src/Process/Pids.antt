-- ===== src/Process/Pids.antt =====
-- The process numbers 3 to 5 of `execute_call`.
use mini_os_with_friends.Base.{ℕ, ◌≤◌, ◌<◌, ◌≡◌, ◌≢◌, none, some, arith}
use mini_os_with_friends.State.{Kernel}
use mini_os_with_friends.Process.{free_pid}

-- If the search finds a number, the number is 3, 4 or 5, it is free, and every smaller number from 3 on
-- is taken; if it finds none, then 3, 4 and 5 are taken.
pub free_pid_lem :
    (k : Kernel)
    → ((i : ℕ)
        → free_pid k ≡ some i
        → (3 ≤ i) × (i < 6) × (k.pid_array i ≡ 0) × ((j : ℕ) → 3 ≤ j → j < i → k.pid_array j ≢ 0))
      × (free_pid k ≡ none → (j : ℕ) → 3 ≤ j → j < 6 → k.pid_array j ≢ 0)
unfolding free_pid
free_pid_lem k = (
  λ i found. (ground arith, ground arith, ground arith, λ j lo hi. ground arith),
  λ full j lo hi. ground arith,
)
