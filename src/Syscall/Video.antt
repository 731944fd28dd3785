-- ===== src/Syscall/Video.antt =====
-- The page that `vidmap_call` gives to a program.
use mini_os_with_friends.Base.{ℕ, ◌+◌, ◌≤◌, ◌<◌, ◌≡◌, ◌⊎◌, inl, inr, error, arith}
use mini_os_with_friends.State.{Kernel}
use mini_os_with_friends.Paging.{virt_addr_program, four_mb}
use mini_os_with_friends.Syscall.{vidmap_call}

-- Outside of the user's program page, and at the null pointer, the call answers -1 and changes nothing.
pub vidmap_call_guard :
    (a : ℕ) (k : Kernel)
    → (a < virt_addr_program) ⊎ (virt_addr_program + four_mb ≤ a)
    → vidmap_call a k ≡ (error, k)
unfolding vidmap_call
vidmap_call_guard a k (inl below) = ground arith
vidmap_call_guard a k (inr above) = ground arith
