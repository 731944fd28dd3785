-- ===== src/Process/Allocated.antt =====
-- The choice of a process number: what holds of the state after it.
use mini_os_with_friends.Base.{ℕ, ◌≤◌, ◌<◌, ◌≡◌, inl, inr, some, Option-cases, arith}
use mini_os_with_friends.Base.Maps.{update}
use mini_os_with_friends.State.{Kernel}
use mini_os_with_friends.Memory.{active}
use mini_os_with_friends.Paging.{virt_to_phys_user}
use mini_os_with_friends.Process.{allocate_pid, adopt_pid, free_pid}
use mini_os_with_friends.FileSystem.ReadOnly.{ReadOnly}

-- The state after the choice of process number `i`, begun in `k0`.
pub record Allocated (k0 : Kernel) (i : ℕ) (k : Kernel) : Type 0 where
  pub was_free : k0.pid_array i ≡ 0
  pub at_least : 3 ≤ i
  pub at_most : i < 6
  pub curr : k.curr_pid ≡ i
  pub same_active : k.active_terminal ≡ k0.active_terminal
  pub owned : (active k).pid ≡ i
  pub started : (active k).init_flag ≡ 1
  pub pids : k.pid_array ≡ update k0.pid_array i 1
  pub pcbs : k.pcb ≡ k0.pcb
  pub same_fs : k.fs ≡ k0.fs

pub Allocated-ReadOnly :
    (k0 : Kernel) (i : ℕ) (k k' : Kernel) → Allocated k0 i k → ReadOnly k k' → Allocated k0 i k'
Allocated-ReadOnly k0 i k k' a e = rw e (record {
  was_free = a.was_free;
  at_least = a.at_least;
  at_most = a.at_most;
  curr = a.curr;
  same_active = a.same_active;
  owned = a.owned;
  started = a.started;
  pids = a.pids;
  pcbs = a.pcbs;
  same_fs = a.same_fs;
})

pub free_pid-bounds :
    (k : Kernel) (i : ℕ) → free_pid k ≡ some i → (k.pid_array i ≡ 0) × (3 ≤ i) × (i < 6)
unfolding free_pid
free_pid-bounds k i e = ground arith

-- The choice of a number for a process that is no base shell.
pub Allocated-at :
    (k k1 : Kernel) (i : ℕ)
    → (active k).init_flag ≡ 1
    → free_pid k ≡ some i
    → k1 ≡ record k { pid_array = update k.pid_array i 1; curr_pid = i }
    → Allocated k i (adopt_pid k1)
unfolding adopt_pid
Allocated-at k k1 i init found e =
    let (was_free, lo, hi) = free_pid-bounds k i found in
    rw e (record {
      was_free = was_free;
      at_least = lo;
      at_most = hi;
      curr = ground arith;
      same_active = ground arith;
      owned = ground arith;
      started = ground arith;
      pids = ground arith;
      pcbs = ground arith;
      same_fs = ground arith;
    })

pub allocated :
    (k k1 : Kernel)
    → (active k).init_flag ≡ 1
    → allocate_pid k ≡ some k1
    → (i : ℕ) × Allocated k i (adopt_pid k1)
unfolding allocate_pid
allocated k k1 init e = elim (Option-cases (free_pid k)) [
  | inl none_free ↦ ground arith
  | inr (i, found) ↦ (i, Allocated-at k k1 i init found (ground arith))
]

pub virt_to_phys_user-Allocated :
    (k0 : Kernel) (i pid : ℕ) (k : Kernel)
    → Allocated k0 i k
    → Allocated k0 i (virt_to_phys_user pid k)
unfolding virt_to_phys_user
virt_to_phys_user-Allocated k0 i pid k a = record {
  was_free = a.was_free;
  at_least = a.at_least;
  at_most = a.at_most;
  curr = a.curr;
  same_active = a.same_active;
  owned = a.owned;
  started = a.started;
  pids = a.pids;
  pcbs = a.pcbs;
  same_fs = a.same_fs;
}
