-- ===== src/Paging/Isolation.antt =====
-- Each process has a PCB, a kernel stack and 4 MB of memory that no other process has.
use mini_os_with_friends.Base.{
  ℕ, ◌+◌, ◌-◌, ◌*◌, ◌%◌, ◌≤◌, ◌<◌, ◌≡◌, bit_or, arith, ◌==◌, if◌then◌else◌,
}
use mini_os_with_friends.Base.Bits.{or_one, or_two, or_four, or_128}
use mini_os_with_friends.State.{Kernel}
use mini_os_with_friends.Paging.{
  get_kernel_stack_addr, get_pcb_addr, get_pcb_blk, virt_to_phys_user, remap_video_mem_user,
  translate, user_flags, user_page_flags, kernel_flags, video, virt_addr_program, four_mb,
}

-- The flags of an aligned address are added to it.
pub user_flags_lem : (x : ℕ) → x % 4096 ≡ 0 → user_flags x ≡ x + 7
unfolding user_flags
user_flags_lem x h = omega (arith, or_four x, or_two (bit_or x 4), or_one (bit_or (bit_or x 4) 2))

pub kernel_flags_lem : (x : ℕ) → x % 4096 ≡ 0 → kernel_flags x ≡ x + 3
unfolding kernel_flags
kernel_flags_lem x h = omega (arith, or_one x, or_two (bit_or x 1))

pub user_page_flags_lem : (x : ℕ) → x % 4096 ≡ 0 → user_page_flags x ≡ x + 135
unfolding user_page_flags
user_page_flags_lem x h = omega (
  arith,
  or_one x,
  or_two (bit_or x 1),
  or_four (bit_or (bit_or x 1) 2),
  or_128 (bit_or (bit_or (bit_or x 1) 2) 4),
)

-- The two functions that give the PCB's address agree on every word.
pub get_pcb_blk-eq-get_pcb_addr : (pid : ℕ) → get_pcb_blk pid ≡ get_pcb_addr pid
unfolding get_pcb_blk get_pcb_addr
get_pcb_blk-eq-get_pcb_addr pid = omega arith

-- Of two processes below 6, the PCBs lie at least 8 KB apart, both below 8 MB, and the initial
-- kernel stack pointer of a process lies 4 bytes below its PCB, above the PCB of the next process.
pub kernel_stacks_apart :
    (p q : ℕ)
    → p < q
    → q < 6
    → (get_pcb_addr q + 8192 ≤ get_pcb_addr p)
      × (get_pcb_addr p < 0x800000)
      × (get_kernel_stack_addr p + 4 ≡ get_pcb_addr p)
      × (get_pcb_addr q < get_kernel_stack_addr p)
      × (get_kernel_stack_addr q < get_pcb_addr q)
unfolding get_pcb_addr get_kernel_stack_addr
kernel_stacks_apart p q h k = omega arith

pub get_pcb_addr_injective : (p q : ℕ) → p < 6 → q < 6 → get_pcb_addr p ≡ get_pcb_addr q → p ≡ q
unfolding get_pcb_addr
get_pcb_addr_injective p q hp hq e = omega arith

-- Where the program page of process `pid` leads.
pub translate-virt_to_phys_user :
    (pid a : ℕ) (k : Kernel)
    → pid < 6
    → virt_addr_program ≤ a
    → a < virt_addr_program + four_mb
    → translate (virt_to_phys_user pid k).paging a
      ≡ 0x800000 + 0x400000 * pid + (a - virt_addr_program)
unfolding translate virt_to_phys_user
translate-virt_to_phys_user pid a k hp lo hi =
    ground (arith, user_page_flags_lem (0x800000 + 0x400000 * pid))

-- The memory of a process is its own: if an address of the program page, with process `p` mapped,
-- leads to the same byte as an address of that page with process `q` mapped, then both the
-- processes and the addresses are the same.
pub user_pages_disjoint :
    (p q a b : ℕ) (k l : Kernel)
    → p < 6
    → q < 6
    → virt_addr_program ≤ a
    → a < virt_addr_program + four_mb
    → virt_addr_program ≤ b
    → b < virt_addr_program + four_mb
    → translate (virt_to_phys_user p k).paging a ≡ translate (virt_to_phys_user q l).paging b
    → (p ≡ q) × (a ≡ b)
user_pages_disjoint p q a b k l hp hq la ha lb hb e =
    omega (arith, translate-virt_to_phys_user p a k, translate-virt_to_phys_user q b l)

-- The screen page of the user leads to the text screen if the terminal is displayed, and to that
-- terminal's own page of memory if it is not; an address of the program page leads where it led.
pub translate-remap_video_mem_user :
    (t o a : ℕ) (k : Kernel)
    → t < 3
    → o < 4096
    → virt_addr_program ≤ a
    → a < virt_addr_program + four_mb
    → (translate (remap_video_mem_user t k).paging (0x8400000 + o)
        ≡ (if k.displayed_terminal == t then video + o else video + 4096 * (t + 1) + o))
      × (translate (remap_video_mem_user t k).paging a ≡ translate k.paging a)
unfolding translate remap_video_mem_user
translate-remap_video_mem_user t o a k ht ho lo hi = (
  ground (arith, user_flags_lem 0xB8000, user_flags_lem (0xB8000 + 4096 * (t + 1))),
  ground arith,
)
