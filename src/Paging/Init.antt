-- ===== src/Paging/Init.antt =====
-- What `init_paging` leaves in the page table and in the directory.
use mini_os_with_friends.Base.{
  ℕ, ◌+◌, ◌*◌, ◌%◌, ◌≤◌, ◌<◌, ◌≡◌, ◌&&◌, arith, ◌==◌, ltb, leb, if◌then◌else◌,
}
use mini_os_with_friends.Base.Bits.{or_one, or_two, or_128}
use mini_os_with_friends.Base.Loops.{for_range, for_range_inv}
use mini_os_with_friends.Base.Maps.{update}
use mini_os_with_friends.State.{Kernel}
use mini_os_with_friends.Paging.{init_paging, kernel_flags, absent_entry}
use mini_os_with_friends.Paging.Isolation.{kernel_flags_lem}

-- The first loop: every entry below the index is its own page, writable and not present.
absent_entries :
    (n : ℕ) (t : ℕ → ℕ) (j : ℕ) → j < n → for_range n 0 (λ i t. absent_entry i t) t j ≡ j * 4096 + 2
absent_entries n t j h =
    for_range_inv (λ i (s : ℕ → ℕ). (j : ℕ) → j < i → s j ≡ j * 4096 + 2) (λ i t. absent_entry i t)
      n 0 n (omega arith) (λ i s hi p j hj. ground (arith, or_two (i * 4096), p j)) t
      (λ j hj. absurd (omega arith)) j h

-- The second loop: the entries from 2 on are empty, and the first two are left alone.
empty_entries :
    (n i : ℕ) (d : ℕ → ℕ) (j : ℕ)
    → for_range n i (λ i (d : ℕ → ℕ). update d i 0) d j
      ≡ (if leb i j && ltb j (i + n) then 0 else d j)
empty_entries n i d j = looped.1
  where
    looped :
        (i ≤ i + n)
        × (for_range n i (λ i (d : ℕ → ℕ). update d i 0) d j
            ≡ (if leb i j && ltb j (i + n) then 0 else d j))
    looped =
        for_range_inv (λ e (s : ℕ → ℕ). (i ≤ e) × (s j ≡ (if leb i j && ltb j e then 0 else d j)))
          (λ i (d : ℕ → ℕ). update d i 0) n i (i + n) (omega arith)
          (λ e s he p. (omega arith, ground arith)) d (omega arith, ground arith)

-- Paging is set up for the first 8 MB alone. Entry `j` of the page table is page `j` itself, present
-- exactly for the four screen pages; the directory leads to that table and to the kernel's 4 MB
-- page, and its other entries are not present.
pub init_paging_lem :
    (k : Kernel) (j : ℕ)
    → j < 1024
    → k.paging.page_table_addr % 4096 ≡ 0
    → ((init_paging k).paging.page_table j ≡ j * 4096 + (if leb 0xB8 j && leb j 0xBB then 3 else 2))
      × ((init_paging k).paging.page_directory j
          ≡ (if j == 0 then k.paging.page_table_addr + 3 else if j == 1 then 0x400083 else 0))
unfolding init_paging
init_paging_lem k j h al = (
  ground
      (arith, absent_entries 1024 k.paging.page_table j, or_one (j * 4096), or_two (j * 4096 + 1)),
  rw empty_entries (
      ground (
        arith,
        kernel_flags_lem k.paging.page_table_addr,
        kernel_flags_lem 0x400000,
        or_128 (kernel_flags 0x400000),
      )),
)
