-- ===== src/Paging.antt =====
-- student-distrib/paging.c and student-distrib/task.c: page tables, and the memory of each process.
-- The TLB is not modelled, so `flush_tlb` has no counterpart: every change is in force at once.
pub mod Isolation
pub mod Init
pub mod Walk
use mini_os_with_friends.Base.{
  ℕ, ◌+◌, ◌-◌, ◌*◌, ◌/◌, ◌%◌, bit_or, ◌==◌, if◌then◌else◌, add32, sub32, word,
}
use mini_os_with_friends.Base.Maps.{update}
use mini_os_with_friends.Base.Loops.{for_range}
use mini_os_with_friends.State.{Paging, Kernel}

abbrev pub four_kb : ℕ
four_kb = 4096

abbrev pub eight_kb : ℕ
eight_kb = 0x2000

abbrev pub four_mb : ℕ
four_mb = 0x400000

abbrev pub eight_mb : ℕ
eight_mb = 0x800000

-- The address of the text screen, and that address in pages.
abbrev pub video : ℕ
video = 0xB8000

abbrev pub video_index : ℕ
video_index = 0xB8

abbrev pub virt_addr_program : ℕ
virt_addr_program = 0x8000000

-- `x & MASK_20_BITS` and `x & MASK_10_BITS`
abbrev pub mask_20_bits : ℕ → ℕ
mask_20_bits x = x / 4096 * 4096

abbrev pub mask_10_bits : ℕ → ℕ
mask_10_bits x = x / 0x400000 * 0x400000

-- The flags of an entry: present, writable, for the user, and a 4 MB page.
unfoldable pub kernel_flags : ℕ → ℕ
kernel_flags x = bit_or (bit_or x 1) 2

unfoldable pub user_flags : ℕ → ℕ
user_flags x = bit_or (bit_or (bit_or x 4) 2) 1

unfoldable pub user_page_flags : ℕ → ℕ
user_page_flags x = bit_or (bit_or (bit_or (bit_or x 1) 2) 4) 128

unfoldable pub get_kernel_stack_addr : ℕ → ℕ
get_kernel_stack_addr process_id = sub32 (sub32 eight_mb (add32 process_id 1 * eight_kb % word)) 4

unfoldable pub get_pcb_addr : ℕ → ℕ
get_pcb_addr process_id = sub32 eight_mb (add32 process_id 1 * eight_kb % word)

-- The same address, for a signed argument.
unfoldable pub get_pcb_blk : ℕ → ℕ
get_pcb_blk curr_process_id = sub32 eight_mb (eight_kb * add32 curr_process_id 1 % word)

unfoldable pub init_process_id_array : Kernel → Kernel
unfolding for_range
init_process_id_array k = record k {
  pid_array = for_range 3 3 (λ i (a : ℕ → ℕ). update a i 0) k.pid_array;
}

-- `(VIRT_ADDR_PROGRAM & MASK_10_BITS) >> PD_INDEX_OFFSET`
abbrev pub program_pdi : ℕ
program_pdi = mask_10_bits virt_addr_program / 0x400000

unfoldable pub virt_to_phys_user : ℕ → Kernel → Kernel
virt_to_phys_user pid k =
    let physical = add32 (four_mb * pid % word) eight_mb in
    let pte = user_page_flags (mask_10_bits physical) in
    record k {
      paging = record k.paging { page_directory = update k.paging.page_directory program_pdi pte };
    }

-- The page at 132 MB shows the terminal's own screen page, or the screen if it is displayed.
unfoldable pub remap_video_mem_user : ℕ → Kernel → Kernel
remap_video_mem_user terminal_id k =
    let shown =
      if k.displayed_terminal == terminal_id
      then video
      else add32 video (add32 terminal_id 1 * four_kb % word) in
    record k {
      paging = record k.paging {
        page_directory =
            update k.paging.page_directory 33 (user_flags k.paging.page_table_video_addr);
        page_table_video = update k.paging.page_table_video 0 (user_flags (mask_20_bits shown));
      };
    }

-- The entry of page `i` before the screens are mapped: `(i * FOUR_KB) | R_W`, not present.
abbrev absent_entry : ℕ → (ℕ → ℕ) → ℕ → ℕ
absent_entry i t = update t i (bit_or (i * four_kb) 2)

abbrev screen_entry : ℕ → (ℕ → ℕ) → ℕ → ℕ
screen_entry i t = update t i (bit_or (bit_or (i * four_kb) 1) 2)

unfoldable pub init_paging : Kernel → Kernel
init_paging k =
    let table0 = for_range 1024 0 (λ i t. absent_entry i t) k.paging.page_table in
    let table1 = screen_entry (video_index + 1) (screen_entry video_index table0) in
    let table2 = screen_entry (video_index + 3) (screen_entry (video_index + 2) table1) in
    let directory0 =
      update k.paging.page_directory 0 (kernel_flags (mask_20_bits k.paging.page_table_addr)) in
    let directory1 = update directory0 1 (bit_or (kernel_flags (mask_10_bits 0x400000)) 128) in
    let directory2 = for_range 1022 2 (λ i (d : ℕ → ℕ). update d i 0) directory1 in
    record k { paging = record k.paging { page_table = table2; page_directory = directory2 } }

-- The physical address of a virtual one, in the two directory entries that the user's programs are
-- given: 4 MB for the program at 128 MB, and the page of the screen at 132 MB. The kernel's own
-- accesses below 8 MB are mapped to themselves. This is the address of an access that does not fault;
-- `walk` of Paging/Walk.antt also tells where a program's access faults.
unfoldable pub translate : Paging → ℕ → ℕ
translate p a =
    if a / four_mb == program_pdi
    then mask_10_bits (p.page_directory program_pdi) + a % four_mb
    else if a / four_kb == 33 * 1024
    then mask_20_bits (p.page_table_video 0) + a % four_kb
    else a
