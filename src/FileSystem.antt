-- ===== src/FileSystem.antt =====
-- student-distrib/file_system.c: the read-only file system. The image is a map of bytes from its
-- first one: the boot block, with directory entry `d` at 64 + 64 * d, then the inodes, 4 KB each,
-- then the data blocks. A pointer that is null is the address 0.
pub mod Lookup
pub mod Contents
pub mod ReadOnly
pub mod Broken
use mini_os_with_friends.Base.{
  ℕ, zero, suc, ◌+◌, ◌-◌, ◌*◌, ◌/◌, ◌%◌, ◌&&◌, ◌||◌, not, Bool, true, false, Option, none, some,
  List, [], ◌∷◌, ◌==◌, ◌!=◌, ltb, leb, if◌then◌else◌, add32, sub32, word, error, is_neg, lt_signed,
}
use mini_os_with_friends.Base.Maps.{update}
use mini_os_with_friends.Base.Loops.{for_range}
use mini_os_with_friends.State.{FileDesc, Pcb, Kernel}
use mini_os_with_friends.Memory.{word_at}
use mini_os_with_friends.Paging.{translate, get_pcb_blk}
use mini_os_with_friends.CString.{char_at, strlen, strncmp}

-- `dentry_t`
pub record Dentry : Type 0 where
  pub filename : ℕ → ℕ
  pub filetype : ℕ
  pub inode_num : ℕ
  pub reserved : ℕ → ℕ

abbrev pub filename_len : ℕ
filename_len = 32

abbrev pub boot_block_max_dentry : ℕ
boot_block_max_dentry = 63

-- Where directory entry `d`, inode `i` and data block `b` begin in the image.
abbrev pub dentry_offset : ℕ → ℕ
dentry_offset d = 64 + 64 * d

abbrev pub inode_offset : ℕ → ℕ
inode_offset i = 4096 + 4096 * i

abbrev pub block_offset : Kernel → ℕ → ℕ
block_offset k b = inode_offset k.inodes_count + 4096 * b

-- `for (i = 0; i < n; i++) dst[i] = src[i];`
unfoldable pub copy_bytes : ℕ → (ℕ → ℕ) → (ℕ → ℕ) → ℕ → ℕ
copy_bytes n src dst = for_range n 0 (λ i (m : ℕ → ℕ). update m i (src i)) dst

-- The assignments that both lookups end with.
unfoldable pub copy_dentry : Kernel → ℕ → Dentry → Dentry
copy_dentry k d dentry =
    let at : ℕ → ℕ = λ i. k.fs (dentry_offset d + i) in
    record {
      filename = copy_bytes filename_len at dentry.filename;
      filetype = word_at at 32;
      inode_num = word_at at 36;
      reserved = copy_bytes 24 (λ i. at (40 + i)) dentry.reserved;
    }

-- The search, which goes through all entries and keeps the last that matches.
unfoldable pub find_dentry : Kernel → List ℕ → ℕ → ℕ
find_dentry k fname n =
    for_range n 0
      (λ d (target : ℕ).
        if strncmp (λ i. char_at fname i) (λ i. k.fs (dentry_offset d + i)) 32 == 0
        then d
        else target)
      error

-- The result is `none` for -1. The argument `dentry` is never null at a call in the kernel.
unfoldable pub read_dentry_by_name : Kernel → List ℕ → Dentry → Option Dentry
read_dentry_by_name k fname dentry =
    let target = find_dentry k fname (boot_block_max_dentry + 1) in
    if strlen fname == 0
    then none
    else if ltb filename_len (strlen fname)
    then none
    else if ltb boot_block_max_dentry target
    then none
    else some (copy_dentry k target dentry)

unfoldable pub read_dentry_by_index : Kernel → ℕ → Dentry → Option Dentry
read_dentry_by_index k index dentry =
    if ltb boot_block_max_dentry index then none else some (copy_dentry k index dentry)

-- `inode->length` and `inode->NumDataBlk[n]`
abbrev pub inode_length : Kernel → ℕ → ℕ
inode_length k inode = word_at k.fs (inode_offset inode)

abbrev pub num_data_blk : Kernel → ℕ → ℕ → ℕ
num_data_blk k inode n = word_at k.fs (inode_offset inode + 4 + 4 * n)

-- The loop of `read_data`, on fuel: `none` when the fuel runs out, else whether the loop ended by its
-- test (and not at a block number out of range), and the memory.
unfoldable pub read_loop : Kernel → ℕ → ℕ → ℕ → ℕ → ℕ → ℕ → ℕ → (ℕ → ℕ) → Option (Bool × (ℕ → ℕ))
read_loop k inode buf length zero buf_index blk cur mem = none
read_loop k inode buf length (suc fuel) buf_index blk cur mem =
    let number = num_data_blk k inode blk in
    let rest =
      read_loop k inode buf length fuel (add32 buf_index 1)
        (if leb 4096 (cur + 1) then blk + 1 else blk) (if leb 4096 (cur + 1) then 0 else cur + 1)
        (update mem (translate k.paging (add32 buf buf_index))
          (k.fs (block_offset k number + cur))) in
    if leb buf_index (sub32 length 1)
    then (if ltb number k.data_count_blk then rest else some (false, mem))
    else some (true, mem)

abbrev pub very_large_text : List ℕ
very_large_text =
    b'v' ∷ b'e' ∷ b'r' ∷ b'y' ∷ b'l' ∷ b'a' ∷ b'r' ∷ b'g' ∷ b'e' ∷ b't' ∷ b'e' ∷ b'x' ∷ b't' ∷ b'w'
    ∷ b'i' ∷ b't' ∷ b'h' ∷ b'v' ∷ b'e' ∷ b'r' ∷ b'y' ∷ b'l' ∷ b'o' ∷ b'n' ∷ b'g' ∷ b'n' ∷ b'a'
    ∷ b'm' ∷ b'e' ∷ b'.' ∷ b't' ∷ b'x' ∷ []

-- The inode of the very large text file; where there is no such file `temp_dent` was never written.
unfoldable pub large_inode : Kernel → ℕ
large_inode k =
    elim (read_dentry_by_name k very_large_text
      (record { filename = λ _. 0; filetype = 0; inode_num = k.stale_inode; reserved = λ _. 0 })) [
        | none ↦ k.stale_inode
        | some d ↦ d.inode_num
      ]

-- The counter of reads from that file.
unfoldable pub count_large : ℕ → Kernel → Kernel
count_large inode k =
    if large_inode k == inode
    then record k {
      large_text_blk_count = add32 k.large_text_blk_count 1;
      shared_btw_terminal_fs_drivers = 1;
    }
    else record k { large_text_blk_count = 0 }

-- What `read_data` returns after the loop, given the length of the file.
unfoldable pub read_result : Kernel → ℕ → ℕ → ℕ
read_result k file_length length =
    if k.shared_btw_terminal_fs_drivers != 0
      && ltb file_length (length * k.large_text_blk_count % word)
    then sub32 file_length (length * sub32 k.large_text_blk_count 1 % word)
    else if leb length file_length
    then length
    else file_length

-- `read_data` from the test of the offset on. `none`: the loop does not end within `length + 1`
-- tests, or 2 ^ 32 + 1 for a length of 0, where the test never fails.
unfoldable pub read_counted : ℕ → ℕ → ℕ → ℕ → Kernel → Option (ℕ × Kernel)
read_counted inode offset buf length k =
    if leb (inode_length k inode) offset
    then some (0, k)
    else elim (read_loop k inode buf length (sub32 length 1 + 2) 0 (offset / 4096) (offset % 4096)
        k.mem) [
          | none ↦ none
          | some (done, mem) ↦ some (
            if done then read_result k (inode_length k inode) length else error,
            record k { mem = mem },
          )
        ]

unfoldable pub read_data : ℕ → ℕ → ℕ → ℕ → Kernel → Option (ℕ × Kernel)
read_data inode offset buf length k =
    if ltb k.inodes_count inode
    then some (error, k)
    else if buf == 0
    then some (error, k)
    else read_counted inode offset buf length (count_large inode k)

unfoldable pub read_from_file : ℕ → ℕ → ℕ → Kernel → Option (ℕ × Kernel)
read_from_file fd buf nbytes k =
    let desc = (k.pcb (get_pcb_blk k.curr_pid)).file_desc_array fd in
    if buf == 0 || is_neg fd || leb 8 fd || nbytes == 0
    then some (error, k)
    else read_data desc.inode_num desc.file_position buf nbytes k

unfoldable pub write_to_file : Kernel → ℕ × Kernel
write_to_file k = (error, k)

-- `FILE_LEN`, the number of directory entries that are listed.
abbrev pub file_len : ℕ
file_len = 17

-- The name of the next entry goes to `buf`; the counter is shared by all processes.
unfoldable pub read_from_directory : ℕ → Kernel → ℕ × Kernel
read_from_directory buf k =
    let stale : Dentry = record {
      filename = λ _. 0;
      filetype = 0;
      inode_num = 0;
      reserved = λ _. 0;
    } in
    let name : ℕ → ℕ = elim (read_dentry_by_index k k.internal_counter stale) [
      | none ↦ stale.filename
      | some d ↦ d.filename
    ] in
    if leb file_len k.internal_counter && not (is_neg k.internal_counter)
    then (0, record k { internal_counter = 0 })
    else (
      filename_len,
      record k {
        mem =
            for_range filename_len 0
              (λ i (m : ℕ → ℕ). update m (translate k.paging (add32 buf i)) (name i)) k.mem;
        internal_counter = add32 k.internal_counter 1;
      },
    )

unfoldable pub open_directory : Kernel → ℕ × Kernel
open_directory k = (0, record k { internal_counter = 0 })

unfoldable pub write_to_directory : Kernel → ℕ × Kernel
write_to_directory k = (error, k)

unfoldable pub close_directory : Kernel → ℕ × Kernel
close_directory k = (0, record k { internal_counter = 0 })

unfoldable pub open_file : Option (List ℕ) → Dentry → Kernel → ℕ × Kernel
open_file none stale k = (error, k)
open_file (some name) stale k = elim (read_dentry_by_name k name stale) [
  | none ↦ (error, k)
  | some _ ↦ (0, k)
]

unfoldable pub close_file : Kernel → ℕ × Kernel
close_file k = (0, k)
