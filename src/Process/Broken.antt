-- ===== src/Process/Broken.antt =====
-- `execute_call` on a program whose image does not load: what it leaves.
use mini_os_with_friends.Base.{
  ℕ, ◌+◌, ◌/◌, ◌≤◌, ◌<◌, ◌≡◌, refl, sym, ◌∙◌, ap, ◌≢◌, some, List, arith, word, error, min, false,
  ltb,
}
use mini_os_with_friends.Base.Maps.{update}
use mini_os_with_friends.State.{Kernel}
use mini_os_with_friends.Memory.{active}
use mini_os_with_friends.Paging.{virt_to_phys_user}
use mini_os_with_friends.FileSystem.{
  Dentry, read_dentry_by_name, read_data, large_inode, inode_length, num_data_blk,
}
use mini_os_with_friends.FileSystem.Broken.{read_data_broken}
use mini_os_with_friends.FileSystem.ReadOnly.{read_data-ReadOnly}
use mini_os_with_friends.Process.{
  Outcome, Frame, load_image, load_program, adopt_pid, free_pid, program_addr, check_program,
  execute_call, begin_execute, first_word, skip_spaces, argument, narrow_inode,
}
use mini_os_with_friends.Process.Allocated.{
  Allocated, Allocated-at, Allocated-ReadOnly, virt_to_phys_user-Allocated,
}
use mini_os_with_friends.Process.Disk.{
  SameDisk, large_inode-SameDisk, virt_to_phys_user-SameDisk, adopt_pid-SameDisk, load_program_step,
  is_elf-read_state, begin_execute-SameDisk, free_pid_same, read_dentry-SameDisk,
}
use mini_os_with_friends.Process.Launch.{begin_execute_lem}
use mini_os_with_friends.FileSystem.Contents.{file_byte, read_state, read_data-read_state}
use mini_os_with_friends.CString.{strlen}

-- A block of the file whose number is out of range.
abbrev pub HasBroken : Kernel → ℕ → ℕ → Type 0
HasBroken k inode j =
    (j < inode_length k inode) × (k.data_count_blk ≤ num_data_blk k inode (j / 4096))

load_image-fails :
    (inode old i j : ℕ) (arg : List ℕ) (frame : Frame) (k0 k : Kernel)
    → SameDisk k0 k
    → Allocated k0 i k
    → inode ≤ k0.inodes_count
    → inode_length k0 inode < word
    → large_inode k0 ≢ inode
    → HasBroken k0 inode j
    → (k' : Kernel) × (load_image inode arg old frame k ≡ some (Outcome.returned error, k'))
      × Allocated k0 i k'
unfolding load_image
load_image-fails inode old i j arg frame k0 k disk a numbered small ordinary (inside, broken) =
    let paged = virt_to_phys_user k.curr_pid k in
    let paged_disk = virt_to_phys_user-SameDisk k.curr_pid k in
    let same : inode_length paged inode ≡ inode_length k0 inode =
      rw (paged_disk.bytes, disk.bytes) refl in
    let length : inode_length k inode ≡ inode_length k0 inode = rw disk.bytes refl in
    let e : 0 + j ≡ j = omega arith in
    let large : large_inode paged ≡ large_inode k0 =
      large_inode-SameDisk k paged paged_disk ∙ large_inode-SameDisk k0 k disk in
    let (k', read) =
      read_data_broken inode 0 program_addr (inode_length k0 inode) j paged small
        (rw (paged_disk.inodes, disk.inodes) numbered) (omega arith) (omega (arith, same, inside))
        (rw large ordinary) inside
        (rw (e, paged_disk.blocks, paged_disk.bytes, disk.blocks, disk.bytes) broken) in
    (
      k',
      rw (length, read) refl,
      Allocated-ReadOnly k0 i paged k' (virt_to_phys_user-Allocated k0 i k.curr_pid k a)
          (read_data-ReadOnly inode 0 program_addr (inode_length k0 inode) error paged k' read),
    )

-- The same from the choice of the process number on.
load_program-leaks :
    (inode i j : ℕ) (arg : List ℕ) (frame : Frame) (k : Kernel)
    → (active k).init_flag ≡ 1
    → free_pid k ≡ some i
    → inode ≤ k.inodes_count
    → inode_length k inode < word
    → large_inode k ≢ inode
    → j < inode_length k inode
    → k.data_count_blk ≤ num_data_blk k inode (j / 4096)
    → (k' : Kernel) × (load_program inode arg frame k ≡ some (Outcome.returned error, k'))
      × (k.pid_array i ≡ 0)
      × (k'.pid_array i ≡ 1)
      × (k'.curr_pid ≡ i)
      × ((active k').pid ≡ i)
      × (k'.pcb ≡ k.pcb)
load_program-leaks inode i j arg frame k init found numbered small ordinary inside broken =
    let taken = record k { pid_array = update k.pid_array i 1; curr_pid = i } in
    let (disk, pid) =
      adopt_pid-SameDisk k taken
        (record { bytes = refl; inodes = refl; blocks = refl; stale = refl }) in
    let (k', fails, a) =
      load_image-fails inode k.curr_pid i j arg frame k (adopt_pid taken) disk
        (Allocated-at k taken i init found refl) numbered small ordinary (inside, broken) in
    (
      k',
      load_program_step inode i arg frame k init found ∙ fails,
      a.was_free,
      rw a.pids (ground arith),
      a.curr,
      a.owned,
      a.pcbs,
    )

-- A file that begins as an executable does, and whose byte `j` lies in a block out of range.
pub record IsDamaged (k : Kernel) (inode j : ℕ) : Type 0 where
  pub numbered : inode ≤ k.inodes_count
  pub long : 4 ≤ inode_length k inode
  pub small : inode_length k inode < word
  pub first : num_data_blk k inode 0 < k.data_count_blk
  pub magic_0 : file_byte k inode 0 ≡ 0x7F
  pub magic_1 : file_byte k inode 1 ≡ 0x45
  pub magic_2 : file_byte k inode 2 ≡ 0x4C
  pub magic_3 : file_byte k inode 3 ≡ 0x46
  pub ordinary : large_inode k ≢ inode
  pub inside : j < inode_length k inode
  pub broken : k.data_count_blk ≤ num_data_blk k inode (j / 4096)

IsDamaged-SameDisk :
    (k k' : Kernel) (inode j : ℕ) → SameDisk k k' → IsDamaged k inode j → IsDamaged k' inode j
IsDamaged-SameDisk k k' inode j same p = record {
  numbered = rw same.inodes p.numbered;
  long = rw same.bytes p.long;
  small = rw same.bytes p.small;
  first = rw (same.bytes, same.blocks) p.first;
  magic_0 = rw (same.bytes, same.inodes) p.magic_0;
  magic_1 = rw (same.bytes, same.inodes) p.magic_1;
  magic_2 = rw (same.bytes, same.inodes) p.magic_2;
  magic_3 = rw (same.bytes, same.inodes) p.magic_3;
  ordinary = rw (large_inode-SameDisk k k' same) p.ordinary;
  inside = rw same.bytes p.inside;
  broken = rw (same.bytes, same.blocks) p.broken;
}

check_program-leaks :
    (inode i j : ℕ) (arg : List ℕ) (frame : Frame) (k : Kernel)
    → (active k).init_flag ≡ 1
    → free_pid k ≡ some i
    → IsDamaged k inode j
    → 0 < frame.buf
    → frame.buf + 4 ≤ 0x800000
    → (k' : Kernel) × (check_program inode arg frame k ≡ some (Outcome.returned error, k'))
      × (k.pid_array i ≡ 0)
      × (k'.pid_array i ≡ 1)
      × (k'.curr_pid ≡ i)
      × ((active k').pid ≡ i)
      × (k'.pcb ≡ k.pcb)
unfolding check_program free_pid
check_program-leaks inode i j arg frame k init found p some_buf low =
    let after = read_state inode 0 frame.buf 4 k in
    let four : min 4 (inode_length k inode) ≡ 4 = omega (arith, p.long) in
    let block : (b : ℕ) → b < 4 → num_data_blk k inode ((0 + b) / 4096) < k.data_count_blk =
      λ b lt. let e : (0 + b) / 4096 ≡ 0 = omega arith in rw e p.first in
    let read : read_data inode 0 frame.buf 4 k ≡ some (4, after) =
      read_data-read_state inode 0 frame.buf 4 k (omega arith) (omega arith) p.numbered
        (λ e. omega (arith, e)) (omega (arith, p.long)) p.ordinary block
      ∙ ap (λ v. some (v, after)) four in
    let q =
      IsDamaged-SameDisk k after inode j
        (record { bytes = refl; inodes = refl; blocks = refl; stale = refl }) p in
    let (k', fails, was, now, curr, owned, kept) =
      load_program-leaks inode i j arg frame after init found q.numbered q.small q.ordinary q.inside
        q.broken in
    (
      k',
      rw
          (
            read,
            is_elf-read_state inode frame.buf k p.magic_0 p.magic_1 p.magic_2 p.magic_3
                (omega arith),
          )
          fails,
      was,
      now,
      curr,
      owned,
      kept,
    )

-- In a terminal whose shell runs, with a process number free: for a command of at most 1023 bytes whose
-- first word names a file that begins with the four bytes of an executable but has one byte, of those
-- within its length, in a block whose number is out of range, `execute_call` returns -1 with the number
-- that was free taken, as the current process and as the terminal's, and every process control block
-- as it was. The file is not the very large text, its inode number and its first block are in range, and
-- the call's buffer for the four bytes lies below 8 MB.
pub execute_call-leaks :
    (frame : Frame) (stale dentry : Dentry) (command : List ℕ) (i j : ℕ) (k : Kernel)
    → strlen command ≤ 1023
    → (active k).init_flag ≡ 1
    → free_pid k ≡ some i
    → read_dentry_by_name k (first_word (skip_spaces command)) stale ≡ some dentry
    → IsDamaged k (narrow_inode dentry.inode_num) j
    → 0 < frame.buf
    → frame.buf + 4 ≤ 0x800000
    → (k' : Kernel) × (execute_call frame stale command k ≡ some (Outcome.returned error, k'))
      × (k.pid_array i ≡ 0)
      × (k'.pid_array i ≡ 1)
      × (k'.curr_pid ≡ i)
      × ((active k').pid ≡ i)
      × (k'.pcb ≡ k.pcb)
unfolding execute_call
execute_call-leaks frame stale dentry command i j k short init free found p some_buf low =
    let inode = narrow_inode dentry.inode_num in
    let k1 = begin_execute k in
    let (pids, same, pcbs, pid, flag) = begin_execute_lem k in
    let disk = begin_execute-SameDisk k in
    let found' = read_dentry-SameDisk k k1 (first_word (skip_spaces command)) stale disk ∙ found in
    let (k', fails, was, now, curr, owned, kept) =
      check_program-leaks inode i j (argument command) frame k1 (flag ∙ init)
        (free_pid_same k k1 pids ∙ free) (IsDamaged-SameDisk k k1 inode j disk p) some_buf low in
    let fits : ltb 1023 (strlen command) ≡ false = ground arith in
    (
      k',
      rw (fits, found') fails,
      ap (λ (f : ℕ → ℕ). f i) (sym pids) ∙ was,
      now,
      curr,
      owned,
      kept ∙ pcbs,
    )
