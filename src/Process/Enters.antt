-- ===== src/Process/Enters.antt =====
-- `execute_call` on a program file enters the program.
use mini_os_with_friends.Base.{
  ℕ, ◌+◌, ◌≤◌, ◌<◌, ◌≡◌, refl, ◌∙◌, ap, some, false, List, arith, ltb, min,
}
use mini_os_with_friends.Base.Maps.{update}
use mini_os_with_friends.State.{Kernel}
use mini_os_with_friends.Memory.{active, read_byte}
use mini_os_with_friends.CString.{strlen}
use mini_os_with_friends.FileSystem.{Dentry, read_dentry_by_name, read_data, inode_length}
use mini_os_with_friends.FileSystem.Contents.{file_byte, read_state, read_data-read_state}
use mini_os_with_friends.Process.{
  Outcome, Frame, execute_call, load_program, check_program, adopt_pid, free_pid, begin_execute,
  program_addr, user_stack_top, first_word, skip_spaces, argument, narrow_inode,
}
use mini_os_with_friends.Process.Allocated.{free_pid-bounds}
use mini_os_with_friends.Process.Launch.{begin_execute_lem}
use mini_os_with_friends.Process.Disk.{
  SameDisk, read_dentry-SameDisk, is_elf-read_state, adopt_pid-SameDisk, load_program_step,
  begin_execute-SameDisk, free_pid_same,
}
use mini_os_with_friends.Process.Loads.{
  IsProgram, IsProgram-SameDisk, entry_point, entry_point-SameDisk, load_image-enters,
}

load_program-enters :
    (inode i : ℕ) (arg : List ℕ) (frame : Frame) (k : Kernel)
    → (active k).init_flag ≡ 1
    → free_pid k ≡ some i
    → IsProgram k inode
    → 0 < frame.entry_addr
    → frame.entry_addr + 4 ≤ 0x800000
    → (k' : Kernel) × (load_program inode arg frame k
        ≡ some (Outcome.entered (entry_point k inode) user_stack_top, k'))
      × ((j : ℕ) → j < inode_length k inode → read_byte k' (program_addr + j) ≡ file_byte k inode j)
load_program-enters inode i arg frame k init found p some_addr low =
    let taken = record k { pid_array = update k.pid_array i 1; curr_pid = i } in
    let (disk, pid) =
      adopt_pid-SameDisk k taken
        (record { bytes = refl; inodes = refl; blocks = refl; stale = refl }) in
    let (free, lo, hi) = free_pid-bounds k i found in
    let (k', enters, bytes) =
      load_image-enters inode arg k.curr_pid frame (adopt_pid taken) (omega (arith, pid))
        (IsProgram-SameDisk k (adopt_pid taken) inode disk p) some_addr low in
    (
      k',
      load_program_step inode i arg frame k init found
          ∙ (enters
              ∙ ap (λ e. some (Outcome.entered e user_stack_top, k'))
                  (entry_point-SameDisk k (adopt_pid taken) inode disk)),
      λ j lt. bytes j (rw disk.bytes lt) ∙ rw (disk.bytes, disk.inodes) refl,
    )

check_program-enters :
    (inode i : ℕ) (arg : List ℕ) (frame : Frame) (k : Kernel)
    → (active k).init_flag ≡ 1
    → free_pid k ≡ some i
    → IsProgram k inode
    → 0 < frame.buf
    → frame.buf + 4 ≤ 0x800000
    → 0 < frame.entry_addr
    → frame.entry_addr + 4 ≤ 0x800000
    → (k' : Kernel) × (check_program inode arg frame k
        ≡ some (Outcome.entered (entry_point k inode) user_stack_top, k'))
      × ((j : ℕ) → j < inode_length k inode → read_byte k' (program_addr + j) ≡ file_byte k inode j)
unfolding check_program free_pid
check_program-enters inode i arg frame k init found p some_buf low_buf some_addr low =
    let after = read_state inode 0 frame.buf 4 k in
    let four : min 4 (inode_length k inode) ≡ 4 = omega (arith, p.long) in
    let read : read_data inode 0 frame.buf 4 k ≡ some (4, after) =
      read_data-read_state inode 0 frame.buf 4 k (omega arith) (omega arith) p.numbered
        (λ e. omega (arith, e)) (omega (arith, p.long)) p.ordinary
        (λ j lt. p.valid (0 + j) (omega (arith, p.long)))
      ∙ ap (λ v. some (v, after)) four in
    let same : SameDisk k after = record {
      bytes = refl;
      inodes = refl;
      blocks = refl;
      stale = refl;
    } in
    let (k', enters, bytes) =
      load_program-enters inode i arg frame after init found
        (IsProgram-SameDisk k after inode same p) some_addr low in
    (
      k',
      rw
          (
            read,
            is_elf-read_state inode frame.buf k p.magic_0 p.magic_1 p.magic_2 p.magic_3
                (omega arith),
          )
          enters,
      bytes,
    )

-- In a terminal whose shell runs, with a process number free: `execute_call` of a command of at most
-- 1023 bytes whose first word names a program file enters that program, if the call's two arrays lie
-- below 8 MB. A program file is not the very large text, has 28 bytes or more and fits the page from the
-- program's address on, has all of its blocks in range, and begins with the four bytes of an
-- executable. The entry point is the word at byte 24 of the file, the stack is the top of the page, and
-- each byte of the file stands at its place in the memory that the program sees.
pub execute_call-enters :
    (frame : Frame) (stale dentry : Dentry) (command : List ℕ) (i : ℕ) (k : Kernel)
    → strlen command ≤ 1023
    → (active k).init_flag ≡ 1
    → free_pid k ≡ some i
    → read_dentry_by_name k (first_word (skip_spaces command)) stale ≡ some dentry
    → IsProgram k (narrow_inode dentry.inode_num)
    → 0 < frame.buf
    → frame.buf + 4 ≤ 0x800000
    → 0 < frame.entry_addr
    → frame.entry_addr + 4 ≤ 0x800000
    → let inode = narrow_inode dentry.inode_num in
      (k' : Kernel) × (execute_call frame stale command k
        ≡ some (Outcome.entered (entry_point k inode) user_stack_top, k'))
      × ((j : ℕ) → j < inode_length k inode → read_byte k' (program_addr + j) ≡ file_byte k inode j)
unfolding execute_call
execute_call-enters frame stale dentry command i k short init free found p some_buf low_buf
      some_addr low =
    let inode = narrow_inode dentry.inode_num in
    let k1 = begin_execute k in
    let (pids, same, pcbs, pid, flag) = begin_execute_lem k in
    let disk = begin_execute-SameDisk k in
    let found' = read_dentry-SameDisk k k1 (first_word (skip_spaces command)) stale disk ∙ found in
    let (k', enters, bytes) =
      check_program-enters inode i (argument command) frame k1 (flag ∙ init)
        (free_pid_same k k1 pids ∙ free) (IsProgram-SameDisk k k1 inode disk p) some_buf low_buf
        some_addr low in
    let fits : ltb 1023 (strlen command) ≡ false = ground arith in
    (
      k',
      rw (fits, found')
          (enters
            ∙ ap (λ e. some (Outcome.entered e user_stack_top, k'))
                (entry_point-SameDisk k k1 inode disk)),
      λ j lt. bytes j (rw disk.bytes lt) ∙ rw (disk.bytes, disk.inodes) refl,
    )
