-- ===== src/Examples/Processes.antt =====
-- Runs of the calls that start and end a program.
use mini_os_with_friends.Base.{
  ℕ, ◌+◌, ◌/◌, ◌≤◌, ◌<◌, ◌≡◌, refl, some, List, [], ◌∷◌, inl, arith, error, ◌==◌, if◌then◌else◌,
}
use mini_os_with_friends.State.{Kernel}
use mini_os_with_friends.Memory.{active, read_byte}
use mini_os_with_friends.Paging.{get_pcb_addr, get_kernel_stack_addr}
use mini_os_with_friends.CString.{strlen, strncmp, strncmp_from}
use mini_os_with_friends.Base.Loops.{for_range}
use mini_os_with_friends.FileSystem.{
  read_dentry_by_name, find_dentry, large_inode, copy_dentry, inode_length, num_data_blk,
}
use mini_os_with_friends.FileSystem.Contents.{file_byte}
use mini_os_with_friends.Process.{
  Frame, Outcome, execute_call, halt_call, first_word, skip_spaces, narrow_inode, free_pid,
  program_addr, user_stack_top,
}
use mini_os_with_friends.Process.Enters.{execute_call-enters}
use mini_os_with_friends.Process.Loads.{IsProgram, entry_point}
use mini_os_with_friends.Process.Broken.{IsDamaged, execute_call-leaks}
use mini_os_with_friends.Process.Return.{halt_call-execute_call}
use mini_os_with_friends.Exceptions.{Exception, handle_exception}
use mini_os_with_friends.Exceptions.Status.{handle_exception-execute_call}
use mini_os_with_friends.Examples.{running, dentry_zero, found_a, other_file, image}

abbrev pub frame_one : Frame
frame_one = record { esp = 0x7FDF00; ebp = 0x7FDF40; buf = 0x7FDE00; entry_addr = 0x7FDE10 }

abbrev frame_two : Frame
frame_two = record { esp = 0x7F5F00; ebp = 0x7F5F40; buf = 0x7F5E00; entry_addr = 0x7F5E10 }

abbrev pub command : List ℕ
command = b'a' ∷ []

abbrev pub the_inode : ℕ
the_inode = narrow_inode (copy_dentry running 0 dentry_zero).inode_num

short_command : strlen command ≤ 1023
unfolding strlen
short_command = omega arith

first_free : free_pid running ≡ some 3
unfolding free_pid
first_free = refl

found_command :
    read_dentry_by_name running (first_word (skip_spaces command)) dentry_zero
    ≡ some (copy_dentry running 0 dentry_zero)
unfolding first_word skip_spaces
found_command = found_a

one_block : (i : ℕ) → i < 28 → num_data_blk running 0 (i / 4096) < 1
one_block i lt = ground arith

IsProgram-a : IsProgram running the_inode
unfolding copy_dentry
IsProgram-a = record {
  numbered = omega arith;
  long = omega arith;
  fits = omega arith;
  valid = one_block;
  magic_0 = refl;
  magic_1 = refl;
  magic_2 = refl;
  magic_3 = refl;
  ordinary = other_file;
}

execute_call-enters_example :
    (k' : Kernel) × (execute_call frame_one dentry_zero command running
      ≡ some (Outcome.entered (entry_point running the_inode) user_stack_top, k'))
    × ((j : ℕ)
        → j < inode_length running the_inode
        → read_byte k' (program_addr + j) ≡ file_byte running the_inode j)
execute_call-enters_example =
    execute_call-enters frame_one dentry_zero (copy_dentry running 0 dentry_zero) command 3 running
      short_command refl first_free found_command IsProgram-a (omega arith) (omega arith)
      (omega arith) (omega arith)

pub entered_at :
    (k' : Kernel) × (execute_call frame_one dentry_zero command running
      ≡ some (Outcome.entered (entry_point running the_inode) user_stack_top, k'))
entered_at =
    let (k', e, bytes) =
      execute_call-enters frame_one dentry_zero (copy_dentry running 0 dentry_zero) command 3
        running short_command refl first_free found_command IsProgram-a (omega arith) (omega arith)
        (omega arith) (omega arith) in
    (k', e)

halt_call-execute_call_example :
    (back : Kernel) × (halt_call frame_two dentry_zero 7 entered_at.0
      ≡ some (Outcome.resumed 7 frame_one.esp frame_one.ebp, back))
    × (back.curr_pid ≡ (active running).pid)
    × ((active back).pid ≡ (active running).pid)
    × ((active back).parentpid
        ≡ (running.pcb (get_pcb_addr (active running).pid)).parent_process_id)
    × ((j : ℕ) → back.pid_array j ≡ running.pid_array j)
    × (back.tss_esp0 ≡ get_kernel_stack_addr (active running).pid)
halt_call-execute_call_example =
    halt_call-execute_call frame_one frame_two dentry_zero dentry_zero command
      (entry_point running the_inode) user_stack_top 7 running entered_at.0 refl (omega arith)
      (inl (omega arith)) entered_at.1

handle_exception-execute_call_example :
    (back : Kernel) × (handle_exception
        (λ i. 0)
        frame_two
        dentry_zero
        Exception.pagefault
        entered_at.0
      ≡ some (Outcome.resumed 0 frame_one.esp frame_one.ebp, back))
    × (back.curr_pid ≡ (active running).pid)
    × ((active back).pid ≡ (active running).pid)
    × ((active back).parentpid
        ≡ (running.pcb (get_pcb_addr (active running).pid)).parent_process_id)
    × ((j : ℕ) → back.pid_array j ≡ running.pid_array j)
    × (back.tss_esp0 ≡ get_kernel_stack_addr (active running).pid)
handle_exception-execute_call_example =
    handle_exception-execute_call (λ i. 0) frame_one frame_two dentry_zero dentry_zero command
      (entry_point running the_inode) user_stack_top Exception.pagefault running entered_at.0 refl
      (omega arith) (inl (omega arith)) entered_at.1

-- The program's file is longer, and its second block has a number out of range.
abbrev damaged : Kernel
damaged = record running { fs = λ a. if a == 4097 then 0x20 else if a == 4104 then 5 else image a }

damaged_name :
    read_dentry_by_name damaged (first_word (skip_spaces command)) dentry_zero
    ≡ some (copy_dentry damaged 0 dentry_zero)
unfolding first_word skip_spaces read_dentry_by_name strlen find_dentry for_range strncmp
    strncmp_from copy_dentry
damaged_name = refl

large_inode-damaged : large_inode damaged ≡ 9
unfolding large_inode read_dentry_by_name strlen find_dentry for_range strncmp strncmp_from
    copy_dentry
large_inode-damaged = refl

IsDamaged-damaged : IsDamaged damaged the_inode 5000
unfolding copy_dentry
IsDamaged-damaged = record {
  numbered = omega arith;
  long = omega arith;
  small = omega arith;
  first = omega arith;
  magic_0 = refl;
  magic_1 = refl;
  magic_2 = refl;
  magic_3 = refl;
  ordinary = λ e. omega (arith, large_inode-damaged, e);
  inside = omega arith;
  broken = omega arith;
}

damaged_free : free_pid damaged ≡ some 3
unfolding free_pid
damaged_free = refl

execute_call-leaks_example :
    (k' : Kernel) × (execute_call frame_one dentry_zero command damaged
      ≡ some (Outcome.returned error, k'))
    × (damaged.pid_array 3 ≡ 0)
    × (k'.pid_array 3 ≡ 1)
    × (k'.curr_pid ≡ 3)
    × ((active k').pid ≡ 3)
    × (k'.pcb ≡ damaged.pcb)
unfolding copy_dentry
execute_call-leaks_example =
    execute_call-leaks frame_one dentry_zero (copy_dentry damaged 0 dentry_zero) command 3 5000
      damaged short_command refl damaged_free damaged_name IsDamaged-damaged (omega arith)
      (omega arith)
