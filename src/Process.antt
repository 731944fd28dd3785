-- ===== src/Process.antt =====
-- `execute_call` and `halt_call` of student-distrib/system_calls.c: a process is started from a file,
-- and ended. What an `iret` or a jump does with the processor is the outcome of the call.
pub mod Command
pub mod Allocated
pub mod Launch
pub mod Disk
pub mod Loads
pub mod Enters
pub mod Return
pub mod Pids
pub mod Broken
use mini_os_with_friends.Base.{
  ℕ, ◌+◌, ◌-◌, ◌%◌, ◌&&◌, ◌||◌, not, Bool, true, false, Option, none, some, List, [], ◌∷◌, ◌==◌,
  ◌!=◌, ltb, leb, if◌then◌else◌, error, sign_extend8, lt_signed,
}
use mini_os_with_friends.Base.Maps.{update}
use mini_os_with_friends.Base.Loops.{for_range}
use mini_os_with_friends.State.{OpTable, FileDesc, Pcb, Terminal, Kernel}
use mini_os_with_friends.Memory.{read_byte, read_word, set_terminal, set_pcb, active}
use mini_os_with_friends.Paging.{get_pcb_addr, get_kernel_stack_addr, virt_to_phys_user}
use mini_os_with_friends.Pic.{cli}
use mini_os_with_friends.CString.{strlen}
use mini_os_with_friends.FileSystem.{Dentry, read_dentry_by_name, read_data, inode_length}
use mini_os_with_friends.LineBuffer.{clear_temp_buff}

-- What ends a system call: it returns, it enters a user program, or it returns from the `execute_call`
-- of another process, with its status.
pub data Outcome : Type 0 where
  returned : (value : ℕ) → Outcome
  entered : (entry_point user_stack : ℕ) → Outcome
  resumed : (eax esp ebp : ℕ) → Outcome

-- The rest of a call after a read, which may not end.
abbrev pub and_then : {C : Type 0} → Option (ℕ × Kernel) → (ℕ → Kernel → Option C) → Option C
and_then none f = none
and_then (some (v, k)) f = f v k

-- The stack frame of a call of `execute_call`: the two registers, and where its arrays `buf` and
-- `entry_addr` lie.
pub record Frame : Type 0 where
  pub esp : ℕ
  pub ebp : ℕ
  pub buf : ℕ
  pub entry_addr : ℕ

abbrev pub not_engaged : ℕ
not_engaged = 1

abbrev pub engaged : ℕ
engaged = 0

abbrev pub kernel_ds : ℕ
kernel_ds = 0x0018

abbrev pub program_addr : ℕ
program_addr = 0x08048000

-- `VIRT_ADDR_PROGRAM + FOUR_MB - 4`
abbrev pub user_stack_top : ℕ
user_stack_top = 0x83FFFFC

-- The command: its first word, and what follows the spaces after it, up to the end of the line.
unfoldable pub skip_spaces : List ℕ → List ℕ
skip_spaces [] = []
skip_spaces (c ∷ s) = if c == b' ' then skip_spaces s else c ∷ s

unfoldable pub first_word : List ℕ → List ℕ
first_word [] = []
first_word (c ∷ s) = if c == b' ' || c == 0 || c == 0x0A then [] else c ∷ first_word s

unfoldable pub after_word : List ℕ → List ℕ
after_word [] = []
after_word (c ∷ s) = if c == b' ' || c == 0 || c == 0x0A then c ∷ s else after_word s

unfoldable pub to_line_end : List ℕ → List ℕ
to_line_end [] = []
to_line_end (c ∷ s) = if c == 0 || c == 0x0A then [] else c ∷ to_line_end s

unfoldable pub argument : List ℕ → List ℕ
argument command = to_line_end (skip_spaces (after_word (skip_spaces command)))

-- The state at the test of the command's length.
unfoldable pub begin_execute : Kernel → Kernel
begin_execute k =
    let k1 = if k.displayed_terminal == k.active_terminal then clear_temp_buff (cli k) else cli k in
    record k1 { curr_pid = (active k1).pid }

-- The loop over `pid_array`, from 3 to 5: the first number that is free.
unfoldable pub free_pid : Kernel → Option ℕ
free_pid k =
    if k.pid_array 3 == 0
    then some 3
    else if k.pid_array 4 == 0
    then some 4
    else if k.pid_array 5 == 0
    then some 5
    else none

-- A base shell keeps the terminal's number, any other process takes a free one; `none` for -1.
unfoldable pub allocate_pid : Kernel → Option Kernel
allocate_pid k =
    if (active k).init_flag == 0
    then some (
        set_terminal k.active_terminal (record (active k) { parentpid = error; init_flag = 1 })
          (record k { curr_pid = (active k).pid }))
    else elim (free_pid k) [
      | none ↦ none
      | some i ↦ some (record k { pid_array = update k.pid_array i 1; curr_pid = i })
    ]

-- `terminal[active_terminal].pid = curr_pid`, if the terminal is initialized.
unfoldable pub adopt_pid : Kernel → Kernel
adopt_pid k =
    if (active k).init_flag == 1
    then set_terminal k.active_terminal (record (active k) { pid = k.curr_pid }) k
    else k

-- The descriptors of a new process: the keyboard, the screen, and six free ones.
unfoldable pub fresh_desc : ℕ → FileDesc → FileDesc
fresh_desc i old =
    if i == 0
    then record { table_ptr = OpTable.stdin; inode_num = 0; file_position = 0; flags = engaged }
    else if i == 1
    then record { table_ptr = OpTable.stdout; inode_num = 0; file_position = 0; flags = engaged }
    else if ltb i 8
    then record {
      table_ptr = OpTable.nothing;
      inode_num = 0;
      file_position = 0;
      flags = not_engaged;
    }
    else old

-- The argument and its zero, in `terminal_cmd`.
unfoldable pub store_argument : List ℕ → ℕ → (ℕ → ℕ) → ℕ → ℕ
store_argument [] i cmd = update cmd i 0
store_argument (c ∷ s) i cmd = store_argument s (i + 1) (update cmd i c)

-- Who the parent is, and the terminal's and the global record of it.
unfoldable pub record_parent : ℕ → Kernel → Kernel
record_parent old_curr_pid k =
    if lt_signed k.curr_pid 3
    then set_terminal k.active_terminal (record (active k) { parentpid = error })
        (record k { save_parent_pid = k.active_terminal })
    else set_terminal k.active_terminal (record (active k) { parentpid = old_curr_pid })
        (record k { save_parent_pid = old_curr_pid })

unfoldable pub fill_pcb : List ℕ → Frame → Kernel → Kernel
fill_pcb arg frame k =
    let addr = get_pcb_addr k.curr_pid in
    let old = k.pcb addr in
    set_pcb addr
      (record old {
        file_desc_array = λ i. fresh_desc i (old.file_desc_array i);
        active = 1;
        process_id = k.curr_pid;
        parent_process_id = (active k).parentpid;
        task_esp = frame.esp;
        task_ebp = frame.ebp;
        terminal_cmd = store_argument arg 0 old.terminal_cmd;
        terminal_on = k.active_terminal % 256;
      })
      k

unfoldable pub set_tss : ℕ → Kernel → Kernel
set_tss pid k = record k { tss_ss0 = kernel_ds; tss_esp0 = get_kernel_stack_addr pid }

-- From the loaded image to the `iret`.
unfoldable pub launch : ℕ → List ℕ → ℕ → Frame → Kernel → Option (Outcome × Kernel)
launch inode arg old_curr_pid frame k =
    let k1 = fill_pcb arg frame (record_parent old_curr_pid k) in
    and_then (read_data inode 24 frame.entry_addr 4 k1) (λ v k2.
      some (Outcome.entered (read_word k2 frame.entry_addr) user_stack_top, set_tss k2.curr_pid k2))

-- From the load of the image to the user's page of process `k.curr_pid` on.
unfoldable pub load_image : ℕ → List ℕ → ℕ → Frame → Kernel → Option (Outcome × Kernel)
load_image inode arg old_curr_pid frame k =
    and_then
      (read_data inode 0 program_addr (inode_length k inode) (virt_to_phys_user k.curr_pid k))
      (λ valid k1.
        if valid == error
        then some (Outcome.returned error, k1)
        else launch inode arg old_curr_pid frame k1)

-- From the choice of a process number on. A failed load returns -1 with the number taken.
unfoldable pub load_program : ℕ → List ℕ → Frame → Kernel → Option (Outcome × Kernel)
load_program inode arg frame k = elim (allocate_pid k) [
  | none ↦ some (Outcome.returned error, k)
  | some k1 ↦ load_image inode arg k.curr_pid frame (adopt_pid k1)
]

-- The four bytes that an executable begins with.
unfoldable pub is_elf : ℕ → Kernel → Bool
is_elf buf k =
    read_byte k buf == 0x7F
    && read_byte k (buf + 1) == 0x45
    && read_byte k (buf + 2) == 0x4C
    && read_byte k (buf + 3) == 0x46

-- `int8_t inode = dentry_ptr->inode_num`, passed on as a `uint32_t`.
abbrev pub narrow_inode : ℕ → ℕ
narrow_inode inode_num = sign_extend8 (inode_num % 256)

-- From the dentry of the file on. `none`: a read does not end.
unfoldable pub check_program : ℕ → List ℕ → Frame → Kernel → Option (Outcome × Kernel)
check_program inode arg frame k = and_then (read_data inode 0 frame.buf 4 k) (λ valid k1.
    if valid == error
    then some (Outcome.returned error, k1)
    else if is_elf frame.buf k1
    then load_program inode arg frame k1
    else some (Outcome.returned error, k1))

unfoldable pub execute_call : Frame → Dentry → List ℕ → Kernel → Option (Outcome × Kernel)
execute_call frame stale command k =
    let k1 = begin_execute k in
    if ltb 1023 (strlen command)
    then some (Outcome.returned error, k1)
    else elim (read_dentry_by_name k1 (first_word (skip_spaces command)) stale) [
      | none ↦ some (Outcome.returned error, k1)
      | some dentry ↦ check_program (narrow_inode dentry.inode_num) (argument command) frame k1
    ]

abbrev pub shell_command : List ℕ
shell_command = b's' ∷ b'h' ∷ b'e' ∷ b'l' ∷ b'l' ∷ []

-- The base shell of a terminal is started anew, with the numbers of the terminal reset.
unfoldable pub reset_shell : Kernel → Kernel
reset_shell k =
    set_terminal k.active_terminal
      (record (active k) { pid = k.active_terminal; parentpid = error; init_flag = 0 })
      (record k { curr_pid = k.active_terminal; save_parent_pid = error })

-- The descriptors are closed, and the PCB is marked.
unfoldable pub close_all : Pcb → Pcb
close_all p = record p {
  active = not_engaged;
  terminal_on = 255;
  file_desc_array = λ i.
      if ltb i 8 then record (p.file_desc_array i) { flags = not_engaged } else p.file_desc_array i;
}

-- The parent runs again.
unfoldable pub return_to_parent : ℕ → Kernel → Outcome × Kernel
return_to_parent status k =
    let t = active k in
    let addr = get_pcb_addr k.curr_pid in
    let k1 = set_pcb addr (close_all (k.pcb addr)) k in
    let grandparent = (k1.pcb (get_pcb_addr t.parentpid)).parent_process_id in
    let k2 = record k1 {
      curr_pid = t.parentpid;
      save_parent_pid = grandparent;
      terminal =
          update k1.terminal k1.active_terminal
            (record t { pid = t.parentpid; parentpid = grandparent });
      pid_array = update k1.pid_array (k1.pcb addr).process_id 0;
    } in
    (
      Outcome.resumed status (k2.pcb addr).task_esp (k2.pcb addr).task_ebp,
      set_tss t.parentpid (virt_to_phys_user t.parentpid k2),
    )

-- The clock of the terminal is reset.
abbrev pub begin_halt : Kernel → Kernel
begin_halt k =
    set_terminal k.active_terminal (record (active k) { rtc_counter = 512; rtc_target = 512 })
      (record k { curr_pid = (active k).pid })

-- A displayed line is dropped before the parent runs.
abbrev pub drop_line : Kernel → Kernel
drop_line k = if k.displayed_terminal == k.active_terminal then clear_temp_buff k else k

unfoldable pub halt_call : Frame → Dentry → ℕ → Kernel → Option (Outcome × Kernel)
halt_call frame stale status k =
    let k1 = begin_halt k in
    if lt_signed k1.curr_pid 3
    then elim (execute_call frame stale shell_command (reset_shell k1)) [
      | none ↦ none
      | some (Outcome.returned _, k2) ↦ some (Outcome.returned 0, k2)
      | some (o, k2) ↦ some (o, k2)
    ]
    else some (return_to_parent status (drop_line k1))
