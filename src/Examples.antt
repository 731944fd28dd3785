-- ===== src/Examples.antt =====
-- Concrete runs of the theorems: a kernel with three running shells, and an image with one program.
mod Processes
mod Texts
mod Booting
mod Probing
mod Cats
use native.Mathlib.Decide.{ℕ_discrete}
use mini_os_with_friends.Base.{
  List, [], add32, arith, error, if◌then◌else◌, inl, inr, leb, length, ltb, min, none, refl, some,
  suc, true, ℕ, ◌&&◌, ◌*◌, ◌++◌, ◌+◌, ◌/◌, ◌<◌, ◌==◌, ◌∷◌, ◌≡◌, ◌%◌, ◌≢◌, ◌≤◌, ◌⊎◌,
}
use mini_os_with_friends.Base.Loops.{for_range}
use mini_os_with_friends.Boot.{entry}
use mini_os_with_friends.CString.{char_at, strlen, strncmp, strncmp_from}
use mini_os_with_friends.CString.Compare.{IsText}
use mini_os_with_friends.FileSystem.{
  Dentry, copy_dentry, find_dentry, inode_length, large_inode, num_data_blk, read_data,
  read_dentry_by_name,
}
use mini_os_with_friends.FileSystem.Contents.{file_byte, read_data_ends, read_data_lem}
use mini_os_with_friends.FileSystem.Lookup.{
  Carries, read_dentry_by_name_last, read_dentry_by_name_missing,
}
use mini_os_with_friends.Idt.{IdtDesc, init_idt, vector_system}
use mini_os_with_friends.Idt.Gates.{has_handler, init_idt_lem}
use mini_os_with_friends.Keyboard.{ent}
use mini_os_with_friends.Keyboard.Line.{press, shown}
use mini_os_with_friends.Keyboard.Typing.{
  IsPlain, press-Fits, press-shown, type_line_lem, type_text,
}
use mini_os_with_friends.Memory.{active}
use mini_os_with_friends.Paging.{
  get_kernel_stack_addr, get_pcb_addr, get_pcb_blk, init_paging, translate, video,
}
use mini_os_with_friends.FileSystem.{read_from_file}
use mini_os_with_friends.Pit.Reads.{switch_process-reads}
use mini_os_with_friends.Paging.Init.{init_paging_lem}
use mini_os_with_friends.Paging.Isolation.{user_pages_disjoint}
use mini_os_with_friends.Pit.{Switch, switch_process}
use mini_os_with_friends.Pit.Schedule.{round_robin}
use mini_os_with_friends.Process.{argument, first_word, skip_spaces}
use mini_os_with_friends.Process.Command.{InLine, IsWord, parse-command, spaces}
use mini_os_with_friends.Rtc.{rtc_read}
use mini_os_with_friends.Rtc.Timing.{HasWaited, IsRunning, rtc_read_waits}
use mini_os_with_friends.Screen.{
  attrib, blank, cell, put_cell, screen_base, shift_up_by_one, terminal_putc,
}
use mini_os_with_friends.Screen.Cursor.{InScreen}
use mini_os_with_friends.Screen.Output.{Keeps, terminal_putc-Keeps, terminal_putc-prints}
use mini_os_with_friends.Screen.Scroll.{Off, shift_up_by_one_lem}
use mini_os_with_friends.State.{FileDesc, Kernel, OpTable, Pcb, Terminal}
use mini_os_with_friends.Syscall.{
  Reply, close_call, descriptor, free_desc, free_desc_from, getargs_call, open_call, opened_desc,
  set_descriptor,
}
use mini_os_with_friends.Syscall.Args.{at_end, getargs_call-ends}
use mini_os_with_friends.Syscall.Descriptors.{HasOperations, close_call-open_call, open_call_lem}
use mini_os_with_friends.Terminal.{switch_screen}
use mini_os_with_friends.Terminal.Reading.{own_page, switch_screen_lem}

-- Each terminal runs its base shell.
abbrev shell_terminal : ℕ → Terminal
shell_terminal i = record {
  tempbuf = λ _. 0;
  video_mem = 0xB8000 + (i + 1) * 4096;
  terminal_id = i;
  length = 0;
  read_length = 0;
  x = 0;
  y = 0;
  pid = i;
  parentpid = error;
  halt_flag = 1;
  shift_up_one_flag = 0;
  init_flag = 1;
  enter_flag = 0;
  rtc_flag = 0;
  rtc_counter = 512;
  rtc_target = 512;
}

abbrev free_descriptor : FileDesc
free_descriptor = record {
  table_ptr = OpTable.nothing;
  inode_num = 0;
  file_position = 0;
  flags = 1;
}

abbrev pcb_zero : Pcb
pcb_zero = record {
  file_desc_array = λ _. free_descriptor;
  active = 1;
  process_id = 0;
  parent_process_id = error;
  task_esp = 0;
  task_ebp = 0;
  active_esp = 0;
  active_ebp = 0;
  terminal_cmd = λ _. 0;
  terminal_on = 0;
}

abbrev dentry_zero : Dentry
dentry_zero = record { filename = λ _. 0; filetype = 0; inode_num = 0; reserved = λ _. 0 }

-- The image: entry 0 is called `a`, inode 0 has 28 bytes in block 0, those of an executable that is
-- entered at 0x08048018; entry 1 is the directory, and entry 2 the
-- file `f` in that inode.
abbrev pub image : ℕ → ℕ
image a =
    if a == 64
    then b'a'
    else if a == 128
    then b'.'
    else if a == 160
    then 1
    else if a == 192
    then b'f'
    else if a == 224
    then 2
    else if a == 4096
    then 28
    else if a == 8192
    then 0x7F
    else if a == 8193
    then 0x45
    else if a == 8194
    then 0x4C
    else if a == 8195
    then 0x46
    else if a == 8216
    then 0x18
    else if a == 8217
    then 0x80
    else if a == 8218
    then 0x04
    else if a == 8219
    then 0x08
    else 0

abbrev running : Kernel
running = record {
  terminal = shell_terminal;
  displayed_terminal = 0;
  active_terminal = 0;
  done_init_terminal = 1;
  init_count = 2;
  keys = record { shift = 0; control = 0; alt = 0; caps = 0; str_len = 0 };
  pid_array = λ _. 0;
  curr_pid = 0;
  save_parent_pid = error;
  pcb = λ _. pcb_zero;
  paging = record {
    page_directory = λ _. 0;
    page_table = λ _. 0;
    page_table_video = λ _. 0;
    page_table_addr = 0x401000;
    page_table_video_addr = 0x402000;
  };
  mem = λ _. 0;
  pic = record { master_mask = 255; slave_mask = 255 };
  ports = [];
  interrupts = true;
  tss_ss0 = 0;
  tss_esp0 = 0;
  fs = image;
  inodes_count = 1;
  data_count_blk = 1;
  large_text_blk_count = 0;
  shared_btw_terminal_fs_drivers = 0;
  internal_counter = 0;
  stale_inode = 9;
}

abbrev gate_zero : IdtDesc
gate_zero = record {
  offset_15_00 = 0;
  seg_selector = 0;
  reserved4 = 0;
  reserved3 = 0;
  reserved2 = 0;
  reserved1 = 0;
  size = 0;
  reserved0 = 0;
  dpl = 0;
  present = 0;
  offset_31_16 = 0;
}

abbrev at_end_of_screen : Kernel
at_end_of_screen = record running {
  terminal = λ i. record (shell_terminal i) { x = 79; y = 24; shift_up_one_flag = 2 };
}

abbrev with_file : Kernel
with_file = record running {
  pcb = λ _. record pcb_zero {
    file_desc_array =
        λ _. record { table_ptr = OpTable.files; inode_num = 0; file_position = 0; flags = 0 };
  };
}

abbrev opened : Kernel
opened = (open_call (some (b'a' ∷ [])) dentry_zero running).1

abbrev other_fd : ℕ
other_fd = 3

abbrev kernel_buffer : ℕ
kernel_buffer = 0x1000

abbrev handlers : ℕ → ℕ
handlers v = 0x400000 + v

abbrev pid_three : ℕ
pid_three = 3

abbrev user_address : ℕ
user_address = 0x8048000

abbrev typed_text : List ℕ
typed_text = b'l' ∷ b's' ∷ []

Off-screen_one : Off (screen_base running 1) 0x1000
unfolding screen_base
Off-screen_one = inl (omega arith)

Off-screen_zero : Off (screen_base running 0) 0x1000
unfolding screen_base
Off-screen_zero = inl (omega arith)

on_screen : (i : ℕ) → InScreen (running.terminal i)
on_screen i = record {
  column = omega arith;
  row = omega arith;
  no_scroll_pending = omega arith;
  last_marked = inl (omega arith);
}

small_pids : (i : ℕ) → i < 3 → (running.terminal i).pid < 6
small_pids i hi = omega arith

different_pids :
    (i j : ℕ) → i < 3 → j < 3 → i ≢ j → (running.terminal i).pid ≢ (running.terminal j).pid
different_pids i j hi hj ne = ne

clock_runs : IsRunning (active running)
clock_runs = record { started = refl; counts = omega arith; counter_word = omega arith }

IsPlain-ls : IsPlain (b'l' ∷ b's' ∷ [])
IsPlain-ls =
    IsPlain.next (omega arith) (omega arith) (omega arith)
      (IsPlain.next (omega arith) (omega arith) (omega arith) IsPlain.empty)

IsWord-ls : IsWord (b'l' ∷ b's' ∷ [])
IsWord-ls =
    IsWord.next (omega arith) (omega arith) (omega arith)
      (IsWord.next (omega arith) (omega arith) (omega arith) IsWord.empty)

InLine-x : InLine (b'x' ∷ [])
InLine-x = InLine.next (omega arith) (omega arith) InLine.empty

IsText-a : IsText (b'a' ∷ [])
IsText-a = (omega arith, omega arith, tt)

IsText-b : IsText (b'b' ∷ [])
IsText-b = (omega arith, omega arith, tt)

image_bytes : (a : ℕ) → running.fs a < 256
image_bytes a = ground arith

Carries-a : Carries running 0 (b'a' ∷ [])
Carries-a = (refl, refl)

carried_once : (e : ℕ) → 0 < e → e < 64 → ¬ Carries running e (b'a' ∷ [])
carried_once e lo hi (first, rest) = ground arith

carried_nowhere : (e : ℕ) → e < 64 → ¬ Carries running e (b'b' ∷ [])
carried_nowhere e hi (first, rest) = ground arith

found_a :
    read_dentry_by_name running (b'a' ∷ []) dentry_zero ≡ some (copy_dentry running 0 dentry_zero)
found_a =
    read_dentry_by_name_last running (b'a' ∷ []) 0 dentry_zero IsText-a image_bytes (omega arith)
      (omega arith) (omega arith) Carries-a carried_once

opens : open_call (some (b'a' ∷ [])) dentry_zero running ≡ (2, opened)
unfolding open_call read_dentry_by_name strlen find_dentry for_range strncmp free_desc
    free_desc_from
opens = refl

a_is_rtc : (copy_dentry running 0 dentry_zero).filetype < 3
unfolding copy_dentry
a_is_rtc = omega arith

small_file : 1 < inode_length running 0
small_file = omega arith

large_inode-running : large_inode running ≡ 9
unfolding large_inode read_dentry_by_name strlen find_dentry for_range strncmp strncmp_from
large_inode-running = refl

other_file : large_inode running ≢ 0
other_file e = omega (arith, large_inode-running)

in_range : (i : ℕ) → i < 4 → num_data_blk running 0 ((1 + i) / 4096) < running.data_count_blk
in_range i lt = ground arith

apart_bytes :
    (i j : ℕ)
    → i < 4
    → j < 4
    → translate running.paging (add32 0x8050000 i) ≡ translate running.paging (add32 0x8050000 j)
    → i ≡ j
unfolding translate
apart_bytes i j hi hj e = ground arith

short_line : (shown (press b'y' running)).length < 127
short_line = rw (press-shown b'y' running).same_length (omega arith)

one_char : 0 < (shown (press b'y' running)).length
one_char = rw (press-shown b'y' running).same_length (omega arith)

user_pages_disjoint_example : (pid_three ≡ pid_three) × (user_address ≡ user_address)
user_pages_disjoint_example =
    user_pages_disjoint pid_three pid_three user_address user_address running running (omega arith)
      (omega arith) (omega arith) (omega arith) (omega arith) (omega arith) refl

read_data_lem_example :
    (k' : Kernel) × (read_data 0 1 0x8050000 4 running ≡ some (min 4 (inode_length running 0), k'))
    × (k'.mem (translate running.paging (add32 0x8050000 2)) ≡ file_byte running 0 (1 + 2))
read_data_lem_example =
    read_data_lem 0 1 0x8050000 4 2 running (omega arith) (omega arith) (omega arith) (omega arith)
      small_file other_file in_range apart_bytes (omega arith)

type_line_lem_example :
    let t = shown (press ent (type_text typed_text running)) in
    ((i : ℕ) → i < length typed_text → t.tempbuf i ≡ char_at typed_text i)
    × (t.tempbuf (length typed_text) ≡ 0x0A)
    × (t.read_length ≡ length typed_text + 1)
    × (t.enter_flag ≡ 1)
    × (t.length ≡ 0)
    × ((press ent (type_text typed_text running)).displayed_terminal ≡ running.displayed_terminal)
type_line_lem_example = type_line_lem typed_text running IsPlain-ls refl (omega arith)

round_robin_example :
    let k1 = (switch_process 100 200 running).1 in
    let k2 = (switch_process 300 400 k1).1 in
    let k3 = (switch_process 500 600 k2).1 in
    (k1.active_terminal ≡ (running.active_terminal + 1) % 3)
    × (k2.active_terminal ≡ (running.active_terminal + 2) % 3)
    × (k3.active_terminal ≡ running.active_terminal)
    × ((switch_process 500 600 k2).0 ≡ Switch.switched 100 200)
    × (k3.tss_esp0 ≡ get_kernel_stack_addr (active running).pid)
round_robin_example =
    round_robin 100 200 300 400 500 600 running (omega arith) small_pids different_pids

terminal_putc-Keeps_example : Keeps 0x1000 running (terminal_putc b'x' 1 running)
terminal_putc-Keeps_example = terminal_putc-Keeps b'x' 0x1000 1 running (on_screen 1) Off-screen_one

close_call-open_call_example :
    (k2 : Kernel) × (close_call 2 opened ≡ Reply.answer 0 k2)
    × ((descriptor k2 other_fd).flags ≡ (descriptor running other_fd).flags)
    × (other_fd ≢ 2 → descriptor k2 other_fd ≡ descriptor running other_fd)
close_call-open_call_example =
    close_call-open_call (b'a' ∷ []) dentry_zero (copy_dentry running 0 dentry_zero) 2 other_fd
      running opened found_a a_is_rtc (omega arith) opens

read_dentry_by_name_last_example :
    read_dentry_by_name running (b'a' ∷ []) dentry_zero ≡ some (copy_dentry running 0 dentry_zero)
read_dentry_by_name_last_example =
    read_dentry_by_name_last running (b'a' ∷ []) 0 dentry_zero IsText-a image_bytes (omega arith)
      (omega arith) (omega arith) Carries-a carried_once

read_dentry_by_name_missing_example : read_dentry_by_name running (b'b' ∷ []) dentry_zero ≡ none
read_dentry_by_name_missing_example =
    read_dentry_by_name_missing running (b'b' ∷ []) dentry_zero IsText-b image_bytes
      (inr (inr carried_nowhere))

rtc_read_waits_example :
    (600 < (active running).rtc_counter × (rtc_read 600 running ≡ none))
    ⊎ ((active running).rtc_counter ≤ 600
        × ((k' : Kernel) × (rtc_read 600 running ≡ some (0, k')) × HasWaited running k'))
rtc_read_waits_example = rtc_read_waits 600 running (omega arith) clock_runs

terminal_putc-prints_example :
    let s = running.terminal 1 in
    let k' = terminal_putc b'x' 1 running in
    (k'.mem 0xBA000 ≡ put_cell (screen_base running 1) s.y s.x b'x' running.mem 0xBA000)
    × (80 * (k'.terminal 1).y + (k'.terminal 1).x ≡ 80 * s.y + s.x + 1)
terminal_putc-prints_example =
    terminal_putc-prints b'x' 1 0xBA000 running (omega arith) (omega arith) (omega arith)
      (on_screen 1) refl

switch_screen_lem_example :
    ((switch_screen 1 running).mem (own_page running.displayed_terminal + 5)
      ≡ running.mem (video + 5))
    × ((switch_screen 1 running).mem (video + 5) ≡ running.mem (own_page 1 + 5))
    × (2 ≢ running.displayed_terminal
        → (switch_screen 1 running).mem (own_page 2 + 5) ≡ running.mem (own_page 2 + 5))
    × ((switch_screen 1 running).displayed_terminal ≡ 1)
switch_screen_lem_example =
    switch_screen_lem 1 2 5 running (omega arith) (omega arith) (omega arith) (omega arith)
      (λ i lt. refl)

press-Fits_example :
    ((press b'x' running).terminal 0).length ≤ 127
    × (((press b'x' running).terminal 0).tempbuf 128 ≡ (running.terminal 0).tempbuf 128)
press-Fits_example = press-Fits b'x' 0 128 running (λ i. omega arith) (omega arith)

open_call_lem_example :
    let d = copy_dentry running 0 dentry_zero in
    ((fd : ℕ) × ((k' : Kernel) × (open_call (some (b'a' ∷ [])) dentry_zero running ≡ (fd, k'))
        × (2 ≤ fd)
        × (fd < 8)
        × ((descriptor running fd).flags ≡ 1)
        × ((j : ℕ) → 2 ≤ j → j < fd → (descriptor running j).flags ≢ 1)
        × ((descriptor k' fd).inode_num ≡ d.inode_num)
        × ((descriptor k' fd).file_position ≡ 0)
        × ((descriptor k' fd).flags ≡ 0)
        × HasOperations d.filetype (descriptor k' fd).table_ptr
        × ((j : ℕ) → j ≢ fd → descriptor k' j ≡ descriptor running j)))
    ⊎ ((open_call (some (b'a' ∷ [])) dentry_zero running ≡ (error, running))
        × ((j : ℕ) → 2 ≤ j → j < 8 → (descriptor running j).flags ≢ 1))
open_call_lem_example =
    open_call_lem (b'a' ∷ []) dentry_zero (copy_dentry running 0 dentry_zero) running found_a

switch_process-reads_example :
    let k' = (switch_process 100 200 running).1 in
    let d = (running.pcb (get_pcb_blk (active running).pid)).file_desc_array 2 in
    (k'.curr_pid ≡ (active running).pid)
    × ((active k').pid ≢ k'.curr_pid)
    × (read_from_file 2 0x8050000 4 k' ≡ read_data d.inode_num d.file_position 0x8050000 4 k')
switch_process-reads_example =
    switch_process-reads 100 200 2 0x8050000 4 running (omega arith) refl (omega arith)
      (omega arith) (omega arith) (omega arith)

shift_up_by_one_lem_example :
    ((shift_up_by_one 0 running).mem (cell (screen_base running 0) 3 4 + 1) ≡ (
      if ltb 3 24
      then running.mem (cell (screen_base running 0) (3 + 1) 4 + 1)
      else if 1 == 0
      then blank
      else attrib))
    × ((shift_up_by_one 0 running).mem 0x1000 ≡ running.mem 0x1000)
shift_up_by_one_lem_example =
    shift_up_by_one_lem 0 3 4 1 0x1000 running (omega arith) (omega arith) (omega arith)
      Off-screen_zero

read_data_ends_example : (r : ℕ × Kernel) × (read_data 9 1 0 4 running ≡ some r)
read_data_ends_example = read_data_ends 9 1 0 4 running (omega arith) (omega arith)

init_paging_lem_example :
    ((init_paging running).paging.page_table 0xB8
      ≡ 0xB8 * 4096 + (if leb 0xB8 0xB8 && leb 0xB8 0xBB then 3 else 2))
    × ((init_paging running).paging.page_directory 0xB8 ≡ (
        if 0xB8 == 0
        then running.paging.page_table_addr + 3
        else if 0xB8 == 1
        then 0x400083
        else 0))
init_paging_lem_example = init_paging_lem running 0xB8 (omega arith) refl

parse-command_example :
    let line = spaces 1 (b'l' ∷ (b's' ∷ []) ++ spaces (suc 1) (b'x' ∷ [] ++ 0x0A ∷ [])) in
    (first_word (skip_spaces line) ≡ b'l' ∷ (b's' ∷ [])) × (argument line ≡ b'x' ∷ [])
parse-command_example =
    parse-command 1 1 b'l' b'x' (b's' ∷ []) [] [] IsWord-ls (omega arith) InLine-x

getargs_call-ends_example :
    (k' : Kernel) × (getargs_call 0x8050000 10 running
      ≡ some (
        if at_end ((running.pcb (get_pcb_addr (active running).pid)).terminal_cmd 0) 10
            then error
            else 0,
        k',
      ))
getargs_call-ends_example =
    getargs_call-ends 0x8050000 10 0 running (omega arith) (omega arith) refl

init_idt_lem_example :
    ((init_idt handlers (λ i. gate_zero) 0x80).present ≡ (if has_handler 0x80 then 1 else 0))
    × ((init_idt handlers (λ i. gate_zero) 0x80).dpl ≡ (if 0x80 == vector_system then 3 else 0))
    × (has_handler 0x80 ≡ true
        → (init_idt handlers (λ i. gate_zero) 0x80).offset_31_16 * 65536
            + (init_idt handlers (λ i. gate_zero) 0x80).offset_15_00
          ≡ handlers 0x80)
init_idt_lem_example = init_idt_lem 0x80 handlers (λ i. gate_zero) (omega arith) (omega arith)
