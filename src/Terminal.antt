-- ===== src/Terminal.antt =====
-- student-distrib/terminal.c: the terminal device, and the switch between the three terminals.
pub mod Reading
use mini_os_with_friends.Base.{
  ℕ, ◌+◌, ◌*◌, ◌&&◌, ◌||◌, not, Bool, Option, none, some, List, [], ◌∷◌, ◌==◌, ltb, leb,
  if◌then◌else◌, error, add32, is_neg, lt_signed, sign_extend8,
}
use mini_os_with_friends.Base.Loops.{for_range}
use mini_os_with_friends.State.{Terminal, Kernel}
use mini_os_with_friends.Memory.{read_byte, write_byte, memcpy, set_terminal, active}
use mini_os_with_friends.Paging.{get_pcb_blk, remap_video_mem_user, video, four_kb}
use mini_os_with_friends.Pic.{cli, sti}
use mini_os_with_friends.LineBuffer.{get_len, get_flag, max_buf_size}
use mini_os_with_friends.Screen.{
  clear, terminal_putc, puts, get_screen_x, get_screen_y, update_screen_xy,
}
use mini_os_with_friends.FileSystem.{Dentry}
use mini_os_with_friends.Process.{Outcome, Frame, execute_call, shell_command}

abbrev pub do_nothing_text : List ℕ
do_nothing_text =
    b't' ∷ b'e' ∷ b'r' ∷ b'm' ∷ b'i' ∷ b'n' ∷ b'a' ∷ b'l' ∷ b' ' ∷ b'd' ∷ b'o' ∷ b' ' ∷ b'n' ∷ b'o'
    ∷ b't' ∷ b'h' ∷ b'i' ∷ b'n' ∷ b'g' ∷ []

-- `printf` of a text without a conversion prints as `puts` does.
unfoldable pub donothing : Kernel → ℕ × Kernel
donothing k = (error, (puts do_nothing_text k).1)

-- `while (get_flag() == 0);` while the given interrupt handlers run, one after the other. `none`: the
-- loop still runs after the last of them.
unfoldable pub read_wait : List (Kernel → Kernel) → Kernel → Option Kernel
read_wait [] k = if get_flag k == 0 then none else some k
read_wait (handler ∷ rest) k =
    let later = read_wait rest (handler k) in if get_flag k == 0 then later else some k

-- What `terminal_read` returns: `get_len()`, at most the size of the buffer.
unfoldable pub read_count : Kernel → ℕ
read_count k =
    if leb max_buf_size (get_len k) && not (is_neg (get_len k)) then max_buf_size else get_len k

-- The line goes to the caller's buffer; `nbytes` is not read.
unfoldable pub copy_line : ℕ → Kernel → Kernel
copy_line buf k =
    for_range (if is_neg (read_count k) then 0 else read_count k) 0
      (λ i (k1 : Kernel). write_byte (add32 buf i) ((active k1).tempbuf i) k1) k

-- What precedes the wait, and what follows it.
unfoldable pub start_read : Kernel → Kernel
start_read k =
    let k1 = cli k in
    sti (set_terminal k1.active_terminal (record (active k1) { enter_flag = 0 }) k1)

unfoldable pub finish_read : ℕ → Kernel → ℕ × Kernel
finish_read buf k = (read_count (cli k), sti (copy_line buf (cli k)))

unfoldable pub terminal_read :
    (handlers : List (Kernel → Kernel)) (fd buf nbytes : ℕ) → Kernel → Option (ℕ × Kernel)
terminal_read handlers fd buf nbytes k =
    if buf == 0 then some (error, cli k) else elim (read_wait handlers (start_read k)) [
      | none ↦ none
      | some k2 ↦ some (finish_read buf k2)
    ]

-- The terminal that a program's output goes to.
unfoldable pub output_terminal : Kernel → ℕ
output_terminal k =
    if k.done_init_terminal == 0
    then k.active_terminal
    else sign_extend8 (k.pcb (get_pcb_blk (active k).pid)).terminal_on

unfoldable pub terminal_write : (fd buf nbytes : ℕ) → Kernel → ℕ × Kernel
terminal_write fd buf nbytes k =
    if buf == 0 || nbytes == 0 || is_neg nbytes
    then (error, k)
    else (let out = output_terminal k in
        let k1 =
          for_range nbytes 0 (λ i (k1 : Kernel). terminal_putc (read_byte k1 (add32 buf i)) out k1)
            k in
        (0, set_terminal k1.active_terminal (record (active k1) { length = 0 }) k1))

unfoldable pub terminal_open : Kernel → ℕ × Kernel
terminal_open k = (0, clear k)

unfoldable pub terminal_close : Kernel → ℕ × Kernel
terminal_close k = (0, k)

-- The body of the loop in `init_terminals`.
unfoldable pub reset_terminal : ℕ → Terminal → Terminal
reset_terminal j t = record t {
  terminal_id = j;
  pid = j;
  x = 0;
  y = 0;
  video_mem = video + (j + 1) * four_kb;
  enter_flag = 0;
  rtc_counter = 512;
  rtc_target = 512;
  rtc_flag = 0;
  shift_up_one_flag = 0;
  halt_flag = 1;
}

unfoldable pub init_terminals : Frame → Dentry → Kernel → Option (Outcome × Kernel)
init_terminals frame stale k = execute_call frame stale shell_command (
    remap_video_mem_user 0
      (for_range 3 0 (λ j (k1 : Kernel). set_terminal j (reset_terminal j (k1.terminal j)) k1) k))

-- The screen goes to the terminal's own page.
unfoldable pub save : ℕ → Kernel → Kernel
save terminal_id k =
    let t = record (k.terminal terminal_id) { x = get_screen_x k; y = get_screen_y k } in
    let k1 = set_terminal terminal_id t k in
    record k1 { mem = memcpy t.video_mem video four_kb k1.mem }

-- The page of the displayed terminal goes to the screen; the argument is not read.
unfoldable pub restore : ℕ → Kernel → Kernel
restore terminal_id k = record k {
  mem = memcpy video (k.terminal k.displayed_terminal).video_mem four_kb k.mem;
}

-- The switch itself, before a shell is started or the cursor is moved.
unfoldable pub switch_screen : ℕ → Kernel → Kernel
switch_screen terminal_id k =
    let saved = save k.displayed_terminal k in
    remap_video_mem_user terminal_id
      (restore terminal_id (record saved { displayed_terminal = terminal_id }))

-- A return of `execute_call` is one with 0.
unfoldable pub ignore_result : Option (Outcome × Kernel) → Option (Outcome × Kernel)
ignore_result none = none
ignore_result (some (Outcome.returned v, k)) = some (Outcome.returned 0, k)
ignore_result (some (Outcome.entered p s, k)) = some (Outcome.entered p s, k)
ignore_result (some (Outcome.resumed v esp ebp, k)) = some (Outcome.resumed v esp ebp, k)

unfoldable pub open_terminal : Frame → Dentry → ℕ → Kernel → Option (Outcome × Kernel)
open_terminal frame stale terminal_id k =
    let k1 = cli k in
    if lt_signed 2 terminal_id
    then some (Outcome.returned error, k1)
    else if terminal_id == k1.displayed_terminal
    then some (Outcome.returned 0, k1)
    else (let k2 = switch_screen terminal_id k1 in
        let t = k2.terminal terminal_id in
        if t.init_flag == 0
        then ignore_result (execute_call frame stale shell_command (sti k2))
        else some (Outcome.returned 0, sti (update_screen_xy t.x t.y k2)))
