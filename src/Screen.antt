-- ===== src/Screen.antt =====
-- The text screen of student-distrib/lib.c: the cursor, `clear`, scrolling and `terminal_putc`.
-- Cursor coordinates are never negative (Screen/Cursor.antt), so they are compared and divided as
-- plain numbers. The writes of the debugging variable `test_flag` are left out.
pub mod Scroll
pub mod Cursor
pub mod Display
pub mod Output
use mini_os_with_friends.Base.{
  ℕ, ◌+◌, ◌-◌, ◌*◌, ◌/◌, ◌%◌, ◌&&◌, ◌||◌, ◌==◌, ◌!=◌, ltb, leb, if◌then◌else◌, add32, List, [], ◌∷◌,
}
use mini_os_with_friends.Base.Maps.{update}
use mini_os_with_friends.Base.Loops.{for_range}
use mini_os_with_friends.State.{Terminal, Kernel}
use mini_os_with_friends.Memory.{set_terminal}
use mini_os_with_friends.Paging.{video}
use mini_os_with_friends.Pic.{outb, cli, sti}

abbrev pub num_cols : ℕ
num_cols = 80

abbrev pub num_rows : ℕ
num_rows = 25

abbrev pub attrib : ℕ
attrib = 0x7

abbrev pub backspace : ℕ
backspace = 0x08

abbrev pub blank : ℕ
blank = b' '

-- The cell of row `j` and column `i` on the screen that begins at `base`, and the write of one.
abbrev pub cell : ℕ → ℕ → ℕ → ℕ
cell base j i = base + (num_cols * j + i) * 2

abbrev pub put_cell : ℕ → ℕ → ℕ → ℕ → (ℕ → ℕ) → ℕ → ℕ
put_cell base j i c mem = update (update mem (cell base j i) c) (cell base j i + 1) attrib

-- Where the text of a terminal lies: on the screen, or in the terminal's own page.
unfoldable pub screen_base : Kernel → ℕ → ℕ
screen_base k t = if t == k.displayed_terminal then video else video + 4096 * (t + 1)

unfoldable pub update_cursor : Kernel → Kernel
update_cursor k =
    let t = k.terminal k.displayed_terminal in
    let pos = (t.y * num_cols + t.x) % 65536 in
    let k1 = outb (pos % 256) 0x3D5 (outb 0x0F 0x3D4 k) in
    outb (pos / 256 % 256) 0x3D5 (outb 0x0E 0x3D4 k1)

unfoldable pub update_screen_xy : ℕ → ℕ → Kernel → Kernel
update_screen_xy x y k = update_cursor (
    set_terminal k.displayed_terminal (record (k.terminal k.displayed_terminal) { x = x; y = y }) k)

unfoldable pub get_screen_x : Kernel → ℕ
get_screen_x k = (k.terminal k.displayed_terminal).x

unfoldable pub get_screen_y : Kernel → ℕ
get_screen_y k = (k.terminal k.displayed_terminal).y

unfoldable pub clear : Kernel → Kernel
clear k =
    let wiped =
      for_range (num_rows * num_cols) 0
        (λ i (m : ℕ → ℕ). update (update m (video + i * 2) 0) (video + i * 2 + 1) attrib) k.mem in
    let t = record (k.terminal k.displayed_terminal) { x = 0; y = 0 } in
    update_cursor (set_terminal k.displayed_terminal t (record k { mem = wiped }))

-- A test of the clock: the character of every cell of the screen is counted up.
unfoldable pub test_interrupts : Kernel → Kernel
test_interrupts k = record k {
  mem =
      for_range (num_rows * num_cols) 0
        (λ i (m : ℕ → ℕ). update m (video + i * 2) ((m (video + i * 2) + 1) % 256)) k.mem;
}

-- The two loops of `shift_up_by_one`: column by column, every row takes the row below it, and then
-- the last row is blanked.
unfoldable pub shift_column : ℕ → ℕ → (ℕ → ℕ) → ℕ → ℕ
shift_column base i mem =
    for_range 24 0
      (λ j (m : ℕ → ℕ).
        let m' : ℕ → ℕ = update m (cell base j i) (m (cell base (j + 1) i)) in
        update m' (cell base j i + 1) (m' (cell base (j + 1) i + 1)))
      mem

unfoldable pub shift_rows : ℕ → (ℕ → ℕ) → ℕ → ℕ
shift_rows base mem = for_range num_cols 0 (λ i m. shift_column base i m) mem

unfoldable pub blank_last_row : ℕ → (ℕ → ℕ) → ℕ → ℕ
blank_last_row base mem = for_range num_cols 0 (λ i m. put_cell base (num_rows - 1) i blank m) mem

unfoldable pub shift_up_by_one : ℕ → Kernel → Kernel
shift_up_by_one t k =
    let base = screen_base k t in
    sti (record (cli k) { mem = blank_last_row base (shift_rows base k.mem) })

-- `update_screen_xy` with the terminal's coordinates, if that terminal is displayed.
unfoldable pub show_cursor : ℕ → Kernel → Kernel
unfolding update_screen_xy update_cursor
show_cursor t k =
    if t == k.displayed_terminal then update_screen_xy (k.terminal t).x (k.terminal t).y k else k

-- The three ways in which a character moves the cursor.
unfoldable pub newline_cursor : Terminal → Terminal
newline_cursor s =
    if leb num_rows (add32 s.y 1)
    then record s { y = num_rows - 1; x = 0; shift_up_one_flag = 1 }
    else record s { y = add32 s.y 1; x = 0; shift_up_one_flag = 0 }

unfoldable pub backspace_cursor : Terminal → Terminal
backspace_cursor s =
    if ltb 0 s.x
    then record s { x = s.x - 1 }
    else if s.x == 0 && s.y != 0
    then record s { y = s.y - 1; x = num_cols - 1 }
    else s

unfoldable pub advance_cursor : Terminal → Terminal
advance_cursor s = record s {
  x = add32 s.x 1 % num_cols;
  y = (s.y + add32 s.x 1 / num_cols) % num_rows;
}

-- The cursor after a scroll.
unfoldable pub last_row_cursor : Terminal → Terminal
last_row_cursor s = record s { x = 0; y = num_rows - 1; shift_up_one_flag = 0 }

unfoldable pub put_newline : ℕ → Kernel → Kernel
put_newline t k = show_cursor t (set_terminal t (newline_cursor (k.terminal t)) k)

unfoldable pub put_backspace : ℕ → Kernel → Kernel
put_backspace t k =
    let k1 = show_cursor t (set_terminal t (backspace_cursor (k.terminal t)) k) in
    let s = k1.terminal t in record k1 { mem = put_cell (screen_base k t) s.y s.x blank k1.mem }

-- A scroll that is pending before the character, by flag 1.
unfoldable pub scroll_before : ℕ → Kernel → Kernel
scroll_before t k =
    if (k.terminal t).shift_up_one_flag == 1
    then (let shifted = shift_up_by_one t k in
        set_terminal t (record (shifted.terminal t) { shift_up_one_flag = 0 }) shifted)
    else k

-- The scroll that flag 2 calls for, after the character.
unfoldable pub scroll_after : ℕ → Kernel → Kernel
scroll_after t k =
    if (k.terminal t).shift_up_one_flag == 2
    then (let shifted = shift_up_by_one t k in
        set_terminal t (last_row_cursor (shifted.terminal t)) shifted)
    else k

unfoldable pub write_char : ℕ → ℕ → Kernel → Kernel
write_char c t k =
    let s = k.terminal t in
    set_terminal t (advance_cursor s)
      (record k { mem = put_cell (screen_base k t) s.y s.x c k.mem })

unfoldable pub put_char : ℕ → ℕ → Kernel → Kernel
put_char c t k = show_cursor t (scroll_after t (write_char c t (scroll_before t k)))

-- What follows each character: the mark on the last cell of the last row, and a pending scroll.
unfoldable pub mark_last : ℕ → Kernel → Kernel
mark_last t k =
    let s = k.terminal t in
    if s.y == num_rows - 1 && s.x == num_cols - 1
    then show_cursor t (set_terminal t (record s { shift_up_one_flag = 2 }) k)
    else k

unfoldable pub scroll_pending : ℕ → Kernel → Kernel
scroll_pending t k =
    if (k.terminal t).shift_up_one_flag == 1
    then (let shifted = shift_up_by_one t k in
        show_cursor t (set_terminal t (last_row_cursor (shifted.terminal t)) shifted))
    else k

unfoldable pub finish_putc : ℕ → Kernel → Kernel
finish_putc t k = scroll_pending t (mark_last t k)

unfoldable pub terminal_putc : ℕ → ℕ → Kernel → Kernel
terminal_putc c t k = finish_putc t (
    if c == 0x0A || c == 0x0D
    then put_newline t k
    else if c == backspace
    then put_backspace t k
    else put_char c t k)

-- `puts` prints on the active terminal. The list is the string, without its final zero.
unfoldable pub puts : List ℕ → Kernel → ℕ × Kernel
puts [] k = (0, k)
puts (c ∷ s) k = let (n, k') = puts s (terminal_putc c k.active_terminal k) in (add32 n 1, k')
