-- ===== src/Keyboard.antt =====
-- student-distrib/keyboard.c: the modifiers, the scan code table and the line buffer of the keyboard
-- interrupt. What `inb` reads from the two ports is an argument. The writes of the debugging variable
-- `test_flag` are left out.
pub mod Line
pub mod Typing
pub mod Shadow
use mini_os_with_friends.Base.{
  ℕ, ◌+◌, ◌-◌, ◌%◌, ◌&&◌, ◌||◌, not, Bool, true, false, Option, none, some, List, [], ◌∷◌, bit_and,
  ◌==◌, ◌!=◌, ltb, leb, if◌then◌else◌, lt_signed, add32, sub32, is_neg,
}
use mini_os_with_friends.Base.Maps.{update}
use mini_os_with_friends.State.{Keys, Terminal, Kernel}
use mini_os_with_friends.Memory.{set_terminal}
use mini_os_with_friends.Pic.{cli, sti, enable_irq, send_eoi}
use mini_os_with_friends.Screen.{clear, terminal_putc}
use mini_os_with_friends.LineBuffer.{max_buf_size}
use mini_os_with_friends.FileSystem.{Dentry}
use mini_os_with_friends.Process.{Outcome, Frame}
use mini_os_with_friends.Terminal.{open_terminal}

abbrev pub keyboard_irq : ℕ
keyboard_irq = 1

abbrev pub bksp : ℕ
bksp = 8

abbrev pub ent : ℕ
ent = 0x0A

abbrev pub total_scancodes : ℕ
total_scancodes = 62

unfoldable pub keyboard_init : Kernel → Kernel
keyboard_init k = record (enable_irq keyboard_irq k) {
  keys = record { shift = 0; control = 0; alt = 0; caps = 0; str_len = 0 };
}

-- A row of the table: without and with shift, and both again with caps lock.
abbrev pub row : ℕ → ℕ → ℕ → ℕ → List ℕ
row plain shifted locked both = plain ∷ shifted ∷ locked ∷ both ∷ []

abbrev pub keyboard_char : List (List ℕ)
keyboard_char =
    row 0 0 0 0
    ∷ row 0 0 0 0
    ∷ row b'1' b'!' b'1' b'!'
    ∷ row b'2' b'@' b'2' b'@'
    ∷ row b'3' b'#' b'3' b'#'
    ∷ row b'4' b'$' b'4' b'$'
    ∷ row b'5' b'%' b'5' b'%'
    ∷ row b'6' b'^' b'6' b'^'
    ∷ row b'7' b'&' b'7' b'&'
    ∷ row b'8' b'*' b'8' b'*'
    ∷ row b'9' b'(' b'9' b'('
    ∷ row b'0' b')' b'0' b')'
    ∷ row b'-' b'_' b'-' b'_'
    ∷ row b'=' b'+' b'=' b'+'
    ∷ row 8 8 8 8
    ∷ row b' ' b' ' b' ' b' '
    ∷ row b'q' b'Q' b'Q' b'q'
    ∷ row b'w' b'W' b'W' b'w'
    ∷ row b'e' b'E' b'E' b'e'
    ∷ row b'r' b'R' b'R' b'r'
    ∷ row b't' b'T' b'T' b't'
    ∷ row b'y' b'Y' b'Y' b'y'
    ∷ row b'u' b'U' b'U' b'u'
    ∷ row b'i' b'I' b'I' b'i'
    ∷ row b'o' b'O' b'O' b'o'
    ∷ row b'p' b'P' b'P' b'p'
    ∷ row b'[' b'{' b'[' b'{'
    ∷ row b']' b'}' b']' b'}'
    ∷ row 0x0A 0x0A 0x0A 0x0A
    ∷ row 0 0 0 0
    ∷ row b'a' b'A' b'A' b'a'
    ∷ row b's' b'S' b'S' b's'
    ∷ row b'd' b'D' b'D' b'd'
    ∷ row b'f' b'F' b'F' b'f'
    ∷ row b'g' b'G' b'G' b'g'
    ∷ row b'h' b'H' b'H' b'h'
    ∷ row b'j' b'J' b'J' b'j'
    ∷ row b'k' b'K' b'K' b'k'
    ∷ row b'l' b'L' b'L' b'l'
    ∷ row b';' b':' b';' b':'
    ∷ row 39 b'"' 39 b'"'
    ∷ row b'`' b'~' b'`' b'~'
    ∷ row 0 0 0 0
    ∷ row 92 b'|' 92 b'|'
    ∷ row b'z' b'Z' b'Z' b'z'
    ∷ row b'x' b'X' b'X' b'x'
    ∷ row b'c' b'C' b'C' b'c'
    ∷ row b'v' b'V' b'V' b'v'
    ∷ row b'b' b'B' b'B' b'b'
    ∷ row b'n' b'N' b'N' b'n'
    ∷ row b'm' b'M' b'M' b'm'
    ∷ row b',' b'<' b',' b'<'
    ∷ row b'.' b'>' b'.' b'>'
    ∷ row b'/' b'?' b'/' b'?'
    ∷ row 0 0 0 0
    ∷ row 0 0 0 0
    ∷ row 0 0 0 0
    ∷ row b' ' b' ' b' ' b' '
    ∷ row 0 0 0 0
    ∷ row 0 0 0 0
    ∷ row 0 0 0 0
    ∷ row 0 0 0 0
    ∷ []

-- `table[i]`, and what stands behind its end.
abbrev pub row_at : List (List ℕ) → ℕ → List ℕ → List ℕ
row_at [] i past = past
row_at (r ∷ rs) i past = if i == 0 then r else row_at rs (i - 1) past

abbrev pub column_at : List ℕ → ℕ → ℕ
column_at [] i = 0
column_at (c ∷ cs) i = if i == 0 then c else column_at cs (i - 1)

-- `keyboard_char[command][index]`. The release of a modifier reads behind the table: `behind` holds the
-- bytes that the linker puts there.
unfoldable pub lookup_char : (behind : ℕ → List ℕ) → ℕ → ℕ → ℕ
lookup_char behind command index = column_at (row_at keyboard_char command (behind command)) index

-- The chain of tests on the scan code: the new state of the modifiers, or `none` for the early return.
unfoldable pub modifiers : ℕ → Keys → Option Keys
modifiers command m =
    if command == 0x2A + 0x80 || command == 0x36 + 0x80
    then some (record m { shift = 0 })
    else if command == 0x38 + 0x80
    then some (record m { alt = 0 })
    else if command == 0x1D + 0x80
    then some (record m { control = 0 })
    else if command == 0x1D
    then some (record m { control = 1 })
    else if leb total_scancodes command || ltb command 1
    then none
    else if command == 0x3A
    then some (record m { caps = (if m.caps == 0 then 1 else 0) })
    else if command == 0x2A || command == 0x36
    then some (record m { shift = 1 })
    else if command == 0x38
    then some (record m { alt = 1 })
    else some m

unfoldable pub shadow_index : Keys → ℕ
shadow_index m =
    if m.shift == 0 && m.caps == 0
    then 0
    else if m.shift != 0 && m.caps == 0
    then 1
    else if m.shift == 0 && m.caps != 0
    then 2
    else 3

-- `terminal[displayed_terminal]` and `str_len` become `t` and `n`, and the character is printed.
abbrev pub store_line : Terminal → ℕ → ℕ → Kernel → Kernel
store_line t n cmd k =
    terminal_putc cmd k.displayed_terminal
      (set_terminal k.displayed_terminal t (record k { keys = record k.keys { str_len = n } }))

unfoldable pub put_key : ℕ → Kernel → Kernel
put_key cmd k =
    let n = k.keys.str_len in
    let t = k.terminal k.displayed_terminal in
    store_line (record t { tempbuf = update t.tempbuf n cmd; length = add32 n 1 }) (add32 n 1) cmd k

unfoldable pub put_enter : Kernel → Kernel
put_enter k =
    let n = k.keys.str_len in
    let t = k.terminal k.displayed_terminal in
    store_line
      (record t {
        tempbuf = update t.tempbuf n ent;
        length = 0;
        read_length = add32 n 1;
        enter_flag = 1;
      })
      (add32 n 1) ent k

unfoldable pub delete_key : Kernel → Kernel
delete_key k =
    let n = k.keys.str_len - 1 in
    let t = k.terminal k.displayed_terminal in
    store_line (record t { tempbuf = update t.tempbuf n 0; length = n }) n bksp k

-- The character of a key goes to the line, up to 127 of them; the last branches change nothing.
unfoldable pub edit_line : ℕ → Kernel → Kernel
edit_line cmd k =
    if cmd != 0 && cmd != ent && lt_signed k.keys.str_len (max_buf_size - 1) && cmd != bksp
    then put_key cmd k
    else if cmd == ent
    then put_enter k
    else if cmd == bksp
    then (if lt_signed 0 k.keys.str_len then delete_key k else k)
    else k

-- An alt key: where the switch comes back, interrupts are on.
unfoldable pub after_switch : Option (Outcome × Kernel) → Option (Outcome × Kernel)
after_switch none = none
after_switch (some (Outcome.returned v, k)) = some (Outcome.returned 0, sti k)
after_switch (some (Outcome.entered p s, k)) = some (Outcome.entered p s, k)
after_switch (some (Outcome.resumed v esp ebp, k)) = some (Outcome.resumed v esp ebp, k)

unfoldable pub switch_to : Frame → Dentry → ℕ → Kernel → Option (Outcome × Kernel)
switch_to frame stale id k = after_switch (open_terminal frame stale id (send_eoi keyboard_irq k))

-- `print_keycode` after the modifiers: ctrl-L, the switch of terminals, or a character.
unfoldable pub key_pressed :
    Frame → Dentry → (behind : ℕ → List ℕ) → ℕ → Kernel → Option (Outcome × Kernel)
key_pressed frame stale behind command k =
    if k.keys.control != 0 && command == 0x26
    then some (Outcome.returned 0, sti (send_eoi keyboard_irq (clear k)))
    else if k.keys.alt != 0 && command == 0x3B
    then switch_to frame stale 0 k
    else if k.keys.alt != 0 && command == 0x3C
    then switch_to frame stale 1 k
    else if k.keys.alt != 0 && command == 0x3D
    then switch_to frame stale 2 k
    else some (
      Outcome.returned 0,
      sti (send_eoi keyboard_irq (edit_line (lookup_char behind command (shadow_index k.keys)) k)),
    )

-- The interrupt, with the status byte and the scan code that the controller gives.
unfoldable pub print_keycode :
    Frame
    → Dentry
    → (behind : ℕ → List ℕ) → (status command : ℕ) → Kernel
    → Option (Outcome × Kernel)
print_keycode frame stale behind status command k =
    let k1 = record (cli k) {
      keys = record k.keys { str_len = (k.terminal k.displayed_terminal).length };
    } in
    if bit_and status 1 == 0
    then some (Outcome.returned 0, k1)
    else elim (modifiers command k1.keys) [
      | none ↦ some (Outcome.returned 0, sti (send_eoi keyboard_irq k1))
      | some m ↦ key_pressed frame stale behind command (record k1 { keys = m })
    ]
