-- ===== src/Screen/Display.antt =====
-- A character on the screen leaves the terminal that is displayed, the one that is active, the processes
-- and the files.
use mini_os_with_friends.Base.{ℕ, ◌≡◌, refl, ◌∙◌, Bool, true, false, ◌||◌, ◌==◌, if◌then◌else◌}
use mini_os_with_friends.State.{Pcb, Kernel}
use mini_os_with_friends.Memory.{set_terminal}
use mini_os_with_friends.Screen.{
  scroll_before, scroll_after, write_char, mark_last, scroll_pending, show_cursor, put_newline,
  put_backspace, put_char, finish_putc, terminal_putc, shift_up_by_one, last_row_cursor,
}

-- The displayed terminal and the active one, the PCBs, the file system, the process that runs and the table
-- of process numbers.
abbrev pub Who : Type 0
Who = ℕ × ℕ × (ℕ → Pcb) × (ℕ → ℕ) × ℕ × ℕ × (ℕ → ℕ)

abbrev pub who : Kernel → Who
who k =
    (k.displayed_terminal, k.active_terminal, k.pcb, k.fs, k.inodes_count, k.curr_pid, k.pid_array)

who_if :
    (b : Bool) (d : Who) (k k' : Kernel) → who k ≡ d → who k' ≡ d → who (if b then k else k') ≡ d
who_if true d k k' p q = p
who_if false d k k' p q = q

show_cursor-who : (t : ℕ) (k : Kernel) → who (show_cursor t k) ≡ who k
unfolding show_cursor
show_cursor-who t k = who_if (t == k.displayed_terminal) (who k) _ k refl refl

shift_up_by_one-who : (t : ℕ) (k : Kernel) → who (shift_up_by_one t k) ≡ who k
unfolding shift_up_by_one
shift_up_by_one-who t k = refl

module _ (t : ℕ) (k : Kernel) where
  put_newline-who : who (put_newline t k) ≡ who k
  unfolding put_newline show_cursor
  put_newline-who = who_if _ (who k) _ _ refl refl

  put_backspace-who : who (put_backspace t k) ≡ who k
  unfolding put_backspace show_cursor
  put_backspace-who = who_if _ (who k) _ _ refl refl

  scroll_before-who : who (scroll_before t k) ≡ who k
  unfolding scroll_before shift_up_by_one
  scroll_before-who = who_if _ (who k) _ _ refl refl

  scroll_after-who : who (scroll_after t k) ≡ who k
  unfolding scroll_after shift_up_by_one
  scroll_after-who = who_if _ (who k) _ _ refl refl

  write_char-who : (c : ℕ) → who (write_char c t k) ≡ who k
  unfolding write_char
  write_char-who c = refl

  mark_last-who : who (mark_last t k) ≡ who k
  unfolding mark_last
  mark_last-who =
      who_if _ (who k) _ _
        (show_cursor-who t (set_terminal t (record (k.terminal t) { shift_up_one_flag = 2 }) k))
        refl

put_char-who : (c t : ℕ) (k : Kernel) → who (put_char c t k) ≡ who k
unfolding put_char
put_char-who c t k =
    show_cursor-who t (scroll_after t (write_char c t (scroll_before t k)))
    ∙ scroll_after-who t (write_char c t (scroll_before t k))
    ∙ write_char-who t (scroll_before t k) c
    ∙ scroll_before-who t k

scroll_pending-who : (t : ℕ) (k : Kernel) → who (scroll_pending t k) ≡ who k
unfolding scroll_pending
scroll_pending-who t k =
    who_if _ (who k) _ _
      (show_cursor-who t (
          set_terminal t (last_row_cursor ((shift_up_by_one t k).terminal t)) (shift_up_by_one t k))
        ∙ shift_up_by_one-who t k)
      refl

-- A character changes none of these.
pub terminal_putc-who : (c t : ℕ) (k : Kernel) → who (terminal_putc c t k) ≡ who k
unfolding terminal_putc finish_putc
terminal_putc-who c t k =
    let body =
      who_if (c == 0x0A || c == 0x0D) (who k) _ _ (put_newline-who t k)
        (who_if (c == 8) (who k) _ _ (put_backspace-who t k) (put_char-who c t k)) in
    scroll_pending-who t (mark_last t _) ∙ mark_last-who t _ ∙ body
