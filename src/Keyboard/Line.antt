-- ===== src/Keyboard/Line.antt =====
-- The line that the keyboard interrupt edits: what it holds, and that it stays in its buffer.
use mini_os_with_friends.Base.{
  ap, subst, ◌-◌, Bool, true, false, ◌&&◌, ◌!=◌, add32, lt_signed, ℕ, ◌≡◌, refl, sym, ◌≢◌, arith,
  ◌==◌, if◌then◌else◌,
}
use mini_os_with_friends.State.{Keys, Terminal, Kernel}
use mini_os_with_friends.Base.Maps.{update, update_self, update_ne}
use native.Mathlib.Decide.{ℕ_discrete}
use mini_os_with_friends.Memory.{set_terminal}
use mini_os_with_friends.Screen.{
  terminal_putc, newline_cursor, backspace_cursor, advance_cursor, last_row_cursor,
}
use mini_os_with_friends.Screen.Display.{terminal_putc-who}
use mini_os_with_friends.Screen.Cursor.{putc_cursor, terminal_putc-Moves}
use mini_os_with_friends.Keyboard.{edit_line, put_key, put_enter, delete_key, bksp, ent}

-- The parts of a terminal that a character on its screen does not touch.
pub record SameLine (s s' : Terminal) : Type 0 where
  pub same_tempbuf : (i : ℕ) → s'.tempbuf i ≡ s.tempbuf i
  pub same_length : s'.length ≡ s.length
  pub same_read_length : s'.read_length ≡ s.read_length
  pub same_enter_flag : s'.enter_flag ≡ s.enter_flag

putc_cursor-SameLine : (c : ℕ) (s : Terminal) → SameLine s (putc_cursor c s)
unfolding putc_cursor newline_cursor backspace_cursor advance_cursor last_row_cursor
putc_cursor-SameLine c s = record {
  same_tempbuf = λ i. ground arith;
  same_length = ground arith;
  same_read_length = ground arith;
  same_enter_flag = ground arith;
}

pub terminal_putc-SameLine :
    (c t i : ℕ) (k : Kernel) → SameLine (k.terminal i) ((terminal_putc c t k).terminal i)
terminal_putc-SameLine c t i k = rw (terminal_putc-Moves c t k i) (elim (ℕ_discrete t i) [
  | yes e ↦
      rw (e, update_self k.terminal i (putc_cursor c (k.terminal i)))
        (putc_cursor-SameLine c (k.terminal i))
  | no e ↦ rw (update_ne k.terminal t i (putc_cursor c (k.terminal t)) e) (record {
    same_tempbuf = λ j. refl;
    same_length = refl;
    same_read_length = refl;
    same_enter_flag = refl;
  })
])

-- The terminal `i` of `k'` is that of `k` but for its line, which is that of `t` for the displayed one.
pub record Edited (t : Terminal) (k k' : Kernel) : Type 0 where
  pub line : SameLine t (k'.terminal k.displayed_terminal)
  pub others : (i : ℕ) → i ≢ k.displayed_terminal → SameLine (k.terminal i) (k'.terminal i)
  pub display : k'.displayed_terminal ≡ k.displayed_terminal

-- The character that `store_line` prints leaves the line as it is stored.
printed :
    (t : Terminal) (c : ℕ) (k : Kernel)
    → (keys : Keys)
    → Edited t k (
        terminal_putc c k.displayed_terminal
          (set_terminal k.displayed_terminal t (record k { keys = keys })))
printed t c k keys =
    let d = k.displayed_terminal in
    let k1 = set_terminal d t (record k { keys = keys }) in
    record {
      line =
          subst (λ s. SameLine s ((terminal_putc c d k1).terminal d)) (update_self k.terminal d t)
            (terminal_putc-SameLine c d d k1);
      others = λ i ne.
          subst (λ s. SameLine s ((terminal_putc c d k1).terminal i))
            (update_ne k.terminal d i t (λ e. ne (sym e))) (terminal_putc-SameLine c d i k1);
      display = ap (λ w. w.0) (terminal_putc-who c d k1);
    }

-- A key that gives the character `cmd`, with the length that the interrupt reads first.
abbrev pub press : ℕ → Kernel → Kernel
press cmd k =
    edit_line cmd
      (record k { keys = record k.keys { str_len = (k.terminal k.displayed_terminal).length } })

abbrev pub shown : Kernel → Terminal
shown k = k.terminal k.displayed_terminal

-- What a key makes of the line of the displayed terminal.
abbrev pub edited_line : ℕ → Terminal → Terminal
edited_line cmd t =
    if cmd != 0 && cmd != ent && lt_signed t.length 127 && cmd != bksp
    then record t { tempbuf = update t.tempbuf t.length cmd; length = add32 t.length 1 }
    else if cmd == ent
    then record t {
      tempbuf = update t.tempbuf t.length ent;
      length = 0;
      read_length = add32 t.length 1;
      enter_flag = 1;
    }
    else if cmd == bksp
    then (if lt_signed 0 t.length
        then record t { tempbuf = update t.tempbuf (t.length - 1) 0; length = t.length - 1 }
        else t)
    else t

unchanged : (k : Kernel) (keys : Keys) → Edited (shown k) k (record k { keys = keys })
unchanged k keys = record {
  line = record {
    same_tempbuf = λ i. refl;
    same_length = refl;
    same_read_length = refl;
    same_enter_flag = refl;
  };
  others = λ i ne. record {
    same_tempbuf = λ j. refl;
    same_length = refl;
    same_read_length = refl;
    same_enter_flag = refl;
  };
  display = refl;
}

Edited-if :
    (b : Bool) (k k' k'' : Kernel) (t t' : Terminal)
    → Edited t k k'
    → Edited t' k k''
    → Edited (if b then t else t') k (if b then k' else k'')
Edited-if true k k' k'' t t' p q = p
Edited-if false k k' k'' t t' p q = q

-- A key changes the line of the displayed terminal as `edited_line` says, and no other line.
pub press-Edited : (cmd : ℕ) (k : Kernel) → Edited (edited_line cmd (shown k)) k (press cmd k)
unfolding edit_line put_key put_enter delete_key
press-Edited cmd k =
    let k1 = record k { keys = record k.keys { str_len = (shown k).length } } in
    Edited-if (cmd != 0 && cmd != ent && lt_signed (shown k).length 127 && cmd != bksp) k _ _ _ _
      (printed _ cmd k _)
      (Edited-if (cmd == ent) k _ _ _ _ (printed _ ent k _) (
        Edited-if (cmd == bksp) k _ _ _ _
          (Edited-if (lt_signed 0 (shown k).length) k _ k1 _ _ (printed _ bksp k _)
            (unchanged k k1.keys))
          (unchanged k k1.keys)))
