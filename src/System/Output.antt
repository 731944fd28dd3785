-- ===== src/System/Output.antt =====
-- Output and typing keep the screens and the lines sound.
use mini_os_with_friends.Base.{
  ℕ, ◌-◌, ◌≤◌, ◌<◌, ◌≡◌, refl, ap, arith, ◌==◌, ◌!=◌, ◌&&◌, if◌then◌else◌, Bool, true, false,
  Bool-cases, inl, inr, List, [], ◌∷◌, ◌||◌, add32, is_neg, lt_signed,
}
use mini_os_with_friends.Base.Loops.{for_range, for_range_inv}
use mini_os_with_friends.State.{Terminal, Kernel}
use mini_os_with_friends.Memory.{active, read_byte}
use mini_os_with_friends.Screen.{terminal_putc, puts, clear, update_cursor, update_screen_xy}
use mini_os_with_friends.Screen.Cursor.{terminal_putc-InScreen, InScreen}
use mini_os_with_friends.Screen.Display.{terminal_putc-who}
use mini_os_with_friends.Keyboard.{store_line, edit_line, put_key, put_enter, delete_key, bksp, ent}
use mini_os_with_friends.Keyboard.Line.{terminal_putc-SameLine}
use mini_os_with_friends.Terminal.{terminal_write, output_terminal}
use mini_os_with_friends.System.Text.{
  IsSound, IsSoundText, IsSound-Agree, Agree, set_terminal-IsSound, set_terminal-Agree,
}

pub terminal_putc-IsSound : (c t : ℕ) (k : Kernel) → IsSound k → IsSound (terminal_putc c t k)
terminal_putc-IsSound c t k v =
    let who = terminal_putc-who c t k in
    record {
      texts = λ i.
          let same = terminal_putc-SameLine c t i k in
          record {
            cursor = terminal_putc-InScreen c t i k (λ j. (v.texts j).cursor);
            line_fits = rw same.same_length (v.texts i).line_fits;
            read_fits = rw same.same_read_length (v.texts i).read_fits;
          };
      active_is = rw (ap (λ w. w.1) who) v.active_is;
      displayed_is = rw (ap (λ w. w.0) who) v.displayed_is;
    }

pub puts-IsSound : (s : List ℕ) (k : Kernel) → IsSound k → IsSound (puts s k).1
unfolding puts
puts-IsSound [] k v = v
puts-IsSound (c ∷ s) k v =
    puts-IsSound s (terminal_putc c k.active_terminal k)
      (terminal_putc-IsSound c k.active_terminal k v)

pub terminal_write-IsSound :
    (fd buf nbytes : ℕ) (k : Kernel) → IsSound k → IsSound (terminal_write fd buf nbytes k).1
unfolding terminal_write
terminal_write-IsSound fd buf nbytes k v =
    elim (Bool-cases (buf == 0 || nbytes == 0 || is_neg nbytes)) [
      | inl refused ↦ rw refused v
      | inr fine ↦
          let out = output_terminal k in
          let w =
            for_range_inv (λ i (k1 : Kernel). IsSound k1)
              (λ i (k1 : Kernel). terminal_putc (read_byte k1 (add32 buf i)) out k1) nbytes 0 nbytes
              (omega arith)
              (λ i k1 lt w. terminal_putc-IsSound (read_byte k1 (add32 buf i)) out k1 w) k v in
          let k1 =
            for_range nbytes 0
              (λ i (k1 : Kernel). terminal_putc (read_byte k1 (add32 buf i)) out k1) k in
          let t = (w.texts k1.active_terminal) in
          rw fine (
            set_terminal-IsSound k1.active_terminal (record (active k1) { length = 0 }) k1
              (record {
                cursor = moved (active k1) t.cursor;
                line_fits = omega arith;
                read_fits = t.read_fits;
              })
              w)
    ]
  where
    moved : (s : Terminal) → InScreen s → InScreen (record s { length = 0 })
    moved s v = record {
      column = v.column;
      row = v.row;
      no_scroll_pending = v.no_scroll_pending;
      last_marked = v.last_marked;
    }

update_cursor-IsSound : (k : Kernel) → IsSound k → IsSound (update_cursor k)
unfolding update_cursor
update_cursor-IsSound k v = IsSound-Agree k (update_cursor k) (λ i. refl) v

pub clear-IsSound : (k : Kernel) → IsSound k → IsSound (clear k)
unfolding clear
clear-IsSound k v =
    let t = v.texts k.displayed_terminal in
    update_cursor-IsSound _ (
      set_terminal-IsSound k.displayed_terminal _ _
        (record {
          cursor = record {
            column = omega arith;
            row = omega arith;
            no_scroll_pending = t.cursor.no_scroll_pending;
            last_marked = inl (omega arith);
          };
          line_fits = t.line_fits;
          read_fits = t.read_fits;
        })
        (record { texts = v.texts; active_is = v.active_is; displayed_is = v.displayed_is }))

-- Moving the cursor to where the terminal has it.
pub update_screen_xy-Agree :
    (k : Kernel) → let t = k.terminal k.displayed_terminal in Agree k (update_screen_xy t.x t.y k)
unfolding update_screen_xy update_cursor
update_screen_xy-Agree k = set_terminal-Agree k.displayed_terminal _ k refl

store_line-IsSound :
    (t : Terminal) (n c : ℕ) (k : Kernel) → IsSoundText t → IsSound k → IsSound (store_line t n c k)
store_line-IsSound t n c k w v = terminal_putc-IsSound c k.displayed_terminal _ (
    set_terminal-IsSound k.displayed_terminal t (record k { keys = record k.keys { str_len = n } })
      w (record { texts = v.texts; active_is = v.active_is; displayed_is = v.displayed_is }))

-- A line of another length.
with_line :
    (t : Terminal) (tempbuf : ℕ → ℕ) (length read_length enter_flag : ℕ)
    → length ≤ 127
    → read_length ≤ 128
    → IsSoundText t
    → IsSoundText (record t {
      tempbuf = tempbuf;
      length = length;
      read_length = read_length;
      enter_flag = enter_flag;
    })
with_line t tempbuf length read_length enter_flag short short_read v = record {
  cursor = record {
    column = v.cursor.column;
    row = v.cursor.row;
    no_scroll_pending = v.cursor.no_scroll_pending;
    last_marked = v.cursor.last_marked;
  };
  line_fits = short;
  read_fits = short_read;
}

module _ (c : ℕ) (k : Kernel) (few : k.keys.str_len ≤ 127) (v : IsSound k) where
  shown_text : IsSoundText (k.terminal k.displayed_terminal)
  shown_text = v.texts k.displayed_terminal

  put_key-IsSound : k.keys.str_len < 127 → IsSound (put_key c k)
  unfolding put_key
  put_key-IsSound lt =
      store_line-IsSound _ _ c k
        (with_line (k.terminal k.displayed_terminal) _ _ _ _ (omega arith) shown_text.read_fits
          shown_text)
        v

  put_enter-IsSound : IsSound (put_enter k)
  unfolding put_enter
  put_enter-IsSound =
      store_line-IsSound _ _ ent k
        (with_line (k.terminal k.displayed_terminal) _ _ _ _ (omega arith) (omega arith) shown_text)
        v

  delete_key-IsSound : IsSound (delete_key k)
  unfolding delete_key
  delete_key-IsSound =
      store_line-IsSound _ _ bksp k
        (with_line (k.terminal k.displayed_terminal) _ _ _ _ (omega arith) shown_text.read_fits
          shown_text)
        v

IsSound-if :
    (b : Bool) (k k' : Kernel) → (b ≡ true → IsSound k) → IsSound k' → IsSound (if b then k else k')
IsSound-if true k k' p q = p refl
IsSound-if false k k' p q = q

-- A key, with the line's length at most 127.
pub edit_line-IsSound :
    (c : ℕ) (k : Kernel) → k.keys.str_len ≤ 127 → IsSound k → IsSound (edit_line c k)
unfolding edit_line
edit_line-IsSound c k few v =
    let stored = c != 0 && c != ent && lt_signed k.keys.str_len (128 - 1) && c != bksp in
    let below : stored ≡ true → k.keys.str_len < 127 = λ e. ground arith in
    IsSound-if stored _ _ (λ e. put_key-IsSound c k few v (below e))
      (IsSound-if (c == ent) _ _ (λ e. put_enter-IsSound c k few v)
        (IsSound-if (c == bksp) (if lt_signed 0 k.keys.str_len then delete_key k else k) _
          (λ e. IsSound-if (lt_signed 0 k.keys.str_len) _ _ (λ e'. delete_key-IsSound c k few v) v)
          v))
