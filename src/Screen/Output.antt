-- ===== src/Screen/Output.antt =====
-- What `terminal_putc` writes to memory: its own screen alone, and there the character.
use mini_os_with_friends.Base.{
  ℕ, ◌+◌, ◌*◌, ◌<◌, ◌≡◌, refl, ◌∙◌, Bool, true, false, ◌≢◌, inl, inr, ◌||◌, arith, ◌==◌,
  if◌then◌else◌,
}
use native.Mathlib.Decide.{dec_lt}
use mini_os_with_friends.Base.Maps.{update_self}
use mini_os_with_friends.Memory.{set_terminal}
use mini_os_with_friends.State.{Terminal, Kernel}
use mini_os_with_friends.Screen.{
  show_cursor, newline_cursor, backspace_cursor, advance_cursor, last_row_cursor, put_newline,
  put_backspace, put_char, scroll_before, scroll_after, write_char, mark_last, scroll_pending,
  finish_putc, terminal_putc, shift_up_by_one, screen_base, put_cell, blank,
}
use mini_os_with_friends.Screen.Scroll.{Off, shift_up_by_one_lem}
use mini_os_with_friends.Screen.Cursor.{
  InScreen, scrolled_at, unpended, terminal_putc-cursor, mark_last-Moves, put_char-Moves,
  putc_cursor, body_putc, show_cursor-terminal,
}

-- From `k` to `k'` byte `a` did not change, and neither did the displayed terminal.
pub record Keeps (a : ℕ) (k k' : Kernel) : Type 0 where
  pub same_byte : k'.mem a ≡ k.mem a
  pub same_display : k'.displayed_terminal ≡ k.displayed_terminal

Keeps-trans : (a : ℕ) (k k' k'' : Kernel) → Keeps a k k' → Keeps a k' k'' → Keeps a k k''
Keeps-trans a k k' k'' p q = record {
  same_byte = q.same_byte ∙ p.same_byte;
  same_display = q.same_display ∙ p.same_display;
}

Keeps-if :
    (a : ℕ) (k k' k'' : Kernel) (b : Bool)
    → Keeps a k k'
    → Keeps a k k''
    → Keeps a k (if b then k' else k'')
Keeps-if a k k' k'' true p q = p
Keeps-if a k k' k'' false p q = q

Keeps-refl : (a : ℕ) (k : Kernel) → Keeps a k k
Keeps-refl a k = record { same_byte = refl; same_display = refl }

show_cursor-Keeps : (a t : ℕ) (k : Kernel) → Keeps a k (show_cursor t k)
unfolding show_cursor
show_cursor-Keeps a t k =
    Keeps-if a k _ k (t == k.displayed_terminal) (record { same_byte = refl; same_display = refl })
      (Keeps-refl a k)

show_cursor-mem : (a t : ℕ) (k : Kernel) → (show_cursor t k).mem a ≡ k.mem a
show_cursor-mem a t k = (show_cursor-Keeps a t k).same_byte

-- A byte off the screen stays off it while the same terminal is displayed.
Off-keeps :
    (a t : ℕ) (k k' : Kernel)
    → k'.displayed_terminal ≡ k.displayed_terminal
    → Off (screen_base k t) a
    → Off (screen_base k' t) a
unfolding screen_base
Off-keeps a t k k' e off = rw e off

shift_up_by_one-Keeps :
    (a t : ℕ) (k : Kernel) → Off (screen_base k t) a → Keeps a k (shift_up_by_one t k)
shift_up_by_one-Keeps a t k off = record {
  same_byte = (shift_up_by_one_lem t 0 0 0 a k (omega arith) (omega arith) (omega arith) off).1;
  same_display = unfold shift_up_by_one in refl;
}

set_cursor-Keeps :
    (a t : ℕ) (f : Terminal → Terminal) (k : Kernel)
    → Off (screen_base k t) a
    → Keeps a k (set_terminal t (f ((shift_up_by_one t k).terminal t)) (shift_up_by_one t k))
set_cursor-Keeps a t f k off =
    Keeps-trans a k (shift_up_by_one t k) _ (shift_up_by_one-Keeps a t k off)
      (record { same_byte = refl; same_display = refl })

put_cell-Off :
    (base j i c : ℕ) (mem : ℕ → ℕ) (a : ℕ)
    → j < 25
    → i < 80
    → Off base a
    → put_cell base j i c mem a ≡ mem a
put_cell-Off base j i c mem a hj hi off = ground arith

backspace_cursor-bounds :
    (s : Terminal) → InScreen s → ((backspace_cursor s).y < 25) × ((backspace_cursor s).x < 80)
unfolding backspace_cursor
backspace_cursor-bounds s v = ground arith

-- Each part of `terminal_putc` keeps the bytes off the screen.
module _ (a t : ℕ) (k : Kernel) (off : Off (screen_base k t) a) where
  put_newline-Keeps : Keeps a k (put_newline t k)
  unfolding put_newline
  put_newline-Keeps =
      Keeps-trans a k (set_terminal t (newline_cursor (k.terminal t)) k) _
        (record { same_byte = refl; same_display = refl }) (show_cursor-Keeps a t _)

  scroll_before-Keeps : Keeps a k (scroll_before t k)
  unfolding scroll_before
  scroll_before-Keeps =
      Keeps-if a k _ k _ (set_cursor-Keeps a t (λ s. record s { shift_up_one_flag = 0 }) k off)
        (Keeps-refl a k)

  scroll_after-Keeps : Keeps a k (scroll_after t k)
  unfolding scroll_after
  scroll_after-Keeps =
      Keeps-if a k _ k _ (set_cursor-Keeps a t last_row_cursor k off) (Keeps-refl a k)

  mark_last-Keeps : Keeps a k (mark_last t k)
  unfolding mark_last
  mark_last-Keeps =
      Keeps-if a k _ k _
        (Keeps-trans a k (set_terminal t (record (k.terminal t) { shift_up_one_flag = 2 }) k) _
          (record { same_byte = refl; same_display = refl }) (show_cursor-Keeps a t _))
        (Keeps-refl a k)

  scroll_pending-Keeps : Keeps a k (scroll_pending t k)
  unfolding scroll_pending
  scroll_pending-Keeps =
      Keeps-if a k _ k _
        (Keeps-trans a k _ _ (set_cursor-Keeps a t last_row_cursor k off) (show_cursor-Keeps a t _))
        (Keeps-refl a k)

  put_backspace-Keeps : InScreen (k.terminal t) → Keeps a k (put_backspace t k)
  unfolding put_backspace
  put_backspace-Keeps v = record {
    same_byte =
        put_cell-Off (screen_base k t) _ _ blank (show_cursor t moved).mem a
          (rw cursor (backspace_cursor-bounds _ v).0) (rw cursor (backspace_cursor-bounds _ v).1)
          off
        ∙ (show_cursor-Keeps a t moved).same_byte;
    same_display = (show_cursor-Keeps a t moved).same_display;
  }
    where
      moved : Kernel
      moved = set_terminal t (backspace_cursor (k.terminal t)) k

      cursor : (show_cursor t moved).terminal t ≡ backspace_cursor (k.terminal t)
      cursor =
          show_cursor-terminal t t moved
          ∙ update_self k.terminal t (backspace_cursor (k.terminal t))

  write_char-Keeps : (c : ℕ) → InScreen (k.terminal t) → Keeps a k (write_char c t k)
  unfolding write_char
  write_char-Keeps c v = record {
    same_byte = put_cell-Off _ _ _ c k.mem a v.row v.column off;
    same_display = refl;
  }

scroll_before-InScreen :
    (t : ℕ) (k : Kernel) → InScreen (k.terminal t) → InScreen ((scroll_before t k).terminal t)
unfolding scroll_before
scroll_before-InScreen t k v = rw unpended_lem v
  where
    unpended_lem : (scroll_before t k).terminal t ≡ k.terminal t
    unpended_lem = ground (arith, v.no_scroll_pending)

finish_putc-Keeps : (a t : ℕ) (k : Kernel) → Off (screen_base k t) a → Keeps a k (finish_putc t k)
unfolding finish_putc
finish_putc-Keeps a t k off =
    let first = mark_last-Keeps a t k off in
    Keeps-trans a k (mark_last t k) _ first
      (scroll_pending-Keeps a t (mark_last t k) (Off-keeps a t k _ first.same_display off))

put_char-Keeps :
    (c a t : ℕ) (k : Kernel)
    → InScreen (k.terminal t)
    → Off (screen_base k t) a
    → Keeps a k (put_char c t k)
unfolding put_char
put_char-Keeps c a t k v off =
    let k1 = scroll_before t k in
    let before = scroll_before-Keeps a t k off in
    let k2 = write_char c t k1 in
    let written = Keeps-trans a k k1 k2 before (
      write_char-Keeps a t k1 (Off-keeps a t k k1 before.same_display off) c
        (scroll_before-InScreen t k v)) in
    let k3 = scroll_after t k2 in
    let after =
      Keeps-trans a k k2 k3 written
        (scroll_after-Keeps a t k2 (Off-keeps a t k k2 written.same_display off)) in
    Keeps-trans a k k3 _ after (show_cursor-Keeps a t k3)

-- A character on terminal `t`, whose cursor is on the screen, changes no byte of memory but those of
-- that terminal's own screen, and it does not change which terminal is displayed.
pub terminal_putc-Keeps :
    (c a t : ℕ) (k : Kernel)
    → InScreen (k.terminal t)
    → Off (screen_base k t) a
    → Keeps a k (terminal_putc c t k)
unfolding terminal_putc
terminal_putc-Keeps c a t k v off =
    let body =
      Keeps-if a k (put_newline t k) (if c == 8 then put_backspace t k else put_char c t k)
        (c == 0x0A || c == 0x0D) (put_newline-Keeps a t k off)
        (Keeps-if a k _ _ (c == 8) (put_backspace-Keeps a t k off v)
          (put_char-Keeps c a t k v off)) in
    Keeps-trans a k (body_putc c t k) _ body
      (finish_putc-Keeps a t (body_putc c t k) (Off-keeps a t k _ body.same_display off))

-- The screens of two terminals do not overlap, whichever is displayed.
pub screens_disjoint :
    (t u o : ℕ) (k : Kernel) → t ≢ u → o < 4000 → Off (screen_base k t) (screen_base k u + o)
unfolding screen_base
screens_disjoint t u o k h ho = elim (dec_lt (screen_base k u + o) (screen_base k t)) [
  | yes below ↦ inl below
  | no above ↦ inr (ground arith)
]

scroll_before_none :
    (t : ℕ) (k : Kernel) → (k.terminal t).shift_up_one_flag ≢ 1 → scroll_before t k ≡ k
unfolding scroll_before
scroll_before_none t k h = ground arith

scroll_after_none :
    (t : ℕ) (k : Kernel) → (k.terminal t).shift_up_one_flag ≢ 2 → scroll_after t k ≡ k
unfolding scroll_after
scroll_after_none t k h = ground arith

scroll_pending_none :
    (t : ℕ) (k : Kernel) → (k.terminal t).shift_up_one_flag ≢ 1 → scroll_pending t k ≡ k
unfolding scroll_pending
scroll_pending_none t k h = ground arith

-- Without a scroll the bytes after `put_char` and after `finish_putc` are those of the one write.
put_char-mem :
    (c t a : ℕ) (k : Kernel)
    → (k.terminal t).shift_up_one_flag ≡ 0
    → (put_char c t k).mem a ≡ (write_char c t k).mem a
unfolding put_char
put_char-mem c t a k f =
    rw (scroll_before_none t k (ground arith), scroll_after_none t (write_char c t k) flag)
      (show_cursor-mem a t (write_char c t k))
  where
    flag : ((write_char c t k).terminal t).shift_up_one_flag ≢ 2
    flag = unfold write_char advance_cursor in ground arith

mark_last-mem : (t a : ℕ) (k : Kernel) → (mark_last t k).mem a ≡ k.mem a
unfolding mark_last
mark_last-mem t a k = ground (
  arith,
  show_cursor-mem a t (set_terminal t (record (k.terminal t) { shift_up_one_flag = 2 }) k),
)

finish_putc-mem :
    (t a : ℕ) (k : Kernel)
    → (k.terminal t).shift_up_one_flag ≢ 1
    → (finish_putc t k).mem a ≡ k.mem a
unfolding finish_putc
finish_putc-mem t a k f = rw (scroll_pending_none t (mark_last t k) flag) (mark_last-mem t a k)
  where
    flag : ((mark_last t k).terminal t).shift_up_one_flag ≢ 1
    flag = rw (mark_last-Moves t k t) (ground arith)

next_cell :
    (c : ℕ) (s : Terminal)
    → c ≢ 0x0A
    → c ≢ 0x0D
    → c ≢ 8
    → InScreen s
    → s.shift_up_one_flag ≡ 0
    → 80 * (putc_cursor c s).y + (putc_cursor c s).x ≡ 80 * s.y + s.x + 1
unfolding putc_cursor advance_cursor last_row_cursor
next_cell c s h1 h2 h3 v f = ground arith

char_unpended :
    (s : Terminal)
    → s.shift_up_one_flag ≡ 0
    → (scrolled_at 2 (advance_cursor (unpended s))).shift_up_one_flag ≢ 1
unfolding advance_cursor last_row_cursor
char_unpended s f = ground arith

-- A printable character on terminal `t` with no scroll marked, the cursor before the last cell: the
-- character and the attribute stand in the cell of the cursor, every other byte of memory is as
-- before, and the cursor is on the next cell in reading order.
pub terminal_putc-prints :
    (c t a : ℕ) (k : Kernel)
    → c ≢ 0x0A
    → c ≢ 0x0D
    → c ≢ 8
    → InScreen (k.terminal t)
    → (k.terminal t).shift_up_one_flag ≡ 0
    → let s = k.terminal t in
      let k' = terminal_putc c t k in
      (k'.mem a ≡ put_cell (screen_base k t) s.y s.x c k.mem a)
      × (80 * (k'.terminal t).y + (k'.terminal t).x ≡ 80 * s.y + s.x + 1)
terminal_putc-prints c t a k h1 h2 h3 v f =
    (printed, rw (terminal_putc-cursor c t k) (next_cell c (k.terminal t) h1 h2 h3 v f))
  where
    body : body_putc c t k ≡ put_char c t k
    body = ground arith

    flag : ((put_char c t k).terminal t).shift_up_one_flag ≢ 1
    flag =
        rw
          (put_char-Moves t k c t
            ∙ update_self k.terminal t (scrolled_at 2 (advance_cursor (unpended (k.terminal t)))))
          (char_unpended (k.terminal t) f)

    printed :
        (terminal_putc c t k).mem a
        ≡ put_cell (screen_base k t) (k.terminal t).y (k.terminal t).x c k.mem a
    printed =
        unfold terminal_putc write_char in
        rw body (finish_putc-mem t a (put_char c t k) flag ∙ put_char-mem c t a k f)

marked_backspace :
    (s : Terminal)
    → s.x ≡ 79
    → s.y ≡ 24
    → s.shift_up_one_flag ≡ 2
    → ((putc_cursor 8 s).x ≡ 78)
      × ((putc_cursor 8 s).y ≡ 24)
      × ((putc_cursor 8 s).shift_up_one_flag ≡ 2)
unfolding putc_cursor backspace_cursor last_row_cursor
marked_backspace s ex ey ef = ground arith

marked_char :
    (c : ℕ) (s : Terminal)
    → c ≢ 0x0A
    → c ≢ 0x0D
    → c ≢ 8
    → (s.x ≡ 78) × (s.y ≡ 24) × (s.shift_up_one_flag ≡ 2)
    → ((putc_cursor c s).x ≡ 0) × ((putc_cursor c s).y ≡ 24)
unfolding putc_cursor advance_cursor last_row_cursor
marked_char c s h1 h2 h3 e = ground arith

-- Backspace on the last cell, then a printable character: the cursor is at the start of the last row
-- and not on the last cell again, since the mark for the scroll outlives the backspace.
pub backspace_at_end_scrolls :
    (c t : ℕ) (k : Kernel)
    → c ≢ 0x0A
    → c ≢ 0x0D
    → c ≢ 8
    → (k.terminal t).x ≡ 79
    → (k.terminal t).y ≡ 24
    → (k.terminal t).shift_up_one_flag ≡ 2
    → let k' = terminal_putc c t (terminal_putc 8 t k) in
      ((k'.terminal t).x ≡ 0) × ((k'.terminal t).y ≡ 24)
backspace_at_end_scrolls c t k h1 h2 h3 ex ey ef =
    rw (terminal_putc-cursor c t (terminal_putc 8 t k), terminal_putc-cursor 8 t k)
      (marked_char c _ h1 h2 h3 (marked_backspace (k.terminal t) ex ey ef))
