-- ===== src/Screen/Cursor.antt =====
-- The cursor stays on the screen, and a character reaches no other terminal.
use mini_os_with_friends.Base.{
  ℕ, ◌+◌, ◌*◌, ◌<◌, ◌≡◌, refl, ◌∙◌, Bool, true, false, ◌≢◌, ◌⊎◌, ◌&&◌, ◌||◌, arith, ◌==◌,
  if◌then◌else◌,
}
use native.Mathlib.Decide.{ℕ_discrete}
use mini_os_with_friends.Base.Maps.{update, update_self, update_ne}
use mini_os_with_friends.State.{Terminal, Kernel}
use mini_os_with_friends.Screen.{
  newline_cursor, backspace_cursor, advance_cursor, last_row_cursor, scroll_before, scroll_after,
  write_char, mark_last, scroll_pending, show_cursor, put_newline, put_backspace, put_char,
  finish_putc, terminal_putc, shift_up_by_one,
}

-- The cursor is on the screen, and flag 2 marks the last cell of the last row.
pub record InScreen (s : Terminal) : Type 0 where
  pub column : s.x < 80
  pub row : s.y < 25
  pub no_scroll_pending : s.shift_up_one_flag ≢ 1
  pub last_marked : (80 * s.y + s.x < 1999) ⊎ (s.shift_up_one_flag ≡ 2)

-- Showing the cursor changes ports alone.
pub show_cursor-terminal : (t i : ℕ) (k : Kernel) → (show_cursor t k).terminal i ≡ k.terminal i
unfolding show_cursor
show_cursor-terminal t i k = ground arith

shift_up_by_one-terminal : (t : ℕ) (k : Kernel) → (shift_up_by_one t k).terminal ≡ k.terminal
unfolding shift_up_by_one
shift_up_by_one-terminal t k = refl

-- The terminal that each part of `terminal_putc` leaves: first on the terminal itself.
abbrev pub marked : Terminal → Terminal
marked s = if s.y == 24 && s.x == 79 then record s { shift_up_one_flag = 2 } else s

abbrev pub scrolled_at : ℕ → Terminal → Terminal
scrolled_at f s = if s.shift_up_one_flag == f then last_row_cursor s else s

abbrev pub finished : Terminal → Terminal
finished s = scrolled_at 1 (marked s)

abbrev pub unpended : Terminal → Terminal
unpended s = if s.shift_up_one_flag == 1 then record s { shift_up_one_flag = 0 } else s

-- The cursor of terminal `t` after character `c`.
unfoldable pub putc_cursor : ℕ → Terminal → Terminal
putc_cursor c s = finished (
    if c == 0x0A || c == 0x0D
    then newline_cursor s
    else if c == 8
    then backspace_cursor s
    else scrolled_at 2 (advance_cursor (unpended s)))

-- From `k` to `k'` terminal `t` changed by `f`, and no other terminal changed.
abbrev pub Moves : ℕ → (Terminal → Terminal) → Kernel → Kernel → Type 0
Moves t f k k' = (i : ℕ) → k'.terminal i ≡ update k.terminal t (f (k.terminal t)) i

Moves-trans :
    (t : ℕ) (f g : Terminal → Terminal) (k k' k'' : Kernel)
    → Moves t f k k'
    → Moves t g k' k''
    → Moves t (λ s. g (f s)) k k''
Moves-trans t f g k k' k'' p q i = elim (ℕ_discrete t i) [
  | yes e ↦ q i ∙ ground (arith, p t)
  | no e ↦ q i ∙ ground (arith, p i)
]

module _ (t : ℕ) (k : Kernel) where
  put_newline-Moves : Moves t newline_cursor k (put_newline t k)
  unfolding put_newline
  put_newline-Moves i = show_cursor-terminal t i _

  put_backspace-Moves : Moves t backspace_cursor k (put_backspace t k)
  unfolding put_backspace
  put_backspace-Moves i = show_cursor-terminal t i _

  Moves-cases :
      (b : Bool) (f g : Terminal → Terminal) (k' k'' : Kernel)
      → Moves t f k k'
      → Moves t g k k''
      → Moves t (λ s. if b then f s else g s) k (if b then k' else k'')
  Moves-cases true f g k' k'' p q i = p i
  Moves-cases false f g k' k'' p q i = q i

  Moves-refl : Moves t (λ s. s) k k
  Moves-refl i = ground arith

  Moves-if :
      (b : Bool) (f : Terminal → Terminal) (k' : Kernel)
      → Moves t f k k'
      → Moves t (λ s. if b then f s else s) k (if b then k' else k)
  Moves-if b f k' p = Moves-cases b f (λ s. s) k' k p Moves-refl

  scroll_before-Moves : Moves t unpended k (scroll_before t k)
  unfolding scroll_before shift_up_by_one
  scroll_before-Moves =
      Moves-if ((k.terminal t).shift_up_one_flag == 1) (λ s. record s { shift_up_one_flag = 0 }) _
        (λ i. refl)

  write_char-Moves : (c : ℕ) → Moves t advance_cursor k (write_char c t k)
  unfolding write_char
  write_char-Moves c i = refl

  scroll_after-Moves : Moves t (scrolled_at 2) k (scroll_after t k)
  unfolding scroll_after shift_up_by_one
  scroll_after-Moves =
      Moves-if ((k.terminal t).shift_up_one_flag == 2) last_row_cursor _ (λ i. refl)

  pub mark_last-Moves : Moves t marked k (mark_last t k)
  unfolding mark_last
  mark_last-Moves =
      Moves-if ((k.terminal t).y == 24 && (k.terminal t).x == 79)
        (λ s. record s { shift_up_one_flag = 2 }) _ (λ i. show_cursor-terminal t i _)

  scroll_pending-Moves : Moves t (scrolled_at 1) k (scroll_pending t k)
  unfolding scroll_pending shift_up_by_one
  scroll_pending-Moves =
      Moves-if ((k.terminal t).shift_up_one_flag == 1) last_row_cursor _
        (λ i. show_cursor-terminal t i _)

module _ (t : ℕ) (k : Kernel) where
  pub put_char-Moves :
      (c : ℕ) → Moves t (λ s. scrolled_at 2 (advance_cursor (unpended s))) k (put_char c t k)
  unfolding put_char
  put_char-Moves c =
      let k1 = scroll_before t k in
      let k2 = write_char c t k1 in
      let written =
        Moves-trans t unpended advance_cursor k k1 k2 (scroll_before-Moves t k)
          (write_char-Moves t k1 c) in
      let scrolled =
        Moves-trans t (λ s. advance_cursor (unpended s)) (scrolled_at 2) k k2 (scroll_after t k2)
          written (scroll_after-Moves t k2) in
      λ i. show_cursor-terminal t i _ ∙ scrolled i

  finish_putc-Moves : Moves t finished k (finish_putc t k)
  unfolding finish_putc
  finish_putc-Moves =
      Moves-trans t marked (scrolled_at 1) k (mark_last t k) (finish_putc t k) (mark_last-Moves t k)
        (scroll_pending-Moves t (mark_last t k))

abbrev pub body_cursor : ℕ → Terminal → Terminal
body_cursor c s =
    if c == 0x0A || c == 0x0D
    then newline_cursor s
    else if c == 8
    then backspace_cursor s
    else scrolled_at 2 (advance_cursor (unpended s))

abbrev pub body_putc : ℕ → ℕ → Kernel → Kernel
body_putc c t k =
    if c == 0x0A || c == 0x0D
    then put_newline t k
    else if c == 8
    then put_backspace t k
    else put_char c t k

pub body_putc-Moves : (c t : ℕ) (k : Kernel) → Moves t (body_cursor c) k (body_putc c t k)
body_putc-Moves c t k =
    Moves-cases t k (c == 0x0A || c == 0x0D) newline_cursor
      (λ s. if c == 8 then backspace_cursor s else scrolled_at 2 (advance_cursor (unpended s)))
      (put_newline t k) (if c == 8 then put_backspace t k else put_char c t k)
      (put_newline-Moves t k)
      (Moves-cases t k (c == 8) backspace_cursor (λ s. scrolled_at 2 (advance_cursor (unpended s)))
        (put_backspace t k) (put_char c t k) (put_backspace-Moves t k) (put_char-Moves t k c))

-- A character moves the cursor of its terminal as `putc_cursor` says, and changes nothing in the
-- struct of another terminal.
pub terminal_putc-Moves : (c t : ℕ) (k : Kernel) → Moves t (putc_cursor c) k (terminal_putc c t k)
unfolding terminal_putc putc_cursor
terminal_putc-Moves c t k =
    Moves-trans t (body_cursor c) finished k (body_putc c t k) (terminal_putc c t k)
      (body_putc-Moves c t k) (finish_putc-Moves t (body_putc c t k))

pub terminal_putc-cursor :
    (c t : ℕ) (k : Kernel) → (terminal_putc c t k).terminal t ≡ putc_cursor c (k.terminal t)
terminal_putc-cursor c t k =
    terminal_putc-Moves c t k t ∙ update_self k.terminal t (putc_cursor c (k.terminal t))

putc_cursor-InScreen : (c : ℕ) (s : Terminal) → InScreen s → InScreen (putc_cursor c s)
unfolding putc_cursor newline_cursor backspace_cursor advance_cursor last_row_cursor
putc_cursor-InScreen c s v = ground arith

-- Every terminal's cursor stays on the screen, whatever character is put on whichever terminal: the
-- coordinates stay below 80 and 25, no scroll stays pending, and the last cell stays marked.
pub terminal_putc-InScreen :
    (c t i : ℕ) (k : Kernel)
    → ((j : ℕ) → InScreen (k.terminal j))
    → InScreen ((terminal_putc c t k).terminal i)
terminal_putc-InScreen c t i k v = rw (terminal_putc-Moves c t k i) (moved i)
  where
    moved : (i : ℕ) → InScreen (update k.terminal t (putc_cursor c (k.terminal t)) i)
    moved i = elim (ℕ_discrete t i) [
      | yes e ↦ rw (update_self' e) (putc_cursor-InScreen c (k.terminal t) (v t))
      | no e ↦ rw (update_ne k.terminal t i _ e) (v i)
    ]
      where
        update_self' :
            t ≡ i
            → update k.terminal t (putc_cursor c (k.terminal t)) i ≡ putc_cursor c (k.terminal t)
        update_self' e = ground arith
