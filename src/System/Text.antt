-- ===== src/System/Text.antt =====
-- What the screen and the line discipline rely on, for one terminal and for the kernel.
use mini_os_with_friends.Base.{ℕ, ◌≤◌, ◌<◌, ◌≡◌, refl, ◌∙◌, ap, if◌then◌else◌, Bool, true, false}
use native.Mathlib.Decide.{ℕ_discrete}
use mini_os_with_friends.Base.Maps.{update_self, update_ne}
use mini_os_with_friends.State.{Terminal, Kernel}
use mini_os_with_friends.Memory.{set_terminal}
use mini_os_with_friends.Screen.Cursor.{InScreen}

-- The fields of a terminal that the screen and the keyboard's line go by.
pub record Text : Type 0 where
  pub x : ℕ
  pub y : ℕ
  pub shift_up_one_flag : ℕ
  pub length : ℕ
  pub read_length : ℕ

abbrev pub text_of : Terminal → Text
text_of s = record {
  x = s.x;
  y = s.y;
  shift_up_one_flag = s.shift_up_one_flag;
  length = s.length;
  read_length = s.read_length;
}

-- The cursor is on the screen, and the line and what `terminal_read` takes of it fit `tempbuf`.
pub record IsSoundText (s : Terminal) : Type 0 where
  pub cursor : InScreen s
  pub line_fits : s.length ≤ 127
  pub read_fits : s.read_length ≤ 128

IsSoundText-text_of : (s s' : Terminal) → text_of s' ≡ text_of s → IsSoundText s → IsSoundText s'
IsSoundText-text_of s s' e v =
    let x : s'.x ≡ s.x = ap Text.x e in
    let y : s'.y ≡ s.y = ap Text.y e in
    let flag : s'.shift_up_one_flag ≡ s.shift_up_one_flag = ap Text.shift_up_one_flag e in
    let length : s'.length ≡ s.length = ap Text.length e in
    let read : s'.read_length ≡ s.read_length = ap Text.read_length e in
    record {
      cursor = record {
        column = rw x v.cursor.column;
        row = rw y v.cursor.row;
        no_scroll_pending = rw flag v.cursor.no_scroll_pending;
        last_marked = rw (x, y, flag) v.cursor.last_marked;
      };
      line_fits = rw length v.line_fits;
      read_fits = rw read v.read_fits;
    }

-- The state of the kernel: so for every terminal, and the active and the displayed one are among the
-- three.
pub record IsSound (k : Kernel) : Type 0 where
  pub texts : (i : ℕ) → IsSoundText (k.terminal i)
  pub active_is : k.active_terminal < 3
  pub displayed_is : k.displayed_terminal < 3

-- What `IsSound` goes by.
pub record View : Type 0 where
  pub text : Text
  pub active_terminal : ℕ
  pub displayed_terminal : ℕ

abbrev pub view : Kernel → ℕ → View
view k i = record {
  text = text_of (k.terminal i);
  active_terminal = k.active_terminal;
  displayed_terminal = k.displayed_terminal;
}

abbrev pub Agree : Kernel → Kernel → Type 0
Agree k k' = (i : ℕ) → view k' i ≡ view k i

pub IsSound-Agree : (k k' : Kernel) → Agree k k' → IsSound k → IsSound k'
IsSound-Agree k k' e v = record {
  texts = λ i. IsSoundText-text_of (k.terminal i) (k'.terminal i) (ap View.text (e i)) (v.texts i);
  active_is = rw (ap View.active_terminal (e 0)) v.active_is;
  displayed_is = rw (ap View.displayed_terminal (e 0)) v.displayed_is;
}

pub Agree-trans : (k k' k'' : Kernel) → Agree k k' → Agree k' k'' → Agree k k''
Agree-trans k k' k'' p q i = q i ∙ p i

pub Agree-if :
    (b : Bool) (k k' k'' : Kernel) → Agree k k' → Agree k k'' → Agree k (if b then k' else k'')
Agree-if true k k' k'' p q = p
Agree-if false k k' k'' p q = q

-- A terminal is replaced by one with the same text.
pub set_terminal-Agree :
    (j : ℕ) (t : Terminal) (k : Kernel)
    → text_of t ≡ text_of (k.terminal j)
    → Agree k (set_terminal j t k)
set_terminal-Agree j t k e i = elim (ℕ_discrete j i) [
  | yes same ↦ rw (← same, update_self k.terminal j t, e) refl
  | no ne ↦ rw (update_ne k.terminal j i t ne) refl
]

pub set_terminal-IsSound :
    (j : ℕ) (t : Terminal) (k : Kernel) → IsSoundText t → IsSound k → IsSound (set_terminal j t k)
set_terminal-IsSound j t k w v = record {
  texts = λ i. elim (ℕ_discrete j i) [
    | yes same ↦ rw (← same, update_self k.terminal j t) w
    | no ne ↦ rw (update_ne k.terminal j i t ne) (v.texts i)
  ];
  active_is = v.active_is;
  displayed_is = v.displayed_is;
}
