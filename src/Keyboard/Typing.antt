-- ===== src/Keyboard/Typing.antt =====
-- Whole lines typed at the keyboard, key by key.
use mini_os_with_friends.Base.{
  subst, ℕ, zero, suc, ◌+◌, ◌≤◌, ◌<◌, ◌≡◌, refl, ◌∙◌, ap, ◌≢◌, List, [], ◌∷◌, arith, length,
}
use native.Mathlib.Decide.{ℕ_discrete}
use mini_os_with_friends.State.{Terminal, Kernel}
use mini_os_with_friends.CString.{char_at}
use mini_os_with_friends.Keyboard.{bksp, ent}
use mini_os_with_friends.Keyboard.Line.{SameLine, press, shown, edited_line, press-Edited}

-- The line of the terminal fits its buffer, with room for the newline.
abbrev pub Fits : Terminal → Type 0
Fits t = t.length ≤ 127

edited_line-Fits : (cmd : ℕ) (t : Terminal) → Fits t → Fits (edited_line cmd t)
edited_line-Fits cmd t fits = ground arith

edited_line-tempbuf :
    (cmd i : ℕ) (t : Terminal) → Fits t → 128 ≤ i → (edited_line cmd t).tempbuf i ≡ t.tempbuf i
edited_line-tempbuf cmd i t fits past = ground arith

-- If the line of every terminal has at most 127 characters, then so it has after a key, whatever
-- character the key gives, and the key writes nothing behind the 128 bytes of any line buffer.
pub press-Fits :
    (cmd i j : ℕ) (k : Kernel)
    → ((i : ℕ) → Fits (k.terminal i))
    → 128 ≤ j
    → ((press cmd k).terminal i).length ≤ 127
      × (((press cmd k).terminal i).tempbuf j ≡ (k.terminal i).tempbuf j)
press-Fits cmd i j k fits past =
    let e = press-Edited cmd k in
    elim (ℕ_discrete i k.displayed_terminal) [
      | yes shown_one ↦ rw shown_one (
        rw (e.line.same_length) (edited_line-Fits cmd (shown k) (fits k.displayed_terminal)),
        e.line.same_tempbuf j
            ∙ edited_line-tempbuf cmd j (shown k) (fits k.displayed_terminal) past,
      )
      | no other ↦ (rw ((e.others i other).same_length) (fits i), (e.others i other).same_tempbuf j)
    ]

-- The keys of a text, one after the other.
abbrev pub type_text : List ℕ → Kernel → Kernel
type_text [] k = k
type_text (c ∷ text) k = type_text text (press c k)

-- Characters that stand for themselves.
pub data IsPlain : List ℕ → Type 0 where
  empty : IsPlain []
  next : {c : ℕ} {s : List ℕ} → c ≢ 0 → c ≢ ent → c ≢ bksp → IsPlain s → IsPlain (c ∷ s)

-- What a typed text leaves, begun at the line of length `n` in `k`.
pub record Typed (text : List ℕ) (k k' : Kernel) : Type 0 where
  pub new_length : (shown k').length ≡ (shown k).length + length text
  pub new_chars :
      (i : ℕ) → i < length text → (shown k').tempbuf ((shown k).length + i) ≡ char_at text i
  pub old_chars : (i : ℕ) → i < (shown k).length → (shown k').tempbuf i ≡ (shown k).tempbuf i
  pub display : k'.displayed_terminal ≡ k.displayed_terminal

record Pressed (c : ℕ) (k k' : Kernel) : Type 0 where
  length_next : (shown k').length ≡ (shown k).length + 1
  char : (shown k').tempbuf (shown k).length ≡ c
  before : (i : ℕ) → i < (shown k).length → (shown k').tempbuf i ≡ (shown k).tempbuf i
  display : k'.displayed_terminal ≡ k.displayed_terminal

pub press-shown : (c : ℕ) (k : Kernel) → SameLine (edited_line c (shown k)) (shown (press c k))
press-shown c k = let e = press-Edited c k in rw e.display e.line

press-Pressed :
    (c : ℕ) (k : Kernel)
    → c ≢ 0
    → c ≢ ent
    → c ≢ bksp
    → (shown k).length < 127
    → Pressed c k (press c k)
press-Pressed c k nul newline back room =
    let s = press-shown c k in
    record {
      length_next = s.same_length ∙ ground arith;
      char = s.same_tempbuf (shown k).length ∙ ground arith;
      before = λ i lt. s.same_tempbuf i ∙ ground arith;
      display = (press-Edited c k).display;
    }

next_chars :
    (c : ℕ) (text : List ℕ) (n : ℕ) (f : ℕ → ℕ)
    → f n ≡ c
    → ((j : ℕ) → j < length text → f (n + 1 + j) ≡ char_at text j)
    → (i : ℕ) → i < length (c ∷ text)
    → f (n + i) ≡ char_at (c ∷ text) i
next_chars c text n f first rest zero lt = ap f (omega arith) ∙ first
next_chars c text n f first rest (suc i) lt = ap f (omega arith) ∙ rest i (omega arith)

type_text-Typed :
    (text : List ℕ) (k : Kernel)
    → IsPlain text
    → (shown k).length + length text ≤ 127
    → Typed text k (type_text text k)
type_text-Typed [] k plain room = record {
  new_length = omega arith;
  new_chars = λ i lt. absurd (omega arith);
  old_chars = λ i lt. refl;
  display = refl;
}
type_text-Typed (c ∷ text) k (IsPlain.next nul newline back plain) room =
    let p = press-Pressed c k nul newline back (omega arith) in
    let t = type_text-Typed text (press c k) plain (omega (arith, p.length_next)) in
    record {
      new_length = omega (arith, t.new_length, p.length_next);
      new_chars = λ i lt.
          next_chars c text (shown k).length (shown (type_text text (press c k))).tempbuf
            (t.old_chars (shown k).length (omega (arith, p.length_next)) ∙ p.char)
            (λ j below.
              ap (shown (type_text text (press c k))).tempbuf (omega (arith, p.length_next))
              ∙ t.new_chars j below)
            i lt;
      old_chars = λ i lt. t.old_chars i (omega (arith, p.length_next)) ∙ p.before i lt;
      display = t.display ∙ p.display;
    }

-- Typing a text of plain characters at an empty line, at most 127 of them, and then Enter: the line is the text and a newline, its length
-- is what the next read gets, and the flag that a read waits for is set; the terminal that is displayed
-- stays, and its next line is empty.
pub type_line_lem :
    (text : List ℕ) (k : Kernel)
    → IsPlain text
    → (shown k).length ≡ 0
    → length text ≤ 127
    → let t = shown (press ent (type_text text k)) in
      ((i : ℕ) → i < length text → t.tempbuf i ≡ char_at text i)
      × (t.tempbuf (length text) ≡ 0x0A)
      × (t.read_length ≡ length text + 1)
      × (t.enter_flag ≡ 1)
      × (t.length ≡ 0)
      × ((press ent (type_text text k)).displayed_terminal ≡ k.displayed_terminal)
type_line_lem text k plain start room =
    let k1 = type_text text k in
    let t = type_text-Typed text k plain (omega arith) in
    let n : (shown k1).length ≡ length text = omega (arith, t.new_length) in
    let s = press-shown ent k1 in
    (
      λ i lt.
          s.same_tempbuf i
          ∙ ground (arith, n)
          ∙ subst (λ z. (shown k1).tempbuf (z + i) ≡ char_at text i) start (t.new_chars i lt),
      s.same_tempbuf (length text) ∙ ground (arith, n),
      s.same_read_length ∙ ground (arith, n),
      s.same_enter_flag ∙ ground arith,
      s.same_length ∙ ground arith,
      (press-Edited ent k1).display ∙ t.display,
    )

-- Backspace undoes a plain character: the line has its length again, and the characters in it are the
-- same.
pub press-bksp :
    (c i : ℕ) (k : Kernel)
    → c ≢ 0
    → c ≢ ent
    → c ≢ bksp
    → (shown k).length < 127
    → i < (shown k).length
    → ((shown (press bksp (press c k))).length ≡ (shown k).length)
      × ((shown (press bksp (press c k))).tempbuf i ≡ (shown k).tempbuf i)
press-bksp c i k nul newline back room lt =
    let p = press-Pressed c k nul newline back room in
    let s = press-shown bksp (press c k) in
    (
      s.same_length ∙ ground (arith, p.length_next),
      s.same_tempbuf i ∙ ground (arith, p.length_next) ∙ p.before i lt,
    )
