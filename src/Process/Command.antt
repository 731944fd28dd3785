-- ===== src/Process/Command.antt =====
-- The parse of a command line by `execute_call`.
use mini_os_with_friends.Base.{ℕ, zero, suc, ◌≡◌, refl, ◌∙◌, ap, ◌≢◌, List, [], ◌∷◌, ◌++◌, arith}
use mini_os_with_friends.Process.{skip_spaces, first_word, after_word, to_line_end, argument}

-- No byte of the list ends a line; none ends a word.
pub data InLine : List ℕ → Type 0 where
  empty : InLine []
  next : {c : ℕ} {s : List ℕ} → c ≢ 0 → c ≢ 0x0A → InLine s → InLine (c ∷ s)

pub data IsWord : List ℕ → Type 0 where
  empty : IsWord []
  next : {c : ℕ} {s : List ℕ} → c ≢ b' ' → c ≢ 0 → c ≢ 0x0A → IsWord s → IsWord (c ∷ s)

pub spaces : ℕ → List ℕ → List ℕ
spaces zero s = s
spaces (suc n) s = b' ' ∷ spaces n s

IsWord-start : {c : ℕ} {s : List ℕ} → IsWord (c ∷ s) → c ≢ b' '
IsWord-start (IsWord.next space nul newline rest) = space

skip_spaces-spaces : (n c : ℕ) (s : List ℕ) → c ≢ b' ' → skip_spaces (spaces n (c ∷ s)) ≡ c ∷ s
unfolding skip_spaces spaces
skip_spaces-spaces zero c s ne = ground arith
skip_spaces-spaces (suc n) c s ne = skip_spaces-spaces n c s ne

first_word-IsWord : (w s : List ℕ) → IsWord w → first_word (w ++ (b' ' ∷ s)) ≡ w
unfolding first_word
first_word-IsWord [] s e = refl
first_word-IsWord (c ∷ w) s (IsWord.next space nul newline rest) =
    ground (arith, first_word-IsWord w s rest)

after_word-IsWord : (w s : List ℕ) → IsWord w → after_word (w ++ (b' ' ∷ s)) ≡ b' ' ∷ s
unfolding after_word
after_word-IsWord [] s e = refl
after_word-IsWord (c ∷ w) s (IsWord.next space nul newline rest) =
    ground (arith, after_word-IsWord w s rest)

to_line_end-InLine : (a s : List ℕ) → InLine a → to_line_end (a ++ (0x0A ∷ s)) ≡ a
unfolding to_line_end
to_line_end-InLine [] s e = refl
to_line_end-InLine (c ∷ a) s (InLine.next nul newline rest) =
    ground (arith, to_line_end-InLine a s rest)

-- A line with `m` spaces, a word, a space and `n` more, an argument that does not begin with a space,
-- and a newline: the parse gives back the word and the argument, which may hold spaces.
pub parse-command :
    (m n c d : ℕ) (word arg rest : List ℕ)
    → IsWord (c ∷ word)
    → d ≢ b' '
    → InLine (d ∷ arg)
    → let line = spaces m (c ∷ word ++ spaces (suc n) (d ∷ arg ++ 0x0A ∷ rest)) in
      (first_word (skip_spaces line) ≡ c ∷ word) × (argument line ≡ d ∷ arg)
unfolding argument spaces
parse-command m n c d word arg rest w ne a =
    let tail = d ∷ arg ++ 0x0A ∷ rest in
    let line = c ∷ word ++ spaces (suc n) tail in
    let skipped : skip_spaces (spaces m line) ≡ line =
      skip_spaces-spaces m c (word ++ spaces (suc n) tail) (IsWord-start w) in
    (
      ap first_word skipped ∙ first_word-IsWord (c ∷ word) (spaces n tail) w,
      ap (λ x. to_line_end (skip_spaces (after_word x))) skipped
          ∙ ap (λ x. to_line_end (skip_spaces x)) (after_word-IsWord (c ∷ word) (spaces n tail) w)
          ∙ ap to_line_end (skip_spaces-spaces (suc n) d (arg ++ 0x0A ∷ rest) ne)
          ∙ to_line_end-InLine (d ∷ arg) rest a,
    )
