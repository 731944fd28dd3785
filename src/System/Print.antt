-- ===== src/System/Print.antt =====
-- `printf` keeps the screens and the lines sound.
use mini_os_with_friends.Base.{
  ℕ, ◌≡◌, arith, ◌==◌, ◌%◌, if◌then◌else◌, Bool, true, false, Bool-cases, Option-cases, inl, inr,
  Option, some, List, [], ◌∷◌,
}
use mini_os_with_friends.State.{Kernel}
use mini_os_with_friends.Screen.{terminal_putc}
use mini_os_with_friends.Printf.{Arg, Mode, on_number, on_text, convert, printf_from, printf}
use mini_os_with_friends.System.Text.{IsSound, IsSound-Agree}
use mini_os_with_friends.System.Calls.{Agree-refl, Agree-eq}
use mini_os_with_friends.System.Output.{terminal_putc-IsSound, puts-IsSound}

-- The state in a result, if there is one.
abbrev IsSoundResult : {A : Type 0} → Option (A × Kernel) → Type 0
IsSoundResult {A = A} r = (a : A) (k' : Kernel) → r ≡ some (a, k') → IsSound k'

IsSoundResult-some : {A : Type 0} (a : A) (k : Kernel) → IsSound k → IsSoundResult (some (a, k))
IsSoundResult-some a k w a' k' e = IsSound-Agree k k' (Agree-eq k k k' (Agree-refl k) (cc e)) w

IsSoundResult-if :
    {A : Type 0} (b : Bool) (r r' : Option (A × Kernel))
    → IsSoundResult r
    → IsSoundResult r'
    → IsSoundResult (if b then r else r')
IsSoundResult-if true r r' p q = p
IsSoundResult-if false r r' p q = q

on_number-IsSound :
    (args : List Arg) (print : ℕ → Kernel)
    → ((v : ℕ) → IsSound (print v))
    → IsSoundResult (on_number args print)
on_number-IsSound (Arg.number v ∷ args) print p = IsSoundResult-some args (print v) (p v)
on_number-IsSound (Arg.text s ∷ args) print p = λ a k' e. ground arith
on_number-IsSound [] print p = λ a k' e. ground arith

on_text-IsSound :
    (args : List Arg) (print : List ℕ → Kernel)
    → ((s : List ℕ) → IsSound (print s))
    → IsSoundResult (on_text args print)
on_text-IsSound (Arg.text s ∷ args) print p = IsSoundResult-some args (print s) (p s)
on_text-IsSound (Arg.number v ∷ args) print p = λ a k' e. ground arith
on_text-IsSound [] print p = λ a k' e. ground arith

convert-IsSound :
    (conv_buf : ℕ → ℕ) (alternate : Bool) (c : ℕ) (args : List Arg) (k : Kernel)
    → IsSound k
    → IsSoundResult (convert conv_buf alternate c args k)
unfolding convert
convert-IsSound conv_buf alternate c args k w =
    IsSoundResult-if (c == b'%') _ _
      (IsSoundResult-some args (terminal_putc b'%' k.displayed_terminal k)
        (terminal_putc-IsSound b'%' k.displayed_terminal k w))
      (IsSoundResult-if (c == b'x') _ _ (on_number-IsSound args _ (λ v. puts-IsSound _ k w)) (
        IsSoundResult-if (c == b'u') _ _ (on_number-IsSound args _ (λ v. puts-IsSound _ k w)) (
          IsSoundResult-if (c == b'd') _ _ (on_number-IsSound args _ (λ v. puts-IsSound _ k w)) (
            IsSoundResult-if (c == b'c') _ _
              (on_number-IsSound args _
                (λ v. terminal_putc-IsSound (v % 256) k.displayed_terminal k w))
              (IsSoundResult-if (c == b's') _ _ (on_text-IsSound args _ (λ s. puts-IsSound s k w))
                (IsSoundResult-some args k w))))))

printf_from-IsSound :
    (conv_buf : ℕ → ℕ) (mode : Mode) (format : List ℕ) (args : List Arg) (k k' : Kernel)
    → IsSound k
    → printf_from conv_buf mode format args k ≡ some k'
    → IsSound k'
unfolding printf_from
printf_from-IsSound conv_buf Mode.plain [] args k k' w e =
    IsSound-Agree k k' (Agree-eq k k k' (Agree-refl k) (ground arith)) w
printf_from-IsSound conv_buf (Mode.conversion alternate) [] args k k' w e = ground arith
printf_from-IsSound conv_buf Mode.plain (c ∷ format) args k k' w e = elim (Bool-cases (c == b'%')) [
  | inl percent ↦
      printf_from-IsSound conv_buf (Mode.conversion false) format args k k' w (ground arith)
  | inr literal ↦
      let k1 = terminal_putc c k.active_terminal k in
      printf_from-IsSound conv_buf Mode.plain format args k1 k'
        (terminal_putc-IsSound c k.active_terminal k w) (ground arith)
]
printf_from-IsSound conv_buf (Mode.conversion alternate) (c ∷ format) args k k' w e =
    elim (Bool-cases (c == b'#')) [
      | inl sharp ↦
          printf_from-IsSound conv_buf (Mode.conversion true) format args k k' w (ground arith)
      | inr other ↦ elim (Option-cases (convert conv_buf alternate c args k)) [
        | inl missing ↦ ground arith
        | inr ((args', k1), done) ↦
            printf_from-IsSound conv_buf Mode.plain format args' k1 k'
              (convert-IsSound conv_buf alternate c args k w args' k1 done) (ground arith)
      ]
    ]

pub printf-IsSound :
    (conv_buf : ℕ → ℕ) (format : List ℕ) (args : List Arg) (k : Kernel) (n : ℕ) (k' : Kernel)
    → IsSound k
    → printf conv_buf format args k ≡ some (n, k')
    → IsSound k'
unfolding printf
printf-IsSound conv_buf format args k n k' w e =
    elim (Option-cases (printf_from conv_buf Mode.plain format args k)) [
      | inl missing ↦ ground arith
      | inr (k1, done) ↦ printf_from-IsSound conv_buf Mode.plain format args k k' w (ground arith)
    ]
