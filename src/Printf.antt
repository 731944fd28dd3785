-- ===== src/Printf.antt =====
-- `printf` of student-distrib/lib.c. The arguments on the stack are a list, and the list of the format
-- is the string without its zero. What the conversion buffers hold before they are written is an
-- argument.
pub mod Plain
pub mod Hex
use mini_os_with_friends.Base.{
  ℕ, zero, suc, ◌+◌, ◌-◌, ◌%◌, Bool, true, false, Option, none, some, List, [], ◌∷◌, ◌==◌, ltb,
  if◌then◌else◌, sub32, is_neg, length,
}
use mini_os_with_friends.Base.Maps.{update}
use mini_os_with_friends.Base.Loops.{for_range}
use mini_os_with_friends.State.{Kernel}
use mini_os_with_friends.Screen.{terminal_putc, puts}
use mini_os_with_friends.CString.Number.{itoa, string_length}

-- A word on the stack, or a pointer to a string.
pub data Arg : Type 0 where
  number : ℕ → Arg
  text : List ℕ → Arg

-- The string that begins at `s`, of at most `n` bytes.
unfoldable pub string_at : (n : ℕ) → (ℕ → ℕ) → List ℕ
string_at zero s = []
string_at (suc n) s = if s 0 == 0 then [] else s 0 ∷ string_at n (λ i. s (i + 1))

-- `%u` and `%x`, `%d`, and `%#x`: what `puts` is given.
unfoldable pub unsigned_text : (conv_buf : ℕ → ℕ) → (value radix : ℕ) → List ℕ
unsigned_text conv_buf value radix = string_at 33 (itoa value conv_buf radix)

unfoldable pub signed_text : (conv_buf : ℕ → ℕ) → ℕ → List ℕ
unfolding unsigned_text
signed_text conv_buf value =
    if is_neg value
    then b'-' ∷ unsigned_text (λ i. conv_buf (i + 1)) (sub32 0 value) 10
    else unsigned_text conv_buf value 10

-- `conv_buf` once the number stands at `conv_buf[8]` and the zeros before it.
unfoldable pub padded : (conv_buf : ℕ → ℕ) → ℕ → ℕ → ℕ
padded conv_buf value =
    let digits = itoa value (λ i. conv_buf (i + 8)) 16 in
    let starting_index = string_length 33 digits in
    for_range (8 - starting_index) starting_index (λ i (b : ℕ → ℕ). update b i b'0')
      (λ i. if ltb i 8 then conv_buf i else digits (i - 8))

unfoldable pub alternate_text : (conv_buf : ℕ → ℕ) → ℕ → List ℕ
alternate_text conv_buf value =
    let starting_index = string_length 33 (itoa value (λ i. conv_buf (i + 8)) 16) in
    string_at 64 (λ i. padded conv_buf value (i + starting_index))

-- The next argument, as a word or as a string, and what is done with it.
abbrev pub on_number : List Arg → (ℕ → Kernel) → Option (List Arg × Kernel)
on_number (Arg.number v ∷ args) print = some (args, print v)
on_number (Arg.text s ∷ args) print = none
on_number [] print = none

abbrev pub on_text : List Arg → (List ℕ → Kernel) → Option (List Arg × Kernel)
on_text (Arg.text s ∷ args) print = some (args, print s)
on_text (Arg.number v ∷ args) print = none
on_text [] print = none

-- One conversion specifier: the arguments that are left, and the state. `none`: there is no argument
-- of its kind.
unfoldable pub convert :
    (conv_buf : ℕ → ℕ)
    → (alternate : Bool) → (c : ℕ) → List Arg
    → Kernel
    → Option (List Arg × Kernel)
convert conv_buf alternate c args k =
    if c == b'%'
    then some (args, terminal_putc b'%' k.displayed_terminal k)
    else if c == b'x'
    then on_number args (λ v.
      (puts (if alternate then alternate_text conv_buf v else unsigned_text conv_buf v 16) k).1)
    else if c == b'u'
    then on_number args (λ v. (puts (unsigned_text conv_buf v 10) k).1)
    else if c == b'd'
    then on_number args (λ v. (puts (signed_text conv_buf v) k).1)
    else if c == b'c'
    then on_number args (λ v. terminal_putc (v % 256) k.displayed_terminal k)
    else if c == b's'
    then on_text args (λ s. (puts s k).1)
    else some (args, k)

-- Where the loop stands: at a character of the text, or behind a percent sign.
pub data Mode : Type 0 where
  plain : Mode
  conversion : (alternate : Bool) → Mode

-- The rest of the format. A format that ends behind a percent sign is read past its end: `none`.
unfoldable pub printf_from : (conv_buf : ℕ → ℕ) → Mode → List ℕ → List Arg → Kernel → Option Kernel
printf_from conv_buf Mode.plain [] args k = some k
printf_from conv_buf (Mode.conversion alternate) [] args k = none
printf_from conv_buf Mode.plain (c ∷ format) args k =
    let literal =
      printf_from conv_buf Mode.plain format args (terminal_putc c k.active_terminal k) in
    let converted = printf_from conv_buf (Mode.conversion false) format args k in
    if c == b'%' then converted else literal
printf_from conv_buf (Mode.conversion alternate) (c ∷ format) args k =
    let sharp = printf_from conv_buf (Mode.conversion true) format args k in
    let converted : Option Kernel = elim (convert conv_buf alternate c args k) [
      | none ↦ none
      | some (args', k') ↦ printf_from conv_buf Mode.plain format args' k'
    ] in
    if c == b'#' then sharp else converted

-- The value is the number of bytes of the format.
unfoldable pub printf : (conv_buf : ℕ → ℕ) → List ℕ → List Arg → Kernel → Option (ℕ × Kernel)
printf conv_buf format args k = elim (printf_from conv_buf Mode.plain format args k) [
  | none ↦ none
  | some k' ↦ some (length format, k')
]
