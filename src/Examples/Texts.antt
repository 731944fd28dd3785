-- ===== src/Examples/Texts.antt =====
-- Runs of the functions on strings and numbers, and of the user's programs.
use mini_os_with_friends.Base.{
  ℕ, ◌≤◌, ◌<◌, ◌^◌, ◌≡◌, ◌≢◌, ◌↔◌, refl, some, List, [], ◌∷◌, ◌++◌, arith, length, error,
}
use mini_os_with_friends.Screen.{puts}
use mini_os_with_friends.CString.Number as Kernel
use mini_os_with_friends.CString.Number.RoundTrip.{IsDigit, number_of, number_of-itoa}
use mini_os_with_friends.Printf.{Arg, printf}
use mini_os_with_friends.Printf.Hex.{first_bytes, printf-alternate_text}
use mini_os_with_friends.User.{Calls, fdputs}
use mini_os_with_friends.User.Support.{itoa, strcmp, strncmp}
use mini_os_with_friends.User.Support.Number.{itoa-itoa}
use mini_os_with_friends.User.Support.Compare.{strcmp-strncmp}
use mini_os_with_friends.User.Shell.{Round, report, shell_round, prompt_text, exit_text}
use mini_os_with_friends.User.Shell.Rounds.{shell_round_lem}
use mini_os_with_friends.Examples.{running, IsText-a, IsText-b}

abbrev empty_buffer : ℕ → ℕ
empty_buffer i = 0

number_of-itoa_example :
    (len : ℕ) × (1 ≤ len)
    × (len ≤ 32)
    × (Kernel.itoa 391 empty_buffer 16 len ≡ 0)
    × ((j : ℕ)
        → j < len
        → (Kernel.itoa 391 empty_buffer 16 j ≢ 0) × IsDigit 16 (Kernel.itoa 391 empty_buffer 16 j))
    × (number_of 16 len (Kernel.itoa 391 empty_buffer 16) ≡ 391)
    × ((places : ℕ) → 0 < places → 391 < 16 ^ places → len ≤ places)
number_of-itoa_example =
    number_of-itoa 391 16 empty_buffer (omega arith) (omega arith) (omega arith)

printf-alternate_text_example :
    (s : ℕ → ℕ) × (printf empty_buffer (b'%' ∷ b'#' ∷ b'x' ∷ []) (Arg.number 391 ∷ []) running
      ≡ some (3, (puts (first_bytes 8 s) running).1))
    × ((j : ℕ) → j < 8 → IsDigit 16 (s j))
    × (number_of 16 8 s ≡ 391)
printf-alternate_text_example = printf-alternate_text 391 empty_buffer running (omega arith)

itoa-itoa_example : itoa 391 empty_buffer 10 ≡ Kernel.itoa 391 empty_buffer 10
itoa-itoa_example = itoa-itoa 391 10 empty_buffer (omega arith) (omega arith) (omega arith)

abbrev text_a : List ℕ
text_a = b'a' ∷ []

abbrev text_b : List ℕ
text_b = b'b' ∷ []

strcmp-strncmp_example :
    ((strcmp text_a text_b ≡ 0) ↔ (text_a ≡ text_b))
    × ((strncmp text_a text_b (length text_b) ≡ 0) ↔ ((r : List ℕ) × (text_a ≡ text_b ++ r)))
strcmp-strncmp_example = strcmp-strncmp text_a text_b IsText-a IsText-b

-- A keyboard on which `a` is typed.
abbrev typing : Calls (List ℕ)
typing = record {
  getargs = λ nbytes k. (error, [], k);
  open_path = λ name k. (error, k);
  read = λ fd nbytes k. (2, b'a' ∷ 0x0A ∷ [], k);
  execute = λ command k. (7, k);
  write = λ fd s k. (0, k ++ s);
}

shell_round_lem_example :
    (text_a ≡ exit_text → shell_round typing [] ≡ Round.returned 0 (fdputs typing 1 prompt_text []))
    × (text_a ≢ exit_text
        → shell_round typing []
          ≡ Round.again (
              report typing
                (typing.execute text_a (fdputs typing 1 prompt_text [])).0
                (typing.execute text_a (fdputs typing 1 prompt_text [])).1))
shell_round_lem_example =
    shell_round_lem typing 2 b'a' [] [] (fdputs typing 1 prompt_text []) refl (omega arith) IsText-a
