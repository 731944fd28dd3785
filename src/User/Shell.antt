-- ===== src/User/Shell.antt =====
-- syscalls/ece391shell.c, over the system calls that it makes.
pub mod Rounds
use mini_os_with_friends.Base.{
  ℕ, zero, suc, ◌+◌, Option, none, some, List, [], ◌∷◌, ◌==◌, ◌!=◌, if◌then◌else◌, error,
}
use mini_os_with_friends.User.{Calls, fdputs}
use mini_os_with_friends.User.Support.{strcmp}

abbrev pub starting_text : List ℕ
starting_text =
    b'S' ∷ b't' ∷ b'a' ∷ b'r' ∷ b't' ∷ b'i' ∷ b'n' ∷ b'g' ∷ b' ' ∷ b'3' ∷ b'9' ∷ b'1' ∷ b' ' ∷ b'S'
    ∷ b'h' ∷ b'e' ∷ b'l' ∷ b'l' ∷ 0x0A ∷ []

abbrev pub prompt_text : List ℕ
prompt_text = b'3' ∷ b'9' ∷ b'1' ∷ b'O' ∷ b'S' ∷ b'>' ∷ b' ' ∷ []

abbrev pub read_failed_text : List ℕ
read_failed_text =
    b'r' ∷ b'e' ∷ b'a' ∷ b'd' ∷ b' ' ∷ b'f' ∷ b'r' ∷ b'o' ∷ b'm' ∷ b' ' ∷ b'k' ∷ b'e' ∷ b'y' ∷ b'b'
    ∷ b'o' ∷ b'a' ∷ b'r' ∷ b'd' ∷ b' ' ∷ b'f' ∷ b'a' ∷ b'i' ∷ b'l' ∷ b'e' ∷ b'd' ∷ 0x0A ∷ []

abbrev pub exit_text : List ℕ
exit_text = b'e' ∷ b'x' ∷ b'i' ∷ b't' ∷ []

abbrev pub no_command_text : List ℕ
no_command_text =
    b'n' ∷ b'o' ∷ b' ' ∷ b's' ∷ b'u' ∷ b'c' ∷ b'h' ∷ b' ' ∷ b'c' ∷ b'o' ∷ b'm' ∷ b'm' ∷ b'a' ∷ b'n'
    ∷ b'd' ∷ 0x0A ∷ []

abbrev pub exception_text : List ℕ
exception_text =
    b'p' ∷ b'r' ∷ b'o' ∷ b'g' ∷ b'r' ∷ b'a' ∷ b'm' ∷ b' ' ∷ b't' ∷ b'e' ∷ b'r' ∷ b'm' ∷ b'i' ∷ b'n'
    ∷ b'a' ∷ b't' ∷ b'e' ∷ b'd' ∷ b' ' ∷ b'b' ∷ b'y' ∷ b' ' ∷ b'e' ∷ b'x' ∷ b'c' ∷ b'e' ∷ b'p'
    ∷ b't' ∷ b'i' ∷ b'o' ∷ b'n' ∷ 0x0A ∷ []

abbrev pub abnormal_text : List ℕ
abnormal_text =
    b'p' ∷ b'r' ∷ b'o' ∷ b'g' ∷ b'r' ∷ b'a' ∷ b'm' ∷ b' ' ∷ b't' ∷ b'e' ∷ b'r' ∷ b'm' ∷ b'i' ∷ b'n'
    ∷ b'a' ∷ b't' ∷ b'e' ∷ b'd' ∷ b' ' ∷ b'a' ∷ b'b' ∷ b'n' ∷ b'o' ∷ b'r' ∷ b'm' ∷ b'a' ∷ b'l'
    ∷ b'l' ∷ b'y' ∷ 0x0A ∷ []

-- The line without the newline that ends it.
unfoldable pub drop_newline : List ℕ → List ℕ
drop_newline [] = []
drop_newline (c ∷ []) = if c == 0x0A then [] else c ∷ []
drop_newline (c ∷ d ∷ s) = c ∷ drop_newline (d ∷ s)

-- The string that the buffer holds: its bytes as far as a zero.
unfoldable pub c_string : List ℕ → List ℕ
c_string [] = []
c_string (c ∷ s) = if c == 0 then [] else c ∷ c_string s

-- What a round of the loop leads to: `main` returns, or the next round.
pub data Round (S : Type 0) : Type 0 where
  returned : (status : ℕ) → S → Round S
  again : S → Round S

module _ {S : Type 0} (calls : Calls S) where
  -- What is said of the value that `execute` gave.
  unfoldable pub report : (rval : ℕ) → S → S
  report rval k =
      if rval == error
      then fdputs calls 1 no_command_text k
      else if rval == 256
      then fdputs calls 1 exception_text k
      else if rval != 0
      then fdputs calls 1 abnormal_text k
      else k

  -- What is done with the command, which is the buffer's string.
  unfoldable pub take_command : (cnt : ℕ) → List ℕ → S → Round S
  take_command cnt [] k =
      if cnt == error then Round.returned 3 (fdputs calls 1 read_failed_text k) else Round.again k
  take_command cnt (c ∷ s) k =
      let (rval, k1) = calls.execute (c ∷ s) k in
      if cnt == error
      then Round.returned 3 (fdputs calls 1 read_failed_text k)
      else if strcmp (c ∷ s) exit_text == 0
      then Round.returned 0 k
      else Round.again (report rval k1)

  -- One round, from the prompt on.
  unfoldable pub shell_round : S → Round S
  shell_round k =
      let (cnt, buf, k1) = calls.read 0 1023 (fdputs calls 1 prompt_text k) in
      take_command cnt (c_string (drop_newline buf)) k1

  unfoldable pub shell_loop : (fuel : ℕ) → S → Option (ℕ × S)
  shell_loop zero k = none
  shell_loop (suc fuel) k = elim (shell_round k) [
    | Round.returned status k1 ↦ some (status, k1)
    | Round.again k1 ↦ shell_loop fuel k1
  ]

  unfoldable pub main : (fuel : ℕ) → S → Option (ℕ × S)
  main fuel k = shell_loop fuel (fdputs calls 1 starting_text k)
