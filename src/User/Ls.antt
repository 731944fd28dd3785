-- ===== src/User/Ls.antt =====
-- syscalls/ece391ls.c, over the system calls that it makes.
use mini_os_with_friends.Base.{
  ℕ, zero, suc, Option, none, some, List, [], ◌∷◌, ◌++◌, ◌==◌, if◌then◌else◌, error,
}
use mini_os_with_friends.User.{Calls, fdputs}

abbrev pub dot_text : List ℕ
dot_text = b'.' ∷ []

abbrev pub open_failed_text : List ℕ
open_failed_text =
    b'd' ∷ b'i' ∷ b'r' ∷ b'e' ∷ b'c' ∷ b't' ∷ b'o' ∷ b'r' ∷ b'y' ∷ b' ' ∷ b'o' ∷ b'p' ∷ b'e' ∷ b'n'
    ∷ b' ' ∷ b'f' ∷ b'a' ∷ b'i' ∷ b'l' ∷ b'e' ∷ b'd' ∷ 0x0A ∷ []

abbrev pub entry_failed_text : List ℕ
entry_failed_text =
    b'd' ∷ b'i' ∷ b'r' ∷ b'e' ∷ b'c' ∷ b't' ∷ b'o' ∷ b'r' ∷ b'y' ∷ b' ' ∷ b'e' ∷ b'n' ∷ b't' ∷ b'r'
    ∷ b'y' ∷ b' ' ∷ b'r' ∷ b'e' ∷ b'a' ∷ b'd' ∷ b' ' ∷ b'f' ∷ b'a' ∷ b'i' ∷ b'l' ∷ b'e' ∷ b'd'
    ∷ 0x0A ∷ []

module _ {S : Type 0} (calls : Calls S) where
  -- The loop, with `fuel` rounds at most: each entry is written with a newline behind it.
  unfoldable pub list_loop : (fuel fd : ℕ) → S → Option (ℕ × S)
  list_loop zero fd k = none
  list_loop (suc fuel) fd k =
      let (cnt, buf, k1) = calls.read fd 32 k in
      let (written, k2) = calls.write 1 (buf ++ (0x0A ∷ [])) k1 in
      let rest = list_loop fuel fd k2 in
      if cnt == 0
      then some (0, k1)
      else if cnt == error
      then some (3, fdputs calls 1 entry_failed_text k1)
      else if written == error
      then some (3, k2)
      else rest

  unfoldable pub list_directory : (fuel : ℕ) → S → Option (ℕ × S)
  list_directory fuel k =
      let (fd, k1) = calls.open_path dot_text k in
      if fd == error then some (2, fdputs calls 1 open_failed_text k1) else list_loop fuel fd k1
