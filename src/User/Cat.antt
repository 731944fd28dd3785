-- ===== src/User/Cat.antt =====
-- syscalls/ece391cat.c, over the system calls that it makes.
pub mod Kernel
pub mod Started
use mini_os_with_friends.Base.{
  ℕ, zero, suc, ◌+◌, ◌%◌, Option, none, some, List, [], ◌∷◌, ◌==◌, ◌!=◌, if◌then◌else◌, error,
}
use mini_os_with_friends.User.{Calls, fdputs}

abbrev pub args_text : List ℕ
args_text =
    b'c' ∷ b'o' ∷ b'u' ∷ b'l' ∷ b'd' ∷ b' ' ∷ b'n' ∷ b'o' ∷ b't' ∷ b' ' ∷ b'r' ∷ b'e' ∷ b'a' ∷ b'd'
    ∷ b' ' ∷ b'a' ∷ b'r' ∷ b'g' ∷ b'u' ∷ b'm' ∷ b'e' ∷ b'n' ∷ b't' ∷ b's' ∷ 0x0A ∷ []

abbrev pub not_found_text : List ℕ
not_found_text =
    b'f' ∷ b'i' ∷ b'l' ∷ b'e' ∷ b' ' ∷ b'n' ∷ b'o' ∷ b't' ∷ b' ' ∷ b'f' ∷ b'o' ∷ b'u' ∷ b'n' ∷ b'd'
    ∷ 0x0A ∷ []

abbrev pub read_failed_text : List ℕ
read_failed_text =
    b'f' ∷ b'i' ∷ b'l' ∷ b'e' ∷ b' ' ∷ b'r' ∷ b'e' ∷ b'a' ∷ b'd' ∷ b' ' ∷ b'f' ∷ b'a' ∷ b'i' ∷ b'l'
    ∷ b'e' ∷ b'd' ∷ 0x0A ∷ []

module _ {S : Type 0} (calls : Calls S) where
  -- The loop, with `fuel` rounds at most: the status that `main` returns.
  unfoldable pub copy_loop : (fuel fd : ℕ) → S → Option (ℕ × S)
  copy_loop zero fd k = none
  copy_loop (suc fuel) fd k =
      let (cnt, buf, k1) = calls.read fd 1024 k in
      let (written, k2) = calls.write 1 buf k1 in
      let rest = copy_loop fuel fd k2 in
      if cnt == 0
      then some (0, k1)
      else if cnt == error
      then some (3, fdputs calls 1 read_failed_text k1)
      else if written == error
      then some (3, k2)
      else rest

  unfoldable pub main : (fuel : ℕ) → S → Option (ℕ × S)
  main fuel k =
      let (failed, buf, k1) = calls.getargs 1024 k in
      let (fd, k2) = calls.open_path buf k1 in
      if failed != 0
      then some (3, fdputs calls 1 args_text k1)
      else if fd == error
      then some (2, fdputs calls 1 not_found_text k2)
      else copy_loop fuel fd k2
