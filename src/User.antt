-- ===== src/User.antt =====
-- The user library and programs of syscalls/: what they compute, and what they ask of the kernel.
pub mod Support
pub mod Cat
pub mod Shell
pub mod Ls
pub mod Syserr
pub mod Machine
use mini_os_with_friends.Base.{ℕ, List}

-- The system calls, on whatever state the kernel keeps. A call gives its value,
-- and `getargs` and `read` also the bytes that they put in the buffer.
pub record Calls (S : Type 0) : Type 0 where
  pub getargs : (nbytes : ℕ) → S → ℕ × List ℕ × S
  pub open_path : (filename : List ℕ) → S → ℕ × S
  pub read : (fd nbytes : ℕ) → S → ℕ × List ℕ × S
  pub execute : (command : List ℕ) → S → ℕ × S
  pub write : (fd : ℕ) → List ℕ → S → ℕ × S

-- `ece391_fdputs`: a text goes to a descriptor, and the value of the call is dropped.
unfoldable pub fdputs : {S : Type 0} → Calls S → (fd : ℕ) → List ℕ → S → S
fdputs calls fd s k = (calls.write fd s k).1
