-- ===== src/User/Machine.antt =====
-- The kernel as the programs of syscalls/ call it: each call is an interrupt 0x80 of its own, as in
-- syscalls/ece391syscall.S, and no other interrupt comes between the calls.
use mini_os_with_friends.Base.{
  ℕ, zero, suc, Option, none, some, List, [], ◌∷◌, ◌==◌, if◌then◌else◌, error, add32, length,
}
use mini_os_with_friends.State.{Kernel}
use mini_os_with_friends.Memory.{read_byte, write_byte}
use mini_os_with_friends.FileSystem.{Dentry}
use mini_os_with_friends.Syscall.{Reply, Waiting}
use mini_os_with_friends.Syscall.Handler.{Args, do_syscall_in_c, syscall_handler}
use mini_os_with_friends.User.{Calls}
use mini_os_with_friends.User.Shell.{c_string}
use mini_os_with_friends.User.Syserr.{Probes}

-- What a run depends on besides the kernel: where the program has its texts and its buffer, what happens
-- while a read waits, what the kernel's uninitialised directory entry holds, calls 1 and 2, and the
-- registers where the program sets none.
pub record Setting : Type 0 where
  pub text : ℕ
  pub buf : ℕ
  pub waiting : Waiting
  pub stale : Dentry
  pub process_call : ℕ → Args → Kernel → Reply
  pub registers : Args

-- The bytes of a text, put into the program's memory.
unfoldable pub place : (a : ℕ) → List ℕ → Kernel → Kernel
place a [] k = k
place a (c ∷ s) k = place (add32 a 1) s (write_byte a c k)

unfoldable pub bytes_at : (n a : ℕ) → Kernel → List ℕ
bytes_at zero a k = []
bytes_at (suc n) a k = read_byte k a ∷ bytes_at n (add32 a 1) k

-- The state is `none` once a call has not come back.
abbrev pub outcome : Reply → ℕ × Option Kernel
outcome (Reply.answer v k) = (v, some k)
outcome Reply.waits = (0, none)
outcome Reply.null_call = (0, none)

abbrev pub running : (Kernel → ℕ × Option Kernel) → Option Kernel → ℕ × Option Kernel
running call none = (0, none)
running call (some k) = call k

module _ (s : Setting) where
  unfoldable pub system_call : Args → (eax : ℕ) → Kernel → ℕ × Option Kernel
  system_call args eax k =
      outcome (syscall_handler (do_syscall_in_c s.waiting s.stale s.process_call args) eax k)

  abbrev pub passing : (ebx ecx edx : ℕ) → Args
  passing ebx ecx edx = record { ebx = ebx; ecx = ecx; edx = edx; name = none }

  abbrev pub naming : List ℕ → Args
  naming name = record { ebx = s.text; ecx = 0; edx = 0; name = some name }

  -- What the buffer holds of the bytes that a call has counted.
  abbrev pub buffered : (count : ℕ) → Option Kernel → List ℕ
  buffered count none = []
  buffered count (some k) = if count == error then [] else bytes_at count s.buf k

  unfoldable pub kernel_calls : Calls (Option Kernel)
  kernel_calls = record {
    getargs = λ nbytes k.
        let (v, k') = running (system_call (passing s.buf nbytes 0) 7) k in
        (v, c_string (if v == error then [] else buffered nbytes k'), k');
    open_path = λ name k. running (system_call (naming name) 5) k;
    read = λ fd nbytes k.
        let (v, k') = running (system_call (passing fd s.buf nbytes) 3) k in (v, buffered v k', k');
    execute = λ command k. running (system_call (naming command) 2) k;
    write = λ fd bytes k.
        running (λ k1. system_call (passing fd s.text (length bytes)) 4 (place s.text bytes k1)) k;
  }

  unfoldable pub kernel_probes : Probes (Option Kernel)
  unfolding kernel_calls
  kernel_probes = record {
    calls = kernel_calls;
    close = λ fd k. running (system_call (passing fd 0 0) 6) k;
    vidmap = λ screen_start k. running (system_call (passing screen_start 0 0) 8) k;
    call_sys = λ num k. running (system_call s.registers num) k;
  }
