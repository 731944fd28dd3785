-- ===== src/Syscall/Handler.antt =====
-- The handler of interrupt 0x80 in student-distrib/exceptions.S: the number in EAX, the arguments in EBX, ECX
-- and EDX, and the table of the C functions.
use mini_os_with_friends.Base.{
  true, ℕ, ◌≡◌, ◌⊎◌, inl, inr, ◌≤◌, ◌<◌, arith, ◌||◌, not, Option, List, ◌==◌, if◌then◌else◌, error,
  lt_signed,
}
use mini_os_with_friends.State.{Kernel}
use mini_os_with_friends.Pic.{cli, sti}
use mini_os_with_friends.FileSystem.{Dentry}
use mini_os_with_friends.Syscall.{
  Reply, Waiting, reply, reply_option, read_call, write_call, open_call, close_call, getargs_call,
  vidmap_call, set_handler_call, sigreturn_call,
}

-- The three registers, and the string that EBX leads to, or `none` if it is null.
pub record Args : Type 0 where
  pub ebx : ℕ
  pub ecx : ℕ
  pub edx : ℕ
  pub name : Option (List ℕ)

-- `do_syscall_in_C`. Calls 1 and 2, which end in another process, are an argument.
unfoldable pub do_syscall_in_c :
    Waiting
    → Dentry
    → (process_call : ℕ → Args → Kernel → Reply) → Args
    → (eax : ℕ) → Kernel
    → Reply
do_syscall_in_c w stale process_call a eax k =
    if eax == 3
    then read_call w a.ebx a.ecx a.edx k
    else if eax == 4
    then write_call a.ebx a.ecx a.edx k
    else if eax == 5
    then reply (open_call a.name stale k)
    else if eax == 6
    then close_call a.ebx k
    else if eax == 7
    then reply_option (getargs_call a.ebx a.ecx k)
    else if eax == 8
    then reply (vidmap_call a.ebx k)
    else if eax == 9
    then reply (set_handler_call k)
    else if eax == 10
    then reply (sigreturn_call k)
    else process_call eax a k

-- What follows the call, up to the `iret`.
unfoldable pub after_call : Reply → Reply
after_call (Reply.answer v k) = Reply.answer v (sti (cli k))
after_call Reply.waits = Reply.waits
after_call Reply.null_call = Reply.null_call

unfoldable pub syscall_handler : (serve : ℕ → Kernel → Reply) → (eax : ℕ) → Kernel → Reply
syscall_handler serve eax k =
    if lt_signed eax 1 || not (lt_signed eax 11)
    then Reply.answer error (sti (cli k))
    else after_call (serve eax (sti (cli k)))

-- A number that is not one of the calls 1 to 10, a negative one included, calls nothing: the answer is -1,
-- and interrupts are on.
pub syscall_handler_rejects :
    (serve : ℕ → Kernel → Reply) (eax : ℕ) (k : Kernel)
    → (eax ≡ 0) ⊎ (11 ≤ eax)
    → eax < 0x100000000
    → syscall_handler serve eax k ≡ Reply.answer error (record k { interrupts = true })
unfolding syscall_handler
syscall_handler_rejects serve eax k (inl none_given) small = ground arith
syscall_handler_rejects serve eax k (inr beyond) small = ground arith
