-- ===== src/Exceptions/Status.antt =====
-- What the parent of a process that raised an exception is told.
use mini_os_with_friends.Base.{
  ℕ, ◌≡◌, refl, ◌∙◌, ap, arith, ◌==◌, Bool, true, not, ◌&&◌, ltb, some, List, [], ◌∷◌, word, length,
  ◌<◌, ◌≢◌, ◌⊎◌,
}
use native.Mathlib.Decide.{ℕ_discrete}
use mini_os_with_friends.Base.Maps.{update_self, update_ne}
use mini_os_with_friends.State.{Terminal, Kernel}
use mini_os_with_friends.Memory.{active}
use mini_os_with_friends.FileSystem.{Dentry}
use mini_os_with_friends.Screen.{
  terminal_putc, puts, newline_cursor, backspace_cursor, advance_cursor, last_row_cursor,
}
use mini_os_with_friends.Screen.Cursor.{putc_cursor, terminal_putc-Moves}
use mini_os_with_friends.Screen.Display.{who, terminal_putc-who}
use mini_os_with_friends.Printf.{printf}
use mini_os_with_friends.Printf.Plain.{IsPlainFormat, printf-puts}
use mini_os_with_friends.Process.{Outcome, Frame, halt_call, execute_call}
use mini_os_with_friends.Process.Return.{halt_call-Launched}
use mini_os_with_friends.Process.Launch.{Launched, execute_call-Launched}
use mini_os_with_friends.Paging.{get_pcb_addr, get_kernel_stack_addr}
use mini_os_with_friends.Exceptions.{Exception, message, handle_exception}

-- Whether a text is a plain format of fewer than 2 ^ 32 bytes, as a test.
is_plain : List ℕ → Bool
is_plain [] = true
is_plain (c ∷ s) = not (c == b'%') && is_plain s

is_plain-IsPlainFormat : (s : List ℕ) → is_plain s ≡ true → IsPlainFormat s
unfolding is_plain
is_plain-IsPlainFormat [] e = IsPlainFormat.empty
is_plain-IsPlainFormat (c ∷ s) e =
    IsPlainFormat.next (ground arith) (is_plain-IsPlainFormat s (ground arith))

short_and_plain : (e : Exception) → (is_plain (message e) && ltb (length (message e)) word) ≡ true
unfolding is_plain message
short_and_plain Exception.divide_error = refl
short_and_plain Exception.debug_exception = refl
short_and_plain Exception.nmi_interrupt = refl
short_and_plain Exception.breakpoint = refl
short_and_plain Exception.overflow = refl
short_and_plain Exception.bound_range_exceeded = refl
short_and_plain Exception.invalid_opcode = refl
short_and_plain Exception.device_not_available = refl
short_and_plain Exception.double_fault = refl
short_and_plain Exception.coprocessor_segment_overun = refl
short_and_plain Exception.invalid_tss_exception = refl
short_and_plain Exception.segment_not_present = refl
short_and_plain Exception.stack_fault_execption = refl
short_and_plain Exception.general_protection_exception = refl
short_and_plain Exception.pagefault = refl
short_and_plain Exception.mathfault = refl
short_and_plain Exception.alignment_check = refl
short_and_plain Exception.machine_check = refl
short_and_plain Exception.simd_flt_pt_exception = refl
short_and_plain Exception.syscall_handler_pseudo = refl

printf-message :
    (conv_buf : ℕ → ℕ) (e : Exception) (k : Kernel)
    → printf conv_buf (message e) [] k ≡ some (puts (message e) k)
printf-message conv_buf e k =
    let both = short_and_plain e in
    printf-puts conv_buf (message e) k (is_plain-IsPlainFormat (message e) (ground (arith, both)))
      (ground (arith, both))

-- The process of a terminal, and its parent.
abbrev owner : Terminal → ℕ × ℕ
owner t = (t.pid, t.parentpid)

putc_cursor-owner : (c : ℕ) (s : Terminal) → owner (putc_cursor c s) ≡ owner s
unfolding putc_cursor newline_cursor backspace_cursor advance_cursor last_row_cursor
putc_cursor-owner c s = ground arith

terminal_putc-owner :
    (c t i : ℕ) (k : Kernel) → owner ((terminal_putc c t k).terminal i) ≡ owner (k.terminal i)
terminal_putc-owner c t i k = rw (terminal_putc-Moves c t k i) (elim (ℕ_discrete t i) [
  | yes e ↦
      rw (e, update_self k.terminal i (putc_cursor c (k.terminal i)))
        (putc_cursor-owner c (k.terminal i))
  | no ne ↦ rw (update_ne k.terminal t i (putc_cursor c (k.terminal t)) ne) refl
])

puts-who : (s : List ℕ) (k : Kernel) → who (puts s k).1 ≡ who k
unfolding puts
puts-who [] k = refl
puts-who (c ∷ s) k =
    puts-who s (terminal_putc c k.active_terminal k) ∙ terminal_putc-who c k.active_terminal k

puts-owner :
    (s : List ℕ) (i : ℕ) (k : Kernel) → owner ((puts s k).1.terminal i) ≡ owner (k.terminal i)
unfolding puts
puts-owner [] i k = refl
puts-owner (c ∷ s) i k =
    puts-owner s i (terminal_putc c k.active_terminal k)
    ∙ terminal_putc-owner c k.active_terminal i k

puts-Launched :
    (s : List ℕ) (k0 : Kernel) (old : ℕ) (frame : Frame) (i : ℕ) (k : Kernel)
    → Launched k0 old frame i k
    → Launched k0 old frame i (puts s k).1
puts-Launched s k0 old frame i k a =
    let same = puts-who s k in
    let k' = (puts s k).1 in
    let at : k'.active_terminal ≡ k.active_terminal = ap (λ w. w.1) same in
    let pcbs : k'.pcb ≡ k.pcb = ap (λ w. w.2) same in
    let own : owner (active k') ≡ owner (active k) =
      puts-owner s k'.active_terminal k ∙ ap (λ t. owner (k.terminal t)) at in
    record {
      was_free = a.was_free;
      at_least = a.at_least;
      at_most = a.at_most;
      curr = ap (λ w. w.5) same ∙ a.curr;
      same_active = at ∙ a.same_active;
      owned = ap (λ o. o.0) own ∙ a.owned;
      child_of = ap (λ o. o.1) own ∙ a.child_of;
      pids = ap (λ w. w.6) same ∙ a.pids;
      pcb_id = rw pcbs a.pcb_id;
      pcb_parent = rw pcbs a.pcb_parent;
      pcb_esp = rw pcbs a.pcb_esp;
      pcb_ebp = rw pcbs a.pcb_ebp;
      same_fs = ap (λ w. w.3) same ∙ a.same_fs;
      descs = λ j d small. rw pcbs (a.descs j d small);
      other_pcbs = λ b ne. rw pcbs (a.other_pcbs b ne);
    }

-- The handler prints its line and halts with status 0.
handle_exception_halts :
    (conv_buf : ℕ → ℕ) (frame : Frame) (stale : Dentry) (e : Exception) (k : Kernel)
    → handle_exception conv_buf frame stale e k ≡ halt_call frame stale 0 (puts (message e) k).1
unfolding handle_exception
handle_exception_halts conv_buf frame stale e k = ground (arith, printf-message conv_buf e k)

-- In a terminal whose shell runs, let process `old`, below 6, be the terminal's current one; it is a base
-- shell, or its number is taken. If `execute_call` enters a program, and that program raises any of the
-- exceptions in the state it is entered with, then the handler, whatever the conversion buffer of `printf` holds, leads
-- back out of that call of `execute_call`, with the two registers that the call saved and with the value
-- 0; `old` is the current process and the terminal's again, the terminal's parent is the one that the PCB of `old`
-- names, each process number is taken or free as before, and the kernel stack for the next system call
-- is that of `old`.
pub handle_exception-execute_call :
    (conv_buf : ℕ → ℕ) (frame frame' : Frame) (stale stale' : Dentry) (command : List ℕ) (p s : ℕ)
    (e : Exception) (k k' : Kernel)
    → (active k).init_flag ≡ 1
    → (active k).pid < 6
    → ((active k).pid < 3) ⊎ (k.pid_array (active k).pid ≢ 0)
    → execute_call frame stale command k ≡ some (Outcome.entered p s, k')
    → (back : Kernel) × (handle_exception conv_buf frame' stale' e k'
        ≡ some (Outcome.resumed 0 frame.esp frame.ebp, back))
      × (back.curr_pid ≡ (active k).pid)
      × ((active back).pid ≡ (active k).pid)
      × ((active back).parentpid ≡ (k.pcb (get_pcb_addr (active k).pid)).parent_process_id)
      × ((j : ℕ) → back.pid_array j ≡ k.pid_array j)
      × (back.tss_esp0 ≡ get_kernel_stack_addr (active k).pid)
handle_exception-execute_call conv_buf frame frame' stale stale' command p s e k k' init bound owned
      entered =
    let (i, a) = execute_call-Launched frame stale command p s k k' init entered in
    let (back, halted, cur, pid, parent, pids, esp0) =
      halt_call-Launched k frame frame' stale' i 0 (puts (message e) k').1
        (puts-Launched (message e) k (active k).pid frame i k' a) bound owned in
    (
      back,
      handle_exception_halts conv_buf frame' stale' e k' ∙ halted,
      cur,
      pid,
      parent,
      pids,
      esp0,
    )
