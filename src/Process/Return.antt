-- ===== src/Process/Return.antt =====
-- A program that is executed and then halts gives the terminal back to its parent.
use mini_os_with_friends.Base.{
  ℕ, ◌<◌, ◌≡◌, refl, ◌∙◌, ap, ◌≢◌, ◌⊎◌, inl, inr, some, false, List, arith, lt_signed,
}
use mini_os_with_friends.Base.Maps.{update, update_self}
use mini_os_with_friends.State.{Kernel, Pcb}
use mini_os_with_friends.Memory.{active}
use mini_os_with_friends.Paging.{get_pcb_addr, get_kernel_stack_addr, virt_to_phys_user}
use mini_os_with_friends.LineBuffer.{clear_temp_buff}
use mini_os_with_friends.Paging.Isolation.{get_pcb_addr_injective}
use mini_os_with_friends.FileSystem.{Dentry}
use mini_os_with_friends.Process.{
  Outcome, Frame, execute_call, halt_call, set_tss, close_all, return_to_parent, begin_halt,
  drop_line,
}
use mini_os_with_friends.Process.Launch.{Launched, execute_call-Launched}

restored_pids :
    (before after : ℕ → ℕ) (i j : ℕ)
    → before i ≡ 0
    → after ≡ update before i 1
    → update after i 0 j ≡ before j
restored_pids before after i j free e = rw e (ground (arith, free))

-- The process runs and ends: its parent is back, on its page and its stack.
return_to_parent_lem :
    (k0 : Kernel) (old : ℕ) (frame : Frame) (i status : ℕ) (k : Kernel)
    → Launched k0 old frame i k
    → old ≢ i
    → old < 6
    → let back = (return_to_parent status k).1 in
      ((return_to_parent status k).0 ≡ Outcome.resumed status frame.esp frame.ebp)
      × (back.curr_pid ≡ old)
      × ((active back).pid ≡ old)
      × ((active back).parentpid ≡ (k0.pcb (get_pcb_addr old)).parent_process_id)
      × ((j : ℕ) → back.pid_array j ≡ k0.pid_array j)
      × (back.tss_esp0 ≡ get_kernel_stack_addr old)
unfolding return_to_parent close_all set_tss virt_to_phys_user
return_to_parent_lem k0 old frame i status k a ne bound =
    let apart : get_pcb_addr old ≢ get_pcb_addr i =
      λ same. ne (get_pcb_addr_injective old i bound a.at_most same) in
    let here = k.pcb (get_pcb_addr k.curr_pid) in
    let shut = update_self k.pcb (get_pcb_addr k.curr_pid) (close_all here) in
    let mine : here ≡ k.pcb (get_pcb_addr i) = ap (λ c. k.pcb (get_pcb_addr c)) a.curr in
    let esp : (close_all here).task_esp ≡ frame.esp = ap Pcb.task_esp mine ∙ a.pcb_esp in
    let ebp : (close_all here).task_ebp ≡ frame.ebp = ap Pcb.task_ebp mine ∙ a.pcb_ebp in
    let id : (close_all here).process_id ≡ i = ap Pcb.process_id mine ∙ a.pcb_id in
    (
      rw (shut, esp, ebp) refl,
      ground (arith, a.child_of),
      ground (arith, a.child_of),
      ground (arith, a.child_of, a.curr, apart, a.other_pcbs (get_pcb_addr old)),
      λ j. rw (shut, id) (restored_pids k0.pid_array k.pid_array i j a.was_free a.pids),
      ground (arith, a.child_of),
    )

-- What `halt_call` does before it leaves the process.
unfoldable pub halting : Kernel → Kernel
halting k = drop_line (begin_halt k)

halting-Launched :
    (k0 : Kernel) (old : ℕ) (frame : Frame) (i : ℕ) (k : Kernel)
    → Launched k0 old frame i k
    → Launched k0 old frame i (halting k)
unfolding halting clear_temp_buff
halting-Launched k0 old frame i k a = record {
  was_free = a.was_free;
  at_least = a.at_least;
  at_most = a.at_most;
  curr = ground (arith, a.owned);
  same_active = ground (arith, a.same_active);
  owned = ground (arith, a.owned);
  child_of = ground (arith, a.child_of);
  pids = ground (arith, a.pids);
  pcb_id = ground (arith, a.pcb_id);
  pcb_parent = ground (arith, a.pcb_parent);
  pcb_esp = ground (arith, a.pcb_esp);
  pcb_ebp = ground (arith, a.pcb_ebp);
  same_fs = ground (arith, a.same_fs);
  descs = λ j d small. ground (arith, a.descs j d small);
  other_pcbs = λ b ne. ground (arith, a.other_pcbs b ne);
}

pub halt_call_high :
    (frame : Frame) (stale : Dentry) (status : ℕ) (k : Kernel)
    → lt_signed (active k).pid 3 ≡ false
    → halt_call frame stale status k ≡ some (return_to_parent status (halting k))
unfolding halt_call halting
halt_call_high frame stale status k high = ground arith

-- The process halts, in a state where it is as it was started.
pub halt_call-Launched :
    (k0 : Kernel) (frame frame' : Frame) (stale : Dentry) (i status : ℕ) (k : Kernel)
    → Launched k0 (active k0).pid frame i k
    → (active k0).pid < 6
    → ((active k0).pid < 3) ⊎ (k0.pid_array (active k0).pid ≢ 0)
    → (back : Kernel) × (halt_call frame' stale status k
        ≡ some (Outcome.resumed status frame.esp frame.ebp, back))
      × (back.curr_pid ≡ (active k0).pid)
      × ((active back).pid ≡ (active k0).pid)
      × ((active back).parentpid ≡ (k0.pcb (get_pcb_addr (active k0).pid)).parent_process_id)
      × ((j : ℕ) → back.pid_array j ≡ k0.pid_array j)
      × (back.tss_esp0 ≡ get_kernel_stack_addr (active k0).pid)
halt_call-Launched k0 frame frame' stale i status k a bound owned =
    let other : (active k0).pid ≢ i = elim owned [
      | inl shell ↦ λ same. omega (arith, shell, same, a.at_least)
      | inr taken ↦ λ same. taken (ap k0.pid_array same ∙ a.was_free)
    ] in
    let (out, cur, pid, parent, pids, esp0) =
      return_to_parent_lem k0 (active k0).pid frame i status (halting k)
        (halting-Launched k0 _ frame i k a) other bound in
    let back = (return_to_parent status (halting k)).1 in
    let high : lt_signed (active k).pid 3 ≡ false =
      rw a.owned (ground (arith, a.at_least, a.at_most)) in
    let halted : halt_call frame' stale status k
        ≡ some (Outcome.resumed status frame.esp frame.ebp, back) =
      halt_call_high frame' stale status k high ∙ ap (λ o. some (o, back)) out in
    (back, halted, cur, pid, parent, pids, esp0)

-- In a terminal whose shell runs, let process `old`, below 6, be the terminal's current one; it is a base
-- shell, or its number is taken. If `execute_call` enters a program, then `halt_call` with a status, on the
-- state it enters with, leads back out of that call of `execute_call`, with the frame's two registers and
-- the status; `old` is the current process and the terminal's again, the terminal's parent is the one
-- that the PCB of `old` names, each process number is taken or free as before, and the kernel
-- stack for the next system call is that of `old`.
pub halt_call-execute_call :
    (frame frame' : Frame) (stale stale' : Dentry) (command : List ℕ) (p s status : ℕ)
    (k k' : Kernel)
    → (active k).init_flag ≡ 1
    → (active k).pid < 6
    → ((active k).pid < 3) ⊎ (k.pid_array (active k).pid ≢ 0)
    → execute_call frame stale command k ≡ some (Outcome.entered p s, k')
    → (back : Kernel) × (halt_call frame' stale' status k'
        ≡ some (Outcome.resumed status frame.esp frame.ebp, back))
      × (back.curr_pid ≡ (active k).pid)
      × ((active back).pid ≡ (active k).pid)
      × ((active back).parentpid ≡ (k.pcb (get_pcb_addr (active k).pid)).parent_process_id)
      × ((j : ℕ) → back.pid_array j ≡ k.pid_array j)
      × (back.tss_esp0 ≡ get_kernel_stack_addr (active k).pid)
halt_call-execute_call frame frame' stale stale' command p s status k k' init bound owned e =
    let (i, a) = execute_call-Launched frame stale command p s k k' init e in
    halt_call-Launched k frame frame' stale' i status k' a bound owned
