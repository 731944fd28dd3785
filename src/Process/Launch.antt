-- ===== src/Process/Launch.antt =====
-- What `execute_call` leaves behind when it enters a program: the PCB, the terminal and the process number.
use mini_os_with_friends.Base.{
  ℕ, ◌≤◌, ◌<◌, ◌≡◌, refl, ◌∙◌, sym, ap, ◌≢◌, inl, inr, Option, none, some, Option-cases, Bool-cases,
  List, arith, ◌==◌, error, subst,
}
use mini_os_with_friends.Base.Maps.{update, update_self, update_ne}
use mini_os_with_friends.State.{FileDesc, Pcb, Kernel}
use mini_os_with_friends.Memory.{active, set_terminal}
use mini_os_with_friends.Paging.{get_pcb_addr, virt_to_phys_user}
use mini_os_with_friends.LineBuffer.{clear_temp_buff}
use mini_os_with_friends.FileSystem.{Dentry, read_dentry_by_name, read_data, inode_length}
use mini_os_with_friends.Process.{
  Outcome, Frame, and_then, load_image, execute_call, launch, load_program, check_program,
  allocate_pid, adopt_pid, record_parent, fill_pcb, set_tss, begin_execute, program_addr,
  fresh_desc, first_word, skip_spaces, argument, narrow_inode,
}
use mini_os_with_friends.FileSystem.ReadOnly.{ReadOnly, read_data-ReadOnly}
use mini_os_with_friends.Process.Allocated.{
  Allocated, Allocated-ReadOnly, allocated, virt_to_phys_user-Allocated,
}

-- What a read before the rest of a call left, if the call has a result.
pub and_then-eq-some :
    {C : Type 0} (o : Option (ℕ × Kernel)) (f : ℕ → Kernel → Option C) {c : C}
    → and_then o f ≡ some c
    → (v : ℕ) × ((k : Kernel) × (o ≡ some (v, k)) × (f v k ≡ some c))
and_then-eq-some none f e = cc
and_then-eq-some (some (v, k)) f e = (v, (k, refl, e))

-- What a started program leaves: its PCB and its terminal, and its parent's.
pub record Launched (k0 : Kernel) (old : ℕ) (frame : Frame) (i : ℕ) (k : Kernel) : Type 0 where
  pub was_free : k0.pid_array i ≡ 0
  pub at_least : 3 ≤ i
  pub at_most : i < 6
  pub curr : k.curr_pid ≡ i
  pub same_active : k.active_terminal ≡ k0.active_terminal
  pub owned : (active k).pid ≡ i
  pub child_of : (active k).parentpid ≡ old
  pub pids : k.pid_array ≡ update k0.pid_array i 1
  pub pcb_id : (k.pcb (get_pcb_addr i)).process_id ≡ i
  pub pcb_parent : (k.pcb (get_pcb_addr i)).parent_process_id ≡ old
  pub pcb_esp : (k.pcb (get_pcb_addr i)).task_esp ≡ frame.esp
  pub pcb_ebp : (k.pcb (get_pcb_addr i)).task_ebp ≡ frame.ebp
  pub same_fs : k.fs ≡ k0.fs
  pub descs :
      (j : ℕ) (d : FileDesc) → j < 8 → (k.pcb (get_pcb_addr i)).file_desc_array j ≡ fresh_desc j d
  pub other_pcbs : (a : ℕ) → a ≢ get_pcb_addr i → k.pcb a ≡ k0.pcb a

record_parent_child :
    (old : ℕ) (k : Kernel)
    → 3 ≤ k.curr_pid
    → k.curr_pid < 6
    → record_parent old k
      ≡ set_terminal k.active_terminal
          (record (active k) { parentpid = old })
          (record k { save_parent_pid = old })
unfolding record_parent
record_parent_child old k lo hi = ground arith

-- What a descriptor was before does not matter.
fresh_desc_old : (j : ℕ) (d e : FileDesc) → j < 8 → fresh_desc j d ≡ fresh_desc j e
unfolding fresh_desc
fresh_desc_old j d e small = ground arith

fill_pcb-Launched :
    (k0 : Kernel) (i old : ℕ) (arg : List ℕ) (frame : Frame) (k : Kernel)
    → Allocated k0 i k
    → Launched k0 old frame i (fill_pcb arg frame (record_parent old k))
unfolding fill_pcb
fill_pcb-Launched k0 i old arg frame k a =
    rw (record_parent_child old k (omega (arith, a.curr)) (omega (arith, a.curr)), a.curr)
      (record {
        was_free = a.was_free;
        at_least = a.at_least;
        at_most = a.at_most;
        curr = refl;
        same_active = a.same_active;
        owned = ground (arith, a.owned);
        child_of = ground arith;
        pids = a.pids;
        pcb_id = ground arith;
        pcb_parent = ground arith;
        pcb_esp = ground arith;
        pcb_ebp = ground arith;
        same_fs = a.same_fs;
        descs = λ j d small.
            ap (λ (p : Pcb). p.file_desc_array j) (update_self k.pcb (get_pcb_addr i) _)
            ∙ fresh_desc_old j _ d small;
        other_pcbs =
            λ b ne. update_ne k.pcb (get_pcb_addr i) b _ (λ e. ne (sym e)) ∙ ap (λ f. f b) a.pcbs;
      })

Launched-ReadOnly :
    (k0 : Kernel) (old : ℕ) (frame : Frame) (i : ℕ) (k k' : Kernel)
    → Launched k0 old frame i k
    → ReadOnly k k'
    → Launched k0 old frame i k'
Launched-ReadOnly k0 old frame i k k' a e = rw e (record {
  was_free = a.was_free;
  at_least = a.at_least;
  at_most = a.at_most;
  curr = a.curr;
  same_active = a.same_active;
  owned = a.owned;
  child_of = a.child_of;
  pids = a.pids;
  pcb_id = a.pcb_id;
  pcb_parent = a.pcb_parent;
  pcb_esp = a.pcb_esp;
  pcb_ebp = a.pcb_ebp;
  same_fs = a.same_fs;
  descs = a.descs;
  other_pcbs = a.other_pcbs;
})

set_tss-Launched :
    (k0 : Kernel) (old : ℕ) (frame : Frame) (i pid : ℕ) (k : Kernel)
    → Launched k0 old frame i k
    → Launched k0 old frame i (set_tss pid k)
unfolding set_tss
set_tss-Launched k0 old frame i pid k a = record {
  was_free = a.was_free;
  at_least = a.at_least;
  at_most = a.at_most;
  curr = a.curr;
  same_active = a.same_active;
  owned = a.owned;
  child_of = a.child_of;
  pids = a.pids;
  pcb_id = a.pcb_id;
  pcb_parent = a.pcb_parent;
  pcb_esp = a.pcb_esp;
  pcb_ebp = a.pcb_ebp;
  same_fs = a.same_fs;
  descs = a.descs;
  other_pcbs = a.other_pcbs;
}

launch-Launched :
    (inode : ℕ) (arg : List ℕ) (k0 : Kernel) (old : ℕ) (frame : Frame) (i : ℕ) (k k' : Kernel)
    (o : Outcome)
    → Allocated k0 i k
    → launch inode arg old frame k ≡ some (o, k')
    → Launched k0 old frame i k'
unfolding launch
launch-Launched inode arg k0 old frame i k k' o a e =
    let filled = fill_pcb arg frame (record_parent old k) in
    let step = and_then-eq-some (read_data inode 24 frame.entry_addr 4 filled) _ e in
    let v = step.0 in
    let k2 = step.1.0 in
    let ended : k' ≡ set_tss k2.curr_pid k2 = cc step.1.2 in
    rw ended (
      set_tss-Launched k0 old frame i k2.curr_pid k2 (
        Launched-ReadOnly k0 old frame i filled k2 (fill_pcb-Launched k0 i old arg frame k a)
          (read_data-ReadOnly inode 24 frame.entry_addr 4 v filled k2 step.1.1)))

load_image-Launched :
    (inode : ℕ) (arg : List ℕ) (k0 : Kernel) (old : ℕ) (frame : Frame) (i p s : ℕ) (k k' : Kernel)
    → Allocated k0 i k
    → load_image inode arg old frame k ≡ some (Outcome.entered p s, k')
    → Launched k0 old frame i k'
unfolding load_image
load_image-Launched inode arg k0 old frame i p s k k' a e =
    let paged = virt_to_phys_user k.curr_pid k in
    let step = and_then-eq-some (read_data inode 0 program_addr (inode_length k inode) paged) _ e in
    let loaded =
      Allocated-ReadOnly k0 i paged step.1.0 (virt_to_phys_user-Allocated k0 i k.curr_pid k a) (
        read_data-ReadOnly inode 0 program_addr (inode_length k inode) step.0 paged step.1.0
          step.1.1) in
    elim (Bool-cases (step.0 == error)) [
      | inl failed ↦ ground arith
      | inr fine ↦
          launch-Launched inode arg k0 old frame i step.1.0 k' (Outcome.entered p s) loaded
            (ground arith)
    ]

load_program-Launched :
    (inode : ℕ) (arg : List ℕ) (frame : Frame) (p s : ℕ) (k k' : Kernel)
    → (active k).init_flag ≡ 1
    → load_program inode arg frame k ≡ some (Outcome.entered p s, k')
    → (i : ℕ) × Launched k k.curr_pid frame i k'
unfolding load_program
load_program-Launched inode arg frame p s k k' init e = elim (Option-cases (allocate_pid k)) [
  | inl none_free ↦ ground arith
  | inr (k1, taken) ↦
      let (i, a) = allocated k k1 init taken in
      (i, load_image-Launched inode arg k k.curr_pid frame i p s (adopt_pid k1) k' a (ground arith))
]

-- What `execute_call` does before it takes a number changes nothing that a started program is said of.
Launched-begin :
    (k k1 : Kernel) (old : ℕ) (frame : Frame) (i : ℕ) (k' : Kernel)
    → Launched k1 old frame i k'
    → k1.pid_array ≡ k.pid_array
    → k1.active_terminal ≡ k.active_terminal
    → k1.pcb ≡ k.pcb
    → k1.fs ≡ k.fs
    → Launched k old frame i k'
Launched-begin k k1 old frame i k' a pids same pcbs fs = record {
  was_free = ap (λ f. f i) (sym pids) ∙ a.was_free;
  at_least = a.at_least;
  at_most = a.at_most;
  curr = a.curr;
  same_active = a.same_active ∙ same;
  owned = a.owned;
  child_of = a.child_of;
  pids = a.pids ∙ ap (λ f. update f i 1) pids;
  pcb_id = a.pcb_id;
  pcb_parent = a.pcb_parent;
  pcb_esp = a.pcb_esp;
  pcb_ebp = a.pcb_ebp;
  same_fs = a.same_fs ∙ fs;
  descs = a.descs;
  other_pcbs = λ b ne. a.other_pcbs b ne ∙ ap (λ f. f b) pcbs;
}

check_program-Launched :
    (inode : ℕ) (arg : List ℕ) (frame : Frame) (p s : ℕ) (k k' : Kernel)
    → (active k).init_flag ≡ 1
    → check_program inode arg frame k ≡ some (Outcome.entered p s, k')
    → (i : ℕ) × Launched k k.curr_pid frame i k'
unfolding check_program
check_program-Launched inode arg frame p s k k' init e =
    let step = and_then-eq-some (read_data inode 0 frame.buf 4 k) _ e in
    let k1 = step.1.0 in
    let read : ReadOnly k k1 = read_data-ReadOnly inode 0 frame.buf 4 step.0 k k1 step.1.1 in
    let (i, a) = load_program-Launched inode arg frame p s k1 k' (rw read init) (ground arith) in
    let same_pid : k1.curr_pid ≡ k.curr_pid = ap Kernel.curr_pid read in
    let b : Launched k1 k.curr_pid frame i k' =
      subst (λ old. Launched k1 old frame i k') same_pid a in
    (
      i,
      Launched-begin k k1 k.curr_pid frame i k' b (ap Kernel.pid_array read)
          (ap Kernel.active_terminal read) (ap Kernel.pcb read) (ap Kernel.fs read),
    )

begin_execute_fs : (k : Kernel) → (begin_execute k).fs ≡ k.fs
unfolding begin_execute clear_temp_buff
begin_execute_fs k = ground arith

pub begin_execute_lem :
    (k : Kernel)
    → ((begin_execute k).pid_array ≡ k.pid_array)
      × ((begin_execute k).active_terminal ≡ k.active_terminal)
      × ((begin_execute k).pcb ≡ k.pcb)
      × ((begin_execute k).curr_pid ≡ (active k).pid)
      × ((active (begin_execute k)).init_flag ≡ (active k).init_flag)
unfolding begin_execute clear_temp_buff
begin_execute_lem k = (ground arith, ground arith, ground arith, ground arith, ground arith)

pub execute_call-Launched :
    (frame : Frame) (stale : Dentry) (command : List ℕ) (p s : ℕ) (k k' : Kernel)
    → (active k).init_flag ≡ 1
    → execute_call frame stale command k ≡ some (Outcome.entered p s, k')
    → (i : ℕ) × Launched k (active k).pid frame i k'
unfolding execute_call
execute_call-Launched frame stale command p s k k' init e =
    let k1 = begin_execute k in
    let (pids, same, pcbs, pid, flag) = begin_execute_lem k in
    elim (Option-cases (read_dentry_by_name k1 (first_word (skip_spaces command)) stale)) [
      | inl missing ↦ ground arith
      | inr (dentry, found) ↦
          let (i, a) =
            check_program-Launched (narrow_inode dentry.inode_num) (argument command) frame p s k1
              k' (flag ∙ init) (ground arith) in
          (
            i,
            Launched-begin k k1 (active k).pid frame i k'
                (subst (λ old. Launched k1 old frame i k') pid a) pids same pcbs
                (begin_execute_fs k),
          )
    ]
