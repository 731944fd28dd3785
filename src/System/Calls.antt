-- ===== src/System/Calls.antt =====
-- Processes, pages and files leave the screens and the lines alone.
use mini_os_with_friends.Base.{
  ℕ, ◌≡◌, refl, ◌∙◌, ap, sym, arith, ◌==◌, true, Bool-cases, Option-cases, inl, inr, some, List,
  error, ltb, lt_signed,
}
use mini_os_with_friends.State.{Kernel}
use mini_os_with_friends.Memory.{active}
use mini_os_with_friends.Paging.{virt_to_phys_user}
use mini_os_with_friends.Pic.{cli, send_eoi}
use mini_os_with_friends.LineBuffer.{clear_temp_buff}
use mini_os_with_friends.CString.{strlen}
use mini_os_with_friends.FileSystem.{Dentry, read_dentry_by_name, read_data, inode_length}
use mini_os_with_friends.Process.{
  Outcome, Frame, load_image, execute_call, halt_call, launch, load_program, check_program, is_elf,
  allocate_pid, adopt_pid, record_parent, fill_pcb, set_tss, begin_execute, program_addr,
  first_word, skip_spaces, argument, narrow_inode, return_to_parent, reset_shell, shell_command,
  begin_halt,
}
use mini_os_with_friends.FileSystem.ReadOnly.{ReadOnly, read_data-ReadOnly}
use mini_os_with_friends.Process.Launch.{and_then-eq-some}
use mini_os_with_friends.Process.Return.{halting, halt_call_high}
use mini_os_with_friends.System.Text.{Agree, Agree-trans, Agree-if, set_terminal-Agree, view}

pub Agree-refl : (k : Kernel) → Agree k k
Agree-refl k i = refl

-- After steps that agree, an equation of results that agree.
pub Agree-eq : (k k' k'' : Kernel) → Agree k k' → k'' ≡ k' → Agree k k''
Agree-eq k k' k'' p e i = ap (λ q. view q i) e ∙ p i

pub send_eoi-Agree : (irq : ℕ) (k : Kernel) → Agree k (send_eoi irq k)
unfolding send_eoi
send_eoi-Agree irq k i = ground arith

pub ReadOnly-Agree : (k k' : Kernel) → ReadOnly k k' → Agree k k'
ReadOnly-Agree k k' e i = ap (λ q. view q i) e

clear_temp_buff-Agree : (k : Kernel) → Agree k (clear_temp_buff k)
unfolding clear_temp_buff
clear_temp_buff-Agree k i = set_terminal-Agree k.displayed_terminal _ k refl i

begin_execute-Agree : (k : Kernel) → Agree k (begin_execute k)
unfolding begin_execute
begin_execute-Agree k i = elim (Bool-cases (k.displayed_terminal == k.active_terminal)) [
  | inl shown ↦ rw shown (clear_temp_buff-Agree (cli k) i)
  | inr hidden ↦ rw hidden refl
]

allocate_pid-Agree : (k k' : Kernel) → allocate_pid k ≡ some k' → Agree k k'
unfolding allocate_pid
allocate_pid-Agree k k' e i = ground arith

adopt_pid-Agree : (k : Kernel) → Agree k (adopt_pid k)
unfolding adopt_pid
adopt_pid-Agree k =
    Agree-if ((active k).init_flag == 1) k _ k (set_terminal-Agree k.active_terminal _ k refl)
      (Agree-refl k)

fill_pcb-Agree :
    (arg : List ℕ) (frame : Frame) (old : ℕ) (k : Kernel)
    → Agree k (fill_pcb arg frame (record_parent old k))
unfolding fill_pcb record_parent
fill_pcb-Agree arg frame old k i = elim (Bool-cases (lt_signed k.curr_pid 3)) [
  | inl base ↦ rw base (set_terminal-Agree k.active_terminal _ k refl i)
  | inr child ↦ rw child (set_terminal-Agree k.active_terminal _ k refl i)
]

pub virt_to_phys_user-Agree : (pid : ℕ) (k : Kernel) → Agree k (virt_to_phys_user pid k)
unfolding virt_to_phys_user
virt_to_phys_user-Agree pid k i = refl

pub set_tss-Agree : (pid : ℕ) (k : Kernel) → Agree k (set_tss pid k)
unfolding set_tss
set_tss-Agree pid k i = refl

pub read_data-Agree :
    (inode offset buf n v : ℕ) (k k' : Kernel)
    → read_data inode offset buf n k ≡ some (v, k')
    → Agree k k'
read_data-Agree inode offset buf n v k k' e =
    ReadOnly-Agree k k' (read_data-ReadOnly inode offset buf n v k k' e)

launch-Agree :
    (inode : ℕ) (arg : List ℕ) (old : ℕ) (frame : Frame) (k k' : Kernel) (o : Outcome)
    → launch inode arg old frame k ≡ some (o, k')
    → Agree k k'
unfolding launch
launch-Agree inode arg old frame k k' o e =
    let filled = fill_pcb arg frame (record_parent old k) in
    let (v, (k2, read, rest)) =
      and_then-eq-some (read_data inode 24 frame.entry_addr 4 filled) _ e in
    let ended : k' ≡ set_tss k2.curr_pid k2 = cc rest in
    Agree-eq k (set_tss k2.curr_pid k2) k'
      (Agree-trans k filled (set_tss k2.curr_pid k2) (fill_pcb-Agree arg frame old k) (
        Agree-trans filled k2 (set_tss k2.curr_pid k2)
          (read_data-Agree inode 24 frame.entry_addr 4 v filled k2 read)
          (set_tss-Agree k2.curr_pid k2)))
      ended

load_image-Agree :
    (inode : ℕ) (arg : List ℕ) (old : ℕ) (frame : Frame) (k k' : Kernel) (o : Outcome)
    → load_image inode arg old frame k ≡ some (o, k')
    → Agree k k'
unfolding load_image
load_image-Agree inode arg old frame k k' o e =
    let paged = virt_to_phys_user k.curr_pid k in
    let (v, (k1, read, rest)) =
      and_then-eq-some (read_data inode 0 program_addr (inode_length k inode) paged) _ e in
    let loaded =
      Agree-trans k paged k1 (virt_to_phys_user-Agree k.curr_pid k)
        (read_data-Agree inode 0 program_addr (inode_length k inode) v paged k1 read) in
    elim (Bool-cases (v == error)) [
      | inl failed ↦ Agree-eq k k1 k' loaded (ground arith)
      | inr fine ↦
          Agree-trans k k1 k' loaded (launch-Agree inode arg old frame k1 k' o (ground arith))
    ]

load_program-Agree :
    (inode : ℕ) (arg : List ℕ) (frame : Frame) (k k' : Kernel) (o : Outcome)
    → load_program inode arg frame k ≡ some (o, k')
    → Agree k k'
unfolding load_program
load_program-Agree inode arg frame k k' o e = elim (Option-cases (allocate_pid k)) [
  | inl full ↦ Agree-eq k k k' (Agree-refl k) (ground arith)
  | inr (k1, taken) ↦ Agree-trans k k1 k' (allocate_pid-Agree k k1 taken) (
      Agree-trans k1 (adopt_pid k1) k' (adopt_pid-Agree k1)
        (load_image-Agree inode arg k.curr_pid frame (adopt_pid k1) k' o (ground arith)))
]

check_program-Agree :
    (inode : ℕ) (arg : List ℕ) (frame : Frame) (k k' : Kernel) (o : Outcome)
    → check_program inode arg frame k ≡ some (o, k')
    → Agree k k'
unfolding check_program
check_program-Agree inode arg frame k k' o e =
    let (v, (k1, read, rest)) = and_then-eq-some (read_data inode 0 frame.buf 4 k) _ e in
    let same = read_data-Agree inode 0 frame.buf 4 v k k1 read in
    elim (Bool-cases (v == error)) [
      | inl failed ↦ Agree-eq k k1 k' same (ground arith)
      | inr fine ↦ elim (Bool-cases (is_elf frame.buf k1)) [
        | inl elf ↦
            Agree-trans k k1 k' same (load_program-Agree inode arg frame k1 k' o (ground arith))
        | inr other ↦ Agree-eq k k1 k' same (ground arith)
      ]
    ]

pub execute_call-Agree :
    (frame : Frame) (stale : Dentry) (command : List ℕ) (k k' : Kernel) (o : Outcome)
    → execute_call frame stale command k ≡ some (o, k')
    → Agree k k'
unfolding execute_call
execute_call-Agree frame stale command k k' o e =
    let k1 = begin_execute k in
    let begun = begin_execute-Agree k in
    elim (Bool-cases (ltb 1023 (strlen command))) [
      | inl long ↦ Agree-eq k k1 k' begun (ground arith)
      | inr short ↦
          elim (Option-cases (read_dentry_by_name k1 (first_word (skip_spaces command)) stale)) [
            | inl missing ↦ Agree-eq k k1 k' begun (ground arith)
            | inr (dentry, found) ↦ Agree-trans k k1 k' begun (
                check_program-Agree (narrow_inode dentry.inode_num) (argument command) frame k1 k' o
                  (ground arith))
          ]
    ]

reset_shell-Agree : (k : Kernel) → Agree k (reset_shell k)
unfolding reset_shell
reset_shell-Agree k i = set_terminal-Agree k.active_terminal _ k refl i

return_to_parent-Agree : (status : ℕ) (k : Kernel) → Agree k (return_to_parent status k).1
unfolding return_to_parent set_tss virt_to_phys_user
return_to_parent-Agree status k i = set_terminal-Agree k.active_terminal _ k refl i

halting-Agree : (k : Kernel) → Agree k (halting k)
unfolding halting
halting-Agree k i =
    let reset =
      set_terminal-Agree k.active_terminal
        (record (active k) { rtc_counter = 512; rtc_target = 512 }) k refl i in
    elim (Bool-cases (k.displayed_terminal == k.active_terminal)) [
      | inl shown ↦ rw shown (clear_temp_buff-Agree (begin_halt k) i ∙ reset)
      | inr hidden ↦ rw hidden reset
    ]

begin_halt-Agree : (k : Kernel) → Agree k (begin_halt k)
begin_halt-Agree k i = set_terminal-Agree k.active_terminal _ k refl i

-- The base shell is started anew.
halt_call-low :
    (frame : Frame) (stale : Dentry) (status : ℕ) (k k' : Kernel) (o : Outcome)
    → lt_signed (active k).pid 3 ≡ true
    → halt_call frame stale status k ≡ some (o, k')
    → (o' : Outcome) × (execute_call frame stale shell_command (reset_shell (begin_halt k))
        ≡ some (o', k'))
unfolding halt_call
halt_call-low frame stale status k k' o low e =
    elim (Option-cases (execute_call frame stale shell_command (reset_shell (begin_halt k)))) [
      | inl waits ↦ ground arith
      | inr ((Outcome.returned v, k2), done) ↦ (Outcome.returned v, ground arith)
      | inr ((Outcome.entered p s, k2), done) ↦ (Outcome.entered p s, ground arith)
      | inr ((Outcome.resumed a b c, k2), done) ↦ (Outcome.resumed a b c, ground arith)
    ]

pub halt_call-Agree :
    (frame : Frame) (stale : Dentry) (status : ℕ) (k k' : Kernel) (o : Outcome)
    → halt_call frame stale status k ≡ some (o, k')
    → Agree k k'
halt_call-Agree frame stale status k k' o e = elim (Bool-cases (lt_signed (active k).pid 3)) [
  | inl base ↦
      let (o', started) = halt_call-low frame stale status k k' o base e in
      let reset = reset_shell (begin_halt k) in
      Agree-trans k (begin_halt k) k' (begin_halt-Agree k) (
        Agree-trans (begin_halt k) reset k' (reset_shell-Agree (begin_halt k))
          (execute_call-Agree frame stale shell_command reset k' o' started))
  | inr child ↦
      let ended = sym (halt_call_high frame stale status k child) ∙ e in
      Agree-eq k (return_to_parent status (halting k)).1 k'
        (Agree-trans k (halting k) (return_to_parent status (halting k)).1 (halting-Agree k)
          (return_to_parent-Agree status (halting k)))
        (cc ended)
]
