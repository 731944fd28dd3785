-- ===== src/User/Syserr/Standard.antt =====
-- What the tests do with descriptors 0 and 1, which are the terminal's.
use mini_os_with_friends.Base.{
  ℕ, ◌≡◌, ◌≢◌, refl, ◌∙◌, ap, sym, arith, ◌==◌, false, Bool-cases, inl, inr, some, List, error,
  length, add32, ◌<◌, ◌||◌, is_neg,
}
use native.Mathlib.Decide.{ℕ_discrete}
use mini_os_with_friends.Base.Maps.{update_self, update_ne}
use mini_os_with_friends.State.{FileDesc, OpTable, Kernel}
use mini_os_with_friends.Memory.{active}
use mini_os_with_friends.Paging.{get_pcb_blk}
use mini_os_with_friends.Terminal.{terminal_write, donothing}
use mini_os_with_friends.Syscall.{
  Reply, Waiting, bad_transfer, descriptor, set_descriptor, advance, read_call, write_call,
  read_entry, write_entry,
}
use mini_os_with_friends.Syscall.Handler.{do_syscall_in_c, after_call, syscall_handler}
use mini_os_with_friends.Syscall.Descriptors.{descriptor-set_descriptor}
use mini_os_with_friends.Syscall.Untouched.{
  usage, usage-SameFiles, SameFiles, SameFiles-refl, SameFiles-trans, terminal_write-SameFiles,
  donothing-SameFiles,
}
use mini_os_with_friends.User.{fdputs}
use mini_os_with_friends.User.Machine.{
  Setting, place, kernel_calls, kernel_probes, system_call, outcome,
}
use mini_os_with_friends.User.Syserr.{expect_read, expect_write}
use mini_os_with_friends.User.Syserr.Refused.{
  Unmoved, Unmoved-SameFiles, Unmoved-trans, resumed, resumed_place-SameFiles,
}
use mini_os_with_friends.User.Syserr.Quiet.{Quiet, Unmoved-refl, expect_error-Quiet}

write_call_stdout :
    (buf nbytes : ℕ) (k : Kernel)
    → usage k 1 ≡ (OpTable.stdout, 0)
    → (v : ℕ) × ((k' : Kernel) × (write_call 1 buf nbytes k ≡ Reply.answer v k') × SameFiles k k')
unfolding write_call write_entry
write_call_stdout buf nbytes k u = elim (Bool-cases (bad_transfer 1 buf nbytes)) [
  | inl bad ↦ (error, (k, rw bad refl, SameFiles-refl k))
  | inr fine ↦
      let kind : (descriptor k 1).table_ptr ≡ OpTable.stdout = ap (λ v. v.0) u in
      let in_use : ((descriptor k 1).flags == 1) ≡ false = ground (arith, ap (λ v. v.1) u) in
      let (v, k') = terminal_write 1 buf nbytes k in
      (v, (k', rw (fine, in_use, kind) refl, terminal_write-SameFiles 1 buf nbytes k))
]

-- With something to print, the screen takes it.
write_call_prints :
    (buf nbytes : ℕ) (k : Kernel)
    → usage k 1 ≡ (OpTable.stdout, 0)
    → buf ≢ 0
    → 0 < nbytes
    → nbytes < 0x80000000
    → write_call 1 buf nbytes k ≡ Reply.answer 0 (terminal_write 1 buf nbytes k).1
unfolding write_call write_entry terminal_write
write_call_prints buf nbytes k u some_buf pos small =
    let kind : (descriptor k 1).table_ptr ≡ OpTable.stdout = ap (λ v. v.0) u in
    let in_use : ((descriptor k 1).flags == 1) ≡ false = ground (arith, ap (λ v. v.1) u) in
    let fine : bad_transfer 1 buf nbytes ≡ false = ground arith in
    let prints : (buf == 0 || nbytes == 0 || is_neg nbytes) ≡ false = ground arith in
    rw (fine, in_use, kind, prints) refl

write_call_stdin :
    (buf nbytes : ℕ) (k : Kernel)
    → usage k 0 ≡ (OpTable.stdin, 0)
    → (k' : Kernel) × (write_call 0 buf nbytes k ≡ Reply.answer error k') × SameFiles k k'
unfolding write_call write_entry donothing
write_call_stdin buf nbytes k u = elim (Bool-cases (bad_transfer 0 buf nbytes)) [
  | inl bad ↦ (k, rw bad refl, SameFiles-refl k)
  | inr fine ↦
      let kind : (descriptor k 0).table_ptr ≡ OpTable.stdin = ap (λ v. v.0) u in
      let in_use : ((descriptor k 0).flags == 1) ≡ false = ground (arith, ap (λ v. v.1) u) in
      ((donothing k).1, rw (fine, in_use, kind) refl, donothing-SameFiles k)
]

abbrev use_of : FileDesc → OpTable × ℕ
use_of d = (d.table_ptr, d.flags)

-- The file position of a descriptor may move.
position_Unmoved :
    (fd position : ℕ) (k : Kernel)
    → Unmoved k (
        set_descriptor
          (get_pcb_blk (active k).pid)
          fd
          (record (descriptor k fd) { file_position = position })
          k)
position_Unmoved fd position k =
    let d = record (descriptor k fd) { file_position = position } in
    record {
      same_image = refl;
      same_usage = λ j. elim (ℕ_discrete fd j) [
        | yes same ↦
            rw (← same)
              (ap use_of (descriptor-set_descriptor fd fd d k ∙ update_self (descriptor k) fd d))
        | no ne ↦
            ap use_of (descriptor-set_descriptor fd j d k ∙ update_ne (descriptor k) fd j d ne)
      ];
    }

-- The PCB of the process that called is still that of the current one.
advance-current :
    (addr fd v : ℕ) (k : Kernel)
    → addr ≡ get_pcb_blk (active k).pid
    → advance addr fd (Reply.answer v k)
      ≡ Reply.answer v (
          set_descriptor
            (get_pcb_blk (active k).pid)
            fd
            (record (descriptor k fd) { file_position = add32 (descriptor k fd).file_position v })
            k)
unfolding advance
advance-current addr fd v k e =
    ap
      (λ (a : ℕ).
        let d = (k.pcb a).file_desc_array fd in
        Reply.answer v
          (set_descriptor a fd (record d { file_position = add32 d.file_position v }) k))
      e

read_call_stdout :
    (w : Waiting) (buf nbytes : ℕ) (k : Kernel)
    → usage k 1 ≡ (OpTable.stdout, 0)
    → (k' : Kernel) × (read_call w 1 buf nbytes k ≡ Reply.answer error k') × Unmoved k k'
unfolding read_call read_entry donothing
read_call_stdout w buf nbytes k u = elim (Bool-cases (bad_transfer 1 buf nbytes)) [
  | inl bad ↦ (k, rw bad refl, Unmoved-refl k)
  | inr fine ↦
      let kind : (descriptor k 1).table_ptr ≡ OpTable.stdout = ap (λ v. v.0) u in
      let in_use : ((descriptor k 1).flags == 1) ≡ false = ground (arith, ap (λ v. v.1) u) in
      let k1 = (donothing k).1 in
      let same = donothing-SameFiles k in
      let d = descriptor k1 1 in
      let k2 =
        set_descriptor (get_pcb_blk (active k1).pid) 1
          (record d { file_position = add32 d.file_position error }) k1 in
      (
        k2,
        rw (fine, in_use, kind)
            (advance-current (get_pcb_blk (active k).pid) 1 error k1
              (ap get_pcb_blk (sym same.same_pid))),
        Unmoved-trans k k1 k2 (Unmoved-SameFiles k k1 same)
            (position_Unmoved 1 (add32 d.file_position error) k1),
      )
]

module _ (s : Setting) where
  -- A text for the screen comes back, and moves no descriptor.
  pub fdputs_stdout :
      (bytes : List ℕ) (k : Kernel)
      → usage k 1 ≡ (OpTable.stdout, 0)
      → (k' : Kernel) × (fdputs (kernel_calls s) 1 bytes (some k) ≡ some k') × Unmoved k k'
  unfolding fdputs kernel_calls system_call syscall_handler do_syscall_in_c after_call
  fdputs_stdout bytes k u =
      let k1 = resumed (place s.text bytes k) in
      let ready = Unmoved-SameFiles k k1 (resumed_place-SameFiles s.text bytes k) in
      let (v, (k2, answered, same)) =
        write_call_stdout s.text (length bytes) k1 (ready.same_usage 1 ∙ u) in
      (
        resumed k2,
        ap (λ (r : Reply). (outcome (after_call r)).1) answered,
        Unmoved-trans k k1 (resumed k2) ready (record {
          same_image = same.same_fs;
          same_usage = (Unmoved-SameFiles k1 k2 same).same_usage;
        }),
      )

  module _ (junk : List ℕ) (stale : ℕ) (text : List ℕ) (k : Kernel) where
    pub expect_write_stdin :
        usage k 0 ≡ (OpTable.stdin, 0)
        → Quiet k (expect_write (kernel_probes s) junk stale text 0 (0, some k))
    unfolding expect_write kernel_calls kernel_probes system_call syscall_handler do_syscall_in_c
        after_call
    expect_write_stdin u =
        let k1 = resumed (place s.text junk k) in
        let ready = Unmoved-SameFiles k k1 (resumed_place-SameFiles s.text junk k) in
        let (k2, answered, same) =
          write_call_stdin s.text (length junk) k1 (ready.same_usage 0 ∙ u) in
        expect_error-Quiet s junk stale text k (resumed k2) _ (rw answered refl) (
          Unmoved-trans k k1 (resumed k2) ready (record {
            same_image = same.same_fs;
            same_usage = (Unmoved-SameFiles k1 k2 same).same_usage;
          }))

    pub expect_read_stdout :
        usage k 1 ≡ (OpTable.stdout, 0)
        → Quiet k (expect_read (kernel_probes s) junk stale text 1 (0, some k))
    unfolding expect_read kernel_calls kernel_probes system_call syscall_handler do_syscall_in_c
        after_call
    expect_read_stdout u =
        let (k2, answered, same) = read_call_stdout s.waiting s.buf 31 (resumed k) u in
        expect_error-Quiet s junk stale text k (resumed k2) _ (rw answered refl)
          (record { same_image = same.same_image; same_usage = same.same_usage })

  -- A text with at least one byte is taken whole.
  pub write_stdout :
      (bytes : List ℕ) (k : Kernel)
      → usage k 1 ≡ (OpTable.stdout, 0)
      → s.text ≢ 0
      → 0 < length bytes
      → length bytes < 0x80000000
      → (k' : Kernel) × ((kernel_calls s).write 1 bytes (some k) ≡ (0, some k')) × SameFiles k k'
  unfolding kernel_calls system_call syscall_handler do_syscall_in_c after_call
  write_stdout bytes k u some_text pos small =
      let k1 = resumed (place s.text bytes k) in
      let ready = resumed_place-SameFiles s.text bytes k in
      let (v, k2) = terminal_write 1 s.text (length bytes) k1 in
      let same = terminal_write-SameFiles 1 s.text (length bytes) k1 in
      (
        resumed k2,
        ap (λ (r : Reply). outcome (after_call r))
            (write_call_prints s.text (length bytes) k1 (usage-SameFiles k k1 1 ready ∙ u) some_text
              pos small),
        SameFiles-trans k k1 (resumed k2) ready (record {
          same_pcb = same.same_pcb;
          same_fs = same.same_fs;
          same_inodes = same.same_inodes;
          same_curr = same.same_curr;
          same_pid = same.same_pid;
        }),
      )
