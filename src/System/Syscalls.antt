-- ===== src/System/Syscalls.antt =====
-- The system calls keep the screens and the lines sound.
use mini_os_with_friends.Base.{
  ℕ, zero, suc, ◌+◌, ◌≡◌, ◌⊎◌, refl, arith, ◌==◌, ◌||◌, if◌then◌else◌, Bool, true, false,
  Bool-cases, Option-cases, inl, inr, Option, none, some, List, [], error, leb, is_neg, add32,
  sub32,
}
use mini_os_with_friends.Base.Loops.{for_range, for_range_inv}
use mini_os_with_friends.State.{Kernel, OpTable}
use mini_os_with_friends.Memory.{active, write_byte}
use mini_os_with_friends.Paging.{get_pcb_blk, get_pcb_addr}
use mini_os_with_friends.Pic.{cli}
use mini_os_with_friends.FileSystem.{
  Dentry, read_from_file, write_to_file, close_file, read_from_directory, write_to_directory,
  close_directory,
}
use mini_os_with_friends.Rtc.{
  rtc_read, rtc_wait, rtc_write, rtc_close, change_freq_virt, start_wait,
}
use mini_os_with_friends.Terminal.{
  start_read, finish_read, copy_line, read_count, terminal_read, read_wait, terminal_write,
  terminal_close, donothing,
}
use mini_os_with_friends.Syscall.{
  Reply, reply, reply_option, read_entry, write_entry, close_entry, advance, read_call, write_call,
  open_call, close_call, getargs_call, copy_args, vidmap_call, bad_transfer, is_free, descriptor,
}
use mini_os_with_friends.System.Text.{
  IsSound, IsSound-Agree, Agree, Agree-trans, set_terminal-Agree,
}
use mini_os_with_friends.System.Output.{puts-IsSound, terminal_write-IsSound}
use mini_os_with_friends.System.Calls.{Agree-refl, Agree-eq, read_data-Agree}
use mini_os_with_friends.System.{no_wait}

-- The state in a reply is sound.
abbrev pub IsSoundReply : Reply → Type 0
IsSoundReply r = (v : ℕ) (k' : Kernel) → r ≡ Reply.answer v k' → IsSound k'

pub IsSoundReply-answer : (v : ℕ) (k : Kernel) → IsSound k → IsSoundReply (Reply.answer v k)
IsSoundReply-answer v k w v' k' e = IsSound-Agree k k' (Agree-eq k k k' (Agree-refl k) (cc e)) w

IsSoundReply-if :
    (b : Bool) (r r' : Reply)
    → IsSoundReply r
    → IsSoundReply r'
    → IsSoundReply (if b then r else r')
IsSoundReply-if true r r' p q = p
IsSoundReply-if false r r' p q = q

IsSoundReply-waits : IsSoundReply Reply.waits
IsSoundReply-waits v k e = ground arith

IsSoundReply-null_call : IsSoundReply Reply.null_call
IsSoundReply-null_call v k e = ground arith

pub advance-IsSound : (addr fd : ℕ) (r : Reply) → IsSoundReply r → IsSoundReply (advance addr fd r)
unfolding advance
advance-IsSound addr fd (Reply.answer v k) w =
    IsSoundReply-answer v _ (IsSound-Agree k _ (λ i. refl) (w v k refl))
advance-IsSound addr fd Reply.waits w = IsSoundReply-waits
advance-IsSound addr fd Reply.null_call w = IsSoundReply-null_call

-- Writes to memory change no terminal.
copy_line-Agree : (buf : ℕ) (k : Kernel) → Agree k (copy_line buf k)
unfolding copy_line
copy_line-Agree buf k =
    let n = if is_neg (read_count k) then 0 else read_count k in
    for_range_inv (λ i (k1 : Kernel). Agree k k1)
      (λ i (k1 : Kernel). write_byte (add32 buf i) ((active k1).tempbuf i) k1) n 0 n (omega arith)
      (λ i k1 lt p j. p j) k (λ i. refl)

pub start_read-IsSound : (k : Kernel) → IsSound k → IsSound (start_read k)
unfolding start_read
start_read-IsSound k v =
    IsSound-Agree k (start_read k)
      (set_terminal-Agree k.active_terminal (record (active k) { enter_flag = 0 }) k refl) v

pub finish_read-IsSound : (buf : ℕ) (k : Kernel) → IsSound k → IsSound (finish_read buf k).1
unfolding finish_read
finish_read-IsSound buf k v = IsSound-Agree k (finish_read buf k).1 (copy_line-Agree buf (cli k)) v

pub start_wait-IsSound : (k : Kernel) → IsSound k → IsSound (start_wait k)
start_wait-IsSound k v =
    IsSound-Agree k (start_wait k)
      (set_terminal-Agree k.active_terminal (record (active k) { rtc_flag = 1 }) k refl) v

rtc_write-IsSound : (buf : ℕ) (k : Kernel) → IsSound k → IsSoundReply (reply (rtc_write buf k))
unfolding rtc_write change_freq_virt
rtc_write-IsSound buf k w v k' e = IsSound-Agree k k' (λ i. ground arith) w

-- The operations of the descriptors' tables.
donothing-IsSound : (k : Kernel) → IsSound k → IsSoundReply (reply (donothing k))
unfolding donothing
donothing-IsSound k w = IsSoundReply-answer error _ (puts-IsSound _ k w)

pub write_entry-IsSound :
    (t : OpTable) (fd buf nbytes : ℕ) (k : Kernel)
    → IsSound k
    → IsSoundReply (write_entry t fd buf nbytes k)
unfolding write_entry write_to_file write_to_directory
write_entry-IsSound OpTable.files fd buf nbytes k w = IsSoundReply-answer error k w
write_entry-IsSound OpTable.directories fd buf nbytes k w = IsSoundReply-answer error k w
write_entry-IsSound OpTable.stdin fd buf nbytes k w = donothing-IsSound k w
write_entry-IsSound OpTable.stdout fd buf nbytes k w =
    IsSoundReply-answer (terminal_write fd buf nbytes k).0 _
      (terminal_write-IsSound fd buf nbytes k w)
write_entry-IsSound OpTable.rtc fd buf nbytes k w = rtc_write-IsSound buf k w
write_entry-IsSound OpTable.nothing fd buf nbytes k w = IsSoundReply-null_call

IsSoundReply-option :
    (r : Option (ℕ × Kernel))
    → ((v : ℕ) (k1 : Kernel) → r ≡ some (v, k1) → IsSound k1)
    → IsSoundReply (reply_option r)
IsSoundReply-option none p = IsSoundReply-waits
IsSoundReply-option (some (v, k1)) p = IsSoundReply-answer v k1 (p v k1 refl)

-- A result that is one of two.
picked {ℓ} :
    {A : Type ℓ} (b : Bool) (x y : A) (r : A) → (if b then x else y) ≡ r → (x ≡ r) ⊎ (y ≡ r)
picked true x y r e = inl e
picked false x y r e = inr e

read_from_file-IsSound :
    (fd buf nbytes : ℕ) (k : Kernel)
    → IsSound k
    → IsSoundReply (reply_option (read_from_file fd buf nbytes k))
unfolding read_from_file
read_from_file-IsSound fd buf nbytes k w =
    let desc = (k.pcb (get_pcb_blk k.curr_pid)).file_desc_array fd in
    IsSoundReply-option (read_from_file fd buf nbytes k) (λ v k1 e.
      elim (picked (buf == 0 || is_neg fd || leb 8 fd || nbytes == 0) _ _ (some (v, k1)) e) [
        | inl refused ↦ IsSound-Agree k k1 (Agree-eq k k k1 (Agree-refl k) (cc refused)) w
        | inr read ↦
            IsSound-Agree k k1
              (read_data-Agree desc.inode_num desc.file_position buf nbytes v k k1 read) w
      ])

read_from_directory-Agree : (buf : ℕ) (k : Kernel) → Agree k (read_from_directory buf k).1
unfolding read_from_directory
read_from_directory-Agree buf k i = ground arith

read_wait-at_once : (k k2 : Kernel) → read_wait [] k ≡ some k2 → k2 ≡ k
unfolding read_wait
read_wait-at_once k k2 e = ground arith

terminal_read-IsSound :
    (fd buf nbytes : ℕ) (k : Kernel)
    → IsSound k
    → IsSoundReply (reply_option (terminal_read [] fd buf nbytes k))
unfolding terminal_read
terminal_read-IsSound fd buf nbytes k w =
    IsSoundReply-option (terminal_read [] fd buf nbytes k) (λ v k1 e.
      elim (picked (buf == 0) _ _ (some (v, k1)) e) [
        | inl refused ↦ IsSound-Agree k k1 (Agree-eq k (cli k) k1 (λ i. refl) (cc refused)) w
        | inr waited ↦ elim (Option-cases (read_wait [] (start_read k))) [
          | inl no_line ↦ ground (arith, waited, no_line)
          | inr (k2, line) ↦
              let w2 : IsSound k2 =
                rw (read_wait-at_once (start_read k) k2 line) (start_read-IsSound k w) in
              let after = (finish_read buf k2).1 in
              IsSound-Agree after k1
                (Agree-eq after after k1 (Agree-refl after) (ground (arith, waited, line)))
                (finish_read-IsSound buf k2 w2)
        ]
      ])

rtc_read-IsSound : (k : Kernel) → IsSound k → IsSoundReply (reply_option (rtc_read 0 k))
unfolding rtc_read rtc_wait
rtc_read-IsSound k w = IsSoundReply-option (rtc_read 0 k) (λ v k1 e.
    elim (Bool-cases ((active (start_wait k)).rtc_flag == 1)) [
      | inl ticking ↦ ground (arith, e, ticking)
      | inr done ↦
          IsSound-Agree (start_wait k) k1
            (Agree-eq (start_wait k) (start_wait k) k1 (Agree-refl (start_wait k))
              (ground (arith, e, done)))
            (start_wait-IsSound k w)
    ])

read_entry-IsSound :
    (t : OpTable) (fd buf nbytes : ℕ) (k : Kernel)
    → IsSound k
    → IsSoundReply (read_entry no_wait t fd buf nbytes k)
unfolding read_entry
read_entry-IsSound OpTable.files fd buf nbytes k w = read_from_file-IsSound fd buf nbytes k w
read_entry-IsSound OpTable.directories fd buf nbytes k w =
    IsSoundReply-answer (read_from_directory buf k).0 (read_from_directory buf k).1
      (IsSound-Agree k (read_from_directory buf k).1 (read_from_directory-Agree buf k) w)
read_entry-IsSound OpTable.stdin fd buf nbytes k w = terminal_read-IsSound fd buf nbytes k w
read_entry-IsSound OpTable.stdout fd buf nbytes k w = donothing-IsSound k w
read_entry-IsSound OpTable.rtc fd buf nbytes k w = rtc_read-IsSound k w
read_entry-IsSound OpTable.nothing fd buf nbytes k w = IsSoundReply-null_call

close_entry-IsSound : (t : OpTable) (k : Kernel) → IsSound k → IsSoundReply (close_entry t k)
unfolding close_entry close_file close_directory terminal_close rtc_close
close_entry-IsSound OpTable.files k w = IsSoundReply-answer 0 k w
close_entry-IsSound OpTable.directories k w =
    IsSoundReply-answer 0 (record k { internal_counter = 0 })
      (IsSound-Agree k (record k { internal_counter = 0 }) (λ i. refl) w)
close_entry-IsSound OpTable.stdin k w = IsSoundReply-answer 0 k w
close_entry-IsSound OpTable.stdout k w = IsSoundReply-answer 0 k w
close_entry-IsSound OpTable.rtc k w = IsSoundReply-answer 0 k w
close_entry-IsSound OpTable.nothing k w = IsSoundReply-null_call

module _ (k : Kernel) (w : IsSound k) where
  refused : IsSoundReply (Reply.answer error k)
  refused = IsSoundReply-answer error k w

  pub read_call-IsSound : (fd buf nbytes : ℕ) → IsSoundReply (read_call no_wait fd buf nbytes k)
  unfolding read_call
  read_call-IsSound fd buf nbytes =
      IsSoundReply-if (bad_transfer fd buf nbytes) (Reply.answer error k) _ refused (
        IsSoundReply-if (is_free (descriptor k fd)) (Reply.answer error k) _ refused (
          advance-IsSound (get_pcb_blk (active k).pid) fd _
            (read_entry-IsSound (descriptor k fd).table_ptr fd buf nbytes k w)))

  pub write_call-IsSound : (fd buf nbytes : ℕ) → IsSoundReply (write_call fd buf nbytes k)
  unfolding write_call
  write_call-IsSound fd buf nbytes =
      IsSoundReply-if (bad_transfer fd buf nbytes) (Reply.answer error k) _ refused (
        IsSoundReply-if (is_free (descriptor k fd)) (Reply.answer error k) _ refused
          (write_entry-IsSound (descriptor k fd).table_ptr fd buf nbytes k w))

  pub close_call-IsSound : (fd : ℕ) → IsSoundReply (close_call fd k)
  unfolding close_call
  close_call-IsSound fd =
      IsSoundReply-if (is_neg fd || leb fd 1 || leb 8 fd) (Reply.answer error k) _ refused (
        IsSoundReply-if (is_free (descriptor k fd)) (Reply.answer error k) _ refused
          (close_entry-IsSound (descriptor k fd).table_ptr _ (IsSound-Agree k _ (λ i. refl) w)))

  pub open_call-IsSound :
      (name : Option (List ℕ)) (stale : Dentry) → IsSound (open_call name stale k).1
  unfolding open_call
  open_call-IsSound name stale = IsSound-Agree k (open_call name stale k).1 (λ i. ground arith) w

  pub vidmap_call-IsSound : (screen_start : ℕ) → IsSound (vidmap_call screen_start k).1
  unfolding vidmap_call
  vidmap_call-IsSound screen_start =
      IsSound-Agree k (vidmap_call screen_start k).1 (λ i. ground arith) w

copy_args-Agree :
    (n i left buf : ℕ) (cmd : ℕ → ℕ) (k : Kernel) (v : ℕ) (k' : Kernel)
    → copy_args n i left buf cmd k ≡ some (v, k')
    → Agree k k'
unfolding copy_args
copy_args-Agree zero i left buf cmd k v k' e = ground arith
copy_args-Agree (suc n) i left buf cmd k v k' e =
    let written = write_byte (add32 buf i) (cmd i) k in
    elim (picked (cmd i == 0 || left == 0) _ _ (some (v, k')) e) [
      | inl done ↦ Agree-eq k k k' (Agree-refl k) (cc done)
      | inr more ↦
          Agree-trans k written k' (λ j. refl)
            (copy_args-Agree n (i + 1) (sub32 left 1) buf cmd written v k' more)
    ]

pub getargs_call-IsSound :
    (buf nbytes v : ℕ) (k k' : Kernel)
    → IsSound k
    → getargs_call buf nbytes k ≡ some (v, k')
    → IsSound k'
unfolding getargs_call
getargs_call-IsSound buf nbytes v k k' w e = elim (picked (buf == 0) _ _ (some (v, k')) e) [
  | inl refused ↦ IsSound-Agree k k' (Agree-eq k k k' (Agree-refl k) (cc refused)) w
  | inr fine ↦
      let n = if is_neg nbytes then 0 else nbytes in
      let clear_byte = λ (i : ℕ) (k1 : Kernel). write_byte (add32 buf i) 0 k1 in
      let cleared = for_range n 0 clear_byte k in
      let same : Agree k cleared =
        for_range_inv (λ i (k1 : Kernel). Agree k k1) clear_byte n 0 n (omega arith)
          (λ i k1 lt p j. p j) k (λ i. refl) in
      let cmd = (cleared.pcb (get_pcb_addr (active cleared).pid)).terminal_cmd in
      elim (Option-cases (copy_args 128 0 nbytes buf cmd cleared)) [
        | inl past ↦ ground (arith, fine, past)
        | inr ((i, k1), copied) ↦
            IsSound-Agree k k'
              (Agree-trans k cleared k' same (
                Agree-eq cleared k1 k' (copy_args-Agree 128 0 nbytes buf cmd cleared i k1 copied)
                  (ground (arith, fine, copied))))
              w
      ]
]
