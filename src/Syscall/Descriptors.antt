-- ===== src/Syscall/Descriptors.antt =====
-- The descriptors of a process, from `open_call` to `close_call`.
use mini_os_with_friends.Base.{
  subst, ℕ, zero, suc, ◌+◌, ◌≤◌, ◌<◌, ◌≡◌, refl, ◌∙◌, ap, sym, ◌≢◌, ◌⊎◌, inl, inr, none, some,
  Option-cases, List, Bool-cases, arith, error,
}
use mini_os_with_friends.Base.Maps.{update, update_self, update_ne}
use native.Mathlib.Decide.{ℕ_discrete}
use mini_os_with_friends.State.{OpTable, FileDesc, Kernel}
use mini_os_with_friends.Memory.{active}
use mini_os_with_friends.Paging.{get_pcb_blk}
use mini_os_with_friends.FileSystem.{
  close_file, close_directory, Dentry, read_dentry_by_name, write_to_file, write_to_directory,
}
use mini_os_with_friends.Rtc.{rtc_close}
use mini_os_with_friends.Terminal.{terminal_close}
use mini_os_with_friends.Syscall.{
  Reply, open_call, close_call, close_entry, write_call, write_entry, free_desc, free_desc_from,
  descriptor, table_of, opened_desc, is_free, set_descriptor,
}

free_desc_from-eq-some :
    (n idx fd : ℕ) (desc : ℕ → FileDesc)
    → free_desc_from n idx desc ≡ some fd
    → (idx ≤ fd)
      × (fd < idx + n)
      × ((desc fd).flags ≡ 1)
      × ((j : ℕ) → idx ≤ j → j < fd → (desc j).flags ≢ 1)
unfolding free_desc_from
free_desc_from-eq-some zero idx fd desc e = cc
free_desc_from-eq-some (suc n) idx fd desc e = elim (Bool-cases (is_free (desc idx))) [
  | inl free ↦
      let here : idx ≡ fd = ground arith in
      (omega arith, omega arith, rw (← here) (ground arith), λ j lo hi. absurd (omega arith))
  | inr taken ↦
      let (lo, hi, free, rest) = free_desc_from-eq-some n (idx + 1) fd desc (ground arith) in
      (
        omega arith,
        omega arith,
        free,
        λ j lo' hi'. elim (ℕ_discrete idx j) [
          | yes same ↦ rw (← same) (ground arith)
          | no ne ↦ rest j (omega arith) hi'
        ],
      )
]

free_desc_from-eq-none :
    (n idx : ℕ) (desc : ℕ → FileDesc)
    → free_desc_from n idx desc ≡ none
    → (j : ℕ) → idx ≤ j
    → j < idx + n
    → (desc j).flags ≢ 1
unfolding free_desc_from
free_desc_from-eq-none zero idx desc e j lo hi = absurd (omega arith)
free_desc_from-eq-none (suc n) idx desc e j lo hi = elim (ℕ_discrete idx j) [
  | yes same ↦ rw (← same) (ground arith)
  | no ne ↦ free_desc_from-eq-none n (idx + 1) desc (ground arith) j (omega arith) (omega arith)
]

-- The two outcomes of the call where the directory has the name.
pub open_call_cases :
    (name : List ℕ) (stale dentry : Dentry) (k : Kernel)
    → read_dentry_by_name k name stale ≡ some dentry
    → ((fd : ℕ) × (open_call (some name) stale k
          ≡ (fd, set_descriptor (get_pcb_blk (active k).pid) fd (opened_desc dentry) k))
        × (2 ≤ fd)
        × (fd < 8)
        × ((descriptor k fd).flags ≡ 1)
        × ((j : ℕ) → 2 ≤ j → j < fd → (descriptor k j).flags ≢ 1))
      ⊎ ((open_call (some name) stale k ≡ (error, k))
          × ((j : ℕ) → 2 ≤ j → j < 8 → (descriptor k j).flags ≢ 1))
unfolding open_call free_desc
open_call_cases name stale dentry k found = elim (Option-cases (free_desc k)) [
  | inl full ↦ inr (ground (arith, found, full), free_desc_from-eq-none 6 2 _ full)
  | inr (fd, free) ↦
      let (lo, hi, flag, least) = free_desc_from-eq-some 6 2 fd _ free in
      inl (fd, ground (arith, found, free), lo, omega arith, flag, least)
]

-- A close that the entry of the table answers with 0, and that touches no PCB there.
record Closed (fd : ℕ) (k : Kernel) (r : Reply) : Type 0 where
  state : Kernel
  answers : r ≡ Reply.answer 0 state
  same_active : (active state).pid ≡ (active k).pid
  pcbs :
      state.pcb
      ≡ (set_descriptor
          (get_pcb_blk (active k).pid)
          fd
          (record (descriptor k fd) { inode_num = 0; file_position = 0; flags = 1 })
          k).pcb

unfoldable pub freed : ℕ → Kernel → Kernel
freed fd k =
    set_descriptor (get_pcb_blk (active k).pid) fd
      (record (descriptor k fd) { inode_num = 0; file_position = 0; flags = 1 }) k

pub close_call-entry :
    (fd : ℕ) (k : Kernel)
    → 2 ≤ fd
    → fd < 8
    → (descriptor k fd).flags ≡ 0
    → close_call fd k ≡ close_entry (descriptor k fd).table_ptr (freed fd k)
unfolding close_call freed
close_call-entry fd k lo hi taken = ground arith

close_entry-Closed :
    (fd : ℕ) (k : Kernel) (t : OpTable)
    → t ≢ OpTable.nothing
    → Closed fd k (close_entry t (freed fd k))
unfolding freed close_entry close_file close_directory rtc_close terminal_close
close_entry-Closed fd k OpTable.files ne = record {
  state = freed fd k;
  answers = refl;
  same_active = refl;
  pcbs = refl;
}
close_entry-Closed fd k OpTable.directories ne = record {
  state = record (freed fd k) { internal_counter = 0 };
  answers = refl;
  same_active = refl;
  pcbs = refl;
}
close_entry-Closed fd k OpTable.stdin ne = record {
  state = freed fd k;
  answers = refl;
  same_active = refl;
  pcbs = refl;
}
close_entry-Closed fd k OpTable.stdout ne = record {
  state = freed fd k;
  answers = refl;
  same_active = refl;
  pcbs = refl;
}
close_entry-Closed fd k OpTable.rtc ne = record {
  state = freed fd k;
  answers = refl;
  same_active = refl;
  pcbs = refl;
}
close_entry-Closed fd k OpTable.nothing ne = absurd (ne refl)

pub descriptor-set_descriptor :
    (fd j : ℕ) (d : FileDesc) (k : Kernel)
    → descriptor (set_descriptor (get_pcb_blk (active k).pid) fd d k) j
      ≡ update (descriptor k) fd d j
descriptor-set_descriptor fd j d k =
    ap (λ p. p.file_desc_array j) (update_self k.pcb (get_pcb_blk (active k).pid) _)

descriptor-Closed :
    (fd j : ℕ) (k : Kernel) (r : Reply) (c : Closed fd k r)
    → j ≢ fd
    → descriptor c.state j ≡ descriptor k j
descriptor-Closed fd j k r c ne =
    ap (λ p. (c.state.pcb (get_pcb_blk p)).file_desc_array j) c.same_active
    ∙ ap (λ f. (f (get_pcb_blk (active k).pid)).file_desc_array j) c.pcbs
    ∙ descriptor-set_descriptor fd j _ k
    ∙ update_ne (descriptor k) fd j _ (λ e. ne (sym e))

descriptor-Closed-self :
    (fd : ℕ) (k : Kernel) (r : Reply) (c : Closed fd k r) → (descriptor c.state fd).flags ≡ 1
descriptor-Closed-self fd k r c = ap FileDesc.flags (
    ap (λ p. (c.state.pcb (get_pcb_blk p)).file_desc_array fd) c.same_active
    ∙ ap (λ f. (f (get_pcb_blk (active k).pid)).file_desc_array fd) c.pcbs
    ∙ descriptor-set_descriptor fd fd _ k
    ∙ update_self (descriptor k) fd _)

-- The operations that a descriptor gets by the type of its file.
pub record HasOperations (filetype : ℕ) (t : OpTable) : Type 0 where
  pub clock : filetype ≡ 0 → t ≡ OpTable.rtc
  pub directory : filetype ≡ 1 → t ≡ OpTable.directories
  pub file : filetype ≡ 2 → t ≡ OpTable.files

table_of-HasOperations : (filetype : ℕ) → HasOperations filetype (table_of filetype)
unfolding table_of
table_of-HasOperations filetype = record {
  clock = λ e. rw e refl;
  directory = λ e. rw e refl;
  file = λ e. rw e refl;
}

-- Where the directory has the name: the call answers the smallest free descriptor from 2 to 7; after it
-- that descriptor has the inode of the name's entry, the position 0 and the flags 0 of one that is taken,
-- and the operations of the clock, of directories or of files if the entry's type is 0, 1 or 2, and each
-- other descriptor of the process is as before. Where the six descriptors are taken, and only there, the
-- call answers -1 and changes nothing.
pub open_call_lem :
    (name : List ℕ) (stale dentry : Dentry) (k : Kernel)
    → read_dentry_by_name k name stale ≡ some dentry
    → ((fd : ℕ) × ((k' : Kernel) × (open_call (some name) stale k ≡ (fd, k'))
          × (2 ≤ fd)
          × (fd < 8)
          × ((descriptor k fd).flags ≡ 1)
          × ((j : ℕ) → 2 ≤ j → j < fd → (descriptor k j).flags ≢ 1)
          × ((descriptor k' fd).inode_num ≡ dentry.inode_num)
          × ((descriptor k' fd).file_position ≡ 0)
          × ((descriptor k' fd).flags ≡ 0)
          × HasOperations dentry.filetype (descriptor k' fd).table_ptr
          × ((j : ℕ) → j ≢ fd → descriptor k' j ≡ descriptor k j)))
      ⊎ ((open_call (some name) stale k ≡ (error, k))
          × ((j : ℕ) → 2 ≤ j → j < 8 → (descriptor k j).flags ≢ 1))
open_call_lem name stale dentry k found = elim (open_call_cases name stale dentry k found) [
  | inl (fd, opened, lo, hi, free, least) ↦
      let k' = set_descriptor (get_pcb_blk (active k).pid) fd (opened_desc dentry) k in
      let here : descriptor k' fd ≡ opened_desc dentry =
        descriptor-set_descriptor fd fd (opened_desc dentry) k
        ∙ update_self (descriptor k) fd (opened_desc dentry) in
      inl (
        fd,
        (
          k',
          opened,
          lo,
          hi,
          free,
          least,
          ap FileDesc.inode_num here,
          ap FileDesc.file_position here,
          ap FileDesc.flags here,
          subst (HasOperations dentry.filetype) (sym (ap FileDesc.table_ptr here))
              (table_of-HasOperations dentry.filetype),
          λ j ne.
              descriptor-set_descriptor fd j (opened_desc dentry) k
              ∙ update_ne (descriptor k) fd j (opened_desc dentry) (λ e. ne (sym e)),
        ),
      )
  | inr full ↦ inr full
]

table_of-ne-nothing : (filetype : ℕ) → filetype < 3 → table_of filetype ≢ OpTable.nothing
unfolding table_of
table_of-ne-nothing filetype lt e = ground arith

close_opened :
    (dentry : Dentry) (fd j : ℕ) (k : Kernel)
    → dentry.filetype < 3
    → 2 ≤ fd
    → fd < 8
    → (descriptor k fd).flags ≡ 1
    → let k1 = set_descriptor (get_pcb_blk (active k).pid) fd (opened_desc dentry) k in
      (k2 : Kernel) × (close_call fd k1 ≡ Reply.answer 0 k2)
      × ((descriptor k2 j).flags ≡ (descriptor k j).flags)
      × (j ≢ fd → descriptor k2 j ≡ descriptor k j)
close_opened dentry fd j k type lo hi free =
    let addr = get_pcb_blk (active k).pid in
    let k1 = set_descriptor addr fd (opened_desc dentry) k in
    let here : descriptor k1 fd ≡ opened_desc dentry =
      descriptor-set_descriptor fd fd (opened_desc dentry) k
      ∙ update_self (descriptor k) fd (opened_desc dentry) in
    let table : (descriptor k1 fd).table_ptr ≡ table_of dentry.filetype =
      ap FileDesc.table_ptr here in
    let c =
      close_entry-Closed fd k1 (table_of dentry.filetype)
        (table_of-ne-nothing dentry.filetype type) in
    let other : j ≢ fd → descriptor c.state j ≡ descriptor k j = λ ne.
      descriptor-Closed fd j k1 _ c ne
      ∙ descriptor-set_descriptor fd j (opened_desc dentry) k
      ∙ update_ne (descriptor k) fd j (opened_desc dentry) (λ e. ne (sym e)) in
    (
      c.state,
      close_call-entry fd k1 lo hi (ap FileDesc.flags here)
          ∙ ap (λ t. close_entry t (freed fd k1)) table
          ∙ c.answers,
      elim (ℕ_discrete j fd) [
        | yes same ↦ rw same (descriptor-Closed-self fd k1 _ c ∙ sym free)
        | no ne ↦ ap FileDesc.flags (other ne)
      ],
      other,
    )

-- A file, a directory or the clock that is opened and closed at once: the close answers 0, and every
-- descriptor of the process is free or taken as before, and has its old table, inode and position if it
-- is not the one that was opened.
pub close_call-open_call :
    (name : List ℕ) (stale dentry : Dentry) (fd j : ℕ) (k k1 : Kernel)
    → read_dentry_by_name k name stale ≡ some dentry
    → dentry.filetype < 3
    → fd ≢ error
    → open_call (some name) stale k ≡ (fd, k1)
    → (k2 : Kernel) × (close_call fd k1 ≡ Reply.answer 0 k2)
      × ((descriptor k2 j).flags ≡ (descriptor k j).flags)
      × (j ≢ fd → descriptor k2 j ≡ descriptor k j)
close_call-open_call name stale dentry fd j k k1 found type ok e =
    elim (open_call_cases name stale dentry k found) [
      | inl (fd', opened, lo, hi, free, least) ↦
          let both : (fd', set_descriptor (get_pcb_blk (active k).pid) fd' (opened_desc dentry) k)
              ≡ (fd, k1) =
            sym opened ∙ e in
          subst
            (λ p.
              (k2 : Kernel) × (close_call p.0 p.1 ≡ Reply.answer 0 k2)
              × ((descriptor k2 j).flags ≡ (descriptor k j).flags)
              × (j ≢ p.0 → descriptor k2 j ≡ descriptor k j))
            both (close_opened dentry fd' j k type lo hi free)
      | inr (failed, full) ↦ absurd (ok (ap (λ p. p.0) (sym e ∙ failed)))
    ]

-- The file system is read only: a write to an open file or directory answers -1 and changes nothing,
-- whatever the buffer and the length.
pub write_call_read_only :
    (fd buf nbytes : ℕ) (k : Kernel)
    → ((descriptor k fd).table_ptr ≡ OpTable.files)
      ⊎ ((descriptor k fd).table_ptr ≡ OpTable.directories)
    → write_call fd buf nbytes k ≡ Reply.answer error k
unfolding write_call write_entry write_to_file write_to_directory
write_call_read_only fd buf nbytes k (inl e) = rw e (ground arith)
write_call_read_only fd buf nbytes k (inr e) = rw e (ground arith)
