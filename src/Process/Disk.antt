-- ===== src/Process/Disk.antt =====
-- The image and the kernel's own buffers while `execute_call` runs.
use mini_os_with_friends.Base.{
  ℕ, ◌+◌, ◌≤◌, ◌<◌, ◌≡◌, refl, ◌∙◌, ap, Option, none, some, true, List, arith, add32,
}
use mini_os_with_friends.Base.Maps.{update}
use mini_os_with_friends.State.{Kernel}
use mini_os_with_friends.Memory.{active, read_byte}
use mini_os_with_friends.Paging.{translate, virt_to_phys_user}
use mini_os_with_friends.LineBuffer.{clear_temp_buff}
use mini_os_with_friends.FileSystem.{
  Dentry, read_dentry_by_name, find_dentry, copy_dentry, large_inode, very_large_text,
}
use mini_os_with_friends.FileSystem.Contents.{file_byte, copied, copied_bytes, read_state}
use mini_os_with_friends.Process.{
  Frame, load_image, load_program, is_elf, allocate_pid, adopt_pid, free_pid, record_parent,
  fill_pcb, begin_execute,
}

-- The same image, and the same counts of it.
pub record SameDisk (k k' : Kernel) : Type 0 where
  pub bytes : k'.fs ≡ k.fs
  pub inodes : k'.inodes_count ≡ k.inodes_count
  pub blocks : k'.data_count_blk ≡ k.data_count_blk
  pub stale : k'.stale_inode ≡ k.stale_inode

SameDisk-refl : (k : Kernel) → SameDisk k k
SameDisk-refl k = record { bytes = refl; inodes = refl; blocks = refl; stale = refl }

pub read_dentry-SameDisk :
    (k k' : Kernel) (name : List ℕ) (d : Dentry)
    → SameDisk k k'
    → read_dentry_by_name k' name d ≡ read_dentry_by_name k name d
unfolding read_dentry_by_name find_dentry copy_dentry
read_dentry-SameDisk k k' name d same = rw same.bytes refl

pub large_inode-SameDisk : (k k' : Kernel) → SameDisk k k' → large_inode k' ≡ large_inode k
unfolding large_inode
large_inode-SameDisk k k' same =
    let stale : ℕ → Dentry =
      λ i. record { filename = λ _. 0; filetype = 0; inode_num = i; reserved = λ _. 0 } in
    let inode : ℕ → Option Dentry → ℕ = λ i o. elim o [ none ↦ i | some d ↦ d.inode_num ] in
    ap (inode k'.stale_inode)
      (read_dentry-SameDisk k k' very_large_text (stale k'.stale_inode) same)
    ∙ ap (λ i. inode i (read_dentry_by_name k very_large_text (stale i))) same.stale

-- The kernel's own buffers lie below 128 MB, where an address leads to itself.
pub translate_low : (k : Kernel) (a : ℕ) → a < 0x8000000 → translate k.paging a ≡ a
unfolding translate
translate_low k a low = ground arith

pub read_low :
    (inode offset buf n i : ℕ) (k : Kernel)
    → buf + n ≤ 0x8000000
    → i < n
    → read_byte (read_state inode offset buf n k) (buf + i) ≡ file_byte k inode (offset + i)
read_low inode offset buf n i k low lt =
    let at : (j : ℕ) → j < n → translate k.paging (add32 buf j) ≡ buf + j =
      λ j le. translate_low k (add32 buf j) (omega arith) ∙ omega arith in
    ap (copied k inode buf offset n 0 k.mem)
      (translate_low k (buf + i) (omega arith) ∙ omega (arith, at i lt))
    ∙ copied_bytes k inode buf offset n k.mem i (λ a b la lb e. omega (arith, at a la, at b lb, e))
        lt

pub is_elf-read_state :
    (inode buf : ℕ) (k : Kernel)
    → file_byte k inode 0 ≡ 0x7F
    → file_byte k inode 1 ≡ 0x45
    → file_byte k inode 2 ≡ 0x4C
    → file_byte k inode 3 ≡ 0x46
    → buf + 4 ≤ 0x8000000
    → is_elf buf (read_state inode 0 buf 4 k) ≡ true
unfolding is_elf
is_elf-read_state inode buf k m0 m1 m2 m3 low =
    let b0 = read_low inode 0 buf 4 0 k low (omega arith) in
    rw
      (
        read_low inode 0 buf 4 1 k low (omega arith),
        read_low inode 0 buf 4 2 k low (omega arith),
        read_low inode 0 buf 4 3 k low (omega arith),
        ap (read_byte (read_state inode 0 buf 4 k)) (the_start buf) ∙ b0,
        m0,
        m1,
        m2,
        m3,
      )
      refl
  where
    the_start : (b : ℕ) → b ≡ b + 0
    the_start b = omega arith

pub fill_pcb-SameDisk :
    (arg : List ℕ) (frame : Frame) (old : ℕ) (k : Kernel)
    → let k' = fill_pcb arg frame (record_parent old k) in
      SameDisk k k' × (k'.mem ≡ k.mem) × (k'.paging ≡ k.paging)
unfolding fill_pcb record_parent
fill_pcb-SameDisk arg frame old k = (
  record {
    bytes = ground arith;
    inodes = ground arith;
    blocks = ground arith;
    stale = ground arith;
  },
  ground arith,
  ground arith,
)

pub virt_to_phys_user-SameDisk : (pid : ℕ) (k : Kernel) → SameDisk k (virt_to_phys_user pid k)
unfolding virt_to_phys_user
virt_to_phys_user-SameDisk pid k = record {
  bytes = refl;
  inodes = refl;
  blocks = refl;
  stale = refl;
}

pub adopt_pid-SameDisk :
    (k k' : Kernel)
    → SameDisk k k'
    → SameDisk k (adopt_pid k') × ((adopt_pid k').curr_pid ≡ k'.curr_pid)
unfolding adopt_pid
adopt_pid-SameDisk k k' same = (
  record {
    bytes = ground (arith, same.bytes);
    inodes = ground (arith, same.inodes);
    blocks = ground (arith, same.blocks);
    stale = ground (arith, same.stale);
  },
  ground arith,
)

allocate_pid_free :
    (i : ℕ) (k : Kernel)
    → (active k).init_flag ≡ 1
    → free_pid k ≡ some i
    → allocate_pid k ≡ some (record k { pid_array = update k.pid_array i 1; curr_pid = i })
unfolding allocate_pid
allocate_pid_free i k init found = ground (arith, init, found)

pub load_program_step :
    (inode i : ℕ) (arg : List ℕ) (frame : Frame) (k : Kernel)
    → (active k).init_flag ≡ 1
    → free_pid k ≡ some i
    → load_program inode arg frame k
      ≡ load_image inode arg k.curr_pid frame
          (adopt_pid (record k { pid_array = update k.pid_array i 1; curr_pid = i }))
unfolding load_program
load_program_step inode i arg frame k init found = ground (arith, allocate_pid_free i k init found)

pub begin_execute-SameDisk : (k : Kernel) → SameDisk k (begin_execute k)
unfolding begin_execute clear_temp_buff
begin_execute-SameDisk k = record {
  bytes = ground arith;
  inodes = ground arith;
  blocks = ground arith;
  stale = ground arith;
}

pub free_pid_same : (k k' : Kernel) → k'.pid_array ≡ k.pid_array → free_pid k' ≡ free_pid k
unfolding free_pid
free_pid_same k k' e = rw e refl
