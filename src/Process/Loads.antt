-- ===== src/Process/Loads.antt =====
-- The load of a program file, and its launch.
use mini_os_with_friends.Base.{
  ℕ, ◌+◌, ◌*◌, ◌/◌, ◌≤◌, ◌<◌, ◌≡◌, refl, sym, ◌∙◌, ap, ◌≢◌, some, false, List, arith, ◌==◌, error,
  add32, min,
}
use mini_os_with_friends.State.{Kernel}
use mini_os_with_friends.Memory.{read_byte, read_word, word_at}
use mini_os_with_friends.Paging.{translate, virt_to_phys_user}
use mini_os_with_friends.Paging.Isolation.{translate-virt_to_phys_user}
use mini_os_with_friends.FileSystem.{read_data, large_inode, inode_length, num_data_blk}
use mini_os_with_friends.FileSystem.Contents.{
  file_byte, copied, copied_bytes, copied_elsewhere, read_state, read_data-read_state,
}
use mini_os_with_friends.Process.{
  Outcome, Frame, load_image, launch, record_parent, fill_pcb, set_tss, program_addr,
  user_stack_top,
}
use mini_os_with_friends.Process.Disk.{
  SameDisk, large_inode-SameDisk, translate_low, read_low, fill_pcb-SameDisk,
  virt_to_phys_user-SameDisk,
}

-- A file that `execute_call` takes for a program, and that fits in the program's page.
pub record IsProgram (k : Kernel) (inode : ℕ) : Type 0 where
  pub numbered : inode ≤ k.inodes_count
  pub long : 28 ≤ inode_length k inode
  pub fits : inode_length k inode ≤ 0x3B8000
  pub valid :
      (i : ℕ) → i < inode_length k inode → num_data_blk k inode (i / 4096) < k.data_count_blk
  pub magic_0 : file_byte k inode 0 ≡ 0x7F
  pub magic_1 : file_byte k inode 1 ≡ 0x45
  pub magic_2 : file_byte k inode 2 ≡ 0x4C
  pub magic_3 : file_byte k inode 3 ≡ 0x46
  pub ordinary : large_inode k ≢ inode

pub IsProgram-SameDisk :
    (k k' : Kernel) (inode : ℕ) → SameDisk k k' → IsProgram k inode → IsProgram k' inode
IsProgram-SameDisk k k' inode same p = record {
  numbered = rw same.inodes p.numbered;
  long = rw same.bytes p.long;
  fits = rw same.bytes p.fits;
  valid = rw (same.bytes, same.blocks) p.valid;
  magic_0 = rw (same.bytes, same.inodes) p.magic_0;
  magic_1 = rw (same.bytes, same.inodes) p.magic_1;
  magic_2 = rw (same.bytes, same.inodes) p.magic_2;
  magic_3 = rw (same.bytes, same.inodes) p.magic_3;
  ordinary = rw (large_inode-SameDisk k k' same) p.ordinary;
}

-- The entry point of a program, at byte 24 of its file.
abbrev pub entry_point : Kernel → ℕ → ℕ
entry_point k inode = word_at (λ a. file_byte k inode a) 24

pub entry_point-SameDisk :
    (k k' : Kernel) (inode : ℕ) → SameDisk k k' → entry_point k' inode ≡ entry_point k inode
entry_point-SameDisk k k' inode same = rw (same.bytes, same.inodes) refl

read_word_low :
    (inode buf : ℕ) (k : Kernel)
    → buf + 4 ≤ 0x8000000
    → read_word (read_state inode 24 buf 4 k) buf ≡ entry_point k inode
read_word_low inode buf k low =
    let at = λ (i : ℕ) (lt : i < 4). read_low inode 24 buf 4 i k low lt in
    let start : buf + 0 ≡ buf = omega arith in
    let first = ap (read_byte (read_state inode 24 buf 4 k)) (sym start) ∙ at 0 (omega arith) in
    rw (first, at 1 (omega arith), at 2 (omega arith), at 3 (omega arith)) refl

-- From the loaded image on: the program is entered, and memory from 8 MB on is as it was.
launch-enters :
    (inode : ℕ) (arg : List ℕ) (old : ℕ) (frame : Frame) (k : Kernel)
    → IsProgram k inode
    → 0 < frame.entry_addr
    → frame.entry_addr + 4 ≤ 0x800000
    → (k' : Kernel) × (launch inode arg old frame k
        ≡ some (Outcome.entered (entry_point k inode) user_stack_top, k'))
      × (k'.paging ≡ k.paging)
      × ((a : ℕ) → 0x800000 ≤ a → k'.mem a ≡ k.mem a)
unfolding launch set_tss
launch-enters inode arg old frame k p some_addr low =
    let filled = fill_pcb arg frame (record_parent old k) in
    let (same, mem, paging) = fill_pcb-SameDisk arg frame old k in
    let q = IsProgram-SameDisk k filled inode same p in
    let after = read_state inode 24 frame.entry_addr 4 filled in
    let read : read_data inode 24 frame.entry_addr 4 filled
        ≡ some (min 4 (inode_length filled inode), after) =
      read_data-read_state inode 24 frame.entry_addr 4 filled (omega arith) (omega arith) q.numbered
        (λ e. omega (arith, e)) (omega (arith, q.long)) q.ordinary
        (λ i lt. q.valid (24 + i) (omega (arith, q.long))) in
    let point : read_word after frame.entry_addr ≡ entry_point k inode =
      read_word_low inode frame.entry_addr filled (omega arith)
      ∙ entry_point-SameDisk k filled inode same in
    (
      set_tss after.curr_pid after,
      rw (read, point) refl,
      paging,
      λ a high.
          copied_elsewhere filled inode frame.entry_addr 24 4 filled.mem a (λ i lt e.
            omega (arith, e, translate_low filled (add32 frame.entry_addr i) (omega arith)))
          ∙ ap (λ m. m a) mem,
    )

-- The image in the program's page.
loaded_bytes :
    (inode pid j : ℕ) (k : Kernel)
    → pid < 6
    → inode_length k inode ≤ 0x3B8000
    → j < inode_length k inode
    → let paged = virt_to_phys_user pid k in
      (0x800000 ≤ translate paged.paging (program_addr + j))
      × (copied paged inode program_addr 0
            (inode_length k inode)
            0
            paged.mem
            (translate paged.paging (program_addr + j))
          ≡ file_byte paged inode j)
loaded_bytes inode pid j k hp fits lt =
    let paged = virt_to_phys_user pid k in
    let at : (i : ℕ)
        → i < inode_length k inode
        → translate paged.paging (add32 program_addr i) ≡ 0x848000 + 0x400000 * pid + i =
      λ i le.
        ap (translate paged.paging) (omega arith)
        ∙ translate-virt_to_phys_user pid (program_addr + i) k hp (omega arith) (omega arith)
        ∙ omega arith in
    let here : translate paged.paging (program_addr + j)
        ≡ translate paged.paging (add32 program_addr j) =
      ap (translate paged.paging) (omega arith) in
    (
      omega (arith, here, at j lt),
      ap (copied paged inode program_addr 0 (inode_length k inode) 0 paged.mem) here
          ∙ copied_bytes paged inode program_addr 0 (inode_length k inode) paged.mem j
              (λ a b la lb e. omega (arith, at a la, at b lb, e)) lt
          ∙ ap (file_byte paged inode) (omega arith),
    )

pub load_image-enters :
    (inode : ℕ) (arg : List ℕ) (old : ℕ) (frame : Frame) (k : Kernel)
    → k.curr_pid < 6
    → IsProgram k inode
    → 0 < frame.entry_addr
    → frame.entry_addr + 4 ≤ 0x800000
    → (k' : Kernel) × (load_image inode arg old frame k
        ≡ some (Outcome.entered (entry_point k inode) user_stack_top, k'))
      × ((j : ℕ) → j < inode_length k inode → read_byte k' (program_addr + j) ≡ file_byte k inode j)
unfolding load_image virt_to_phys_user
load_image-enters inode arg old frame k hp p some_addr low =
    let paged = virt_to_phys_user k.curr_pid k in
    let length = inode_length k inode in
    let disk = virt_to_phys_user-SameDisk k.curr_pid k in
    let q = IsProgram-SameDisk k paged inode disk p in
    let loaded = read_state inode 0 program_addr length paged in
    let block : (i : ℕ) → i < length → num_data_blk k inode ((0 + i) / 4096) < k.data_count_blk =
      λ i lt. let e : 0 + i ≡ i = omega arith in rw e (p.valid i lt) in
    let whole : min length length ≡ length = omega arith in
    let read : read_data inode 0 program_addr length paged ≡ some (length, loaded) =
      read_data-read_state inode 0 program_addr length paged (omega (arith, p.long))
        (omega (arith, p.fits)) q.numbered (omega arith) (omega (arith, p.long)) q.ordinary block
      ∙ ap (λ v. some (v, loaded)) whole in
    let fine : (length == error) ≡ false = ground (arith, p.fits) in
    let r =
      IsProgram-SameDisk paged loaded inode
        (record { bytes = refl; inodes = refl; blocks = refl; stale = refl }) q in
    let (k', launched, paging, mem) = launch-enters inode arg old frame loaded r some_addr low in
    (
      k',
      rw (read, fine) launched,
      λ j lt.
          let (high, bytes) = loaded_bytes inode k.curr_pid j k hp p.fits lt in
          ap (λ p. k'.mem (translate p (program_addr + j))) paging
          ∙ mem (translate paged.paging (program_addr + j)) high
          ∙ bytes,
    )
