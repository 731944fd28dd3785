-- ===== src/User/Syserr/Started.antt =====
-- The program of tests, and any other, is started with nothing opened.
use mini_os_with_friends.Base.{ℕ, ◌<◌, ◌≤◌, ◌≡◌, ◌∙◌, ap, arith, some, List}
use mini_os_with_friends.State.{FileDesc, OpTable, Kernel}
use mini_os_with_friends.Memory.{active}
use mini_os_with_friends.Paging.{get_pcb_blk}
use mini_os_with_friends.Paging.Isolation.{get_pcb_blk-eq-get_pcb_addr}
use mini_os_with_friends.FileSystem.{Dentry}
use mini_os_with_friends.Process.{Outcome, Frame, execute_call, fresh_desc}
use mini_os_with_friends.Process.Launch.{Launched, execute_call-Launched}
use mini_os_with_friends.Syscall.{descriptor}
use mini_os_with_friends.Syscall.Untouched.{usage}
use mini_os_with_friends.User.Syserr.Fails.{Names, Names-fs, Fresh}

blank_desc : FileDesc
blank_desc = record { table_ptr = OpTable.nothing; inode_num = 0; file_position = 0; flags = 0 }

Launched-descriptor :
    (k0 : Kernel) (old : ℕ) (frame : Frame) (i : ℕ) (k : Kernel) (j : ℕ)
    → Launched k0 old frame i k
    → j < 8
    → descriptor k j ≡ fresh_desc j blank_desc
Launched-descriptor k0 old frame i k j l small =
    ap (λ (p : ℕ). (k.pcb (get_pcb_blk p)).file_desc_array j) l.owned
    ∙ ap (λ (a : ℕ). (k.pcb a).file_desc_array j) (get_pcb_blk-eq-get_pcb_addr i)
    ∙ l.descs j blank_desc small

Launched-Fresh :
    (stale : Dentry) (k0 : Kernel) (old : ℕ) (frame : Frame) (i : ℕ) (k : Kernel)
    → Launched k0 old frame i k
    → Names stale k0
    → Fresh stale k
unfolding fresh_desc
Launched-Fresh stale k0 old frame i k l names =
    let use_of : FileDesc → OpTable × ℕ = λ d. (d.table_ptr, d.flags) in
    record {
      in_open = ap use_of (Launched-descriptor k0 old frame i k 0 l (omega arith));
      out_open = ap use_of (Launched-descriptor k0 old frame i k 1 l (omega arith));
      taken = λ j lo hi. absurd (omega arith);
      free = λ j lo small out.
          ap FileDesc.flags (Launched-descriptor k0 old frame i k j l small) ∙ ground arith;
      names = Names-fs stale k0 k l.same_fs names;
    }

-- A program that `execute_call` enters, in a terminal whose shell runs, has opened nothing: descriptor
-- 0 reads the keyboard, descriptor 1 writes to the screen, and 2 to 7 are free. The image is the one
-- before the call, so that, where the image has `.` as a directory and neither `helloo` nor `shel`, the
-- program starts in the state that the tests of the system calls ask for.
pub execute_call-Fresh :
    (frame : Frame) (stale names_stale : Dentry) (command : List ℕ) (p s : ℕ) (k k' : Kernel)
    → (active k).init_flag ≡ 1
    → execute_call frame stale command k ≡ some (Outcome.entered p s, k')
    → (usage k' 0 ≡ (OpTable.stdin, 0))
      × (usage k' 1 ≡ (OpTable.stdout, 0))
      × ((j : ℕ) → 2 ≤ j → j < 8 → (descriptor k' j).flags ≡ 1)
      × (k'.fs ≡ k.fs)
      × (Names names_stale k → Fresh names_stale k')
unfolding fresh_desc
execute_call-Fresh frame stale names_stale command p s k k' init e =
    let (i, l) = execute_call-Launched frame stale command p s k k' init e in
    let use_of : FileDesc → OpTable × ℕ = λ d. (d.table_ptr, d.flags) in
    let at : (j : ℕ) → j < 8 → descriptor k' j ≡ fresh_desc j blank_desc =
      λ j small. Launched-descriptor k (active k).pid frame i k' j l small in
    (
      ap use_of (at 0 (omega arith)),
      ap use_of (at 1 (omega arith)),
      λ j lo small. ap FileDesc.flags (at j small) ∙ ground arith,
      l.same_fs,
      λ names. Launched-Fresh names_stale k (active k).pid frame i k' l names,
    )
