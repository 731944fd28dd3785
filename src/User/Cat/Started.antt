-- ===== src/User/Cat/Started.antt =====
-- `cat` on this kernel, from its argument on.
use mini_os_with_friends.Base.{
  ℕ, zero, suc, ◌+◌, ◌≡◌, ◌≢◌, inl, inr, refl, ◌∙◌, ap, sym, arith, ◌==◌, false, some, List, error,
  length,
}
use native.Mathlib.Decide.{dec_lt}
use mini_os_with_friends.Base.Maps.{update_self, update_ne}
use mini_os_with_friends.State.{FileDesc, OpTable, Kernel}
use mini_os_with_friends.Memory.{active}
use mini_os_with_friends.Paging.{get_pcb_blk}
use mini_os_with_friends.FileSystem.{
  Dentry, read_dentry_by_name, find_dentry, copy_dentry, inode_length, large_inode,
}
use mini_os_with_friends.FileSystem.Contents.{file_byte}
use mini_os_with_friends.Syscall.{
  reply, descriptor, set_descriptor, open_call, opened_desc, table_of,
}
use mini_os_with_friends.Syscall.Handler.{do_syscall_in_c, after_call, syscall_handler}
use mini_os_with_friends.Syscall.Untouched.{usage}
use mini_os_with_friends.Syscall.Descriptors.{descriptor-set_descriptor, open_call_cases}
use mini_os_with_friends.User.{Calls}
use mini_os_with_friends.User.Machine.{Setting, kernel_calls, system_call, outcome}
use mini_os_with_friends.User.Syserr.Refused.{resumed}
use mini_os_with_friends.User.Cat.{copy_loop, main}
use mini_os_with_friends.User.Cat.Kernel.{IsFileAt, FitsRead, file_bytes, copy_loop-file}

-- The process may open the file under descriptor 2, and print.
pub record CanOpen (s : Setting) (name : List ℕ) (dentry : Dentry) (k : Kernel) : Type 0 where
  pub out : usage k 1 ≡ (OpTable.stdout, 0)
  pub free : (descriptor k 2).flags ≡ 1
  pub found : read_dentry_by_name k name s.stale ≡ some dentry
  pub is_file : dentry.filetype ≡ 2
  pub one_read : FitsRead s dentry.inode_num k

file_bytes-same :
    (n offset : ℕ) (k k' : Kernel) (inode : ℕ)
    → ((o : ℕ) → file_byte k' inode o ≡ file_byte k inode o)
    → file_bytes n offset k' inode ≡ file_bytes n offset k inode
file_bytes-same zero offset k k' inode same = refl
file_bytes-same (suc n) offset k k' inode same =
    rw (same offset, file_bytes-same n (offset + 1) k k' inode same) refl

read_dentry-resumed :
    (k : Kernel) (name : List ℕ) (stale : Dentry)
    → read_dentry_by_name (resumed k) name stale ≡ read_dentry_by_name k name stale
unfolding read_dentry_by_name find_dentry copy_dentry
read_dentry-resumed k name stale = refl

module _ (s : Setting) (name : List ℕ) (dentry : Dentry) (k : Kernel)
    (runs : k.curr_pid ≡ (active k).pid) (c : CanOpen s name dentry k) where
  abbrev entered : Kernel
  entered = set_descriptor (get_pcb_blk (active k).pid) 2 (opened_desc dentry) (resumed k)

  opens_two : open_call (some name) s.stale (resumed k) ≡ (2, entered)
  opens_two =
      elim (open_call_cases name s.stale dentry (resumed k)
        (read_dentry-resumed k name s.stale ∙ c.found)) [
          | inl (fd, opened, from, below, free, least) ↦
              let two : fd ≡ 2 = elim (dec_lt 2 fd) [
                | yes beyond ↦ absurd (least 2 (omega arith) beyond c.free)
                | no same ↦ omega arith
              ] in
              opened
              ∙ ap
                  (λ (n : ℕ). (
                    n,
                    set_descriptor (get_pcb_blk (active k).pid) n (opened_desc dentry) (resumed k),
                  ))
                  two
          | inr (failed, full) ↦ absurd (full 2 (omega arith) (omega arith) c.free)
        ]

  open_path_two : (kernel_calls s).open_path name (some k) ≡ (2, some (resumed entered))
  unfolding kernel_calls system_call syscall_handler do_syscall_in_c after_call
  open_path_two = ap (λ (r : ℕ × Kernel). outcome (after_call (reply r))) opens_two

  entered-descriptor : descriptor entered 2 ≡ opened_desc dentry
  entered-descriptor =
      descriptor-set_descriptor 2 2 (opened_desc dentry) (resumed k)
      ∙ update_self (descriptor k) 2 (opened_desc dentry)

  entered-IsFileAt : IsFileAt 2 dentry.inode_num 0 (resumed entered)
  unfolding table_of
  entered-IsFileAt =
      let files : table_of dentry.filetype ≡ OpTable.files = rw c.is_file refl in
      record {
        numbered = (omega arith, omega arith);
        runs = runs;
        file = ap FileDesc.table_ptr entered-descriptor ∙ files;
        in_use = ap FileDesc.flags entered-descriptor;
        inode_is = ap FileDesc.inode_num entered-descriptor;
        position_is = ap FileDesc.file_position entered-descriptor;
      }

  large_inode-entered : large_inode (resumed entered) ≡ large_inode k
  unfolding large_inode read_dentry_by_name find_dentry copy_dentry
  large_inode-entered = refl

  entered-FitsRead : FitsRead s dentry.inode_num (resumed entered)
  entered-FitsRead =
      let f = c.one_read in
      record {
        buffer = f.buffer;
        buffer_word = f.buffer_word;
        numbered = f.numbered;
        some_bytes = f.some_bytes;
        fits = f.fits;
        ordinary = λ e. f.ordinary (sym large_inode-entered ∙ e);
        block = f.block;
        apart = f.apart;
      }

  entered-out : usage entered 1 ≡ (OpTable.stdout, 0)
  entered-out =
      ap (λ (d : FileDesc). (d.table_ptr, d.flags))
        (descriptor-set_descriptor 2 1 (opened_desc dentry) (resumed k)
          ∙ update_ne (descriptor k) 2 1 (opened_desc dentry) (omega arith))
      ∙ c.out

main-copies :
    {S : Type 0} (calls : Calls S) (fuel fd : ℕ) (name : List ℕ) (k k0 k1 : S)
    → calls.getargs 1024 k ≡ (0, name, k0)
    → calls.open_path name k0 ≡ (fd, k1)
    → fd ≢ error
    → main calls fuel k ≡ copy_loop calls fuel fd k1
unfolding main
main-copies calls fuel fd name k k0 k1 given opened valid =
    let fine : (fd == error) ≡ false = ground (arith, valid) in rw (given, opened, fine) refl

-- The program `cat` on this kernel, where `getargs` gives the name of a file, the number of the current
-- process is that of the active terminal's process, descriptor 2 is free, and descriptor 1 is in use for
-- the screen. The file has 1 to 1024 bytes, is not the very large text, its inode number and its first block are in
-- range, the place for texts and the buffer are not null, and the buffer's bytes lie at different
-- addresses. Then it opens the file, one read gives exactly the bytes of the file, they go to the screen in
-- one write that does not fail, nothing is written to memory after that, and `main` returns 0.
pub main-file :
    (s : Setting) (fuel : ℕ) (name : List ℕ) (dentry : Dentry) (k k0 : Kernel)
    → (kernel_calls s).getargs 1024 (some k) ≡ (0, name, some k0)
    → k0.curr_pid ≡ (active k0).pid
    → CanOpen s name dentry k0
    → s.text ≢ 0
    → let bytes = file_bytes (inode_length k0 dentry.inode_num) 0 k0 dentry.inode_num in
      (fd : ℕ) × ((k1 : Kernel) × ((k2 : Kernel) × ((k3 : Kernel) × ((k4 : Kernel) × ((kernel_calls
                    s).open_path
                  name
                  (some k0)
                ≡ (fd, some k1))
              × ((kernel_calls s).read fd 1024 (some k1) ≡ (length bytes, bytes, some k2))
              × ((kernel_calls s).write 1 bytes (some k2) ≡ (0, some k3))
              × (main (kernel_calls s) (suc (suc fuel)) (some k) ≡ some (0, some k4))
              × (k4.mem ≡ k3.mem)))))
main-file s fuel name dentry k k0 given running c some_text =
    let k1 = resumed (entered s name dentry k0 running c) in
    let inode = dentry.inode_num in
    let n = inode_length k0 inode in
    let (k2, (k3, (k4, read, wrote, copied, kept))) =
      copy_loop-file s 2 inode fuel k1 (entered-IsFileAt s name dentry k0 running c)
        (entered-FitsRead s name dentry k0 running c) some_text
        (entered-out s name dentry k0 running c) in
    let same : file_bytes n 0 k1 inode ≡ file_bytes n 0 k0 inode =
      file_bytes-same n 0 k0 k1 inode (λ o. refl) in
    let opened = open_path_two s name dentry k0 running c in
    let runs =
      main-copies (kernel_calls s) (suc (suc fuel)) 2 name (some k) (some k0) (some k1) given opened
        (omega arith) in
    (
      2,
      (
        k1,
        (
          k2,
          (
            k3,
            (
              k4,
              opened,
              read ∙ ap (λ b. (length b, b, some k2)) same,
              ap (λ b. (kernel_calls s).write 1 b (some k2)) (sym same) ∙ wrote,
              runs ∙ copied,
              kept,
            ),
          ),
        ),
      ),
    )
