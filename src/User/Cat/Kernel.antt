-- ===== src/User/Cat/Kernel.antt =====
-- `cat` on this kernel: what it prints of a file that one read takes.
use mini_os_with_friends.Base.{
  ℕ, zero, suc, ◌+◌, ◌/◌, ◌≤◌, ◌<◌, ◌≡◌, ◌≢◌, refl, ◌∙◌, ap, sym, arith, ◌==◌, false, some, List,
  [], ◌∷◌, error, length, add32, word,
}
use mini_os_with_friends.Base.Maps.{update_self, update_ne}
use mini_os_with_friends.State.{FileDesc, OpTable, Kernel}
use mini_os_with_friends.Memory.{active, read_byte, word_at}
use mini_os_with_friends.Paging.{get_pcb_blk, translate}
use mini_os_with_friends.FileSystem.{
  inode_offset, read_dentry_by_name, find_dentry, copy_dentry, inode_length, num_data_blk,
  large_inode, read_data, read_counted, count_large, read_from_file,
}
use mini_os_with_friends.FileSystem.Contents.{
  file_byte, read_state, read_data-read_state, copied_bytes,
}
use mini_os_with_friends.Syscall.{
  Reply, Waiting, reply_option, descriptor, set_descriptor, advance, read_call, read_entry,
}
use mini_os_with_friends.Syscall.Untouched.{usage, SameFiles, descriptor-SameFiles}
use mini_os_with_friends.Syscall.Descriptors.{descriptor-set_descriptor}
use mini_os_with_friends.User.Syserr.Standard.{write_stdout}
use mini_os_with_friends.Syscall.Handler.{do_syscall_in_c, after_call, syscall_handler}
use mini_os_with_friends.User.Machine.{
  Setting, bytes_at, buffered, kernel_calls, system_call, outcome,
}
use mini_os_with_friends.User.Syserr.Refused.{resumed}
use mini_os_with_friends.User.{Calls}
use mini_os_with_friends.User.Cat.{copy_loop}

-- A descriptor of the running process that stands somewhere in a file.
pub record IsFileAt (fd inode position : ℕ) (k : Kernel) : Type 0 where
  pub numbered : (2 ≤ fd) × (fd < 8)
  pub runs : k.curr_pid ≡ (active k).pid
  pub file : (descriptor k fd).table_ptr ≡ OpTable.files
  pub in_use : (descriptor k fd).flags ≡ 0
  pub inode_is : (descriptor k fd).inode_num ≡ inode
  pub position_is : (descriptor k fd).file_position ≡ position

IsFileAt-resumed :
    (fd inode position : ℕ) (k : Kernel)
    → IsFileAt fd inode position k
    → IsFileAt fd inode position (resumed k)
IsFileAt-resumed fd inode position k at = record {
  numbered = at.numbered;
  runs = at.runs;
  file = at.file;
  in_use = at.in_use;
  inode_is = at.inode_is;
  position_is = at.position_is;
}

large_inode-resumed : (k : Kernel) → large_inode k ≡ large_inode (resumed k)
unfolding large_inode read_dentry_by_name find_dentry copy_dentry
large_inode-resumed k = refl

-- A read through such a descriptor is one of the file, and moves the position by what is returned.
read_call-file :
    (w : Waiting) (fd inode position buf nbytes : ℕ) (k : Kernel)
    → IsFileAt fd inode position k
    → buf ≢ 0
    → 0 < nbytes
    → nbytes < 0x80000000
    → read_call w fd buf nbytes k
      ≡ advance
          (get_pcb_blk (active k).pid)
          fd
          (reply_option (read_data inode position buf nbytes k))
unfolding read_call read_entry read_from_file
read_call-file w fd inode position buf nbytes k at some_buf pos small =
    rw (at.file, at.runs, at.inode_is, at.position_is) (ground (arith, at.numbered, at.in_use))

count_large-length :
    (i inode : ℕ) (k : Kernel) → inode_length (count_large i k) inode ≡ inode_length k inode
unfolding count_large
count_large-length i inode k = ground arith

count_large-mem : (i : ℕ) (k : Kernel) → (count_large i k).mem ≡ k.mem
unfolding count_large
count_large-mem i k = ground arith

read_data_at_end :
    (inode offset buf nbytes : ℕ) (k : Kernel)
    → inode ≤ k.inodes_count
    → buf ≢ 0
    → inode_length k inode ≤ offset
    → read_data inode offset buf nbytes k ≡ some (0, count_large inode k)
unfolding read_data read_counted
read_data_at_end inode offset buf nbytes k numbered some_buf past =
    ground (arith, count_large-length inode inode k)

-- The bytes of a file from its start.
abbrev pub file_bytes : (n offset : ℕ) → Kernel → (inode : ℕ) → List ℕ
file_bytes zero offset k inode = []
file_bytes (suc n) offset k inode = file_byte k inode offset ∷ file_bytes n (offset + 1) k inode

length-file_bytes :
    (n offset : ℕ) (k : Kernel) (inode : ℕ) → length (file_bytes n offset k inode) ≡ n
length-file_bytes zero offset k inode = refl
length-file_bytes (suc n) offset k inode = omega (arith, length-file_bytes n (offset + 1) k inode)

bytes_at-file_bytes :
    (n i buf : ℕ) (k k' : Kernel) (inode : ℕ)
    → ((j : ℕ) → i ≤ j → j < i + n → read_byte k' (add32 buf j) ≡ file_byte k inode j)
    → bytes_at n (add32 buf i) k' ≡ file_bytes n i k inode
unfolding bytes_at
bytes_at-file_bytes zero i buf k k' inode same = refl
bytes_at-file_bytes (suc n) i buf k k' inode same =
    let next : add32 (add32 buf i) 1 ≡ add32 buf (i + 1) = omega arith in
    rw (next, same i (omega arith) (omega arith))
      (ap (λ r. file_byte k inode i ∷ r)
        (bytes_at-file_bytes n (i + 1) buf k k' inode
          (λ j lo hi. same j (omega arith) (omega arith))))

-- A file that one read of 1024 bytes takes, and a buffer whose bytes lie at different addresses.
pub record FitsRead (s : Setting) (inode : ℕ) (k : Kernel) : Type 0 where
  pub buffer : s.buf ≢ 0
  pub buffer_word : s.buf < word
  pub numbered : inode ≤ k.inodes_count
  pub some_bytes : 0 < inode_length k inode
  pub fits : inode_length k inode ≤ 1024
  pub ordinary : large_inode k ≢ inode
  pub block : num_data_blk k inode 0 < k.data_count_blk
  pub apart :
      (i j : ℕ)
      → i < 1024
      → j < 1024
      → translate k.paging (add32 s.buf i) ≡ translate k.paging (add32 s.buf j)
      → i ≡ j

module _ (s : Setting) (fd inode : ℕ) (k : Kernel) (at : IsFileAt fd inode 0 k)
    (f : FitsRead s inode k) where
  abbrev taken : Kernel
  taken = read_state inode 0 s.buf 1024 (resumed k)

  abbrev advanced : FileDesc
  advanced = record (descriptor k fd) {
    file_position = add32 (descriptor k fd).file_position (inode_length k inode);
  }

  abbrev moved : Kernel
  moved = set_descriptor (get_pcb_blk (active k).pid) fd advanced taken

  taken_lem : read_data inode 0 s.buf 1024 (resumed k) ≡ some (inode_length k inode, taken)
  taken_lem =
      let one_block : (i : ℕ)
          → i < 1024
          → num_data_blk k inode ((0 + i) / 4096) < k.data_count_blk =
        λ i small. let first : (0 + i) / 4096 ≡ 0 = omega arith in rw first f.block in
      read_data-read_state inode 0 s.buf 1024 (resumed k) (omega arith) (omega arith) f.numbered
        f.buffer f.some_bytes (λ e. f.ordinary (large_inode-resumed k ∙ e)) one_block
      ∙ ap (λ n. some (n, taken)) (omega (arith, f.fits))

  answered :
      read_call s.waiting fd s.buf 1024 (resumed k) ≡ Reply.answer (inode_length k inode) moved
  unfolding advance
  answered =
      read_call-file s.waiting fd inode 0 s.buf 1024 (resumed k) (IsFileAt-resumed fd inode 0 k at)
        f.buffer (omega arith) (omega arith)
      ∙ ap (λ o. advance (get_pcb_blk (active k).pid) fd (reply_option o)) taken_lem

  buffer_bytes :
      bytes_at (inode_length k inode) s.buf (resumed moved)
      ≡ file_bytes (inode_length k inode) 0 k inode
  buffer_bytes =
      let start : add32 s.buf 0 ≡ s.buf = omega (arith, f.buffer_word) in
      ap (λ a. bytes_at (inode_length k inode) a (resumed moved)) (sym start)
      ∙ bytes_at-file_bytes (inode_length k inode) 0 s.buf k (resumed moved) inode (λ j lo hi.
        copied_bytes k inode s.buf 0 1024 k.mem j f.apart (omega (arith, f.fits))
        ∙ (let zero_plus : 0 + j ≡ j = omega arith in ap (file_byte k inode) zero_plus))

  first_read :
      (kernel_calls s).read fd 1024 (some k)
      ≡ (inode_length k inode, file_bytes (inode_length k inode) 0 k inode, some (resumed moved))
  unfolding kernel_calls system_call syscall_handler do_syscall_in_c after_call
  first_read =
      let whole : (inode_length k inode == error) ≡ false = ground (arith, f.fits) in
      ap (λ (r : Reply). let (v, k') = outcome (after_call r) in (v, buffered s v k', k')) answered
      ∙ rw (whole, buffer_bytes) refl

  moved-descriptor : descriptor moved fd ≡ advanced
  moved-descriptor =
      descriptor-set_descriptor fd fd advanced taken ∙ update_self (descriptor k) fd advanced

  moved-usage : usage moved 1 ≡ usage k 1
  moved-usage =
      ap (λ (d : FileDesc). (d.table_ptr, d.flags))
        (descriptor-set_descriptor fd 1 advanced taken
          ∙ update_ne (descriptor k) fd 1 advanced (λ e. omega (arith, e, at.numbered)))

  -- The screen takes the bytes, and the process and its descriptors are as they were.
  shown :
      s.text ≢ 0
      → usage k 1 ≡ (OpTable.stdout, 0)
      → (k2 : Kernel) × ((kernel_calls s).write 1
            (file_bytes (inode_length k inode) 0 k inode)
            (some (resumed moved))
          ≡ (0, some k2))
        × SameFiles (resumed moved) k2
  shown some_text out =
      let count = length-file_bytes (inode_length k inode) 0 k inode in
      write_stdout s (file_bytes (inode_length k inode) 0 k inode) (resumed moved)
        (moved-usage ∙ out) some_text (omega (arith, count, f.some_bytes))
        (omega (arith, count, f.fits))

  at_end :
      (k2 : Kernel) → SameFiles (resumed moved) k2 → IsFileAt fd inode (inode_length k inode) k2
  at_end k2 same =
      let here : descriptor k2 fd ≡ advanced =
        descriptor-SameFiles (resumed moved) k2 fd same ∙ moved-descriptor in
      record {
        numbered = at.numbered;
        runs = same.same_curr ∙ at.runs ∙ sym same.same_pid;
        file = ap FileDesc.table_ptr here ∙ at.file;
        in_use = ap FileDesc.flags here ∙ at.in_use;
        inode_is = ap FileDesc.inode_num here ∙ at.inode_is;
        position_is = ap FileDesc.file_position here ∙ omega (arith, at.position_is, f.fits);
      }

-- At the end of the file a read answers 0 and leaves memory as it is.
read_at_end :
    (s : Setting) (fd inode position : ℕ) (k : Kernel)
    → IsFileAt fd inode position k
    → s.buf ≢ 0
    → inode ≤ k.inodes_count
    → inode_length k inode ≤ position
    → (k' : Kernel) × ((kernel_calls s).read fd 1024 (some k) ≡ (0, [], some k')) × (k'.mem ≡ k.mem)
unfolding kernel_calls system_call syscall_handler do_syscall_in_c after_call advance bytes_at
read_at_end s fd inode position k at some_buf numbered past =
    let counted = count_large inode (resumed k) in
    let addr = get_pcb_blk (active k).pid in
    let d = (counted.pcb addr).file_desc_array fd in
    let k1 =
      set_descriptor addr fd (record d { file_position = add32 d.file_position 0 }) counted in
    let answered : read_call s.waiting fd s.buf 1024 (resumed k) ≡ Reply.answer 0 k1 =
      read_call-file s.waiting fd inode position s.buf 1024 (resumed k)
        (IsFileAt-resumed fd inode position k at) some_buf (omega arith) (omega arith)
      ∙ ap (λ o. advance addr fd (reply_option o))
          (read_data_at_end inode position s.buf 1024 (resumed k) numbered some_buf past) in
    (
      resumed k1,
      ap (λ (r : Reply). let (v, k') = outcome (after_call r) in (v, buffered s v k', k')) answered,
      count_large-mem inode (resumed k),
    )

-- One round of `cat` that goes on, and the one that ends it.
copy_loop-goes_on :
    {S : Type 0} (calls : Calls S) (fuel fd cnt written : ℕ) (buf : List ℕ) (k k1 k2 : S)
    → calls.read fd 1024 k ≡ (cnt, buf, k1)
    → calls.write 1 buf k1 ≡ (written, k2)
    → cnt ≢ 0
    → cnt ≢ error
    → written ≢ error
    → copy_loop calls (suc fuel) fd k ≡ copy_loop calls fuel fd k2
unfolding copy_loop
copy_loop-goes_on calls fuel fd cnt written buf k k1 k2 read wrote more whole fine =
    let more' : (cnt == 0) ≡ false = ground (arith, more) in
    let whole' : (cnt == error) ≡ false = ground (arith, whole) in
    let fine' : (written == error) ≡ false = ground (arith, fine) in
    rw (read, wrote, more', whole', fine') refl

copy_loop-stops :
    {S : Type 0} (calls : Calls S) (fuel fd : ℕ) (buf : List ℕ) (k k1 : S)
    → calls.read fd 1024 k ≡ (0, buf, k1)
    → copy_loop calls (suc fuel) fd k ≡ some (0, k1)
unfolding copy_loop
copy_loop-stops calls fuel fd buf k k1 read = rw read refl

-- `cat` on this kernel, from an open file at its start, where the file has 1 to 1024 bytes, is not the very
-- large text and has its first block in range, the buffer's bytes lie at different addresses, and
-- descriptor 1 is the screen's: the first read gives exactly the bytes of the file, they go to the screen in
-- one write that does not fail, the next read finds the end and changes no memory, and the loop
-- ends with status 0.
pub copy_loop-file :
    (s : Setting) (fd inode fuel : ℕ) (k : Kernel)
    → IsFileAt fd inode 0 k
    → FitsRead s inode k
    → s.text ≢ 0
    → usage k 1 ≡ (OpTable.stdout, 0)
    → let bytes = file_bytes (inode_length k inode) 0 k inode in
      (k1 : Kernel) × ((k2 : Kernel) × ((k3 : Kernel) × ((kernel_calls s).read fd 1024 (some k)
            ≡ (length bytes, bytes, some k1))
          × ((kernel_calls s).write 1 bytes (some k1) ≡ (0, some k2))
          × (copy_loop (kernel_calls s) (suc (suc fuel)) fd (some k) ≡ some (0, some k3))
          × (k3.mem ≡ k2.mem)))
copy_loop-file s fd inode fuel k at f some_text out =
    let n = inode_length k inode in
    let bytes = file_bytes n 0 k inode in
    let k1 = resumed (moved s fd inode k at f) in
    let read = first_read s fd inode k at f in
    let (k2, wrote, same) = shown s fd inode k at f some_text out in
    let same_length : inode_length k2 inode ≡ n =
      ap (λ (fs : ℕ → ℕ). word_at fs (inode_offset inode)) same.same_fs in
    let (k3, ended, kept) =
      read_at_end s fd inode n k2 (at_end s fd inode k at f k2 same) f.buffer
        (rw same.same_inodes f.numbered) (omega (arith, same_length)) in
    let counted : (kernel_calls s).read fd 1024 (some k) ≡ (length bytes, bytes, some k1) =
      read ∙ ap (λ m. (m, bytes, some k1)) (sym (length-file_bytes n 0 k inode)) in
    let first =
      copy_loop-goes_on (kernel_calls s) (suc fuel) fd n 0 bytes (some k) (some k1) (some k2) read
        wrote (λ e. omega (arith, e, f.some_bytes)) (λ e. omega (arith, e, f.fits)) (omega arith) in
    let second = copy_loop-stops (kernel_calls s) fuel fd [] (some k2) (some k3) ended in
    (k1, (k2, (k3, counted, wrote, first ∙ second, kept)))
