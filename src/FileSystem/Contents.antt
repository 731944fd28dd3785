-- ===== src/FileSystem/Contents.antt =====
-- `read_data` ends, copies the bytes of the file, and returns a count that ignores the offset.
use mini_os_with_friends.Base.{
  ℕ, zero, suc, ◌+◌, ◌/◌, ◌%◌, ◌≤◌, ◌<◌, ◌≡◌, refl, ◌∙◌, ap, ◌≢◌, true, false, none, some, inl, inr,
  Option-cases, arith, leb, if◌then◌else◌, add32, sub32, word, min, lt→ltb,
}
use mini_os_with_friends.Base.Maps.{update, update_ne}
use mini_os_with_friends.Base.Loops.{for_range, for_range_inv}
use mini_os_with_friends.State.{Kernel}
use mini_os_with_friends.Paging.{translate}
use mini_os_with_friends.FileSystem.{
  read_loop, read_counted, read_data, read_result, count_large, large_inode, num_data_blk,
  block_offset, inode_length,
}

-- Byte `o` of the file: in its data block `o / 4096`.
abbrev pub file_byte : Kernel → ℕ → ℕ → ℕ
file_byte k inode o = k.fs (block_offset k (num_data_blk k inode (o / 4096)) + o % 4096)

-- The `n` bytes from `offset + b` on, copied to `buf + b` on.
abbrev pub copied : Kernel → ℕ → ℕ → ℕ → ℕ → ℕ → (ℕ → ℕ) → ℕ → ℕ
copied k inode buf offset n b mem =
    for_range n b
      (λ i (m : ℕ → ℕ).
        update m (translate k.paging (add32 buf i)) (file_byte k inode (offset + i)))
      mem

module _ (k : Kernel) (inode buf offset length : ℕ) (small : length < word) (pos : 0 < length)
    (valid : (i : ℕ)
      → i < length
      → num_data_blk k inode ((offset + i) / 4096) < k.data_count_blk) where
  read_loop_step :
      (fuel b blk cur : ℕ) (mem : ℕ → ℕ)
      → b < length
      → blk ≡ (offset + b) / 4096
      → cur ≡ (offset + b) % 4096
      → read_loop k inode buf length (suc fuel) b blk cur mem
        ≡ read_loop k inode buf length fuel
            (b + 1)
            ((offset + (b + 1)) / 4096)
            ((offset + (b + 1)) % 4096)
            (update mem (translate k.paging (add32 buf b)) (file_byte k inode (offset + b)))
  unfolding read_loop
  read_loop_step fuel b blk cur mem h eb ec =
      rw (eb, ec, test, lt→ltb _ _ (valid b h), index, next_block, next_byte)
    where
      test : leb b (sub32 length 1) ≡ true
      test = ground arith

      index : add32 b 1 ≡ b + 1
      index = omega arith

      next_block :
          (if leb 4096 ((offset + b) % 4096 + 1)
            then (offset + b) / 4096 + 1
            else (offset + b) / 4096)
          ≡ (offset + (b + 1)) / 4096
      next_block = ground arith

      next_byte :
          (if leb 4096 ((offset + b) % 4096 + 1) then 0 else (offset + b) % 4096 + 1)
          ≡ (offset + (b + 1)) % 4096
      next_byte = ground arith

  read_loop_copies :
      (n b blk cur : ℕ) (mem : ℕ → ℕ)
      → n + b ≡ length
      → blk ≡ (offset + b) / 4096
      → cur ≡ (offset + b) % 4096
      → read_loop k inode buf length (suc n) b blk cur mem
        ≡ some (true, copied k inode buf offset n b mem)
  read_loop_copies zero b blk cur mem e eb ec = unfold read_loop for_range in rw stop
    where
      stop : leb b (sub32 length 1) ≡ false
      stop = ground arith
  read_loop_copies (suc n) b blk cur mem e eb ec =
      read_loop_step (suc n) b blk cur mem (omega arith) eb ec
      ∙ (read_loop_copies n (b + 1) _ _ _ (omega arith) refl refl ∙ unfold for_range in refl)

-- After the copy each byte of the buffer, whose addresses are all different, is that of the file.
pub copied_bytes :
    (k : Kernel) (inode buf offset n : ℕ) (mem : ℕ → ℕ) (i : ℕ)
    → ((i j : ℕ)
        → i < n
        → j < n
        → translate k.paging (add32 buf i) ≡ translate k.paging (add32 buf j)
        → i ≡ j)
    → i < n
    → copied k inode buf offset n 0 mem (translate k.paging (add32 buf i))
      ≡ file_byte k inode (offset + i)
copied_bytes k inode buf offset n mem i apart h =
    for_range_inv
      (λ b (m : ℕ → ℕ).
        i < b → m (translate k.paging (add32 buf i)) ≡ file_byte k inode (offset + i))
      (λ i (m : ℕ → ℕ).
        update m (translate k.paging (add32 buf i)) (file_byte k inode (offset + i)))
      n 0 n (omega arith) (λ b m hb p hi. ground (arith, p, apart b i hb h)) mem
      (λ hi. absurd (omega arith)) h

pub ordinary :
    (inode : ℕ) (k : Kernel)
    → large_inode k ≢ inode
    → count_large inode k ≡ record k { large_text_blk_count = 0 }
unfolding count_large
ordinary inode k h = ground arith

-- Every other byte of memory is left alone.
pub copied_elsewhere :
    (k : Kernel) (inode buf offset n : ℕ) (mem : ℕ → ℕ) (a : ℕ)
    → ((i : ℕ) → i < n → translate k.paging (add32 buf i) ≢ a)
    → copied k inode buf offset n 0 mem a ≡ mem a
copied_elsewhere k inode buf offset n mem a apart =
    for_range_inv (λ b (m : ℕ → ℕ). m a ≡ mem a)
      (λ i (m : ℕ → ℕ).
        update m (translate k.paging (add32 buf i)) (file_byte k inode (offset + i)))
      n 0 n (omega arith) (λ b m hb p. update_ne m _ a _ (apart b hb) ∙ p) mem refl

-- The state after a read that copies all of its `length` bytes.
abbrev pub read_state : ℕ → ℕ → ℕ → ℕ → Kernel → Kernel
read_state inode offset buf length k = record k {
  large_text_blk_count = 0;
  mem = copied k inode buf offset length 0 k.mem;
}

pub read_data-read_state :
    (inode offset buf length : ℕ) (k : Kernel)
    → 0 < length
    → length < word
    → inode ≤ k.inodes_count
    → buf ≢ 0
    → offset < inode_length k inode
    → large_inode k ≢ inode
    → ((i : ℕ) → i < length → num_data_blk k inode ((offset + i) / 4096) < k.data_count_blk)
    → read_data inode offset buf length k
      ≡ some (min length (inode_length k inode), read_state inode offset buf length k)
unfolding read_data
read_data-read_state inode offset buf length k pos small hi hb ho large valid =
    begin ∙ ap (read_counted inode offset buf length) (ordinary inode k large) ∙ counted_read
  where
    counted : Kernel
    counted = record k { large_text_blk_count = 0 }

    begin :
        read_data inode offset buf length k
        ≡ read_counted inode offset buf length (count_large inode k)
    begin = ground arith

    looped :
        read_loop counted inode buf length
          (sub32 length 1 + 2)
          0
          (offset / 4096)
          (offset % 4096)
          k.mem
        ≡ some (true, copied k inode buf offset length 0 k.mem)
    looped =
        let e : sub32 length 1 + 2 ≡ suc length = omega arith in
        rw e (
          read_loop_copies counted inode buf offset length small pos valid length 0 _ _ _
            (omega arith) (ground arith) (ground arith))

    test : leb (inode_length k inode) offset ≡ false
    test = ground arith

    result : read_result counted (inode_length k inode) length ≡ min length (inode_length k inode)
    result = unfold read_result in ground arith

    counted_read :
        read_counted inode offset buf length counted
        ≡ some (
          min length (inode_length k inode),
          record counted { mem = copied k inode buf offset length 0 k.mem },
        )
    counted_read = unfold read_counted in rw (test, looped, result)

-- A read of `length` bytes, from an offset inside a file that is not the very large text, all of whose
-- blocks up to there are in range, into a buffer at different addresses: the read ends, each byte of
-- the buffer is the file's byte at the offset plus its index, and the count that is returned is the
-- smaller of `length` and the file's whole length, whatever the offset.
pub read_data_lem :
    (inode offset buf length i : ℕ) (k : Kernel)
    → 0 < length
    → length < word
    → inode ≤ k.inodes_count
    → buf ≢ 0
    → offset < inode_length k inode
    → large_inode k ≢ inode
    → ((i : ℕ) → i < length → num_data_blk k inode ((offset + i) / 4096) < k.data_count_blk)
    → ((i j : ℕ)
        → i < length
        → j < length
        → translate k.paging (add32 buf i) ≡ translate k.paging (add32 buf j)
        → i ≡ j)
    → i < length
    → (k' : Kernel) × (read_data inode offset buf length k
        ≡ some (min length (inode_length k inode), k'))
      × (k'.mem (translate k.paging (add32 buf i)) ≡ file_byte k inode (offset + i))
read_data_lem inode offset buf length i k pos small hi hb ho large valid apart h = (
  read_state inode offset buf length k,
  read_data-read_state inode offset buf length k pos small hi hb ho large valid,
  copied_bytes k inode buf offset length k.mem i apart h,
)

read_loop_ends :
    (k : Kernel) (inode buf length n b blk cur : ℕ) (mem : ℕ → ℕ)
    → 0 < length
    → length < word
    → n + b ≡ length
    → read_loop k inode buf length (suc n) b blk cur mem ≢ none
unfolding read_loop
read_loop_ends k inode buf length zero b blk cur mem pos small e = ground arith
read_loop_ends k inode buf length (suc n) b blk cur mem pos small e =
    let index : add32 b 1 ≡ b + 1 = omega arith in
    let next_blk : ℕ = if leb 4096 (cur + 1) then blk + 1 else blk in
    let next_cur : ℕ = if leb 4096 (cur + 1) then 0 else cur + 1 in
    let next_mem : ℕ → ℕ =
      update mem (translate k.paging (add32 buf b))
        (k.fs (block_offset k (num_data_blk k inode blk) + cur)) in
    rw index (
      ground (
        arith,
        read_loop_ends k inode buf length n (b + 1) next_blk next_cur next_mem pos small
            (omega arith),
      ))

read_counted_ends :
    (inode offset buf length : ℕ) (k : Kernel)
    → 0 < length
    → length < word
    → read_counted inode offset buf length k ≢ none
unfolding read_counted
read_counted_ends inode offset buf length k pos small =
    let e : sub32 length 1 + 2 ≡ suc length = omega arith in
    rw e (
      ground (
        arith,
        read_loop_ends k inode buf length length 0 (offset / 4096) (offset % 4096) k.mem pos small,
      ))

-- `read_data` returns, whatever the inode, the offset, the buffer and the image are, if at least one
-- byte is asked for.
pub read_data_ends :
    (inode offset buf length : ℕ) (k : Kernel)
    → 0 < length
    → length < word
    → (r : ℕ × Kernel) × (read_data inode offset buf length k ≡ some r)
unfolding read_data
read_data_ends inode offset buf length k pos small =
    elim (Option-cases (read_data inode offset buf length k)) [
      | inl e ↦ absurd (
          ground (arith, read_counted_ends inode offset buf length (count_large inode k) pos small))
      | inr r ↦ r
    ]
