-- ===== src/FileSystem/Broken.antt =====
-- A read that meets a block number out of range.
use mini_os_with_friends.Base.{
  ℕ, zero, suc, ◌+◌, ◌/◌, ◌%◌, ◌≤◌, ◌<◌, ◌≡◌, ◌≢◌, refl, ◌∙◌, ap, true, false, some, inl, inr,
  Bool-cases, arith, leb, ltb, if◌then◌else◌, add32, sub32, word, error,
}
use native.Mathlib.Decide.{ℕ_discrete}
use mini_os_with_friends.Base.Maps.{update}
use mini_os_with_friends.State.{Kernel}
use mini_os_with_friends.Paging.{translate}
use mini_os_with_friends.FileSystem.{
  read_loop, read_counted, read_data, count_large, large_inode, num_data_blk, inode_length,
}
use mini_os_with_friends.FileSystem.Contents.{file_byte, ordinary}

module _ (k : Kernel) (inode buf offset length : ℕ) where
  read_loop_step :
      (fuel b blk cur : ℕ) (mem : ℕ → ℕ)
      → leb b (sub32 length 1) ≡ true
      → ltb (num_data_blk k inode ((offset + b) / 4096)) k.data_count_blk ≡ true
      → b + 1 < word
      → blk ≡ (offset + b) / 4096
      → cur ≡ (offset + b) % 4096
      → read_loop k inode buf length (suc fuel) b blk cur mem
        ≡ read_loop k inode buf length fuel
            (b + 1)
            ((offset + (b + 1)) / 4096)
            ((offset + (b + 1)) % 4096)
            (update mem (translate k.paging (add32 buf b)) (file_byte k inode (offset + b)))
  unfolding read_loop
  read_loop_step fuel b blk cur mem test valid h eb ec =
      rw (eb, ec, test, valid, index, next_block, next_byte)
    where
      index : add32 b 1 ≡ b + 1
      index = omega arith

      next_block :
          (if leb 4096 ((offset + b) % 4096 + 1)
            then (offset + b) / 4096 + 1
            else (offset + b) / 4096)
          ≡ (offset + (b + 1)) / 4096
      next_block = ground arith

      next_byte :
          (if leb 4096 ((offset + b) % 4096 + 1) then 0 else (offset + b) % 4096 + 1)
          ≡ (offset + (b + 1)) % 4096
      next_byte = ground arith

  read_loop_stops :
      (fuel b blk cur : ℕ) (mem : ℕ → ℕ)
      → leb b (sub32 length 1) ≡ true
      → ltb (num_data_blk k inode ((offset + b) / 4096)) k.data_count_blk ≡ false
      → blk ≡ (offset + b) / 4096
      → cur ≡ (offset + b) % 4096
      → read_loop k inode buf length (suc fuel) b blk cur mem ≡ some (false, mem)
  unfolding read_loop
  read_loop_stops fuel b blk cur mem test stop eb ec = rw (eb, ec, test, stop) refl

  -- The loop stops at the first such block.
  read_loop_broken :
      (j : ℕ)
      → length < word
      → j < length
      → k.data_count_blk ≤ num_data_blk k inode ((offset + j) / 4096)
      → (n b blk cur : ℕ) (mem : ℕ → ℕ) → n + b ≡ length
      → b ≤ j
      → blk ≡ (offset + b) / 4096
      → cur ≡ (offset + b) % 4096
      → (mem' : ℕ → ℕ) × (read_loop k inode buf length (suc n) b blk cur mem ≡ some (false, mem'))
  read_loop_broken j small inside broken zero b blk cur mem e before eb ec = absurd (omega arith)
  read_loop_broken j small inside broken (suc n) b blk cur mem e before eb ec =
      let test : leb b (sub32 length 1) ≡ true = ground arith in
      elim (Bool-cases (ltb (num_data_blk k inode ((offset + b) / 4096)) k.data_count_blk)) [
        | inr stop ↦ (mem, read_loop_stops (suc n) b blk cur mem test stop eb ec)
        | inl valid ↦
            let next : b + 1 ≤ j = elim (ℕ_discrete b j) [
              | yes same ↦ absurd (
                  ground (
                    arith,
                    valid,
                    broken,
                    ap (λ (t : ℕ). num_data_blk k inode ((offset + t) / 4096)) same,
                  ))
              | no ne ↦ omega arith
            ] in
            let (mem', stopped) =
              read_loop_broken j small inside broken n (b + 1) _ _ _ (omega arith) next refl refl in
            (mem', read_loop_step (suc n) b blk cur mem test valid (omega arith) eb ec ∙ stopped)
      ]

-- If one of the bytes asked for lies in a block whose number is out of range, and the read begins inside
-- of a file that is not the very large text, the read answers -1.
pub read_data_broken :
    (inode offset buf length j : ℕ) (k : Kernel)
    → length < word
    → inode ≤ k.inodes_count
    → buf ≢ 0
    → offset < inode_length k inode
    → large_inode k ≢ inode
    → j < length
    → k.data_count_blk ≤ num_data_blk k inode ((offset + j) / 4096)
    → (k' : Kernel) × (read_data inode offset buf length k ≡ some (error, k'))
unfolding read_data
read_data_broken inode offset buf length j k small numbered some_buf within large inside broken = (
  record counted { mem = mem },
  begin ∙ (ap (read_counted inode offset buf length) (ordinary inode k large) ∙ counted_read),
)
  where
    counted : Kernel
    counted = record k { large_text_blk_count = 0 }

    begin :
        read_data inode offset buf length k
        ≡ read_counted inode offset buf length (count_large inode k)
    begin = ground arith

    stops :
        (mem : ℕ → ℕ) × (read_loop counted inode buf length
            (suc length)
            0
            (offset / 4096)
            (offset % 4096)
            k.mem
          ≡ some (false, mem))
    stops =
        read_loop_broken counted inode buf offset length j small inside broken length 0 _ _ _
          (omega arith) (omega arith) (ground arith) (ground arith)

    mem : ℕ → ℕ
    mem = stops.0

    looped :
        read_loop counted inode buf length
          (sub32 length 1 + 2)
          0
          (offset / 4096)
          (offset % 4096)
          k.mem
        ≡ some (false, mem)
    looped = let e : sub32 length 1 + 2 ≡ suc length = omega arith in rw e stops.1

    test : leb (inode_length k inode) offset ≡ false
    test = ground arith

    counted_read :
        read_counted inode offset buf length counted ≡ some (error, record counted { mem = mem })
    counted_read = unfold read_counted in rw (test, looped) refl
