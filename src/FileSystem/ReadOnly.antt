-- ===== src/FileSystem/ReadOnly.antt =====
-- What a read of a file leaves alone.
use mini_os_with_friends.Base.{ℕ, ◌≡◌, some, arith}
use mini_os_with_friends.State.{Kernel}
use mini_os_with_friends.FileSystem.{read_data, read_counted, count_large}

-- A read of a file changes memory and the two counters of the very large text, and nothing else.
abbrev pub ReadOnly : Kernel → Kernel → Type 0
ReadOnly k k' = k' ≡ record k {
  mem = k'.mem;
  large_text_blk_count = k'.large_text_blk_count;
  shared_btw_terminal_fs_drivers = k'.shared_btw_terminal_fs_drivers;
}

count_large-ReadOnly : (inode : ℕ) (k : Kernel) → ReadOnly k (count_large inode k)
unfolding count_large
count_large-ReadOnly inode k = ground arith

read_counted-ReadOnly :
    (inode offset buf length v : ℕ) (k k' : Kernel)
    → read_counted inode offset buf length k ≡ some (v, k')
    → ReadOnly k k'
unfolding read_counted
read_counted-ReadOnly inode offset buf length v k k' e = ground arith

pub read_data-ReadOnly :
    (inode offset buf length v : ℕ) (k k' : Kernel)
    → read_data inode offset buf length k ≡ some (v, k')
    → ReadOnly k k'
unfolding read_data
read_data-ReadOnly inode offset buf length v k k' e = ground (
  arith,
  count_large-ReadOnly inode k,
  read_counted-ReadOnly inode offset buf length v (count_large inode k) k',
)
