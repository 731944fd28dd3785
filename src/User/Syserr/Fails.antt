-- ===== src/User/Syserr/Fails.antt =====
-- The states of the kernel in which the user's tests of system calls run, and what the calls do there.
use mini_os_with_friends.Base.{ℕ, ◌≤◌, ◌<◌, ◌≡◌, ◌⊎◌, ◌∙◌, ap, some, none, List}
use mini_os_with_friends.Base.Texts.{codes}
use mini_os_with_friends.State.{OpTable, Kernel}
use mini_os_with_friends.FileSystem.{Dentry, read_dentry_by_name, find_dentry, copy_dentry}
use mini_os_with_friends.Syscall.{descriptor}
use mini_os_with_friends.Syscall.Untouched.{usage, SameFiles, usage-SameFiles}

-- The directory entries by which the tests go: `.` is there, and the two other names are not.
pub record Names (stale : Dentry) (k : Kernel) : Type 0 where
  pub dot : Dentry
  pub dot_found : read_dentry_by_name k (codes ".") stale ≡ some dot
  pub dot_type : dot.filetype ≡ 1
  pub no_helloo : read_dentry_by_name k (codes "helloo") stale ≡ none
  pub no_shel : read_dentry_by_name k (codes "shel") stale ≡ none

-- Descriptors 0 and 1 are the terminal's, those from `lo` to below `hi` are directories, and
-- the other ones from 2 to 7 are free.
pub record Taken (stale : Dentry) (lo hi : ℕ) (k : Kernel) : Type 0 where
  pub in_open : usage k 0 ≡ (OpTable.stdin, 0)
  pub out_open : usage k 1 ≡ (OpTable.stdout, 0)
  pub taken : (j : ℕ) → lo ≤ j → j < hi → usage k j ≡ (OpTable.directories, 0)
  pub free : (j : ℕ) → 2 ≤ j → j < 8 → (j < lo) ⊎ (hi ≤ j) → (descriptor k j).flags ≡ 1
  pub names : Names stale k

-- A program that has opened nothing.
abbrev pub Fresh : Dentry → Kernel → Type 0
Fresh stale k = Taken stale 2 2 k

-- A lookup goes by the bytes of the image alone.
pub read_dentry_by_name-fs :
    (k k' : Kernel) (name : List ℕ) (stale : Dentry)
    → k'.fs ≡ k.fs
    → read_dentry_by_name k' name stale ≡ read_dentry_by_name k name stale
unfolding read_dentry_by_name find_dentry copy_dentry
read_dentry_by_name-fs k k' name stale e =
    ap (λ (fs : ℕ → ℕ). read_dentry_by_name (record k { fs = fs }) name stale) e

pub Names-fs : (stale : Dentry) (k k' : Kernel) → k'.fs ≡ k.fs → Names stale k → Names stale k'
Names-fs stale k k' e n = record {
  dot = n.dot;
  dot_found = read_dentry_by_name-fs k k' (codes ".") stale e ∙ n.dot_found;
  dot_type = n.dot_type;
  no_helloo = read_dentry_by_name-fs k k' (codes "helloo") stale e ∙ n.no_helloo;
  no_shel = read_dentry_by_name-fs k k' (codes "shel") stale e ∙ n.no_shel;
}

-- `Taken` goes by the usage of the descriptors and the image.
pub Taken-usage :
    (stale : Dentry) (lo hi : ℕ) (k k' : Kernel)
    → k'.fs ≡ k.fs
    → ((j : ℕ) → usage k' j ≡ usage k j)
    → Taken stale lo hi k
    → Taken stale lo hi k'
Taken-usage stale lo hi k k' fs same t = record {
  in_open = same 0 ∙ t.in_open;
  out_open = same 1 ∙ t.out_open;
  taken = λ j l h. same j ∙ t.taken j l h;
  free = λ j l h out. ap (λ u. u.1) (same j) ∙ t.free j l h out;
  names = Names-fs stale k k' fs t.names;
}

pub Taken-SameFiles :
    (stale : Dentry) (lo hi : ℕ) (k k' : Kernel)
    → SameFiles k k'
    → Taken stale lo hi k
    → Taken stale lo hi k'
Taken-SameFiles stale lo hi k k' s =
    Taken-usage stale lo hi k k' s.same_fs (λ j. usage-SameFiles k k' j s)
