-- ===== src/FileSystem/Lookup.antt =====
-- What the two lookups of directory entries return.
use native.Mathlib.Decide.{dec_lt, ℕ_discrete}
use mini_os_with_friends.Base.{
  ℕ, ◌+◌, ◌*◌, ◌≤◌, ◌<◌, ◌≡◌, refl, ◌≢◌, ap, ◌⊎◌, inl, inr, none, some, List, arith, ◌==◌, length,
  if◌then◌else◌, error,
}
use mini_os_with_friends.Base.Maps.{update}
use mini_os_with_friends.Base.Loops.{for_range_inv}
use mini_os_with_friends.State.{Kernel}
use mini_os_with_friends.Memory.{word_at}
use mini_os_with_friends.CString.{char_at, strncmp}
use mini_os_with_friends.CString.Compare.{
  IsText, Names, strlen-length, strncmp_from-Names, Names-strncmp_from,
}
use mini_os_with_friends.FileSystem.{
  Dentry, copy_bytes, copy_dentry, dentry_offset, inode_offset, find_dentry, read_dentry_by_name,
  read_dentry_by_index, num_data_blk,
}

-- Directory entry `d` of the image carries the name.
abbrev pub Carries : Kernel → ℕ → List ℕ → Type 0
Carries k d name = Names 32 name (λ i. k.fs (dentry_offset d + i)) 0

abbrev same_name : Kernel → List ℕ → ℕ → ℕ
same_name k name d = strncmp (λ i. char_at name i) (λ i. k.fs (dentry_offset d + i)) 32

same_name-Carries :
    (k : Kernel) (name : List ℕ) (d : ℕ)
    → IsText name
    → ((a : ℕ) → k.fs a < 256)
    → same_name k name d ≡ 0
    → Carries k d name
unfolding strncmp
same_name-Carries k name d t bytes e =
    strncmp_from-Names 32 name (char_at name) _ 0 t (λ j. bytes _)
      (λ j. let e : 0 + j ≡ j = omega arith in ap (char_at name) e) e

Carries-same_name :
    (k : Kernel) (name : List ℕ) (d : ℕ) → IsText name → Carries k d name → same_name k name d ≡ 0
unfolding strncmp
Carries-same_name k name d t m =
    Names-strncmp_from 32 name (char_at name) (λ i. k.fs (dentry_offset d + i)) 0 t
      (λ j. let e : 0 + j ≡ j = omega arith in ap (char_at name) e) m

-- The search keeps the last entry below `n` that matches, or -1.
abbrev Found : Kernel → List ℕ → ℕ → ℕ → Type 0
Found k name n target =
    ((target ≡ error) × ((d : ℕ) → d < n → same_name k name d ≢ 0))
    ⊎ ((target < n)
        × (same_name k name target ≡ 0)
        × ((d : ℕ) → target < d → d < n → same_name k name d ≢ 0))

Found-step :
    (k : Kernel) (name : List ℕ) (n target : ℕ)
    → Found k name n target
    → Found k name (n + 1) (if same_name k name n == 0 then n else target)
Found-step k name n target p = elim (ℕ_discrete (same_name k name n) 0) [
  | yes e ↦
      let here : (if same_name k name n == 0 then n else target) ≡ n = ground arith in
      rw here (inr (omega arith, e, λ d lo hi. absurd (omega arith)))
  | no ne ↦
      let kept : (if same_name k name n == 0 then n else target) ≡ target = ground arith in
      rw kept (elim p [
        | inl (e, none_yet) ↦ inl (e, not_yet n none_yet ne)
        | inr (h, m, last) ↦ inr (omega arith, m, λ d lo. not_yet_from n d (last d lo) ne)
      ])
]
  where
    not_yet_from :
        (n d : ℕ)
        → (d < n → same_name k name d ≢ 0)
        → same_name k name n ≢ 0
        → d < n + 1
        → same_name k name d ≢ 0
    not_yet_from n d p ne h = elim (dec_lt d n) [
      | yes lt ↦ p lt
      | no ge ↦ let e : d ≡ n = omega arith in rw e ne
    ]

    not_yet :
        (n : ℕ)
        → ((d : ℕ) → d < n → same_name k name d ≢ 0)
        → same_name k name n ≢ 0
        → (d : ℕ) → d < n + 1
        → same_name k name d ≢ 0
    not_yet n p ne d = not_yet_from n d (p d) ne

find_dentry-Found : (k : Kernel) (name : List ℕ) (n : ℕ) → Found k name n (find_dentry k name n)
unfolding find_dentry
find_dentry-Found k name n =
    for_range_inv (Found k name) (λ d target. if same_name k name d == 0 then d else target) n 0 n
      (omega arith) (λ d target h p. Found-step k name d target p) error
      (inl (refl, λ d h. absurd (omega arith)))

copy_bytes_lem : (n : ℕ) (src dst : ℕ → ℕ) (j : ℕ) → j < n → copy_bytes n src dst j ≡ src j
unfolding copy_bytes
copy_bytes_lem n src dst j h =
    for_range_inv (λ i (m : ℕ → ℕ). j < i → m j ≡ src j) (λ i (m : ℕ → ℕ). update m i (src i)) n 0 n
      (omega arith) (λ i m hi p hj. ground (arith, p)) dst (λ hj. absurd (omega arith)) h

word_at_shift : (f : ℕ → ℕ) (base o : ℕ) → word_at (λ i. f (base + i)) o ≡ word_at f (base + o)
word_at_shift f base o =
    let e1 : base + (o + 1) ≡ base + o + 1 = omega arith in
    let e2 : base + (o + 2) ≡ base + o + 2 = omega arith in
    let e3 : base + (o + 3) ≡ base + o + 3 = omega arith in rw (e1, e2, e3)

-- A name of 1 to 32 non-zero bytes that entry `d` carries, and no entry after `d`: the lookup by name
-- fills the dentry from entry `d`.
pub read_dentry_by_name_last :
    (k : Kernel) (name : List ℕ) (d : ℕ) (dentry : Dentry)
    → IsText name
    → ((a : ℕ) → k.fs a < 256)
    → 0 < length name
    → length name ≤ 32
    → d < 64
    → Carries k d name
    → ((e : ℕ) → d < e → e < 64 → ¬ Carries k e name)
    → read_dentry_by_name k name dentry ≡ some (copy_dentry k d dentry)
unfolding read_dentry_by_name
read_dentry_by_name_last k name d dentry t bytes pos small hd m last =
    rw target (ground (arith, strlen-length name t))
  where
    target : find_dentry k name 64 ≡ d
    target = elim (find_dentry-Found k name 64) [
      | inl (e, nowhere) ↦ absurd (nowhere d hd (Carries-same_name k name d t m))
      | inr (h, found, later) ↦ elim (dec_lt (find_dentry k name 64) d) [
        | yes before ↦ absurd (later d before hd (Carries-same_name k name d t m))
        | no after ↦ elim (dec_lt d (find_dentry k name 64)) [
          | yes beyond ↦ absurd (last _ beyond h (same_name-Carries k name _ t bytes found))
          | no same ↦ omega arith
        ]
      ]
    ]

-- A name that none of the 64 entries carries is answered with -1, and so are the empty name and a
-- name of more than 32 bytes.
pub read_dentry_by_name_missing :
    (k : Kernel) (name : List ℕ) (dentry : Dentry)
    → IsText name
    → ((a : ℕ) → k.fs a < 256)
    → (length name ≡ 0) ⊎ (32 < length name) ⊎ ((d : ℕ) → d < 64 → ¬ Carries k d name)
    → read_dentry_by_name k name dentry ≡ none
unfolding read_dentry_by_name
read_dentry_by_name_missing k name dentry t bytes (inl e) = ground (arith, strlen-length name t)
read_dentry_by_name_missing k name dentry t bytes (inr (inl e)) =
    ground (arith, strlen-length name t)
read_dentry_by_name_missing k name dentry t bytes (inr (inr nowhere)) = rw target (ground arith)
  where
    target : find_dentry k name 64 ≡ error
    target = elim (find_dentry-Found k name 64) [
      | inl (e, _) ↦ e
      | inr (h, found, _) ↦ absurd (nowhere _ h (same_name-Carries k name _ t bytes found))
    ]

-- An index up to 63 is answered with that entry of the image: each byte of the name, the type and the
-- inode. A larger index is answered with -1.
pub read_dentry_by_index_lem :
    (k : Kernel) (index j : ℕ) (dentry : Dentry)
    → j < 32
    → ((63 < index) × (read_dentry_by_index k index dentry ≡ none))
      ⊎ ((index ≤ 63)
          × ((d : Dentry) × (read_dentry_by_index k index dentry ≡ some d)
              × (d.filename j ≡ k.fs (64 + 64 * index + j))
              × (d.filetype ≡ word_at k.fs (64 + 64 * index + 32))
              × (d.inode_num ≡ word_at k.fs (64 + 64 * index + 36))))
unfolding read_dentry_by_index copy_dentry
read_dentry_by_index_lem k index j dentry h = elim (dec_lt 63 index) [
  | yes big ↦ inl (big, ground arith)
  | no small ↦ inr (
    omega arith,
    (
      copy_dentry k index dentry,
      ground arith,
      copy_bytes_lem 32 (λ i. k.fs (dentry_offset index + i)) dentry.filename j h,
      word_at_shift k.fs (dentry_offset index) 32,
      word_at_shift k.fs (dentry_offset index) 36,
    ),
  )
]

-- The boot block holds 63 entries, and index 63 is accepted: the dentry is then made of the bytes of
-- inode 0, and the inode number is the ninth block number of inode 0.
pub read_dentry_by_index_overrun :
    (k : Kernel) (j : ℕ) (dentry : Dentry)
    → j < 32
    → (d : Dentry) × (read_dentry_by_index k 63 dentry ≡ some d)
      × (d.filename j ≡ k.fs (inode_offset 0 + j))
      × (d.inode_num ≡ num_data_blk k 0 8)
unfolding read_dentry_by_index copy_dentry
read_dentry_by_index_overrun k j dentry h = (
  copy_dentry k 63 dentry,
  refl,
  copy_bytes_lem 32 (λ i. k.fs (dentry_offset 63 + i)) dentry.filename j h,
  refl,
)
