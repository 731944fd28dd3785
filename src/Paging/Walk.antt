-- ===== src/Paging/Walk.antt =====
-- The processor's translation of a program's access, through the directory and the tables of
-- student-distrib/paging.c.
use mini_os_with_friends.Base.{
  ℕ, ◌+◌, ◌*◌, ◌/◌, ◌%◌, ◌≤◌, ◌<◌, ◌≡◌, ◌⊎◌, inl, inr, ◌∙◌, Bool, true, false, Option, none, some,
  ◌==◌, ◌&&◌, if◌then◌else◌, arith,
}
use mini_os_with_friends.State.{Paging, Kernel}
use mini_os_with_friends.Paging.{
  four_kb, four_mb, mask_10_bits, mask_20_bits, user_flags, virt_to_phys_user, virt_addr_program,
  translate,
}
use mini_os_with_friends.Paging.Isolation.{user_flags_lem, user_page_flags_lem}

-- The bits of an entry that a program's access asks for: it is present, and it is the user's.
abbrev is_open : ℕ → Bool
is_open e = e % 2 == 1 && e / 4 % 2 == 1

-- The bit of a directory entry that is a 4 MB page.
abbrev is_large : ℕ → Bool
is_large e = e / 128 % 2 == 1

abbrev leaf : ℕ → ℕ → Option ℕ
leaf e a = if is_open e then some (mask_20_bits e + a % four_kb) else none

-- `none`: the access faults.
unfoldable pub walk : Paging → ℕ → Option ℕ
walk p a =
    let e = p.page_directory (a / four_mb) in
    let i = a / four_kb % 1024 in
    if is_open e
    then if is_large e
      then some (mask_10_bits e + a % four_mb)
      else if mask_20_bits e == p.page_table_video_addr
      then leaf (p.page_table_video i) a
      else if mask_20_bits e == p.page_table_addr
      then leaf (p.page_table i) a
      else none
    else none

-- A page that the table of the screen gives to programs, through the directory's entry 33.
pub walk_page :
    (p : Paging) (v a : ℕ)
    → p.page_table_video_addr % 4096 ≡ 0
    → p.page_directory 33 ≡ user_flags (mask_20_bits p.page_table_video_addr)
    → p.page_table_video 0 ≡ user_flags v
    → v % 4096 ≡ 0
    → a / 4096 ≡ 33792
    → walk p a ≡ some (v + a % 4096)
unfolding walk
walk_page p v a aligned entry page whole here =
    let directory : a / four_mb ≡ 33 = omega (arith, here) in
    let index : a / four_kb % 1024 ≡ 0 = omega (arith, here) in
    let e33 : user_flags (mask_20_bits p.page_table_video_addr) ≡ p.page_table_video_addr + 7 =
      user_flags_lem (mask_20_bits p.page_table_video_addr) (omega arith)
      ∙ omega (arith, aligned) in
    rw (directory, index, entry, page, e33, user_flags_lem v whole) (ground (arith, aligned, whole))

-- The program page of a process is open to its program, all of it.
pub walk-virt_to_phys_user :
    (pid a : ℕ) (k : Kernel)
    → pid < 6
    → virt_addr_program ≤ a
    → a < virt_addr_program + four_mb
    → walk (virt_to_phys_user pid k).paging a ≡ some (translate (virt_to_phys_user pid k).paging a)
unfolding walk translate virt_to_phys_user
walk-virt_to_phys_user pid a k hp lo hi =
    ground (arith, user_page_flags_lem (0x800000 + 0x400000 * pid))

program_walk :
    (p : Paging) (a b : ℕ)
    → is_large (p.page_directory 32) ≡ true
    → a / four_mb ≡ 32
    → walk p a ≡ some b
    → mask_10_bits (p.page_directory 32) + a % four_mb ≡ b
unfolding walk
program_walk p a b large here e = let e' = simp here at e in ground (arith, large, e')

screen_walk :
    (p : Paging) (a b : ℕ)
    → is_large (p.page_directory 33) ≡ false
    → mask_20_bits (p.page_directory 33) ≡ p.page_table_video_addr
    → a / four_mb ≡ 33
    → a / four_kb % 1024 ≡ 0
    → walk p a ≡ some b
    → mask_20_bits (p.page_table_video 0) + a % four_kb ≡ b
unfolding walk
screen_walk p a b small table directory index e =
    let e' = simp (directory, index) at e in ground (arith, small, table, e')

program_translate :
    (p : Paging) (a : ℕ)
    → a / four_mb ≡ 32
    → translate p a ≡ mask_10_bits (p.page_directory 32) + a % four_mb
unfolding translate
program_translate p a here = ground (arith, here)

screen_translate :
    (p : Paging) (a : ℕ)
    → a / four_kb ≡ 33792
    → translate p a ≡ mask_20_bits (p.page_table_video 0) + a % four_kb
unfolding translate
screen_translate p a here = ground (arith, here)

-- Where the directory's entry 32 is a 4 MB page and its entry 33 leads to the table of the screen: if a
-- program's access to the 4 MB at 128 MB, or to the 4 KB at 132 MB, does not fault, then it leads to
-- the address that `translate` gives, by which the model reads and writes a program's memory.
pub walk-translate :
    (p : Paging) (a b : ℕ)
    → is_large (p.page_directory 32) ≡ true
    → is_large (p.page_directory 33) ≡ false
    → mask_20_bits (p.page_directory 33) ≡ p.page_table_video_addr
    → (a / four_mb ≡ 32) ⊎ (a / four_kb ≡ 33792)
    → walk p a ≡ some b
    → translate p a ≡ b
walk-translate p a b large small table which e = elim which [
  | inl here ↦ program_translate p a here ∙ program_walk p a b large here e
  | inr here ↦
      screen_translate p a here
      ∙ screen_walk p a b small table (omega (arith, here)) (omega (arith, here)) e
]
