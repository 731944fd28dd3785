-- ===== src/Memory/Blocks.antt =====
-- `memset`, `memset_word`, `memset_dword`, `memcpy` and `memmove` of student-distrib/lib.c, instruction by
-- instruction, on a map from addresses to bytes. The registers wrap at 2 ^ 32.
pub mod Filled
pub mod Copied
pub mod Moved
use mini_os_with_friends.Base.{
  ℕ, zero, suc, ◌+◌, ◌-◌, ◌*◌, ◌/◌, ◌%◌, bit_or, Bool, true, false, ◌==◌, leb, if◌then◌else◌, add32,
  word,
}
use mini_os_with_friends.Base.Maps.{update}

-- `movw`: a word of 16 bits to memory, the low byte first.
abbrev pub store_word : (edi ax : ℕ) → (ℕ → ℕ) → ℕ → ℕ
store_word edi ax mem = update (update mem edi (ax % 256)) (add32 edi 1) (ax / 256 % 256)

-- `movl`: the two halves of a register to memory.
abbrev pub store_long : (edi eax : ℕ) → (ℕ → ℕ) → ℕ → ℕ
store_long edi eax mem = store_word (add32 edi 2) (eax / 65536) (store_word edi eax mem)

-- `rep stosw` and `rep stosl`, with `ecx` rounds and the direction flag clear.
unfoldable pub rep_stosw : (ecx edi ax : ℕ) → (ℕ → ℕ) → ℕ → ℕ
rep_stosw zero edi ax mem = mem
rep_stosw (suc ecx) edi ax mem = rep_stosw ecx (add32 edi 2) ax (store_word edi ax mem)

unfoldable pub rep_stosl : (ecx edi eax : ℕ) → (ℕ → ℕ) → ℕ → ℕ
rep_stosl zero edi eax mem = mem
rep_stosl (suc ecx) edi eax mem = rep_stosl ecx (add32 edi 4) eax (store_long edi eax mem)

-- `.memset_bottom`: the bytes that are left.
unfoldable pub memset_bottom : (edx edi al : ℕ) → (ℕ → ℕ) → ℕ → ℕ
memset_bottom zero edi al mem = mem
memset_bottom (suc edx) edi al mem = memset_bottom edx (add32 edi 1) al (update mem edi al)

-- `.memset_aligned`: four bytes at a time.
unfoldable pub memset_aligned : (ecx edi eax : ℕ) → (ℕ → ℕ) → ℕ → ℕ
memset_aligned ecx edi eax mem =
    memset_bottom (ecx % 4) (add32 edi (4 * (ecx / 4))) (eax % 256)
      (rep_stosl (ecx / 4) edi eax mem)

-- `.memset_top`: single bytes up to an address that 4 divides.
unfoldable pub memset_top : (ecx edi eax : ℕ) → (ℕ → ℕ) → ℕ → ℕ
memset_top zero edi eax mem = mem
memset_top (suc ecx) edi eax mem =
    let rest = memset_top ecx (add32 edi 1) eax (update mem edi (eax % 256)) in
    if edi % 4 == 0 then memset_aligned (suc ecx) edi eax mem else rest

-- `c << 24 | c << 16 | c << 8 | c`
abbrev pub four_times : ℕ → ℕ
four_times c = bit_or (bit_or (bit_or (c * 16777216) (c * 65536)) (c * 256)) c

unfoldable pub memset : (s c n : ℕ) → (ℕ → ℕ) → ℕ → ℕ
memset s c n mem = memset_top n s (four_times (c % 256)) mem

unfoldable pub memset_word : (s c n : ℕ) → (ℕ → ℕ) → ℕ → ℕ
memset_word s c n mem = rep_stosw n s (c % 65536) mem

unfoldable pub memset_dword : (s c n : ℕ) → (ℕ → ℕ) → ℕ → ℕ
memset_dword s c n mem = rep_stosl n s c mem

-- One `movsl`: four bytes are read, and then written.
abbrev pub move_long : (edi esi : ℕ) → (ℕ → ℕ) → ℕ → ℕ
move_long edi esi mem =
    update
      (update (update (update mem edi (mem esi)) (add32 edi 1) (mem (add32 esi 1))) (add32 edi 2)
        (mem (add32 esi 2)))
      (add32 edi 3) (mem (add32 esi 3))

unfoldable pub rep_movsl : (ecx edi esi : ℕ) → (ℕ → ℕ) → ℕ → ℕ
rep_movsl zero edi esi mem = mem
rep_movsl (suc ecx) edi esi mem = rep_movsl ecx (add32 edi 4) (add32 esi 4) (move_long edi esi mem)

-- `.memcpy_bottom`, `.memcpy_aligned` and `.memcpy_top`, as in `memset`.
unfoldable pub memcpy_bottom : (edx edi esi : ℕ) → (ℕ → ℕ) → ℕ → ℕ
memcpy_bottom zero edi esi mem = mem
memcpy_bottom (suc edx) edi esi mem =
    memcpy_bottom edx (add32 edi 1) (add32 esi 1) (update mem edi (mem esi))

unfoldable pub memcpy_aligned : (ecx edi esi : ℕ) → (ℕ → ℕ) → ℕ → ℕ
memcpy_aligned ecx edi esi mem =
    memcpy_bottom (ecx % 4) (add32 edi (4 * (ecx / 4))) (add32 esi (4 * (ecx / 4)))
      (rep_movsl (ecx / 4) edi esi mem)

unfoldable pub memcpy_top : (ecx edi esi : ℕ) → (ℕ → ℕ) → ℕ → ℕ
memcpy_top zero edi esi mem = mem
memcpy_top (suc ecx) edi esi mem =
    let rest = memcpy_top ecx (add32 edi 1) (add32 esi 1) (update mem edi (mem esi)) in
    if edi % 4 == 0 then memcpy_aligned (suc ecx) edi esi mem else rest

unfoldable pub memcpy : (dest src n : ℕ) → (ℕ → ℕ) → ℕ → ℕ
memcpy dest src n mem = memcpy_top n dest src mem

-- `rep movsb` with the direction flag: up if it is clear, down if it is set.
unfoldable pub rep_movsb : (down : Bool) → (ecx edi esi : ℕ) → (ℕ → ℕ) → ℕ → ℕ
rep_movsb down zero edi esi mem = mem
rep_movsb down (suc ecx) edi esi mem =
    let step = if down then word - 1 else 1 in
    rep_movsb down ecx (add32 edi step) (add32 esi step) (update mem edi (mem esi))

-- The bytes, and the direction flag that the code leaves.
unfoldable pub memmove : (dest src n : ℕ) → (ℕ → ℕ) → (ℕ → ℕ) × Bool
memmove dest src n mem =
    if leb dest src
    then (rep_movsb false n dest src mem, false)
    else (rep_movsb true n (add32 dest (n + word - 1)) (add32 src (n + word - 1)) mem, true)
