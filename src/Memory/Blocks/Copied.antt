-- ===== src/Memory/Blocks/Copied.antt =====
-- `memcpy` copies byte by byte, whatever the alignment.
use mini_os_with_friends.Base.{
  ℕ, zero, suc, ◌+◌, ◌-◌, ◌*◌, ◌/◌, ◌%◌, ◌≤◌, ◌<◌, ◌≡◌, ◌⊎◌, inl, inr, arith, ◌==◌, if◌then◌else◌,
  word, add32, refl, ap, sym, ◌∙◌, true, false, Bool-cases,
}
use mini_os_with_friends.Base.Maps.{update}
use mini_os_with_friends.Base.Loops.{for_range}
use mini_os_with_friends.Memory
use mini_os_with_friends.Memory.Blocks.{
  move_long, rep_movsl, memcpy_bottom, memcpy_aligned, memcpy_top, memcpy,
}
use mini_os_with_friends.Memory.Blocks.Filled.{within, within-join}

-- An ascending copy is safe where it never reads what it has written.
abbrev pub Ascends : (dest src n : ℕ) → Type 0
Ascends dest src n = (dest ≤ src) ⊎ (src + n ≤ dest)

-- A map from addresses where the block at `dest` holds what that at `src` held before.
abbrev pub copied : (dest src n : ℕ) → (ℕ → ℕ) → ℕ → ℕ
copied dest src n mem a = if within dest n a then mem (src + (a - dest)) else mem a

-- What the first `m` bytes of the copy leave of the bytes that are still to be copied.
copied-later :
    (dest src m n a : ℕ) (mem : ℕ → ℕ)
    → Ascends dest src (m + n)
    → within (dest + m) n a ≡ true
    → copied dest src m mem (src + m + (a - (dest + m))) ≡ mem (src + (a - dest))
copied-later dest src m n a mem safe inside =
    let same : src + m + (a - (dest + m)) ≡ src + (a - dest) = ground arith in
    let apart : within dest m (src + (a - dest)) ≡ false = ground arith in rw same (rw apart refl)

-- A copy of `m` bytes and then of the `n` bytes behind them is a copy of all.
copied-copied :
    (dest src m n a : ℕ) (first mem : ℕ → ℕ)
    → Ascends dest src (m + n)
    → ((b : ℕ) → first b ≡ copied dest src m mem b)
    → copied (dest + m) (src + m) n first a ≡ copied dest src (m + n) mem a
copied-copied dest src m n a first mem safe here =
    within-join dest m n a (first a) (mem (src + (a - dest))) (first (src + m + (a - (dest + m))))
      (mem a)
      (λ inside. here (src + m + (a - (dest + m))) ∙ copied-later dest src m n a mem safe inside)
      (here a)

pub memcpy_bottom-at :
    (n dest src a : ℕ) (mem : ℕ → ℕ)
    → dest + n < word
    → src + n < word
    → Ascends dest src n
    → memcpy_bottom n dest src mem a ≡ (if within dest n a then mem (src + (a - dest)) else mem a)
unfolding memcpy_bottom
memcpy_bottom-at zero dest src a mem hd hs safe = ground arith
memcpy_bottom-at (suc n) dest src a mem hd hs safe =
    let d1 : add32 dest 1 ≡ dest + 1 = omega arith in
    let s1 : add32 src 1 ≡ src + 1 = omega arith in
    let ih =
      memcpy_bottom-at n (dest + 1) (src + 1) a (update mem dest (mem src)) (omega arith)
        (omega arith) (omega arith) in
    rw (d1, s1) (ground (arith, ih))

move_long-at :
    (dest src a : ℕ) (mem : ℕ → ℕ)
    → dest + 4 < word
    → src + 4 < word
    → move_long dest src mem a ≡ (if within dest 4 a then mem (src + (a - dest)) else mem a)
move_long-at dest src a mem hd hs =
    let d1 : add32 dest 1 ≡ dest + 1 = omega arith in
    let d2 : add32 dest 2 ≡ dest + 2 = omega arith in
    let d3 : add32 dest 3 ≡ dest + 3 = omega arith in
    let s1 : add32 src 1 ≡ src + 1 = omega arith in
    let s2 : add32 src 2 ≡ src + 2 = omega arith in
    let s3 : add32 src 3 ≡ src + 3 = omega arith in rw (d1, d2, d3, s1, s2, s3) (ground arith)

rep_movsl-at :
    (n dest src a : ℕ) (mem : ℕ → ℕ)
    → dest + 4 * n < word
    → src + 4 * n < word
    → Ascends dest src (4 * n)
    → rep_movsl n dest src mem a ≡ copied dest src (4 * n) mem a
unfolding rep_movsl
rep_movsl-at zero dest src a mem hd hs safe = ground arith
rep_movsl-at (suc n) dest src a mem hd hs safe =
    let d4 : add32 dest 4 ≡ dest + 4 = omega arith in
    let s4 : add32 src 4 ≡ src + 4 = omega arith in
    let size : 4 * suc n ≡ 4 + 4 * n = omega arith in
    let first = move_long dest src mem in
    let rest : Ascends (dest + 4) (src + 4) (4 * n) = omega arith in
    rw (d4, s4, size)
      (rep_movsl-at n (dest + 4) (src + 4) a first (omega arith) (omega arith) rest
        ∙ copied-copied dest src 4 (4 * n) a first mem (omega arith)
            (λ b. move_long-at dest src b mem (omega arith) (omega arith)))

memcpy_aligned-at :
    (n dest src a : ℕ) (mem : ℕ → ℕ)
    → dest + n < word
    → src + n < word
    → Ascends dest src n
    → memcpy_aligned n dest src mem a ≡ copied dest src n mem a
unfolding memcpy_aligned
memcpy_aligned-at n dest src a mem hd hs safe =
    let m = 4 * (n / 4) in
    let d4 : add32 dest m ≡ dest + m = omega arith in
    let s4 : add32 src m ≡ src + m = omega arith in
    let size : m + n % 4 ≡ n = omega arith in
    let rest : Ascends (dest + m) (src + m) (n % 4) = omega arith in
    rw (d4, s4)
      (memcpy_bottom-at (n % 4) (dest + m) (src + m) a (rep_movsl (n / 4) dest src mem)
          (omega arith) (omega arith) rest
        ∙ copied-copied dest src m (n % 4) a (rep_movsl (n / 4) dest src mem) mem (omega arith)
            (λ b. rep_movsl-at (n / 4) dest src b mem (omega arith) (omega arith) (omega arith))
        ∙ ap (λ t. copied dest src t mem a) size)

memcpy_top-at :
    (n dest src a : ℕ) (mem : ℕ → ℕ)
    → dest + n < word
    → src + n < word
    → Ascends dest src n
    → memcpy_top n dest src mem a ≡ copied dest src n mem a
unfolding memcpy_top
memcpy_top-at zero dest src a mem hd hs safe = ground arith
memcpy_top-at (suc n) dest src a mem hd hs safe = elim (Bool-cases (dest % 4 == 0)) [
  | inl aligned ↦ rw aligned (memcpy_aligned-at (suc n) dest src a mem hd hs safe)
  | inr single ↦
      let d1 : add32 dest 1 ≡ dest + 1 = omega arith in
      let s1 : add32 src 1 ≡ src + 1 = omega arith in
      let size : 1 + n ≡ suc n = omega arith in
      let first = update mem dest (mem src) in
      let rest : Ascends (dest + 1) (src + 1) n = omega arith in
      rw (single, d1, s1)
        (memcpy_top-at n (dest + 1) (src + 1) a first (omega arith) (omega arith) rest
          ∙ copied-copied dest src 1 n a first mem (omega arith) (λ b. ground arith)
          ∙ ap (λ t. copied dest src t mem a) size)
]

-- `memcpy` with its bytes before an aligned address, its double words and its last bytes: after it the
-- `n` bytes from `dest` on are those that `src` held, and no other byte has changed, if the destination
-- begins at or before the source or lies behind its end, and both blocks end before the last address.
pub memcpy_lem :
    (dest src n a : ℕ) (mem : ℕ → ℕ)
    → dest + n < word
    → src + n < word
    → (dest ≤ src) ⊎ (src + n ≤ dest)
    → memcpy dest src n mem a ≡ (if within dest n a then mem (src + (a - dest)) else mem a)
unfolding memcpy
memcpy_lem dest src n a mem hd hs safe = memcpy_top-at n dest src a mem hd hs safe

for_range-copied :
    (dest src n i a : ℕ) (mem : ℕ → ℕ)
    → Ascends (dest + i) (src + i) n
    → for_range n i (λ i (m : ℕ → ℕ). update m (dest + i) (m (src + i))) mem a
      ≡ copied (dest + i) (src + i) n mem a
unfolding for_range
for_range-copied dest src zero i a mem safe = ground arith
for_range-copied dest src (suc n) i a mem safe =
    let first = update mem (dest + i) (mem (src + i)) in
    let d1 : dest + (i + 1) ≡ dest + i + 1 = omega arith in
    let s1 : src + (i + 1) ≡ src + i + 1 = omega arith in
    let size : 1 + n ≡ suc n = omega arith in
    for_range-copied dest src n (i + 1) a first (omega arith)
    ∙ rw (d1, s1) refl
    ∙ copied-copied (dest + i) (src + i) 1 n a first mem (omega arith) (λ b. ground arith)
    ∙ ap (λ t. copied (dest + i) (src + i) t mem a) size

-- Under the same conditions, the copy with its double words is the copy byte by byte that the rest of
-- the kernel is described with.
pub memcpy-memcpy :
    (dest src n a : ℕ) (mem : ℕ → ℕ)
    → dest + n < word
    → src + n < word
    → (dest ≤ src) ⊎ (src + n ≤ dest)
    → memcpy dest src n mem a ≡ Memory.memcpy dest src n mem a
unfolding Memory.memcpy
memcpy-memcpy dest src n a mem hd hs safe =
    memcpy_lem dest src n a mem hd hs safe
    ∙ sym (for_range-copied dest src n 0 a mem (omega arith) ∙ ground arith)
