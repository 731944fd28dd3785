-- ===== src/Memory/Blocks/Filled.antt =====
-- What `memset` and its variants write.
use mini_os_with_friends.Base.{
  ℕ, zero, suc, ◌+◌, ◌-◌, ◌*◌, ◌/◌, ◌%◌, ◌<◌, ◌≡◌, ◌∙◌, refl, arith, ◌==◌, ◌&&◌, leb, ltb,
  if◌then◌else◌, word, ==_iff, add32, Bool, true, Bool-cases, inl, inr,
}
use mini_os_with_friends.Base.Maps.{update}
use mini_os_with_friends.Base.Bits.{all_below, all_below_sound}
use mini_os_with_friends.Memory.Blocks.{
  rep_stosw, rep_stosl, memset_bottom, memset_aligned, memset_top, memset, memset_word,
  memset_dword, four_times, store_long,
}

-- Whether an address lies in the `n` bytes from `s` on.
abbrev pub within : (s n a : ℕ) → Bool
within s n a = leb s a && ltb a (s + n)

-- A block whose first `m` bytes are written, and then the `n` bytes behind them.
pub within-join :
    (s m n a first x x' y : ℕ)
    → (within (s + m) n a ≡ true → x' ≡ x)
    → first ≡ (if within s m a then x else y)
    → (if within (s + m) n a then x' else first) ≡ (if within s (m + n) a then x else y)
within-join s m n a first x x' y later here = elim (Bool-cases (within (s + m) n a)) [
  | inl yes_later ↦ rw yes_later (later yes_later ∙ ground arith)
  | inr not_later ↦ rw not_later (here ∙ ground arith)
]

four_times_table : all_below 256 (λ c. four_times c == c * 0x1010101) ≡ true
unfolding all_below
four_times_table = refl

four_times_lem : (c : ℕ) → c < 256 → four_times c ≡ c * 0x1010101
four_times_lem c h =
    (==_iff _ _).0 (all_below_sound 256 (λ v. four_times v == v * 0x1010101) c four_times_table h)

-- Only the upper three bytes of the register matter beyond its low byte.
memset_bottom-at :
    (n edi al a : ℕ) (mem : ℕ → ℕ)
    → edi + n < word
    → memset_bottom n edi al mem a ≡ (if within edi n a then al else mem a)
unfolding memset_bottom
memset_bottom-at zero edi al a mem h = ground arith
memset_bottom-at (suc n) edi al a mem h =
    let next : add32 edi 1 ≡ edi + 1 = omega arith in
    rw next (ground (arith, memset_bottom-at n (edi + 1) al a (update mem edi al)))

store_long-at :
    (edi c a : ℕ) (mem : ℕ → ℕ)
    → edi + 4 < word
    → c < 256
    → store_long edi (c * 0x1010101) mem a ≡ (if within edi 4 a then c else mem a)
store_long-at edi c a mem h small =
    let one : add32 edi 1 ≡ edi + 1 = omega arith in
    let two : add32 edi 2 ≡ edi + 2 = omega arith in
    let three : add32 (edi + 2) 1 ≡ edi + 3 = omega arith in rw (two, one, three) (ground arith)

rep_stosl-at :
    (n edi c a : ℕ) (mem : ℕ → ℕ)
    → edi + 4 * n < word
    → c < 256
    → rep_stosl n edi (c * 0x1010101) mem a ≡ (if within edi (4 * n) a then c else mem a)
unfolding rep_stosl
rep_stosl-at zero edi c a mem h small = ground arith
rep_stosl-at (suc n) edi c a mem h small =
    let next : add32 edi 4 ≡ edi + 4 = omega arith in
    rw next (
      ground (
        arith,
        rep_stosl-at n (edi + 4) c a (store_long edi (c * 0x1010101) mem),
        store_long-at edi c a mem,
      ))

memset_aligned-at :
    (n edi c a : ℕ) (mem : ℕ → ℕ)
    → edi + n < word
    → c < 256
    → memset_aligned n edi (c * 0x1010101) mem a ≡ (if within edi n a then c else mem a)
unfolding memset_aligned
memset_aligned-at n edi c a mem h small =
    let middle : add32 edi (4 * (n / 4)) ≡ edi + 4 * (n / 4) = omega arith in
    let low : c * 0x1010101 % 256 ≡ c = omega arith in
    let longs = rep_stosl (n / 4) edi (c * 0x1010101) mem in
    rw (middle, low)
      (ground (
        arith,
        memset_bottom-at (n % 4) (edi + 4 * (n / 4)) c a longs,
        rep_stosl-at (n / 4) edi c a mem,
      ))

memset_top-at :
    (n edi c a : ℕ) (mem : ℕ → ℕ)
    → edi + n < word
    → c < 256
    → memset_top n edi (c * 0x1010101) mem a ≡ (if within edi n a then c else mem a)
unfolding memset_top
memset_top-at zero edi c a mem h small = ground arith
memset_top-at (suc n) edi c a mem h small = elim (Bool-cases (edi % 4 == 0)) [
  | inl aligned ↦ rw aligned (memset_aligned-at (suc n) edi c a mem h small)
  | inr single ↦
      let next : add32 edi 1 ≡ edi + 1 = omega arith in
      let low : c * 0x1010101 % 256 ≡ c = omega arith in
      rw (single, next, low) (ground (arith, memset_top-at n (edi + 1) c a (update mem edi c)))
]

-- `memset` puts the lowest byte of `c` into the `n` bytes from `s` on, and changes no other byte, whatever
-- the alignment of `s`, if the block ends before the last address.
pub memset_lem :
    (s c n a : ℕ) (mem : ℕ → ℕ)
    → s + n < word
    → memset s c n mem a ≡ (if within s n a then c % 256 else mem a)
unfolding memset
memset_lem s c n a mem h =
    rw (four_times_lem (c % 256) (omega arith)) (memset_top-at n s (c % 256) a mem h (omega arith))

-- The byte of `v` that lies at an offset, in a pattern of words or of double words.
abbrev pub word_byte : (v offset : ℕ) → ℕ
word_byte v offset = if offset % 2 == 0 then v % 256 else v / 256 % 256

abbrev pub dword_byte : (v offset : ℕ) → ℕ
dword_byte v offset =
    if offset % 4 / 2 == 0 then word_byte v offset else word_byte (v / 65536) offset

rep_stosw-at :
    (n s c a : ℕ) (mem : ℕ → ℕ)
    → s + 2 * n < word
    → rep_stosw n s c mem a ≡ (if within s (2 * n) a then word_byte c (a - s) else mem a)
unfolding rep_stosw
rep_stosw-at zero s c a mem h = ground arith
rep_stosw-at (suc n) s c a mem h =
    let one : add32 s 1 ≡ s + 1 = omega arith in
    let next : add32 s 2 ≡ s + 2 = omega arith in
    rw (next, one)
      (ground (
        arith,
        rep_stosw-at n (s + 2) c a (update (update mem s (c % 256)) (s + 1) (c / 256 % 256)),
      ))

store_long-bytes :
    (s c a : ℕ) (mem : ℕ → ℕ)
    → s + 4 < word
    → store_long s c mem a ≡ (if within s 4 a then dword_byte c (a - s) else mem a)
store_long-bytes s c a mem h =
    let one : add32 s 1 ≡ s + 1 = omega arith in
    let two : add32 s 2 ≡ s + 2 = omega arith in
    let three : add32 (s + 2) 1 ≡ s + 3 = omega arith in rw (two, one, three) (ground arith)

dword_byte-later :
    (c s n a : ℕ) → within (s + 4) n a ≡ true → dword_byte c (a - (s + 4)) ≡ dword_byte c (a - s)
dword_byte-later c s n a h = ground arith

rep_stosl-bytes :
    (n s c a : ℕ) (mem : ℕ → ℕ)
    → s + 4 * n < word
    → rep_stosl n s c mem a ≡ (if within s (4 * n) a then dword_byte c (a - s) else mem a)
unfolding rep_stosl
rep_stosl-bytes zero s c a mem h = ground arith
rep_stosl-bytes (suc n) s c a mem h =
    let next : add32 s 4 ≡ s + 4 = omega arith in
    let size : 4 * suc n ≡ 4 + 4 * n = omega arith in
    rw (next, size)
      (rep_stosl-bytes n (s + 4) c a (store_long s c mem) (omega arith)
        ∙ within-join s 4 (4 * n) a (store_long s c mem a) (dword_byte c (a - s))
            (dword_byte c (a - (s + 4))) (mem a) (dword_byte-later c s (4 * n) a)
            (store_long-bytes s c a mem (omega arith)))

-- `memset_word` and `memset_dword` count words and double words, not bytes: they fill `2 * n` and `4 * n`
-- bytes from `s` on with the bytes of `c`, lowest first, over and over, and change no other byte, if
-- the block ends before the last address.
pub memset_word_lem :
    (s c n a : ℕ) (mem : ℕ → ℕ)
    → s + 4 * n < word
    → (memset_word s c n mem a
        ≡ (if within s (2 * n) a then word_byte (c % 65536) (a - s) else mem a))
      × (memset_dword s c n mem a ≡ (if within s (4 * n) a then dword_byte c (a - s) else mem a))
unfolding memset_word memset_dword
memset_word_lem s c n a mem h =
    (rep_stosw-at n s (c % 65536) a mem (omega arith), rep_stosl-bytes n s c a mem h)
