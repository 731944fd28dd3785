-- ===== src/Memory/Blocks/Moved.antt =====
-- `memmove` moves blocks that overlap.
use mini_os_with_friends.Base.{
  ℕ, zero, suc, ◌+◌, ◌-◌, ◌≤◌, ◌<◌, ◌≡◌, inl, inr, refl, ◌∙◌, arith, true, false, leb, ltb,
  if◌then◌else◌, word, add32, Bool-cases,
}
use mini_os_with_friends.Base.Maps.{update}
use mini_os_with_friends.Memory.Blocks.{memcpy_bottom, rep_movsb, memmove}
use mini_os_with_friends.Memory.Blocks.Filled.{within}
use mini_os_with_friends.Memory.Blocks.Copied.{copied, memcpy_bottom-at}

rep_movsb-memcpy_bottom :
    (n dest src : ℕ) (mem : ℕ → ℕ) → rep_movsb false n dest src mem ≡ memcpy_bottom n dest src mem
unfolding rep_movsb memcpy_bottom
rep_movsb-memcpy_bottom zero dest src mem = refl
rep_movsb-memcpy_bottom (suc n) dest src mem =
    rep_movsb-memcpy_bottom n (add32 dest 1) (add32 src 1) (update mem dest (mem src))

copied-down :
    (dest src n a : ℕ) (mem : ℕ → ℕ)
    → src < dest
    → copied dest src n (update mem (dest + n) (mem (src + n))) a ≡ copied dest src (suc n) mem a
copied-down dest src n a mem before = ground arith

rep_movsb-down :
    (n dest src a : ℕ) (mem : ℕ → ℕ)
    → dest + n < word
    → src < dest
    → rep_movsb true n (add32 dest (n + word - 1)) (add32 src (n + word - 1)) mem a
      ≡ copied dest src n mem a
unfolding rep_movsb
rep_movsb-down zero dest src a mem hd before = ground arith
rep_movsb-down (suc n) dest src a mem hd before =
    let last : add32 dest (suc n + word - 1) ≡ dest + n = omega arith in
    let last_source : add32 src (suc n + word - 1) ≡ src + n = omega arith in
    let below : add32 (dest + n) (word - 1) ≡ add32 dest (n + word - 1) = omega arith in
    let below_source : add32 (src + n) (word - 1) ≡ add32 src (n + word - 1) = omega arith in
    let first = update mem (dest + n) (mem (src + n)) in
    rw (last, last_source, below, below_source)
      (rep_movsb-down n dest src a first (omega arith) before ∙ copied-down dest src n a mem before)

-- However the two blocks overlap, if both end before the last address: after `memmove` the `n` bytes from
-- `dest` on are those that `src` held before, and no other byte has changed. The function returns
-- with the direction flag set exactly if the source begins before the destination.
pub memmove_lem :
    (dest src n a : ℕ) (mem : ℕ → ℕ)
    → dest + n < word
    → src + n < word
    → ((memmove dest src n mem).0 a ≡ (if within dest n a then mem (src + (a - dest)) else mem a))
      × ((memmove dest src n mem).1 ≡ ltb src dest)
unfolding memmove
memmove_lem dest src n a mem hd hs = elim (Bool-cases (leb dest src)) [
  | inl upward ↦
      let order : dest ≤ src = ground (arith, upward) in
      let flag : false ≡ ltb src dest = ground arith in
      rw upward (
        rw (rep_movsb-memcpy_bottom n dest src mem)
          (memcpy_bottom-at n dest src a mem hd hs (inl order), flag))
  | inr downward ↦
      let order : src < dest = ground (arith, downward) in
      let flag : true ≡ ltb src dest = ground arith in
      rw downward (rep_movsb-down n dest src a mem hd order, flag)
]
