-- ===== src/Syscall/Args.antt =====
-- `getargs_call` ends, and what it answers.
use mini_os_with_friends.Base.{
  Bool, false, Bool-cases, sym, sub32, add32, is_neg, ℕ, zero, suc, ◌+◌, ◌≤◌, ◌<◌, ◌≡◌, refl, ◌∙◌,
  ap, ◌≢◌, ◌||◌, inl, inr, some, arith, ◌==◌, if◌then◌else◌, error,
}
use mathlib.Core.Option
use native.Mathlib.Decide.{ℕ_discrete}
use mini_os_with_friends.State.{Kernel}
use mini_os_with_friends.Memory.{active, write_byte}
use mini_os_with_friends.Base.Loops.{for_range, for_range_inv}
use mini_os_with_friends.Paging.{get_pcb_addr}
use mini_os_with_friends.Syscall.{getargs_call, copy_args}

abbrev pub at_end : ℕ → ℕ → Bool
at_end c left = c == 0 || left == 0

abbrev args_of : Kernel → ℕ → ℕ
args_of k = (k.pcb (get_pcb_addr (active k).pid)).terminal_cmd

copy_args-later :
    (n i left buf m : ℕ) (cmd : ℕ → ℕ) (k : Kernel)
    → cmd m ≡ 0
    → i ≤ m
    → m < i + n
    → (j : ℕ) × ((k' : Kernel) × (copy_args n i left buf cmd k ≡ some (j, k')) × (i ≤ j) × (j ≤ m))
unfolding copy_args
copy_args-later zero i left buf m cmd k z lo hi = absurd (omega arith)
copy_args-later (suc n) i left buf m cmd k z lo hi = elim (Bool-cases (at_end (cmd i) left)) [
  | inl e ↦ (i, (k, rw e refl, omega arith, lo))
  | inr e ↦
      let below : i + 1 ≤ m = elim (ℕ_discrete i m) [
        | yes same ↦ absurd (ground (arith, ap cmd same))
        | no ne ↦ omega arith
      ] in
      let (j, rest) =
        copy_args-later n (i + 1) (sub32 left 1) buf m cmd (write_byte (add32 buf i) (cmd i) k) z
          below (omega arith) in
      (j, (rest.0, rw e (rest.1), omega (arith, rest.2), rest.3))
]

positive : (j : ℕ) → 1 ≤ j → (j == 0) ≡ false
positive j h = ground arith

-- For the first byte: the copy ends at 0 exactly where there is nothing to copy.
copy_args-first :
    (n buf left m : ℕ) (cmd : ℕ → ℕ) (k : Kernel)
    → cmd m ≡ 0
    → m < suc n
    → (j : ℕ) × ((k' : Kernel) × (copy_args (suc n) 0 left buf cmd k ≡ some (j, k'))
        × ((j == 0) ≡ at_end (cmd 0) left))
unfolding copy_args
copy_args-first n buf left m cmd k z hi = elim (Bool-cases (at_end (cmd 0) left)) [
  | inl e ↦ (0, (k, rw e refl, sym e))
  | inr e ↦
      let below : 1 ≤ m = elim (ℕ_discrete 0 m) [
        | yes same ↦ absurd (ground (arith, ap cmd same))
        | no ne ↦ omega arith
      ] in
      let (j, rest) =
        copy_args-later n 1 (sub32 left 1) buf m cmd (write_byte (add32 buf 0) (cmd 0) k) z below
          (omega arith) in
      (j, (rest.0, rw e (rest.1), positive j rest.2 ∙ sym e))
]

-- If the argument of the current process ends with a zero within its 128 bytes, the call ends; it answers
-- -1 if the argument is empty or the length is 0, and 0 otherwise, however short the buffer is.
pub getargs_call-ends :
    (buf nbytes m : ℕ) (k : Kernel)
    → buf ≢ 0
    → m < 128
    → (k.pcb (get_pcb_addr (active k).pid)).terminal_cmd m ≡ 0
    → (k' : Kernel) × (getargs_call buf nbytes k
        ≡ some (
          if at_end ((k.pcb (get_pcb_addr (active k).pid)).terminal_cmd 0) nbytes then error else 0,
          k',
        ))
unfolding getargs_call
getargs_call-ends buf nbytes m k some_buf hi z =
    let cleared =
      for_range (if is_neg nbytes then 0 else nbytes) 0
        (λ i (k1 : Kernel). write_byte (add32 buf i) 0 k1) k in
    let kept : args_of cleared ≡ args_of k =
      for_range_inv (λ i k1. args_of k1 ≡ args_of k)
        (λ i (k1 : Kernel). write_byte (add32 buf i) 0 k1) (if is_neg nbytes then 0 else nbytes) 0
        (if is_neg nbytes then 0 else nbytes) (omega arith) (λ i k1 lt e. e) k refl in
    let (j, rest) =
      copy_args-first 127 buf nbytes m (args_of cleared) cleared (ap (λ f. f m) kept ∙ z) hi in
    let first : at_end (args_of cleared 0) nbytes ≡ at_end (args_of k 0) nbytes =
      ap (λ f. at_end (f 0) nbytes) kept in
    let no_null : (buf == 0) ≡ false = ground arith in
    let finish = Option.map (λ ((i, k1) : ℕ × Kernel). (if i == 0 then error else 0, k1)) in
    (
      rest.0,
      rw no_null
          (ap finish rest.1 ∙ ap (λ b. some (if b then error else 0, rest.0)) (rest.2 ∙ first)),
    )
