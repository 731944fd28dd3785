-- ===== src/Syscall/Untouched.antt =====
-- What the calls leave alone of a process and its descriptors.
use mini_os_with_friends.Base.{
  ℕ, ◌≡◌, refl, ◌∙◌, ap, arith, ◌==◌, ◌||◌, List, [], ◌∷◌, Bool-cases, inl, inr, add32, is_neg,
}
use native.Mathlib.Decide.{ℕ_discrete}
use mini_os_with_friends.Base.Maps.{update_self, update_ne}
use mini_os_with_friends.Base.Loops.{for_range, for_range_inv}
use mini_os_with_friends.State.{FileDesc, Pcb, Terminal, OpTable, Kernel}
use mini_os_with_friends.Memory.{active, read_byte, set_terminal}
use mini_os_with_friends.Paging.{get_pcb_blk}
use mini_os_with_friends.Screen.{
  terminal_putc, puts, newline_cursor, backspace_cursor, advance_cursor, last_row_cursor,
}
use mini_os_with_friends.Screen.Display.{terminal_putc-who}
use mini_os_with_friends.Screen.Cursor.{putc_cursor, terminal_putc-Moves}
use mini_os_with_friends.Terminal.{terminal_write, donothing, output_terminal}
use mini_os_with_friends.Syscall.{descriptor}

-- The operations of a descriptor, and whether it is free.
abbrev pub usage : Kernel → ℕ → OpTable × ℕ
usage k j = ((descriptor k j).table_ptr, (descriptor k j).flags)

-- The PCBs, the files and the current process are the same.
pub record SameFiles (k k' : Kernel) : Type 0 where
  pub same_pcb : k'.pcb ≡ k.pcb
  pub same_fs : k'.fs ≡ k.fs
  pub same_inodes : k'.inodes_count ≡ k.inodes_count
  pub same_curr : k'.curr_pid ≡ k.curr_pid
  pub same_pid : (active k').pid ≡ (active k).pid

pub SameFiles-refl : (k : Kernel) → SameFiles k k
SameFiles-refl k = record {
  same_pcb = refl;
  same_fs = refl;
  same_inodes = refl;
  same_curr = refl;
  same_pid = refl;
}

pub SameFiles-trans : (k k' k'' : Kernel) → SameFiles k k' → SameFiles k' k'' → SameFiles k k''
SameFiles-trans k k' k'' p q = record {
  same_pcb = q.same_pcb ∙ p.same_pcb;
  same_fs = q.same_fs ∙ p.same_fs;
  same_inodes = q.same_inodes ∙ p.same_inodes;
  same_curr = q.same_curr ∙ p.same_curr;
  same_pid = q.same_pid ∙ p.same_pid;
}

pub descriptor-SameFiles :
    (k k' : Kernel) (j : ℕ) → SameFiles k k' → descriptor k' j ≡ descriptor k j
descriptor-SameFiles k k' j s =
    ap (λ (pcb : ℕ → Pcb). (pcb (get_pcb_blk (active k').pid)).file_desc_array j) s.same_pcb
    ∙ ap (λ (pid : ℕ). (k.pcb (get_pcb_blk pid)).file_desc_array j) s.same_pid

pub usage-SameFiles : (k k' : Kernel) (j : ℕ) → SameFiles k k' → usage k' j ≡ usage k j
usage-SameFiles k k' j s =
    ap (λ (d : FileDesc). (d.table_ptr, d.flags)) (descriptor-SameFiles k k' j s)

putc_cursor-pid : (c : ℕ) (s : Terminal) → (putc_cursor c s).pid ≡ s.pid
unfolding putc_cursor newline_cursor backspace_cursor advance_cursor last_row_cursor
putc_cursor-pid c s = ground arith

terminal_putc-pid :
    (c t i : ℕ) (k : Kernel) → ((terminal_putc c t k).terminal i).pid ≡ (k.terminal i).pid
terminal_putc-pid c t i k = rw (terminal_putc-Moves c t k i) (elim (ℕ_discrete t i) [
  | yes e ↦
      rw (e, update_self k.terminal i (putc_cursor c (k.terminal i)))
        (putc_cursor-pid c (k.terminal i))
  | no e ↦ rw (update_ne k.terminal t i (putc_cursor c (k.terminal t)) e) refl
])

pub terminal_putc-SameFiles : (c t : ℕ) (k : Kernel) → SameFiles k (terminal_putc c t k)
terminal_putc-SameFiles c t k =
    let who = terminal_putc-who c t k in
    record {
      same_pcb = ap (λ w. w.2) who;
      same_fs = ap (λ w. w.3) who;
      same_inodes = ap (λ w. w.4) who;
      same_curr = ap (λ w. w.5) who;
      same_pid =
          ap (λ i. ((terminal_putc c t k).terminal i).pid) (ap (λ w. w.1) who)
          ∙ terminal_putc-pid c t k.active_terminal k;
    }

pub puts-SameFiles : (s : List ℕ) (k : Kernel) → SameFiles k (puts s k).1
unfolding puts
puts-SameFiles [] k = SameFiles-refl k
puts-SameFiles (c ∷ s) k =
    let k1 = terminal_putc c k.active_terminal k in
    SameFiles-trans k k1 (puts s k1).1 (terminal_putc-SameFiles c k.active_terminal k)
      (puts-SameFiles s k1)

pub donothing-SameFiles : (k : Kernel) → SameFiles k (donothing k).1
unfolding donothing
donothing-SameFiles k = puts-SameFiles _ k

end_line-SameFiles :
    (k : Kernel) → SameFiles k (set_terminal k.active_terminal (record (active k) { length = 0 }) k)
end_line-SameFiles k = record {
  same_pcb = refl;
  same_fs = refl;
  same_inodes = refl;
  same_curr = refl;
  same_pid =
      ap Terminal.pid (update_self k.terminal k.active_terminal (record (active k) { length = 0 }));
}

pub terminal_write-SameFiles :
    (fd buf nbytes : ℕ) (k : Kernel) → SameFiles k (terminal_write fd buf nbytes k).1
unfolding terminal_write
terminal_write-SameFiles fd buf nbytes k =
    elim (Bool-cases (buf == 0 || nbytes == 0 || is_neg nbytes)) [
      | inl refused ↦ rw refused (SameFiles-refl k)
      | inr fine ↦
          let step = λ (i : ℕ) (k1 : Kernel).
            terminal_putc (read_byte k1 (add32 buf i)) (output_terminal k) k1 in
          let k1 = for_range nbytes 0 step k in
          let printed =
            for_range_inv (λ i (k1 : Kernel). SameFiles k k1) step nbytes 0 nbytes (omega arith)
              (λ i k1 lt same.
                SameFiles-trans k k1 (step i k1) same
                  (terminal_putc-SameFiles (read_byte k1 (add32 buf i)) (output_terminal k) k1))
              k (SameFiles-refl k) in
          rw fine (SameFiles-trans k k1 _ printed (end_line-SameFiles k1))
    ]
