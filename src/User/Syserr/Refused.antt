-- ===== src/User/Syserr/Refused.antt =====
-- Calls that the kernel refuses: each answers -1, and moves no descriptor and no file.
use mini_os_with_friends.Base.{
  ℕ, ◌≡◌, ◌≤◌, ◌<◌, ◌⊎◌, inl, inr, refl, ◌∙◌, ap, arith, some, List, [], ◌∷◌, error, true, add32,
  length,
}
use mini_os_with_friends.State.{Kernel}
use mini_os_with_friends.Memory.{write_byte}
use mini_os_with_friends.Paging.{virt_addr_program}
use mini_os_with_friends.Syscall.{Reply, descriptor, read_call, write_call, close_call}
use mini_os_with_friends.Syscall.Handler.{
  do_syscall_in_c, after_call, syscall_handler, syscall_handler_rejects,
}
use mini_os_with_friends.Syscall.Untouched.{usage, SameFiles, usage-SameFiles}
use mini_os_with_friends.Syscall.Video.{vidmap_call_guard}
use mini_os_with_friends.User.Machine.{Setting, place, system_call, kernel_calls, kernel_probes}

-- The image and the use of every descriptor are the same.
pub record Unmoved (k k' : Kernel) : Type 0 where
  pub same_image : k'.fs ≡ k.fs
  pub same_usage : (j : ℕ) → usage k' j ≡ usage k j

pub Unmoved-SameFiles : (k k' : Kernel) → SameFiles k k' → Unmoved k k'
Unmoved-SameFiles k k' s = record {
  same_image = s.same_fs;
  same_usage = λ j. usage-SameFiles k k' j s;
}

pub Unmoved-trans : (k k' k'' : Kernel) → Unmoved k k' → Unmoved k' k'' → Unmoved k k''
Unmoved-trans k k' k'' p q = record {
  same_image = q.same_image ∙ p.same_image;
  same_usage = λ j. q.same_usage j ∙ p.same_usage j;
}

-- Interrupts are on, as the handler leaves them.
abbrev pub resumed : Kernel → Kernel
resumed k = record k { interrupts = true }

place-mem :
    (a : ℕ) (bytes : List ℕ) (k : Kernel)
    → place a bytes k ≡ record k { mem = (place a bytes k).mem }
unfolding place
place-mem a [] k = refl
place-mem a (c ∷ bytes) k = place-mem (add32 a 1) bytes (write_byte a c k)

pub place-SameFiles : (a : ℕ) (bytes : List ℕ) (k : Kernel) → SameFiles k (place a bytes k)
place-SameFiles a bytes k = rw (place-mem a bytes k) (record {
  same_pcb = refl;
  same_fs = refl;
  same_inodes = refl;
  same_curr = refl;
  same_pid = refl;
})

pub resumed_place-SameFiles :
    (a : ℕ) (bytes : List ℕ) (k : Kernel) → SameFiles k (resumed (place a bytes k))
resumed_place-SameFiles a bytes k =
    let placed = place-SameFiles a bytes k in
    record {
      same_pcb = placed.same_pcb;
      same_fs = placed.same_fs;
      same_inodes = placed.same_inodes;
      same_curr = placed.same_curr;
      same_pid = placed.same_pid;
    }

-- A descriptor that is out of range or free.
abbrev pub Refused : Kernel → ℕ → Type 0
Refused k fd = (8 ≤ fd) ⊎ ((descriptor k fd).flags ≡ 1)

pub Refused-Unmoved : (k k' : Kernel) (fd : ℕ) → Unmoved k k' → Refused k fd → Refused k' fd
Refused-Unmoved k k' fd u (inl big) = inl big
Refused-Unmoved k k' fd u (inr free) = inr (ap (λ v. v.1) (u.same_usage fd) ∙ free)

write_call-Refused :
    (fd buf nbytes : ℕ) (k : Kernel)
    → Refused k fd
    → write_call fd buf nbytes k ≡ Reply.answer error k
unfolding write_call
write_call-Refused fd buf nbytes k (inl big) = ground arith
write_call-Refused fd buf nbytes k (inr free) = ground arith

module _ (s : Setting) where
  pub read-Refused :
      (fd nbytes : ℕ) (k : Kernel)
      → Refused k fd
      → (kernel_calls s).read fd nbytes (some k) ≡ (error, [], some (resumed k))
  unfolding kernel_calls system_call syscall_handler do_syscall_in_c after_call read_call
  read-Refused fd nbytes k (inl big) = ground arith
  read-Refused fd nbytes k (inr free) = ground arith

  pub write-Refused :
      (fd : ℕ) (bytes : List ℕ) (k : Kernel)
      → Refused k fd
      → (kernel_calls s).write fd bytes (some k) ≡ (error, some (resumed (place s.text bytes k)))
  unfolding kernel_calls system_call syscall_handler do_syscall_in_c after_call
  write-Refused fd bytes k r =
      let placed = place s.text bytes k in
      let r' =
        Refused-Unmoved k (resumed placed) fd
          (Unmoved-SameFiles k (resumed placed) (resumed_place-SameFiles s.text bytes k)) r in
      rw (write_call-Refused fd s.text (length bytes) (resumed placed) r') refl

  pub close-Refused :
      (fd : ℕ) (k : Kernel)
      → Refused k fd ⊎ (fd < 2)
      → (kernel_probes s).close fd (some k) ≡ (error, some (resumed k))
  unfolding kernel_probes system_call syscall_handler do_syscall_in_c after_call close_call
  close-Refused fd k (inl (inl big)) = ground arith
  close-Refused fd k (inl (inr free)) = ground arith
  close-Refused fd k (inr low) = ground arith

  pub vidmap_refused :
      (a : ℕ) (k : Kernel)
      → a < virt_addr_program
      → (kernel_probes s).vidmap a (some k) ≡ (error, some (resumed k))
  unfolding kernel_probes system_call syscall_handler do_syscall_in_c after_call
  vidmap_refused a k below = ground (arith, vidmap_call_guard a (resumed k) (inl below))

  pub call_refused :
      (num : ℕ) (k : Kernel)
      → (num ≡ 0) ⊎ (11 ≤ num)
      → num < 0x100000000
      → (kernel_probes s).call_sys num (some k) ≡ (error, some (resumed k))
  unfolding kernel_probes system_call
  call_refused num k bad small = ground (
    arith,
    syscall_handler_rejects (do_syscall_in_c s.waiting s.stale s.process_call s.registers) num k bad
        small,
  )
