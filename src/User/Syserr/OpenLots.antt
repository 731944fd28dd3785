-- ===== src/User/Syserr/OpenLots.antt =====
-- Opening the directory until no descriptor is free, and closing all again.
use mini_os_with_friends.Base.{
  ℕ, ◌+◌, ◌-◌, ◌≤◌, ◌<◌, ◌≡◌, ◌≢◌, inl, inr, refl, ◌∙◌, ap, arith, ◌==◌, true, Option, some, List,
  error, if◌then◌else◌,
}
use native.Mathlib.Decide.{ℕ_discrete, dec_lt}
use mini_os_with_friends.Base.Maps.{update_self, update_ne}
use mini_os_with_friends.Base.Loops.{for_range_inv}
use mini_os_with_friends.Base.Texts.{codes}
use mini_os_with_friends.State.{FileDesc, OpTable, Kernel}
use mini_os_with_friends.Memory.{active}
use mini_os_with_friends.Paging.{get_pcb_blk}
use mini_os_with_friends.FileSystem.{Dentry, close_directory}
use mini_os_with_friends.Syscall.{
  Reply, reply, descriptor, set_descriptor, opened_desc, table_of, close_call, close_entry,
}
use mini_os_with_friends.Syscall.Handler.{do_syscall_in_c, after_call, syscall_handler}
use mini_os_with_friends.Syscall.Descriptors.{
  descriptor-set_descriptor, open_call_cases, close_call-entry, freed,
}
use mini_os_with_friends.Syscall.Untouched.{usage}
use mini_os_with_friends.User.Machine.{Setting, kernel_calls, kernel_probes, system_call, outcome}
use mini_os_with_friends.User.Syserr.{open_again, open_lots, close_lots}
use mini_os_with_friends.User.Syserr.Fails.{Taken, Fresh, Names-fs, Taken-usage}
use mini_os_with_friends.User.Syserr.Refused.{resumed}

-- The directory's descriptor is the next one behind those that are taken.
next_free :
    (stale : Dentry) (hi fd : ℕ) (k : Kernel)
    → Taken stale 2 hi k
    → 2 ≤ hi
    → hi < 8
    → 2 ≤ fd
    → (descriptor k fd).flags ≡ 1
    → ((j : ℕ) → 2 ≤ j → j < fd → (descriptor k j).flags ≢ 1)
    → fd ≡ hi
next_free stale hi fd k t lo small from free least = elim (dec_lt fd hi) [
  | yes below ↦
      let in_use : (descriptor k fd).flags ≡ 0 = ap (λ u. u.1) (t.taken fd from below) in
      absurd (omega (arith, in_use, free))
  | no above ↦ elim (dec_lt hi fd) [
    | yes beyond ↦ absurd (least hi lo beyond (t.free hi lo small (inr (omega arith))))
    | no same ↦ omega arith
  ]
]

-- Descriptor `hi` becomes a directory.
Taken-opened :
    (stale : Dentry) (hi : ℕ) (k : Kernel) (d : FileDesc)
    → Taken stale 2 hi k
    → 2 ≤ hi
    → d.table_ptr ≡ OpTable.directories
    → d.flags ≡ 0
    → Taken stale 2 (hi + 1) (set_descriptor (get_pcb_blk (active k).pid) hi d k)
Taken-opened stale hi k d t lo table flag =
    let k' = set_descriptor (get_pcb_blk (active k).pid) hi d k in
    let other : (j : ℕ) → hi ≢ j → usage k' j ≡ usage k j = λ j ne.
      ap (λ (e : FileDesc). (e.table_ptr, e.flags))
        (descriptor-set_descriptor hi j d k ∙ update_ne (descriptor k) hi j d ne) in
    let same : usage k' hi ≡ (OpTable.directories, 0) =
      ap (λ (e : FileDesc). (e.table_ptr, e.flags))
        (descriptor-set_descriptor hi hi d k ∙ update_self (descriptor k) hi d)
      ∙ rw (table, flag) refl in
    record {
      in_open = other 0 (omega arith) ∙ t.in_open;
      out_open = other 1 (omega arith) ∙ t.out_open;
      taken = λ j l h. elim (ℕ_discrete hi j) [
        | yes e ↦ rw (← e) same
        | no ne ↦ other j ne ∙ t.taken j l (omega arith)
      ];
      free = λ j l h out. ap (λ u. u.1) (other j (omega arith)) ∙ t.free j l h (omega arith);
      names = Names-fs stale k k' refl t.names;
    }

-- Descriptor `lo` is free again.
Taken-closed :
    (stale : Dentry) (lo hi : ℕ) (k : Kernel)
    → Taken stale lo hi k
    → 2 ≤ lo
    → Taken stale (lo + 1) hi (freed lo k)
unfolding freed
Taken-closed stale lo hi k t from =
    let d = record (descriptor k lo) { inode_num = 0; file_position = 0; flags = 1 } in
    let k' = set_descriptor (get_pcb_blk (active k).pid) lo d k in
    let other : (j : ℕ) → lo ≢ j → usage k' j ≡ usage k j = λ j ne.
      ap (λ (e : FileDesc). (e.table_ptr, e.flags))
        (descriptor-set_descriptor lo j d k ∙ update_ne (descriptor k) lo j d ne) in
    let same : (descriptor k' lo).flags ≡ 1 =
      ap (λ (e : FileDesc). e.flags)
        (descriptor-set_descriptor lo lo d k ∙ update_self (descriptor k) lo d) in
    record {
      in_open = other 0 (omega arith) ∙ t.in_open;
      out_open = other 1 (omega arith) ∙ t.out_open;
      taken = λ j l h. other j (omega arith) ∙ t.taken j (omega arith) h;
      free = λ j l h out. elim (ℕ_discrete lo j) [
        | yes e ↦ rw (← e) same
        | no ne ↦ ap (λ u. u.1) (other j ne) ∙ t.free j l h (omega arith)
      ];
      names = Names-fs stale k k' refl t.names;
    }

Taken-resumed :
    (stale : Dentry) (lo hi : ℕ) (k : Kernel) → Taken stale lo hi k → Taken stale lo hi (resumed k)
Taken-resumed stale lo hi k t = Taken-usage stale lo hi k (resumed k) refl (λ j. refl) t

module _ (s : Setting) where
  -- One more `.` is opened, as long as a descriptor is free.
  open_dot :
      (hi : ℕ) (k : Kernel)
      → Taken s.stale 2 hi k
      → 2 ≤ hi
      → hi < 8
      → (k' : Kernel) × ((kernel_calls s).open_path (codes ".") (some k) ≡ (hi, some k'))
        × Taken s.stale 2 (hi + 1) k'
  unfolding kernel_calls system_call syscall_handler do_syscall_in_c after_call table_of
  open_dot hi k t lo small =
      let k1 = resumed k in
      let t1 = Taken-resumed s.stale 2 hi k t in
      let dot = t1.names.dot in
      elim (open_call_cases (codes ".") s.stale dot k1 t1.names.dot_found) [
        | inl (fd, opened, from, below, free, least) ↦
            let next = next_free s.stale hi fd k1 t1 lo small from free least in
            let k2 = set_descriptor (get_pcb_blk (active k1).pid) hi (opened_desc dot) k1 in
            let table : table_of dot.filetype ≡ OpTable.directories = rw t1.names.dot_type refl in
            (
              resumed k2,
              ap (λ (r : ℕ × Kernel). outcome (after_call (reply r)))
                  (opened
                    ∙ ap
                        (λ (n : ℕ).
                          (n, set_descriptor (get_pcb_blk (active k1).pid) n (opened_desc dot) k1))
                        next),
              Taken-resumed s.stale 2 (hi + 1) k2
                  (Taken-opened s.stale hi k1 (opened_desc dot) t1 lo table refl),
            )
        | inr (failed, full) ↦ absurd (full hi lo small (t1.free hi lo small (inr (omega arith))))
      ]

  open_dot_full :
      (k : Kernel)
      → Taken s.stale 2 8 k
      → (kernel_calls s).open_path (codes ".") (some k) ≡ (error, some (resumed k))
  unfolding kernel_calls system_call syscall_handler do_syscall_in_c after_call
  open_dot_full k t =
      let k1 = resumed k in
      let t1 = Taken-resumed s.stale 2 8 k t in
      elim (open_call_cases (codes ".") s.stale t1.names.dot k1 t1.names.dot_found) [
        | inl (fd, opened, from, below, free, least) ↦
            let in_use : (descriptor k1 fd).flags ≡ 0 = ap (λ u. u.1) (t1.taken fd from below) in
            absurd (omega (arith, in_use, free))
        | inr (failed, full) ↦ ap (λ (r : ℕ × Kernel). outcome (after_call (reply r))) failed
      ]

  close_dot :
      (lo : ℕ) (k : Kernel)
      → Taken s.stale lo 8 k
      → 2 ≤ lo
      → lo < 8
      → (k' : Kernel) × (((kernel_probes s).close lo (some k)).1 ≡ some k')
        × Taken s.stale (lo + 1) 8 k'
  unfolding kernel_probes system_call syscall_handler do_syscall_in_c after_call close_entry
      close_directory
  close_dot lo k t from small =
      let k1 = resumed k in
      let t1 = Taken-resumed s.stale lo 8 k t in
      let used = t1.taken lo (omega arith) small in
      let k2 = freed lo k1 in
      let k3 = record k2 { internal_counter = 0; interrupts = true } in
      let entry : close_call lo k1 ≡ close_entry OpTable.directories k2 =
        close_call-entry lo k1 from small (ap (λ u. u.1) used)
        ∙ ap (λ t. close_entry t k2) (ap (λ u. u.0) used) in
      (
        k3,
        ap (λ (r : Reply). (outcome (after_call r)).1) entry,
        Taken-usage s.stale (lo + 1) 8 k2 k3 refl (λ j. refl)
            (Taken-closed s.stale lo 8 k1 t1 from),
      )

  module _ (junk : List ℕ) (stale : ℕ) where
    -- After `i` rounds: the six descriptors go first, and then an open fails.
    record Opens (i : ℕ) (r : ℕ × Option Kernel) : Type 0 where
      now : Kernel
      counted : r ≡ (i - 6, some now)
      taken : Taken s.stale 2 (8 - (6 - i)) now

    open_again_step :
        (i : ℕ) (r : ℕ × Option Kernel)
        → i < 7
        → Opens i r
        → Opens (i + 1) (open_again (kernel_probes s) junk stale r)
    unfolding open_again kernel_probes
    open_again_step i r h o =
        let count : ℕ × Option Kernel → ℕ × Option Kernel =
          λ a. ((if a.0 == error then i - 6 + 1 else i - 6), a.1) in
        let step = ap (open_again (kernel_probes s) junk stale) o.counted in
        elim (dec_lt i 6) [
          | yes early ↦
              let (k', opened, t) =
                open_dot (8 - (6 - i)) o.now o.taken (omega arith) (omega arith) in
              let place : 8 - (6 - i) + 1 ≡ 8 - (6 - (i + 1)) = omega arith in
              let counts : (if (8 - (6 - i)) == error then i - 6 + 1 else i - 6) ≡ i + 1 - 6 =
                ground arith in
              record {
                now = k';
                counted = step ∙ ap count opened ∙ ap (λ n. (n, some k')) counts;
                taken = rw (← place) t;
              }
          | no late ↦
              let full : 8 - (6 - i) ≡ 8 = omega arith in
              let t : Taken s.stale 2 8 o.now = rw (← full) o.taken in
              let still : 8 - (6 - (i + 1)) ≡ 8 = omega arith in
              let counts : i - 6 + 1 ≡ i + 1 - 6 = omega arith in
              record {
                now = resumed o.now;
                counted =
                    step
                    ∙ ap count (open_dot_full o.now t)
                    ∙ ap (λ n. (n, some (resumed o.now))) counts;
                taken = rw still (Taken-resumed s.stale 2 8 o.now t);
              }
        ]

    record Closes (i : ℕ) (r : Option Kernel) : Type 0 where
      now : Kernel
      goes_on : r ≡ some now
      taken : Taken s.stale i 8 now

    close_step :
        (i : ℕ) (r : Option Kernel)
        → 2 ≤ i
        → i < 8
        → Closes i r
        → Closes (i + 1) ((kernel_probes s).close i r).1
    close_step i r from small c =
        let (k', closed, t) = close_dot i c.now c.taken from small in
        record {
          now = k';
          goes_on = ap (λ (o : Option Kernel). ((kernel_probes s).close i o).1) c.goes_on ∙ closed;
          taken = t;
        }

    -- The seven opens fail once, and the six closes leave every descriptor free that was free.
    pub open_lots-close_lots :
        (k : Kernel)
        → Fresh s.stale k
        → (k1 : Kernel) × ((k2 : Kernel) × (open_lots (kernel_probes s) junk stale 7 (0, some k)
              ≡ (1, some k1))
            × (close_lots (kernel_probes s) junk stale 6 2 (some k1) ≡ some k2)
            × Fresh s.stale k2)
    unfolding open_lots close_lots
    open_lots-close_lots k t =
        let opened =
          for_range_inv Opens (λ i r. open_again (kernel_probes s) junk stale r) 7 0 7 (omega arith)
            open_again_step (0, some k) (record { now = k; counted = refl; taken = t }) in
        let closed =
          for_range_inv (λ i r. (2 ≤ i) × Closes i r) (λ i r. ((kernel_probes s).close i r).1) 6 2 8
            (omega arith) (λ i r small c. (omega (arith, c.0), close_step i r c.0 small c.1))
            (some opened.now)
            (omega arith, record { now = opened.now; goes_on = refl; taken = opened.taken }) in
        (opened.now, (closed.1.now, opened.counted, closed.1.goes_on, all_free closed.1.taken))
      where
        all_free : {k2 : Kernel} → Taken s.stale 8 8 k2 → Fresh s.stale k2
        all_free {k2} t = record {
          in_open = t.in_open;
          out_open = t.out_open;
          taken = λ j l h. absurd (omega arith);
          free = λ j l h out. t.free j l h (inl h);
          names = t.names;
        }
