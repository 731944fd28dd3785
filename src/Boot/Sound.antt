-- ===== src/Boot/Sound.antt =====
-- From zeroed memory the kernel comes up sound, and stays so.
use mini_os_with_friends.Base.{
  ℕ, zero, suc, ◌+◌, ◌≡◌, ap, refl, arith, ◌!=◌, ◌&&◌, if◌then◌else◌, Bool, true, false,
  Option-cases, inl, inr, Option, none, some, List, [], ◌∷◌,
}
use mini_os_with_friends.Base.Loops.{for_range, for_range_inv}
use mini_os_with_friends.State.{Terminal, Kernel}
use mini_os_with_friends.Memory.{set_terminal}
use mini_os_with_friends.Paging.{init_paging, init_process_id_array, remap_video_mem_user}
use mini_os_with_friends.Pic.{sti, i8259_init, enable_irq}
use mini_os_with_friends.Screen.{clear}
use mini_os_with_friends.FileSystem.{Dentry}
use mini_os_with_friends.Rtc.{init_rtc, init_freq_hw}
use mini_os_with_friends.Pit.{init_pit, pit_change_freq}
use mini_os_with_friends.Keyboard.{keyboard_init}
use mini_os_with_friends.Process.{Outcome, Frame, shell_command}
use mini_os_with_friends.Terminal.{init_terminals, reset_terminal}
use mini_os_with_friends.Printf.{Arg, printf}
use mini_os_with_friends.System.{Reach}
use mini_os_with_friends.System.Text.{
  Text, IsSound, IsSoundText, IsSound-Agree, Agree, text_of, set_terminal-IsSound,
}
use mini_os_with_friends.System.Output.{clear-IsSound}
use mini_os_with_friends.System.Calls.{Agree-refl, Agree-eq, execute_call-Agree}
use mini_os_with_friends.System.Print.{printf-IsSound}
use mini_os_with_friends.System.Safety.{Reach-IsSound}
use mini_os_with_friends.Boot.{
  Module, MemoryMap, MultibootInfo, Booted, after, say, say_if, say_bytes, say_modules, say_mmap,
  report_first, report_rest, init_tss, init_devices, init_file_system, finish_entry, start_system,
  entry, check_flag, multiboot_bootloader_magic,
}

-- The state of a step that may fail.
abbrev IsSoundStep : Option Kernel → Type 0
IsSoundStep r = (k : Kernel) → r ≡ some k → IsSound k

IsSoundStep-some : (k : Kernel) → IsSound k → IsSoundStep (some k)
IsSoundStep-some k w k' e = IsSound-Agree k k' (Agree-eq k k k' (Agree-refl k) (cc e)) w

IsSoundStep-if :
    (b : Bool) (r r' : Option Kernel)
    → IsSoundStep r
    → IsSoundStep r'
    → IsSoundStep (if b then r else r')
IsSoundStep-if true r r' p q = p
IsSoundStep-if false r r' p q = q

IsSoundStep-after :
    (r : Option Kernel) (f : Kernel → Option Kernel)
    → IsSoundStep r
    → ((k : Kernel) → IsSound k → IsSoundStep (f k))
    → IsSoundStep (after r f)
IsSoundStep-after none f p q = λ k e. ground arith
IsSoundStep-after (some k) f p q = q k (p k refl)

module _ (conv_buf : ℕ → ℕ) where
  say-IsSound :
      (format : List ℕ) (args : List Arg) (k : Kernel)
      → IsSound k
      → IsSoundStep (say conv_buf format args k)
  unfolding say
  say-IsSound format args k w k' e = elim (Option-cases (printf conv_buf format args k)) [
    | inl missing ↦ ground arith
    | inr ((n, k1), done) ↦ printf-IsSound conv_buf format args k n k' w (ground arith)
  ]

  say_if-IsSound :
      (b : Bool) (format : List ℕ) (args : List Arg) (k : Kernel)
      → IsSound k
      → IsSoundStep (say_if b conv_buf format args k)
  say_if-IsSound b format args k w =
      IsSoundStep-if b (say conv_buf format args k) (some k) (say-IsSound format args k w)
        (IsSoundStep-some k w)

  say_bytes-IsSound :
      (n i : ℕ) (bytes : ℕ → ℕ) (k : Kernel)
      → IsSound k
      → IsSoundStep (say_bytes conv_buf n i bytes k)
  unfolding say_bytes
  say_bytes-IsSound zero i bytes k w = IsSoundStep-some k w
  say_bytes-IsSound (suc n) i bytes k w =
      IsSoundStep-after _ _ (say-IsSound _ _ k w) (λ k1 w1. say_bytes-IsSound n (i + 1) bytes k1 w1)

  say_modules-IsSound :
      (mod_count : ℕ) (modules : List Module) (k : Kernel)
      → IsSound k
      → IsSoundStep (say_modules conv_buf mod_count modules k)
  unfolding say_modules
  say_modules-IsSound mod_count [] k w = IsSoundStep-some k w
  say_modules-IsSound mod_count (m ∷ rest) k w =
      IsSoundStep-after _ _ (say-IsSound _ _ k w) (λ k1 w1.
        IsSoundStep-after _ _ (say-IsSound _ _ k1 w1) (λ k2 w2.
          IsSoundStep-after _ _ (say-IsSound _ _ k2 w2) (λ k3 w3.
            IsSoundStep-after _ _ (say_bytes-IsSound 16 0 m.bytes k3 w3) (λ k4 w4.
              IsSoundStep-after _ _ (say-IsSound _ _ k4 w4)
                (λ k5 w5. say_modules-IsSound (mod_count + 1) rest k5 w5)))))

  say_mmap-IsSound :
      (mmap : List MemoryMap) (k : Kernel) → IsSound k → IsSoundStep (say_mmap conv_buf mmap k)
  unfolding say_mmap
  say_mmap-IsSound [] k w = IsSoundStep-some k w
  say_mmap-IsSound (m ∷ rest) k w =
      IsSoundStep-after _ _ (say-IsSound _ _ k w) (λ k1 w1. say_mmap-IsSound rest k1 w1)

  report_first-IsSound :
      (mbi : MultibootInfo) (k : Kernel) → IsSound k → IsSoundStep (report_first conv_buf mbi k)
  unfolding report_first
  report_first-IsSound mbi k w = IsSoundStep-after _ _ (say-IsSound _ _ k w) (λ k1 w1.
      IsSoundStep-after _ _ (say_if-IsSound (check_flag mbi.flags 0) _ _ k1 w1) (λ k2 w2.
        IsSoundStep-after _ _ (say_if-IsSound (check_flag mbi.flags 1) _ _ k2 w2) (λ k3 w3.
          IsSoundStep-after _ _ (say_if-IsSound (check_flag mbi.flags 2) _ _ k3 w3) (λ k4 w4.
            IsSoundStep-if (check_flag mbi.flags 3) _ _ (say_modules-IsSound 0 mbi.modules k4 w4)
              (IsSoundStep-some k4 w4)))))

  report_rest-IsSound :
      (mbi : MultibootInfo) (k : Kernel) → IsSound k → IsSoundStep (report_rest conv_buf mbi k)
  unfolding report_rest
  report_rest-IsSound mbi k w =
      IsSoundStep-after _ _ (say_if-IsSound (check_flag mbi.flags 5) _ _ k w) (λ k1 w1.
        IsSoundStep-if (check_flag mbi.flags 6) _ _
          (IsSoundStep-after _ _ (say-IsSound _ _ k1 w1) (λ k2 w2. say_mmap-IsSound mbi.mmap k2 w2))
          (IsSoundStep-some k1 w1))

-- The devices touch no terminal but by `clear`.
init_devices-Agree :
    (regb_data old_reg_a : ℕ) (k : Kernel) → Agree (clear k) (init_devices regb_data old_reg_a k)
unfolding init_devices init_pit pit_change_freq enable_irq init_process_id_array keyboard_init
    init_rtc init_freq_hw init_paging i8259_init
init_devices-Agree regb_data old_reg_a k i = refl

before_terminals-IsSound :
    (regb_data old_reg_a : ℕ) (k : Kernel)
    → IsSound k
    → IsSound (init_file_system (init_devices regb_data old_reg_a (init_tss k)))
unfolding init_file_system init_tss
before_terminals-IsSound regb_data old_reg_a k w =
    let started = init_tss k in
    let devices = init_devices regb_data old_reg_a started in
    let cleared = clear-IsSound started (IsSound-Agree k started (λ i. refl) w) in
    IsSound-Agree (clear started) (init_file_system devices)
      (λ i. init_devices-Agree regb_data old_reg_a started i) cleared

reset_terminal-IsSoundText :
    (j : ℕ) (t : Terminal) → IsSoundText t → IsSoundText (reset_terminal j t)
unfolding reset_terminal
reset_terminal-IsSoundText j t v = record {
  cursor = record {
    column = omega arith;
    row = omega arith;
    no_scroll_pending = λ e. omega (arith, e);
    last_marked = inl (omega arith);
  };
  line_fits = v.line_fits;
  read_fits = v.read_fits;
}

init_terminals-IsSound :
    (frame : Frame) (stale : Dentry) (k k' : Kernel) (o : Outcome)
    → IsSound k
    → init_terminals frame stale k ≡ some (o, k')
    → IsSound k'
unfolding init_terminals remap_video_mem_user
init_terminals-IsSound frame stale k k' o w e =
    let step = λ (j : ℕ) (k1 : Kernel). set_terminal j (reset_terminal j (k1.terminal j)) k1 in
    let reset = for_range 3 0 step k in
    let v : IsSound reset =
      for_range_inv (λ j (k1 : Kernel). IsSound k1) step 3 0 3 refl
        (λ j k1 lt p.
          set_terminal-IsSound j (reset_terminal j (k1.terminal j)) k1
            (reset_terminal-IsSoundText j (k1.terminal j) (p.texts j)) p)
        k w in
    let mapped = remap_video_mem_user 0 reset in
    IsSound-Agree mapped k' (execute_call-Agree frame stale shell_command mapped k' o e)
      (IsSound-Agree reset mapped (λ i. refl) v)

-- What ends a call, and a state.
abbrev IsSoundEnd : Option (Booted × Kernel) → Type 0
IsSoundEnd r = (b : Booted) (k : Kernel) → r ≡ some (b, k) → IsSound k

IsSoundEnd-some : (b : Booted) (k : Kernel) → IsSound k → IsSoundEnd (some (b, k))
IsSoundEnd-some b k w b' k' e = IsSound-Agree k k' (Agree-eq k k k' (Agree-refl k) (cc e)) w

IsSoundEnd-if :
    (b : Bool) (r r' : Option (Booted × Kernel))
    → IsSoundEnd r
    → IsSoundEnd r'
    → IsSoundEnd (if b then r else r')
IsSoundEnd-if true r r' p q = p
IsSoundEnd-if false r r' p q = q

IsSoundEnd-after :
    (r : Option Kernel) (f : Kernel → Option (Booted × Kernel))
    → IsSoundStep r
    → ((k : Kernel) → IsSound k → IsSoundEnd (f k))
    → IsSoundEnd (after r f)
IsSoundEnd-after none f p q = λ b k e. ground arith
IsSoundEnd-after (some k) f p q = q k (p k refl)

finish_entry-IsSound :
    (conv_buf : ℕ → ℕ) (r : Option (Outcome × Kernel))
    → ((o : Outcome) (k : Kernel) → r ≡ some (o, k) → IsSound k)
    → IsSoundEnd (finish_entry conv_buf r)
unfolding finish_entry
finish_entry-IsSound conv_buf none p = λ b k e. ground arith
finish_entry-IsSound conv_buf (some (Outcome.returned v, k)) p =
    IsSoundEnd-after _ _
      (say-IsSound conv_buf _ _ (sti k) (IsSound-Agree k (sti k) (λ i. refl) (p _ k refl)))
      (λ k1 w1. IsSoundEnd-some Booted.idle k1 w1)
finish_entry-IsSound conv_buf (some (Outcome.entered q s, k)) p = IsSoundEnd-some _ k (p _ k refl)
finish_entry-IsSound conv_buf (some (Outcome.resumed v esp ebp, k)) p =
    IsSoundEnd-some _ k (p _ k refl)

module _ (conv_buf : ℕ → ℕ) (regb_data old_reg_a : ℕ) (frame : Frame) (stale : Dentry) where
  start_system-IsSound :
      (k : Kernel)
      → IsSound k
      → IsSoundEnd (start_system conv_buf regb_data old_reg_a frame stale k)
  unfolding start_system
  start_system-IsSound k w =
      let ready = init_file_system (init_devices regb_data old_reg_a (init_tss k)) in
      let v = before_terminals-IsSound regb_data old_reg_a k w in
      finish_entry-IsSound conv_buf (init_terminals frame stale ready)
        (λ o k1 done. init_terminals-IsSound frame stale ready k1 o v done)

  entry-IsSound :
      (magic : ℕ) (mbi : MultibootInfo) (k : Kernel)
      → IsSound k
      → IsSoundEnd (entry conv_buf regb_data old_reg_a frame stale magic mbi k)
  unfolding entry
  entry-IsSound magic mbi k w =
      let w1 = clear-IsSound k w in
      IsSoundEnd-if (magic != multiboot_bootloader_magic) _ _
        (IsSoundEnd-after _ _ (say-IsSound conv_buf _ _ (clear k) w1)
          (λ k2 w2. IsSoundEnd-some Booted.stopped k2 w2))
        (IsSoundEnd-after _ _ (report_first-IsSound conv_buf mbi (clear k) w1) (λ k2 w2.
          IsSoundEnd-if (check_flag mbi.flags 4 && check_flag mbi.flags 5) _ _
            (IsSoundEnd-after _ _ (say-IsSound conv_buf _ _ k2 w2)
              (λ k3 w3. IsSoundEnd-some Booted.stopped k3 w3))
            (IsSoundEnd-after _ _ (report_rest-IsSound conv_buf mbi k2 w2)
              (λ k3 w3. start_system-IsSound k3 w3))))

-- The terminals before `entry` runs: zeros, and the first one displayed and active.
pub record IsZeroed (k : Kernel) : Type 0 where
  pub zeros :
      (i : ℕ)
      → text_of (k.terminal i)
        ≡ record { x = 0; y = 0; shift_up_one_flag = 0; length = 0; read_length = 0 }
  pub first_active : k.active_terminal ≡ 0
  pub first_displayed : k.displayed_terminal ≡ 0

IsZeroed-IsSound : (k : Kernel) → IsZeroed k → IsSound k
IsZeroed-IsSound k z = record {
  texts = λ i.
      let e = z.zeros i in
      let x : (k.terminal i).x ≡ 0 = ap Text.x e in
      let y : (k.terminal i).y ≡ 0 = ap Text.y e in
      let flag : (k.terminal i).shift_up_one_flag ≡ 0 = ap Text.shift_up_one_flag e in
      let length : (k.terminal i).length ≡ 0 = ap Text.length e in
      let read : (k.terminal i).read_length ≡ 0 = ap Text.read_length e in
      record {
        cursor = record {
          column = omega (arith, x);
          row = omega (arith, y);
          no_scroll_pending = λ one. omega (arith, flag, one);
          last_marked = inl (omega (arith, x, y));
        };
        line_fits = omega (arith, length);
        read_fits = omega (arith, read);
      };
  active_is = omega (arith, z.first_active);
  displayed_is = omega (arith, z.first_displayed);
}

-- If `entry` starts from zeroed terminals, whatever the boot loader passes, and ends, then every later
-- sequence of interrupts and system calls leads to a sound state: every cursor is on its screen, with
-- no scroll pending and the last cell marked, every line has at most 127 bytes and what a read takes
-- of it at most 128, and the active and the displayed terminal are among the three.
pub entry-Reach-IsSound :
    (conv_buf : ℕ → ℕ) (regb_data old_reg_a : ℕ) (frame : Frame) (stale : Dentry) (magic : ℕ)
    (mbi : MultibootInfo) (b : Booted) (k k' k'' : Kernel)
    → IsZeroed k
    → entry conv_buf regb_data old_reg_a frame stale magic mbi k ≡ some (b, k')
    → Reach k' k''
    → IsSound k''
entry-Reach-IsSound conv_buf regb_data old_reg_a frame stale magic mbi b k k' k'' z booted path =
    Reach-IsSound k' k''
      (entry-IsSound conv_buf regb_data old_reg_a frame stale magic mbi k (IsZeroed-IsSound k z) b
        k' booted)
      path
