-- ===== src/Boot/Devices.antt =====
-- The state that the initialization of the devices leads to.
use mini_os_with_friends.Base.{
  ℕ, ◌+◌, ◌-◌, ltb, ==_iff, ◌≤◌, ◌<◌, ◌≡◌, refl, ◌∙◌, ap, true, arith, ◌==◌, ◌||◌, if◌then◌else◌,
}
use mini_os_with_friends.Base.Maps.{update}
use mini_os_with_friends.Base.Bits.{all_below, all_below_sound}
use mini_os_with_friends.Base.Loops.{for_range}
use mini_os_with_friends.State.{Pic, Keys, Kernel}
use mini_os_with_friends.Pic.{enable_irq, i8259_init}
use mini_os_with_friends.Pic.Masks.{
  line_mask, bit, IsBytes, line_mask-enable_irq, enable_irq-IsBytes,
}
use mini_os_with_friends.Paging.{init_paging, init_process_id_array}
use mini_os_with_friends.Screen.{clear, update_cursor}
use mini_os_with_friends.Rtc.{init_rtc, init_freq_hw}
use mini_os_with_friends.Pit.{init_pit, pit_change_freq}
use mini_os_with_friends.Keyboard.{keyboard_init}
use mini_os_with_friends.Boot.{init_devices}

free_pids :
    (a : ℕ → ℕ) (j : ℕ) → 3 ≤ j → j < 6 → for_range 3 3 (λ i (a : ℕ → ℕ). update a i 0) a j ≡ 0
unfolding for_range
free_pids a j lo hi = ground arith

-- Each part unmasks one line.
module _ (k : Kernel) where
  clear-pic : (clear k).pic ≡ k.pic
  unfolding clear update_cursor
  clear-pic = refl

  i8259_init-pic : (i8259_init k).pic ≡ (enable_irq 2 k).pic
  unfolding i8259_init enable_irq
  i8259_init-pic = refl

  init_rtc-pic :
      (regb_data old_reg_a : ℕ) → (init_rtc regb_data old_reg_a k).pic ≡ (enable_irq 8 k).pic
  unfolding init_rtc init_freq_hw enable_irq
  init_rtc-pic regb_data old_reg_a = refl

  keyboard_init-pic : (keyboard_init k).pic ≡ (enable_irq 1 k).pic
  unfolding keyboard_init
  keyboard_init-pic = refl

  init_pit-pic : (init_pit k).pic ≡ (enable_irq 0 k).pic
  unfolding init_pit pit_change_freq enable_irq
  init_pit-pic = refl

  init_paging-pic : (init_paging k).pic ≡ k.pic
  unfolding init_paging
  init_paging-pic = refl

  init_process_id_array-pic : (init_process_id_array k).pic ≡ k.pic
  unfolding init_process_id_array
  init_process_id_array-pic = refl

  init_pit-on : (init_pit k).interrupts ≡ true
  unfolding init_pit
  init_pit-on = refl

  init_pit-keys : (init_pit k).keys ≡ k.keys
  unfolding init_pit pit_change_freq enable_irq
  init_pit-keys = refl

  init_pit-pids : (init_pit k).pid_array ≡ k.pid_array
  unfolding init_pit pit_change_freq enable_irq
  init_pit-pids = refl

  init_process_id_array-pids :
      (pid : ℕ) → 3 ≤ pid → pid < 6 → (init_process_id_array k).pid_array pid ≡ 0
  unfolding init_process_id_array
  init_process_id_array-pids pid lo hi = free_pids k.pid_array pid lo hi

  keys_up :
      (init_process_id_array (keyboard_init k)).keys
      ≡ record { shift = 0; control = 0; alt = 0; caps = 0; str_len = 0 }
  unfolding init_process_id_array keyboard_init
  keys_up = refl

-- One more line is unmasked.
unmask_one :
    (irq j m : ℕ) (p : Pic) (k : Kernel)
    → p ≡ (enable_irq irq k).pic
    → IsBytes k.pic
    → j < 16
    → line_mask k.pic j ≡ m
    → IsBytes p × (line_mask p j ≡ (if irq == j then 0 else m))
unmask_one irq j m p k e bytes lt before = rw e (
  enable_irq-IsBytes irq k bytes,
  line_mask-enable_irq irq j k bytes lt ∙ ap (λ b. if irq == j then 0 else b) before,
)

all_masked :
    (p : Pic) (j : ℕ) → p.master_mask ≡ 255 → p.slave_mask ≡ 255 → j < 16 → line_mask p j ≡ 1
all_masked p j master slave lt =
    let row : (if ltb j 8 then bit 255 j else bit 255 (j - 8)) ≡ 1 =
      (==_iff (if ltb j 8 then bit 255 j else bit 255 (j - 8)) 1).0 (
        all_below_sound 16 (λ i. (if ltb i 8 then bit 255 i else bit 255 (i - 8)) == 1) j
          (unfold all_below in refl) lt) in
    rw (master, slave) row

open_lines :
    (j : ℕ)
    → ◌≡◌ {A = ℕ}
        (if 0 == j then 0 else if 1 == j then 0 else if 8 == j then 0 else if 2 == j then 0 else 1)
        (if j == 0 || j == 1 || j == 2 || j == 8 then 0 else 1)
open_lines j = ground arith

-- With both masks of the interrupt controllers at 255, the initialization of the devices leaves
-- exactly lines 0, 1, 2 and 8 unmasked: the timer, the keyboard, the second controller and the
-- clock. Interrupts are on, no modifier key is down, and the process numbers 3 to 5 are free.
pub init_devices_lem :
    (regb_data old_reg_a j pid : ℕ) (k : Kernel)
    → k.pic.master_mask ≡ 255
    → k.pic.slave_mask ≡ 255
    → j < 16
    → 3 ≤ pid
    → pid < 6
    → let k' = init_devices regb_data old_reg_a k in
      (line_mask k'.pic j ≡ (if j == 0 || j == 1 || j == 2 || j == 8 then 0 else 1))
      × (k'.interrupts ≡ true)
      × (k'.keys.shift + k'.keys.control + k'.keys.alt + k'.keys.caps ≡ 0)
      × (k'.pid_array pid ≡ 0)
unfolding init_devices
init_devices_lem regb_data old_reg_a j pid k master slave lt lo hi =
    let k1 = clear k in
    let k2 = i8259_init k1 in
    let k3 = init_paging k2 in
    let k4 = init_rtc regb_data old_reg_a k3 in
    let k5 = keyboard_init k4 in
    let k6 = init_process_id_array k5 in
    let start : (IsBytes k1.pic) × (line_mask k1.pic j ≡ 1) = rw (clear-pic k) (
      record { master_byte = omega (arith, master); slave_byte = omega (arith, slave) },
      all_masked k.pic j master slave lt,
    ) in
    let slave_line = unmask_one 2 j 1 k2.pic k1 (i8259_init-pic k1) start.0 lt start.1 in
    let paged : (IsBytes k3.pic) × (line_mask k3.pic j ≡ (if 2 == j then 0 else 1)) =
      rw (init_paging-pic k2) slave_line in
    let clock_line =
      unmask_one 8 j _ k4.pic k3 (init_rtc-pic k3 regb_data old_reg_a) paged.0 lt paged.1 in
    let key_line = unmask_one 1 j _ k5.pic k4 (keyboard_init-pic k4) clock_line.0 lt clock_line.1 in
    let numbered : (IsBytes k6.pic)
        × (line_mask k6.pic j
            ≡ (if 1 == j then 0 else if 8 == j then 0 else if 2 == j then 0 else 1)) =
      rw (init_process_id_array-pic k5) key_line in
    let timer_line = unmask_one 0 j _ _ k6 (init_pit-pic k6) numbered.0 lt numbered.1 in
    (
      timer_line.1 ∙ open_lines j,
      init_pit-on k6,
      ap (λ (m : Keys). m.shift + m.control + m.alt + m.caps) (init_pit-keys k6 ∙ keys_up k4)
          ∙ omega arith,
      ap (λ (a : ℕ → ℕ). a pid) (init_pit-pids k6) ∙ init_process_id_array-pids k5 pid lo hi,
    )
