-- ===== src/Examples/Booting.antt =====
-- Runs of the start of the kernel, and of what comes after it.
use mini_os_with_friends.Base.{ℕ, ◌+◌, ◌≡◌, refl, ◌==◌, ◌||◌, if◌then◌else◌, true, some, [], arith}
use mini_os_with_friends.State.{Kernel}
use mini_os_with_friends.Pic.Masks.{line_mask}
use mini_os_with_friends.Boot.{MultibootInfo, Booted, entry, init_devices, say}
use mini_os_with_friends.Boot.Devices.{init_devices_lem}
use mini_os_with_friends.Boot.Sound.{IsZeroed, entry-Reach-IsSound}
use mini_os_with_friends.Rtc.{rtc_intr}
use mini_os_with_friends.Printf.{printf, printf_from, convert}
use mini_os_with_friends.System.{Step, Reach}
use mini_os_with_friends.System.Text.{IsSound}
use mini_os_with_friends.Examples.{running, dentry_zero}
use mini_os_with_friends.Examples.Processes.{frame_one}

init_devices_lem_example :
    (line_mask (init_devices 0 0 running).pic 8
      ≡ (if 8 == 0 || 8 == 1 || 8 == 2 || 8 == 8 then 0 else 1))
    × ((init_devices 0 0 running).interrupts ≡ true)
    × ((init_devices 0 0 running).keys.shift
          + (init_devices 0 0 running).keys.control
          + (init_devices 0 0 running).keys.alt
          + (init_devices 0 0 running).keys.caps
        ≡ 0)
    × ((init_devices 0 0 running).pid_array 4 ≡ 0)
init_devices_lem_example =
    init_devices_lem 0 0 8 4 running refl refl (omega arith) (omega arith) (omega arith)

-- Started by something that is not a Multiboot loader.
abbrev no_info : MultibootInfo
no_info = record {
  flags = 0;
  mem_lower = 0;
  mem_upper = 0;
  boot_device = 0;
  cmdline = [];
  modules = [];
  elf_num = 0;
  elf_size = 0;
  elf_addr = 0;
  elf_shndx = 0;
  mmap_length = 0;
  mmap_addr = 0;
  mmap = [];
}

abbrev no_conversion : ℕ → ℕ
no_conversion i = 0

IsZeroed-running : IsZeroed running
IsZeroed-running = record { zeros = λ i. refl; first_active = refl; first_displayed = refl }

stops :
    (k' : Kernel) × (entry no_conversion 0 0 frame_one dentry_zero 1 no_info running
      ≡ some (Booted.stopped, k'))
unfolding entry say printf printf_from convert
stops = (_, refl)

entry-Reach-IsSound_example : IsSound (rtc_intr (rtc_intr stops.0))
entry-Reach-IsSound_example =
    entry-Reach-IsSound no_conversion 0 0 frame_one dentry_zero 1 no_info Booted.stopped running
      stops.0 (rtc_intr (rtc_intr stops.0)) IsZeroed-running stops.1
      (Reach.later (Reach.later Reach.here Step.clock) Step.clock)
