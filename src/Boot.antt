-- ===== src/Boot.antt =====
-- `entry` of student-distrib/kernel.c, which the boot loader's jump leads to. What the loader passes is a
-- record of the Multiboot structures (student-distrib/multiboot.h), with the lists that its pointers
-- lead to. The descriptors of the LDT and the TSS are not modelled, and the operation tables are the
-- cases of `read_entry`, `write_entry` and `close_entry` in Syscall.antt.
mod Formats
pub mod Sound
pub mod Devices
use mini_os_with_friends.Base.{
  ℕ, zero, suc, ◌+◌, ◌^◌, ◌&&◌, Bool, Option, none, some, List, [], ◌∷◌, ◌==◌, ◌!=◌, bit_and,
  if◌then◌else◌, sign_extend8,
}
use mini_os_with_friends.State.{Kernel}
use mini_os_with_friends.Memory.{word_at}
use mini_os_with_friends.Paging.{init_paging, init_process_id_array}
use mini_os_with_friends.Pic.{sti, i8259_init}
use mini_os_with_friends.Screen.{clear}
use mini_os_with_friends.FileSystem.{Dentry}
use mini_os_with_friends.Rtc.{init_rtc}
use mini_os_with_friends.Pit.{init_pit}
use mini_os_with_friends.Keyboard.{keyboard_init}
use mini_os_with_friends.Process.{Outcome, Frame, kernel_ds}
use mini_os_with_friends.Terminal.{init_terminals}
use mini_os_with_friends.Printf.{Arg, printf}
use mini_os_with_friends.Boot.Formats

-- `module_t`, and the bytes at its start
pub record Module : Type 0 where
  pub mod_start : ℕ
  pub mod_end : ℕ
  pub bytes : ℕ → ℕ

-- `memory_map_t`
pub record MemoryMap : Type 0 where
  pub size : ℕ
  pub base_addr_low : ℕ
  pub base_addr_high : ℕ
  pub length_low : ℕ
  pub length_high : ℕ
  pub type : ℕ

-- `multiboot_info_t`, with the string, the modules and the map that it points to
pub record MultibootInfo : Type 0 where
  pub flags : ℕ
  pub mem_lower : ℕ
  pub mem_upper : ℕ
  pub boot_device : ℕ
  pub cmdline : List ℕ
  pub modules : List Module
  pub elf_num : ℕ
  pub elf_size : ℕ
  pub elf_addr : ℕ
  pub elf_shndx : ℕ
  pub mmap_length : ℕ
  pub mmap_addr : ℕ
  pub mmap : List MemoryMap

-- `CHECK_FLAG(flags, bit)`
abbrev pub check_flag : (flags bit : ℕ) → Bool
check_flag flags bit = bit_and flags (2 ^ bit) != 0

-- How `entry` ends: it returns to boot.S, it spins, or it leaves by the call that starts the shell.
pub data Booted : Type 0 where
  stopped idle : Booted
  left : Outcome → Booted

-- The rest, after a text that may ask for an argument that it is not given.
abbrev pub after : {A : Type 0} → Option Kernel → (Kernel → Option A) → Option A
after none f = none
after (some k) f = f k

unfoldable pub say : (conv_buf : ℕ → ℕ) → List ℕ → List Arg → Kernel → Option Kernel
say conv_buf format args k = elim (printf conv_buf format args k) [
  | none ↦ none
  | some (n, k1) ↦ some k1
]

-- A text that is printed if a flag is set.
abbrev pub say_if : Bool → (conv_buf : ℕ → ℕ) → List ℕ → List Arg → Kernel → Option Kernel
say_if b conv_buf format args k = if b then say conv_buf format args k else some k

-- The first 16 bytes of a module, from byte `i` on with `n` to go; a `char` is printed as an `int`.
unfoldable pub say_bytes : (conv_buf : ℕ → ℕ) → (n i : ℕ) → (ℕ → ℕ) → Kernel → Option Kernel
say_bytes conv_buf zero i bytes k = some k
say_bytes conv_buf (suc n) i bytes k =
    after (say conv_buf Formats.byte_format (Arg.number (sign_extend8 (bytes i)) ∷ []) k)
      (λ k1. say_bytes conv_buf n (i + 1) bytes k1)

unfoldable pub say_modules :
    (conv_buf : ℕ → ℕ) → (mod_count : ℕ) → List Module → Kernel → Option Kernel
say_modules conv_buf mod_count [] k = some k
say_modules conv_buf mod_count (m ∷ rest) k =
    after
      (say conv_buf Formats.module_loaded_format
        (Arg.number mod_count ∷ Arg.number m.mod_start ∷ []) k)
      (λ k1.
        after
          (say conv_buf Formats.module_ends_format
            (Arg.number mod_count ∷ Arg.number m.mod_end ∷ []) k1)
          (λ k2. after (say conv_buf Formats.first_few_format [] k2) (λ k3.
            after (say_bytes conv_buf 16 0 m.bytes k3) (λ k4.
              after (say conv_buf Formats.newline_format [] k4)
                (λ k5. say_modules conv_buf (mod_count + 1) rest k5)))))

unfoldable pub say_mmap : (conv_buf : ℕ → ℕ) → List MemoryMap → Kernel → Option Kernel
say_mmap conv_buf [] k = some k
say_mmap conv_buf (m ∷ rest) k =
    after
      (say conv_buf Formats.mmap_entry_format
        (Arg.number m.size
          ∷ Arg.number m.base_addr_high
          ∷ Arg.number m.base_addr_low
          ∷ Arg.number m.type
          ∷ Arg.number m.length_high
          ∷ Arg.number m.length_low
          ∷ [])
        k)
      (λ k1. say_mmap conv_buf rest k1)

-- The report as far as the test of bits 4 and 5, and what follows it.
unfoldable pub report_first : (conv_buf : ℕ → ℕ) → MultibootInfo → Kernel → Option Kernel
report_first conv_buf mbi k =
    after (say conv_buf Formats.flags_format (Arg.number mbi.flags ∷ []) k) (λ k1.
      after
        (say_if (check_flag mbi.flags 0) conv_buf Formats.mem_format
          (Arg.number mbi.mem_lower ∷ Arg.number mbi.mem_upper ∷ []) k1)
        (λ k2.
          after
            (say_if (check_flag mbi.flags 1) conv_buf Formats.boot_device_format
              (Arg.number mbi.boot_device ∷ []) k2)
            (λ k3.
              after
                (say_if (check_flag mbi.flags 2) conv_buf Formats.cmdline_format
                  (Arg.text mbi.cmdline ∷ []) k3)
                (λ k4.
                  if check_flag mbi.flags 3
                  then say_modules conv_buf 0 mbi.modules k4
                  else some k4))))

unfoldable pub report_rest : (conv_buf : ℕ → ℕ) → MultibootInfo → Kernel → Option Kernel
report_rest conv_buf mbi k =
    after
      (say_if (check_flag mbi.flags 5) conv_buf Formats.elf_sec_format
        (Arg.number mbi.elf_num
          ∷ Arg.number mbi.elf_size
          ∷ Arg.number mbi.elf_addr
          ∷ Arg.number mbi.elf_shndx
          ∷ [])
        k)
      (λ k1.
        if check_flag mbi.flags 6
        then after
            (say conv_buf Formats.mmap_format
              (Arg.number mbi.mmap_addr ∷ Arg.number mbi.mmap_length ∷ []) k1)
            (λ k2. say_mmap conv_buf mbi.mmap k2)
        else some k1)

-- The parts of the TSS that system calls go by.
unfoldable pub init_tss : Kernel → Kernel
init_tss k = record k { tss_ss0 = kernel_ds; tss_esp0 = 0x800000 }

-- The devices and the memory, in the order of the calls; `regb_data` and `old_reg_a` are what the clock's
-- registers hold.
unfoldable pub init_devices : (regb_data old_reg_a : ℕ) → Kernel → Kernel
init_devices regb_data old_reg_a k = init_pit (
    init_process_id_array
      (keyboard_init (init_rtc regb_data old_reg_a (init_paging (i8259_init (clear k))))))

-- The counts in the boot block.
unfoldable pub init_file_system : Kernel → Kernel
init_file_system k = record k { inodes_count = word_at k.fs 4; data_count_blk = word_at k.fs 8 }

-- What follows the start of the shell of terminal 0: only a return of that call comes back here.
unfoldable pub finish_entry :
    (conv_buf : ℕ → ℕ) → Option (Outcome × Kernel) → Option (Booted × Kernel)
finish_entry conv_buf none = none
finish_entry conv_buf (some (Outcome.returned v, k)) =
    after (say conv_buf Formats.testing_cleared_format [] (sti k)) (λ k1. some (Booted.idle, k1))
finish_entry conv_buf (some (Outcome.entered p s, k)) = some (Booted.left (Outcome.entered p s), k)
finish_entry conv_buf (some (Outcome.resumed v esp ebp, k)) =
    some (Booted.left (Outcome.resumed v esp ebp), k)

-- From the descriptors on.
unfoldable pub start_system :
    (conv_buf : ℕ → ℕ)
    → (regb_data old_reg_a : ℕ) → Frame
    → Dentry
    → Kernel
    → Option (Booted × Kernel)
start_system conv_buf regb_data old_reg_a frame stale k =
    finish_entry conv_buf (
      init_terminals frame stale (init_file_system (init_devices regb_data old_reg_a (init_tss k))))

-- `MULTIBOOT_BOOTLOADER_MAGIC`
abbrev pub multiboot_bootloader_magic : ℕ
multiboot_bootloader_magic = 0x2BADB002

unfoldable pub entry :
    (conv_buf : ℕ → ℕ)
    → (regb_data old_reg_a : ℕ) → Frame
    → Dentry
    → (magic : ℕ) → MultibootInfo
    → Kernel
    → Option (Booted × Kernel)
entry conv_buf regb_data old_reg_a frame stale magic mbi k =
    let k1 = clear k in
    if magic != multiboot_bootloader_magic
    then after (say conv_buf Formats.bad_magic_format (Arg.number magic ∷ []) k1)
        (λ k2. some (Booted.stopped, k2))
    else after (report_first conv_buf mbi k1) (λ k2.
      if check_flag mbi.flags 4 && check_flag mbi.flags 5
      then after (say conv_buf Formats.both_bits_format [] k2) (λ k3. some (Booted.stopped, k3))
      else after (report_rest conv_buf mbi k2)
          (λ k3. start_system conv_buf regb_data old_reg_a frame stale k3))
