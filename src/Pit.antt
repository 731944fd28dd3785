-- ===== src/Pit.antt =====
-- student-distrib/pit.c: the timer, and the round-robin scheduler of its interrupt.
pub mod Schedule
pub mod Pages
pub mod Reads
use mini_os_with_friends.Base.{
  ℕ, ◌+◌, ◌*◌, ◌/◌, ◌%◌, ◌&&◌, Bool, Option, none, some, bit_and, ◌==◌, if◌then◌else◌,
}
use mathlib.Core.Option
use mini_os_with_friends.State.{Pcb, Kernel}
use mini_os_with_friends.Memory.{set_pcb, active}
use mini_os_with_friends.Paging.{get_pcb_blk, remap_video_mem_user, virt_to_phys_user}
use mini_os_with_friends.Pic.{outb, cli, sti, enable_irq, send_eoi}
use mini_os_with_friends.FileSystem.{Dentry}
use mini_os_with_friends.Process.{Outcome, Frame, execute_call, shell_command, set_tss}
use mini_os_with_friends.Terminal.{ignore_result}

abbrev pub pit_irq : ℕ
pit_irq = 0

unfoldable pub pit_change_freq : ℕ → Kernel → Kernel
pit_change_freq freq k =
    let divisor = 1193180 / freq in
    outb (divisor / 256 % 256) 0x40 (outb (divisor % 256) 0x40 (outb 0x36 0x43 k))

unfoldable pub init_pit : Kernel → Kernel
init_pit k = sti (pit_change_freq 100 (enable_irq pit_irq (cli k)))

-- What the interrupt does with the processor: it leaves as a call does, or by the `leave` and `ret` of
-- another process's frame.
pub data Switch : Type 0 where
  left : Outcome → Switch
  switched : (esp ebp : ℕ) → Switch

-- The registers go to the PCB of the process that runs.
unfoldable pub save_context : (esp ebp : ℕ) → Kernel → Kernel
save_context esp ebp k =
    let addr = get_pcb_blk (active k).pid in
    set_pcb addr (record (k.pcb addr) { active_ebp = ebp; active_esp = esp }) k

-- The turn goes to the next terminal. `active_terminal` is never negative.
unfoldable pub next_terminal : Kernel → Kernel
next_terminal k =
    let next = (k.active_terminal + 1) % 3 in
    remap_video_mem_user next (record k { active_terminal = next })

-- A shell is started in a terminal that has none yet.
unfoldable pub start_shell : Frame → Dentry → (esp ebp : ℕ) → Kernel → Option (Switch × Kernel)
start_shell frame stale esp ebp k =
    Option.map (λ (o, k1). (Switch.left o, k1))
      (ignore_result
        (execute_call frame stale shell_command (next_terminal (save_context esp ebp k))))

-- The process of the next terminal goes on where it was interrupted.
unfoldable pub switch_process : (esp ebp : ℕ) → Kernel → Switch × Kernel
switch_process esp ebp k =
    let k1 = next_terminal (save_context esp ebp (record k { done_init_terminal = 1 })) in
    let k2 = virt_to_phys_user (active k1).pid k1 in
    let next = k2.pcb (get_pcb_blk (active k2).pid) in
    (Switch.switched next.active_esp next.active_ebp, set_tss (active k2).pid k2)

-- `terminal[i].init_flag == v`
abbrev pub init_is : ℕ → ℕ → Kernel → Bool
init_is i v k = (k.terminal i).init_flag == v

unfoldable pub pit_intr : Frame → Dentry → (esp ebp : ℕ) → Kernel → Option (Switch × Kernel)
pit_intr frame stale esp ebp k0 =
    let k = send_eoi pit_irq k0 in
    if init_is 0 0 k
    then some (Switch.left (Outcome.returned 0), k)
    else if init_is 0 1 k && init_is 1 0 k && init_is 2 0 k && k.init_count == 0
    then start_shell frame stale esp ebp (record k { init_count = 1 })
    else if init_is 0 1 k && init_is 1 1 k && init_is 2 0 k && k.init_count == 1
    then start_shell frame stale esp ebp (record k { init_count = 2 })
    else some (switch_process esp ebp k)
