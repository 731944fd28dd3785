-- ===== src/Rtc.antt =====
-- student-distrib/rtc.c: one hardware clock of 1024 Hz, and a slower virtual one for each terminal.
-- What `inb` reads from the CMOS port is an argument.
pub mod Timing
use mathlib.Core.Option
use mini_os_with_friends.Base.{
  ℕ, zero, suc, ◌+◌, ◌/◌, ◌%◌, Option, none, some, bit_and, bit_or, ◌==◌, ltb, if◌then◌else◌, error,
  sub32, lt_signed,
}
use mini_os_with_friends.Base.Loops.{for_range}
use mini_os_with_friends.State.{Terminal, Kernel}
use mini_os_with_friends.Memory.{read_word, set_terminal, active}
use mini_os_with_friends.Pic.{outb, cli, sti, enable_irq, send_eoi}

abbrev pub default_counter : ℕ
default_counter = 512

abbrev pub rtc_irq : ℕ
rtc_irq = 8

abbrev pub rtc_reg_num : ℕ
rtc_reg_num = 0x70

abbrev pub cmos_port : ℕ
cmos_port = 0x71

-- The rate code of a frequency, 0 if the clock does not have that frequency.
unfoldable pub hz_to_bin : ℕ → ℕ
hz_to_bin freq =
    if freq == 1024
    then 0x06
    else if freq == 512
    then 0x07
    else if freq == 256
    then 0x08
    else if freq == 128
    then 0x09
    else if freq == 64
    then 0x0A
    else if freq == 32
    then 0x0B
    else if freq == 16
    then 0x0C
    else if freq == 8
    then 0x0D
    else if freq == 4
    then 0x0E
    else if freq == 2
    then 0x0F
    else 0

unfoldable pub init_freq_hw : ℕ → Kernel → Kernel
init_freq_hw old_reg_a k =
    outb (bit_or (bit_and old_reg_a 0xF0) 0x06) cmos_port
      (outb 0x0A rtc_reg_num (outb 0x0A rtc_reg_num k))

unfoldable pub init_rtc : ℕ → ℕ → Kernel → Kernel
init_rtc regb_data old_reg_a k =
    let k1 = outb 0x0B rtc_reg_num (outb 0x0B rtc_reg_num (cli k)) in
    let k2 = enable_irq rtc_irq (outb (bit_or regb_data 0x40) cmos_port k1) in
    sti (init_freq_hw old_reg_a k2)

unfoldable pub change_freq_virt : ℕ → Kernel → Kernel
unfolding hz_to_bin
change_freq_virt freq k =
    if hz_to_bin freq == 0
    then k
    else set_terminal k.active_terminal
        (record (active k) { rtc_counter = 1024 / freq; rtc_target = 1024 / freq }) k

-- The body of the loop in `rtc_intr`. The counter is unsigned, so `<= 0` holds at 0 alone.
unfoldable pub tick : Terminal → Terminal
tick t =
    if t.init_flag == 1
    then (if sub32 t.rtc_counter 1 == 0
        then record t { rtc_flag = 0; rtc_counter = t.rtc_target }
        else record t { rtc_counter = sub32 t.rtc_counter 1 })
    else t

unfoldable pub rtc_intr : Kernel → Kernel
unfolding for_range
rtc_intr k =
    let ticked = for_range 3 0 (λ i (k : Kernel). set_terminal i (tick (k.terminal i)) k) (cli k) in
    sti (send_eoi rtc_irq (outb 0x0C rtc_reg_num ticked))

unfoldable pub rtc_open : ℕ → Kernel → ℕ × Kernel
rtc_open old_reg_a k = (0, change_freq_virt 2 (init_freq_hw old_reg_a k))

unfoldable pub rtc_close : Kernel → ℕ × Kernel
rtc_close k = (0, k)

-- `while (terminal[active_terminal].rtc_flag == 1);` while the clock interrupts `ticks` times, and
-- nothing else happens. `none`: the loop still runs after the last of them.
unfoldable pub rtc_wait : ℕ → Kernel → Option Kernel
rtc_wait zero k = if (active k).rtc_flag == 1 then none else some k
rtc_wait (suc ticks) k =
    let rest = rtc_wait ticks (rtc_intr k) in if (active k).rtc_flag == 1 then rest else some k

-- What precedes the wait.
abbrev pub start_wait : Kernel → Kernel
start_wait k = set_terminal k.active_terminal (record (active k) { rtc_flag = 1 }) k

unfoldable pub rtc_read : ℕ → Kernel → Option (ℕ × Kernel)
rtc_read ticks k = Option.map (λ k'. (0, k')) (rtc_wait ticks (start_wait k))

-- The frequency is the word at `buf`; a null pointer is 0.
unfoldable pub rtc_write : ℕ → Kernel → ℕ × Kernel
rtc_write buf k =
    if buf == 0
    then (error, k)
    else (let freq = read_word k buf in
        if hz_to_bin freq == 0 then (error, k) else (4, change_freq_virt freq k))
