-- ===== src/Pic.antt =====
-- student-distrib/i8259.c: the masks and the commands of the two interrupt controllers.
pub mod Masks
use mini_os_with_friends.Base.{
  ℕ, ◌-◌, ◌^◌, bit_and, bit_or, Bool, true, false, ◌∷◌, ltb, leb, if◌then◌else◌,
}
use mini_os_with_friends.State.{Pic, Kernel}

abbrev pub master_port : ℕ
master_port = 0x20

abbrev pub slave_port : ℕ
slave_port = 0xA0

abbrev pub master_data : ℕ
master_data = 0x21

abbrev pub slave_data : ℕ
slave_data = 0xA1

-- The line of the master that the slave is connected to.
abbrev pub slave_irq : ℕ
slave_irq = 2

-- `outb(value, port)`
abbrev pub outb : ℕ → ℕ → Kernel → Kernel
outb value port k = record k { ports = (port, value) ∷ k.ports }

abbrev pub cli : Kernel → Kernel
cli k = record k { interrupts = false }

abbrev pub sti : Kernel → Kernel
sti k = record k { interrupts = true }

-- `~(1 << irq) & mask` and `(1 << irq) | mask`, stored in a `uint8_t`
unfoldable pub unmask_bit : ℕ → ℕ → ℕ
unmask_bit irq mask = bit_and (255 - 2 ^ irq) mask

unfoldable pub mask_bit : ℕ → ℕ → ℕ
mask_bit irq mask = bit_or (2 ^ irq) mask

unfoldable pub enable_irq : ℕ → Kernel → Kernel
enable_irq irq_num k =
    if leb 16 irq_num
    then k
    else if ltb irq_num 8
    then (let value = unmask_bit irq_num k.pic.master_mask in
        outb value master_data
          (record k { pic = record { master_mask = value; slave_mask = k.pic.slave_mask } }))
    else (let value = unmask_bit (irq_num - 8) k.pic.slave_mask in
        outb value slave_data
          (record k { pic = record { master_mask = k.pic.master_mask; slave_mask = value } }))

unfoldable pub disable_irq : ℕ → Kernel → Kernel
disable_irq irq_num k =
    if leb 16 irq_num
    then k
    else if ltb irq_num 8
    then (let value = mask_bit irq_num k.pic.master_mask in
        outb value master_data
          (record k { pic = record { master_mask = value; slave_mask = k.pic.slave_mask } }))
    else (let value = mask_bit (irq_num - 8) k.pic.slave_mask in
        outb value slave_data
          (record k { pic = record { master_mask = k.pic.master_mask; slave_mask = value } }))

-- The end-of-interrupt byte is `EOI | irq`; an interrupt of the slave is ended on both controllers.
unfoldable pub send_eoi : ℕ → Kernel → Kernel
send_eoi irq_num k =
    if leb 16 irq_num
    then k
    else if leb 8 irq_num
    then outb (bit_or 0x60 slave_irq) master_port (outb (bit_or 0x60 (irq_num - 8)) slave_port k)
    else outb (bit_or 0x60 irq_num) master_port k

unfoldable pub i8259_init : Kernel → Kernel
unfolding enable_irq
i8259_init k =
    let k1 = outb 0x11 slave_port (outb 0x11 master_port (cli k)) in
    let k2 = outb 0x28 slave_data (outb 0x20 master_data k1) in
    let k3 = outb 0x02 slave_data (outb 0x04 master_data k2) in
    let k4 = outb 0x01 slave_data (outb 0x01 master_data k3) in sti (enable_irq slave_irq k4)
