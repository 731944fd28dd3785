-- ===== src/Memory.antt =====
-- Bytes of memory as the kernel's C code reads and writes them, through the page tables, and the
-- slots of the arrays of structs. `memcpy` is the one of student-distrib/lib.c.
pub mod Blocks
use mini_os_with_friends.Base.{ℕ, ◌+◌, ◌*◌}
use mini_os_with_friends.Base.Maps.{update}
use mini_os_with_friends.Base.Loops.{for_range}
use mini_os_with_friends.State.{Terminal, Pcb, Kernel}
use mini_os_with_friends.Paging.{translate}

abbrev pub read_byte : Kernel → ℕ → ℕ
read_byte k a = k.mem (translate k.paging a)

abbrev pub write_byte : ℕ → ℕ → Kernel → Kernel
write_byte a v k = record k { mem = update k.mem (translate k.paging a) v }

-- A little-endian word, of any map of bytes.
abbrev pub word_at : (ℕ → ℕ) → ℕ → ℕ
word_at f a = f a + 256 * f (a + 1) + 65536 * f (a + 2) + 16777216 * f (a + 3)

abbrev pub read_word : Kernel → ℕ → ℕ
read_word k a = word_at (λ b. read_byte k b) a

-- `memcpy(dest, src, n)` within the memory of the kernel: ascending bytes.
unfoldable pub memcpy : ℕ → ℕ → ℕ → (ℕ → ℕ) → ℕ → ℕ
unfolding for_range
memcpy dest src n mem = for_range n 0 (λ i (m : ℕ → ℕ). update m (dest + i) (m (src + i))) mem

-- `terminal[i] = t` and `*(pcb_t *)addr = p`
abbrev pub set_terminal : ℕ → Terminal → Kernel → Kernel
set_terminal i t k = record k { terminal = update k.terminal i t }

abbrev pub set_pcb : ℕ → Pcb → Kernel → Kernel
set_pcb addr p k = record k { pcb = update k.pcb addr p }

-- `terminal[active_terminal]`
abbrev pub active : Kernel → Terminal
active k = k.terminal k.active_terminal
