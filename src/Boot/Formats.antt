-- ===== src/Boot/Formats.antt =====
-- The formats of `entry` in student-distrib/kernel.c.
use mini_os_with_friends.Base.{ℕ, List, [], ◌∷◌}

abbrev pub bad_magic_format : List ℕ
bad_magic_format =
    b'I' ∷ b'n' ∷ b'v' ∷ b'a' ∷ b'l' ∷ b'i' ∷ b'd' ∷ b' ' ∷ b'm' ∷ b'a' ∷ b'g' ∷ b'i' ∷ b'c' ∷ b' '
    ∷ b'n' ∷ b'u' ∷ b'm' ∷ b'b' ∷ b'e' ∷ b'r' ∷ b':' ∷ b' ' ∷ b'0' ∷ b'x' ∷ b'%' ∷ b'#' ∷ b'x'
    ∷ 0x0A ∷ []

abbrev pub flags_format : List ℕ
flags_format =
    b'f' ∷ b'l' ∷ b'a' ∷ b'g' ∷ b's' ∷ b' ' ∷ b'=' ∷ b' ' ∷ b'0' ∷ b'x' ∷ b'%' ∷ b'#' ∷ b'x' ∷ 0x0A
    ∷ []

abbrev pub mem_format : List ℕ
mem_format =
    b'm' ∷ b'e' ∷ b'm' ∷ b'_' ∷ b'l' ∷ b'o' ∷ b'w' ∷ b'e' ∷ b'r' ∷ b' ' ∷ b'=' ∷ b' ' ∷ b'%' ∷ b'u'
    ∷ b'K' ∷ b'B' ∷ b',' ∷ b' ' ∷ b'm' ∷ b'e' ∷ b'm' ∷ b'_' ∷ b'u' ∷ b'p' ∷ b'p' ∷ b'e' ∷ b'r'
    ∷ b' ' ∷ b'=' ∷ b' ' ∷ b'%' ∷ b'u' ∷ b'K' ∷ b'B' ∷ 0x0A ∷ []

abbrev pub boot_device_format : List ℕ
boot_device_format =
    b'b' ∷ b'o' ∷ b'o' ∷ b't' ∷ b'_' ∷ b'd' ∷ b'e' ∷ b'v' ∷ b'i' ∷ b'c' ∷ b'e' ∷ b' ' ∷ b'=' ∷ b' '
    ∷ b'0' ∷ b'x' ∷ b'%' ∷ b'#' ∷ b'x' ∷ 0x0A ∷ []

abbrev pub cmdline_format : List ℕ
cmdline_format =
    b'c' ∷ b'm' ∷ b'd' ∷ b'l' ∷ b'i' ∷ b'n' ∷ b'e' ∷ b' ' ∷ b'=' ∷ b' ' ∷ b'%' ∷ b's' ∷ 0x0A ∷ []

abbrev pub module_loaded_format : List ℕ
module_loaded_format =
    b'M' ∷ b'o' ∷ b'd' ∷ b'u' ∷ b'l' ∷ b'e' ∷ b' ' ∷ b'%' ∷ b'd' ∷ b' ' ∷ b'l' ∷ b'o' ∷ b'a' ∷ b'd'
    ∷ b'e' ∷ b'd' ∷ b' ' ∷ b'a' ∷ b't' ∷ b' ' ∷ b'a' ∷ b'd' ∷ b'd' ∷ b'r' ∷ b'e' ∷ b's' ∷ b's'
    ∷ b':' ∷ b' ' ∷ b'0' ∷ b'x' ∷ b'%' ∷ b'#' ∷ b'x' ∷ 0x0A ∷ []

abbrev pub module_ends_format : List ℕ
module_ends_format =
    b'M' ∷ b'o' ∷ b'd' ∷ b'u' ∷ b'l' ∷ b'e' ∷ b' ' ∷ b'%' ∷ b'd' ∷ b' ' ∷ b'e' ∷ b'n' ∷ b'd' ∷ b's'
    ∷ b' ' ∷ b'a' ∷ b't' ∷ b' ' ∷ b'a' ∷ b'd' ∷ b'd' ∷ b'r' ∷ b'e' ∷ b's' ∷ b's' ∷ b':' ∷ b' '
    ∷ b'0' ∷ b'x' ∷ b'%' ∷ b'#' ∷ b'x' ∷ 0x0A ∷ []

abbrev pub first_few_format : List ℕ
first_few_format =
    b'F' ∷ b'i' ∷ b'r' ∷ b's' ∷ b't' ∷ b' ' ∷ b'f' ∷ b'e' ∷ b'w' ∷ b' ' ∷ b'b' ∷ b'y' ∷ b't' ∷ b'e'
    ∷ b's' ∷ b' ' ∷ b'o' ∷ b'f' ∷ b' ' ∷ b'm' ∷ b'o' ∷ b'd' ∷ b'u' ∷ b'l' ∷ b'e' ∷ b':' ∷ 0x0A ∷ []

abbrev pub byte_format : List ℕ
byte_format = b'0' ∷ b'x' ∷ b'%' ∷ b'x' ∷ b' ' ∷ []

abbrev pub newline_format : List ℕ
newline_format = 0x0A ∷ []

abbrev pub both_bits_format : List ℕ
both_bits_format =
    b'B' ∷ b'o' ∷ b't' ∷ b'h' ∷ b' ' ∷ b'b' ∷ b'i' ∷ b't' ∷ b's' ∷ b' ' ∷ b'4' ∷ b' ' ∷ b'a' ∷ b'n'
    ∷ b'd' ∷ b' ' ∷ b'5' ∷ b' ' ∷ b'a' ∷ b'r' ∷ b'e' ∷ b' ' ∷ b's' ∷ b'e' ∷ b't' ∷ b'.' ∷ 0x0A ∷ []

abbrev pub elf_sec_format : List ℕ
elf_sec_format =
    b'e' ∷ b'l' ∷ b'f' ∷ b'_' ∷ b's' ∷ b'e' ∷ b'c' ∷ b':' ∷ b' ' ∷ b'n' ∷ b'u' ∷ b'm' ∷ b' ' ∷ b'='
    ∷ b' ' ∷ b'%' ∷ b'u' ∷ b',' ∷ b' ' ∷ b's' ∷ b'i' ∷ b'z' ∷ b'e' ∷ b' ' ∷ b'=' ∷ b' ' ∷ b'0'
    ∷ b'x' ∷ b'%' ∷ b'#' ∷ b'x' ∷ b',' ∷ b' ' ∷ b'a' ∷ b'd' ∷ b'd' ∷ b'r' ∷ b' ' ∷ b'=' ∷ b' '
    ∷ b'0' ∷ b'x' ∷ b'%' ∷ b'#' ∷ b'x' ∷ b',' ∷ b' ' ∷ b's' ∷ b'h' ∷ b'n' ∷ b'd' ∷ b'x' ∷ b' '
    ∷ b'=' ∷ b' ' ∷ b'0' ∷ b'x' ∷ b'%' ∷ b'#' ∷ b'x' ∷ 0x0A ∷ []

abbrev pub mmap_format : List ℕ
mmap_format =
    b'm' ∷ b'm' ∷ b'a' ∷ b'p' ∷ b'_' ∷ b'a' ∷ b'd' ∷ b'd' ∷ b'r' ∷ b' ' ∷ b'=' ∷ b' ' ∷ b'0' ∷ b'x'
    ∷ b'%' ∷ b'#' ∷ b'x' ∷ b',' ∷ b' ' ∷ b'm' ∷ b'm' ∷ b'a' ∷ b'p' ∷ b'_' ∷ b'l' ∷ b'e' ∷ b'n'
    ∷ b'g' ∷ b't' ∷ b'h' ∷ b' ' ∷ b'=' ∷ b' ' ∷ b'0' ∷ b'x' ∷ b'%' ∷ b'x' ∷ 0x0A ∷ []

abbrev pub mmap_entry_format : List ℕ
mmap_entry_format =
    b' ' ∷ b' ' ∷ b' ' ∷ b' ' ∷ b's' ∷ b'i' ∷ b'z' ∷ b'e' ∷ b' ' ∷ b'=' ∷ b' ' ∷ b'0' ∷ b'x' ∷ b'%'
    ∷ b'x' ∷ b',' ∷ b' ' ∷ b'b' ∷ b'a' ∷ b's' ∷ b'e' ∷ b'_' ∷ b'a' ∷ b'd' ∷ b'd' ∷ b'r' ∷ b' '
    ∷ b'=' ∷ b' ' ∷ b'0' ∷ b'x' ∷ b'%' ∷ b'#' ∷ b'x' ∷ b'%' ∷ b'#' ∷ b'x' ∷ 0x0A ∷ b' ' ∷ b' '
    ∷ b' ' ∷ b' ' ∷ b't' ∷ b'y' ∷ b'p' ∷ b'e' ∷ b' ' ∷ b'=' ∷ b' ' ∷ b'0' ∷ b'x' ∷ b'%' ∷ b'x'
    ∷ b',' ∷ b' ' ∷ b' ' ∷ b'l' ∷ b'e' ∷ b'n' ∷ b'g' ∷ b't' ∷ b'h' ∷ b' ' ∷ b' ' ∷ b' ' ∷ b' '
    ∷ b'=' ∷ b' ' ∷ b'0' ∷ b'x' ∷ b'%' ∷ b'#' ∷ b'x' ∷ b'%' ∷ b'#' ∷ b'x' ∷ 0x0A ∷ []

abbrev pub testing_cleared_format : List ℕ
testing_cleared_format =
    b'(' ∷ b'T' ∷ b'E' ∷ b'S' ∷ b'T' ∷ b'I' ∷ b'N' ∷ b'G' ∷ b' ' ∷ b'F' ∷ b'L' ∷ b'A' ∷ b'G' ∷ b' '
    ∷ b'C' ∷ b'L' ∷ b'E' ∷ b'A' ∷ b'R' ∷ b'E' ∷ b'D' ∷ b')' ∷ 0x0A ∷ []
