-- ===== src/Exceptions.antt =====
-- student-distrib/print_exceptions.c: the handlers of the processor's exceptions. Each prints a line and
-- ends the process; the assembly in exceptions.S that calls them is not modelled.
pub mod Status
use mini_os_with_friends.Base.{ℕ, ◌%◌, Option, none, some, List, [], ◌∷◌}
use mini_os_with_friends.State.{Kernel}
use mini_os_with_friends.FileSystem.{Dentry}
use mini_os_with_friends.Process.{Outcome, Frame, halt_call}
use mini_os_with_friends.Printf.{printf}

-- The handlers, by their names without `handle_`.
pub data Exception : Type 0 where
  divide_error debug_exception nmi_interrupt breakpoint overflow bound_range_exceeded invalid_opcode
        device_not_available double_fault coprocessor_segment_overun invalid_tss_exception
        segment_not_present stack_fault_execption general_protection_exception pagefault mathfault
        alignment_check machine_check simd_flt_pt_exception syscall_handler_pseudo :
      Exception

-- What the handler prints.
unfoldable pub message : Exception → List ℕ
message Exception.divide_error =
    b'D' ∷ b'i' ∷ b'v' ∷ b'i' ∷ b'd' ∷ b'e' ∷ b' ' ∷ b'e' ∷ b'r' ∷ b'r' ∷ b'o' ∷ b'r' ∷ b' ' ∷ b'h'
    ∷ b'a' ∷ b'n' ∷ b'd' ∷ b'l' ∷ b'e' ∷ b'r' ∷ b' ' ∷ b'h' ∷ b'a' ∷ b'p' ∷ b'p' ∷ b'e' ∷ b'n'
    ∷ b'i' ∷ b'n' ∷ b'g' ∷ b' ' ∷ 0x0A ∷ []
message Exception.debug_exception =
    b'D' ∷ b'e' ∷ b'b' ∷ b'u' ∷ b'g' ∷ b' ' ∷ b'e' ∷ b'x' ∷ b'c' ∷ b'e' ∷ b'p' ∷ b't' ∷ b'i' ∷ b'o'
    ∷ b'n' ∷ b' ' ∷ b'h' ∷ b'a' ∷ b'n' ∷ b'd' ∷ b'l' ∷ b'e' ∷ b'r' ∷ b' ' ∷ b'h' ∷ b'a' ∷ b'p'
    ∷ b'p' ∷ b'e' ∷ b'n' ∷ b'i' ∷ b'n' ∷ b'g' ∷ b' ' ∷ 0x0A ∷ []
message Exception.nmi_interrupt =
    b'n' ∷ b'm' ∷ b'i' ∷ b' ' ∷ b'I' ∷ b'n' ∷ b't' ∷ b'e' ∷ b'r' ∷ b'r' ∷ b'u' ∷ b'p' ∷ b't' ∷ b' '
    ∷ b'h' ∷ b'a' ∷ b'n' ∷ b'd' ∷ b'l' ∷ b'e' ∷ b'r' ∷ b' ' ∷ b'h' ∷ b'a' ∷ b'p' ∷ b'p' ∷ b'e'
    ∷ b'n' ∷ b'i' ∷ b'n' ∷ b'g' ∷ b' ' ∷ 0x0A ∷ []
message Exception.breakpoint =
    b'b' ∷ b'r' ∷ b'e' ∷ b'a' ∷ b'k' ∷ b'p' ∷ b'o' ∷ b'i' ∷ b'n' ∷ b't' ∷ b' ' ∷ b' ' ∷ b'h' ∷ b'a'
    ∷ b'n' ∷ b'd' ∷ b'l' ∷ b'e' ∷ b'r' ∷ b' ' ∷ b'h' ∷ b'a' ∷ b'p' ∷ b'p' ∷ b'e' ∷ b'n' ∷ b'i'
    ∷ b'n' ∷ b'g' ∷ b' ' ∷ 0x0A ∷ []
message Exception.overflow =
    b'o' ∷ b'v' ∷ b'e' ∷ b'r' ∷ b'f' ∷ b'l' ∷ b'o' ∷ b'w' ∷ b' ' ∷ b'h' ∷ b'a' ∷ b'n' ∷ b'd' ∷ b'l'
    ∷ b'e' ∷ b'r' ∷ b' ' ∷ b'h' ∷ b'a' ∷ b'p' ∷ b'p' ∷ b'e' ∷ b'n' ∷ b'i' ∷ b'n' ∷ b'g' ∷ b' '
    ∷ 0x0A ∷ []
message Exception.bound_range_exceeded =
    b'b' ∷ b'o' ∷ b'u' ∷ b'n' ∷ b'd' ∷ b' ' ∷ b'r' ∷ b'a' ∷ b'n' ∷ b'g' ∷ b'e' ∷ b' ' ∷ b'e' ∷ b'x'
    ∷ b'c' ∷ b'e' ∷ b'e' ∷ b'd' ∷ b'e' ∷ b'd' ∷ b' ' ∷ b'h' ∷ b'a' ∷ b'n' ∷ b'd' ∷ b'l' ∷ b'e'
    ∷ b'r' ∷ b' ' ∷ b'h' ∷ b'a' ∷ b'p' ∷ b'p' ∷ b'e' ∷ b'n' ∷ b'i' ∷ b'n' ∷ b'g' ∷ b' ' ∷ 0x0A ∷ []
message Exception.invalid_opcode =
    b'i' ∷ b'n' ∷ b'v' ∷ b'a' ∷ b'l' ∷ b'i' ∷ b'd' ∷ b' ' ∷ b'o' ∷ b'p' ∷ b'c' ∷ b'o' ∷ b'd' ∷ b'e'
    ∷ b' ' ∷ b'h' ∷ b'a' ∷ b'n' ∷ b'd' ∷ b'l' ∷ b'e' ∷ b'r' ∷ b' ' ∷ b'h' ∷ b'a' ∷ b'p' ∷ b'p'
    ∷ b'e' ∷ b'n' ∷ b'i' ∷ b'n' ∷ b'g' ∷ b' ' ∷ 0x0A ∷ []
message Exception.device_not_available =
    b' ' ∷ b'D' ∷ b'e' ∷ b'v' ∷ b'i' ∷ b'c' ∷ b'e' ∷ b' ' ∷ b'N' ∷ b'o' ∷ b't' ∷ b' ' ∷ b'A' ∷ b'v'
    ∷ b'a' ∷ b'i' ∷ b'l' ∷ b'a' ∷ b'b' ∷ b'l' ∷ b'e' ∷ b' ' ∷ b'h' ∷ b'a' ∷ b'n' ∷ b'd' ∷ b'l'
    ∷ b'e' ∷ b'r' ∷ b' ' ∷ b'h' ∷ b'a' ∷ b'p' ∷ b'p' ∷ b'e' ∷ b'n' ∷ b'i' ∷ b'n' ∷ b'g' ∷ b' '
    ∷ 0x0A ∷ []
message Exception.double_fault =
    b' ' ∷ b'D' ∷ b'o' ∷ b'u' ∷ b'b' ∷ b'l' ∷ b'e' ∷ b' ' ∷ b'F' ∷ b'a' ∷ b'u' ∷ b'l' ∷ b't' ∷ b' '
    ∷ b'h' ∷ b'a' ∷ b'n' ∷ b'd' ∷ b'l' ∷ b'e' ∷ b'r' ∷ b' ' ∷ b'h' ∷ b'a' ∷ b'p' ∷ b'p' ∷ b'e'
    ∷ b'n' ∷ b'i' ∷ b'n' ∷ b'g' ∷ b' ' ∷ 0x0A ∷ []
message Exception.coprocessor_segment_overun =
    b' ' ∷ b'C' ∷ b'o' ∷ b'p' ∷ b'r' ∷ b'o' ∷ b'c' ∷ b'e' ∷ b's' ∷ b's' ∷ b'o' ∷ b'r' ∷ b' ' ∷ b'S'
    ∷ b'e' ∷ b'g' ∷ b'm' ∷ b'e' ∷ b'n' ∷ b't' ∷ b' ' ∷ b'O' ∷ b'v' ∷ b'e' ∷ b'r' ∷ b'u' ∷ b'n'
    ∷ b' ' ∷ b'h' ∷ b'a' ∷ b'n' ∷ b'd' ∷ b'l' ∷ b'e' ∷ b'r' ∷ b' ' ∷ b'h' ∷ b'a' ∷ b'p' ∷ b'p'
    ∷ b'e' ∷ b'n' ∷ b'i' ∷ b'n' ∷ b'g' ∷ b' ' ∷ 0x0A ∷ []
message Exception.invalid_tss_exception =
    b' ' ∷ b'I' ∷ b'n' ∷ b'v' ∷ b'a' ∷ b'l' ∷ b'i' ∷ b'd' ∷ b' ' ∷ b'T' ∷ b's' ∷ b's' ∷ b' ' ∷ b'E'
    ∷ b'x' ∷ b'c' ∷ b'e' ∷ b'p' ∷ b't' ∷ b'i' ∷ b'o' ∷ b'n' ∷ b' ' ∷ b'h' ∷ b'a' ∷ b'n' ∷ b'd'
    ∷ b'l' ∷ b'e' ∷ b'r' ∷ b' ' ∷ b'h' ∷ b'a' ∷ b'p' ∷ b'p' ∷ b'e' ∷ b'n' ∷ b'i' ∷ b'n' ∷ b'g'
    ∷ b' ' ∷ 0x0A ∷ []
message Exception.segment_not_present =
    b' ' ∷ b'S' ∷ b'e' ∷ b'g' ∷ b'm' ∷ b'e' ∷ b'n' ∷ b't' ∷ b' ' ∷ b'N' ∷ b'o' ∷ b't' ∷ b' ' ∷ b'P'
    ∷ b'r' ∷ b'e' ∷ b's' ∷ b'e' ∷ b'n' ∷ b't' ∷ b' ' ∷ b'h' ∷ b'a' ∷ b'n' ∷ b'd' ∷ b'l' ∷ b'e'
    ∷ b'r' ∷ b' ' ∷ b'h' ∷ b'a' ∷ b'p' ∷ b'p' ∷ b'e' ∷ b'n' ∷ b'i' ∷ b'n' ∷ b'g' ∷ b' ' ∷ 0x0A ∷ []
message Exception.stack_fault_execption =
    b' ' ∷ b'S' ∷ b't' ∷ b'a' ∷ b'c' ∷ b'k' ∷ b' ' ∷ b'F' ∷ b'a' ∷ b'u' ∷ b'l' ∷ b't' ∷ b' ' ∷ b'E'
    ∷ b'x' ∷ b'e' ∷ b'c' ∷ b'p' ∷ b't' ∷ b'i' ∷ b'o' ∷ b'n' ∷ b' ' ∷ b'h' ∷ b'a' ∷ b'n' ∷ b'd'
    ∷ b'l' ∷ b'e' ∷ b'r' ∷ b' ' ∷ b'h' ∷ b'a' ∷ b'p' ∷ b'p' ∷ b'e' ∷ b'n' ∷ b'i' ∷ b'n' ∷ b'g'
    ∷ b' ' ∷ 0x0A ∷ []
message Exception.general_protection_exception =
    b' ' ∷ b' ' ∷ b'G' ∷ b'e' ∷ b'n' ∷ b'e' ∷ b'r' ∷ b'a' ∷ b'l' ∷ b' ' ∷ b'P' ∷ b'r' ∷ b'o' ∷ b't'
    ∷ b'e' ∷ b'c' ∷ b't' ∷ b'i' ∷ b'o' ∷ b'n' ∷ b' ' ∷ b'E' ∷ b'x' ∷ b'c' ∷ b'e' ∷ b'p' ∷ b't'
    ∷ b'i' ∷ b'o' ∷ b'n' ∷ b' ' ∷ b'h' ∷ b'a' ∷ b'n' ∷ b'd' ∷ b'l' ∷ b'e' ∷ b'r' ∷ b' ' ∷ b'h'
    ∷ b'a' ∷ b'p' ∷ b'p' ∷ b'e' ∷ b'n' ∷ b'i' ∷ b'n' ∷ b'g' ∷ b' ' ∷ 0x0A ∷ []
message Exception.pagefault =
    b' ' ∷ b'P' ∷ b'a' ∷ b'g' ∷ b'e' ∷ b' ' ∷ b'f' ∷ b'a' ∷ b'u' ∷ b'l' ∷ b't' ∷ b' ' ∷ b'h' ∷ b'a'
    ∷ b'n' ∷ b'd' ∷ b'l' ∷ b'e' ∷ b'r' ∷ b' ' ∷ b'h' ∷ b'a' ∷ b'p' ∷ b'p' ∷ b'e' ∷ b'n' ∷ b'i'
    ∷ b'n' ∷ b'g' ∷ b' ' ∷ 0x0A ∷ []
message Exception.mathfault =
    b' ' ∷ b'M' ∷ b'a' ∷ b't' ∷ b'h' ∷ b' ' ∷ b'f' ∷ b'a' ∷ b'u' ∷ b'l' ∷ b't' ∷ b' ' ∷ b'h' ∷ b'a'
    ∷ b'n' ∷ b'd' ∷ b'l' ∷ b'e' ∷ b'r' ∷ b' ' ∷ b'h' ∷ b'a' ∷ b'p' ∷ b'p' ∷ b'e' ∷ b'n' ∷ b'i'
    ∷ b'n' ∷ b'g' ∷ b' ' ∷ 0x0A ∷ []
message Exception.alignment_check =
    b' ' ∷ b'A' ∷ b'l' ∷ b'i' ∷ b'g' ∷ b'n' ∷ b'm' ∷ b'e' ∷ b'n' ∷ b't' ∷ b' ' ∷ b'C' ∷ b'h' ∷ b'e'
    ∷ b'c' ∷ b'k' ∷ b' ' ∷ b'h' ∷ b'a' ∷ b'n' ∷ b'd' ∷ b'l' ∷ b'e' ∷ b'r' ∷ b' ' ∷ b'h' ∷ b'a'
    ∷ b'p' ∷ b'p' ∷ b'e' ∷ b'n' ∷ b'i' ∷ b'n' ∷ b'g' ∷ b' ' ∷ 0x0A ∷ []
message Exception.machine_check =
    b' ' ∷ b'M' ∷ b'a' ∷ b'c' ∷ b'h' ∷ b'i' ∷ b'n' ∷ b'e' ∷ b' ' ∷ b'C' ∷ b'h' ∷ b'e' ∷ b'c' ∷ b'k'
    ∷ b' ' ∷ b'h' ∷ b'a' ∷ b'n' ∷ b'd' ∷ b'l' ∷ b'e' ∷ b'r' ∷ b' ' ∷ b'h' ∷ b'a' ∷ b'p' ∷ b'p'
    ∷ b'e' ∷ b'n' ∷ b'i' ∷ b'n' ∷ b'g' ∷ b' ' ∷ 0x0A ∷ []
message Exception.simd_flt_pt_exception =
    b' ' ∷ b'S' ∷ b'i' ∷ b'm' ∷ b'd' ∷ b' ' ∷ b'F' ∷ b'l' ∷ b't' ∷ b' ' ∷ b'P' ∷ b't' ∷ b' ' ∷ b'E'
    ∷ b'x' ∷ b'c' ∷ b'e' ∷ b'p' ∷ b't' ∷ b'i' ∷ b'o' ∷ b'n' ∷ b' ' ∷ b'h' ∷ b'a' ∷ b'n' ∷ b'd'
    ∷ b'l' ∷ b'e' ∷ b'r' ∷ b' ' ∷ b'h' ∷ b'a' ∷ b'p' ∷ b'p' ∷ b'e' ∷ b'n' ∷ b'i' ∷ b'n' ∷ b'g'
    ∷ b' ' ∷ 0x0A ∷ []
message Exception.syscall_handler_pseudo =
    b's' ∷ b'y' ∷ b's' ∷ b't' ∷ b'e' ∷ b'm' ∷ b' ' ∷ b'c' ∷ b'a' ∷ b'l' ∷ b'l' ∷ b' ' ∷ b'h' ∷ b'a'
    ∷ b'p' ∷ b'p' ∷ b'e' ∷ b'n' ∷ b'i' ∷ b'n' ∷ b'g' ∷ b' ' ∷ 0x0A ∷ b' ' ∷ []

-- `Error_code`; the handlers pass it on as a `uint8_t`.
abbrev pub error_code : ℕ
error_code = 256

-- `conv_buf` is what `printf` finds in its buffer.
unfoldable pub handle_exception :
    (conv_buf : ℕ → ℕ) → Frame → Dentry → Exception → Kernel → Option (Outcome × Kernel)
handle_exception conv_buf frame stale e k = elim (printf conv_buf (message e) [] k) [
  | none ↦ none
  | some (n, k1) ↦ halt_call frame stale (error_code % 256) k1
]
