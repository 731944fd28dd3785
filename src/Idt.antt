-- ===== src/Idt.antt =====
-- student-distrib/idt.c: the interrupt descriptor table. The addresses of the handlers, which the linker
-- chooses, are an argument.
pub mod Gates
use mini_os_with_friends.Base.{
  ℕ, zero, suc, ◌+◌, ◌/◌, ◌%◌, ◌&&◌, Bool, true, false, List, [], ◌∷◌, ◌==◌, leb, if◌then◌else◌,
}
use mini_os_with_friends.Base.Maps.{update}
use mini_os_with_friends.Base.Loops.{for_range}

-- `idt_desc_t`
pub record IdtDesc : Type 0 where
  pub offset_15_00 : ℕ
  pub seg_selector : ℕ
  pub reserved4 : ℕ
  pub reserved3 : ℕ
  pub reserved2 : ℕ
  pub reserved1 : ℕ
  pub size : ℕ
  pub reserved0 : ℕ
  pub dpl : ℕ
  pub present : ℕ
  pub offset_31_16 : ℕ

abbrev pub vector_system : ℕ
vector_system = 0x80

abbrev pub vector_rtc : ℕ
vector_rtc = 0x28

abbrev pub vector_pit : ℕ
vector_pit = 0x20

abbrev pub vector_keyboard : ℕ
vector_keyboard = 0x21

-- The body of the loop: an entry that is not present.
unfoldable pub init_entry : ℕ → IdtDesc → IdtDesc
init_entry i d = record {
  offset_15_00 = d.offset_15_00;
  seg_selector = 0x0010;
  reserved4 = 0;
  reserved3 = if leb 0x20 i && leb i 0x2F then 1 else 0;
  reserved2 = 1;
  reserved1 = 1;
  size = 1;
  reserved0 = 0;
  dpl = if i == vector_system then 3 else 0;
  present = 0;
  offset_31_16 = d.offset_31_16;
}

-- `SET_IDT_ENTRY`
unfoldable pub set_idt_entry : ℕ → IdtDesc → IdtDesc
set_idt_entry handler d = record d {
  offset_31_16 = handler / 65536 % 65536;
  offset_15_00 = handler % 65536;
  present = 1;
}

-- The vectors that get a handler, in the order of the code.
abbrev pub vectors : List ℕ
vectors =
    0x00 ∷ 0x01 ∷ 0x02 ∷ 0x03 ∷ 0x04 ∷ 0x05 ∷ 0x06 ∷ 0x07 ∷ 0x08 ∷ 0x09 ∷ 0x0A ∷ 0x0B ∷ 0x0C ∷ 0x0D
    ∷ 0x0E ∷ 0x10 ∷ 0x11 ∷ 0x12 ∷ 0x13 ∷ vector_system ∷ vector_keyboard ∷ vector_rtc ∷ vector_pit
    ∷ []

unfoldable pub set_handlers : (ℕ → ℕ) → List ℕ → (ℕ → IdtDesc) → ℕ → IdtDesc
set_handlers handler [] idt = idt
set_handlers handler (v ∷ vs) idt =
    set_handlers handler vs (update idt v (set_idt_entry (handler v) (idt v)))

unfoldable pub init_idt : (handler : ℕ → ℕ) → (ℕ → IdtDesc) → ℕ → IdtDesc
init_idt handler idt =
    let cleared = for_range 256 0 (λ i (t : ℕ → IdtDesc). update t i (init_entry i (t i))) idt in
    let filled = set_handlers handler vectors cleared in
    update filled vector_system (record (filled vector_system) { dpl = 3; present = 1 })
