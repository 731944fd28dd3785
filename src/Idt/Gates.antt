-- ===== src/Idt/Gates.antt =====
-- Which gates of the interrupt descriptor table are open, and to whom.
use mini_os_with_friends.Base.{
  ℕ, zero, suc, lt→ltb, ◌+◌, ◌*◌, ◌<◌, ◌≡◌, Bool, true, false, ◌==◌, ◌||◌, ◌&&◌, not, List, [], ◌∷◌,
  ◌%◌, ◌/◌, refl, sym, ap, ◌∙◌, ltb, leb, if◌then◌else◌, arith,
}
use native.Mathlib.Decide.{ℕ_discrete}
use mini_os_with_friends.Base.Maps.{update}
use mini_os_with_friends.Base.Bits.{all_below, all_below_sound}
use mini_os_with_friends.Base.Loops.{for_range}
use mini_os_with_friends.Idt.{
  IdtDesc, vectors, init_idt, init_entry, set_idt_entry, set_handlers, vector_system, vector_rtc,
  vector_pit, vector_keyboard,
}

-- The vectors of the exceptions, of the three devices and of the system call.
abbrev pub has_handler : ℕ → Bool
has_handler v =
    ltb v 0x0F
    || (ltb 0x0F v && ltb v 0x14)
    || v == vector_system
    || v == vector_keyboard
    || v == vector_rtc
    || v == vector_pit

abbrev among : ℕ → List ℕ → Bool
among v [] = false
among v (w ∷ ws) = w == v || among v ws

same_bit : Bool → Bool → Bool
same_bit a b = if a then b else not b

same_bit_sound : (a b : Bool) → same_bit a b ≡ true → a ≡ b
unfolding same_bit
same_bit_sound true b e = sym e
same_bit_sound false true e = e
same_bit_sound false false e = refl

vectors_lem : (v : ℕ) → v < 256 → among v vectors ≡ has_handler v
unfolding all_below same_bit
vectors_lem v lt =
    same_bit_sound (among v vectors) (has_handler v)
      (all_below_sound 256 (λ v. same_bit (among v vectors) (has_handler v)) v refl lt)

-- A gate that is filled, and one that is not.
record Filled (v : ℕ) (handler : ℕ → ℕ) (d d' : IdtDesc) (is_in : Bool) : Type 0 where
  present : d'.present ≡ (if is_in then 1 else d.present)
  dpl : d'.dpl ≡ d.dpl
  low : d'.offset_15_00 ≡ (if is_in then handler v % 65536 else d.offset_15_00)
  high : d'.offset_31_16 ≡ (if is_in then handler v / 65536 % 65536 else d.offset_31_16)

set_handlers-Filled :
    (v : ℕ) (handler : ℕ → ℕ) (vs : List ℕ) (idt : ℕ → IdtDesc)
    → Filled v handler (idt v) (set_handlers handler vs idt v) (among v vs)
unfolding set_handlers set_idt_entry
set_handlers-Filled v handler [] idt = record {
  present = refl;
  dpl = refl;
  low = refl;
  high = refl;
}
set_handlers-Filled v handler (w ∷ ws) idt =
    let rest =
      set_handlers-Filled v handler ws (update idt w (set_idt_entry (handler w) (idt w))) in
    record {
      present = rest.present ∙ ground arith;
      dpl = rest.dpl ∙ ground arith;
      low = rest.low ∙ ground arith;
      high = rest.high ∙ ground arith;
    }

-- The loop visits each of its indices once.
inited :
    (v n i : ℕ) (idt : ℕ → IdtDesc)
    → for_range n i (λ i (t : ℕ → IdtDesc). update t i (init_entry i (t i))) idt v
      ≡ (if leb i v && ltb v (i + n) then init_entry v (idt v) else idt v)
unfolding for_range
inited v zero i idt = ground arith
inited v (suc n) i idt = elim (ℕ_discrete i v) [
  | yes e ↦ inited v n (i + 1) (update idt i (init_entry i (idt i))) ∙ ground arith
  | no ne ↦ inited v n (i + 1) (update idt i (init_entry i (idt i))) ∙ ground arith
]

cleared_entry :
    (v : ℕ) (idt : ℕ → IdtDesc)
    → v < 256
    → for_range 256 0 (λ i (t : ℕ → IdtDesc). update t i (init_entry i (t i))) idt v
      ≡ init_entry v (idt v)
cleared_entry v idt lt = inited v 256 0 idt ∙ ground (arith, lt→ltb v 256)

-- Every vector below 256 is present exactly if it is an exception other than number 15, up to number
-- 19, a device or the system call; if it is, its two halves make up the address of its handler; only the system call
-- may be called by user programs.
pub init_idt_lem :
    (v : ℕ) (handler : ℕ → ℕ) (idt : ℕ → IdtDesc)
    → v < 256
    → handler v < 0x100000000
    → ((init_idt handler idt v).present ≡ (if has_handler v then 1 else 0))
      × ((init_idt handler idt v).dpl ≡ (if v == vector_system then 3 else 0))
      × (has_handler v ≡ true
          → (init_idt handler idt v).offset_31_16 * 65536 + (init_idt handler idt v).offset_15_00
            ≡ handler v)
unfolding init_idt init_entry
init_idt_lem v handler idt lt small =
    let cleared = for_range 256 0 (λ i (t : ℕ → IdtDesc). update t i (init_entry i (t i))) idt in
    let f = set_handlers-Filled v handler vectors cleared in
    let c = cleared_entry v idt lt in
    let is_in = vectors_lem v lt in
    (
      ground (
        arith,
        f.present,
        ap IdtDesc.present c,
        is_in,
        set_handlers-Filled vector_system handler vectors cleared,
      ),
      ground (arith, f.dpl, ap IdtDesc.dpl c),
      λ has. ground (arith, f.low, f.high, is_in),
    )
