-- ===== src/Pic/Masks.antt =====
-- What the mask functions of i8259.c do to each of the sixteen lines.
use mini_os_with_friends.Base.{
  ℕ, ◌-◌, ◌/◌, ◌%◌, ◌^◌, ◌<◌, ◌≡◌, refl, Bool, true, arith, ◌==◌, ==_iff, ltb, ◌&&◌, if◌then◌else◌,
}
use mini_os_with_friends.Base.Bits.{all_below, all_below_sound}
use mini_os_with_friends.State.{Pic, Kernel}
use mini_os_with_friends.Pic.{enable_irq, disable_irq, unmask_bit, mask_bit}

-- Bit `j` of a byte.
abbrev pub bit : ℕ → ℕ → ℕ
bit m j = m / 2 ^ j % 2

-- The mask bit of line `j`: 1 if interrupts on that line are held back.
abbrev pub line_mask : Pic → ℕ → ℕ
line_mask p j = if ltb j 8 then bit p.master_mask j else bit p.slave_mask (j - 8)

-- Both masks are bytes.
pub record IsBytes (p : Pic) : Type 0 where
  pub master_byte : p.master_mask < 256
  pub slave_byte : p.slave_mask < 256

abbrev row : (ℕ → ℕ → ℕ) → ℕ → ℕ → ℕ → ℕ → Bool
row f new i j m = bit (f i m) j == (if i == j then new else bit m j)

unmask_table : all_below 8 (λ i. all_below 8 (λ j. all_below 256 (row unmask_bit 0 i j))) ≡ true
unfolding all_below unmask_bit
unmask_table = refl

mask_table : all_below 8 (λ i. all_below 8 (λ j. all_below 256 (row mask_bit 1 i j))) ≡ true
unfolding all_below mask_bit
mask_table = refl

from_table :
    (f : ℕ → ℕ → ℕ) (new i j m : ℕ)
    → all_below 8 (λ i. all_below 8 (λ j. all_below 256 (row f new i j))) ≡ true
    → i < 8
    → j < 8
    → m < 256
    → bit (f i m) j ≡ (if i == j then new else bit m j)
from_table f new i j m t hi hj hm =
    (==_iff _ _).0
      (all_below_sound 256 _ m (all_below_sound 8 _ j (all_below_sound 8 _ i t hi) hj) hm)

unmask_bit-bit :
    (i j m : ℕ) → i < 8 → j < 8 → m < 256 → bit (unmask_bit i m) j ≡ (if i == j then 0 else bit m j)
unmask_bit-bit i j m = from_table unmask_bit 0 i j m unmask_table

mask_bit-bit :
    (i j m : ℕ) → i < 8 → j < 8 → m < 256 → bit (mask_bit i m) j ≡ (if i == j then 1 else bit m j)
mask_bit-bit i j m = from_table mask_bit 1 i j m mask_table

byte_table :
    all_below 8 (λ i. all_below 256 (λ m. ltb (unmask_bit i m) 256 && ltb (mask_bit i m) 256))
    ≡ true
unfolding all_below unmask_bit mask_bit
byte_table = refl

mask_bytes : (i m : ℕ) → i < 8 → m < 256 → (unmask_bit i m < 256) × (mask_bit i m < 256)
mask_bytes i m hi hm =
    ground (arith, all_below_sound 256 _ m (all_below_sound 8 _ i byte_table hi) hm)

-- Enabling a line below 16 clears the mask bit of that line and of no other, and a number from 16
-- on changes nothing at all.
pub line_mask-enable_irq :
    (irq j : ℕ) (k : Kernel)
    → IsBytes k.pic
    → j < 16
    → line_mask (enable_irq irq k).pic j ≡ (if irq == j then 0 else line_mask k.pic j)
unfolding enable_irq
line_mask-enable_irq irq j k v h = ground (
  arith,
  unmask_bit-bit irq j k.pic.master_mask,
  unmask_bit-bit (irq - 8) (j - 8) k.pic.slave_mask,
)

-- Disabling a line below 16 sets the mask bit of that line and of no other, and a number from 16
-- on changes nothing at all.
pub line_mask-disable_irq :
    (irq j : ℕ) (k : Kernel)
    → IsBytes k.pic
    → j < 16
    → line_mask (disable_irq irq k).pic j ≡ (if irq == j then 1 else line_mask k.pic j)
unfolding disable_irq
line_mask-disable_irq irq j k v h =
    ground
      (arith, mask_bit-bit irq j k.pic.master_mask, mask_bit-bit (irq - 8) (j - 8) k.pic.slave_mask)

-- The masks stay bytes.
pub enable_irq-IsBytes : (irq : ℕ) (k : Kernel) → IsBytes k.pic → IsBytes (enable_irq irq k).pic
unfolding enable_irq
enable_irq-IsBytes irq k v =
    ground (arith, mask_bytes irq k.pic.master_mask, mask_bytes (irq - 8) k.pic.slave_mask)

pub disable_irq-IsBytes : (irq : ℕ) (k : Kernel) → IsBytes k.pic → IsBytes (disable_irq irq k).pic
unfolding disable_irq
disable_irq-IsBytes irq k v =
    ground (arith, mask_bytes irq k.pic.master_mask, mask_bytes (irq - 8) k.pic.slave_mask)
