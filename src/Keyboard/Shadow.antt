-- ===== src/Keyboard/Shadow.antt =====
-- The four columns of the scan code table.
use mini_os_with_friends.Base.{
  ℕ, ◌-◌, ◌<◌, ◌≡◌, refl, ◌&&◌, Bool, true, List, arith, ◌==◌, leb, if◌then◌else◌,
}
use mini_os_with_friends.Base.Bits.{all_below, all_below_sound}
use mini_os_with_friends.Keyboard.{lookup_char}

abbrev pub is_lower : ℕ → Bool
is_lower c = leb b'a' c && leb c b'z'

-- The test of one row.
columns_ok : (plain shifted locked both : ℕ) → Bool
columns_ok plain shifted locked both =
    (if is_lower plain then shifted == (plain - 32) else true)
    && (locked == (if is_lower plain then shifted else plain))
    && (both == (if is_lower plain then plain else shifted))

columns_ok_sound :
    (plain shifted locked both : ℕ)
    → columns_ok plain shifted locked both ≡ true
    → (is_lower plain ≡ true → shifted ≡ plain - 32)
      × (locked ≡ (if is_lower plain then shifted else plain))
      × (both ≡ (if is_lower plain then plain else shifted))
unfolding columns_ok
columns_ok_sound plain shifted locked both ok = (λ e. ground arith, ground arith, ground arith)

row_ok : (ℕ → List ℕ) → ℕ → Bool
row_ok behind command =
    columns_ok (lookup_char behind command 0) (lookup_char behind command 1)
      (lookup_char behind command 2) (lookup_char behind command 3)

rows_ok : (behind : ℕ → List ℕ) → all_below 62 (row_ok behind) ≡ true
unfolding row_ok columns_ok lookup_char all_below
rows_ok behind = refl

row_ok_at : (behind : ℕ → List ℕ) (command : ℕ) → command < 62 → row_ok behind command ≡ true
row_ok_at behind command lt = all_below_sound 62 (row_ok behind) command (rows_ok behind) lt

-- For every scan code of the table, shift turns a small letter into its capital; caps lock does so too
-- and leaves every other key alone; shift and caps lock together give the small letter, and for any other
-- key what shift alone gives.
pub lookup_char_columns :
    (behind : ℕ → List ℕ) (command : ℕ)
    → command < 62
    → let plain = lookup_char behind command 0 in
      let shifted = lookup_char behind command 1 in
      (is_lower plain ≡ true → shifted ≡ plain - 32)
      × (lookup_char behind command 2 ≡ (if is_lower plain then shifted else plain))
      × (lookup_char behind command 3 ≡ (if is_lower plain then plain else shifted))
unfolding row_ok
lookup_char_columns behind command lt =
    columns_ok_sound (lookup_char behind command 0) (lookup_char behind command 1)
      (lookup_char behind command 2) (lookup_char behind command 3) (row_ok_at behind command lt)
