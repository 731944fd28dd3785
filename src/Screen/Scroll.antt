-- ===== src/Screen/Scroll.antt =====
-- The loops of `shift_up_by_one` move every row of the screen up by one, and touch nothing else.
use mini_os_with_friends.Base.{
  ℕ, ◌+◌, ◌≤◌, ◌<◌, ◌≡◌, refl, ◌∙◌, ◌⊎◌, ◌&&◌, arith, ◌==◌, ltb, if◌then◌else◌,
}
use mini_os_with_friends.Base.Maps.{update}
use mini_os_with_friends.Base.Loops.{for_range_inv}
use mini_os_with_friends.State.{Kernel}
use mini_os_with_friends.Screen.{
  cell, put_cell, attrib, blank, shift_column, shift_rows, blank_last_row, shift_up_by_one,
  screen_base,
}

-- Byte `b` of each cell: 0 the character, 1 its attribute.
abbrev column_up : ℕ → ℕ → (ℕ → ℕ) → ℕ → ℕ → ℕ → ℕ → ℕ
column_up base i mem j r c b =
    if c == i && ltb r j then mem (cell base (r + 1) c + b) else mem (cell base r c + b)

abbrev move_cell : ℕ → ℕ → ℕ → (ℕ → ℕ) → ℕ → ℕ
move_cell base i j m =
    let m' : ℕ → ℕ = update m (cell base j i) (m (cell base (j + 1) i)) in
    update m' (cell base j i + 1) (m' (cell base (j + 1) i + 1))

move_cell_step :
    (base i j : ℕ) (mem m : ℕ → ℕ)
    → i < 80
    → j < 24
    → ((r c b : ℕ) → r < 25 → c < 80 → b < 2 → m (cell base r c + b) ≡ column_up base i mem j r c b)
    → (r c b : ℕ) → r < 25
    → c < 80
    → b < 2
    → move_cell base i j m (cell base r c + b) ≡ column_up base i mem (j + 1) r c b
move_cell_step base i j mem m hi hj p r c b hr hc hb =
    ground (arith, p r c b, p (j + 1) i 0, p (j + 1) i 1)

shift_column_cells :
    (base i : ℕ) (mem : ℕ → ℕ) (r c b : ℕ)
    → i < 80
    → r < 25
    → c < 80
    → b < 2
    → shift_column base i mem (cell base r c + b) ≡ column_up base i mem 24 r c b
unfolding shift_column
shift_column_cells base i mem r c b hi =
    for_range_inv
      (λ j (m : ℕ → ℕ).
        (r c b : ℕ)
        → r < 25
        → c < 80
        → b < 2
        → m (cell base r c + b) ≡ column_up base i mem j r c b)
      (λ j (m : ℕ → ℕ). move_cell base i j m) 24 0 24 (omega arith)
      (λ j m hj p. move_cell_step base i j mem m hi hj p) mem (λ r c b hr hc hb. ground arith) r c b

-- The addresses off the screen that begins at `base`.
abbrev pub Off : ℕ → ℕ → Type 0
Off base a = (a < base) ⊎ (base + 4000 ≤ a)

shift_column-Off :
    (base i : ℕ) (mem : ℕ → ℕ) (a : ℕ) → i < 80 → Off base a → shift_column base i mem a ≡ mem a
unfolding shift_column
shift_column-Off base i mem a hi off =
    for_range_inv (λ j (m : ℕ → ℕ). m a ≡ mem a) (λ j (m : ℕ → ℕ). move_cell base i j m) 24 0 24
      (omega arith) (λ j m hj p. ground arith) mem refl

abbrev rows_up : ℕ → (ℕ → ℕ) → ℕ → ℕ → ℕ → ℕ → ℕ
rows_up base mem i r c b =
    if ltb c i && ltb r 24 then mem (cell base (r + 1) c + b) else mem (cell base r c + b)

shift_rows_step :
    (base i : ℕ) (mem m : ℕ → ℕ)
    → i < 80
    → ((r c b : ℕ) → r < 25 → c < 80 → b < 2 → m (cell base r c + b) ≡ rows_up base mem i r c b)
    → (r c b : ℕ) → r < 25
    → c < 80
    → b < 2
    → shift_column base i m (cell base r c + b) ≡ rows_up base mem (i + 1) r c b
shift_rows_step base i mem m hi p r c b hr hc hb =
    ground (arith, shift_column_cells base i m r c b, p r c b, p (r + 1) c b)

shift_rows_cells :
    (base : ℕ) (mem : ℕ → ℕ) (r c b : ℕ)
    → r < 25
    → c < 80
    → b < 2
    → shift_rows base mem (cell base r c + b) ≡ rows_up base mem 80 r c b
unfolding shift_rows
shift_rows_cells base mem =
    for_range_inv
      (λ i (m : ℕ → ℕ).
        (r c b : ℕ) → r < 25 → c < 80 → b < 2 → m (cell base r c + b) ≡ rows_up base mem i r c b)
      (λ i m. shift_column base i m) 80 0 80 (omega arith)
      (λ i m hi p. shift_rows_step base i mem m hi p) mem (λ r c b hr hc hb. ground arith)

shift_rows-Off : (base : ℕ) (mem : ℕ → ℕ) (a : ℕ) → Off base a → shift_rows base mem a ≡ mem a
unfolding shift_rows
shift_rows-Off base mem a off =
    for_range_inv (λ i (m : ℕ → ℕ). m a ≡ mem a) (λ i m. shift_column base i m) 80 0 80
      (omega arith) (λ i m hi p. shift_column-Off base i m a hi off ∙ p) mem refl

abbrev blanked : ℕ → (ℕ → ℕ) → ℕ → ℕ → ℕ → ℕ → ℕ
blanked base mem i r c b =
    if r == 24 && ltb c i then (if b == 0 then blank else attrib) else mem (cell base r c + b)

blank_last_row_cells :
    (base : ℕ) (mem : ℕ → ℕ) (r c b : ℕ)
    → r < 25
    → c < 80
    → b < 2
    → blank_last_row base mem (cell base r c + b) ≡ blanked base mem 80 r c b
unfolding blank_last_row
blank_last_row_cells base mem =
    for_range_inv
      (λ i (m : ℕ → ℕ).
        (r c b : ℕ) → r < 25 → c < 80 → b < 2 → m (cell base r c + b) ≡ blanked base mem i r c b)
      (λ i m. put_cell base 24 i blank m) 80 0 80 (omega arith)
      (λ i m hi p r c b hr hc hb. ground (arith, p r c b)) mem (λ r c b hr hc hb. ground arith)

blank_last_row-Off :
    (base : ℕ) (mem : ℕ → ℕ) (a : ℕ) → Off base a → blank_last_row base mem a ≡ mem a
unfolding blank_last_row
blank_last_row-Off base mem a off =
    for_range_inv (λ i (m : ℕ → ℕ). m a ≡ mem a) (λ i m. put_cell base 24 i blank m) 80 0 80
      (omega arith) (λ i m hi p. ground arith) mem refl

-- Scrolling terminal `t`: every cell of its screen takes the character and the attribute of the cell
-- below it, the cells of the last row become blanks, and no byte off that screen changes.
pub shift_up_by_one_lem :
    (t r c b a : ℕ) (k : Kernel)
    → r < 25
    → c < 80
    → b < 2
    → Off (screen_base k t) a
    → ((shift_up_by_one t k).mem (cell (screen_base k t) r c + b) ≡ (
        if ltb r 24
        then k.mem (cell (screen_base k t) (r + 1) c + b)
        else if b == 0
        then blank
        else attrib))
      × ((shift_up_by_one t k).mem a ≡ k.mem a)
unfolding shift_up_by_one
shift_up_by_one_lem t r c b a k hr hc hb off = (
  ground (
    arith,
    blank_last_row_cells (screen_base k t) (shift_rows (screen_base k t) k.mem) r c b,
    shift_rows_cells (screen_base k t) k.mem r c b,
  ),
  blank_last_row-Off (screen_base k t) _ a off ∙ shift_rows-Off (screen_base k t) k.mem a off,
)
