-- ===== src/CString/Number/Reverse.antt =====
-- The loop of `strrev` against the reversed string.
use mini_os_with_friends.Base.{
  ℕ, zero, suc, ◌+◌, ◌-◌, ◌≤◌, ◌<◌, ◌≡◌, refl, ◌∙◌, ap, ◌≢◌, arith, leb, ltb, ◌&&◌, if◌then◌else◌,
  Bool-cases, inl, inr,
}
use native.Mathlib.Decide.{ℕ_discrete}
use mini_os_with_friends.Base.Maps.{update, update_ne}
use mini_os_with_friends.CString.Number.{string_length, swap_from, strrev}

-- One round: the ends are exchanged, and what lies between them is left to the other rounds.
abbrev mirror : ℕ → ℕ → (ℕ → ℕ) → ℕ → ℕ
mirror b e s j = if leb b j && leb j e then s (b + e - j) else s j

abbrev swapped : ℕ → ℕ → (ℕ → ℕ) → ℕ → ℕ
swapped b e s = update (update s e (s b)) b (s e)

swapped_other : (b e j : ℕ) (s : ℕ → ℕ) → b ≢ j → e ≢ j → swapped b e s j ≡ s j
swapped_other b e j s nb ne = update_ne (update s e (s b)) b j (s e) nb ∙ update_ne s e j (s b) ne

mirror-swapped :
    (b e j : ℕ) (s : ℕ → ℕ) → b < e → mirror (b + 1) (e - 1) (swapped b e s) j ≡ mirror b e s j
mirror-swapped b e j s lt =
    let same : b + 1 + (e - 1) - j ≡ b + e - j = omega arith in
    let ends : b + e - b ≡ e = omega arith in
    let starts : b + e - e ≡ b = omega arith in
    elim (ℕ_discrete b j) [
      | yes first ↦ rw (← first) (ground (arith, ap s ends))
      | no nb ↦ elim (ℕ_discrete e j) [
        | yes last ↦ rw (← last) (ground (arith, ap s starts))
        | no ne ↦ elim (Bool-cases (leb (b + 1) j && leb j (e - 1))) [
          | inl inside ↦ rw (inside, same) (ground (arith, swapped_other b e (b + e - j) s))
          | inr outside ↦ rw outside (ground arith)
        ]
      ]
    ]

swap_from-mirror : (n b e j : ℕ) (s : ℕ → ℕ) → e ≤ b + n → swap_from n b e s j ≡ mirror b e s j
unfolding swap_from
swap_from-mirror zero b e j s enough = ground arith
swap_from-mirror (suc n) b e j s enough = elim (Bool-cases (ltb b e)) [
  | inl more ↦ rw more (
      swap_from-mirror n (b + 1) (e - 1) j (swapped b e s) (omega arith)
      ∙ mirror-swapped b e j s (ground arith))
  | inr done ↦ rw done (ground arith)
]

-- The bytes before the zero, and the zero.
pub string_length-eq :
    (n len : ℕ) (s : ℕ → ℕ)
    → len ≤ n
    → ((j : ℕ) → j < len → s j ≢ 0)
    → s len ≡ 0
    → string_length n s ≡ len
unfolding string_length
string_length-eq zero zero s le text end = refl
string_length-eq zero (suc len) s le text end = elim le [ ]
string_length-eq (suc n) zero s le text end = ground arith
string_length-eq (suc n) (suc len) s le text end = ground (
  arith,
  text 0,
  string_length-eq n len (λ i. s (i + 1)) (omega arith) (λ j lt. text (j + 1) (omega arith))
      (ap s (omega arith) ∙ end),
)

-- `strrev` on a string of `len` bytes: byte `j` becomes the one that stands as far from the end, and
-- the zero and what follows it stay.
pub strrev_lem :
    (n len j : ℕ) (s : ℕ → ℕ)
    → len ≤ n
    → ((i : ℕ) → i < len → s i ≢ 0)
    → s len ≡ 0
    → strrev n s j ≡ (if ltb j len then s (len - 1 - j) else s j)
unfolding strrev
strrev_lem n len j s le text end =
    rw (string_length-eq n len s le text end)
      (swap_from-mirror len 0 (len - 1) j s (omega arith) ∙ ground arith)
