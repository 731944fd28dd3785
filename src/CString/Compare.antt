-- ===== src/CString/Compare.antt =====
-- `strncmp` against the text of a string.
use mini_os_with_friends.Base.{
  ℕ, zero, suc, ◌+◌, ◌<◌, ◌≡◌, refl, ◌≢◌, List, [], ◌∷◌, arith, length, sub32, sign_extend8,
}
use mini_os_with_friends.CString.{char_at, strlen, strncmp_from}

-- A string of non-zero bytes.
abbrev pub IsText : List ℕ → Type 0
IsText [] = Unit {0}
IsText (c ∷ s) = (c ≢ 0) × (c < 256) × IsText s

-- From index `i` on, the first `n` bytes of `f` are those of the string and, if the string ends
-- among them, a zero after it.
abbrev pub Names : ℕ → List ℕ → (ℕ → ℕ) → ℕ → Type 0
Names zero s f i = Unit {0}
Names (suc n) [] f i = f i ≡ 0
Names (suc n) (c ∷ s) f i = (f i ≡ c) × Names n s f (i + 1)

pub strlen-length : (s : List ℕ) → IsText s → strlen s ≡ length s
unfolding strlen
strlen-length [] t = refl
strlen-length (c ∷ s) t = ground (arith, strlen-length s t.2)

difference : (a b : ℕ) → a < 256 → b < 256 → sub32 (sign_extend8 a) (sign_extend8 b) ≡ 0 → a ≡ b
difference a b ha hb e = ground arith

first_byte : (a : ℕ → ℕ) (i c : ℕ) → a (i + 0) ≡ c → a i ≡ c
first_byte a i c h = let e : i + 0 ≡ i = omega arith in rw e at h

next_bytes :
    (a : ℕ → ℕ) (i c : ℕ) (s : List ℕ)
    → ((j : ℕ) → a (i + j) ≡ char_at (c ∷ s) j)
    → (j : ℕ) → a (i + 1 + j) ≡ char_at s j
next_bytes a i c s at j = let e : i + 1 + j ≡ i + suc j = omega arith in rw e (at (suc j))

pub strncmp_from-Names :
    (n : ℕ) (s : List ℕ) (a f : ℕ → ℕ) (i : ℕ)
    → IsText s
    → ((j : ℕ) → f j < 256)
    → ((j : ℕ) → a (i + j) ≡ char_at s j)
    → strncmp_from n i a f ≡ 0
    → Names n s f i
unfolding strncmp_from
strncmp_from-Names zero s a f i t bytes at e = tt
strncmp_from-Names (suc n) [] a f i t bytes at e = ground (arith, first_byte a i 0 (at 0), bytes i)
strncmp_from-Names (suc n) (c ∷ s) a f i t bytes at e =
    let here = first_byte a i c (at 0) in
    (
      ground (arith, here, bytes i, t.0, t.1),
      strncmp_from-Names n s a f (i + 1) t.2 bytes (next_bytes a i c s at)
          (ground (arith, here, bytes i, t.0, t.1)),
    )

pub Names-strncmp_from :
    (n : ℕ) (s : List ℕ) (a f : ℕ → ℕ) (i : ℕ)
    → IsText s
    → ((j : ℕ) → a (i + j) ≡ char_at s j)
    → Names n s f i
    → strncmp_from n i a f ≡ 0
unfolding strncmp_from
Names-strncmp_from zero s a f i t at m = refl
Names-strncmp_from (suc n) [] a f i t at m = ground (arith, first_byte a i 0 (at 0))
Names-strncmp_from (suc n) (c ∷ s) a f i t at m = ground (
  arith,
  first_byte a i c (at 0),
  t.0,
  m.0,
  Names-strncmp_from n s a f (i + 1) t.2 (next_bytes a i c s at) m.1,
)
