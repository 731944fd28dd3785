-- ===== src/CString.antt =====
-- The string functions of student-distrib/lib.c. A string that is passed as an argument is a list of
-- its bytes; past its end stands the terminating zero. Strings in memory are maps from indices. The
-- writes of the debugging variable `test_flag` are left out.
pub mod Compare
pub mod Number
use mini_os_with_friends.Base.{
  ℕ, zero, suc, ◌+◌, ◌-◌, ◌*◌, ◌/◌, ◌%◌, ◌||◌, List, [], ◌∷◌, ◌==◌, ◌!=◌, ltb, if◌then◌else◌, sub32,
  sign_extend8,
}
use mini_os_with_friends.Base.Maps.{update}

-- `s[i]`
abbrev pub char_at : List ℕ → ℕ → ℕ
char_at [] i = 0
char_at (c ∷ s) zero = c
char_at (c ∷ s) (suc i) = char_at s i

unfoldable pub strlen : List ℕ → ℕ
strlen [] = 0
strlen (c ∷ s) = if c == 0 then 0 else strlen s + 1

-- The loop of `strncmp` at index `i`, with `n` bytes to go.
unfoldable pub strncmp_from : ℕ → ℕ → (ℕ → ℕ) → (ℕ → ℕ) → ℕ
strncmp_from zero i s1 s2 = 0
strncmp_from (suc n) i s1 s2 =
    if s1 i != s2 i || s1 i == 0
    then sub32 (sign_extend8 (s1 i)) (sign_extend8 (s2 i))
    else strncmp_from n (i + 1) s1 s2

unfoldable pub strncmp : (ℕ → ℕ) → (ℕ → ℕ) → ℕ → ℕ
unfolding strncmp_from
strncmp s1 s2 n = strncmp_from n 0 s1 s2

-- The bytes of `src` up to its zero, and the zero.
unfoldable pub strcpy_from : List ℕ → ℕ → (ℕ → ℕ) → ℕ → ℕ
strcpy_from [] i dest = update dest i 0
strcpy_from (c ∷ src) i dest =
    let rest = strcpy_from src (i + 1) (update dest i c) in if c == 0 then update dest i 0 else rest

unfoldable pub strcpy : (ℕ → ℕ) → List ℕ → ℕ → ℕ
unfolding strcpy_from
strcpy dest src = strcpy_from src 0 dest

-- The two loops of `strncpy` at index `i`, with `n` bytes to go: copy, then fill with zeros.
unfoldable pub strncpy_fill : ℕ → ℕ → (ℕ → ℕ) → ℕ → ℕ
strncpy_fill zero i dest = dest
strncpy_fill (suc n) i dest = strncpy_fill n (i + 1) (update dest i 0)

unfoldable pub strncpy_from : ℕ → ℕ → (ℕ → ℕ) → List ℕ → ℕ → ℕ
unfolding strncpy_fill
strncpy_from zero i dest src = dest
strncpy_from (suc n) i dest [] = strncpy_fill (suc n) i dest
strncpy_from (suc n) i dest (c ∷ src) =
    let rest = strncpy_from n (i + 1) (update dest i c) src in
    if c == 0 then strncpy_fill (suc n) i dest else rest

unfoldable pub strncpy : (ℕ → ℕ) → List ℕ → ℕ → ℕ → ℕ
unfolding strncpy_from
strncpy dest src n = strncpy_from n 0 dest src
