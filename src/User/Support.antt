-- ===== src/User/Support.antt =====
-- syscalls/ece391support.c: strings and numbers for the user's programs. A string is the list of its bytes
-- before the zero, or, where it is changed in place, a map from indices.
pub mod Compare
pub mod Number
use mini_os_with_friends.Base.{
  ℕ, zero, suc, ◌+◌, ◌-◌, ◌/◌, ◌%◌, ◌||◌, List, [], ◌∷◌, ◌==◌, leb, ltb, if◌then◌else◌, sub32,
}
use mini_os_with_friends.Base.Maps.{update}
use mini_os_with_friends.Base.Texts.{codes}

-- `ece391_strlen(s)` for a string whose zero is one of its first `n + 1` bytes.
unfoldable pub strlen : (n : ℕ) → (ℕ → ℕ) → ℕ
strlen zero s = 0
strlen (suc n) s = if s 0 == 0 then 0 else strlen n (λ i. s (i + 1)) + 1

-- `ece391_strcpy(dst, src)`, from index `i` on: the bytes, and the zero.
unfoldable pub strcpy : (dst : ℕ → ℕ) → (i : ℕ) → List ℕ → ℕ → ℕ
strcpy dst i [] = update dst i 0
strcpy dst i (c ∷ s) = strcpy (update dst i c) (i + 1) s

-- `ece391_strcmp`: 0, or the difference of the first bytes that differ.
unfoldable pub strcmp : List ℕ → List ℕ → ℕ
strcmp [] [] = 0
strcmp [] (d ∷ t) = sub32 0 d
strcmp (c ∷ s) [] = sub32 c 0
strcmp (c ∷ s) (d ∷ t) = let rest = strcmp s t in if c == d then rest else sub32 c d

-- `ece391_strncmp`: at most `n` bytes are compared.
unfoldable pub strncmp : List ℕ → List ℕ → ℕ → ℕ
strncmp s t zero = 0
strncmp [] [] (suc n) = 0
strncmp [] (d ∷ t) (suc n) = sub32 0 d
strncmp (c ∷ s) [] (suc n) = sub32 c 0
strncmp (c ∷ s) (d ∷ t) (suc n) = let rest = strncmp s t n in if c == d then rest else sub32 c d

-- The loop of `ece391_strrev`, with `n` rounds at most.
unfoldable pub swap_ends : (n beg end : ℕ) → (ℕ → ℕ) → ℕ → ℕ
swap_ends zero beg end s = s
swap_ends (suc n) beg end s =
    let tmp = s end in
    let rest = swap_ends n (beg + 1) (end - 1) (update (update s end (s beg)) beg tmp) in
    if ltb beg end then rest else s

-- For an empty string `end` is -1, and the function returns at once, as it does for 0.
unfoldable pub strrev : (n : ℕ) → (ℕ → ℕ) → ℕ → ℕ
strrev n s = let end = strlen n s - 1 in if leb end 0 then s else swap_ends (strlen n s) 0 end s

-- The table of digits of `ece391_itoa`. The zero behind it, and what follows, stand for the bytes that
-- the function reads there in a base above 36.
abbrev pub lookup_text : List ℕ
lookup_text = codes "0123456789ABCDEFGHIJKLMNOPQRSTUVWXYZ"

unfoldable pub lookup : List ℕ → ℕ → ℕ
lookup [] i = 0
lookup (c ∷ s) zero = c
lookup (c ∷ s) (suc i) = lookup s i

-- The loop of `ece391_itoa`, with `fuel` rounds at most: the bytes so far, the lowest place value
-- first.
unfoldable pub put_places : (fuel newval radix i : ℕ) → (ℕ → ℕ) → ℕ × (ℕ → ℕ)
put_places zero newval radix i buf = (i, buf)
put_places (suc fuel) newval radix i buf =
    let rest =
      put_places fuel (newval / radix) radix (i + 1)
        (update buf i (lookup lookup_text (newval % radix))) in
    if ltb 0 newval then rest else (i, buf)

-- A 32-bit number has at most 32 digits in a base from 2 on. A base of 0 is a division by zero in the
-- code, and with the base 1 its loop does not end; what the model gives there means nothing.
unfoldable pub itoa : (value : ℕ) → (ℕ → ℕ) → (radix : ℕ) → ℕ → ℕ
itoa value buf radix =
    if value == 0
    then update (update buf 0 b'0') 1 0
    else (let (len, places) = put_places 32 value radix 0 buf in strrev 32 (update places len 0))
