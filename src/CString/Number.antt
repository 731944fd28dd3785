-- ===== src/CString/Number.antt =====
-- `itoa` and `strrev` of student-distrib/lib.c, on a buffer that is a map from indices.
pub mod Reverse
pub mod RoundTrip
use mini_os_with_friends.Base.{ℕ, zero, suc, ◌+◌, ◌-◌, ◌/◌, ◌%◌, ◌==◌, ltb, if◌then◌else◌}
use mini_os_with_friends.Base.Maps.{update}

-- `strlen(s)` for a string whose zero is one of its first `n + 1` bytes.
unfoldable pub string_length : (n : ℕ) → (ℕ → ℕ) → ℕ
string_length zero s = 0
string_length (suc n) s = if s 0 == 0 then 0 else string_length n (λ i. s (i + 1)) + 1

-- The loop, from `beg` and `end` on; it makes at most `n` rounds.
unfoldable pub swap_from : (n beg end : ℕ) → (ℕ → ℕ) → ℕ → ℕ
swap_from zero beg end s = s
swap_from (suc n) beg end s =
    let rest = swap_from n (beg + 1) (end - 1) (update (update s end (s beg)) beg (s end)) in
    if ltb beg end then rest else s

-- For an empty string `end` is -1 in the code; the loop ends at once for -1 and for 0 alike.
unfoldable pub strrev : (n : ℕ) → (ℕ → ℕ) → ℕ → ℕ
strrev n s = let len = string_length n s in swap_from len 0 (len - 1) s

-- `lookup[i]`: the digits, then the capital letters.
abbrev pub digit_char : ℕ → ℕ
digit_char i = if ltb i 10 then b'0' + i else b'A' + (i - 10)

-- The loop, with `fuel` rounds at most, from index `i` of the buffer on: the number of bytes so far
-- and the buffer, the lowest place value first.
unfoldable pub put_digits : (fuel newval radix i : ℕ) → (ℕ → ℕ) → ℕ × (ℕ → ℕ)
put_digits zero newval radix i buf = (i, buf)
put_digits (suc fuel) newval radix i buf =
    let rest =
      put_digits fuel (newval / radix) radix (i + 1) (update buf i (digit_char (newval % radix))) in
    if newval == 0 then (i, buf) else rest

-- A 32-bit number has at most 32 digits, in every base from 2 on. The code divides by zero in base 0, does
-- not end in base 1, and reads behind its table in a base above 36; what the model gives there means
-- nothing.
abbrev pub max_digits : ℕ
max_digits = 32

unfoldable pub itoa : (value : ℕ) → (ℕ → ℕ) → (radix : ℕ) → ℕ → ℕ
itoa value buf radix =
    if value == 0
    then update (update buf 0 b'0') 1 0
    else (let (len, digits) = put_digits max_digits value radix 0 buf in
        strrev max_digits (update digits len 0))
