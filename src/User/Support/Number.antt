-- ===== src/User/Support/Number.antt =====
-- The user's `ece391_itoa` gives the string that the kernel's `itoa` gives.
use mini_os_with_friends.Base.{
  ℕ, zero, suc, ◌+◌, ◌-◌, ◌/◌, ◌%◌, ◌≡◌, refl, ◌∙◌, ap, arith, ◌==◌, leb, ltb, if◌then◌else◌,
  Bool-cases, inl, inr, true, false, ◌<◌, ◌≤◌, word,
}
use native.Mathlib.Nat.{mod-lt}
use mini_os_with_friends.Base.Bits.{all_below, all_below_sound}
use mini_os_with_friends.Base.Maps.{update}
use mini_os_with_friends.CString.Number as Kernel
use mini_os_with_friends.CString.Number.{digit_char}
use mini_os_with_friends.User.Support.{
  lookup_text, lookup, strlen, swap_ends, strrev, put_places, itoa,
}

strlen-string_length : (n : ℕ) (s : ℕ → ℕ) → strlen n s ≡ Kernel.string_length n s
unfolding strlen Kernel.string_length
strlen-string_length zero s = refl
strlen-string_length (suc n) s = rw (strlen-string_length n (λ i. s (i + 1))) refl

swap_ends-swap_from :
    (n beg end : ℕ) (s : ℕ → ℕ) → swap_ends n beg end s ≡ Kernel.swap_from n beg end s
unfolding swap_ends Kernel.swap_from
swap_ends-swap_from zero beg end s = refl
swap_ends-swap_from (suc n) beg end s =
    ap (λ (r : ℕ → ℕ). if ltb beg end then r else s)
      (swap_ends-swap_from n (beg + 1) (end - 1) (update (update s end (s beg)) beg (s end)))

no_rounds : (len : ℕ) (s : ℕ → ℕ) → len - 1 ≡ 0 → s ≡ Kernel.swap_from len 0 (len - 1) s
unfolding Kernel.swap_from
no_rounds zero s e = refl
no_rounds (suc len) s e = rw e refl

-- The user's `ece391_strrev` does what the kernel's `strrev` does.
strrev-strrev : (n : ℕ) (s : ℕ → ℕ) → strrev n s ≡ Kernel.strrev n s
unfolding strrev Kernel.strrev
strrev-strrev n s =
    rw (strlen-string_length n s) (elim (Bool-cases (leb (Kernel.string_length n s - 1) 0)) [
      | inl short ↦ rw short (no_rounds (Kernel.string_length n s) s (ground (arith, short)))
      | inr long ↦
          rw long
            (swap_ends-swap_from (Kernel.string_length n s) 0 (Kernel.string_length n s - 1) s)
    ])

-- The table has the kernel's digits, at each of its 36 places.
table_digits : all_below 36 (λ d. lookup lookup_text d == digit_char d) ≡ true
unfolding all_below lookup
table_digits = refl

lookup-digit_char : (d : ℕ) → d < 36 → lookup lookup_text d ≡ digit_char d
lookup-digit_char d small =
    let same : (lookup lookup_text d == digit_char d) ≡ true =
      all_below_sound 36 (λ i. lookup lookup_text i == digit_char i) d table_digits small in
    ground (arith, same)

put_places-put_digits :
    (fuel newval radix i : ℕ) (buf : ℕ → ℕ)
    → 0 < radix
    → radix ≤ 36
    → put_places fuel newval radix i buf ≡ Kernel.put_digits fuel newval radix i buf
unfolding put_places Kernel.put_digits
put_places-put_digits zero newval radix i buf lo hi = refl
put_places-put_digits (suc fuel) newval radix i buf lo hi = elim (Bool-cases (newval == 0)) [
  | inl done ↦ let stop : ltb 0 newval ≡ false = ground (arith, done) in rw (done, stop) refl
  | inr more ↦
      let go : ltb 0 newval ≡ true = ground (arith, more) in
      let digit : lookup lookup_text (newval % radix) ≡ digit_char (newval % radix) =
        lookup-digit_char (newval % radix) (omega (arith, mod-lt newval lo)) in
      rw (more, go, digit)
        (put_places-put_digits fuel (newval / radix) radix (i + 1)
          (update buf i (digit_char (newval % radix))) lo hi)
]

-- The user's `ece391_itoa`, with its own loops and its own table of digits, and the kernel's `itoa` leave
-- the same buffer, for every 32-bit number, every base from 2 to 36 and every buffer.
pub itoa-itoa :
    (value radix : ℕ) (buf : ℕ → ℕ)
    → value < word
    → 2 ≤ radix
    → radix ≤ 36
    → itoa value buf radix ≡ Kernel.itoa value buf radix
unfolding itoa Kernel.itoa
itoa-itoa value radix buf small lo hi =
    let places = put_places 32 value radix 0 buf in
    let same = put_places-put_digits 32 value radix 0 buf (omega arith) hi in
    let turned = λ (r : ℕ × (ℕ → ℕ)). Kernel.strrev 32 (update r.1 r.0 0) in
    ap (λ (b : ℕ → ℕ). if value == 0 then update (update buf 0 b'0') 1 0 else b)
      (strrev-strrev 32 (update places.1 places.0 0) ∙ ap turned same)
