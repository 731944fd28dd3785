-- ===== src/CString/Number/RoundTrip.antt =====
-- The string of a number stands for the number.
use mini_os_with_friends.Base.{
  lt→ltb, false, ℕ, zero, suc, ◌+◌, ◌-◌, ◌*◌, ◌/◌, ◌%◌, ◌^◌, ◌≤◌, ◌<◌, ◌≡◌, refl, ◌∙◌, ap, sym, ◌≢◌,
  arith, ltb, ◌==◌, if◌then◌else◌, Bool-cases, inl, inr, word, subst, ◌⊎◌,
}
use native.Mathlib.Nat.{mod-lt, mod-add-div', two-pow-succ, pow-suc, pow-zero, div-lt_iff_lt-mul}
use native.Mathlib.Decide.{ℕ_discrete, dec_lt}
use mini_os_with_friends.Base.Maps.{update, update_self, update_ne}
use mini_os_with_friends.CString.Number.{digit_char, put_digits, strrev, itoa}
use mini_os_with_friends.CString.Number.Reverse.{strrev_lem}

-- The value of a digit, and of the first `n` digits, the highest first.
abbrev pub char_digit : ℕ → ℕ
char_digit c = if ltb c 58 then c - 48 else c - 55

abbrev pub number_of : (radix n : ℕ) → (ℕ → ℕ) → ℕ
number_of radix zero s = 0
number_of radix (suc n) s = number_of radix n s * radix + char_digit (s n)

-- The value of `n` digits from index `i` on, the lowest first.
abbrev low_first : (radix n i : ℕ) → (ℕ → ℕ) → ℕ
low_first radix zero i s = 0
low_first radix (suc n) i s = char_digit (s i) + low_first radix n (i + 1) s * radix

-- A decimal digit or a capital letter, of a value below the base.
abbrev pub IsDigit : ℕ → ℕ → Type 0
IsDigit radix c =
    ((b'0' ≤ c) × (c ≤ b'9') × (c < b'0' + radix))
    ⊎ ((b'A' ≤ c) × (c ≤ b'Z') × (c + 10 < b'A' + radix))

digit_char-IsDigit : (radix d : ℕ) → d < radix → radix ≤ 36 → IsDigit radix (digit_char d)
digit_char-IsDigit radix d small hi = elim (dec_lt d 10) [
  | yes low ↦ inl (ground arith, ground arith, ground arith)
  | no high ↦ inr (ground arith, ground arith, ground arith)
]

char_digit-digit_char : (d : ℕ) → char_digit (digit_char d) ≡ d
char_digit-digit_char d = ground arith

-- What the loop leaves: `n` digits from `i` on, none of them zero as a byte.
record Digits (newval radix i : ℕ) (buf : ℕ → ℕ) (r : ℕ × (ℕ → ℕ)) (fuel : ℕ) : Type 0 where
  count : ℕ
  few : count ≤ fuel
  ends : r.0 ≡ i + count
  value : low_first radix count i r.1 ≡ newval
  text : (j : ℕ) → i ≤ j → j < i + count → r.1 j ≢ 0
  base : (j : ℕ) → i ≤ j → j < i + count → IsDigit radix (r.1 j)
  before : (j : ℕ) → j < i → r.1 j ≡ buf j
  some_digit : newval ≢ 0 → 0 < count
  short : (places : ℕ) → newval < radix ^ places → count ≤ places

digit_char-ne-zero : (d : ℕ) → digit_char d ≢ 0
digit_char-ne-zero d e = ground arith

below_times : (t radix n : ℕ) → 2 ≤ radix → n < t + t → n < t * radix
below_times t radix n lo lt = grind arith

quotient_fits :
    (fuel newval radix : ℕ) → 2 ≤ radix → newval < 2 ^ suc fuel → newval / radix < 2 ^ fuel
quotient_fits fuel newval radix lo small =
    (div-lt_iff_lt-mul (omega arith)).1
      (below_times (2 ^ fuel) radix newval lo (subst (λ t. newval < t) (two-pow-succ fuel) small))

no_more :
    (newval radix i fuel : ℕ) (buf : ℕ → ℕ) → newval ≡ 0 → Digits newval radix i buf (i, buf) fuel
no_more newval radix i fuel buf e = record {
  count = 0;
  few = omega arith;
  ends = omega arith;
  value = sym e;
  text = λ j a b. absurd (omega arith);
  base = λ j a b. absurd (omega arith);
  before = λ j lt. refl;
  some_digit = λ ne. absurd (ne e);
  short = λ places lt. omega arith;
}

one_place :
    (places newval radix count : ℕ)
    → newval ≢ 0
    → 0 < radix
    → newval < radix ^ places
    → ((p : ℕ) → newval / radix < radix ^ p → count ≤ p)
    → suc count ≤ places
one_place zero newval radix count ne positive small rest =
    absurd (ne (omega (arith, pow-zero radix)))
one_place (suc places) newval radix count ne positive small rest =
    let fits : newval < radix ^ places * radix =
      subst (λ t. newval < t) (pow-suc radix places) small in
    omega (arith, rest places ((div-lt_iff_lt-mul positive).1 fits))

one_more :
    (newval radix i fuel : ℕ) (buf : ℕ → ℕ) (r : ℕ × (ℕ → ℕ))
    → newval ≢ 0
    → 0 < radix
    → radix ≤ 36
    → Digits (newval / radix) radix (i + 1) (update buf i (digit_char (newval % radix))) r fuel
    → Digits newval radix i buf r (suc fuel)
one_more newval radix i fuel buf r ne0 positive hi d =
    let c = digit_char (newval % radix) in
    let first : r.1 i ≡ c = d.before i (omega arith) ∙ update_self buf i c in
    record {
      count = suc d.count;
      few = omega (arith, d.few);
      ends = omega (arith, d.ends);
      value =
          rw (first, d.value, char_digit-digit_char (newval % radix)) (mod-add-div' newval radix);
      text = λ j a b. elim (ℕ_discrete i j) [
        | yes e ↦ rw (← e, first) (digit_char-ne-zero (newval % radix))
        | no ne ↦ d.text j (omega arith) (omega arith)
      ];
      base = λ j a b. elim (ℕ_discrete i j) [
        | yes e ↦
            rw (← e, first) (digit_char-IsDigit radix (newval % radix) (mod-lt newval positive) hi)
        | no ne ↦ d.base j (omega arith) (omega arith)
      ];
      before = λ j lt. d.before j (omega arith) ∙ update_ne buf i j c (λ e. omega (arith, e));
      some_digit = λ ne. omega arith;
      short = λ places lt. one_place places newval radix d.count ne0 positive lt d.short;
    }

put_digits-Digits :
    (fuel newval radix i : ℕ) (buf : ℕ → ℕ)
    → 2 ≤ radix
    → radix ≤ 36
    → newval < 2 ^ fuel
    → Digits newval radix i buf (put_digits fuel newval radix i buf) fuel
unfolding put_digits
put_digits-Digits zero newval radix i buf lo hi small = no_more newval radix i 0 buf (omega arith)
put_digits-Digits (suc fuel) newval radix i buf lo hi small = elim (Bool-cases (newval == 0)) [
  | inl done ↦ rw done (no_more newval radix i (suc fuel) buf (ground arith))
  | inr more ↦ rw more (
      one_more newval radix i fuel buf _ (ground arith) (omega arith) hi (
        put_digits-Digits fuel (newval / radix) radix (i + 1)
          (update buf i (digit_char (newval % radix))) lo hi
          (quotient_fits fuel newval radix lo small)))
]

-- Reversed, the lowest digit comes last.
pub number_of_ext :
    (radix n : ℕ) (s t : ℕ → ℕ)
    → ((j : ℕ) → j < n → s j ≡ t j)
    → number_of radix n s ≡ number_of radix n t
number_of_ext radix zero s t same = refl
number_of_ext radix (suc n) s t same =
    rw (same n (omega arith), number_of_ext radix n s t (λ j lt. same j (omega arith)))

number_of-low_first :
    (radix n i : ℕ) (s : ℕ → ℕ)
    → number_of radix n (λ j. s (i + (n - 1 - j))) ≡ low_first radix n i s
number_of-low_first radix zero i s = refl
number_of-low_first radix (suc n) i s =
    let shift : number_of radix n (λ j. s (i + (suc n - 1 - j)))
        ≡ number_of radix n (λ j. s (i + 1 + (n - 1 - j))) =
      number_of_ext radix n _ _ (λ j lt. ap s (omega arith)) in
    let last : s (i + (suc n - 1 - n)) ≡ s i = ap s (omega arith) in
    rw (shift, last, number_of-low_first radix n (i + 1) s) (omega arith)

-- The string of `n` digits, reversed in its buffer.
reversed :
    (n : ℕ) (digits : ℕ → ℕ)
    → n ≤ 32
    → ((j : ℕ) → j < n → digits j ≢ 0)
    → (strrev 32 (update digits n 0) n ≡ 0)
      × ((j : ℕ) → j < n → strrev 32 (update digits n 0) j ≡ digits (n - 1 - j))
reversed n digits few text =
    let kept = λ (j : ℕ) (lt : j < n). update_ne digits n j 0 (λ e. omega (arith, e)) in
    let turned = λ (j : ℕ).
      strrev_lem 32 n j (update digits n 0) few (λ i lt e. text i lt (sym (kept i lt) ∙ e))
        (update_self digits n 0) in
    (
      turned n ∙ ground arith,
      λ j lt. turned j ∙ rw (lt→ltb j n lt) (kept (n - 1 - j) (omega arith)),
    )

-- A 32-bit number in a base from 2 to 36: the string that `itoa` leaves has 1 to 32 bytes before its
-- zero, each of them a decimal digit or a capital letter of a value below the base, and together they stand for the number; the string has no
-- more than `places` bytes if the number is below the base to that power, and `places` is positive.
pub number_of-itoa :
    (value radix : ℕ) (buf : ℕ → ℕ)
    → value < word
    → 2 ≤ radix
    → radix ≤ 36
    → (len : ℕ) × (1 ≤ len)
      × (len ≤ 32)
      × (itoa value buf radix len ≡ 0)
      × ((j : ℕ) → j < len → (itoa value buf radix j ≢ 0) × IsDigit radix (itoa value buf radix j))
      × (number_of radix len (itoa value buf radix) ≡ value)
      × ((places : ℕ) → 0 < places → value < radix ^ places → len ≤ places)
unfolding itoa
number_of-itoa value radix buf small lo hi = elim (ℕ_discrete value 0) [
  | yes none_left ↦ rw none_left (
    1,
    omega arith,
    omega arith,
    refl,
    λ j lt. (ground arith, inl (ground arith, ground arith, ground arith)),
    omega arith,
    λ places one lt. one,
  )
  | no ne ↦
      let r = put_digits 32 value radix 0 buf in
      let d = put_digits-Digits 32 value radix 0 buf lo hi small in
      let some_value : (value == 0) ≡ false = ground arith in
      let (ended, turned) =
        reversed d.count r.1 d.few (λ j lt. d.text j (omega arith) (omega arith)) in
      let len : r.0 ≡ d.count = d.ends ∙ omega arith in
      rw (some_value, len)
        (
          d.count,
          d.some_digit ne,
          d.few,
          ended,
          λ j lt. rw (turned j lt) (
            d.text (d.count - 1 - j) (omega arith) (omega arith),
            d.base (d.count - 1 - j) (omega arith) (omega arith),
          ),
          number_of_ext radix d.count _ (λ j. r.1 (0 + (d.count - 1 - j)))
                (λ j lt. turned j lt ∙ ap r.1 (omega arith))
              ∙ number_of-low_first radix d.count 0 r.1
              ∙ d.value,
          λ places one lt. d.short places lt,
        )
]
