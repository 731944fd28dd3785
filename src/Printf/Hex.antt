-- ===== src/Printf/Hex.antt =====
-- `%#x` prints eight digits that stand for the number.
use mini_os_with_friends.Base.{
  lt→ltb, ℕ, zero, suc, ◌+◌, ◌-◌, ◌≤◌, ◌<◌, ◌≡◌, refl, ◌∙◌, ap, ◌≢◌, inl, some, List, [], ◌∷◌,
  arith, ltb, leb, ◌&&◌, if◌then◌else◌, ◌==◌, false, word,
}
use native.Mathlib.Decide.{dec_lt}
use mini_os_with_friends.Base.Maps.{update}
use mini_os_with_friends.Base.Loops.{for_range}
use mini_os_with_friends.State.{Kernel}
use mini_os_with_friends.Screen.{puts}
use mini_os_with_friends.CString.Number.{itoa, string_length}
use mini_os_with_friends.CString.Number.Reverse.{string_length-eq}
use mini_os_with_friends.CString.Number.RoundTrip.{
  number_of, IsDigit, number_of-itoa, number_of_ext,
}
use mini_os_with_friends.Printf.{
  Arg, printf, printf_from, convert, string_at, padded, alternate_text,
}

-- The first `n` bytes.
abbrev pub first_bytes : ℕ → (ℕ → ℕ) → List ℕ
first_bytes zero s = []
first_bytes (suc n) s = s 0 ∷ first_bytes n (λ i. s (i + 1))

-- A filled buffer: zeros as far as the digits, and then the digits.
filled_lem :
    (n i j : ℕ) (b : ℕ → ℕ)
    → for_range n i (λ i (b : ℕ → ℕ). update b i b'0') b j
      ≡ (if leb i j && ltb j (i + n) then b'0' else b j)
unfolding for_range
filled_lem zero i j b = ground arith
filled_lem (suc n) i j b = filled_lem n (i + 1) j (update b i b'0') ∙ ground arith

-- Zeros before a number do not change it.
number_of_all_zeros :
    (radix z : ℕ) (s : ℕ → ℕ) → ((j : ℕ) → j < z → s j ≡ b'0') → number_of radix z s ≡ 0
number_of_all_zeros radix zero s zeros = refl
number_of_all_zeros radix (suc z) s zeros =
    rw (zeros z (omega arith), number_of_all_zeros radix z s (λ j lt. zeros j (omega arith)))
      (omega arith)

number_of-zeros :
    (radix z n m : ℕ) (s : ℕ → ℕ)
    → m ≡ z + n
    → ((j : ℕ) → j < z → s j ≡ b'0')
    → number_of radix m s ≡ number_of radix n (λ j. s (z + j))
number_of-zeros radix z zero m s e zeros =
    number_of_all_zeros radix m s (λ j lt. zeros j (omega arith))
number_of-zeros radix z (suc n) zero s e zeros = absurd (omega arith)
number_of-zeros radix z (suc n) (suc m) s e zeros =
    let here : s m ≡ s (z + n) = ap s (omega arith) in
    rw (here, number_of-zeros radix z n m s (omega arith) zeros) refl

padded_lem :
    (value len j : ℕ) (conv_buf : ℕ → ℕ)
    → string_length 33 (itoa value (λ i. conv_buf (i + 8)) 16) ≡ len
    → len ≤ 8
    → j ≤ 8
    → padded conv_buf value (j + len)
      ≡ (if ltb j (8 - len) then b'0' else itoa value (λ i. conv_buf (i + 8)) 16 (j - (8 - len)))
unfolding padded
padded_lem value len j conv_buf e few hj =
    let digits = itoa value (λ i. conv_buf (i + 8)) 16 in
    rw e (
      filled_lem (8 - len) len (j + len) _ ∙ elim (dec_lt j (8 - len)) [
        | yes zero_here ↦ ground arith
        | no digit_here ↦
            let same : j + len - 8 ≡ j - (8 - len) = omega arith in ground (arith, ap digits same)
      ])

string_at-first_bytes :
    (fuel n : ℕ) (s : ℕ → ℕ)
    → n < fuel
    → ((j : ℕ) → j < n → s j ≢ 0)
    → s n ≡ 0
    → string_at fuel s ≡ first_bytes n s
unfolding string_at
string_at-first_bytes zero n s lt text ended = absurd (omega arith)
string_at-first_bytes (suc fuel) zero s lt text ended = rw ended refl
string_at-first_bytes (suc fuel) (suc n) s lt text ended =
    let more : (s 0 == 0) ≡ false = ground (arith, text 0 (omega arith)) in
    rw more (
      ap (λ r. s 0 ∷ r)
        (string_at-first_bytes fuel n (λ i. s (i + 1)) (omega arith)
          (λ j lt. text (j + 1) (omega arith)) (ap s (omega arith) ∙ ended)))

ge→ltb : (a b : ℕ) → b ≤ a → ltb a b ≡ false
ge→ltb a b le = ground arith

-- A byte of the padded number is a zero in front or one of the digits.
padded_char :
    (len j : ℕ) (s digits : ℕ → ℕ)
    → len ≤ 8
    → j < 8
    → ((i : ℕ) → i < 8 - len → s i ≡ b'0')
    → ((i : ℕ) → i ≤ 8 → 8 - len ≤ i → s i ≡ digits (i - (8 - len)))
    → ((i : ℕ) → i < len → (digits i ≢ 0) × IsDigit 16 (digits i))
    → (s j ≢ 0) × IsDigit 16 (s j)
padded_char len j s digits few lt zeros copied text = elim (dec_lt j (8 - len)) [
  | yes front ↦ rw (zeros j front) (omega arith, inl (omega arith, omega arith, omega arith))
  | no ne ↦ rw (copied j (omega arith) (omega arith)) (text (j - (8 - len)) (omega arith))
]

padded_text :
    (len : ℕ) (s digits : ℕ → ℕ)
    → len ≤ 8
    → ((i : ℕ) → i < 8 - len → s i ≡ b'0')
    → ((i : ℕ) → i ≤ 8 → 8 - len ≤ i → s i ≡ digits (i - (8 - len)))
    → ((i : ℕ) → i < len → (digits i ≢ 0) × IsDigit 16 (digits i))
    → digits len ≡ 0
    → (string_at 64 s ≡ first_bytes 8 s)
      × ((j : ℕ) → j < 8 → IsDigit 16 (s j))
      × (number_of 16 8 s ≡ number_of 16 len digits)
padded_text len s digits few zeros copied text ended =
    let last : s 8 ≡ 0 = copied 8 (omega arith) (omega arith) ∙ ap digits (omega arith) ∙ ended in
    (
      string_at-first_bytes 64 8 s (omega arith)
          (λ j lt. (padded_char len j s digits few lt zeros copied text).0) last,
      λ j lt. (padded_char len j s digits few lt zeros copied text).1,
      number_of-zeros 16 (8 - len) len 8 s (omega arith) zeros
          ∙ number_of_ext 16 len (λ j. s (8 - len + j)) digits
              (λ j lt. copied (8 - len + j) (omega arith) (omega arith) ∙ ap digits (omega arith)),
    )

alternate_text_lem :
    (value len : ℕ) (conv_buf : ℕ → ℕ)
    → string_length 33 (itoa value (λ i. conv_buf (i + 8)) 16) ≡ len
    → string_at 64 (λ j. padded conv_buf value (j + len))
      ≡ first_bytes 8 (λ j. padded conv_buf value (j + len))
    → alternate_text conv_buf value ≡ first_bytes 8 (λ j. padded conv_buf value (j + len))
unfolding alternate_text
alternate_text_lem value len conv_buf lens e = rw lens e

-- `%#x` of a 32-bit number, on every state and whatever the conversion buffer holds: `printf` returns 3
-- and writes eight bytes, each a decimal digit or one of the capital letters A to F, that stand for the
-- number in base 16.
pub printf-alternate_text :
    (value : ℕ) (conv_buf : ℕ → ℕ) (k : Kernel)
    → value < word
    → (s : ℕ → ℕ) × (printf conv_buf (b'%' ∷ b'#' ∷ b'x' ∷ []) (Arg.number value ∷ []) k
        ≡ some (3, (puts (first_bytes 8 s) k).1))
      × ((j : ℕ) → j < 8 → IsDigit 16 (s j))
      × (number_of 16 8 s ≡ value)
unfolding printf printf_from convert
printf-alternate_text value conv_buf k small =
    let buf = λ (i : ℕ). conv_buf (i + 8) in
    let digits = itoa value buf 16 in
    let (len, some_digit, few32, ended, text, means, short) =
      number_of-itoa value 16 buf small (omega arith) (omega arith) in
    let few : len ≤ 8 = short 8 (omega arith) (omega arith) in
    let lens : string_length 33 digits ≡ len =
      string_length-eq 33 len digits (omega arith) (λ j lt. (text j lt).0) ended in
    let s = λ (j : ℕ). padded conv_buf value (j + len) in
    let zeros : (j : ℕ) → j < 8 - len → s j ≡ b'0' = λ j lt.
      padded_lem value len j conv_buf lens few (omega arith)
      ∙ ap (λ b. if b then b'0' else digits (j - (8 - len))) (lt→ltb j (8 - len) lt) in
    let copied : (j : ℕ) → j ≤ 8 → 8 - len ≤ j → s j ≡ digits (j - (8 - len)) = λ j le ge.
      padded_lem value len j conv_buf lens few le
      ∙ ap (λ b. if b then b'0' else digits (j - (8 - len))) (ge→ltb j (8 - len) ge) in
    let (shown, base, same) = padded_text len s digits few zeros copied text ended in
    (
      s,
      ap (λ t. some (3, (puts t k).1)) (alternate_text_lem value len conv_buf lens shown),
      base,
      same ∙ means,
    )
