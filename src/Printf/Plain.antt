-- ===== src/Printf/Plain.antt =====
-- A format without a percent sign.
use mini_os_with_friends.Base.{
  ℕ, ◌<◌, ◌≡◌, refl, ◌≢◌, some, List, [], ◌∷◌, arith, ◌==◌, length, word, false,
}
use mini_os_with_friends.State.{Kernel}
use mini_os_with_friends.Screen.{terminal_putc, puts}
use mini_os_with_friends.Printf.{printf, printf_from, Mode}

-- No byte is a percent sign.
pub data IsPlainFormat : List ℕ → Type 0 where
  empty : IsPlainFormat []
  next : {c : ℕ} {s : List ℕ} → c ≢ b'%' → IsPlainFormat s → IsPlainFormat (c ∷ s)

printf_from-puts :
    (conv_buf : ℕ → ℕ) (s : List ℕ) (k : Kernel)
    → IsPlainFormat s
    → printf_from conv_buf Mode.plain s [] k ≡ some (puts s k).1
unfolding printf_from puts
printf_from-puts conv_buf [] k IsPlainFormat.empty = refl
printf_from-puts conv_buf (c ∷ s) k (IsPlainFormat.next ne rest) =
    let no_percent : (c == b'%') ≡ false = ground arith in
    rw no_percent (printf_from-puts conv_buf s (terminal_putc c k.active_terminal k) rest)

puts-length : (s : List ℕ) (k : Kernel) → length s < word → (puts s k).0 ≡ length s
unfolding puts
puts-length [] k small = refl
puts-length (c ∷ s) k small =
    omega (arith, puts-length s (terminal_putc c k.active_terminal k) (omega arith))

-- A format of fewer than 2 ^ 32 bytes that holds no percent sign is printed as `puts` prints it, with
-- the same value and the same state.
pub printf-puts :
    (conv_buf : ℕ → ℕ) (s : List ℕ) (k : Kernel)
    → IsPlainFormat s
    → length s < word
    → printf conv_buf s [] k ≡ some (puts s k)
unfolding printf
printf-puts conv_buf s k plain small =
    ground (arith, printf_from-puts conv_buf s k plain, puts-length s k small)
