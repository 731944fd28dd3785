-- ===== src/User/Shell/Rounds.antt =====
-- What the shell does with a line.
use mini_os_with_friends.Base.{
  ℕ, ◌≡◌, ◌≢◌, refl, ◌∙◌, ap, arith, ◌==◌, true, false, List, [], ◌∷◌, ◌++◌, error,
}
use mini_os_with_friends.CString.Compare.{IsText}
use mini_os_with_friends.User.{Calls, fdputs}
use mini_os_with_friends.User.Support.{strcmp}
use mini_os_with_friends.User.Support.Compare.{strcmp-strncmp}
use mini_os_with_friends.User.Shell.{
  Round, report, shell_round, take_command, drop_newline, c_string, prompt_text, exit_text,
}

drop_newline-line : (s : List ℕ) → drop_newline (s ++ (0x0A ∷ [])) ≡ s
unfolding drop_newline
drop_newline-line [] = refl
drop_newline-line (c ∷ []) = refl
drop_newline-line (c ∷ d ∷ s) = ap (λ r. c ∷ r) (drop_newline-line (d ∷ s))

c_string-text : (s : List ℕ) → IsText s → c_string s ≡ s
unfolding c_string
c_string-text [] t = refl
c_string-text (c ∷ s) (some_byte, small, t) =
    let here : (c == 0) ≡ false = ground (arith, some_byte) in rw (here, c_string-text s t) refl

IsText-exit : IsText exit_text
IsText-exit = (
  omega arith,
  omega arith,
  (omega arith, omega arith, (omega arith, omega arith, (omega arith, omega arith, tt))),
)

take_command_lem :
    {S : Type 0} (calls : Calls S) (cnt c : ℕ) (s : List ℕ) (k : S)
    → cnt ≢ error
    → IsText (c ∷ s)
    → ((c ∷ s) ≡ exit_text → take_command calls cnt (c ∷ s) k ≡ Round.returned 0 k)
      × ((c ∷ s) ≢ exit_text
          → take_command calls cnt (c ∷ s) k
            ≡ Round.again (report calls (calls.execute (c ∷ s) k).0 (calls.execute (c ∷ s) k).1))
unfolding take_command
take_command_lem calls cnt c s k counted t =
    let fine : (cnt == error) ≡ false = ground (arith, counted) in
    let decides = (strcmp-strncmp (c ∷ s) exit_text t IsText-exit).0 in
    (
      λ same.
          let equal : (strcmp (c ∷ s) exit_text == 0) ≡ true = ground (arith, decides.1 same) in
          rw (fine, equal) refl,
      λ other.
          let differs : (strcmp (c ∷ s) exit_text == 0) ≡ false =
            ground (arith, λ (e : strcmp (c ∷ s) exit_text ≡ 0). other (decides.0 e)) in
          rw (fine, differs) refl,
    )

-- When the keyboard gives the shell a line of nonzero bytes and a newline behind them, with at least
-- one byte before the newline and a count other than -1: for `exit` the shell returns 0, and any
-- other line is executed without its newline, what there is to say of the value is printed, and the
-- next round begins.
pub shell_round_lem :
    {S : Type 0} (calls : Calls S) (cnt c : ℕ) (s : List ℕ) (k k1 : S)
    → calls.read 0 1023 (fdputs calls 1 prompt_text k) ≡ (cnt, c ∷ s ++ (0x0A ∷ []), k1)
    → cnt ≢ error
    → IsText (c ∷ s)
    → ((c ∷ s) ≡ exit_text → shell_round calls k ≡ Round.returned 0 k1)
      × ((c ∷ s) ≢ exit_text
          → shell_round calls k
            ≡ Round.again (report calls (calls.execute (c ∷ s) k1).0 (calls.execute (c ∷ s) k1).1))
unfolding shell_round
shell_round_lem {S = S} calls cnt c s k k1 came counted t =
    let line : c_string (drop_newline (c ∷ s ++ (0x0A ∷ []))) ≡ c ∷ s =
      ap c_string (drop_newline-line (c ∷ s)) ∙ c_string-text (c ∷ s) t in
    let round : shell_round calls k ≡ take_command calls cnt (c ∷ s) k1 =
      ap (λ (r : ℕ × List ℕ × S). take_command calls r.0 (c_string (drop_newline r.1)) r.2) came
      ∙ ap (λ r. take_command calls cnt r k1) line in
    let (leaves, runs) = take_command_lem calls cnt c s k1 counted t in
    (λ same. round ∙ leaves same, λ other. round ∙ runs other)
