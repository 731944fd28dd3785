-- ===== src/User/Syserr.antt =====
-- syscalls/ece391syserr.c: the user's own tests of how system calls fail.
pub mod Fails
pub mod Refused
pub mod Quiet
pub mod Standard
pub mod OpenLots
pub mod Passed
pub mod Started
use mini_os_with_friends.Base.{
  ℕ, ◌+◌, ◌∷◌, Option, none, some, List, [], ◌==◌, ◌!=◌, if◌then◌else◌, error, add32, sub32,
}
use mini_os_with_friends.Base.Loops.{for_range}
use mini_os_with_friends.Base.Texts.{codes}
use mini_os_with_friends.User.{Calls, fdputs}

-- What the tests call besides the calls of the other programs. `vidmap` takes the address, and
-- `call_sys` the number of a call.
pub record Probes (S : Type 0) : Type 0 where
  pub calls : Calls S
  pub close : (fd : ℕ) → S → ℕ × S
  pub vidmap : (screen_start : ℕ) → S → ℕ × S
  pub call_sys : (num : ℕ) → S → ℕ × S

-- -1073741823 and 1073741823
abbrev pub neg_num : ℕ
neg_num = 0xC0000001

abbrev pub big_num : ℕ
big_num = 0x3FFFFFFF

abbrev pub kernel_pointer : ℕ
kernel_pointer = 0x400000

-- The first byte of the line, or of the buffer where the line is empty.
abbrev pub choice_byte : ℕ → List ℕ → ℕ
choice_byte stale [] = stale
choice_byte stale (c ∷ s) = c

-- `junk` is what the buffer of 31 bytes holds, which no code has written, and `stale` the first byte
-- of the buffer in `main`.
module _ {S : Type 0} (p : Probes S) (junk : List ℕ) (stale : ℕ) where
  -- `if (-1 != value) { fail = 2; fdputs(1, text); }`
  unfoldable pub expect_error : (text : List ℕ) → (fail : ℕ) → ℕ × S → ℕ × S
  expect_error text fail (value, k) =
      if value != error then (2, fdputs p.calls 1 text k) else (fail, k)

  unfoldable pub expect_read : (text : List ℕ) → (fd : ℕ) → ℕ × S → ℕ × S
  expect_read text fd (fail, k) =
      let (value, buf, k1) = p.calls.read fd 31 k in expect_error text fail (value, k1)

  unfoldable pub expect_write : (text : List ℕ) → (fd : ℕ) → ℕ × S → ℕ × S
  expect_write text fd (fail, k) = expect_error text fail (p.calls.write fd junk k)

  unfoldable pub expect_close : (text : List ℕ) → (fd : ℕ) → ℕ × S → ℕ × S
  expect_close text fd (fail, k) = expect_error text fail (p.close fd k)

  unfoldable pub expect_open : (text name : List ℕ) → ℕ × S → ℕ × S
  expect_open text name (fail, k) = expect_error text fail (p.calls.open_path name k)

  unfoldable pub expect_vidmap : (text : List ℕ) → (screen_start : ℕ) → ℕ × S → ℕ × S
  expect_vidmap text screen_start (fail, k) = expect_error text fail (p.vidmap screen_start k)

  unfoldable pub expect_call : (text : List ℕ) → (num : ℕ) → ℕ × S → ℕ × S
  expect_call text num (fail, k) = expect_error text fail (p.call_sys num k)

  -- The line that a test ends with.
  unfoldable pub verdict : (pass_text fail_text : List ℕ) → ℕ × S → ℕ × S
  verdict pass_text fail_text (fail, k) =
      (fail, fdputs p.calls 1 (if fail != 0 then fail_text else pass_text) k)

  unfoldable pub err_neg_fd : S → ℕ × S
  err_neg_fd k = verdict (codes "err_neg_fd: PASS\n") (codes "err_neg_fd: FAIL\n") (
      expect_close (codes "close fail\n") neg_num (
        expect_write (codes "write fail\n") neg_num
          (expect_read (codes "read fail\n") neg_num (0, k))))

  unfoldable pub err_big_fd : S → ℕ × S
  err_big_fd k = verdict (codes "err_big_fd: PASS\n") (codes "err_big_fd: FAIL\n") (
      expect_close (codes "close fail\n") big_num (
        expect_write (codes "write fail\n") big_num
          (expect_read (codes "read fail\n") big_num (0, k))))

  -- The two loops of the next test: how many opens failed, and the closes.
  unfoldable pub open_again : ℕ × S → ℕ × S
  open_again (cnt, k) =
      let (fd, k1) = p.calls.open_path (codes ".") k in ((if fd == error then cnt + 1 else cnt), k1)

  unfoldable pub open_lots : (rounds : ℕ) → ℕ × S → ℕ × S
  open_lots rounds start = for_range rounds 0 (λ i r. open_again r) start

  unfoldable pub close_lots : (rounds first : ℕ) → S → S
  close_lots rounds first k = for_range rounds first (λ i (k1 : S). (p.close i k1).1) k

  unfoldable pub err_open_lots : S → ℕ × S
  err_open_lots k =
      let (cnt, k1) = open_lots 7 (0, k) in
      let k2 = close_lots 6 2 k1 in
      if cnt == 1
      then (0, fdputs p.calls 1 (codes "err_open_lots: PASS\n") k2)
      else (2, fdputs p.calls 1 (codes "err_open_lots: FAIL\n") k2)

  unfoldable pub err_open : S → ℕ × S
  err_open k = verdict (codes "err_open: PASS\n") (codes "err_open: FAIL\n") (
      expect_open (codes "empty string fail\n") [] (
        expect_open (codes "'shel' fail\n") (codes "shel")
          (expect_open (codes "'helloo' fail\n") (codes "helloo") (0, k))))

  unfoldable pub err_unopened : S → ℕ × S
  err_unopened k =
      let closed =
        for_range 8 0 (λ i r. expect_close (codes "close unopened or invalid fd fail\n") i r)
          (0, k) in
      let was_read =
        for_range 6 2 (λ i r. expect_read (codes "read from unopened fd fail\n") i r) closed in
      let written =
        for_range 6 2 (λ i r. expect_write (codes "write to unopened fd fail\n") i r) was_read in
      verdict (codes "err_unopened: PASS\n") (codes "err_unopened: FAIL\n") written

  unfoldable pub err_vidmap : S → ℕ × S
  err_vidmap k = verdict (codes "err_vidmap: PASS\n") (codes "err_vidmap: FAIL\n") (
      expect_vidmap (codes "Kernel pointer fail fail\n") kernel_pointer
        (expect_vidmap (codes "Null pointer fail\n") 0 (0, k)))

  unfoldable pub err_stdin_out : S → ℕ × S
  err_stdin_out k = verdict (codes "err_stdin_out: PASS\n") (codes "err_stdin_out: FAIL\n") (
      expect_read (codes "read from stdout fail\n") 1
        (expect_write (codes "write to stdin fail\n") 0 (0, k)))

  unfoldable pub err_syscall_num : S → ℕ × S
  err_syscall_num k = verdict (codes "err_syscall_num: PASS\n") (codes "err_syscall_num: FAIL\n") (
      expect_call (codes "neg num syscall fail\n") 0 (
        expect_call (codes "big num syscall fail\n") neg_num
          (expect_call (codes "syscall 0 fail\n") big_num (0, k))))

  -- `fail += test();`
  unfoldable pub add_fail : (test : S → ℕ × S) → ℕ × S → ℕ × S
  add_fail test (fail, k) = let (more, k1) = test k in (add32 fail more, k1)

  unfoldable pub run_all : S → ℕ × S
  run_all k = verdict (codes "\nOverall Tests: PASS\n") (codes "\nOverall Tests: FAIL\n") (
      add_fail err_syscall_num (
        add_fail err_stdin_out (
          add_fail err_vidmap (
            add_fail err_unopened (
              add_fail err_open
                (add_fail err_open_lots (add_fail err_big_fd (add_fail err_neg_fd (0, k)))))))))

  -- The `switch`.
  unfoldable pub select_test : (select : ℕ) → S → ℕ × S
  select_test select k =
      if select == 0
      then run_all k
      else if select == 1
      then err_neg_fd k
      else if select == 2
      then err_big_fd k
      else if select == 3
      then err_open_lots k
      else if select == 4
      then err_open k
      else if select == 5
      then err_unopened k
      else if select == 6
      then err_vidmap k
      else if select == 7
      then err_stdin_out k
      else if select == 8
      then err_syscall_num k
      else (0, fdputs p.calls 1 (codes "Invalid test number. Choose from tests 1-8 or 0") k)

  unfoldable pub main : S → ℕ × S
  main k =
      let (cnt, buf, k1) =
        p.calls.read 0 127 (fdputs p.calls 1 (codes "Choose from tests 1-8. 0 to run all: ") k) in
      if cnt == error
      then (2, fdputs p.calls 1 (codes "Can't read test #\n") k1)
      else select_test (sub32 (choice_byte stale buf) b'0') k1
