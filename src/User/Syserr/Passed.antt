-- ===== src/User/Syserr/Passed.antt =====
-- The user's tests of system calls pass on this kernel.
use mini_os_with_friends.Base.{
  ℕ, ◌≤◌, ◌<◌, ◌≡◌, ◌≢◌, ◌⊎◌, inl, inr, refl, ◌∙◌, ap, arith, ◌==◌, true, false, Option, some, none,
  List, [], error, if◌then◌else◌, add32, sub32, Bool,
}
use native.Mathlib.Decide.{dec_lt}
use mini_os_with_friends.Base.Loops.{for_range_inv}
use mini_os_with_friends.Base.Texts.{codes}
use mini_os_with_friends.State.{Kernel}
use mini_os_with_friends.CString.{strlen}
use mini_os_with_friends.FileSystem.{Dentry, read_dentry_by_name}
use mini_os_with_friends.Syscall.{reply, open_call}
use mini_os_with_friends.Syscall.Handler.{do_syscall_in_c, after_call, syscall_handler}
use mini_os_with_friends.User.{fdputs}
use mini_os_with_friends.User.Machine.{Setting, kernel_calls, kernel_probes, system_call, outcome}
use mini_os_with_friends.User.Syserr.{
  choice_byte, expect_read, expect_write, expect_close, expect_open, expect_vidmap, expect_call,
  verdict, neg_num, big_num, kernel_pointer, err_neg_fd, err_big_fd, err_open_lots, err_open,
  err_unopened, err_vidmap, err_stdin_out, err_syscall_num, add_fail, run_all, select_test, main,
}
use mini_os_with_friends.User.Syserr.Fails.{Fresh, Names, Names-fs, Taken-usage}
use mini_os_with_friends.User.Syserr.Refused.{Unmoved, Refused, resumed}
use mini_os_with_friends.User.Syserr.Quiet.{
  Quiet, Unmoved-refl, Quiet-start, Quiet-then, Unmoved-resumed, expect_error-Quiet,
  expect_read-Quiet, expect_write-Quiet, expect_close-Quiet, expect_vidmap-Quiet, expect_call-Quiet,
}
use mini_os_with_friends.User.Syserr.Standard.{
  fdputs_stdout, expect_write_stdin, expect_read_stdout,
}
use mini_os_with_friends.User.Syserr.OpenLots.{open_lots-close_lots}

Fresh-Unmoved : (stale : Dentry) (k k' : Kernel) → Unmoved k k' → Fresh stale k → Fresh stale k'
Fresh-Unmoved stale k k' u t = Taken-usage stale 2 2 k k' u.same_image u.same_usage t

free-Refused : (stale : Dentry) (k : Kernel) (fd : ℕ) → Fresh stale k → 2 ≤ fd → Refused k fd
free-Refused stale k fd t lo = elim (dec_lt fd 8) [
  | yes small ↦ inr (t.free fd lo small (inr lo))
  | no big ↦ inl (omega arith)
]

no_empty_name : (k : Kernel) (stale : Dentry) → read_dentry_by_name k [] stale ≡ none
unfolding read_dentry_by_name strlen
no_empty_name k stale = refl

open_call_missing :
    (name : List ℕ) (stale : Dentry) (k : Kernel)
    → read_dentry_by_name k name stale ≡ none
    → open_call (some name) stale k ≡ (error, k)
unfolding open_call
open_call_missing name stale k missing = ground (arith, missing)

-- A test that passes: it returns 0, its last text is the one given, and the program has opened nothing
-- before that text.
abbrev pub Passes : Setting → (text : List ℕ) → ℕ × Option Kernel → Type 0
Passes s text r =
    (k' : Kernel) × (r ≡ (0, fdputs (kernel_calls s) 1 text (some k'))) × Fresh s.stale k'

module _ (s : Setting) (junk : List ℕ) (stale : ℕ) where
  verdict-Passes :
      (pass_text fail_text : List ℕ) (k : Kernel) (r : ℕ × Option Kernel)
      → Fresh s.stale k
      → Quiet k r
      → Passes s pass_text (verdict (kernel_probes s) junk stale pass_text fail_text r)
  unfolding verdict kernel_probes
  verdict-Passes pass_text fail_text k r t q = (
    q.now,
    ap (verdict (kernel_probes s) junk stale pass_text fail_text) q.goes_on,
    Fresh-Unmoved s.stale k q.now q.unmoved t,
  )

  -- The three steps of the first two tests.
  transfers-Quiet :
      (read_text write_text close_text : List ℕ) (fd : ℕ) (k : Kernel)
      → 8 ≤ fd
      → Quiet k (
          expect_close (kernel_probes s) junk stale close_text fd (
            expect_write
              (kernel_probes s)
              junk
              stale
              write_text
              fd
              (expect_read (kernel_probes s) junk stale read_text fd (0, some k))))
  transfers-Quiet read_text write_text close_text fd k big =
      Quiet-then k _ (expect_close (kernel_probes s) junk stale close_text fd)
        (Quiet-then k _ (expect_write (kernel_probes s) junk stale write_text fd)
          (expect_read-Quiet s junk stale read_text fd k (inl big))
          (λ k1 u. expect_write-Quiet s junk stale write_text fd k1 (inl big)))
        (λ k1 u. expect_close-Quiet s junk stale close_text fd k1 (inl (inl big)))

  expect_open-Quiet :
      (text name : List ℕ) (k : Kernel)
      → read_dentry_by_name (resumed k) name s.stale ≡ none
      → Quiet k (expect_open (kernel_probes s) junk stale text name (0, some k))
  unfolding expect_open kernel_calls kernel_probes system_call syscall_handler do_syscall_in_c
      after_call
  expect_open-Quiet text name k missing =
      expect_error-Quiet s junk stale text k (resumed k) _
        (ap (λ (r : ℕ × Kernel). outcome (after_call (reply r)))
          (open_call_missing name s.stale (resumed k) missing))
        (Unmoved-resumed k)

  module _ (k : Kernel) (t : Fresh s.stale k) where
    err_neg_fd-Passes :
        Passes s (codes "err_neg_fd: PASS\n") (err_neg_fd (kernel_probes s) junk stale (some k))
    unfolding err_neg_fd
    err_neg_fd-Passes = verdict-Passes _ _ k _ t (transfers-Quiet _ _ _ neg_num k (omega arith))

    err_big_fd-Passes :
        Passes s (codes "err_big_fd: PASS\n") (err_big_fd (kernel_probes s) junk stale (some k))
    unfolding err_big_fd
    err_big_fd-Passes = verdict-Passes _ _ k _ t (transfers-Quiet _ _ _ big_num k (omega arith))

    err_open_lots-Passes :
        Passes s
          (codes "err_open_lots: PASS\n")
          (err_open_lots (kernel_probes s) junk stale (some k))
    unfolding err_open_lots kernel_probes
    err_open_lots-Passes =
        let (k1, (k2, opened, closed, fresh)) = open_lots-close_lots s junk stale k t in
        (k2, rw (opened, closed) refl, fresh)

    err_open-Passes :
        Passes s (codes "err_open: PASS\n") (err_open (kernel_probes s) junk stale (some k))
    unfolding err_open
    err_open-Passes =
        let names : (k1 : Kernel) → Unmoved k k1 → Names s.stale (resumed k1) =
          λ k1 u. Names-fs s.stale k (resumed k1) u.same_image t.names in
        verdict-Passes _ _ k _ t (
          Quiet-then k _ (expect_open (kernel_probes s) junk stale (codes "empty string fail\n") [])
            (Quiet-then k _
              (expect_open (kernel_probes s) junk stale (codes "'shel' fail\n") (codes "shel"))
              (expect_open-Quiet (codes "'helloo' fail\n") (codes "helloo") k
                (names k (Unmoved-refl k)).no_helloo)
              (λ k1 u. expect_open-Quiet _ _ k1 (names k1 u).no_shel))
            (λ k1 u. expect_open-Quiet _ [] k1 (no_empty_name (resumed k1) s.stale)))

    err_unopened-Passes :
        Passes s (codes "err_unopened: PASS\n") (err_unopened (kernel_probes s) junk stale (some k))
    unfolding err_unopened
    err_unopened-Passes =
        let free : (k1 : Kernel) → Unmoved k k1 → (fd : ℕ) → 2 ≤ fd → Refused k1 fd =
          λ k1 u fd lo. free-Refused s.stale k1 fd (Fresh-Unmoved s.stale k k1 u t) lo in
        let closed =
          for_range_inv (λ i r. Quiet k r)
            (λ i r.
              expect_close (kernel_probes s) junk stale
                (codes "close unopened or invalid fd fail\n") i r)
            8 0 8 (omega arith)
            (λ i r h q.
              Quiet-then k r
                (expect_close (kernel_probes s) junk stale
                  (codes "close unopened or invalid fd fail\n") i)
                q (λ k1 u. expect_close-Quiet s junk stale _ i k1 (closable k1 (free k1 u) i)))
            (0, some k) (Quiet-start k) in
        let was_read =
          for_range_inv (λ i r. (2 ≤ i) × Quiet k r)
            (λ i r.
              expect_read (kernel_probes s) junk stale (codes "read from unopened fd fail\n") i r)
            6 2 8 (omega arith)
            (λ i r h q. (
              omega (arith, q.0),
              Quiet-then k r
                  (expect_read (kernel_probes s) junk stale (codes "read from unopened fd fail\n")
                    i)
                  q.1 (λ k1 u. expect_read-Quiet s junk stale _ i k1 (free k1 u i q.0)),
            ))
            _ (omega arith, closed) in
        let written =
          for_range_inv (λ i r. (2 ≤ i) × Quiet k r)
            (λ i r.
              expect_write (kernel_probes s) junk stale (codes "write to unopened fd fail\n") i r)
            6 2 8 (omega arith)
            (λ i r h q. (
              omega (arith, q.0),
              Quiet-then k r
                  (expect_write (kernel_probes s) junk stale (codes "write to unopened fd fail\n")
                    i)
                  q.1 (λ k1 u. expect_write-Quiet s junk stale _ i k1 (free k1 u i q.0)),
            ))
            _ (omega arith, was_read.1) in
        verdict-Passes _ _ k _ t written.1
      where
        closable :
            (k1 : Kernel) → ((fd : ℕ) → 2 ≤ fd → Refused k1 fd) → (i : ℕ) → Refused k1 i ⊎ (i < 2)
        closable k1 free i = elim (dec_lt i 2) [
          | yes low ↦ inr low
          | no high ↦ inl (free i (omega arith))
        ]

    err_vidmap-Passes :
        Passes s (codes "err_vidmap: PASS\n") (err_vidmap (kernel_probes s) junk stale (some k))
    unfolding err_vidmap
    err_vidmap-Passes = verdict-Passes _ _ k _ t (
        Quiet-then k _
          (expect_vidmap (kernel_probes s) junk stale (codes "Kernel pointer fail fail\n")
            kernel_pointer)
          (expect_vidmap-Quiet s junk stale (codes "Null pointer fail\n") 0 k (omega arith))
          (λ k1 u. expect_vidmap-Quiet s junk stale _ kernel_pointer k1 (omega arith)))

    err_stdin_out-Passes :
        Passes s
          (codes "err_stdin_out: PASS\n")
          (err_stdin_out (kernel_probes s) junk stale (some k))
    unfolding err_stdin_out
    err_stdin_out-Passes = verdict-Passes _ _ k _ t (
        Quiet-then k _
          (expect_read (kernel_probes s) junk stale (codes "read from stdout fail\n") 1)
          (expect_write_stdin s junk stale (codes "write to stdin fail\n") k t.in_open)
          (λ k1 u. expect_read_stdout s junk stale _ k1 (u.same_usage 1 ∙ t.out_open)))

    err_syscall_num-Passes :
        Passes s
          (codes "err_syscall_num: PASS\n")
          (err_syscall_num (kernel_probes s) junk stale (some k))
    unfolding err_syscall_num
    err_syscall_num-Passes = verdict-Passes _ _ k _ t (
        Quiet-then k _ (expect_call (kernel_probes s) junk stale (codes "neg num syscall fail\n") 0)
          (Quiet-then k _
            (expect_call (kernel_probes s) junk stale (codes "big num syscall fail\n") neg_num)
            (expect_call-Quiet s junk stale (codes "syscall 0 fail\n") big_num k (inr (omega arith))
              (omega arith))
            (λ k1 u. expect_call-Quiet s junk stale _ neg_num k1 (inr (omega arith)) (omega arith)))
          (λ k1 u. expect_call-Quiet s junk stale _ 0 k1 (inl refl) (omega arith)))

  -- A test has returned 0, and the program has opened nothing.
  record AllFine (r : ℕ × Option Kernel) : Type 0 where
    now : Kernel
    goes_on : r ≡ (0, some now)
    fresh : Fresh s.stale now

  add_fail-AllFine :
      (text : List ℕ) (test : Option Kernel → ℕ × Option Kernel) (r : ℕ × Option Kernel)
      → ((k : Kernel) → Fresh s.stale k → Passes s text (test (some k)))
      → AllFine r
      → AllFine (add_fail (kernel_probes s) junk stale test r)
  unfolding add_fail
  add_fail-AllFine text test r passes f =
      let (k1, passed, t1) = passes f.now f.fresh in
      let (k2, printed, moved) = fdputs_stdout s text k1 t1.out_open in
      let ran : test (some f.now) ≡ (0, some k2) = passed ∙ ap (λ o. (0, o)) printed in
      record {
        now = k2;
        goes_on =
            ap (add_fail (kernel_probes s) junk stale test) f.goes_on
            ∙ ap (λ (a : ℕ × Option Kernel). (add32 0 a.0, a.1)) ran;
        fresh = Fresh-Unmoved s.stale k1 k2 moved t1;
      }

  run_all-Passes :
      (k : Kernel)
      → Fresh s.stale k
      → Passes s (codes "\nOverall Tests: PASS\n") (run_all (kernel_probes s) junk stale (some k))
  unfolding run_all verdict kernel_probes
  run_all-Passes k t =
      let all = add_fail-AllFine _ _ _ err_syscall_num-Passes (
        add_fail-AllFine _ _ _ err_stdin_out-Passes (
          add_fail-AllFine _ _ _ err_vidmap-Passes (
            add_fail-AllFine _ _ _ err_unopened-Passes (
              add_fail-AllFine _ _ _ err_open-Passes (
                add_fail-AllFine _ _ _ err_open_lots-Passes (
                  add_fail-AllFine _ _ _ err_big_fd-Passes (
                    add_fail-AllFine _ _ _ err_neg_fd-Passes
                      (record { now = k; goes_on = refl; fresh = t })))))))) in
      (
        all.now,
        ap
            (verdict (kernel_probes s) junk stale (codes "\nOverall Tests: PASS\n")
              (codes "\nOverall Tests: FAIL\n"))
            all.goes_on,
        all.fresh,
      )

-- The line that each choice ends with.
unfoldable pub passed_text : (select : ℕ) → List ℕ
passed_text select =
    if select == 0
    then codes "\nOverall Tests: PASS\n"
    else if select == 1
    then codes "err_neg_fd: PASS\n"
    else if select == 2
    then codes "err_big_fd: PASS\n"
    else if select == 3
    then codes "err_open_lots: PASS\n"
    else if select == 4
    then codes "err_open: PASS\n"
    else if select == 5
    then codes "err_unopened: PASS\n"
    else if select == 6
    then codes "err_vidmap: PASS\n"
    else if select == 7
    then codes "err_stdin_out: PASS\n"
    else if select == 8
    then codes "err_syscall_num: PASS\n"
    else codes "Invalid test number. Choose from tests 1-8 or 0"

Passes-if :
    (s : Setting) (b : Bool) (text text' : List ℕ) (r r' : ℕ × Option Kernel)
    → Passes s text r
    → Passes s text' r'
    → Passes s (if b then text else text') (if b then r else r')
Passes-if s true text text' r r' p q = p
Passes-if s false text text' r r' p q = q

select_test-Passes :
    (s : Setting) (junk : List ℕ) (stale select : ℕ) (k : Kernel)
    → Fresh s.stale k
    → Passes s (passed_text select) (select_test (kernel_probes s) junk stale select (some k))
unfolding select_test passed_text kernel_probes
select_test-Passes s junk stale select k t =
    Passes-if s (select == 0) _ _ _ _ (run_all-Passes s junk stale k t) (
      Passes-if s (select == 1) _ _ _ _ (err_neg_fd-Passes s junk stale k t) (
        Passes-if s (select == 2) _ _ _ _ (err_big_fd-Passes s junk stale k t) (
          Passes-if s (select == 3) _ _ _ _ (err_open_lots-Passes s junk stale k t) (
            Passes-if s (select == 4) _ _ _ _ (err_open-Passes s junk stale k t) (
              Passes-if s (select == 5) _ _ _ _ (err_unopened-Passes s junk stale k t) (
                Passes-if s (select == 6) _ _ _ _ (err_vidmap-Passes s junk stale k t) (
                  Passes-if s (select == 7) _ _ _ _ (err_stdin_out-Passes s junk stale k t) (
                    Passes-if s (select == 8) _ _ _ _ (err_syscall_num-Passes s junk stale k t)
                      (k, refl, t)))))))))

-- The program of tests, run by the kernel, when the read of the choice has come back with a line and the
-- program has opened nothing: descriptors 0 and 1 are the terminal's, 2 to 7 are free, `.` is a
-- directory of the image, and no file of it is named `helloo` or `shel`. Then `main` returns 0; for `0`
-- all eight tests have passed and the last line says so, for `1` to `8` the one that is chosen has passed
-- and says so, and any other choice is called invalid. Every call on the way comes back, and what the tests
-- opened is closed again before that line.
pub main-passes :
    (s : Setting) (junk line : List ℕ) (stale cnt : ℕ) (k k1 : Kernel)
    → (kernel_calls s).read 0 127
        (fdputs (kernel_calls s) 1 (codes "Choose from tests 1-8. 0 to run all: ") (some k))
      ≡ (cnt, line, some k1)
    → cnt ≢ error
    → Fresh s.stale k1
    → (k2 : Kernel) × (main (kernel_probes s) junk stale (some k) ≡ (
      0,
      fdputs (kernel_calls s) 1 (passed_text (sub32 (choice_byte stale line) b'0')) (some k2),
    ))
      × Fresh s.stale k2
unfolding main kernel_probes
main-passes s junk line stale cnt k k1 came counted t =
    let select = sub32 (choice_byte stale line) b'0' in
    let (k2, passed, fresh) = select_test-Passes s junk stale select k1 t in
    let fine : (cnt == error) ≡ false = ground (arith, counted) in
    let choose : ℕ × List ℕ × Option Kernel → ℕ × Option Kernel = λ r.
      if r.0 == error
      then (2, fdputs (kernel_calls s) 1 (codes "Can't read test #\n") r.2)
      else select_test (kernel_probes s) junk stale (sub32 (choice_byte stale r.1) b'0') r.2 in
    (k2, ap choose came ∙ rw fine passed, fresh)
