-- ===== src/User/Syserr/Quiet.antt =====
-- Steps of the user's tests that find what they expect.
use mini_os_with_friends.Base.{ℕ, ◌≡◌, ◌≤◌, ◌<◌, ◌⊎◌, refl, ◌∙◌, ap, Option, some, List, error}
use mini_os_with_friends.State.{Kernel}
use mini_os_with_friends.Paging.{virt_addr_program}
use mini_os_with_friends.User.Machine.{Setting, kernel_probes}
use mini_os_with_friends.User.Syserr.{
  expect_error, expect_read, expect_write, expect_close, expect_vidmap, expect_call,
}
use mini_os_with_friends.User.Syserr.Refused.{
  Unmoved, Unmoved-trans, Unmoved-SameFiles, Refused, resumed, resumed_place-SameFiles,
  read-Refused, write-Refused, close-Refused, vidmap_refused, call_refused,
}

abbrev pub Result : Type 0
Result = ℕ × Option Kernel

-- The test goes on, nothing has failed in it, and no descriptor or file has moved since `k`.
pub record Quiet (k : Kernel) (r : Result) : Type 0 where
  pub now : Kernel
  pub goes_on : r ≡ (0, some now)
  pub unmoved : Unmoved k now

pub Unmoved-refl : (k : Kernel) → Unmoved k k
Unmoved-refl k = record { same_image = refl; same_usage = λ j. refl }

pub Unmoved-resumed : (k : Kernel) → Unmoved k (resumed k)
Unmoved-resumed k = record { same_image = refl; same_usage = λ j. refl }

pub Quiet-start : (k : Kernel) → Quiet k (0, some k)
Quiet-start k = record { now = k; goes_on = refl; unmoved = Unmoved-refl k }

-- A step that is quiet from every state like `k` may follow.
pub Quiet-then :
    (k : Kernel) (r : Result) (step : Result → Result)
    → Quiet k r
    → ((k1 : Kernel) → Unmoved k k1 → Quiet k1 (step (0, some k1)))
    → Quiet k (step r)
Quiet-then k r step q next =
    let after = next q.now q.unmoved in
    record {
      now = after.now;
      goes_on = ap step q.goes_on ∙ after.goes_on;
      unmoved = Unmoved-trans k q.now after.now q.unmoved after.unmoved;
    }

module _ (s : Setting) (junk : List ℕ) (stale : ℕ) (text : List ℕ) where
  pub expect_error-Quiet :
      (k k' : Kernel) (r : Result)
      → r ≡ (error, some k')
      → Unmoved k k'
      → Quiet k (expect_error (kernel_probes s) junk stale text 0 r)
  unfolding expect_error
  expect_error-Quiet k k' r e u = record {
    now = k';
    goes_on = ap (expect_error (kernel_probes s) junk stale text 0) e;
    unmoved = u;
  }

  pub expect_read-Quiet :
      (fd : ℕ) (k : Kernel)
      → Refused k fd
      → Quiet k (expect_read (kernel_probes s) junk stale text fd (0, some k))
  unfolding expect_read kernel_probes
  expect_read-Quiet fd k r =
      expect_error-Quiet k (resumed k) _ (ap (λ a. (a.0, a.2)) (read-Refused s fd 31 k r))
        (Unmoved-resumed k)

  pub expect_write-Quiet :
      (fd : ℕ) (k : Kernel)
      → Refused k fd
      → Quiet k (expect_write (kernel_probes s) junk stale text fd (0, some k))
  unfolding expect_write kernel_probes
  expect_write-Quiet fd k r =
      expect_error-Quiet k _ _ (write-Refused s fd junk k r)
        (Unmoved-SameFiles k _ (resumed_place-SameFiles s.text junk k))

  pub expect_close-Quiet :
      (fd : ℕ) (k : Kernel)
      → Refused k fd ⊎ (fd < 2)
      → Quiet k (expect_close (kernel_probes s) junk stale text fd (0, some k))
  unfolding expect_close
  expect_close-Quiet fd k r =
      expect_error-Quiet k (resumed k) _ (close-Refused s fd k r) (Unmoved-resumed k)

  pub expect_vidmap-Quiet :
      (a : ℕ) (k : Kernel)
      → a < virt_addr_program
      → Quiet k (expect_vidmap (kernel_probes s) junk stale text a (0, some k))
  unfolding expect_vidmap
  expect_vidmap-Quiet a k below =
      expect_error-Quiet k (resumed k) _ (vidmap_refused s a k below) (Unmoved-resumed k)

  pub expect_call-Quiet :
      (num : ℕ) (k : Kernel)
      → (num ≡ 0) ⊎ (11 ≤ num)
      → num < 0x100000000
      → Quiet k (expect_call (kernel_probes s) junk stale text num (0, some k))
  unfolding expect_call
  expect_call-Quiet num k bad small =
      expect_error-Quiet k (resumed k) _ (call_refused s num k bad small) (Unmoved-resumed k)
