-- ===== src/Rtc/Timing.antt =====
-- How long a read of the clock waits, and which frequencies can be set.
use mini_os_with_friends.Base.{
  ℕ, zero, suc, ◌-◌, ◌*◌, ◌∙◌, ap, true, ◌||◌, ◌^◌, ◌≤◌, ◌<◌, ◌≡◌, refl, ◌⊎◌, inl, inr, none, some,
  arith, ◌==◌, error, word,
}
use mathlib.Core.Option
use native.Mathlib.Decide.{ℕ_discrete, dec_lt}
use mini_os_with_friends.Base.Bits.{all_below, all_below_sound}
use mini_os_with_friends.State.{Terminal, Kernel}
use mini_os_with_friends.Memory.{read_word, set_terminal, active}
use mini_os_with_friends.Pic.{send_eoi}
use mini_os_with_friends.Rtc.{
  hz_to_bin, change_freq_virt, tick, rtc_intr, rtc_wait, rtc_read, rtc_write,
}

-- An interrupt of the clock ticks each of the three terminals once.
pub rtc_intr-terminal : (k : Kernel) (i : ℕ) → i < 3 → (rtc_intr k).terminal i ≡ tick (k.terminal i)
unfolding rtc_intr send_eoi
rtc_intr-terminal k zero h = refl
rtc_intr-terminal k (suc zero) h = refl
rtc_intr-terminal k (suc (suc zero)) h = refl
rtc_intr-terminal k (suc (suc (suc i))) h = absurd (omega arith)

pub rtc_intr-active_terminal : (k : Kernel) → (rtc_intr k).active_terminal ≡ k.active_terminal
unfolding rtc_intr send_eoi
rtc_intr-active_terminal k = refl

-- The clock of a terminal that runs a shell and that set its clock.
pub record IsRunning (t : Terminal) : Type 0 where
  pub started : t.init_flag ≡ 1
  pub counts : 0 < t.rtc_counter
  pub counter_word : t.rtc_counter < word

tick-last :
    (t : Terminal)
    → IsRunning t
    → t.rtc_counter ≡ 1
    → tick t ≡ record t { rtc_flag = 0; rtc_counter = t.rtc_target }
unfolding tick
tick-last t r h = ground arith

tick-more :
    (t : Terminal)
    → IsRunning t
    → 1 < t.rtc_counter
    → tick t ≡ record t { rtc_counter = t.rtc_counter - 1 }
unfolding tick
tick-more t r h = ground arith

active-rtc_intr : (k : Kernel) → k.active_terminal < 3 → active (rtc_intr k) ≡ tick (active k)
active-rtc_intr k h = rw (rtc_intr-active_terminal k) (rtc_intr-terminal k k.active_terminal h)

-- One more interrupt while the reader still waits.
active-rtc_intr_more :
    (k : Kernel)
    → k.active_terminal < 3
    → IsRunning (active k)
    → 1 < (active k).rtc_counter
    → active (rtc_intr k) ≡ record (active k) { rtc_counter = (active k).rtc_counter - 1 }
active-rtc_intr_more k h r m = active-rtc_intr k h ∙ tick-more (active k) r m

active-rtc_intr_last :
    (k : Kernel)
    → k.active_terminal < 3
    → IsRunning (active k)
    → (active k).rtc_counter ≡ 1
    → active (rtc_intr k) ≡ record (active k) { rtc_flag = 0; rtc_counter = (active k).rtc_target }
active-rtc_intr_last k h r m = active-rtc_intr k h ∙ tick-last (active k) r m

-- The reader after the last interrupt that it waits for.
pub record HasWaited (k k' : Kernel) : Type 0 where
  pub same_terminal : k'.active_terminal ≡ k.active_terminal
  pub flag_cleared : (active k').rtc_flag ≡ 0
  pub restarted : (active k').rtc_counter ≡ (active k).rtc_target
  pub same_target : (active k').rtc_target ≡ (active k).rtc_target

rtc_wait_more :
    (n : ℕ) (k : Kernel) → (active k).rtc_flag ≡ 1 → rtc_wait (suc n) k ≡ rtc_wait n (rtc_intr k)
unfolding rtc_wait
rtc_wait_more n k f = ground arith

rtc_wait_blocked : (k : Kernel) → (active k).rtc_flag ≡ 1 → rtc_wait 0 k ≡ none
unfolding rtc_wait
rtc_wait_blocked k f = ground arith

rtc_wait_over : (n : ℕ) (k : Kernel) → (active k).rtc_flag ≡ 0 → rtc_wait n k ≡ some k
unfolding rtc_wait
rtc_wait_over zero k f = ground arith
rtc_wait_over (suc n) k f = ground arith

pub rtc_wait_early :
    (n : ℕ) (k : Kernel)
    → k.active_terminal < 3
    → IsRunning (active k)
    → (active k).rtc_flag ≡ 1
    → n < (active k).rtc_counter
    → rtc_wait n k ≡ none
rtc_wait_early zero k a r f h = rtc_wait_blocked k f
rtc_wait_early (suc n) k a r f h =
    rtc_wait_more n k f
    ∙ rtc_wait_early n (rtc_intr k) (rw (rtc_intr-active_terminal k) a) (rw more (ground arith))
        (rw more f) (rw more (omega arith))
  where
    more : active (rtc_intr k) ≡ record (active k) { rtc_counter = (active k).rtc_counter - 1 }
    more = active-rtc_intr_more k a r (omega arith)

pub rtc_wait_done :
    (n : ℕ) (k : Kernel)
    → k.active_terminal < 3
    → IsRunning (active k)
    → (active k).rtc_flag ≡ 1
    → (active k).rtc_counter ≤ n
    → (k' : Kernel) × (rtc_wait n k ≡ some k') × HasWaited k k'
rtc_wait_done zero k a r f h = absurd (omega (arith, r.counts))
rtc_wait_done (suc n) k a r f h = elim (ℕ_discrete (active k).rtc_counter 1) [
  | yes e ↦
      let last = active-rtc_intr_last k a r e in
      (
        rtc_intr k,
        rtc_wait_more n k f ∙ rtc_wait_over n (rtc_intr k) (rw last refl),
        record {
          same_terminal = rtc_intr-active_terminal k;
          flag_cleared = rw last refl;
          restarted = rw last refl;
          same_target = rw last refl;
        },
      )
  | no e ↦
      let more = active-rtc_intr_more k a r (omega (arith, r.counts)) in
      let (k', ended, w) =
        rtc_wait_done n (rtc_intr k) (rw (rtc_intr-active_terminal k) a) (rw more (ground arith))
          (rw more f) (rw more (omega arith)) in
      (
        k',
        rtc_wait_more n k f ∙ ended,
        record {
          same_terminal = w.same_terminal ∙ rtc_intr-active_terminal k;
          flag_cleared = w.flag_cleared;
          restarted = w.restarted ∙ rw more refl;
          same_target = w.same_target ∙ rw more refl;
        },
      )
]

-- A read of the clock returns once `rtc_counter` interrupts have come and no sooner, and then the
-- count starts again at the target. (The reading terminal runs a shell, and only the clock
-- interrupts meanwhile.)
pub rtc_read_waits :
    (ticks : ℕ) (k : Kernel)
    → k.active_terminal < 3
    → IsRunning (active k)
    → (ticks < (active k).rtc_counter × (rtc_read ticks k ≡ none))
      ⊎ ((active k).rtc_counter ≤ ticks
          × ((k' : Kernel) × (rtc_read ticks k ≡ some (0, k')) × HasWaited k k'))
unfolding rtc_read
rtc_read_waits ticks k a r = elim (dec_lt ticks (active k).rtc_counter) [
  | yes h ↦ inl (
    h,
    ap (Option.map (λ k'. (0, k')))
        (rtc_wait_early ticks flagged a (ground arith) (ground arith) (ground arith)),
  )
  | no h ↦
      let (k', ended, w) =
        rtc_wait_done ticks flagged a (ground arith) (ground arith) (ground arith) in
      inr (
        omega arith,
        (
          k',
          ap (Option.map (λ k'. (0, k'))) ended,
          record {
            same_terminal = w.same_terminal;
            flag_cleared = w.flag_cleared;
            restarted = w.restarted ∙ ground arith;
            same_target = w.same_target ∙ ground arith;
          },
        ),
      )
]
  where
    flagged : Kernel
    flagged = set_terminal k.active_terminal (record (active k) { rtc_flag = 1 }) k

power_table : all_below 11 (λ e. e == 0 || hz_to_bin (2 ^ e) == 16 - e) ≡ true
unfolding all_below hz_to_bin
power_table = refl

-- The frequencies that the clock takes are the powers of two from 2 to 1024: the code of `2 ^ e` is
-- `16 - e`, and a frequency that has a code at all is the power that the code stands for.
pub hz_to_bin-powers :
    (e freq : ℕ)
    → 1 ≤ e
    → e ≤ 10
    → (hz_to_bin (2 ^ e) ≡ 16 - e) × ((hz_to_bin freq ≡ 0) ⊎ (freq ≡ 2 ^ (16 - hz_to_bin freq)))
hz_to_bin-powers e freq lo hi =
    (ground (arith, all_below_sound 11 _ e power_table (omega arith)), coded freq)
  where
    coded : (f : ℕ) → (hz_to_bin f ≡ 0) ⊎ (f ≡ 2 ^ (16 - hz_to_bin f))
    coded f = unfold hz_to_bin in ground arith

-- A write of a frequency that the clock has sets the terminal's counter and target to the number of
-- hardware interrupts in one virtual period, and answers 4; the product of the two is 1024. Any other
-- frequency, and a null pointer, is answered with -1 and changes nothing.
pub rtc_write_lem :
    (buf : ℕ) (k : Kernel)
    → ((rtc_write buf k ≡ (error, k)) × ((buf ≡ 0) ⊎ (hz_to_bin (read_word k buf) ≡ 0)))
      ⊎ (((rtc_write buf k).0 ≡ 4)
          × ((active (rtc_write buf k).1).rtc_counter * read_word k buf ≡ 1024)
          × ((active (rtc_write buf k).1).rtc_target ≡ (active (rtc_write buf k).1).rtc_counter))
unfolding rtc_write change_freq_virt
rtc_write_lem buf k = ground arith
