-- ===== src/System/Interrupts.antt =====
-- The three interrupts keep the screens and the lines sound.
use mini_os_with_friends.Base.{
  ℕ, ◌≤◌, ◌<◌, ◌≡◌, ◌⊎◌, refl, ◌∙◌, arith, ◌==◌, ◌&&◌, ◌!=◌, if◌then◌else◌, Bool, true, false,
  Option-cases, inl, inr, Option, none, some, List, error, lt_signed, bit_and,
}
use mini_os_with_friends.Base.Loops.{for_range, for_range_inv}
use mini_os_with_friends.State.{Terminal, Kernel, Keys}
use mini_os_with_friends.Memory.{set_terminal, active}
use mini_os_with_friends.Paging.{virt_to_phys_user, remap_video_mem_user}
use mini_os_with_friends.Pic.{cli, sti, send_eoi}
use mini_os_with_friends.FileSystem.{Dentry}
use mini_os_with_friends.Screen.{clear, update_screen_xy, get_screen_x, get_screen_y}
use mini_os_with_friends.Process.{Outcome, Frame, execute_call, shell_command, set_tss}
use mini_os_with_friends.Terminal.{save, restore, switch_screen, ignore_result, open_terminal}
use mini_os_with_friends.Keyboard.{
  after_switch, switch_to, key_pressed, print_keycode, modifiers, edit_line, lookup_char,
  shadow_index,
}
use mini_os_with_friends.Rtc.{tick, rtc_intr}
use mini_os_with_friends.Pit.{
  Switch, save_context, next_terminal, start_shell, switch_process, init_is, pit_intr,
}
use mini_os_with_friends.System.Text.{
  IsSound, IsSound-Agree, Agree, Agree-trans, set_terminal-Agree, text_of,
}
use mini_os_with_friends.System.Output.{clear-IsSound, edit_line-IsSound, update_screen_xy-Agree}
use mini_os_with_friends.System.Calls.{
  Agree-refl, Agree-eq, send_eoi-Agree, execute_call-Agree, virt_to_phys_user-Agree, set_tss-Agree,
}

-- The clock's interrupt changes no text.
tick-text_of : (t : Terminal) → text_of (tick t) ≡ text_of t
unfolding tick
tick-text_of t = ground arith

pub rtc_intr-IsSound : (k : Kernel) → IsSound k → IsSound (rtc_intr k)
unfolding rtc_intr
rtc_intr-IsSound k v =
    let step = λ (i : ℕ) (k1 : Kernel). set_terminal i (tick (k1.terminal i)) k1 in
    let ticked : Agree k (for_range 3 0 step (cli k)) =
      for_range_inv (λ i (k1 : Kernel). Agree k k1) step 3 0 3 refl
        (λ i k1 lt p.
          Agree-trans k k1 (step i k1) p
            (set_terminal-Agree i (tick (k1.terminal i)) k1 (tick-text_of (k1.terminal i))))
        (cli k) (λ i. refl) in
    IsSound-Agree k (rtc_intr k) (λ i. send_eoi-Agree 8 _ i ∙ ticked i) v

-- What a call leaves whose result is passed on or dropped.
ignore_result-some :
    (r : Option (Outcome × Kernel)) (o : Outcome) (k' : Kernel)
    → ignore_result r ≡ some (o, k')
    → (o' : Outcome) × (r ≡ some (o', k'))
unfolding ignore_result
ignore_result-some none o k' e = ground arith
ignore_result-some (some (Outcome.returned v, k)) o k' e = (Outcome.returned v, ground arith)
ignore_result-some (some (Outcome.entered p s, k)) o k' e = (Outcome.entered p s, ground arith)
ignore_result-some (some (Outcome.resumed a b c, k)) o k' e = (Outcome.resumed a b c, ground arith)

next_terminal-IsSound : (k : Kernel) → IsSound k → IsSound (next_terminal k)
unfolding next_terminal remap_video_mem_user
next_terminal-IsSound k v = record {
  texts = v.texts;
  active_is = omega arith;
  displayed_is = v.displayed_is;
}

save_context-Agree : (esp ebp : ℕ) (k : Kernel) → Agree k (save_context esp ebp k)
unfolding save_context
save_context-Agree esp ebp k i = refl

start_shell-IsSound :
    (frame : Frame) (stale : Dentry) (esp ebp : ℕ) (k k' : Kernel) (s : Switch)
    → IsSound k
    → start_shell frame stale esp ebp k ≡ some (s, k')
    → IsSound k'
unfolding start_shell
start_shell-IsSound frame stale esp ebp k k' s v e =
    let turned = next_terminal (save_context esp ebp k) in
    let w =
      next_terminal-IsSound (save_context esp ebp k)
        (IsSound-Agree k (save_context esp ebp k) (save_context-Agree esp ebp k) v) in
    elim (Option-cases (ignore_result (execute_call frame stale shell_command turned))) [
      | inl waits ↦ ground arith
      | inr ((o, k1), done) ↦
          let (o', started) = ignore_result-some _ o k1 done in
          let same : k' ≡ k1 = ground arith in
          IsSound-Agree turned k'
            (Agree-eq turned k1 k'
              (execute_call-Agree frame stale shell_command turned k1 o' started) same)
            w
    ]

switch_process-IsSound :
    (esp ebp : ℕ) (k : Kernel) → IsSound k → IsSound (switch_process esp ebp k).1
unfolding switch_process
switch_process-IsSound esp ebp k v =
    let saved = save_context esp ebp (record k { done_init_terminal = 1 }) in
    let k1 = next_terminal saved in
    let k2 = virt_to_phys_user (active k1).pid k1 in
    IsSound-Agree k1 (set_tss (active k2).pid k2)
      (Agree-trans k1 k2 (set_tss (active k2).pid k2) (virt_to_phys_user-Agree (active k1).pid k1)
        (set_tss-Agree (active k2).pid k2))
      (next_terminal-IsSound saved (
        IsSound-Agree k saved
          (λ i. save_context-Agree esp ebp (record k { done_init_terminal = 1 }) i) v))

with_count : (k : Kernel) (n : ℕ) → IsSound k → IsSound (record k { init_count = n })
with_count k n v = IsSound-Agree k (record k { init_count = n }) (λ i. refl) v

-- Which branch gave the result.
chosen {ℓ} :
    {A : Type ℓ} (b : Bool) (x y : A) {r : A} → (if b then x else y) ≡ r → (x ≡ r) ⊎ (y ≡ r)
chosen true x y e = inl e
chosen false x y e = inr e

same_state :
    {A : Type 0} (a b : A) (k k1 k' : Kernel)
    → Agree k k1
    → IsSound k
    → ◌≡◌ {A = Option (A × Kernel)} (some (a, k1)) (some (b, k'))
    → IsSound k'
same_state a b k k1 k' p v e = IsSound-Agree k k' (Agree-eq k k1 k' p (cc e)) v

pub pit_intr-IsSound :
    (frame : Frame) (stale : Dentry) (esp ebp : ℕ) (k k' : Kernel) (s : Switch)
    → IsSound k
    → pit_intr frame stale esp ebp k ≡ some (s, k')
    → IsSound k'
unfolding pit_intr
pit_intr-IsSound frame stale esp ebp k0 k' s v0 e =
    let k = send_eoi 0 k0 in
    let v = IsSound-Agree k0 k (send_eoi-Agree 0 k0) v0 in
    let (out, moved) = switch_process esp ebp k in
    elim (chosen (init_is 0 0 k) _ _ e) [
      | inl idle ↦ same_state (Switch.left (Outcome.returned 0)) s k k k' (Agree-refl k) v idle
      | inr go ↦
          elim (chosen (init_is 0 1 k && init_is 1 0 k && init_is 2 0 k && k.init_count == 0) _ _
            go) [
              | inl first ↦
                  start_shell-IsSound frame stale esp ebp (record k { init_count = 1 }) k' s
                    (with_count k 1 v) first
              | inr later ↦
                  elim (chosen
                    (init_is 0 1 k && init_is 1 1 k && init_is 2 0 k && k.init_count == 1) _ _
                    later) [
                      | inl second ↦
                          start_shell-IsSound frame stale esp ebp (record k { init_count = 2 }) k' s
                            (with_count k 2 v) second
                      | inr turn ↦
                          same_state out s moved moved k' (Agree-refl moved)
                            (switch_process-IsSound esp ebp k v) turn
                    ]
            ]
    ]

-- The screen of another terminal is shown: every cursor stays where it is.
switch_screen-IsSound : (id : ℕ) (k : Kernel) → id < 3 → IsSound k → IsSound (switch_screen id k)
unfolding switch_screen save restore remap_video_mem_user get_screen_x get_screen_y
switch_screen-IsSound id k lt v =
    let d = k.displayed_terminal in
    let t = record (k.terminal d) { x = (k.terminal d).x; y = (k.terminal d).y } in
    let saved = IsSound-Agree k (set_terminal d t k) (set_terminal-Agree d t k refl) v in
    record { texts = saved.texts; active_is = saved.active_is; displayed_is = lt }

open_terminal-IsSound :
    (frame : Frame) (stale : Dentry) (id : ℕ) (k k' : Kernel) (o : Outcome)
    → id < 3
    → IsSound k
    → open_terminal frame stale id k ≡ some (o, k')
    → IsSound k'
unfolding open_terminal switch_screen remap_video_mem_user restore
open_terminal-IsSound frame stale id k k' o lt v e =
    let k1 = cli k in
    let v1 = IsSound-Agree k k1 (λ i. refl) v in
    let k2 = switch_screen id k1 in
    let v2 = switch_screen-IsSound id k1 lt v1 in
    elim (chosen (lt_signed 2 id) _ _ e) [
      | inl out ↦ same_state (Outcome.returned error) o k1 k1 k' (Agree-refl k1) v1 out
      | inr known ↦ elim (chosen (id == k1.displayed_terminal) _ _ known) [
        | inl shown ↦ same_state (Outcome.returned 0) o k1 k1 k' (Agree-refl k1) v1 shown
        | inr other ↦ elim (chosen ((k2.terminal id).init_flag == 0) _ _ other) [
          | inl fresh ↦
              let (o', started) = ignore_result-some _ o k' fresh in
              IsSound-Agree (sti k2) k'
                (execute_call-Agree frame stale shell_command (sti k2) k' o' started)
                (IsSound-Agree k2 (sti k2) (λ i. refl) v2)
          | inr running ↦
              same_state (Outcome.returned 0) o k2
                (sti (update_screen_xy (k2.terminal id).x (k2.terminal id).y k2)) k'
                (λ i. update_screen_xy-Agree k2 i) v2 running
        ]
      ]
    ]

after_switch-some :
    (r : Option (Outcome × Kernel)) (o : Outcome) (k' : Kernel)
    → after_switch r ≡ some (o, k')
    → (o' : Outcome) × ((k1 : Kernel) × (r ≡ some (o', k1)) × Agree k1 k')
unfolding after_switch
after_switch-some none o k' e = ground arith
after_switch-some (some (Outcome.returned v, k)) o k' e =
    (Outcome.returned v, (k, refl, Agree-eq k (sti k) k' (λ i. refl) (ground arith)))
after_switch-some (some (Outcome.entered p s, k)) o k' e =
    (Outcome.entered p s, (k, refl, Agree-eq k k k' (Agree-refl k) (ground arith)))
after_switch-some (some (Outcome.resumed a b c, k)) o k' e =
    (Outcome.resumed a b c, (k, refl, Agree-eq k k k' (Agree-refl k) (ground arith)))

module _ (frame : Frame) (stale : Dentry) (k : Kernel) (v : IsSound k) where
  switch_to-IsSound :
      (id : ℕ) (k' : Kernel) (o : Outcome)
      → id < 3
      → switch_to frame stale id k ≡ some (o, k')
      → IsSound k'
  unfolding switch_to
  switch_to-IsSound id k' o lt e =
      let k1 = send_eoi 1 k in
      let (o', (k2, opened, same)) = after_switch-some _ o k' e in
      IsSound-Agree k2 k' same (
        open_terminal-IsSound frame stale id k1 k2 o' lt (IsSound-Agree k k1 (send_eoi-Agree 1 k) v)
          opened)

  key_pressed-IsSound :
      (behind : ℕ → List ℕ) (command : ℕ) (k' : Kernel) (o : Outcome)
      → k.keys.str_len ≤ 127
      → key_pressed frame stale behind command k ≡ some (o, k')
      → IsSound k'
  unfolding key_pressed
  key_pressed-IsSound behind command k' o few e =
      let cleared = clear k in
      let edited = edit_line (lookup_char behind command (shadow_index k.keys)) k in
      let ended = λ (q : Kernel). sti (send_eoi 1 q) in
      let ended-Agree : (q : Kernel) → Agree q (ended q) = λ q i. send_eoi-Agree 1 q i in
      elim (chosen (k.keys.control != 0 && command == 0x26) _ _ e) [
        | inl wiped ↦
            same_state (Outcome.returned 0) o cleared (ended cleared) k' (ended-Agree cleared)
              (clear-IsSound k v) wiped
        | inr e1 ↦ elim (chosen (k.keys.alt != 0 && command == 0x3B) _ _ e1) [
          | inl f1 ↦ switch_to-IsSound 0 k' o (omega arith) f1
          | inr e2 ↦ elim (chosen (k.keys.alt != 0 && command == 0x3C) _ _ e2) [
            | inl f2 ↦ switch_to-IsSound 1 k' o (omega arith) f2
            | inr e3 ↦ elim (chosen (k.keys.alt != 0 && command == 0x3D) _ _ e3) [
              | inl f3 ↦ switch_to-IsSound 2 k' o (omega arith) f3
              | inr key ↦
                  same_state (Outcome.returned 0) o edited (ended edited) k' (ended-Agree edited)
                    (edit_line-IsSound (lookup_char behind command (shadow_index k.keys)) k few v)
                    key
            ]
          ]
        ]
      ]

modifiers-str_len :
    (command : ℕ) (m m' : Keys) → modifiers command m ≡ some m' → m'.str_len ≡ m.str_len
unfolding modifiers
modifiers-str_len command m m' e = ground arith

pub print_keycode-IsSound :
    (frame : Frame) (stale : Dentry) (behind : ℕ → List ℕ) (status command : ℕ) (k k' : Kernel)
    (o : Outcome)
    → IsSound k
    → print_keycode frame stale behind status command k ≡ some (o, k')
    → IsSound k'
unfolding print_keycode
print_keycode-IsSound frame stale behind status command k k' o v e =
    let k1 = record (cli k) {
      keys = record k.keys { str_len = (k.terminal k.displayed_terminal).length };
    } in
    let v1 = IsSound-Agree k k1 (λ i. refl) v in
    elim (chosen (bit_and status 1 == 0) _ _ e) [
      | inl nothing ↦ same_state (Outcome.returned 0) o k1 k1 k' (Agree-refl k1) v1 nothing
      | inr key ↦ elim (Option-cases (modifiers command k1.keys)) [
        | inl released ↦
            same_state (Outcome.returned 0) o k1 (sti (send_eoi 1 k1)) k'
              (λ i. send_eoi-Agree 1 k1 i) v1 (ground arith)
        | inr (m, pressed) ↦
            let k2 = record k1 { keys = m } in
            let few : m.str_len ≤ 127 =
              rw (modifiers-str_len command k1.keys m pressed)
                (v.texts k.displayed_terminal).line_fits in
            key_pressed-IsSound frame stale k2 (IsSound-Agree k1 k2 (λ i. refl) v1) behind command
              k' o few (ground arith)
      ]
    ]
