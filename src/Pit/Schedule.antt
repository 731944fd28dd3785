-- ===== src/Pit/Schedule.antt =====
-- The turns of the three terminals.
use mini_os_with_friends.Base.{ℕ, ◌+◌, ◌%◌, ◌<◌, ◌≡◌, refl, ◌∙◌, ap, sym, ◌≢◌, arith}
use mini_os_with_friends.State.{Kernel}
use mini_os_with_friends.Memory.{active}
use mini_os_with_friends.Paging.{
  get_pcb_blk, get_kernel_stack_addr, remap_video_mem_user, virt_to_phys_user,
}
use mini_os_with_friends.Paging.Isolation.{get_pcb_blk-eq-get_pcb_addr, get_pcb_addr_injective}
use mini_os_with_friends.Process.{set_tss}
use mini_os_with_friends.Pit.{Switch, switch_process, next_terminal, save_context}

-- What one turn of the scheduler does to the state.
pub record Turn (esp ebp : ℕ) (k k' : Kernel) : Type 0 where
  pub next : k'.active_terminal ≡ (k.active_terminal + 1) % 3
  pub same_terminals : k'.terminal ≡ k.terminal
  pub saved_esp : (k'.pcb (get_pcb_blk (active k).pid)).active_esp ≡ esp
  pub saved_ebp : (k'.pcb (get_pcb_blk (active k).pid)).active_ebp ≡ ebp
  pub other_pcbs : (a : ℕ) → a ≢ get_pcb_blk (active k).pid → k'.pcb a ≡ k.pcb a
  pub stack : k'.tss_esp0 ≡ get_kernel_stack_addr (active k').pid

switch_process-Turn : (esp ebp : ℕ) (k : Kernel) → Turn esp ebp k (switch_process esp ebp k).1
unfolding switch_process next_terminal save_context remap_video_mem_user virt_to_phys_user set_tss
switch_process-Turn esp ebp k = record {
  next = refl;
  same_terminals = refl;
  saved_esp = ground arith;
  saved_ebp = ground arith;
  other_pcbs = λ a ne. ground arith;
  stack = refl;
}

-- A turn goes on with the registers that the PCB of the next terminal's process holds.
switch_process-outcome :
    (esp ebp : ℕ) (k : Kernel)
    → let k' = (switch_process esp ebp k).1 in
      (switch_process esp ebp k).0
      ≡ Switch.switched
          (k'.pcb (get_pcb_blk (active k').pid)).active_esp
          (k'.pcb (get_pcb_blk (active k').pid)).active_ebp
unfolding switch_process next_terminal save_context remap_video_mem_user virt_to_phys_user set_tss
switch_process-outcome esp ebp k = refl

get_pcb_blk_injective : (p q : ℕ) → p < 6 → q < 6 → get_pcb_blk p ≡ get_pcb_blk q → p ≡ q
get_pcb_blk_injective p q hp hq e =
    get_pcb_addr_injective p q hp hq
      (sym (get_pcb_blk-eq-get_pcb_addr p) ∙ e ∙ get_pcb_blk-eq-get_pcb_addr q)

-- Another terminal's process has another PCB.
other_turn :
    (k k' : Kernel)
    → k.active_terminal < 3
    → ((i : ℕ) → i < 3 → (k.terminal i).pid < 6)
    → ((i j : ℕ) → i < 3 → j < 3 → i ≢ j → (k.terminal i).pid ≢ (k.terminal j).pid)
    → k'.terminal ≡ k.terminal
    → k'.active_terminal < 3
    → k'.active_terminal ≢ k.active_terminal
    → get_pcb_blk (active k').pid ≢ get_pcb_blk (active k).pid
other_turn k k' lt small apart same lt' ne e =
    let p : (active k').pid ≡ (k.terminal k'.active_terminal).pid =
      ap (λ f. (f k'.active_terminal).pid) same in
    let e' = ap get_pcb_blk (sym p) ∙ e in
    apart k'.active_terminal k.active_terminal lt' lt ne (
      get_pcb_blk_injective (k.terminal k'.active_terminal).pid (active k).pid
        (small k'.active_terminal lt') (small k.active_terminal lt) e')

-- Three turns from terminal `a`, where the three terminals run processes below 6 with different numbers: the
-- first turn goes to terminal `(a + 1) % 3`, the second to `(a + 2) % 3`, and the third comes back to `a` and goes on with the registers that
-- the first one interrupted, on the kernel stack of the process there.
pub round_robin :
    (esp1 ebp1 esp2 ebp2 esp3 ebp3 : ℕ) (k : Kernel)
    → k.active_terminal < 3
    → ((i : ℕ) → i < 3 → (k.terminal i).pid < 6)
    → ((i j : ℕ) → i < 3 → j < 3 → i ≢ j → (k.terminal i).pid ≢ (k.terminal j).pid)
    → let k1 = (switch_process esp1 ebp1 k).1 in
      let k2 = (switch_process esp2 ebp2 k1).1 in
      let k3 = (switch_process esp3 ebp3 k2).1 in
      (k1.active_terminal ≡ (k.active_terminal + 1) % 3)
      × (k2.active_terminal ≡ (k.active_terminal + 2) % 3)
      × (k3.active_terminal ≡ k.active_terminal)
      × ((switch_process esp3 ebp3 k2).0 ≡ Switch.switched esp1 ebp1)
      × (k3.tss_esp0 ≡ get_kernel_stack_addr (active k).pid)
round_robin esp1 ebp1 esp2 ebp2 esp3 ebp3 k lt small apart =
    let k1 = (switch_process esp1 ebp1 k).1 in
    let k2 = (switch_process esp2 ebp2 k1).1 in
    let k3 = (switch_process esp3 ebp3 k2).1 in
    let t1 = switch_process-Turn esp1 ebp1 k in
    let t2 = switch_process-Turn esp2 ebp2 k1 in
    let t3 = switch_process-Turn esp3 ebp3 k2 in
    let a = k.active_terminal in
    let back : k3.active_terminal ≡ a = omega (arith, t1.next, t2.next, t3.next) in
    let same3 : k3.terminal ≡ k.terminal =
      t3.same_terminals ∙ t2.same_terminals ∙ t1.same_terminals in
    let home : (active k3).pid ≡ (active k).pid =
      ap (λ f. (f k3.active_terminal).pid) same3 ∙ ap (λ i. (k.terminal i).pid) back in
    let home1 : get_pcb_blk (active k1).pid ≢ get_pcb_blk (active k).pid =
      other_turn k k1 lt small apart t1.same_terminals (omega (arith, t1.next))
        (omega (arith, t1.next)) in
    let home2 : get_pcb_blk (active k2).pid ≢ get_pcb_blk (active k).pid =
      other_turn k k2 lt small apart (t2.same_terminals ∙ t1.same_terminals)
        (omega (arith, t1.next, t2.next)) (omega (arith, t1.next, t2.next)) in
    let mine = get_pcb_blk (active k).pid in
    let kept : k3.pcb (get_pcb_blk (active k3).pid) ≡ k1.pcb mine =
      ap (λ p. k3.pcb (get_pcb_blk p)) home
      ∙ t3.other_pcbs mine (λ e. home2 (sym e))
      ∙ t2.other_pcbs mine (λ e. home1 (sym e)) in
    (
      t1.next,
      omega (arith, t1.next, t2.next),
      back,
      switch_process-outcome esp3 ebp3 k2
          ∙ ap (λ p. Switch.switched p.active_esp p.active_ebp) kept
          ∙ ap (λ p. Switch.switched p ((k1.pcb mine).active_ebp)) t1.saved_esp
          ∙ ap (Switch.switched esp1) t1.saved_ebp,
      t3.stack ∙ ap get_kernel_stack_addr home,
    )
