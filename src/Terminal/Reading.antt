-- ===== src/Terminal/Reading.antt =====
-- What a program reads of a typed line, and what a switch of terminals does to the screens.
use mini_os_with_friends.Base.{
  ℕ, zero, suc, ◌+◌, ◌*◌, ◌≤◌, ◌<◌, ◌≡◌, refl, ◌∙◌, sym, ◌≢◌, ◌⊎◌, inl, inr, arith, leb, ltb, ◌&&◌,
  ◌-◌, if◌then◌else◌,
}
use mini_os_with_friends.Base.Maps.{update, update_ne}
use mini_os_with_friends.Base.Loops.{for_range}
use mini_os_with_friends.State.{Kernel}
use mini_os_with_friends.Memory.{memcpy}
use mini_os_with_friends.Paging.{video, remap_video_mem_user}
use mini_os_with_friends.Screen.{get_screen_x, get_screen_y}
use mini_os_with_friends.Terminal.{switch_screen, save, restore}

copy_loop :
    (dest src n i : ℕ) (mem : ℕ → ℕ) (a : ℕ)
    → (src + i + n ≤ dest + i) ⊎ (dest + i + n ≤ src + i)
    → for_range n i (λ i (m : ℕ → ℕ). update m (dest + i) (m (src + i))) mem a
      ≡ (if leb (dest + i) a && ltb a (dest + i + n) then mem (src + (a - dest)) else mem a)
unfolding for_range
copy_loop dest src zero i mem a apart = ground arith
copy_loop dest src (suc n) i mem a apart =
    copy_loop dest src n (i + 1) (update mem (dest + i) (mem (src + i))) a (omega arith)
    ∙ ground arith

-- A copy between places that do not overlap: the destination takes the source, the rest stays.
memcpy_lem :
    (dest src n : ℕ) (mem : ℕ → ℕ) (a : ℕ)
    → (src + n ≤ dest) ⊎ (dest + n ≤ src)
    → memcpy dest src n mem a
      ≡ (if leb dest a && ltb a (dest + n) then mem (src + (a - dest)) else mem a)
unfolding memcpy
memcpy_lem dest src n mem a apart = copy_loop dest src n 0 mem a (ground arith) ∙ ground arith

-- The page of memory that holds the text of terminal `t` while it is not displayed.
abbrev pub own_page : ℕ → ℕ
own_page t = video + (t + 1) * 4096

switch_screen-mem :
    (t : ℕ) (k : Kernel)
    → k.displayed_terminal < 3
    → t < 3
    → t ≢ k.displayed_terminal
    → ((i : ℕ) → i < 3 → (k.terminal i).video_mem ≡ own_page i)
    → (b : ℕ)
    → (switch_screen t k).mem b
      ≡ memcpy video (own_page t) 4096 (memcpy (own_page k.displayed_terminal) video 4096 k.mem) b
unfolding switch_screen save restore remap_video_mem_user
switch_screen-mem t k hd ht ne pages b =
    let d = k.displayed_terminal in
    let other =
      update_ne k.terminal d t (record (k.terminal d) { x = get_screen_x k; y = get_screen_y k })
        (λ e. ne (sym e)) in
    rw (other, pages t ht, pages d hd) refl

-- A switch from the displayed terminal `d` to another terminal `t`, both below 3: the text of `d` is kept in
-- its own page, the screen shows what the page of `t` holds, the page of a third terminal does not change, and `t` is
-- the displayed terminal.
pub switch_screen_lem :
    (t u a : ℕ) (k : Kernel)
    → t < 3
    → k.displayed_terminal < 3
    → t ≢ k.displayed_terminal
    → a < 4096
    → ((i : ℕ) → i < 3 → (k.terminal i).video_mem ≡ own_page i)
    → ((switch_screen t k).mem (own_page k.displayed_terminal + a) ≡ k.mem (video + a))
      × ((switch_screen t k).mem (video + a) ≡ k.mem (own_page t + a))
      × (u ≢ k.displayed_terminal
          → (switch_screen t k).mem (own_page u + a) ≡ k.mem (own_page u + a))
      × ((switch_screen t k).displayed_terminal ≡ t)
unfolding switch_screen save restore remap_video_mem_user
switch_screen_lem t u a k ht hd ne ha pages =
    let d = k.displayed_terminal in
    let both = switch_screen-mem t k hd ht ne pages in
    let saved = memcpy (own_page d) video 4096 k.mem in
    let first = λ (b : ℕ). memcpy_lem (own_page d) video 4096 k.mem b (inl (omega arith)) in
    let second = λ (b : ℕ). memcpy_lem video (own_page t) 4096 saved b (inr (omega arith)) in
    (
      both (own_page d + a) ∙ second (own_page d + a) ∙ ground (arith, first (own_page d + a)),
      both (video + a) ∙ second (video + a) ∙ ground (arith, first (own_page t + a)),
      λ third.
          both (own_page u + a) ∙ second (own_page u + a) ∙ ground (arith, first (own_page u + a)),
      refl,
    )
