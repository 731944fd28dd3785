-- ===== src/Pit/Reads.antt =====
-- Whose descriptors a read of a file uses after a turn of the scheduler.
use mini_os_with_friends.Base.{
  ℕ, ◌+◌, ◌%◌, ◌<◌, ◌≡◌, refl, ◌∙◌, ap, ◌≢◌, ◌==◌, ◌||◌, false, leb, is_neg, arith,
}
use mini_os_with_friends.State.{FileDesc, Kernel}
use mini_os_with_friends.Memory.{active}
use mini_os_with_friends.Paging.{get_pcb_blk, remap_video_mem_user, virt_to_phys_user}
use mini_os_with_friends.FileSystem.{read_from_file, read_data}
use mini_os_with_friends.Process.{set_tss}
use mini_os_with_friends.Pit.{switch_process, next_terminal, save_context}

save_context-descriptors :
    (esp ebp a fd : ℕ) (k : Kernel)
    → ((save_context esp ebp k).pcb a).file_desc_array fd ≡ (k.pcb a).file_desc_array fd
unfolding save_context
save_context-descriptors esp ebp a fd k = ground arith

switched-descriptors :
    (esp ebp fd : ℕ) (k : Kernel)
    → let k' = (switch_process esp ebp k).1 in
      (k'.curr_pid ≡ k.curr_pid)
      × ((k'.pcb (get_pcb_blk k'.curr_pid)).file_desc_array fd
          ≡ (k.pcb (get_pcb_blk k.curr_pid)).file_desc_array fd)
unfolding switch_process next_terminal save_context remap_video_mem_user virt_to_phys_user set_tss
switched-descriptors esp ebp fd k = (
  refl,
  save_context-descriptors esp ebp (get_pcb_blk k.curr_pid) fd
      (record k { done_init_terminal = 1 }),
)

read_from_file-descriptor :
    (fd buf nbytes : ℕ) (d : FileDesc) (k : Kernel)
    → (k.pcb (get_pcb_blk k.curr_pid)).file_desc_array fd ≡ d
    → buf ≢ 0
    → fd < 8
    → nbytes ≢ 0
    → read_from_file fd buf nbytes k ≡ read_data d.inode_num d.file_position buf nbytes k
unfolding read_from_file
read_from_file-descriptor fd buf nbytes d k same some_buf small some_bytes =
    let fine : (buf == 0 || is_neg fd || leb 8 fd || nbytes == 0) ≡ false =
      ground (arith, some_buf, some_bytes) in
    rw (fine, same) refl

-- A turn of the scheduler, from a terminal below 3 whose process is the current one, where the next terminal
-- runs another process: the current process stays the old one, and is not the process whose turn it is; a
-- read of a file by the new process, with a descriptor below 8, a buffer that is not null and a length
-- that is not 0, takes inode and position from the descriptor of the old process.
pub switch_process-reads :
    (esp ebp fd buf nbytes : ℕ) (k : Kernel)
    → k.active_terminal < 3
    → k.curr_pid ≡ (active k).pid
    → (k.terminal ((k.active_terminal + 1) % 3)).pid ≢ (active k).pid
    → fd < 8
    → buf ≢ 0
    → nbytes ≢ 0
    → let k' = (switch_process esp ebp k).1 in
      let d = (k.pcb (get_pcb_blk (active k).pid)).file_desc_array fd in
      (k'.curr_pid ≡ (active k).pid)
      × ((active k').pid ≢ k'.curr_pid)
      × (read_from_file fd buf nbytes k' ≡ read_data d.inode_num d.file_position buf nbytes k')
unfolding switch_process next_terminal save_context remap_video_mem_user virt_to_phys_user set_tss
switch_process-reads esp ebp fd buf nbytes k lt runs other small some_buf some_bytes =
    let k' = (switch_process esp ebp k).1 in
    let (pid, same) = switched-descriptors esp ebp fd k in
    let d : FileDesc = (k.pcb (get_pcb_blk (active k).pid)).file_desc_array fd in
    let mine : (k'.pcb (get_pcb_blk k'.curr_pid)).file_desc_array fd ≡ d =
      same ∙ ap (λ (p : ℕ). (k.pcb (get_pcb_blk p)).file_desc_array fd) runs in
    (
      pid ∙ runs,
      λ e. other (e ∙ pid ∙ runs),
      read_from_file-descriptor fd buf nbytes d k' mine some_buf small some_bytes,
    )
