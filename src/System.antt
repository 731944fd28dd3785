-- ===== src/System.antt =====
-- The kernel as a whole: its three interrupts and its system calls, in any order. A read that waits is
-- two steps, with whatever comes meanwhile between them; a wait that goes on is no step.
pub mod Text
pub mod Output
pub mod Print
pub mod Calls
pub mod Interrupts
pub mod Syscalls
pub mod Safety
use mini_os_with_friends.Base.{ℕ, ◌≡◌, ◌≢◌, Option, some, List, [], ◌==◌, false}
use mini_os_with_friends.State.{OpTable, Kernel}
use mini_os_with_friends.Memory.{set_terminal, active}
use mini_os_with_friends.Paging.{get_pcb_blk}
use mini_os_with_friends.FileSystem.{Dentry}
use mini_os_with_friends.LineBuffer.{get_flag}
use mini_os_with_friends.Process.{Outcome, Frame, execute_call, halt_call}
use mini_os_with_friends.Terminal.{start_read, finish_read}
use mini_os_with_friends.Keyboard.{print_keycode}
use mini_os_with_friends.Rtc.{rtc_intr, start_wait}
use mini_os_with_friends.Pit.{Switch, pit_intr}
use mini_os_with_friends.Syscall.{
  Reply, Waiting, reply, advance, bad_transfer, descriptor, read_call, write_call, open_call,
  close_call, getargs_call, vidmap_call, set_handler_call, sigreturn_call,
}

-- A read during which no interrupt comes.
abbrev pub no_wait : Waiting
no_wait = record { handlers = []; ticks = 0 }

-- One interrupt, or one system call, or one half of a read that waits.
pub data Step : Kernel → Kernel → Type 0 where
  keyboard :
      (frame : Frame) (stale : Dentry) (behind : ℕ → List ℕ) (status command : ℕ) (o : Outcome)
      {k k' : Kernel}
      → print_keycode frame stale behind status command k ≡ some (o, k')
      → Step k k'
  clock : {k : Kernel} → Step k (rtc_intr k)
  timer :
      (frame : Frame) (stale : Dentry) (esp ebp : ℕ) (s : Switch) {k k' : Kernel}
      → pit_intr frame stale esp ebp k ≡ some (s, k')
      → Step k k'
  executed :
      (frame : Frame) (stale : Dentry) (command : List ℕ) (o : Outcome) {k k' : Kernel}
      → execute_call frame stale command k ≡ some (o, k')
      → Step k k'
  halted :
      (frame : Frame) (stale : Dentry) (status : ℕ) (o : Outcome) {k k' : Kernel}
      → halt_call frame stale status k ≡ some (o, k')
      → Step k k'
  data_read :
      (fd buf nbytes v : ℕ) {k k' : Kernel}
      → read_call no_wait fd buf nbytes k ≡ Reply.answer v k'
      → Step k k'
  line_awaited :
      (fd buf nbytes : ℕ) {k : Kernel}
      → bad_transfer fd buf nbytes ≡ false
      → (descriptor k fd).table_ptr ≡ OpTable.stdin
      → Step k (start_read k)
  line_read :
      (fd buf pid v : ℕ) {k k' : Kernel}
      → get_flag k ≢ 0
      → advance (get_pcb_blk pid) fd (reply (finish_read buf k)) ≡ Reply.answer v k'
      → Step k k'
  tick_awaited :
      (fd buf nbytes : ℕ) {k : Kernel}
      → bad_transfer fd buf nbytes ≡ false
      → (descriptor k fd).table_ptr ≡ OpTable.rtc
      → Step k (start_wait k)
  tick_read :
      (fd pid v : ℕ) {k k' : Kernel}
      → (active k).rtc_flag ≢ 1
      → advance (get_pcb_blk pid) fd (Reply.answer 0 k) ≡ Reply.answer v k'
      → Step k k'
  written :
      (fd buf nbytes v : ℕ) {k k' : Kernel}
      → write_call fd buf nbytes k ≡ Reply.answer v k'
      → Step k k'
  opened :
      (name : Option (List ℕ)) (stale : Dentry) {k : Kernel} → Step k (open_call name stale k).1
  closed : (fd v : ℕ) {k k' : Kernel} → close_call fd k ≡ Reply.answer v k' → Step k k'
  args_read :
      (buf nbytes v : ℕ) {k k' : Kernel} → getargs_call buf nbytes k ≡ some (v, k') → Step k k'
  video_mapped : (screen_start : ℕ) {k : Kernel} → Step k (vidmap_call screen_start k).1
  handler_set : {k : Kernel} → Step k (set_handler_call k).1
  signal_returned : {k : Kernel} → Step k (sigreturn_call k).1

-- What the kernel can come to from a state.
pub data Reach (k : Kernel) : Kernel → Type 0 where
  here : Reach k k
  later : {k' k'' : Kernel} → Reach k k' → Step k' k'' → Reach k k''
