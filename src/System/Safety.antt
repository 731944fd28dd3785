-- ===== src/System/Safety.antt =====
-- What holds in every state that the kernel comes to.
use mini_os_with_friends.Paging.{get_pcb_blk}
use mini_os_with_friends.State.{Kernel}
use mini_os_with_friends.Terminal.{finish_read}
use mini_os_with_friends.Syscall.{
  Reply, reply, set_handler_call, sigreturn_call, set_handler_text, sigreturn_text,
}
use mini_os_with_friends.System.{Step, Reach}
use mini_os_with_friends.System.Text.{IsSound, IsSound-Agree}
use mini_os_with_friends.System.Output.{puts-IsSound}
use mini_os_with_friends.System.Calls.{execute_call-Agree, halt_call-Agree}
use mini_os_with_friends.System.Interrupts.{
  rtc_intr-IsSound, pit_intr-IsSound, print_keycode-IsSound,
}
use mini_os_with_friends.System.Syscalls.{
  IsSoundReply-answer, advance-IsSound, start_read-IsSound, finish_read-IsSound, start_wait-IsSound,
  read_call-IsSound, write_call-IsSound, open_call-IsSound, close_call-IsSound,
  getargs_call-IsSound, vidmap_call-IsSound,
}

set_handler_call-IsSound : (k : Kernel) → IsSound k → IsSound (set_handler_call k).1
unfolding set_handler_call
set_handler_call-IsSound k w = puts-IsSound set_handler_text k w

sigreturn_call-IsSound : (k : Kernel) → IsSound k → IsSound (sigreturn_call k).1
unfolding sigreturn_call
sigreturn_call-IsSound k w = puts-IsSound sigreturn_text k w

Step-IsSound : (k k' : Kernel) → Step k k' → IsSound k → IsSound k'
Step-IsSound k k' (Step.keyboard frame stale behind status command o e) w =
    print_keycode-IsSound frame stale behind status command k k' o w e
Step-IsSound k k' Step.clock w = rtc_intr-IsSound k w
Step-IsSound k k' (Step.timer frame stale esp ebp s e) w =
    pit_intr-IsSound frame stale esp ebp k k' s w e
Step-IsSound k k' (Step.executed frame stale command o e) w =
    IsSound-Agree k k' (execute_call-Agree frame stale command k k' o e) w
Step-IsSound k k' (Step.halted frame stale status o e) w =
    IsSound-Agree k k' (halt_call-Agree frame stale status k k' o e) w
Step-IsSound k k' (Step.data_read fd buf nbytes v e) w = read_call-IsSound k w fd buf nbytes v k' e
Step-IsSound k k' (Step.line_awaited fd buf nbytes fine stdin) w = start_read-IsSound k w
Step-IsSound k k' (Step.line_read fd buf pid v entered e) w =
    advance-IsSound (get_pcb_blk pid) fd (reply (finish_read buf k))
      (IsSoundReply-answer (finish_read buf k).0 (finish_read buf k).1
        (finish_read-IsSound buf k w))
      v k' e
Step-IsSound k k' (Step.tick_awaited fd buf nbytes fine rtc) w = start_wait-IsSound k w
Step-IsSound k k' (Step.tick_read fd pid v ticked e) w =
    advance-IsSound (get_pcb_blk pid) fd (Reply.answer 0 k) (IsSoundReply-answer 0 k w) v k' e
Step-IsSound k k' (Step.written fd buf nbytes v e) w = write_call-IsSound k w fd buf nbytes v k' e
Step-IsSound k k' (Step.opened name stale) w = open_call-IsSound k w name stale
Step-IsSound k k' (Step.closed fd v e) w = close_call-IsSound k w fd v k' e
Step-IsSound k k' (Step.args_read buf nbytes v e) w = getargs_call-IsSound buf nbytes v k k' w e
Step-IsSound k k' (Step.video_mapped screen_start) w = vidmap_call-IsSound k w screen_start
Step-IsSound k k' Step.handler_set w = set_handler_call-IsSound k w
Step-IsSound k k' Step.signal_returned w = sigreturn_call-IsSound k w

-- From a sound state every sequence of interrupts and system calls, the reads that wait split in two,
-- leads to a sound state: every terminal's cursor is on the screen, with no scroll pending and the last
-- cell marked, its line has at most 127 bytes and what a read takes of it at most 128, and the active
-- and the displayed terminal are among the three.
pub Reach-IsSound : (k k' : Kernel) → IsSound k → Reach k k' → IsSound k'
Reach-IsSound k k' w Reach.here = w
Reach-IsSound k k' w (Reach.later {k' = k1} path step) =
    Step-IsSound k1 k' step (Reach-IsSound k k1 w path)
