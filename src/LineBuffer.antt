-- ===== src/LineBuffer.antt =====
-- `clear_temp_buff`, `get_len` and `get_flag` of student-distrib/keyboard.c. The write of the debugging
-- variable `test_flag` is left out.
use mini_os_with_friends.Base.{ℕ}
use mini_os_with_friends.Base.Maps.{update}
use mini_os_with_friends.Base.Loops.{for_range}
use mini_os_with_friends.State.{Kernel}
use mini_os_with_friends.Memory.{set_terminal, active}

abbrev pub max_buf_size : ℕ
max_buf_size = 128

unfoldable pub clear_temp_buff : Kernel → Kernel
clear_temp_buff k =
    let t = k.terminal k.displayed_terminal in
    let cleared = for_range max_buf_size 0 (λ j (b : ℕ → ℕ). update b j 0) t.tempbuf in
    set_terminal k.displayed_terminal (record t { tempbuf = cleared })
      (record k { keys = record k.keys { str_len = 0 } })

unfoldable pub get_len : Kernel → ℕ
get_len k = (k.terminal k.displayed_terminal).read_length

unfoldable pub get_flag : Kernel → ℕ
get_flag k = (active k).enter_flag
