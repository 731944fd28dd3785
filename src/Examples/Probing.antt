-- ===== src/Examples/Probing.antt =====
-- Runs of programs on the kernel, and of the memory functions.
use mini_os_with_friends.Base.{
  ℕ, ◌≡◌, ◌*◌, ◌≤◌, ◌<◌, inl, refl, Option, some, none, List, [], ◌∷◌, ◌==◌, if◌then◌else◌, arith,
  sub32, ltb, ◌||◌, true, ◌+◌, ◌-◌, ◌%◌,
}
use mini_os_with_friends.Base.Maps.{update}
use mini_os_with_friends.Base.Bits.{all_below, all_below_sound}
use mini_os_with_friends.Screen.{
  terminal_putc, finish_putc, scroll_pending, mark_last, put_char, show_cursor, scroll_after,
  write_char, advance_cursor, scroll_before, screen_base,
}
use mini_os_with_friends.Paging.{translate, get_pcb_blk}
use mini_os_with_friends.LineBuffer.{get_flag, get_len}
use mini_os_with_friends.Base.Loops.{for_range}
use mini_os_with_friends.Base.Texts.{codes}
use mini_os_with_friends.State.{OpTable, FileDesc, Kernel}
use mini_os_with_friends.Memory.{set_terminal}
use mini_os_with_friends.FileSystem.{read_dentry_by_name, find_dentry, copy_dentry}
use mini_os_with_friends.CString.{strlen, strncmp, strncmp_from}
use mini_os_with_friends.Syscall.{
  Reply, descriptor, read_call, write_call, read_entry, write_entry, advance,
}
use mini_os_with_friends.Syscall.Untouched.{usage}
use mini_os_with_friends.Syscall.Handler.{syscall_handler, do_syscall_in_c, after_call}
use mini_os_with_friends.Terminal.{
  terminal_read, start_read, finish_read, read_wait, read_count, copy_line, terminal_write,
  output_terminal,
}
use mini_os_with_friends.User.{fdputs}
use mini_os_with_friends.User.Machine.{
  Setting, kernel_calls, kernel_probes, system_call, place, bytes_at,
}
use mini_os_with_friends.User.Syserr.{main, choice_byte}
use mini_os_with_friends.User.Syserr.Fails.{Names, Names-fs, Fresh}
use mini_os_with_friends.User.Syserr.Passed.{passed_text, main-passes}
use mini_os_with_friends.User.Syserr.Started.{execute_call-Fresh}
use mini_os_with_friends.Process.{user_stack_top}
use mini_os_with_friends.Process.Loads.{entry_point}
use mini_os_with_friends.Memory.Blocks.{memmove, memcpy, memset, memset_word, memset_dword}
use mini_os_with_friends.Memory.Blocks.Filled.{
  word_byte, dword_byte, memset_word_lem, within, memset_lem,
}
use mini_os_with_friends.Memory.Blocks.Copied.{memcpy_lem}
use mini_os_with_friends.Memory.Blocks.Moved.{memmove_lem}
use mini_os_with_friends.Examples.Processes.{frame_one, command, the_inode, entered_at}
use mini_os_with_friends.Examples.{running, pcb_zero, free_descriptor, dentry_zero, image}

-- While the read waits, somebody types `0`.
abbrev type_zero : Kernel → Kernel
type_zero k =
    set_terminal 0
      (record (k.terminal 0) {
        tempbuf = update (k.terminal 0).tempbuf 0 b'0';
        read_length = 1;
        enter_flag = 1;
      })
      k

abbrev pub setting : Setting
setting = record {
  text = 0x8050000;
  buf = 0x8051000;
  waiting = record { handlers = type_zero ∷ []; ticks = 0 };
  stale = dentry_zero;
  process_call = λ eax args k. Reply.waits;
  registers = record { ebx = 0; ecx = 0; edx = 0; name = none };
}

abbrev pub started_desc : ℕ → FileDesc
started_desc j =
    if j == 0
    then record free_descriptor { table_ptr = OpTable.stdin; flags = 0 }
    else if j == 1
    then record free_descriptor { table_ptr = OpTable.stdout; flags = 0 }
    else free_descriptor

abbrev started : Kernel
started = record running { pcb = λ _. record pcb_zero { file_desc_array = started_desc } }

abbrev prompt : List ℕ
prompt = codes "Choose from tests 1-8. 0 to run all: "

abbrev pub or_started : Option Kernel → Kernel
or_started none = started
or_started (some k) = k

prompted : Kernel
prompted =
    or_started (
      ((kernel_calls setting).read 0 127 (fdputs (kernel_calls setting) 1 prompt (some started))).2)

-- The read comes back with the line, and the descriptors and the image are as they were.
prompted_lem :
    ((kernel_calls setting).read 0 127 (fdputs (kernel_calls setting) 1 prompt (some started))
      ≡ (1, b'0' ∷ [], some prompted))
    × (prompted.fs ≡ image)
    × (all_below 8 (λ j. ltb j 2 || (descriptor prompted j).flags == 1) ≡ true)
    × (usage prompted 0 ≡ (OpTable.stdin, 0))
    × (usage prompted 1 ≡ (OpTable.stdout, 0))
unfolding kernel_calls fdputs prompted system_call place bytes_at syscall_handler do_syscall_in_c
    after_call read_call write_call read_entry write_entry advance terminal_read start_read
    finish_read read_wait read_count copy_line terminal_write output_terminal for_range
    terminal_putc finish_putc scroll_pending mark_last translate put_char show_cursor scroll_after
    write_char advance_cursor scroll_before screen_base get_flag get_len get_pcb_blk all_below
prompted_lem = (refl, refl, refl, refl, refl)

still_free : (j : ℕ) → 2 ≤ j → j < 8 → (descriptor prompted j).flags ≡ 1
still_free j lo small = ground (
  arith,
  all_below_sound 8 (λ i. ltb i 2 || (descriptor prompted i).flags == 1) j prompted_lem.2 small,
)

dot-Names : Names dentry_zero started
unfolding read_dentry_by_name strlen find_dentry for_range strncmp strncmp_from copy_dentry
dot-Names = record {
  dot = copy_dentry started 1 dentry_zero;
  dot_found = refl;
  dot_type = refl;
  no_helloo = refl;
  no_shel = refl;
}

Fresh-prompted : Fresh dentry_zero prompted
Fresh-prompted = record {
  in_open = prompted_lem.3;
  out_open = prompted_lem.4;
  taken = λ j lo hi. absurd (omega arith);
  free = λ j lo small out. still_free j lo small;
  names = Names-fs dentry_zero started prompted prompted_lem.1 dot-Names;
}

abbrev junk : List ℕ
junk = 0xCC ∷ 0xCC ∷ 0xCC ∷ []

main-passes_example :
    (k2 : Kernel) × (main (kernel_probes setting) junk 0 (some started) ≡ (
      0,
      fdputs
          (kernel_calls setting)
          1
          (passed_text (sub32 (choice_byte 0 (b'0' ∷ [])) b'0'))
          (some k2),
    ))
    × Fresh dentry_zero k2
main-passes_example =
    main-passes setting junk (b'0' ∷ []) 0 1 started prompted prompted_lem.0 (omega arith)
      Fresh-prompted

-- The program that the command enters finds nothing opened.
execute_call-Fresh_example :
    (usage entered_at.0 0 ≡ (OpTable.stdin, 0))
    × (usage entered_at.0 1 ≡ (OpTable.stdout, 0))
    × ((j : ℕ) → 2 ≤ j → j < 8 → (descriptor entered_at.0 j).flags ≡ 1)
    × (entered_at.0.fs ≡ running.fs)
    × (Names dentry_zero running → Fresh dentry_zero entered_at.0)
execute_call-Fresh_example =
    execute_call-Fresh frame_one dentry_zero dentry_zero command (entry_point running the_inode)
      user_stack_top running entered_at.0 refl entered_at.1

-- Ten bytes, each of its own value, and moves within them.
abbrev ten_bytes : ℕ → ℕ
ten_bytes a = a

memmove_lem_example :
    ((memmove 5 3 4 ten_bytes).0 6
      ≡ (if within 5 4 6 then ten_bytes (3 + (6 - 5)) else ten_bytes 6))
    × ((memmove 5 3 4 ten_bytes).1 ≡ ltb 3 5)
memmove_lem_example = memmove_lem 5 3 4 6 ten_bytes (omega arith) (omega arith)

memcpy_lem_example :
    memcpy 3 5 4 ten_bytes 6 ≡ (if within 3 4 6 then ten_bytes (5 + (6 - 3)) else ten_bytes 6)
memcpy_lem_example = memcpy_lem 3 5 4 6 ten_bytes (omega arith) (omega arith) (inl (omega arith))

memset_lem_example :
    memset 3 0x141 9 ten_bytes 7 ≡ (if within 3 9 7 then 0x141 % 256 else ten_bytes 7)
memset_lem_example = memset_lem 3 0x141 9 7 ten_bytes (omega arith)

memset_word_lem_example :
    (memset_word 2 0x1234 3 ten_bytes 5
      ≡ (if within 2 (2 * 3) 5 then word_byte (0x1234 % 65536) (5 - 2) else ten_bytes 5))
    × (memset_dword 2 0x1234 3 ten_bytes 5
        ≡ (if within 2 (4 * 3) 5 then dword_byte 0x1234 (5 - 2) else ten_bytes 5))
memset_word_lem_example = memset_word_lem 2 0x1234 3 5 ten_bytes (omega arith)
