-- ===== src/Syscall.antt =====
-- The system calls of student-distrib/system_calls.c other than `execute_call` and `halt_call`. A call
-- through a descriptor goes to the operation table that kernel.c fills in.
pub mod Descriptors
pub mod Args
pub mod Video
pub mod Handler
pub mod Untouched
use mini_os_with_friends.Base.{
  ℕ, zero, suc, ◌+◌, ◌*◌, ◌/◌, ◌%◌, ◌&&◌, ◌||◌, Bool, Option, none, some, List, [], ◌∷◌, ◌==◌, ltb,
  leb, if◌then◌else◌, error, add32, sub32, is_neg, sign_extend8,
}
use mini_os_with_friends.Base.Maps.{update}
use mini_os_with_friends.Base.Loops.{for_range}
use mathlib.Core.Option
use mini_os_with_friends.State.{OpTable, FileDesc, Pcb, Kernel}
use mini_os_with_friends.Memory.{write_byte, set_pcb, active}
use mini_os_with_friends.Paging.{
  get_pcb_addr, get_pcb_blk, video, four_kb, four_mb, virt_addr_program, user_flags, mask_20_bits,
}
use mini_os_with_friends.Rtc.{rtc_read, rtc_write, rtc_close}
use mini_os_with_friends.Screen.{puts}
use mini_os_with_friends.FileSystem.{
  Dentry, read_dentry_by_name, read_from_file, write_to_file, close_file, read_from_directory,
  write_to_directory, close_directory,
}
use mini_os_with_friends.Terminal.{terminal_read, terminal_write, terminal_close, donothing}

-- How a system call ends: it returns, a wait or a loop of it does not end, or a null function pointer is
-- called.
pub data Reply : Type 0 where
  answer : (value : ℕ) → Kernel → Reply
  waits null_call : Reply

abbrev pub reply : ℕ × Kernel → Reply
reply (v, k) = Reply.answer v k

abbrev pub reply_option : Option (ℕ × Kernel) → Reply
reply_option none = Reply.waits
reply_option (some r) = reply r

-- What happens while a read waits: the handlers of other interrupts, and the ticks of the clock.
pub record Waiting : Type 0 where
  pub handlers : List (Kernel → Kernel)
  pub ticks : ℕ

-- The PCB of the process that the active terminal runs.
abbrev pub current_pcb : Kernel → Pcb
current_pcb k = k.pcb (get_pcb_blk (active k).pid)

abbrev pub descriptor : Kernel → ℕ → FileDesc
descriptor k fd = (current_pcb k).file_desc_array fd

abbrev pub set_descriptor : ℕ → ℕ → FileDesc → Kernel → Kernel
set_descriptor addr fd d k =
    let p = k.pcb addr in
    set_pcb addr (record p { file_desc_array = update p.file_desc_array fd d }) k

unfoldable pub read_entry : Waiting → OpTable → (fd buf nbytes : ℕ) → Kernel → Reply
read_entry w OpTable.files fd buf nbytes k = reply_option (read_from_file fd buf nbytes k)
read_entry w OpTable.directories fd buf nbytes k = reply (read_from_directory buf k)
read_entry w OpTable.stdin fd buf nbytes k = reply_option (terminal_read w.handlers fd buf nbytes k)
read_entry w OpTable.stdout fd buf nbytes k = reply (donothing k)
read_entry w OpTable.rtc fd buf nbytes k = reply_option (rtc_read w.ticks k)
read_entry w OpTable.nothing fd buf nbytes k = Reply.null_call

unfoldable pub write_entry : OpTable → (fd buf nbytes : ℕ) → Kernel → Reply
write_entry OpTable.files fd buf nbytes k = reply (write_to_file k)
write_entry OpTable.directories fd buf nbytes k = reply (write_to_directory k)
write_entry OpTable.stdin fd buf nbytes k = reply (donothing k)
write_entry OpTable.stdout fd buf nbytes k = reply (terminal_write fd buf nbytes k)
write_entry OpTable.rtc fd buf nbytes k = reply (rtc_write buf k)
write_entry OpTable.nothing fd buf nbytes k = Reply.null_call

unfoldable pub close_entry : OpTable → Kernel → Reply
close_entry OpTable.files k = reply (close_file k)
close_entry OpTable.directories k = reply (close_directory k)
close_entry OpTable.stdin k = reply (terminal_close k)
close_entry OpTable.stdout k = reply (terminal_close k)
close_entry OpTable.rtc k = reply (rtc_close k)
close_entry OpTable.nothing k = Reply.null_call

-- The tests on the arguments of a read or a write.
abbrev pub bad_transfer : (fd buf nbytes : ℕ) → Bool
bad_transfer fd buf nbytes = is_neg fd || leb 8 fd || buf == 0 || nbytes == 0 || is_neg nbytes

abbrev pub is_free : FileDesc → Bool
is_free d = d.flags == 1

-- The file position moves by what the entry returned, in the PCB that was current at the call.
unfoldable pub advance : (addr fd : ℕ) → Reply → Reply
advance addr fd (Reply.answer v k) =
    let d = (k.pcb addr).file_desc_array fd in
    Reply.answer v (set_descriptor addr fd (record d { file_position = add32 d.file_position v }) k)
advance addr fd Reply.waits = Reply.waits
advance addr fd Reply.null_call = Reply.null_call

unfoldable pub read_call : Waiting → (fd buf nbytes : ℕ) → Kernel → Reply
read_call w fd buf nbytes k =
    if bad_transfer fd buf nbytes
    then Reply.answer error k
    else if is_free (descriptor k fd)
    then Reply.answer error k
    else advance (get_pcb_blk (active k).pid) fd
        (read_entry w (descriptor k fd).table_ptr fd buf nbytes k)

unfoldable pub write_call : (fd buf nbytes : ℕ) → Kernel → Reply
write_call fd buf nbytes k =
    if bad_transfer fd buf nbytes
    then Reply.answer error k
    else if is_free (descriptor k fd)
    then Reply.answer error k
    else write_entry (descriptor k fd).table_ptr fd buf nbytes k

-- The operations of a file type.
unfoldable pub table_of : ℕ → OpTable
table_of filetype =
    if filetype == 0
    then OpTable.rtc
    else if filetype == 1
    then OpTable.directories
    else if filetype == 2
    then OpTable.files
    else OpTable.nothing

-- The loop of `open_call` from descriptor `idx` on, with `n` descriptors to go.
unfoldable pub free_desc_from : ℕ → ℕ → (ℕ → FileDesc) → Option ℕ
free_desc_from zero idx desc = none
free_desc_from (suc n) idx desc =
    if is_free (desc idx) then some idx else free_desc_from n (idx + 1) desc

unfoldable pub free_desc : Kernel → Option ℕ
free_desc k = free_desc_from 6 2 (current_pcb k).file_desc_array

abbrev pub opened_desc : Dentry → FileDesc
opened_desc dentry = record {
  table_ptr = table_of dentry.filetype;
  inode_num = dentry.inode_num;
  file_position = 0;
  flags = 0;
}

-- A null pointer is `none`; `stale` is what the uninitialised `dentry` holds.
unfoldable pub open_call : Option (List ℕ) → Dentry → Kernel → ℕ × Kernel
open_call none stale k = (error, k)
open_call (some filename) stale k = elim (read_dentry_by_name k filename stale) [
  | none ↦ (error, k)
  | some dentry ↦ elim (free_desc k) [
    | none ↦ (error, k)
    | some fd ↦ (fd, set_descriptor (get_pcb_blk (active k).pid) fd (opened_desc dentry) k)
  ]
]

unfoldable pub close_call : ℕ → Kernel → Reply
close_call fd k =
    if is_neg fd || leb fd 1 || leb 8 fd
    then Reply.answer error k
    else if is_free (descriptor k fd)
    then Reply.answer error k
    else close_entry (descriptor k fd).table_ptr (
        set_descriptor (get_pcb_blk (active k).pid) fd
          (record (descriptor k fd) { inode_num = 0; file_position = 0; flags = 1 }) k)

-- The loop over `terminal_cmd`: the index it ends with. `none`: it reads past the array's 128 bytes.
unfoldable pub copy_args : (n i left buf : ℕ) → (ℕ → ℕ) → Kernel → Option (ℕ × Kernel)
copy_args zero i left buf cmd k = none
copy_args (suc n) i left buf cmd k =
    let rest = copy_args n (i + 1) (sub32 left 1) buf cmd (write_byte (add32 buf i) (cmd i) k) in
    if cmd i == 0 || left == 0 then some (i, k) else rest

unfoldable pub getargs_call : (buf nbytes : ℕ) → Kernel → Option (ℕ × Kernel)
getargs_call buf nbytes k =
    if buf == 0
    then some (error, k)
    else (let cleared =
          for_range (if is_neg nbytes then 0 else nbytes) 0
            (λ i (k1 : Kernel). write_byte (add32 buf i) 0 k1) k in
        let cmd = (cleared.pcb (get_pcb_addr (active cleared).pid)).terminal_cmd in
        Option.map (λ (i, k1). (if i == 0 then error else 0, k1))
          (copy_args 128 0 nbytes buf cmd cleared))

-- `VIDMAP_ADDR`
abbrev pub vidmap_addr : ℕ
vidmap_addr = 0x8400000

-- A little-endian word.
abbrev pub write_word : ℕ → ℕ → Kernel → Kernel
write_word a v k = write_byte (add32 a 3) (v / 16777216 % 256) (
    write_byte (add32 a 2) (v / 65536 % 256)
      (write_byte (add32 a 1) (v / 256 % 256) (write_byte a (v % 256) k)))

-- The physical page that `vidmap_call` shows.
unfoldable pub vidmap_page : Kernel → ℕ
vidmap_page k =
    let on = sign_extend8 (k.pcb (get_pcb_addr (active k).pid)).terminal_on in
    if k.active_terminal == on then video else (video / four_kb + on + 1) * four_kb % 0x100000000

unfoldable pub vidmap_call : ℕ → Kernel → ℕ × Kernel
vidmap_call screen_start k =
    if screen_start == 0
    then (error, k)
    else if ltb screen_start virt_addr_program || leb (virt_addr_program + four_mb) screen_start
    then (error, k)
    else (
      0,
      write_word screen_start vidmap_addr (record k {
        paging = record k.paging {
          page_table_video = update k.paging.page_table_video 0 (user_flags (vidmap_page k));
          page_directory =
              update k.paging.page_directory 33
                (user_flags (mask_20_bits k.paging.page_table_video_addr));
        };
      }),
    )

abbrev pub set_handler_text : List ℕ
set_handler_text =
    b's' ∷ b'e' ∷ b't' ∷ b'_' ∷ b'h' ∷ b'a' ∷ b'n' ∷ b'd' ∷ b'l' ∷ b'e' ∷ b'r' ∷ b'_' ∷ b'c' ∷ b'a'
    ∷ b'l' ∷ b'l' ∷ b' ' ∷ b'h' ∷ b'a' ∷ b'p' ∷ b'p' ∷ b'e' ∷ b'n' ∷ b'i' ∷ b'n' ∷ b'g' ∷ b' '
    ∷ b'r' ∷ b'n' ∷ []

abbrev pub sigreturn_text : List ℕ
sigreturn_text =
    b's' ∷ b'i' ∷ b'g' ∷ b'r' ∷ b'e' ∷ b't' ∷ b'u' ∷ b'r' ∷ b'n' ∷ b'_' ∷ b'c' ∷ b'a' ∷ b'l' ∷ b'l'
    ∷ b' ' ∷ b'h' ∷ b'a' ∷ b'p' ∷ b'p' ∷ b'e' ∷ b'n' ∷ b'i' ∷ b'n' ∷ b'g' ∷ b' ' ∷ b'r' ∷ b'n' ∷ []

unfoldable pub set_handler_call : Kernel → ℕ × Kernel
set_handler_call k = (0, (puts set_handler_text k).1)

unfoldable pub sigreturn_call : Kernel → ℕ × Kernel
sigreturn_call k = (0, (puts sigreturn_text k).1)
