-- ===== src/State.antt =====
-- The kernel's state: the structs of student-distrib/types.h and the globals of the C files, in one
-- record. A field of type `int32_t`, `uint32_t` or `int8_t` is its bit pattern, and an array is a map
-- from indices. Bytes of memory are `mem`, by physical address: the text screens lie there, and so do
-- the pages of the user programs.
use mini_os_with_friends.Base.{ℕ, Bool, List}

-- The operation tables that kernel.c fills in. `nothing` holds four null pointers.
pub data OpTable : Type 0 where
  files directories stdin stdout rtc nothing : OpTable

-- `file_desct_table_t`
pub record FileDesc : Type 0 where
  pub table_ptr : OpTable
  pub inode_num : ℕ
  pub file_position : ℕ
  pub flags : ℕ

-- `pcb_t`, without the last four fields, which no code reads or writes
pub record Pcb : Type 0 where
  pub file_desc_array : ℕ → FileDesc
  pub active : ℕ
  pub process_id : ℕ
  pub parent_process_id : ℕ
  pub task_esp : ℕ
  pub task_ebp : ℕ
  pub active_esp : ℕ
  pub active_ebp : ℕ
  pub terminal_cmd : ℕ → ℕ
  pub terminal_on : ℕ  -- int8_t

-- `terminal_t`
pub record Terminal : Type 0 where
  pub tempbuf : ℕ → ℕ
  pub video_mem : ℕ
  pub terminal_id : ℕ
  pub length : ℕ
  pub read_length : ℕ
  pub x : ℕ
  pub y : ℕ
  pub pid : ℕ
  pub parentpid : ℕ
  pub halt_flag : ℕ
  pub shift_up_one_flag : ℕ
  pub init_flag : ℕ
  pub enter_flag : ℕ
  pub rtc_flag : ℕ
  pub rtc_counter : ℕ
  pub rtc_target : ℕ

-- The mask registers of i8259.c.
pub record Pic : Type 0 where
  pub master_mask : ℕ
  pub slave_mask : ℕ

-- The paging structures of paging.h.
pub record Paging : Type 0 where
  pub page_directory : ℕ → ℕ
  pub page_table : ℕ → ℕ
  pub page_table_video : ℕ → ℕ
  pub page_table_addr : ℕ  -- where the linker puts the two tables
  pub page_table_video_addr : ℕ

-- The modifier state of keyboard.c.
pub record Keys : Type 0 where
  pub shift : ℕ
  pub control : ℕ
  pub alt : ℕ
  pub caps : ℕ
  pub str_len : ℕ

pub record Kernel : Type 0 where
  pub terminal : ℕ → Terminal
  pub displayed_terminal : ℕ
  pub active_terminal : ℕ
  pub done_init_terminal : ℕ
  pub init_count : ℕ
  pub keys : Keys
  pub pid_array : ℕ → ℕ
  pub curr_pid : ℕ
  pub save_parent_pid : ℕ
  pub pcb : ℕ → Pcb  -- by address, see `get_pcb_addr`
  pub paging : Paging
  pub mem : ℕ → ℕ  -- bytes, by physical address
  pub pic : Pic
  pub ports : List (ℕ × ℕ)  -- what `outb` wrote, as port and byte, last first
  pub interrupts : Bool  -- set by `sti`, cleared by `cli`
  pub tss_ss0 : ℕ
  pub tss_esp0 : ℕ
  pub fs : ℕ → ℕ  -- bytes of the file system image, from its start
  pub inodes_count : ℕ
  pub data_count_blk : ℕ
  pub large_text_blk_count : ℕ
  pub shared_btw_terminal_fs_drivers : ℕ
  pub internal_counter : ℕ
  pub stale_inode : ℕ  -- what an uninitialised `temp_dent.inode_num` holds in `read_data`
