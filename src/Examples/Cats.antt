-- ===== src/Examples/Cats.antt =====
-- Runs of `cat` on the kernel.
use mini_os_with_friends.Base.{
  ℕ, ◌≡◌, ◌<◌, refl, true, some, [], ◌∷◌, ◌==◌, if◌then◌else◌, arith, add32, length,
}
use mini_os_with_friends.Base.Loops.{for_range}
use mini_os_with_friends.State.{Kernel}
use mini_os_with_friends.Paging.{translate, get_pcb_blk, get_pcb_addr}
use mini_os_with_friends.Memory.{active}
use mini_os_with_friends.CString.{strlen, strncmp, strncmp_from}
use mini_os_with_friends.FileSystem.{
  Dentry, read_dentry_by_name, find_dentry, copy_dentry, large_inode, copy_bytes, inode_length,
}
use mini_os_with_friends.Syscall.{getargs_call, copy_args}
use mini_os_with_friends.Syscall.Handler.{syscall_handler, do_syscall_in_c, after_call}
use mini_os_with_friends.User.Machine.{kernel_calls, system_call, bytes_at}
use mini_os_with_friends.User.Shell.{c_string}
use mini_os_with_friends.User.Cat.{main}
use mini_os_with_friends.User.Cat.Kernel.{file_bytes}
use mini_os_with_friends.User.Cat.Started.{CanOpen, main-file}
use mini_os_with_friends.Examples.{running, pcb_zero, dentry_zero}
use mini_os_with_friends.Examples.Probing.{setting, started_desc, or_started}

-- A process that was started with the argument `f`.
abbrev argued : Kernel
argued = record running {
  pcb = λ _. record pcb_zero {
    file_desc_array = started_desc;
    terminal_cmd = λ i. if i == 0 then b'f' else 0;
  };
}

informed : Kernel
informed = or_started ((kernel_calls setting).getargs 1024 (some argued)).2

informed_lem :
    ((kernel_calls setting).getargs 1024 (some argued) ≡ (0, b'f' ∷ [], some informed))
    × (informed ≡ record argued { mem = informed.mem; interrupts = true })
unfolding informed kernel_calls system_call bytes_at c_string syscall_handler do_syscall_in_c
    after_call getargs_call copy_args for_range translate get_pcb_addr
informed_lem = (refl, refl)

different_addresses :
    (i j : ℕ)
    → i < 1024
    → j < 1024
    → translate running.paging (add32 0x8051000 i) ≡ translate running.paging (add32 0x8051000 j)
    → i ≡ j
unfolding translate
different_addresses i j hi hj e = ground arith

abbrev the_file : Dentry
the_file = copy_dentry running 2 dentry_zero

CanOpen-argued :
    (mem : ℕ → ℕ)
    → CanOpen setting (b'f' ∷ []) the_file (record argued { mem = mem; interrupts = true })
unfolding get_pcb_blk copy_dentry read_dentry_by_name strlen find_dentry for_range strncmp
    strncmp_from large_inode copy_bytes
CanOpen-argued mem = record {
  out = refl;
  free = refl;
  found = refl;
  is_file = refl;
  one_read = record {
    buffer = omega arith;
    buffer_word = omega arith;
    numbered = omega arith;
    some_bytes = omega arith;
    fits = omega arith;
    ordinary = λ e. omega (arith, e);
    block = omega arith;
    apart = different_addresses;
  };
}

informed-runs : informed.curr_pid ≡ (active informed).pid
informed-runs = rw informed_lem.1 refl

CanOpen-informed : CanOpen setting (b'f' ∷ []) the_file informed
CanOpen-informed = rw informed_lem.1 (CanOpen-argued informed.mem)

main-file_example :
    (fd : ℕ) × ((k1 : Kernel) × ((k2 : Kernel) × ((k3 : Kernel) × ((k4 : Kernel) × ((kernel_calls
                  setting).open_path
                (b'f' ∷ [])
                (some informed)
              ≡ (fd, some k1))
            × ((kernel_calls setting).read fd 1024 (some k1) ≡ (
              length (
                  file_bytes
                    (inode_length informed the_file.inode_num)
                    0
                    informed
                    the_file.inode_num),
              file_bytes (inode_length informed the_file.inode_num) 0 informed the_file.inode_num,
              some k2,
            ))
            × ((kernel_calls setting).write 1
                  (file_bytes
                    (inode_length informed the_file.inode_num)
                    0
                    informed
                    the_file.inode_num)
                  (some k2)
                ≡ (0, some k3))
            × (main (kernel_calls setting) 2 (some argued) ≡ some (0, some k4))
            × (k4.mem ≡ k3.mem)))))
main-file_example =
    main-file setting 0 (b'f' ∷ []) the_file argued informed informed_lem.0 informed-runs
      CanOpen-informed (omega arith)
