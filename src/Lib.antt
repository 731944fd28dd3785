-- ===== src/Lib.antt =====
-- A model of the kernel of student-distrib: a small Unix-like system with three text terminals,
-- up to six processes, a read-only file system in memory, and drivers for the keyboard, the real time
-- clock, the timer and the interrupt controllers.
--
-- State.antt holds the state: the structs of student-distrib/types.h and the globals of the C files in
-- one record. Each function of the C code is a function from that state, and what may fail, wait or not
-- end returns an Option or a result type. Base.antt has the tests, maps, counted loops and bit laws.
--
--   Memory.antt      bytes through the page tables; memset, memcpy and memmove of student-distrib/lib.c
--   Pic.antt         student-distrib/i8259.c
--   Idt.antt         student-distrib/idt.c
--   Paging.antt      student-distrib/paging.c and student-distrib/task.c
--   Rtc.antt         student-distrib/rtc.c
--   Screen.antt      the cursor, scrolling and terminal_putc of student-distrib/lib.c
--   CString.antt     the string and number functions of student-distrib/lib.c
--   Printf.antt      printf of student-distrib/lib.c
--   FileSystem.antt  student-distrib/file_system.c
--   LineBuffer.antt  the functions of student-distrib/keyboard.c that the other parts call
--   Process.antt     execute_call and halt_call of student-distrib/system_calls.c
--   Terminal.antt    student-distrib/terminal.c
--   Keyboard.antt    student-distrib/keyboard.c
--   Pit.antt         student-distrib/pit.c
--   Syscall.antt     the other calls of student-distrib/system_calls.c, and their entry in
--                    student-distrib/exceptions.S
--   Exceptions.antt  student-distrib/print_exceptions.c
--   System.antt      the interrupts and the calls as the steps of one relation
--   Boot.antt        entry of student-distrib/kernel.c, and student-distrib/multiboot.h
--   User.antt        syscalls/ece391support.c, ece391cat.c, ece391ls.c, ece391shell.c and ece391syserr.c, over
--                    an interface of the system calls (syscalls/ece391syscall.h), and the kernel as one
--                    that fills it (syscalls/ece391syscall.S)
--   Examples.antt    concrete runs
--
-- A module's lemmas stand in its child modules, named for what they are about. The parts meet in the
-- state: the keyboard and the programs print through terminal_putc, a system call goes through the
-- descriptor's operation table to the file system, the clock or the terminal, and the timer and
-- execute_call change the page tables and the task state.
--
-- Numbers of the C code are bit patterns below 2 ^ 32, with the wrap-around written out where it can
-- occur. Loops are structural recursion, or on fuel: read_loop has one step for each test of its
-- condition, copy_args one for each of the 128 bytes of the argument, put_digits one for each of the
-- 32 digits that a 32-bit number has at most; the loops of the user's programs, which have no bound of
-- their own, take any number of rounds. The waits of rtc_read and terminal_read take the interrupts
-- that come meanwhile as an argument. What inb reads, the addresses of handlers and the bytes behind
-- the scan code table are arguments too. What printf finds in its conversion buffers and what the boot
-- loader passes are arguments as well.
--
-- Memory.antt describes memcpy byte by byte, as the other parts use it; Memory/Blocks.antt has it and the
-- other functions on blocks of memory instruction by instruction, with registers that wrap at 2 ^ 32.
-- A program that runs on the kernel (User/Machine.antt) makes its calls one after the other, with no
-- interrupt between them; where its texts and its buffer lie is an argument, as are the two calls that
-- end in another process. A write is given bytes and first puts them at the place for texts; with that place
-- the same as the buffer, cat's write of its buffer is the write of the C code.
-- A system call is one step of the relation in System.antt, although its entry turns interrupts on before the
-- call is made; the reads that wait are two steps.
--
-- The functions read and write a program's memory through translate, which gives the address of an access that
-- does not fault; Paging/Walk.antt has the processor's walk through the directory and the tables, with the
-- bits it asks for. itoa is modelled for the bases 2 to 36: for others the C code divides by zero, does
-- not end, or reads behind its table. A read of length 0 is given fuel for 2 ^ 32 + 1 tests, since the test
-- of the C code never fails there and only a block out of range ends the loop. An argument that
-- execute_call stores does not run into the fields behind terminal_cmd, however long it is.
--
-- Not modelled: inline assembly beyond its effect on the registers that are named, the TLB, the
-- descriptors of the LDT and the TSS, the debugging variable test_flag, the assembly files apart from the
-- entry of a system call, the kernel's tests, and the other user programs. The image of
-- the file system is a part of the state, from its first byte on, and does not depend on the address
-- that entry reads from the first module.
pub mod Base
pub mod State
pub mod Pic
pub mod Paging
pub mod Memory
pub mod Rtc
pub mod Screen
pub mod CString
pub mod Printf
pub mod Exceptions
pub mod Boot
pub mod User
pub mod System
pub mod FileSystem
pub mod LineBuffer
pub mod Process
pub mod Terminal
pub mod Keyboard
pub mod Pit
pub mod Syscall
pub mod Idt
pub mod Examples
