-- ===== src/Lib.antt =====
-- Verification of the programs of CS111: the WeensyOS kernels, the OSPFS file system, its
-- ramdisk, and the execution of commands by the shell of Lab1.
--
-- Prelude.antt holds the shared helpers: Boolean tests on numbers (Prelude/Tests), 32-bit words
-- and ints (Prelude/Word), and C arrays as functions of their indices (Prelude/Table).
--
-- Mpos.antt is the MiniprocOS kernel, WeensyOS1/mpos-kern.c: the process table, the current
-- process and the memory are the record Kernel; `interrupt` is the handler of the five system
-- calls, `do_fork`, `copy_stack`, `sys_exit`, `sys_wait`, `sys_newthread` and `sys_kill` its
-- parts, `schedule` the scheduler. The memory is apart from the process table, as the copy of a
-- stack is if the stack pointer of the process stands in its stack. A handler returns the kernel
-- as the process that it runs finds it, or `none` for a loop that never ends. The scheduler has
-- fuel for one turn of the table; that is enough, since the table does not change in the loop.
-- Its files under Mpos/ are named for what they prove: the scheduler, the invariant of the table
-- under each call, the child that a fork makes, and exit with wait.
--
-- SchedOs.antt is the SchedOS kernel, WeensyOS2/schedos-kern.c: `interrupt` and the five
-- algorithms of `schedule`, with getRandNum. The loops have fuel; the theorems say how much each
-- algorithm needs. Registers and process states are those of Mpos.antt, whose headers are the
-- same. SchedOs/ has the priority algorithms (Priority), proportional share (Share), the lottery
-- (Draw) and the invariant of the process table (Wf).
--
-- Ospfs.antt is the core of the file system module Lab3/ospfsmod.c over the bytes of its disk
-- image, with the layout of Lab3/ospfs.h: the memory (Ospfs/Disk), the digits of a number
-- (Ospfs/Bits), the free-block bitmap with allocate_block and free_block (Ospfs/Bitmap), the
-- index functions and the block lookup (Ospfs/Index), the state and error monad of functions
-- that return 0 or an error number (Ospfs/Monad), and add_block, remove_block and change_size
-- (Ospfs/Grow). The two loops of change_size have fuel for one round for each block of the size
-- wanted or present and one more. Ospfs/Grow/ has the theorems on files of at most ten blocks,
-- which have no indirect block: one block more (Add), one less (Remove), the invariant of a
-- small file (Small), what is taken back when the disk is full (Undo), growing (Extends, Resize)
-- and shrinking (Truncate).
--
-- Ospfs/Files is ospfs_read and ospfs_write of the same file, with the kernel's copies to and
-- from user space as parameters; their loops have fuel for one round for each byte, and a round
-- moves a byte at least. Ospfs/Files/Bytes says where the bytes of a small file are. Ospfs/Names
-- has directory entries and find_direntry, ospfs_mk_linux_inode and ospfs_dir_lookup;
-- Ospfs/Directory has create_blank_direntry, ospfs_link and ospfs_create, and its children
-- Symlink and Unlink have ospfs_symlink and ospfs_unlink. Their theorems see a directory as a
-- map from names to inode numbers (Ospfs/Directory/Entries). Ospfs/Readdir is ospfs_dir_readdir
-- with the callback filldir as a parameter and fuel for one round for each entry;
-- Ospfs/Attributes is ospfs_notify_change and ospfs_follow_link.
--
-- Osprd.antt is the ramdisk driver Lab2/osprd.c: osprd_process_request over the bytes of the
-- disk (Osprd/Requests), and the ticket lock with osprd_ioctl and osprd_close_last (Osprd/Lock).
-- An ioctl that has to wait answers with its ticket; `condition` and `grant` are what it waits
-- for and what it does then, `interrupted` what a signal makes it do. Osprd/Lock/System runs
-- them as steps of many tasks: in OSPRDIOCACQUIRE the increment of ticket_head, the look at each
-- file, the test for a deadlock, the test of the lock, the wait and the critical section are
-- steps of their own, between which others run. Each is taken to be atomic, which the driver,
-- without its spinlock there, does not ensure. Its files count the locks (Count), state the
-- invariant (Sound), keep it in the steps that take tickets, take the lock and give it up
-- (Ticket, Take, Give, Safe), and follow a ticket that nobody holds any more (Lost).
--
-- Shell.antt is the execution of commands in Lab1/execute-command.c: Command is struct command
-- of Lab1/command-internals.h, and execute_command a function from the state of the system to
-- that after the command with its status, by recursion on the command. The system calls and the
-- programs are the record System, a parameter; a program that never ends is a run without a result. Shell/Status is about the statuses,
-- Shell/Semantics about what commands do. Shell/TimeTravel is the time travel mode of the same
-- file: get_constrains, check_constrain, execute_tcmd and execute_timetravel_cmd over arrays by
-- the positions of the commands, the matrix constrain_graph by row and column. A round of
-- execute_tcmd takes an Answer, what fork and wait give in it, and the fuel is the list of
-- these. Its files are about the graph (Graph), the second half of a round (Retire), the whole
-- round (Round) and commands that wait for each other (Deadlock).
--
-- Not modelled: the tokenizer and the parser of the shell of Lab1, and there a failure of fork
-- and the size of the arrays of names; the peer of Lab4; the set-up of hardware and kernel
-- modules, which is device access; the MD5 code, which is third-party; tools and test scripts.
pub mod Prelude
pub mod Mpos
pub mod SchedOs
pub mod Ospfs
pub mod Osprd
pub mod Shell
