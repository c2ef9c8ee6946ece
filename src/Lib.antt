-- ===== src/Lib.antt =====
-- The labs of this repository that have logic of their own, and what is proved of them.
--
-- Parts. Each lab is a program of its own; they share no code.
--   * lab7, the file system zox-fs: ZoxFs.antt and ZoxFs/. Twenty clusters of 4096 bytes are kept in
--     memory and flushed to a host file. ZoxFs/Cluster is `struct cluster_t` of
--     lab7/include/zox-fs/cluster.h, whose union is bytes (ZoxFs/Bytes), since the code reads a
--     file's fields where a directory's were written. ZoxFs/Context is `struct fs_context_t` with a
--     monad of results, faults and missing fuel; a `cluster_t` is an index and NULL is none.
--     lab7/src/zox-fs/cluster.c is ZoxFs/Directory (the entries), ZoxFs/Lookup (searches and
--     flush_cluster), ZoxFs/Create (create_cluster) and ZoxFs/Paths; lab7/src/zox-fs/zox-fs.c is
--     ZoxFs/Create (mkdir, cd), ZoxFs/Paths (pwd), ZoxFs/Size (free, fsize, ls), ZoxFs/Remove,
--     ZoxFs/Load (load, extract), ZoxFs/Move (mv, cp) and ZoxFs/Init. lab7/src/repl.c is
--     ZoxFs/Shell and ZoxFs/Shell/Command.
--   * lab4, a manager of threads that print letters in turn: Lab4.antt and Lab4/. Lab4/Queue is
--     lab4/src/queue/queue.c, Lab4/Ring lab4/src/ring/ring.c, Lab4/Child lab4/src/child/child.c and
--     Lab4/Manager lab4/src/tm/tm.c; Lab4/Input is the loop of lab4/src/main.c and of a child's
--     thread, which send letters to the manager. Objects reached by pointers lie in a heap for each of their
--     types (Pointers.antt); an access to a freed object or through NULL is a fault. The manager's
--     queue holds pointers to letters, its ring pointers to children.
--   * lab2, a program that starts processes and kills the last one first: Lab2.antt and Lab2/.
--     Lab2/Stack is lab2/src/stack/stack.c, Lab2/Parent is lab2/src/lin/implementation_lin.c and
--     the letters of lab2/src/main.c; `fork` is an argument of the step that calls it. Lab2/Child
--     is lab2/src/lin/child_lin.c, all children as steps on one semaphore. Lab2/Windows is
--     lab2/src/win/childManager.c, each event as a step, and Lab2/Windows/Turns is
--     lab2/src/win/child_win.c and the manager's round; what its WaitForMultipleObjects returns is a
--     parameter with what is documented of it.
--   * lab3, two messagers on shared memory: Lab3.antt and Lab3/. Lab3/Messager is
--     lab3/src/lin/messager_lin.c with the loop of lab3/src/messager.c: each action is what one of the
--     four processes does between two calls that another can notice, `can` says when it may happen,
--     and a state is reached by any order of actions.
--   * lab5, files appended to one target by asynchronous requests: Lab5.antt and Lab5/. Lab5/Task
--     is `create_task` of lab5/src/zox_aio/task/zox_aio_task.c, `add_task` of
--     lab5/src/zox_aio/zox_aio.c and the jobs of reader/reader.c and writer/writer.c in
--     lab5/src/zox_aio/task_executor. What a read finds is a parameter. Lab5/System puts many
--     tasks together: files are added, jobs carried out and requests complete in any order, as a
--     list of events. Lab5/Library is the rest of both files, what create_task and
--     destroy_context take and give back. Lab5/Executor is task_executor/task_executor.c; the
--     GQueue is a parameter, an interface of operations with what GLib documents of them.
--     Lab5/Utilities is lab5/src/utilities/utilities.c.
--   * lab6, an allocator on a mapped file: Lab6.antt and Lab6/. Lab6/Memory is the mapping, whose bytes
--     end with a page, and update_heap; Lab6/Block is lab6/src/zox-mem/heap_block.c and Lab6/Allocator
--     lab6/src/zox-mem/zox-mem.c. Lab6/Layout has the abstract view, a list of blocks with their data
--     (`Chunk`), and `Represents` of Lab6/Malloc ties a heap to it.
--   * Stateful.antt has programs on a state that may fault; Base.antt and Base/ hold what all share.
--
-- Bounds and fuel. Numbers of the C code that may wrap are words of 64 bits, and a `char` has 8. The
-- loops of the file system over a chain of clusters have fuel for one round more than there are
-- clusters; `_zox_fs_rm` has two rounds for each cluster and two more. `zox_fs_pwd_s` stops after
-- 1000 steps, as in the code. Loops over a queue, a ring or a stack take their fuel as an argument,
-- and so do the rounds of a task and of an executor of lab5. The loops of lab6 go on by a byte or a
-- block in each round; they have two rounds more than the heap has bytes, or one more than the
-- mapping, behind which an access faults.
--
-- Outside. In lab5 the target file is an interface of a write and of the bytes that are there
-- then, and the percentage in floating point is a parameter. In lab2 a child's `errno` is 0 when
-- its handler runs, since a `semop` that a signal interrupts sets it only when it returns.
-- `fwrite` to the host file is a parameter that says of each write whether it succeeds; a write
-- that fails changes nothing. The addresses that `malloc` returns and whether `pthread_create`
-- succeeds are arguments of the steps. The contents of host files are lists of bytes. Messages of
-- the debug mode and the progress lines of extract are left out. The strcpy by which the file system
-- takes the first slash off a path overlaps itself, which C leaves open; it is taken to move the
-- bytes. A process id of Windows is small enough for its triple. In lab6 whether the file opens
-- and can be cut is a parameter, `mmap` succeeds at the same address, and what lies behind EOB in
-- the program's memory, which strcpy copies, is a parameter too. In lab3 `fgets` is written out,
-- each messager runs once, and SIGINT reaches the sending process alone.
--
-- Not modelled: the locks of lab4, which make the manager's steps atomic, and its options; the
-- paths in lab5; the end of `_zox_defrag`, which nothing calls; failures of `initialize` in lab3;
-- lab1 and the other Windows programs, which only call the operating system.
pub mod Base
pub mod Stateful
pub mod Pointers
pub mod ZoxFs
pub mod Lab2
pub mod Lab3
pub mod Lab4
pub mod Lab5
pub mod Lab6
