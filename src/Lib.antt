-- ===== src/Lib.antt =====
-- A verification library for the exercises of an operating-systems course.
--
-- The memory manager, lab02/zad1/src. A buffer is handed out in units of 8 bytes. A binary search
-- tree (bst.c) holds the empty blocks by their quantity and a linked list (list.c) the reserved
-- ones by their address; mem_management.c moves blocks between the two.
--   MemManagement/Heap       the C heap: nodes at addresses, reads and writes as commands that end
--                            in a value, a fault (NULL or a dangling pointer) or out of fuel;
--                            `malloc` is a parameter, which returns an unused address or NULL.
--   MemManagement/BlockList  list.c; its children are about a list in the heap, insertion, deletion,
--                            and the start and end of its life.
--   MemManagement/Bst        bst.c; its children likewise, on trees with parent pointers. For
--                            `bst_delete_node`, Context is the tree around a node, Transplant,
--                            Minimum, Attach and TakeOut are about the steps of the deletion, Delete
--                            and Remove put them together.
--   MemManagement/Manager    mem_management.c: the global `m` is a record passed along. Its child
--                            Cover counts the blocks at a byte of the buffer, Partition and Requests
--                            are about a manager whose blocks partition the buffer.
-- Every loop runs on `size + 1` rounds, where `size` is the container's own field. A well-formed
-- container has that many nodes and a loop visits each at most once, so that the rounds are enough;
-- running out of them is a result of its own. The result of a comparison of
-- addresses is that of their numbers. The bytes of the buffer, the release of the buffer and what
-- is printed are not modelled. A buffer whose bytes are more than an `int` counts is a fault of
-- `mem_init`; other quantities are unbounded, as nothing wraps below the buffer's size.
--
-- The datagram server, lab10/zad1/server.c. Clients register under a name, ask for the list of
-- names, and ask the server for the data of another client, which it fetches.
--   InfoServer/Table         the array of clients and the functions on it; a read behind its end is
--                            `out_of_bounds`, and so is a name too long for its array. A name is
--                            its bytes before the terminating zero.
--   InfoServer/Clients       what the table stands for: the registered names with their addresses.
--   InfoServer/Requests      one round of the main loop: the table after it and the datagrams sent.
--                            What `sendto` accepts and `recv` returns are parameters.
-- The set-up of the sockets, the wait for a request and the clean-up on exit are not modelled.
--
-- The stream server, lab10/zad2/server.c. A thread per client answers the same requests; the
-- clients, on the stacks of their threads, are linked in a list behind a mutex.
--   StreamServer             the start of a thread and one round of its loop, on the list, the
--                            mutexes and `shared_info`; a read of a thread that has ended is a
--                            fault, a lock of a locked mutex is a result of its own. What the other
--                            threads do while it polls, and what `send` accepts, are parameters.
--   StreamServer/Links       the list, and the loops over it. They run on more rounds than it has
--                            clients, and visit each at most once.
--   StreamServer/Unlink      a client is taken out.
--   StreamServer/Requests    the requests.
-- Other interleavings of the threads, `main` and its sockets are not modelled.
--
-- The dining philosophers, lab09/zad3a/philosophers.c. Five threads share five mutexes and two
-- arrays that say who eats and who has which fork.
--   Philosophers/Table       the forks and the arrays, `pthread_mutex_lock` and `unlock`.
--   Philosophers/Ownership   who has which fork, told from where the threads stand.
--   Philosophers/Asymmetric  the threads: a step is one access to shared memory, a thread that
--                            waits for a mutex has no step, and the steps come in any order.
-- lab09/zad3b/philosophers.c has a count of the philosophers at the table instead, behind a mutex
-- and a condition variable.
--   Philosophers/Counted     its threads, likewise; a thread may wake up with no signal. Its
--                            Examples.antt has the run that ends in a deadlock.
-- The pauses and the printing are not modelled, and no pthread call fails.
--
-- The ring of tasks, lab08/zad1. A producer puts tasks of 50 numbers in a ring of ten slots in
-- shared memory, a consumer prints the least, the largest and the mean number of each; two
-- semaphores count the free and the filled slots.
--   TaskRing                 put_task of producer.c, execute_task of consumer.c, and their main
--                            loops as a step relation, one producer with one consumer. What the
--                            consumer prints is kept in the state.
--   TaskRing/Order           the order of the tasks.
-- The arithmetic of `double` and the numbers of `rand` are parameters.
--
-- The record file, lab03/zad1/prog.c: a header with the size and the number of records, and a sort
-- in place that exchanges records in the file.
--   RecordFile               `sort`: the records as an array, each at `i * struct_size + OFFSET`.
--                            A loop runs on the rounds that are left, `count - i` of them.
--   RecordFile/Sort          the order of the keys, and where the records go.
--   RecordFile/Bytes         the same file as bytes, read and written through `lseek`, `read` and
--                            `write`, which are parameters: `sort`, `generate` and the loop that
--                            copies the file. An `int` is four bytes; a product of two that does
--                            not fit is an `overflow`. The copy runs on a round for each byte that
--                            is left, and one more: every round but the last reads a byte. Of
--                            records shorter than their key `generate` writes the keys; `sort` is
--                            not followed behind the `malloc` of a negative size.
--   RecordFile/Bytes/Posix   what the manual says of these calls on a file.
-- Its other children are about results (Ends), the bytes of an `int` (Codec), one record (Records,
-- Layout), the two sorts (Exchange, Refines), `generate` and the copy. `time_measure` only prints.
--
-- Readers and writers, lab08/zad2. Readers count the cells of an array in shared memory that lie in
-- a range, writers modify cells; a count of the readers and two semaphores keep them apart.
--   ReadersWriters           the main loops and tasks of reader.c and writer.c as a step relation,
--                            any number of each; a step reads or writes one cell.
--   ReadersWriters/Invariant what the count and the semaphores say of the processes.
--   ReadersWriters/Exclusion who is at the array, told from where the processes stand.
--
-- The locker, lab03/zad3. A user locks, reads and writes single bytes of a file that other
-- processes lock too.
--   Locker                   secure.c: each function on the answers of `fcntl`, `lseek`, `read` and
--                            `write`.
--   Locker/Posix             these calls for one process, an unknown, and what their manual says.
--   Locker/Session           the loop of main.c on a list of commands with their operands.
--   Locker/Safety            what the locks of other processes do to the calls and to a session.
-- The words that the user types are not parsed, and the bytes change by this process alone during a
-- session.
--
-- Matrices, lab02/zad2/src/matrixes.c (lab01/zad3a, zad3c and zad3d have the same loops).
--   Matrices                 `add_matrix` and `mul_matrix` on cells in memory, where the result may
--                            share memory with an operand. The operations on `type` are parameters.
--   Matrices/Fill            two nested loops that write each cell once.
--   Matrices/Results         the entries of the results.
-- Allocation, reading and printing of a matrix are not modelled.
--
-- The chat server, lab07/zad1a/server.c. Clients register on a message queue and write to the
-- others, each through a queue of its own.
--   Chat                     a round of the main loop on the registered clients, what the calls on
--                            the queues give, and the messages sent.
--   Chat/Present             who stays in the chat.
--   Chat/Recipients          who gets a message.
-- Printing, the creation and the removal of the server's queue are not modelled.
--
-- The chat server with notifications, lab07/zad1b/server.c. A client registers on the server's
-- queue; the system notifies the server of each message in a client's queue.
--   NotifiedChat             the two signal handlers on the table of clients, and the calls that
--                            they make. What the calls give is a parameter.
--   NotifiedChat/Table       the table through any sequence of runs.
--   NotifiedChat/Broadcast   who gets a message.
-- A handler is not interrupted by the other one; what is printed is not modelled.
--
-- Thread finders, lab09/zad1/finder.c (lab09/zad2a/main.c has the same search). Threads look for a
-- pattern in a file, each in every n-th block.
--   Finder                   the search of one thread; each read follows a seek under the same
--                            mutex, so that a thread is a function of the file. The loop over a
--                            block runs on as many rounds as the buffer and the pattern have bytes.
--                            A position that is no `int` is `overflow`.
--   Finder/Within            what `read` gives of a file, and where a pattern stands.
--   Finder/Scan, Examine     the comparison at one place, and what follows it.
--   Finder/Reports, Complete what a thread reports of one block, and of the file; Fill is about
--                            the buffer after a read.
--   Finder/Found             what all threads find together.
-- The start and the cancellation of threads, and the options, are not modelled.
--
-- The file counter, lab04/zad3/count.c. A process per directory counts files with given extensions.
--   FileCount                `walk` and `matches`, on the entries that the system gives of a
--                            directory; a child is a walk whose number is cut to an exit status.
--   FileCount/Extensions     which files are to be counted.
--   FileCount/Total          the number that is counted.
-- The options and what is printed are not modelled.
--
-- Base has the names, tests and lemmas on lists that all parts share. Examples.antt beside a part
-- runs it on small inputs and applies its theorems there.
--
-- The other exercises (processes, signals, pipes, build demonstrations) are calls of
-- the operating system and are not modelled.
pub mod Base
pub mod MemManagement
pub mod InfoServer
pub mod Philosophers
pub mod TaskRing
pub mod RecordFile
pub mod ReadersWriters
pub mod Locker
pub mod Matrices
pub mod Chat
pub mod Finder
pub mod NotifiedChat
pub mod StreamServer
pub mod FileCount
