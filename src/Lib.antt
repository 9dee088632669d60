-- ===== src/Lib.antt =====
-- Verification of the programs of this repository: a file system in one file (hw1-fs), the same
-- behind a network protocol (hw2-netfs), a phone directory in the Linux kernel with its clients
-- (hw3-kernel), and a kernel module that counts key presses (hw4-keystats).
--
-- Rfs models hw1-fs. The container is mapped into memory, so the state is the memory, a function
-- from addresses to bytes, and every operation is a command on it that ends, stops the process
-- with a message, faults, or runs out of fuel (Rfs/Machine). Rfs/Layout has the structures of
-- hw1-fs/fs.h and the platform check of hw1-fs/fs.c. The functions of hw1-fs/manage.c keep their
-- names: the lookup table in Rfs/Table, inodes and chains of blocks in Rfs/Blocks, read_file and
-- write_file in Rfs/Files, directories in Rfs/Directory, init_fs and open_fs in Rfs/Volume.
-- Rfs/Paths has split_path of hw1-fs/myutil.c and locate_path, Rfs/Commands the commands of
-- hw1-fs/main.c. Sums and differences of sizes, offsets and counts from the container or from a
-- caller wrap at 64 bits (add_size, sub_size); indices that run below such a bound and addresses
-- in the mapped container do not wrap. A null pointer or a division by zero is a fault. What a
-- command prints is its result.
--
-- Phonedir models hw3-kernel. Phonedir/Record has the record of hw3-kernel/kernel/phonedir.h and
-- its bytes, Phonedir/Directory the list of hw3-kernel/kernel/directory.c, Phonedir/Device the
-- character device of hw3-kernel/kernel/kmodule.c with the buffers of an open file,
-- Phonedir/Syscalls its system calls and the dispatch to the published module at the end of
-- hw3-kernel/linux-5.5.y/kernel/sys.c, Phonedir/Client what hw3-kernel/client/lltest.cpp sends to
-- the device, Phonedir/Lltest its loops over read and write and whole runs of it, with what the
-- parse of the command line leaves as an argument, Phonedir/Lifetime the opening and release of
-- the device and the start and end of the module, Phonedir/Systest the client of the system calls
-- in hw3-kernel/client/systest.cpp and calls.c. An allocation may fail: a call takes the outcomes
-- of its allocations as a list, at whose end they succeed. A semaphore that is interrupted and a
-- pointer that the user may not use are arguments.
--
-- Netfs models hw2-netfs, whose core has the functions of hw1-fs/manage.c with packed structures,
-- so it uses Rfs. Netfs/Socket has safe_read of hw2-netfs/src/serialization.c on a stream that
-- comes in pieces, Netfs/Protocol the serializers of the operations in
-- hw2-netfs/include/serialization.h and hw2-netfs/src/serializers.c, Netfs/Server the operations
-- of hw2-netfs/src/backend_operations_impl.c and the requests of one client of
-- hw2-netfs/src/net_backend.c, Netfs/Threads the threads of its connections with their lock, any
-- of which takes the next step until a fault kills the process, Netfs/Client what
-- hw2-netfs/src/main_cli.c sends, how it reads data and errors, and its command cat against the
-- server, where each side reads the stream that the other sends. The texts of the messages, the
-- sizes for which malloc answers the buffer of a read, and what memory holds where the arguments
-- of a request were not read are arguments; other allocations succeed, and what is sent is the
-- result.
--
-- Keystats models hw4-keystats/kernel/kmodule.c, with runs as sequences of interrupts, calls of
-- the timer, and the three steps of unloading, of which the kernel's free_irq and del_timer_sync
-- do what they promise.
--
-- Prelude has what the others share: tests and conditionals, lists under native numbers, and the
-- bytes of texts and numbers.
--
-- Loops are recursion on the rounds that are left or on fuel. The walk to an offset has one more
-- round than the offset, since each takes a byte at least; copying has two more than the length;
-- the loop of purge_blocks one more than the container has blocks, which a chain without a cycle
-- does not use up; purge_file as many levels as the container has blocks; the loop over the input
-- of the device as many rounds as there are bytes; safe_read as many rounds as the bytes that it
-- waits for; the loops of lltest.cpp one more round than the bytes they move, and its printing
-- loop as many rounds as it is given, one more than the entries being enough.
--
-- Not modelled: sighandler of hw2-netfs/src/net_backend.c, which is never installed; the answers
-- to stat and ls in the client of hw2-netfs; the mapping of the container, sockets, printing and
-- the command lines; CLI11 and the Linux kernel, which are copies of other projects.
pub mod Prelude
pub mod Keystats
pub mod Netfs
pub mod Phonedir
pub mod Rfs
