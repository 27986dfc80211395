-- ===== src/Lib.antt =====
-- A verification library of Expand (XPN), a parallel file system.
--
-- A client of Expand spreads the blocks of each file over the data servers of a partition
-- (src/xpn_client/xpn/xpn_simple/policy), keeps what it needs for that in the file's metadata
-- (include/xpn_client/xpn/xpn_simple/xpn_metadata.h), and splits each read and write into
-- operations on the servers (xpn_policy_rw.c), which the file operations carry out
-- (src/xpn_client/xpn/xpn_simple/xpncore/xpn_rw.c). Client and servers share the containers, the
-- worker threads and the arithmetic of src/base. Programs reach the client through a library of
-- wrappers around the C library's functions (src/bypass/xpn_bypass.c), which sends the calls on files
-- below a mount point to the client and passes the others on. The client asks a server through
-- src/xpn_client/nfi/nfi_xpn_server/nfi_xpn_server.c, and the server answers in
-- src/xpn_server/xpn_server_ops.c.
--
-- Prelude: shared names, lists over the native numbers, C's signed integers (Prelude.Int) and
-- division with remainder (Prelude.Euclid).
-- Metadata: `struct xpn_metadata`.
-- Policy.Block: XpnCalculateBlock and XpnCalculateBlockInvert of xpn_policy_rw.c.
-- Policy.Reconfigure: XpnCalculateBlockMdata, the placement after expansions and shrinks.
-- Policy.Transfer: XpnReadGetBlock, XpnWriteGetBlock, XpnReadBlocksBlockByBlock and
-- XpnWriteBlocksBlockByBlock. An operation matrix is a list of rows; `Transfer.Placed` is the
-- interface to the placement: what the splitting needs of it, which `Transfer.Plain` shows for a
-- file whose servers were never changed.
-- Policy.Grouping: the functions that merge the operations of a server into one, with the copies
-- of memory between the buffers; Grouping.Totals: XpnReadGetTotalBytes, XpnWriteGetTotalBytes and
-- XpnGetRealFileSize.
-- Client.Rw: the checks of xpn_simple_read and xpn_simple_write, xpn_sread, xpn_swrite and
-- xpn_simple_lseek. The servers are a record `Nfi` of operations on a state, which the client
-- takes as a parameter.
-- Client.Mdata: the metadata of a new file, and the servers of its copies
-- (src/xpn_client/xpn/xpn_simple/xpncore/xpn_metadata.c).
-- Client.Files: the table of open files and the descriptions that it points to (xpn_file.c, and
-- XpnSearchSlotFile, xpn_simple_dup, xpn_simple_dup2 and xpn_simple_close of xpn_open.c).
-- Client.Open: xpn_internal_open, and the calls of xpn_open.c and xpn_opendir.c that open and close.
-- Client.Affected: which servers an operation on a whole file goes to, xpn_internal_remove and
-- xpn_simple_rename, of xpn_open.c. The workers of the servers are records of operations, which both
-- take as parameters.
-- Client.Names: absolute paths and partitions (xpn_policy_cwd.c, xpn_policy_init.c, path_misc.c).
-- Protocol: the messages of include/xpn_server/xpn_server_ops.h, and a stream of them with the bytes
-- of paths and files, first in and first out.
-- Server: xpn_server_read_path and the operations of xpn_server_ops.c, as Server.Files, Dirs, Transfer
-- and Mdata, and Server.Dispatch for xpn_server_do_operation. The file system of the server is a
-- record `Host` of calls on a state. What the C code reads before it is set is an argument.
-- Nfi: the functions of nfi_xpn_server.c, as Nfi.Files, Dirs, Transfer and Mdata. What lies under them
-- is a record `Link` of operations on a state.
-- Nfi.Local: nfi_local.c beside it, the same functions for files of the client's own machine.
-- Remote: client and server together. `Remote.pipe` is a `Link` at whose other end a `Server` serves the next
-- request when the client waits for an answer.
-- Base.Darray, Base.Dtable: the arrays of pointers and the tables of descriptors (src/base/darray.c,
-- src/base/dtable.c), over memory with checked accesses.
-- Base.WorkersPool: the ring of operations of src/base/workers_pool.c. Each critical section is a
-- step, and a run is any sequence of steps.
-- Base.WorkersOndemand: src/base/workers_ondemand.c, also as steps of launches and their threads.
-- Base.Hash, Base.Raid: the hashes of src/base/path_misc.c and src/base/math_misc.c, and the
-- location of blocks and parity of math_misc.c.
-- Bypass: src/bypass/xpn_bypass.c. `Bypass` itself has the state, the calls of Expand and of the C
-- library, and the mount point; Bypass.Fds and Bypass.Dirs have the tables (fdstable_get,
-- fdstable_put, fdsdirtable_put and the others), Bypass.Init xpn_adaptor_keepInit, and Bypass.Files,
-- Streams, Paths, Dirs and Process one function per wrapper, under the name that it wraps.
-- Bypass.Intercept is the library as a whole, a function from calls to their wrappers, on which
-- Intercept.Program runs programs. What a wrapper calls is a record `Env` of operations, which it
-- takes as a parameter. The tables grow without end: where memory is not found the process ends.
-- The modules named Tests hold runs at concrete inputs.
--
-- Integers: `int` and `off_t` values are integers without bounds, since their overflow has no
-- meaning in C; where only non-negative values can stand they are native numbers. Conversions that
-- C defines, to `unsigned` and to `int`, keep their wrap-around.
-- Memory: malloc fails where the model has an argument for it. The rows of the operation matrix are
-- lists; the capacity of the arrays that xpn_pread and xpn_pwrite allocate for them is that of
-- Transfer.Capacity.
-- Loops: `for` loops recur on the rounds left. The `while` loops of the splitting take the size of
-- the request as fuel, and those of xpn_sread and xpn_swrite one more: each round takes at least
-- one byte, and the theorems show that it is enough. The same holds for the loops that move the data
-- of a read or a write between client and server, with the size and one more.
-- An access outside of an array that the code does not guard ends a run in `none`.
--
-- Not modelled: the bytes of the messages and their transport over MPI and sockets
-- (nfi_xpn_server_comm.c, xpn_server_comm.c), the main loop and the threads of a server
-- (xpn_server.c), how a connection is set up, the message queue of mq_server, mutexes around the
-- client calls, xpn_pread and xpn_pwrite, which run the operations of a matrix on their threads, MPI (with the MPI wrappers of xpn_bypass.c), the log messages, NFS and the bindings to
-- other languages. They are input and output, or system and library calls.
pub mod Base
pub mod Bypass
pub mod Client
pub mod Metadata
pub mod Nfi
pub mod Policy
pub mod Prelude
pub mod Protocol
pub mod Remote
pub mod Server
