-- ===== src/Lib.antt =====
-- FastClone copies a directory tree from a server to a client over TCP, and FastCheck compares the
-- two sides. This library models the parts that both are built on, as functions by clauses that
-- can be run, and proves what makes them correct.
--
-- The parts and how they interact. The server sends its manifest as frames (Wire, Codec); the
-- client compares each entry with its own file (Compare) and asks for hashes, which the server
-- keeps in memory (MemCache). A file that differs is fetched over one of several lanes (Lanes), or
-- rebuilt from the old one by a delta (Delta): the server signs the blocks of the new file, behind
-- a gate that bounds its readers (ReadGate), and the client plans which bytes to copy and which to
-- fetch. The sizes and rates of it all are tuned (Tuning). Both sides read and write files through
-- one driver that shares the disk among many files (DiskIo), the client compares entries on worker
-- threads (Compare/Pipeline), and two command lines set it all up (Cli, Check).
--
-- Which file models which part:
--   Wire/Bytes, Wire/MsgType, Wire/Frame: FastClone/protocol.cpp and protocol.h. `AppendU16` is
--     `append_u16`, `SendFrameBatch` is `send_frame_batch`, `RecvFrame` is `recv_frame`, and so on.
--     A cursor into a buffer is the bytes behind it; a socket is the bytes that were put on it.
--   Codec/Handshake, Codec/Messages, Codec/Signatures: FastClone/protocol_codec.cpp, one function
--     for each, under its name. A throw is a `Result`.
--   Handshake: FastClone/client_handshake.cpp, over the frames and the codec.
--   Delta/Weak, Delta/BlockSize, Delta/Project, Delta/Sign: the checksum, the block sizes, the
--     benefit tests and `GenerateSignatures` of FastClone/delta.cpp.
--   Delta/Stream: `StreamingSigner` of FastClone/delta.cpp; the states of XXH3 are an interface.
--   Delta/Plan: `BuildPlan` of FastClone/delta.cpp, its candidate table (Candidates), its scan
--     (Scan), its emission (Emit) and the whole (Build).
--   Compare: FastClone/compare_phase.cpp. MemCache: FastClone/hash_memcache.cpp. ReadGate:
--     FastClone/read_gate.h. Lanes: FastClone/link_scheduler.h. Tuning: FastClone/transfer_tuning.cpp.
--   DiskIo: the types of FastClone/disk_io_backend.h. DiskIo/Align: disk_io_align.cpp. Of
--     FastClone/disk_io_driver.cpp, DiskIo/Queues has the fair choice of `PickAndSubmit`,
--     DiskIo/Completions the queues per file and the order list, DiskIo/Driver the rest of
--     `DiskIoDriver`, and DiskIo/Reader the `SequentialReader`. A step of the driver is one critical
--     section of one of its threads: DiskIo/Driver/Threads says what each thread holds between two
--     of them, and DiskIo/Driver/Steps in which order it goes through them.
--   Compare/Pipeline: FastClone/compare_pipeline.cpp, a worker's round cut at each lock.
--   Cli: FastClone/cli.cpp, its numbers (Numbers), endpoints (Endpoints), options (Options) and its
--     loop over the arguments (Options/Loop). A throw is a `Result`; the bytes of an argument are
--     the codes of its characters.
--   Check: FastCheck/check_options.h; FastCheck/check_cli.cpp in Check/Args, check_report.cpp, as the
--     bytes it writes, in Check/Report, and of check_engine.cpp the recording of verdicts, the
--     tuning and the end of `RunCheck` in Check/Engine.
--   Entry: what these exchange, FastClone/file_index.h. Prelude: shared types, lists, numbers.
--   Runs: the code on concrete inputs.
--
-- Numbers. A byte, and an unsigned integer of any width, is a native number, and where the source's
-- arithmetic can wrap the wrap is written out (`% 2 ^ 32`, `% 2 ^ 64`). A signed integer is `ℤ`. A
-- `double` comes from an interface of operations without laws (Prelude/Float), so what is shown
-- holds whatever the rounding.
--
-- Bounds and fuel. `Isqrt64` runs on 32 rounds, which empty a 64-bit value two bits at a time. The
-- scan of `BuildPlan` runs on as many rounds as the old file has bytes, and one more: each round
-- moves the window on. `SendFrameBatch` runs on as many rounds as there are frames, and
-- the loop of `Update` on as many as there are bytes in the piece. A drain of all completions runs on
-- one round more than the order list is long. That this is
-- enough is part of the theorems, which say that a result is returned. The theorems on plans are
-- for new files below 2^31 or 2^32 bytes, since a fetched range keeps 32 bits of its length.
--
-- Parameters. XXH3 is not part of the repository: the strong hash is an argument, and the theorems
-- on plans assume of it that its compared bytes tell the windows of the old file from the blocks of
-- the new one, and those on the streaming signer that a digest is the hash of the bytes that were fed.
-- Runs/Deltas has concrete functions of which this holds.
--
-- Not modelled: the streaming planner of FastClone/delta.cpp, the engines with their threads and
-- sockets (FastClone/sync_engine_client.cpp, sync_engine_server.cpp, and the loop of
-- FastCheck/check_engine.cpp), directory walks and the probing of the network, and the back ends of the
-- disk driver, which call the system: any order of answers is allowed for. Waiting and waking, with
-- the wait states of `waitForFile`, are left out, as are the back end's own counters. The driver's
-- counters do not wrap. Errors in the middle of a send or a receive are not modelled
-- either, nor the numbers inside the messages of exceptions. A `long` has 64 bits. The usage text,
-- and the checks of FastCheck that look at the file system, are left out.
pub mod Prelude
pub mod Entry
pub mod Delta
pub mod Tuning
pub mod Lanes
pub mod Cli
pub mod Compare
pub mod DiskIo
pub mod Check
pub mod MemCache
pub mod ReadGate
pub mod Wire
pub mod Codec
pub mod Runs
pub mod Handshake
