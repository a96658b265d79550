-- ===== src/Lib.antt =====
-- The library models parts of the operating system DunitOS that decide without touching a device.
--
-- Parts and how they interact
-- - gui-v1 is the protocol between the display server and its clients. protocols/gui-v1/src/wire.rs turns
--   packets into requests and events into packets; protocols/gui-v1/src/server.rs keeps the connections,
--   their surfaces and buffers, and the one input seat. A packet goes through `deliver`: framing, checks of
--   version, serial and opcode, decoding (wire.rs), `dispatch`, and the numbering of the answers. The
--   window manager (protocols/gui-v1/src/wm.rs, which stacks windows, gives the focus and drags) and the
--   kernel inject events (focus, pointer, keys, reconfigure, composition).
-- - kernel/src/pipe.rs, kernel/src/process/scheduler.rs, kernel/src/ipc/mod.rs and kernel/src/handle.rs are
--   the byte pipes, the ready queue, the message queues and the capabilities behind the system calls.
-- - kernel/src/memory/pmm.rs hands out physical frames, kernel/src/allocator.rs keeps the
--   kernel heap and grows it by them, kernel/src/pty/mod.rs joins a terminal emulator (the
--   master) to a child process (the slave), and kernel/src/fs/vfs.rs turns paths into a file system and a
--   path inside it, and keeps the open files.
--
-- Files and the code they model
-- - Prelude: tests on numbers, lists, `BTreeMap` as a sorted table, results with `?`, integers.
-- - Gui/Wire: Codes (ErrorCode, Opcode, constants), Bytes, Header (Header::decode), Cursor (the payload
--   cursor as a parser monad), Utf8 (core::str::from_utf8), Request, Writer, Event. Parses, Reads,
--   RoundTrip, Framing, Codec and Canonical hold the proofs.
-- - Gui/Server: State (limits, Surface, Buffer, Connection), Seat, Step (what an arm of `dispatch` sees and
--   gives), Dispatch with Session, Surfaces, Buffers and Commit (its arms), Pipeline (Server, connect,
--   tick, pipeline, deliver), Inject with Emit, Frames, Focus,
--   Pointer and Keyboard (the injected events), Calls (all public operations). Atomic,
--   Consistent, Bookkeeping, Guards, Follows, Progress, Served, Sound, Coherent, Reachable, Seated, Stale and Serials hold
--   the proofs; Examples a session.
-- - Gui/Wm: WindowManager of protocols/gui-v1/src/wm.rs. Focused, Kept, Hits and Drags hold the proofs.
-- - Kernel/Pipe, Kernel/Scheduler, Kernel/Ipc, Kernel/Handle: one record for the state, one function for each call.
--   Kernel/Ipc has Shared, for the regions of shared memory, whose frames are those of Kernel/Pmm.
-- - Kernel/Pmm: PhysicalMemoryManager, with Boot for `init`. Bits, Frames, Scan, Alloc, Runs, Regions, Ready
--   and Calls hold the proofs.
-- - Kernel/Heap: HeapInner of kernel/src/allocator.rs and what KernelAllocator calls. Merge, Grants, Returns,
--   Calls, Sound and Growth hold the proofs.
-- - Kernel/Pty: Pty, the table of them and every call, the slave's in Slave. Editor is what canonical input means;
--   Line, Typing, Calls, Bounds and Private hold the proofs.
-- - Kernel/Vfs: Path (normalize_path_into and what it calls), OpenFlags and VirtualFileSystem. Components, Appended,
--   Normal, Again, Mounts and Descriptors hold the proofs.
--
-- How the code is written down
-- - `&mut` state is passed in and returned; `return error(..)` is a failed result, which `settle` turns
--   into the ERROR reply. A `BTreeMap` is a list of pairs in ascending order of the keys. A string is the
--   list of its bytes. A lock makes each call one step, so calls are sequences.
-- - Loops are structural recursion: over lists, over the count of damage rectangles, and, in
--   `pick_next_excluding`, over the turns that are left, of which there are as many as the queue is long:
--   a turn returns or shortens the queue. The search of `allocate_id` has as many turns as there are
--   entries and two more: so many different ids are not all taken or 0.
-- - A copy of an object, as of the bytes of a memory object that `duplicate` clones, is an equal value.
-- - Reads of other parts are parameters: `runnable` and `process_exists` stand for the process table.
-- - Fields of packets are numbers below the bound of their type, as the theorems require. Reference counts
--   of pipes wrap at 32 bits. Counters of a connection are natural numbers: their limits keep
--   them small. Serials of the server and client ids have
--   64 bits and are natural numbers: so many are never sent. Connection ids wrap at 32 bits.
-- - Coordinates of windows are 32-bit words in two's complement, whose sums wrap.
-- - The loops of pmm.rs run on the bytes of the bitmap or the frames of the pool that are left; `& !(PAGE_SIZE - 1)`
--   is rounding down to a multiple. The counts of frames wrap at 64 bits.
-- - A free block of the heap is its address and its size, and the free list is the list of them in the order of
--   their links; the headers in front of live allocations are a table by the address that was given
--   out; what `dealloc` reads in front of any other address is a parameter of it, `stray`. Sums wrap
--   at 64 bits where the code does not check them. The direct map of physical memory is an offset.
-- - The path buffer of vfs.rs is the list of its bytes in use. A file system is a number for the pointer to it,
--   its calls are parameters of the calls that ask it; a dropped OpenFile, whose handle is closed, is an answer.
--
-- Not modelled
-- - The painting of frames in protocols/gui-v1/src/wm.rs, page tables, storage, the file
--   systems behind vfs.rs with its directory entries, processes and system calls.
-- - Drivers, boot code, rendering, user space and tools, which are devices, assembly, drawing or scripts.
-- - The reason strings of wire errors, and the cells that hold the one instance of a manager, which is an argument.
pub mod Prelude
pub mod Gui
pub mod Kernel
