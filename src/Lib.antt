-- ===== src/Lib.antt =====
-- KPR is a set of servers and clients for the L4Re system: a keyboard driver, a server of virtual
-- consoles that are switched by TAB, the client of a Pong game, a log server, and allocators that
-- take the place of the one in the C library backends.
--
-- - MemList (pkg/libc_backends/lib/l4re_mem/mem_list.cc): `malloc` and `free` over two circular doubly
--   linked lists, of the blocks in use by address and of the free blocks by size. State has the
--   globals and the memory: a header is an address, and its three fields are maps. Memory holds such
--   maps as long as no two headers meet in its bytes: Headers has the bytes, and what is said of lists
--   and calls has that for a condition or a part. Each access tests that the header lies in mapped memory, and is a fault elsewhere.
--   Ops has `extend_mem`, `align`, `split` and the list functions, of which each pair is one function
--   with the list as an argument; Alloc has `malloc` and `free`. Ring, Steps, Invariant, Insert, Join,
--   Move, Cut, Gain, Extend, Heap, Ascending, Spaced, Spread, Settled and Laid carry the proofs;
--   Remove, Settle, Find, Take, Free, First, Grown, Unowned, Bounds and Refused have the results on a
--   call, Links and Separated those on lists and calls whose headers stay apart, Reach those on any
--   number of calls, Life those on where blocks lie in memory, for sizes that
--   are odd multiples of four, Reuse that freed memory is given out again, Supply and History have any
--   number of calls with an environment whose areas are apart, Overlap has multiples of eight,
--   Overflow the sizes that wrap.
--   Sizes and addresses are 32-bit, as on the systems for which `int` is the size of a
--   pointer, and a header has 12 bytes. The two loops, `walk` and `find`, run on fuel; the length of
--   the list is enough, and the results say so.
-- - MemBitmap (pkg/libc_backends/lib/l4re_mem/mem_bitmap.cc): an allocator with one bit for each word.
--   Alloc has `malloc`, `free` and `init`, with an access outside of the bitmap as an outcome; its loops
--   run for as many rounds as those of the source, which count up to a bound. Search has the search for
--   a free run, Mark what `malloc` and `free` do, Leak what the two leave together,
--   Apart and History that blocks do not meet after any number of calls.
-- - MemBlocks (pkg/libc_backends/lib/l4re_mem/mem_vFail.cc): an allocator with one bit for each page, in
--   a ring of blocks of eight pages. Blocks has a block's bits and the steps over their indexes, Alloc
--   has `malloc`, `free` and `extend_mem`; the calls of `detach` are recorded, and whether one takes
--   the block's memory away is an input. Index, Clear and Pages
--   carry the proofs, Flat has the search as one over the bits of all blocks, Hit what
--   `malloc` takes, Return what `free` does with it, Wrap what it takes of a run over two blocks, Ends that the loops
--   end, Free when nothing is freed. The loops run on fuel: one round for each eight pages and one for
--   each block is enough.
-- - Keyboard (pkg/rm_keyboard): Keys has the codes of include/shared.h, Server the loop and the
--   dispatch function of server/src/keyboard.cc, Held and Invariant what the list says and holds after any
--   scan codes, Client the loop by which the clients read a reply, Dots the client of
--   examples/rm_kb_client.cc, Race an answer with rounds of the loop between its size and its keys.
--   The loop that erases keys increments an iterator that it has erased; what that does is a
--   parameter. It runs on fuel, as the parameter may lead it
--   anywhere; where the parameter goes on behind the erased element the length of the list is enough.
-- - Console (pkg/rm_consoleAlt1/server/src): Ctrl is consoleCtrl.cc, whose state is the two consoles
--   and the flag for TAB; Switch says which console is shown; Factory is consoleAlt1.cc, whose requests
--   make a console by `get_ds` of the controller; Reach has both over the server's whole life,
--   in which a request and a round are single steps. Threads has the reads and writes of the two threads
--   one by one, and any schedule of them; Follows, SwitchTurn and MakeTurn carry the proofs, and Linear
--   has what the schedules have to do with single steps.
-- - Pong (pkg/rm_pong_client/pong_client.cc): Paddle has the two paddles and the keyboard thread, and
--   runs them by any schedule of whole steps; Moves bounds the positions. Threads has the reads and
--   writes of the threads one by one, and Drift what their schedules lead to. Positions are integers,
--   and the results keep them within an int. Connect has the connection to the server.
-- - Log (pkg/rm_log/server/src/log.cc): Server has the server, with the calls of libgfxbitmap as the
--   interface `Gfx`; Screen says which line of the view shows which message.
-- - System: the keyboard driver and the console's loop together, through the message stream (Tab), also
--   where a key is pressed in the middle of a reply (Race), the driver and the Pong client's keyboard
--   thread (Paddles), and how the servers and the Pong client start (Startup).
-- - Env: what the system answers to a request for memory, as an input of MemList, MemBitmap
--   and Console.
-- - Base: numbers, tests, lists and integers that the parts share.
--
-- The driver sends its list of keys by the reply that Keyboard.Client reads; a round of the console's
-- loop and of the Pong client's starts with such a list.
--
-- Not modelled: the rest of pkg/libc_backends, which is a copy of the package of L4Re.
-- Sleeps, printing, interrupts, ports, the message streams, the object registry and the beginning of a
-- thread belong to L4Re: their answers are inputs, and the messages' words go by the interface
-- `Stream`. The keyboard driver's two threads meet only between whole rounds of its loop, since what a
-- list does that is read while it changes is not in the repository.
pub mod Base
pub mod Env
pub mod MemList
pub mod MemBitmap
pub mod MemBlocks
pub mod Keyboard
pub mod Console
pub mod Pong
pub mod Log
pub mod System
