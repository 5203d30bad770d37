-- ===== src/Lib.antt =====
-- A model of parts of duckOS, a hobby operating system in C++, with theorems about them. Each
-- definition is translated from the file that its module names; paths are from the root of the
-- repository.
-- Prelude: Boolean tests, lists over the native numbers, 32-bit size_t arithmetic (the i386
-- kernel; every sum and difference of the source wraps here too, where nothing else is said), and
-- Outcome, which is Result and ResultRet of kernel/Result.hpp with one case more, fault, for a run
-- that a failed ASSERT or a bad pointer stops.
-- Memory/VmSpace: kernel/memory/VMSpace.h and VMSpace.cpp, the address spaces of the kernel and of
-- its processes. The doubly linked list of VMSpaceRegion is the list of the regions in the order
-- of next, and prev is the region before; a VMSpaceRegion pointer is a position in that list.
-- VmSpace.antt has what the allocating and freeing calls do to that list: alloc_in, alloc_at_in
-- and free_in are the loops of alloc_space, alloc_space_at and free_region. Space.antt has the
-- methods over the whole object, under their names in the source; the two overloads of
-- unmap_region are unmap_region and unmap_region_at. The page directory is an interface
-- (PageDirectory) that is told of each VMRegion to map and to unmap; the results of its calls are
-- not read by the source. A VMRegion is identified by a number that stands for its address. Each
-- call runs alone, as under m_lock; fork, try_pagefault, iterate_regions and
-- calculate_regular_anonymous_total are not modelled, since they live from the memory objects
-- behind the regions. None of these definitions takes fuel: each loop goes once over the list.
-- Memory/BuddyZone: kernel/memory/BuddyZone.h and BuddyZone.cpp. BuddyZone.antt has the methods
-- under their names: an order has its bitmap as a list of bits and the head of its linked list,
-- none for the index -1; Pages are the members free of the PhysicalPages that the zone reaches,
-- which are its own and the page before the first, since get_block(-1) is that page. Casts to
-- int16_t change nothing, since blocks are below 2^10. Indices of pages are below 2^20, since
-- addresses have 32 bits, and their sums are not wrapped; the counts of free pages are. The two
-- recursions go over m_orders from their order up to the highest, so the assertion at their start
-- is the end of that list. alloc_at and free_at pick m_orders[order] and keep the lower orders.
-- Listed has the same free blocks as lists, for the proofs: Blocks, Counts, Alloc and Free are
-- about these, Links, Rewired, Neighbours and Unlink about the linked lists, Refine and Release
-- join the two, Calls, Start, Tiles and Reach go up to the calls. highest_bit has fuel 32, for the
-- bits of an unsigned int; order_for of 0 pages, for which __builtin_clz is undefined, is 0 here.
-- size_of_order is the power of two that 1 << order is for orders below 32; the orders of a zone
-- are at most max_order, and is_size, the test in the two assertions on a number of pages, fails
-- for an order from 32 on, where C++ gives the shift no value. Balance has the number of free
-- pages, Single the calls for one page, Before what a free leaves alone. Not modelled: the
-- getters, and the memory of Bitmap.
-- Memory/PhysicalRegion: kernel/memory/PhysicalRegion.h and PhysicalRegion.cpp.
-- PhysicalRegion.antt has the methods under their names (new_region is the constructor,
-- init_region is init) over the array of physical pages of MemoryManager; a call on a zone gets
-- its view of that array and writes it back, so that zones share it, the page before each zone
-- included. Fuel for the loop of the constructor is one pass more than there are pages, which is
-- enough since each pass takes at least one page. Zones has what the constructor makes, Frames
-- what a call on one zone leaves of the others, Loops and Frees the loops over the zones, Steps
-- one call for a single page, Calls any sequence of these, between which the users of held pages
-- may overwrite their entries, since PhysicalPage is a union. Each call runs alone, as under
-- m_lock. Not modelled: the destructor, which only frees the zones.
-- Kstd: kernel/kstd. Ring is the storage, capacity, size, front and back that circular_queue.hpp
-- and queue.hpp both have, with the code that they share; a slot is none while no object lives in
-- it, so a read of an uninitialised or destroyed object shows as none. CircularQueue has the calls
-- of kstd::circular_queue under their names, and Queue those of the growing kstd::queue, where a
-- capacity of zero stands for the null storage. The copies, the moves and the destructor, which
-- the two have word for word, are in Ring too; where an assignment frees the storage that was
-- there, nothing of it is left to see. The loop of contains runs on fuel, the capacity, which is
-- enough to find what the queue holds.
-- Filesystem: kernel/filesystem. Pipe is Pipe.h and Pipe.cpp over Kstd.CircularQueue: the queue,
-- the counts of readers and writers, and the flag of the BooleanBlocker. Each call is one step
-- under the lock of the pipe; a reader that blocks takes what happens to the pipe in the meantime,
-- and whether a signal came, as arguments. Bytes are numbers, a delivered byte is an Option as a
-- slot of the ring is. Not modelled: the SIGPIPE that goes with broken_pipe.
-- Tasking: kernel/tasking. Mutex is Mutex.h and Mutex.cpp with tasking enabled and no panic. A
-- call is cut into the pieces that other threads cannot get between: one round of the loop of
-- acquire_with_mode (the compare-exchange, and tests of local variables), the count behind it, and
-- the whole of release, which runs with preemption off on the one CPU. Mutex.Threads interleaves
-- these pieces for any number of threads. m_times_locked is kept as 32 bits; it is only counted up
-- and down and tested for 1, so its sign is not seen. Not modelled: acquire_and_enter_critical and
-- ScopedCriticalLocker, the records that a thread keeps of its locks, and yield, which shows as
-- steps of other threads.
-- Libterm: libraries/libterm, as the kernel builds it (atoi is that of kernel/kstd/kstdlib.cpp).
-- Types has types.h and the calls of Listener.h as data; Screen has the rows of the screen and the
-- in-place loops over them; Terminal is Terminal.h and Terminal.cpp under the names of the
-- methods, with what the listener has been told as a list, Terminal/Escapes the escape sequences,
-- Terminal/Writing write_codepoint and handle_keypress, Utf8 the static decoder of write_char.
-- Screen/Text has what a listener can make of its calls. Numbers are natural and do not wrap,
-- since sizes and cursors stay far below 2^31; atoi wraps. Keys that are no arrows are one
-- constructor. Not modelled: a client that calls set_cursor or set_character itself.
-- Libgraphics: libraries/libgraphics. Geometry is Geometry.h for int coordinates, the integers of
-- Prelude/Int; where the source overflows an int, its behaviour is undefined and the model says
-- nothing. Methods that share their name with another class have it in theirs (is_in,
-- constrain_point, add_points). Not modelled: the conversions, the printing, and what uses
-- floating point (distance_to, scaled).
-- Terminal: kernel/terminal. TtyDevice is the line discipline of TTYDevice.h and TTYDevice.cpp
-- over Kstd.CircularQueue: the input buffer, the flag of the BooleanBlocker, the count of lines
-- (kept modulo 2^32; the source only adds to it, subtracts from it and tests it for zero), and the
-- flags and control characters of termios that the code reads. Echoes and signals are recorded in
-- order. The loops that erase run for as many rounds as there are bytes, one byte each; a reader
-- takes what happens before each time that it is woken as an argument. Lines has the canonical
-- reads, Typing follows the keys of a line to its reader, EndOfFile the end of file key.
-- Libduck: libraries/libduck. FilePath is the class Path of Path.h and Path.cpp; a std::string is
-- the list of its characters. The loops that cut a text at its slashes are split, and temp_parts
-- is kept with its last part first, which is the end that the source works at. Split has the laws
-- of cutting and joining, Clean what the constructor keeps, Relative operator/ and parent, Parts
-- what rebuild_parts finds. The calls to the file system are not modelled. AtomicCircularQueue is
-- AtomicCircularQueue.h: each call is cut at its atomic accesses to what the other thread may
-- change, and the actions of one pushing and one popping thread come in any order; push_wait and
-- pop_wait are tries in a row. Positions has the slots behind counters that wrap at 2^32, Order
-- what holds between two actions, Steps each action, Interleaved any sequence of them.
-- Hypotheses on code outside of the modelled files: none but the page directory interface above,
-- which has no laws.
pub mod Filesystem
pub mod Kstd
pub mod Libduck
pub mod Libgraphics
pub mod Libterm
pub mod Memory
pub mod Prelude
pub mod Tasking
pub mod Terminal
