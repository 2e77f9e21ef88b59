-- ===== src/Lib.antt =====
-- Rambrain lets a program use more memory than there is RAM: chunks of memory are swapped out to files
-- (or, for tests, to other buffers) when they are not in use, and in again before they are used. This
-- library models its core in C++, src/, in the default build (PARENTAL_CONTROL off, without the
-- statistics of SWAPSTATS and without the Windows shims).
--
-- Parts and files:
--   Prelude        shared names, Boolean tests, lists, and 64-bit words (global_bytesize wraps)
--   Chunk          src/managedMemoryChunk.h: memoryStatus and managedMemoryChunk
--   World          the members of managedMemory, managedSwap and cyclicManagedMemory as one record,
--                  with claimUsageof and claimTobefreed
--   Outcome        what a call on a world can do: return, throw, still wait, read through NULL
--   Links, Cycle   src/cyclicManagedMemory.cpp: the ring of cyclicAtime elements, schedulerRegister,
--                  schedulerDelete, touch and the two setters; Cycle.Filter: filterChain, insertBefore;
--                  Cycle.SwapOut: swapOut, untouch; Cycle.Decay: decay; Cycle.Check: checkCycle;
--                  Cycle.SwapIn: swapIn, with what it computes in floating point numbers as the
--                  parameter Surroundings
--   Manager        src/managedMemory.cpp: setUse, prepareUse, unsetUse, waitForSwapin, waitForSwapout
--   Space          src/managedMemory.cpp: ensureEnoughSpace, setMemoryLimit, mmalloc, mfree,
--                  linearMfree
--   DummySwap      src/managedDummySwap.cpp: swapOut, swapIn and swapDelete, which copy at once
--   PageFile       src/managedFileSwap.cpp: the allocator of page file space, pfmalloc, allocInFree
--                  and pffree
--                  PageFile.Free: what pffree does; PageFile.Reuse: pfmalloc and pffree together;
--                  PageFile.Ledger: the specification by the map of the locations in use (PageFile.View);
--                  PageFile.Extend: the constructor's layout, extendSwap, extendSwapByPolicy
--   FileSwap       src/managedFileSwap.cpp: copyMem, scheduleCopy, completeTransactionOn; Arrival:
--                  asyncIoArrived, checkForAIO; Chunks: swapIn, swapOut, swapDelete,
--                  cleanupCachedElements, invalidateCacheFor
--   Pointer        src/genericManagedPtr.cpp: the reference counts of the pointers to chunks
--   Adhere         src/managedPtr.h: adhereTo, with setUse, getLocPtr, getConstLocPtr and waitForSwapin of
--                  a pointer; genericAdhereTo in src/genericManagedPtr.cpp is the same code
--   Typed          src/managedPtr.h: the constructor of managedPtr<T, 1> and mDelete, with the elements
--   Config         src/configreader.cpp: the options and the reader of the configuration files
--   Examples       runs on a manager with three chunks, two page files and a configuration
--
-- How they interact: Manager and Space call the scheduler (a subclass of managedMemory) and the swap
-- through the record Manager.Backend, as the source does through virtual functions. Manager.Use.IsQuiet
-- and Space.Alloc.KeepsAccount state what their theorems assume of the scheduling functions, and
-- Cycle.Accounts shows that the ring has it. Examples.State ties the ring and the dummy swap to a
-- Backend. Theorems on unsetUse with a chunk that stays in RAM assume what Manager.Mode states:
-- preemptive swapping out is turned off, untouch then returns at once (Examples.Quiet shows it of the
-- ring), and no scheduling function turns it on. FileSwap runs the allocator of PageFile on its own page file and books in World; the
-- kernel's reports are the events of FileSwap.Arrival, in any order. Adhere and Typed call Manager and
-- Space, as the pointers of a program do. A pointer is an address in a record of maps, with 0 for NULL;
-- what new and _mm_malloc return is an argument. Calls of src/common.h's locks act on the field
-- state_locked.
--
-- Loops: the waits for a transfer, ensureEnoughSpace and pffree run on fuel, because other threads and
-- arriving transfers act between rounds (Backend.wait_for_aio), or because the source follows pointers,
-- as filterChain and the walk over the parts of a chunk do: one more than there are elements is enough.
-- A theorem that such a call returns gives the fuel that is enough: one round more than there are
-- waits, two rounds for ensureEnoughSpace after one swapOut. All other loops recurse on a list.
--
-- Not modelled: the multi-dimensional pointers, operator[] and the critical section of
-- src/managedPtr.h, mrealloc; the threads that submit requests and poll for events; printing and
-- statistics, the C interface, the Windows shims, which keep no state of the core. std::regex with the
-- patterns of src/regexmatcher.cpp is the interface Config.RegexMatcher, and std::unique is a parameter.
pub mod Prelude
pub mod Adhere
pub mod Chunk
pub mod Links
pub mod World
pub mod Outcome
pub mod Cycle
pub mod Manager
pub mod Space
pub mod DummySwap
pub mod PageFile
pub mod FileSwap
pub mod Config
pub mod Pointer
pub mod Typed
pub mod Examples
