-- ===== src/Lib.antt =====
-- OpenPA: portable atomic operations on `int` and pointers, and a shared-memory queue made from
-- them.
--
-- src/opa_primitives.h lists the operations that a platform has to provide and includes the header
-- of one platform from src/primitives. Platform headers build some operations from others by the
-- functions of src/primitives/opa_emulated.h. src/opa_queue.h and src/opa_queue.c give addresses
-- relative to a segment's base, which each process maps where it likes, and a queue with many
-- producers and one consumer whose links are such addresses.
--
-- Files.
--
-- - Base: library names passed on, comparisons as C has them, 32-bit words (Base.Word).
-- - Cell: one atomic variable as one thread sees it while others work on it. A world holds the
--   variable, the thread's load-link reservation, the accesses that the thread has made, and what
--   the other threads do before each of its next accesses (nothing, an event that loses the
--   reservation, writes). Each access of the source is one action; the operations are chains of
--   actions. Cell.Laws says what it means that an operation is atomic; Cell.Loop is `do … while` on
--   fuel.
-- - Emulated: src/primitives/opa_emulated.h, OPA_f as `f`, with the operation that it calls as a
--   parameter; Emulated.ByLlsc and Emulated.ByCas hold the proofs about its loops. Emulated.Retries
--   runs any number of threads in the loops on load-linked and store-conditional and in those on
--   compare-and-swap, one access a step; its child Invariant says what holds between the steps,
--   Moves keeps it, and Atomic draws the conclusions.
-- - Primitives: the interface of src/opa_primitives.h as a record, its calls as data, and what each
--   promises. Primitives.Reference is the reference semantics: what a call does to the value of the
--   variable and what it returns, in one piece.
-- - Selection: the header that src/opa_primitives.h includes, by the macros defined.
--   Selection.Chosen says what holds of the operations that a program then gets.
-- - Platform: one module per header. Ppc, Arm, X86, GccIntrinsics, Sun, Nt, Stdatomic and Sicortex
--   are opa_gcc_ppc.h, opa_gcc_arm.h, opa_gcc_intel_32_64_ops.h with its barrier header,
--   opa_gcc_intrinsics.h, opa_sun_atomic_ops.h, opa_nt_intrinsics.h, opa_c11_atomics.h and
--   opa_gcc_sicortex.h, each with a child Atomic for its proof. Ia64 is opa_gcc_ia64.h, whose
--   fetch-and-add and swap are not what they mean to be, with children Counts and Overwrites.
--   Unsafe is opa_unsafe.h, with a child Alone for the program of one thread. PentiumThree is
--   opa_gcc_intel_32_64_p3.h with its barrier header; its operations are those of X86.
--   Instructions, intrinsics and library functions are fields of a record with laws that state
--   their documentation.
-- - Locked: src/primitives/opa_by_lock.h, OPA_f as `f`, each a program of accesses and calls of the
--   lock (Locked.Accesses). Locked.Threads runs any number of threads, one access or call of the
--   lock a step; the mutex of the pthread library is a record with its documented laws. Locked.Body
--   compares each operation with the reference semantics, Locked.Invariant states what holds
--   between the steps and Locked.Moves keeps it, Locked.Order and Locked.Progress draw the
--   conclusions. Locked.Alone runs a call that no other thread disturbs; Locked.Counters is about
--   programs that share a counter. Locked.Init is OPA_Interprocess_lock_init of
--   src/opa_primitives.c.
-- - Shm and Queue: src/opa_queue.h and src/opa_queue.c, OPA_Shm_f and OPA_Queue_f as `f`.
--   Queue.Shape ties memory to a list; Queue.Runs, Queue.Ops, Queue.Dequeue and Queue.Calls hold
--   the proofs.
-- - Queue.Threads: the same queue with any number of producers and one consumer as a step relation,
--   one access to shared memory a step. Memory is addressed by offset in the segment, so that a
--   place has one name for all processes. The children prove an invariant: Invariant states it,
--   Owners, Producers, Swap, Takes and Consumers keep it step by step, Order and Peek draw the
--   conclusions. Solo and SoloConsumer compare a call that no other thread disturbs with Queue.
-- - Queue.Delayed: the steps of Queue.Threads with producers whose stores, to an element's contents too,
--   wait in a buffer and take effect late and in any order. Its state holds the memory and the
--   consumer of Queue.Threads, and the buffers. Invariant ties it to a state of Queue.Threads;
--   Frames, Writers, Stores, Passes, Deliveries, Links and Consumer keep that step by step, in
--   Simulation it follows for the reachable states, and Order draws the conclusions.
-- - Queue.Resets: the steps of Queue.Delayed where the consumer's reset of the head is late as well.
--   Ahead and Order compare it with Queue.Delayed, Timely finds the runs of that here.
-- - Tests: the theorems at concrete inputs.
--
-- Bounds. An `int` is its 32-bit pattern and wraps, also where C leaves signed overflow undefined.
-- Pointers are numbers below a modulus: 2 ^ 64 in Shm and Queue; in Platform a parameter, and where
-- a header selects instructions by OPA_SIZEOF_VOID_P, 2 ^ 32 or 2 ^ 64 by the size of a pointer
-- (Size of Base.Word). Such an instruction takes the size of the object that it works on, and its
-- laws are about objects of its own width and values that fit. A round of a retry loop fails only
-- by an event of another thread, so that fuel above the number of events ahead is enough. The busy
-- wait in the queue's `dequeue` takes fuel; one thread alone never gets to it on a queue that holds
-- its elements.
--
-- Not modelled. Memory is sequentially consistent, and a barrier leaves a mark in the trace and
-- orders nothing, except in Queue.Delayed and Queue.Resets. There the write barrier is a parameter,
-- a condition on the buffer under which the producer goes on, with the documented behaviour that no
-- store before it waits any longer: the next access is the swap of the tail, which acts on memory
-- at once and so is ordered behind those stores. In Queue.Resets a second such parameter says what
-- the compare-and-swap in `dequeue` waits for. The other stores of the consumer take effect in
-- order, and its loads read memory when they are made. The loads and stores with ordering of the
-- Itanium header, which the header disables, the macros of src/opa_util.h, whose assertion is
-- empty, and the test programs are left out.
pub mod Base
pub mod Cell
pub mod Emulated
pub mod Primitives
pub mod Platform
pub mod Selection
pub mod Shm
pub mod Queue
pub mod Locked
mod Tests
