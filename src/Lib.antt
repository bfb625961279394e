-- ===== src/Lib.antt =====
-- TSL-SDR: software defined radio tools and the support library TSL under them. This library models
-- the core of the program in shallow embedding and proves what makes it correct.
--
-- Parts and files
--  * Prelude: shared names, tests on numbers, lists, integers, xor and masks, and the search over
--    all small numbers that proves table facts (Prelude/Search).
--  * Pager/Bch: pager/bch_code.c, the error correction of pager messages. Code is `struct
--    bch_code`; Field is `generate_gf`, Generator `gen_poly`, Encode `bch_code_encode`, Decode
--    `bch_code_decode`, New `bch_code_new`. An array is a list of words and an access out of its
--    bounds is `none`. Code31 computes the tables of BCH(31, 21, 5), Powers, Syndromes, Register,
--    Codeword, Toggle, Plan, Correction, Detection and RoundTrip hold the proofs. The callers use
--    the code with 31-word arrays, 21 of them message.
--  * Tsl/Result: the result codes of tsl/result.h and tsl/errors.h.
--  * Tsl/FrameAlloc: tsl/frame_alloc.c, the lock-free allocator of fixed frames. Ops has its
--    functions without interference; Threads has the loops of `_frame_alloc_pop_free` and
--    `_frame_alloc_push_free` as steps of any number of threads, one access to shared memory each.
--    Chain says that memory holds a free list, Laws is about Ops, Stack is their contract for one
--    client, Invariant and Safety are about Threads, Race about the read through NULL.
--  * Tsl/RbTree: tsl/rbtree.c and the inline functions of tsl/rbtree.h on a heap of nodes. Heap is
--    the memory and the commands on it, Walk the searches, Rotate, Insert and Remove the rest. The
--    comparison function is an argument. Shape says that memory holds a tree and that it is in
--    order, Find is about the search, Extremes about the walks to the ends, Frame about memories
--    that agree on a tree, First about the first insertion, Duplicate about one under a key that
--    is there.
--  * Tsl/WorkQueue: tsl/work_queue.h. Ring is what it uses of Concurrency Kit's ring, with the
--    laws that its documentation gives; Ops has the functions, New the sizes that a queue can have,
--    Spec the bounded queue they stand for, Refine the refinement under those laws.
--  * Tsl/RefCnt: tsl/refcnt.h. Ops has the functions without interference, Laws what sequences of
--    them come to; Threads has `refcnt_get` and `refcnt_release` as steps, Race two interleavings.
--  * Tsl/Parsers: tsl/parsers.c. Strtoull is the C library's function, Ops the two parsers,
--    MemBytes and Interval what they answer.
--  * Tsl/Clock: `tsl_calc_clockfreq` of tsl/time.c. Ops is the function with its loop round by round,
--    Parse what it reads from a line with a decimal number.
--  * Tsl/TicketLock: tsl/ticket_lock.h. Word is the lock's 64-bit word, Threads the functions as
--    steps of many threads, Invariant and Exclusion what their runs keep, and Progress that a
--    thread whose turn has come gets the lock.
--  * Filter: filter/complex.h (Fixed; Magnitude is about the size of its results) and
--    filter/direct_fir.c over filter/sample_buf.h and filter/sample_buf.c (DirectFir). State is
--    the filter and the buffers in memory, which filter and application share by reference counts;
--    Setup and Ops the functions; Convolve the stream of samples and the sum that a pass stands
--    for; Sum, Buffers, Stream and Move are about the parts of a pass, Decimate and Run about
--    whole runs, Bounds about overflow, Push about what goes before a run and Ends about the
--    rounds of the loop.
--  * Filter/Polyphase: filter/polyphase_fir.c with the sums of filter/utils.c. Ops has the
--    functions, Places and Layout are about where the coefficients go, Dot about a sum over one or
--    two buffers, Stream, Advance and Window about one sample, Resample about whole runs.
--  * Tsl/WorkerThread: tsl/worker_thread.c over tsl/threading.c and tsl/cpumask.c. Threads has the
--    worker, its owner and the threads that ask it to stop as steps, one access to shared memory
--    each; Stop, Delete and Finish are about their runs. New has the functions one after the other
--    with what they take from the system, Balance is about giving it back.
--  * Tsl/LinkedList: tsl/list.h. Ops has the functions on memory, Ring what memory holds a list,
--    Segment, Add and Del are about one write to it, Calls and Run about any number of them, Splice
--    about two lists that become one, Checked about the additions that look for the entry first.
--
-- Bounds and fuel
--  * The filters' loops over their buffers run on fuel; two rounds are enough on a filter whose
--    buffers have one size, and one more than the coefficients and the first round in any state
--    whose next buffer is not empty. Signed overflow is `none`, like a failed TSL_BUG_ON.
--  * Numbers are natural numbers; 64-bit counters and sizes wrap (`% 2 ^ 64`). The loop of
--    `_frame_alloc_init` runs on a fuel of the region's bytes, which is enough since a frame has
--    at least one. The loops of `gen_poly` are bounded by the rows and columns of its arrays. The
--    loops of the tree run on fuel, and running out of it is a result of its own.
--  * A run of the ticket lock has fewer than 2 ^ 32 tickets in flight in each state, which fewer
--    than 2 ^ 32 threads guarantee.
--  * Threads of the frame allocator take the swap of the head as one step, which compares the
--    pointer and the counter. The invariant is for fewer than 2 ^ 64 successful swaps, before the
--    counter can come round.
--
-- Not modelled
--  * Third-party and system code: Concurrency Kit, Jansson, librtlsdr, the allocators. What a
--    function gets from them (allocation, `mmap`) is an argument.
--  * The ARM NEON variant of the direct filter, the resampler's main program and the demodulators
--    (vector intrinsics, floating point, files), the device driver, the configuration engine,
--    process set-up, coroutines, the bulk allocator, the test framework.
--  * Logging, and the assertions on NULL arguments where the model's arguments cannot be NULL.
pub mod Filter
pub mod Pager
pub mod Prelude
pub mod Tsl
