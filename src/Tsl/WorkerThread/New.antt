-- ===== src/Tsl/WorkerThread/New.antt =====
-- Starting and deleting a worker of tsl/worker_thread.c, with the functions of tsl/threading.c and
-- tsl/cpumask.c that it calls, one call after the other: what each takes from the system and gives
-- back.
use tsl_sdr.Prelude.{
  ℕ, ◌+◌, ◌-◌, Bool, true, false, not, Option, none, some, List, [], ◌∷◌, if◌then◌else◌,
}
use tsl_sdr.Tsl.Result.{Result, a_ok, a_e_nomem, a_e_nothread, a_e_busy}
use tsl_sdr.Tsl.WorkerThread.Threads.{
  State, starting_up, ThreadState, thread_idle, thread_terminated,
}

-- The thread structures, mask structures and CPU sets that are allocated.
pub record World : Type 0 where
  pub threads : ℕ
  pub masks : ℕ
  pub sets : ℕ

-- What the system grants: memory for a mask structure, a CPU set and a thread structure, and the
-- thread. `in_set` is which CPUs the set has room for, which CPU_SET_S checks.
pub record Luck : Type 0 where
  pub mask_memory : Bool
  pub set_memory : Bool
  pub thread_memory : Bool
  pub starts : Bool
  pub in_set : ℕ → Bool

-- The CPUs in a `struct cpu_mask`.
abbrev pub CpuMask : Type 0
CpuMask = List ℕ

-- `cpu_mask_delete`; `has_set` is whether the structure has its set.
unfoldable pub cpu_mask_delete : (has_set : Bool) → World → World
cpu_mask_delete has_set w = record w {
  masks = w.masks - 1;
  sets = if has_set then w.sets - 1 else w.sets;
}

unfoldable pub cpu_mask_new : Luck → World → Result × Option CpuMask × World
cpu_mask_new luck w =
    if not luck.mask_memory
    then (a_e_nomem, none, w)
    else if not luck.set_memory
    then (a_e_nomem, none, cpu_mask_delete false (record w { masks = w.masks + 1 }))
    else (a_ok, some [], record w { masks = w.masks + 1; sets = w.sets + 1 })

unfoldable pub cpu_mask_set : Luck → CpuMask → ℕ → Result × CpuMask
cpu_mask_set luck mask cpu = (a_ok, if luck.in_set cpu then cpu ∷ mask else mask)

-- `struct thread` before it runs: its state and its mask.
pub record Thread : Type 0 where
  pub state : ThreadState
  pub mask : Option CpuMask

unfoldable pub thread_create : Luck → Option CpuMask → World → Result × Option Thread × World
thread_create luck mask w = if not luck.thread_memory then (a_e_nomem, none, w) else (
  a_ok,
  some (record { state = thread_idle; mask = mask }),
  record w { threads = w.threads + 1 },
)

unfoldable pub thread_start : Luck → Result
thread_start luck = if luck.starts then a_ok else a_e_nothread

abbrev pub is_idle : ThreadState → Bool
is_idle ThreadState.thread_idle = true
is_idle ThreadState.thread_running = false
is_idle ThreadState.thread_terminated = false

-- `thread_destroy`: the pointer that is left, and the system.
unfoldable pub thread_destroy : Thread → World → Result × Option Thread × World
thread_destroy thr w =
    if is_idle thr.state
    then (a_ok, none, record w { threads = w.threads - 1 })
    else (a_e_busy, some thr, w)

-- `struct worker_thread`
pub record WorkerThread : Type 0 where
  pub st : State
  pub thr : Option Thread
  pub mask : Option CpuMask

-- What a function of this file gives: its code, the worker, the caller's mask, and the system.
pub record Outcome : Type 0 where
  pub code : Result
  pub worker : WorkerThread
  pub caller_mask : Option CpuMask
  pub world : World

abbrev pub fresh_worker : WorkerThread
fresh_worker = record { st = starting_up; thr = none; mask = none }

-- `worker_thread_new_mask` after `thread_create`.
abbrev pub created : Luck → Option CpuMask → Result × Option Thread × World → Outcome
created luck mask (code, none, w) = record {
  code = code;
  worker = fresh_worker;
  caller_mask = mask;
  world = w;
}
created luck mask (code, some thr, w) =
    if luck.starts
    then record {
      code = a_ok;
      worker = record { st = starting_up; thr = some thr; mask = mask };
      caller_mask = none;
      world = w;
    }
    else record {
      code = thread_start luck;
      worker = record fresh_worker { thr = (thread_destroy thr w).1 };
      caller_mask = mask;
      world = (thread_destroy thr w).2;
    }

unfoldable pub worker_thread_new_mask : Luck → Option CpuMask → World → Outcome
worker_thread_new_mask luck mask w = created luck mask (thread_create luck mask w)

-- The end of `worker_thread_new`: a mask that the worker did not take is deleted.
abbrev pub cleaned : Outcome → Outcome
cleaned o = elim o.caller_mask [
  | none ↦ o
  | some mask ↦ record o { caller_mask = none; world = cpu_mask_delete true o.world }
]

-- `worker_thread_new` after `cpu_mask_new`. `old` is the memory that the caller passes.
abbrev pub masked : Luck → WorkerThread → ℕ → Result × Option CpuMask × World → Outcome
masked luck old cpu (code, none, w) = record {
  code = code;
  worker = old;
  caller_mask = none;
  world = w;
}
masked luck old cpu (code, some mask, w) =
    cleaned (worker_thread_new_mask luck (some (cpu_mask_set luck mask cpu).1) w)

-- `none` for WORKER_THREAD_CPU_MASK_ANY.
unfoldable pub worker_thread_new : Luck → WorkerThread → (cpu_core : Option ℕ) → World → Outcome
worker_thread_new luck old none w = cleaned (worker_thread_new_mask luck none w)
worker_thread_new luck old (some cpu) w = masked luck old cpu (cpu_mask_new luck w)

-- What the worker leaves when its thread exits: `__thread_wrapper_func` stores TERMINATED, and `st` is
-- the state of the worker then, which `__worker_thread_function` or a request has stored.
abbrev pub terminated : Option Thread → Option Thread
terminated none = none
terminated (some thr) = some (record thr { state = thread_terminated })

abbrev pub ended : (st : State) → WorkerThread → WorkerThread
ended st wt = record wt { st = st; thr = terminated wt.thr }

abbrev pub is_stopped : State → Bool
is_stopped State.state_idle = false
is_stopped State.starting_up = false
is_stopped State.running = false
is_stopped State.shutdown_requested = true
is_stopped State.shutdown = true

-- The end of `worker_thread_delete`. The pointer to the mask is NULL then, as the one to the thread
-- is.
abbrev pub unmasked : WorkerThread → World → Result × WorkerThread × World
unmasked wt w = elim wt.mask [
  | none ↦ (a_ok, wt, w)
  | some mask ↦ (a_ok, record wt { mask = none }, cpu_mask_delete true w)
]

-- `thread_join` leaves the thread idle; `joins` is whether `pthread_join` succeeds.
unfoldable pub thread_join : (joins : Bool) → Thread → Result × Thread
thread_join joins thr =
    if joins then (a_ok, record thr { state = thread_idle }) else (a_e_nothread, thr)

abbrev pub joined : (joins : Bool) → WorkerThread → Thread → World → Result × WorkerThread × World
joined joins wt thr w =
    if joins
    then (let (code, left, w') = thread_destroy (thread_join joins thr).1 w in
        unmasked (record wt { thr = left }) w')
    else ((thread_join joins thr).0, wt, w)

unfoldable pub worker_thread_delete :
    (joins : Bool) → WorkerThread → World → Result × WorkerThread × World
worker_thread_delete joins wt w =
    if not (is_stopped wt.st)
    then (a_e_busy, wt, w)
    else elim wt.thr [ none ↦ unmasked wt w | some thr ↦ joined joins wt thr w ]
