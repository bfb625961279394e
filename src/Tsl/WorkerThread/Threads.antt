-- ===== src/Tsl/WorkerThread/Threads.antt =====
-- The functions of tsl/worker_thread.c run by the worker, its owner and any number of threads that
-- ask it to stop, over the threads of tsl/threading.c: a step is one access to shared memory.
use tsl_sdr.Prelude.{ℕ, ◌≡◌, ◌≢◌, ◌⊎◌, Bool, true, false, ◌==◌, if◌then◌else◌}

-- `enum worker_thread_state` and `enum thread_state`
pub data State : Type 0 where
  state_idle starting_up running shutdown_requested shutdown : State

pub data ThreadState : Type 0 where
  thread_idle thread_running thread_terminated : ThreadState

-- `__thread_wrapper_func` and, in it, `__worker_thread_function`: before the CPU mask is applied,
-- before the compare and swap, in the work function, before the store of SHUTDOWN, before that of
-- TERMINATED, and after it.
pub data Worker : Type 0 where
  spawned called working returned leaving exited : Worker

-- The owner in `worker_thread_delete`: before the join, before the thread is destroyed, after it.
pub data Owner : Type 0 where
  away joining destroying deleted : Owner

-- `gone` is whether the thread's memory is freed. `asking` are the threads in
-- `worker_thread_request_shutdown` between its load and its store.
pub record System : Type 0 where
  pub st : State
  pub thread : ThreadState
  pub worker : Worker
  pub owner : Owner
  pub gone : Bool
  pub asking : ℕ → Bool

unfoldable pub set_asking : (ℕ → Bool) → ℕ → Bool → ℕ → Bool
set_asking asking i b j = if j == i then b else asking j

-- The tests of `worker_thread_request_shutdown` and of `worker_thread_delete`.
abbrev pub IsActive : State → Type 0
IsActive st = (st ≡ running) ⊎ (st ≡ starting_up)

abbrev pub IsStopped : State → Type 0
IsStopped st = (st ≡ shutdown) ⊎ (st ≡ shutdown_requested)

pub data Step (s : System) : System → Type 0 where
  -- The wrapper applies the CPU mask, or leaves when it cannot.
  apply : s.worker ≡ spawned → Step s (record s { worker = called; thread = thread_running })
  apply_fails : s.worker ≡ spawned → Step s (record s { worker = leaving })
  -- The compare and swap.
  begin :
      s.worker ≡ called → s.st ≡ starting_up → Step s (record s { worker = working; st = running })
  cancel : s.worker ≡ called → s.st ≢ starting_up → Step s (record s { worker = returned })
  -- The work function returns, and the worker's last stores.
  finish : s.worker ≡ working → Step s (record s { worker = returned })
  flag : s.worker ≡ returned → Step s (record s { worker = leaving; st = shutdown })
  terminate : s.worker ≡ leaving → Step s (record s { worker = exited; thread = thread_terminated })
  -- `worker_thread_request_shutdown`: the load, which goes on to the store if the state is active.
  ask : (i : ℕ) → IsActive s.st → Step s (record s { asking = set_asking s.asking i true })
  request :
      (i : ℕ)
      → s.asking i ≡ true
      → Step s (record s { st = shutdown_requested; asking = set_asking s.asking i false })
  -- `worker_thread_delete`: the load, which goes on to the join if the state is stopped; the join,
  -- which waits for the thread to exit, or fails, and then the function returns and can be called
  -- again; and the test in `thread_destroy`.
  delete : s.owner ≡ away → IsStopped s.st → Step s (record s { owner = joining })
  join :
      s.owner ≡ joining
      → s.worker ≡ exited
      → Step s (record s { owner = destroying; thread = thread_idle })
  join_fails : s.owner ≡ joining → Step s (record s { owner = away })
  destroy :
      s.owner ≡ destroying
      → s.thread ≡ thread_idle
      → Step s (record s { owner = deleted; gone = true })
  destroy_busy :
      s.owner ≡ destroying → s.thread ≢ thread_idle → Step s (record s { owner = deleted })

pub data Reach (s : System) : System → Type 0 where
  here : Reach s s
  later : {t u : System} → Reach s t → Step t u → Reach s u

-- After `worker_thread_new`.
abbrev pub start : System
start = record {
  st = starting_up;
  thread = thread_idle;
  worker = spawned;
  owner = away;
  gone = false;
  asking = λ _. false;
}
