-- ===== src/Tsl/WorkerThread/Examples.antt =====
-- A worker of tsl/worker_thread.c from its start to its end.
use tsl_sdr.Prelude.{◌↔◌, ◌⊎◌, ◌≢◌, false, ◌≡◌, refl, inl, inr, true, false, none, some, ltb}
use tsl_sdr.Tsl.WorkerThread.Threads.{
  state_idle, running, shutdown_requested, shutdown, thread_running, working, exited, deleted,
  System, set_asking, IsStopped, Step, apply, begin, finish, flag, terminate, ask, request, delete,
  join, destroy, Reach, here, later, start,
}
use tsl_sdr.Tsl.Result.{a_e_nothread}
use tsl_sdr.Tsl.WorkerThread.New.{
  World, Luck, WorkerThread, cpu_mask_delete, cpu_mask_new, cpu_mask_set, thread_create,
  thread_start, thread_destroy, worker_thread_new_mask, worker_thread_new,
}
use tsl_sdr.Tsl.WorkerThread.Balance.{Balances, worker_thread_new-Balances}
use tsl_sdr.Tsl.WorkerThread.Stop.{Reach-StaysStopped}
use tsl_sdr.Tsl.WorkerThread.Delete.{Reach-freed}
use tsl_sdr.Tsl.WorkerThread.Finish.{stopped-deleted}

-- The worker works, and thread 7 asks it to stop.
abbrev at_work : System
at_work = record start { thread = thread_running; worker = working; st = running }

abbrev told : System
told = record at_work {
  st = shutdown_requested;
  asking = set_asking (set_asking at_work.asking 7 true) 7 false;
}

Reach-told : Reach start told
unfolding set_asking
Reach-told =
    later (later (later (later here (apply refl)) (begin refl refl)) (ask 7 (inl refl)))
      (request 7 refl)

Reach-over : (t : System) × Reach told t × (t.st ≡ shutdown) × (t.gone ≡ true)
Reach-over = (
  _,
  later
      (later
        (later (later (later (later here (finish refl)) (flag refl)) (terminate refl))
          (delete refl (inl refl)))
        (join refl refl))
      (destroy refl refl),
  refl,
  refl,
)

Reach-StaysStopped_example :
    IsStopped Reach-over.0.st × ((Reach-over.0.worker ≢ working) ⊎ (told.worker ≡ working))
Reach-StaysStopped_example = Reach-StaysStopped Reach-over.1 (inr refl)

Reach-freed_example :
    ((told.gone ≡ true) ↔ (told.owner ≡ deleted)) × ((told.gone ≡ false) ⊎ (told.worker ≡ exited))
Reach-freed_example = Reach-freed Reach-told

stopped-deleted_example : (t : System) × Reach told t × (t.owner ≡ deleted) × (t.gone ≡ true)
stopped-deleted_example = stopped-deleted told (inr refl) refl

-- A request whose load came before the worker's last store takes the state from SHUTDOWN back.
went_back :
    (s : System) × (t : System) × Reach start s
    × Step s t
    × (s.st ≡ shutdown)
    × (t.st ≡ shutdown_requested)
unfolding set_asking
went_back = (
  _,
  _,
  later
      (later (later (later (later here (apply refl)) (begin refl refl)) (ask 0 (inl refl)))
        (finish refl))
      (flag refl),
  request 0 refl,
  refl,
  refl,
)

-- A system that grants all but the thread.
abbrev no_thread : Luck
no_thread = record {
  mask_memory = true;
  set_memory = true;
  thread_memory = true;
  starts = false;
  in_set = λ cpu. ltb cpu 8;
}

abbrev some_world : World
some_world = record { threads = 3; masks = 1; sets = 1 }

abbrev unused : WorkerThread
unused = record { st = state_idle; thr = none; mask = none }

fails_to_start : (worker_thread_new no_thread unused (some 2) some_world).code ≡ a_e_nothread
unfolding worker_thread_new worker_thread_new_mask cpu_mask_new cpu_mask_set thread_create
    thread_start thread_destroy cpu_mask_delete
fails_to_start = refl

-- A system that grants all.
abbrev granting : Luck
granting = record no_thread { starts = true }

worker_thread_new-Balances_example :
    Balances shutdown_requested some_world (worker_thread_new granting unused (some 2) some_world)
worker_thread_new-Balances_example =
    worker_thread_new-Balances granting some_world unused (some 2) shutdown_requested refl
