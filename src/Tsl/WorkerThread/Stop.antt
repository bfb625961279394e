-- ===== src/Tsl/WorkerThread/Stop.antt =====
-- A stop of a worker of tsl/worker_thread.c is for good.
use tsl_sdr.Prelude.{◌⊎◌, ◌≡◌, ◌≢◌, refl, inl, inr}
use tsl_sdr.Tsl.WorkerThread.Threads.{
  State, starting_up, working, spawned, called, returned, leaving, exited, Worker, System,
  IsStopped, Step, apply, apply_fails, begin, cancel, finish, flag, terminate, ask, request, delete,
  join, join_fails, destroy, destroy_busy, Reach, here, later,
}

-- What holds from a stop on: the state is stopped, and the worker has not gone to work since.
abbrev pub StaysStopped : System → System → Type 0
StaysStopped s t = IsStopped t.st × ((t.worker ≢ working) ⊎ (s.worker ≡ working))

pub stopped-not_starting : (st : State) → IsStopped st → st ≢ starting_up
stopped-not_starting st (inl e) f = absurd cc
stopped-not_starting st (inr e) f = absurd cc

working-cases : (w : Worker) → (w ≢ working) ⊎ (w ≡ working)
working-cases working = inr refl
working-cases spawned = inl (λ e. absurd cc)
working-cases called = inl (λ e. absurd cc)
working-cases returned = inl (λ e. absurd cc)
working-cases leaving = inl (λ e. absurd cc)
working-cases exited = inl (λ e. absurd cc)

Step-StaysStopped : (s : System) {t u : System} → Step t u → StaysStopped s t → StaysStopped s u
Step-StaysStopped s (apply e) (stop, same) = (stop, inl (λ f. absurd cc))
Step-StaysStopped s (apply_fails e) (stop, same) = (stop, inl (λ f. absurd cc))
Step-StaysStopped s {t} (begin e f) (stop, same) = absurd (stopped-not_starting t.st stop f)
Step-StaysStopped s (cancel e f) (stop, same) = (stop, inl (λ f. absurd cc))
Step-StaysStopped s (finish e) (stop, same) = (stop, inl (λ f. absurd cc))
Step-StaysStopped s (flag e) (stop, same) = (inl refl, inl (λ f. absurd cc))
Step-StaysStopped s (terminate e) (stop, same) = (stop, inl (λ f. absurd cc))
Step-StaysStopped s (ask i e) (stop, same) = (stop, same)
Step-StaysStopped s (request i e) (stop, same) = (inr refl, same)
Step-StaysStopped s (delete e f) (stop, same) = (stop, same)
Step-StaysStopped s (join e f) (stop, same) = (stop, same)
Step-StaysStopped s (join_fails e) (stop, same) = (stop, same)
Step-StaysStopped s (destroy e f) (stop, same) = (stop, same)
Step-StaysStopped s (destroy_busy e f) (stop, same) = (stop, same)

-- From any state in which the worker is stopped or told to stop, whatever the threads do in
-- whatever order: it stays so, in particular it never counts as running again, and the work
-- function is not entered any more.
pub Reach-StaysStopped :
    {s t : System}
    → Reach s t
    → IsStopped s.st
    → IsStopped t.st × ((t.worker ≢ working) ⊎ (s.worker ≡ working))
Reach-StaysStopped {s} here stop = (stop, working-cases s.worker)
Reach-StaysStopped {s} (later r st) stop = Step-StaysStopped s st (Reach-StaysStopped r stop)
